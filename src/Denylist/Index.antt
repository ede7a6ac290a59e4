-- ===== src/Denylist/Index.antt =====
-- `New` of internal/denylist/denylist.go indexes exactly the listed identities.
use agent_identity_plane.Prelude.{
  ◌≡◌, refl, sym, false, not, ◌||◌, List, [], ◌∷◌, Option, some, ok, arith, fail_if, >>=-eq-ok,
}
use agent_identity_plane.Prelude.Int.{pos, eq_ℤ}
use agent_identity_plane.Prelude.Text.{Text, text_eq}
use agent_identity_plane.Prelude.Assoc.{lookup, insert, lookup-insert}
use agent_identity_plane.Token.Claims.{contains}
use agent_identity_plane.Denylist.{
  IdSet, Kind, invalid_version, Url, File, Denied, listed, has, index_exact, index_uri, new,
  has_agent, has_workload, has_principal,
}

listed-insert :
    (id t : Text) (m : IdSet)
    → listed (lookup t (insert id tt m)) ≡ (listed (lookup t m) || text_eq id t)
listed-insert id t m = ground (arith, lookup-insert id t tt m)

listed-index_exact :
    (dst out : IdSet) (ids : List Text) (kind : Kind) (t : Text)
    → index_exact dst ids kind ≡ ok out
    → listed (lookup t out) ≡ (listed (lookup t dst) || contains ids t)
unfolding index_exact contains
listed-index_exact dst out [] kind t h = ground arith
listed-index_exact dst out (id ∷ ids) kind t h =
    ground (arith, listed-index_exact (insert id tt dst) out ids kind t, listed-insert id t dst)

listed-index_uri :
    (parse_url : Text → Option Url) (dst out : IdSet) (ids : List Text) (kind : Kind) (t : Text)
    → index_uri parse_url dst ids kind ≡ ok out
    → listed (lookup t out) ≡ (listed (lookup t dst) || contains ids t)
unfolding index_uri contains
listed-index_uri parse_url dst out [] kind t h = ground arith
listed-index_uri parse_url dst out (id ∷ ids) kind t h =
    ground
      (arith, listed-index_uri parse_url (insert id tt dst) out ids kind t, listed-insert id t dst)

contains_of_empty_id :
    (ids : List Text) (dst out : IdSet) (kind : Kind)
    → index_exact dst ids kind ≡ ok out
    → contains ids [] ≡ false
unfolding index_exact contains text_eq
contains_of_empty_id [] dst out kind h = refl
contains_of_empty_id ([] ∷ ids) dst out kind h = cc
contains_of_empty_id ((b ∷ id) ∷ ids) dst out kind h =
    ground (arith, contains_of_empty_id ids (insert (b ∷ id) tt dst) out kind)

contains_of_empty_uri :
    (parse_url : Text → Option Url) (ids : List Text) (dst out : IdSet) (kind : Kind)
    → index_uri parse_url dst ids kind ≡ ok out
    → contains ids [] ≡ false
unfolding index_uri contains text_eq
contains_of_empty_uri parse_url [] dst out kind h = refl
contains_of_empty_uri parse_url ([] ∷ ids) dst out kind h = cc
contains_of_empty_uri parse_url ((b ∷ id) ∷ ids) dst out kind h =
    ground (arith, contains_of_empty_uri parse_url ids (insert (b ∷ id) tt dst) out kind)

has-contains :
    (m : IdSet) (ids : List Text) (t : Text)
    → contains ids [] ≡ false
    → listed (lookup t m) ≡ contains ids t
    → has m t ≡ contains ids t
unfolding has
has-contains m ids [] e h = sym e
has-contains m ids (b ∷ t) e h = h

has-index_exact :
    (out : IdSet) (ids : List Text) (kind : Kind) (t : Text)
    → index_exact [] ids kind ≡ ok out
    → has out t ≡ contains ids t
has-index_exact out ids kind t h =
    has-contains out ids t (contains_of_empty_id ids [] out kind h)
      (unfold lookup in listed-index_exact [] out ids kind t h)

has-index_uri :
    (parse_url : Text → Option Url) (out : IdSet) (ids : List Text) (kind : Kind) (t : Text)
    → index_uri parse_url [] ids kind ≡ ok out
    → has out t ≡ contains ids t
has-index_uri parse_url out ids kind t h =
    has-contains out ids t (contains_of_empty_uri parse_url ids [] out kind h)
      (unfold lookup in listed-index_uri parse_url [] out ids kind t h)

-- An index that `New` accepts denies exactly the identities that the file lists, of each kind, by
-- exact match.
pub new_exact :
    (parse_url : Text → Option Url) (f : File) (d : Denied) (t : Text)
    → new parse_url f ≡ ok d
    → (has_agent (some d) t ≡ contains f.agents t)
      × (has_workload (some d) t ≡ contains f.workloads t)
      × (has_principal (some d) t ≡ contains f.principals t)
unfolding new has_agent has_workload has_principal
new_exact parse_url f d t h =
    let (u, _, h1) = >>=-eq-ok (fail_if (not (eq_ℤ f.version (pos 1))) invalid_version) _ h in
    let (a, ha, h2) = >>=-eq-ok (index_uri parse_url [] f.agents Kind.agent) _ h1 in
    let (w, hw, h3) = >>=-eq-ok (index_uri parse_url [] f.workloads Kind.workload) _ h2 in
    let (p, hp, h4) = >>=-eq-ok (index_exact [] f.principals Kind.principal) _ h3 in
    (
      ground (arith, has-index_uri parse_url a f.agents Kind.agent t ha),
      ground (arith, has-index_uri parse_url w f.workloads Kind.workload t hw),
      ground (arith, has-index_exact p f.principals Kind.principal t hp),
    )
