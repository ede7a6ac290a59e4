-- ===== src/Token/Scope/Sets.antt =====
-- What the set operations of internal/token/claims.go do to membership.
use agent_identity_plane.Prelude.{◌≡◌, refl, ◌↔◌, true, ◌&&◌, ◌||◌, List, [], ◌∷◌, arith, All}
use agent_identity_plane.Prelude.Text.{Text, text_eq, text_eq_iff}
use agent_identity_plane.Prelude.Fields.{fields}
use agent_identity_plane.Prelude.Words.{IsWord, fields-IsWord}
use agent_identity_plane.Token.Scope.{
  ScopeNames, has, add, add_all, scope_set, subset, intersect, copy_set,
}

pub has-add : (set : ScopeNames) (p t : Text) → has (add set p) t ≡ (has set t || text_eq p t)
unfolding has add
has-add [] p t = ground arith
has-add (s ∷ set) p t =
    ground (arith, has-add set p t, text_eq_iff s p, text_eq_iff s t, text_eq_iff p t)

pub has-add_all :
    (out : ScopeNames) (ps : List Text) (t : Text)
    → has (add_all out ps) t ≡ (has out t || has ps t)
unfolding has add_all
has-add_all out [] t = ground arith
has-add_all out (p ∷ ps) t = ground (arith, has-add_all (add out p) ps t, has-add out p t)

-- A scope set holds the words of the scope.
pub has-scope_set : (scope t : Text) → has (scope_set scope) t ≡ has (fields scope) t
unfolding scope_set
has-scope_set scope t = unfold has in has-add_all [] (fields scope) t

pub has-copy_set : (set : ScopeNames) (t : Text) → has (copy_set set) t ≡ has set t
unfolding copy_set
has-copy_set set t = unfold has in has-add_all [] set t

pub has-intersect : (a b : ScopeNames) (t : Text) → has (intersect a b) t ≡ (has a t && has b t)
unfolding has intersect
has-intersect [] b t = refl
has-intersect (s ∷ a) b t = ground (arith, has-intersect a b t, text_eq_iff s t)

-- `subset` decides inclusion.
subset→has :
    (want set : ScopeNames) (t : Text)
    → subset want set ≡ true
    → has want t ≡ true
    → has set t ≡ true
unfolding subset has
subset→has [] set t h k = cc
subset→has (s ∷ want) set t h k = ground (arith, subset→has want set t, text_eq_iff s t)

abbrev pub Included : ScopeNames → ScopeNames → Type 0
Included a b = (t : Text) → has a t ≡ true → has b t ≡ true

has_head : (s : Text) (want : ScopeNames) → has (s ∷ want) s ≡ true
unfolding has
has_head s want = ground (arith, text_eq_iff s s)

has_tail : (s t : Text) (want : ScopeNames) → has want t ≡ true → has (s ∷ want) t ≡ true
unfolding has
has_tail s t want h = ground arith

has→subset : (want set : ScopeNames) → Included want set → subset want set ≡ true
unfolding subset
has→subset [] set h = refl
has→subset (s ∷ want) set h =
    rw (h s (has_head s want)) (has→subset want set (λ t k. h t (has_tail s t want k)))

pub subset_iff : (want set : ScopeNames) → (subset want set ≡ true) ↔ Included want set
subset_iff want set = (λ h t. subset→has want set t h, has→subset want set)

-- What can be said of every element of a set is kept by its operations.
module _ (P : Text → Type 0) where
  pub All-add : (set : ScopeNames) (p : Text) → All P set → P p → All P (add set p)
  unfolding add
  All-add [] p h k = (k, tt)
  All-add (s ∷ set) p (g, h) k = ground (arith, All-add set p h k)

  pub All-add_all :
      (out : ScopeNames) (ps : List Text) → All P out → All P ps → All P (add_all out ps)
  unfolding add_all
  All-add_all out [] h k = h
  All-add_all out (p ∷ ps) h (g, k) = All-add_all (add out p) ps (All-add out p h g) k

  pub All-intersect : (a b : ScopeNames) → All P a → All P (intersect a b)
  unfolding intersect
  All-intersect [] b h = tt
  All-intersect (s ∷ a) b (g, h) = ground (arith, All-intersect a b h)

pub scope_set-IsWord : (scope : Text) → All IsWord (scope_set scope)
unfolding scope_set
scope_set-IsWord scope = All-add_all IsWord [] (fields scope) tt (fields-IsWord scope)

pub copy_set-IsWord : (set : ScopeNames) → All IsWord set → All IsWord (copy_set set)
unfolding copy_set
copy_set-IsWord set h = All-add_all IsWord [] set tt h
