-- ===== src/Examples/Events.antt =====
-- A codec for audit events that meets what the theorems ask of encoding/json: an event is a list of
-- texts, each written with its bytes moved past the line breaks and closed by the byte 1.
use mathlib.Core.Path.{subst}
use agent_identity_plane.Prelude.{
  ℕ, zero, suc, ◌+◌, ◌-◌, ◌≡◌, refl, ap, ◌∙◌, true, false, List, [], ◌∷◌, ◌++◌, Option, some,
  Result, ok, err, arith, ◌==◌, append_assoc, append-nil,
}
use agent_identity_plane.Prelude.Int.{ℤ, pos, negsuc}
use agent_identity_plane.Prelude.Text.{Text, is_empty, codes, hex, text_eq}
use agent_identity_plane.Prelude.Utf8.{is_valid}
use agent_identity_plane.Jsonutil.{JsonError, trailing}
use agent_identity_plane.Lines.{IsLine, drop_cr}
use agent_identity_plane.Token.Claims.{contains}
use agent_identity_plane.Audit.{Event, Codec}
use agent_identity_plane.Audit.Linked.{IsJson}
use agent_identity_plane.Examples.Codecs.{NoCr, drop_cr-NoCr}

unfoldable pub closed : Text → Text → Text
closed [] r = 1 ∷ r
closed (b ∷ t) r = (b + 14) ∷ closed t r

unfoldable pub write_texts : List Text → Text
unfolding closed
write_texts [] = []
write_texts (t ∷ ts) = closed t (write_texts ts)

unfoldable pub read_texts : Text → Text → List Text
read_texts now [] = []
read_texts now (b ∷ r) = elim (b == 1) [
  | true ↦ now ∷ read_texts [] r
  | false ↦ read_texts (now ++ (b - 14) ∷ []) r
]

read_texts-closed : (now t r : Text) → read_texts now (closed t r) ≡ (now ++ t) ∷ read_texts [] r
unfolding read_texts closed
read_texts-closed now [] r = rw append-nil refl
read_texts-closed now (b ∷ t) r =
    ground (arith, read_texts-closed (now ++ b ∷ []) t r, append_assoc now (b ∷ []) t)

read_texts-write_texts : (ts : List Text) → read_texts [] (write_texts ts) ≡ ts
unfolding write_texts
read_texts-write_texts [] = unfold read_texts in refl
read_texts-write_texts (t ∷ ts) =
    read_texts-closed [] t (write_texts ts) ∙ ap (λ l. t ∷ l) (read_texts-write_texts ts)

abbrev depth_text : ℤ → Text
depth_text (pos n) = 0 ∷ n ∷ []
depth_text (negsuc n) = 1 ∷ n ∷ []

abbrev depth_of : Text → ℤ
depth_of (zero ∷ n ∷ t) = pos n
depth_of (suc k ∷ n ∷ t) = negsuc n
depth_of _ = pos 0

abbrev index_of : Text → ℕ
index_of (n ∷ t) = n
index_of _ = 0

abbrev to_texts : Event → List Text
to_texts e =
    e.timestamp
    ∷ e.event_type
    ∷ e.reason_code
    ∷ e.txn
    ∷ e.jti
    ∷ e.agent_id
    ∷ e.workload
    ∷ e.principal
    ∷ e.audience
    ∷ e.scope
    ∷ depth_text e.depth
    ∷ e.hash
    ∷ e.prev_hash
    ∷ (e.chain_index ∷ [])
    ∷ e.hops

abbrev from_texts : List Text → Result JsonError Event
from_texts (a ∷ b ∷ c ∷ d ∷ e ∷ f ∷ g ∷ h ∷ i ∷ j ∷ k ∷ l ∷ m ∷ n ∷ hops) = ok (record {
  timestamp = a;
  event_type = b;
  reason_code = c;
  txn = d;
  jti = e;
  agent_id = f;
  workload = g;
  principal = h;
  audience = i;
  scope = j;
  depth = depth_of k;
  hops = hops;
  hash = l;
  prev_hash = m;
  chain_index = index_of n;
})
from_texts _ = err trailing

abbrev pub events : Codec
events = record {
  keys = λ t. some (
      codes "timestamp"
      ∷ codes "event_type"
      ∷ codes "reason_code"
      ∷ codes "hash"
      ∷ codes "prev_hash"
      ∷ codes "chain_index"
      ∷ []);
  strict = λ t. from_texts (read_texts [] t);
  marshal = λ e. some (write_texts (to_texts e));
  sha256 = λ t. [];
}

depth_back : (d : ℤ) → depth_of (depth_text d) ≡ d
depth_back (pos n) = refl
depth_back (negsuc n) = refl

closed-IsLine : (t r : Text) → IsLine r → IsLine (closed t r)
unfolding closed
closed-IsLine [] r h = ground arith
closed-IsLine (b ∷ t) r h = ground (arith, closed-IsLine t r h)

closed-NoCr : (t r : Text) → NoCr r → NoCr (closed t r)
unfolding closed
closed-NoCr [] r h = ground arith
closed-NoCr (b ∷ t) r h = ground (arith, closed-NoCr t r h)

write_texts-IsLine : (ts : List Text) → IsLine (write_texts ts)
unfolding write_texts
write_texts-IsLine [] = tt
write_texts-IsLine (t ∷ ts) = closed-IsLine t (write_texts ts) (write_texts-IsLine ts)

write_texts-NoCr : (ts : List Text) → NoCr (write_texts ts)
unfolding write_texts
write_texts-NoCr [] = tt
write_texts-NoCr (t ∷ ts) = closed-NoCr t (write_texts ts) (write_texts-NoCr ts)

closed-ne-nil : (t r : Text) → is_empty (closed t r) ≡ false
unfolding closed
closed-ne-nil [] r = refl
closed-ne-nil (b ∷ t) r = refl

some-injective : (s t : Text) → ◌≡◌ {A = Option Text} (some s) (some t) → s ≡ t
some-injective s t h = cc

-- A line of the codec, with what holds of it.
abbrev Clean : Text → Type 0
Clean t = IsLine t × (drop_cr t ≡ t) × (is_empty t ≡ false)

clean : (e : Event) → Clean (write_texts (to_texts e))
clean e = (
  write_texts-IsLine (to_texts e),
  drop_cr-NoCr (write_texts (to_texts e)) (write_texts-NoCr (to_texts e)),
  unfold write_texts in
      closed-ne-nil e.timestamp (
        write_texts (
          e.event_type
          ∷ e.reason_code
          ∷ e.txn
          ∷ e.jti
          ∷ e.agent_id
          ∷ e.workload
          ∷ e.principal
          ∷ e.audience
          ∷ e.scope
          ∷ depth_text e.depth
          ∷ e.hash
          ∷ e.prev_hash
          ∷ (e.chain_index ∷ [])
          ∷ e.hops)),
)

read_back : (e : Event) → events.strict (write_texts (to_texts e)) ≡ ok e
read_back e =
    ap from_texts (read_texts-write_texts (to_texts e))
    ∙ ap (λ d. ok (record e { depth = d })) (depth_back e.depth)

pub events-IsJson : IsJson events
unfolding contains text_eq hex is_valid
events-IsJson = record {
  marshal-total = λ e h. cc;
  marshal-IsLine = λ e t h. subst Clean (some-injective (write_texts (to_texts e)) t h) (clean e);
  keys-marshal = λ e t h. (
    codes "timestamp"
        ∷ codes "event_type"
        ∷ codes "reason_code"
        ∷ codes "hash"
        ∷ codes "prev_hash"
        ∷ codes "chain_index"
        ∷ [],
    refl,
    (refl, (refl, (refl, (refl, (refl, (refl, tt)))))),
  );
  strict-marshal = λ e t h c.
      subst (λ u. events.strict u ≡ ok e) (some-injective (write_texts (to_texts e)) t h)
        (read_back e);
  sha256-IsBounded = λ p. (refl, omega arith);
}
