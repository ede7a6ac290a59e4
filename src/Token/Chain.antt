-- ===== src/Token/Chain.antt =====
-- The actor chain of a token one hop further on: what `AppendChain` and `NestedAct` of
-- internal/token/claims.go build together.
use agent_identity_plane.Prelude.{
  ◌≤◌, ◌≡◌, ◌≢◌, refl, Option, none, some, List, [], ◌∷◌, ◌++◌, arith, length, append-nil,
  Bool-cases, inl, inr,
}
use agent_identity_plane.Prelude.Text.{Text, is_empty}
use agent_identity_plane.Token.Claims.{
  Actor, root, Claims, actor_sub, actor_iss, subs_of, current_sub, actor_subs, nested_act,
  append_act, append_chain,
}

subs_of-append : (a b : List Actor) → subs_of (a ++ b) ≡ subs_of a ++ subs_of b
unfolding subs_of
subs_of-append [] b = refl
subs_of-append (x ∷ a) b = rw (subs_of-append a b) (ground arith)

subs_of-root : (a : Actor) → subs_of (root (actor_iss a) (actor_sub a) ∷ []) ≡ current_sub (some a)
unfolding subs_of current_sub
subs_of-root a = ground arith

subs_of-append_act :
    (l : List Actor) (a : Option Actor) → subs_of (append_act l a) ≡ subs_of l ++ current_sub a
unfolding append_act current_sub
subs_of-append_act l none = rw append-nil
subs_of-append_act l (some a) = elim (Bool-cases (is_empty (actor_sub a))) [
  | inl e ↦ rw e (rw append-nil)
  | inr e ↦ rw e (rw (subs_of-append, subs_of-root) (rw (current_sub, e)))
]

-- The flattened chain lists what the token listed, its current actor included.
pub subs_of-append_chain : (c : Claims) → subs_of (append_chain c) ≡ actor_subs c
unfolding append_chain actor_subs
subs_of-append_chain c = subs_of-append_act c.act_chain c.act

current_sub-nested_act :
    (iss agent : Text) (incoming : Option Actor)
    → agent ≢ []
    → current_sub (some (nested_act iss agent incoming)) ≡ agent ∷ []
unfolding current_sub nested_act
current_sub-nested_act iss [] incoming h = absurd (h refl)
current_sub-nested_act iss (b ∷ agent) none h = refl
current_sub-nested_act iss (b ∷ agent) (some a) h = refl

-- A token whose chain is the flattened chain of `c` and whose actor is `agent` lists the actors of
-- `c`, in their order, and then `agent`.
pub actor_subs_next_hop :
    (c d : Claims) (iss agent : Text)
    → agent ≢ []
    → d.act_chain ≡ append_chain c
    → d.act ≡ some (nested_act iss agent c.act)
    → actor_subs d ≡ actor_subs c ++ agent ∷ []
actor_subs_next_hop c d iss agent h e f =
    unfold actor_subs in
    rw (e, f) (rw (subs_of-append_chain c, current_sub-nested_act iss agent c.act h) refl)

pub length-subs_of-le : (l : List Actor) → length (subs_of l) ≤ length l
unfolding subs_of
length-subs_of-le [] = omega arith
length-subs_of-le (a ∷ l) = ground (arith, length-subs_of-le l)
