-- ===== src/Token/Claims.antt =====
-- internal/token/claims.go: the claims and their checks.
use agent_identity_plane.Prelude.{
  ℕ, ◌+◌, ◌*◌, ◌/◌, Option, none, some, List, [], ◌∷◌, ◌++◌, Bool, false, not, ◌&&◌, ◌||◌, ◌==◌,
  if◌then◌else◌, Result, ok, err, length,
}
use agent_identity_plane.Prelude.Int.{ℤ, pos, negsuc, add_int64, ltb_ℤ, leb_ℤ}
use agent_identity_plane.Prelude.Text.{Text, text_eq, is_empty}
use agent_identity_plane.Prelude.Fields.{is_blank}
use agent_identity_plane.Clock.{Time, unix, second}
use agent_identity_plane.Token.Errors.{
  TokenError, audience_mismatch, expired, not_yet_valid, missing_subject, missing_issuer,
  issuer_mismatch, multi_audience,
}

-- An RFC 8693 act object: `root` has no nested act, `under` has the prior actor.
pub data Actor : Type 0 where
  root : Text → Text → Actor
  under : Text → Text → Actor → Actor

abbrev pub actor_iss : Actor → Text
actor_iss (root iss sub) = iss
actor_iss (under iss sub act) = iss

abbrev pub actor_sub : Actor → Text
actor_sub (root iss sub) = sub
actor_sub (under iss sub act) = sub

pub record Confirmation : Type 0 where
  pub jkt : Text

abbrev pub Audience : Type 0
Audience = List Text

pub record Claims : Type 0 where
  pub iss : Text
  pub sub : Text
  pub aud : Audience
  pub exp : ℤ
  pub nbf : ℤ
  pub iat : ℤ
  pub jti : Text
  pub txn : Text
  pub act : Option Actor
  pub act_chain : List Actor
  pub scope : Text
  pub purp : Text
  pub cnf : Option Confirmation

unfoldable pub confirm_jkt : Claims → Text
confirm_jkt c = elim c.cnf [ none ↦ [] | some k ↦ k.jkt ]

-- `Single` returns the audience and whether there is exactly one.
unfoldable pub single : Audience → Option Text
single (a ∷ []) = if is_empty a then none else some a
single _ = none

unfoldable pub contains : List Text → Text → Bool
contains [] aud = false
contains (v ∷ a) aud = text_eq v aud || contains a aud

unfoldable pub single_audience : Text → Result TokenError Audience
single_audience aud = if is_empty aud then err multi_audience else ok (aud ∷ [])

-- `ClockSkew`, in nanoseconds
abbrev pub clock_skew : ℕ
clock_skew = 30 * second

unfoldable pub replay_until : ℤ → ℤ
replay_until exp = if leb_ℤ exp (pos 0) then pos 0 else add_int64 exp (pos 30)

-- `KeyRetirementWait`
unfoldable pub key_retirement_wait : ℕ → ℕ
key_retirement_wait ttl = (if ttl == 0 then 120 * second else ttl) + clock_skew

abbrev pub is_zero_ℤ : ℤ → Bool
is_zero_ℤ (pos n) = n == 0
is_zero_ℤ (negsuc n) = false

unfoldable pub validate_time : Claims → Time → ℕ → Result TokenError Unit
validate_time c now skew =
    let s = (if skew == 0 then clock_skew else skew) / second in
    if is_zero_ℤ c.exp || ltb_ℤ (add_int64 c.exp (pos s)) (unix now)
    then err expired
    else if ltb_ℤ (pos 0) c.nbf && ltb_ℤ (add_int64 (unix now) (pos s)) c.nbf
    then err not_yet_valid
    else ok tt

unfoldable pub validate_issuer : Claims → Text → Result TokenError Unit
validate_issuer c want =
    if is_empty c.iss
    then err missing_issuer
    else if not (is_empty want) && not (text_eq c.iss want)
    then err issuer_mismatch
    else ok tt

unfoldable pub validate_audience : Claims → Text → Result TokenError Unit
unfolding contains
validate_audience c want =
    if is_empty want
    then err audience_mismatch
    else if not (contains c.aud want)
    then err audience_mismatch
    else ok tt

unfoldable pub validate_subject : Claims → Result TokenError Unit
validate_subject c = if is_blank c.sub then err missing_subject else ok tt

-- The subs of a chain that are not empty.
unfoldable pub subs_of : List Actor → List Text
subs_of [] = []
subs_of (a ∷ chain) =
    let rest = subs_of chain in if is_empty (actor_sub a) then rest else actor_sub a ∷ rest

unfoldable pub current_sub : Option Actor → List Text
current_sub none = []
current_sub (some a) = if is_empty (actor_sub a) then [] else actor_sub a ∷ []

-- `ActorSubs`: the chain's subs, then the current actor's.
unfoldable pub actor_subs : Claims → List Text
unfolding subs_of current_sub
actor_subs c = subs_of c.act_chain ++ current_sub c.act

unfoldable pub depth : Claims → ℕ
unfolding actor_subs
depth c = length (actor_subs c)

unfoldable pub nested_act : Text → Text → Option Actor → Actor
nested_act iss current_sub none = root iss current_sub
nested_act iss current_sub (some incoming) = under iss current_sub incoming

-- The incoming act as a chain entry: its nested act is dropped.
abbrev flatten : Actor → Actor
flatten a = root (actor_iss a) (actor_sub a)

unfoldable pub append_act : List Actor → Option Actor → List Actor
append_act chain none = chain
append_act chain (some a) = if is_empty (actor_sub a) then chain else chain ++ flatten a ∷ []

unfoldable pub append_chain : Claims → List Actor
unfolding append_act
append_chain c = append_act c.act_chain c.act
