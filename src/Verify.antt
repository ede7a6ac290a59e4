-- ===== src/Verify.antt =====
-- internal/verify/verify.go: the verification of a token of the service, and what a resource asks of it.
pub mod Soundness
pub mod Keysets
use agent_identity_plane.Prelude.{
  ℕ, Bool, true, false, not, ltb, List, [], ◌∷◌, Option, none, some, Result, ok, err, ◌>>=◌, ◌>>◌,
  fail_if, length,
}
use agent_identity_plane.Prelude.Text.{Text, text_eq}
use agent_identity_plane.Clock.{Time}
use agent_identity_plane.Token.Errors.{TokenError, unknown_key, audience_mismatch}
use agent_identity_plane.Token.Claims.{
  Actor, Claims, actor_sub, actor_subs, single, validate_issuer, validate_subject,
  validate_audience, validate_time,
}
use agent_identity_plane.Token.Scope.{scope_set, subset}
use agent_identity_plane.Token.Keys.{Jwks, Primitives}
use agent_identity_plane.Token.Jws

pub record ActorChain : Type 0 where
  pub principal : Text
  pub actor : Text
  pub hops : List Text
  pub depth : ℕ
  pub scope : Text
  pub txn : Text
  pub audience : Text
  pub jti : Text
  pub issuer : Text
  pub expires : Time
  pub claims : Claims
  pub raw : Text

-- `KeysFn` fails, or a token is refused; the four `require` checks have an error each.
pub data VerifyError : Type 0 where
  keys_unavailable : VerifyError
  refused : TokenError → VerifyError
  depth_exceeded wrong_agent missing_scope wrong_principal : VerifyError

-- The fields of a `Verifier`; `keys_fn` is what `KeysFn` answers, where it is set, and the clock is
-- an argument.
pub record Verifier : Type 0 where
  pub key_set : Jwks
  pub keys_fn : Option (Result VerifyError Jwks)
  pub issuer : Text

-- An error with the chain that comes with it; `none` is the zero `ActorChain`.
pub record Refusal : Type 0 where
  pub error : VerifyError
  pub chain : Option ActorChain

unfoldable pub keys : Option Verifier → Result VerifyError Jwks
keys none = err (refused unknown_key)
keys (some v) = elim v.keys_fn [ none ↦ ok v.key_set | some answer ↦ answer ]

abbrev pub current_actor : Option Actor → Text
current_actor none = []
current_actor (some a) = actor_sub a

abbrev pub sole : Option Text → Text
sole none = []
sole (some a) = a

unfoldable pub chain_from_claims : Text → Claims → ActorChain
chain_from_claims raw c = record {
  principal = c.sub;
  actor = current_actor c.act;
  hops = c.sub ∷ actor_subs c;
  depth = length (actor_subs c);
  scope = c.scope;
  txn = c.txn;
  audience = sole (single c.aud);
  jti = c.jti;
  issuer = c.iss;
  expires = record { sec = c.exp; nsec = 0 };
  claims = c;
  raw = raw;
}

abbrev pub without_chain : {E A : Type 0} → (E → VerifyError) → Result E A → Result Refusal A
without_chain f (ok a) = ok a
without_chain f (err e) = err (record { error = f e; chain = none })

abbrev pub with_chain : {A : Type 0} → ActorChain → Result TokenError A → Result Refusal A
with_chain ch (ok a) = ok a
with_chain ch (err e) = err (record { error = refused e; chain = some ch })

abbrev is_single : Option Text → Bool
is_single none = false
is_single (some a) = true

-- The checks that come after the chain is made.
unfoldable pub check_claims : Text → Claims → Text → Time → Result TokenError Unit
check_claims raw c audience now = do
  validate_subject c
  validate_audience c audience
  fail_if (not (is_single (single c.aud))) audience_mismatch
  validate_time c now 0

module _ (std : Primitives) where
  -- `Verify`, with the issuer of the verifier, or of no verifier.
  unfoldable pub verify_with :
      Result VerifyError Jwks → Text → Text → Text → Time → Result Refusal ActorChain
  unfolding chain_from_claims check_claims
  verify_with ks issuer raw audience now = do
    keys ← without_chain (λ e. e) ks
    c ← without_chain refused (agent_identity_plane.Token.Jws.verify std raw keys)
    without_chain refused (validate_issuer c issuer)
    with_chain (chain_from_claims raw c) (check_claims raw c audience now)
    ok (chain_from_claims raw c)

  unfoldable pub verify : Option Verifier → Text → Text → Time → Result Refusal ActorChain
  unfolding verify_with keys
  verify none raw audience now = verify_with (keys none) [] raw audience now
  verify (some v) raw audience now = verify_with (keys (some v)) v.issuer raw audience now

unfoldable pub require_depth : ActorChain → ℕ → Result VerifyError Unit
require_depth c max = fail_if (ltb max c.depth) depth_exceeded

unfoldable pub require_agent : ActorChain → Text → Result VerifyError Unit
require_agent c agent_id = fail_if (not (text_eq c.actor agent_id)) wrong_agent

unfoldable pub require_scope : ActorChain → Text → Result VerifyError Unit
require_scope c scope = fail_if (not (subset (scope_set scope) (scope_set c.scope))) missing_scope

unfoldable pub require_principal : ActorChain → Text → Result VerifyError Unit
require_principal c who = fail_if (not (text_eq c.principal who)) wrong_principal
