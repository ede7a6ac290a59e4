-- ===== src/Attest.antt =====
-- internal/attest/attest.go: the verification of actor tokens. An attestor is the function that its
-- interface has; the clock of an attestor is the second at which it is called, or `none` if unset.
use agent_identity_plane.Prelude.{
  Bool, false, not, ◌&&◌, ◌||◌, List, [], ◌∷◌, Option, none, some, if◌then◌else◌, Result, ok, err,
  ◌>>=◌, ◌>>◌, fail_if,
}
use agent_identity_plane.Prelude.Int.{ℤ, pos, eq_ℤ, ltb_ℤ}
use agent_identity_plane.Prelude.Text.{Text, text_eq, is_empty, has_prefix, codes}
use agent_identity_plane.Prelude.Fields.{is_blank}
use agent_identity_plane.Token.Claims.{contains, validate_subject, validate_issuer}
use agent_identity_plane.Token.Keys.{Jwks, Primitives, thumbprint}
use agent_identity_plane.Token.Jws.{verify_key}

pub data AttestError : Type 0 where
  unattested audience_mismatch expired : AttestError

pub record WorkloadIdentity : Type 0 where
  pub id : Text
  pub issuer : Text
  pub jti : Text
  pub possessed_jkt : Text

abbrev pub Attestor : Type 0
Attestor = Text → Result AttestError WorkloadIdentity

pub record LocalKeys : Type 0 where
  pub keys : Jwks
  pub audience : Text
  pub now : Option ℤ

-- `keys_fn` is what `KeysFn` returns at the call, where it is set; the inner `none` is its error.
pub record SpiffeJwt : Type 0 where
  pub bundle : Jwks
  pub keys_fn : Option (Option Jwks)
  pub audience : Text
  pub issuer : Text
  pub now : Option ℤ

-- Any failure of the called function is reported as this error.
abbrev pub or_error {ℓ} : {E F A : Type ℓ} → Result E A → F → Result F A
or_error (ok a) f = ok a
or_error (err e) f = err f

abbrev is_past_exp : Option ℤ → ℤ → Bool
is_past_exp none exp = false
is_past_exp (some now) exp = eq_ℤ exp (pos 0) || ltb_ℤ exp now

abbrev keys_of : Jwks → Result AttestError Jwks
keys_of [] = err unattested
keys_of (k ∷ ks) = ok (k ∷ ks)

unfoldable pub local_keys : Option LocalKeys → Result AttestError Jwks
local_keys none = err unattested
local_keys (some l) = keys_of l.keys

unfoldable pub spiffe_keys : Option SpiffeJwt → Result AttestError Jwks
spiffe_keys none = err unattested
spiffe_keys (some s) = elim s.keys_fn [
  | none ↦ keys_of s.bundle
  | some fetched ↦ elim fetched [ none ↦ err unattested | some ks ↦ ok ks ]
]

module _ (std : Primitives) where
  -- `LocalKeys.Attest`
  unfoldable pub attest_local : LocalKeys → Attestor
  unfolding local_keys
  attest_local l actor_token = do
    ks ← local_keys (some l)
    (h, c, jwk) ← or_error (verify_key std actor_token ks) unattested
    or_error (validate_subject c) unattested
    fail_if (is_blank jwk.sub || not (text_eq jwk.sub c.sub)) unattested
    fail_if (not (is_empty l.audience) && not (contains c.aud l.audience)) audience_mismatch
    fail_if (is_past_exp l.now c.exp) expired
    jkt ← or_error (thumbprint std jwk) unattested
    ok (record { id = c.sub; issuer = c.iss; jti = c.jti; possessed_jkt = jkt })

  -- `SPIFFEJWT.Attest`
  unfoldable pub attest_spiffe : SpiffeJwt → Attestor
  unfolding spiffe_keys
  attest_spiffe s actor_token = do
    ks ← spiffe_keys (some s)
    (h, c, jwk) ← or_error (verify_key std actor_token ks) unattested
    or_error (validate_subject c) unattested
    fail_if (not (has_prefix c.sub (codes "spiffe://"))) unattested
    or_error (if is_empty s.issuer then ok tt else validate_issuer c s.issuer) unattested
    fail_if (not (is_empty s.audience) && not (contains c.aud s.audience)) audience_mismatch
    fail_if (is_past_exp s.now c.exp) expired
    ok (record { id = c.sub; issuer = c.iss; jti = c.jti; possessed_jkt = [] })

-- The loop of `FirstSuccessful.Attest`, with the last error.
unfoldable pub first_successful : Option AttestError → List Attestor → Attestor
first_successful none [] actor_token = err unattested
first_successful (some last) [] actor_token = err last
first_successful last (a ∷ attestors) actor_token = elim (a actor_token) [
  | ok id ↦ ok id
  | err e ↦ first_successful (some e) attestors actor_token
]

-- The loop of `FirstSuccessful.Ready`; an attestor with no `Ready` is `none`.
unfoldable pub all_ready : List (Option (Result AttestError Jwks)) → Result AttestError Unit
all_ready [] = ok tt
all_ready (none ∷ rest) = all_ready rest
all_ready (some (ok ks) ∷ rest) = all_ready rest
all_ready (some (err e) ∷ rest) = err e
