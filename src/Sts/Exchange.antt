-- ===== src/Sts/Exchange.antt =====
-- internal/sts/sts.go: one token exchange. A request is decided in three stages, which are the code's
-- consecutive checks: the request and the actor, the subject token, and the minting, before which the
-- subject token of this service is consumed. An error's description is not kept.
pub mod Scopes
pub mod Stages
pub mod Soundness
pub mod Minting
pub mod SingleUse
use agent_identity_plane.Sts.Request.{
  Reason, OauthError, IdentitySnap, Config, ExchangeRequest, Env, Denial, Minted, deny, deny_with,
  grant_token_exchange, token_type_jwt, token_type_access,
}
use agent_identity_plane.Prelude.{
  ℕ, suc, ◌+◌, ◌/◌, ◌%◌, ◌*◌, Bool, true, false, not, ◌&&◌, ◌||◌, ltb, ◌==◌, List, [], ◌∷◌, ◌++◌,
  Option, none, some, if◌then◌else◌, Result, ok, err, ◌>>=◌, ◌>>◌, fail_if, length,
}
use agent_identity_plane.Prelude.Int.{ℤ, pos, ltb_ℤ}
use agent_identity_plane.Prelude.Text.{Text, text_eq, is_empty, codes, hex}
use agent_identity_plane.Prelude.Fields.{is_blank, trim_space, join_words}
use agent_identity_plane.Clock.{Time, unix, add, second}
use agent_identity_plane.Denylist.{Denied, has_agent, has_workload, has_principal}
use agent_identity_plane.Registry.{RegistryError, Agent, Registry, authorize}
use agent_identity_plane.Token.Errors.{TokenError}
use agent_identity_plane.Token.Claims.{
  Actor, Claims, Confirmation, validate_time, validate_audience, validate_subject, nested_act,
  append_chain,
}
use agent_identity_plane.Token.Scope.{
  ScopeNames, scope_set, join_scopes, subset, intersect, copy_set,
}
use agent_identity_plane.Token.Keys.{Jwks, Primitives}
use agent_identity_plane.Token.Jws.{verify}
use agent_identity_plane.Token.Keyring.{Keyring, jwks, ring_sign}
use agent_identity_plane.Attest.{AttestError, WorkloadIdentity, Attestor}
use agent_identity_plane.Lines.{WriteOutcome}
use agent_identity_plane.Sts.Replay.{ReplayError, ReplayCache, Codec, consume}

unfoldable pub ttl : Config → ℕ
ttl c = if ltb 0 c.lifetime then c.lifetime else 120 * second

-- `mapRegistryErr`
unfoldable pub map_registry_err : RegistryError → Reason
map_registry_err RegistryError.agent_not_found = Reason.agent_not_registered
map_registry_err RegistryError.not_authorized = Reason.agent_not_authorized_on_workload
map_registry_err RegistryError.audience_not_allowed = Reason.audience_not_allowed
map_registry_err RegistryError.not_yet_valid = Reason.agent_not_yet_valid
map_registry_err RegistryError.expired = Reason.agent_expired
map_registry_err _ = Reason.invalid_request

-- The scopes that a token may get: the agent's, and the incoming token's if it has any.
unfoldable pub ceiling : Text → List Text → ScopeNames
ceiling incoming max =
    let allowed = scope_set (join_words max) in
    if is_empty incoming then allowed else intersect allowed (scope_set incoming)

unfoldable pub narrow_scope : Text → Text → List Text → Option Text
unfolding ceiling
narrow_scope requested incoming max =
    if is_blank requested
    then some (join_scopes (copy_set (ceiling incoming max)))
    else if not (subset (scope_set requested) (ceiling incoming max))
    then none
    else some (join_scopes (scope_set requested))

-- `newID` on the bytes that it has read
unfoldable pub new_id : Text → List ℕ → Text
unfolding hex
new_id prefix bytes = prefix ++ (45 ∷ hex bytes)

abbrev pub present {ℓ} : {A : Type ℓ} → Option A → Bool
present none = false
present (some a) = true

-- The checks on the configuration and the request.
unfoldable pub check_request : Config → ExchangeRequest → Result Denial (Registry × Attestor)
check_request c req = elim c.live.registry [
  | none ↦ err (deny Reason.invalid_request OauthError.invalid_request)
  | some registry ↦ elim c.live.attestor [
    | none ↦ err (deny Reason.invalid_request OauthError.invalid_request)
    | some attestor ↦ do
      fail_if (not (present c.live.signer) || is_empty c.issuer)
          (deny Reason.invalid_request OauthError.invalid_request)
      fail_if (not (is_empty req.grant_type) && not (text_eq req.grant_type grant_token_exchange))
          (deny Reason.invalid_request OauthError.unsupported_grant_type)
      fail_if (is_blank req.subject_token || is_blank req.actor_token)
          (deny Reason.invalid_request OauthError.invalid_request)
      fail_if (is_blank req.agent_id || is_blank req.audience)
          (deny Reason.invalid_request OauthError.invalid_request)
      fail_if
          (not (is_empty req.requested_token_type)
            && not (text_eq req.requested_token_type token_type_jwt)
            && not (text_eq req.requested_token_type token_type_access))
          (deny Reason.invalid_request OauthError.invalid_request)
      ok (registry, attestor)
  ]
]

-- `withSubject` on a denial that comes before the subject's error is looked at.
unfoldable pub with_subject : Result TokenError (Claims × Bool) → Denial → Denial
with_subject (ok (sub, from_sts)) d = record d { subject = some sub }
with_subject (err e) d = d

-- The workload's attestation, the registry's grant, and the denied agents and workloads.
unfoldable pub authorize_actor :
    Result TokenError (Claims × Bool)
    → Result AttestError WorkloadIdentity
    → (WorkloadIdentity → Result RegistryError Agent)
    → Option Denied
    → Text
    → Result Denial (WorkloadIdentity × Agent)
unfolding with_subject map_registry_err
authorize_actor subject (err e) grant denied agent_id =
    err (with_subject subject (deny Reason.invalid_actor_token OauthError.invalid_request))
authorize_actor subject (ok wl) grant denied agent_id = elim (grant wl) [
  | err e ↦ err (with_subject subject (deny (map_registry_err e) OauthError.access_denied))
  | ok agent ↦ do
    fail_if (has_agent denied agent_id)
        (with_subject subject (deny Reason.agent_denied OauthError.access_denied))
    fail_if (has_workload denied wl.id)
        (with_subject subject (deny Reason.workload_denied OauthError.access_denied))
    ok (wl, agent)
]

abbrev pub time_reason : TokenError → Reason
time_reason TokenError.expired = Reason.expired
time_reason _ = Reason.invalid_subject_token

abbrev pub deny_if {ℓ} : {E : Type ℓ} → Result E Unit → (E → Denial) → Result Denial Unit
deny_if (ok u) f = ok tt
deny_if (err e) f = err (f e)

abbrev pub no_chain : Claims → Bool
no_chain sub = elim sub.act_chain [ [] ↦ not (present sub.act) | a ∷ rest ↦ false ]

-- The transaction of the new token: an STS token's own, a user token's own or a fresh one.
unfoldable pub next_txn : Claims → Bool → List ℕ → Result Denial Text
unfolding new_id
next_txn sub true bytes = do
  fail_if (is_empty sub.txn) (deny_with sub Reason.chain_integrity OauthError.invalid_request)
  ok sub.txn
next_txn sub false bytes = do
  fail_if (not (no_chain sub)) (deny_with sub Reason.chain_integrity OauthError.access_denied)
  ok (if is_empty sub.txn then new_id (codes "txn") bytes else sub.txn)

-- What the checks of the subject token leave for the new token.
pub record Checked : Type 0 where
  pub scope : Text
  pub chain : List Actor
  pub txn : Text

unfoldable pub scope_for : Claims → Option Text → Result Denial Text
scope_for sub none = err (deny_with sub Reason.scope_widening OauthError.access_denied)
scope_for sub (some s) = ok s

unfoldable pub check_subject :
    Claims → Bool → Agent → Option Denied → ExchangeRequest → Env → Result Denial Checked
unfolding narrow_scope scope_for next_txn
check_subject sub from_sts agent denied req env = do
  deny_if (validate_subject sub)
      (λ e. deny_with sub Reason.invalid_subject_token OauthError.invalid_request)
  fail_if (has_principal denied sub.sub)
      (deny_with sub Reason.principal_denied OauthError.access_denied)
  deny_if (validate_time sub env.now 0)
      (λ e. deny_with sub (time_reason e) OauthError.invalid_request)
  deny_if (validate_audience sub req.agent_id) (λ e.
      if from_sts
      then deny_with sub Reason.chain_integrity OauthError.access_denied
      else deny_with sub Reason.invalid_subject_token OauthError.invalid_request)
  scope ← scope_for sub (narrow_scope req.scope sub.scope agent.max_scopes)
  fail_if (ltb_ℤ agent.max_depth (pos (suc (length (append_chain sub)))))
      (deny_with sub Reason.depth_exceeded OauthError.access_denied)
  txn ← next_txn sub from_sts env.txn_bytes
  ok (record { scope = scope; chain = append_chain sub; txn = txn })

-- A replay of the subject token, or a failure to record it.
unfoldable pub replay_denial : Claims → ReplayError → Denial
replay_denial sub ReplayError.replayed =
    deny_with sub Reason.replayed_token OauthError.invalid_grant
replay_denial sub ReplayError.empty_jti =
    deny_with sub Reason.replayed_token OauthError.invalid_grant
replay_denial sub ReplayError.unavailable =
    deny_with sub Reason.replayed_token OauthError.invalid_grant
replay_denial sub _ = deny_with sub Reason.invalid_request OauthError.server_error

-- The key that the new token is bound to: the request's, or else the workload's.
unfoldable pub confirmation_key : ExchangeRequest → WorkloadIdentity → Text
confirmation_key req wl =
    let asked = trim_space req.confirm_jkt in if is_empty asked then wl.possessed_jkt else asked

unfoldable pub issued_claims : Config → ExchangeRequest → Env → Claims → Checked → Text → Claims
unfolding ttl new_id
issued_claims c req env sub checked jkt = record {
  iss = c.issuer;
  sub = sub.sub;
  aud = req.audience ∷ [];
  exp = unix (add env.now (ttl c));
  nbf = unix env.now;
  iat = unix env.now;
  jti = new_id (codes "jti") env.jti_bytes;
  txn = checked.txn;
  act = some (nested_act c.issuer req.agent_id sub.act);
  act_chain = checked.chain;
  scope = checked.scope;
  purp = if is_empty req.purp then sub.purp else req.purp;
  cnf = some (record { jkt = jkt });
}

unfoldable pub subject_or_deny : Result TokenError (Claims × Bool) → Result Denial (Claims × Bool)
subject_or_deny (ok s) = ok s
subject_or_deny (err e) = err (deny Reason.invalid_subject_token OauthError.invalid_request)

unfoldable pub signed : Claims → Result TokenError Text → Result Denial Text
signed sub (ok raw) = ok raw
signed sub (err e) = err (deny_with sub Reason.invalid_request OauthError.server_error)

module _ (std : Primitives) where
  -- `verifySubject`: the claims, and whether this service signed them.
  unfoldable pub verify_subject : Config → Text → Result TokenError (Claims × Bool)
  verify_subject c raw =
      elim (if present c.live.signer
        then verify std raw (jwks std c.live.signer)
        else err TokenError.bad_signature) [
          | ok claims ↦
              if text_eq claims.iss c.issuer
              then ok (claims, true)
              else err TokenError.issuer_mismatch
          | err e ↦ elim (verify std raw c.live.idp_keys) [
            | ok claims ↦
                if not (is_empty c.live.idp_issuer) && not (text_eq claims.iss c.live.idp_issuer)
                then err TokenError.issuer_mismatch
                else ok (claims, false)
            | err e ↦ err TokenError.bad_signature
          ]
        ]

  -- The rest of the exchange, on what the replay cache has answered.
  unfoldable pub mint :
      Config
      → ExchangeRequest
      → Env
      → WorkloadIdentity
      → Claims
      → Checked
      → Result ReplayError Unit
      → Result Denial Minted
  unfolding confirmation_key issued_claims signed replay_denial
  mint c req env wl sub checked consumed = do
    deny_if consumed (replay_denial sub)
    fail_if (is_empty (confirmation_key req wl))
        (deny_with sub Reason.missing_cnf OauthError.invalid_request)
    raw ← signed sub (
        ring_sign std c.live.signer (issued_claims c req env sub checked (confirmation_key req wl)))
    ok (record {
      token = raw;
      expires_in = ttl c / second;
      issued = issued_claims c req env sub checked (confirmation_key req wl);
      workload = wl.id;
    })

-- The consumption of a subject token of this service.
unfoldable pub consume_subject :
    Codec → Option ReplayCache → Env → Claims → Bool → Result ReplayError Unit × Option ReplayCache
consume_subject codec cache env sub false = (ok tt, cache)
consume_subject codec cache env sub true =
    consume codec cache env.replay_now env.outcome sub.jti sub.exp []

module _ (std : Primitives) (codec : Codec) (parse_rfc3339 : Text → Option Time) where
  -- The tests that come before the replay cache.
  unfoldable pub prepare :
      Config → ExchangeRequest → Env → Result Denial (WorkloadIdentity × Claims × Bool × Checked)
  unfolding check_request authorize_actor check_subject verify_subject subject_or_deny
  prepare c req env = do
    (registry, attestor) ← check_request c req
    let subject = verify_subject std c req.subject_token
    (wl, agent) ←
        authorize_actor subject (attestor req.actor_token)
          (λ w. authorize parse_rfc3339 registry req.agent_id w.id req.audience env.now)
          c.live.denylist req.agent_id
    (sub, from_sts) ← subject_or_deny subject
    checked ← check_subject sub from_sts agent c.live.denylist req env
    ok (wl, sub, from_sts, checked)

  -- The end of the exchange, on what the tests have left.
  unfoldable pub conclude :
      Config
      → Option ReplayCache
      → ExchangeRequest
      → Env
      → Result Denial (WorkloadIdentity × Claims × Bool × Checked)
      → Result Denial Minted × Option ReplayCache
  unfolding consume_subject mint
  conclude c cache req env (err d) = (err d, cache)
  conclude c cache req env (ok (wl, sub, from_sts, checked)) =
      let (consumed, cache') = consume_subject codec cache env sub from_sts in
      (mint std c req env wl sub checked consumed, cache')

  -- `exchange`: a denied or minted token and the replay cache after it.
  unfoldable pub exchange :
      Config
      → Option ReplayCache
      → ExchangeRequest
      → Env
      → Result Denial Minted × Option ReplayCache
  unfolding prepare conclude
  exchange c cache req env = conclude c cache req env (prepare c req env)
