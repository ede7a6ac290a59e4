-- ===== src/Sts/Exchange/Stages.antt =====
-- What a stage of the exchange of internal/sts/sts.go has checked when it lets a request pass.
use agent_identity_plane.Prelude.{
  suc, ◌≡◌, refl, Bool, false, Option, none, some, arith, Result, ok, err, fail_if, >>=-eq-ok,
  fail_if-eq-ok, ok-injective, length,
}
use mathlib.Core.Path.{subst}
use agent_identity_plane.Prelude.Int.{pos, ltb_ℤ}
use agent_identity_plane.Prelude.Text.{Text}
use agent_identity_plane.Clock.{Time}
use agent_identity_plane.Denylist.{Denied, has_agent, has_workload, has_principal}
use agent_identity_plane.Registry.{RegistryError, Agent, Registry, authorize}
use agent_identity_plane.Token.Errors.{TokenError}
use agent_identity_plane.Token.Claims.{
  Claims, validate_time, validate_audience, validate_subject, append_chain,
}
use agent_identity_plane.Token.Keys.{Primitives}
use agent_identity_plane.Attest.{AttestError, WorkloadIdentity, Attestor}
use agent_identity_plane.Sts.Replay.{Codec}
use agent_identity_plane.Sts.Request.{Config, ExchangeRequest, Env, Denial}
use agent_identity_plane.Sts.Exchange.{
  Checked, deny_if, check_request, authorize_actor, check_subject, narrow_scope, next_txn,
  scope_for, verify_subject, subject_or_deny, prepare,
}

check_request-eq-ok :
    (c : Config) (req : ExchangeRequest) (r : Registry) (a : Attestor)
    → check_request c req ≡ ok (r, a)
    → (c.live.registry ≡ some r) × (c.live.attestor ≡ some a)
unfolding check_request
check_request-eq-ok c req r a h = ground arith

authorize_actor-eq-ok :
    (subject : Result TokenError (Claims × Bool)) (attested : Result AttestError WorkloadIdentity)
    (grant : WorkloadIdentity → Result RegistryError Agent) (denied : Option Denied) (id : Text)
    (wl : WorkloadIdentity) (agent : Agent)
    → authorize_actor subject attested grant denied id ≡ ok (wl, agent)
    → (attested ≡ ok wl)
      × (grant wl ≡ ok agent)
      × (has_agent denied id ≡ false)
      × (has_workload denied wl.id ≡ false)
unfolding authorize_actor
authorize_actor-eq-ok subject (err e) grant denied id wl agent h = cc
authorize_actor-eq-ok subject (ok w) grant denied id wl agent h = ground arith

pub deny_if-eq-ok :
    {E : Type 0} (r : Result E Unit) (f : E → Denial) {u : Unit} → deny_if r f ≡ ok u → r ≡ ok tt
deny_if-eq-ok (ok tt) f h = refl
deny_if-eq-ok (err e) f h = cc

-- What has been checked of a subject token, and what it leaves for the new token.
pub record Passes (sub : Claims) (from_sts : Bool) (agent : Agent) (denied : Option Denied)
    (req : ExchangeRequest) (env : Env) (out : Checked) : Type 0 where
  pub named : validate_subject sub ≡ ok tt
  pub principal : has_principal denied sub.sub ≡ false
  pub in_time : validate_time sub env.now 0 ≡ ok tt
  pub for_agent : validate_audience sub req.agent_id ≡ ok tt
  pub scope : narrow_scope req.scope sub.scope agent.max_scopes ≡ some out.scope
  pub depth : ltb_ℤ agent.max_depth (pos (suc (length out.chain))) ≡ false
  pub chain : out.chain ≡ append_chain sub
  pub txn : next_txn sub from_sts env.txn_bytes ≡ ok out.txn

scope_for-eq-ok : (sub : Claims) (o : Option Text) (s : Text) → scope_for sub o ≡ ok s → o ≡ some s
unfolding scope_for
scope_for-eq-ok sub none s h = cc
scope_for-eq-ok sub (some t) s h = ground arith

check_subject-Passes :
    (sub : Claims) (from_sts : Bool) (agent : Agent) (denied : Option Denied)
    (req : ExchangeRequest) (env : Env) (out : Checked)
    → check_subject sub from_sts agent denied req env ≡ ok out
    → Passes sub from_sts agent denied req env out
unfolding check_subject
check_subject-Passes sub from_sts agent denied req env out h =
    let (_, a, h1) = >>=-eq-ok (deny_if (validate_subject sub) _) _ h in
    let (_, b, h2) = >>=-eq-ok (fail_if (has_principal denied sub.sub) _) _ h1 in
    let (_, d, h3) = >>=-eq-ok (deny_if (validate_time sub env.now 0) _) _ h2 in
    let (_, e, h4) = >>=-eq-ok (deny_if (validate_audience sub req.agent_id) _) _ h3 in
    let (s, f, h5) =
      >>=-eq-ok (scope_for sub (narrow_scope req.scope sub.scope agent.max_scopes)) _ h4 in
    let (_, g, h6) =
      >>=-eq-ok (fail_if (ltb_ℤ agent.max_depth (pos (suc (length (append_chain sub))))) _) _ h5 in
    let (x, k, h7) = >>=-eq-ok (next_txn sub from_sts env.txn_bytes) _ h6 in
    let p : Passes sub from_sts agent denied req env
        (record { scope = s; chain = append_chain sub; txn = x }) =
      record {
        named = deny_if-eq-ok (validate_subject sub) _ a;
        principal = fail_if-eq-ok (has_principal denied sub.sub) _ b;
        in_time = deny_if-eq-ok (validate_time sub env.now 0) _ d;
        for_agent = deny_if-eq-ok (validate_audience sub req.agent_id) _ e;
        scope = scope_for-eq-ok sub (narrow_scope req.scope sub.scope agent.max_scopes) s f;
        depth = fail_if-eq-ok (ltb_ℤ agent.max_depth (pos (suc (length (append_chain sub))))) _ g;
        chain = refl;
        txn = k;
      } in
    subst (Passes sub from_sts agent denied req env) (ok-injective _ out h7) p

module _ (std : Primitives) (codec : Codec) (parse_rfc3339 : Text → Option Time) where
  -- What has been checked when a request is ready to be minted.
  pub record IsPrepared (c : Config) (req : ExchangeRequest) (env : Env) (wl : WorkloadIdentity)
      (sub : Claims) (from_sts : Bool) (out : Checked) : Type 0 where
    pub registry : Registry
    pub attestor : Attestor
    pub agent : Agent
    pub configured : (c.live.registry ≡ some registry) × (c.live.attestor ≡ some attestor)
    pub attested : attestor req.actor_token ≡ ok wl
    pub granted :
        authorize parse_rfc3339 registry req.agent_id wl.id req.audience env.now ≡ ok agent
    pub not_denied :
        (has_agent c.live.denylist req.agent_id ≡ false)
        × (has_workload c.live.denylist wl.id ≡ false)
    pub verified : verify_subject std c req.subject_token ≡ ok (sub, from_sts)
    pub passes : Passes sub from_sts agent c.live.denylist req env out

  subject_or_deny-eq-ok :
      (r : Result TokenError (Claims × Bool)) (s : Claims × Bool)
      → subject_or_deny r ≡ ok s
      → r ≡ ok s
  unfolding subject_or_deny
  subject_or_deny-eq-ok (ok t) s h = ground arith
  subject_or_deny-eq-ok (err e) s h = cc

  pub prepare-IsPrepared :
      (c : Config) (req : ExchangeRequest) (env : Env) (wl : WorkloadIdentity) (sub : Claims)
      (from_sts : Bool) (out : Checked)
      → prepare std codec parse_rfc3339 c req env ≡ ok (wl, sub, from_sts, out)
      → IsPrepared c req env wl sub from_sts out
  unfolding prepare
  prepare-IsPrepared c req env wl sub from_sts out h =
      let ((r, a), p, h1) = >>=-eq-ok (check_request c req) _ h in
      let ((w, agent), q, h2) =
        >>=-eq-ok
          (authorize_actor (verify_subject std c req.subject_token) (a req.actor_token) _
            c.live.denylist req.agent_id)
          _ h1 in
      let ((s, f), v, h3) =
        >>=-eq-ok (subject_or_deny (verify_subject std c req.subject_token)) _ h2 in
      let (o, k, h4) = >>=-eq-ok (check_subject s f agent c.live.denylist req env) _ h3 in
      let (att, gr, da, dw) =
        authorize_actor-eq-ok (verify_subject std c req.subject_token) (a req.actor_token) _
          c.live.denylist req.agent_id w agent q in
      let z : IsPrepared c req env w s f o = record {
        registry = r;
        attestor = a;
        agent = agent;
        configured = check_request-eq-ok c req r a p;
        attested = att;
        granted = gr;
        not_denied = (da, dw);
        verified = subject_or_deny-eq-ok (verify_subject std c req.subject_token) (s, f) v;
        passes = check_subject-Passes s f agent c.live.denylist req env o k;
      } in
      subst (λ t. IsPrepared c req env t.0 t.1 t.2 t.3)
        (ok-injective (w, s, f, o) (wl, sub, from_sts, out) h4) z
