-- ===== src/Gateway/Pep/Recording.antt =====
-- What the log has taken of a request (internal/gateway/gateway.go).
use agent_identity_plane.Prelude.{
  ◌≡◌, ◌≢◌, refl, ◌∙◌, [], Option, none, some, arith, Result, ok, err, Bool-cases, inl, inr, ◌==◌,
}
use agent_identity_plane.Prelude.Text.{Text}
use agent_identity_plane.Verify.{ActorChain}
use agent_identity_plane.Visor.{Mapping}
use agent_identity_plane.Dpop.Nonce.{issue}
use agent_identity_plane.Audit.{Event, Logger, AuditError, append}
use agent_identity_plane.Audit
use agent_identity_plane.Gateway.{
  Config, State, Env, Stop, Challenge, passed, issue_nonce, allowed_event, record_event, record_in,
  authenticate, denied_event, settle_deny, settle_allow, write_deny, write_deny_dpop, allow,
}

module _ (events : agent_identity_plane.Audit.Codec) where
  -- The record that the log has taken of an allowed request.
  pub record IsRecorded (c : Config) (s : State) (env : Env) (chain : ActorChain) (m : Mapping)
      (s' : State) : Type 0 where
    pub log : Logger
    pub logged : s.audit ≡ some log
    pub appended :
        (append events log env.stamp (allowed_event c chain m) env.audit_outcome).0 ≡ ok tt
    pub log_after :
        s'.audit ≡ some (append events log env.stamp (allowed_event c chain m) env.audit_outcome).1

  record_in-eq-ok :
      (s : State) (log : Option Logger) (env : Env) (e : Event)
      → (record_in events s log env e).0 ≡ ok tt
      → (l : Logger) × (log ≡ some l)
        × ((append events l env.stamp e env.audit_outcome).0 ≡ ok tt)
        × ((record_in events s log env e).1.audit
            ≡ some (append events l env.stamp e env.audit_outcome).1)
        × ((record_in events s log env e).1.replay ≡ s.replay)
        × ((record_in events s log env e).1.nonces ≡ s.nonces)
  unfolding record_in
  record_in-eq-ok s none env e h = cc
  record_in-eq-ok s (some l) env e h = (l, refl, h, refl, refl, refl)

  settle_allow-passed :
      (env : Env) (m : Mapping) (q : Result AuditError Unit × State) (m' : Mapping) (n : Text)
      → (settle_allow events env m q).0 ≡ passed m' n
      → (m ≡ m')
        × (q.0 ≡ ok tt)
        × ((settle_allow events env m q).1.audit ≡ q.1.audit)
        × ((settle_allow events env m q).1.replay ≡ q.1.replay)
  unfolding settle_allow issue_nonce issue
  settle_allow-passed env m (err e, s) m' n h = cc
  settle_allow-passed env m (ok u, s) m' n h = (ground arith, refl, refl, refl)

  pub allow-IsRecorded :
      (c : Config) (s : State) (env : Env) (chain : ActorChain) (m m' : Mapping) (n : Text)
      → (allow events c s env chain m).0 ≡ passed m' n
      → (m ≡ m')
        × IsRecorded c s env chain m (allow events c s env chain m).1
        × ((allow events c s env chain m).1.replay ≡ s.replay)
  unfolding allow record_event
  allow-IsRecorded c s env chain m m' n h =
      let q = record_in events s s.audit env (allowed_event c chain m) in
      let (same, good, audit, replay) = settle_allow-passed env m q m' n h in
      let (l, logged, appended, after, kept, _) =
        record_in-eq-ok s s.audit env (allowed_event c chain m) good in
      (
        same,
        record { log = l; logged = logged; appended = appended; log_after = audit ∙ after },
        replay ∙ kept,
      )

  settle_deny-refuses :
      (stop : Stop) (ch : Challenge) (q : Result AuditError Unit × State) (m : Mapping) (n : Text)
      → (settle_deny events stop ch q).0 ≢ passed m n
  unfolding settle_deny
  settle_deny-refuses stop ch (err e, s) m n h = cc
  settle_deny-refuses stop ch (ok u, s) m n h = cc

  pub write_deny-refuses :
      (c : Config) (s : State) (env : Env) (stop : Stop) (ch : Challenge) (m : Mapping) (n : Text)
      → (write_deny events c s env stop ch).0 ≢ passed m n
  unfolding write_deny
  write_deny-refuses c s env stop ch m n =
      settle_deny-refuses stop ch (record_event events s env (denied_event c stop)) m n

  pub write_deny_dpop-refuses :
      (c : Config) (s : State) (env : Env) (stop : Stop) (m : Mapping) (n : Text)
      → (write_deny_dpop events c s env stop).0 ≢ passed m n
  unfolding write_deny_dpop
  write_deny_dpop-refuses c s env stop m n h = elim (Bool-cases (stop.status == 401)) [
    | inl offers ↦
        write_deny-refuses c (issue_nonce s env).1 env stop
          (record { authenticate = authenticate stop.reason; nonce = (issue_nonce s env).0 }) m n
          (rw offers at h)
    | inr plain ↦
        write_deny-refuses c s env stop
          (record { authenticate = authenticate stop.reason; nonce = [] }) m n (rw plain at h)
  ]
