-- ===== src/Gateway/Pep/Traces.antt =====
-- What a request does to the cache of proofs (internal/gateway/gateway.go).
use agent_identity_plane.Prelude.{
  ◌≡◌, refl, ◌∙◌, [], ◌∷◌, Option, none, some, Result, ok, err, Bool-cases, inl, inr, ◌==◌,
}
use agent_identity_plane.Prelude.Text.{Text, is_empty}
use agent_identity_plane.Token.Claims.{confirm_jkt}
use agent_identity_plane.Token.Keys.{Primitives}
use agent_identity_plane.Verify.{ActorChain}
use agent_identity_plane.Visor.{Mapping}
use agent_identity_plane.Dpop.{DpopError, missing_proof, Proof, Request, replay_jti}
use agent_identity_plane.Dpop
use agent_identity_plane.Dpop.Nonce.{NonceCache, issue, has, unexpired}
use agent_identity_plane.Dpop.Nonce
use agent_identity_plane.Clock.{unix}
use agent_identity_plane.Prelude.Fields.{is_blank}
use agent_identity_plane.Sts.Replay.{ReplayCache, ReplayError, replayed}
use agent_identity_plane.Sts.Replay
use agent_identity_plane.Audit.{Event, Logger, AuditError, append}
use agent_identity_plane.Audit
use agent_identity_plane.Gateway.{
  Config, State, Env, Stop, Challenge, issue_nonce, allowed_event, record_event, record_in,
  authenticate, denied_event, settle_deny, settle_allow, write_deny, write_deny_dpop, allow,
}
use agent_identity_plane.Gateway.Pep.{
  consume_nonce, consume_proof, on_proof, on_cache, require_dpop,
}
use agent_identity_plane.Prelude.Int.{ℤ, ◌≤ℤ◌}
use agent_identity_plane.Sts.Replay.SingleUse.{Call, step}
use agent_identity_plane.Sts.Replay.Runs.{answer, IsTrace, IsTrace-stay, IsTrace-step}

abbrev pub call_of : Env → Proof → Call
call_of env p = record {
  now = env.replay_now;
  outcome = env.replay_outcome;
  jti = replay_jti p.jti;
  exp = p.iat;
  aliases = p.jti ∷ [];
}

module _ (events : agent_identity_plane.Audit.Codec) where
  record_in-replay :
      (s : State) (log : Option Logger) (env : Env) (e : Event)
      → (record_in events s log env e).1.replay ≡ s.replay
  unfolding record_in
  record_in-replay s none env e = refl
  record_in-replay s (some l) env e = refl

  settle_deny-replay :
      (stop : Stop) (ch : Challenge) (q : Result AuditError Unit × State)
      → (settle_deny events stop ch q).1.replay ≡ q.1.replay
  unfolding settle_deny
  settle_deny-replay stop ch (err e, s) = refl
  settle_deny-replay stop ch (ok u, s) = refl

  pub write_deny-replay :
      (c : Config) (s : State) (env : Env) (stop : Stop) (ch : Challenge)
      → (write_deny events c s env stop ch).1.replay ≡ s.replay
  unfolding write_deny record_event
  write_deny-replay c s env stop ch =
      settle_deny-replay stop ch (record_in events s s.audit env (denied_event c stop))
      ∙ record_in-replay s s.audit env (denied_event c stop)

  pub write_deny_dpop-replay :
      (c : Config) (s : State) (env : Env) (stop : Stop)
      → (write_deny_dpop events c s env stop).1.replay ≡ s.replay
  unfolding write_deny_dpop issue_nonce issue
  write_deny_dpop-replay c s env stop = elim (Bool-cases (stop.status == 401)) [
    | inl offers ↦ rw offers (
        write_deny-replay c (issue_nonce s env).1 env stop
          (record { authenticate = authenticate stop.reason; nonce = (issue_nonce s env).0 }))
    | inr plain ↦ rw plain (
        write_deny-replay c s env stop
          (record { authenticate = authenticate stop.reason; nonce = [] }))
  ]

  settle_allow-replay :
      (env : Env) (m : Mapping) (q : Result AuditError Unit × State)
      → (settle_allow events env m q).1.replay ≡ q.1.replay
  unfolding settle_allow issue_nonce issue
  settle_allow-replay env m (err e, s) = refl
  settle_allow-replay env m (ok u, s) = refl

  pub allow-replay :
      (c : Config) (s : State) (env : Env) (chain : ActorChain) (m : Mapping)
      → (allow events c s env chain m).1.replay ≡ s.replay
  unfolding allow record_event
  allow-replay c s env chain m =
      settle_allow-replay env m (record_in events s s.audit env (allowed_event c chain m))
      ∙ record_in-replay s s.audit env (allowed_event c chain m)

module _ (std : Primitives) (proofs : agent_identity_plane.Dpop.Codec)
    (replays : agent_identity_plane.Sts.Replay.Codec) where
  consume_nonce-replay :
      (s : State) (env : Env) (m : Mapping) (nonce : Text) (r : Result ReplayError Unit)
      → (consume_nonce std proofs replays s env m nonce r).1.replay ≡ s.replay
  unfolding consume_nonce agent_identity_plane.Dpop.Nonce.consume
  consume_nonce-replay s env m nonce (err e) = refl
  consume_nonce-replay s env m nonce (ok u) = elim (Bool-cases (is_blank nonce)) [
    | inl blank ↦ rw blank refl
    | inr named ↦ rw named refl
  ]

  module _ (t : ℤ) where
    consume_proof-IsTrace :
        (s : State) (env : Env) (m : Mapping) (p : Proof)
        → unix env.replay_now ≤ℤ t
        → IsTrace replays t s.replay (consume_proof std proofs replays s env m p).1.replay
    unfolding consume_proof
    consume_proof-IsTrace s env m p h =
        elim (Bool-cases (has (some s.nonces) p.nonce env.proof_now)) [
          | inl good ↦ rw good (
              IsTrace-step replays t s.replay
                (consume_nonce std proofs replays
                  (record s { replay = step replays s.replay (call_of env p) }) env m p.nonce
                  (answer replays s.replay (call_of env p))).1.replay
                (call_of env p) h
                (consume_nonce-replay (record s { replay = step replays s.replay (call_of env p) })
                  env m p.nonce (answer replays s.replay (call_of env p))))
          | inr bad ↦ rw bad (IsTrace-stay replays t s.replay s.replay refl)
        ]

    on_cache-IsTrace :
        (s : State) (env : Env) (m : Mapping) (cache : Option ReplayCache)
        (o : Result DpopError Proof)
        → unix env.replay_now ≤ℤ t
        → IsTrace replays t s.replay (on_cache std proofs replays s env m cache o).1.replay
    unfolding on_cache on_proof
    on_cache-IsTrace s env m none o h = IsTrace-stay replays t s.replay s.replay refl
    on_cache-IsTrace s env m (some cache) (err e) h = IsTrace-stay replays t s.replay s.replay refl
    on_cache-IsTrace s env m (some cache) (ok p) h = consume_proof-IsTrace s env m p h

    pub require_dpop-IsTrace :
        (s : State) (env : Env) (r : Request) (raw : Text) (chain : ActorChain) (m : Mapping)
        → unix env.replay_now ≤ℤ t
        → IsTrace replays t s.replay (require_dpop std proofs replays s env r raw chain m).1.replay
    unfolding require_dpop
    require_dpop-IsTrace s env r raw chain m h =
        elim (Bool-cases (is_empty (confirm_jkt chain.claims))) [
          | inl bare ↦ rw bare (IsTrace-stay replays t s.replay s.replay refl)
          | inr keyed ↦ rw keyed (
              on_cache-IsTrace s env m s.replay
                (agent_identity_plane.Dpop.verify std proofs (some r) raw (confirm_jkt chain.claims)
                  env.proof_now)
                h)
        ]
