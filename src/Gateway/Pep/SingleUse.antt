-- ===== src/Gateway/Pep/SingleUse.antt =====
-- A proof is accepted once: internal/gateway/gateway.go with internal/sts/replay.go.
use mathlib.Core.Path.{subst}
use agent_identity_plane.Prelude.{◌≡◌, ◌≢◌, refl, ap, ◌∙◌, List, [], ◌∷◌, Result, ok, err, All}
use agent_identity_plane.Prelude.Text.{Text}
use agent_identity_plane.Token.Claims.{confirm_jkt}
use agent_identity_plane.Token.Keys.{Primitives}
use agent_identity_plane.Verify.{ActorChain}
use agent_identity_plane.Visor.{Mapping, VisorError, from_chain, complete}
use agent_identity_plane.Visor
use agent_identity_plane.Dpop.{DpopError, missing_proof, Proof, Request, replay_jti}
use agent_identity_plane.Dpop
use agent_identity_plane.Dpop.Soundness.{IsProof}
use agent_identity_plane.Clock.{unix}
use agent_identity_plane.Sts.Replay.{ReplayCache, ReplayError, replayed}
use agent_identity_plane.Sts.Replay
use agent_identity_plane.Audit.{Event, Logger, AuditError, append}
use agent_identity_plane.Audit
use agent_identity_plane.A2a.{access_token}
use agent_identity_plane.Gateway.{
  Config, State, Env, Stop, no_challenge, Answer, passed, write_deny,
}
use agent_identity_plane.Gateway.Pep.{identify, require_dpop, proved, identified, handle_pep}
use agent_identity_plane.Prelude.Int.{ℤ, ◌≤ℤ◌}
use agent_identity_plane.Sts.Replay.SingleUse.{IsCache, step, run_calls}
use agent_identity_plane.Sts.Replay.Runs.{
  answer, consume_never_again, IsTrace, IsTrace-stay, IsTrace-join,
}
use agent_identity_plane.Dpop.SameProof.{IsProof-same}
use agent_identity_plane.Gateway.Pep.Soundness.{handle_pep-IsAllowed}
use agent_identity_plane.Gateway.Pep.Traces.{
  call_of, write_deny-replay, write_deny_dpop-replay, allow-replay, require_dpop-IsTrace,
}

-- A request with its surroundings.
pub record Visit : Type 0 where
  pub config : Config
  pub env : Env
  pub request : Request
  pub authorization : Text

module _ (std : Primitives) (actors : agent_identity_plane.Visor.Codec)
    (proofs : agent_identity_plane.Dpop.Codec) (replays : agent_identity_plane.Sts.Replay.Codec)
    (events : agent_identity_plane.Audit.Codec) where
  proved-replay :
      (c : Config) (env : Env) (chain : ActorChain) (m : Mapping) (q : Result Stop Unit × State)
      → (proved std actors proofs replays events c env chain m q).1.replay ≡ q.1.replay
  unfolding proved
  proved-replay c env chain m (err stop, s) = write_deny_dpop-replay events c s env stop
  proved-replay c env chain m (ok u, s) = allow-replay events c s env chain m

  identified-IsTrace :
      (t : ℤ) (c : Config) (s : State) (env : Env) (r : Request) (authorization : Text)
      (o : Result Stop (ActorChain × Mapping))
      → unix env.replay_now ≤ℤ t
      → IsTrace replays t s.replay
          (identified std actors proofs replays events c s env r authorization o).1.replay
  unfolding identified
  identified-IsTrace t c s env r authorization (err stop) h =
      IsTrace-stay replays t s.replay (write_deny events c s env stop no_challenge).1.replay
        (write_deny-replay events c s env stop no_challenge)
  identified-IsTrace t c s env r authorization (ok (chain, m)) h =
      let q = require_dpop std proofs replays s env r (access_token authorization) chain m in
      IsTrace-join replays t s.replay q.1.replay
        (proved std actors proofs replays events c env chain m q).1.replay
        (require_dpop-IsTrace std proofs replays t s env r (access_token authorization) chain m h)
        (IsTrace-stay replays t q.1.replay
          (proved std actors proofs replays events c env chain m q).1.replay
          (proved-replay c env chain m q))

  -- One request at the gateway.
  abbrev pub visit : State → Visit → Answer × State
  visit s v = handle_pep std actors proofs replays events v.config s v.env v.request v.authorization

  visit-IsTrace :
      (t : ℤ) (s : State) (v : Visit)
      → unix v.env.replay_now ≤ℤ t
      → IsTrace replays t s.replay (visit s v).1.replay
  unfolding handle_pep
  visit-IsTrace t s v h =
      identified-IsTrace t v.config s v.env v.request v.authorization
        (identify std actors v.config v.env v.authorization) h

  -- The state after a list of requests.
  unfoldable pub run_visits : State → List Visit → State
  run_visits s [] = s
  run_visits s (v ∷ vs) = run_visits (visit s v).1 vs

  -- No request reads a later replay clock than the given second.
  abbrev pub NotAfter : ℤ → List Visit → Type 0
  NotAfter t = All (λ v. unix v.env.replay_now ≤ℤ t)

  run_visits-IsTrace :
      (t : ℤ) (s : State) (vs : List Visit)
      → NotAfter t vs
      → IsTrace replays t s.replay (run_visits s vs).replay
  unfolding run_visits
  run_visits-IsTrace t s [] h = IsTrace-stay replays t s.replay s.replay refl
  run_visits-IsTrace t s (v ∷ vs) (e, h) =
      IsTrace-join replays t s.replay (visit s v).1.replay (run_visits (visit s v).1 vs).replay
        (visit-IsTrace t s v e) (run_visits-IsTrace t (visit s v).1 vs h)

  -- The proof that a request which is passed on has consumed.
  pub record IsSpent (s : State) (v : Visit) : Type 0 where
    pub proof : Proof
    pub raw : Text
    pub jkt : Text
    pub accepted : IsProof std proofs v.request raw jkt v.env.proof_now proof
    pub consumed : answer replays s.replay (call_of v.env proof) ≡ ok tt
    pub after : (visit s v).1.replay ≡ step replays s.replay (call_of v.env proof)

  visit-IsSpent :
      (s : State) (v : Visit) (m : Mapping) (n : Text) → (visit s v).0 ≡ passed m n → IsSpent s v
  visit-IsSpent s v m n h =
      let a =
        handle_pep-IsAllowed std actors proofs replays events v.config s v.env v.request
          v.authorization m n h in
      let p = a.possessed in
      record {
        proof = p.proof;
        raw = access_token v.authorization;
        jkt = confirm_jkt a.chain.claims;
        accepted = p.accepted;
        consumed = p.consumed;
        after = a.replay_after ∙ p.replay_after;
      }

  -- Once a request has been passed on, no request with the same proof is passed on again, with
  -- whatever token and configuration, provided that the clock of the replay cache does not run
  -- backwards between the two and the cache is not replaced.
  pub visit_single_use :
      (s : State) (first : Visit) (between : List Visit) (second : Visit) (m m' : Mapping)
      (n n' : Text)
      → IsCache s.replay
      → second.request.proof ≡ first.request.proof
      → NotAfter (unix second.env.replay_now) between
      → (visit s first).0 ≡ passed m n
      → (visit (run_visits (visit s first).1 between) second).0 ≢ passed m' n'
  visit_single_use s first between second m m' n n' h same order once again =
      let a = visit-IsSpent s first m n once in
      let b = visit-IsSpent (run_visits (visit s first).1 between) second m' n' again in
      let (jti, iat) =
        IsProof-same std proofs first.request second.request a.raw a.jkt b.raw b.jkt
          first.env.proof_now second.env.proof_now a.proof b.proof a.accepted b.accepted same in
      let (ks, until, led) =
        run_visits-IsTrace (unix second.env.replay_now) (visit s first).1 between order in
      consume_never_again replays s.replay (call_of first.env a.proof) ks
        (call_of second.env b.proof) h a.consumed until (ap replay_jti jti) iat
        (subst (λ c. answer replays c (call_of second.env b.proof) ≡ ok tt)
          (led ∙ ap (λ c. run_calls replays c ks) a.after) b.consumed)
