-- ===== src/Gateway/Pep/Soundness.antt =====
-- What an allowed request has passed (internal/gateway/gateway.go).
use mathlib.Core.Path.{subst}
use agent_identity_plane.Prelude.{◌≡◌, refl, Result, ok, err}
use agent_identity_plane.Prelude.Text.{Text}
use agent_identity_plane.Token.Claims.{confirm_jkt}
use agent_identity_plane.Token.Keys.{Primitives}
use agent_identity_plane.Verify.{ActorChain}
use agent_identity_plane.Visor.{Mapping, VisorError, from_chain, complete}
use agent_identity_plane.Visor
use agent_identity_plane.Dpop.{DpopError, missing_proof, Proof, Request, replay_jti}
use agent_identity_plane.Dpop
use agent_identity_plane.Sts.Replay.{ReplayCache, ReplayError, replayed}
use agent_identity_plane.Sts.Replay
use agent_identity_plane.Audit.{Event, Logger, AuditError, append}
use agent_identity_plane.Audit
use agent_identity_plane.A2a.{access_token}
use agent_identity_plane.Gateway.{Config, State, Env, Stop, no_challenge, passed, allow}
use agent_identity_plane.Gateway.Pep.{identify, require_dpop, proved, identified, handle_pep}
use agent_identity_plane.Gateway.Pep.Identity.{IsIdentified, identify-IsIdentified}
use agent_identity_plane.Gateway.Pep.Possession.{IsPossessed, require_dpop-IsPossessed}
use agent_identity_plane.Gateway.Pep.Recording.{
  IsRecorded, allow-IsRecorded, write_deny-refuses, write_deny_dpop-refuses,
}

module _ (std : Primitives) (actors : agent_identity_plane.Visor.Codec)
    (proofs : agent_identity_plane.Dpop.Codec) (replays : agent_identity_plane.Sts.Replay.Codec)
    (events : agent_identity_plane.Audit.Codec) where
  -- What a request that is passed on has shown, and what it has left in the state.
  pub record IsAllowed (c : Config) (s : State) (env : Env) (r : Request) (authorization : Text)
      (m : Mapping) (s' : State) : Type 0 where
    pub chain : ActorChain
    pub found : IsIdentified std actors c env authorization chain m
    pub proven : State
    pub possessed :
        IsPossessed std proofs replays s env r
          (access_token authorization)
          (confirm_jkt chain.claims)
          proven
    pub logged_request : IsRecorded events c proven env chain m s'
    pub replay_after : s'.replay ≡ proven.replay

  proved-IsAllowed :
      (c : Config) (s : State) (env : Env) (r : Request) (authorization : Text) (chain : ActorChain)
      (m m' : Mapping) (n : Text) (q : Result Stop Unit × State)
      → IsIdentified std actors c env authorization chain m
      → (q.0 ≡ ok tt
          → IsPossessed std proofs replays s env r
              (access_token authorization)
              (confirm_jkt chain.claims)
              q.1)
      → (proved std actors proofs replays events c env chain m q).0 ≡ passed m' n
      → IsAllowed c s env r authorization m'
          (proved std actors proofs replays events c env chain m q).1
  unfolding proved
  proved-IsAllowed c s env r authorization chain m m' n (err stop, s') i p h =
      absurd (write_deny_dpop-refuses events c s' env stop m' n h)
  proved-IsAllowed c s env r authorization chain m m' n (ok u, s') i p h =
      let (same, rec, replay) = allow-IsRecorded events c s' env chain m m' n h in
      let allowed : IsAllowed c s env r authorization m (allow events c s' env chain m).1 = record {
        chain = chain;
        found = i;
        proven = s';
        possessed = p refl;
        logged_request = rec;
        replay_after = replay;
      } in
      subst (λ x. IsAllowed c s env r authorization x (allow events c s' env chain m).1) same
        allowed

  identified-IsAllowed :
      (c : Config) (s : State) (env : Env) (r : Request) (authorization : Text)
      (o : Result Stop (ActorChain × Mapping)) (m : Mapping) (n : Text)
      → identify std actors c env authorization ≡ o
      → (identified std actors proofs replays events c s env r authorization o).0 ≡ passed m n
      → IsAllowed c s env r authorization m
          (identified std actors proofs replays events c s env r authorization o).1
  unfolding identified
  identified-IsAllowed c s env r authorization (err stop) m n i h =
      absurd (write_deny-refuses events c s env stop no_challenge m n h)
  identified-IsAllowed c s env r authorization (ok (chain, m')) m n i h =
      proved-IsAllowed c s env r authorization chain m' m n
        (require_dpop std proofs replays s env r (access_token authorization) chain m')
        (identify-IsIdentified std actors c env authorization chain m' i)
        (require_dpop-IsPossessed std proofs replays s env r (access_token authorization) chain m')
        h

  -- A request that the gateway passes on is within the rate and carries a token that the verifier
  -- accepts for the gateway's audience, with a complete chain that the denylist does not deny. Its
  -- proof is made by the key that the token is bound to, for this request and this token, with a
  -- nonce that was good and is consumed; the proof's identifier is consumed in the replay cache, and
  -- the log has taken the record of the request.
  pub handle_pep-IsAllowed :
      (c : Config) (s : State) (env : Env) (r : Request) (authorization : Text) (m : Mapping)
      (n : Text)
      → (handle_pep std actors proofs replays events c s env r authorization).0 ≡ passed m n
      → IsAllowed c s env r authorization m
          (handle_pep std actors proofs replays events c s env r authorization).1
  unfolding handle_pep
  handle_pep-IsAllowed c s env r authorization m n h =
      identified-IsAllowed c s env r authorization (identify std actors c env authorization) m n
        refl h
