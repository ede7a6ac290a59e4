-- ===== src/Gateway/Pep.antt =====
-- internal/gateway/gateway.go: `handlePEP` and the checks that it makes, in their order.
pub mod Identity
pub mod Possession
pub mod Recording
pub mod Soundness
pub mod Traces
pub mod SingleUse
use agent_identity_plane.Prelude.{
  ℕ, suc, ◌+◌, Bool, true, false, not, ◌&&◌, ◌||◌, ◌==◌, List, [], ◌∷◌, ◌++◌, Option, none, some,
  if◌then◌else◌, Result, ok, err, ◌>>=◌, ◌>>◌, fail_if,
}
use agent_identity_plane.Prelude.Int.{ℤ, pos}
use agent_identity_plane.Prelude.Text.{Text, is_empty, codes}
use agent_identity_plane.Clock.{Time}
use agent_identity_plane.Lines.{WriteOutcome}
use agent_identity_plane.Denylist.{Denied, DenylistError, deny_chain}
use agent_identity_plane.Denylist
use agent_identity_plane.Token.Claims.{confirm_jkt}
use agent_identity_plane.Token.Keys.{Jwks, Primitives}
use agent_identity_plane.Verify.{ActorChain, Verifier, Refusal, VerifyError, keys}
use agent_identity_plane.Verify
use agent_identity_plane.Visor.{Mapping, VisorError, from_chain, complete}
use agent_identity_plane.Visor
use agent_identity_plane.Dpop.{DpopError, missing_proof, Proof, Request, replay_jti}
use agent_identity_plane.Dpop
use agent_identity_plane.Dpop.Nonce.{NonceCache, new_nonce_cache, issue, has}
use agent_identity_plane.Dpop.Nonce
use agent_identity_plane.Sts.Replay.{ReplayCache, ReplayError, replayed}
use agent_identity_plane.Sts.Replay
use agent_identity_plane.Audit.{Event, Logger, AuditError, append}
use agent_identity_plane.Audit
use agent_identity_plane.A2a.{access_token}
use agent_identity_plane.Gateway.{
  Reason, Config, State, Env, Stop, Challenge, no_challenge, Answer, stop_with, deny_identity,
  mapping_of_refusal, with_nonces, write_deny, write_deny_dpop, allow,
}

module _ (std : Primitives) (proofs : agent_identity_plane.Dpop.Codec)
    (replays : agent_identity_plane.Sts.Replay.Codec) where
  abbrev pub replay_stop : Mapping → ReplayError → Stop
  replay_stop m ReplayError.replayed = stop_with 401 Reason.replayed_dpop (some m)
  replay_stop m _ = stop_with 503 Reason.dpop_unavailable (some m)

  -- The nonce is consumed last; by then the proof's identifier has been.
  consume_nonce : State → Env → Mapping → Text → Result ReplayError Unit → Result Stop Unit × State
  consume_nonce s env m nonce (err e) = (err (replay_stop m e), s)
  consume_nonce s env m nonce (ok u) =
      let (good, cache) =
        agent_identity_plane.Dpop.Nonce.consume (some s.nonces) nonce env.proof_now in
      (fail_if (not good) (stop_with 401 Reason.use_dpop_nonce (some m)), with_nonces s cache)

  -- The nonce and the identifier of a proof that verifies.
  unfoldable pub consume_proof : State → Env → Mapping → Proof → Result Stop Unit × State
  unfolding consume_nonce
  consume_proof s env m p =
      if not (has (some s.nonces) p.nonce env.proof_now)
      then (err (stop_with 401 Reason.use_dpop_nonce (some m)), s)
      else let (r, cache) =
          agent_identity_plane.Sts.Replay.consume replays s.replay env.replay_now env.replay_outcome
            (replay_jti p.jti) p.iat (p.jti ∷ []) in
        consume_nonce (record s { replay = cache }) env m p.nonce r

  abbrev pub proof_stop : Mapping → DpopError → Stop
  proof_stop m DpopError.missing_proof = stop_with 401 Reason.missing_dpop (some m)
  proof_stop m _ = stop_with 401 Reason.invalid_dpop_proof (some m)

  on_proof : State → Env → Mapping → Result DpopError Proof → Result Stop Unit × State
  unfolding consume_proof
  on_proof s env m (err e) = (err (proof_stop m e), s)
  on_proof s env m (ok p) = consume_proof s env m p

  -- Without a cache of proofs none is looked at.
  on_cache :
      State → Env → Mapping → Option ReplayCache → Result DpopError Proof → Result Stop Unit × State
  unfolding on_proof
  on_cache s env m none proof = (err (stop_with 503 Reason.dpop_unavailable (some m)), s)
  on_cache s env m (some cache) proof = on_proof s env m proof

  -- `requireDPoP` but for the answer that it writes.
  unfoldable pub require_dpop :
      State → Env → Request → Text → ActorChain → Mapping → Result Stop Unit × State
  unfolding on_cache confirm_jkt
  require_dpop s env r raw chain m =
      if is_empty (confirm_jkt chain.claims)
      then (err (stop_with 401 Reason.missing_cnf (some m)), s)
      else on_cache s env m s.replay (
          agent_identity_plane.Dpop.verify std proofs (some r) raw (confirm_jkt chain.claims)
            env.proof_now)

module _ (std : Primitives) (actors : agent_identity_plane.Visor.Codec) where
  abbrev pub invalid : Config → Result Refusal ActorChain → Result Stop ActorChain
  invalid c (ok ch) = ok ch
  invalid c (err e) =
      err (stop_with 401 Reason.invalid_token (mapping_of_refusal actors c.short_names e.chain))

  abbrev pub incomplete : Mapping → Result VisorError Unit → Result Stop Unit
  incomplete m (ok u) = ok tt
  incomplete m (err e) = err (stop_with 401 Reason.incomplete_chain (some m))

  abbrev pub not_denied :
      Mapping
      → Result DenylistError (Option agent_identity_plane.Denylist.Reason)
      → Result Stop Unit
  not_denied m (err e) = err (stop_with 503 Reason.denylist_unavailable (some m))
  not_denied m (ok none) = ok tt
  not_denied m (ok (some reason)) = err (stop_with 401 (Reason.denied reason) (some m))

  -- The checks of `handlePEP` that change nothing; the text is the header `Authorization`.
  unfoldable pub identify : Config → Env → Text → Result Stop (ActorChain × Mapping)
  unfolding deny_identity mapping_of_refusal
  identify c env authorization = do
    fail_if (not env.within_rate) (stop_with 429 Reason.rate_limited none)
    fail_if (is_empty (access_token authorization)) (stop_with 401 Reason.missing_bearer none)
    chain ← invalid c (
        agent_identity_plane.Verify.verify std c.verifier (access_token authorization) c.audience
          env.token_now)
    incomplete (from_chain actors c.short_names chain)
        (complete actors (from_chain actors c.short_names chain))
    not_denied (from_chain actors c.short_names chain)
        (deny_identity c (from_chain actors c.short_names chain))
    ok (chain, from_chain actors c.short_names chain)

module _ (std : Primitives) (actors : agent_identity_plane.Visor.Codec)
    (proofs : agent_identity_plane.Dpop.Codec) (replays : agent_identity_plane.Sts.Replay.Codec)
    (events : agent_identity_plane.Audit.Codec) where
  proved : Config → Env → ActorChain → Mapping → Result Stop Unit × State → Answer × State
  unfolding allow write_deny_dpop
  proved c env chain m (err stop, s) = write_deny_dpop events c s env stop
  proved c env chain m (ok u, s) = allow events c s env chain m

  identified :
      Config → State → Env → Request → Text → Result Stop (ActorChain × Mapping) → Answer × State
  unfolding proved require_dpop write_deny
  identified c s env r authorization (err stop) = write_deny events c s env stop no_challenge
  identified c s env r authorization (ok (chain, m)) =
      proved c env chain m
        (require_dpop std proofs replays s env r (access_token authorization) chain m)

  -- `handlePEP` to the point where it answers or passes the request on.
  unfoldable pub handle_pep : Config → State → Env → Request → Text → Answer × State
  unfolding identified identify
  handle_pep c s env r authorization =
      identified c s env r authorization (identify std actors c env authorization)
