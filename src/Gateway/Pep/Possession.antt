-- ===== src/Gateway/Pep/Possession.antt =====
-- What the check of a proof has found and consumed (internal/gateway/gateway.go).
use agent_identity_plane.Prelude.{
  ◌≡◌, refl, true, false, Bool, not, [], ◌∷◌, Option, none, some, arith, Result, ok, err, fail_if,
  Bool-cases, inl, inr,
}
use agent_identity_plane.Prelude.Text.{Text, is_empty}
use agent_identity_plane.Token.Claims.{confirm_jkt}
use agent_identity_plane.Token.Keys.{Primitives}
use agent_identity_plane.Verify.{ActorChain}
use agent_identity_plane.Visor.{Mapping}
use agent_identity_plane.Dpop.{DpopError, missing_proof, Proof, Request, replay_jti}
use agent_identity_plane.Dpop
use agent_identity_plane.Dpop.Soundness.{IsProof, verify-IsProof}
use agent_identity_plane.Dpop.Nonce.{NonceCache, issue, has, unexpired}
use agent_identity_plane.Dpop.Nonce
use agent_identity_plane.Clock.{unix}
use agent_identity_plane.Prelude.Fields.{is_blank}
use agent_identity_plane.Prelude.Assoc.{lookup}
use agent_identity_plane.Sts.Replay.{ReplayCache, ReplayError, replayed}
use agent_identity_plane.Sts.Replay
use agent_identity_plane.Gateway.{Reason, State, Env, Stop, stop_with}
use agent_identity_plane.Gateway.Pep.{
  consume_nonce, consume_proof, on_proof, on_cache, require_dpop,
}

module _ (std : Primitives) (proofs : agent_identity_plane.Dpop.Codec)
    (replays : agent_identity_plane.Sts.Replay.Codec) where
  abbrev pub consumption : State → Env → Proof → Result ReplayError Unit × Option ReplayCache
  consumption s env p =
      agent_identity_plane.Sts.Replay.consume replays s.replay env.replay_now env.replay_outcome
        (replay_jti p.jti) p.iat (p.jti ∷ [])

  -- What the check of the proof has found, and the state that it has left.
  pub record IsPossessed (s : State) (env : Env) (r : Request) (raw jkt : Text) (s' : State)
      : Type 0 where
    pub proof : Proof
    pub keyed : is_empty jkt ≡ false
    pub accepted : IsProof std proofs r raw jkt env.proof_now proof
    pub fresh_nonce : has (some s.nonces) proof.nonce env.proof_now ≡ true
    pub consumed : (consumption s env proof).0 ≡ ok tt
    pub replay_after : s'.replay ≡ (consumption s env proof).1
    pub audit_after : s'.audit ≡ s.audit
    pub nonce_spent :
        (agent_identity_plane.Dpop.Nonce.consume (some s.nonces) proof.nonce env.proof_now).0 ≡ true
    pub nonces_after :
        some s'.nonces
        ≡ (agent_identity_plane.Dpop.Nonce.consume (some s.nonces) proof.nonce env.proof_now).1

  consume_nonce-eq-ok :
      (s : State) (env : Env) (m : Mapping) (nonce : Text) (r : Result ReplayError Unit)
      → (consume_nonce std proofs replays s env m nonce r).0 ≡ ok tt
      → let s' = (consume_nonce std proofs replays s env m nonce r).1 in
        let spent = agent_identity_plane.Dpop.Nonce.consume (some s.nonces) nonce env.proof_now in
        (r ≡ ok tt)
        × (spent.0 ≡ true)
        × (some s'.nonces ≡ spent.1)
        × (s'.replay ≡ s.replay)
        × (s'.audit ≡ s.audit)
  unfolding consume_nonce agent_identity_plane.Dpop.Nonce.consume
  consume_nonce-eq-ok s env m nonce (err e) h = cc
  consume_nonce-eq-ok s env m nonce (ok u) h = elim (Bool-cases (is_blank nonce)) [
    | inl blank ↦ absurd (no_blank (rw blank at h))
    | inr named ↦ rw named (
      refl,
      good_of (unexpired (unix env.proof_now) (lookup nonce s.nonces.issued)) (rw named at h),
      refl,
      refl,
      refl,
    )
  ]
    where
      no_blank :
          ◌≡◌ {A = Result Stop Unit} (err (stop_with 401 Reason.use_dpop_nonce (some m))) (ok tt)
          → ⊥
      no_blank e = cc

      good_of :
          (b : Bool)
          → fail_if (not b) (stop_with 401 Reason.use_dpop_nonce (some m)) ≡ ok tt
          → b ≡ true
      good_of b e = ground arith

  consume_proof-eq-ok :
      (s : State) (env : Env) (m : Mapping) (p : Proof)
      → (consume_proof std proofs replays s env m p).0 ≡ ok tt
      → let s' = (consume_proof std proofs replays s env m p).1 in
        let spent = agent_identity_plane.Dpop.Nonce.consume (some s.nonces) p.nonce env.proof_now in
        (has (some s.nonces) p.nonce env.proof_now ≡ true)
        × ((consumption s env p).0 ≡ ok tt)
        × (spent.0 ≡ true)
        × (some s'.nonces ≡ spent.1)
        × (s'.replay ≡ (consumption s env p).1)
        × (s'.audit ≡ s.audit)
  unfolding consume_proof
  consume_proof-eq-ok s env m p h = elim (Bool-cases (has (some s.nonces) p.nonce env.proof_now)) [
    | inl good ↦
        let (once, spent, nonces, replay, audit) =
          consume_nonce-eq-ok (record s { replay = (consumption s env p).1 }) env m p.nonce
            (consumption s env p).0 (rw good at h) in
        rw good (refl, once, spent, nonces, replay, audit)
    | inr bad ↦ absurd (no_nonce (rw bad at h))
  ]
    where
      no_nonce :
          ◌≡◌ {A = Result Stop Unit} (err (stop_with 401 Reason.use_dpop_nonce (some m))) (ok tt)
          → ⊥
      no_nonce e = cc

  on_proof-IsPossessed :
      (s : State) (env : Env) (m : Mapping) (r : Request) (raw jkt : Text)
      (o : Result DpopError Proof)
      → agent_identity_plane.Dpop.verify std proofs (some r) raw jkt env.proof_now ≡ o
      → is_empty jkt ≡ false
      → (on_proof std proofs replays s env m o).0 ≡ ok tt
      → IsPossessed s env r raw jkt (on_proof std proofs replays s env m o).1
  unfolding on_proof
  on_proof-IsPossessed s env m r raw jkt (err e) v k h = cc
  on_proof-IsPossessed s env m r raw jkt (ok p) v k h =
      let (good, once, spent, nonces, replay, audit) = consume_proof-eq-ok s env m p h in
      record {
        proof = p;
        keyed = k;
        accepted = verify-IsProof std proofs r raw jkt env.proof_now p v;
        fresh_nonce = good;
        consumed = once;
        replay_after = replay;
        audit_after = audit;
        nonce_spent = spent;
        nonces_after = nonces;
      }

  on_cache-IsPossessed :
      (s : State) (env : Env) (m : Mapping) (r : Request) (raw jkt : Text)
      (cache : Option ReplayCache) (o : Result DpopError Proof)
      → agent_identity_plane.Dpop.verify std proofs (some r) raw jkt env.proof_now ≡ o
      → is_empty jkt ≡ false
      → (on_cache std proofs replays s env m cache o).0 ≡ ok tt
      → IsPossessed s env r raw jkt (on_cache std proofs replays s env m cache o).1
  unfolding on_cache
  on_cache-IsPossessed s env m r raw jkt none o v k h = cc
  on_cache-IsPossessed s env m r raw jkt (some cache) o v k h =
      on_proof-IsPossessed s env m r raw jkt o v k h

  pub require_dpop-IsPossessed :
      (s : State) (env : Env) (r : Request) (raw : Text) (chain : ActorChain) (m : Mapping)
      → (require_dpop std proofs replays s env r raw chain m).0 ≡ ok tt
      → IsPossessed s env r raw
          (confirm_jkt chain.claims)
          (require_dpop std proofs replays s env r raw chain m).1
  unfolding require_dpop
  require_dpop-IsPossessed s env r raw chain m h =
      elim (Bool-cases (is_empty (confirm_jkt chain.claims))) [
        | inl bare ↦ absurd (no_key (rw bare at h))
        | inr keyed ↦ rw keyed (
            on_cache-IsPossessed s env m r raw (confirm_jkt chain.claims) s.replay
              (agent_identity_plane.Dpop.verify std proofs (some r) raw (confirm_jkt chain.claims)
                env.proof_now)
              refl keyed (rw keyed at h))
      ]
    where
      no_key :
          ◌≡◌ {A = Result Stop Unit} (err (stop_with 401 Reason.missing_cnf (some m))) (ok tt) → ⊥
      no_key e = cc
