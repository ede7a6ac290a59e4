-- ===== src/Visor/Completeness.antt =====
-- When the mapping of a token is complete (internal/visoradapter/adapter.go, actor.go).
use agent_identity_plane.Prelude.{
  ◌≡◌, ◌↔◌, refl, ap, ◌∙◌, true, false, Bool, ◌||◌, List, [], ◌∷◌, ◌++◌, map, Option, none, some,
  arith, Result, ok, err, fail_if, fail_if-eq-ok, >>=-eq-ok, ok-injective,
}
use agent_identity_plane.Prelude.Text.{Text, text_eq, text_eq_refl, is_empty, hex}
use agent_identity_plane.Prelude.Fields.{is_blank}
use agent_identity_plane.Clock.{is_zero}
use agent_identity_plane.Token.Claims.{Claims, Actor, actor_sub, actor_subs, current_sub, subs_of}
use agent_identity_plane.Verify.{ActorChain, chain_from_claims, current_actor}
use agent_identity_plane.Visor.{
  VisorError, missing_agent, missing_session, missing_principal, ActorContext, Codec, SnapshotBody,
  snapshot_body, snapshot_hash, with_hash, validate_structure, seal, open_context,
  context_from_chain, chain_hops, actor_ref, head_is, last_is, is_nil, actor_version,
  actor_verification, from_chain, complete, or_zero, zero_context,
}

last_is-append :
    (hops : List Text) (who : Text) → last_is (map actor_ref (hops ++ who ∷ [])) who ≡ true
last_is-append [] who = text_eq_refl who
last_is-append (h ∷ []) who = text_eq_refl who
last_is-append (h ∷ g ∷ hops) who = last_is-append (g ∷ hops) who

empty-blank : (t : Text) → is_blank t ≡ false → is_empty t ≡ false
unfolding is_blank
empty-blank [] h = cc
empty-blank (b ∷ t) h = refl

-- The last hop of a token with a current actor is that actor.
last_is-hops :
    (c : Claims)
    → is_blank (current_actor c.act) ≡ false
    → last_is (map actor_ref (c.sub ∷ actor_subs c)) (current_actor c.act) ≡ true
unfolding actor_subs current_sub is_blank
last_is-hops c h = of_act c.act h
  where
    of_act :
        (act : Option Actor)
        → is_blank (current_actor act) ≡ false
        → last_is
            (map actor_ref (c.sub ∷ (subs_of c.act_chain ++ current_sub act)))
            (current_actor act)
          ≡ true
    of_act none k = cc
    of_act (some a) k =
        rw (empty-blank (actor_sub a) k)
          (last_is-append (c.sub ∷ subs_of c.act_chain) (actor_sub a))

module _ (codec : Codec) where
  -- The context that the check of a structure accepts.
  validate_structure-of :
      (c : ActorContext) (h : Text)
      → text_eq c.version actor_version ≡ true
      → is_blank c.principal_id ≡ false
      → is_blank c.acting_agent ≡ false
      → is_blank c.transaction ≡ false
      → is_zero c.expires_at ≡ false
      → text_eq c.verification_method actor_verification ≡ true
      → is_blank c.verification_method ≡ false
      → is_nil c.actor_chain ≡ false
      → head_is c.actor_chain c.principal_id ≡ true
      → last_is c.actor_chain c.acting_agent ≡ true
      → snapshot_hash codec c ≡ ok h
      → c.identity_snapshot_hash ≡ h
      → validate_structure codec c ≡ ok tt
  unfolding validate_structure
  validate_structure-of c h version principal agent transaction expires method named full head last
        hash same =
      rw version (
        rw principal (
          rw agent (
            rw transaction (
              rw expires (
                rw named (
                  rw method
                    (rw full (rw head (rw last (rw hash (rw same (rw text_eq_refl refl))))))))))))

  validate_structure-expires :
      (c : ActorContext) → validate_structure codec c ≡ ok tt → is_zero c.expires_at ≡ false
  unfolding validate_structure
  validate_structure-expires c h = ground arith

  -- A body of texts has a JSON form.
  abbrev pub Marshals : Type 0
  Marshals = (b : SnapshotBody) → (t : Text) × (codec.marshal_body b ≡ some t)

  zero_context-fails : validate_structure codec zero_context ≡ ok tt → ⊥
  unfolding validate_structure text_eq
  zero_context-fails h = cc

  seal-eq-ok : (c d : ActorContext) → seal codec c ≡ ok d → (h : Text) × (with_hash codec c h ≡ d)
  unfolding seal
  seal-eq-ok c d e =
      let (h, _, e0) = >>=-eq-ok (snapshot_hash codec c) _ e in
      let (_, _, e1) = >>=-eq-ok (validate_structure codec (with_hash codec c h)) _ e0 in
      (h, ok-injective (with_hash codec c h) d e1)

  seal-of :
      (c : ActorContext) (h : Text)
      → snapshot_hash codec c ≡ ok h
      → validate_structure codec (with_hash codec c h) ≡ ok tt
      → seal codec c ≡ ok (with_hash codec c h)
  unfolding seal
  seal-of c h hash valid = rw hash (rw valid refl)

  -- The context of a mapping, if it is accepted, has the expiry of the chain.
  or_zero-expires :
      (ch : ActorChain)
      → validate_structure codec (or_zero (context_from_chain codec ch)) ≡ ok tt
      → is_zero ch.expires ≡ false
  unfolding context_from_chain
  or_zero-expires ch h = of_seal (seal codec (open_context ch)) refl h
    where
      of_seal :
          (r : Result VisorError ActorContext)
          → seal codec (open_context ch) ≡ r
          → validate_structure codec (or_zero r) ≡ ok tt
          → is_zero ch.expires ≡ false
      of_seal (err e) q k = absurd (zero_context-fails k)
      of_seal (ok d) q k =
          let (t, e) = seal-eq-ok (open_context ch) d q in
          unfold open_context in
          ap (λ (x : ActorContext). is_zero x.expires_at) e ∙ validate_structure-expires d k

  sealed_valid :
      (raw : Text) (c : Claims) (t : Text)
      → is_blank c.sub ≡ false
      → is_blank (current_actor c.act) ≡ false
      → is_blank c.txn ≡ false
      → is_zero (chain_from_claims raw c).expires ≡ false
      → snapshot_hash codec (open_context (chain_from_claims raw c)) ≡ ok t
      → validate_structure codec (with_hash codec (open_context (chain_from_claims raw c)) t)
        ≡ ok tt
  unfolding open_context chain_hops chain_from_claims snapshot_hash
  sealed_valid raw c t sub agent txn expires hash =
      validate_structure-of (with_hash codec (open_context (chain_from_claims raw c)) t) t
        (text_eq_refl actor_version) sub agent txn expires (text_eq_refl actor_verification)
        (unfold is_blank in refl) refl (text_eq_refl c.sub) (last_is-hops c agent) hash refl

  context_from_chain-total :
      (raw : Text) (c : Claims)
      → Marshals
      → is_blank c.sub ≡ false
      → is_blank (current_actor c.act) ≡ false
      → is_blank c.txn ≡ false
      → is_zero (chain_from_claims raw c).expires ≡ false
      → validate_structure codec (or_zero (context_from_chain codec (chain_from_claims raw c)))
        ≡ ok tt
  unfolding context_from_chain
  context_from_chain-total raw c marshals sub agent txn expires =
      let d = open_context (chain_from_claims raw c) in
      let (b, m) = marshals (snapshot_body codec d) in
      let t = hex (codec.sha256 b) in
      let hash = hash_of d b m in
      let valid = sealed_valid raw c t sub agent txn expires hash in
      rw (seal-of d t hash valid) valid
    where
      hash_of :
          (d : ActorContext) (b : Text)
          → codec.marshal_body (snapshot_body codec d) ≡ some b
          → snapshot_hash codec d ≡ ok (hex (codec.sha256 b))
      hash_of d b m = unfold snapshot_hash in (rw m refl)

  -- What the chain of a token must have for its mapping to be complete.
  pub record IsWhole (raw : Text) (c : Claims) (short : Bool) : Type 0 where
    pub principal : is_blank c.sub ≡ false
    pub agent : is_blank (current_actor c.act) ≡ false
    pub client : is_blank (from_chain codec short (chain_from_claims raw c)).client_id ≡ false
    pub transaction : is_blank c.txn ≡ false
    pub expires : is_zero (chain_from_claims raw c).expires ≡ false

  complete-IsWhole :
      (raw : Text) (c : Claims) (short : Bool)
      → complete codec (from_chain codec short (chain_from_claims raw c)) ≡ ok tt
      → IsWhole raw c short
  unfolding complete from_chain chain_from_claims
  complete-IsWhole raw c short h =
      let m = from_chain codec short (chain_from_claims raw c) in
      let (_, a, e0) =
        >>=-eq-ok (fail_if (is_blank m.acting_agent || is_blank m.client_id) missing_agent) _ h in
      let (_, t, e1) = >>=-eq-ok (fail_if (is_blank m.session_id) missing_session) _ e0 in
      let (_, p, e2) = >>=-eq-ok (fail_if (is_blank m.principal) missing_principal) _ e1 in
      let (agent, client) = neither (is_blank m.acting_agent) (is_blank m.client_id) a in
      record {
        principal = fail_if-eq-ok (is_blank m.principal) missing_principal p;
        agent = agent;
        client = client;
        transaction = fail_if-eq-ok (is_blank m.session_id) missing_session t;
        expires = or_zero-expires (chain_from_claims raw c) e2;
      }
    where
      neither :
          (a b : Bool) {u : Unit {0}}
          → fail_if (a || b) missing_agent ≡ ok u
          → (a ≡ false) × (b ≡ false)
      neither a b e = ground arith

  IsWhole-complete :
      (raw : Text) (c : Claims) (short : Bool)
      → Marshals
      → IsWhole raw c short
      → complete codec (from_chain codec short (chain_from_claims raw c)) ≡ ok tt
  unfolding complete from_chain is_blank chain_from_claims
  IsWhole-complete raw c short marshals w = rw w.agent (
      rw w.client (
        rw w.transaction (
          rw w.principal
            (context_from_chain-total raw c marshals w.principal w.agent w.transaction w.expires))))

  -- If the body of a context always has a JSON form, then the mapping of a token's chain is complete
  -- if and only if the token has a subject, a current actor with a client name, and a transaction,
  -- none of them blank, and does not expire at the zero time.
  pub complete_iff :
      (raw : Text) (c : Claims) (short : Bool)
      → Marshals
      → (complete codec (from_chain codec short (chain_from_claims raw c)) ≡ ok tt)
        ↔ IsWhole raw c short
  complete_iff raw c short marshals =
      (complete-IsWhole raw c short, IsWhole-complete raw c short marshals)
