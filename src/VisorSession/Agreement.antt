-- ===== src/VisorSession/Agreement.antt =====
-- What visor is started with (internal/visorsession/session.go).
use mathlib.Core.Path.{subst}
use agent_identity_plane.Prelude.{
  ℕ, ◌≡◌, ◌⊎◌, refl, ap, inl, inr, Bool, true, false, not, ◌&&◌, ◌||◌, ◌==◌, ltb, List, [], ◌∷◌,
  map, Option, arith, Result, ok, err, fail_if, >>=-eq-ok, ok-injective, Result-cases, Option-cases,
  ◌≢◌, if◌then◌else◌, length,
}
use agent_identity_plane.Prelude.Text.{Text, text_eq, text_eq_iff, is_empty}
use agent_identity_plane.Prelude.Fields.{is_blank, join_words}
use agent_identity_plane.Clock.{Time}
use agent_identity_plane.Token.Claims.{Claims, actor_subs, single, confirm_jkt}
use agent_identity_plane.Token.Keys.{Header, Primitives}
use agent_identity_plane.Token.Jws.{parse_unverified}
use agent_identity_plane.Audit.{same_hops}
use agent_identity_plane.Dpop
use agent_identity_plane.Verify.{current_actor}
use agent_identity_plane.Visor.{Mapping, complete, short_name, actor_verification}
use agent_identity_plane.Visor
use agent_identity_plane.VisorSession.{
  max_mapping_bytes, body_too_large, token_missing, proof_key_missing, not_mapping, headers_differ,
  is_mapping_content_type, check_gateway_url, SessionError, disagrees, or_incomplete,
  scopes_match_token, ref_id, at_second, is_audience, agrees_with_claims, or_disagrees, or_fail,
  Fetch, GatewayAnswer, SessionWorld, mapping_agrees_with_token, read_mapping, read_answer,
  attempt_proof, fetch_mapping, without_nonce, retry, fetch,
}

same_hops→≡ : (gs hs : List Text) → same_hops gs hs ≡ true → gs ≡ hs
unfolding same_hops
same_hops→≡ [] [] h = refl
same_hops→≡ [] (x ∷ hs) h = cc
same_hops→≡ (g ∷ gs) [] h = cc
same_hops→≡ (g ∷ gs) (x ∷ hs) h = ground (arith, text_eq_iff g x, same_hops→≡ gs hs)

-- The mapping says of the token's subject, actors, transaction, scopes, audience, identifier, expiry and
-- key what the token says.
pub record Agrees (m : Mapping) (c : Claims) : Type 0 where
  pub session : (is_blank c.txn ≡ false) × (m.session_id ≡ c.txn)
  pub principal : m.principal ≡ c.sub
  pub agent : m.acting_agent ≡ current_actor c.act
  pub client :
      (m.client_id ≡ current_actor c.act) ⊎ (m.client_id ≡ short_name (current_actor c.act))
  pub hops : m.hops ≡ c.sub ∷ actor_subs c
  pub scope : scopes_match_token m.scope c.scope ≡ true
  pub jti : m.jti ≡ c.jti
  pub context_chain : map ref_id m.verified_actor.actor_chain ≡ c.sub ∷ actor_subs c
  pub context_scope : scopes_match_token (join_words m.verified_actor.scopes) c.scope ≡ true
  pub context_issuer : m.verified_actor.issuer ≡ c.iss
  pub context_audience : is_audience (single c.aud) m.verified_actor.audience ≡ true
  pub context_expiry : at_second m.verified_actor.expires_at c ≡ true
  pub context_key : m.verified_actor.proof_key_thumbprint ≡ confirm_jkt c
  pub context_workload : is_blank m.verified_actor.workload_id ≡ true

-- The two tests of a check that has passed.
passed_both :
    (a b : Bool) {u : Unit {0}} → fail_if (a || b) disagrees ≡ ok u → (a ≡ false) × (b ≡ false)
passed_both a b h = ground arith

passed_one :
    (a b : Bool) {u : Unit {0}} → fail_if (a && b) disagrees ≡ ok u → (a ≡ false) ⊎ (b ≡ false)
passed_one true b h = inr (ground arith)
passed_one false b h = inl refl

passed_not : (a : Bool) {u : Unit {0}} → fail_if (not a) disagrees ≡ ok u → a ≡ true
passed_not a h = ground arith

not-not : (a : Bool) → not a ≡ false → a ≡ true
not-not a h = ground arith

same_text : (a b : Text) → not (text_eq a b) ≡ false → a ≡ b
same_text a b h = (text_eq_iff a b).0 (not-not (text_eq a b) h)

agrees_with_claims-Agrees : (m : Mapping) (c : Claims) → agrees_with_claims m c ≡ ok tt → Agrees m c
unfolding agrees_with_claims
agrees_with_claims-Agrees m c h =
    let va = m.verified_actor in
    let actor = current_actor c.act in
    let hops = c.sub ∷ actor_subs c in
    let (_, p1, e1) =
      >>=-eq-ok (fail_if (is_blank c.txn || not (text_eq m.session_id c.txn)) disagrees) _ h in
    let (_, p2, e2) =
      >>=-eq-ok
        (fail_if (not (text_eq m.principal c.sub) || not (text_eq m.acting_agent actor)) disagrees)
        _ e1 in
    let (_, p3, e3) =
      >>=-eq-ok
        (fail_if
          (not (text_eq va.principal_id c.sub)
            || not (text_eq va.acting_agent actor)
            || not (text_eq va.transaction c.txn))
          disagrees)
        _ e2 in
    let (_, p4, e4) =
      >>=-eq-ok
        (fail_if (not (text_eq m.client_id actor) && not (text_eq m.client_id (short_name actor)))
          disagrees)
        _ e3 in
    let (_, p5, e5) =
      >>=-eq-ok
        (fail_if (not (same_hops m.hops hops) || not (same_hops (map ref_id va.actor_chain) hops))
          disagrees)
        _ e4 in
    let (_, p6, e6) =
      >>=-eq-ok
        (fail_if
          (not (scopes_match_token m.scope c.scope)
            || not (scopes_match_token (join_words va.scopes) c.scope))
          disagrees)
        _ e5 in
    let (_, p7, e7) = >>=-eq-ok (fail_if (not (text_eq va.issuer c.iss)) disagrees) _ e6 in
    let (_, p8, e8) =
      >>=-eq-ok (fail_if (not (is_audience (single c.aud) va.audience)) disagrees) _ e7 in
    let (_, p9, e9) =
      >>=-eq-ok (fail_if (not (text_eq va.token_id c.jti) || not (text_eq m.jti c.jti)) disagrees) _
        e8 in
    let (_, p10, e10) = >>=-eq-ok (fail_if (not (at_second va.expires_at c)) disagrees) _ e9 in
    let (_, p11, e11) =
      >>=-eq-ok (fail_if (not (text_eq va.proof_key_thumbprint (confirm_jkt c))) disagrees) _ e10 in
    let (_, _, e12) =
      >>=-eq-ok (fail_if (not (text_eq va.verification_method actor_verification)) disagrees) _
        e11 in
    let (blank, session) = passed_both (is_blank c.txn) (not (text_eq m.session_id c.txn)) p1 in
    let (who, agent) =
      passed_both (not (text_eq m.principal c.sub)) (not (text_eq m.acting_agent actor)) p2 in
    let (own, chain) =
      passed_both (not (same_hops m.hops hops)) (not (same_hops (map ref_id va.actor_chain) hops))
        p5 in
    let (scope, scopes) =
      passed_both (not (scopes_match_token m.scope c.scope))
        (not (scopes_match_token (join_words va.scopes) c.scope)) p6 in
    let (_, jti) = passed_both (not (text_eq va.token_id c.jti)) (not (text_eq m.jti c.jti)) p9 in
    record {
      session = (blank, same_text m.session_id c.txn session);
      principal = same_text m.principal c.sub who;
      agent = same_text m.acting_agent actor agent;
      client =
          elim (passed_one (not (text_eq m.client_id actor))
            (not (text_eq m.client_id (short_name actor))) p4) [
              | inl e ↦ inl (same_text m.client_id actor e)
              | inr e ↦ inr (same_text m.client_id (short_name actor) e)
            ];
      hops = same_hops→≡ m.hops hops (not-not (same_hops m.hops hops) own);
      scope = not-not (scopes_match_token m.scope c.scope) scope;
      jti = same_text m.jti c.jti jti;
      context_chain =
          same_hops→≡ (map ref_id va.actor_chain) hops
            (not-not (same_hops (map ref_id va.actor_chain) hops) chain);
      context_scope = not-not (scopes_match_token (join_words va.scopes) c.scope) scopes;
      context_issuer = (text_eq_iff va.issuer c.iss).0 (passed_not (text_eq va.issuer c.iss) p7);
      context_audience = passed_not (is_audience (single c.aud) va.audience) p8;
      context_expiry = passed_not (at_second va.expires_at c) p10;
      context_key =
          (text_eq_iff va.proof_key_thumbprint (confirm_jkt c)).0
            (passed_not (text_eq va.proof_key_thumbprint (confirm_jkt c)) p11);
      context_workload = passed_not (is_blank va.workload_id) e12;
    }

pub or_incomplete-eq-ok :
    {E A : Type 0} (r : Result E A) {a : A} → or_incomplete r ≡ ok a → r ≡ ok a
or_incomplete-eq-ok (ok b) {a = a} h = ap ok (ok-injective b a h)
or_incomplete-eq-ok (err e) h = cc

or_disagrees-eq-ok : {E A : Type 0} (r : Result E A) {a : A} → or_disagrees r ≡ ok a → r ≡ ok a
or_disagrees-eq-ok (ok b) {a = a} h = ap ok (ok-injective b a h)
or_disagrees-eq-ok (err e) h = cc

else-eq-ok :
    {E A : Type 0} (b : Bool) (e : E) (r : Result E A) {a : A}
    → (if b then err e else r) ≡ ok a
    → r ≡ ok a
else-eq-ok true e r h = cc
else-eq-ok false e r h = h

err-not-ok : {E A : Type 0} (e : E) (a : A) → ◌≢◌ {A = Result E A} (err e) (ok a)
err-not-ok e a h = cc

module _ (std : Primitives) (actors : agent_identity_plane.Visor.Codec)
    (proofs : agent_identity_plane.Dpop.Codec) (world : SessionWorld) where
  -- The mapping is complete and agrees with the claims of the token.
  abbrev pub IsAgreed : Text → Mapping → Type 0
  IsAgreed token m =
      (complete actors m ≡ ok tt)
      × (p : Header × Claims) × (parse_unverified std token ≡ ok p)
      × Agrees m p.1

  mapping_agrees_with_token-IsAgreed :
      (m : Mapping) (token : Text)
      → complete actors m ≡ ok tt
      → mapping_agrees_with_token std actors proofs world m token ≡ ok tt
      → IsAgreed token m
  unfolding mapping_agrees_with_token
  mapping_agrees_with_token-IsAgreed m token whole h =
      let ((hd, c), parsed, agreed) = >>=-eq-ok (or_disagrees (parse_unverified std token)) _ h in
      (
        whole,
        (hd, c),
        or_disagrees-eq-ok (parse_unverified std token) parsed,
        agrees_with_claims-Agrees m c agreed,
      )

  read_mapping-IsAgreed :
      (token : Text) (a : GatewayAnswer) (m : Mapping)
      → read_mapping std actors proofs world token a ≡ ok m
      → IsAgreed token m
  unfolding read_mapping
  read_mapping-IsAgreed token a m h =
      let (_, _, e1) =
        >>=-eq-ok
          (fail_if
            (not (
              is_mapping_content_type std actors proofs world
                (world.parse_media_type a.content_type)))
            not_mapping)
          _ h in
      let (n, _, e2) = >>=-eq-ok (or_fail not_mapping (world.parse_mapping a.body)) _ e1 in
      let (_, whole, e3) = >>=-eq-ok (or_incomplete (complete actors n)) _ e2 in
      let (_, _, e4) =
        >>=-eq-ok
          (fail_if
            (not (text_eq a.client_header n.client_id)
              || not (text_eq a.session_header n.session_id))
            headers_differ)
          _ e3 in
      let (_, agreed, e5) =
        >>=-eq-ok (mapping_agrees_with_token std actors proofs world n token) _ e4 in
      subst (λ x. IsAgreed token x) (ok-injective n m e5)
        (mapping_agrees_with_token-IsAgreed n token (or_incomplete-eq-ok (complete actors n) whole)
          agreed)

  read_answer-IsAgreed :
      (f : Fetch) (nonce : Text) (a : GatewayAnswer) (m : Mapping)
      → read_answer std actors proofs world f nonce a ≡ ok m
      → IsAgreed f.token m
  unfolding read_answer
  read_answer-IsAgreed f nonce a m h =
      let read =
        else-eq-ok (not (a.response.status == 200)) _ _
          (else-eq-ok (ltb max_mapping_bytes (length a.body)) (body_too_large, []) _ h) in
      elim (Result-cases (read_mapping std actors proofs world f.token a)) [
        | inl (n, mapped) ↦
            subst (λ x. IsAgreed f.token x) (ok-injective n m (rw mapped at read))
              (read_mapping-IsAgreed f.token a n mapped)
        | inr (e, failed) ↦ absurd (err-not-ok (e, []) m (rw failed at read))
      ]

  without_nonce-eq-ok :
      (r : Result (SessionError × Text) Mapping) (m : Mapping)
      → without_nonce std actors proofs world r ≡ ok m
      → r ≡ ok m
  without_nonce-eq-ok (ok n) m h = ap ok (ok-injective n m h)
  without_nonce-eq-ok (err e) m h = cc

  fetch_mapping-IsAgreed :
      (f : Fetch) (now : Time) (nonce : Text) (bytes : List ℕ) (send : Text → Option GatewayAnswer)
      (m : Mapping)
      → fetch_mapping std actors proofs world f now nonce bytes send ≡ ok m
      → IsAgreed f.token m
  unfolding fetch_mapping
  fetch_mapping-IsAgreed f now nonce bytes send m h =
      elim (Result-cases (attempt_proof std actors proofs world f now nonce bytes)) [
        | inr (e, failed) ↦ absurd (err-not-ok (e, []) m (rw (failed, fetch_mapping) at h))
        | inl (proof, made) ↦
            let sent = rw (made, fetch_mapping) at h in
            elim (Option-cases (send proof)) [
              | inl lost ↦ absurd (err-not-ok _ m (rw lost at sent))
              | inr (a, answered) ↦ read_answer-IsAgreed f nonce a m (rw answered at sent)
            ]
      ]

  retry-IsAgreed :
      (f : Fetch) (now : Time) (bytes : List ℕ) (send : Text → Option GatewayAnswer)
      (r : Result (SessionError × Text) Mapping) (m : Mapping)
      → ((n : Mapping) → r ≡ ok n → IsAgreed f.token n)
      → retry std actors proofs world f now bytes send r ≡ ok m
      → IsAgreed f.token m
  retry-IsAgreed f now bytes send (ok n) m first h = first m (ap ok (ok-injective n m h))
  retry-IsAgreed f now bytes send (err (e, nonce)) m first h =
      fetch_mapping-IsAgreed f now nonce bytes send m (
        without_nonce-eq-ok (fetch_mapping std actors proofs world f now nonce bytes send) m
          (else-eq-ok (is_empty nonce) e _ h))

  -- Where a session fetches a mapping, at the first attempt or at the one after a challenge, the mapping is
  -- complete, the token parses, and the mapping says of the principal, the actor, the transaction, the
  -- hops, the scopes, the issuer, the single audience, the identifier, the expiry and the key what the
  -- claims of the token say.
  pub fetch-IsAgreed :
      (f : Fetch) (now : Time) (bytes : List ℕ) (send : Text → Option GatewayAnswer)
      (bytes' : List ℕ) (send' : Text → Option GatewayAnswer) (m : Mapping)
      → fetch std actors proofs world f now bytes send bytes' send' ≡ ok m
      → IsAgreed f.token m
  unfolding fetch
  fetch-IsAgreed f now bytes send bytes' send' m h =
      let (_, _, e1) = >>=-eq-ok (fail_if (is_blank f.token) token_missing) _ h in
      let (_, _, e2) = >>=-eq-ok (or_fail proof_key_missing f.proof_key) _ e1 in
      let (_, _, e3) = >>=-eq-ok (check_gateway_url world f.gateway_url) _ e2 in
      retry-IsAgreed f now bytes' send' (fetch_mapping std actors proofs world f now [] bytes send)
        m (fetch_mapping-IsAgreed f now [] bytes send) e3
