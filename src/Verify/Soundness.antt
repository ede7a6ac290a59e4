-- ===== src/Verify/Soundness.antt =====
-- What a verified request is known to be (internal/verify/verify.go).
use mathlib.Core.Path.{subst}
use agent_identity_plane.Prelude.{
  sym, ◌∙◌, length, Option-cases, ◌≡◌, ◌≢◌, ◌⊎◌, inl, inr, ap, refl, true, false, not, ◌∷◌, [],
  List, Option, none, some, arith, Result, ok, err, fail_if, >>=-eq-ok, ok-injective,
}
use agent_identity_plane.Prelude.Text.{Text, text_eq_iff, is_empty}
use agent_identity_plane.Prelude.Fields.{is_blank}
use agent_identity_plane.Clock.{Time, unix}
use agent_identity_plane.Prelude.Int.{pos, ◌≤ℤ◌, add_int64}
use agent_identity_plane.Token.Errors.{TokenError, audience_mismatch}
use agent_identity_plane.Token.Claims.{
  Actor, actor_sub, actor_subs, is_zero_ℤ, Claims, single, contains, validate_issuer,
  validate_subject, validate_audience, validate_time,
}
use agent_identity_plane.Token.Keys.{Header, Jwk, Jwks, Primitives}
use agent_identity_plane.Token.Jws.{split_dots, verify_key}
use agent_identity_plane.Token.Jws.Soundness.{IsVerified, verify_key-IsVerified}
use agent_identity_plane.Verify.{
  ActorChain, current_actor, sole, VerifyError, refused, Verifier, keys, chain_from_claims,
  without_chain, with_chain, check_claims, is_single, verify_with, verify,
}

without_chain-eq-ok :
    {E A : Type 0} (f : E → VerifyError) (r : Result E A) (a : A)
    → without_chain f r ≡ ok a
    → r ≡ ok a
without_chain-eq-ok f (ok b) a h = ground arith
without_chain-eq-ok f (err e) a h = cc

with_chain-eq-ok :
    {A : Type 0} (ch : ActorChain) (r : Result TokenError A) (a : A)
    → with_chain ch r ≡ ok a
    → r ≡ ok a
with_chain-eq-ok ch (ok b) a h = ground arith
with_chain-eq-ok ch (err e) a h = cc

validate_subject-eq-ok : (c : Claims) → validate_subject c ≡ ok tt → is_blank c.sub ≡ false
unfolding validate_subject
validate_subject-eq-ok c h = ground arith

validate_issuer-eq-ok :
    (c : Claims) (want : Text)
    → validate_issuer c want ≡ ok tt
    → (c.iss ≢ []) × ((want ≡ []) ⊎ (c.iss ≡ want))
unfolding validate_issuer
validate_issuer-eq-ok c want h = (λ e. ground (arith, ap is_empty e), issued_by want h)
  where
    issued_by : (w : Text) → validate_issuer c w ≡ ok tt → (w ≡ []) ⊎ (c.iss ≡ w)
    issued_by [] k = inl refl
    issued_by (b ∷ w) k = inr (ground (arith, text_eq_iff c.iss (b ∷ w)))

single-contains :
    (aud : List Text) (want : Text)
    → contains aud want ≡ true
    → is_single (single aud) ≡ true
    → aud ≡ want ∷ []
unfolding contains single
single-contains [] want h s = cc
single-contains (a ∷ []) want h s = ground (arith, text_eq_iff a want)
single-contains (a ∷ b ∷ aud) want h s = cc

validate_audience-contains :
    (c : Claims) (want : Text) → validate_audience c want ≡ ok tt → contains c.aud want ≡ true
unfolding validate_audience
validate_audience-contains c want h = ground arith

no_keys : (trusted_keys : Jwks) → keys none ≡ ok trusted_keys → ⊥
unfolding keys
no_keys trusted_keys e = cc

-- The token names an expiry, which is at most 30 seconds ago, and is not valid only from a time more than
-- 30 seconds ahead, by the addition of int64.
abbrev pub IsInTime : Claims → Time → Type 0
IsInTime c now =
    (c.exp ≢ pos 0)
    × (unix now ≤ℤ add_int64 c.exp (pos 30))
    × ((c.nbf ≤ℤ pos 0) ⊎ (c.nbf ≤ℤ add_int64 (unix now) (pos 30)))

validate_time-IsInTime : (c : Claims) (now : Time) → validate_time c now 0 ≡ ok tt → IsInTime c now
unfolding validate_time
validate_time-IsInTime c now h =
    (λ e. ground (arith, h, ap is_zero_ℤ e), ground (arith, h), ground (arith, h))

-- What a chain says is what the claims and the token say.
pub record IsChainOf (raw audience : Text) (c : Claims) (ch : ActorChain) : Type 0 where
  pub principal : ch.principal ≡ c.sub
  pub actor :
      ((c.act ≡ none) × (ch.actor ≡ []))
      ⊎ ((a : Actor) × (c.act ≡ some a) × (ch.actor ≡ actor_sub a))
  pub hops : ch.hops ≡ c.sub ∷ actor_subs c
  pub depth : ch.depth ≡ length (actor_subs c)
  pub scope : ch.scope ≡ c.scope
  pub txn : ch.txn ≡ c.txn
  pub audience_named : ch.audience ≡ audience
  pub jti : ch.jti ≡ c.jti
  pub issuer : ch.issuer ≡ c.iss
  pub expires : (ch.expires.sec ≡ c.exp) × (ch.expires.nsec ≡ 0)
  pub claims : ch.claims ≡ c
  pub token : ch.raw ≡ raw

chain_from_claims-IsChainOf :
    (raw audience : Text) (c : Claims)
    → c.aud ≡ audience ∷ []
    → IsChainOf raw audience c (chain_from_claims raw c)
unfolding chain_from_claims single
chain_from_claims-IsChainOf raw audience c sole_audience = record {
  principal = refl;
  actor = acting c.act;
  hops = refl;
  depth = refl;
  scope = refl;
  txn = refl;
  audience_named = rw sole_audience (sole_of audience);
  jti = refl;
  issuer = refl;
  expires = (refl, refl);
  claims = refl;
  token = refl;
}
  where
    sole_of : (a : Text) → sole (single (a ∷ [])) ≡ a
    sole_of [] = refl
    sole_of (x ∷ a) = refl

    acting :
        (o : Option Actor)
        → ((o ≡ none) × (current_actor o ≡ []))
          ⊎ ((a : Actor) × (o ≡ some a) × (current_actor o ≡ actor_sub a))
    acting none = inl (refl, refl)
    acting (some a) = inr (a, refl, refl)

-- The keys are those that the function of the verifier answers, or its key set where it has none.
abbrev pub IsTrusted : Verifier → Jwks → Type 0
IsTrusted v ks = ((v.keys_fn ≡ none) × (ks ≡ v.key_set)) ⊎ (v.keys_fn ≡ some (ok ks))

keys-IsTrusted : (v : Verifier) (ks : Jwks) → keys (some v) ≡ ok ks → IsTrusted v ks
unfolding keys
keys-IsTrusted v ks h = elim (Option-cases v.keys_fn) [
  | inl unset ↦ inl (unset, sym (ok-injective v.key_set ks (rw unset at h)))
  | inr (answer, set_fn) ↦ inr (set_fn ∙ ap some (rw set_fn at h))
]

-- The claims have been issued for the audience alone, to a subject, and are in time.
pub record IsAdmissible (issuer audience : Text) (now : Time) (c : Claims) : Type 0 where
  pub issuer_named : (c.iss ≢ []) × ((issuer ≡ []) ⊎ (c.iss ≡ issuer))
  pub subject_named : is_blank c.sub ≡ false
  pub sole_audience : c.aud ≡ audience ∷ []
  pub in_time : IsInTime c now

check_claims-IsAdmissible :
    (raw issuer audience : Text) (now : Time) (c : Claims)
    → validate_issuer c issuer ≡ ok tt
    → check_claims raw c audience now ≡ ok tt
    → IsAdmissible issuer audience now c
unfolding check_claims
check_claims-IsAdmissible raw issuer audience now c i h =
    let (_, sub, e0) = >>=-eq-ok (validate_subject c) _ h in
    let (_, aud, e1) = >>=-eq-ok (validate_audience c audience) _ e0 in
    let (_, one, e2) =
      >>=-eq-ok (fail_if (not (is_single (single c.aud))) audience_mismatch) _ e1 in
    record {
      issuer_named = validate_issuer-eq-ok c issuer i;
      subject_named = validate_subject-eq-ok c sub;
      sole_audience =
          single-contains c.aud audience (validate_audience-contains c audience aud) (of_test one);
      in_time = validate_time-IsInTime c now e2;
    }
  where
    of_test :
        {u : Unit {0}}
        → fail_if (not (is_single (single c.aud))) audience_mismatch ≡ ok u
        → is_single (single c.aud) ≡ true
    of_test e = ground arith

module _ (std : Primitives) where
  -- The token has a signature by a key of the set, over these claims.
  pub record IsSigned (keys : Jwks) (raw : Text) (c : Claims) : Type 0 where
    pub header : Header
    pub key : Jwk
    pub p0 : Text
    pub p1 : Text
    pub p2 : Text
    pub parts : split_dots [] raw ≡ p0 ∷ p1 ∷ p2 ∷ []
    pub verified : IsVerified std keys p0 p1 p2 header c key

  pub verify-IsSigned :
      (raw : Text) (keys : Jwks) (c : Claims)
      → agent_identity_plane.Token.Jws.verify std raw keys ≡ ok c
      → IsSigned keys raw c
  unfolding agent_identity_plane.Token.Jws.verify
  verify-IsSigned raw keys c e =
      let ((h, c', k), e0, e1) = >>=-eq-ok (verify_key std raw keys) _ e in
      let (p0, p1, p2, parts, v) = verify_key-IsVerified std raw keys h c' k e0 in
      let s : IsSigned keys raw c' = record {
        header = h;
        key = k;
        p0 = p0;
        p1 = p1;
        p2 = p2;
        parts = parts;
        verified = v;
      } in
      subst (λ x. IsSigned keys raw x) (ok-injective c' c e1) s

  verify_with-chain :
      (ks : Result VerifyError Jwks) (issuer raw audience : Text) (now : Time) (ch : ActorChain)
      → verify_with std ks issuer raw audience now ≡ ok ch
      → (trusted_keys : Jwks) × (c : Claims) × (ks ≡ ok trusted_keys)
        × IsSigned trusted_keys raw c
        × IsAdmissible issuer audience now c
        × (chain_from_claims raw c ≡ ch)
  unfolding verify_with
  verify_with-chain ks issuer raw audience now ch h =
      let (trusted_keys, k, e0) = >>=-eq-ok (without_chain (λ e. e) ks) _ h in
      let (c, v, e1) =
        >>=-eq-ok
          (without_chain refused (agent_identity_plane.Token.Jws.verify std raw trusted_keys)) _
          e0 in
      let (_, i, e2) = >>=-eq-ok (without_chain refused (validate_issuer c issuer)) _ e1 in
      let (_, a, e3) =
        >>=-eq-ok (with_chain (chain_from_claims raw c) (check_claims raw c audience now)) _ e2 in
      (
        trusted_keys,
        c,
        without_chain-eq-ok (λ e. e) ks trusted_keys k,
        verify-IsSigned raw trusted_keys c (
            without_chain-eq-ok refused (agent_identity_plane.Token.Jws.verify std raw trusted_keys)
              c v),
        check_claims-IsAdmissible raw issuer audience now c
            (without_chain-eq-ok refused (validate_issuer c issuer) tt i)
            (with_chain-eq-ok (chain_from_claims raw c) (check_claims raw c audience now) tt a),
        ok-injective (chain_from_claims raw c) ch e3,
      )

  -- What is known of the chain that a verifier has returned for a token and an audience.
  pub record IsKnown (v : Option Verifier) (raw audience : Text) (now : Time) (ch : ActorChain)
      : Type 0 where
    pub verifier : Verifier
    pub present : v ≡ some verifier
    pub trusted_keys : Jwks
    pub trusted : keys v ≡ ok trusted_keys
    pub source : IsTrusted verifier trusted_keys
    pub claims : Claims
    pub signed : IsSigned trusted_keys raw claims
    pub admissible : IsAdmissible (verifier.issuer) audience now claims
    pub chain : chain_from_claims raw claims ≡ ch
    pub of_claims : IsChainOf raw audience claims ch

  -- A chain that `Verify` returns without an error says what the claims of the token say. The token is
  -- signed by one of the keys that the verifier's function answers, or of its key set where it has none, names an issuer, which is the verifier's unless that is
  -- empty, is meant for the audience alone and for no other, names a subject and an expiry, and is in
  -- time, with 30 seconds to spare either way.
  pub verify-IsKnown :
      (v : Option Verifier) (raw audience : Text) (now : Time) (ch : ActorChain)
      → verify std v raw audience now ≡ ok ch
      → IsKnown v raw audience now ch
  unfolding verify
  verify-IsKnown none raw audience now ch h =
      let (trusted_keys, _, k, _, _, _) = verify_with-chain (keys none) [] raw audience now ch h in
      absurd (no_keys trusted_keys k)
  verify-IsKnown (some v) raw audience now ch h =
      let (trusted_keys, c, k, s, a, e) =
        verify_with-chain (keys (some v)) v.issuer raw audience now ch h in
      record {
        verifier = v;
        present = refl;
        trusted_keys = trusted_keys;
        trusted = k;
        source = keys-IsTrusted v trusted_keys k;
        claims = c;
        signed = s;
        admissible = a;
        chain = e;
        of_claims =
            subst (λ x. IsChainOf raw audience c x) e
              (chain_from_claims-IsChainOf raw audience c a.sole_audience);
      }
