-- ===== src/A2a/Tripper/Delegated.antt =====
-- What the round trip of internal/a2a/a2a.go sends.
use mathlib.Core.Path.{subst}
use agent_identity_plane.Prelude.{
  Result, err, ◌≡◌, ◌≢◌, ◌∙◌, ◌==◌, ==_iff, if◌then◌else◌, ◌⊎◌, refl, sym, ap, inl, inr, Bool, true,
  false, not, ◌||◌, List, [], ◌∷◌, ◌++◌, Option, none, some, arith, Bool-cases, Result-cases, ok,
  fail_if, fail_if-eq-ok, >>=-eq-ok, ok-injective, if◌then◌else◌,
}
use agent_identity_plane.Prelude.Text.{Text, is_empty, codes, contains_text}
use agent_identity_plane.Token.Keys.{KeyFile, Primitives}
use agent_identity_plane.Dpop.{Request}
use agent_identity_plane.Dpop.{outbound_uri}
use agent_identity_plane.Dpop
use agent_identity_plane.Dpop.Proving.{
  IsSentTo, outbound_uri-IsSentTo, IsMadeBy, prove_with_nonce-IsMadeBy,
}
use agent_identity_plane.Prelude.Fields.{trim_space}
use agent_identity_plane.Dpop.Nonce.{Response, nonce_from_challenge}
use agent_identity_plane.Sts.Request.{ExchangeRequest}
use agent_identity_plane.A2a.Tripper.{
  A2aError, missing_subject, missing_audience, no_actor_token, exchange_failed, Tripper, Context,
  Body, Outbound, Attempt, replay_body, or_fail, scheme_of, audience_of, exchange_request, or_else,
  no_proof, set_proof, first_request, retry_request, send_retry, on_answer, send_first, exchanged,
  round_trip,
}

or_fail-eq-ok : {A : Type 0} (e : A2aError) (o : Option A) {a : A} → or_fail e o ≡ ok a → o ≡ some a
or_fail-eq-ok e none h = cc
or_fail-eq-ok e (some b) {a = a} h = ap some (ok-injective b a h)

not_or_left : (a b : Bool) → (not a || b) ≡ false → a ≡ true
not_or_left a b h = ground arith

not_or_right : (a b : Bool) → (not a || b) ≡ false → b ≡ false
not_or_right a b h = ground arith

or_else-eq-ok :
    {E A : Type 0} (e : A2aError) (o : Result E A) {a : A} → or_else e o ≡ ok a → o ≡ ok a
or_else-eq-ok e (ok b) {a = a} h = ap ok (ok-injective b a h)
or_else-eq-ok e (err f) h = cc

-- The answer has status 401, its challenge names `use_dpop_nonce`, and the nonce is the one of its header,
-- spaces around it aside.
abbrev pub IsChallenge : Response → Text → Type 0
IsChallenge answer nonce =
    (answer.status ≡ 401)
    × (contains_text answer.www_authenticate (codes "use_dpop_nonce") ≡ true)
    × (nonce ≡ trim_space answer.dpop_nonce)
    × (nonce ≢ [])

IsChallenge-of :
    (o : Option Response)
    → is_empty (nonce_from_challenge o) ≡ false
    → (answer : Response) × (o ≡ some answer) × IsChallenge answer (nonce_from_challenge o)
unfolding nonce_from_challenge
IsChallenge-of none h = cc
IsChallenge-of (some answer) h = (
  answer,
  refl,
  by_tests (Bool-cases (answer.status == 401))
      (Bool-cases (contains_text answer.www_authenticate (codes "use_dpop_nonce"))) h,
)
  where
    by_tests :
        ((answer.status == 401) ≡ true) ⊎ ((answer.status == 401) ≡ false)
        → (contains_text answer.www_authenticate (codes "use_dpop_nonce") ≡ true)
          ⊎ (contains_text answer.www_authenticate (codes "use_dpop_nonce") ≡ false)
        → is_empty (nonce_from_challenge (some answer)) ≡ false
        → IsChallenge answer (nonce_from_challenge (some answer))
    by_tests (inr other) c e = cc (rw other at e)
    by_tests (inl unauthorized) (inr silent) e = cc (rw silent at (rw unauthorized at e))
    by_tests (inl unauthorized) (inl asks) e = (
      (==_iff answer.status 401).0 unauthorized,
      asks,
      rw (unauthorized, asks) refl,
      λ n. ground (arith, e, ap is_empty n),
    )

module _ (std : Primitives) (codec : agent_identity_plane.Dpop.Codec) (t : Tripper) (ctx : Context)
    (actor_token : Option Text) (exchanger : ExchangeRequest → Option Text) (r : Request) (b : Body)
    (a a' : Attempt) where
  -- The exchanger has answered with the token, asked for the context's subject token, the tripper's actor
  -- token, agent and scope, and the context's audience or else the tripper's.
  pub record IsExchanged (token : Text) : Type 0 where
    pub request : ExchangeRequest
    pub actor : Text
    pub answered : exchanger request ≡ some token
    pub grant_type : request.grant_type ≡ codes "urn:ietf:params:oauth:grant-type:token-exchange"
    pub subject : (request.subject_token ≡ ctx.subject) × (ctx.subject ≢ [])
    pub acting : (actor_token ≡ some actor) × (request.actor_token ≡ actor)
    pub audience :
        ((ctx.audience ≢ []) × (request.audience ≡ ctx.audience))
        ⊎ ((ctx.audience ≡ []) × (t.audience ≢ []) × (request.audience ≡ t.audience))
    pub agent : request.agent_id ≡ t.agent_id
    pub scope : request.scope ≡ t.scope

  -- Without a proof key no proof is made. With one, the proof is made by the key that the attempt has, for
  -- the method and the address of the request, over the token, and with the nonce.
  abbrev pub IsProved : Attempt → Text → Text → Text → Type 0
  IsProved attempt token nonce proof =
      ((t.proves ≡ false) × (proof ≡ r.proof))
      ⊎ ((t.proves ≡ true)
          × (uri : Text) × (k : KeyFile) × IsSentTo r uri
          × (attempt.key ≡ some (some k))
          × IsMadeBy std codec k r.method uri token attempt.now nonce proof)

  -- The token with its scheme, DPoP where there is a proof key.
  abbrev pub IsScheme : Text → Text → Type 0
  IsScheme token authorization =
      ((t.proves ≡ true) × (authorization ≡ codes "DPoP " ++ token))
      ⊎ ((t.proves ≡ false) × (authorization ≡ codes "Bearer " ++ token))

  -- The request is the caller's, with the token and a proof over it.
  abbrev pub IsBearing : Attempt → Text → Text → Outbound → Type 0
  IsBearing attempt token nonce o =
      IsScheme token o.authorization
      × (o.request ≡ record r { proof = o.request.proof })
      × IsProved attempt token nonce o.request.proof

  scheme_of-IsScheme : (token : Text) → IsScheme token (scheme_of t ++ (32 ∷ token))
  scheme_of-IsScheme token = elim (Bool-cases t.proves) [
    | inl proves ↦ inl (proves, rw proves refl)
    | inr bare ↦ inr (bare, rw bare refl)
  ]

  set_proof-IsProved :
      (attempt : Attempt) (token nonce proof : Text)
      → t.proves ≡ true
      → set_proof std codec r attempt token nonce ≡ ok proof
      → IsProved attempt token nonce proof
  unfolding set_proof
  set_proof-IsProved attempt token nonce proof proves h =
      let (o, given, e0) = >>=-eq-ok (or_fail no_proof attempt.key) _ h in
      let (uri, to, e1) = >>=-eq-ok (or_else no_proof (outbound_uri r)) _ e0 in
      let (k, there, made) =
        prove_with_nonce-IsMadeBy std codec o r.method uri token attempt.now nonce attempt.bytes
          proof (or_else-eq-ok no_proof _ e1) in
      inr (
        proves,
        uri,
        k,
        outbound_uri-IsSentTo r uri (or_else-eq-ok no_proof (outbound_uri r) to),
        or_fail-eq-ok no_proof attempt.key given ∙ ap some there,
        made,
      )

  exchanged-IsExchanged :
      (token : Text)
      → exchanged std codec t ctx actor_token exchanger ≡ ok token
      → IsExchanged token
  unfolding exchanged
  exchanged-IsExchanged token h =
      let (_, subject, e1) = >>=-eq-ok (fail_if (is_empty ctx.subject) missing_subject) _ h in
      let (_, audience, e2) =
        >>=-eq-ok (fail_if (is_empty (audience_of t ctx)) missing_audience) _ e1 in
      let (actor, given, e3) = >>=-eq-ok (or_fail no_actor_token actor_token) _ e2 in
      let given_audience = fail_if-eq-ok (is_empty (audience_of t ctx)) missing_audience audience in
      record {
        request = exchange_request t ctx actor;
        actor = actor;
        answered = or_fail-eq-ok exchange_failed (exchanger (exchange_request t ctx actor)) e3;
        grant_type = refl;
        subject = (
          refl,
          not_blank ctx.subject (fail_if-eq-ok (is_empty ctx.subject) missing_subject subject),
        );
        acting = (or_fail-eq-ok no_actor_token actor_token given, refl);
        audience = either ctx.audience t.audience given_audience;
        agent = refl;
        scope = refl;
      }
    where
      not_blank : (x : Text) → is_empty x ≡ false → x ≢ []
      not_blank x e n = ground (arith, e, ap is_empty n)

      either :
          (own other : Text)
          → is_empty (if is_empty own then other else own) ≡ false
          → ((own ≢ []) × ((if is_empty own then other else own) ≡ own))
            ⊎ ((own ≡ []) × (other ≢ []) × ((if is_empty own then other else own) ≡ other))
      either [] other e = inr (refl, not_blank other e, refl)
      either (x ∷ own) other e = inl (λ n. cc, refl)

  first_request-IsBearing :
      (token : Text) (o : Outbound)
      → first_request std codec t r b a token ≡ ok o
      → IsBearing a token [] o
  unfolding first_request
  first_request-IsBearing token o h =
      let (proof, made, e1) =
        >>=-eq-ok (if t.proves then set_proof std codec r a token [] else ok r.proof) _ h in
      let (again, _, e2) = >>=-eq-ok (replay_body b) _ e1 in
      subst (λ x. IsBearing a token [] x) (ok-injective _ o e2)
        (scheme_of-IsScheme token, refl, proof_made proof made)
    where
      proof_made :
          (proof : Text)
          → (if t.proves then set_proof std codec r a token [] else ok r.proof) ≡ ok proof
          → IsProved a token [] proof
      proof_made proof e = elim (Bool-cases t.proves) [
        | inl proves ↦ set_proof-IsProved a token [] proof proves (rw proves at e)
        | inr bare ↦ inl (bare, sym (ok-injective r.proof proof (rw bare at e)))
      ]

  retry_request-IsBearing :
      (body : Option Text) (token nonce : Text) (o : Outbound)
      → t.proves ≡ true
      → retry_request std codec t r body a' token nonce ≡ ok o
      → IsBearing a' token nonce o
  unfolding retry_request
  retry_request-IsBearing body token nonce o proves h =
      let (proof, made, e1) = >>=-eq-ok (set_proof std codec r a' token nonce) _ h in
      subst (λ x. IsBearing a' token nonce x) (ok-injective _ o e1)
        (scheme_of-IsScheme token, refl, set_proof-IsProved a' token nonce proof proves made)

  -- A second request follows a challenge that answers the first, and bears its nonce.
  abbrev pub IsRetried : Text → Outbound → Outbound → Type 0
  IsRetried token sent again =
      (answer : Response) × (nonce : Text) × (a.send sent ≡ ok (some answer))
      × (t.proves ≡ true)
      × IsChallenge answer nonce
      × IsBearing a' token nonce again

  abbrev pub IsSequence : Text → List Outbound → Type 0
  IsSequence token sent =
      (first : Outbound) × IsBearing a token [] first
      × ((sent ≡ first ∷ [])
          ⊎ ((again : Outbound) × (sent ≡ first ∷ again ∷ []) × IsRetried token first again))

  send_retry-IsSequence :
      (token : Text) (first : Outbound) (answer : Option Response) (body : Option Text)
      → IsBearing a token [] first
      → a.send first ≡ ok answer
      → t.proves ≡ true
      → is_empty (nonce_from_challenge answer) ≡ false
      → IsSequence token
          (send_retry std codec t r a' token (nonce_from_challenge answer) first body).0
  unfolding send_retry
  send_retry-IsSequence token first answer body bears answered proves asked =
      elim (Result-cases
        (retry_request std codec t r body a' token (nonce_from_challenge answer))) [
          | inr (e, failed) ↦ (first, bears, inl (rw (failed, send_retry) refl))
          | inl (again, made) ↦ (
            first,
            bears,
            inr (
              again,
              rw (made, send_retry) refl,
              (
                (IsChallenge-of answer asked).0,
                nonce_from_challenge answer,
                answered ∙ ap ok (IsChallenge-of answer asked).1,
                proves,
                (IsChallenge-of answer asked).2,
                retry_request-IsBearing body token (nonce_from_challenge answer) again proves made,
              ),
            ),
          )
        ]

  on_answer-IsSequence :
      (token : Text) (first : Outbound) (answer : Option Response)
      → IsBearing a token [] first
      → a.send first ≡ ok answer
      → IsSequence token (on_answer std codec t r b a' token first answer).0
  unfolding on_answer
  on_answer-IsSequence token first answer bears answered =
      elim (Bool-cases (not t.proves || is_empty (nonce_from_challenge answer))) [
        | inl done ↦ (first, bears, inl (rw done refl))
        | inr more ↦ elim (Result-cases (replay_body b)) [
          | inr (e, failed) ↦ (first, bears, inl (rw (more, failed) refl))
          | inl (none, spent) ↦ (first, bears, inl (rw (more, spent) refl))
          | inl (some body, fresh) ↦
              rw (more, fresh)
                (send_retry-IsSequence token first answer body bears answered
                  (not_or_left t.proves (is_empty (nonce_from_challenge answer)) more)
                  (not_or_right t.proves (is_empty (nonce_from_challenge answer)) more))
        ]
      ]

  send_first-answered :
      (token : Text) (first : Outbound) (answer : Option Response)
      → first_request std codec t r b a token ≡ ok first
      → a.send first ≡ ok answer
      → send_first std codec t r b a a' token ≡ on_answer std codec t r b a' token first answer
  unfolding send_first
  send_first-answered token first answer made answered = rw (made, answered, send_first) refl

  send_first-IsSequence :
      (token : Text)
      → ((send_first std codec t r b a a' token).0 ≡ [])
        ⊎ IsSequence token (send_first std codec t r b a a' token).0
  unfolding send_first
  send_first-IsSequence token = elim (Result-cases (first_request std codec t r b a token)) [
    | inr (e, failed) ↦ inl (rw (failed, send_first) refl)
    | inl (first, made) ↦ elim (Result-cases (a.send first)) [
      | inr (e, lost) ↦
          inr (
            first,
            first_request-IsBearing token first made,
            inl (rw (made, lost, send_first) refl),
          )
      | inl (answer, answered) ↦ inr (
          subst (λ x. IsSequence token x.0)
            (sym (send_first-answered token first answer made answered))
            (on_answer-IsSequence token first answer (first_request-IsBearing token first made)
              answered))
    ]
  ]

  round_trip-exchanged :
      (token : Text)
      → exchanged std codec t ctx actor_token exchanger ≡ ok token
      → round_trip std codec t ctx actor_token exchanger r b a a'
        ≡ send_first std codec t r b a a' token
  unfolding round_trip
  round_trip-exchanged token got = rw (got, round_trip) refl

  -- A round trip sends nothing, or the exchanger has given it a token for the context's subject token and
  -- audience (or the tripper's audience) and for the tripper's actor token, agent and scope. Then it sends
  -- the caller's request with that token, and with a proof by the proof key where there is one: made for the
  -- method and the address of the request, with the hash of that token. Nothing more is sent, or the
  -- request once again: only where there is a proof key and the first answer is a challenge with a nonce, and
  -- with a proof that has that nonce.
  pub round_trip-IsDelegated :
      ((round_trip std codec t ctx actor_token exchanger r b a a').0 ≡ [])
      ⊎ ((token : Text) × IsExchanged token
          × IsSequence token (round_trip std codec t ctx actor_token exchanger r b a a').0)
  unfolding round_trip
  round_trip-IsDelegated = elim (Result-cases (exchanged std codec t ctx actor_token exchanger)) [
    | inr (e, failed) ↦ inl (rw (failed, round_trip) refl)
    | inl (token, got) ↦ elim (send_first-IsSequence token) [
      | inl nothing ↦ inl (rw (got, round_trip) nothing)
      | inr sent ↦ inr (
        token,
        exchanged-IsExchanged token got,
        subst (λ x. IsSequence token x.0) (sym (round_trip-exchanged token got)) sent,
      )
    ]
  ]
