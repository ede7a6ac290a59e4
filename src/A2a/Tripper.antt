-- ===== src/A2a/Tripper.antt =====
-- The round trip of internal/a2a/a2a.go, which exchanges the subject token for one of the destination and
-- sends a request again where a nonce is asked for, and its middleware. The exchanger, the source of actor
-- tokens, the transport and the body of a request are parameters.
pub mod Delegated
use agent_identity_plane.Prelude.{
  ℕ, Bool, true, false, List, [], ◌∷◌, ◌++◌, Option, none, some, if◌then◌else◌, Result, ok, err,
  ◌>>=◌, ◌>>◌, not, ◌||◌, fail_if,
}
use agent_identity_plane.Prelude.Text.{Text, is_empty, codes}
use agent_identity_plane.Clock.{Time}
use agent_identity_plane.Token.Keys.{KeyFile, Primitives}
use agent_identity_plane.Dpop.{Request, outbound_uri, prove_with_nonce}
use agent_identity_plane.Dpop
use agent_identity_plane.Dpop.Nonce.{Response, nonce_from_challenge}
use agent_identity_plane.Verify.{ActorChain, Verifier}
use agent_identity_plane.Verify
use agent_identity_plane.Sts.Request.{ExchangeRequest, grant_token_exchange}
use agent_identity_plane.A2a.{access_token}

pub data A2aError : Type 0 where
  missing_subject missing_audience no_actor_token exchange_failed : A2aError
  no_proof body_failed transport_failed : A2aError

-- `proves` says whether there is a function for the proof key.
pub record Tripper : Type 0 where
  pub agent_id : Text
  pub audience : Text
  pub scope : Text
  pub proves : Bool

-- The context of a request: its subject token and its audience.
pub record Context : Type 0 where
  pub subject : Text
  pub audience : Text

-- A request's body, `none` where there is none, and what `GetBody` makes of it again: there is no such
-- function, or it fails, or it gives a body.
pub record Body : Type 0 where
  pub content : Option Text
  pub again : Option (Option Text)

pub record Outbound : Type 0 where
  pub request : Request
  pub authorization : Text
  pub body : Option Text

-- What an attempt meets: the proof key, `none` on an error; the clock; random bytes; the transport.
pub record Attempt : Type 0 where
  pub key : Option (Option KeyFile)
  pub now : Time
  pub bytes : List ℕ
  pub send : Outbound → Result A2aError (Option Response)

-- `replayBodyOK`: the inner `none` is false, the body cannot be made again.
unfoldable pub replay_body : Body → Result A2aError (Option (Option Text))
replay_body b = elim b.content [
  | none ↦ ok (some none)
  | some c ↦ elim b.again [
    | none ↦ ok none
    | some none ↦ err body_failed
    | some (some fresh) ↦ ok (some (some fresh))
  ]
]

-- The body that the first attempt sends: one made again, or the request's own.
abbrev pub first_body : Body → Option (Option Text) → Option Text
first_body b (some (some fresh)) = some fresh
first_body b _ = b.content

abbrev pub or_else : {E A : Type 0} → A2aError → Result E A → Result A2aError A
or_else e (ok a) = ok a
or_else e (err f) = err e

abbrev pub or_fail : {A : Type 0} → A2aError → Option A → Result A2aError A
or_fail e none = err e
or_fail e (some a) = ok a

abbrev pub scheme_of : Tripper → Text
scheme_of t = if t.proves then codes "DPoP" else codes "Bearer"

-- The audience of the context, or else the tripper's.
abbrev pub audience_of : Tripper → Context → Text
audience_of t ctx = if is_empty ctx.audience then t.audience else ctx.audience

abbrev pub exchange_request : Tripper → Context → Text → ExchangeRequest
exchange_request t ctx actor = record {
  grant_type = grant_token_exchange;
  subject_token = ctx.subject;
  actor_token = actor;
  audience = audience_of t ctx;
  agent_id = t.agent_id;
  scope = t.scope;
  requested_token_type = [];
  purp = [];
  confirm_jkt = [];
}

module _ (std : Primitives) (codec : agent_identity_plane.Dpop.Codec) where
  -- `setProof`: the value of the header `DPoP`.
  unfoldable pub set_proof : Request → Attempt → Text → Text → Result A2aError Text
  set_proof r a token nonce = do
    k ← or_fail no_proof a.key
    htu ← or_else no_proof (outbound_uri r)
    or_else no_proof (prove_with_nonce std codec k r.method htu token a.now nonce a.bytes)

  -- The request of the first attempt, with the token of the exchange.
  unfoldable pub first_request :
      Tripper → Request → Body → Attempt → Text → Result A2aError Outbound
  unfolding set_proof replay_body
  first_request t r b a token = do
    proof ← if t.proves then set_proof r a token [] else ok r.proof
    again ← replay_body b
    ok (record {
      request = record r { proof = proof };
      authorization = scheme_of t ++ (32 ∷ token);
      body = first_body b again;
    })

  -- The request of the second attempt, with the nonce of the challenge.
  unfoldable pub retry_request :
      Tripper → Request → Option Text → Attempt → Text → Text → Result A2aError Outbound
  unfolding set_proof
  retry_request t r body a token nonce = do
    proof ← set_proof r a token nonce
    ok (record {
      request = record r { proof = proof };
      authorization = scheme_of t ++ (32 ∷ token);
      body = body;
    })

  -- The requests that a round trip has sent, and its answer.
  abbrev pub Trip : Type 0
  Trip = List Outbound × Result A2aError (Option Response)

  unfoldable pub send_retry :
      Tripper → Request → Attempt → Text → Text → Outbound → Option Text → Trip
  unfolding retry_request
  send_retry t r a token nonce sent body = elim (retry_request t r body a token nonce) [
    | err e ↦ (sent ∷ [], err e)
    | ok again ↦ (sent ∷ again ∷ [], a.send again)
  ]

  -- What follows the answer to the first attempt.
  unfoldable pub on_answer :
      Tripper → Request → Body → Attempt → Text → Outbound → Option Response → Trip
  unfolding send_retry replay_body nonce_from_challenge
  on_answer t r b a token sent answer =
      if not t.proves || is_empty (nonce_from_challenge answer)
      then (sent ∷ [], ok answer)
      else elim (replay_body b) [
        | err e ↦ (sent ∷ [], err e)
        | ok none ↦ (sent ∷ [], ok answer)
        | ok (some body) ↦ send_retry t r a token (nonce_from_challenge answer) sent body
      ]

  unfoldable pub send_first : Tripper → Request → Body → Attempt → Attempt → Text → Trip
  unfolding first_request on_answer
  send_first t r b a a' token = elim (first_request t r b a token) [
    | err e ↦ ([], err e)
    | ok sent ↦ elim (a.send sent) [
      | err e ↦ (sent ∷ [], err e)
      | ok answer ↦ on_answer t r b a' token sent answer
    ]
  ]

  -- The token of the exchange, for which the checks of the context come first.
  unfoldable pub exchanged :
      Tripper → Context → Option Text → (ExchangeRequest → Option Text) → Result A2aError Text
  exchanged t ctx actor_token exchanger = do
    fail_if (is_empty ctx.subject) missing_subject
    fail_if (is_empty (audience_of t ctx)) missing_audience
    actor ← or_fail no_actor_token actor_token
    or_fail exchange_failed (exchanger (exchange_request t ctx actor))

  -- `RoundTrip`
  unfoldable pub round_trip :
      Tripper
      → Context
      → Option Text
      → (ExchangeRequest → Option Text)
      → Request
      → Body
      → Attempt
      → Attempt
      → Trip
  unfolding exchanged send_first
  round_trip t ctx actor_token exchanger r b a a' = elim (exchanged t ctx actor_token exchanger) [
    | err e ↦ ([], err e)
    | ok token ↦ send_first t r b a a' token
  ]

-- `Middleware`: the context of the request that is passed on, or `none` for a refusal with status 401.
unfoldable pub middleware :
    Primitives → Option Verifier → Text → Time → Text → Option (ActorChain × Text)
unfolding access_token agent_identity_plane.Verify.verify
middleware std v audience now authorization =
    let raw = access_token authorization in
    if is_empty raw
    then none
    else elim (agent_identity_plane.Verify.verify std v raw audience now) [
      | err e ↦ none
      | ok chain ↦ some (chain, raw)
    ]
