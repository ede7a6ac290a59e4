-- ===== src/Sts/Http.antt =====
-- internal/sts/http.go: the token endpoint and the address that a server may bind. The limiter's
-- answer, the parsed form, the clocks and what becomes of the writes are taken from outside; the
-- parsers of the net package are parameters.
pub mod Granting
use agent_identity_plane.Prelude.{
  ℕ, suc, Bool, true, false, not, ◌&&◌, ◌||◌, List, [], ◌∷◌, Option, none, some, if◌then◌else◌,
  Result, ok, err, ◌>>=◌, ◌>>◌, fail_if,
}
use agent_identity_plane.Prelude.Int.{pos}
use agent_identity_plane.Prelude.Text.{Text, text_eq, is_empty, codes}
use agent_identity_plane.Prelude.Fields.{is_blank}
use agent_identity_plane.Clock.{Time}
use agent_identity_plane.Lines.{WriteOutcome}
use agent_identity_plane.Token.Errors.{TokenError}
use agent_identity_plane.Token.Keys.{Primitives, Jwks}
use agent_identity_plane.Token.Keyring.{Keyring, active_kid, jwks}
use agent_identity_plane.Attest.{AttestError}
use agent_identity_plane.Dpop.{DpopError, Proof, Request, replay_jti}
use agent_identity_plane.Dpop
use agent_identity_plane.Sts.Replay.{ReplayCache, ReplayError, replayed, consume}
use agent_identity_plane.Sts.Request.{
  Reason, OauthError, IdentitySnap, Config, ExchangeRequest, Env, Denial, Minted,
}
use agent_identity_plane.Sts.Service.{State, Metrics, AuditEnv, handle}
use agent_identity_plane.Sts.Service
use agent_identity_plane.Audit.{Event, Logger, AuditError, append}
use agent_identity_plane.Audit

-- The parsers of the net package: the host and the port of an address, and whether a host is an
-- unspecified IP address.
pub record Net : Type 0 where
  pub split_host_port : Text → Option (Text × Text)
  pub is_unspecified_ip : Text → Bool

pub data BindError : Type 0 where
  unspecified_bind : BindError

abbrev allowed_host : Net → Option (Text × Text) → Result BindError Unit
allowed_host net none = err unspecified_bind
allowed_host net (some (host, port)) = do
  fail_if (is_empty port) unspecified_bind
  fail_if
      (is_empty host
        || text_eq host (codes "0.0.0.0")
        || text_eq host (codes "::")
        || text_eq host (codes "[::]"))
      unspecified_bind
  fail_if (net.is_unspecified_ip host) unspecified_bind

unfoldable pub validate_bind : Net → Text → Result BindError Unit
validate_bind net addr = allowed_host net (net.split_host_port addr)

-- The handler of `/readyz`; the last is what `Ready` of the attestor says, where it has one.
unfoldable pub readyz : IdentitySnap → Option (Result AttestError Unit) → Bool
unfolding active_kid
readyz snap attestor = elim snap.registry [
  | none ↦ false
  | some r ↦ elim snap.signer [
    | none ↦ false
    | some k ↦ if is_empty (active_kid (some k)) then false else elim attestor [
      | none ↦ true
      | some answer ↦ elim answer [ ok u ↦ true | err e ↦ false ]
    ]
  ]
]

-- The reasons of the endpoint: those of the exchange and two of its own.
pub data HttpReason : Type 0 where
  of_exchange : Reason → HttpReason
  rate_limited invalid_dpop : HttpReason

unfoldable pub http_reason_code : HttpReason → Text
http_reason_code (of_exchange r) = agent_identity_plane.Sts.Service.reason_code r
http_reason_code rate_limited = codes "rate_limited"
http_reason_code invalid_dpop = codes "invalid_dpop_proof"

-- The OAuth errors of the endpoint.
pub data HttpError : Type 0 where
  exchange_error : OauthError → HttpError
  temporarily_unavailable invalid_dpop_proof : HttpError

-- An answer: a token, an error document with its status, or the refusal that could not be recorded.
pub data HttpAnswer : Type 0 where
  granted : Minted → HttpAnswer
  refused : ℕ → HttpError → HttpReason → HttpAnswer
  unrecorded : HttpAnswer

-- The state of the service and the counter that the endpoint alone moves.
pub record HttpState : Type 0 where
  pub service : State
  pub rate_limited : ℕ

-- `form` is `r.Form.Get` after `ParseForm`, which fails on a malformed form or one that is too large.
pub record TokenRequest : Type 0 where
  pub form : Option (Text → Text)
  pub http : Request

-- What one request takes from outside; the proof has clocks and a write of its own.
pub record HttpEnv : Type 0 where
  pub within_rate : Bool
  pub proof_now : Time
  pub proof_replay_now : Time
  pub proof_outcome : WriteOutcome
  pub exchange_env : Env
  pub audit : AuditEnv

unfoldable pub request_of_form : (Text → Text) → ExchangeRequest
request_of_form form = record {
  grant_type = form (codes "grant_type");
  subject_token = form (codes "subject_token");
  actor_token = form (codes "actor_token");
  audience = form (codes "audience");
  scope = form (codes "scope");
  requested_token_type = form (codes "requested_token_type");
  agent_id = form (codes "agent_id");
  purp = form (codes "purp");
  confirm_jkt = [];
}

-- A refusal before it is recorded.
pub record HttpStop : Type 0 where
  pub status : ℕ
  pub error : HttpError
  pub reason : HttpReason

abbrev stop_with : ℕ → HttpError → HttpReason → HttpStop
stop_with status error reason = record { status = status; error = error; reason = reason }

abbrev pub malformed_form : HttpStop
malformed_form =
    stop_with 400 (exchange_error OauthError.invalid_request) (of_exchange Reason.invalid_request)

abbrev pub over_rate : HttpStop
over_rate = stop_with 429 temporarily_unavailable rate_limited

-- The event of `writeHTTPDeny`
unfoldable pub http_denied_event : HttpReason → Event
unfolding http_reason_code
http_denied_event reason = record {
  timestamp = [];
  event_type = codes "token_denied";
  reason_code = http_reason_code reason;
  txn = [];
  jti = [];
  agent_id = [];
  workload = [];
  principal = [];
  audience = [];
  scope = [];
  depth = pos 0;
  hops = [];
  hash = [];
  prev_hash = [];
  chain_index = 0;
}

abbrev is_rate_limit : HttpReason → Bool
is_rate_limit rate_limited = true
is_rate_limit _ = false

abbrev count_denied : State → State
count_denied s = record s { metrics = record s.metrics { denied = suc s.metrics.denied } }

-- The status of a denied exchange.
unfoldable pub status_of : Denial → ℕ
status_of d =
    let by_error : ℕ = elim d.error [ OauthError.access_denied ↦ 403 | _ ↦ 400 ] in
    elim d.reason [ Reason.audit_unavailable ↦ 503 | Reason.replayed_token ↦ 400 | _ ↦ by_error ]

module _ (events : agent_identity_plane.Audit.Codec) where
  settle_http : HttpState → HttpStop → Result AuditError Unit → HttpAnswer × HttpState
  settle_http s stop (err e) = (unrecorded, record s { service = count_denied s.service })
  settle_http s stop (ok u) = (
    refused stop.status stop.error stop.reason,
    record {
      service = count_denied s.service;
      rate_limited = if is_rate_limit stop.reason then suc s.rate_limited else s.rate_limited;
    },
  )

  abbrev log_http :
      HttpState → HttpEnv → HttpStop → Option Logger → Result AuditError Unit × HttpState
  log_http s env stop none = (ok tt, s)
  log_http s env stop (some l) =
      let (r, l') =
        append events l env.audit.stamp (http_denied_event stop.reason) env.audit.outcome in
      (r, record s { service = record s.service { audit = some l' } })

  -- `writeHTTPDeny`
  unfoldable pub write_http_deny : HttpState → HttpEnv → HttpStop → HttpAnswer × HttpState
  unfolding settle_http http_denied_event
  write_http_deny s env stop =
      let (r, s') = log_http s env stop s.service.audit in settle_http s' stop r

-- What the endpoint answers to the outcome of an exchange.
unfoldable pub answer_of : Result Denial Minted → HttpAnswer
unfolding status_of
answer_of (ok m) = granted m
answer_of (err d) = refused (status_of d) (exchange_error d.error) (of_exchange d.reason)

module _ (std : Primitives) (proofs : agent_identity_plane.Dpop.Codec)
    (replays : agent_identity_plane.Sts.Replay.Codec) where
  abbrev pub replay_stop : ReplayError → HttpStop
  replay_stop ReplayError.replayed =
      stop_with 400 invalid_dpop_proof (of_exchange Reason.replayed_token)
  replay_stop _ =
      stop_with 500 (exchange_error OauthError.server_error) (of_exchange Reason.invalid_request)

  -- The consumption of a proof's identifier, with the cache after it.
  abbrev pub proof_consumption :
      HttpState → HttpEnv → Proof → Result ReplayError Unit × Option ReplayCache
  proof_consumption s env p =
      consume replays s.service.replay env.proof_replay_now env.proof_outcome (replay_jti p.jti)
        p.iat (p.jti ∷ [])

  bind_key : ExchangeRequest → Text → Result ReplayError Unit → Result HttpStop ExchangeRequest
  bind_key req jkt (err e) = err (replay_stop e)
  bind_key req jkt (ok u) = ok (record req { confirm_jkt = jkt })

  on_proof :
      HttpState
      → HttpEnv
      → ExchangeRequest
      → Result DpopError Proof
      → Result HttpStop ExchangeRequest × HttpState
  unfolding bind_key
  on_proof s env req (err e) = (err (stop_with 400 invalid_dpop_proof invalid_dpop), s)
  on_proof s env req (ok p) = (
    bind_key req p.jkt (proof_consumption s env p).0,
    record s { service = record s.service { replay = (proof_consumption s env p).1 } },
  )

  -- The proof of a token request, where there is one: the request is bound to its key.
  unfoldable pub bind_proof :
      HttpState → HttpEnv → Request → ExchangeRequest → Result HttpStop ExchangeRequest × HttpState
  unfolding on_proof
  bind_proof s env http req =
      if is_blank http.proof
      then (ok req, s)
      else on_proof s env req
          (agent_identity_plane.Dpop.verify std proofs (some http) [] [] env.proof_now)

module _ (std : Primitives) (proofs : agent_identity_plane.Dpop.Codec)
    (replays : agent_identity_plane.Sts.Replay.Codec) (events : agent_identity_plane.Audit.Codec)
    (parse_rfc3339 : Text → Option Time) where
  -- The exchange on the bound request, and its answer.
  bound : Config → HttpEnv → Result HttpStop ExchangeRequest × HttpState → HttpAnswer × HttpState
  unfolding answer_of write_http_deny
  bound c env (err stop, s) = write_http_deny events s env stop
  bound c env (ok req, s) =
      let (out, service) =
        handle std replays events parse_rfc3339 c s.service req env.exchange_env env.audit in
      (answer_of out, record s { service = service })

  on_form : Config → HttpState → HttpEnv → Request → Option (Text → Text) → HttpAnswer × HttpState
  unfolding bound bind_proof write_http_deny request_of_form
  on_form c s env http none = write_http_deny events s env malformed_form
  on_form c s env http (some form) =
      bound c env (bind_proof std proofs replays s env http (request_of_form form))

  -- `handleToken`
  unfoldable pub handle_token : Config → HttpState → HttpEnv → TokenRequest → HttpAnswer × HttpState
  unfolding on_form
  handle_token c s env r =
      if not env.within_rate
      then write_http_deny events s env over_rate
      else on_form c s env r.http r.form
