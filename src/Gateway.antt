-- ===== src/Gateway.antt =====
-- internal/gateway/gateway.go: the policy enforcement point. The limiter's answer, the clocks, the
-- denylist and the random bytes are taken from outside; a description of an error is not kept.
pub mod Pep
pub mod Headers
pub mod Serving
use agent_identity_plane.Prelude.{
  ℕ, suc, ◌+◌, Bool, true, false, not, ◌&&◌, ◌||◌, ◌==◌, List, [], ◌∷◌, ◌++◌, Option, none, some,
  if◌then◌else◌, Result, ok, err, ◌>>=◌, ◌>>◌, fail_if,
}
use agent_identity_plane.Prelude.Int.{ℤ, pos}
use agent_identity_plane.Prelude.Text.{Text, is_empty, codes}
use agent_identity_plane.Clock.{Time}
use agent_identity_plane.Lines.{WriteOutcome}
use agent_identity_plane.Denylist.{Denied, DenylistError, deny_chain}
use agent_identity_plane.Denylist
use agent_identity_plane.Token.Claims.{confirm_jkt}
use agent_identity_plane.Token.Keys.{Jwks, Primitives}
use agent_identity_plane.Verify.{ActorChain, Verifier, Refusal, VerifyError, keys}
use agent_identity_plane.Verify
use agent_identity_plane.Visor.{Mapping, VisorError, from_chain, complete}
use agent_identity_plane.Visor
use agent_identity_plane.Dpop.{DpopError, missing_proof, Proof, Request, replay_jti}
use agent_identity_plane.Dpop
use agent_identity_plane.Dpop.Nonce.{NonceCache, new_nonce_cache, issue, has}
use agent_identity_plane.Dpop.Nonce
use agent_identity_plane.Sts.Replay.{ReplayCache, ReplayError, replayed}
use agent_identity_plane.Sts.Replay
use agent_identity_plane.Audit.{Event, Logger, AuditError, append}
use agent_identity_plane.Audit
use agent_identity_plane.A2a.{access_token}

-- The reason codes of a refusal.
pub data Reason : Type 0 where
  rate_limited missing_bearer invalid_token incomplete_chain : Reason
  denylist_unavailable : Reason
  denied : agent_identity_plane.Denylist.Reason → Reason
  missing_cnf dpop_unavailable missing_dpop invalid_dpop_proof : Reason
  use_dpop_nonce replayed_dpop : Reason

unfoldable pub reason_code : Reason → Text
reason_code rate_limited = codes "rate_limited"
reason_code missing_bearer = codes "missing_bearer"
reason_code invalid_token = codes "invalid_token"
reason_code incomplete_chain = codes "incomplete_chain"
reason_code denylist_unavailable = codes "denylist_unavailable"
reason_code (denied agent_identity_plane.Denylist.Reason.agent_denied) = codes "agent_denied"
reason_code (denied agent_identity_plane.Denylist.Reason.workload_denied) = codes "workload_denied"
reason_code (denied agent_identity_plane.Denylist.Reason.principal_denied) =
    codes "principal_denied"
reason_code missing_cnf = codes "missing_cnf"
reason_code dpop_unavailable = codes "dpop_unavailable"
reason_code missing_dpop = codes "missing_dpop"
reason_code invalid_dpop_proof = codes "invalid_dpop_proof"
reason_code use_dpop_nonce = codes "use_dpop_nonce"
reason_code replayed_dpop = codes "replayed_dpop"

pub record Metrics : Type 0 where
  pub allowed : ℕ
  pub denied : ℕ
  pub rate_limited : ℕ

-- What the answers depend on of a `Config`; `denylist_fn` is what `DenylistFn` answers, where it is
-- set.
pub record Config : Type 0 where
  pub audience : Text
  pub verifier : Option Verifier
  pub short_names : Bool
  pub denylist_fn : Option (Result DenylistError (Option Denied))

-- What a request changes: the log, the cache of proofs, the nonces and the counters. The nonces are
-- those that `initNonces` has seen to.
pub record State : Type 0 where
  pub audit : Option Logger
  pub replay : Option ReplayCache
  pub nonces : NonceCache
  pub metrics : Metrics

-- What one request takes from outside: the limiter's answer; the clock at the verification of the
-- token, at the check of the proof, and at the issue of a nonce; the replay cache's clock and what
-- becomes of its write; the log's formatted time and what becomes of its write; random bytes.
pub record Env : Type 0 where
  pub within_rate : Bool
  pub token_now : Time
  pub proof_now : Time
  pub issue_now : Time
  pub replay_now : Time
  pub replay_outcome : WriteOutcome
  pub stamp : Text
  pub audit_outcome : WriteOutcome
  pub nonce_bytes : List ℕ

-- A refusal before it is recorded.
pub record Stop : Type 0 where
  pub status : ℕ
  pub reason : Reason
  pub mapping : Option Mapping

abbrev pub stop_with : ℕ → Reason → Option Mapping → Stop
stop_with status reason mapping = record { status = status; reason = reason; mapping = mapping }

-- The headers `WWW-Authenticate` and `DPoP-Nonce` of an answer; empty where not set.
pub record Challenge : Type 0 where
  pub authenticate : Text
  pub nonce : Text

abbrev pub no_challenge : Challenge
no_challenge = record { authenticate = []; nonce = [] }

-- An answer: a refusal, `failClosed`, or the mapping that is passed on with a new nonce.
pub data Answer : Type 0 where
  refused : ℕ → Reason → Challenge → Answer
  audit_unavailable : Challenge → Answer
  passed : Mapping → Text → Answer

unfoldable pub keys_ready : Option Verifier → Result VerifyError Unit
unfolding keys
keys_ready none = err VerifyError.keys_unavailable
keys_ready (some v) = do
  ks ← keys (some v)
  elim ks [ [] ↦ err VerifyError.keys_unavailable | k ∷ rest ↦ ok tt ]

unfoldable pub denylist_ready : Config → Result DenylistError Unit
denylist_ready c = elim c.denylist_fn [ none ↦ ok tt | some answer ↦ answer >>= λ d. ok tt ]

-- `denyIdentity`
unfoldable pub deny_identity :
    Config → Mapping → Result DenylistError (Option agent_identity_plane.Denylist.Reason)
deny_identity c m = elim c.denylist_fn [
  | none ↦ ok none
  | some answer ↦ answer >>= λ d. ok (deny_chain d m.principal m.acting_agent m.hops)
]

abbrev of_mapping : Option Mapping → (Mapping → Text) → Text
of_mapping none f = []
of_mapping (some m) f = f m

abbrev mapping_hops : Option Mapping → List Text
mapping_hops none = []
mapping_hops (some m) = m.hops

-- The event of `writeDeny`
unfoldable pub denied_event : Config → Stop → Event
unfolding reason_code
denied_event c stop = record {
  timestamp = [];
  event_type = codes "identity_denied";
  reason_code = reason_code stop.reason;
  txn = of_mapping stop.mapping (λ m. m.session_id);
  jti = of_mapping stop.mapping (λ m. m.jti);
  agent_id = of_mapping stop.mapping (λ m. m.acting_agent);
  workload = [];
  principal = of_mapping stop.mapping (λ m. m.principal);
  audience = c.audience;
  scope = of_mapping stop.mapping (λ m. m.scope);
  depth = pos 0;
  hops = mapping_hops stop.mapping;
  hash = [];
  prev_hash = [];
  chain_index = 0;
}

unfoldable pub allowed_event : Config → ActorChain → Mapping → Event
allowed_event c chain m = record {
  timestamp = [];
  event_type = codes "identity_allowed";
  reason_code = codes "ok";
  txn = m.session_id;
  jti = chain.jti;
  agent_id = m.acting_agent;
  workload = [];
  principal = m.principal;
  audience = c.audience;
  scope = m.scope;
  depth = pos 0;
  hops = m.hops;
  hash = [];
  prev_hash = [];
  chain_index = 0;
}

-- `failClosed`'s counter
abbrev pub count_denied : Metrics → Metrics
count_denied ms = record ms { denied = suc ms.denied }

unfoldable pub count_refused : Metrics → Reason → Metrics
count_refused ms Reason.rate_limited = record ms {
  denied = suc ms.denied;
  rate_limited = suc ms.rate_limited;
}
count_refused ms reason = count_denied ms

-- A verification error comes with a mapping if the chain has a transaction or an identifier.
unfoldable pub mapping_of_refusal :
    agent_identity_plane.Visor.Codec → Bool → Option ActorChain → Option Mapping
mapping_of_refusal codec short none = none
mapping_of_refusal codec short (some ch) =
    if not (is_empty ch.txn) || not (is_empty ch.jti)
    then some (from_chain codec short ch)
    else none

abbrev pub with_nonces : State → Option NonceCache → State
with_nonces s none = s
with_nonces s (some d) = record s { nonces = d }

-- `issueNonce`: the nonce and the cache after it.
unfoldable pub issue_nonce : State → Env → Text × State
unfolding issue
issue_nonce s env =
    let (n, cache) = issue (some s.nonces) env.issue_now env.nonce_bytes in (n, with_nonces s cache)

abbrev pub algs : Text
algs = codes "algs=\"EdDSA ES256 RS256\""

-- `WWW-Authenticate` of `writeDenyDPoP`
unfoldable pub authenticate : Reason → Text
authenticate use_dpop_nonce = codes "DPoP error=\"use_dpop_nonce\", " ++ algs
authenticate reason = codes "DPoP " ++ algs

module _ (events : agent_identity_plane.Audit.Codec) where
  record_in : State → Option Logger → Env → Event → Result AuditError Unit × State
  record_in s none env e = (err AuditError.unhealthy, s)
  record_in s (some l) env e =
      let (r, l') = append events l env.stamp e env.audit_outcome in
      (r, record s { audit = some l' })

  -- `record`, with what it does to the state; without a log it fails.
  unfoldable pub record_event : State → Env → Event → Result AuditError Unit × State
  unfolding record_in
  record_event s env e = record_in s s.audit env e

  settle_deny : Stop → Challenge → Result AuditError Unit × State → Answer × State
  unfolding count_refused
  settle_deny stop ch (err e, s) =
      (audit_unavailable ch, record s { metrics = count_denied s.metrics })
  settle_deny stop ch (ok u, s) = (
    refused stop.status stop.reason ch,
    record s { metrics = count_refused s.metrics stop.reason },
  )

  -- `writeDeny`
  unfoldable pub write_deny : Config → State → Env → Stop → Challenge → Answer × State
  unfolding settle_deny record_event denied_event
  write_deny c s env stop ch = settle_deny stop ch (record_event s env (denied_event c stop))

  -- `writeDenyDPoP`: a refusal that is not an outage offers a new nonce.
  unfoldable pub write_deny_dpop : Config → State → Env → Stop → Answer × State
  unfolding write_deny issue_nonce authenticate
  write_deny_dpop c s env stop =
      if stop.status == 401
      then write_deny c (issue_nonce s env).1 env stop
          (record { authenticate = authenticate stop.reason; nonce = (issue_nonce s env).0 })
      else write_deny c s env stop (record { authenticate = authenticate stop.reason; nonce = [] })

  settle_allow : Env → Mapping → Result AuditError Unit × State → Answer × State
  unfolding issue_nonce
  settle_allow env m (err e, s) =
      (audit_unavailable no_challenge, record s { metrics = count_denied s.metrics })
  settle_allow env m (ok u, s) =
      let counted : State = record s {
        metrics = record s.metrics { allowed = suc s.metrics.allowed };
      } in
      (passed m (issue_nonce counted env).0, (issue_nonce counted env).1)

  -- The record of an allowed request, the counter and the new nonce.
  unfoldable pub allow : Config → State → Env → ActorChain → Mapping → Answer × State
  unfolding settle_allow record_event allowed_event
  allow c s env chain m = settle_allow env m (record_event s env (allowed_event c chain m))
