-- ===== src/Sts/Service.antt =====
-- internal/sts/sts.go: `Exchange`, which writes an audit record before it answers, the counters, and
-- the replacement of the live registry, keyring and denylist.
pub mod Recorded
use agent_identity_plane.Prelude.{
  ℕ, suc, ◌+◌, Bool, true, false, List, [], ◌∷◌, ◌++◌, Option, none, some, if◌then◌else◌, Result,
  ok, err, ◌>>=◌, ◌>>◌, fail_if,
}
use agent_identity_plane.Prelude.Int.{ℤ, pos}
use agent_identity_plane.Prelude.Text.{Text, is_empty, codes}
use agent_identity_plane.Clock.{Time}
use agent_identity_plane.Lines.{WriteOutcome}
use agent_identity_plane.Denylist.{Denied}
use agent_identity_plane.Registry.{Registry}
use agent_identity_plane.Token.Errors.{TokenError, invalid_key}
use agent_identity_plane.Token.Claims.{Claims, depth, actor_subs}
use agent_identity_plane.Token.Keys.{Primitives}
use agent_identity_plane.Token.Keyring.{Keyring, active_kid, allow_activation}
use agent_identity_plane.Sts.Replay.{ReplayCache}
use agent_identity_plane.Sts.Request.{
  Reason, OauthError, IdentitySnap, Config, ExchangeRequest, Env, Denial, Minted, deny,
}
use agent_identity_plane.Sts.Exchange.{exchange}
use agent_identity_plane.Audit.{Event, Logger}
use agent_identity_plane.Audit

-- The text of a reason code.
unfoldable pub reason_code : Reason → Text
reason_code Reason.invalid_request = codes "invalid_request"
reason_code Reason.invalid_actor_token = codes "invalid_actor_token"
reason_code Reason.invalid_subject_token = codes "invalid_subject_token"
reason_code Reason.agent_not_registered = codes "agent_not_registered"
reason_code Reason.agent_not_authorized_on_workload = codes "agent_not_authorized_on_workload"
reason_code Reason.audience_not_allowed = codes "audience_not_allowed"
reason_code Reason.scope_widening = codes "scope_widening"
reason_code Reason.depth_exceeded = codes "depth_exceeded"
reason_code Reason.expired = codes "expired"
reason_code Reason.chain_integrity = codes "chain_integrity"
reason_code Reason.agent_not_yet_valid = codes "agent_not_yet_valid"
reason_code Reason.agent_expired = codes "agent_expired"
reason_code Reason.replayed_token = codes "replayed_token"
reason_code Reason.agent_denied = codes "agent_denied"
reason_code Reason.workload_denied = codes "workload_denied"
reason_code Reason.principal_denied = codes "principal_denied"
reason_code Reason.missing_cnf = codes "missing_cnf"
reason_code Reason.audit_unavailable = codes "audit_unavailable"

-- The counters that an exchange moves.
pub record Metrics : Type 0 where
  pub minted : ℕ
  pub denied : ℕ
  pub replays : ℕ

-- What an exchange changes: the replay cache, the log, where there is one, and the counters.
pub record State : Type 0 where
  pub replay : Option ReplayCache
  pub audit : Option Logger
  pub metrics : Metrics

-- The log's clock, formatted, and what becomes of its write.
pub record AuditEnv : Type 0 where
  pub stamp : Text
  pub outcome : WriteOutcome

unfoldable pub minted_event : ExchangeRequest → Minted → Event
minted_event req m = record {
  timestamp = [];
  event_type = codes "token_minted";
  reason_code = codes "ok";
  txn = m.issued.txn;
  jti = m.issued.jti;
  agent_id = req.agent_id;
  workload = m.workload;
  principal = m.issued.sub;
  audience = req.audience;
  scope = m.issued.scope;
  depth = pos (depth m.issued);
  hops = m.issued.sub ∷ actor_subs m.issued;
  hash = [];
  prev_hash = [];
  chain_index = 0;
}

abbrev of_subject : Option Claims → (Claims → Text) → Text
of_subject none f = []
of_subject (some sub) f = f sub

-- A denied outcome has no workload.
unfoldable pub denied_event : ExchangeRequest → Denial → Event
unfolding reason_code
denied_event req d = record {
  timestamp = [];
  event_type = codes "token_denied";
  reason_code = reason_code d.reason;
  txn = of_subject d.subject (λ c. c.txn);
  jti = of_subject d.subject (λ c. c.jti);
  agent_id = req.agent_id;
  workload = [];
  principal = of_subject d.subject (λ c. c.sub);
  audience = req.audience;
  scope = req.scope;
  depth = pos 0;
  hops = [];
  hash = [];
  prev_hash = [];
  chain_index = 0;
}

unfoldable pub event_of : ExchangeRequest → Result Denial Minted → Event
unfolding minted_event denied_event
event_of req (ok m) = minted_event req m
event_of req (err d) = denied_event req d

abbrev is_replay : Reason → Bool
is_replay Reason.replayed_token = true
is_replay _ = false

unfoldable pub count : Metrics → Result Denial Minted → Metrics
count ms (ok m) = record ms { minted = suc ms.minted }
count ms (err d) =
    let counted : Metrics = record ms { denied = suc ms.denied } in
    if is_replay d.reason then record counted { replays = suc counted.replays } else counted

abbrev pub audit_unavailable : Denial
audit_unavailable = deny Reason.audit_unavailable OauthError.server_error

module _ (codec : agent_identity_plane.Audit.Codec) where
  settle :
      State
      → Result Denial Minted
      → Result agent_identity_plane.Audit.AuditError Unit × Logger
      → Result Denial Minted × State
  unfolding count
  settle s out (err e, l) = (err audit_unavailable, record s { audit = some l })
  settle s out (ok u, l) = (out, record s { audit = some l; metrics = count s.metrics out })

  -- The record of an outcome, where there is a log.
  unfoldable pub recorded :
      State
      → Option Logger
      → ExchangeRequest
      → AuditEnv
      → Result Denial Minted
      → Result Denial Minted × State
  unfolding settle event_of
  recorded s none req aenv out = (out, s)
  recorded s (some l) req aenv out =
      settle s out
        (agent_identity_plane.Audit.append codec l aenv.stamp (event_of req out) aenv.outcome)

module _ (std : Primitives) (replays : agent_identity_plane.Sts.Replay.Codec)
    (events : agent_identity_plane.Audit.Codec) (parse_rfc3339 : Text → Option Time) where
  -- `Exchange`
  unfoldable pub handle :
      Config → State → ExchangeRequest → Env → AuditEnv → Result Denial Minted × State
  unfolding recorded
  handle c s req env aenv =
      let (out, cache) = exchange std replays parse_rfc3339 c s.replay req env in
      recorded events (record s { replay = cache }) s.audit req aenv out

module _ (std : Primitives) where
  abbrev pub or_keep {ℓ} : {A : Type ℓ} → Option A → Option A → Option A
  or_keep none old = old
  or_keep (some a) old = some a

  abbrev pub may_activate : IdentitySnap → Option Keyring → Result TokenError Unit
  may_activate live none = ok tt
  may_activate live (some k) = allow_activation std live.signer (some k)

  -- `installIdentity` on a configuration that is there: all that is given is replaced, or nothing is.
  unfoldable pub install_identity :
      Config → Option Registry → Option Keyring → Option Denied → Result TokenError Config
  install_identity c registry signer denylist = do
    may_activate c.live signer
    ok (record c {
      live = record c.live {
        registry = or_keep registry c.live.registry;
        signer = or_keep signer c.live.signer;
        denylist = or_keep denylist c.live.denylist;
      };
    })

  -- `ReplaceKeyring`
  unfoldable pub replace_keyring : Config → Option Keyring → Result TokenError Config
  unfolding install_identity
  replace_keyring c signer = do
    fail_if (is_empty (active_kid signer)) invalid_key
    install_identity c none signer none
