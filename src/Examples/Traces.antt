-- ===== src/Examples/Traces.antt =====
-- Instances for internal/audit/trace.go: the log of one minted token, asked for that token.
use agent_identity_plane.Token.Claims.{actor_subs, contains, depth}
use agent_identity_plane.Sts.Service.{minted_event}
use agent_identity_plane.Prelude.Utf8.{longest_valid}
use agent_identity_plane.Prelude.Fields.{is_blank, trim_space}
use agent_identity_plane.Prelude.{◌≡◌, ◌↔◌, refl, true, List, [], ◌∷◌, none, ok, In, inl}
use agent_identity_plane.Prelude.Text.{codes, hex, text_eq}
use agent_identity_plane.Lines.{synced, scan_lines}
use agent_identity_plane.Audit.{append, decode_and_verify}
use agent_identity_plane.Audit.Trace.{
  TraceRecord, Query, Reader, FileText, trace, trimmed, wants_verified,
}
use agent_identity_plane.Audit.Trace.Selection.{IsLoaded, IsWanted, trace_exact}
use agent_identity_plane.Audit.Trace.Provenance.{IsRecovered, trace-IsRecovered}
use agent_identity_plane.Examples.Events.{events, read_texts, write_texts}
use agent_identity_plane.Examples.Logs.{stamp, empty_log, event}

abbrev reader : Reader
reader = record { generic = λ t. none; parse_nano = λ t. none; parse_plain = λ t. none }

abbrev log_file : FileText
log_file = (codes "a.jsonl", (append events empty_log stamp event synced).1.file)

abbrev query : Query
query = record { txn = []; jti = codes " jti-ff" }

abbrev traced : TraceRecord
traced = record {
  source = codes "a.jsonl";
  verified = true;
  timestamp = stamp;
  event_type = codes "token_minted";
  reason_code = codes "ok";
  agent_id = codes "agent://b";
  workload = codes "spiffe://w";
  principal = codes "alice";
  audience = codes "agent://c";
  server = [];
  tool = [];
  decision = [];
  hops = codes "alice" ∷ codes "agent://a" ∷ codes "agent://b" ∷ [];
  session_id = [];
  txn = codes "txn-1";
  jti = codes "jti-ff";
  chain_index = 1;
}

is_traced : trace events reader query (log_file ∷ []) [] ≡ ok (traced ∷ [])
unfolding read_texts wants_verified trace append depth minted_event longest_valid hex write_texts
    actor_subs decode_and_verify scan_lines text_eq contains trim_space is_blank
is_traced = refl

trace_exact_example :
    (verified : List TraceRecord) × (unverified : List TraceRecord) × IsLoaded events reader
      (log_file ∷ [])
      []
      verified
      unverified
    × ((r : TraceRecord) → In r (traced ∷ []) ↔ IsWanted (trimmed query) verified unverified r)
trace_exact_example = trace_exact events reader query (log_file ∷ []) [] (traced ∷ []) is_traced

trace-IsRecovered_example : IsRecovered events (log_file ∷ []) traced
trace-IsRecovered_example =
    trace-IsRecovered events reader query (log_file ∷ []) [] (traced ∷ []) traced is_traced
      (inl refl) refl
