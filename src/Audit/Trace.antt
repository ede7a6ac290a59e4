-- ===== src/Audit/Trace.antt =====
-- internal/audit/trace.go: the records of one transaction, from verified logs and from the unverified
-- lines of visor. encoding/json, the formats of a time and the content of the files are parameters.
pub mod Wanted
pub mod Sorting
pub mod Records
pub mod Selection
pub mod Provenance
use agent_identity_plane.Prelude.{
  ℕ, Bool, true, false, not, ◌&&◌, ◌||◌, ◌==◌, ltb, List, [], ◌∷◌, ◌++◌, Option, none, some,
  if◌then◌else◌, Result, ok, err, ◌>>=◌, ◌>>◌, fail_if,
}
use agent_identity_plane.Prelude.Int.{eq_ℤ}
use agent_identity_plane.Prelude.Text.{Text, text_eq, text_lt, is_empty, codes}
use agent_identity_plane.Prelude.Fields.{is_blank, trim_space}
use agent_identity_plane.Clock.{Time, zero_time, is_zero, before}
use agent_identity_plane.Lines.{Scanned, line, too_long, scan_lines}
use agent_identity_plane.Token.Claims.{contains}
use agent_identity_plane.Audit.{
  Event, Codec, AuditError, genesis_prev_hash, next_index, decode_and_verify,
}

pub data TraceError : Type 0 where
  query_empty unreadable line_over_cap : TraceError
  unverifiable : Text → AuditError → TraceError
  not_json : Text → TraceError

pub record TraceRecord : Type 0 where
  pub source : Text
  pub verified : Bool
  pub timestamp : Text
  pub event_type : Text
  pub reason_code : Text
  pub agent_id : Text
  pub workload : Text
  pub principal : Text
  pub audience : Text
  pub server : Text
  pub tool : Text
  pub decision : Text
  pub hops : List Text
  pub session_id : Text
  pub txn : Text
  pub jti : Text
  pub chain_index : ℕ

pub record Query : Type 0 where
  pub txn : Text
  pub jti : Text

-- A JSON object as the code reads it: a member that is a text, empty where it is not, and the list
-- `hops`, whose elements may be other than texts.
pub record Generic : Type 0 where
  pub text_member : Text → Text
  pub hops_member : Option (List (Option Text))

-- encoding/json for the lines of visor, and the two formats of a time.
pub record Reader : Type 0 where
  pub generic : Text → Option Generic
  pub parse_nano : Text → Option Time
  pub parse_plain : Text → Option Time

-- A file: its path and its content, where it can be opened.
abbrev pub FileText : Type 0
FileText = Text × Option Text

-- The loop of `readLines`
unfoldable pub keep_lines : List Scanned → Result TraceError (List Text)
keep_lines [] = ok []
keep_lines (too_long ∷ rest) = err line_over_cap
keep_lines (line l ∷ rest) = do ls ← keep_lines rest; ok (if is_empty l then ls else l ∷ ls)

unfoldable pub read_lines : Option Text → Result TraceError (List Text)
unfolding keep_lines
read_lines none = err unreadable
read_lines (some content) = keep_lines (scan_lines content)

unfoldable pub record_from_event : Text → Event → TraceRecord
record_from_event path e = record {
  source = path;
  verified = true;
  timestamp = e.timestamp;
  event_type = e.event_type;
  reason_code = e.reason_code;
  agent_id = e.agent_id;
  workload = e.workload;
  principal = e.principal;
  audience = e.audience;
  server = [];
  tool = [];
  decision = [];
  hops = e.hops;
  session_id = [];
  txn = e.txn;
  jti = e.jti;
  chain_index = e.chain_index;
}

-- The elements of `hops` that are texts.
unfoldable pub text_hops : List (Option Text) → List Text
text_hops [] = []
text_hops (none ∷ hs) = text_hops hs
text_hops (some h ∷ hs) = h ∷ text_hops hs

unfoldable pub record_from_generic : Text → Generic → TraceRecord
unfolding text_hops
record_from_generic path g = record {
  source = path;
  verified = false;
  timestamp = g.text_member (codes "timestamp");
  event_type = g.text_member (codes "event_type");
  reason_code = g.text_member (codes "reason_code");
  agent_id = g.text_member (codes "agent_id");
  workload = g.text_member (codes "workload");
  principal = g.text_member (codes "principal");
  audience = g.text_member (codes "audience");
  server = g.text_member (codes "server");
  tool = g.text_member (codes "tool");
  decision = g.text_member (codes "policy_decision");
  hops = elim g.hops_member [ none ↦ [] | some hs ↦ text_hops hs ];
  session_id = g.text_member (codes "session_id");
  txn = g.text_member (codes "txn");
  jti = g.text_member (codes "jti");
  chain_index = 0;
}

-- The transactions of the verified records with the identifier, and whether there is such a record.
unfoldable pub txns_of : Text → List TraceRecord → List Text × Bool
txns_of jti [] = ([], false)
txns_of jti (r ∷ rs) =
    let (txns, found) = txns_of jti rs in
    if not (text_eq r.jti jti)
    then (txns, found)
    else (if is_empty r.txn then txns else r.txn ∷ txns, true)

-- Is a verified record wanted?
unfoldable pub wants_verified : Query → List Text → TraceRecord → Bool
wants_verified q txns r =
    (contains txns r.txn && not (is_empty r.txn))
    || (not (is_empty q.jti) && text_eq r.jti q.jti && is_empty r.txn)

unfoldable pub wants_unverified : List Text → TraceRecord → Bool
wants_unverified txns r =
    (not (is_empty r.txn) && contains txns r.txn)
    || (not (is_empty r.session_id) && contains txns r.session_id)

unfoldable pub select : (TraceRecord → Bool) → List TraceRecord → List TraceRecord
select wanted [] = []
select wanted (r ∷ rs) = let rest = select wanted rs in if wanted r then r ∷ rest else rest

-- `t.Equal(u)`
abbrev same_time : Time → Time → Bool
same_time t u = eq_ℤ t.sec u.sec && t.nsec == u.nsec

abbrev pub or_not_json : Text → Option Generic → Result TraceError Generic
or_not_json path none = err (not_json path)
or_not_json path (some g) = ok g

module _ (reader : Reader) where
  unfoldable pub parse_record_time : Text → Time
  parse_record_time s = elim (reader.parse_nano s) [
    | some t ↦ t
    | none ↦ elim (reader.parse_plain s) [ some t ↦ t | none ↦ zero_time ]
  ]

  unfoldable pub record_less : TraceRecord → TraceRecord → Bool
  unfolding parse_record_time
  record_less a b =
      let ta = parse_record_time a.timestamp in
      let tb = parse_record_time b.timestamp in
      if not (same_time ta tb)
      then if is_zero ta
        then if is_zero tb then before ta tb else false
        else if is_zero tb
        then true
        else before ta tb
      else if a.verified && b.verified
      then if not (text_eq a.source b.source)
        then text_lt a.source b.source
        else ltb a.chain_index b.chain_index
      else if a.verified
      then true
      else false

  -- The place of a record among those that came after it: before the first that is not less.
  unfoldable pub place : TraceRecord → List TraceRecord → List TraceRecord
  unfolding record_less
  place r [] = r ∷ []
  place r (s ∷ rest) =
      let placed = place r rest in if record_less s r then s ∷ placed else r ∷ s ∷ rest

  -- `sort.SliceStable`, by insertion from the end
  unfoldable pub sort_records : List TraceRecord → List TraceRecord
  unfolding place
  sort_records [] = []
  sort_records (r ∷ rs) = place r (sort_records rs)

  -- `loadGenericRecords`
  unfoldable pub load_generic_records : Text → List Text → Result TraceError (List TraceRecord)
  unfolding record_from_generic
  load_generic_records path [] = ok []
  load_generic_records path (l ∷ ls) = do
    g ← or_not_json path (reader.generic l)
    rs ← load_generic_records path ls
    ok (record_from_generic path g ∷ rs)

  unfoldable pub load_generic_file : FileText → Result TraceError (List TraceRecord)
  unfolding read_lines load_generic_records
  load_generic_file f = do ls ← read_lines f.1; load_generic_records f.0 ls

abbrev pub or_unverifiable : {A : Type 0} → Text → Result AuditError A → Result TraceError A
or_unverifiable path (ok a) = ok a
or_unverifiable path (err e) = err (unverifiable path e)

module _ (codec : Codec) where
  -- The loop of `loadAuditRecords`
  unfoldable pub load_audit_records :
      Text → Text → ℕ → List Text → Result TraceError (List TraceRecord)
  unfolding record_from_event
  load_audit_records path prev index [] = ok []
  load_audit_records path prev index (l ∷ ls) = do
    e ← or_unverifiable path (decode_and_verify codec l prev (next_index index))
    rs ← load_audit_records path e.hash e.chain_index ls
    ok (record_from_event path e ∷ rs)

  unfoldable pub load_audit_file : FileText → Result TraceError (List TraceRecord)
  unfolding read_lines load_audit_records
  load_audit_file f = do ls ← read_lines f.1; load_audit_records f.0 genesis_prev_hash 0 ls

-- A loop over the paths: those that are blank are passed over.
unfoldable pub load_all :
    (FileText → Result TraceError (List TraceRecord))
    → List FileText
    → Result TraceError (List TraceRecord)
load_all load [] = ok []
load_all load (f ∷ fs) =
    if is_blank f.0
    then load_all load fs
    else do rs ← load f; rest ← load_all load fs; ok (rs ++ rest)

-- The transactions that are asked for; `none` where nothing is.
unfoldable pub wanted_txns : Query → List TraceRecord → Option (List Text)
unfolding txns_of
wanted_txns q verified =
    if is_empty q.jti
    then some (q.txn ∷ [])
    else let (txns, found) = txns_of q.jti verified in
      if not found
      then none
      else if is_empty q.txn
      then some txns
      else if contains txns q.txn
      then some (q.txn ∷ [])
      else none

abbrev pub trimmed : Query → Query
trimmed q = record { txn = trim_space q.txn; jti = trim_space q.jti }

module _ (codec : Codec) (reader : Reader) where
  unfoldable pub select_records :
      Query → List TraceRecord → List TraceRecord → Option (List Text) → List TraceRecord
  unfolding select sort_records
  select_records q verified unverified none = []
  select_records q verified unverified (some txns) =
      sort_records reader
        (select (wants_verified q txns) verified ++ select (wants_unverified txns) unverified)

  -- `Trace`
  unfoldable pub trace :
      Query → List FileText → List FileText → Result TraceError (List TraceRecord)
  unfolding load_all load_audit_file load_generic_file wanted_txns select_records
  trace q audit_files visor_files = do
    fail_if (is_empty (trimmed q).txn && is_empty (trimmed q).jti) query_empty
    verified ← load_all (load_audit_file codec) audit_files
    unverified ← load_all (load_generic_file reader) visor_files
    ok (select_records (trimmed q) verified unverified (wanted_txns (trimmed q) verified))

  -- `TraceTxn`
  unfoldable pub trace_txn : Text → FileText → List FileText → Result TraceError (List TraceRecord)
  unfolding trace
  trace_txn txn audit_file visor_files =
      trace (record { txn = txn; jti = [] }) (audit_file ∷ []) visor_files
