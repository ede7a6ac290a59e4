-- ===== src/Audit.antt =====
-- internal/audit/logger.go: the hash-chained log of the service's decisions. encoding/json and SHA-256
-- are parameters; the file is its bytes, and a nil file is `none`.
pub mod Canonical
pub mod Linked
pub mod Writing
pub mod Appending
pub mod History
pub mod Evidence
pub mod Health
pub mod Trace
use agent_identity_plane.Prelude.{
  ℕ, suc, ◌+◌, ◌%◌, ◌^◌, Bool, true, false, not, ◌&&◌, ◌||◌, leb, ltb, ◌==◌, List, [], ◌∷◌, ◌++◌,
  map, Option, none, some, if◌then◌else◌, Result, ok, err, ◌>>=◌, ◌>>◌, fail_if, length, take,
}
use agent_identity_plane.Prelude.Int.{ℤ}
use agent_identity_plane.Prelude.Text.{Text, text_eq, is_empty, codes, hex}
use agent_identity_plane.Prelude.Utf8.{is_valid, to_valid, longest_valid}
use agent_identity_plane.Jsonutil.{JsonError}
use agent_identity_plane.Token.Claims.{contains}
use agent_identity_plane.Lines.{
  Scanned, line, too_long, scan_lines, WriteOutcome, synced, torn, unsynced, max_line_bytes,
}

pub data AuditError : Type 0 where
  unhealthy chain_broken record_too_large : AuditError
  corrupt_record incomplete_record : AuditError
  missing : Text → AuditError
  marshal_failed write_failed line_too_long : AuditError

abbrev pub genesis_prev_hash : Text
genesis_prev_hash = codes "sha256:e3b0c44298fc1c149afbf4c8996fb92427ae41e490166ae4ba7b5b37bcd8deac"

abbrev pub max_event_string : ℕ
max_event_string = 4096

abbrev pub max_event_hops : ℕ
max_event_hops = 32

pub record Event : Type 0 where
  pub timestamp : Text
  pub event_type : Text
  pub reason_code : Text
  pub txn : Text
  pub jti : Text
  pub agent_id : Text
  pub workload : Text
  pub principal : Text
  pub audience : Text
  pub scope : Text
  pub depth : ℤ
  pub hops : List Text
  pub hash : Text
  pub prev_hash : Text
  pub chain_index : ℕ

pub record Logger : Type 0 where
  pub file : Option Text
  pub prev_hash : Text
  pub chain_index : ℕ
  pub poisoned : Bool

-- encoding/json for an event, and SHA-256.
pub record Codec : Type 0 where
  pub keys : Text → Option (List Text)
  pub strict : Text → Result JsonError Event
  pub marshal : Event → Option Text
  pub sha256 : Text → Text

-- `boundEventString`
unfoldable pub bound_event_string : Text → Text
bound_event_string s =
    let t = if is_valid s then s else to_valid s in
    if leb (length t) max_event_string then t else longest_valid max_event_string t

unfoldable pub canonicalize_event : Event → Event
unfolding bound_event_string
canonicalize_event e = record {
  timestamp = bound_event_string e.timestamp;
  event_type = bound_event_string e.event_type;
  reason_code = bound_event_string e.reason_code;
  txn = bound_event_string e.txn;
  jti = bound_event_string e.jti;
  agent_id = bound_event_string e.agent_id;
  workload = bound_event_string e.workload;
  principal = bound_event_string e.principal;
  audience = bound_event_string e.audience;
  scope = bound_event_string e.scope;
  depth = e.depth;
  hops = map bound_event_string (take max_event_hops e.hops);
  hash = bound_event_string e.hash;
  prev_hash = bound_event_string e.prev_hash;
  chain_index = e.chain_index;
}

unfoldable pub same_hops : List Text → List Text → Bool
same_hops [] [] = true
same_hops [] (h ∷ hs) = false
same_hops (g ∷ gs) [] = false
same_hops (g ∷ gs) (h ∷ hs) = text_eq g h && same_hops gs hs

unfoldable pub event_canon_equal : Event → Event → Bool
unfolding same_hops
event_canon_equal a b =
    text_eq a.timestamp b.timestamp
    && text_eq a.event_type b.event_type
    && text_eq a.reason_code b.reason_code
    && text_eq a.txn b.txn
    && text_eq a.jti b.jti
    && text_eq a.agent_id b.agent_id
    && text_eq a.workload b.workload
    && text_eq a.principal b.principal
    && text_eq a.audience b.audience
    && text_eq a.scope b.scope
    && text_eq a.hash b.hash
    && text_eq a.prev_hash b.prev_hash
    && same_hops a.hops b.hops

-- The next index, a `uint64`.
abbrev pub next_index : ℕ → ℕ
next_index i = (i + 1) % 2 ^ 64

module _ (codec : Codec) where
  open codec use {keys, strict, marshal, sha256}

  abbrev pub digest : Option Text → Result AuditError Text
  digest none = err marshal_failed
  digest (some payload) = ok (codes "sha256:" ++ hex (sha256 payload))

  unfoldable pub payload_hash : Event → Result AuditError Text
  unfolding canonicalize_event
  payload_hash e = digest (marshal (record (canonicalize_event e) { hash = [] }))

  -- The loop over the fields that must be there.
  unfoldable pub require_keys : List Text → List Text → Result AuditError Unit
  require_keys present [] = ok tt
  require_keys present (k ∷ ks) = do
    fail_if (not (contains present k)) (missing k)
    require_keys present ks

  abbrev pub required : List Text
  required =
      codes "timestamp"
      ∷ codes "event_type"
      ∷ codes "reason_code"
      ∷ codes "hash"
      ∷ codes "prev_hash"
      ∷ codes "chain_index"
      ∷ []

  abbrev or_corrupt : {E A : Type 0} → Result E A → Result AuditError A
  or_corrupt (ok a) = ok a
  or_corrupt (err e) = err corrupt_record

  abbrev present_keys : Option (List Text) → Result AuditError (List Text)
  present_keys none = err corrupt_record
  present_keys (some ks) = ok ks

  unfoldable pub decode_audit_record : Text → Result AuditError Event
  unfolding require_keys
  decode_audit_record raw = do
    ks ← present_keys (keys raw)
    require_keys ks required
    e ← or_corrupt (strict raw)
    fail_if
        (is_empty e.event_type
          || is_empty e.reason_code
          || is_empty e.hash
          || is_empty e.prev_hash
          || e.chain_index == 0)
        incomplete_record
    ok e

  unfoldable pub verify_event : Event → Text → ℕ → Result AuditError Unit
  unfolding event_canon_equal payload_hash
  verify_event e prev want_index = do
    fail_if (not (text_eq e.prev_hash prev)) chain_broken
    fail_if (not (e.chain_index == want_index)) chain_broken
    fail_if (not (event_canon_equal e (canonicalize_event e))) chain_broken
    want ← payload_hash e
    fail_if (not (text_eq e.hash want)) chain_broken

  unfoldable pub decode_and_verify : Text → Text → ℕ → Result AuditError Event
  unfolding decode_audit_record verify_event
  decode_and_verify raw prev want_index = do
    e ← decode_audit_record raw
    verify_event e prev want_index
    ok e

  -- The loop of `recover`: the hash and the index of the last record.
  unfoldable pub recover_lines : Text → ℕ → List Scanned → Result AuditError (Text × ℕ)
  unfolding decode_and_verify
  recover_lines prev index [] = ok (prev, index)
  recover_lines prev index (too_long ∷ rest) = err line_too_long
  recover_lines prev index (line l ∷ rest) =
      if is_empty l then recover_lines prev index rest else do
        e ← decode_and_verify l prev (next_index index)
        recover_lines e.hash e.chain_index rest

  -- `recover` on the logger that `NewLogger` has just made over the content of the file.
  unfoldable pub recover : Text → Result AuditError Logger
  unfolding recover_lines
  recover content = do
    (prev, index) ← recover_lines genesis_prev_hash 0 (scan_lines content)
    ok (record { file = some content; prev_hash = prev; chain_index = index; poisoned = false })

  abbrev poison : Logger → Logger
  poison l = record l { poisoned = true }

  -- The event that `Append` writes, but for its hash; `stamp` is the formatted time of the clock.
  unfoldable pub chained : Logger → Text → Event → Event
  unfolding canonicalize_event
  chained l stamp e =
      let c = canonicalize_event e in
      record c {
        timestamp = if is_empty c.timestamp then stamp else c.timestamp;
        prev_hash = l.prev_hash;
        chain_index = next_index l.chain_index;
      }

  abbrev advanced : Logger → Event → Logger
  advanced l e = record l { prev_hash = e.hash; chain_index = e.chain_index }

  -- The write and the `Sync`.
  unfoldable pub write_synced :
      Logger → Text → Text → Event → WriteOutcome → Result AuditError Unit × Logger
  write_synced l content text e synced =
      (ok tt, advanced (record l { file = some (content ++ (text ++ 10 ∷ [])) }) e)
  write_synced l content text e (torn n) =
      (err write_failed, poison (record l { file = some (content ++ take n (text ++ 10 ∷ [])) }))
  write_synced l content text e unsynced =
      (err write_failed, poison (record l { file = some (content ++ (text ++ 10 ∷ [])) }))

  unfoldable pub write_line :
      Logger → Text → Text → Event → WriteOutcome → Result AuditError Unit × Logger
  unfolding write_synced
  write_line l content text e outcome =
      if ltb max_line_bytes (length text + 1)
      then (err record_too_large, l)
      else write_synced l content text e outcome

  unfoldable pub write_marshalled :
      Logger → Text → Event → WriteOutcome → Option Text → Result AuditError Unit × Logger
  unfolding write_line
  write_marshalled l content e outcome none = (err marshal_failed, poison l)
  write_marshalled l content e outcome (some text) = write_line l content text e outcome

  unfoldable pub write_hashed :
      Logger
      → Text
      → Event
      → WriteOutcome
      → Result AuditError Text
      → Result AuditError Unit × Logger
  unfolding write_marshalled
  write_hashed l content e outcome (err x) = (err x, poison l)
  write_hashed l content e outcome (ok h) =
      write_marshalled l content (record e { hash = h }) outcome (marshal (record e { hash = h }))

  unfoldable pub append_to :
      Logger → Text → Text → Event → WriteOutcome → Result AuditError Unit × Logger
  unfolding chained payload_hash write_hashed
  append_to l content stamp e outcome =
      write_hashed l content (chained l stamp e) outcome (payload_hash (chained l stamp e))

  -- `Append`
  unfoldable pub append : Logger → Text → Event → WriteOutcome → Result AuditError Unit × Logger
  unfolding append_to
  append l stamp e outcome = if l.poisoned then (err unhealthy, l) else elim l.file [
    | none ↦ (err unhealthy, l)
    | some content ↦ append_to l content stamp e outcome
  ]

-- `Close`: the file is let go.
unfoldable pub close : Logger → Logger
close l = record l { file = none }
