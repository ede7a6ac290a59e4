-- ===== src/Sts/Replay.antt =====
-- internal/sts/replay.go: the cache of consumed token identifiers, in memory and on disk. The JSON
-- codec of a record is a parameter; the file is its bytes.
pub mod SingleUse
pub mod Recovery
pub mod Durable
pub mod Runs
use agent_identity_plane.Prelude.{
  ℕ, suc, Bool, true, false, not, ◌&&◌, ◌||◌, List, [], ◌∷◌, ◌++◌, Option, none, some,
  if◌then◌else◌, Result, ok, err, ◌>>=◌, ◌>>◌, fail_if, take,
}
use agent_identity_plane.Prelude.Int.{ℤ, pos, ltb_ℤ, leb_ℤ}
use agent_identity_plane.Prelude.Text.{Text, is_empty, text_eq, codes}
use agent_identity_plane.Prelude.Assoc.{Assoc, lookup, insert, purge}
use agent_identity_plane.Clock.{Time, unix}
use agent_identity_plane.Jsonutil.{JsonError}
use agent_identity_plane.Token.Claims.{replay_until, contains}
use agent_identity_plane.Lines.{
  Scanned, line, too_long, scan_lines, WriteOutcome, synced, torn, unsynced,
}

pub data ReplayError : Type 0 where
  replayed unavailable empty_jti : ReplayError
  write_failed : ReplayError
  corrupt_record missing_jti missing_until line_too_long : ReplayError

pub record ReplayRecord : Type 0 where
  pub jti : Text
  pub until : ℤ

-- encoding/json for a replay record: the keys of an object, the strict decoder, and `Marshal`.
pub record Codec : Type 0 where
  pub keys : Text → Option (List Text)
  pub strict : Text → Result JsonError ReplayRecord
  pub marshal : ReplayRecord → Text

-- `seen` and `file`; the clock is an argument of the methods.
pub record ReplayCache : Type 0 where
  pub seen : Assoc ℤ
  pub file : Option Text

unfoldable pub new_replay_cache : ReplayCache
new_replay_cache = record { seen = []; file = none }

-- The deadline lies before the instant.
abbrev pub is_past : ℤ → ℤ → Bool
is_past now until = ltb_ℤ until now

unfoldable pub purge_locked : ReplayCache → Time → ReplayCache
purge_locked c now = record c { seen = purge (is_past (unix now)) c.seen }

abbrev live : ℤ → Option ℤ → Bool
live now none = false
live now (some stored) = leb_ℤ now stored

-- The loop over the identifier and its aliases: has one of them been consumed?
unfoldable pub any_consumed : Assoc ℤ → ℤ → List Text → Bool
any_consumed seen now [] = false
any_consumed seen now (k ∷ ks) =
    let rest = any_consumed seen now ks in
    if is_empty k then rest else if live now (lookup k seen) then true else rest

module _ (codec : Codec) where
  open codec use {keys, strict, marshal}

  abbrev appended : Text → ReplayRecord → Text
  appended content r = content ++ (marshal r ++ 10 ∷ [])

  abbrev store : ReplayCache → ReplayRecord → ReplayCache
  store c r = record c { seen = insert r.jti r.until c.seen }

  -- The write to the file, if there is one, and the entry in memory, which follows a good write only.
  unfoldable pub write_record :
      ReplayCache
      → Option Text
      → ReplayRecord
      → WriteOutcome
      → Result ReplayError Unit × ReplayCache
  write_record c none r outcome = (ok tt, store c r)
  write_record c (some content) r synced =
      (ok tt, store (record c { file = some (appended content r) }) r)
  write_record c (some content) r (torn n) =
      (err write_failed, record c { file = some (content ++ take n (marshal r ++ 10 ∷ [])) })
  write_record c (some content) r unsynced =
      (err write_failed, record c { file = some (appended content r) })

  -- `Consume` on a cache that is there, after the test of the identifier.
  unfoldable pub consume_locked :
      ReplayCache
      → Time
      → WriteOutcome
      → Text
      → ℤ
      → List Text
      → Result ReplayError Unit × ReplayCache
  unfolding any_consumed write_record
  consume_locked c now outcome jti until aliases =
      if any_consumed c.seen (unix now) (jti ∷ aliases)
      then (err replayed, c)
      else if ltb_ℤ until (unix now)
      then (err replayed, c)
      else write_record c c.file (record { jti = jti; until = until }) outcome

  -- `Consume`; the cache may be nil.
  unfoldable pub consume :
      Option ReplayCache
      → Time
      → WriteOutcome
      → Text
      → ℤ
      → List Text
      → Result ReplayError Unit × Option ReplayCache
  unfolding consume_locked purge_locked
  consume none now outcome jti exp aliases = (err unavailable, none)
  consume (some c) now outcome jti exp aliases =
      if is_empty jti
      then (err empty_jti, some c)
      else let (r, c') =
          consume_locked (purge_locked c now) now outcome jti (replay_until exp) aliases in
        (r, some c')

  check_record : ReplayRecord → Result ReplayError ReplayRecord
  check_record r = do
    fail_if (is_empty r.jti) missing_jti
    fail_if (leb_ℤ r.until (pos 0)) missing_until
    ok r

  decode_strict : Result JsonError ReplayRecord → Result ReplayError ReplayRecord
  unfolding check_record
  decode_strict (err e) = err corrupt_record
  decode_strict (ok r) = check_record r

  decode_keys : Option (List Text) → Result JsonError ReplayRecord → Result ReplayError ReplayRecord
  unfolding decode_strict
  decode_keys none decoded = err corrupt_record
  decode_keys (some ks) decoded = do
    fail_if (not (contains ks (codes "jti"))) missing_jti
    fail_if (not (contains ks (codes "until"))) missing_until
    decode_strict decoded

  -- `decodeReplayRecord`
  unfoldable pub decode_replay_record : Text → Result ReplayError ReplayRecord
  unfolding decode_keys
  decode_replay_record raw = decode_keys (keys raw) (strict raw)

  -- The loop of `recover`.
  unfoldable pub recover_lines : Assoc ℤ → ℤ → List Scanned → Result ReplayError (Assoc ℤ)
  unfolding decode_replay_record
  recover_lines seen now [] = ok seen
  recover_lines seen now (too_long ∷ rest) = err line_too_long
  recover_lines seen now (line l ∷ rest) = if is_empty l then recover_lines seen now rest else do
    r ← decode_replay_record l
    recover_lines (if is_past now r.until then seen else insert r.jti r.until seen) now rest

  -- `recover` on the cache that `OpenReplayCache` has just made over the content of the file.
  unfoldable pub recover : Text → Time → Result ReplayError ReplayCache
  unfolding recover_lines
  recover content now = do
    seen ← recover_lines [] (unix now) (scan_lines content)
    ok (record { seen = seen; file = some content })

-- `Close`: the file is let go.
unfoldable pub close : Option ReplayCache → Option ReplayCache
close none = none
close (some c) = some (record c { file = none })
