-- ===== src/Examples/Replays.antt =====
-- Instances for internal/sts/replay.go.
use agent_identity_plane.Prelude.{ℕ, ◌≡◌, ◌<◌, length, refl, List, [], ◌∷◌, some, ok, err, arith}
use agent_identity_plane.Prelude.Int.{pos, add_int64, ◌≤ℤ◌}
use agent_identity_plane.Prelude.Text.{Text, codes}
use agent_identity_plane.Prelude.Assoc.{lookup, purge}
use agent_identity_plane.Clock.{unix}
use agent_identity_plane.Token.Claims.{replay_until}
use agent_identity_plane.Lines.{synced, max_line_bytes}
use agent_identity_plane.Sts.Replay.{
  ReplayCache, ReplayRecord, replayed, line_too_long, consume, recover, new_replay_cache,
}
use agent_identity_plane.Sts.Replay.SingleUse.{Call, step, run_calls, after, consume_single_use}
use agent_identity_plane.Sts.Replay.Recovery.{IsStored}
use agent_identity_plane.Sts.Replay.Durable.{consume-IsStored, consume_over_restart, consume_long}
use agent_identity_plane.Examples.Tokens.{noon}
use agent_identity_plane.Examples.Codecs.{codec, codec-IsJson, length-marshal, written, shift, pad}

abbrev call_1 : Call
call_1 = record { now = noon; outcome = synced; jti = codes "jti-1"; exp = pos 1120; aliases = [] }

abbrev call_2 : Call
call_2 = record call_1 { jti = codes "jti-2" }

abbrev fresh : ReplayCache
fresh = record { seen = []; file = some [] }

in_time : unix noon ≤ℤ replay_until (pos 1120)
unfolding replay_until add_int64
in_time = omega arith

first_is_ok :
    (consume (codec 0) (some new_replay_cache) noon synced (codes "jti-1") (pos 1120) []).0 ≡ ok tt
unfolding consume lookup purge new_replay_cache replay_until add_int64
first_is_ok = refl

-- The second use of `jti-1` is refused, after a use of `jti-2`.
consume_single_use_example :
    (consume
      (codec 0)
      (run_calls (codec 0) (step (codec 0) (some new_replay_cache) call_1) (call_2 ∷ []))
      noon
      synced
      (codes "jti-1")
      (pos 1120)
      []).0
    ≡ err replayed
consume_single_use_example =
    consume_single_use (codec 0) (some new_replay_cache) call_1 (call_2 ∷ []) call_1
      (unfold new_replay_cache in tt) first_is_ok (in_time, tt) refl (λ e. cc) in_time

fresh-IsStored : (k : ℕ) → IsStored (codec k) (λ t. Unit) (codec-IsJson k) fresh []
unfolding lookup
fresh-IsStored k = record { content = refl; good = tt; backed = λ j d e. e }

fresh_is_ok :
    (k : ℕ) → (consume (codec k) (some fresh) noon synced (codes "jti-1") (pos 1120) []).0 ≡ ok tt
unfolding consume lookup purge replay_until add_int64
fresh_is_ok k = refl

short :
    length ((codec 0).marshal (record { jti = codes "jti-1"; until = replay_until (pos 1120) }))
    < max_line_bytes
unfolding written shift pad
short = omega arith

consume-IsStored_example :
    (c' : ReplayCache) × (recs' : List ReplayRecord) × (after
        (codec 0)
        (some fresh)
        noon
        synced
        (codes "jti-1")
        (pos 1120)
        []
      ≡ some c')
    × IsStored (codec 0) (λ t. Unit) (codec-IsJson 0) c' recs'
consume-IsStored_example =
    consume-IsStored (codec 0) (λ t. Unit) (codec-IsJson 0) fresh [] noon (codes "jti-1") (pos 1120)
      [] tt (fresh-IsStored 0) tt short (omega arith)

consume_over_restart_example :
    (d : ReplayCache) × (content : Text) × (c' : ReplayCache) × (after
        (codec 0)
        (some fresh)
        noon
        synced
        (codes "jti-1")
        (pos 1120)
        []
      ≡ some d)
    × (d.file ≡ some content)
    × (recover (codec 0) content noon ≡ ok c')
    × ((consume (codec 0) (some c') noon synced (codes "jti-1") (pos 1120) []).0 ≡ err replayed)
consume_over_restart_example =
    consume_over_restart (codec 0) (λ t. Unit) (codec-IsJson 0) fresh [] noon noon noon
      (codes "jti-1") (pos 1120) (pos 1120) [] [] synced tt (fresh-IsStored 0) tt short
      (omega arith) (λ e. cc) (fresh_is_ok 0) in_time in_time

-- With a padding of a line's cap, the file cannot be read again.
consume_long_example :
    (d : ReplayCache) × (content : Text) × (after
        (codec max_line_bytes)
        (some fresh)
        noon
        synced
        (codes "jti-1")
        (pos 1120)
        []
      ≡ some d)
    × (d.file ≡ some content)
    × (recover (codec max_line_bytes) content noon ≡ err line_too_long)
consume_long_example =
    consume_long (codec max_line_bytes) (λ t. Unit) (codec-IsJson max_line_bytes) fresh [] noon noon
      (codes "jti-1") (pos 1120) [] (fresh-IsStored max_line_bytes)
      (length-marshal max_line_bytes
        (record { jti = codes "jti-1"; until = replay_until (pos 1120) }))
      (fresh_is_ok max_line_bytes)
