-- ===== src/Token/Lifetime.antt =====
-- How the deadline of internal/token/claims.go for consumed tokens fits the check of `exp`.
use agent_identity_plane.Prelude.{ℕ, ◌+◌, ◌≤◌, ◌<◌, ◌≡◌, ◌↔◌, ok, err, arith}
use agent_identity_plane.Prelude.Int.{pos, ◌≤ℤ◌, ◌<ℤ◌, add_int64, int64_max}
use agent_identity_plane.Clock.{Time, unix}
use agent_identity_plane.Token.Errors.{expired}
use agent_identity_plane.Token.Claims.{Claims, validate_time, replay_until}

-- A token that the time check accepts at a non-negative instant is one whose deadline has not
-- passed, provided its `exp` is positive: a consumed token is remembered for as long as it is valid.
pub validate_time-le-replay_until :
    (c : Claims) (now : Time)
    → pos 0 <ℤ c.exp
    → validate_time c now 0 ≡ ok tt
    → unix now ≤ℤ replay_until c.exp
unfolding validate_time replay_until
validate_time-le-replay_until c now p h = ground arith

-- For a token with a positive `exp` and no `nbf`, the deadline is the last second at which the time
-- check accepts it, also where the sum with the skew wraps around.
pub validate_time_iff_replay_until :
    (c : Claims) (now : Time)
    → pos 0 <ℤ c.exp
    → c.nbf ≡ pos 0
    → (validate_time c now 0 ≡ ok tt) ↔ (unix now ≤ℤ replay_until c.exp)
unfolding validate_time replay_until
validate_time_iff_replay_until c now p n = (λ h. ground arith, λ h. ground arith)

-- An `exp` so late that 30 seconds more overflow an `int64` is always expired.
pub validate_time_overflow :
    (c : Claims) (now : Time) (k : ℕ)
    → c.exp ≡ pos k
    → int64_max < k + 30
    → k ≤ int64_max
    → pos 0 ≤ℤ unix now
    → validate_time c now 0 ≡ err expired
unfolding validate_time add_int64
validate_time_overflow c now k e o b n = ground arith
