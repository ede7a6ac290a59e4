-- ===== src/Clock.antt =====
-- The instants and durations of Go's `time` that the code uses: `time.Time` as seconds since the
-- Unix epoch with nanoseconds, a duration as nanoseconds (0 stands for one that is not positive).
use agent_identity_plane.Prelude.{ℕ, ◌+◌, ◌/◌, ◌%◌, Bool, ◌&&◌, ◌||◌, ltb, ◌==◌}
use agent_identity_plane.Prelude.Int.{ℤ, pos, negsuc, ◌+ℤ◌, pos_part, neg_part, ltb_ℤ}

pub record Time : Type 0 where
  pub sec : ℤ
  pub nsec : ℕ

abbrev pub second : ℕ
second = 1_000_000_000

-- `t.Unix()`
abbrev pub unix : Time → ℤ
unix t = t.sec

-- `t.Before(u)`
unfoldable pub before : Time → Time → Bool
before t u =
    ltb_ℤ t.sec u.sec
    || (pos_part t.sec == pos_part u.sec && neg_part t.sec == neg_part u.sec && ltb t.nsec u.nsec)

-- `t.After(u)`
unfoldable pub after : Time → Time → Bool
unfolding before
after t u = before u t

-- `time.Time{}`, the first of January of the year 1
abbrev pub zero_time : Time
zero_time = record { sec = negsuc 62135596799; nsec = 0 }

-- `t.IsZero()`
unfoldable pub is_zero : Time → Bool
is_zero t = pos_part t.sec == 0 && neg_part t.sec == 62135596800 && t.nsec == 0

-- `t.Add(d)`
unfoldable pub add : Time → ℕ → Time
unfolding ◌+ℤ◌
add t d = record { sec = t.sec +ℤ pos ((t.nsec + d) / second); nsec = (t.nsec + d) % second }
