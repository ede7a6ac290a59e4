-- ===== src/Prelude/Int.antt =====
-- Signed integers over the native numbers, and Go's `int64` with its wrap-around.
use agent_identity_plane.Prelude.Tests.{ltb, leb, ◌==◌, if◌then◌else◌}
use Prim.Native.Nat.{ℕ, suc, ◌+◌, ◌-◌, ◌^◌, ◌≤◌, ◌<◌}
use mathlib.Core.Path.{◌≡◌}
use mathlib.Core.Logic.{◌↔◌}
use mathlib.Core.Bool.{Bool, true, ◌&&◌}
use native.Mathlib.Omega.{arith}

-- `negsuc n` is -(n + 1).
pub data ℤ : Type 0 where
  pos : ℕ → ℤ
  negsuc : ℕ → ℤ

abbrev pub pos_part : ℤ → ℕ
pos_part (pos n) = n
pos_part (negsuc n) = 0

abbrev pub neg_part : ℤ → ℕ
neg_part (pos n) = 0
neg_part (negsuc n) = suc n

-- a - b, as an integer.
abbrev pub sub_ℕ : ℕ → ℕ → ℤ
sub_ℕ a b = if leb b a then pos (a - b) else negsuc (b - a - 1)

infixl 65 ◌+ℤ◌
infix 50 ◌≤ℤ◌ ◌<ℤ◌
unfoldable pub ◌+ℤ◌ : ℤ → ℤ → ℤ
a +ℤ b = sub_ℕ (pos_part a + pos_part b) (neg_part a + neg_part b)

abbrev pub ◌≤ℤ◌ : ℤ → ℤ → Type 0
a ≤ℤ b = pos_part a + neg_part b ≤ pos_part b + neg_part a

abbrev pub ◌<ℤ◌ : ℤ → ℤ → Type 0
a <ℤ b = pos_part a + neg_part b < pos_part b + neg_part a

abbrev pub ltb_ℤ : ℤ → ℤ → Bool
ltb_ℤ a b = ltb (pos_part a + neg_part b) (pos_part b + neg_part a)

abbrev pub eq_ℤ : ℤ → ℤ → Bool
eq_ℤ a b = pos_part a == pos_part b && neg_part a == neg_part b

abbrev pub leb_ℤ : ℤ → ℤ → Bool
leb_ℤ a b = leb (pos_part a + neg_part b) (pos_part b + neg_part a)

abbrev pub int64_max : ℕ
int64_max = 2 ^ 63 - 1

-- The values of an `int64`.
abbrev pub IsInt64 : ℤ → Type 0
IsInt64 a = (pos_part a ≤ int64_max) × (neg_part a ≤ 2 ^ 63)

-- The sum of two `int64`, which wraps around.
unfoldable pub add_int64 : ℤ → ℤ → ℤ
unfolding ◌+ℤ◌
add_int64 a b =
    let s : ℤ = a +ℤ b in
    if ltb int64_max (pos_part s)
    then sub_ℕ (pos_part s) (2 ^ 64)
    else if ltb (2 ^ 63) (neg_part s)
    then sub_ℕ (2 ^ 64) (neg_part s)
    else s

pub add_int64-IsInt64 : (a b : ℤ) → IsInt64 a → IsInt64 b → IsInt64 (add_int64 a b)
unfolding add_int64
add_int64-IsInt64 a b ha hb = ground arith

-- Without overflow the wrapped sum is the sum, through the parts that `omega` reads.
pub add_int64_parts :
    (a : ℤ) (n : ℕ)
    → pos_part a + n ≤ int64_max
    → neg_part a ≤ 2 ^ 63
    → pos_part (add_int64 a (pos n)) + neg_part a ≡ neg_part (add_int64 a (pos n)) + pos_part a + n
unfolding add_int64
add_int64_parts a n h k = ground arith

pub eq_ℤ_iff : (a b : ℤ) → (eq_ℤ a b ≡ true) ↔ (a ≡ b)
eq_ℤ_iff (pos a) (pos b) = ground arith
eq_ℤ_iff (pos a) (negsuc b) = ground arith
eq_ℤ_iff (negsuc a) (pos b) = ground arith
eq_ℤ_iff (negsuc a) (negsuc b) = ground arith

pub ≤ℤ_trans : (a b c : ℤ) → a ≤ℤ b → b ≤ℤ c → a ≤ℤ c
≤ℤ_trans a b c h k = omega arith
