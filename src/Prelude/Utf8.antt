-- ===== src/Prelude/Utf8.antt =====
-- UTF-8 as Go's `unicode/utf8` reads it, and `strings.ToValidUTF8` with U+FFFD.
pub mod Repair
use Prim.Native.Nat.{ℕ, zero, suc, ◌≤◌}
use mathlib.Core.Path.{◌≡◌, refl, ap, ◌∙◌}
use mathlib.Core.Logic.{inl, inr}
use mathlib.Core.Bool.{Bool, true, false, ◌&&◌, ◌||◌}
use mathlib.Core.List.{[], ◌∷◌}
use native.Mathlib.Omega.{arith}
use agent_identity_plane.Prelude.Tests.{◌==◌, leb, ltb, if◌then◌else◌, Bool-cases}
use agent_identity_plane.Prelude.Lists.{length, take}
use agent_identity_plane.Prelude.Text.{Text}

abbrev between : ℕ → ℕ → ℕ → Bool
between lo hi b = leb lo b && leb b hi

-- A continuation byte
abbrev tail_byte : ℕ → Bool
tail_byte = between 0x80 0xBF

abbrev lead_2 : ℕ → ℕ → Bool
lead_2 a b = between 0xC2 0xDF a && tail_byte b

abbrev lead_3 : ℕ → ℕ → Bool
lead_3 a b =
    (a == 0xE0 && between 0xA0 0xBF b)
    || (a == 0xED && between 0x80 0x9F b)
    || ((between 0xE1 0xEC a || between 0xEE 0xEF a) && tail_byte b)

abbrev lead_4 : ℕ → ℕ → Bool
lead_4 a b =
    (a == 0xF0 && between 0x90 0xBF b)
    || (a == 0xF4 && between 0x80 0x8F b)
    || (between 0xF1 0xF3 a && tail_byte b)

width_4 : ℕ → ℕ → ℕ → Text → ℕ
width_4 a b c [] = 0
width_4 a b c (d ∷ r) = if lead_4 a b && tail_byte c && tail_byte d then 4 else 0

width_3 : ℕ → ℕ → Text → ℕ
unfolding width_4
width_3 a b [] = 0
width_3 a b (c ∷ r) = if lead_3 a b && tail_byte c then 3 else width_4 a b c r

width_2 : ℕ → Text → ℕ
unfolding width_3
width_2 a [] = 0
width_2 a (b ∷ r) = if lead_2 a b then 2 else width_3 a b r

-- The number of bytes of the rune that begins with the byte, or 0 where none does.
unfoldable pub rune_width : ℕ → Text → ℕ
unfolding width_2
rune_width a r = if ltb a 0x80 then 1 else width_2 a r

-- `utf8.ValidString`; the number counts the bytes left of a rune that has begun.
unfoldable pub valid_from : ℕ → Text → Bool
unfolding rune_width
valid_from k [] = true
valid_from (suc k) (b ∷ r) = valid_from k r
valid_from zero (b ∷ r) = elim (rune_width b r) [ zero ↦ false | suc k ↦ valid_from k r ]

unfoldable pub is_valid : Text → Bool
unfolding valid_from
is_valid s = valid_from zero s

-- U+FFFD in front of the rest, unless a run of invalid bytes has begun.
abbrev mark_invalid : Bool → Text → Text
mark_invalid true s = s
mark_invalid false s = 0xEF ∷ 0xBF ∷ 0xBD ∷ s

unfoldable pub to_valid_from : ℕ → Bool → Text → Text
unfolding rune_width
to_valid_from k invalid [] = []
to_valid_from (suc k) invalid (b ∷ r) = b ∷ to_valid_from k false r
to_valid_from zero invalid (b ∷ r) = elim (rune_width b r) [
  | zero ↦ mark_invalid invalid (to_valid_from zero true r)
  | suc k ↦ b ∷ to_valid_from k false r
]

-- `strings.ToValidUTF8(s, "\uFFFD")`
unfoldable pub to_valid : Text → Text
unfolding to_valid_from
to_valid s = to_valid_from zero false s

-- The longest valid text among the first n bytes, n - 1 bytes, and so on.
unfoldable pub longest_valid : ℕ → Text → Text
unfolding is_valid
longest_valid zero s = []
longest_valid (suc n) s =
    let shorter = longest_valid n s in if is_valid (take (suc n) s) then take (suc n) s else shorter
