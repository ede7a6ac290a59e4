-- ===== src/Prelude/Fields.antt =====
-- White space of Go's `unicode.IsSpace` in UTF-8, `strings.TrimSpace` and `strings.Fields`.
-- A space is one, two or three bytes, and its first byte is never a continuation byte, so a scan
-- over the bytes finds the spaces that a scan over the runes finds.
use Prim.Native.Nat.{ℕ, zero, suc}
use mathlib.Core.Path.{◌≡◌, refl}
use mathlib.Core.Bool.{Bool, true, false, ◌&&◌, ◌||◌}
use mathlib.Core.List.{List, [], ◌∷◌, ◌++◌}
use agent_identity_plane.Prelude.Tests.{◌==◌, leb, if◌then◌else◌}
use agent_identity_plane.Prelude.Text.{Text, is_empty, codes}

-- U+0085 and U+00A0
abbrev space_2 : ℕ → ℕ → Bool
space_2 a b = a == 0xC2 && (b == 0x85 || b == 0xA0)

-- U+1680, U+2000 to U+200A, U+2028, U+2029, U+202F, U+205F and U+3000
abbrev space_3 : ℕ → ℕ → ℕ → Bool
space_3 a b c =
    (a == 0xE1 && b == 0x9A && c == 0x80)
    || (a == 0xE2 && b == 0x80 && (leb 0x80 c && leb c 0x8A || c == 0xA8 || c == 0xA9 || c == 0xAF))
    || (a == 0xE2 && b == 0x81 && c == 0x9F)
    || (a == 0xE3 && b == 0x80 && c == 0x80)

wide_space : ℕ → Text → ℕ
wide_space a [] = 0
wide_space a (b ∷ []) = if space_2 a b then 2 else 0
wide_space a (b ∷ c ∷ r) = if space_2 a b then 2 else if space_3 a b c then 3 else 0

-- The number of bytes of the space that the text begins with, or 0.
unfoldable pub space_width : Text → ℕ
unfolding wide_space
space_width [] = 0
space_width (a ∷ r) = if a == 32 || (leb 9 a && leb a 13) then 1 else wide_space a r

-- Nothing but spaces; the number counts the bytes left of a space that has begun.
unfoldable pub spaces_only : ℕ → Text → Bool
unfolding space_width
spaces_only k [] = true
spaces_only (suc k) (b ∷ r) = spaces_only k r
spaces_only zero (b ∷ r) = elim (space_width (b ∷ r)) [ zero ↦ false | suc k ↦ spaces_only k r ]

-- `strings.TrimSpace(s) == ""`
unfoldable pub is_blank : Text → Bool
unfolding spaces_only
is_blank = spaces_only zero

trim_left : ℕ → Text → Text
unfolding space_width
trim_left k [] = []
trim_left (suc k) (b ∷ r) = trim_left k r
trim_left zero (b ∷ r) = elim (space_width (b ∷ r)) [ zero ↦ b ∷ r | suc k ↦ trim_left k r ]

trim_right : Text → Text
unfolding is_blank
trim_right [] = []
trim_right (b ∷ r) = let rest = trim_right r in if is_blank (b ∷ r) then [] else b ∷ rest

-- `strings.TrimSpace`
unfoldable pub trim_space : Text → Text
unfolding trim_left trim_right
trim_space s = trim_right (trim_left zero s)

abbrev emit : Text → List Text → List Text
emit w ws = if is_empty w then ws else w ∷ ws

-- The scan of `strings.Fields`: bytes of a begun space to skip, the word so far, the rest.
unfoldable pub fields_from : ℕ → Text → Text → List Text
unfolding space_width
fields_from k w [] = emit w []
fields_from (suc k) w (b ∷ r) = fields_from k w r
fields_from zero w (b ∷ r) = elim (space_width (b ∷ r)) [
  | zero ↦ fields_from zero (w ++ b ∷ []) r
  | suc k ↦ emit w (fields_from k [] r)
]

unfoldable pub fields : Text → List Text
unfolding fields_from
fields = fields_from zero []

-- `strings.Join(words, " ")`
unfoldable pub join_words : List Text → Text
join_words [] = []
join_words (w ∷ []) = w
join_words (w ∷ v ∷ ws) = w ++ (32 ∷ join_words (v ∷ ws))

fields_example : fields (codes "  read  write ") ≡ codes "read" ∷ codes "write" ∷ []
unfolding fields
fields_example = refl

trim_example :
    trim_space (32 ∷ 0xE2 ∷ 0x80 ∷ 0x80 ∷ b'a' ∷ 32 ∷ b'b' ∷ 0xC2 ∷ 0xA0 ∷ []) ≡ codes "a b"
unfolding trim_space
trim_example = refl
