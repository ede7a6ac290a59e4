-- ===== src/Prelude/Fold.antt =====
-- `strings.EqualFold` with an ASCII text. Two letters outside ASCII fold with one inside: the long s,
-- U+017F, and the Kelvin sign, U+212A.
use agent_identity_plane.Prelude.Text.{Text, text_eq, lower, codes}
use Prim.Native.Nat.{ℕ, zero, suc}
use mathlib.Core.Path.{◌≡◌, refl}
use mathlib.Core.Bool.{Bool, true, ◌&&◌}
use mathlib.Core.List.{[], ◌∷◌, ◌++◌}
use agent_identity_plane.Prelude.Tests.{◌==◌, if◌then◌else◌}

-- The letter that a text begins with, folded, and how many more bytes it has.
first_letter : ℕ → Text → ℕ × ℕ
first_letter a [] = (lower a, 0)
first_letter a (b ∷ []) = if a == 0xC5 && b == 0xBF then (115, 1) else (lower a, 0)
first_letter a (b ∷ c ∷ r) =
    if a == 0xC5 && b == 0xBF
    then (115, 1)
    else if a == 0xE2 && b == 0x84 && c == 0xAA
    then (107, 2)
    else (lower a, 0)

fold_from : ℕ → Text → Text
unfolding first_letter
fold_from k [] = []
fold_from (suc k) (b ∷ r) = fold_from k r
fold_from zero (b ∷ r) = let (c, more) = first_letter b r in c ∷ fold_from more r

unfoldable pub fold_case : Text → Text
unfolding fold_from
fold_case = fold_from zero

unfoldable pub equal_ascii_fold : Text → Text → Bool
unfolding fold_case
equal_ascii_fold s t = text_eq (fold_case s) (fold_case t)

fold_example :
    equal_ascii_fold (codes "to" ++ (0xE2 ∷ 0x84 ∷ 0xAA ∷ codes "EN")) (codes "Token") ≡ true
unfolding equal_ascii_fold text_eq
fold_example = refl
