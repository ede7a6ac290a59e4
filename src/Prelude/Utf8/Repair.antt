-- ===== src/Prelude/Utf8/Repair.antt =====
-- What `strings.ToValidUTF8` and the truncation of a text leave is valid UTF-8.
use Prim.Native.Nat.{ℕ, zero, suc, ◌≤◌}
use mathlib.Core.Path.{◌≡◌, refl, ap, ◌∙◌}
use mathlib.Core.Logic.{inl, inr}
use mathlib.Core.Bool.{Bool, true, false, ◌&&◌}
use mathlib.Core.List.{[], ◌∷◌}
use native.Mathlib.Omega.{arith}
use agent_identity_plane.Prelude.Tests.{ltb, Bool-cases}
use agent_identity_plane.Prelude.Lists.{length, take}
use agent_identity_plane.Prelude.Text.{Text}
use agent_identity_plane.Prelude.Utf8.{
  lead_2, lead_3, lead_4, tail_byte, width_2, width_3, width_4, rune_width, valid_from, is_valid,
  mark_invalid, to_valid_from, to_valid, longest_valid,
}

pub longest_valid-is_valid : (n : ℕ) (s : Text) → is_valid (longest_valid n s) ≡ true
unfolding longest_valid
longest_valid-is_valid zero s = unfold is_valid in refl
longest_valid-is_valid (suc n) s = ground (arith, longest_valid-is_valid n s)

length-take-le : (n : ℕ) (s : Text) → length (take n s) ≤ n
length-take-le zero s = omega arith
length-take-le (suc n) [] = omega arith
length-take-le (suc n) (b ∷ s) = omega (arith, length-take-le n s)

pub length-longest_valid : (n : ℕ) (s : Text) → length (longest_valid n s) ≤ n
unfolding longest_valid
length-longest_valid zero s = omega arith
length-longest_valid (suc n) s = ground (arith, length-longest_valid n s, length-take-le (suc n) s)

mark_invalid-valid :
    (invalid : Bool) (s : Text)
    → valid_from zero s ≡ true
    → valid_from zero (mark_invalid invalid s) ≡ true
unfolding valid_from rune_width width_2 width_3
mark_invalid-valid true s h = h
mark_invalid-valid false s h = h

wide_1 : (a : ℕ) (r : Text) → ltb a 0x80 ≡ true → rune_width a r ≡ 1
unfolding rune_width
wide_1 a r e = rw e refl

wide_2 : (a b : ℕ) (r : Text) → ltb a 0x80 ≡ false → lead_2 a b ≡ true → rune_width a (b ∷ r) ≡ 2
unfolding rune_width width_2
wide_2 a b r n1 e = rw (n1, e) refl

wide_3 :
    (a b c : ℕ) (r : Text)
    → ltb a 0x80 ≡ false
    → lead_2 a b ≡ false
    → (lead_3 a b && tail_byte c) ≡ true
    → rune_width a (b ∷ c ∷ r) ≡ 3
unfolding rune_width width_2 width_3
wide_3 a b c r n1 n2 e = rw (n1, n2, e) refl

wide_4 :
    (a b c d : ℕ) (r : Text)
    → ltb a 0x80 ≡ false
    → lead_2 a b ≡ false
    → (lead_3 a b && tail_byte c) ≡ false
    → (lead_4 a b && tail_byte c && tail_byte d) ≡ true
    → rune_width a (b ∷ c ∷ d ∷ r) ≡ 4
unfolding rune_width width_2 width_3 width_4
wide_4 a b c d r n1 n2 n3 e = rw (n1, n2, n3, e) refl

wide_0 :
    (a b c d : ℕ) (r : Text)
    → ltb a 0x80 ≡ false
    → lead_2 a b ≡ false
    → (lead_3 a b && tail_byte c) ≡ false
    → (lead_4 a b && tail_byte c && tail_byte d) ≡ false
    → rune_width a (b ∷ c ∷ d ∷ r) ≡ 0
unfolding rune_width width_2 width_3 width_4
wide_0 a b c d r n1 n2 n3 n4 = rw (n1, n2, n3, n4) refl

to_valid_from-invalid :
    (invalid : Bool) (a : ℕ) (r : Text)
    → rune_width a r ≡ 0
    → to_valid_from zero invalid (a ∷ r) ≡ mark_invalid invalid (to_valid_from zero true r)
unfolding to_valid_from
to_valid_from-invalid invalid a r e =
    ap
      (λ w. elim w [
        | zero ↦ mark_invalid invalid (to_valid_from zero true r)
        | suc k ↦ a ∷ to_valid_from k false r
      ])
      e

to_valid_from-rune :
    (invalid : Bool) (a k : ℕ) (r : Text)
    → rune_width a r ≡ suc k
    → to_valid_from zero invalid (a ∷ r) ≡ a ∷ to_valid_from k false r
unfolding to_valid_from
to_valid_from-rune invalid a k r e =
    ap
      (λ w. elim w [
        | zero ↦ mark_invalid invalid (to_valid_from zero true r)
        | suc j ↦ a ∷ to_valid_from j false r
      ])
      e

valid_from-rune :
    (a k : ℕ) (r : Text) → rune_width a r ≡ suc k → valid_from zero (a ∷ r) ≡ valid_from k r
unfolding valid_from
valid_from-rune a k r e = ap (λ w. elim w [ zero ↦ false | suc j ↦ valid_from j r ]) e

-- A rune is kept, and what follows it is valid.
kept :
    (invalid : Bool) (a : ℕ) (r out : Text) (k : ℕ)
    → rune_width a r ≡ suc k
    → rune_width a out ≡ suc k
    → to_valid_from k false r ≡ out
    → valid_from k out ≡ true
    → valid_from zero (to_valid_from zero invalid (a ∷ r)) ≡ true
kept invalid a r out k e f same h =
    ap (valid_from zero) (to_valid_from-rune invalid a k r e ∙ ap (λ t. a ∷ t) same)
    ∙ valid_from-rune a k out f
    ∙ h

-- What is made valid is valid.
to_valid_from-valid :
    (invalid : Bool) (s : Text) → valid_from zero (to_valid_from zero invalid s) ≡ true
unfolding valid_from to_valid_from rune_width width_2 width_3 width_4
to_valid_from-valid invalid [] = refl
to_valid_from-valid invalid (a ∷ []) = ground (arith, mark_invalid-valid invalid [])
to_valid_from-valid invalid (a ∷ b ∷ []) = ground (
  arith,
  mark_invalid-valid invalid (to_valid_from zero true (b ∷ [])),
  to_valid_from-valid true (b ∷ []),
  to_valid_from-valid false (b ∷ []),
)
to_valid_from-valid invalid (a ∷ b ∷ c ∷ []) = ground (
  arith,
  mark_invalid-valid invalid (to_valid_from zero true (b ∷ c ∷ [])),
  to_valid_from-valid true (b ∷ c ∷ []),
  to_valid_from-valid false (b ∷ c ∷ []),
  to_valid_from-valid false (c ∷ []),
)
to_valid_from-valid invalid (a ∷ b ∷ c ∷ d ∷ r) = elim (Bool-cases (ltb a 0x80)) [
  | inl e ↦
      kept invalid a (b ∷ c ∷ d ∷ r) (to_valid_from zero false (b ∷ c ∷ d ∷ r)) zero
        (wide_1 a (b ∷ c ∷ d ∷ r) e) (wide_1 a (to_valid_from zero false (b ∷ c ∷ d ∷ r)) e) refl
        (to_valid_from-valid false (b ∷ c ∷ d ∷ r))
  | inr n1 ↦ elim (Bool-cases (lead_2 a b)) [
    | inl e ↦
        kept invalid a (b ∷ c ∷ d ∷ r) (b ∷ to_valid_from zero false (c ∷ d ∷ r)) 1
          (wide_2 a b (c ∷ d ∷ r) n1 e) (wide_2 a b (to_valid_from zero false (c ∷ d ∷ r)) n1 e)
          refl (to_valid_from-valid false (c ∷ d ∷ r))
    | inr n2 ↦ elim (Bool-cases (lead_3 a b && tail_byte c)) [
      | inl e ↦
          kept invalid a (b ∷ c ∷ d ∷ r) (b ∷ c ∷ to_valid_from zero false (d ∷ r)) 2
            (wide_3 a b c (d ∷ r) n1 n2 e) (wide_3 a b c (to_valid_from zero false (d ∷ r)) n1 n2 e)
            refl (to_valid_from-valid false (d ∷ r))
      | inr n3 ↦ elim (Bool-cases (lead_4 a b && tail_byte c && tail_byte d)) [
        | inl e ↦
            kept invalid a (b ∷ c ∷ d ∷ r) (b ∷ c ∷ d ∷ to_valid_from zero false r) 3
              (wide_4 a b c d r n1 n2 n3 e) (wide_4 a b c d (to_valid_from zero false r) n1 n2 n3 e)
              refl (to_valid_from-valid false r)
        | inr n4 ↦
            rw (to_valid_from-invalid invalid a (b ∷ c ∷ d ∷ r) (wide_0 a b c d r n1 n2 n3 n4)) (
              mark_invalid-valid invalid (to_valid_from zero true (b ∷ c ∷ d ∷ r))
                (to_valid_from-valid true (b ∷ c ∷ d ∷ r)))
      ]
    ]
  ]
]

pub to_valid-is_valid : (s : Text) → is_valid (to_valid s) ≡ true
unfolding is_valid to_valid
to_valid-is_valid s = to_valid_from-valid false s
