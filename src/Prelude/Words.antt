-- ===== src/Prelude/Words.antt =====
-- `strings.Fields` yields words, and joining words by spaces is undone by it.
use Prim.Native.Nat.{ℕ, zero, suc}
use mathlib.Core.Path.{◌≡◌, refl, sym, ap, ◌∙◌}
use mathlib.Core.Logic.{◌≢◌, ◌⊎◌, inl, inr}
use mathlib.Core.List.{List, [], ◌∷◌, ◌++◌, append-nil, append_assoc}
use native.Mathlib.Omega.{arith}
use agent_identity_plane.Prelude.Tests.{if◌then◌else◌}
use agent_identity_plane.Prelude.Lists.{All}
use agent_identity_plane.Prelude.Text.{Text, is_empty}
use agent_identity_plane.Prelude.Fields.{space_width, fields_from, fields, join_words}

-- No space begins anywhere in the text, with `r` after it.
abbrev pub NoSpaceBefore : Text → Text → Type 0
NoSpaceBefore [] r = Unit
NoSpaceBefore (b ∷ w) r = (space_width (b ∷ w ++ r) ≡ 0) × NoSpaceBefore w r

-- A word: not empty, and with no space in it.
abbrev pub IsWord : Text → Type 0
IsWord w = (w ≢ []) × NoSpaceBefore w []

width_of_prefix : (b : ℕ) (w r : Text) → space_width (b ∷ w ++ r) ≡ 0 → space_width (b ∷ w) ≡ 0
unfolding space_width
width_of_prefix b [] [] h = h
width_of_prefix b [] (c ∷ []) h = ground arith
width_of_prefix b [] (c ∷ d ∷ r) h = ground arith
width_of_prefix b (c ∷ []) [] h = h
width_of_prefix b (c ∷ []) (d ∷ r) h = ground arith
width_of_prefix b (c ∷ d ∷ w) r h = h

width_before_space :
    (b : ℕ) (w t : Text) → space_width (b ∷ w) ≡ 0 → space_width (b ∷ w ++ 32 ∷ t) ≡ 0
unfolding space_width
width_before_space b [] [] h = ground arith
width_before_space b [] (d ∷ t) h = ground arith
width_before_space b (c ∷ []) t h = ground arith
width_before_space b (c ∷ d ∷ w) t h = h

NoSpace-prefix : (w r : Text) → NoSpaceBefore w r → NoSpaceBefore w []
NoSpace-prefix [] r h = tt
NoSpace-prefix (b ∷ w) r (e, h) = (rw append-nil (width_of_prefix b w r e), NoSpace-prefix w r h)

NoSpace-space : (w t : Text) → NoSpaceBefore w [] → NoSpaceBefore w (32 ∷ t)
NoSpace-space [] t h = tt
NoSpace-space (b ∷ w) t (e, h) =
    (width_before_space b w t (rw append-nil at e), NoSpace-space w t h)

NoSpace-snoc :
    (w : Text) (b : ℕ) (r : Text)
    → NoSpaceBefore w (b ∷ r)
    → space_width (b ∷ r) ≡ 0
    → NoSpaceBefore (w ++ b ∷ []) r
NoSpace-snoc [] b r h e = (e, tt)
NoSpace-snoc (a ∷ w) b r (d, h) e = (rw append_assoc d, NoSpace-snoc w b r h e)

-- The scan steps over a byte that begins no space.
fields_from-step :
    (w : Text) (b : ℕ) (r : Text)
    → space_width (b ∷ r) ≡ 0
    → fields_from zero w (b ∷ r) ≡ fields_from zero (w ++ b ∷ []) r
unfolding fields_from
fields_from-step w b r e = rw (e, fields_from) refl

-- The scan reads a word whole.
fields_from-word :
    (p w r : Text) → NoSpaceBefore w r → fields_from zero p (w ++ r) ≡ fields_from zero (p ++ w) r
fields_from-word p [] r h = rw append-nil
fields_from-word p (b ∷ w) r (e, h) =
    fields_from-step p b (w ++ r) e
    ∙ fields_from-word (p ++ b ∷ []) w r h
    ∙ ap (λ q. fields_from zero q r) (append_assoc p (b ∷ []) w)

fields_from-space : (b : ℕ) (w t : Text) → fields_from zero (b ∷ w) (32 ∷ t) ≡ (b ∷ w) ∷ fields t
unfolding fields fields_from
fields_from-space b w t = refl

fields_from-end : (b : ℕ) (w : Text) → fields_from zero (b ∷ w) [] ≡ (b ∷ w) ∷ []
unfolding fields_from
fields_from-end b w = refl

fields-word : (w : Text) → IsWord w → fields w ≡ w ∷ []
unfolding fields
fields-word [] (h, n) = absurd (h refl)
fields-word (b ∷ w) (h, n) =
    ap (fields_from zero []) (sym (append-nil (b ∷ w)))
    ∙ fields_from-word [] (b ∷ w) [] n
    ∙ fields_from-end b w

fields-word_space : (w t : Text) → IsWord w → fields (w ++ 32 ∷ t) ≡ w ∷ fields t
fields-word_space [] t (h, n) = absurd (h refl)
fields-word_space (b ∷ w) t (h, n) =
    unfold fields in
    (fields_from-word [] (b ∷ w) (32 ∷ t) (NoSpace-space (b ∷ w) t n) ∙ fields_from-space b w t)

-- Splitting undoes joining.
pub fields-join_words : (ws : List Text) → All IsWord ws → fields (join_words ws) ≡ ws
unfolding join_words
fields-join_words [] h = unfold fields fields_from in refl
fields-join_words (w ∷ []) (h, t) = fields-word w h
fields-join_words (w ∷ v ∷ ws) (h, t) =
    fields-word_space w (join_words (v ∷ ws)) h ∙ ap (λ l. w ∷ l) (fields-join_words (v ∷ ws) t)

-- What the scan has read so far: a word, or nothing while it skips a space.
abbrev InScan : ℕ → Text → Text → Type 0
InScan zero w r = NoSpaceBefore w r
InScan (suc k) w r = w ≡ []

abbrev emit_word : Text → List Text → List Text
emit_word w ws = if is_empty w then ws else w ∷ ws

All-emit :
    (w : Text) (ws : List Text) → NoSpaceBefore w [] → All IsWord ws → All IsWord (emit_word w ws)
All-emit [] ws n h = h
All-emit (b ∷ w) ws n h = ((λ e. cc, n), h)

NoSpace-InScan : (k : ℕ) (w r : Text) → InScan k w r → NoSpaceBefore w []
NoSpace-InScan zero w r h = NoSpace-prefix w r h
NoSpace-InScan (suc k) w r h = rw h tt

InScan-nil : (k : ℕ) (r : Text) → InScan k [] r
InScan-nil zero r = tt
InScan-nil (suc k) r = refl

ℕ-cases : (n : ℕ) → (n ≡ 0) ⊎ ((k : ℕ) × (n ≡ suc k))
ℕ-cases zero = inl refl
ℕ-cases (suc k) = inr (k, refl)

fields_from-All : (k : ℕ) (w r : Text) → InScan k w r → All IsWord (fields_from k w r)
unfolding fields_from
fields_from-All zero w [] h = All-emit w [] (NoSpace-InScan zero w [] h) tt
fields_from-All (suc k) w [] h = All-emit w [] (NoSpace-InScan (suc k) w [] h) tt
fields_from-All (suc k) w (b ∷ r) h = fields_from-All k w r (rw h (InScan-nil k r))
fields_from-All zero w (b ∷ r) h = elim (ℕ-cases (space_width (b ∷ r))) [
  | inl e ↦
      rw (fields_from-step w b r e) (fields_from-All zero (w ++ b ∷ []) r (NoSpace-snoc w b r h e))
  | inr (k, e) ↦
      rw (e, fields_from)
        (All-emit w (fields_from k [] r) (NoSpace-prefix w (b ∷ r) h)
          (fields_from-All k [] r (InScan-nil k r)))
]

-- Every field is a word.
pub fields-IsWord : (s : Text) → All IsWord (fields s)
unfolding fields
fields-IsWord s = fields_from-All zero [] s tt
