-- ===== src/Prelude/Assoc.antt =====
-- Go maps with string keys, as association lists. The code never depends on the order of a map.
use mathlib.Core.Path.{◌≡◌, refl}
use mathlib.Core.Bool.{Bool}
use mathlib.Core.Option.{Option, none, some}
use mathlib.Core.List.{List, [], ◌∷◌}
use native.Mathlib.Omega.{arith}
use agent_identity_plane.Prelude.Tests.{if◌then◌else◌}
use agent_identity_plane.Prelude.Text.{Text, text_eq, text_eq_iff}

abbrev pub Assoc {ℓ} : Type ℓ → Type ℓ
Assoc V = List (Text × V)

module _ {ℓ} {V : Type ℓ} where
  -- `v, ok := m[k]`
  unfoldable pub lookup : Text → Assoc V → Option V
  lookup k [] = none
  lookup k ((j, v) ∷ m) = if text_eq j k then some v else lookup k m

  -- `m[k] = v`
  unfoldable pub insert : Text → V → Assoc V → Assoc V
  insert k v [] = (k, v) ∷ []
  insert k v ((j, w) ∷ m) = if text_eq j k then (k, v) ∷ m else (j, w) ∷ insert k v m

  -- `delete(m, k)`
  unfoldable pub erase : Text → Assoc V → Assoc V
  erase k [] = []
  erase k ((j, w) ∷ m) = let rest = erase k m in if text_eq j k then rest else (j, w) ∷ rest

  -- A loop that deletes the entries whose value meets the test.
  unfoldable pub purge : (V → Bool) → Assoc V → Assoc V
  purge test [] = []
  purge test ((j, w) ∷ m) = let rest = purge test m in if test w then rest else (j, w) ∷ rest

  abbrev keep_unless : (V → Bool) → Option V → Option V
  keep_unless test none = none
  keep_unless test (some v) = if test v then none else some v

  pub lookup-insert :
      (k j : Text) (v : V) (m : Assoc V)
      → lookup j (insert k v m) ≡ (if text_eq k j then some v else lookup j m)
  unfolding lookup insert
  lookup-insert k j v [] = refl
  lookup-insert k j v ((i, w) ∷ m) =
      ground (arith, text_eq_iff k j, text_eq_iff i k, text_eq_iff i j, lookup-insert k j v m)

  pub lookup-erase :
      (k j : Text) (m : Assoc V) → lookup j (erase k m) ≡ (if text_eq k j then none else lookup j m)
  unfolding lookup erase
  lookup-erase k j [] = ground arith
  lookup-erase k j ((i, w) ∷ m) =
      ground (arith, text_eq_iff k j, text_eq_iff i k, text_eq_iff i j, lookup-erase k j m)

  -- No key is listed twice.
  abbrev pub IsMap : Assoc V → Type ℓ
  IsMap [] = Unit
  IsMap ((k, v) ∷ m) = (lookup k m ≡ none) × IsMap m

  pub insert-IsMap : (k : Text) (v : V) (m : Assoc V) → IsMap m → IsMap (insert k v m)
  unfolding insert
  insert-IsMap k v [] h = (unfold lookup in refl, tt)
  insert-IsMap k v ((j, w) ∷ m) (fresh, h) =
      ground (arith, insert-IsMap k v m h, lookup-insert k j v m, text_eq_iff j k, text_eq_iff k j)

  lookup-erase_of_absent :
      (k j : Text) (m : Assoc V) → lookup j m ≡ none → lookup j (erase k m) ≡ none
  lookup-erase_of_absent k j m h = rw lookup-erase (rw h (ground arith))

  pub erase-IsMap : (k : Text) (m : Assoc V) → IsMap m → IsMap (erase k m)
  unfolding erase
  erase-IsMap k [] h = tt
  erase-IsMap k ((j, w) ∷ m) (fresh, h) =
      ground (arith, erase-IsMap k m h, lookup-erase_of_absent k j m fresh)

  pub lookup-purge_of_absent :
      (test : V → Bool) (k : Text) (m : Assoc V)
      → lookup k m ≡ none
      → lookup k (purge test m) ≡ none
  unfolding lookup purge
  lookup-purge_of_absent test k [] h = refl
  lookup-purge_of_absent test k ((j, w) ∷ m) h = ground (arith, lookup-purge_of_absent test k m)

  pub purge-IsMap : (test : V → Bool) (m : Assoc V) → IsMap m → IsMap (purge test m)
  unfolding purge
  purge-IsMap test [] h = tt
  purge-IsMap test ((j, w) ∷ m) (fresh, h) =
      ground (arith, purge-IsMap test m h, lookup-purge_of_absent test j m fresh)

  pub lookup-purge :
      (test : V → Bool) (k : Text) (m : Assoc V)
      → IsMap m
      → lookup k (purge test m) ≡ keep_unless test (lookup k m)
  unfolding lookup purge
  lookup-purge test k [] h = refl
  lookup-purge test k ((j, w) ∷ m) (fresh, h) =
      ground
        (arith, lookup-purge test k m h, lookup-purge_of_absent test j m fresh, text_eq_iff j k)
