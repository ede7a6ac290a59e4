-- ===== src/Token/Scope/Sorting.antt =====
-- `sortStrings` of internal/token/claims.go keeps the elements and puts them in order, so that what
-- it returns does not depend on the order in which the map is read.
use agent_identity_plane.Prelude.{
  ◌≡◌, refl, sym, ap, ◌∙◌, true, false, ◌||◌, List, [], ◌∷◌, arith, All, inl, inr, Bool-cases,
}
use agent_identity_plane.Prelude.Text.{
  Text, text_eq, text_eq_iff, text_eq_sym, text_lt, text_lt_irrefl, text_lt_asym, text_lt_trans,
  text_lt_total,
}
use agent_identity_plane.Token.Scope.{
  ScopeNames, has, sink, sink_all, reverse_onto, sort_strings, add, add_all,
}
use agent_identity_plane.Token.Scope.Sets.{has-add}

has-sink : (x : Text) (l : List Text) (t : Text) → has (sink x l) t ≡ (has l t || text_eq x t)
unfolding has sink
has-sink x [] t = ground arith
has-sink x (y ∷ l) t = ground (arith, has-sink x l t)

has-sink_all : (l s : List Text) (t : Text) → has (sink_all l s) t ≡ (has l t || has s t)
unfolding has sink_all
has-sink_all l [] t = ground arith
has-sink_all l (x ∷ s) t = ground (arith, has-sink_all (sink x l) s t, has-sink x l t)

has-reverse_onto :
    (out l : List Text) (t : Text) → has (reverse_onto out l) t ≡ (has out t || has l t)
unfolding has reverse_onto
has-reverse_onto out [] t = ground arith
has-reverse_onto out (x ∷ l) t = ground (arith, has-reverse_onto (x ∷ out) l t)

-- Sorting keeps membership.
pub has-sort_strings : (s : List Text) (t : Text) → has (sort_strings s) t ≡ has s t
unfolding sort_strings has
has-sort_strings s t = has-reverse_onto [] (sink_all [] s) t ∙ has-sink_all [] s t

module _ (P : Text → Type 0) where
  All-sink : (x : Text) (l : List Text) → P x → All P l → All P (sink x l)
  unfolding sink
  All-sink x [] h k = (h, tt)
  All-sink x (y ∷ l) h (g, k) = ground (arith, All-sink x l h k)

  All-sink_all : (l s : List Text) → All P l → All P s → All P (sink_all l s)
  unfolding sink_all
  All-sink_all l [] h k = h
  All-sink_all l (x ∷ s) h (g, k) = All-sink_all (sink x l) s (All-sink x l g h) k

  All-reverse_onto : (out l : List Text) → All P out → All P l → All P (reverse_onto out l)
  unfolding reverse_onto
  All-reverse_onto out [] h k = h
  All-reverse_onto out (x ∷ l) h (g, k) = All-reverse_onto (x ∷ out) l (g, h) k

  pub All-sort_strings : (s : List Text) → All P s → All P (sort_strings s)
  unfolding sort_strings
  All-sort_strings s h = All-reverse_onto [] (sink_all [] s) tt (All-sink_all [] s tt h)

-- No text twice.
abbrev pub IsDistinct : ScopeNames → Type 0
IsDistinct [] = Unit
IsDistinct (s ∷ set) = (has set s ≡ false) × IsDistinct set

-- Strictly falling: each element lies above all that follow.
abbrev Falling : List Text → Type 0
Falling [] = Unit
Falling (x ∷ l) = All (λ y. text_lt y x ≡ true) l × Falling l

above_trans :
    (x y : Text) (l : List Text)
    → text_lt y x ≡ true
    → All (λ z. text_lt z y ≡ true) l
    → All (λ z. text_lt z x ≡ true) l
above_trans x y [] h k = tt
above_trans x y (z ∷ l) h (g, k) = (text_lt_trans z y x g h, above_trans x y l h k)

lt_of_differ : (x y : Text) → text_lt x y ≡ false → text_eq y x ≡ false → text_lt y x ≡ true
lt_of_differ x y h k = ground (arith, text_lt_total x y, text_eq_iff y x)

sink-Falling : (x : Text) (l : List Text) → has l x ≡ false → Falling l → Falling (sink x l)
unfolding has sink
sink-Falling x [] h k = (tt, tt)
sink-Falling x (y ∷ l) h (g, k) = elim (Bool-cases (text_lt x y)) [
  | inl lt ↦ rw lt (
    All-sink (λ z. text_lt z y ≡ true) x l lt g,
    sink-Falling x l (ground (arith, text_eq_iff y x)) k,
  )
  | inr ge ↦
      let lt : text_lt y x ≡ true = lt_of_differ x y ge (ground arith) in
      rw ge ((lt, above_trans x y l lt g), (g, k))
]

sink_all-Falling :
    (l s : List Text)
    → Falling l
    → IsDistinct s
    → ((t : Text) → has s t ≡ true → has l t ≡ false)
    → Falling (sink_all l s)
unfolding sink_all
sink_all-Falling l [] f d h = f
sink_all-Falling l (x ∷ s) f (new, d) h =
    sink_all-Falling (sink x l) s
      (sink-Falling x l (h x (unfold has in ground (arith, text_eq_iff x x))) f) d
      (λ t k. unfold has in ground (arith, has-sink x l t, h t, text_eq_iff x t))

absent_of_above : (x : Text) (l : List Text) → All (λ y. text_lt y x ≡ true) l → has l x ≡ false
unfolding has
absent_of_above x [] h = refl
absent_of_above x (y ∷ l) (g, h) =
    ground (arith, absent_of_above x l h, text_lt_irrefl x, text_eq_iff y x)

below_of_has :
    (x t : Text) (l : List Text)
    → All (λ y. text_lt y x ≡ true) l
    → has l t ≡ true
    → text_lt t x ≡ true
unfolding has
below_of_has x t [] h k = cc
below_of_has x t (y ∷ l) (g, h) k = ground (arith, below_of_has x t l h, text_eq_iff y t)

heads_agree :
    (x y : Text) (a b : List Text)
    → All (λ z. text_lt z x ≡ true) a
    → All (λ z. text_lt z y ≡ true) b
    → ((t : Text) → has (x ∷ a) t ≡ has (y ∷ b) t)
    → x ≡ y
unfolding has
heads_agree x y a b fx gy h = ground (
  arith,
  h x,
  h y,
  text_eq_iff x x,
  text_eq_iff y y,
  text_eq_iff x y,
  text_eq_iff y x,
  below_of_has y x b gy,
  below_of_has x y a fx,
  text_lt_asym x y,
)

tails_agree :
    (x y : Text) (a b : List Text)
    → x ≡ y
    → All (λ z. text_lt z x ≡ true) a
    → All (λ z. text_lt z y ≡ true) b
    → ((t : Text) → has (x ∷ a) t ≡ has (y ∷ b) t)
    → (t : Text) → has a t ≡ has b t
unfolding has
tails_agree x y a b e fx gy h t =
    ground
      (arith, h t, text_eq_iff x t, text_eq_iff y t, absent_of_above x a fx, absent_of_above y b gy)

-- Falling lists with the same elements are equal.
Falling-ext : (a b : List Text) → Falling a → Falling b → ((t : Text) → has a t ≡ has b t) → a ≡ b
unfolding has
Falling-ext [] [] f g h = refl
Falling-ext [] (y ∷ b) f g h = ground (arith, h y, text_eq_iff y y)
Falling-ext (x ∷ a) [] f g h = ground (arith, h x, text_eq_iff x x)
Falling-ext (x ∷ a) (y ∷ b) (fx, f) (gy, g) h =
    let e : x ≡ y = heads_agree x y a b fx gy h in
    let same : (t : Text) → has a t ≡ has b t = tails_agree x y a b e fx gy h in
    cc (e, Falling-ext a b f g same)

-- The elements of a set, in whatever order they are read, give one sorted list.
pub sort_strings-ext :
    (s t : ScopeNames)
    → IsDistinct s
    → IsDistinct t
    → ((x : Text) → has s x ≡ has t x)
    → sort_strings s ≡ sort_strings t
unfolding sort_strings
sort_strings-ext s t d e h = ap (reverse_onto []) (
    Falling-ext (sink_all [] s) (sink_all [] t)
      (sink_all-Falling [] s tt d (λ x k. unfold has in refl))
      (sink_all-Falling [] t tt e (λ x k. unfold has in refl))
      (λ x. unfold has in (has-sink_all [] s x ∙ h x ∙ sym (has-sink_all [] t x))))

pub add-IsDistinct : (set : ScopeNames) (p : Text) → IsDistinct set → IsDistinct (add set p)
unfolding add has
add-IsDistinct [] p d = (refl, tt)
add-IsDistinct (s ∷ set) p (new, d) =
    ground (arith, add-IsDistinct set p d, has-add set p s, text_eq_sym s p)

pub add_all-IsDistinct :
    (out : ScopeNames) (ps : List Text) → IsDistinct out → IsDistinct (add_all out ps)
unfolding add_all
add_all-IsDistinct out [] d = d
add_all-IsDistinct out (p ∷ ps) d = add_all-IsDistinct (add out p) ps (add-IsDistinct out p d)
