-- ===== src/Audit/Trace/Sorting.antt =====
-- Filtering and sorting of the records in internal/audit/trace.go keep their elements.
use agent_identity_plane.Prelude.{
  ◌≡◌, ◌⊎◌, ◌↔◌, sym, ap, ◌∙◌, inl, inr, Bool, true, List, [], ◌∷◌, ◌++◌, Bool-cases, In,
}
use agent_identity_plane.Audit.Trace.{TraceRecord, Reader, select, record_less, place, sort_records}

module _ {A : Type 0} where
  pub In-append_right : (x : A) (xs ys : List A) → In x ys → In x (xs ++ ys)
  In-append_right x [] ys h = h
  In-append_right x (y ∷ xs) ys h = inr (In-append_right x xs ys h)

  pub In-append : (x : A) (xs ys : List A) → In x (xs ++ ys) → In x xs ⊎ In x ys
  In-append x [] ys h = inr h
  In-append x (y ∷ xs) ys (inl e) = inl (inl e)
  In-append x (y ∷ xs) ys (inr h) = elim (In-append x xs ys h) [
    | inl g ↦ inl (inr g)
    | inr g ↦ inr g
  ]

pub select-In :
    (wanted : TraceRecord → Bool) (x : TraceRecord) (rs : List TraceRecord)
    → In x (select wanted rs)
    → In x rs × (wanted x ≡ true)
unfolding select
select-In wanted x [] h = absurd h
select-In wanted x (r ∷ rs) h = elim (Bool-cases (wanted r)) [
  | inl taken ↦ of_head taken (λ g. select-In wanted x rs g) (rw taken at h)
  | inr left ↦ let (i, w) = select-In wanted x rs (rw left at h) in (inr i, w)
]
  where
    of_head :
        wanted r ≡ true
        → (In x (select wanted rs) → In x rs × (wanted x ≡ true))
        → In x (r ∷ select wanted rs)
        → In x (r ∷ rs) × (wanted x ≡ true)
    of_head taken ih (inl e) = (inl e, ap wanted e ∙ taken)
    of_head taken ih (inr g) = let (i, w) = ih g in (inr i, w)

pub In-select :
    (wanted : TraceRecord → Bool) (x : TraceRecord) (rs : List TraceRecord)
    → In x rs
    → wanted x ≡ true
    → In x (select wanted rs)
unfolding select
In-select wanted x [] h w = absurd h
In-select wanted x (r ∷ rs) (inl e) w = rw (ap wanted (sym e) ∙ w) (inl e)
In-select wanted x (r ∷ rs) (inr h) w = elim (Bool-cases (wanted r)) [
  | inl taken ↦ rw taken (inr (In-select wanted x rs h w))
  | inr left ↦ rw left (In-select wanted x rs h w)
]

module _ (reader : Reader) where
  In-place :
      (x r : TraceRecord) (rs : List TraceRecord) → In x (place reader r rs) ↔ ((x ≡ r) ⊎ In x rs)
  unfolding place
  In-place x r [] = (λ h. h, λ h. h)
  In-place x r (s ∷ rest) = elim (Bool-cases (record_less reader s r)) [
    | inl less ↦ rw less (moved (In-place x r rest))
    | inr most ↦ rw most (λ h. h, λ h. h)
  ]
    where
      moved :
          In x (place reader r rest) ↔ ((x ≡ r) ⊎ In x rest)
          → In x (s ∷ place reader r rest) ↔ ((x ≡ r) ⊎ In x (s ∷ rest))
      moved (there, back) = (to, from)
        where
          to : In x (s ∷ place reader r rest) → (x ≡ r) ⊎ In x (s ∷ rest)
          to (inl e) = inr (inl e)
          to (inr h) = elim (there h) [ inl e ↦ inl e | inr g ↦ inr (inr g) ]

          from : (x ≡ r) ⊎ In x (s ∷ rest) → In x (s ∷ place reader r rest)
          from (inl e) = inr (back (inl e))
          from (inr (inl e)) = inl e
          from (inr (inr g)) = inr (back (inr g))

  pub sort_records-In :
      (x : TraceRecord) (rs : List TraceRecord) → In x (sort_records reader rs) → In x rs
  unfolding sort_records
  sort_records-In x [] h = h
  sort_records-In x (r ∷ rs) h = elim ((In-place x r (sort_records reader rs)).0 h) [
    | inl e ↦ inl e
    | inr g ↦ inr (sort_records-In x rs g)
  ]

  pub In-sort_records :
      (x : TraceRecord) (rs : List TraceRecord) → In x rs → In x (sort_records reader rs)
  unfolding sort_records
  In-sort_records x [] h = h
  In-sort_records x (r ∷ rs) (inl e) = (In-place x r (sort_records reader rs)).1 (inl e)
  In-sort_records x (r ∷ rs) (inr h) =
      (In-place x r (sort_records reader rs)).1 (inr (In-sort_records x rs h))
