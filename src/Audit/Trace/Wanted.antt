-- ===== src/Audit/Trace/Wanted.antt =====
-- The transactions that a query of internal/audit/trace.go asks for.
use agent_identity_plane.Prelude.{
  ◌≡◌, ◌≢◌, ◌⊎◌, refl, sym, ap, ◌∙◌, inl, inr, Bool, true, false, ◌&&◌, ◌||◌, List, [], ◌∷◌, Option,
  some, arith, Bool-cases, In,
}
use agent_identity_plane.Prelude.Text.{Text, text_eq, text_eq_iff, is_empty}
use agent_identity_plane.Token.Claims.{contains}
use agent_identity_plane.Audit.Trace.{TraceRecord, Query, txns_of, wanted_txns}

-- A verified record has the identifier.
abbrev pub Found : Text → List TraceRecord → Type 0
Found jti rs = (s : TraceRecord) × In s rs × (s.jti ≡ jti)

-- A verified record has the identifier and the transaction.
abbrev pub Names : Text → Text → List TraceRecord → Type 0
Names jti x rs = (s : TraceRecord) × In s rs × (s.jti ≡ jti) × (s.txn ≡ x)

pub is_empty→≡ : (t : Text) → is_empty t ≡ true → t ≡ []
is_empty→≡ [] h = refl
is_empty→≡ (b ∷ t) h = cc

pub not_empty→≢ : (t : Text) → is_empty t ≡ false → t ≢ []
not_empty→≢ t h e = ground (arith, h, ap is_empty e)

pub ≢→not_empty : (t : Text) → t ≢ [] → is_empty t ≡ false
≢→not_empty [] h = absurd (h refl)
≢→not_empty (b ∷ t) h = refl

text_eq_of : (s t : Text) → s ≡ t → text_eq s t ≡ true
text_eq_of s t = (text_eq_iff s t).1

Names-later :
    (jti x : Text) (r : TraceRecord) (rs : List TraceRecord) → Names jti x rs → Names jti x (r ∷ rs)
Names-later jti x r rs (s, i, e, f) = (s, inr i, e, f)

txns_of-Names :
    (jti x : Text) (rs : List TraceRecord)
    → contains (txns_of jti rs).0 x ≡ true
    → (x ≢ []) × Names jti x rs
unfolding txns_of contains
txns_of-Names jti x [] h = cc
txns_of-Names jti x (r ∷ rs) h = elim (Bool-cases (text_eq r.jti jti)) [
  | inr other ↦ let (n, m) = txns_of-Names jti x rs (rw other at h) in (n, Names-later jti x r rs m)
  | inl same ↦ elim (Bool-cases (is_empty r.txn)) [
    | inl bare ↦
        let (n, m) = txns_of-Names jti x rs (rw bare at (rw same at h)) in
        (n, Names-later jti x r rs m)
    | inr full ↦ elim (Bool-cases (text_eq r.txn x)) [
      | inl this ↦
          let e = (text_eq_iff r.txn x).0 this in
          (λ z. not_empty→≢ r.txn full (e ∙ z), (r, inl refl, (text_eq_iff r.jti jti).0 same, e))
      | inr that ↦
          let (n, m) = txns_of-Names jti x rs (rw that at (rw full at (rw same at h))) in
          (n, Names-later jti x r rs m)
    ]
  ]
]

Names-txns_of :
    (jti x : Text) (rs : List TraceRecord)
    → x ≢ []
    → Names jti x rs
    → contains (txns_of jti rs).0 x ≡ true
unfolding txns_of contains
Names-txns_of jti x [] n (s, i, e, f) = absurd i
Names-txns_of jti x (r ∷ rs) n (s, inl here, e, f) =
    rw (text_eq_of r.jti jti (ap (λ (v : TraceRecord). v.jti) (sym here) ∙ e)) (
      rw (≢→not_empty r.txn (λ z. n (sym f ∙ ap (λ (v : TraceRecord). v.txn) here ∙ z)))
        (rw (text_eq_of r.txn x (ap (λ (v : TraceRecord). v.txn) (sym here) ∙ f)) refl))
Names-txns_of jti x (r ∷ rs) n (s, inr i, e, f) =
    let ih = Names-txns_of jti x rs n (s, i, e, f) in
    elim (Bool-cases (text_eq r.jti jti)) [
      | inr other ↦ rw other ih
      | inl same ↦ elim (Bool-cases (is_empty r.txn)) [
        | inl bare ↦ rw same (rw bare ih)
        | inr full ↦ rw same (rw full (rw ih (or_true (text_eq r.txn x))))
      ]
    ]
  where
    or_true : (b : Bool) → (b || true) ≡ true
    or_true b = ground arith

txns_of-Found : (jti : Text) (rs : List TraceRecord) → (txns_of jti rs).1 ≡ true → Found jti rs
unfolding txns_of
txns_of-Found jti [] h = cc
txns_of-Found jti (r ∷ rs) h = elim (Bool-cases (text_eq r.jti jti)) [
  | inl same ↦ (r, inl refl, (text_eq_iff r.jti jti).0 same)
  | inr other ↦ let (s, i, e) = txns_of-Found jti rs (rw other at h) in (s, inr i, e)
]

Found-txns_of : (jti : Text) (rs : List TraceRecord) → Found jti rs → (txns_of jti rs).1 ≡ true
unfolding txns_of
Found-txns_of jti [] (s, i, e) = absurd i
Found-txns_of jti (r ∷ rs) (s, inl here, e) =
    rw (text_eq_of r.jti jti (ap (λ (v : TraceRecord). v.jti) (sym here) ∙ e)) refl
Found-txns_of jti (r ∷ rs) (s, inr i, e) = elim (Bool-cases (text_eq r.jti jti)) [
  | inl same ↦ rw same refl
  | inr other ↦ rw other (Found-txns_of jti rs (s, i, e))
]

-- A transaction is asked for where it is that of the query, if the query names one, and a verified record
-- has it together with the query's identifier, if the query names one.
abbrev pub Asked : Query → List TraceRecord → Text → Type 0
Asked q verified x =
    (x ≢ []) × ((q.txn ≡ []) ⊎ (x ≡ q.txn)) × ((q.jti ≡ []) ⊎ Names q.jti x verified)

-- The ways in which the query has transactions.
abbrev TxnsOf : Query → List TraceRecord → List Text → Type 0
TxnsOf q verified txns =
    ((q.jti ≡ []) × (q.txn ∷ [] ≡ txns))
    ⊎ ((q.jti ≢ []) × (q.txn ≡ []) × ((txns_of q.jti verified).0 ≡ txns))
    ⊎ ((q.jti ≢ []) × Names q.jti q.txn verified × (q.txn ≢ []) × (q.txn ∷ [] ≡ txns))

some_txns : (a b : List Text) → ◌≡◌ {A = Option (List Text)} (some a) (some b) → a ≡ b
some_txns a b e = cc

wanted_txns-TxnsOf :
    (q : Query) (verified : List TraceRecord) (txns : List Text)
    → wanted_txns q verified ≡ some txns
    → TxnsOf q verified txns
unfolding wanted_txns
wanted_txns-TxnsOf q verified txns h = elim (Bool-cases (is_empty q.jti)) [
  | inl bare ↦ inl (is_empty→≡ q.jti bare, some_txns (q.txn ∷ []) txns (rw bare at h))
  | inr by_jti ↦ elim (Bool-cases (txns_of q.jti verified).1) [
    | inr missing ↦ cc (rw missing at (rw by_jti at h))
    | inl found ↦ elim (Bool-cases (is_empty q.txn)) [
      | inl open_txn ↦ inr (
          inl (
            not_empty→≢ q.jti by_jti,
            is_empty→≡ q.txn open_txn,
            some_txns (txns_of q.jti verified).0 txns
                (rw open_txn at (rw found at (rw by_jti at h))),
          ))
      | inr by_txn ↦ elim (Bool-cases (contains (txns_of q.jti verified).0 q.txn)) [
        | inr foreign ↦ cc (rw foreign at (rw by_txn at (rw found at (rw by_jti at h))))
        | inl own ↦ inr (
            inr (
              not_empty→≢ q.jti by_jti,
              (txns_of-Names q.jti q.txn verified own).1,
              not_empty→≢ q.txn by_txn,
              some_txns (q.txn ∷ []) txns (rw own at (rw by_txn at (rw found at (rw by_jti at h)))),
            ))
      ]
    ]
  ]
]

contains_one : (t x : Text) → contains (t ∷ []) x ≡ true → t ≡ x
unfolding contains
contains_one t x h = ground (arith, text_eq_iff t x)

pub wanted_txns-Asked :
    (q : Query) (verified : List TraceRecord) (txns : List Text) (x : Text)
    → wanted_txns q verified ≡ some txns
    → contains txns x ≡ true
    → x ≢ []
    → Asked q verified x
wanted_txns-Asked q verified txns x h c n = elim (wanted_txns-TxnsOf q verified txns h) [
  | inl (bare, one) ↦
      (n, inr (sym (contains_one q.txn x (ap (λ t. contains t x) one ∙ c))), inl bare)
  | inr (inl (by_jti, open_txn, all)) ↦
      (n, inl open_txn, inr (txns_of-Names q.jti x verified (ap (λ t. contains t x) all ∙ c)).1)
  | inr (inr (by_jti, (s, i, e, f), by_txn, one)) ↦
      let same = contains_one q.txn x (ap (λ t. contains t x) one ∙ c) in
      (n, inr (sym same), inr (s, i, e, f ∙ same))
]

pub wanted_txns-open :
    (q : Query) (verified : List TraceRecord) (txns : List Text)
    → wanted_txns q verified ≡ some txns
    → q.jti ≢ []
    → (q.txn ≡ []) ⊎ Asked q verified q.txn
wanted_txns-open q verified txns h n = elim (wanted_txns-TxnsOf q verified txns h) [
  | inl (bare, one) ↦ absurd (n bare)
  | inr (inl (by_jti, open_txn, all)) ↦ inl open_txn
  | inr (inr (by_jti, names, by_txn, one)) ↦ inr (by_txn, inr refl, inr names)
]

pub Found-wanted_txns :
    (q : Query) (verified : List TraceRecord)
    → q.jti ≢ []
    → q.txn ≡ []
    → Found q.jti verified
    → wanted_txns q verified ≡ some (txns_of q.jti verified).0
unfolding wanted_txns
Found-wanted_txns q verified n open_txn found =
    rw (≢→not_empty q.jti n)
      (rw (Found-txns_of q.jti verified found) (rw (ap is_empty open_txn) refl))

pub Asked-wanted_txns :
    (q : Query) (verified : List TraceRecord) (x : Text)
    → (is_empty q.txn && is_empty q.jti) ≡ false
    → Asked q verified x
    → (txns : List Text) × (wanted_txns q verified ≡ some txns) × (contains txns x ≡ true)
unfolding wanted_txns contains
Asked-wanted_txns q verified x some_query (n, txn, inl bare) =
    (q.txn ∷ [], rw (ap is_empty bare) refl, rw (text_eq_of q.txn x (named txn)) refl)
  where
    named : (q.txn ≡ []) ⊎ (x ≡ q.txn) → q.txn ≡ x
    named (inl open_txn) =
        absurd (ground (arith, some_query, ap is_empty open_txn, ap is_empty bare))
    named (inr e) = sym e
Asked-wanted_txns q verified x some_query (n, txn, inr names) =
    by_jti (Bool-cases (is_empty q.jti)) txn
  where
    found : (txns_of q.jti verified).1 ≡ true
    found = let (s, i, e, f) = names in Found-txns_of q.jti verified (s, i, e)

    listed : contains (txns_of q.jti verified).0 x ≡ true
    listed = Names-txns_of q.jti x verified n names

    by_jti :
        (is_empty q.jti ≡ true) ⊎ (is_empty q.jti ≡ false)
        → (q.txn ≡ []) ⊎ (x ≡ q.txn)
        → (txns : List Text) × (wanted_txns q verified ≡ some txns) × (contains txns x ≡ true)
    by_jti (inl bare) (inl open_txn) =
        absurd (ground (arith, some_query, ap is_empty open_txn, bare))
    by_jti (inl bare) (inr e) = (q.txn ∷ [], rw bare refl, rw (text_eq_of q.txn x (sym e)) refl)
    by_jti (inr given) (inl open_txn) =
        ((txns_of q.jti verified).0, rw given (rw found (rw (ap is_empty open_txn) refl)), listed)
    by_jti (inr given) (inr e) = (
      q.txn ∷ [],
      rw given (
          rw found (
            rw (≢→not_empty q.txn (λ z. n (e ∙ z)))
              (rw (ap (contains (txns_of q.jti verified).0) (sym e) ∙ listed) refl))),
      rw (text_eq_of q.txn x (sym e)) refl,
    )
