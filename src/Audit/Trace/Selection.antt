-- ===== src/Audit/Trace/Selection.antt =====
-- Which records a trace has (internal/audit/trace.go).
use agent_identity_plane.Prelude.{
  ◌≡◌, ◌≢◌, false, not, ◌||◌, arith, fail_if-eq-ok, ◌⊎◌, ◌↔◌, refl, sym, ap, ◌∙◌, inl, inr, Bool,
  true, ◌&&◌, List, [], ◌++◌, Option, none, some, ok, fail_if, >>=-eq-ok, ok-injective, Bool-cases,
  In, In-append_left,
}
use agent_identity_plane.Prelude.Text.{Text, text_eq, text_eq_iff, is_empty}
use agent_identity_plane.Token.Claims.{contains}
use agent_identity_plane.Audit.{Codec}
use agent_identity_plane.Audit.Trace.Wanted.{
  Asked, is_empty→≡, not_empty→≢, ≢→not_empty, wanted_txns-Asked, wanted_txns-open,
  Found-wanted_txns, Asked-wanted_txns,
}
use agent_identity_plane.Audit.Trace.{
  query_empty, TraceRecord, Query, Reader, txns_of, FileText, wants_verified, wants_unverified,
  select, load_audit_file, load_generic_file, load_all, wanted_txns, trimmed, select_records, trace,
}
use agent_identity_plane.Audit.Trace.Sorting.{
  In-append, In-append_right, select-In, In-select, sort_records-In, In-sort_records,
}

some-injective : (a b : List Text) → ◌≡◌ {A = Option (List Text)} (some a) (some b) → a ≡ b
some-injective a b e = cc

and_left : (a b : Bool) → (a && b) ≡ true → a ≡ true
and_left a b h = ground arith

and_right : (a b : Bool) → (a && b) ≡ true → b ≡ true
and_right a b h = ground arith

not-true : (a : Bool) → not a ≡ true → a ≡ false
not-true a h = ground arith

-- A record is selected for the transactions of the query.
pub record IsSelected (q : Query) (verified unverified : List TraceRecord) (r : TraceRecord)
    : Type 0 where
  pub txns : List Text
  pub asked : wanted_txns q verified ≡ some txns
  pub among :
      (In r verified × (wants_verified q txns r ≡ true))
      ⊎ (In r unverified × (wants_unverified txns r ≡ true))

-- The query wants the record. A verified record without a transaction counts where it has the
-- query's identifier.
abbrev pub IsWanted : Query → List TraceRecord → List TraceRecord → TraceRecord → Type 0
IsWanted q verified unverified r =
    (In r verified
      × (Asked q verified r.txn
          ⊎ ((q.jti ≢ [])
              × (r.jti ≡ q.jti)
              × (r.txn ≡ [])
              × ((q.txn ≡ []) ⊎ Asked q verified q.txn))))
    ⊎ (In r unverified × (Asked q verified r.txn ⊎ Asked q verified r.session_id))

wants_verified-cases :
    (q : Query) (txns : List Text) (r : TraceRecord)
    → wants_verified q txns r ≡ true
    → ((contains txns r.txn ≡ true) × (r.txn ≢ []))
      ⊎ ((q.jti ≢ []) × (r.jti ≡ q.jti) × (r.txn ≡ []))
unfolding wants_verified
wants_verified-cases q txns r h = elim (Bool-cases (contains txns r.txn && not (is_empty r.txn))) [
  | inl there ↦ inl (
    and_left (contains txns r.txn) (not (is_empty r.txn)) there,
    not_empty→≢ r.txn (not-true (is_empty r.txn) (and_right (contains txns r.txn) _ there)),
  )
  | inr absent ↦
      let rest = rw absent at h in
      let both = and_left (not (is_empty q.jti) && text_eq r.jti q.jti) (is_empty r.txn) rest in
      inr (
        not_empty→≢ q.jti (
            not-true (is_empty q.jti) (and_left (not (is_empty q.jti)) (text_eq r.jti q.jti) both)),
        (text_eq_iff r.jti q.jti).0 (and_right (not (is_empty q.jti)) (text_eq r.jti q.jti) both),
        is_empty→≡ r.txn (and_right (not (is_empty q.jti) && text_eq r.jti q.jti) _ rest),
      )
]

wants_unverified-cases :
    (txns : List Text) (r : TraceRecord)
    → wants_unverified txns r ≡ true
    → ((contains txns r.txn ≡ true) × (r.txn ≢ []))
      ⊎ ((contains txns r.session_id ≡ true) × (r.session_id ≢ []))
unfolding wants_unverified
wants_unverified-cases txns r h = elim (Bool-cases (not (is_empty r.txn) && contains txns r.txn)) [
  | inl there ↦ inl (
    and_right (not (is_empty r.txn)) (contains txns r.txn) there,
    not_empty→≢ r.txn
        (not-true (is_empty r.txn) (and_left (not (is_empty r.txn)) (contains txns r.txn) there)),
  )
  | inr absent ↦
      let rest = rw absent at h in
      inr (
        and_right (not (is_empty r.session_id)) (contains txns r.session_id) rest,
        not_empty→≢ r.session_id (
            not-true (is_empty r.session_id)
              (and_left (not (is_empty r.session_id)) (contains txns r.session_id) rest)),
      )
]

IsSelected-IsWanted :
    (q : Query) (verified unverified : List TraceRecord) (r : TraceRecord)
    → IsSelected q verified unverified r
    → IsWanted q verified unverified r
IsSelected-IsWanted q verified unverified r s =
    let asks : (x : Text) → contains s.txns x ≡ true → x ≢ [] → Asked q verified x =
      λ x c n. wanted_txns-Asked q verified s.txns x s.asked c n in
    elim s.among [
      | inl (i, w) ↦ elim (wants_verified-cases q s.txns r w) [
        | inl (c, n) ↦ inl (i, inl (asks r.txn c n))
        | inr (n, e, bare) ↦ inl (i, inr (n, e, bare, wanted_txns-open q verified s.txns s.asked n))
      ]
      | inr (i, w) ↦ elim (wants_unverified-cases s.txns r w) [
        | inl (c, n) ↦ inr (i, inl (asks r.txn c n))
        | inr (c, n) ↦ inr (i, inr (asks r.session_id c n))
      ]
    ]

taken :
    (q : Query) (txns : List Text) (r : TraceRecord)
    → contains txns r.txn ≡ true
    → r.txn ≢ []
    → wants_verified q txns r ≡ true
unfolding wants_verified
taken q txns r c n = rw (c, ≢→not_empty r.txn n) refl

taken_by_jti :
    (q : Query) (txns : List Text) (r : TraceRecord)
    → q.jti ≢ []
    → r.jti ≡ q.jti
    → r.txn ≡ []
    → wants_verified q txns r ≡ true
unfolding wants_verified
taken_by_jti q txns r n e bare =
    by_rest (contains txns r.txn) (is_empty r.txn) (is_empty q.jti) (text_eq r.jti q.jti)
      (ap is_empty bare) (≢→not_empty q.jti n) ((text_eq_iff r.jti q.jti).1 e)
  where
    by_rest :
        (c b j s : Bool)
        → b ≡ true
        → j ≡ false
        → s ≡ true
        → ((c && not b) || (not j && s && b)) ≡ true
    by_rest c b j s p q t = ground arith

taken_of_visor :
    (txns : List Text) (r : TraceRecord)
    → ((contains txns r.txn ≡ true) × (r.txn ≢ []))
      ⊎ ((contains txns r.session_id ≡ true) × (r.session_id ≢ []))
    → wants_unverified txns r ≡ true
unfolding wants_unverified
taken_of_visor txns r (inl (c, n)) = rw (c, ≢→not_empty r.txn n) refl
taken_of_visor txns r (inr (c, n)) =
    rw (c, ≢→not_empty r.session_id n) (or_true (not (is_empty r.txn) && contains txns r.txn))
  where
    or_true : (b : Bool) → (b || true) ≡ true
    or_true b = ground arith

IsWanted-IsSelected :
    (q : Query) (verified unverified : List TraceRecord) (r : TraceRecord)
    → (is_empty q.txn && is_empty q.jti) ≡ false
    → IsWanted q verified unverified r
    → IsSelected q verified unverified r
IsWanted-IsSelected q verified unverified r some_query (inl (i, inl asked)) =
    let (txns, w, c) = Asked-wanted_txns q verified r.txn some_query asked in
    record { txns = txns; asked = w; among = inl (i, taken q txns r c asked.0) }
IsWanted-IsSelected q verified unverified r some_query (inl (i, inr (n, e, bare, inl open_txn))) =
    record {
      txns = (txns_of q.jti verified).0;
      asked = Found-wanted_txns q verified n open_txn (r, i, e);
      among = inl (i, taken_by_jti q (txns_of q.jti verified).0 r n e bare);
    }
IsWanted-IsSelected q verified unverified r some_query (inl (i, inr (n, e, bare, inr asked))) =
    let (txns, w, _) = Asked-wanted_txns q verified q.txn some_query asked in
    record { txns = txns; asked = w; among = inl (i, taken_by_jti q txns r n e bare) }
IsWanted-IsSelected q verified unverified r some_query (inr (i, inl asked)) =
    let (txns, w, c) = Asked-wanted_txns q verified r.txn some_query asked in
    record { txns = txns; asked = w; among = inr (i, taken_of_visor txns r (inl (c, asked.0))) }
IsWanted-IsSelected q verified unverified r some_query (inr (i, inr asked)) =
    let (txns, w, c) = Asked-wanted_txns q verified r.session_id some_query asked in
    record { txns = txns; asked = w; among = inr (i, taken_of_visor txns r (inr (c, asked.0))) }

module _ (codec : Codec) (reader : Reader) where
  select_records-IsSelected :
      (q : Query) (verified unverified : List TraceRecord) (o : Option (List Text))
      (r : TraceRecord)
      → wanted_txns q verified ≡ o
      → In r (select_records codec reader q verified unverified o)
      → IsSelected q verified unverified r
  unfolding select_records
  select_records-IsSelected q verified unverified none r a h = absurd h
  select_records-IsSelected q verified unverified (some txns) r a h =
      let vs = select (wants_verified q txns) verified in
      let us = select (wants_unverified txns) unverified in
      record {
        txns = txns;
        asked = a;
        among = elim (In-append r vs us (sort_records-In reader r (vs ++ us) h)) [
          | inl g ↦ inl (select-In (wants_verified q txns) r verified g)
          | inr g ↦ inr (select-In (wants_unverified txns) r unverified g)
        ];
      }

  IsSelected-select_records :
      (q : Query) (verified unverified : List TraceRecord) (o : Option (List Text))
      (r : TraceRecord)
      → wanted_txns q verified ≡ o
      → IsSelected q verified unverified r
      → In r (select_records codec reader q verified unverified o)
  unfolding select_records
  IsSelected-select_records q verified unverified none r a w = cc (a, w.asked)
  IsSelected-select_records q verified unverified (some txns) r a w =
      let vs = select (wants_verified q txns) verified in
      let us = select (wants_unverified txns) unverified in
      let same : w.txns ≡ txns = some-injective w.txns txns (sym w.asked ∙ a) in
      In-sort_records reader r (vs ++ us) (elim w.among [
        | inl (i, e) ↦ In-append_left r vs us (
            In-select (wants_verified q txns) r verified i
              (ap (λ t. wants_verified q t r) (sym same) ∙ e))
        | inr (i, e) ↦ In-append_right r vs us (
            In-select (wants_unverified txns) r unverified i
              (ap (λ t. wants_unverified t r) (sym same) ∙ e))
      ])

  -- What the files of a trace hold.
  pub record IsLoaded (audit_files visor_files : List FileText)
      (verified unverified : List TraceRecord) : Type 0 where
    pub of_logs : load_all (load_audit_file codec) audit_files ≡ ok verified
    pub of_visor : load_all (load_generic_file reader) visor_files ≡ ok unverified

  pub trace-IsLoaded :
      (q : Query) (audit_files visor_files : List FileText) (out : List TraceRecord)
      → trace codec reader q audit_files visor_files ≡ ok out
      → (verified : List TraceRecord) × (unverified : List TraceRecord) × IsLoaded audit_files
          visor_files verified unverified
        × ((is_empty (trimmed q).txn && is_empty (trimmed q).jti) ≡ false)
        × (select_records codec reader
              (trimmed q)
              verified
              unverified
              (wanted_txns (trimmed q) verified)
            ≡ out)
  unfolding trace
  trace-IsLoaded q audit_files visor_files out h =
      let (_, asks, e0) =
        >>=-eq-ok (fail_if (is_empty (trimmed q).txn && is_empty (trimmed q).jti) query_empty) _
          h in
      let (vs, v, e1) = >>=-eq-ok (load_all (load_audit_file codec) audit_files) _ e0 in
      let (us, u, e2) = >>=-eq-ok (load_all (load_generic_file reader) visor_files) _ e1 in
      (
        vs,
        us,
        record { of_logs = v; of_visor = u },
        fail_if-eq-ok (is_empty (trimmed q).txn && is_empty (trimmed q).jti) query_empty asks,
        ok-injective (select_records codec reader (trimmed q) vs us (wanted_txns (trimmed q) vs))
            out e2,
      )

  -- The records of a trace, whose query names something, are exactly those of the logs and of the visor
  -- lines that the query wants. It asks for a transaction that is not empty if that is the transaction that
  -- it names, or it names none; and if it names an identifier, a verified record has both. It wants a
  -- verified record of a transaction that it asks for, or one without a transaction that has its
  -- identifier, the query's own transaction, if any, being asked for; and a line of visor whose
  -- transaction or session is one that it asks for.
  pub trace_exact :
      (q : Query) (audit_files visor_files : List FileText) (out : List TraceRecord)
      → trace codec reader q audit_files visor_files ≡ ok out
      → (verified : List TraceRecord) × (unverified : List TraceRecord) × IsLoaded audit_files
          visor_files verified unverified
        × ((r : TraceRecord) → In r out ↔ IsWanted (trimmed q) verified unverified r)
  trace_exact q audit_files visor_files out h =
      let (vs, us, loaded, some_query, same) = trace-IsLoaded q audit_files visor_files out h in
      (
        vs,
        us,
        loaded,
        λ r. rw (← same) (
          λ i.
              IsSelected-IsWanted (trimmed q) vs us r
                (select_records-IsSelected (trimmed q) vs us (wanted_txns (trimmed q) vs) r refl i),
          λ w.
              IsSelected-select_records (trimmed q) vs us (wanted_txns (trimmed q) vs) r refl
                (IsWanted-IsSelected (trimmed q) vs us r some_query w),
        ),
      )
