-- ===== src/Audit/Trace/Provenance.antt =====
-- Where the verified records of a trace come from: internal/audit/trace.go with logger.go.
use mathlib.Core.Path.{subst}
use agent_identity_plane.Audit.Evidence.{Chained}
use agent_identity_plane.Prelude.{
  sym, Option, ℕ, ◌≡◌, refl, ap, ◌∙◌, inl, inr, Bool, true, false, List, [], ◌∷◌, ◌++◌, none, some,
  Result, ok, >>=-eq-ok, ok-injective, Bool-cases, In,
}
use agent_identity_plane.Prelude.Text.{Text, is_empty}
use agent_identity_plane.Prelude.Fields.{is_blank}
use agent_identity_plane.Lines.{Scanned, line, too_long, scan_lines}
use agent_identity_plane.Audit.{
  Event, Logger, Codec, genesis_prev_hash, next_index, decode_and_verify, recover_lines, recover,
}
use agent_identity_plane.Audit.Trace.{
  TraceError, TraceRecord, Query, Reader, FileText, keep_lines, read_lines, record_from_event,
  record_from_generic, or_unverifiable, or_not_json, load_audit_records, load_audit_file,
  load_generic_records, load_generic_file, load_all, trace,
}
use agent_identity_plane.Audit.Trace.Sorting.{In-append}
use agent_identity_plane.Audit.Trace.Selection.{trace_exact}
use agent_identity_plane.Audit.Trace.Records.{
  or_unverifiable-eq-ok, In-equal, IsRecordOf, load_audit_file-Recorded,
}

some_text : (a b : Text) → ◌≡◌ {A = Option Text} (some a) (some b) → a ≡ b
some_text a b e = cc

-- Every record of the list has the mark and the source.
abbrev AllOf : Bool → Text → List TraceRecord → Type 0
AllOf b path rs = (r : TraceRecord) → In r rs → (r.verified ≡ b) × (r.source ≡ path)

module _ (codec : Codec) where
  load_audit_records-AllOf :
      (path prev : Text) (index : ℕ) (ls : List Text) (rs : List TraceRecord)
      → load_audit_records codec path prev index ls ≡ ok rs
      → AllOf true path rs
  unfolding load_audit_records
  load_audit_records-AllOf path prev index [] rs h r i =
      absurd (In-equal r [] rs (ok-injective [] rs h) i)
  load_audit_records-AllOf path prev index (l ∷ ls) rs h r i =
      let (e, d, e0) =
        >>=-eq-ok (or_unverifiable path (decode_and_verify codec l prev (next_index index))) _ h in
      let (rest, t, e1) = >>=-eq-ok (load_audit_records codec path e.hash e.chain_index ls) _ e0 in
      elim (In-equal r (record_from_event path e ∷ rest) rs
        (ok-injective (record_from_event path e ∷ rest) rs e1) i) [
          | inl same ↦ rw same (unfold record_from_event in (refl, refl))
          | inr g ↦ load_audit_records-AllOf path e.hash e.chain_index ls rest t r g
        ]

  load_audit_records-cons :
      (path prev : Text) (index : ℕ) (l : Text) (ls : List Text) (rs : List TraceRecord)
      → load_audit_records codec path prev index (l ∷ ls) ≡ ok rs
      → (v : Event) × (rest : List TraceRecord) × (decode_and_verify codec l prev (next_index index)
          ≡ ok v)
        × (load_audit_records codec path v.hash v.chain_index ls ≡ ok rest)
  unfolding load_audit_records
  load_audit_records-cons path prev index l ls rs h =
      let (v, d, e0) =
        >>=-eq-ok (or_unverifiable path (decode_and_verify codec l prev (next_index index))) _ h in
      let (rest, t, _) = >>=-eq-ok (load_audit_records codec path v.hash v.chain_index ls) _ e0 in
      (
        v,
        rest,
        or_unverifiable-eq-ok path (decode_and_verify codec l prev (next_index index)) v d,
        t,
      )

  -- A log whose records load is one that the logger recovers.
  load_audit_records-recovers :
      (path prev : Text) (index : ℕ) (sc : List Scanned) (ls : List Text) (rs : List TraceRecord)
      → keep_lines sc ≡ ok ls
      → load_audit_records codec path prev index ls ≡ ok rs
      → (end : Text × ℕ) × (recover_lines codec prev index sc ≡ ok end)
  unfolding keep_lines recover_lines
  load_audit_records-recovers path prev index [] ls rs k h = ((prev, index), refl)
  load_audit_records-recovers path prev index (too_long ∷ sc) ls rs k h = cc
  load_audit_records-recovers path prev index (line l ∷ sc) ls rs k h =
      let (ls', k', e) = >>=-eq-ok (keep_lines sc) _ k in
      elim (Bool-cases (is_empty l)) [
        | inl blank ↦ rw blank (
            load_audit_records-recovers path prev index sc ls' rs k' (
              ap (load_audit_records codec path prev index) (ok-injective ls' ls (rw blank at e))
              ∙ h))
        | inr full ↦
            let loaded =
              ap (load_audit_records codec path prev index)
                (ok-injective (l ∷ ls') ls (rw full at e))
              ∙ h in
            let (v, r', d, t) = load_audit_records-cons path prev index l ls' rs loaded in
            rw full (rw d (load_audit_records-recovers path v.hash v.chain_index sc ls' r' k' t))
      ]

  load_audit_file-recovers :
      (f : FileText) (rs : List TraceRecord)
      → load_audit_file codec f ≡ ok rs
      → (content : Text) × (log : Logger) × (f.1 ≡ some content)
        × (recover codec content ≡ ok log)
        × AllOf true f.0 rs
  unfolding load_audit_file read_lines recover
  load_audit_file-recovers (path, none) rs h = cc
  load_audit_file-recovers (path, some content) rs h =
      let (ls, k, t) = >>=-eq-ok (keep_lines (scan_lines content)) _ h in
      let ((prev, index), e) =
        load_audit_records-recovers path genesis_prev_hash 0 (scan_lines content) ls rs k t in
      (
        content,
        record { file = some content; prev_hash = prev; chain_index = index; poisoned = false },
        refl,
        rw e refl,
        load_audit_records-AllOf path genesis_prev_hash 0 ls rs t,
      )

module _ (reader : Reader) where
  load_generic_records-AllOf :
      (path : Text) (ls : List Text) (rs : List TraceRecord)
      → load_generic_records reader path ls ≡ ok rs
      → AllOf false path rs
  unfolding load_generic_records
  load_generic_records-AllOf path [] rs h r i = absurd (In-equal r [] rs (ok-injective [] rs h) i)
  load_generic_records-AllOf path (l ∷ ls) rs h r i =
      let (g, _, e0) = >>=-eq-ok (or_not_json path (reader.generic l)) _ h in
      let (rest, t, e1) = >>=-eq-ok (load_generic_records reader path ls) _ e0 in
      elim (In-equal r (record_from_generic path g ∷ rest) rs
        (ok-injective (record_from_generic path g ∷ rest) rs e1) i) [
          | inl same ↦ rw same (unfold record_from_generic in (refl, refl))
          | inr j ↦ load_generic_records-AllOf path ls rest t r j
        ]

  load_generic_file-AllOf :
      (f : FileText) (rs : List TraceRecord)
      → load_generic_file reader f ≡ ok rs
      → AllOf false f.0 rs
  unfolding load_generic_file
  load_generic_file-AllOf f rs h =
      let (ls, _, t) = >>=-eq-ok (read_lines f.1) _ h in load_generic_records-AllOf f.0 ls rs t

module _ (load : FileText → Result TraceError (List TraceRecord)) where
  -- A record of the files is a record of one of them.
  load_all-In :
      (fs : List FileText) (rs : List TraceRecord) (r : TraceRecord)
      → load_all load fs ≡ ok rs
      → In r rs
      → (f : FileText) × (own : List TraceRecord) × In f fs × (load f ≡ ok own) × In r own
  unfolding load_all
  load_all-In [] rs r h i = absurd (In-equal r [] rs (ok-injective [] rs h) i)
  load_all-In (f ∷ fs) rs r h i = elim (Bool-cases (is_blank f.0)) [
    | inl blank ↦ later (load_all-In fs rs r (rw blank at h) i)
    | inr named ↦
        let (own, o, e0) = >>=-eq-ok (load f) _ (rw named at h) in
        let (rest, t, e1) = >>=-eq-ok (load_all load fs) _ e0 in
        elim (In-append r own rest
          (In-equal r (own ++ rest) rs (ok-injective (own ++ rest) rs e1) i)) [
            | inl g ↦ (f, own, inl refl, o, g)
            | inr g ↦ later (load_all-In fs rest r t g)
          ]
  ]
    where
      later :
          (g : FileText) × (own : List TraceRecord) × In g fs × (load g ≡ ok own) × In r own
          → (g : FileText) × (own : List TraceRecord) × In g (f ∷ fs) × (load g ≡ ok own) × In r own
      later (g, own, m, o, n) = (g, own, inr m, o, n)

-- A log of the trace that the logger recovers, and the event of its chain that the record is of.
pub record IsRecovered (codec : Codec) (audit_files : List FileText) (r : TraceRecord)
    : Type 0 where
  pub file : FileText
  pub content : Text
  pub log : Logger
  pub listed : In file audit_files
  pub readable : file.1 ≡ some content
  pub recovered : recover codec content ≡ ok log
  pub logged : List Event
  pub chain : Chained codec genesis_prev_hash 0 (scan_lines content) logged
  pub event : Event
  pub member : In event logged
  pub is_record : IsRecordOf file.0 event r

module _ (codec : Codec) (reader : Reader) where
  -- A record of a trace that is marked as verified is the record of an event of one of the audit files:
  -- it names that file as its source, and its time, type, reason, agent, workload, principal, audience,
  -- hops, transaction, identifier and index are the event's. The logger recovers the whole file, whose
  -- lines are a chain of events from the genesis hash, with that event among them. No line of visor is
  -- marked as verified.
  pub trace-IsRecovered :
      (q : Query) (audit_files visor_files : List FileText) (out : List TraceRecord)
      (r : TraceRecord)
      → trace codec reader q audit_files visor_files ≡ ok out
      → In r out
      → r.verified ≡ true
      → IsRecovered codec audit_files r
  trace-IsRecovered q audit_files visor_files out r h i marked =
      let (vs, us, loaded, exact) = trace_exact codec reader q audit_files visor_files out h in
      elim ((exact r).0 i) [
        | inl (g, _) ↦
            let (f, own, m, o, n) =
              load_all-In (load_audit_file codec) audit_files vs r loaded.of_logs g in
            let (content, log, readable, recovered, all) = load_audit_file-recovers codec f own o in
            let (content', es, readable', chained, of_es) =
              load_audit_file-Recorded codec f own o in
            let (e, among, is_record) = of_es r n in
            record {
              file = f;
              content = content;
              log = log;
              listed = m;
              readable = readable;
              recovered = recovered;
              logged = es;
              chain =
                  subst (λ t. Chained codec genesis_prev_hash 0 (scan_lines t) es)
                    (some_text content' content (sym readable' ∙ readable)) chained;
              event = e;
              member = among;
              is_record = is_record;
            }
        | inr (g, _) ↦
            let (f, own, _, o, n) =
              load_all-In (load_generic_file reader) visor_files us r loaded.of_visor g in
            cc (marked, (load_generic_file-AllOf reader f own o r n).0)
      ]
