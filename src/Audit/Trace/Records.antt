-- ===== src/Audit/Trace/Records.antt =====
-- The records that internal/audit/trace.go makes of the events of a log.
use mathlib.Core.Path.{subst}
use agent_identity_plane.Audit.Evidence.{Chained, decode_and_verify-Follows}
use agent_identity_plane.Prelude.{
  sym, ℕ, ◌≡◌, refl, ap, ◌∙◌, inl, inr, true, List, [], ◌∷◌, none, some, arith, Result, ok, err,
  >>=-eq-ok, ok-injective, In,
}
use agent_identity_plane.Prelude.Text.{Text}
use agent_identity_plane.Lines.{Scanned, line, too_long, scan_lines}
use agent_identity_plane.Audit.{
  Event, Codec, AuditError, genesis_prev_hash, next_index, decode_and_verify,
}
use agent_identity_plane.Audit.Trace.{
  TraceRecord, FileText, keep_lines, read_lines, record_from_event, or_unverifiable,
  load_audit_records, load_audit_file,
}

pub or_unverifiable-eq-ok :
    {A : Type 0} (path : Text) (r : Result AuditError A) (a : A)
    → or_unverifiable path r ≡ ok a
    → r ≡ ok a
or_unverifiable-eq-ok path (ok b) a h = ground arith
or_unverifiable-eq-ok path (err e) a h = cc

pub In-equal : {A : Type 0} (x : A) (xs ys : List A) → xs ≡ ys → In x ys → In x xs
In-equal x xs ys e h = rw e h

-- The record of an event of a log: what it says is what the event says.
pub record IsRecordOf (path : Text) (e : Event) (r : TraceRecord) : Type 0 where
  pub source : r.source ≡ path
  pub verified : r.verified ≡ true
  pub timestamp : r.timestamp ≡ e.timestamp
  pub event_type : r.event_type ≡ e.event_type
  pub reason_code : r.reason_code ≡ e.reason_code
  pub agent_id : r.agent_id ≡ e.agent_id
  pub workload : r.workload ≡ e.workload
  pub principal : r.principal ≡ e.principal
  pub audience : r.audience ≡ e.audience
  pub hops : r.hops ≡ e.hops
  pub txn : r.txn ≡ e.txn
  pub jti : r.jti ≡ e.jti
  pub chain_index : r.chain_index ≡ e.chain_index
  pub of_visor : (r.server ≡ []) × (r.tool ≡ []) × (r.decision ≡ []) × (r.session_id ≡ [])

record_from_event-IsRecordOf :
    (path : Text) (e : Event) → IsRecordOf path e (record_from_event path e)
unfolding record_from_event
record_from_event-IsRecordOf path e = record {
  source = refl;
  verified = refl;
  timestamp = refl;
  event_type = refl;
  reason_code = refl;
  agent_id = refl;
  workload = refl;
  principal = refl;
  audience = refl;
  hops = refl;
  txn = refl;
  jti = refl;
  chain_index = refl;
  of_visor = (refl, refl, refl, refl);
}

-- Every record of the list is that of one of the events.
abbrev pub Recorded : Text → List Event → List TraceRecord → Type 0
Recorded path es rs = (r : TraceRecord) → In r rs → (e : Event) × In e es × IsRecordOf path e r

module _ (codec : Codec) where
  load_audit_records-Recorded :
      (path prev : Text) (index : ℕ) (sc : List Scanned) (ls : List Text) (rs : List TraceRecord)
      → keep_lines sc ≡ ok ls
      → load_audit_records codec path prev index ls ≡ ok rs
      → (es : List Event) × Chained codec prev index sc es × Recorded path es rs
  unfolding keep_lines load_audit_records
  load_audit_records-Recorded path prev index [] ls rs k h = (
    [],
    tt,
    λ r i. absurd (
        In-equal r [] rs
          (ok-injective [] rs
            (ap (load_audit_records codec path prev index) (ok-injective [] ls k) ∙ h))
          i),
  )
  load_audit_records-Recorded path prev index (too_long ∷ sc) ls rs k h = cc
  load_audit_records-Recorded path prev index (line [] ∷ sc) ls rs k h =
      let (ls', k', e) = >>=-eq-ok (keep_lines sc) _ k in
      load_audit_records-Recorded path prev index sc ls' rs k'
        (ap (load_audit_records codec path prev index) (ok-injective ls' ls e) ∙ h)
  load_audit_records-Recorded path prev index (line (b ∷ l) ∷ sc) ls rs k h =
      let (ls', k', kept) = >>=-eq-ok (keep_lines sc) _ k in
      let loaded =
        ap (load_audit_records codec path prev index) (ok-injective ((b ∷ l) ∷ ls') ls kept) ∙ h in
      let (v, d, e0) =
        >>=-eq-ok (or_unverifiable path (decode_and_verify codec (b ∷ l) prev (next_index index))) _
          loaded in
      let (rest, t, e1) = >>=-eq-ok (load_audit_records codec path v.hash v.chain_index ls') _ e0 in
      let (es, chained, of_rest) =
        load_audit_records-Recorded path v.hash v.chain_index sc ls' rest k' t in
      let follows = decode_and_verify-Follows codec (b ∷ l) prev index v (
        or_unverifiable-eq-ok path (decode_and_verify codec (b ∷ l) prev (next_index index)) v d) in
      (
        v ∷ es,
        (follows, chained),
        λ r i.
            elim (In-equal r (record_from_event path v ∷ rest) rs
              (ok-injective (record_from_event path v ∷ rest) rs e1) i) [
                | inl same ↦ (
                  v,
                  inl refl,
                  subst (λ x. IsRecordOf path v x) (sym same) (record_from_event-IsRecordOf path v),
                )
                | inr g ↦ let (e, m, is_of) = of_rest r g in (e, inr m, is_of)
              ],
      )

  pub load_audit_file-Recorded :
      (f : FileText) (rs : List TraceRecord)
      → load_audit_file codec f ≡ ok rs
      → (content : Text) × (es : List Event) × (f.1 ≡ some content)
        × Chained codec genesis_prev_hash 0 (scan_lines content) es
        × Recorded f.0 es rs
  unfolding load_audit_file read_lines
  load_audit_file-Recorded (path, none) rs h = cc
  load_audit_file-Recorded (path, some content) rs h =
      let (ls, k, t) = >>=-eq-ok (keep_lines (scan_lines content)) _ h in
      let (es, chained, of_es) =
        load_audit_records-Recorded path genesis_prev_hash 0 (scan_lines content) ls rs k t in
      (content, es, refl, chained, of_es)
