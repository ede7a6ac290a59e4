-- ===== src/Audit/Evidence.antt =====
-- What a file that `recover` of internal/audit/logger.go accepts has been checked for.
use mathlib.Core.Path.{subst}
use agent_identity_plane.Prelude.{
  ℕ, ◌≡◌, refl, sym, ap, ◌∙◌, Bool, true, false, not, ◌==◌, ==_iff, List, [], ◌∷◌, arith, ok,
  fail_if, >>=-eq-ok, fail_if-eq-ok, ok-injective,
}
use agent_identity_plane.Prelude.Text.{Text, text_eq, text_eq_iff}
use agent_identity_plane.Lines.{Scanned, line, too_long, scan_lines}
use agent_identity_plane.Audit.{
  AuditError, Event, Logger, Codec, genesis_prev_hash, canonicalize_event, next_index, payload_hash,
  decode_audit_record, verify_event, decode_and_verify, recover_lines, recover, event_canon_equal,
}

module _ (codec : Codec) where
  -- A record that decodes from the line, carries the hash and the index that it follows, and is
  -- sealed by the hash of its own canonical payload.
  abbrev pub Follows : Text → ℕ → Text → Event → Type 0
  Follows prev index l e =
      (decode_audit_record codec l ≡ ok e)
      × (e.prev_hash ≡ prev)
      × (e.chain_index ≡ next_index index)
      × (event_canon_equal e (canonicalize_event e) ≡ true)
      × (payload_hash codec e ≡ ok e.hash)

  -- The lines of a file, the empty ones aside, as a chain of records.
  abbrev pub Chained : Text → ℕ → List Scanned → List Event → Type 0
  Chained prev index [] [] = Unit
  Chained prev index [] (e ∷ es) = ⊥
  Chained prev index (too_long ∷ ls) es = ⊥
  Chained prev index (line [] ∷ ls) es = Chained prev index ls es
  Chained prev index (line (b ∷ l) ∷ ls) [] = ⊥
  Chained prev index (line (b ∷ l) ∷ ls) (e ∷ es) =
      Follows prev index (b ∷ l) e × Chained e.hash e.chain_index ls es

  -- The hash and the index of the last record.
  abbrev pub last_of : Text → ℕ → List Event → Text × ℕ
  last_of prev index [] = (prev, index)
  last_of prev index (e ∷ es) = last_of e.hash e.chain_index es

  text_eq→eq : (s t : Text) → not (text_eq s t) ≡ false → s ≡ t
  text_eq→eq s t h = (text_eq_iff s t).0 (ground arith)

  pub decode_and_verify-Follows :
      (l prev : Text) (index : ℕ) (e : Event)
      → decode_and_verify codec l prev (next_index index) ≡ ok e
      → Follows prev index l e
  unfolding decode_and_verify verify_event
  decode_and_verify-Follows l prev index e h =
      let (f, d, h1) = >>=-eq-ok (decode_audit_record codec l) _ h in
      let (_, v, h2) = >>=-eq-ok (verify_event codec f prev (next_index index)) _ h1 in
      let (_, p, v1) =
        >>=-eq-ok (fail_if (not (text_eq f.prev_hash prev)) AuditError.chain_broken) _ v in
      let (_, i, v2) =
        >>=-eq-ok (fail_if (not (f.chain_index == next_index index)) AuditError.chain_broken) _
          v1 in
      let (_, c, v3) =
        >>=-eq-ok
          (fail_if (not (event_canon_equal f (canonicalize_event f))) AuditError.chain_broken) _
          v2 in
      let (want, k, v4) = >>=-eq-ok (payload_hash codec f) _ v3 in
      let same =
        text_eq→eq f.hash want
          (fail_if-eq-ok (not (text_eq f.hash want)) AuditError.chain_broken v4) in
      subst (Follows prev index l) (ok-injective f e h2) (
        d,
        text_eq→eq f.prev_hash prev
            (fail_if-eq-ok (not (text_eq f.prev_hash prev)) AuditError.chain_broken p),
        (==_iff f.chain_index (next_index index)).0 (
            negated (f.chain_index == next_index index)
              (fail_if-eq-ok (not (f.chain_index == next_index index)) AuditError.chain_broken i)),
        negated (event_canon_equal f (canonicalize_event f)) (
            fail_if-eq-ok (not (event_canon_equal f (canonicalize_event f))) AuditError.chain_broken
              c),
        k ∙ ap ok (sym same),
      )
    where
      negated : (b : Bool) → not b ≡ false → b ≡ true
      negated true h = refl
      negated false h = cc

  recover_lines-Chained :
      (prev : Text) (index : ℕ) (ls : List Scanned) (end : Text × ℕ)
      → recover_lines codec prev index ls ≡ ok end
      → (es : List Event) × Chained prev index ls es × (last_of prev index es ≡ end)
  unfolding recover_lines
  recover_lines-Chained prev index [] end h = ([], tt, ok-injective (prev, index) end h)
  recover_lines-Chained prev index (too_long ∷ ls) end h = cc
  recover_lines-Chained prev index (line [] ∷ ls) end h = recover_lines-Chained prev index ls end h
  recover_lines-Chained prev index (line (b ∷ l) ∷ ls) end h =
      let (e, d, h1) = >>=-eq-ok (decode_and_verify codec (b ∷ l) prev (next_index index)) _ h in
      let (es, chained, last) = recover_lines-Chained e.hash e.chain_index ls end h1 in
      (e ∷ es, (decode_and_verify-Follows (b ∷ l) prev index e d, chained), last)

  -- A file that recovers is a chain from the genesis hash: every line that is not empty decodes to a
  -- record with the hash of the record before it, the next index, a canonical payload and that
  -- payload's hash; and the logger stands at the last of them.
  pub recover-Chained :
      (content : Text) (l : Logger)
      → recover codec content ≡ ok l
      → (es : List Event) × Chained genesis_prev_hash 0 (scan_lines content) es
        × (last_of genesis_prev_hash 0 es ≡ (l.prev_hash, l.chain_index))
        × (l.poisoned ≡ false)
  unfolding recover
  recover-Chained content l h =
      let (end, r, h1) =
        >>=-eq-ok (recover_lines codec genesis_prev_hash 0 (scan_lines content)) _ h in
      let (es, chained, last) =
        recover_lines-Chained genesis_prev_hash 0 (scan_lines content) end r in
      let stands = ok-injective _ l h1 in
      (
        es,
        chained,
        last ∙ ap (λ m. (m.prev_hash, m.chain_index)) stands,
        sym (ap (λ m. m.poisoned) stands),
      )
