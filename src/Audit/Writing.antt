-- ===== src/Audit/Writing.antt =====
-- What the write of `Append` in internal/audit/logger.go leaves where it succeeds.
use agent_identity_plane.Prelude.{
  ◌+◌, ◌<◌, ◌≡◌, refl, ap, ◌∙◌, inl, inr, false, ltb, [], ◌∷◌, ◌++◌, Option, none, some, arith,
  if◌then◌else◌, Bool-cases, Result, ok, err, length,
}
use agent_identity_plane.Prelude.Text.{Text}
use agent_identity_plane.Lines.{WriteOutcome, synced, torn, unsynced, max_line_bytes}
use agent_identity_plane.Audit.{
  AuditError, Event, Logger, Codec, payload_hash, chained, write_synced, write_line,
  write_marshalled, write_hashed, append_to, append,
}

module _ (codec : Codec) where
  write_synced-ok :
      (l : Logger) (content t : Text) (e : Event) (outcome : WriteOutcome)
      → (write_synced codec l content t e outcome).0 ≡ ok tt
      → (write_synced codec l content t e outcome).1 ≡ record l {
        file = some (content ++ (t ++ 10 ∷ []));
        prev_hash = e.hash;
        chain_index = e.chain_index;
      }
  unfolding write_synced
  write_synced-ok l content t e synced h = refl
  write_synced-ok l content t e (torn n) h = cc
  write_synced-ok l content t e unsynced h = cc

  write_line-ok :
      (l : Logger) (content t : Text) (e : Event) (outcome : WriteOutcome)
      → (write_line codec l content t e outcome).0 ≡ ok tt
      → (length t < max_line_bytes)
        × ((write_line codec l content t e outcome).1 ≡ record l {
          file = some (content ++ (t ++ 10 ∷ []));
          prev_hash = e.hash;
          chain_index = e.chain_index;
        })
  unfolding write_line
  write_line-ok l content t e outcome h = elim (Bool-cases (ltb max_line_bytes (length t + 1))) [
    | inl long ↦ absurd (ground (arith, h, long))
    | inr short ↦
        (ground (arith, short), rw short (write_synced-ok l content t e outcome (rw short at h)))
  ]

  -- What a successful write has done with the record `e`, whose hash is the result `r`.
  abbrev pub WroteAs :
      Logger → Text → Event → Result AuditError Text → Result AuditError Unit × Logger → Type 0
  WroteAs l content e r out =
      (h : Text) × (t : Text) × (r ≡ ok h)
      × (codec.marshal (record e { hash = h }) ≡ some t)
      × (length t < max_line_bytes)
      × (out.1 ≡ record l {
        file = some (content ++ (t ++ 10 ∷ []));
        prev_hash = h;
        chain_index = e.chain_index;
      })

  write_marshalled-ok :
      (l : Logger) (content : Text) (e : Event) (outcome : WriteOutcome) (o : Option Text)
      → (write_marshalled codec l content e outcome o).0 ≡ ok tt
      → (t : Text) × (o ≡ some t)
        × (length t < max_line_bytes)
        × ((write_marshalled codec l content e outcome o).1 ≡ record l {
          file = some (content ++ (t ++ 10 ∷ []));
          prev_hash = e.hash;
          chain_index = e.chain_index;
        })
  unfolding write_marshalled
  write_marshalled-ok l content e outcome none k = cc
  write_marshalled-ok l content e outcome (some t) k =
      let (short, out) = write_line-ok l content t e outcome k in (t, refl, short, out)

  pub write_hashed-ok :
      (l : Logger) (content : Text) (e : Event) (outcome : WriteOutcome)
      (r : Result AuditError Text)
      → (write_hashed codec l content e outcome r).0 ≡ ok tt
      → WroteAs l content e r (write_hashed codec l content e outcome r)
  unfolding write_hashed
  write_hashed-ok l content e outcome (err x) k = cc
  write_hashed-ok l content e outcome (ok h) k =
      let sealed_event : Event = record e { hash = h } in
      let (t, written, short, out) =
        write_marshalled-ok l content sealed_event outcome (codec.marshal sealed_event) k in
      (h, t, refl, written, short, out)

  pub append-healthy :
      (l : Logger) (content stamp : Text) (e : Event) (outcome : WriteOutcome)
      → l.poisoned ≡ false
      → l.file ≡ some content
      → append codec l stamp e outcome
        ≡ write_hashed codec l content
            (chained codec l stamp e)
            outcome
            (payload_hash codec (chained codec l stamp e))
  unfolding append append_to
  append-healthy l content stamp e outcome p f =
      ap
        (λ b. if b then (err AuditError.unhealthy, l) else elim l.file [
          | none ↦ (err AuditError.unhealthy, l)
          | some c ↦ append_to codec l c stamp e outcome
        ])
        p
      ∙ ap
          (λ o. elim o [
            | none ↦ (err AuditError.unhealthy, l)
            | some c ↦ append_to codec l c stamp e outcome
          ])
          f
