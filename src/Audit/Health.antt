-- ===== src/Audit/Health.antt =====
-- A log of internal/audit/logger.go that has failed stays shut.
use agent_identity_plane.Prelude.{
  ◌+◌, ◌≡◌, ◌≢◌, refl, ap, ◌∙◌, inl, inr, Bool, true, false, ltb, Option, none, some, if◌then◌else◌,
  Bool-cases, Result, ok, err, length,
}
use agent_identity_plane.Prelude.Text.{Text}
use agent_identity_plane.Lines.{WriteOutcome, synced, torn, unsynced, max_line_bytes}
use agent_identity_plane.Audit.{
  AuditError, unhealthy, record_too_large, Event, Logger, Codec, payload_hash, chained,
  write_synced, write_line, write_marshalled, write_hashed, append_to, append,
}

module _ (codec : Codec) where
  -- The logger accepts no event, and keeps what it has.
  abbrev pub IsShut : Logger → Type 0
  IsShut l =
      (stamp : Text) (e : Event) (outcome : WriteOutcome)
      → append codec l stamp e outcome ≡ (err unhealthy, l)

  IsShut-of_poisoned : (l : Logger) → l.poisoned ≡ true → IsShut l
  unfolding append
  IsShut-of_poisoned l h stamp e outcome =
      ap
        (λ b. if b then (err unhealthy, l) else elim l.file [
          | none ↦ (err unhealthy, l)
          | some c ↦ append_to codec l c stamp e outcome
        ])
        h

  IsShut-of_closed : (l : Logger) → l.file ≡ none → IsShut l
  unfolding append
  IsShut-of_closed l h stamp e outcome = elim (Bool-cases l.poisoned) [
    | inl p ↦ IsShut-of_poisoned l p stamp e outcome
    | inr p ↦
        ap
          (λ b. if b then (err unhealthy, l) else elim l.file [
            | none ↦ (err unhealthy, l)
            | some c ↦ append_to codec l c stamp e outcome
          ])
          p
        ∙ ap
            (λ o. elim o [
              | none ↦ (err unhealthy, l)
              | some c ↦ append_to codec l c stamp e outcome
            ])
            h
  ]

  -- An error other than the one for a long record.
  abbrev pub Fails : Result AuditError Unit → Type 0
  Fails (ok u) = ⊥
  Fails (err x) = x ≢ record_too_large

  write_line-poisons :
      (l : Logger) (content t : Text) (e : Event) (outcome : WriteOutcome)
      → Fails (write_line codec l content t e outcome).0
      → (write_line codec l content t e outcome).1.poisoned ≡ true
  unfolding write_line write_synced
  write_line-poisons l content t e outcome = by_length (ltb max_line_bytes (length t + 1)) outcome
    where
      by_length :
          (long : Bool) (o : WriteOutcome)
          → (let r : Result AuditError Unit × Logger =
                if long then (err record_too_large, l) else write_synced codec l content t e o in
              Fails r.0 → r.1.poisoned ≡ true)
      by_length true o h = absurd (h refl)
      by_length false synced h = absurd h
      by_length false (torn n) h = refl
      by_length false unsynced h = refl

  write_marshalled-poisons :
      (l : Logger) (content : Text) (e : Event) (outcome : WriteOutcome) (o : Option Text)
      → Fails (write_marshalled codec l content e outcome o).0
      → (write_marshalled codec l content e outcome o).1.poisoned ≡ true
  unfolding write_marshalled
  write_marshalled-poisons l content e outcome none h = refl
  write_marshalled-poisons l content e outcome (some t) h =
      write_line-poisons l content t e outcome h

  write_hashed-poisons :
      (l : Logger) (content : Text) (e : Event) (outcome : WriteOutcome)
      (r : Result AuditError Text)
      → Fails (write_hashed codec l content e outcome r).0
      → (write_hashed codec l content e outcome r).1.poisoned ≡ true
  unfolding write_hashed
  write_hashed-poisons l content e outcome (err x) h = refl
  write_hashed-poisons l content e outcome (ok k) h =
      write_marshalled-poisons l content (record e { hash = k }) outcome
        (codec.marshal (record e { hash = k })) h

  -- After an append that fails, other than for a record that is too long, the log accepts no event
  -- any more, and keeps the file as it is.
  pub append-IsShut :
      (l : Logger) (stamp : Text) (e : Event) (outcome : WriteOutcome)
      → Fails (append codec l stamp e outcome).0
      → IsShut (append codec l stamp e outcome).1
  unfolding append append_to
  append-IsShut l stamp e outcome = by_state l.poisoned l.file refl refl
    where
      by_state :
          (p : Bool) (f : Option Text)
          → l.poisoned ≡ p
          → l.file ≡ f
          → (let r : Result AuditError Unit × Logger = if p then (err unhealthy, l) else elim f [
            | none ↦ (err unhealthy, l)
            | some c ↦ append_to codec l c stamp e outcome
          ] in
              Fails r.0 → IsShut r.1)
      by_state true f p q h = IsShut-of_poisoned l p
      by_state false none p q h = IsShut-of_closed l q
      by_state false (some c) p q h = IsShut-of_poisoned (append_to codec l c stamp e outcome).1 (
          write_hashed-poisons l c (chained codec l stamp e) outcome
            (payload_hash codec (chained codec l stamp e)) h)
