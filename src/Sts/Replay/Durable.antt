-- ===== src/Sts/Replay/Durable.antt =====
-- `Consume` of internal/sts/replay.go keeps the file and the memory in step while its records are shorter
-- than the cap of the scanner, so that an identifier that is consumed by such a record is refused after a
-- restart too. A record at or over the cap leaves a file that cannot be read again.
use mathlib.Core.List.{map-append}
use agent_identity_plane.Prelude.{
  ◌≡◌, ◌≢◌, ◌<◌, ◌≤◌, refl, sym, ap, ◌∙◌, Bool, true, false, ◌||◌, List, [], ◌∷◌, ◌++◌, map, Option,
  none, some, arith, if◌then◌else◌, Bool-cases, inl, inr, ok, err, All-append, length,
}
use mathlib.Core.Path.{subst}
use agent_identity_plane.Prelude.Int.{ℤ, pos, ltb_ℤ, ◌≤ℤ◌, ◌<ℤ◌}
use agent_identity_plane.Prelude.Text.{Text, is_empty}
use agent_identity_plane.Prelude.Assoc.{lookup, IsMap, lookup-insert, lookup-purge}
use agent_identity_plane.Clock.{Time, unix}
use agent_identity_plane.Token.Claims.{replay_until}
use agent_identity_plane.Lines.{WriteOutcome, synced, unlines, unlines-append, max_line_bytes}
use agent_identity_plane.Sts.Replay.{
  replayed, line_too_long, ReplayRecord, Codec, ReplayCache, any_consumed, purge_locked,
  write_record, consume_locked, consume, is_past, recover,
}
use agent_identity_plane.Sts.Replay.SingleUse.{
  remembers, after, consume-remembers, consume_of_remembered, remembers_earlier,
}
use agent_identity_plane.Sts.Replay.Recovery.{
  IsJson, IsGood, IsStored, last_until-append, recover-remembers, recover_long,
}

module _ (codec : Codec) (IsUtf8 : Text → Type 0) (json : IsJson codec IsUtf8) where
  abbrev Stored : ReplayCache → List ReplayRecord → Type 0
  Stored = IsStored codec IsUtf8 json

  purge-Stored :
      (c : ReplayCache) (recs : List ReplayRecord) (now : Time)
      → IsMap c.seen
      → Stored c recs
      → Stored (purge_locked c now) recs
  unfolding purge_locked
  purge-Stored c recs now h s = record {
    content = s.content;
    good = s.good;
    backed = λ k d e.
        s.backed k d
          (kept (lookup k c.seen) (sym (lookup-purge (is_past (unix now)) k c.seen h) ∙ e));
  }
    where
      kept :
          {d : ℤ} (o : Option ℤ)
          → elim o [ none ↦ none | some v ↦ if is_past (unix now) v then none else some v ] ≡ some d
          → o ≡ some d
      kept none e = e
      kept (some v) e = ground arith

  appended_lines :
      (recs : List ReplayRecord) (r : ReplayRecord)
      → unlines (map codec.marshal recs) ++ (codec.marshal r ++ 10 ∷ [])
        ≡ unlines (map codec.marshal (recs ++ r ∷ []))
  appended_lines recs r =
      sym (unlines-append (map codec.marshal recs) (codec.marshal r ∷ []))
      ∙ ap unlines (sym (map-append codec.marshal recs (r ∷ [])))

  -- The record that a call writes.
  abbrev pub written : Text → ℤ → ReplayRecord
  written jti exp = record { jti = jti; until = replay_until exp }

  write_record-Stored :
      (c : ReplayCache) (recs : List ReplayRecord) (r : ReplayRecord)
      → Stored c recs
      → IsGood codec IsUtf8 json r
      → Stored (write_record codec c c.file r synced).1 (recs ++ r ∷ [])
  unfolding write_record
  write_record-Stored c recs r s g = rw s.content (record {
    content = ap some (appended_lines recs r);
    good = All-append (IsGood codec IsUtf8 json) recs (r ∷ []) s.good (g, tt);
    backed = λ k d e.
        rw last_until-append (ground (arith, lookup-insert r.jti k r.until c.seen, s.backed k d));
  })

  -- The records after a call, from those before it.
  abbrev records_after : Bool → List ReplayRecord → ReplayRecord → List ReplayRecord
  records_after true recs r = recs
  records_after false recs r = recs ++ r ∷ []

  consume_locked-Stored :
      (c : ReplayCache) (recs : List ReplayRecord) (now : Time) (jti : Text) (until : ℤ)
      (aliases : List Text)
      → Stored c recs
      → is_empty jti ≡ false
      → IsUtf8 jti
      → length (codec.marshal (record { jti = jti; until = until })) < max_line_bytes
      → pos 0 <ℤ unix now
      → Stored (consume_locked codec c now synced jti until aliases).1 (
          records_after
            (any_consumed c.seen (unix now) (jti ∷ aliases) || ltb_ℤ until (unix now))
            recs
            (record { jti = jti; until = until }))
  unfolding consume_locked
  consume_locked-Stored c recs now jti until aliases s n u short p =
      elim (Bool-cases (any_consumed c.seen (unix now) (jti ∷ aliases))) [
        | inl used ↦ rw used s
        | inr free ↦ rw free (elim (Bool-cases (ltb_ℤ until (unix now))) [
          | inl late ↦ rw late s
          | inr soon ↦ rw soon (
              write_record-Stored c recs (record { jti = jti; until = until }) s
                (record { named = n; utf8 = u; later = later_of soon; short = short }))
        ])
      ]
    where
      later_of : ltb_ℤ until (unix now) ≡ false → pos 0 <ℤ until
      later_of soon = ground arith

  -- A call whose write succeeds keeps the cache stored: its file is again a file of records that
  -- recovery can read, and backs the memory. The identifier must be UTF-8, the record shorter than the
  -- cap of the scanner, and the instant after 1970.
  pub consume-IsStored :
      (c : ReplayCache) (recs : List ReplayRecord) (now : Time) (jti : Text) (exp : ℤ)
      (aliases : List Text)
      → IsMap c.seen
      → IsStored codec IsUtf8 json c recs
      → IsUtf8 jti
      → length (codec.marshal (record { jti = jti; until = replay_until exp })) < max_line_bytes
      → pos 0 <ℤ unix now
      → (c' : ReplayCache) × (recs' : List ReplayRecord) × (after codec
            (some c)
            now
            synced
            jti
            exp
            aliases
          ≡ some c')
        × IsStored codec IsUtf8 json c' recs'
  unfolding consume
  consume-IsStored c recs now [] exp aliases h s u short p = (c, recs, refl, s)
  consume-IsStored c recs now (b ∷ jti) exp aliases h s u short p = (
    (consume_locked codec (purge_locked c now) now synced (b ∷ jti) (replay_until exp) aliases).1,
    records_after
        (any_consumed (purge_locked c now).seen (unix now) ((b ∷ jti) ∷ aliases)
          || ltb_ℤ (replay_until exp) (unix now))
        recs (record { jti = b ∷ jti; until = replay_until exp }),
    refl,
    consume_locked-Stored (purge_locked c now) recs now (b ∷ jti) (replay_until exp) aliases
        (purge-Stored c recs now h s) refl u short p,
  )

  -- A call for an identifier that is UTF-8 and not empty succeeds on a stored cache at an instant after
  -- 1970, its write is synced, and its record is shorter than the cap of the scanner. Then the file can
  -- be recovered at any instant up to the deadline, and on the recovered cache a call for the identifier
  -- at an instant up to the deadline is refused as a replay.
  pub consume_over_restart :
      (c : ReplayCache) (recs : List ReplayRecord) (now restart later : Time) (jti : Text)
      (exp exp' : ℤ) (aliases aliases' : List Text) (outcome : WriteOutcome)
      → IsMap c.seen
      → IsStored codec IsUtf8 json c recs
      → IsUtf8 jti
      → length (codec.marshal (record { jti = jti; until = replay_until exp })) < max_line_bytes
      → pos 0 <ℤ unix now
      → jti ≢ []
      → (consume codec (some c) now synced jti exp aliases).0 ≡ ok tt
      → unix restart ≤ℤ replay_until exp
      → unix later ≤ℤ replay_until exp
      → (d : ReplayCache) × (content : Text) × (c' : ReplayCache) × (after codec
            (some c)
            now
            synced
            jti
            exp
            aliases
          ≡ some d)
        × (d.file ≡ some content)
        × (recover codec content restart ≡ ok c')
        × ((consume codec (some c') later outcome jti exp' aliases').0 ≡ err replayed)
  consume_over_restart c recs now restart later jti exp exp' aliases aliases' outcome h s u short p
        n once r l =
      let (d, recs', is_d, stored) = consume-IsStored c recs now jti exp aliases h s u short p in
      let kept : remembers (some d) jti (replay_until exp) ≡ true =
        subst (λ o. remembers o jti (replay_until exp) ≡ true) is_d
          (consume-remembers codec (some c) now synced jti exp aliases once) in
      let (c', read, is_map, kept') =
        recover-remembers codec IsUtf8 json d recs' jti (replay_until exp) restart stored kept r in
      (
        d,
        unlines (map codec.marshal recs'),
        c',
        is_d,
        stored.content,
        read,
        consume_of_remembered codec (some c') later outcome jti exp' aliases' is_map n
            (remembers_earlier (some c') jti (unix later) (replay_until exp) l kept'),
      )

  write_record-file :
      (c : ReplayCache) (content : Text) (r : ReplayRecord)
      → c.file ≡ some content
      → (write_record codec c c.file r synced).1.file
        ≡ some (content ++ (codec.marshal r ++ 10 ∷ []))
  unfolding write_record
  write_record-file c content r e = rw e refl

  consume_locked-file :
      (c : ReplayCache) (content : Text) (now : Time) (jti : Text) (until : ℤ) (aliases : List Text)
      → c.file ≡ some content
      → (consume_locked codec c now synced jti until aliases).0 ≡ ok tt
      → (consume_locked codec c now synced jti until aliases).1.file
        ≡ some (content ++ (codec.marshal (record { jti = jti; until = until }) ++ 10 ∷ []))
  unfolding consume_locked
  consume_locked-file c content now jti until aliases e h =
      ground (arith, write_record-file c content (record { jti = jti; until = until }) e)

  -- A call that succeeds for a record at or over the cap of the scanner leaves a file that cannot be
  -- recovered: the cache does not open again.
  pub consume_long :
      (c : ReplayCache) (recs : List ReplayRecord) (now restart : Time) (jti : Text) (exp : ℤ)
      (aliases : List Text)
      → IsStored codec IsUtf8 json c recs
      → max_line_bytes ≤ length (codec.marshal (record { jti = jti; until = replay_until exp }))
      → (consume codec (some c) now synced jti exp aliases).0 ≡ ok tt
      → (d : ReplayCache) × (content : Text) × (after codec (some c) now synced jti exp aliases
          ≡ some d)
        × (d.file ≡ some content)
        × (recover codec content restart ≡ err line_too_long)
  unfolding consume
  consume_long c recs now restart [] exp aliases s n once = cc
  consume_long c recs now restart (b ∷ jti) exp aliases s n once =
      let r : ReplayRecord = record { jti = b ∷ jti; until = replay_until exp } in
      (
        (consume_locked codec (purge_locked c now) now synced (b ∷ jti) (replay_until exp)
            aliases).1,
        unlines (map codec.marshal recs) ++ (codec.marshal r ++ 10 ∷ []),
        refl,
        consume_locked-file (purge_locked c now) (unlines (map codec.marshal recs)) now (b ∷ jti)
            (replay_until exp) aliases (unfold purge_locked in s.content) once,
        rw (← unlines-append (map codec.marshal recs) (codec.marshal r ∷ []))
            (recover_long codec IsUtf8 json recs r restart s.good n),
      )
