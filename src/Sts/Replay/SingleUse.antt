-- ===== src/Sts/Replay/SingleUse.antt =====
-- A consumed identifier is not consumed again before its deadline (internal/sts/replay.go).
use agent_identity_plane.Prelude.{
  ◌≡◌, ◌≢◌, refl, inl, inr, Bool, true, false, List, [], ◌∷◌, Option, none, some, arith,
  if◌then◌else◌, Bool-cases, ok, err, All,
}
use agent_identity_plane.Prelude.Int.{ℤ, ltb_ℤ, ◌≤ℤ◌}
use agent_identity_plane.Prelude.Text.{Text, is_empty, text_eq, text_eq_iff}
use agent_identity_plane.Prelude.Assoc.{
  Assoc, lookup, purge, IsMap, lookup-insert, lookup-purge, insert-IsMap, purge-IsMap,
}
use agent_identity_plane.Clock.{Time, unix}
use agent_identity_plane.Token.Claims.{replay_until}
use agent_identity_plane.Lines.{WriteOutcome, synced, torn, unsynced}
use agent_identity_plane.Sts.Replay.{
  replayed, ReplayRecord, Codec, ReplayCache, live, any_consumed, purge_locked, write_record,
  consume_locked, consume, is_past, new_replay_cache,
}

-- The cache holds the identifier with a deadline at the given second or later.
abbrev pub remembers : Option ReplayCache → Text → ℤ → Bool
remembers none k t = false
remembers (some c) k t = live t (lookup k c.seen)

-- The memory of a cache is a map.
abbrev pub IsCache : Option ReplayCache → Type 0
IsCache none = Unit
IsCache (some c) = IsMap c.seen

pub IsCache-new : IsCache (some new_replay_cache)
unfolding new_replay_cache
IsCache-new = tt

live_earlier : (s t : ℤ) (o : Option ℤ) → s ≤ℤ t → live t o ≡ true → live s o ≡ true
live_earlier s t none h k = cc
live_earlier s t (some u) h k = ground arith

live_purged :
    (now t : ℤ) (k : Text) (m : Assoc ℤ)
    → IsMap m
    → now ≤ℤ t
    → live t (lookup k m) ≡ true
    → live t (lookup k (purge (is_past now) m)) ≡ true
live_purged now t k m h n e = rw (lookup-purge (is_past now) k m h) (step (lookup k m) e)
  where
    step :
        (o : Option ℤ)
        → live t o ≡ true
        → live t (elim o [ none ↦ none | some v ↦ if is_past now v then none else some v ]) ≡ true
    step none e = cc
    step (some v) e = ground arith

module _ (codec : Codec) where
  -- A write leaves the entries of other identifiers, and the memory a map.
  write_record-keeps :
      (c : ReplayCache) (content : Option Text) (r : ReplayRecord) (outcome : WriteOutcome)
      (k : Text) (t : ℤ)
      → IsMap c.seen
      → text_eq r.jti k ≡ false
      → live t (lookup k c.seen) ≡ true
      → IsMap (write_record codec c content r outcome).1.seen
        × (live t (lookup k (write_record codec c content r outcome).1.seen) ≡ true)
  unfolding write_record
  write_record-keeps c none r outcome k t h d e =
      (insert-IsMap r.jti r.until c.seen h, rw lookup-insert (rw d e))
  write_record-keeps c (some content) r synced k t h d e =
      (insert-IsMap r.jti r.until c.seen h, rw lookup-insert (rw d e))
  write_record-keeps c (some content) r (torn n) k t h d e = (h, e)
  write_record-keeps c (some content) r unsynced k t h d e = (h, e)

  write_record-IsMap :
      (c : ReplayCache) (content : Option Text) (r : ReplayRecord) (outcome : WriteOutcome)
      → IsMap c.seen
      → IsMap (write_record codec c content r outcome).1.seen
  unfolding write_record
  write_record-IsMap c none r outcome h = insert-IsMap r.jti r.until c.seen h
  write_record-IsMap c (some content) r synced h = insert-IsMap r.jti r.until c.seen h
  write_record-IsMap c (some content) r (torn n) h = h
  write_record-IsMap c (some content) r unsynced h = h

  -- A successful write remembers the identifier to its deadline.
  write_record-remembers :
      (c : ReplayCache) (content : Option Text) (r : ReplayRecord) (outcome : WriteOutcome)
      → (write_record codec c content r outcome).0 ≡ ok tt
      → lookup r.jti (write_record codec c content r outcome).1.seen ≡ some r.until
  unfolding write_record
  write_record-remembers c none r outcome h =
      rw lookup-insert (ground (arith, text_eq_iff r.jti r.jti))
  write_record-remembers c (some content) r synced h =
      rw lookup-insert (ground (arith, text_eq_iff r.jti r.jti))
  write_record-remembers c (some content) r (torn n) h = cc
  write_record-remembers c (some content) r unsynced h = cc

  consumed_live :
      (c : ReplayCache) (now : ℤ) (jti : Text) (aliases : List Text)
      → is_empty jti ≡ false
      → live now (lookup jti c.seen) ≡ true
      → any_consumed c.seen now (jti ∷ aliases) ≡ true
  unfolding any_consumed
  consumed_live c now jti aliases h e = ground arith

  differ_of_free :
      (c : ReplayCache) (now : ℤ) (jti : Text) (aliases : List Text) (k : Text)
      → is_empty jti ≡ false
      → live now (lookup k c.seen) ≡ true
      → any_consumed c.seen now (jti ∷ aliases) ≡ false
      → text_eq jti k ≡ false
  differ_of_free c now jti aliases k n e free = elim (Bool-cases (text_eq jti k)) [
    | inl same ↦
        let p : jti ≡ k = (text_eq_iff jti k).0 same in
        cc (consumed_live c now jti aliases n (rw p e), free)
    | inr differ ↦ differ
  ]

  consume_locked-keeps :
      (c : ReplayCache) (now : Time) (outcome : WriteOutcome) (jti : Text) (until : ℤ)
      (aliases : List Text) (k : Text) (t : ℤ)
      → is_empty jti ≡ false
      → unix now ≤ℤ t
      → IsMap c.seen
      → live t (lookup k c.seen) ≡ true
      → let c' = (consume_locked codec c now outcome jti until aliases).1 in
        IsMap c'.seen × (live t (lookup k c'.seen) ≡ true)
  unfolding consume_locked
  consume_locked-keeps c now outcome jti until aliases k t n le h e =
      elim (Bool-cases (any_consumed c.seen (unix now) (jti ∷ aliases))) [
        | inl used ↦ rw used (h, e)
        | inr free ↦ rw free (elim (Bool-cases (ltb_ℤ until (unix now))) [
          | inl late ↦ rw late (h, e)
          | inr soon ↦ rw soon (
              write_record-keeps c c.file (record { jti = jti; until = until }) outcome k t h
                (differ_of_free c (unix now) jti aliases k n
                  (live_earlier (unix now) t (lookup k c.seen) le e) free)
                e)
        ])
      ]

  consume_locked-IsMap :
      (c : ReplayCache) (now : Time) (outcome : WriteOutcome) (jti : Text) (until : ℤ)
      (aliases : List Text)
      → IsMap c.seen
      → IsMap (consume_locked codec c now outcome jti until aliases).1.seen
  unfolding consume_locked
  consume_locked-IsMap c now outcome jti until aliases h =
      ground (arith, write_record-IsMap c c.file (record { jti = jti; until = until }) outcome h)

  consume_locked-remembers :
      (c : ReplayCache) (now : Time) (outcome : WriteOutcome) (jti : Text) (until : ℤ)
      (aliases : List Text)
      → (consume_locked codec c now outcome jti until aliases).0 ≡ ok tt
      → lookup jti (consume_locked codec c now outcome jti until aliases).1.seen ≡ some until
  unfolding consume_locked
  consume_locked-remembers c now outcome jti until aliases h =
      ground (arith, write_record-remembers c c.file (record { jti = jti; until = until }) outcome)

  -- The state that a call leaves.
  abbrev pub after :
      Option ReplayCache → Time → WriteOutcome → Text → ℤ → List Text → Option ReplayCache
  after c now outcome jti exp aliases = (consume codec c now outcome jti exp aliases).1

  pub consume-IsCache :
      (c : Option ReplayCache) (now : Time) (outcome : WriteOutcome) (jti : Text) (exp : ℤ)
      (aliases : List Text)
      → IsCache c
      → IsCache (after c now outcome jti exp aliases)
  unfolding consume
  consume-IsCache none now outcome jti exp aliases h = tt
  consume-IsCache (some c) now outcome [] exp aliases h = h
  consume-IsCache (some c) now outcome (b ∷ jti) exp aliases h =
      consume_locked-IsMap (purge_locked c now) now outcome (b ∷ jti) (replay_until exp) aliases
        (unfold purge_locked in purge-IsMap (is_past (unix now)) c.seen h)

  -- Up to its deadline an identifier stays remembered through any other call.
  pub consume-keeps :
      (c : Option ReplayCache) (now : Time) (outcome : WriteOutcome) (jti : Text) (exp : ℤ)
      (aliases : List Text) (k : Text) (t : ℤ)
      → IsCache c
      → unix now ≤ℤ t
      → remembers c k t ≡ true
      → remembers (after c now outcome jti exp aliases) k t ≡ true
  unfolding consume
  consume-keeps none now outcome jti exp aliases k t h le e = cc
  consume-keeps (some c) now outcome [] exp aliases k t h le e = e
  consume-keeps (some c) now outcome (b ∷ jti) exp aliases k t h le e =
      (consume_locked-keeps (purge_locked c now) now outcome (b ∷ jti) (replay_until exp) aliases k
        t refl le (unfold purge_locked in purge-IsMap (is_past (unix now)) c.seen h)
        (unfold purge_locked in live_purged (unix now) t k c.seen h le e)).1

  -- A call that succeeds remembers its identifier to the deadline.
  pub consume-remembers :
      (c : Option ReplayCache) (now : Time) (outcome : WriteOutcome) (jti : Text) (exp : ℤ)
      (aliases : List Text)
      → (consume codec c now outcome jti exp aliases).0 ≡ ok tt
      → remembers (after c now outcome jti exp aliases) jti (replay_until exp) ≡ true
  unfolding consume
  consume-remembers none now outcome jti exp aliases h = cc
  consume-remembers (some c) now outcome [] exp aliases h = cc
  consume-remembers (some c) now outcome (b ∷ jti) exp aliases h =
      rw
        (consume_locked-remembers (purge_locked c now) now outcome (b ∷ jti) (replay_until exp)
          aliases h)
        (ground arith)

  -- A call for an identifier that is remembered is refused as a replay, and forgets nothing of it.
  pub consume_of_remembered :
      (c : Option ReplayCache) (now : Time) (outcome : WriteOutcome) (jti : Text) (exp : ℤ)
      (aliases : List Text)
      → IsCache c
      → jti ≢ []
      → remembers c jti (unix now) ≡ true
      → (consume codec c now outcome jti exp aliases).0 ≡ err replayed
  unfolding consume consume_locked
  consume_of_remembered none now outcome jti exp aliases h n e = cc
  consume_of_remembered (some c) now outcome [] exp aliases h n e = absurd (n refl)
  consume_of_remembered (some c) now outcome (b ∷ jti) exp aliases h n e = rw (
      consumed_live (purge_locked c now) (unix now) (b ∷ jti) aliases refl (
        unfold purge_locked in
        live_purged (unix now) (unix now) (b ∷ jti) c.seen h (omega arith) e))

pub remembers_earlier :
    (c : Option ReplayCache) (j : Text) (s t : ℤ)
    → s ≤ℤ t
    → remembers c j t ≡ true
    → remembers c j s ≡ true
remembers_earlier none j s t h e = e
remembers_earlier (some c) j s t h e = live_earlier s t (lookup j c.seen) h e

-- A call of `Consume`.
pub record Call : Type 0 where
  pub now : Time
  pub outcome : WriteOutcome
  pub jti : Text
  pub exp : ℤ
  pub aliases : List Text

module _ (codec : Codec) where
  abbrev pub step : Option ReplayCache → Call → Option ReplayCache
  step c k = after codec c k.now k.outcome k.jti k.exp k.aliases

  -- The state after a list of calls.
  unfoldable pub run_calls : Option ReplayCache → List Call → Option ReplayCache
  run_calls c [] = c
  run_calls c (k ∷ ks) = run_calls (step c k) ks

  abbrev pub Until : ℤ → List Call → Type 0
  Until t = All (λ k. unix k.now ≤ℤ t)

  pub run_calls-IsCache :
      (c : Option ReplayCache) (ks : List Call) → IsCache c → IsCache (run_calls c ks)
  unfolding run_calls
  run_calls-IsCache c [] h = h
  run_calls-IsCache c (k ∷ ks) h =
      run_calls-IsCache (step c k) ks
        (consume-IsCache codec c k.now k.outcome k.jti k.exp k.aliases h)

  run_calls-keeps :
      (c : Option ReplayCache) (ks : List Call) (j : Text) (t : ℤ)
      → IsCache c
      → Until t ks
      → remembers c j t ≡ true
      → remembers (run_calls c ks) j t ≡ true
  unfolding run_calls
  run_calls-keeps c [] j t h u e = e
  run_calls-keeps c (k ∷ ks) j t h (le, u) e =
      run_calls-keeps (step c k) ks j t
        (consume-IsCache codec c k.now k.outcome k.jti k.exp k.aliases h) u
        (consume-keeps codec c k.now k.outcome k.jti k.exp k.aliases j t h le e)

  -- After a call that consumed an identifier, and whatever other calls up to its deadline, a second
  -- call for it at an instant up to the deadline is refused as a replay.
  pub consume_single_use :
      (c : Option ReplayCache) (first : Call) (between : List Call) (second : Call)
      → IsCache c
      → (consume codec c first.now first.outcome first.jti first.exp first.aliases).0 ≡ ok tt
      → Until (replay_until first.exp) between
      → second.jti ≡ first.jti
      → first.jti ≢ []
      → unix second.now ≤ℤ replay_until first.exp
      → (consume codec
          (run_calls (step c first) between)
          second.now
          second.outcome
          second.jti
          second.exp
          second.aliases).0
        ≡ err replayed
  consume_single_use c first between second h once u same n le =
      let t = replay_until first.exp in
      let start = step c first in
      let kept : remembers (run_calls start between) first.jti t ≡ true =
        run_calls-keeps start between first.jti t
          (consume-IsCache codec c first.now first.outcome first.jti first.exp first.aliases h) u
          (consume-remembers codec c first.now first.outcome first.jti first.exp first.aliases
            once) in
      rw same (
        consume_of_remembered codec (run_calls start between) second.now second.outcome first.jti
          second.exp second.aliases
          (run_calls-IsCache start between
            (consume-IsCache codec c first.now first.outcome first.jti first.exp first.aliases h))
          n (remembers_earlier (run_calls start between) first.jti (unix second.now) t le kept))
