-- ===== src/Sts/Replay/Runs.antt =====
-- Whole histories of the replay cache (internal/sts/replay.go).
use agent_identity_plane.Prelude.{
  ◌≡◌, ◌≢◌, refl, sym, ap, ◌∙◌, inl, inr, true, List, [], ◌∷◌, ◌++◌, Option, none, some, arith,
  Result, ok, err, All-append, Bool-cases,
}
use agent_identity_plane.Prelude.Int.{ℤ, ltb_ℤ, ◌≤ℤ◌, ≤ℤ_trans}
use agent_identity_plane.Prelude.Text.{is_empty}
use agent_identity_plane.Clock.{Time, unix}
use agent_identity_plane.Token.Claims.{replay_until}
use agent_identity_plane.Sts.Replay.{
  Codec, ReplayCache, ReplayError, replayed, consume, consume_locked, purge_locked,
}
use agent_identity_plane.Sts.Replay.SingleUse.{
  IsCache, Call, step, run_calls, Until, consume_single_use,
}

consume_locked_late :
    (codec : Codec) (c : ReplayCache) (now : Time) (call : Call)
    → ltb_ℤ (replay_until call.exp) (unix now) ≡ true
    → (consume_locked codec c now call.outcome call.jti (replay_until call.exp) call.aliases).0
      ≡ err replayed
unfolding consume_locked
consume_locked_late codec c now call h = ground arith

module _ (codec : Codec) where
  Until-mono : (s t : ℤ) → s ≤ℤ t → (ks : List Call) → Until codec s ks → Until codec t ks
  Until-mono s t le [] u = tt
  Until-mono s t le (k ∷ ks) (e, u) = (≤ℤ_trans (unix k.now) s t e le, Until-mono s t le ks u)

  -- `Consume` on a call.
  abbrev pub answer : Option ReplayCache → Call → Result ReplayError Unit
  answer c k = (consume codec c k.now k.outcome k.jti k.exp k.aliases).0

  -- A cache that lives refuses an identifier whose deadline has passed.
  answer_late :
      (c : Option ReplayCache) (k : Call)
      → ltb_ℤ (replay_until k.exp) (unix k.now) ≡ true
      → answer c k ≢ ok tt
  unfolding consume
  answer_late none k h e = cc
  answer_late (some c) k h e = elim (Bool-cases (is_empty k.jti)) [
    | inl n ↦ ground (arith, n, e)
    | inr n ↦ ground (arith, n, e, consume_locked_late codec (purge_locked c k.now) k.now k h)
  ]

  pub nonempty_of_ok : (c : Option ReplayCache) (k : Call) → answer c k ≡ ok tt → k.jti ≢ []
  unfolding consume
  nonempty_of_ok none k h e = cc
  nonempty_of_ok (some c) k h e = ground (arith, e, h, ap is_empty e)

  -- An identifier that was consumed is never consumed again, if no call in between comes later than
  -- the second one.
  pub consume_never_again :
      (c : Option ReplayCache) (first : Call) (between : List Call) (second : Call)
      → IsCache c
      → answer c first ≡ ok tt
      → Until codec (unix second.now) between
      → second.jti ≡ first.jti
      → second.exp ≡ first.exp
      → answer (run_calls codec (step codec c first) between) second ≢ ok tt
  consume_never_again c first between second h once order same deadline again =
      elim (Bool-cases (ltb_ℤ (replay_until second.exp) (unix second.now))) [
        | inl late ↦ answer_late (run_calls codec (step codec c first) between) second late again
        | inr soon ↦
            let le : unix second.now ≤ℤ replay_until first.exp =
              rw (sym deadline) (ground (arith, soon)) in
            let refused =
              consume_single_use codec c first between second h once
                (Until-mono (unix second.now) (replay_until first.exp) le between order) same
                (nonempty_of_ok c first once) le in
            cc (refused, again)
      ]

-- What a list of calls does, and one after another.
module _ (codec : Codec) where
  pub run_calls-append :
      (cache : Option ReplayCache) (ks ls : List Call)
      → run_calls codec cache (ks ++ ls) ≡ run_calls codec (run_calls codec cache ks) ls
  unfolding run_calls
  run_calls-append cache [] ls = refl
  run_calls-append cache (k ∷ ks) ls = run_calls-append (step codec cache k) ks ls

  -- A list of calls up to the second leads from one cache to the other.
  abbrev pub IsTrace : ℤ → Option ReplayCache → Option ReplayCache → Type 0
  IsTrace t a b = (ks : List Call) × Until codec t ks × (b ≡ run_calls codec a ks)

  pub IsTrace-stay : (t : ℤ) (a b : Option ReplayCache) → b ≡ a → IsTrace t a b
  IsTrace-stay t a b e = ([], tt, (unfold run_calls in e))

  pub IsTrace-step :
      (t : ℤ) (a b : Option ReplayCache) (k : Call)
      → unix k.now ≤ℤ t
      → b ≡ step codec a k
      → IsTrace t a b
  IsTrace-step t a b k h e = (k ∷ [], (h, tt), (unfold run_calls in e))

  pub IsTrace-join :
      (t : ℤ) (a b c : Option ReplayCache) → IsTrace t a b → IsTrace t b c → IsTrace t a c
  IsTrace-join t a b c (ks, u, e) (ls, v, f) = (
    ks ++ ls,
    All-append (λ k. unix k.now ≤ℤ t) ks ls u v,
    f ∙ ap (λ s. run_calls codec s ls) e ∙ sym (run_calls-append a ks ls),
  )
