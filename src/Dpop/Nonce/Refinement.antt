-- ===== src/Dpop/Nonce/Refinement.antt =====
-- The nonce cache against a ledger that keeps every nonce for ever (internal/dpop/nonce.go).
use agent_identity_plane.Prelude.{
  ℕ, ◌≡◌, refl, ap, ◌∙◌, true, false, Bool, not, ◌&&◌, List, [], ◌∷◌, Option, none, some, arith,
  if◌then◌else◌, Bool-cases, inl, inr,
}
use agent_identity_plane.Prelude.Int.{ℤ, ltb_ℤ, ◌≤ℤ◌, ≤ℤ_trans}
use agent_identity_plane.Prelude.Text.{Text, text_eq}
use agent_identity_plane.Prelude.Fields.{is_blank}
use agent_identity_plane.Prelude.Assoc.{
  lookup, purge, IsMap, lookup-insert, lookup-erase, lookup-purge, insert-IsMap, purge-IsMap,
  erase-IsMap,
}
use agent_identity_plane.Clock.{Time, unix, add}
use agent_identity_plane.Dpop.Nonce.{
  nonce_ttl, NonceCache, new_nonce_cache, gc_locked, new_nonce, store_nonce, issue, unexpired, has,
  forget, consume,
}

-- A call of a method, with what it takes from outside.
pub data NonceCall : Type 0 where
  issuing : Time → List ℕ → NonceCall
  asking : Text → Time → NonceCall
  consuming : Text → Time → NonceCall

-- A call's answer: a nonce, or whether a nonce is good.
pub data Answer : Type 0 where
  given : Text → Answer
  good : Bool → Answer

abbrev pub call_time : NonceCall → ℤ
call_time (issuing now bytes) = unix now
call_time (asking nonce now) = unix now
call_time (consuming nonce now) = unix now

abbrev kept : NonceCache → Text × Option NonceCache → Answer × NonceCache
kept c (n, none) = (given n, c)
kept c (n, some d) = (given n, d)

abbrev decided : NonceCache → Bool × Option NonceCache → Answer × NonceCache
decided c (b, none) = (good b, c)
decided c (b, some d) = (good b, d)

unfoldable pub call : NonceCache → NonceCall → Answer × NonceCache
unfolding issue has consume
call c (issuing now bytes) = kept c (issue (some c) now bytes)
call c (asking nonce now) = (good (has (some c) nonce now), c)
call c (consuming nonce now) = decided c (consume (some c) nonce now)

unfoldable pub calls : NonceCache → List NonceCall → List Answer
unfolding call
calls c [] = []
calls c (o ∷ os) = (call c o).0 ∷ calls (call c o).1 os

-- The ledger: the last second of each nonce that has been issued and not consumed since. It collects
-- nothing and has no order.
abbrev pub Ledger : Type 0
Ledger = Text → Option ℤ

abbrev pub empty_ledger : Ledger
empty_ledger n = none

abbrev good_in : Ledger → Text → Time → Bool
good_in led nonce now = not (is_blank nonce) && unexpired (unix now) (led nonce)

abbrev strike : Ledger → Text → Ledger
strike led nonce m = if text_eq nonce m then none else led m

abbrev enter : Ledger → Text → ℤ → Ledger
enter led nonce until m = if text_eq nonce m then some until else led m

unfoldable pub ledger_call : Ledger → NonceCall → Answer × Ledger
ledger_call led (issuing now bytes) =
    (given (new_nonce bytes), enter led (new_nonce bytes) (unix (add now nonce_ttl)))
ledger_call led (asking nonce now) = (good (good_in led nonce now), led)
ledger_call led (consuming nonce now) =
    (good (good_in led nonce now), if is_blank nonce then led else strike led nonce)

unfoldable pub ledger_calls : Ledger → List NonceCall → List Answer
unfolding ledger_call
ledger_calls led [] = []
ledger_calls led (o ∷ os) = (ledger_call led o).0 ∷ ledger_calls (ledger_call led o).1 os

-- No call is made before the one before it.
abbrev pub InOrder : ℤ → List NonceCall → Type 0
InOrder t [] = Unit
InOrder t (o ∷ os) = (t ≤ℤ call_time o) × InOrder (call_time o) os

-- From the second on, the cache and the ledger answer alike for every nonce.
abbrev Agrees : ℤ → NonceCache → Ledger → Type 0
Agrees t c led =
    IsMap c.issued
    × ((n : Text) (s : ℤ) → t ≤ℤ s → unexpired s (lookup n c.issued) ≡ unexpired s (led n))

purged-unexpired :
    (now s : ℤ) (o : Option ℤ)
    → now ≤ℤ s
    → unexpired s (elim o [ none ↦ none | some v ↦ if ltb_ℤ v now then none else some v ])
      ≡ unexpired s o
purged-unexpired now s none h = refl
purged-unexpired now s (some v) h = ground arith

Agrees-later : (t u : ℤ) (c : NonceCache) (led : Ledger) → t ≤ℤ u → Agrees t c led → Agrees u c led
Agrees-later t u c led h (m, a) = (m, λ n s k. a n s (≤ℤ_trans t u s h k))

store_nonce-Agrees :
    (c : NonceCache) (led : Ledger) (nonce : Text) (now : Time)
    → Agrees (unix now) c led
    → Agrees (unix now) (store_nonce c nonce now) (enter led nonce (unix (add now nonce_ttl)))
unfolding store_nonce gc_locked
store_nonce-Agrees c led nonce now (m, a) =
    let past : ℤ → Bool = λ until. ltb_ℤ until (unix now) in
    (
      insert-IsMap nonce (unix (add now nonce_ttl)) (purge past c.issued)
          (purge-IsMap past c.issued m),
      λ n s k.
          rw lookup-insert (
            at_key n s (text_eq nonce n) (lookup n (purge past c.issued)) (purged n s k ∙ a n s k)),
    )
  where
    purged :
        (n : Text) (s : ℤ)
        → unix now ≤ℤ s
        → unexpired s (lookup n (purge (λ until. ltb_ℤ until (unix now)) c.issued))
          ≡ unexpired s (lookup n c.issued)
    purged n s k =
        rw (lookup-purge (λ until. ltb_ℤ until (unix now)) n c.issued m)
          (purged-unexpired (unix now) s (lookup n c.issued) k)

    at_key :
        (n : Text) (s : ℤ) (b : Bool) (o : Option ℤ)
        → unexpired s o ≡ unexpired s (led n)
        → unexpired s (if b then some (unix (add now nonce_ttl)) else o)
          ≡ unexpired s (if b then some (unix (add now nonce_ttl)) else led n)
    at_key n s true o h = refl
    at_key n s false o h = h

forget-Agrees :
    (t : ℤ) (c : NonceCache) (led : Ledger) (nonce : Text)
    → Agrees t c led
    → Agrees t (forget c nonce) (strike led nonce)
forget-Agrees t c led nonce (m, a) = (
  erase-IsMap nonce c.issued m,
  λ n s k. rw lookup-erase (at_key n s (text_eq nonce n) (a n s k)),
)
  where
    at_key :
        (n : Text) (s : ℤ) (b : Bool)
        → unexpired s (lookup n c.issued) ≡ unexpired s (led n)
        → unexpired s (if b then none else lookup n c.issued)
          ≡ unexpired s (if b then none else led n)
    at_key n s true h = refl
    at_key n s false h = h

call-Agrees :
    (t : ℤ) (c : NonceCache) (led : Ledger) (o : NonceCall)
    → t ≤ℤ call_time o
    → Agrees t c led
    → ((call c o).0 ≡ (ledger_call led o).0)
      × Agrees (call_time o) (call c o).1 (ledger_call led o).1
unfolding call issue has consume ledger_call
call-Agrees t c led (issuing now bytes) h a =
    (refl, store_nonce-Agrees c led (new_nonce bytes) now (Agrees-later t (unix now) c led h a))
call-Agrees t c led (asking nonce now) h (m, a) = (
  ap (λ b. good (not (is_blank nonce) && b)) (a nonce (unix now) h),
  Agrees-later t (unix now) c led h (m, a),
)
call-Agrees t c led (consuming nonce now) h (m, a) = elim (Bool-cases (is_blank nonce)) [
  | inl blank ↦ rw blank (refl, Agrees-later t (unix now) c led h (m, a))
  | inr named ↦ rw named (
    ap (λ b. good b) (a nonce (unix now) h),
    forget-Agrees (unix now) c led nonce (Agrees-later t (unix now) c led h (m, a)),
  )
]

calls-Agrees :
    (t : ℤ) (c : NonceCache) (led : Ledger) (os : List NonceCall)
    → Agrees t c led
    → InOrder t os
    → calls c os ≡ ledger_calls led os
unfolding calls ledger_calls
calls-Agrees t c led [] a h = refl
calls-Agrees t c led (o ∷ os) a (i, h) =
    let (same, next) = call-Agrees t c led o i a in
    let rest = calls-Agrees (call_time o) (call c o).1 (ledger_call led o).1 os next h in
    rw same (ap (λ x. (ledger_call led o).0 ∷ x) rest)

-- In any sequence of calls that are made one after the other, a new cache answers every call as the
-- ledger does, which keeps each nonce to its last second or to its consumption, whichever comes
-- first: what the cache collects and how it orders its entries is not seen.
pub calls-refines :
    (t : ℤ) (os : List NonceCall)
    → InOrder t os
    → calls new_nonce_cache os ≡ ledger_calls empty_ledger os
unfolding new_nonce_cache
calls-refines t os h =
    calls-Agrees t new_nonce_cache empty_ledger os
      (unfold new_nonce_cache in (tt, λ n s k. (unfold lookup in refl))) h
