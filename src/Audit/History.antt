-- ===== src/Audit/History.antt =====
-- The log of internal/audit/logger.go over its whole life: `Append` after `Append`, then `recover`.
use mathlib.Core.Path.{subst}
use agent_identity_plane.Prelude.{
  ℕ, suc, ◌+◌, ◌^◌, ◌<◌, ◌≡◌, refl, ap, ◌∙◌, false, List, [], ◌∷◌, some, arith, ok, All, length,
}
use agent_identity_plane.Prelude.Text.{Text}
use agent_identity_plane.Prelude.Utf8.{is_valid}
use agent_identity_plane.Lines.{WriteOutcome, unlines}
use agent_identity_plane.Audit.{Event, Logger, Codec, genesis_prev_hash, append, recover}
use agent_identity_plane.Audit.Canonical.{IsBounded}
use agent_identity_plane.Audit.Linked.{IsJson, Entry, IsStored, texts}
use agent_identity_plane.Audit.Appending.{IsNamed, append-IsStored, recover_of_healthy}

-- A call of `Append`: the time of the clock, the event, and what becomes of the write.
abbrev pub Call : Type 0
Call = Text × Event × WriteOutcome

-- The log that `NewLogger` makes of a file that is new.
abbrev pub new_log : Logger
new_log = record {
  file = some [];
  prev_hash = genesis_prev_hash;
  chain_index = 0;
  poisoned = false;
}

module _ (codec : Codec) (json : IsJson codec) where
  -- The calls are made in turn, each succeeds, and the last leaves the log.
  abbrev pub Appended : Logger → List Call → Logger → Type 0
  Appended l [] l' = l ≡ l'
  Appended l ((stamp, e, outcome) ∷ calls) l' =
      ((append codec l stamp e outcome).0 ≡ ok tt)
      × Appended (append codec l stamp e outcome).1 calls l'

  -- The time is a bounded text, and the event names its type and its reason.
  abbrev pub IsProper : Call → Type 0
  IsProper (stamp, e, outcome) = IsBounded stamp × IsNamed codec json e

  -- The file recovers to the log, which is healthy and stands at the index.
  abbrev pub Recovers : ℕ → Logger → Type 0
  Recovers index l =
      (content : Text) × (l.file ≡ some content)
      × (recover codec content ≡ ok l)
      × (l.poisoned ≡ false)
      × (l.chain_index ≡ index)

  appends-Recovers :
      (l l' : Logger) (es : List (Entry codec)) (index : ℕ) (calls : List Call)
      → IsStored codec l es
      → l.poisoned ≡ false
      → l.chain_index ≡ index
      → All IsProper calls
      → index + length calls < 2 ^ 64
      → Appended l calls l'
      → Recovers (index + length calls) l'
  appends-Recovers l l' es index [] s healthy at proper small same =
      subst (λ m. Recovers (index + 0) m) same
        (
          unlines (texts codec es),
          s.content,
          recover_of_healthy codec json l es s healthy,
          healthy,
          omega (arith, at),
        )
  appends-Recovers l l' es index ((stamp, e, outcome) ∷ calls) s healthy at ((bs, named), proper)
        small (good, rest) =
      let (h, t, _, stored, well, further, _) =
        append-IsStored codec json l es stamp e outcome s healthy bs named
          (omega (arith, at, small)) good in
      subst (λ n. Recovers n l') (suc_moves index (length calls))
        (appends-Recovers (append codec l stamp e outcome).1 l' _ (suc index) calls stored well
          (further ∙ ap suc at) proper (omega (arith, small)) rest)
    where
      suc_moves : (m n : ℕ) → suc m + n ≡ m + suc n
      suc_moves m n = omega arith

  new_log-IsStored : IsStored codec new_log []
  unfolding is_valid
  new_log-IsStored = record {
    content = refl;
    chain = tt;
    end = refl;
    bounded = (refl, omega arith);
    named = refl;
  }

  -- However many appends are made in turn on a new log, below the last index, with times that are bounded
  -- texts and with events that name their type and their reason: where all of them succeed, whatever
  -- has become of their writes, the file recovers, and to exactly the log that the last of them has left,
  -- which is healthy and has the number of the appends as its index.
  pub appends_recover :
      (calls : List Call) (l : Logger)
      → All IsProper calls
      → length calls < 2 ^ 64
      → Appended new_log calls l
      → Recovers (length calls) l
  appends_recover calls l proper small made =
      subst (λ n. Recovers n l) (from_zero (length calls))
        (appends-Recovers new_log l [] 0 calls new_log-IsStored refl refl proper
          (omega (arith, small)) made)
    where
      from_zero : (n : ℕ) → 0 + n ≡ n
      from_zero n = omega arith
