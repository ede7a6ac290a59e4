-- ===== src/Sts/Replay/Recovery.antt =====
-- A consumed identifier stays consumed over a restart (internal/sts/replay.go): what `Consume` writes,
-- `recover` reads.
use agent_identity_plane.Prelude.{
  ◌≡◌, ◌≤◌, ◌<◌, refl, Bool, true, false, List, [], ◌∷◌, ◌++◌, map, Option, none, some, arith,
  if◌then◌else◌, ok, err, All, length, append-nil,
}
use agent_identity_plane.Prelude.Int.{ℤ, pos, ◌≤ℤ◌, ◌<ℤ◌, ≤ℤ_trans}
use agent_identity_plane.Prelude.Text.{Text, is_empty, text_eq, codes}
use agent_identity_plane.Prelude.Assoc.{Assoc, lookup, insert, IsMap, lookup-insert, insert-IsMap}
use agent_identity_plane.Clock.{Time, unix}
use agent_identity_plane.Token.Claims.{contains}
use agent_identity_plane.Lines.{
  Scanned, line, too_long, unlines, IsLine, drop_cr, IsReadable, scan_lines-unlines,
  scan_lines-too_long, max_line_bytes,
}
use agent_identity_plane.Sts.Replay.{
  line_too_long, ReplayRecord, Codec, ReplayCache, live, is_past, decode_replay_record,
  recover_lines, recover,
}
use agent_identity_plane.Sts.Replay.SingleUse.{remembers, IsCache}

-- What the code relies on of encoding/json: a record whose identifier is valid UTF-8 is written on
-- one line that is not empty, and decoding the line gives the record back.
pub record IsJson (codec : Codec) (IsUtf8 : Text → Type 0) : Type 0 where
  pub keys-marshal :
      (r : ReplayRecord) → codec.keys (codec.marshal r) ≡ some (codes "jti" ∷ codes "until" ∷ [])
  pub strict-marshal : (r : ReplayRecord) → IsUtf8 r.jti → codec.strict (codec.marshal r) ≡ ok r
  pub marshal-IsLine : (r : ReplayRecord) → IsLine (codec.marshal r)
  pub marshal-drop_cr : (r : ReplayRecord) → drop_cr (codec.marshal r) ≡ codec.marshal r
  pub marshal-ne-nil : (r : ReplayRecord) → is_empty (codec.marshal r) ≡ false

-- The deadline of the last record for an identifier.
abbrev pub last_until : Option ℤ → Text → List ReplayRecord → Option ℤ
last_until u k [] = u
last_until u k (r ∷ recs) = last_until (if text_eq r.jti k then some r.until else u) k recs

pub last_until-append :
    (u : Option ℤ) (k : Text) (recs : List ReplayRecord) (r : ReplayRecord)
    → last_until u k (recs ++ r ∷ [])
      ≡ (if text_eq r.jti k then some r.until else last_until u k recs)
last_until-append u k [] r = refl
last_until-append u k (q ∷ recs) r =
    last_until-append (if text_eq q.jti k then some q.until else u) k recs r

module _ (codec : Codec) (IsUtf8 : Text → Type 0) (json : IsJson codec IsUtf8) where
  -- A record that recovery can read.
  pub record IsGood (r : ReplayRecord) : Type 0 where
    pub named : is_empty r.jti ≡ false
    pub utf8 : IsUtf8 r.jti
    pub later : pos 0 <ℤ r.until
    pub short : length (codec.marshal r) < max_line_bytes

  decode_marshal :
      (r : ReplayRecord) → IsGood r → decode_replay_record codec (codec.marshal r) ≡ ok r
  unfolding decode_replay_record contains text_eq
  decode_marshal r g = rw (json.keys-marshal r) (rw (json.strict-marshal r g.utf8) (ground arith))

  All-IsReadable :
      (recs : List ReplayRecord) → All IsGood recs → All IsReadable (map codec.marshal recs)
  All-IsReadable [] h = tt
  All-IsReadable (r ∷ recs) (g, h) =
      ((json.marshal-IsLine r, json.marshal-drop_cr r, g.short), All-IsReadable recs h)

  -- Recovery's memory after the records.
  abbrev replay_all : Assoc ℤ → ℤ → List ReplayRecord → Assoc ℤ
  replay_all seen now [] = seen
  replay_all seen now (r ∷ recs) =
      replay_all (if is_past now r.until then seen else insert r.jti r.until seen) now recs

  recover_lines-good :
      (seen : Assoc ℤ) (now : ℤ) (recs : List ReplayRecord) (rest : List Scanned)
      → All IsGood recs
      → recover_lines codec seen now (map line (map codec.marshal recs) ++ rest)
        ≡ recover_lines codec (replay_all seen now recs) now rest
  unfolding recover_lines
  recover_lines-good seen now [] rest h = refl
  recover_lines-good seen now (r ∷ recs) rest (g, h) = rw (json.marshal-ne-nil r) (
      rw (decode_marshal r g) (
        recover_lines-good (if is_past now r.until then seen else insert r.jti r.until seen) now
          recs rest h))

  lookup-replay_all :
      (seen : Assoc ℤ) (now : ℤ) (recs : List ReplayRecord) (k : Text) (u : Option ℤ) (d : ℤ)
      → (u ≡ some d → now ≤ℤ d → lookup k seen ≡ some d)
      → last_until u k recs ≡ some d
      → now ≤ℤ d
      → lookup k (replay_all seen now recs) ≡ some d
  lookup-replay_all seen now [] k u d h e le = h e le
  lookup-replay_all seen now (r ∷ recs) k u d h e le =
      lookup-replay_all (if is_past now r.until then seen else insert r.jti r.until seen) now recs k
        (if text_eq r.jti k then some r.until else u) d
        (step (text_eq r.jti k) refl (is_past now r.until) refl) e le
    where
      step :
          (same : Bool)
          → text_eq r.jti k ≡ same
          → (past : Bool) → is_past now r.until ≡ past
          → (if same then some r.until else u) ≡ some d
          → now ≤ℤ d
          → lookup k (if past then seen else insert r.jti r.until seen) ≡ some d
      step true q true p g l = ground arith
      step true q false p g l = rw lookup-insert (ground arith)
      step false q true p g l = h g l
      step false q false p g l = rw lookup-insert (ground (arith, h g l))

  -- What the cache holds on disk: a file of good records, the last of which for an identifier is the
  -- one that the memory has.
  pub record IsStored (c : ReplayCache) (recs : List ReplayRecord) : Type 0 where
    pub content : c.file ≡ some (unlines (map codec.marshal recs))
    pub good : All IsGood recs
    pub backed : (k : Text) (d : ℤ) → lookup k c.seen ≡ some d → last_until none k recs ≡ some d

  recover_good :
      (recs : List ReplayRecord) (now : Time)
      → All IsGood recs
      → recover codec (unlines (map codec.marshal recs)) now
        ≡ ok (record {
          seen = replay_all [] (unix now) recs;
          file = some (unlines (map codec.marshal recs));
        })
  unfolding recover
  recover_good recs now h =
      rw
        (
          scan_lines-unlines (map codec.marshal recs) (All-IsReadable recs h),
          ← append-nil (map line (map codec.marshal recs)),
        )
        (rw (recover_lines-good [] (unix now) recs [] h) (unfold recover_lines in refl))

  replay_all-IsMap :
      (seen : Assoc ℤ) (now : ℤ) (recs : List ReplayRecord)
      → IsMap seen
      → IsMap (replay_all seen now recs)
  replay_all-IsMap seen now [] h = h
  replay_all-IsMap seen now (r ∷ recs) h =
      replay_all-IsMap (if is_past now r.until then seen else insert r.jti r.until seen) now recs
        (step (is_past now r.until))
    where
      step : (past : Bool) → IsMap (if past then seen else insert r.jti r.until seen)
      step true = h
      step false = insert-IsMap r.jti r.until seen h

  found_of_live : (t : ℤ) (o : Option ℤ) → live t o ≡ true → (d : ℤ) × (o ≡ some d) × (t ≤ℤ d)
  found_of_live t none e = cc
  found_of_live t (some d) e = (d, refl, ground arith)

  -- Over a restart at an instant up to its deadline, an identifier that the cache remembers stays
  -- remembered: the file can be read, and the memory that is read from it holds the identifier.
  pub recover-remembers :
      (c : ReplayCache) (recs : List ReplayRecord) (k : Text) (t : ℤ) (now : Time)
      → IsStored c recs
      → remembers (some c) k t ≡ true
      → unix now ≤ℤ t
      → (c' : ReplayCache) × (recover codec (unlines (map codec.marshal recs)) now ≡ ok c')
        × IsCache (some c')
        × (remembers (some c') k t ≡ true)
  recover-remembers c recs k t now stored e le =
      let (d, found, later) = found_of_live t (lookup k c.seen) e in
      let kept : lookup k (replay_all [] (unix now) recs) ≡ some d =
        lookup-replay_all [] (unix now) recs k none d (λ h g. cc) (stored.backed k d found)
          (≤ℤ_trans (unix now) t d le later) in
      (
        record {
          seen = replay_all [] (unix now) recs;
          file = some (unlines (map codec.marshal recs));
        },
        recover_good recs now stored.good,
        replay_all-IsMap [] (unix now) recs tt,
        rw kept (ground arith),
      )

  -- A record that is at or over the cap of the scanner leaves a file that cannot be recovered.
  pub recover_long :
      (recs : List ReplayRecord) (r : ReplayRecord) (now : Time)
      → All IsGood recs
      → max_line_bytes ≤ length (codec.marshal r)
      → recover codec (unlines (map codec.marshal recs ++ codec.marshal r ∷ [])) now
        ≡ err line_too_long
  unfolding recover
  recover_long recs r now h n =
      rw
        (scan_lines-too_long (map codec.marshal recs) (codec.marshal r) (All-IsReadable recs h)
          (json.marshal-IsLine r) n)
        (rw (recover_lines-good [] (unix now) recs (too_long ∷ []) h)
          (unfold recover_lines in refl))
