-- ===== src/Lines.antt =====
-- Line files as the code reads them: `bufio.Scanner` with `ScanLines` and a cap on the line, and the
-- outcome of a write that is followed by `Sync`.
use agent_identity_plane.Prelude.{
  ℕ, ◌*◌, ◌≤◌, ◌<◌, ◌≡◌, refl, ap, sym, ◌∙◌, ◌≢◌, true, false, List, [], ◌∷◌, ◌++◌, arith,
  if◌then◌else◌, leb, ◌==◌, length, All, map, append_assoc, append-nil,
}
use agent_identity_plane.Prelude.Text.{Text, is_empty}

-- `MaxLineBytes`, the cap of every scanner of the program
abbrev pub max_line_bytes : ℕ
max_line_bytes = 1024 * 1024

-- The line that has begun, and the rest of the input. The last line may lack its newline.
unfoldable pub raw_lines : Text → Text → List Text
raw_lines line [] = if is_empty line then [] else line ∷ []
raw_lines line (b ∷ r) = elim (b == 10) [
  | true ↦ line ∷ raw_lines [] r
  | false ↦ raw_lines (line ++ b ∷ []) r
]

-- `ScanLines` drops a carriage return at the end of a line.
unfoldable pub drop_cr : Text → Text
drop_cr [] = []
drop_cr (b ∷ []) = if b == 13 then [] else b ∷ []
drop_cr (b ∷ c ∷ r) = b ∷ drop_cr (c ∷ r)

-- What `Scan` delivers: a line, or the end of the scan by `ErrTooLong`.
pub data Scanned : Type 0 where
  line : Text → Scanned
  too_long : Scanned

unfoldable pub cap_lines : List Text → List Scanned
unfolding drop_cr
cap_lines [] = []
cap_lines (l ∷ ls) =
    let rest = cap_lines ls in
    if leb max_line_bytes (length l) then too_long ∷ [] else line (drop_cr l) ∷ rest

unfoldable pub scan_lines : Text → List Scanned
unfolding raw_lines cap_lines
scan_lines t = cap_lines (raw_lines [] t)

-- The file that holds the given lines.
abbrev pub unlines : List Text → Text
unlines [] = []
unlines (l ∷ ls) = l ++ (10 ∷ unlines ls)

-- No newline in the text.
abbrev pub IsLine : Text → Type 0
IsLine [] = Unit
IsLine (b ∷ l) = (b ≢ 10) × IsLine l

raw_lines-line : (p l r : Text) → IsLine l → raw_lines p (l ++ (10 ∷ r)) ≡ (p ++ l) ∷ raw_lines [] r
unfolding raw_lines
raw_lines-line p [] r h = rw append-nil refl
raw_lines-line p (b ∷ l) r (n, h) =
    ground (arith, raw_lines-line (p ++ b ∷ []) l r h, append_assoc p (b ∷ []) l)

raw_lines-unlines : (ls : List Text) → All IsLine ls → raw_lines [] (unlines ls) ≡ ls
raw_lines-unlines [] h = unfold raw_lines in refl
raw_lines-unlines (l ∷ ls) (g, h) =
    raw_lines-line [] l (unlines ls) g ∙ ap (λ x. l ∷ x) (raw_lines-unlines ls h)

pub unlines-append : (ks ls : List Text) → unlines (ks ++ ls) ≡ unlines ks ++ unlines ls
unlines-append [] ls = refl
unlines-append (k ∷ ks) ls =
    ap (λ x. k ++ (10 ∷ x)) (unlines-append ks ls)
    ∙ sym (append_assoc k (10 ∷ unlines ks) (unlines ls))

-- A line that the scan delivers as it was written.
abbrev pub IsReadable : Text → Type 0
IsReadable l = IsLine l × (drop_cr l ≡ l) × (length l < max_line_bytes)

IsReadable-lines : (ls : List Text) → All IsReadable ls → All IsLine ls
IsReadable-lines [] h = tt
IsReadable-lines (l ∷ ls) (g, h) = (g.0, IsReadable-lines ls h)

cap_lines-readable : (ls : List Text) → All IsReadable ls → cap_lines ls ≡ map line ls
unfolding cap_lines
cap_lines-readable [] h = refl
cap_lines-readable (l ∷ ls) (g, h) = ground (arith, cap_lines-readable ls h)

-- A file of readable lines is scanned into those lines.
pub scan_lines-unlines :
    (ls : List Text) → All IsReadable ls → scan_lines (unlines ls) ≡ map line ls
unfolding scan_lines
scan_lines-unlines ls h =
    ap cap_lines (raw_lines-unlines ls (IsReadable-lines ls h)) ∙ cap_lines-readable ls h

cap_lines-too_long :
    (ls : List Text) (l : Text)
    → All IsReadable ls
    → max_line_bytes ≤ length l
    → cap_lines (ls ++ l ∷ []) ≡ map line ls ++ too_long ∷ []
unfolding cap_lines
cap_lines-too_long [] l h n = ground arith
cap_lines-too_long (k ∷ ls) l (g, h) n = ground (arith, cap_lines-too_long ls l h n)

All-IsLine-append :
    (ls : List Text) (l : Text) → All IsReadable ls → IsLine l → All IsLine (ls ++ l ∷ [])
All-IsLine-append [] l h n = (n, tt)
All-IsLine-append (k ∷ ls) l (g, h) n = (g.0, All-IsLine-append ls l h n)

-- After readable lines, a line at or over the cap ends the scan by `ErrTooLong`.
pub scan_lines-too_long :
    (ls : List Text) (l : Text)
    → All IsReadable ls
    → IsLine l
    → max_line_bytes ≤ length l
    → scan_lines (unlines (ls ++ l ∷ [])) ≡ map line ls ++ too_long ∷ []
unfolding scan_lines
scan_lines-too_long ls l h g n =
    ap cap_lines (raw_lines-unlines (ls ++ l ∷ []) (All-IsLine-append ls l h g))
    ∙ cap_lines-too_long ls l h n

-- A write and a `Sync`: both succeed, the write fails when some of its bytes have reached the file,
-- or the write succeeds and the `Sync` fails.
pub data WriteOutcome : Type 0 where
  synced : WriteOutcome
  torn : ℕ → WriteOutcome
  unsynced : WriteOutcome
