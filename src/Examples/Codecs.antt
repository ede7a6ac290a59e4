-- ===== src/Examples/Codecs.antt =====
-- A codec for replay records that meets what the theorems ask of encoding/json: a byte for the sign,
-- the deadline, the identifier, every number moved past the line breaks; in front, a padding.
use agent_identity_plane.Prelude.{
  ℕ, zero, suc, ◌+◌, ◌-◌, ◌≤◌, ◌≡◌, ◌≢◌, refl, ap, ◌∙◌, false, [], ◌∷◌, some, Result, ok, err,
  arith, if◌then◌else◌, ◌==◌, length,
}
use agent_identity_plane.Prelude.Int.{ℤ, pos, negsuc}
use agent_identity_plane.Prelude.Text.{Text, is_empty, codes}
use agent_identity_plane.Jsonutil.{JsonError, trailing}
use agent_identity_plane.Lines.{IsLine, drop_cr}
use agent_identity_plane.Sts.Replay.{ReplayRecord, Codec}
use agent_identity_plane.Sts.Replay.Recovery.{IsJson}

unfoldable pub shift : Text → Text
shift [] = []
shift (b ∷ t) = (b + 14) ∷ shift t

unfoldable pub unshift : Text → Text
unshift [] = []
unshift (b ∷ t) = (b - 14) ∷ unshift t

unfoldable pub pad : ℕ → Text → Text
pad zero t = t
pad (suc n) t = 120 ∷ pad n t

unfoldable pub unpad : ℕ → Text → Text
unpad zero t = t
unpad (suc n) [] = []
unpad (suc n) (b ∷ t) = unpad n t

abbrev sign_byte : ℤ → ℕ
sign_byte (pos n) = 20
sign_byte (negsuc n) = 21

abbrev size : ℤ → ℕ
size (pos n) = n
size (negsuc n) = n

unfoldable pub written : ReplayRecord → Text
written r = sign_byte r.until ∷ (size r.until + 14) ∷ shift r.jti

unfoldable pub read : Text → Result JsonError ReplayRecord
read (s ∷ n ∷ t) =
    ok (record { jti = unshift t; until = if s == 20 then pos (n - 14) else negsuc (n - 14) })
read _ = err trailing

abbrev pub codec : ℕ → Codec
codec k = record {
  keys = λ t. some (codes "jti" ∷ codes "until" ∷ []);
  strict = λ t. read (unpad k t);
  marshal = λ r. pad k (written r);
}

unshift-shift : (t : Text) → unshift (shift t) ≡ t
unfolding unshift shift
unshift-shift [] = refl
unshift-shift (b ∷ t) = ground (arith, unshift-shift t)

unpad-pad : (k : ℕ) (t : Text) → unpad k (pad k t) ≡ t
unfolding unpad pad
unpad-pad zero t = refl
unpad-pad (suc k) t = unpad-pad k t

pub shift-IsLine : (t : Text) → IsLine (shift t)
unfolding shift
shift-IsLine [] = tt
shift-IsLine (b ∷ t) = ground (arith, shift-IsLine t)

pad-IsLine : (k : ℕ) (t : Text) → IsLine t → IsLine (pad k t)
unfolding pad
pad-IsLine zero t h = h
pad-IsLine (suc k) t h = ground (arith, pad-IsLine k t h)

-- No carriage return in the text.
abbrev pub NoCr : Text → Type 0
NoCr [] = Unit
NoCr (b ∷ t) = (b ≢ 13) × NoCr t

pub drop_cr-NoCr : (t : Text) → NoCr t → drop_cr t ≡ t
unfolding drop_cr
drop_cr-NoCr [] h = refl
drop_cr-NoCr (b ∷ []) h = ground arith
drop_cr-NoCr (b ∷ c ∷ t) h = ground (arith, drop_cr-NoCr (c ∷ t))

pub shift-NoCr : (t : Text) → NoCr (shift t)
unfolding shift
shift-NoCr [] = tt
shift-NoCr (b ∷ t) = ground (arith, shift-NoCr t)

pad-NoCr : (k : ℕ) (t : Text) → NoCr t → NoCr (pad k t)
unfolding pad
pad-NoCr zero t h = h
pad-NoCr (suc k) t h = ground (arith, pad-NoCr k t h)

pad-length : (k : ℕ) (t : Text) → length (pad k t) ≡ k + length t
unfolding pad
pad-length zero t = omega arith
pad-length (suc k) t = ground (arith, pad-length k t)

written-IsLine : (r : ReplayRecord) → IsLine (written r)
unfolding written
written-IsLine r = ground (arith, shift-IsLine r.jti)

written-NoCr : (r : ReplayRecord) → NoCr (written r)
unfolding written
written-NoCr r = ground (arith, shift-NoCr r.jti)

read-written : (r : ReplayRecord) → read (written r) ≡ ok r
unfolding read written
read-written r = by_sign r.until r.jti
  where
    by_sign :
        (u : ℤ) (t : Text)
        → read (written (record { jti = t; until = u })) ≡ ok (record { jti = t; until = u })
    by_sign (pos n) t = ground (arith, unshift-shift t)
    by_sign (negsuc n) t = ground (arith, unshift-shift t)

pad-ne-nil : (k : ℕ) (t : Text) → is_empty t ≡ false → is_empty (pad k t) ≡ false
unfolding pad
pad-ne-nil zero t h = h
pad-ne-nil (suc k) t h = refl

pub codec-IsJson : (k : ℕ) → IsJson (codec k) (λ t. Unit)
codec-IsJson k = record {
  keys-marshal = λ r. refl;
  strict-marshal = λ r u. ap read (unpad-pad k (written r)) ∙ read-written r;
  marshal-IsLine = λ r. pad-IsLine k (written r) (written-IsLine r);
  marshal-drop_cr = λ r. drop_cr-NoCr (pad k (written r)) (pad-NoCr k (written r) (written-NoCr r));
  marshal-ne-nil = λ r. pad-ne-nil k (written r) (unfold written in refl);
}

pub length-marshal : (k : ℕ) (r : ReplayRecord) → k ≤ length ((codec k).marshal r)
length-marshal k r = omega (arith, pad-length k (written r))
