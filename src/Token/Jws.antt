-- ===== src/Token/Jws.antt =====
-- internal/token/jws.go: the verification of a compact JWS against a key set.
pub mod Signatures
pub mod Soundness
use agent_identity_plane.Prelude.{
  ℕ, zero, ◌+◌, ◌*◌, ◌%◌, ◌-◌, ◌^◌, suc, Bool, true, false, not, ◌&&◌, ◌||◌, List, [], ◌∷◌, ◌++◌,
  Option, none, some, if◌then◌else◌, Result, ok, err, ◌>>=◌, ◌>>◌, fail_if, ◌==◌, ltb, leb, length,
  take, drop,
}
use agent_identity_plane.Prelude.Text.{Text, text_eq, is_empty, codes}
use agent_identity_plane.Token.Errors.{
  TokenError, invalid_token, alg_none, alg_confusion, unknown_key, bad_signature, unsupported_alg,
  unsupported_curve, invalid_key,
}
use agent_identity_plane.Token.Claims.{Claims}
use agent_identity_plane.Token.Keys.{
  Header, Jwk, Jwks, Primitives, alg_eddsa, alg_es256, alg_rs256, alg_none_name, equal_fold,
  be_value,
}

-- `strings.Split(raw, ".")`
unfoldable pub split_dots : Text → Text → List Text
split_dots part [] = part ∷ []
split_dots part (b ∷ r) = elim (b == 46) [
  | true ↦ part ∷ split_dots [] r
  | false ↦ split_dots (part ++ b ∷ []) r
]

-- Does the loop of `selectKey` keep the key?
abbrev pub matches : Text → Text → Jwk → Bool
matches kid alg k = (is_empty kid || text_eq k.kid kid) && (is_empty k.alg || text_eq k.alg alg)

unfoldable pub matched : Jwks → Text → Text → List Jwk
matched [] kid alg = []
matched (k ∷ ks) kid alg =
    let rest = matched ks kid alg in if matches kid alg k then k ∷ rest else rest

only_key : Jwks → Result TokenError Jwk
only_key (k ∷ []) = ok k
only_key _ = err unknown_key

-- The choice of `selectKey` among the matched keys: the text says whether there is a kid.
choose : Text → Jwks → List Jwk → Result TokenError Jwk
unfolding only_key
choose [] keys (k ∷ []) = ok k
choose [] keys [] = only_key keys
choose [] keys (k ∷ l ∷ ks) = only_key keys
choose (b ∷ kid) keys [] = err unknown_key
choose (b ∷ kid) keys (k ∷ ks) = ok k

unfoldable pub select_key : Jwks → Text → Text → Result TokenError Jwk
unfolding matched choose
select_key keys kid alg = choose kid keys (matched keys kid alg)

-- `matchAlg`
unfoldable pub match_alg : Text → Jwk → Result TokenError Unit
match_alg alg jwk =
    if text_eq alg alg_eddsa
    then fail_if (not (text_eq jwk.kty (codes "OKP")) || not (text_eq jwk.crv (codes "Ed25519")))
        alg_confusion
      >> fail_if (not (is_empty jwk.alg) && not (text_eq jwk.alg alg_eddsa)) alg_confusion
    else if text_eq alg alg_es256
    then fail_if
        (not (text_eq jwk.kty (codes "EC"))
          || (not (is_empty jwk.crv) && not (text_eq jwk.crv (codes "P-256"))))
        alg_confusion
      >> fail_if (not (is_empty jwk.alg) && not (text_eq jwk.alg alg_es256)) alg_confusion
    else if text_eq alg alg_rs256
    then fail_if (not (text_eq jwk.kty (codes "RSA"))) alg_confusion
      >> fail_if (not (is_empty jwk.alg) && not (text_eq jwk.alg alg_rs256)) alg_confusion
    else err unsupported_alg

abbrev decoded : Option Text → TokenError → Result TokenError Text
decoded none e = err e
decoded (some raw) e = ok raw

-- `int(x.Int64())`: the low 64 bits as a signed number, here whether it is below 3.
abbrev pub below_3 : ℕ → Bool
below_3 v = let low = v % 2 ^ 64 in ltb low 3 || leb (2 ^ 63) low

module _ (std : Primitives) where
  -- `ed25519`, `ecdsaP256` and `rsaPub`: the public key in a JWK.
  unfoldable pub ed25519_key : Jwk → Result TokenError Text
  ed25519_key j = do
    raw ← decoded (std.b64_decode j.x) invalid_key
    fail_if (not (length raw == 32)) invalid_key
    ok raw

  unfoldable pub ecdsa_key : Jwk → Result TokenError (ℕ × ℕ)
  ecdsa_key j = do
    fail_if (not (is_empty j.crv) && not (text_eq j.crv (codes "P-256"))) unsupported_curve
    xb ← decoded (std.b64_decode j.x) invalid_key
    yb ← decoded (std.b64_decode j.y) invalid_key
    fail_if (not (std.p256_on_curve (be_value 0 xb) (be_value 0 yb))) invalid_key
    ok (be_value 0 xb, be_value 0 yb)

  unfoldable pub rsa_key : Jwk → Result TokenError (ℕ × ℕ)
  rsa_key j = do
    nb ← decoded (std.b64_decode j.n) invalid_key
    eb ← decoded (std.b64_decode j.e) invalid_key
    fail_if (below_3 (be_value 0 eb)) invalid_key
    ok (be_value 0 nb, be_value 0 eb % 2 ^ 64)

  -- `verifySig`
  unfoldable pub verify_sig : Text → Jwk → Text → Text → Result TokenError Unit
  unfolding ed25519_key ecdsa_key rsa_key
  verify_sig alg jwk signing sig =
      if text_eq alg alg_eddsa
      then (do
        public ← ed25519_key jwk
        fail_if (not (std.ed25519_verify public signing sig)) bad_signature)
      else if text_eq alg alg_es256
      then (do
        public ← ecdsa_key jwk
        fail_if (not (length sig == 64)) bad_signature
        fail_if
            (not (
              std.ecdsa_verify public.0 public.1 (std.sha256 signing) (be_value 0 (take 32 sig))
                (be_value 0 (drop 32 sig))))
            bad_signature)
      else if text_eq alg alg_rs256
      then (do
        public ← rsa_key jwk
        fail_if (not (std.rsa_verify public.0 public.1 (std.sha256 signing) sig)) bad_signature)
      else err unsupported_alg

  abbrev parsed : {A : Type 0} → Option A → Result TokenError A
  parsed none = err invalid_token
  parsed (some a) = ok a

  -- `VerifyKey` on the three parts of the token.
  unfoldable pub verify_parts :
      Jwks → Text → Text → Text → Result TokenError (Header × Claims × Jwk)
  unfolding select_key match_alg verify_sig
  verify_parts keys p0 p1 p2 = do
    fail_if (is_empty p0 || is_empty p1) invalid_token
    hb ← decoded (std.b64_decode p0) invalid_token
    h ← parsed (std.parse_header hb)
    fail_if (is_empty h.alg || equal_fold h.alg alg_none_name) alg_none
    fail_if (is_empty p2) invalid_token
    jwk ← select_key keys h.kid h.alg
    match_alg h.alg jwk
    sig ← decoded (std.b64_decode p2) bad_signature
    verify_sig h.alg jwk (p0 ++ (46 ∷ p1)) sig
    pb ← decoded (std.b64_decode p1) invalid_token
    c ← parsed (std.parse_claims pb)
    ok (h, c, jwk)

  abbrev three_parts : Jwks → List Text → Result TokenError (Header × Claims × Jwk)
  three_parts keys (p0 ∷ p1 ∷ p2 ∷ []) = verify_parts keys p0 p1 p2
  three_parts keys _ = err invalid_token

  unfoldable pub verify_key : Text → Jwks → Result TokenError (Header × Claims × Jwk)
  unfolding verify_parts split_dots
  verify_key raw keys = three_parts keys (split_dots [] raw)

  -- `Verify`, of which every caller drops the header.
  unfoldable pub verify : Text → Jwks → Result TokenError Claims
  unfolding verify_key
  verify raw keys = do (h, c, jwk) ← verify_key raw keys; ok c

  -- `ParseUnverified` on the parts of the token; the signing input is not kept by its callers.
  unfoldable pub parse_parts : List Text → Result TokenError (Header × Claims)
  parse_parts (p0 ∷ p1 ∷ p2 ∷ []) = do
    fail_if (is_empty p0 || is_empty p1) invalid_token
    hb ← decoded (std.b64_decode p0) invalid_token
    pb ← decoded (std.b64_decode p1) invalid_token
    h ← parsed (std.parse_header hb)
    c ← parsed (std.parse_claims pb)
    ok (h, c)
  parse_parts _ = err invalid_token

  unfoldable pub parse_unverified : Text → Result TokenError (Header × Claims)
  unfolding parse_parts split_dots
  parse_unverified raw = parse_parts (split_dots [] raw)
