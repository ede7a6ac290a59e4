-- ===== src/Token/Keys.antt =====
-- internal/token/keys.go and the key types of internal/token/jws.go, with what they take of the
-- standard library: base64, encoding/json, SHA-256 and the signature schemes, as one record.
use agent_identity_plane.Prelude.{
  ℕ, ◌+◌, ◌*◌, Bool, true, false, ◌&&◌, ◌||◌, List, [], ◌∷◌, ◌++◌, Option, none, some,
  if◌then◌else◌, Result, ok, err, ◌>>=◌, ◌>>◌, fail_if, ◌==◌, length,
}
use agent_identity_plane.Prelude.Text.{Text, text_eq, is_empty, codes, lower}
use agent_identity_plane.Token.Errors.{
  TokenError, invalid_key, missing_private_key, thumbprint_failed,
}
use agent_identity_plane.Token.Claims.{Claims}

pub record Header : Type 0 where
  pub alg : Text
  pub typ : Text
  pub kid : Text

-- A public JSON Web Key. The fields are the members `kid`, `kty`, `use`, `alg`, `crv`, `x`, `y`, `n`,
-- `e` and `sub`.
pub record Jwk : Type 0 where
  pub kid : Text
  pub kty : Text
  pub usage : Text
  pub alg : Text
  pub crv : Text
  pub x : Text
  pub y : Text
  pub n : Text
  pub e : Text
  pub sub : Text

abbrev pub Jwks : Type 0
Jwks = List Jwk

pub record KeyFile : Type 0 where
  pub kid : Text
  pub alg : Text
  pub kty : Text
  pub crv : Text
  pub x : Text
  pub d : Text
  pub issuer : Text
  pub sub : Text

-- A private key is its seed.
pub record Signer : Type 0 where
  pub seed : Text
  pub kid : Text
  pub sub : Text

-- The standard library as the package uses it. A private Ed25519 key stands for its seed; the
-- members of a thumbprint are the names and values of the JSON object that is hashed.
pub record Primitives : Type 0 where
  pub b64_encode : Text → Text
  pub b64_decode : Text → Option Text
  pub parse_header : Text → Option Header
  pub parse_claims : Text → Option Claims
  pub marshal_header : Header → Text
  pub marshal_claims : Claims → Text
  pub marshal_members : List (Text × Text) → Text
  pub sha256 : Text → Text
  pub ed25519_public : Text → Text
  pub ed25519_sign : Text → Text → Text
  pub ed25519_verify : Text → Text → Text → Bool
  pub p256_on_curve : ℕ → ℕ → Bool
  pub ecdsa_verify : ℕ → ℕ → Text → ℕ → ℕ → Bool
  pub rsa_verify : ℕ → ℕ → Text → Text → Bool

abbrev pub alg_eddsa : Text
alg_eddsa = codes "EdDSA"

abbrev pub alg_es256 : Text
alg_es256 = codes "ES256"

abbrev pub alg_rs256 : Text
alg_rs256 = codes "RS256"

abbrev pub alg_none_name : Text
alg_none_name = codes "none"

-- `strings.EqualFold` with an ASCII text none of whose letters folds with one outside ASCII.
unfoldable pub equal_fold : Text → Text → Bool
equal_fold [] [] = true
equal_fold [] (b ∷ t) = false
equal_fold (a ∷ s) [] = false
equal_fold (a ∷ s) (b ∷ t) = lower a == lower b && equal_fold s t

-- `PublicEqual`
unfoldable pub public_equal : Jwk → Jwk → Bool
public_equal j o =
    text_eq j.kid o.kid
    && text_eq j.kty o.kty
    && text_eq j.usage o.usage
    && text_eq j.alg o.alg
    && text_eq j.crv o.crv
    && text_eq j.x o.x
    && text_eq j.y o.y
    && text_eq j.n o.n
    && text_eq j.e o.e
    && text_eq j.sub o.sub

-- The JWK of a key file: `PublicJWK`, and the only key of `PublicJWKS`.
unfoldable pub key_file_jwk : KeyFile → Jwk
key_file_jwk k = record {
  kid = k.kid;
  kty = k.kty;
  usage = codes "sig";
  alg = k.alg;
  crv = k.crv;
  x = k.x;
  y = [];
  n = [];
  e = [];
  sub = k.sub;
}

-- `PublicMembers`
unfoldable pub public_members : Jwk → Jwk
public_members j =
    let blank : Jwk = record {
      kid = [];
      kty = j.kty;
      usage = [];
      alg = [];
      crv = [];
      x = [];
      y = [];
      n = [];
      e = [];
      sub = [];
    } in
    if text_eq j.kty (codes "OKP")
    then record blank { crv = j.crv; x = j.x }
    else if text_eq j.kty (codes "EC")
    then record blank { crv = j.crv; x = j.x; y = j.y }
    else if text_eq j.kty (codes "RSA")
    then record blank { n = j.n; e = j.e }
    else blank

-- `thumbprintMembers`
unfoldable pub thumbprint_members : Jwk → Result TokenError (List (Text × Text))
thumbprint_members j =
    if text_eq j.kty (codes "OKP")
    then fail_if (is_empty j.crv || is_empty j.x) thumbprint_failed
      >> ok ((codes "crv", j.crv) ∷ (codes "kty", codes "OKP") ∷ (codes "x", j.x) ∷ [])
    else if text_eq j.kty (codes "EC")
    then fail_if (is_empty j.crv || is_empty j.x || is_empty j.y) thumbprint_failed
      >> ok (
          (codes "crv", j.crv)
          ∷ (codes "kty", codes "EC")
          ∷ (codes "x", j.x)
          ∷ (codes "y", j.y)
          ∷ [])
    else if text_eq j.kty (codes "RSA")
    then fail_if (is_empty j.n || is_empty j.e) thumbprint_failed
      >> ok ((codes "e", j.e) ∷ (codes "kty", codes "RSA") ∷ (codes "n", j.n) ∷ [])
    else err thumbprint_failed

-- `new(big.Int).SetBytes`
unfoldable pub be_value : ℕ → Text → ℕ
be_value acc [] = acc
be_value acc (b ∷ t) = be_value (acc * 256 + b) t

module _ (std : Primitives) where
  -- `Thumbprint`
  unfoldable pub thumbprint : Jwk → Result TokenError Text
  unfolding thumbprint_members
  thumbprint j = do
    members ← thumbprint_members j
    ok (std.b64_encode (std.sha256 (std.marshal_members members)))

  -- The public JWK of a signer.
  unfoldable pub signer_jwk : Signer → Jwk
  signer_jwk s = record {
    kid = s.kid;
    kty = codes "OKP";
    usage = codes "sig";
    alg = alg_eddsa;
    crv = codes "Ed25519";
    x = std.b64_encode (std.ed25519_public s.seed);
    y = [];
    n = [];
    e = [];
    sub = s.sub;
  }

  -- `PrivateKey`: the seed in `d`, of 32 bytes.
  unfoldable pub private_key : KeyFile → Result TokenError Text
  private_key k = if is_empty k.d then err missing_private_key else elim (std.b64_decode k.d) [
    | none ↦ err invalid_key
    | some seed ↦ if length seed == 32 then ok seed else err invalid_key
  ]

  -- `PublicKey`
  unfoldable pub public_key : KeyFile → Result TokenError Text
  public_key k = elim (std.b64_decode k.x) [
    | none ↦ err invalid_key
    | some raw ↦ if length raw == 32 then ok raw else err invalid_key
  ]

  unfoldable pub signer_from_key_file : KeyFile → Result TokenError Signer
  unfolding private_key
  signer_from_key_file k = do
    seed ← private_key k
    ok (record { seed = seed; kid = k.kid; sub = k.sub })

  -- `Sign`, and `SignClaims` over it
  unfoldable pub sign : Signer → Text → Text → Text
  sign s header payload =
      let input = std.b64_encode header ++ (46 ∷ std.b64_encode payload) in
      input ++ (46 ∷ std.b64_encode (std.ed25519_sign s.seed input))

  unfoldable pub sign_claims : Signer → Claims → Text
  unfolding sign
  sign_claims s c =
      sign s (std.marshal_header (record { alg = alg_eddsa; typ = codes "JWT"; kid = s.kid }))
        (std.marshal_claims c)
