-- ===== src/Dpop.antt =====
-- internal/dpop/dpop.go: the proofs of possession that a client sends with a request. encoding/json is
-- a parameter; a request is what the code reads of it, and a name in capitals is a claim of the proof.
pub mod Nonce
pub mod Soundness
pub mod Proving
pub mod SameProof
use agent_identity_plane.Prelude.{
  ℕ, Bool, true, false, not, ◌&&◌, ◌||◌, List, [], ◌∷◌, ◌++◌, Option, none, some, if◌then◌else◌,
  Result, ok, err, ◌>>=◌, ◌>>◌, fail_if,
}
use agent_identity_plane.Prelude.Int.{ℤ, pos, negsuc, add_int64, ltb_ℤ, eq_ℤ}
use agent_identity_plane.Prelude.Text.{Text, text_eq, is_empty, codes, hex, lower}
use agent_identity_plane.Prelude.Fields.{is_blank, trim_space}
use agent_identity_plane.Clock.{Time, unix}
use agent_identity_plane.Token.Claims.{contains}
use agent_identity_plane.Token.Keys.{
  Jwk, KeyFile, Primitives, alg_eddsa, alg_none_name, equal_fold, thumbprint, signer_jwk,
  public_members, signer_from_key_file, sign,
}
use agent_identity_plane.Token.Jws.{split_dots}
use agent_identity_plane.Token.Jws

pub data DpopError : Type 0 where
  missing_proof invalid_proof private_jwk no_host alg_none : DpopError

-- `Typ`
abbrev pub dpop_type : Text
dpop_type = codes "dpop+jwt"

abbrev pub replay_prefix : Text
replay_prefix = codes "dpop:"

-- `ReplayJTI`
unfoldable pub replay_jti : Text → Text
replay_jti jti = if is_empty jti then [] else replay_prefix ++ jti

-- The header of a proof; `jwk` is its raw text, empty where the member is absent.
pub record ProofHeader : Type 0 where
  pub alg : Text
  pub typ : Text
  pub jwk : Text

pub record ProofClaims : Type 0 where
  pub jti : Text
  pub htm : Text
  pub htu : Text
  pub iat : ℤ
  pub ath : Text
  pub nonce : Text

-- `Result`
pub record Proof : Type 0 where
  pub jti : Text
  pub iat : ℤ
  pub jkt : Text
  pub nonce : Text

-- encoding/json for a proof: the header, the claims, the key and the names of its members.
pub record Codec : Type 0 where
  pub parse_proof_header : Text → Option ProofHeader
  pub parse_proof_claims : Text → Option ProofClaims
  pub parse_jwk : Text → Option Jwk
  pub member_names : Text → Option (List Text)
  pub marshal_proof_header : Text → Text → Jwk → Text
  pub marshal_proof_claims : ProofClaims → Text

-- The URL of a request: its scheme, its host and its `EscapedPath`.
pub record RequestUrl : Type 0 where
  pub scheme : Text
  pub host : Text
  pub escaped_path : Text

-- `proof` is the header `DPoP`.
pub record Request : Type 0 where
  pub method : Text
  pub host : Text
  pub tls : Bool
  pub url : Option RequestUrl
  pub proof : Text

unfoldable pub escaped_path : Option RequestUrl → Text
escaped_path none = codes "/"
escaped_path (some u) = if is_empty u.escaped_path then codes "/" else u.escaped_path

-- `RequestURI` of a request that is there
unfoldable pub request_uri : Request → Result DpopError Text
unfolding escaped_path
request_uri r = do
  fail_if (is_blank r.host) no_host
  ok (
      (if r.tls then codes "https" else codes "http")
      ++ (codes "://" ++ (r.host ++ escaped_path r.url)))

-- `strings.ToLower(s)` is one of the two schemes; no letter outside ASCII has one of theirs as its
-- lower case.
unfoldable pub web_scheme : Text → Option Text
unfolding equal_fold
web_scheme s =
    if equal_fold s (codes "http")
    then some (codes "http")
    else if equal_fold s (codes "https")
    then some (codes "https")
    else none

abbrev pub at_host : RequestUrl → Text → Option Text → Result DpopError Text
at_host u host none = err no_host
at_host u host (some scheme) = do
  fail_if (is_blank host) no_host
  ok (scheme ++ (codes "://" ++ (host ++ escaped_path (some u))))

-- `OutboundURI` of a request that is there
unfoldable pub outbound_uri : Request → Result DpopError Text
unfolding web_scheme
outbound_uri r = elim r.url [
  | none ↦ err no_host
  | some u ↦ at_host u (if is_blank r.host then u.host else r.host) (web_scheme u.scheme)
]

abbrev private_names : List Text
private_names =
    codes "d"
    ∷ codes "p"
    ∷ codes "q"
    ∷ codes "dp"
    ∷ codes "dq"
    ∷ codes "qi"
    ∷ codes "k"
    ∷ codes "oth"
    ∷ []

-- The loop of `rejectPrivateJWK`
unfoldable pub no_private : List Text → List Text → Result DpopError Unit
unfolding contains
no_private members [] = ok tt
no_private members (k ∷ ks) = do fail_if (contains members k) private_jwk; no_private members ks

abbrev pub or_invalid : {A : Type 0} → Option A → Result DpopError A
or_invalid none = err invalid_proof
or_invalid (some a) = ok a

abbrev pub invalid_if : {E A : Type 0} → Result E A → Result DpopError A
invalid_if (ok a) = ok a
invalid_if (err e) = err invalid_proof

abbrev is_zero_ℤ : ℤ → Bool
is_zero_ℤ z = eq_ℤ z (pos 0)

-- The time of the proof is more than 30 seconds before or after the clock.
abbrev pub out_of_window : ℤ → ℤ → Bool
out_of_window iat now = ltb_ℤ (add_int64 iat (pos 30)) now || ltb_ℤ (add_int64 now (pos 30)) iat

-- `newJTI` on the bytes that it has read
unfoldable pub new_jti : List ℕ → Text
unfolding hex
new_jti bytes = codes "dpop-" ++ hex bytes

abbrev nonempty_parts : List Text → Result DpopError (Text × Text)
nonempty_parts (p0 ∷ p1 ∷ p2 ∷ []) = do
  fail_if (is_empty p0 || is_empty p1 || is_empty p2) invalid_proof
  ok (p0, p1)
nonempty_parts _ = err invalid_proof

module _ (std : Primitives) (codec : Codec) where
  -- `AccessTokenHash`
  unfoldable pub access_token_hash : Text → Text
  access_token_hash t = std.b64_encode (std.sha256 t)

  -- `rejectPrivateJWK`
  unfoldable pub reject_private_jwk : Text → Result DpopError Unit
  unfolding no_private
  reject_private_jwk raw = do
    names ← or_invalid (codec.member_names raw)
    no_private names private_names

  -- The checks of the header, and the key in it.
  unfoldable pub check_header : Text → Result DpopError Jwk
  unfolding reject_private_jwk
  check_header p0 = do
    hb ← or_invalid (std.b64_decode p0)
    h ← or_invalid (codec.parse_proof_header hb)
    fail_if (not (text_eq h.typ dpop_type)) invalid_proof
    fail_if (is_empty h.alg || equal_fold h.alg alg_none_name) alg_none
    fail_if (is_empty h.jwk) invalid_proof
    reject_private_jwk h.jwk
    or_invalid (codec.parse_jwk h.jwk)

  -- The checks of the claims against the request and the access token; a token request has neither
  -- an access token nor a bound key.
  unfoldable pub check_request : Request → Text → ProofClaims → Bool → Result DpopError Unit
  unfolding request_uri access_token_hash
  check_request r access_token c token_request = do
    fail_if (is_empty c.jti || is_empty c.htm || is_empty c.htu || is_zero_ℤ c.iat) invalid_proof
    fail_if (if token_request then not (is_empty c.ath) else is_empty c.ath) invalid_proof
    fail_if (not (text_eq c.htm r.method)) invalid_proof
    want_htu ← request_uri r
    fail_if (not (text_eq c.htu want_htu)) invalid_proof
    fail_if (not token_request && not (text_eq c.ath (access_token_hash access_token)))
        invalid_proof

  -- `Verify` on a request that is there; `now` is the instant that it uses.
  unfoldable pub verify_request : Request → Text → Text → Time → Result DpopError Proof
  unfolding check_header check_request
  verify_request r access_token want_jkt now =
      let raw = trim_space r.proof in
      let token_request = is_empty access_token && is_empty want_jkt in
      do
        fail_if (is_empty raw) missing_proof
        fail_if (not token_request && (is_empty access_token || is_empty want_jkt)) invalid_proof
        (p0, p1) ← nonempty_parts (split_dots [] raw)
        jwk ← check_header p0
        invalid_if (agent_identity_plane.Token.Jws.verify std raw (jwk ∷ []))
        pb ← or_invalid (std.b64_decode p1)
        c ← or_invalid (codec.parse_proof_claims pb)
        check_request r access_token c token_request
        jkt ← invalid_if (thumbprint std jwk)
        fail_if (not token_request && not (text_eq jkt want_jkt)) invalid_proof
        fail_if (out_of_window c.iat (unix now)) invalid_proof
        ok (record { jti = c.jti; iat = c.iat; jkt = jkt; nonce = c.nonce })

  -- `Verify`
  unfoldable pub verify : Option Request → Text → Text → Time → Result DpopError Proof
  unfolding verify_request
  verify none access_token want_jkt now = err invalid_proof
  verify (some r) access_token want_jkt now = verify_request r access_token want_jkt now

  -- The claims of a new proof.
  unfoldable pub proof_claims : Text → Text → Text → Time → Text → List ℕ → ProofClaims
  unfolding new_jti access_token_hash
  proof_claims method htu access_token now nonce bytes = record {
    jti = new_jti bytes;
    htm = method;
    htu = htu;
    iat = unix now;
    ath = if is_empty access_token then [] else access_token_hash access_token;
    nonce = trim_space nonce;
  }

  -- `ProveWithNonce` with a key file; `Prove` has no nonce.
  unfoldable pub prove_with_nonce :
      Option KeyFile → Text → Text → Text → Time → Text → List ℕ → Result DpopError Text
  unfolding proof_claims signer_from_key_file signer_jwk public_members sign
  prove_with_nonce none method htu access_token now nonce bytes = err invalid_proof
  prove_with_nonce (some k) method htu access_token now nonce bytes = do
    s ← invalid_if (signer_from_key_file std k)
    ok (
        sign std s
          (codec.marshal_proof_header alg_eddsa dpop_type (public_members (signer_jwk std s)))
          (codec.marshal_proof_claims (proof_claims method htu access_token now nonce bytes)))
