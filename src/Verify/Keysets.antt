-- ===== src/Verify/Keysets.antt =====
-- internal/verify/jwks.go and oidc.go: where a verifier's keys come from. The parsers of net/url and net,
-- the files, the network and the JSON decoders are parameters.
pub mod Trusted
use agent_identity_plane.Prelude.{
  ℕ, ◌*◌, Bool, true, false, not, ◌&&◌, ◌||◌, ◌==◌, ltb, List, [], ◌∷◌, ◌++◌, Option, none, some,
  if◌then◌else◌, Result, ok, err, ◌>>=◌, ◌>>◌, fail_if, length,
}
use agent_identity_plane.Prelude.Text.{Text, text_eq, is_empty, codes}
use agent_identity_plane.Prelude.Fold.{equal_ascii_fold}
use agent_identity_plane.Token.Keys.{Jwks, equal_fold}

pub data KeysetError : Type 0 where
  jwks_url empty_jwks : KeysetError
  no_source two_sources : KeysetError
  unreachable bad_status document_too_large unparsable : KeysetError
  discovery_missing issuer_mismatch : KeysetError

-- A parsed URL: `Hostname` is the host without its port.
pub record WebUrl : Type 0 where
  pub scheme : Text
  pub host : Text
  pub hostname : Text
  pub raw_query : Text
  pub fragment : Text

-- What a `GET` brings: its status and the body, or `none` where the body cannot be read.
pub record Fetched : Type 0 where
  pub status : ℕ
  pub body : Option Text

-- The metadata of an issuer: `OIDCDiscovery`.
pub record OidcDiscovery : Type 0 where
  pub issuer : Text
  pub jwks_uri : Text

-- The world outside: the URL parser, loopback addresses, the content of files, the answers to `GET`,
-- and the decoders of a key set and of an issuer's metadata.
pub record World : Type 0 where
  pub parse_url : Text → Option WebUrl
  pub is_loopback_ip : Text → Bool
  pub read_file : Text → Option Text
  pub get : Text → Option Fetched
  pub parse_jwks : Text → Option Jwks
  pub parse_discovery : Text → Option OidcDiscovery

-- `maxJWKSBytes`
abbrev pub max_jwks_bytes : ℕ
max_jwks_bytes = 1024 * 1024

abbrev is_bracket : ℕ → Bool
is_bracket b = b == 91 || b == 93

-- `strings.Trim(host, "[]")`
unfoldable pub trim_brackets : Text → Text
trim_brackets [] = []
trim_brackets (b ∷ r) = if is_bracket b then trim_brackets r else b ∷ drop_trailing r
  where
    only_brackets : Text → Bool
    only_brackets [] = true
    only_brackets (c ∷ s) = is_bracket c && only_brackets s

    drop_trailing : Text → Text
    drop_trailing [] = []
    drop_trailing (c ∷ s) =
        let rest = drop_trailing s in if only_brackets (c ∷ s) then [] else c ∷ rest

-- `strings.TrimRight(issuer, "/")`
unfoldable pub trim_slashes : Text → Text
trim_slashes [] = []
trim_slashes (b ∷ r) =
    let rest = trim_slashes r in if b == 47 && is_empty rest then [] else b ∷ rest

-- `requireKeys`
unfoldable pub require_any_keys : Jwks → Result KeysetError Jwks
require_any_keys [] = err empty_jwks
require_any_keys (k ∷ ks) = ok (k ∷ ks)

module _ (world : World) where
  unfoldable pub loopback_host : Text → Bool
  unfolding trim_brackets equal_ascii_fold
  loopback_host host =
      equal_ascii_fold (trim_brackets host) (codes "localhost")
      || world.is_loopback_ip (trim_brackets host)

  -- `CheckJWKSURL` on a URL that parses; the two schemes have no letter that folds outside ASCII.
  unfoldable pub check_parsed : Option WebUrl → Result KeysetError Unit
  unfolding loopback_host equal_fold
  check_parsed none = err jwks_url
  check_parsed (some u) = do
    fail_if (is_empty u.host) jwks_url
    fail_if
        (if equal_fold u.scheme (codes "https")
          then false
          else if equal_fold u.scheme (codes "http")
          then not (loopback_host u.hostname)
          else true)
        jwks_url

  unfoldable pub check_jwks_url : Text → Result KeysetError Unit
  unfolding check_parsed
  check_jwks_url raw = check_parsed (world.parse_url raw)

  abbrev pub or_fail : {A : Type 0} → KeysetError → Option A → Result KeysetError A
  or_fail e none = err e
  or_fail e (some a) = ok a

  -- `getCapped`; what is read is cut one byte above the cap.
  unfoldable pub get_capped : Text → Result KeysetError Text
  unfolding check_jwks_url
  get_capped raw = do
    check_jwks_url raw
    answer ← or_fail unreachable (world.get raw)
    fail_if (not (answer.status == 200)) bad_status
    body ← or_fail unreachable answer.body
    fail_if (ltb max_jwks_bytes (length body)) document_too_large
    ok body

  unfoldable pub fetch_jwks : Text → Result KeysetError Jwks
  unfolding get_capped require_any_keys
  fetch_jwks raw = do
    body ← get_capped raw
    ks ← or_fail unparsable (world.parse_jwks body)
    require_any_keys ks

  -- The `KeysFn` of a path
  unfoldable pub read_jwks : Text → Result KeysetError Jwks
  unfolding require_any_keys
  read_jwks path = do
    raw ← or_fail unreachable (world.read_file path)
    ks ← or_fail unparsable (world.parse_jwks raw)
    require_any_keys ks

  -- `LiveJWKS`, and what the function that it returns answers now.
  unfoldable pub live_jwks : Text → Text → Result KeysetError (Result KeysetError Jwks)
  unfolding fetch_jwks read_jwks
  live_jwks path url =
      if is_empty path && is_empty url
      then err no_source
      else if not (is_empty path) && not (is_empty url)
      then err two_sources
      else if not (is_empty url)
      then check_jwks_url url >> ok (fetch_jwks url)
      else ok (read_jwks path)

  -- `FetchOIDC`
  unfoldable pub fetch_oidc : Text → Result KeysetError OidcDiscovery
  unfolding get_capped trim_slashes
  fetch_oidc issuer = do
    check_jwks_url issuer
    raw ← get_capped (trim_slashes issuer ++ codes "/.well-known/openid-configuration")
    doc ← or_fail unparsable (world.parse_discovery raw)
    fail_if (is_empty doc.issuer || is_empty doc.jwks_uri) discovery_missing
    fail_if (not (text_eq doc.issuer issuer)) issuer_mismatch
    check_jwks_url doc.jwks_uri
    ok doc

  -- The function of `LiveOIDC`, which is called once before it is returned.
  unfoldable pub live_oidc : Text → Result KeysetError Jwks
  unfolding fetch_oidc fetch_jwks
  live_oidc issuer = do d ← fetch_oidc issuer; fetch_jwks d.jwks_uri
