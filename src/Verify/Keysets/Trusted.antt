-- ===== src/Verify/Keysets/Trusted.antt =====
-- Where the keys of an issuer come from (internal/verify/jwks.go and oidc.go).
use mathlib.Core.Path.{subst}
use agent_identity_plane.Prelude.{
  ℕ, ◌∙◌, ◌≡◌, ◌≢◌, ◌≤◌, ap, false, not, ◌||◌, ◌==◌, ltb, [], ◌∷◌, ◌++◌, Option, none, some, arith,
  ok, fail_if, fail_if-eq-ok, >>=-eq-ok, ok-injective, length,
}
use agent_identity_plane.Prelude.Text.{Text, text_eq, text_eq_iff, is_empty, codes}
use agent_identity_plane.Token.Keys.{Jwks}
use agent_identity_plane.Verify.Keysets.{
  KeysetError, World, Fetched, OidcDiscovery, unreachable, bad_status, document_too_large,
  unparsable, discovery_missing, issuer_mismatch, check_jwks_url, or_fail, get_capped, fetch_jwks,
  fetch_oidc, live_oidc, require_any_keys, max_jwks_bytes, trim_slashes,
}

or_fail-eq-some :
    (world : World) {A : Type 0} (e : KeysetError) (o : Option A) {a : A}
    → or_fail world e o ≡ ok a
    → o ≡ some a
or_fail-eq-some world e none h = cc
or_fail-eq-some world e (some b) {a = a} h = ap some (ok-injective b a h)

require_any_keys-eq-ok :
    (ks : Jwks) {js : Jwks} → require_any_keys ks ≡ ok js → (ks ≡ js) × (js ≢ [])
unfolding require_any_keys
require_any_keys-eq-ok [] h = cc
require_any_keys-eq-ok (k ∷ ks) {js = js} h = (ok-injective (k ∷ ks) js h, λ empty. cc)

same_issuer :
    (a b : Text) {u : Unit {0}} → fail_if (not (text_eq a b)) issuer_mismatch ≡ ok u → a ≡ b
same_issuer a b h = ground (arith, text_eq_iff a b)

is_ok_status : (n : ℕ) → not (n == 200) ≡ false → n ≡ 200
is_ok_status n h = ground arith

answer_of_parts :
    (a : Fetched) (body : Text)
    → not (a.status == 200) ≡ false
    → a.body ≡ some body
    → a ≡ record { status = 200; body = some body }
answer_of_parts a body good read =
    let ok_status : a.status ≡ 200 = is_ok_status a.status good in
    λ i. record { status = ok_status i; body = read i }

within_cap : (n : ℕ) → ltb max_jwks_bytes n ≡ false → n ≤ max_jwks_bytes
within_cap n h = ground arith

module _ (world : World) where
  -- The document is what a permitted URL answers with status 200, and is within the cap.
  abbrev pub IsDocument : Text → Text → Type 0
  IsDocument url body =
      (check_jwks_url world url ≡ ok tt)
      × (world.get url ≡ some (record { status = 200; body = some body }))
      × (length body ≤ max_jwks_bytes)

  IsDocument-of_parts :
      (url : Text) (a : Fetched) (body : Text)
      → check_jwks_url world url ≡ ok tt
      → world.get url ≡ some a
      → not (a.status == 200) ≡ false
      → a.body ≡ some body
      → ltb max_jwks_bytes (length body) ≡ false
      → IsDocument url body
  IsDocument-of_parts url a body permitted answered good read small = (
    permitted,
    answered ∙ ap some (answer_of_parts a body good read),
    within_cap (length body) small,
  )

  get_capped-IsDocument : (url body : Text) → get_capped world url ≡ ok body → IsDocument url body
  unfolding get_capped
  get_capped-IsDocument url body h =
      let (_, permitted, e1) = >>=-eq-ok (check_jwks_url world url) _ h in
      let (a, answered, e2) = >>=-eq-ok (or_fail world unreachable (world.get url)) _ e1 in
      let (_, good, e3) = >>=-eq-ok (fail_if (not (a.status == 200)) bad_status) _ e2 in
      let (b, read, e4) = >>=-eq-ok (or_fail world unreachable a.body) _ e3 in
      let (_, small, e5) =
        >>=-eq-ok (fail_if (ltb max_jwks_bytes (length b)) document_too_large) _ e4 in
      let document =
        IsDocument-of_parts url a b permitted
          (or_fail-eq-some world unreachable (world.get url) answered)
          (fail_if-eq-ok (not (a.status == 200)) bad_status good)
          (or_fail-eq-some world unreachable a.body read)
          (fail_if-eq-ok (ltb max_jwks_bytes (length b)) document_too_large small) in
      subst (λ x. IsDocument url x) (ok-injective b body e5) document

  -- The keys are those of a document, and there are some.
  abbrev pub IsKeyset : Text → Jwks → Type 0
  IsKeyset url ks =
      (body : Text) × IsDocument url body × (world.parse_jwks body ≡ some ks) × (ks ≢ [])

  fetch_jwks-IsKeyset : (url : Text) (ks : Jwks) → fetch_jwks world url ≡ ok ks → IsKeyset url ks
  unfolding fetch_jwks
  fetch_jwks-IsKeyset url ks h =
      let (body, got, e1) = >>=-eq-ok (get_capped world url) _ h in
      let (js, parsed, e2) = >>=-eq-ok (or_fail world unparsable (world.parse_jwks body)) _ e1 in
      let (same, some_key) = require_any_keys-eq-ok js e2 in
      (
        body,
        get_capped-IsDocument url body got,
        or_fail-eq-some world unparsable (world.parse_jwks body) parsed ∙ ap some same,
        some_key,
      )

  abbrev pub discovery_url : Text → Text
  discovery_url issuer = trim_slashes issuer ++ codes "/.well-known/openid-configuration"

  -- The metadata that the issuer itself publishes; it names the issuer as it is configured.
  abbrev pub IsDiscovery : Text → OidcDiscovery → Type 0
  IsDiscovery issuer d =
      (check_jwks_url world issuer ≡ ok tt)
      × (d.issuer ≡ issuer)
      × (check_jwks_url world d.jwks_uri ≡ ok tt)
      × (body : Text) × IsDocument (discovery_url issuer) body
      × (world.parse_discovery body ≡ some d)

  fetch_oidc-IsDiscovery :
      (issuer : Text) (d : OidcDiscovery) → fetch_oidc world issuer ≡ ok d → IsDiscovery issuer d
  unfolding fetch_oidc
  fetch_oidc-IsDiscovery issuer d h =
      let (_, permitted, e1) = >>=-eq-ok (check_jwks_url world issuer) _ h in
      let (body, got, e2) = >>=-eq-ok (get_capped world (discovery_url issuer)) _ e1 in
      let (doc, parsed, e3) =
        >>=-eq-ok (or_fail world unparsable (world.parse_discovery body)) _ e2 in
      let (_, _, e4) =
        >>=-eq-ok (fail_if (is_empty doc.issuer || is_empty doc.jwks_uri) discovery_missing) _ e3 in
      let (_, named, e5) =
        >>=-eq-ok (fail_if (not (text_eq doc.issuer issuer)) issuer_mismatch) _ e4 in
      let (_, next, e6) = >>=-eq-ok (check_jwks_url world doc.jwks_uri) _ e5 in
      subst (λ x. IsDiscovery issuer x) (ok-injective doc d e6)
        (
          permitted,
          same_issuer doc.issuer issuer named,
          next,
          body,
          get_capped-IsDocument (discovery_url issuer) body got,
          or_fail-eq-some world unparsable (world.parse_discovery body) parsed,
        )

  -- Keys that are found by an issuer are the keys, at least one, of a document of at most 1 MiB that is
  -- read with status 200 from the address in the issuer's metadata. The metadata are read the same way from
  -- the well-known address below the issuer, and name exactly the configured issuer. The issuer, the
  -- address that is derived from it and the address of the keys all pass the check of URLs.
  pub live_oidc-IsTrusted :
      (issuer : Text) (ks : Jwks)
      → live_oidc world issuer ≡ ok ks
      → (d : OidcDiscovery) × IsDiscovery issuer d × IsKeyset d.jwks_uri ks
  unfolding live_oidc
  live_oidc-IsTrusted issuer ks h =
      let (d, found, e1) = >>=-eq-ok (fetch_oidc world issuer) _ h in
      (d, fetch_oidc-IsDiscovery issuer d found, fetch_jwks-IsKeyset d.jwks_uri ks e1)
