-- ===== src/Dpop/Proving.antt =====
-- What a proof that `ProveWithNonce` of internal/dpop/dpop.go makes says, and for which address.
use mathlib.Core.Path.{subst}
use agent_identity_plane.Prelude.{
  ℕ, ◌≡◌, ◌≢◌, ◌⊎◌, inl, inr, refl, sym, ap, ◌∙◌, true, false, Bool-cases, Option-cases, List, [],
  ◌∷◌, ◌++◌, Option, none, some, ok, ◌==◌, ==_iff, length, fail_if, >>=-eq-ok, fail_if-eq-ok,
  ok-injective, if◌then◌else◌,
}
use agent_identity_plane.Prelude.Text.{Text, text_eq, is_empty, codes}
use agent_identity_plane.Prelude.Fields.{is_blank, trim_space}
use agent_identity_plane.Clock.{Time, unix}
use agent_identity_plane.Token.Keys.{
  Jwk, KeyFile, Signer, Primitives, equal_fold, private_key, signer_from_key_file, signer_jwk,
  public_members, sign,
}
use agent_identity_plane.Dpop.{
  Codec, Request, RequestUrl, ProofClaims, no_host, web_scheme, outbound_uri, at_host, escaped_path,
  access_token_hash, proof_claims, prove_with_nonce, invalid_if,
}
use agent_identity_plane.Dpop.Soundness.{IsPathOf, escaped_path-IsPathOf, invalid_if-eq-ok}

-- The address of a request that is sent: a web scheme, the request's host or else its URL's, and the path.
abbrev pub IsSentTo : Request → Text → Type 0
IsSentTo r uri =
    (u : RequestUrl) × (scheme : Text) × (host : Text) × (path : Text) × (r.url ≡ some u)
    × ((scheme ≡ codes "http") ⊎ (scheme ≡ codes "https"))
    × (equal_fold u.scheme scheme ≡ true)
    × (((is_blank r.host ≡ true) × (host ≡ u.host)) ⊎ ((is_blank r.host ≡ false) × (host ≡ r.host)))
    × (is_blank host ≡ false)
    × IsPathOf r.url path
    × (uri ≡ scheme ++ (codes "://" ++ (host ++ path)))

web_scheme-eq-some :
    (s scheme : Text)
    → web_scheme s ≡ some scheme
    → ((scheme ≡ codes "http") ⊎ (scheme ≡ codes "https")) × (equal_fold s scheme ≡ true)
unfolding web_scheme
web_scheme-eq-some s scheme h = elim (Bool-cases (equal_fold s (codes "http"))) [
  | inl http ↦
      let e = some_text (codes "http") scheme (rw http at h) in
      (inl (sym e), ap (equal_fold s) (sym e) ∙ http)
  | inr other ↦ elim (Bool-cases (equal_fold s (codes "https"))) [
    | inl https ↦
        let e = some_text (codes "https") scheme (rw https at (rw other at h)) in
        (inr (sym e), ap (equal_fold s) (sym e) ∙ https)
    | inr neither ↦ cc (rw neither at (rw other at h))
  ]
]
  where
    some_text : (a b : Text) → ◌≡◌ {A = Option Text} (some a) (some b) → a ≡ b
    some_text a b e = cc

at_host-eq-ok :
    (u : RequestUrl) (host uri : Text) (o : Option Text)
    → at_host u host o ≡ ok uri
    → (scheme : Text) × (o ≡ some scheme)
      × (is_blank host ≡ false)
      × (uri ≡ scheme ++ (codes "://" ++ (host ++ escaped_path (some u))))
at_host-eq-ok u host uri none h = cc
at_host-eq-ok u host uri (some scheme) h =
    let (_, named, made) = >>=-eq-ok (fail_if (is_blank host) no_host) _ h in
    (scheme, refl, fail_if-eq-ok (is_blank host) no_host named, sym (ok-injective _ uri made))

pub outbound_uri-IsSentTo : (r : Request) (uri : Text) → outbound_uri r ≡ ok uri → IsSentTo r uri
unfolding outbound_uri
outbound_uri-IsSentTo r uri h = elim (Option-cases r.url) [
  | inl none_given ↦ cc (rw none_given at h)
  | inr (u, given) ↦
      let host = if is_blank r.host then u.host else r.host in
      let (scheme, web, named, made) =
        at_host-eq-ok u host uri (web_scheme u.scheme) (rw given at h) in
      let (one_of, folds) = web_scheme-eq-some u.scheme scheme web in
      (
        u,
        scheme,
        host,
        escaped_path (some u),
        given,
        one_of,
        folds,
        chosen u (Bool-cases (is_blank r.host)),
        named,
        subst (λ o. IsPathOf o (escaped_path (some u))) (sym given)
            (escaped_path-IsPathOf (some u)),
        made,
      )
]
  where
    chosen :
        (u : RequestUrl)
        → (is_blank r.host ≡ true) ⊎ (is_blank r.host ≡ false)
        → ((is_blank r.host ≡ true) × ((if is_blank r.host then u.host else r.host) ≡ u.host))
          ⊎ ((is_blank r.host ≡ false) × ((if is_blank r.host then u.host else r.host) ≡ r.host))
    chosen u (inl blank) = inl (blank, rw blank refl)
    chosen u (inr named) = inr (named, rw named refl)

module _ (std : Primitives) (codec : Codec) where
  -- A proof by the key file, made at the instant for the method, the address, the token and the nonce: a
  -- compact JWS of type `dpop+jwt`, signed by the key's seed, with the public key of that seed in its
  -- header.
  pub record IsMadeBy (k : KeyFile) (method htu token : Text) (now : Time) (nonce proof : Text)
      : Type 0 where
    pub seed : Text
    pub seed_part : std.b64_decode k.d ≡ some seed
    pub seed_size : length seed ≡ 32
    pub public : Jwk
    pub is_public :
        (public.kty ≡ codes "OKP")
        × (public.crv ≡ codes "Ed25519")
        × (public.x ≡ std.b64_encode (std.ed25519_public seed))
    pub claims : ProofClaims
    pub method_named : claims.htm ≡ method
    pub target_named : claims.htu ≡ htu
    pub at_instant : claims.iat ≡ unix now
    pub hashed :
        ((token ≡ []) × (claims.ath ≡ []))
        ⊎ ((token ≢ []) × (claims.ath ≡ std.b64_encode (std.sha256 token)))
    pub nonce_named : claims.nonce ≡ trim_space nonce
    pub signed :
        let input =
          std.b64_encode (codec.marshal_proof_header (codes "EdDSA") (codes "dpop+jwt") public)
          ++ (46 ∷ std.b64_encode (codec.marshal_proof_claims claims)) in
        proof ≡ input ++ (46 ∷ std.b64_encode (std.ed25519_sign seed input))

  signer_from_key_file-eq-ok :
      (k : KeyFile) (s : Signer)
      → signer_from_key_file std k ≡ ok s
      → (std.b64_decode k.d ≡ some s.seed) × (length s.seed ≡ 32)
  unfolding signer_from_key_file private_key
  signer_from_key_file-eq-ok k s h =
      let (seed, read, made) = >>=-eq-ok (private_key std k) _ h in
      let (part, size) = private_key-eq-ok seed read in
      subst (λ (x : Signer). (std.b64_decode k.d ≡ some x.seed) × (length x.seed ≡ 32))
        (ok-injective _ s made) (part, size)
    where
      private_key-eq-ok :
          (seed : Text)
          → private_key std k ≡ ok seed
          → (std.b64_decode k.d ≡ some seed) × (length seed ≡ 32)
      private_key-eq-ok seed e = elim (Bool-cases (is_empty k.d)) [
        | inl missing ↦ cc (rw missing at e)
        | inr there ↦ elim (Option-cases (std.b64_decode k.d)) [
          | inl garbled ↦ cc (rw garbled at (rw there at e))
          | inr (raw, part) ↦
              let tested = rw part at (rw there at e) in
              elim (Bool-cases (length raw == 32)) [
                | inr short ↦ cc (rw short at tested)
                | inl full ↦
                    subst (λ x. (std.b64_decode k.d ≡ some x) × (length x ≡ 32))
                      (ok-injective raw seed (rw full at tested))
                      (part, (==_iff (length raw) 32).0 full)
              ]
        ]
      ]

  hashed_or_empty :
      (token hash : Text)
      → ((token ≡ []) × ((if is_empty token then [] else hash) ≡ []))
        ⊎ ((token ≢ []) × ((if is_empty token then [] else hash) ≡ hash))
  hashed_or_empty [] hash = inl (refl, refl)
  hashed_or_empty (b ∷ token) hash = inr (λ e. cc, refl)

  pub prove_with_nonce-IsMadeBy :
      (o : Option KeyFile) (method htu token : Text) (now : Time) (nonce : Text) (bytes : List ℕ)
      (proof : Text)
      → prove_with_nonce std codec o method htu token now nonce bytes ≡ ok proof
      → (k : KeyFile) × (o ≡ some k) × IsMadeBy k method htu token now nonce proof
  unfolding prove_with_nonce sign proof_claims access_token_hash signer_jwk public_members text_eq
  prove_with_nonce-IsMadeBy none method htu token now nonce bytes proof h = cc
  prove_with_nonce-IsMadeBy (some k) method htu token now nonce bytes proof h =
      let (s, made, e) = >>=-eq-ok (invalid_if (signer_from_key_file std k)) _ h in
      let (part, size) =
        signer_from_key_file-eq-ok k s (invalid_if-eq-ok (signer_from_key_file std k) s made) in
      (
        k,
        refl,
        record {
          seed = s.seed;
          seed_part = part;
          seed_size = size;
          public = public_members (signer_jwk std s);
          is_public = (refl, refl, refl);
          claims = proof_claims std codec method htu token now nonce bytes;
          method_named = refl;
          target_named = refl;
          at_instant = refl;
          hashed = hashed_or_empty token (std.b64_encode (std.sha256 token));
          nonce_named = refl;
          signed = sym (ok-injective _ proof e);
        },
      )
