-- ===== src/Dpop/Soundness.antt =====
-- What an accepted proof is known to be (internal/dpop/dpop.go).
use mathlib.Core.Path.{subst}
use agent_identity_plane.Prelude.{
  ◌≡◌, ◌≢◌, ◌⊎◌, inl, inr, sym, ◌++◌, Bool-cases, refl, ap, true, false, Bool, not, ◌&&◌, ◌||◌, ◌∷◌,
  [], List, Option, none, some, arith, Result, ok, err, fail_if, fail_if-eq-ok, >>=-eq-ok,
  ok-injective, if◌then◌else◌,
}
use agent_identity_plane.Prelude.Int.{ℤ, pos, eq_ℤ, ltb_ℤ, ◌≤ℤ◌, add_int64}
use agent_identity_plane.Prelude.Text.{Text, text_eq, text_eq_iff, is_empty, codes}
use agent_identity_plane.Prelude.Fields.{is_blank, trim_space}
use agent_identity_plane.Clock.{Time, unix}
use agent_identity_plane.Token.Claims.{Claims, contains}
use agent_identity_plane.Token.Keys.{Jwk, Primitives, alg_none_name, equal_fold, thumbprint}
use agent_identity_plane.Token.Thumbprint.{IsThumbprint, thumbprint-IsThumbprint}
use agent_identity_plane.Token.Jws.{split_dots}
use agent_identity_plane.Verify.Soundness.{IsSigned, verify-IsSigned}
use agent_identity_plane.Dpop.{
  DpopError, missing_proof, invalid_proof, private_jwk, alg_none, dpop_type, ProofHeader,
  ProofClaims, Proof, Codec, Request, RequestUrl, no_host, escaped_path, request_uri, no_private,
  private_names, or_invalid, invalid_if, out_of_window, nonempty_parts, access_token_hash,
  reject_private_jwk, check_header, check_request, verify_request, verify,
}

or_invalid-eq-ok : {A : Type 0} (o : Option A) (a : A) → or_invalid o ≡ ok a → o ≡ some a
or_invalid-eq-ok none a h = cc
or_invalid-eq-ok (some b) a h = ground arith

pub invalid_if-eq-ok : {E A : Type 0} (r : Result E A) (a : A) → invalid_if r ≡ ok a → r ≡ ok a
invalid_if-eq-ok (ok b) a h = ground arith
invalid_if-eq-ok (err e) a h = cc

-- None of the names is a member.
abbrev pub NoneOf : List Text → List Text → Type 0
NoneOf members [] = Unit
NoneOf members (k ∷ ks) = (contains members k ≡ false) × NoneOf members ks

-- The members that only a private or a symmetric key has.
abbrev pub secret_members : List Text
secret_members =
    codes "d"
    ∷ codes "p"
    ∷ codes "q"
    ∷ codes "dp"
    ∷ codes "dq"
    ∷ codes "qi"
    ∷ codes "k"
    ∷ codes "oth"
    ∷ []

no_private-NoneOf :
    (members names : List Text) → no_private members names ≡ ok tt → NoneOf members names
unfolding no_private
no_private-NoneOf members [] h = tt
no_private-NoneOf members (k ∷ ks) h =
    let (_, here, rest) = >>=-eq-ok (fail_if (contains members k) private_jwk) _ h in
    (fail_if-eq-ok (contains members k) private_jwk here, no_private-NoneOf members ks rest)

nonempty_parts-eq-ok :
    (parts : List Text) (q : Text × Text)
    → nonempty_parts parts ≡ ok q
    → (p2 : Text) × (parts ≡ q.0 ∷ q.1 ∷ p2 ∷ [])
nonempty_parts-eq-ok [] q h = cc
nonempty_parts-eq-ok (p0 ∷ []) q h = cc
nonempty_parts-eq-ok (p0 ∷ p1 ∷ []) q h = cc
nonempty_parts-eq-ok (p0 ∷ p1 ∷ p2 ∷ []) q h =
    let (_, _, e) =
      >>=-eq-ok (fail_if (is_empty p0 || is_empty p1 || is_empty p2) invalid_proof) _ h in
    (p2, ap (λ x. x.0 ∷ x.1 ∷ p2 ∷ []) (ok-injective (p0, p1) q e))
nonempty_parts-eq-ok (p0 ∷ p1 ∷ p2 ∷ p3 ∷ ps) q h = cc

text_eq-of_not :
    (a b : Text) (e : DpopError) {u : Unit {0}} → fail_if (not (text_eq a b)) e ≡ ok u → a ≡ b
text_eq-of_not a b e h = ground (arith, text_eq_iff a b)

abbrev pub IsPathOf : Option RequestUrl → Text → Type 0
IsPathOf none path = path ≡ codes "/"
IsPathOf (some u) path =
    ((u.escaped_path ≡ []) × (path ≡ codes "/")) ⊎ ((u.escaped_path ≢ []) × (path ≡ u.escaped_path))

pub escaped_path-IsPathOf : (o : Option RequestUrl) → IsPathOf o (escaped_path o)
unfolding escaped_path
escaped_path-IsPathOf none = refl
escaped_path-IsPathOf (some u) = elim (Bool-cases (is_empty u.escaped_path)) [
  | inl none_given ↦ inl (ground arith, rw none_given refl)
  | inr given ↦ inr (λ e. ground (arith, ap is_empty e), rw given refl)
]

-- The scheme by which the request has come, its host, and its path, `/` where there is none.
abbrev pub IsUriOf : Request → Text → Type 0
IsUriOf r uri =
    (path : Text) × IsPathOf r.url path
    × (uri ≡ (if r.tls then codes "https" else codes "http") ++ (codes "://" ++ (r.host ++ path)))

request_uri-IsUriOf :
    (r : Request) (uri : Text) → request_uri r ≡ ok uri → (is_blank r.host ≡ false) × IsUriOf r uri
unfolding request_uri
request_uri-IsUriOf r uri h =
    let (_, named, made) = >>=-eq-ok (fail_if (is_blank r.host) no_host) _ h in
    (
      fail_if-eq-ok (is_blank r.host) no_host named,
      (escaped_path r.url, escaped_path-IsPathOf r.url, sym (ok-injective _ uri made)),
    )

-- The time is at most 30 seconds before the clock and at most 30 after it, by the addition of int64.
abbrev pub IsNear : ℤ → ℤ → Type 0
IsNear iat now = (now ≤ℤ add_int64 iat (pos 30)) × (iat ≤ℤ add_int64 now (pos 30))

near_of_window : (iat now : ℤ) → out_of_window iat now ≡ false → IsNear iat now
near_of_window iat now h = within now (add_int64 iat (pos 30)) iat (add_int64 now (pos 30)) h
  where
    within : (a b c d : ℤ) → (ltb_ℤ b a || ltb_ℤ d c) ≡ false → (a ≤ℤ b) × (c ≤ℤ d)
    within a b c d e = ground arith

module _ (std : Primitives) (codec : Codec) where
  -- The first part is the header of a proof, whose key is this one and has no private member.
  pub record IsHeader (p0 : Text) (k : Jwk) : Type 0 where
    pub header : ProofHeader
    pub bytes : Text
    pub names : List Text
    pub decoded : std.b64_decode p0 ≡ some bytes
    pub parsed : codec.parse_proof_header bytes ≡ some header
    pub typed : header.typ ≡ codes "dpop+jwt"
    pub named : (is_empty header.alg ≡ false) × (equal_fold header.alg (codes "none") ≡ false)
    pub members : codec.member_names header.jwk ≡ some names
    pub is_public : NoneOf names secret_members
    pub key : codec.parse_jwk header.jwk ≡ some k

  check_header-IsHeader : (p0 : Text) (k : Jwk) → check_header std codec p0 ≡ ok k → IsHeader p0 k
  unfolding check_header reject_private_jwk
  check_header-IsHeader p0 k h =
      let (hb, b, e0) = >>=-eq-ok (or_invalid (std.b64_decode p0)) _ h in
      let (ph, p, e1) = >>=-eq-ok (or_invalid (codec.parse_proof_header hb)) _ e0 in
      let (_, t, e2) = >>=-eq-ok (fail_if (not (text_eq ph.typ dpop_type)) invalid_proof) _ e1 in
      let (_, a, e3) =
        >>=-eq-ok (fail_if (is_empty ph.alg || equal_fold ph.alg alg_none_name) alg_none) _ e2 in
      let (_, _, e4) = >>=-eq-ok (fail_if (is_empty ph.jwk) invalid_proof) _ e3 in
      let (_, r, e5) = >>=-eq-ok (reject_private_jwk std codec ph.jwk) _ e4 in
      let (ns, m, e6) = >>=-eq-ok (or_invalid (codec.member_names ph.jwk)) _ r in
      record {
        header = ph;
        bytes = hb;
        names = ns;
        decoded = or_invalid-eq-ok (std.b64_decode p0) hb b;
        parsed = or_invalid-eq-ok (codec.parse_proof_header hb) ph p;
        typed = text_eq-of_not ph.typ dpop_type invalid_proof t;
        named = named_of ph a;
        members = or_invalid-eq-ok (codec.member_names ph.jwk) ns m;
        is_public = no_private-NoneOf ns private_names e6;
        key = or_invalid-eq-ok (codec.parse_jwk ph.jwk) k e5;
      }
    where
      named_of :
          (ph : ProofHeader) {u : Unit {0}}
          → fail_if (is_empty ph.alg || equal_fold ph.alg alg_none_name) alg_none ≡ ok u
          → (is_empty ph.alg ≡ false) × (equal_fold ph.alg alg_none_name ≡ false)
      named_of ph e = ground arith

  -- The claims are made for this request and, but for a token request, for this access token.
  pub record IsMadeFor (r : Request) (access_token : Text) (c : ProofClaims) (token_request : Bool)
      : Type 0 where
    pub has_jti : is_empty c.jti ≡ false
    pub method : c.htm ≡ r.method
    pub host : is_blank r.host ≡ false
    pub target : IsUriOf r c.htu
    pub hashed :
        if token_request then c.ath ≡ [] else c.ath ≡ std.b64_encode (std.sha256 access_token)

  check_request-IsMadeFor :
      (r : Request) (access_token : Text) (c : ProofClaims) (token_request : Bool)
      → check_request std codec r access_token c token_request ≡ ok tt
      → IsMadeFor r access_token c token_request
  unfolding check_request
  check_request-IsMadeFor r access_token c token_request h =
      let (_, i, e0) =
        >>=-eq-ok
          (fail_if (is_empty c.jti || is_empty c.htm || is_empty c.htu || eq_ℤ c.iat (pos 0))
            invalid_proof)
          _ h in
      let (_, a, e1) =
        >>=-eq-ok
          (fail_if (if token_request then not (is_empty c.ath) else is_empty c.ath) invalid_proof) _
          e0 in
      let (_, m, e2) = >>=-eq-ok (fail_if (not (text_eq c.htm r.method)) invalid_proof) _ e1 in
      let (want, u, e3) = >>=-eq-ok (request_uri r) _ e2 in
      let (_, t, e4) = >>=-eq-ok (fail_if (not (text_eq c.htu want)) invalid_proof) _ e3 in
      record {
        has_jti = identified_of i;
        method = text_eq-of_not c.htm r.method invalid_proof m;
        host = (request_uri-IsUriOf r want u).0;
        target = rw (text_eq-of_not c.htu want invalid_proof t) (request_uri-IsUriOf r want u).1;
        hashed = hashed_of token_request a e4;
      }
    where
      identified_of :
          {u : Unit {0}}
          → fail_if
              (is_empty c.jti || is_empty c.htm || is_empty c.htu || eq_ℤ c.iat (pos 0))
              invalid_proof
            ≡ ok u
          → is_empty c.jti ≡ false
      identified_of e = ground arith

      hashed_of :
          (b : Bool) {u v : Unit {0}}
          → fail_if (if b then not (is_empty c.ath) else is_empty c.ath) invalid_proof ≡ ok u
          → fail_if
              (not b && not (text_eq c.ath (access_token_hash std codec access_token)))
              invalid_proof
            ≡ ok v
          → if b then c.ath ≡ [] else c.ath ≡ std.b64_encode (std.sha256 access_token)
      hashed_of true e f = ground arith
      hashed_of false e f =
          unfold access_token_hash in
          ground (arith, text_eq_iff c.ath (access_token_hash std codec access_token))

  -- What is known of a proof that is accepted for a request, an access token and a bound key: it is
  -- a token of the proof's own public key, of the type of a proof.
  pub record IsProof (r : Request) (access_token want_jkt : Text) (now : Time) (p : Proof)
      : Type 0 where
    pub key : Jwk
    pub p0 : Text
    pub p1 : Text
    pub p2 : Text
    pub parts : split_dots [] (trim_space r.proof) ≡ p0 ∷ p1 ∷ p2 ∷ []
    pub head : IsHeader p0 key
    pub signed_claims : Claims
    pub signed : IsSigned std (key ∷ []) (trim_space r.proof) signed_claims
    pub payload : Text
    pub decoded : std.b64_decode p1 ≡ some payload
    pub claims : ProofClaims
    pub parsed : codec.parse_proof_claims payload ≡ some claims
    pub made_for : IsMadeFor r access_token claims (is_empty access_token && is_empty want_jkt)
    pub bound : IsThumbprint std key p.jkt
    pub wanted : (is_empty access_token && is_empty want_jkt ≡ false) → p.jkt ≡ want_jkt
    pub fresh : IsNear claims.iat (unix now)
    pub result :
        p ≡ record { jti = claims.jti; iat = claims.iat; jkt = p.jkt; nonce = claims.nonce }

  wanted_of :
      (b : Bool) (jkt want : Text) {u : Unit {0}}
      → fail_if (not b && not (text_eq jkt want)) invalid_proof ≡ ok u
      → b ≡ false
      → jkt ≡ want
  wanted_of true jkt want e f = cc
  wanted_of false jkt want e f = ground (arith, text_eq_iff jkt want)

  verify_request-IsProof :
      (r : Request) (access_token want_jkt : Text) (now : Time) (p : Proof)
      → verify_request std codec r access_token want_jkt now ≡ ok p
      → IsProof r access_token want_jkt now p
  unfolding verify_request
  verify_request-IsProof r access_token want_jkt now p h =
      let raw = trim_space r.proof in
      let at_token = is_empty access_token && is_empty want_jkt in
      let (_, _, e0) = >>=-eq-ok (fail_if (is_empty raw) missing_proof) _ h in
      let (_, _, e1) =
        >>=-eq-ok
          (fail_if (not at_token && (is_empty access_token || is_empty want_jkt)) invalid_proof) _
          e0 in
      let ((p0, p1), q, e2) = >>=-eq-ok (nonempty_parts (split_dots [] raw)) _ e1 in
      let (p2, ps) = nonempty_parts-eq-ok (split_dots [] raw) (p0, p1) q in
      let (k, ch, e3) = >>=-eq-ok (check_header std codec p0) _ e2 in
      let (sc, sv, e4) =
        >>=-eq-ok (invalid_if (agent_identity_plane.Token.Jws.verify std raw (k ∷ []))) _ e3 in
      let (pb, d, e5) = >>=-eq-ok (or_invalid (std.b64_decode p1)) _ e4 in
      let (c, pc, e6) = >>=-eq-ok (or_invalid (codec.parse_proof_claims pb)) _ e5 in
      let (_, cr, e7) = >>=-eq-ok (check_request std codec r access_token c at_token) _ e6 in
      let (jkt, th, e8) = >>=-eq-ok (invalid_if (thumbprint std k)) _ e7 in
      let (_, w, e9) =
        >>=-eq-ok (fail_if (not at_token && not (text_eq jkt want_jkt)) invalid_proof) _ e8 in
      let (_, f, e10) = >>=-eq-ok (fail_if (out_of_window c.iat (unix now)) invalid_proof) _ e9 in
      let made : Proof = record { jti = c.jti; iat = c.iat; jkt = jkt; nonce = c.nonce } in
      let known : IsProof r access_token want_jkt now made = record {
        key = k;
        p0 = p0;
        p1 = p1;
        p2 = p2;
        parts = ps;
        head = check_header-IsHeader p0 k ch;
        signed_claims = sc;
        signed =
            verify-IsSigned std raw (k ∷ []) sc
              (invalid_if-eq-ok (agent_identity_plane.Token.Jws.verify std raw (k ∷ [])) sc sv);
        payload = pb;
        decoded = or_invalid-eq-ok (std.b64_decode p1) pb d;
        claims = c;
        parsed = or_invalid-eq-ok (codec.parse_proof_claims pb) c pc;
        made_for = check_request-IsMadeFor r access_token c at_token cr;
        bound = thumbprint-IsThumbprint std k jkt (invalid_if-eq-ok (thumbprint std k) jkt th);
        wanted = wanted_of at_token jkt want_jkt w;
        fresh =
            near_of_window c.iat (unix now)
              (fail_if-eq-ok (out_of_window c.iat (unix now)) invalid_proof f);
        result = refl;
      } in
      subst (λ x. IsProof r access_token want_jkt now x) (ok-injective made p e10) known

  -- A proof that is accepted is a token of three parts, signed by the public key in its own header,
  -- whose thumbprint is the key of the result, and of the type `dpop+jwt`. It names the method and the
  -- URI of this request: the scheme it came by, its host and its path. Its time is within 30 seconds of
  -- the clock, before and after, in the arithmetic of `int64`. But for a token request, it has the SHA-256
  -- hash of this access token and its key has the thumbprint that the access token is bound to.
  pub verify-IsProof :
      (r : Request) (access_token want_jkt : Text) (now : Time) (p : Proof)
      → verify std codec (some r) access_token want_jkt now ≡ ok p
      → IsProof r access_token want_jkt now p
  unfolding verify
  verify-IsProof r access_token want_jkt now p h =
      verify_request-IsProof r access_token want_jkt now p h
