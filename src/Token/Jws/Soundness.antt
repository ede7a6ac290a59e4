-- ===== src/Token/Jws/Soundness.antt =====
-- What a verified token has passed (internal/token/jws.go).
use mathlib.Core.Path.{subst}
use agent_identity_plane.Prelude.{
  ◌≡◌, ◌⊎◌, inl, inr, refl, true, false, ◌||◌, List, [], ◌∷◌, ◌++◌, Option, none, some, arith, ok,
  fail_if, >>=-eq-ok, In, Bool-cases, ok-injective,
}
use agent_identity_plane.Prelude.Text.{Text, text_eq_iff, is_empty, codes}
use agent_identity_plane.Token.Errors.{invalid_token, alg_none, bad_signature}
use agent_identity_plane.Token.Claims.{Claims}
use agent_identity_plane.Token.Keys.{
  Header, Jwk, Jwks, Primitives, alg_eddsa, alg_es256, alg_rs256, alg_none_name, equal_fold,
}
use agent_identity_plane.Token.Jws.{
  split_dots, matches, matched, choose, only_key, select_key, match_alg, verify_sig, decoded,
  parsed, verify_parts, three_parts, verify_key,
}
use agent_identity_plane.Token.Jws.Signatures.{Signs, decoded-eq-ok, verify_sig-Signs}

In-head_or :
    (k j : Jwk) (keys chosen : Jwks) (kid alg : Text)
    → (In k chosen → In k keys × (matches kid alg k ≡ true))
    → matches kid alg j ≡ true
    → In k (j ∷ chosen)
    → In k (j ∷ keys) × (matches kid alg k ≡ true)
In-head_or k j keys chosen kid alg ih fits (inl e) = (inl e, rw e fits)
In-head_or k j keys chosen kid alg ih fits (inr h) = let (i, m) = ih h in (inr i, m)

In-matched :
    (keys : Jwks) (kid alg : Text) (k : Jwk)
    → In k (matched keys kid alg)
    → In k keys × (matches kid alg k ≡ true)
unfolding matched
In-matched [] kid alg k h = absurd h
In-matched (j ∷ keys) kid alg k h = elim (Bool-cases (matches kid alg j)) [
  | inl fits ↦
      In-head_or k j keys (matched keys kid alg) kid alg (In-matched keys kid alg k) fits
        (rw fits at h)
  | inr differs ↦ let (i, m) = In-matched keys kid alg k (rw differs at h) in (inr i, m)
]

only_key-In : (keys : Jwks) (k : Jwk) → only_key keys ≡ ok k → In k keys
unfolding only_key
only_key-In [] k h = cc
only_key-In (j ∷ []) k h = inl (ground arith)
only_key-In (j ∷ l ∷ keys) k h = cc

-- The key that is chosen is one of the set, and of the given kid, if there is one.
abbrev pub IsChosen : Jwks → Text → Jwk → Type 0
IsChosen keys kid k = In k keys × ((kid ≡ []) ⊎ (k.kid ≡ kid))

choose-IsChosen :
    (keys : Jwks) (kid alg : Text) (k : Jwk) (found : List Jwk)
    → ((j : Jwk) → In j found → In j keys × (matches kid alg j ≡ true))
    → choose kid keys found ≡ ok k
    → IsChosen keys kid k
unfolding choose
choose-IsChosen keys [] alg k [] fits h = (only_key-In keys k h, inl refl)
choose-IsChosen keys [] alg k (j ∷ []) fits h = ((fits k (inl (ground arith))).0, inl refl)
choose-IsChosen keys [] alg k (j ∷ l ∷ found) fits h = (only_key-In keys k h, inl refl)
choose-IsChosen keys (b ∷ kid) alg k [] fits h = cc
choose-IsChosen keys (b ∷ kid) alg k (j ∷ found) fits h =
    let (i, m) = fits k (inl (ground arith)) in
    (i, inr (ground (arith, text_eq_iff k.kid (b ∷ kid))))

select_key-IsChosen :
    (keys : Jwks) (kid alg : Text) (k : Jwk) → select_key keys kid alg ≡ ok k → IsChosen keys kid k
unfolding select_key
select_key-IsChosen keys kid alg k h =
    choose-IsChosen keys kid alg k (matched keys kid alg) (In-matched keys kid alg) h

-- The algorithm is one of the three that are supported, and the key is of its type and curve, and
-- names no other algorithm.
abbrev pub Suits : Text → Jwk → Type 0
Suits alg k =
    ((alg ≡ codes "EdDSA") × (k.kty ≡ codes "OKP") × (k.crv ≡ codes "Ed25519"))
    ⊎ ((alg ≡ codes "ES256") × (k.kty ≡ codes "EC") × ((k.crv ≡ []) ⊎ (k.crv ≡ codes "P-256")))
    ⊎ ((alg ≡ codes "RS256") × (k.kty ≡ codes "RSA"))

match_alg-Suits :
    (alg : Text) (k : Jwk) → match_alg alg k ≡ ok tt → Suits alg k × ((k.alg ≡ []) ⊎ (k.alg ≡ alg))
unfolding match_alg
match_alg-Suits alg k h = ground (
  arith,
  text_eq_iff alg alg_eddsa,
  text_eq_iff alg alg_es256,
  text_eq_iff alg alg_rs256,
  text_eq_iff k.kty (codes "OKP"),
  text_eq_iff k.kty (codes "EC"),
  text_eq_iff k.kty (codes "RSA"),
  text_eq_iff k.crv (codes "Ed25519"),
  text_eq_iff k.crv (codes "P-256"),
  text_eq_iff k.alg alg_eddsa,
  text_eq_iff k.alg alg_es256,
  text_eq_iff k.alg alg_rs256,
)

module _ (std : Primitives) where
  -- What has been checked of the parts of a token that verifies as `h`, `c` by the key `k`.
  pub record IsVerified (keys : Jwks) (p0 p1 p2 : Text) (h : Header) (c : Claims) (k : Jwk)
      : Type 0 where
    pub header_bytes : Text
    pub header_part : std.b64_decode p0 ≡ some header_bytes
    pub header : std.parse_header header_bytes ≡ some h
    pub chosen : IsChosen keys h.kid k
    pub named : (is_empty h.alg ≡ false) × (equal_fold h.alg (codes "none") ≡ false)
    pub suits : Suits h.alg k × ((k.alg ≡ []) ⊎ (k.alg ≡ h.alg))
    pub sig : Text
    pub payload : Text
    pub sig_part : std.b64_decode p2 ≡ some sig
    pub signed : Signs std h.alg k (p0 ++ (46 ∷ p1)) sig
    pub payload_part : std.b64_decode p1 ≡ some payload
    pub claims : std.parse_claims payload ≡ some c

  parsed-eq-ok : {A : Type 0} (o : Option A) (a : A) → parsed std o ≡ ok a → o ≡ some a
  parsed-eq-ok none a h = cc
  parsed-eq-ok (some b) a h = ground arith

  verify_parts-IsVerified :
      (keys : Jwks) (p0 p1 p2 : Text) (h : Header) (c : Claims) (k : Jwk)
      → verify_parts std keys p0 p1 p2 ≡ ok (h, c, k)
      → IsVerified keys p0 p1 p2 h c k
  unfolding verify_parts
  verify_parts-IsVerified keys p0 p1 p2 h c k e =
      let (_, _, e0) = >>=-eq-ok (fail_if (is_empty p0 || is_empty p1) invalid_token) _ e in
      let (hb, hd, e1) = >>=-eq-ok (decoded (std.b64_decode p0) invalid_token) _ e0 in
      let (h', hp, e2) = >>=-eq-ok (parsed std (std.parse_header hb)) _ e1 in
      let (_, na, e3) =
        >>=-eq-ok (fail_if (is_empty h'.alg || equal_fold h'.alg alg_none_name) alg_none) _ e2 in
      let (_, _, e4) = >>=-eq-ok (fail_if (is_empty p2) invalid_token) _ e3 in
      let (k', sel, e5) = >>=-eq-ok (select_key keys h'.kid h'.alg) _ e4 in
      let (_, fit, e6) = >>=-eq-ok (match_alg h'.alg k') _ e5 in
      let (sig, sp, e7) = >>=-eq-ok (decoded (std.b64_decode p2) bad_signature) _ e6 in
      let (_, vs, e8) = >>=-eq-ok (verify_sig std h'.alg k' (p0 ++ (46 ∷ p1)) sig) _ e7 in
      let (pb, pp, e9) = >>=-eq-ok (decoded (std.b64_decode p1) invalid_token) _ e8 in
      let (c', cp, e10) = >>=-eq-ok (parsed std (std.parse_claims pb)) _ e9 in
      let v : IsVerified keys p0 p1 p2 h' c' k' = record {
        header_bytes = hb;
        header_part = decoded-eq-ok (std.b64_decode p0) invalid_token hb hd;
        header = parsed-eq-ok (std.parse_header hb) h' hp;
        chosen = select_key-IsChosen keys h'.kid h'.alg k' sel;
        named = named_of h' na;
        suits = match_alg-Suits h'.alg k' fit;
        sig = sig;
        payload = pb;
        sig_part = decoded-eq-ok (std.b64_decode p2) bad_signature sig sp;
        signed = verify_sig-Signs std h'.alg k' (p0 ++ (46 ∷ p1)) sig vs;
        payload_part = decoded-eq-ok (std.b64_decode p1) invalid_token pb pp;
        claims = parsed-eq-ok (std.parse_claims pb) c' cp;
      } in
      subst (λ t. IsVerified keys p0 p1 p2 t.0 t.1 t.2) (ok-injective (h', c', k') (h, c, k) e10) v
    where
      named_of :
          (h : Header) {u : Unit}
          → fail_if (is_empty h.alg || equal_fold h.alg alg_none_name) alg_none ≡ ok u
          → (is_empty h.alg ≡ false) × (equal_fold h.alg alg_none_name ≡ false)
      named_of h e = ground arith

  three_parts-eq-ok :
      (keys : Jwks) (parts : List Text) (r : Header × Claims × Jwk)
      → three_parts std keys parts ≡ ok r
      → (p0 : Text) × (p1 : Text) × (p2 : Text) × (parts ≡ p0 ∷ p1 ∷ p2 ∷ [])
        × (verify_parts std keys p0 p1 p2 ≡ ok r)
  three_parts-eq-ok keys [] r e = cc
  three_parts-eq-ok keys (p0 ∷ []) r e = cc
  three_parts-eq-ok keys (p0 ∷ p1 ∷ []) r e = cc
  three_parts-eq-ok keys (p0 ∷ p1 ∷ p2 ∷ []) r e = (p0, p1, p2, refl, e)
  three_parts-eq-ok keys (p0 ∷ p1 ∷ p2 ∷ p3 ∷ ps) r e = cc

  -- A token that verifies has three parts, names an algorithm other than `none`, and its signature
  -- passes the primitive of its algorithm, Ed25519, P-256 or RSA, over its first two parts by a key of the set: the key that the header's kid names, if it
  -- names one, of the type that the algorithm wants. The header is that of its first part and the
  -- claims are those of its second.
  pub verify_key-IsVerified :
      (raw : Text) (keys : Jwks) (h : Header) (c : Claims) (k : Jwk)
      → verify_key std raw keys ≡ ok (h, c, k)
      → (p0 : Text) × (p1 : Text) × (p2 : Text) × (split_dots [] raw ≡ p0 ∷ p1 ∷ p2 ∷ [])
        × IsVerified keys p0 p1 p2 h c k
  unfolding verify_key
  verify_key-IsVerified raw keys h c k e =
      let (p0, p1, p2, parts, e') = three_parts-eq-ok keys (split_dots [] raw) (h, c, k) e in
      (p0, p1, p2, parts, verify_parts-IsVerified keys p0 p1 p2 h c k e')
