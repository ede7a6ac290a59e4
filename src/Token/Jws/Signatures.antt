-- ===== src/Token/Jws/Signatures.antt =====
-- What `verifySig` of internal/token/jws.go has checked.
use mathlib.Core.Path.{subst}
use agent_identity_plane.Prelude.{
  ℕ, ◌%◌, ◌^◌, not, ◌&&◌, ◌==◌, ==_iff, length, take, drop, Bool, sym, ◌≡◌, ◌⊎◌, inl, inr, refl,
  true, false, Option, none, some, arith, ok, fail_if, >>=-eq-ok, Bool-cases, ok-injective,
}
use agent_identity_plane.Prelude.Text.{Text, text_eq, text_eq_iff, is_empty, codes}
use agent_identity_plane.Token.Errors.{TokenError, invalid_key, unsupported_curve, bad_signature}
use agent_identity_plane.Token.Keys.{Jwk, Primitives, alg_eddsa, alg_es256, alg_rs256, be_value}
use agent_identity_plane.Token.Jws.{verify_sig, decoded, ed25519_key, ecdsa_key, rsa_key, below_3}

pub decoded-eq-ok :
    (o : Option Text) (e : TokenError) (raw : Text) → decoded o e ≡ ok raw → o ≡ some raw
decoded-eq-ok none e raw h = cc
decoded-eq-ok (some r) e raw h = ground arith

passed : (b : Bool) (e : TokenError) {u : Unit {0}} → fail_if (not b) e ≡ ok u → b ≡ true
passed true e h = refl
passed false e h = cc

module _ (std : Primitives) where
  -- The signature holds over the input by the key, in the way of the algorithm: its key is decoded from
  -- the members `x`, `x` and `y`, or `n` and `e`.
  abbrev pub Signs : Text → Jwk → Text → Text → Type 0
  Signs alg k input sig =
      ((alg ≡ codes "EdDSA")
        × (public : Text) × (std.b64_decode k.x ≡ some public)
        × (length public ≡ 32)
        × (std.ed25519_verify public input sig ≡ true))
      ⊎ ((alg ≡ codes "ES256")
          × (x : Text) × (y : Text) × (std.b64_decode k.x ≡ some x)
          × (std.b64_decode k.y ≡ some y)
          × (std.p256_on_curve (be_value 0 x) (be_value 0 y) ≡ true)
          × (length sig ≡ 64)
          × (std.ecdsa_verify (be_value 0 x) (be_value 0 y) (std.sha256 input)
                (be_value 0 (take 32 sig)) (be_value 0 (drop 32 sig))
              ≡ true))
      ⊎ ((alg ≡ codes "RS256")
          × (n : Text) × (e : Text) × (std.b64_decode k.n ≡ some n)
          × (std.b64_decode k.e ≡ some e)
          × (std.rsa_verify (be_value 0 n) (be_value 0 e % 2 ^ 64) (std.sha256 input) sig ≡ true))

  ed25519_key-eq-ok :
      (k : Jwk) (public : Text)
      → ed25519_key std k ≡ ok public
      → (std.b64_decode k.x ≡ some public) × (length public ≡ 32)
  unfolding ed25519_key
  ed25519_key-eq-ok k public h =
      let (raw, d, e0) = >>=-eq-ok (decoded (std.b64_decode k.x) invalid_key) _ h in
      let (_, n, e1) = >>=-eq-ok (fail_if (not (length raw == 32)) invalid_key) _ e0 in
      subst (λ x. (std.b64_decode k.x ≡ some x) × (length x ≡ 32)) (ok-injective raw public e1)
        (
          decoded-eq-ok (std.b64_decode k.x) invalid_key raw d,
          (==_iff (length raw) 32).0 (passed (length raw == 32) invalid_key n),
        )

  ecdsa_key-eq-ok :
      (k : Jwk) (public : ℕ × ℕ)
      → ecdsa_key std k ≡ ok public
      → (x : Text) × (y : Text) × (std.b64_decode k.x ≡ some x)
        × (std.b64_decode k.y ≡ some y)
        × (std.p256_on_curve (be_value 0 x) (be_value 0 y) ≡ true)
        × ((be_value 0 x, be_value 0 y) ≡ public)
  unfolding ecdsa_key
  ecdsa_key-eq-ok k public h =
      let (_, _, e0) =
        >>=-eq-ok
          (fail_if (not (is_empty k.crv) && not (text_eq k.crv (codes "P-256"))) unsupported_curve)
          _ h in
      let (x, dx, e1) = >>=-eq-ok (decoded (std.b64_decode k.x) invalid_key) _ e0 in
      let (y, dy, e2) = >>=-eq-ok (decoded (std.b64_decode k.y) invalid_key) _ e1 in
      let (_, c, e3) =
        >>=-eq-ok (fail_if (not (std.p256_on_curve (be_value 0 x) (be_value 0 y))) invalid_key) _
          e2 in
      (
        x,
        y,
        decoded-eq-ok (std.b64_decode k.x) invalid_key x dx,
        decoded-eq-ok (std.b64_decode k.y) invalid_key y dy,
        passed (std.p256_on_curve (be_value 0 x) (be_value 0 y)) invalid_key c,
        ok-injective (be_value 0 x, be_value 0 y) public e3,
      )

  rsa_key-eq-ok :
      (k : Jwk) (public : ℕ × ℕ)
      → rsa_key std k ≡ ok public
      → (n : Text) × (e : Text) × (std.b64_decode k.n ≡ some n)
        × (std.b64_decode k.e ≡ some e)
        × ((be_value 0 n, be_value 0 e % 2 ^ 64) ≡ public)
  unfolding rsa_key
  rsa_key-eq-ok k public h =
      let (n, dn, e0) = >>=-eq-ok (decoded (std.b64_decode k.n) invalid_key) _ h in
      let (e, de, e1) = >>=-eq-ok (decoded (std.b64_decode k.e) invalid_key) _ e0 in
      let (_, _, e2) = >>=-eq-ok (fail_if (below_3 (be_value 0 e)) invalid_key) _ e1 in
      (
        n,
        e,
        decoded-eq-ok (std.b64_decode k.n) invalid_key n dn,
        decoded-eq-ok (std.b64_decode k.e) invalid_key e de,
        ok-injective (be_value 0 n, be_value 0 e % 2 ^ 64) public e2,
      )

  pub verify_sig-Signs :
      (alg : Text) (k : Jwk) (input sig : Text)
      → verify_sig std alg k input sig ≡ ok tt
      → Signs alg k input sig
  unfolding verify_sig
  verify_sig-Signs alg k input sig h = elim (Bool-cases (text_eq alg alg_eddsa)) [
    | inl ed ↦
        let (public, made, e0) = >>=-eq-ok (ed25519_key std k) _ (rw ed at h) in
        let (part, size) = ed25519_key-eq-ok k public made in
        inl (
          (text_eq_iff alg alg_eddsa).0 ed,
          public,
          part,
          size,
          passed (std.ed25519_verify public input sig) bad_signature e0,
        )
    | inr not_ed ↦ elim (Bool-cases (text_eq alg alg_es256)) [
      | inl es ↦
          let (public, made, e0) = >>=-eq-ok (ecdsa_key std k) _ (rw es at (rw not_ed at h)) in
          let (x, y, dx, dy, on_curve, same) = ecdsa_key-eq-ok k public made in
          let (_, size, e1) = >>=-eq-ok (fail_if (not (length sig == 64)) bad_signature) _ e0 in
          inr (
            inl (
              (text_eq_iff alg alg_es256).0 es,
              x,
              y,
              dx,
              dy,
              on_curve,
              (==_iff (length sig) 64).0 (passed (length sig == 64) bad_signature size),
              subst
                  (λ q.
                    std.ecdsa_verify q.0 q.1 (std.sha256 input) (be_value 0 (take 32 sig))
                      (be_value 0 (drop 32 sig))
                    ≡ true)
                  (sym same) (passed _ bad_signature e1),
            ))
      | inr not_es ↦ elim (Bool-cases (text_eq alg alg_rs256)) [
        | inl rs ↦
            let (public, made, e0) =
              >>=-eq-ok (rsa_key std k) _ (rw rs at (rw not_es at (rw not_ed at h))) in
            let (n, e, dn, de, same) = rsa_key-eq-ok k public made in
            inr (
              inr (
                (text_eq_iff alg alg_rs256).0 rs,
                n,
                e,
                dn,
                de,
                subst (λ q. std.rsa_verify q.0 q.1 (std.sha256 input) sig ≡ true) (sym same)
                    (passed _ bad_signature e0),
              ))
        | inr other ↦ cc (rw other at (rw not_es at (rw not_ed at h)))
      ]
    ]
  ]
