-- ===== src/Token/Thumbprint.antt =====
-- What `Thumbprint` of internal/token/jws.go hashes: the members that RFC 7638 wants, by the type of the key.
use agent_identity_plane.Prelude.{
  ◌≡◌, ◌⊎◌, inl, inr, sym, ◌||◌, List, [], ◌∷◌, Bool-cases, ok, fail_if, >>=-eq-ok, ok-injective,
}
use agent_identity_plane.Prelude.Text.{Text, text_eq, text_eq_iff, is_empty, codes}
use agent_identity_plane.Token.Errors.{thumbprint_failed}
use agent_identity_plane.Token.Keys.{Jwk, Primitives, thumbprint_members, thumbprint}

-- The required members of the key, in the order of their names.
abbrev pub IsMembers : Jwk → List (Text × Text) → Type 0
IsMembers k members =
    ((k.kty ≡ codes "OKP")
      × (members ≡ (codes "crv", k.crv) ∷ (codes "kty", codes "OKP") ∷ (codes "x", k.x) ∷ []))
    ⊎ ((k.kty ≡ codes "EC")
        × (members
            ≡ (codes "crv", k.crv)
              ∷ (codes "kty", codes "EC")
              ∷ (codes "x", k.x)
              ∷ (codes "y", k.y)
              ∷ []))
    ⊎ ((k.kty ≡ codes "RSA")
        × (members ≡ (codes "e", k.e) ∷ (codes "kty", codes "RSA") ∷ (codes "n", k.n) ∷ []))

thumbprint_members-IsMembers :
    (k : Jwk) (members : List (Text × Text))
    → thumbprint_members k ≡ ok members
    → IsMembers k members
unfolding thumbprint_members
thumbprint_members-IsMembers k members h = elim (Bool-cases (text_eq k.kty (codes "OKP"))) [
  | inl okp ↦
      let (_, _, e) =
        >>=-eq-ok (fail_if (is_empty k.crv || is_empty k.x) thumbprint_failed) _ (rw okp at h) in
      inl ((text_eq_iff k.kty (codes "OKP")).0 okp, sym (ok-injective _ members e))
  | inr not_okp ↦ elim (Bool-cases (text_eq k.kty (codes "EC"))) [
    | inl ec ↦
        let (_, _, e) =
          >>=-eq-ok (fail_if (is_empty k.crv || is_empty k.x || is_empty k.y) thumbprint_failed) _
            (rw ec at (rw not_okp at h)) in
        inr (inl ((text_eq_iff k.kty (codes "EC")).0 ec, sym (ok-injective _ members e)))
    | inr not_ec ↦ elim (Bool-cases (text_eq k.kty (codes "RSA"))) [
      | inl rsa ↦
          let (_, _, e) =
            >>=-eq-ok (fail_if (is_empty k.n || is_empty k.e) thumbprint_failed) _
              (rw rsa at (rw not_ec at (rw not_okp at h))) in
          inr (inr ((text_eq_iff k.kty (codes "RSA")).0 rsa, sym (ok-injective _ members e)))
      | inr other ↦ cc (rw other at (rw not_ec at (rw not_okp at h)))
    ]
  ]
]

module _ (std : Primitives) where
  -- The thumbprint is the SHA-256 hash of the required members.
  abbrev pub IsThumbprint : Jwk → Text → Type 0
  IsThumbprint k jkt =
      (members : List (Text × Text)) × IsMembers k members
      × (jkt ≡ std.b64_encode (std.sha256 (std.marshal_members members)))

  pub thumbprint-IsThumbprint :
      (k : Jwk) (jkt : Text) → thumbprint std k ≡ ok jkt → IsThumbprint k jkt
  unfolding thumbprint
  thumbprint-IsThumbprint k jkt h =
      let (members, listed, e) = >>=-eq-ok (thumbprint_members k) _ h in
      (members, thumbprint_members-IsMembers k members listed, sym (ok-injective _ jkt e))
