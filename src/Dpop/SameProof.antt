-- ===== src/Dpop/SameProof.antt =====
-- Proofs of one text (internal/dpop/dpop.go).
use agent_identity_plane.Prelude.{◌≡◌, ap, sym, ◌∙◌, List, [], ◌∷◌, Option, some}
use agent_identity_plane.Prelude.Text.{Text}
use agent_identity_plane.Prelude.Fields.{trim_space}
use agent_identity_plane.Clock.{Time}
use agent_identity_plane.Token.Keys.{Primitives}
use agent_identity_plane.Token.Jws.{split_dots}
use agent_identity_plane.Dpop.{ProofClaims, Proof, Codec, Request}
use agent_identity_plane.Dpop.Soundness.{IsProof}

some-injective : {A : Type 0} (a b : A) → ◌≡◌ {A = Option A} (some a) (some b) → a ≡ b
some-injective a b e = cc

second_part :
    (p0 p1 p2 q0 q1 q2 : Text)
    → ◌≡◌ {A = List Text} (p0 ∷ p1 ∷ p2 ∷ []) (q0 ∷ q1 ∷ q2 ∷ [])
    → p1 ≡ q1
second_part p0 p1 p2 q0 q1 q2 e = cc

module _ (std : Primitives) (codec : Codec) where
  -- Two proofs with one text that are accepted, for whatever requests and keys, have the same
  -- identifier and the same time.
  pub IsProof-same :
      (r s : Request) (raw jkt raw' jkt' : Text) (now now' : Time) (p q : Proof)
      → IsProof std codec r raw jkt now p
      → IsProof std codec s raw' jkt' now' q
      → s.proof ≡ r.proof
      → (q.jti ≡ p.jti) × (q.iat ≡ p.iat)
  IsProof-same r s raw jkt raw' jkt' now now' p q x y same =
      let part : y.p1 ≡ x.p1 =
        second_part y.p0 y.p1 y.p2 x.p0 x.p1 x.p2
          (sym y.parts ∙ ap (λ t. split_dots [] (trim_space t)) same ∙ x.parts) in
      let payload : y.payload ≡ x.payload =
        some-injective y.payload x.payload (sym y.decoded ∙ ap std.b64_decode part ∙ x.decoded) in
      let claims : y.claims ≡ x.claims =
        some-injective y.claims x.claims
          (sym y.parsed ∙ ap codec.parse_proof_claims payload ∙ x.parsed) in
      (
        ap (λ (z : Proof). z.jti) y.result
            ∙ ap (λ (c : ProofClaims). c.jti) claims
            ∙ sym (ap (λ (z : Proof). z.jti) x.result),
        ap (λ (z : Proof). z.iat) y.result
            ∙ ap (λ (c : ProofClaims). c.iat) claims
            ∙ sym (ap (λ (z : Proof). z.iat) x.result),
      )
