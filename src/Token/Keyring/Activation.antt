-- ===== src/Token/Keyring/Activation.antt =====
-- What `AllowActivation` of internal/token/keyring.go keeps of the published keys.
use agent_identity_plane.Prelude.{
  ◌≡◌, refl, sym, ap, ◌∙◌, ◌⊎◌, inl, inr, Bool, true, false, not, ◌&&◌, [], ◌∷◌, Option, none, some,
  Option-cases, arith, if◌then◌else◌, Bool-cases, ok, err, In,
}
use agent_identity_plane.Prelude.Text.{Text, text_eq, text_eq_iff, is_empty}
use agent_identity_plane.Prelude.Assoc.{Assoc, lookup, insert, lookup-insert}
use agent_identity_plane.Token.Errors.{TokenError, invalid_key}
use agent_identity_plane.Token.Keys.{Jwk, Jwks, Signer, Primitives, public_equal}
use agent_identity_plane.Token.Keyring.{
  Keyring, signers, listed, active_kid, has_kid, index_keys, same_or_gone, all_stable,
  public_material_stable, jwks, allow_activation,
}

-- The key of a set that a kid stands for: the last one of that kid.
abbrev pub key_of : Jwks → Text → Option Jwk
key_of [] kid = none
key_of (j ∷ ks) kid = elim (key_of ks kid) [
  | some n ↦ some n
  | none ↦ if text_eq j.kid kid then some j else none
]

lookup-index_keys :
    (m : Assoc Jwk) (ks : Jwks) (kid : Text)
    → lookup kid (index_keys m ks) ≡ elim (key_of ks kid) [ some n ↦ some n | none ↦ lookup kid m ]
unfolding index_keys
lookup-index_keys m [] kid = refl
lookup-index_keys m (j ∷ ks) kid =
    ground (arith, lookup-index_keys (insert j.kid j m) ks kid, lookup-insert j.kid kid j m)

indexed :
    (ks : Jwks) (kid : Text) (n : Jwk)
    → key_of ks kid ≡ some n
    → lookup kid (index_keys [] ks) ≡ some n
indexed ks kid n h = rw lookup-index_keys (rw h refl)

both : (a b : Bool) → (a && b) ≡ true → (a ≡ true) × (b ≡ true)
both true b h = (refl, h)
both false b h = cc

same_text : (s t : Text) → text_eq s t ≡ true → s ≡ t
same_text s t h = (text_eq_iff s t).0 h

-- Keys of equal public material are equal: it is all that a JWK has.
public_equal→≡ : (j n : Jwk) → public_equal j n ≡ true → j ≡ n
unfolding public_equal
public_equal→≡ j n h =
    let (r9, t9) = both _ (text_eq j.sub n.sub) h in
    let (r8, t8) = both _ (text_eq j.e n.e) r9 in
    let (r7, t7) = both _ (text_eq j.n n.n) r8 in
    let (r6, t6) = both _ (text_eq j.y n.y) r7 in
    let (r5, t5) = both _ (text_eq j.x n.x) r6 in
    let (r4, t4) = both _ (text_eq j.crv n.crv) r5 in
    let (r3, t3) = both _ (text_eq j.alg n.alg) r4 in
    let (r2, t2) = both _ (text_eq j.usage n.usage) r3 in
    let (r1, t1) = both _ (text_eq j.kty n.kty) r2 in
    λ i. record {
      kid = same_text j.kid n.kid r1 i;
      kty = same_text j.kty n.kty t1 i;
      usage = same_text j.usage n.usage t2 i;
      alg = same_text j.alg n.alg t3 i;
      crv = same_text j.crv n.crv t4 i;
      x = same_text j.x n.x t5 i;
      y = same_text j.y n.y t6 i;
      n = same_text j.n n.n t7 i;
      e = same_text j.e n.e t8 i;
      sub = same_text j.sub n.sub t9 i;
    }

-- A key of the kid is in the ring.
abbrev pub HasKey : Option Keyring → Text → Type 0
HasKey ring kid = (k : Keyring) × (s : Signer) × (ring ≡ some k) × (lookup kid (signers k) ≡ some s)

has_kid-HasKey : (ring : Option Keyring) (kid : Text) → has_kid ring kid ≡ true → HasKey ring kid
unfolding has_kid
has_kid-HasKey none kid h = cc
has_kid-HasKey (some k) kid h = elim (Option-cases (lookup kid (signers k))) [
  | inl unknown ↦ absurd (ground (arith, h, ap listed unknown))
  | inr (s, found) ↦ (k, s, refl, found)
]

all_stable-In :
    (m : Assoc Jwk) (ks : Jwks) (j n : Jwk)
    → all_stable m ks ≡ ok tt
    → In j ks
    → lookup j.kid m ≡ some n
    → public_equal j n ≡ true
unfolding all_stable
all_stable-In m [] j n h i e = absurd i
all_stable-In m (k ∷ ks) j n h (inl same) e =
    same_key (Bool-cases (same_or_gone k (lookup k.kid m)))
  where
    same_key :
        (same_or_gone k (lookup k.kid m) ≡ true) ⊎ (same_or_gone k (lookup k.kid m) ≡ false)
        → public_equal j n ≡ true
    same_key (inl t) =
        sym (ap (same_or_gone j) e) ∙ ap (λ x. same_or_gone x (lookup x.kid m)) same ∙ t
    same_key (inr f) = absurd (ground (arith, h, f))
all_stable-In m (k ∷ ks) j n h (inr i) e = all_stable-In m ks j n (ground (arith, h)) i e

module _ (std : Primitives) where
  -- The ring that follows may take the place of the one in use.
  abbrev pub IsContinuous : Option Keyring → Option Keyring → Type 0
  IsContinuous prev next =
      (is_empty (active_kid next) ≡ false)
      × ((is_empty (active_kid prev) ≡ true)
          ⊎ (((active_kid next ≡ active_kid prev) ⊎ HasKey prev (active_kid next))
              × ((j n : Jwk)
                  → In j (jwks std prev)
                  → key_of (jwks std next) j.kid ≡ some n
                  → j ≡ n)))

  -- An activation that is allowed has an active key; and where a ring is in use, that ring has
  -- a key of that kid or has it as its active one, and every key that it publishes and whose kid the
  -- new ring still publishes is the same key there, member by member.
  pub allow_activation-IsContinuous :
      (prev next : Option Keyring) → allow_activation std prev next ≡ ok tt → IsContinuous prev next
  unfolding allow_activation public_material_stable
  allow_activation-IsContinuous prev next h =
      by_cases (is_empty (active_kid next)) (is_empty (active_kid prev))
        (text_eq (active_kid next) (active_kid prev)) (has_kid prev (active_kid next)) refl refl
        refl refl h
    where
      stable :
          all_stable (index_keys [] (jwks std next)) (jwks std prev) ≡ ok tt
          → (j n : Jwk) → In j (jwks std prev)
          → key_of (jwks std next) j.kid ≡ some n
          → j ≡ n
      stable ok_all j n i e = public_equal→≡ j n (
          all_stable-In (index_keys [] (jwks std next)) (jwks std prev) j n ok_all i
            (indexed (jwks std next) j.kid n e))

      by_cases :
          (a b s k : Bool)
          → is_empty (active_kid next) ≡ a
          → is_empty (active_kid prev) ≡ b
          → text_eq (active_kid next) (active_kid prev) ≡ s
          → has_kid prev (active_kid next) ≡ k
          → (if a
              then err invalid_key
              else if b
              then ok tt
              else if not s && not k
              then err TokenError.unknown_key
              else all_stable (index_keys [] (jwks std next)) (jwks std prev))
            ≡ ok tt
          → IsContinuous prev next
      by_cases true b s k p q r t h = cc
      by_cases false true s k p q r t h = (p, inl q)
      by_cases false false true k p q r t h = (
        p,
        inr (inl ((text_eq_iff (active_kid next) (active_kid prev)).0 r), λ j n. stable h j n),
      )
      by_cases false false false true p q r t h =
          (p, inr (inr (has_kid-HasKey prev (active_kid next) t), λ j n. stable h j n))
      by_cases false false false false p q r t h = cc
