-- ===== src/Token/Keyring.antt =====
-- internal/token/keyring.go: the rotatable set of signing keys. A nil key file is `none`, a nil map
-- is `none`, and a nil keyring is the `none` of the functions that test for it.
pub mod Activation
use agent_identity_plane.Prelude.{
  Bool, true, false, not, ◌&&◌, List, [], ◌∷◌, Option, none, some, if◌then◌else◌, Result, ok, err,
  ◌>>=◌, ◌>>◌, fail_if,
}
use agent_identity_plane.Prelude.Text.{Text, text_eq, is_empty, codes}
use agent_identity_plane.Prelude.Assoc.{Assoc, lookup, insert}
use agent_identity_plane.Jsonutil.{JsonError}
use agent_identity_plane.Token.Errors.{TokenError, invalid_key, unknown_key, missing_private_key}
use agent_identity_plane.Token.Claims.{Claims, contains}
use agent_identity_plane.Token.Keys.{
  Jwk, Jwks, KeyFile, Signer, Primitives, public_equal, signer_jwk, signer_from_key_file,
  sign_claims,
}

pub record Keyring : Type 0 where
  pub active_kid : Text
  pub by_kid : Option (Assoc Signer)

abbrev pub signers : Keyring → Assoc Signer
signers k = elim k.by_kid [ none ↦ [] | some m ↦ m ]

abbrev pub listed {ℓ} : {A : Type ℓ} → Option A → Bool
listed none = false
listed (some a) = true

-- `KeyRing.ActiveKID`
unfoldable pub active_kid : Option Keyring → Text
active_kid none = []
active_kid (some k) = k.active_kid

unfoldable pub has_kid : Option Keyring → Text → Bool
has_kid none kid = false
has_kid (some k) kid = if is_empty kid then false else listed (lookup kid (signers k))

-- The keys of a set by kid; a later one replaces an earlier one.
unfoldable pub index_keys : Assoc Jwk → Jwks → Assoc Jwk
index_keys m [] = m
index_keys m (j ∷ ks) = index_keys (insert j.kid j m) ks

abbrev pub same_or_gone : Jwk → Option Jwk → Bool
same_or_gone j none = true
same_or_gone j (some n) = public_equal j n

unfoldable pub all_stable : Assoc Jwk → Jwks → Result TokenError Unit
all_stable by_next [] = ok tt
all_stable by_next (j ∷ ks) =
    let rest = all_stable by_next ks in
    if same_or_gone j (lookup j.kid by_next) then rest else err invalid_key

unfoldable pub public_material_stable : Jwks → Jwks → Result TokenError Unit
unfolding index_keys all_stable
public_material_stable prev next = all_stable (index_keys [] next) prev

module _ (std : Primitives) where
  -- The keys but the active one.
  unfoldable pub others : Text → Assoc Signer → Jwks
  others active [] = []
  others active ((kid, s) ∷ m) =
      let rest = others active m in if text_eq kid active then rest else signer_jwk std s ∷ rest

  active_first : Option Signer → Jwks → Jwks
  active_first none rest = rest
  active_first (some s) rest = signer_jwk std s ∷ rest

  -- `jwksFrom`
  unfoldable pub jwks_from : Text → Assoc Signer → Jwks
  unfolding others active_first
  jwks_from active by = active_first (lookup active by) (others active by)

  unfoldable pub jwks : Option Keyring → Jwks
  unfolding jwks_from
  jwks none = []
  jwks (some k) = jwks_from k.active_kid (signers k)

  -- The loop of `Replace` over the key files.
  unfoldable pub build : Assoc Signer → List (Option KeyFile) → Result TokenError (Assoc Signer)
  build next [] = ok next
  build next (none ∷ files) = err invalid_key
  build next (some f ∷ files) = do
    fail_if (is_empty f.kid) invalid_key
    fail_if (listed (lookup f.kid next)) invalid_key
    s ← signer_from_key_file std f
    build (insert f.kid s next) files

  -- May a ring that is in use give way to the next one?
  may_follow : Keyring → Option (Assoc Signer) → Text → Assoc Signer → Result TokenError Unit
  may_follow k none active next = ok tt
  may_follow k (some by) active next = do
    public_material_stable (jwks_from k.active_kid by) (jwks_from active next)
    fail_if
        (not (is_empty k.active_kid)
          && not (text_eq active k.active_kid)
          && not (listed (lookup active by)))
        unknown_key

  -- `Replace`; on an error the ring is left as it was.
  unfoldable pub replaced : Keyring → Text → List (Option KeyFile) → Result TokenError Keyring
  unfolding build may_follow
  replaced k active [] = err invalid_key
  replaced k active (f ∷ files) = do
    fail_if (is_empty active) invalid_key
    next ← build [] (f ∷ files)
    fail_if (not (listed (lookup active next))) unknown_key
    may_follow k k.by_kid active next
    ok (record { active_kid = active; by_kid = some next })

  unfoldable pub replace : Keyring → Text → List (Option KeyFile) → Result TokenError Unit × Keyring
  unfolding replaced
  replace k active files = elim (replaced k active files) [
    | ok k' ↦ (ok tt, k')
    | err e ↦ (err e, k)
  ]

  unfoldable pub new_keyring : Text → List (Option KeyFile) → Result TokenError Keyring
  unfolding replaced
  new_keyring active files = replaced (record { active_kid = []; by_kid = none }) active files

  -- `AllowActivation`
  unfoldable pub allow_activation : Option Keyring → Option Keyring → Result TokenError Unit
  unfolding jwks has_kid active_kid public_material_stable
  allow_activation prev next =
      if is_empty (active_kid next)
      then err invalid_key
      else if is_empty (active_kid prev)
      then ok tt
      else if not (text_eq (active_kid next) (active_kid prev))
          && not (has_kid prev (active_kid next))
      then err unknown_key
      else public_material_stable (jwks prev) (jwks next)

  sign_with : Option Signer → Claims → Result TokenError Text
  sign_with none c = err missing_private_key
  sign_with (some s) c = ok (sign_claims std s c)

  -- `Keyring.SignClaims`: the active key signs.
  unfoldable pub ring_sign : Option Keyring → Claims → Result TokenError Text
  unfolding sign_with
  ring_sign none c = err missing_private_key
  ring_sign (some k) c = sign_with (lookup k.active_kid (signers k)) c

-- `keyringFile`
pub record KeyringFile : Type 0 where
  pub active_kid : Text
  pub keys : List KeyFile

unfoldable pub file_refs : List KeyFile → List (Option KeyFile)
file_refs [] = []
file_refs (k ∷ ks) = some k ∷ file_refs ks

abbrev strict_doc : {A : Type 0} → Result JsonError A → Result TokenError A
strict_doc (ok a) = ok a
strict_doc (err e) = err invalid_key

ring_document : KeyringFile → Result TokenError (Text × List (Option KeyFile))
unfolding file_refs
ring_document wrap = do
  fail_if (is_empty wrap.active_kid) invalid_key
  ok (wrap.active_kid, file_refs wrap.keys)

single_document : KeyFile → Result TokenError (Text × List (Option KeyFile))
single_document kf = do fail_if (is_empty kf.kid) invalid_key; ok (kf.kid, some kf ∷ [])

-- `ParseSigningMaterial` on what encoding/json makes of the document: the keys of the object, and the
-- strict reading as a ring and as one key.
unfoldable pub parse_signing_material :
    Option (List Text)
    → Result JsonError KeyringFile
    → Result JsonError KeyFile
    → Result TokenError (Text × List (Option KeyFile))
unfolding ring_document single_document
parse_signing_material none ring one = err invalid_key
parse_signing_material (some ks) ring one =
    if contains ks (codes "keys")
    then (do wrap ← strict_doc ring; ring_document wrap)
    else (do kf ← strict_doc one; single_document kf)
