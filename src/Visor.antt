-- ===== src/Visor.antt =====
-- internal/visoradapter: the identity that visor is given for a verified chain (adapter.go), and the
-- sealed actor context in it (actor.go). encoding/json, SHA-256 and the format of a time are parameters.
pub mod Completeness
use agent_identity_plane.Prelude.{
  ℕ, ◌*◌, Bool, true, false, not, ◌&&◌, ◌||◌, ltb, ◌==◌, List, [], ◌∷◌, ◌++◌, map, Option, none,
  some, if◌then◌else◌, Result, ok, err, ◌>>=◌, ◌>>◌, fail_if, length,
}
use agent_identity_plane.Prelude.Int.{ℤ}
use agent_identity_plane.Prelude.Text.{Text, text_eq, is_empty, codes, hex}
use agent_identity_plane.Prelude.Fields.{is_blank, fields}
use agent_identity_plane.Clock.{Time, zero_time, is_zero}
use agent_identity_plane.Token.Claims.{Claims, confirm_jkt}
use agent_identity_plane.Verify.{ActorChain}

pub data VisorError : Type 0 where
  unsupported_version missing_principal missing_agent missing_transaction : VisorError
  missing_expiry missing_method unsupported_method : VisorError
  empty_chain principal_mismatch agent_mismatch : VisorError
  hash_mismatch marshal_failed too_large missing_session : VisorError

-- `ActorVersionV1`
abbrev pub actor_version : Text
actor_version = codes "1"

-- `ActorVerificationSTSDpop`
abbrev pub actor_verification : Text
actor_verification = codes "sts+dpop"

-- `MaxActorJSONBytes`
abbrev pub max_actor_bytes : ℕ
max_actor_bytes = 32 * 1024

pub record ActorRef : Type 0 where
  pub id : Text

-- `VerifiedActorContext`
pub record ActorContext : Type 0 where
  pub version : Text
  pub principal_id : Text
  pub acting_agent : Text
  pub workload_id : Text
  pub transaction : Text
  pub actor_chain : List ActorRef
  pub scopes : List Text
  pub issuer : Text
  pub audience : Text
  pub token_id : Text
  pub expires_at : Time
  pub proof_key_thumbprint : Text
  pub verification_method : Text
  pub identity_snapshot_hash : Text

-- `VerifiedActorContext{}`
abbrev pub zero_context : ActorContext
zero_context = record {
  version = [];
  principal_id = [];
  acting_agent = [];
  workload_id = [];
  transaction = [];
  actor_chain = [];
  scopes = [];
  issuer = [];
  audience = [];
  token_id = [];
  expires_at = zero_time;
  proof_key_thumbprint = [];
  verification_method = [];
  identity_snapshot_hash = [];
}

-- What the hash of a context covers.
pub record SnapshotBody : Type 0 where
  pub version : Text
  pub principal_id : Text
  pub acting_agent : Text
  pub workload_id : Text
  pub transaction : Text
  pub actor_chain : List ActorRef
  pub scopes : List Text
  pub issuer : Text
  pub audience : Text
  pub token_id : Text
  pub expires_at : Text
  pub proof_key_thumbprint : Text
  pub verification_method : Text

pub record Codec : Type 0 where
  pub marshal_body : SnapshotBody → Option Text
  pub marshal_context : ActorContext → Option Text
  pub format_nano : Time → Text
  pub sha256 : Text → Text

abbrev pub head_is : List ActorRef → Text → Bool
head_is [] who = false
head_is (a ∷ chain) who = text_eq a.id who

abbrev pub last_is : List ActorRef → Text → Bool
last_is [] who = false
last_is (a ∷ []) who = text_eq a.id who
last_is (a ∷ b ∷ chain) who = last_is (b ∷ chain) who

abbrev pub is_nil : List ActorRef → Bool
is_nil [] = true
is_nil (a ∷ chain) = false

-- The hops of a chain, or those of its principal and actor where it has none.
unfoldable pub chain_hops : ActorChain → List Text
chain_hops c = elim c.hops [
  | h ∷ hops ↦ h ∷ hops
  | [] ↦
      if not (is_empty c.principal) && not (is_empty c.actor) && not (text_eq c.principal c.actor)
      then c.principal ∷ c.actor ∷ []
      else if not (is_empty c.principal)
      then c.principal ∷ []
      else []
]

abbrev pub actor_ref : Text → ActorRef
actor_ref id = record { id = id }

-- The context of a chain before it is sealed.
unfoldable pub open_context : ActorChain → ActorContext
unfolding chain_hops
open_context c = record {
  version = actor_version;
  principal_id = c.principal;
  acting_agent = c.actor;
  workload_id = [];
  transaction = c.txn;
  actor_chain = map actor_ref (chain_hops c);
  scopes = fields c.scope;
  issuer = c.issuer;
  audience = c.audience;
  token_id = c.jti;
  expires_at = c.expires;
  proof_key_thumbprint = confirm_jkt c.claims;
  verification_method = actor_verification;
  identity_snapshot_hash = [];
}

module _ (codec : Codec) where
  abbrev pub snapshot_body : ActorContext → SnapshotBody
  snapshot_body c = record {
    version = c.version;
    principal_id = c.principal_id;
    acting_agent = c.acting_agent;
    workload_id = c.workload_id;
    transaction = c.transaction;
    actor_chain = c.actor_chain;
    scopes = c.scopes;
    issuer = c.issuer;
    audience = c.audience;
    token_id = c.token_id;
    expires_at = codec.format_nano c.expires_at;
    proof_key_thumbprint = c.proof_key_thumbprint;
    verification_method = c.verification_method;
  }

  abbrev pub hashed : Option Text → Result VisorError Text
  hashed none = err marshal_failed
  hashed (some raw) = ok (hex (codec.sha256 raw))

  unfoldable pub snapshot_hash : ActorContext → Result VisorError Text
  snapshot_hash c = hashed (codec.marshal_body (snapshot_body c))

  unfoldable pub validate_structure : ActorContext → Result VisorError Unit
  unfolding snapshot_hash
  validate_structure c = do
    fail_if (not (text_eq c.version actor_version)) unsupported_version
    fail_if (is_blank c.principal_id) missing_principal
    fail_if (is_blank c.acting_agent) missing_agent
    fail_if (is_blank c.transaction) missing_transaction
    fail_if (is_zero c.expires_at) missing_expiry
    fail_if (is_blank c.verification_method) missing_method
    fail_if (not (text_eq c.verification_method actor_verification)) unsupported_method
    fail_if (is_nil c.actor_chain) empty_chain
    fail_if (not (head_is c.actor_chain c.principal_id)) principal_mismatch
    fail_if (not (last_is c.actor_chain c.acting_agent)) agent_mismatch
    want ← snapshot_hash c
    fail_if (not (text_eq c.identity_snapshot_hash want)) hash_mismatch

  abbrev pub with_hash : ActorContext → Text → ActorContext
  with_hash c h = record c { identity_snapshot_hash = h }

  -- `Seal`, with the context that it leaves.
  unfoldable pub seal : ActorContext → Result VisorError ActorContext
  seal c = do h ← snapshot_hash c; validate_structure (with_hash c h); ok (with_hash c h)

  abbrev within_cap : Option Text → Result VisorError Text
  within_cap none = err marshal_failed
  within_cap (some raw) = do fail_if (ltb max_actor_bytes (length raw)) too_large; ok raw

  unfoldable pub encode_context : ActorContext → Result VisorError Text
  unfolding seal
  encode_context c = do sealed ← seal c; within_cap (codec.marshal_context sealed)

  unfoldable pub context_from_chain : ActorChain → Result VisorError ActorContext
  context_from_chain c = seal (open_context c)

pub record Mapping : Type 0 where
  pub client_id : Text
  pub session_id : Text
  pub principal : Text
  pub acting_agent : Text
  pub hops : List Text
  pub scope : Text
  pub jti : Text
  pub lineage : List (Text × Text)
  pub verified_actor : ActorContext

-- `strings.TrimSuffix(id, "/")`
unfoldable pub trim_slash : Text → Text
trim_slash [] = []
trim_slash (b ∷ []) = if b == 47 then [] else b ∷ []
trim_slash (b ∷ c ∷ r) = b ∷ trim_slash (c ∷ r)

-- What follows the last slash, if there is one; the text after it may be empty.
unfoldable pub after_slash : Text → Option Text
after_slash [] = none
after_slash (b ∷ r) = elim (after_slash r) [
  | some t ↦ some t
  | none ↦ if b == 47 then some r else none
]

abbrev segment : Text → Option Text → Text
segment id none = id
segment id (some t) = if is_empty t then id else t

unfoldable pub short_name : Text → Text
unfolding trim_slash after_slash
short_name id = segment (trim_slash id) (after_slash (trim_slash id))

abbrev pub or_zero : Result VisorError ActorContext → ActorContext
or_zero (ok a) = a
or_zero (err e) = zero_context

-- `FromChain`; the option is `ShortName`.
unfoldable pub from_chain : Codec → Bool → ActorChain → Mapping
unfolding short_name
from_chain codec short c = record {
  client_id = if short then short_name c.actor else c.actor;
  session_id = c.txn;
  principal = c.principal;
  acting_agent = c.actor;
  hops = c.hops;
  scope = c.scope;
  jti = c.jti;
  lineage =
      (codes "principal", c.principal)
      ∷ (codes "acting_agent", c.actor)
      ∷ (codes "txn", c.txn)
      ∷ (codes "scope", c.scope)
      ∷ [];
  verified_actor = or_zero (context_from_chain codec c);
}

-- `Complete`
unfoldable pub complete : Codec → Mapping → Result VisorError Unit
complete codec m = do
  fail_if (is_blank m.acting_agent || is_blank m.client_id) missing_agent
  fail_if (is_blank m.session_id) missing_session
  fail_if (is_blank m.principal) missing_principal
  validate_structure codec m.verified_actor
