-- ===== src/Sts/Request.antt =====
-- internal/sts/sts.go: what an exchange is asked, is configured with and answers.
use agent_identity_plane.Prelude.{ℕ, List, Option, none, some}
use agent_identity_plane.Prelude.Text.{Text, codes}
use agent_identity_plane.Clock.{Time}
use agent_identity_plane.Denylist.{Denied}
use agent_identity_plane.Registry.{Registry}
use agent_identity_plane.Token.Claims.{Claims}
use agent_identity_plane.Token.Keys.{Jwks}
use agent_identity_plane.Token.Keyring.{Keyring}
use agent_identity_plane.Attest.{Attestor}
use agent_identity_plane.Lines.{WriteOutcome}

-- The reason codes of the exchange.
pub data Reason : Type 0 where
  invalid_request invalid_actor_token invalid_subject_token : Reason
  agent_not_registered agent_not_authorized_on_workload audience_not_allowed : Reason
  scope_widening depth_exceeded expired chain_integrity : Reason
  agent_not_yet_valid agent_expired replayed_token : Reason
  agent_denied workload_denied principal_denied missing_cnf audit_unavailable : Reason

pub data OauthError : Type 0 where
  invalid_request unsupported_grant_type access_denied invalid_grant server_error : OauthError

-- The live fields of a `Config`, as `snapshot` reads them.
pub record IdentitySnap : Type 0 where
  pub registry : Option Registry
  pub signer : Option Keyring
  pub attestor : Option Attestor
  pub idp_keys : Jwks
  pub idp_issuer : Text
  pub denylist : Option Denied

-- The fields of a `Config` that an exchange reads; `lifetime` is `TTL`.
pub record Config : Type 0 where
  pub issuer : Text
  pub lifetime : ℕ
  pub live : IdentitySnap

pub record ExchangeRequest : Type 0 where
  pub grant_type : Text
  pub subject_token : Text
  pub actor_token : Text
  pub audience : Text
  pub scope : Text
  pub requested_token_type : Text
  pub agent_id : Text
  pub purp : Text
  pub confirm_jkt : Text

-- What one exchange takes from outside: the clocks of the service and of its replay cache, what
-- becomes of the write to the replay file, and the random bytes.
pub record Env : Type 0 where
  pub now : Time
  pub replay_now : Time
  pub outcome : WriteOutcome
  pub txn_bytes : List ℕ
  pub jti_bytes : List ℕ

-- A denial, with the subject token's claims where `withSubject` has put them.
pub record Denial : Type 0 where
  pub reason : Reason
  pub error : OauthError
  pub subject : Option Claims

pub record Minted : Type 0 where
  pub token : Text
  pub expires_in : ℕ
  pub issued : Claims
  pub workload : Text

abbrev pub deny : Reason → OauthError → Denial
deny reason error = record { reason = reason; error = error; subject = none }

abbrev pub deny_with : Claims → Reason → OauthError → Denial
deny_with sub reason error = record { reason = reason; error = error; subject = some sub }

abbrev pub grant_token_exchange : Text
grant_token_exchange = codes "urn:ietf:params:oauth:grant-type:token-exchange"

abbrev pub token_type_jwt : Text
token_type_jwt = codes "urn:ietf:params:oauth:token-type:jwt"

abbrev pub token_type_access : Text
token_type_access = codes "urn:ietf:params:oauth:token-type:access_token"
