-- ===== src/Examples/Exchanges.antt =====
-- Instances for internal/sts/sts.go and internal/token/jws.go: the agent `b` exchanges a token that
-- the agent `a` has got for Alice. The primitives are toys: a signature is the key's seed.
use agent_identity_plane.Token.Scope.{has, intersect, join_scopes, scope_set, sink, subset}
use agent_identity_plane.Registry.{authorize}
use agent_identity_plane.Prelude.Fields.{fields, join_words, trim_space}
use agent_identity_plane.Denylist.{deny_exchange}
use agent_identity_plane.Prelude.{
  ℕ, ◌≡◌, ◌≢◌, refl, true, false, [], ◌∷◌, Option, none, some, ok, err, arith, if◌then◌else◌,
}
use agent_identity_plane.Prelude.Int.{pos, add_int64}
use agent_identity_plane.Prelude.Text.{Text, text_eq, codes}
use agent_identity_plane.Prelude.Assoc.{lookup, purge}
use agent_identity_plane.Clock.{Time, unix, add, before}
use agent_identity_plane.Lines.{synced}
use agent_identity_plane.Token.Claims.{
  Claims, root, under, confirm_jkt, append_chain, nested_act, replay_until, validate_audience,
  validate_subject, validate_time,
}
use agent_identity_plane.Token.Keys.{
  Header, Jwk, Primitives, alg_eddsa, equal_fold, sign_claims, signer_jwk,
}
use agent_identity_plane.Token.Jws.{verify_key, split_dots, verify}
use agent_identity_plane.Token.Jws.Soundness.{IsVerified, verify_key-IsVerified}
use agent_identity_plane.Token.Keyring.{Keyring, ring_sign, allow_activation}
use agent_identity_plane.Attest.{WorkloadIdentity, Attestor, AttestError}
use agent_identity_plane.Sts.Replay.{ReplayCache, new_replay_cache, consume}
use agent_identity_plane.Sts.Request.{Config, ExchangeRequest, Env, Minted}
use agent_identity_plane.Sts.Exchange.{verify_subject, exchange}
use agent_identity_plane.Sts.Exchange.Minting.{
  IsAuthorized, exchange-IsAuthorized, IsNarrowed, exchange-IsNarrowed, IsNextHop,
  exchange-IsNextHop, exchange_bound, IsKeyFor, IsSignedBy, IsLifetime,
}
use agent_identity_plane.Sts.Exchange.SingleUse.{
  Attempt, attempt, run_attempts, exchange_single_use,
}
use agent_identity_plane.Examples.Tokens.{noon, hop_one}
use agent_identity_plane.Examples.Registries.{known_time, agents, denied}
use agent_identity_plane.Examples.Codecs.{codec}

abbrev seed : Text
seed = codes "kkkkkkkkkkkkkkkkkkkkkkkkkkkkkkkk"

abbrev pub std : Primitives
std = record {
  b64_encode = λ t. t;
  b64_decode = λ t. some t;
  parse_header = λ t. some (record { alg = alg_eddsa; typ = codes "JWT"; kid = t });
  parse_claims = λ t. if text_eq t (codes "hop") then some hop_one else none;
  marshal_header = λ h. h.kid;
  marshal_claims = λ c. c.jti;
  marshal_members = λ m. [];
  sha256 = λ t. t;
  ed25519_public = λ s. s;
  ed25519_sign = λ s t. s;
  ed25519_verify = λ p t s. text_eq p s;
  p256_on_curve = λ x y. false;
  ecdsa_verify = λ x y h r s. false;
  rsa_verify = λ n e h s. false;
}

abbrev pub ring : Keyring
ring = record {
  active_kid = codes "sts-1";
  by_kid = some ((codes "sts-1", record { seed = seed; kid = codes "sts-1"; sub = [] }) ∷ []);
}

abbrev workload : WorkloadIdentity
workload = record { id = codes "spiffe://w"; issuer = []; jti = []; possessed_jkt = codes "jkt" }

abbrev attestor : Attestor
attestor t = if text_eq t (codes "actor") then ok workload else err AttestError.unattested

abbrev pub config : Config
config = record {
  issuer = codes "sts";
  lifetime = 0;
  live = record {
    registry = some agents;
    signer = some ring;
    attestor = some attestor;
    idp_keys = [];
    idp_issuer = [];
    denylist = some denied;
  };
}

abbrev hop_token : Text
hop_token = codes "sts-1.hop.kkkkkkkkkkkkkkkkkkkkkkkkkkkkkkkk"

abbrev pub request : ExchangeRequest
request = record {
  grant_type = [];
  subject_token = hop_token;
  actor_token = codes "actor";
  audience = codes "agent://c";
  scope = codes "read";
  requested_token_type = [];
  agent_id = codes "agent://b";
  purp = [];
  confirm_jkt = [];
}

abbrev pub env : Env
env = record {
  now = noon;
  replay_now = noon;
  outcome = synced;
  txn_bytes = [];
  jti_bytes = 255 ∷ [];
}

abbrev issued : Claims
issued = record hop_one {
  aud = codes "agent://c" ∷ [];
  nbf = pos 1000;
  jti = codes "jti-ff";
  act = some (under (codes "sts") (codes "agent://b") (root (codes "sts") (codes "agent://a")));
  act_chain = root (codes "sts") (codes "agent://a") ∷ [];
  scope = codes "read";
  cnf = some (record { jkt = codes "jkt" });
}

abbrev pub minted : Minted
minted = record {
  token = codes "sts-1.jti-ff.kkkkkkkkkkkkkkkkkkkkkkkkkkkkkkkk";
  expires_in = 120;
  issued = issued;
  workload = codes "spiffe://w";
}

pub is_minted :
    (exchange std (codec 0) known_time config (some new_replay_cache) request env).0 ≡ ok minted
unfolding exchange has agent_identity_plane.Token.Scope.add scope_set sink join_scopes subset
    intersect replay_until validate_time validate_audience validate_subject nested_act append_chain
    verify equal_fold signer_jwk sign_claims allow_activation ring_sign authorize deny_exchange
    new_replay_cache consume trim_space fields join_words text_eq lookup purge add_int64 before
    agent_identity_plane.Clock.add
is_minted = refl

abbrev pub start : Option ReplayCache
start = some new_replay_cache

exchange-IsAuthorized_example : IsAuthorized std (codec 0) known_time config request env minted
exchange-IsAuthorized_example =
    exchange-IsAuthorized std (codec 0) known_time config start request env minted is_minted

exchange-IsNarrowed_example : IsNarrowed std (codec 0) known_time config request minted
exchange-IsNarrowed_example =
    exchange-IsNarrowed std (codec 0) known_time config start request env minted is_minted

exchange-IsNextHop_example : IsNextHop std (codec 0) known_time config request env minted
exchange-IsNextHop_example =
    exchange-IsNextHop std (codec 0) known_time config start request env minted is_minted

exchange_bound_example :
    (a : Attestor) × (wl : WorkloadIdentity) × (config.live.attestor ≡ some a)
    × (a request.actor_token ≡ ok wl)
    × IsKeyFor std (codec 0) known_time request wl (confirm_jkt issued)
    × (confirm_jkt issued ≢ [])
    × IsSignedBy std (codec 0) known_time config.live.signer issued minted.token
    × (issued.nbf ≡ unix env.now)
    × (d : ℕ) × IsLifetime std (codec 0) known_time config d
    × (issued.exp ≡ unix (add env.now d))
exchange_bound_example =
    exchange_bound std (codec 0) known_time config start request env minted is_minted

abbrev try : Attempt
try = record { config = config; request = request; env = env }

hop_is_ours : verify_subject std config hop_token ≡ ok (hop_one, true)
unfolding exchange verify equal_fold signer_jwk allow_activation text_eq lookup
hop_is_ours = refl

-- The token cannot be exchanged again.
exchange_single_use_example :
    (attempt std
      (codec 0)
      known_time
      (run_attempts std
        (codec 0)
        known_time
        (attempt std (codec 0) known_time start try).1
        (try ∷ []))
      try).0
    ≢ ok minted
exchange_single_use_example =
    exchange_single_use std (codec 0) known_time start try (try ∷ []) try hop_one minted minted
      (unfold new_replay_cache in tt) hop_is_ours hop_is_ours is_minted (omega arith, tt)

abbrev sts_jwk : Jwk
sts_jwk = record {
  kid = codes "sts-1";
  kty = codes "OKP";
  usage = codes "sig";
  alg = alg_eddsa;
  crv = codes "Ed25519";
  x = seed;
  y = [];
  n = [];
  e = [];
  sub = [];
}

abbrev hop_header : Header
hop_header = record { alg = alg_eddsa; typ = codes "JWT"; kid = codes "sts-1" }

hop_verifies : verify_key std hop_token (sts_jwk ∷ []) ≡ ok (hop_header, hop_one, sts_jwk)
unfolding verify equal_fold text_eq
hop_verifies = refl

verify_key-IsVerified_example :
    (p0 : Text) × (p1 : Text) × (p2 : Text) × (split_dots [] hop_token ≡ p0 ∷ p1 ∷ p2 ∷ [])
    × IsVerified std (sts_jwk ∷ []) p0 p1 p2 hop_header hop_one sts_jwk
verify_key-IsVerified_example =
    verify_key-IsVerified std hop_token (sts_jwk ∷ []) hop_header hop_one sts_jwk hop_verifies
