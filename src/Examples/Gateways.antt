-- ===== src/Examples/Gateways.antt =====
-- Instances for internal/gateway, internal/verify, internal/dpop and internal/visoradapter: the agent `a`
-- calls the gateway with Alice's token and a proof by the token's key.
use agent_identity_plane.Token.Jws.{split_dots}
use agent_identity_plane.Prelude.Utf8.{longest_valid}
use agent_identity_plane.Prelude.Fields.{is_blank, trim_space}
use agent_identity_plane.Denylist.{deny_chain}
use agent_identity_plane.A2a.{access_token}
use agent_identity_plane.Prelude.{
  ◌≡◌, ◌≢◌, ◌↔◌, refl, true, false, [], ◌∷◌, none, some, ok, arith, if◌then◌else◌,
}
use agent_identity_plane.Prelude.Int.{pos, add_int64}
use agent_identity_plane.Prelude.Text.{Text, text_eq, codes}
use agent_identity_plane.Prelude.Assoc.{lookup, purge}
use agent_identity_plane.Clock.{is_zero}
use agent_identity_plane.Lines.{synced}
use agent_identity_plane.Token.Claims.{
  Claims, depth, replay_until, single, validate_audience, validate_issuer, validate_subject,
  validate_time,
}
use agent_identity_plane.Token.Keys.{Jwk, Primitives, alg_eddsa, equal_fold, thumbprint}
use agent_identity_plane.Sts.Replay.{new_replay_cache}
use agent_identity_plane.Audit.{Logger, genesis_prev_hash, append}
use agent_identity_plane.Verify.{ActorChain, Verifier, chain_from_claims}
use agent_identity_plane.Verify
use agent_identity_plane.Verify.Soundness.{IsKnown, verify-IsKnown}
use agent_identity_plane.Dpop.{ProofHeader, ProofClaims, Proof, Request, replay_jti}
use agent_identity_plane.Dpop
use agent_identity_plane.Dpop.Soundness.{IsProof, verify-IsProof}
use agent_identity_plane.Dpop.Nonce.{NonceCache, has}
use agent_identity_plane.Visor.{
  Mapping, from_chain, complete, context_from_chain, encode_context, open_context,
  validate_structure,
}
use agent_identity_plane.Visor
use agent_identity_plane.Visor.Completeness.{IsWhole, complete_iff}
use agent_identity_plane.Gateway.{Config, State, Env, Answer, passed}
use agent_identity_plane.Gateway.Pep.{handle_pep}
use agent_identity_plane.Gateway.Pep.Soundness.{IsAllowed, handle_pep-IsAllowed}
use agent_identity_plane.Gateway.Pep.SingleUse.{Visit, visit, run_visits, visit_single_use}
use agent_identity_plane.Gateway.Headers
use agent_identity_plane.Gateway.Headers.{
  header_client, header_session, header_chain, header_authorization, join_hops, IsOther,
  rewrite_header, rewrite_header-attests,
}
use agent_identity_plane.Examples.Tokens.{noon, hop_one}
use agent_identity_plane.Examples.Exchanges.{std}
use agent_identity_plane.Examples.Registries.{denied}
use agent_identity_plane.Examples.Codecs.{codec}
use agent_identity_plane.Examples.Events.{events, write_texts}

abbrev seed : Text
seed = codes "kkkkkkkkkkkkkkkkkkkkkkkkkkkkkkkk"

abbrev pub token : Text
token = codes "sts-1.pass.kkkkkkkkkkkkkkkkkkkkkkkkkkkkkkkk"

abbrev pass_claims : Claims
pass_claims = record hop_one {
  aud = codes "gateway" ∷ [];
  cnf = some (record { jkt = codes "jkt" });
}

-- The header `h` has no kid.
abbrev pub gate_std : Primitives
gate_std = record std {
  parse_header = λ t. some (record {
    alg = alg_eddsa;
    typ = codes "JWT";
    kid = if text_eq t (codes "h") then [] else t;
  });
  parse_claims = λ t. if text_eq t (codes "pass") then some pass_claims else some hop_one;
  marshal_members = λ m. codes "jkt";
}

abbrev pub sts_jwk : Jwk
sts_jwk = record {
  kid = codes "sts-1";
  kty = codes "OKP";
  usage = codes "sig";
  alg = alg_eddsa;
  crv = codes "Ed25519";
  x = seed;
  y = [];
  n = [];
  e = [];
  sub = [];
}

abbrev proof_jwk : Jwk
proof_jwk = record sts_jwk { kid = []; usage = []; alg = [] }

abbrev pub proofs : agent_identity_plane.Dpop.Codec
proofs = record {
  parse_proof_header =
      λ t. some (record { alg = alg_eddsa; typ = codes "dpop+jwt"; jwk = codes "jwk" });
  parse_proof_claims = λ t. some (record {
    jti = codes "p-1";
    htm = codes "GET";
    htu = codes "http://g/";
    iat = pos 1000;
    ath = token;
    nonce = codes "n-1";
  });
  parse_jwk = λ t. some proof_jwk;
  member_names = λ t. some (codes "kty" ∷ codes "crv" ∷ codes "x" ∷ []);
  marshal_proof_header = λ alg typ k. [];
  marshal_proof_claims = λ c. [];
}

abbrev pub actors : agent_identity_plane.Visor.Codec
actors = record {
  marshal_body = λ b. some b.principal_id;
  marshal_context = λ c. some [];
  format_nano = λ t. [];
  sha256 = λ t. t;
}

abbrev verifier : Verifier
verifier = record { key_set = sts_jwk ∷ []; keys_fn = none; issuer = codes "sts" }

abbrev gate : Config
gate = record {
  audience = codes "gateway";
  verifier = some verifier;
  short_names = false;
  denylist_fn = some (ok (some denied));
}

abbrev log : Logger
log = record { file = some []; prev_hash = genesis_prev_hash; chain_index = 0; poisoned = false }

abbrev nonces : NonceCache
nonces = record { issued = (codes "n-1", pos 1100) ∷ [] }

abbrev open_state : State
open_state = record {
  audit = some log;
  replay = some new_replay_cache;
  nonces = nonces;
  metrics = record { allowed = 0; denied = 0; rate_limited = 0 };
}

abbrev gate_env : Env
gate_env = record {
  within_rate = true;
  token_now = noon;
  proof_now = noon;
  issue_now = noon;
  replay_now = noon;
  replay_outcome = synced;
  stamp = codes "2026-01-01T00:00:00Z";
  audit_outcome = synced;
  nonce_bytes = 255 ∷ [];
}

abbrev pub get_request : Request
get_request = record {
  method = codes "GET";
  host = codes "g";
  tls = false;
  url = none;
  proof = codes "h.p.kkkkkkkkkkkkkkkkkkkkkkkkkkkkkkkk";
}

abbrev authorization : Text
authorization = codes "DPoP sts-1.pass.kkkkkkkkkkkkkkkkkkkkkkkkkkkkkkkk"

abbrev chain : ActorChain
chain = chain_from_claims token pass_claims

abbrev pub mapping : Mapping
mapping = from_chain actors false chain

token_is_known :
    agent_identity_plane.Verify.verify gate_std (some verifier) token (codes "gateway") noon
    ≡ ok chain
unfolding agent_identity_plane.Verify.verify agent_identity_plane.Token.Jws.verify equal_fold
    text_eq validate_issuer validate_subject is_blank validate_audience single validate_time
    add_int64
token_is_known = refl

verify-IsKnown_example : IsKnown gate_std (some verifier) token (codes "gateway") noon chain
verify-IsKnown_example =
    verify-IsKnown gate_std (some verifier) token (codes "gateway") noon chain token_is_known

abbrev proof : Proof
proof = record { jti = codes "p-1"; iat = pos 1000; jkt = codes "jkt"; nonce = codes "n-1" }

proof_is_good :
    agent_identity_plane.Dpop.verify gate_std proofs (some get_request) token (codes "jkt") noon
    ≡ ok proof
unfolding agent_identity_plane.Dpop.verify trim_space split_dots text_eq equal_fold
    agent_identity_plane.Token.Jws.verify thumbprint add_int64
proof_is_good = refl

verify-IsProof_example : IsProof gate_std proofs get_request token (codes "jkt") noon proof
verify-IsProof_example =
    verify-IsProof gate_std proofs get_request token (codes "jkt") noon proof proof_is_good

complete_iff_example : (complete actors mapping ≡ ok tt) ↔ IsWhole actors token pass_claims false
complete_iff_example = complete_iff actors token pass_claims false (λ b. (b.principal_id, refl))

is_passed :
    (handle_pep gate_std actors proofs
      (codec 0)
      events
      gate
      open_state
      gate_env
      get_request
      authorization).0
    ≡ passed mapping (codes "n-ff")
unfolding write_texts handle_pep replay_jti agent_identity_plane.Dpop.verify has
    agent_identity_plane.Dpop.Nonce.consume open_context validate_structure encode_context
    context_from_chain from_chain complete agent_identity_plane.Verify.verify access_token
    deny_chain single replay_until validate_time validate_issuer validate_audience validate_subject
    depth agent_identity_plane.Token.Jws.verify thumbprint append new_replay_cache
    agent_identity_plane.Sts.Replay.consume trim_space text_eq lookup purge add_int64 longest_valid
    is_zero
is_passed = refl

handle_pep-IsAllowed_example :
    IsAllowed gate_std actors proofs
      (codec 0)
      events
      gate
      open_state
      gate_env
      get_request
      authorization
      mapping
      (handle_pep gate_std actors proofs
        (codec 0)
        events
        gate
        open_state
        gate_env
        get_request
        authorization).1
handle_pep-IsAllowed_example =
    handle_pep-IsAllowed gate_std actors proofs (codec 0) events gate open_state gate_env
      get_request authorization mapping (codes "n-ff") is_passed

abbrev visitor : Visit
visitor = record {
  config = gate;
  env = gate_env;
  request = get_request;
  authorization = authorization;
}

visit_single_use_example :
    (visit gate_std actors proofs
      (codec 0)
      events
      (run_visits gate_std actors proofs
        (codec 0)
        events
        (visit gate_std actors proofs (codec 0) events open_state visitor).1
        (visitor ∷ []))
      visitor).0
    ≢ passed mapping (codes "n-ff")
visit_single_use_example =
    visit_single_use gate_std actors proofs (codec 0) events open_state visitor (visitor ∷ [])
      visitor mapping mapping (codes "n-ff") (codes "n-ff") (unfold new_replay_cache in tt) refl
      (omega arith, tt) is_passed

-- A client that claims to be somebody else.
abbrev forged : agent_identity_plane.Gateway.Headers.HttpHeader
forged =
    (header_client, codes "admin" ∷ [])
    ∷ (header_authorization, authorization ∷ [])
    ∷ (codes "Accept", codes "*/*" ∷ [])
    ∷ []

rewrite_header-attests_example :
    (lookup header_client (rewrite_header forged mapping) ≡ some (mapping.client_id ∷ []))
    × (lookup header_session (rewrite_header forged mapping) ≡ some (mapping.session_id ∷ []))
    × (lookup header_chain (rewrite_header forged mapping) ≡ some (join_hops mapping.hops ∷ []))
    × (lookup header_authorization (rewrite_header forged mapping) ≡ none)
    × ((k : Text) → IsOther k → lookup k (rewrite_header forged mapping) ≡ lookup k forged)
rewrite_header-attests_example = rewrite_header-attests forged mapping
