-- ===== src/Examples/Sessions.antt =====
-- Instances for internal/visorsession and for the key sets of internal/verify: a session fetches the
-- mapping of Alice's token, and a verifier finds an issuer's keys.
use agent_identity_plane.Prelude.{
  ◌≡◌, ◌↔◌, refl, false, true, if◌then◌else◌, [], ◌∷◌, none, some, ok,
}
use agent_identity_plane.Prelude.Text.{Text, codes, text_eq}
use agent_identity_plane.Prelude.Fields.{is_blank, fields, trim_space, join_words}
use agent_identity_plane.Token.Keys.{KeyFile, equal_fold}
use agent_identity_plane.Token.Jws.{parse_unverified, split_dots}
use agent_identity_plane.Token.Claims.{actor_subs, confirm_jkt, single}
use agent_identity_plane.Token.Scope.{scope_set, subset, add, has}
use agent_identity_plane.Audit.{same_hops}
use agent_identity_plane.Verify.{chain_from_claims}
use agent_identity_plane.Dpop.Nonce.{nonce_from_challenge}
use agent_identity_plane.Clock.{is_zero}
use agent_identity_plane.Visor.{
  complete, from_chain, context_from_chain, open_context, validate_structure, encode_context,
  short_name,
}
use agent_identity_plane.Verify.Keysets.{World, WebUrl, OidcDiscovery, live_oidc}
use agent_identity_plane.Verify.Keysets.Trusted.{IsDiscovery, IsKeyset, live_oidc-IsTrusted}
use agent_identity_plane.Dpop.{Request, outbound_uri, prove_with_nonce}
use agent_identity_plane.VisorSession.{
  Fetch, GatewayAnswer, SessionWorld, command, fetch, read_mapping, mapping_agrees_with_token,
  agrees_with_claims,
}
use agent_identity_plane.VisorSession.Agreement.{IsAgreed, fetch-IsAgreed}
use agent_identity_plane.VisorSession.Launch.{IsLaunch, command_iff, serve_args}
use agent_identity_plane.Gateway.Headers.{mapping_content_type}
use agent_identity_plane.Examples.Tokens.{noon}
use agent_identity_plane.Examples.Gateways.{gate_std, actors, proofs, token, mapping, sts_jwk}

abbrev idp : Text
idp = codes "https://i/"

abbrev metadata : OidcDiscovery
metadata = record { issuer = idp; jwks_uri = codes "https://i/keys" }

abbrev web_url : WebUrl
web_url = record {
  scheme = codes "https";
  host = codes "i";
  hostname = codes "i";
  raw_query = [];
  fragment = [];
}

-- Every address answers with its own text.
abbrev web : World
web = record {
  parse_url = λ t. some web_url;
  is_loopback_ip = λ t. false;
  read_file = λ t. none;
  get = λ t. some (record { status = 200; body = some t });
  parse_jwks = λ t. if text_eq t (codes "https://i/keys") then some (sts_jwk ∷ []) else none;
  parse_discovery = λ t.
      if text_eq t (codes "https://i/.well-known/openid-configuration")
      then some metadata
      else none;
}

keys_are_found : live_oidc web idp ≡ ok (sts_jwk ∷ [])
unfolding live_oidc text_eq equal_fold
keys_are_found = refl

live_oidc-IsTrusted_example :
    (d : OidcDiscovery) × IsDiscovery web idp d × IsKeyset web d.jwks_uri (sts_jwk ∷ [])
live_oidc-IsTrusted_example = live_oidc-IsTrusted web idp (sts_jwk ∷ []) keys_are_found

abbrev pub key_file : KeyFile
key_file = record {
  kid = codes "k";
  kty = codes "OKP";
  alg = codes "EdDSA";
  crv = codes "Ed25519";
  issuer = [];
  sub = [];
  x = codes "kkkkkkkkkkkkkkkkkkkkkkkkkkkkkkkk";
  d = codes "kkkkkkkkkkkkkkkkkkkkkkkkkkkkkkkk";
}

abbrev pub post_request : Request
post_request = record {
  method = codes "POST";
  host = codes "i";
  tls = true;
  url = some (record { scheme = codes "https"; host = codes "i"; escaped_path = codes "/" });
  proof = [];
}

abbrev session_world : SessionWorld
session_world = record {
  web = web;
  post = λ t. some post_request;
  parse_mapping = λ t. some mapping;
  parse_media_type = λ t. some t;
}

abbrev request : Fetch
request = record { gateway_url = codes "https://i/"; token = token; proof_key = some key_file }

-- The gateway first asks for a nonce.
abbrev challenge : GatewayAnswer
challenge = record {
  response = record {
    status = 401;
    www_authenticate = codes "DPoP error=\"use_dpop_nonce\"";
    dpop_nonce = codes "n-1";
  };
  content_type = [];
  client_header = [];
  session_header = [];
  body = [];
}

abbrev mapped : GatewayAnswer
mapped = record {
  response = record { status = 200; www_authenticate = []; dpop_nonce = [] };
  content_type = mapping_content_type;
  client_header = mapping.client_id;
  session_header = mapping.session_id;
  body = codes "{}";
}

mapping_is_fetched :
    fetch gate_std actors proofs session_world request noon
      (1 ∷ [])
      (λ p. some challenge)
      (2 ∷ [])
      (λ p. some mapped)
    ≡ ok mapping
unfolding fetch is_blank equal_fold from_chain context_from_chain open_context validate_structure
    encode_context complete split_dots text_eq same_hops actor_subs scope_set subset join_words
    short_name single confirm_jkt chain_from_claims nonce_from_challenge trim_space parse_unverified
    outbound_uri prove_with_nonce read_mapping is_zero mapping_agrees_with_token agrees_with_claims
    fields add has
mapping_is_fetched = refl

fetch-IsAgreed_example : IsAgreed gate_std actors proofs session_world token mapping
fetch-IsAgreed_example =
    fetch-IsAgreed gate_std actors proofs session_world request noon (1 ∷ []) (λ p. some challenge)
      (2 ∷ []) (λ p. some mapped) mapping mapping_is_fetched

command_iff_example :
    (command actors (codes "visor") mapping (codes "-policy=p" ∷ [])
      ≡ ok (codes "visor", serve_args mapping (codes "-policy=p" ∷ [])))
    ↔ IsLaunch actors
        (codes "visor")
        mapping
        (codes "-policy=p" ∷ [])
        (codes "visor", serve_args mapping (codes "-policy=p" ∷ []))
command_iff_example =
    command_iff actors (codes "visor") mapping (codes "-policy=p" ∷ [])
      (codes "visor", serve_args mapping (codes "-policy=p" ∷ []))
