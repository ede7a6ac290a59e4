-- ===== src/Examples/Endpoints.antt =====
-- Instances for internal/sts/http.go and internal/dpop/nonce.go: the agent `b` asks for its token over
-- HTTP with a proof; a nonce is issued, used and used again.
use agent_identity_plane.Token.Scope.{has, intersect, join_scopes, scope_set, sink, subset}
use agent_identity_plane.Token.Keys.{equal_fold, sign_claims, signer_jwk, thumbprint}
use agent_identity_plane.Token.Keyring.{allow_activation, ring_sign}
use agent_identity_plane.Sts.Service.{handle}
use agent_identity_plane.Sts.Exchange.{exchange}
use agent_identity_plane.Registry.{authorize}
use agent_identity_plane.Prelude.Assoc.{erase, insert, lookup, purge}
use agent_identity_plane.Denylist.{deny_exchange}
use agent_identity_plane.Clock.{before}
use agent_identity_plane.Prelude.{
  ◌≡◌, refl, true, false, List, [], ◌∷◌, none, some, arith, if◌then◌else◌,
}
use agent_identity_plane.Prelude.Int.{pos, add_int64}
use agent_identity_plane.Prelude.Text.{Text, text_eq, is_empty, codes}
use agent_identity_plane.Prelude.Fields.{is_blank, trim_space, fields, join_words}
use agent_identity_plane.Lines.{synced}
use agent_identity_plane.Token.Claims.{
  confirm_jkt, append_chain, contains, nested_act, replay_until, validate_audience,
  validate_subject, validate_time,
}
use agent_identity_plane.Dpop.{Proof, Request, replay_jti}
use agent_identity_plane.Dpop
use agent_identity_plane.Dpop.Soundness.{IsProof}
use agent_identity_plane.Dpop.Nonce.{new_nonce_cache}
use agent_identity_plane.Dpop.Nonce.Refinement.{
  NonceCall, issuing, asking, consuming, calls, ledger_calls, empty_ledger, calls-refines, good,
  given,
}
use agent_identity_plane.Sts.Replay.{new_replay_cache, consume}
use agent_identity_plane.Sts.Http.{granted, HttpState, HttpEnv, TokenRequest, handle_token}
use agent_identity_plane.Sts.Http.Granting.{IsGranted, handle_token-IsGranted, handle_token_bound}
use agent_identity_plane.Examples.Tokens.{noon}
use agent_identity_plane.Examples.Exchanges.{config, request, env, minted}
use agent_identity_plane.Examples.Registries.{known_time}
use agent_identity_plane.Examples.Codecs.{codec}
use agent_identity_plane.Examples.Events.{events}
use agent_identity_plane.Examples.Gateways.{gate_std, proofs, get_request}

abbrev token_proofs : agent_identity_plane.Dpop.Codec
token_proofs = record proofs {
  parse_proof_claims = λ t. some (record {
    jti = codes "p-2";
    htm = codes "POST";
    htu = codes "http://g/";
    iat = pos 1000;
    ath = [];
    nonce = [];
  });
}

abbrev form : Text → Text
form k =
    if text_eq k (codes "subject_token")
    then request.subject_token
    else if text_eq k (codes "actor_token")
    then request.actor_token
    else if text_eq k (codes "audience")
    then request.audience
    else if text_eq k (codes "scope")
    then request.scope
    else if text_eq k (codes "agent_id")
    then request.agent_id
    else []

abbrev token_request : TokenRequest
token_request = record { form = some form; http = record get_request { method = codes "POST" } }

abbrev http_state : HttpState
http_state = record {
  service = record {
    replay = some new_replay_cache;
    audit = none;
    metrics = record { minted = 0; denied = 0; replays = 0 };
  };
  rate_limited = 0;
}

abbrev http_env : HttpEnv
http_env = record {
  within_rate = true;
  proof_now = noon;
  proof_replay_now = noon;
  proof_outcome = synced;
  exchange_env = env;
  audit = record { stamp = []; outcome = synced };
}

is_granted :
    (handle_token gate_std token_proofs
      (codec 0)
      events
      known_time
      config
      http_state
      http_env
      token_request).0
    ≡ granted minted
unfolding insert handle_token agent_identity_plane.Dpop.verify replay_jti thumbprint contains
    is_blank handle exchange has agent_identity_plane.Token.Scope.add scope_set sink join_scopes
    subset intersect replay_until validate_time validate_audience validate_subject nested_act
    append_chain agent_identity_plane.Token.Jws.verify equal_fold signer_jwk sign_claims
    allow_activation ring_sign authorize deny_exchange new_replay_cache consume trim_space fields
    join_words text_eq lookup purge add_int64 before agent_identity_plane.Clock.add
is_granted = refl

handle_token-IsGranted_example :
    IsGranted gate_std token_proofs
      (codec 0)
      events
      known_time
      config
      http_state
      http_env
      token_request
      minted
handle_token-IsGranted_example =
    handle_token-IsGranted gate_std token_proofs (codec 0) events known_time config http_state
      http_env token_request minted is_granted

handle_token_bound_example :
    (p : Proof) × IsProof gate_std token_proofs token_request.http [] [] noon p
    × ((is_empty (trim_space p.jkt) ≡ false) → confirm_jkt minted.issued ≡ trim_space p.jkt)
handle_token_bound_example =
    handle_token_bound gate_std token_proofs (codec 0) events known_time config http_state http_env
      token_request minted (unfold is_blank in refl) is_granted

abbrev nonce_calls : List NonceCall
nonce_calls =
    issuing noon (255 ∷ [])
    ∷ asking (codes "n-ff") noon
    ∷ consuming (codes "n-ff") noon
    ∷ consuming (codes "n-ff") noon
    ∷ []

nonce_answers :
    calls new_nonce_cache nonce_calls
    ≡ given (codes "n-ff") ∷ good true ∷ good true ∷ good false ∷ []
unfolding calls is_blank lookup insert erase purge new_nonce_cache text_eq
    agent_identity_plane.Clock.add
nonce_answers = refl

calls-refines_example : calls new_nonce_cache nonce_calls ≡ ledger_calls empty_ledger nonce_calls
calls-refines_example = calls-refines (pos 0) nonce_calls (omega arith)
