-- ===== src/Examples/Trips.antt =====
-- Instances for internal/a2a/a2a.go: the agent `b` exchanges Alice's token and posts to a resource that
-- asks for a nonce.
use agent_identity_plane.Prelude.{◌≡◌, ◌⊎◌, refl, true, [], ◌∷◌, Option, some, ok}
use agent_identity_plane.Prelude.Text.{Text, codes, text_eq}
use agent_identity_plane.Prelude.Fields.{is_blank, trim_space}
use agent_identity_plane.Dpop.{outbound_uri, prove_with_nonce}
use agent_identity_plane.Dpop.Nonce.{Response, nonce_from_challenge}
use agent_identity_plane.Sts.Request.{ExchangeRequest}
use agent_identity_plane.A2a.Tripper.{Tripper, Context, Body, Attempt, round_trip}
use agent_identity_plane.A2a.Tripper.Delegated.{IsExchanged, IsSequence, round_trip-IsDelegated}
use agent_identity_plane.Examples.Tokens.{noon}
use agent_identity_plane.Examples.Gateways.{gate_std, proofs, token}
use agent_identity_plane.Examples.Sessions.{key_file, post_request}

abbrev tripper : Tripper
tripper = record {
  agent_id = codes "agent://b";
  audience = codes "agent://c";
  scope = codes "read";
  proves = true;
}

abbrev context : Context
context = record { subject = token; audience = [] }

abbrev exchanger : ExchangeRequest → Option Text
exchanger q = some q.audience

abbrev body : Body
body = record { content = some (codes "{}"); again = some (some (codes "{}")) }

abbrev challenge : Response
challenge = record {
  status = 401;
  www_authenticate = codes "DPoP error=\"use_dpop_nonce\"";
  dpop_nonce = codes "n-1";
}

abbrev accepted : Response
accepted = record { status = 200; www_authenticate = []; dpop_nonce = [] }

abbrev first : Attempt
first = record {
  key = some (some key_file);
  now = noon;
  bytes = 1 ∷ [];
  send = λ o. ok (some challenge);
}

abbrev second : Attempt
second = record {
  key = some (some key_file);
  now = noon;
  bytes = 2 ∷ [];
  send = λ o. ok (some accepted);
}

trip_is_retried :
    (round_trip gate_std proofs tripper context
      (some (codes "actor"))
      exchanger
      post_request
      body
      first
      second).1
    ≡ ok (some accepted)
unfolding round_trip is_blank text_eq nonce_from_challenge outbound_uri prove_with_nonce trim_space
trip_is_retried = refl

round_trip-IsDelegated_example :
    ((round_trip gate_std proofs tripper context
        (some (codes "actor"))
        exchanger
        post_request
        body
        first
        second).0
      ≡ [])
    ⊎ ((t : Text) × IsExchanged gate_std proofs tripper context
          (some (codes "actor"))
          exchanger
          post_request
          body
          first
          second
          t
        × IsSequence gate_std proofs tripper context
            (some (codes "actor"))
            exchanger
            post_request
            body
            first
            second
            t
            (round_trip gate_std proofs tripper context
              (some (codes "actor"))
              exchanger
              post_request
              body
              first
              second).0)
round_trip-IsDelegated_example =
    round_trip-IsDelegated gate_std proofs tripper context (some (codes "actor")) exchanger
      post_request body first second
