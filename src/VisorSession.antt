-- ===== src/VisorSession.antt =====
-- internal/visorsession/session.go: the command that starts visor, on a mapping that the gateway has
-- answered with and that agrees with the access token. The network, the parsers of net/url and mime and
-- the JSON decoder are parameters.
pub mod Agreement
pub mod Launch
use agent_identity_plane.Prelude.{
  ℕ, ◌*◌, Bool, true, false, not, ◌&&◌, ◌||◌, ◌==◌, ltb, List, [], ◌∷◌, ◌++◌, map, Option, none,
  some, if◌then◌else◌, Result, ok, err, ◌>>=◌, ◌>>◌, fail_if, length,
}
use agent_identity_plane.Prelude.Int.{eq_ℤ}
use agent_identity_plane.Prelude.Text.{Text, text_eq, is_empty, codes}
use agent_identity_plane.Prelude.Fields.{is_blank, join_words}
use agent_identity_plane.Prelude.Fold.{equal_ascii_fold}
use agent_identity_plane.Clock.{Time}
use agent_identity_plane.Token.Claims.{Claims, actor_subs, single, confirm_jkt, contains}
use agent_identity_plane.Token.Scope.{scope_set, subset}
use agent_identity_plane.Token.Keys.{KeyFile, Primitives}
use agent_identity_plane.Token.Jws.{parse_unverified}
use agent_identity_plane.Audit.{same_hops}
use agent_identity_plane.Dpop.{Request, outbound_uri, prove_with_nonce}
use agent_identity_plane.Dpop
use agent_identity_plane.Dpop.Nonce.{Response, nonce_from_challenge}
use agent_identity_plane.Verify.{current_actor}
use agent_identity_plane.Verify.Keysets.{World, check_jwks_url}
use agent_identity_plane.Visor.{
  Mapping, ActorContext, ActorRef, complete, short_name, actor_verification,
}
use agent_identity_plane.Visor
use agent_identity_plane.Gateway.Headers.{mapping_content_type}

-- The errors of the session; `status` is the gateway's status.
pub data SessionError : Type 0 where
  gateway_url identity_args body_too_large token_missing proof_key_missing : SessionError
  visor_bin_required request_failed unreachable : SessionError
  bad_status : ℕ → SessionError
  not_mapping incomplete_mapping headers_differ disagrees : SessionError

-- `AccessTokenEnv`
abbrev pub access_token_env : Text
access_token_env = codes "AIP_ACCESS_TOKEN"

-- `maxMappingBytes`
abbrev pub max_mapping_bytes : ℕ
max_mapping_bytes = 1024 * 1024

-- The name before the first `=`, and whether there is one: `strings.Cut`.
unfoldable pub cut_name : Text → Text × Bool
cut_name [] = ([], false)
cut_name (b ∷ r) =
    let (name, found) = cut_name r in if b == 61 then ([], true) else (b ∷ name, found)

abbrev pub identity_flags : List Text
identity_flags =
    codes "-client-id"
    ∷ codes "--client-id"
    ∷ codes "-session-id"
    ∷ codes "--session-id"
    ∷ codes "-verified-actor-fd"
    ∷ codes "--verified-actor-fd"
    ∷ codes "-verified-actor-file"
    ∷ codes "--verified-actor-file"
    ∷ codes "-verified-actor"
    ∷ codes "--verified-actor"
    ∷ []

-- `RejectIdentityArgs`
unfoldable pub reject_identity_args : List Text → Result SessionError Unit
unfolding cut_name contains
reject_identity_args [] = ok tt
reject_identity_args (a ∷ rest) = do
  fail_if (contains identity_flags (cut_name a).0) identity_args
  reject_identity_args rest

abbrev pub or_incomplete : {E A : Type 0} → Result E A → Result SessionError A
or_incomplete (ok a) = ok a
or_incomplete (err e) = err incomplete_mapping

-- `Command`: the program and its arguments; the descriptor is 3.
unfoldable pub command :
    agent_identity_plane.Visor.Codec
    → Text
    → Mapping
    → List Text
    → Result SessionError (Text × List Text)
command actors visor_bin m extra = do
  fail_if (is_blank visor_bin) visor_bin_required
  or_incomplete (complete actors m)
  reject_identity_args extra
  ok (
    visor_bin,
    codes "serve"
        ∷ codes "-client-id"
        ∷ m.client_id
        ∷ codes "-session-id"
        ∷ m.session_id
        ∷ codes "-verified-actor-fd"
        ∷ codes "3"
        ∷ extra,
  )

-- Does the entry of an environment name the access token?
abbrev pub names_token : Text → Bool
names_token e = let (name, found) = cut_name e in found && equal_ascii_fold name access_token_env

unfoldable pub child_env : List Text → List Text
child_env [] = []
child_env (e ∷ env) = let rest = child_env env in if names_token e then rest else e ∷ rest

-- `FormatArgv`
unfoldable pub format_argv : Text → List Text → Text
unfolding join_words
format_argv name args = join_words (name ∷ args)

unfoldable pub scopes_match_token : Text → Text → Bool
scopes_match_token got want =
    subset (scope_set got) (scope_set want) && subset (scope_set want) (scope_set got)

abbrev pub ref_id : ActorRef → Text
ref_id a = a.id

-- `t.Equal(u)` for the seconds of a claim
abbrev pub at_second : Time → Claims → Bool
at_second t c = eq_ℤ t.sec c.exp && t.nsec == 0

abbrev pub is_audience : Option Text → Text → Bool
is_audience none aud = false
is_audience (some a) aud = text_eq aud a

abbrev disagrees_if : Bool → Result SessionError Unit
disagrees_if b = fail_if b disagrees

-- `mappingAgreesWithToken` on the claims of the token
unfoldable pub agrees_with_claims : Mapping → Claims → Result SessionError Unit
unfolding scopes_match_token
agrees_with_claims m c =
    let va = m.verified_actor in
    let actor = current_actor c.act in
    let hops = c.sub ∷ actor_subs c in
    do
      disagrees_if (is_blank c.txn || not (text_eq m.session_id c.txn))
      disagrees_if (not (text_eq m.principal c.sub) || not (text_eq m.acting_agent actor))
      disagrees_if (
          not (text_eq va.principal_id c.sub)
          || not (text_eq va.acting_agent actor)
          || not (text_eq va.transaction c.txn))
      disagrees_if (not (text_eq m.client_id actor) && not (text_eq m.client_id (short_name actor)))
      disagrees_if (not (same_hops m.hops hops) || not (same_hops (map ref_id va.actor_chain) hops))
      disagrees_if (
          not (scopes_match_token m.scope c.scope)
          || not (scopes_match_token (join_words va.scopes) c.scope))
      disagrees_if (not (text_eq va.issuer c.iss))
      disagrees_if (not (is_audience (single c.aud) va.audience))
      disagrees_if (not (text_eq va.token_id c.jti) || not (text_eq m.jti c.jti))
      disagrees_if (not (at_second va.expires_at c))
      disagrees_if (not (text_eq va.proof_key_thumbprint (confirm_jkt c)))
      disagrees_if (not (text_eq va.verification_method actor_verification))
      disagrees_if (not (is_blank va.workload_id))

abbrev pub or_disagrees : {E A : Type 0} → Result E A → Result SessionError A
or_disagrees (ok a) = ok a
or_disagrees (err e) = err disagrees

-- What a session fetches with: the URL, the token and the key.
pub record Fetch : Type 0 where
  pub gateway_url : Text
  pub token : Text
  pub proof_key : Option KeyFile

-- An answer of the gateway: what a challenge is read from, the other headers and the body, of which
-- one byte above the cap is read.
pub record GatewayAnswer : Type 0 where
  pub response : Response
  pub content_type : Text
  pub client_header : Text
  pub session_header : Text
  pub body : Text

-- The URL's part of the world: query and fragment are those of its parsed form; `post` is the request
-- that is made for it; the decoder of a mapping and the parser of a media type.
pub record SessionWorld : Type 0 where
  pub web : World
  pub post : Text → Option Request
  pub parse_mapping : Text → Option Mapping
  pub parse_media_type : Text → Option Text

abbrev pub or_fail : {A : Type 0} → SessionError → Option A → Result SessionError A
or_fail e none = err e
or_fail e (some a) = ok a

abbrev or_error : {E A : Type 0} → SessionError → Result E A → Result SessionError A
or_error e (ok a) = ok a
or_error e (err f) = err e

-- `CheckGatewayURL`
unfoldable pub check_gateway_url : SessionWorld → Text → Result SessionError Unit
unfolding check_jwks_url
check_gateway_url world raw = do
  or_error gateway_url (check_jwks_url world.web raw)
  u ← or_fail gateway_url (world.web.parse_url raw)
  fail_if (not (is_empty u.raw_query) || not (is_empty u.fragment)) gateway_url

module _ (std : Primitives) (actors : agent_identity_plane.Visor.Codec)
    (proofs : agent_identity_plane.Dpop.Codec) (world : SessionWorld) where
  -- `mappingAgreesWithToken`
  unfoldable pub mapping_agrees_with_token : Mapping → Text → Result SessionError Unit
  mapping_agrees_with_token m raw = do
    (h, c) ← or_disagrees (parse_unverified std raw)
    agrees_with_claims m c

  abbrev pub is_mapping_content_type : Option Text → Bool
  is_mapping_content_type none = false
  is_mapping_content_type (some t) = text_eq t mapping_content_type

  -- The reading of an answer of status 200.
  unfoldable pub read_mapping : Text → GatewayAnswer → Result SessionError Mapping
  read_mapping token a = do
    fail_if (not (is_mapping_content_type (world.parse_media_type a.content_type))) not_mapping
    m ← or_fail not_mapping (world.parse_mapping a.body)
    or_incomplete (complete actors m)
    fail_if
        (not (text_eq a.client_header m.client_id) || not (text_eq a.session_header m.session_id))
        headers_differ
    mapping_agrees_with_token m token
    ok m

  -- The proof that an attempt sends.
  unfoldable pub attempt_proof : Fetch → Time → Text → List ℕ → Result SessionError Text
  attempt_proof f now nonce bytes = do
    post ← or_fail request_failed (world.post f.gateway_url)
    htu ← or_error request_failed (outbound_uri post)
    or_error request_failed
        (prove_with_nonce std proofs f.proof_key (codes "POST") htu f.token now nonce bytes)

  -- An attempt's answer: a mapping, or an error with the nonce of a challenge.
  unfoldable pub read_answer : Fetch → Text → GatewayAnswer → Result (SessionError × Text) Mapping
  unfolding nonce_from_challenge
  read_answer f nonce a =
      if ltb max_mapping_bytes (length a.body)
      then err (body_too_large, [])
      else if not (a.response.status == 200)
      then err (
        bad_status a.response.status,
        if is_empty nonce then nonce_from_challenge (some a.response) else [],
      )
      else elim (read_mapping f.token a) [ ok m ↦ ok m | err e ↦ err (e, []) ]

  -- `fetchMapping` on what becomes of the call: `none` where it fails.
  unfoldable pub fetch_mapping :
      Fetch
      → Time
      → Text
      → List ℕ
      → (Text → Option GatewayAnswer)
      → Result (SessionError × Text) Mapping
  unfolding attempt_proof read_answer
  fetch_mapping f now nonce bytes send = elim (attempt_proof f now nonce bytes) [
    | err e ↦ err (e, [])
    | ok proof ↦ elim (send proof) [ none ↦ err (unreachable, []) | some a ↦ read_answer f nonce a ]
  ]

  abbrev pub without_nonce : Result (SessionError × Text) Mapping → Result SessionError Mapping
  without_nonce (ok m) = ok m
  without_nonce (err e) = err e.0

  -- The second attempt, after a challenge.
  abbrev pub retry :
      Fetch
      → Time
      → List ℕ
      → (Text → Option GatewayAnswer)
      → Result (SessionError × Text) Mapping
      → Result SessionError Mapping
  retry f now bytes send (ok m) = ok m
  retry f now bytes send (err (e, nonce)) =
      if is_empty nonce then err e else without_nonce (fetch_mapping f now nonce bytes send)

  -- `Fetch`; the two calls have random bytes and a transport each.
  unfoldable pub fetch :
      Fetch
      → Time
      → List ℕ
      → (Text → Option GatewayAnswer)
      → List ℕ
      → (Text → Option GatewayAnswer)
      → Result SessionError Mapping
  unfolding fetch_mapping check_gateway_url
  fetch f now bytes send bytes' send' = do
    fail_if (is_blank f.token) token_missing
    k ← or_fail proof_key_missing f.proof_key
    check_gateway_url world f.gateway_url
    retry f now bytes' send' (fetch_mapping f now [] bytes send)
