-- ===== src/Sts/Http/Granting.antt =====
-- What a token that the endpoint answers with stands for (internal/sts/http.go).
use mathlib.Core.Path.{subst}
use agent_identity_plane.Prelude.{
  ◌≡◌, ◌≢◌, ◌⊎◌, inl, inr, refl, ap, sym, ◌∙◌, true, false, [], Option, none, some, arith, Result,
  ok, err, Bool-cases, ok-injective,
}
use agent_identity_plane.Prelude.Text.{Text, is_empty, codes}
use agent_identity_plane.Prelude.Fields.{is_blank, trim_space}
use agent_identity_plane.Clock.{Time}
use agent_identity_plane.Token.Claims.{confirm_jkt}
use agent_identity_plane.Token.Keys.{Primitives}
use agent_identity_plane.Dpop.{DpopError, Proof, Request}
use agent_identity_plane.Dpop
use agent_identity_plane.Dpop.Soundness.{IsProof, verify-IsProof}
use agent_identity_plane.Sts.Replay.{ReplayCache, ReplayError}
use agent_identity_plane.Sts.Replay
use agent_identity_plane.Sts.Request.{Config, ExchangeRequest, Denial, Minted}
use agent_identity_plane.Sts.Exchange.{exchange}
use agent_identity_plane.Sts.Exchange.Minting.{exchange_bound}
use agent_identity_plane.Sts.Service.{handle, recorded}
use agent_identity_plane.Sts.Service.Recorded.{recorded-ok}
use agent_identity_plane.Audit.{Logger, AuditError, append}
use agent_identity_plane.Audit
use agent_identity_plane.Sts.Http.{
  granted, HttpState, HttpEnv, HttpStop, TokenRequest, request_of_form, settle_http, log_http,
  write_http_deny, answer_of, proof_consumption, bind_key, on_proof, bind_proof, bound, on_form,
  handle_token, malformed_form, over_rate,
}

module _ (events : agent_identity_plane.Audit.Codec) where
  settle_http-refuses :
      (s : HttpState) (stop : HttpStop) (r : Result AuditError Unit) (m : Minted)
      → (settle_http events s stop r).0 ≢ granted m
  unfolding settle_http
  settle_http-refuses s stop (ok u) m h = cc
  settle_http-refuses s stop (err e) m h = cc

  write_http_deny-refuses :
      (s : HttpState) (env : HttpEnv) (stop : HttpStop) (m : Minted)
      → (write_http_deny events s env stop).0 ≢ granted m
  unfolding write_http_deny
  write_http_deny-refuses s env stop m =
      settle_http-refuses (log_http events s env stop s.service.audit).1 stop
        (log_http events s env stop s.service.audit).0 m

answer_of-granted :
    (out : Result Denial Minted) (m : Minted) → answer_of out ≡ granted m → out ≡ ok m
unfolding answer_of
answer_of-granted (ok n) m h = ground arith
answer_of-granted (err d) m h = cc

module _ (std : Primitives) (proofs : agent_identity_plane.Dpop.Codec)
    (replays : agent_identity_plane.Sts.Replay.Codec) where
  -- The proof of a token request: it is accepted for this request, and its identifier is consumed.
  pub record IsProven (s : HttpState) (env : HttpEnv) (http : Request) (jkt : Text)
      (cache : Option ReplayCache) : Type 0 where
    pub proof : Proof
    pub accepted : IsProof std proofs http [] [] env.proof_now proof
    pub key : proof.jkt ≡ jkt
    pub consumed : (proof_consumption std proofs replays s env proof).0 ≡ ok tt
    pub after : cache ≡ (proof_consumption std proofs replays s env proof).1

  -- Without a proof nothing has changed; with one, the request names its key.
  abbrev pub IsBound :
      HttpState → HttpEnv → Request → ExchangeRequest → ExchangeRequest → HttpState → Type 0
  IsBound s env http req req' s' =
      ((is_blank http.proof ≡ true) × (req' ≡ req) × (s' ≡ s))
      ⊎ ((is_blank http.proof ≡ false)
          × IsProven s env http req'.confirm_jkt s'.service.replay
          × (req' ≡ record req { confirm_jkt = req'.confirm_jkt }))

  bind_key-eq-ok :
      (req req' : ExchangeRequest) (jkt : Text) (r : Result ReplayError Unit)
      → bind_key std proofs replays req jkt r ≡ ok req'
      → (r ≡ ok tt) × (record req { confirm_jkt = jkt } ≡ req')
  unfolding bind_key
  bind_key-eq-ok req req' jkt (ok u) h =
      (refl, ok-injective (record req { confirm_jkt = jkt }) req' h)
  bind_key-eq-ok req req' jkt (err e) h = cc

  on_proof-IsProven :
      (s : HttpState) (env : HttpEnv) (http : Request) (req req' : ExchangeRequest)
      (o : Result DpopError Proof)
      → agent_identity_plane.Dpop.verify std proofs (some http) [] [] env.proof_now ≡ o
      → (on_proof std proofs replays s env req o).0 ≡ ok req'
      → IsProven s env http req'.confirm_jkt
          (on_proof std proofs replays s env req o).1.service.replay
        × (req' ≡ record req { confirm_jkt = req'.confirm_jkt })
  unfolding on_proof
  on_proof-IsProven s env http req req' (err e) v h = cc
  on_proof-IsProven s env http req req' (ok p) v h =
      let (once, same) =
        bind_key-eq-ok req req' p.jkt (proof_consumption std proofs replays s env p).0 h in
      (
        record {
          proof = p;
          accepted = verify-IsProof std proofs http [] [] env.proof_now p v;
          key = ap (λ (x : ExchangeRequest). x.confirm_jkt) same;
          consumed = once;
          after = refl;
        },
        sym same
            ∙ ap (λ t. record req { confirm_jkt = t })
                (ap (λ (x : ExchangeRequest). x.confirm_jkt) same),
      )

  bind_proof-IsBound :
      (s : HttpState) (env : HttpEnv) (http : Request) (req req' : ExchangeRequest)
      → (bind_proof std proofs replays s env http req).0 ≡ ok req'
      → IsBound s env http req req' (bind_proof std proofs replays s env http req).1
  unfolding bind_proof
  bind_proof-IsBound s env http req req' h = elim (Bool-cases (is_blank http.proof)) [
    | inl bare ↦ inl (bare, sym (ok-injective req req' (rw bare at h)), rw bare refl)
    | inr given ↦
        let (p, same) =
          on_proof-IsProven s env http req req'
            (agent_identity_plane.Dpop.verify std proofs (some http) [] [] env.proof_now) refl
            (rw given at h) in
        inr (given, rw given p, same)
  ]

module _ (std : Primitives) (proofs : agent_identity_plane.Dpop.Codec)
    (replays : agent_identity_plane.Sts.Replay.Codec) (events : agent_identity_plane.Audit.Codec)
    (parse_rfc3339 : Text → Option Time) where
  -- The request of a form, but for the key.
  pub record IsFormOf (form : Text → Text) (req : ExchangeRequest) : Type 0 where
    pub grant_type : req.grant_type ≡ form (codes "grant_type")
    pub subject_token : req.subject_token ≡ form (codes "subject_token")
    pub actor_token : req.actor_token ≡ form (codes "actor_token")
    pub audience : req.audience ≡ form (codes "audience")
    pub scope : req.scope ≡ form (codes "scope")
    pub requested_token_type : req.requested_token_type ≡ form (codes "requested_token_type")
    pub agent_id : req.agent_id ≡ form (codes "agent_id")
    pub purp : req.purp ≡ form (codes "purp")

  form_request-IsFormOf :
      (form : Text → Text) (jkt : Text)
      → IsFormOf form (record (request_of_form form) { confirm_jkt = jkt })
  unfolding request_of_form
  form_request-IsFormOf form jkt = record {
    grant_type = refl;
    subject_token = refl;
    actor_token = refl;
    audience = refl;
    scope = refl;
    requested_token_type = refl;
    agent_id = refl;
    purp = refl;
  }

  unbound_request : (form : Text → Text) → (request_of_form form).confirm_jkt ≡ []
  unfolding request_of_form
  unbound_request form = refl

  IsBound-IsFormOf :
      (s s' : HttpState) (env : HttpEnv) (http : Request) (form : Text → Text)
      (req : ExchangeRequest)
      → IsBound std proofs replays s env http (request_of_form form) req s'
      → IsFormOf form req × ((is_blank http.proof ≡ false) ⊎ (req.confirm_jkt ≡ []))
  IsBound-IsFormOf s s' env http form req (inl (bare, same, stays)) = (
    subst (λ x. IsFormOf form x) (sym same)
        (form_request-IsFormOf form (request_of_form form).confirm_jkt),
    inr (ap (λ (x : ExchangeRequest). x.confirm_jkt) same ∙ unbound_request form),
  )
  IsBound-IsFormOf s s' env http form req (inr (there, proven, same)) = (
    subst (λ x. IsFormOf form x) (sym same) (form_request-IsFormOf form req.confirm_jkt),
    inl there,
  )

  -- What stands behind a token in an answer.
  pub record IsGranted (c : Config) (s : HttpState) (env : HttpEnv) (r : TokenRequest) (m : Minted)
      : Type 0 where
    pub in_rate : env.within_rate ≡ true
    pub form : Text → Text
    pub parsed : r.form ≡ some form
    pub request : ExchangeRequest
    pub asked : IsFormOf form request
    pub keyless : (is_blank r.http.proof ≡ false) ⊎ (request.confirm_jkt ≡ [])
    pub state : HttpState
    pub bound : IsBound std proofs replays s env r.http (request_of_form form) request state
    pub exchanged :
        (exchange std replays parse_rfc3339 c state.service.replay request env.exchange_env).0
        ≡ ok m

  bound-eq-granted :
      (c : Config) (env : HttpEnv) (q : Result HttpStop ExchangeRequest × HttpState) (m : Minted)
      → (bound std proofs replays events parse_rfc3339 c env q).0 ≡ granted m
      → (req : ExchangeRequest) × (q.0 ≡ ok req)
        × ((exchange std replays parse_rfc3339 c q.1.service.replay req env.exchange_env).0 ≡ ok m)
  unfolding bound handle
  bound-eq-granted c env (err stop, s) m h = absurd (write_http_deny-refuses events s env stop m h)
  bound-eq-granted c env (ok req, s) m h =
      let x = exchange std replays parse_rfc3339 c s.service.replay req env.exchange_env in
      (
        req,
        refl,
        recorded-ok events (record s.service { replay = x.1 }) s.service.audit req env.audit x.0 m
            (answer_of-granted
              (recorded events (record s.service { replay = x.1 }) s.service.audit req env.audit
                x.0).0
              m h),
      )

  on_form-IsGranted :
      (c : Config) (s : HttpState) (env : HttpEnv) (r : TokenRequest) (o : Option (Text → Text))
      (m : Minted)
      → env.within_rate ≡ true
      → r.form ≡ o
      → (on_form std proofs replays events parse_rfc3339 c s env r.http o).0 ≡ granted m
      → IsGranted c s env r m
  unfolding on_form
  on_form-IsGranted c s env r none m rate f h =
      absurd (write_http_deny-refuses events s env malformed_form m h)
  on_form-IsGranted c s env r (some form) m rate f h =
      let q = bind_proof std proofs replays s env r.http (request_of_form form) in
      let (req, good, x) = bound-eq-granted c env q m h in
      let binds =
        bind_proof-IsBound std proofs replays s env r.http (request_of_form form) req good in
      let (asked, keyless) = IsBound-IsFormOf s q.1 env r.http form req binds in
      record {
        in_rate = rate;
        form = form;
        parsed = f;
        request = req;
        state = q.1;
        asked = asked;
        keyless = keyless;
        bound = binds;
        exchanged = x;
      }

  -- A token in an answer comes from an exchange within the rate, whose grant type, tokens, audience,
  -- scope, agent and purpose are the parameters of those names in the form. If the
  -- request has a DPoP header, that is a proof for this request whose identifier has been consumed
  -- before the exchange, and the exchange is asked to bind the token to its key; otherwise it is
  -- asked for no key, whatever the form says.
  pub handle_token-IsGranted :
      (c : Config) (s : HttpState) (env : HttpEnv) (r : TokenRequest) (m : Minted)
      → (handle_token std proofs replays events parse_rfc3339 c s env r).0 ≡ granted m
      → IsGranted c s env r m
  unfolding handle_token
  handle_token-IsGranted c s env r m h = elim (Bool-cases env.within_rate) [
    | inl rate ↦ on_form-IsGranted c s env r r.form m rate refl (rw rate at h)
    | inr fast ↦ absurd (write_http_deny-refuses events s env over_rate m (rw fast at h))
  ]

  -- If a request with a DPoP header is granted a token, the token is bound to the key whose proof it
  -- has sent, unless the thumbprint of that key is blank.
  pub handle_token_bound :
      (c : Config) (s : HttpState) (env : HttpEnv) (r : TokenRequest) (m : Minted)
      → is_blank r.http.proof ≡ false
      → (handle_token std proofs replays events parse_rfc3339 c s env r).0 ≡ granted m
      → (p : Proof) × IsProof std proofs r.http [] [] env.proof_now p
        × ((is_empty (trim_space p.jkt) ≡ false) → confirm_jkt m.issued ≡ trim_space p.jkt)
  handle_token_bound c s env r m given h =
      let g = handle_token-IsGranted c s env r m h in
      of_bound g.form g.request g.state g.bound g.exchanged
    where
      at_key :
          (asked jkt other : Text)
          → asked ≡ jkt
          → is_empty (trim_space jkt) ≡ false
          → ((trim_space asked ≢ []) × (confirm_jkt m.issued ≡ trim_space asked))
            ⊎ ((trim_space asked ≡ []) × (confirm_jkt m.issued ≡ other))
          → confirm_jkt m.issued ≡ trim_space jkt
      at_key asked jkt other e n (inl (there, same)) = same ∙ ap trim_space e
      at_key asked jkt other e n (inr (none_there, same)) =
          absurd (ground (arith, n, ap is_empty (sym (ap trim_space e) ∙ none_there)))

      of_bound :
          (form : Text → Text) (req : ExchangeRequest) (s' : HttpState)
          → IsBound std proofs replays s env r.http (request_of_form form) req s'
          → (exchange std replays parse_rfc3339 c s'.service.replay req env.exchange_env).0 ≡ ok m
          → (p : Proof) × IsProof std proofs r.http [] [] env.proof_now p
            × ((is_empty (trim_space p.jkt) ≡ false) → confirm_jkt m.issued ≡ trim_space p.jkt)
      of_bound form req s' (inl (bare, same, stays)) x = cc
      of_bound form req s' (inr (there, proven, same)) x =
          let (attestor, wl, _, _, bound, _, _, _, _, _, _) =
            exchange_bound std replays parse_rfc3339 c s'.service.replay req env.exchange_env m x in
          (
            proven.proof,
            proven.accepted,
            λ n. at_key req.confirm_jkt proven.proof.jkt wl.possessed_jkt (sym proven.key) n bound,
          )
