-- ===== src/Sts/Exchange/SingleUse.antt =====
-- A token of the service is exchanged once: internal/sts/sts.go with internal/sts/replay.go.
use mathlib.Core.Path.{subst}
use agent_identity_plane.Prelude.{
  ◌≡◌, ◌≢◌, refl, sym, ap, ◌∙◌, Bool, true, false, List, [], ◌∷◌, ◌++◌, Option, Result, ok, err,
  All, All-append, ok-injective,
}
use agent_identity_plane.Prelude.Int.{ℤ, ◌≤ℤ◌}
use agent_identity_plane.Prelude.Text.{Text}
use agent_identity_plane.Clock.{Time, unix}
use agent_identity_plane.Token.Claims.{Claims}
use agent_identity_plane.Token.Keys.{Primitives}
use agent_identity_plane.Attest.{WorkloadIdentity}
use agent_identity_plane.Sts.Replay.{Codec, ReplayCache}
use agent_identity_plane.Sts.Replay.SingleUse.{IsCache, Call, step, run_calls, Until}
use agent_identity_plane.Sts.Replay.Runs.{answer, consume_never_again, run_calls-append}
use agent_identity_plane.Sts.Request.{Config, ExchangeRequest, Env, Denial, Minted}
use agent_identity_plane.Sts.Exchange.{
  Checked, verify_subject, prepare, consume_subject, conclude, exchange,
}
use agent_identity_plane.Sts.Exchange.Soundness.{exchange-IsExchange}

-- One exchange with its surroundings.
pub record Attempt : Type 0 where
  pub config : Config
  pub request : ExchangeRequest
  pub env : Env

-- The consumption that an attempt on a subject token makes.
abbrev pub call_of : Env → Claims → Call
call_of env sub = record {
  now = env.replay_now;
  outcome = env.outcome;
  jti = sub.jti;
  exp = sub.exp;
  aliases = [];
}

module _ (std : Primitives) (codec : Codec) (parse_rfc3339 : Text → Option Time) where
  abbrev pub attempt : Option ReplayCache → Attempt → Result Denial Minted × Option ReplayCache
  attempt cache a = exchange std codec parse_rfc3339 a.config cache a.request a.env

  -- The replay cache after a list of attempts.
  unfoldable pub run_attempts : Option ReplayCache → List Attempt → Option ReplayCache
  run_attempts cache [] = cache
  run_attempts cache (a ∷ rest) = run_attempts (attempt cache a).1 rest

  abbrev calls_when : Env → Result Denial (WorkloadIdentity × Claims × Bool × Checked) → List Call
  calls_when env (err d) = []
  calls_when env (ok (wl, sub, true, out)) = call_of env sub ∷ []
  calls_when env (ok (wl, sub, false, out)) = []

  abbrev calls : Attempt → List Call
  calls a = calls_when a.env (prepare std codec parse_rfc3339 a.config a.request a.env)

  conclude-cache :
      (c : Config) (cache : Option ReplayCache) (req : ExchangeRequest) (env : Env)
      (p : Result Denial (WorkloadIdentity × Claims × Bool × Checked))
      → (conclude std codec parse_rfc3339 c cache req env p).1
        ≡ run_calls codec cache (calls_when env p)
  unfolding conclude consume_subject run_calls
  conclude-cache c cache req env (err d) = refl
  conclude-cache c cache req env (ok (wl, sub, true, out)) = refl
  conclude-cache c cache req env (ok (wl, sub, false, out)) = refl

  abbrev all_calls : List Attempt → List Call
  all_calls [] = []
  all_calls (a ∷ rest) = calls a ++ all_calls rest

  attempt-calls :
      (cache : Option ReplayCache) (a : Attempt)
      → (attempt cache a).1 ≡ run_calls codec cache (calls a)
  unfolding exchange
  attempt-calls cache a =
      conclude-cache a.config cache a.request a.env
        (prepare std codec parse_rfc3339 a.config a.request a.env)

  run_attempts-calls :
      (cache : Option ReplayCache) (l : List Attempt)
      → run_attempts cache l ≡ run_calls codec cache (all_calls l)
  unfolding run_attempts
  run_attempts-calls cache [] = unfold run_calls in refl
  run_attempts-calls cache (a ∷ rest) =
      run_attempts-calls (attempt cache a).1 rest
      ∙ ap (λ s. run_calls codec s (all_calls rest)) (attempt-calls cache a)
      ∙ sym (run_calls-append codec cache (calls a) (all_calls rest))

  calls_when-Until :
      (env : Env) (t : ℤ) (p : Result Denial (WorkloadIdentity × Claims × Bool × Checked))
      → unix env.replay_now ≤ℤ t
      → Until codec t (calls_when env p)
  calls_when-Until env t (err d) h = tt
  calls_when-Until env t (ok (wl, sub, true, out)) h = (h, tt)
  calls_when-Until env t (ok (wl, sub, false, out)) h = tt

  -- No attempt reads a later replay clock than the given second.
  abbrev pub NotAfter : ℤ → List Attempt → Type 0
  NotAfter t = All (λ a. unix a.env.replay_now ≤ℤ t)

  all_calls-Until : (l : List Attempt) (t : ℤ) → NotAfter t l → Until codec t (all_calls l)
  all_calls-Until [] t h = tt
  all_calls-Until (a ∷ l) t (e, h) =
      All-append (λ k. unix k.now ≤ℤ t) (calls a) (all_calls l)
        (calls_when-Until a.env t (prepare std codec parse_rfc3339 a.config a.request a.env) e)
        (all_calls-Until l t h)

  -- A minted token's subject token, where it is of this service, has been consumed.
  consumed_of_minted :
      (cache : Option ReplayCache) (a : Attempt) (sub : Claims) (m : Minted)
      → verify_subject std a.config a.request.subject_token ≡ ok (sub, true)
      → (attempt cache a).0 ≡ ok m
      → (answer codec cache (call_of a.env sub) ≡ ok tt) × (calls a ≡ call_of a.env sub ∷ [])
  unfolding consume_subject
  consumed_of_minted cache a sub m v h =
      let x = exchange-IsExchange std codec parse_rfc3339 a.config cache a.request a.env m h in
      let same : (x.sub, x.from_sts) ≡ (sub, true) =
        ok-injective _ _ (sym x.prepared.verified ∙ v) in
      let moved =
        subst (λ s. (consume_subject codec cache a.env s.0 s.1).0 ≡ ok tt) same x.minted.0 in
      let ready =
        subst
          (λ s.
            prepare std codec parse_rfc3339 a.config a.request a.env ≡ ok (x.wl, s.0, s.1, x.out))
          same x.ready in
      (moved, ap (calls_when a.env) ready)

  -- Once a token of the service has been exchanged, no exchange of a token with the same claims is
  -- ever minted, under whatever configuration, provided that the clock of the replay cache does not
  -- run backwards between the two and the cache is not replaced.
  pub exchange_single_use :
      (cache : Option ReplayCache) (first : Attempt) (between : List Attempt) (second : Attempt)
      (sub : Claims) (m again : Minted)
      → IsCache cache
      → verify_subject std first.config first.request.subject_token ≡ ok (sub, true)
      → verify_subject std second.config second.request.subject_token ≡ ok (sub, true)
      → (attempt cache first).0 ≡ ok m
      → NotAfter (unix second.env.replay_now) between
      → (attempt (run_attempts (attempt cache first).1 between) second).0 ≢ ok again
  exchange_single_use cache first between second sub m again h v w once order e =
      let (consumed, at_first) = consumed_of_minted cache first sub m v once in
      let state : run_attempts (attempt cache first).1 between
          ≡ run_calls codec (step codec cache (call_of first.env sub)) (all_calls between) =
        run_attempts-calls (attempt cache first).1 between
        ∙ ap (λ s. run_calls codec s (all_calls between))
            (attempt-calls cache first
              ∙ ap (run_calls codec cache) at_first
              ∙ (unfold run_calls in refl)) in
      let (used, _) =
        consumed_of_minted (run_attempts (attempt cache first).1 between) second sub again w e in
      consume_never_again codec cache (call_of first.env sub) (all_calls between)
        (call_of second.env sub) h consumed
        (all_calls-Until between (unix second.env.replay_now) order) refl refl
        (subst (λ s. answer codec s (call_of second.env sub) ≡ ok tt) state used)
