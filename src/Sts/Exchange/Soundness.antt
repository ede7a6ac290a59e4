-- ===== src/Sts/Exchange/Soundness.antt =====
-- What a request has passed when internal/sts/sts.go mints a token, and what the token carries.
use mathlib.Core.Path.{subst}
use agent_identity_plane.Prelude.{
  ◌≡◌, refl, Bool, false, Option, arith, Result, ok, err, fail_if, >>=-eq-ok, fail_if-eq-ok,
  ok-injective,
}
use agent_identity_plane.Prelude.Text.{Text, is_empty}
use agent_identity_plane.Clock.{Time}
use agent_identity_plane.Token.Errors.{TokenError}
use agent_identity_plane.Token.Claims.{Claims}
use agent_identity_plane.Token.Keys.{Primitives}
use agent_identity_plane.Token.Keyring.{ring_sign}
use agent_identity_plane.Attest.{WorkloadIdentity}
use agent_identity_plane.Sts.Replay.{ReplayError, Codec, ReplayCache}
use agent_identity_plane.Sts.Request.{Config, ExchangeRequest, Env, Denial, Minted}
use agent_identity_plane.Sts.Exchange.{
  Checked, deny_if, prepare, consume_subject, mint, signed, confirmation_key, issued_claims,
  exchange, conclude, replay_denial,
}
use agent_identity_plane.Sts.Exchange.Stages.{IsPrepared, prepare-IsPrepared, deny_if-eq-ok}

signed-eq-ok :
    (sub : Claims) (r : Result TokenError Text) (raw : Text) → signed sub r ≡ ok raw → r ≡ ok raw
unfolding signed
signed-eq-ok sub (ok t) raw h = ground arith
signed-eq-ok sub (err e) raw h = cc

module _ (std : Primitives) where
  -- What `mint` has seen when it returns a token.
  abbrev pub IsMint :
      Config
      → ExchangeRequest
      → Env
      → WorkloadIdentity
      → Claims
      → Checked
      → Result ReplayError Unit
      → Minted
      → Type 0
  IsMint c req env wl sub out consumed m =
      (consumed ≡ ok tt)
      × (is_empty (confirmation_key req wl) ≡ false)
      × (m.issued ≡ issued_claims c req env sub out (confirmation_key req wl))
      × (ring_sign std c.live.signer m.issued ≡ ok m.token)
      × (m.workload ≡ wl.id)

  mint-IsMint :
      (c : Config) (req : ExchangeRequest) (env : Env) (wl : WorkloadIdentity) (sub : Claims)
      (out : Checked) (consumed : Result ReplayError Unit) (m : Minted)
      → mint std c req env wl sub out consumed ≡ ok m
      → IsMint c req env wl sub out consumed m
  unfolding mint
  mint-IsMint c req env wl sub out consumed m h =
      let (_, p, h1) = >>=-eq-ok (deny_if consumed (replay_denial sub)) _ h in
      let (_, q, h2) = >>=-eq-ok (fail_if (is_empty (confirmation_key req wl)) _) _ h1 in
      let issued = issued_claims c req env sub out (confirmation_key req wl) in
      let (raw, s, h3) = >>=-eq-ok (signed sub (ring_sign std c.live.signer issued)) _ h2 in
      subst (IsMint c req env wl sub out consumed) (ok-injective _ m h3) (
        deny_if-eq-ok consumed (replay_denial sub) p,
        fail_if-eq-ok (is_empty (confirmation_key req wl)) _ q,
        refl,
        signed-eq-ok sub (ring_sign std c.live.signer issued) raw s,
        refl,
      )

module _ (std : Primitives) (codec : Codec) (parse_rfc3339 : Text → Option Time) where
  -- A mint, with all that led to it.
  pub record IsExchange (c : Config) (cache : Option ReplayCache) (req : ExchangeRequest)
      (env : Env) (m : Minted) : Type 0 where
    pub wl : WorkloadIdentity
    pub sub : Claims
    pub from_sts : Bool
    pub out : Checked
    pub ready : prepare std codec parse_rfc3339 c req env ≡ ok (wl, sub, from_sts, out)
    pub prepared : IsPrepared std codec parse_rfc3339 c req env wl sub from_sts out
    pub minted : IsMint std c req env wl sub out (consume_subject codec cache env sub from_sts).0 m

  conclude-IsExchange :
      (c : Config) (cache : Option ReplayCache) (req : ExchangeRequest) (env : Env) (m : Minted)
      (p : Result Denial (WorkloadIdentity × Claims × Bool × Checked))
      → prepare std codec parse_rfc3339 c req env ≡ p
      → (conclude std codec parse_rfc3339 c cache req env p).0 ≡ ok m
      → IsExchange c cache req env m
  unfolding conclude
  conclude-IsExchange c cache req env m (err d) e h = cc
  conclude-IsExchange c cache req env m (ok (wl, sub, from_sts, out)) e h = record {
    wl = wl;
    sub = sub;
    from_sts = from_sts;
    out = out;
    ready = e;
    prepared = prepare-IsPrepared std codec parse_rfc3339 c req env wl sub from_sts out e;
    minted =
        mint-IsMint std c req env wl sub out (consume_subject codec cache env sub from_sts).0 m h;
  }

  pub exchange-IsExchange :
      (c : Config) (cache : Option ReplayCache) (req : ExchangeRequest) (env : Env) (m : Minted)
      → (exchange std codec parse_rfc3339 c cache req env).0 ≡ ok m
      → IsExchange c cache req env m
  unfolding exchange
  exchange-IsExchange c cache req env m h =
      conclude-IsExchange c cache req env m (prepare std codec parse_rfc3339 c req env) refl h
