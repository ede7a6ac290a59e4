-- ===== src/Gateway/Pep/Identity.antt =====
-- What the checks that change nothing have found (internal/gateway/gateway.go).
use mathlib.Core.Path.{subst}
use agent_identity_plane.Prelude.{
  ◌≡◌, refl, true, false, Bool, not, Option, none, some, arith, Result, ok, err, fail_if,
  fail_if-eq-ok, >>=-eq-ok, ok-injective,
}
use agent_identity_plane.Prelude.Text.{Text, is_empty}
use agent_identity_plane.Denylist.{DenylistError}
use agent_identity_plane.Denylist
use agent_identity_plane.Token.Keys.{Primitives}
use agent_identity_plane.Verify.{ActorChain, Refusal}
use agent_identity_plane.Verify
use agent_identity_plane.Verify.Soundness.{IsKnown, verify-IsKnown}
use agent_identity_plane.Visor.{Mapping, VisorError, from_chain, complete}
use agent_identity_plane.Visor
use agent_identity_plane.A2a.{access_token}
use agent_identity_plane.Gateway.{Reason, Config, Env, stop_with, deny_identity}
use agent_identity_plane.Gateway.Pep.{invalid, incomplete, not_denied, identify}

module _ (std : Primitives) (actors : agent_identity_plane.Visor.Codec) where
  -- What the checks that change nothing have found.
  pub record IsIdentified (c : Config) (env : Env) (authorization : Text) (chain : ActorChain)
      (m : Mapping) : Type 0 where
    pub in_rate : env.within_rate ≡ true
    pub presented : is_empty (access_token authorization) ≡ false
    pub known : IsKnown std c.verifier (access_token authorization) c.audience env.token_now chain
    pub mapping : from_chain actors c.short_names chain ≡ m
    pub whole : complete actors m ≡ ok tt
    pub cleared : deny_identity c m ≡ ok none

  invalid-eq-ok :
      (c : Config) (r : Result Refusal ActorChain) (ch : ActorChain)
      → invalid std actors c r ≡ ok ch
      → r ≡ ok ch
  invalid-eq-ok c (ok d) ch h = ground arith
  invalid-eq-ok c (err e) ch h = cc

  incomplete-eq-ok :
      (m : Mapping) (r : Result VisorError Unit) → incomplete std actors m r ≡ ok tt → r ≡ ok tt
  incomplete-eq-ok m (ok u) h = refl
  incomplete-eq-ok m (err e) h = cc

  not_denied-eq-ok :
      (m : Mapping) (r : Result DenylistError (Option agent_identity_plane.Denylist.Reason))
      → not_denied std actors m r ≡ ok tt
      → r ≡ ok none
  not_denied-eq-ok m (err e) h = cc
  not_denied-eq-ok m (ok none) h = refl
  not_denied-eq-ok m (ok (some reason)) h = cc

  pub identify-IsIdentified :
      (c : Config) (env : Env) (authorization : Text) (chain : ActorChain) (m : Mapping)
      → identify std actors c env authorization ≡ ok (chain, m)
      → IsIdentified c env authorization chain m
  unfolding identify
  identify-IsIdentified c env authorization chain m h =
      let token = access_token authorization in
      let (_, rate, e0) =
        >>=-eq-ok (fail_if (not env.within_rate) (stop_with 429 Reason.rate_limited none)) _ h in
      let (_, given, e1) =
        >>=-eq-ok (fail_if (is_empty token) (stop_with 401 Reason.missing_bearer none)) _ e0 in
      let (ch, v, e2) =
        >>=-eq-ok
          (invalid std actors c
            (agent_identity_plane.Verify.verify std c.verifier token c.audience env.token_now))
          _ e1 in
      let m' = from_chain actors c.short_names ch in
      let (_, w, e3) = >>=-eq-ok (incomplete std actors m' (complete actors m')) _ e2 in
      let (_, d, e4) = >>=-eq-ok (not_denied std actors m' (deny_identity c m')) _ e3 in
      let found : IsIdentified c env authorization ch m' = record {
        in_rate = in_rate_of env.within_rate rate;
        presented = fail_if-eq-ok (is_empty token) (stop_with 401 Reason.missing_bearer none) given;
        known = verify-IsKnown std c.verifier token c.audience env.token_now ch (
            invalid-eq-ok c
              (agent_identity_plane.Verify.verify std c.verifier token c.audience env.token_now) ch
              v);
        mapping = refl;
        whole = incomplete-eq-ok m' (complete actors m') w;
        cleared = not_denied-eq-ok m' (deny_identity c m') d;
      } in
      subst (λ x. IsIdentified c env authorization x.0 x.1) (ok-injective (ch, m') (chain, m) e4)
        found
    where
      in_rate_of :
          (b : Bool) {u : Unit {0}}
          → fail_if (not b) (stop_with 429 Reason.rate_limited none) ≡ ok u
          → b ≡ true
      in_rate_of b e = ground arith
