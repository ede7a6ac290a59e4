-- ===== src/Sts/Exchange/Minting.antt =====
-- The guarantees of a token that internal/sts/sts.go mints.
use agent_identity_plane.Prelude.{
  ℕ, suc, ◌*◌, ◌<◌, none, ok-injective, Option-cases, ◌≡◌, ◌≢◌, refl, sym, ap, ◌∙◌, ◌⊎◌, inl, inr,
  Bool, true, false, List, [], ◌∷◌, ◌++◌, Option, some, arith, if◌then◌else◌, ok, length,
  Bool-cases,
}
use agent_identity_plane.Prelude.Int.{pos, ltb_ℤ}
use agent_identity_plane.Prelude.Text.{Text, is_empty, codes}
use agent_identity_plane.Prelude.Fields.{is_blank, trim_space}
use agent_identity_plane.Clock.{Time, unix, add}
use agent_identity_plane.Denylist.{has_agent, has_workload, has_principal}
use agent_identity_plane.Registry.{Agent, Registry, get}
use agent_identity_plane.Registry.Authorization.{Granted, authorize_iff}
use agent_identity_plane.Token.Claims.{
  Claims, contains, validate_time, validate_audience, actor_subs, subs_of, current_sub, confirm_jkt,
}
use agent_identity_plane.Token.Chain.{actor_subs_next_hop}
use agent_identity_plane.Token.Scope.{has, scope_set}
use agent_identity_plane.Token.Scope.Sets.{Included}
use agent_identity_plane.Token.Keys.{Primitives, Signer, sign, sign_claims}
use agent_identity_plane.Prelude.Assoc.{lookup}
use agent_identity_plane.Token.Keyring.{Keyring, signers, ring_sign}
use agent_identity_plane.Attest.{WorkloadIdentity, Attestor}
use agent_identity_plane.Sts.Replay.{Codec, ReplayCache}
use agent_identity_plane.Sts.Request.{Config, ExchangeRequest, Env, Minted}
use agent_identity_plane.Sts.Exchange.{
  verify_subject, confirmation_key, issued_claims, exchange, ceiling, narrow_scope, next_txn,
  no_chain, ttl,
}
use agent_identity_plane.Sts.Exchange.Scopes.{narrow_scope_exact, Within}
use agent_identity_plane.Sts.Exchange.Soundness.{exchange-IsExchange}

Included-wanted :
    (requested incoming : Text) (max : List Text) (s : Text)
    → narrow_scope requested incoming max ≡ some s
    → (is_blank requested ≡ true) ⊎ Included (scope_set s) (scope_set requested)
Included-wanted requested incoming max s h = elim (Bool-cases (is_blank requested)) [
  | inl blank ↦ inl blank
  | inr named ↦ inr (λ t k.
      sym (
        (narrow_scope_exact requested incoming max s h).0 t
        ∙ ap (λ b. has (if b then ceiling incoming max else scope_set requested) t) named)
      ∙ k)
]

contains_of_audience :
    (sub : Claims) (id : Text)
    → validate_audience sub id ≡ ok tt
    → (id ≢ []) × (contains sub.aud id ≡ true)
unfolding validate_audience
contains_of_audience sub [] h = cc
contains_of_audience sub (b ∷ id) h = (λ e. cc, ground arith)

no_actors : (sub : Claims) → no_chain sub ≡ true → actor_subs sub ≡ []
unfolding actor_subs subs_of current_sub
no_actors sub h = ground arith

next_txn-eq-ok :
    (sub : Claims) (from_sts : Bool) (bytes : List ℕ) (t : Text)
    → next_txn sub from_sts bytes ≡ ok t
    → ((from_sts ≡ true) × (sub.txn ≢ []) × (t ≡ sub.txn))
      ⊎ ((from_sts ≡ false) × (no_chain sub ≡ true) × ((sub.txn ≡ []) ⊎ (t ≡ sub.txn)))
unfolding next_txn
next_txn-eq-ok sub true bytes t h = inl (ground arith)
next_txn-eq-ok sub false bytes t h = inr (ground arith)

module _ (std : Primitives) (codec : Codec) (parse_rfc3339 : Text → Option Time) where
  -- What the registry, the attestor and the denylist of the configuration say of a minted token.
  abbrev pub IsAuthorized : Config → ExchangeRequest → Env → Minted → Type 0
  IsAuthorized c req env m =
      (registry : Registry) × (attestor : Attestor) × (wl : WorkloadIdentity) × (agent : Agent)
      × (c.live.registry ≡ some registry)
      × (c.live.attestor ≡ some attestor)
      × (attestor req.actor_token ≡ ok wl)
      × (m.workload ≡ wl.id)
      × Granted parse_rfc3339 (get registry req.agent_id) agent wl.id req.audience env.now
      × (has_agent c.live.denylist req.agent_id ≡ false)
      × (has_workload c.live.denylist wl.id ≡ false)
      × (has_principal c.live.denylist m.issued.sub ≡ false)

  -- Where a token is minted, the attestor has attested the actor token, the registry grants the
  -- requesting agent that workload and the audience at that instant, and neither the agent nor the
  -- workload nor the principal of the new token is denied.
  pub exchange-IsAuthorized :
      (c : Config) (cache : Option ReplayCache) (req : ExchangeRequest) (env : Env) (m : Minted)
      → (exchange std codec parse_rfc3339 c cache req env).0 ≡ ok m
      → IsAuthorized c req env m
  exchange-IsAuthorized c cache req env m h =
      let x = exchange-IsExchange std codec parse_rfc3339 c cache req env m h in
      let p = x.prepared in
      let q = p.passes in
      let (_, _, issued, _, workload) = x.minted in
      (
        p.registry,
        p.attestor,
        x.wl,
        p.agent,
        p.configured.0,
        p.configured.1,
        p.attested,
        workload,
        (authorize_iff parse_rfc3339 p.registry req.agent_id x.wl.id req.audience env.now p.agent).0
            p.granted,
        p.not_denied.0,
        p.not_denied.1,
        rw issued (unfold issued_claims in q.principal),
      )

  -- What the new token may do, next to its subject token `sub` and its agent.
  abbrev pub IsNarrowed : Config → ExchangeRequest → Minted → Type 0
  IsNarrowed c req m =
      (registry : Registry) × (agent : Agent) × (sub : Claims) × (from_sts : Bool)
      × (c.live.registry ≡ some registry)
      × (get registry req.agent_id ≡ some agent)
      × (verify_subject std c req.subject_token ≡ ok (sub, from_sts))
      × Within (scope_set m.issued.scope) sub.scope agent.max_scopes
      × ((is_blank req.scope ≡ true) ⊎ Included (scope_set m.issued.scope) (scope_set req.scope))
      × (ltb_ℤ agent.max_depth (pos (suc (length m.issued.act_chain))) ≡ false)

  -- Every scope of a minted token is one of the agent's, one of the subject token's where that has a
  -- scope, and one of the request's where that names any; and the new token's depth is at most the
  -- agent's.
  pub exchange-IsNarrowed :
      (c : Config) (cache : Option ReplayCache) (req : ExchangeRequest) (env : Env) (m : Minted)
      → (exchange std codec parse_rfc3339 c cache req env).0 ≡ ok m
      → IsNarrowed c req m
  exchange-IsNarrowed c cache req env m h =
      let x = exchange-IsExchange std codec parse_rfc3339 c cache req env m h in
      let p = x.prepared in
      let q = p.passes in
      let (_, _, issued, _, _) = x.minted in
      let granted =
        (authorize_iff parse_rfc3339 p.registry req.agent_id x.wl.id req.audience env.now p.agent).0
          p.granted in
      (
        p.registry,
        p.agent,
        x.sub,
        x.from_sts,
        p.configured.0,
        granted.0,
        p.verified,
        rw issued (
            unfold issued_claims in
            (narrow_scope_exact req.scope x.sub.scope p.agent.max_scopes x.out.scope q.scope).1),
        rw issued (
            unfold issued_claims in
            Included-wanted req.scope x.sub.scope p.agent.max_scopes x.out.scope q.scope),
        rw issued (unfold issued_claims in q.depth),
      )

  -- How the new token continues the delegation of its subject token `sub`.
  abbrev pub IsNextHop : Config → ExchangeRequest → Env → Minted → Type 0
  IsNextHop c req env m =
      (sub : Claims) × (from_sts : Bool) × (verify_subject std c req.subject_token
        ≡ ok (sub, from_sts))
      × (validate_time sub env.now 0 ≡ ok tt)
      × (contains sub.aud req.agent_id ≡ true)
      × (m.issued.sub ≡ sub.sub)
      × (m.issued.aud ≡ req.audience ∷ [])
      × (actor_subs m.issued ≡ actor_subs sub ++ req.agent_id ∷ [])
      × (((from_sts ≡ true) × (sub.txn ≢ []) × (m.issued.txn ≡ sub.txn))
          ⊎ ((from_sts ≡ false)
              × (actor_subs sub ≡ [])
              × ((sub.txn ≡ []) ⊎ (m.issued.txn ≡ sub.txn))))

  -- A minted token continues a subject token that verifies, is in time and is addressed to the
  -- requesting agent: it has its principal and, as its only audience, the requested one; its actors are
  -- the subject token's and then the agent; and its transaction is the subject token's, unless that is
  -- a user's token without one. A user's token has no actors.
  pub exchange-IsNextHop :
      (c : Config) (cache : Option ReplayCache) (req : ExchangeRequest) (env : Env) (m : Minted)
      → (exchange std codec parse_rfc3339 c cache req env).0 ≡ ok m
      → IsNextHop c req env m
  exchange-IsNextHop c cache req env m h =
      let x = exchange-IsExchange std codec parse_rfc3339 c cache req env m h in
      let q = x.prepared.passes in
      let (_, _, issued, _, _) = x.minted in
      let claims = issued_claims c req env x.sub x.out (confirmation_key req x.wl) in
      let (named, aud) = contains_of_audience x.sub req.agent_id q.for_agent in
      (
        x.sub,
        x.from_sts,
        x.prepared.verified,
        q.in_time,
        aud,
        rw issued (unfold issued_claims in refl),
        rw issued (unfold issued_claims in refl),
        rw issued (
            actor_subs_next_hop x.sub claims c.issuer req.agent_id named
              (unfold issued_claims in q.chain) (unfold issued_claims in refl)),
        rw issued (
            unfold issued_claims in
            elim (next_txn-eq-ok x.sub x.from_sts env.txn_bytes x.out.txn q.txn) [
              | inl s ↦ inl s
              | inr (u, n, t) ↦ inr (u, no_actors x.sub n, t)
            ]),
      )

  -- The key that the request names, spaces around it aside, or else the workload's.
  abbrev pub IsKeyFor : ExchangeRequest → WorkloadIdentity → Text → Type 0
  IsKeyFor req wl jkt =
      ((trim_space req.confirm_jkt ≢ []) × (jkt ≡ trim_space req.confirm_jkt))
      ⊎ ((trim_space req.confirm_jkt ≡ []) × (jkt ≡ wl.possessed_jkt))

  -- The configured lifetime, or two minutes where none is configured, in nanoseconds.
  abbrev pub IsLifetime : Config → ℕ → Type 0
  IsLifetime c d =
      ((0 < c.lifetime) × (d ≡ c.lifetime)) ⊎ ((c.lifetime ≡ 0) × (d ≡ 120 * 1000000000))

  -- A compact JWS of the claims by the active key of the ring.
  abbrev pub IsSignedBy : Option Keyring → Claims → Text → Type 0
  IsSignedBy ring claims raw =
      (k : Keyring) × (s : Signer) × (ring ≡ some k)
      × (lookup k.active_kid (signers k) ≡ some s)
      × (let input =
            std.b64_encode
              (std.marshal_header (record { alg = codes "EdDSA"; typ = codes "JWT"; kid = s.kid }))
            ++ (46 ∷ std.b64_encode (std.marshal_claims claims)) in
          raw ≡ input ++ (46 ∷ std.b64_encode (std.ed25519_sign s.seed input)))

  ring_sign-IsSignedBy :
      (ring : Option Keyring) (claims : Claims) (raw : Text)
      → ring_sign std ring claims ≡ ok raw
      → IsSignedBy ring claims raw
  unfolding ring_sign sign_claims sign
  ring_sign-IsSignedBy none claims raw h = cc
  ring_sign-IsSignedBy (some k) claims raw h =
      elim (Option-cases (lookup k.active_kid (signers k))) [
        | inl unknown ↦ cc (rw unknown at h)
        | inr (s, found) ↦ (k, s, refl, found, sym (ok-injective _ raw (rw found at h)))
      ]

  confirmation_key-IsKeyFor :
      (req : ExchangeRequest) (wl : WorkloadIdentity) → IsKeyFor req wl (confirmation_key req wl)
  unfolding confirmation_key
  confirmation_key-IsKeyFor req wl = either (trim_space req.confirm_jkt)
    where
      either :
          (asked : Text)
          → ((asked ≢ []) × ((if is_empty asked then wl.possessed_jkt else asked) ≡ asked))
            ⊎ ((asked ≡ [])
                × ((if is_empty asked then wl.possessed_jkt else asked) ≡ wl.possessed_jkt))
      either [] = inr (refl, refl)
      either (x ∷ asked) = inl (λ e. cc, refl)

  ttl-IsLifetime : (c : Config) → IsLifetime c (ttl c)
  unfolding ttl
  ttl-IsLifetime c = ground arith

  -- A minted token is a JWS of its claims, signed with EdDSA by the ring's active key. It lives from the
  -- instant of the exchange for the configured time, or for two minutes where none is configured, and is
  -- bound to a key: the one that the request names, or else the one that the attestation has proved the
  -- workload to hold.
  pub exchange_bound :
      (c : Config) (cache : Option ReplayCache) (req : ExchangeRequest) (env : Env) (m : Minted)
      → (exchange std codec parse_rfc3339 c cache req env).0 ≡ ok m
      → (attestor : Attestor) × (wl : WorkloadIdentity) × (c.live.attestor ≡ some attestor)
        × (attestor req.actor_token ≡ ok wl)
        × IsKeyFor req wl (confirm_jkt m.issued)
        × (confirm_jkt m.issued ≢ [])
        × IsSignedBy c.live.signer m.issued m.token
        × (m.issued.nbf ≡ unix env.now)
        × (d : ℕ) × IsLifetime c d
        × (m.issued.exp ≡ unix (add env.now d))
  exchange_bound c cache req env m h =
      let x = exchange-IsExchange std codec parse_rfc3339 c cache req env m h in
      let (_, held, issued, signed, _) = x.minted in
      (
        x.prepared.attestor,
        x.wl,
        x.prepared.configured.1,
        x.prepared.attested,
        rw issued (unfold issued_claims confirm_jkt in confirmation_key-IsKeyFor req x.wl),
        rw issued (unfold issued_claims confirm_jkt in λ e. ground (arith, ap is_empty e)),
        ring_sign-IsSignedBy c.live.signer m.issued m.token signed,
        rw issued (unfold issued_claims in refl),
        ttl c,
        ttl-IsLifetime c,
        rw issued (unfold issued_claims in refl),
      )
