-- ===== src/Registry/Authorization.antt =====
-- What `Authorize` of internal/registry/registry.go grants.
use agent_identity_plane.Prelude.{
  ◌≡◌, ◌↔◌, ◌⊎◌, refl, true, false, not, ◌&&◌, [], ◌∷◌, Option, none, some, arith, Result, ok, err,
  ◌>>◌, fail_if,
}
use agent_identity_plane.Prelude.Text.{Text, is_empty}
use agent_identity_plane.Prelude.Assoc.{lookup}
use agent_identity_plane.Clock.{Time, before}
use agent_identity_plane.Registry.{
  RegistryError, not_before_created, before_expiry, Agent, Registry, get, contains, validate_at,
  authorize_agent, authorize,
}

-- A validity time that the text leaves out, or that parses and has come.
abbrev pub Started : Text → Option Time → Time → Type 0
Started [] o now = Unit
Started (b ∷ s) none now = ⊥
Started (b ∷ s) (some t) now = before now t ≡ false

-- An expiry that the text leaves out, or that parses and has not come.
abbrev pub Unexpired : Text → Option Time → Time → Type 0
Unexpired [] o now = Unit
Unexpired (b ∷ s) none now = ⊥
Unexpired (b ∷ s) (some t) now = before now t ≡ true

not_before_created_iff :
    (s : Text) (o : Option Time) (now : Time)
    → (not_before_created s o now ≡ ok tt) ↔ Started s o now
unfolding not_before_created
not_before_created_iff [] o now = (λ h. tt, λ h. refl)
not_before_created_iff (b ∷ s) none now = (λ h. cc, λ h. absurd h)
not_before_created_iff (b ∷ s) (some t) now = ground arith

before_expiry_iff :
    (s : Text) (o : Option Time) (now : Time) → (before_expiry s o now ≡ ok tt) ↔ Unexpired s o now
unfolding before_expiry
before_expiry_iff [] o now = (λ h. tt, λ h. refl)
before_expiry_iff (b ∷ s) none now = (λ h. cc, λ h. absurd h)
before_expiry_iff (b ∷ s) (some t) now = ground arith

seq_iff : (m k : Result RegistryError Unit) → ((m >> k) ≡ ok tt) ↔ ((m ≡ ok tt) × (k ≡ ok tt))
seq_iff (ok u) k = ground arith
seq_iff (err e) k = ground arith

module _ (parse_rfc3339 : Text → Option Time) where
  -- The window of an agent: from `created_at` on and before `expiry`.
  abbrev pub InWindow : Agent → Time → Type 0
  InWindow a now =
      Started a.created_at (parse_rfc3339 a.created_at) now
      × Unexpired a.expiry (parse_rfc3339 a.expiry) now

  validate_at→InWindow :
      (a : Agent) (now : Time) → validate_at parse_rfc3339 a now ≡ ok tt → InWindow a now
  unfolding validate_at
  validate_at→InWindow a now h =
      let (p, q) =
        (seq_iff (not_before_created a.created_at (parse_rfc3339 a.created_at) now) _).0 h in
      ((not_before_created_iff a.created_at _ now).0 p, (before_expiry_iff a.expiry _ now).0 q)

  InWindow→validate_at :
      (a : Agent) (now : Time) → InWindow a now → validate_at parse_rfc3339 a now ≡ ok tt
  unfolding validate_at
  InWindow→validate_at a now (p, q) =
      (seq_iff (not_before_created a.created_at (parse_rfc3339 a.created_at) now) _).1
        ((not_before_created_iff a.created_at _ now).1 p, (before_expiry_iff a.expiry _ now).1 q)

  abbrev pub Granted : Option Agent → Agent → Text → Text → Time → Type 0
  Granted o a workload audience now =
      (o ≡ some a)
      × InWindow a now
      × (contains a.workloads workload ≡ true)
      × ((audience ≡ []) ⊎ (contains a.audiences audience ≡ true))

  abbrev checks : Agent → Text → Text → Result RegistryError Unit → Result RegistryError Agent
  checks a workload audience window = do
    window
    fail_if (not (contains a.workloads workload)) RegistryError.not_authorized
    fail_if (not (is_empty audience) && not (contains a.audiences audience))
        RegistryError.audience_not_allowed
    ok a

  checks_iff :
      (b a : Agent) (workload audience : Text) (window : Result RegistryError Unit)
      → (checks b workload audience window ≡ ok a) ↔ (
          (b ≡ a)
          × (window ≡ ok tt)
          × (contains b.workloads workload ≡ true)
          × ((audience ≡ []) ⊎ (contains b.audiences audience ≡ true)))
  checks_iff b a workload audience window = ground arith

  -- `Authorize` returns an agent exactly when it is the registry's agent of that id, the instant lies
  -- in its window, the workload is one of its workloads, and the audience, if there is one, is one of
  -- its audiences.
  pub authorize_iff :
      (r : Registry) (agent_id workload audience : Text) (now : Time) (a : Agent)
      → (authorize parse_rfc3339 r agent_id workload audience now ≡ ok a)
        ↔ Granted (get r agent_id) a workload audience now
  unfolding authorize get
  authorize_iff r agent_id workload audience now a = by_agent (lookup agent_id r.by_id)
    where
      grant :
          (b : Agent)
          → authorize_agent parse_rfc3339 (some b) workload audience now ≡ ok a
          → Granted (some b) a workload audience now
      grant b h =
          let (same, window, w, d) =
            (checks_iff b a workload audience (validate_at parse_rfc3339 b now)).0 h in
          ground (arith, validate_at→InWindow b now window)

      serve :
          (b : Agent)
          → Granted (some b) a workload audience now
          → authorize_agent parse_rfc3339 (some b) workload audience now ≡ ok a
      serve b (same, window, w, d) =
          (checks_iff b a workload audience (validate_at parse_rfc3339 b now)).1
            (ground arith, ground (arith, InWindow→validate_at b now), ground arith, ground arith)

      by_agent :
          (o : Option Agent)
          → (authorize_agent parse_rfc3339 o workload audience now ≡ ok a)
            ↔ Granted o a workload audience now
      by_agent none = (λ h. cc, λ h. cc)
      by_agent (some b) = (grant b, serve b)
