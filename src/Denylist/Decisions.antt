-- ===== src/Denylist/Decisions.antt =====
-- The decisions of internal/denylist/denylist.go.
use agent_identity_plane.Prelude.{
  ℕ, suc, ◌≡◌, refl, ◌↔◌, ◌⊎◌, false, List, [], ◌∷◌, Option, some, none, arith, All,
}
use agent_identity_plane.Prelude.Text.{Text}
use agent_identity_plane.Denylist.{Denied, has_agent, has_principal, deny_chain, deny_hops}

abbrev pub NotAgent : Option Denied → Text → Type 0
NotAgent d h = (h ≡ []) ⊎ (has_agent d h ≡ false)

-- The hops in an actor position: all but the first.
abbrev pub actor_hops : List Text → List Text
actor_hops [] = []
actor_hops (h ∷ hops) = hops

deny_hops-suc :
    (d : Denied) (i : ℕ) (hops : List Text)
    → (deny_hops d (suc i) hops ≡ none) ↔ All (NotAgent (some d)) hops
unfolding deny_hops
deny_hops-suc d i [] = (λ h. tt, λ h. refl)
deny_hops-suc d i ([] ∷ hops) = ground (arith, deny_hops-suc d (suc i) hops)
deny_hops-suc d i ((b ∷ h) ∷ hops) = ground (arith, deny_hops-suc d (suc i) hops)

deny_hops-zero :
    (d : Denied) (hops : List Text)
    → (deny_hops d 0 hops ≡ none) ↔ All (NotAgent (some d)) (actor_hops hops)
unfolding deny_hops
deny_hops-zero d [] = (λ h. tt, λ h. refl)
deny_hops-zero d (h ∷ hops) = ground (arith, deny_hops-suc d 0 hops)

-- The gateway's check lets a chain pass exactly when the principal is not listed as a principal, the
-- acting agent is not listed as an agent, and no hop after the first is, the empty ones aside.
pub deny_chain_iff :
    (d : Denied) (who acting : Text) (hops : List Text)
    → (deny_chain (some d) who acting hops ≡ none) ↔ (
        (has_principal (some d) who ≡ false)
        × (has_agent (some d) acting ≡ false)
        × All (NotAgent (some d)) (actor_hops hops))
unfolding deny_chain
deny_chain_iff d who acting hops = ground (arith, deny_hops-zero d hops)
