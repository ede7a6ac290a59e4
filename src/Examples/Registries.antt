-- ===== src/Examples/Registries.antt =====
-- Instances for internal/registry and internal/denylist.
use agent_identity_plane.Prelude.Fields.{is_blank}
use agent_identity_plane.Prelude.{
  ◌≡◌, refl, ◌↔◌, false, [], ◌∷◌, Option, none, some, ok, All, if◌then◌else◌,
}
use agent_identity_plane.Prelude.Int.{pos}
use agent_identity_plane.Prelude.Text.{Text, text_eq, codes, contains_text}
use agent_identity_plane.Prelude.Assoc.{lookup, insert}
use agent_identity_plane.Clock.{Time, before, is_zero, after}
use agent_identity_plane.Registry.{Agent, File, Registry, new, get, authorize}
use agent_identity_plane.Registry.Authorization.{Granted, authorize_iff}
use agent_identity_plane.Denylist.{Url, Denied, has_agent, has_workload, has_principal, deny_chain}
use agent_identity_plane.Denylist
use agent_identity_plane.Token.Claims.{contains}
use agent_identity_plane.Denylist.Index.{new_exact}
use agent_identity_plane.Denylist.Decisions.{deny_chain_iff, NotAgent, actor_hops}
use agent_identity_plane.Examples.Tokens.{noon}

-- A parser that knows two times.
abbrev pub known_time : Text → Option Time
known_time t =
    if text_eq t (codes "then")
    then some (record { sec = pos 500; nsec = 0 })
    else if text_eq t (codes "later")
    then some (record { sec = pos 5000; nsec = 0 })
    else none

abbrev pub agent_b : Agent
agent_b = record {
  id = codes "agent://b";
  workloads = codes "spiffe://w" ∷ [];
  audiences = codes "agent://c" ∷ [];
  max_scopes = codes "read" ∷ codes "admin" ∷ [];
  max_depth = pos 3;
  created_at = codes "then";
  expiry = codes "later";
}

abbrev pub agents_file : File
agents_file = record { version = pos 1; agents = agent_b ∷ [] }

abbrev pub agents : Registry
agents = record {
  version = pos 1;
  by_id = (codes "agent://b", agent_b) ∷ [];
  agents = agent_b ∷ [];
}

agents_loaded : new known_time agents_file ≡ ok agents
unfolding new lookup insert text_eq before is_zero is_blank contains_text after
agents_loaded = refl

authorize_iff_example :
    (authorize known_time agents (codes "agent://b") (codes "spiffe://w") (codes "agent://c") noon
      ≡ ok agent_b)
    ↔ Granted known_time
        (get agents (codes "agent://b"))
        agent_b
        (codes "spiffe://w")
        (codes "agent://c")
        noon
authorize_iff_example =
    authorize_iff known_time agents (codes "agent://b") (codes "spiffe://w") (codes "agent://c")
      noon agent_b

authorized_test :
    authorize known_time agents (codes "agent://b") (codes "spiffe://w") (codes "agent://c") noon
    ≡ ok agent_b
unfolding authorize lookup text_eq before
authorized_test = refl

abbrev parse_url : Text → Option Url
parse_url t = some (record { scheme = codes "agent"; host = t })

abbrev pub denied_file : agent_identity_plane.Denylist.File
denied_file = record {
  version = pos 1;
  agents = codes "agent://x" ∷ [];
  workloads = [];
  principals = codes "mallory" ∷ [];
}

abbrev pub denied : Denied
denied = record {
  agents = (codes "agent://x", tt) ∷ [];
  workloads = [];
  principals = (codes "mallory", tt) ∷ [];
}

denied_loaded : agent_identity_plane.Denylist.new parse_url denied_file ≡ ok denied
unfolding agent_identity_plane.Denylist.new lookup insert text_eq
denied_loaded = refl

new_exact_example :
    (has_agent (some denied) (codes "agent://x") ≡ contains denied_file.agents (codes "agent://x"))
    × (has_workload (some denied) (codes "agent://x")
        ≡ contains denied_file.workloads (codes "agent://x"))
    × (has_principal (some denied) (codes "agent://x")
        ≡ contains denied_file.principals (codes "agent://x"))
new_exact_example = new_exact parse_url denied_file denied (codes "agent://x") denied_loaded

deny_chain_iff_example :
    (deny_chain
        (some denied)
        (codes "alice")
        (codes "agent://b")
        (codes "alice" ∷ codes "agent://x" ∷ [])
      ≡ none)
    ↔ ((has_principal (some denied) (codes "alice") ≡ false)
        × (has_agent (some denied) (codes "agent://b") ≡ false)
        × All (NotAgent (some denied)) (actor_hops (codes "alice" ∷ codes "agent://x" ∷ [])))
deny_chain_iff_example =
    deny_chain_iff denied (codes "alice") (codes "agent://b")
      (codes "alice" ∷ codes "agent://x" ∷ [])
