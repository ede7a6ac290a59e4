-- ===== src/Registry/Loading.antt =====
-- What internal/registry/registry.go has checked of a registry that it loads.
use agent_identity_plane.Prelude.{
  ◌≡◌, ◌≢◌, sym, not, List, [], ◌∷◌, ◌++◌, Option, none, some, arith, if◌then◌else◌, ok, err,
  fail_if, >>=-eq-ok, All, ◌∙◌, append_assoc, append-nil,
}
use agent_identity_plane.Prelude.Int.{pos, eq_ℤ}
use agent_identity_plane.Prelude.Text.{Text, text_eq, text_eq_iff}
use agent_identity_plane.Prelude.Assoc.{lookup, insert, lookup-insert}
use agent_identity_plane.Clock.{Time}
use agent_identity_plane.Registry.{
  invalid_time, invalid_version, agents_required, duplicate_agent, Agent, File, Registry, get,
  validate_agent, check_window, parse_time, add_agents, new, validate_at, is_nil, listed,
}

-- The agent of a list with the given id.
abbrev pub find : Text → List Agent → Option Agent
find id [] = none
find id (a ∷ agents) = if text_eq a.id id then some a else find id agents

abbrev pub or_else : Option Agent → Option Agent → Option Agent
or_else none o = o
or_else (some a) o = some a

module _ (parse_rfc3339 : Text → Option Time) where
  abbrev pub Valid : Agent → Type 0
  Valid a = validate_agent parse_rfc3339 a ≡ ok tt

  add_agents-inv :
      (r out : Registry) (a : Agent) (rest : List Agent)
      → add_agents parse_rfc3339 r (a ∷ rest) ≡ ok out
      → Valid a
        × (lookup a.id r.by_id ≡ none)
        × (add_agents parse_rfc3339
              (record r { by_id = insert a.id a r.by_id; agents = r.agents ++ a ∷ [] })
              rest
            ≡ ok out)
  unfolding add_agents
  add_agents-inv r out a rest h =
      let (u, ha, h1) = >>=-eq-ok (validate_agent parse_rfc3339 a) _ h in
      let (v, hb, h2) =
        >>=-eq-ok (fail_if (listed (lookup a.id r.by_id)) (duplicate_agent a.id)) _ h1 in
      (ha, ground arith, h2)

  lookup-add_agents :
      (r out : Registry) (agents : List Agent) (id : Text)
      → add_agents parse_rfc3339 r agents ≡ ok out
      → (lookup id out.by_id ≡ or_else (lookup id r.by_id) (find id agents))
  lookup-add_agents r out [] id h = unfold add_agents in ground arith
  lookup-add_agents r out (a ∷ rest) id h =
      let (v, new_id, h1) = add_agents-inv r out a rest h in
      ground (
        arith,
        lookup-add_agents (record r { by_id = insert a.id a r.by_id; agents = r.agents ++ a ∷ [] })
            out rest id h1,
        lookup-insert a.id id a r.by_id,
        text_eq_iff a.id id,
        new_id,
      )

  add_agents-Valid :
      (r out : Registry) (agents : List Agent)
      → add_agents parse_rfc3339 r agents ≡ ok out
      → All Valid agents
  add_agents-Valid r out [] h = tt
  add_agents-Valid r out (a ∷ rest) h =
      let (v, new_id, h1) = add_agents-inv r out a rest h in
      (
        v,
        add_agents-Valid (record r { by_id = insert a.id a r.by_id; agents = r.agents ++ a ∷ [] })
            out rest h1,
      )

  agents-add_agents :
      (r out : Registry) (agents : List Agent)
      → add_agents parse_rfc3339 r agents ≡ ok out
      → out.agents ≡ r.agents ++ agents
  agents-add_agents r out [] h = unfold add_agents in rw append-nil (ground arith)
  agents-add_agents r out (a ∷ rest) h =
      let (v, new_id, h1) = add_agents-inv r out a rest h in
      agents-add_agents (record r { by_id = insert a.id a r.by_id; agents = r.agents ++ a ∷ [] })
        out rest h1
      ∙ append_assoc r.agents (a ∷ []) rest

  -- A registry that loads holds the agents of the file, each of them valid, and finds by an id
  -- exactly the agent of the file that has it.
  pub new_lem :
      (f : File) (r : Registry)
      → new parse_rfc3339 f ≡ ok r
      → (r.agents ≡ f.agents) × All Valid f.agents × ((id : Text) → get r id ≡ find id f.agents)
  unfolding new get
  new_lem f r h =
      let (u, _, h1) = >>=-eq-ok (fail_if (not (eq_ℤ f.version (pos 1))) invalid_version) _ h in
      let (v, _, h2) = >>=-eq-ok (fail_if (is_nil f.agents) agents_required) _ h1 in
      let start : Registry = record { version = f.version; by_id = []; agents = [] } in
      (
        agents-add_agents start r f.agents h2,
        add_agents-Valid start r f.agents h2,
        λ id. unfold lookup in lookup-add_agents start r f.agents id h2,
      )

  All-find :
      (agents : List Agent) (id : Text) (a : Agent)
      → All Valid agents
      → find id agents ≡ some a
      → Valid a × (a.id ≡ id)
  All-find [] id a v h = cc
  All-find (b ∷ agents) id a (g, v) h = ground (arith, All-find agents id a v, text_eq_iff b.id id)

  check_window-times :
      (a : Agent) (s t : Option Time)
      → check_window parse_rfc3339 a s t ≡ ok tt
      → (s ≢ none) × (t ≢ none)
  unfolding check_window
  check_window-times a none t h = cc
  check_window-times a (some x) none h = cc
  check_window-times a (some x) (some y) h = (λ e. cc, λ e. cc)

  Valid-times :
      (a : Agent)
      → Valid a
      → (parse_time parse_rfc3339 a.created_at ≢ none) × (parse_time parse_rfc3339 a.expiry ≢ none)
  unfolding validate_agent
  Valid-times a h = ground (
    arith,
    check_window-times a (parse_time parse_rfc3339 a.created_at)
        (parse_time parse_rfc3339 a.expiry),
  )

  validate_at_of_Valid :
      (a : Agent) (now : Time) → Valid a → validate_at parse_rfc3339 a now ≢ err invalid_time
  unfolding validate_at parse_time
  validate_at_of_Valid a now h e = ground (arith, Valid-times a h)

  -- The validity times of an agent that a loaded registry finds are well formed: at no instant does
  -- the check of its window fail for a time that cannot be read.
  pub validate_at_of_new :
      (f : File) (r : Registry) (id : Text) (a : Agent) (now : Time)
      → new parse_rfc3339 f ≡ ok r
      → get r id ≡ some a
      → (a.id ≡ id) × (validate_at parse_rfc3339 a now ≢ err invalid_time)
  validate_at_of_new f r id a now h g =
      let (_, valid, finds) = new_lem f r h in
      let (v, same) = All-find f.agents id a valid (sym (finds id) ∙ g) in
      (same, validate_at_of_Valid a now v)
