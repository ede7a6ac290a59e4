-- ===== src/Registry.antt =====
-- internal/registry/registry.go: the validated registry of agents. `parse_time` is `time.Parse` with
-- the RFC 3339 layout.
pub mod Loading
pub mod Authorization
use agent_identity_plane.Prelude.{
  Bool, true, false, not, ◌&&◌, ◌||◌, List, [], ◌∷◌, ◌++◌, Option, none, some, if◌then◌else◌,
  Result, ok, err, ◌>>=◌, ◌>>◌, fail_if,
}
use agent_identity_plane.Prelude.Int.{ℤ, pos, eq_ℤ, ltb_ℤ}
use agent_identity_plane.Prelude.Text.{Text, text_eq, is_empty, contains_text, codes}
use agent_identity_plane.Prelude.Fields.{is_blank}
use agent_identity_plane.Prelude.Assoc.{Assoc, lookup, insert}
use agent_identity_plane.Clock.{Time, before, after, is_zero, zero_time}
use agent_identity_plane.Jsonutil.{JsonError, trailing, trailing_after, message}

pub data RegistryError : Type 0 where
  unknown_field invalid_json trailing_json unreadable : RegistryError
  invalid_version agents_required : RegistryError
  not_uri no_workloads empty_workload no_audiences : Text → RegistryError
  invalid_time : RegistryError
  duplicate_agent : Text → RegistryError
  empty_id : RegistryError
  bad_max_depth inverted_window : Text → RegistryError
  agent_not_found not_authorized audience_not_allowed not_yet_valid expired : RegistryError

pub record Agent : Type 0 where
  pub id : Text
  pub workloads : List Text
  pub audiences : List Text
  pub max_scopes : List Text
  pub max_depth : ℤ
  pub created_at : Text
  pub expiry : Text

pub record File : Type 0 where
  pub version : ℤ
  pub agents : List Agent

pub record Registry : Type 0 where
  pub version : ℤ
  pub by_id : Assoc Agent
  pub agents : List Agent

unfoldable pub any_blank : List Text → Bool
any_blank [] = false
any_blank (w ∷ ws) = if is_blank w then true else any_blank ws

unfoldable pub contains : List Text → Text → Bool
contains [] v = false
contains (s ∷ ss) v = if text_eq s v then true else contains ss v

abbrev is_nil {ℓ} : {A : Type ℓ} → List A → Bool
is_nil [] = true
is_nil (x ∷ xs) = false

unfoldable pub get : Registry → Text → Option Agent
get r id = lookup id r.by_id

-- The first half of `ValidateAt`: the text, what it parses as, and the instant.
unfoldable pub not_before_created : Text → Option Time → Time → Result RegistryError Unit
not_before_created [] o now = ok tt
not_before_created (b ∷ s) none now = err invalid_time
not_before_created (b ∷ s) (some t) now = fail_if (before now t) not_yet_valid

-- The second half.
unfoldable pub before_expiry : Text → Option Time → Time → Result RegistryError Unit
before_expiry [] o now = ok tt
before_expiry (b ∷ s) none now = err invalid_time
before_expiry (b ∷ s) (some t) now = fail_if (not (before now t)) expired

abbrev listed : Option Agent → Bool
listed none = false
listed (some a) = true

module _ (parse_rfc3339 : Text → Option Time) where
  -- `parseTime`
  unfoldable pub parse_time : Text → Option Time
  parse_time s = if is_empty s then some zero_time else parse_rfc3339 s

  unfoldable pub check_window : Agent → Option Time → Option Time → Result RegistryError Unit
  check_window a none exp = err invalid_time
  check_window a (some created) none = err invalid_time
  check_window a (some created) (some exp) =
      fail_if (not (is_zero created) && not (is_zero exp) && not (after exp created))
        (inverted_window a.id)

  unfoldable pub validate_agent : Agent → Result RegistryError Unit
  unfolding any_blank parse_time check_window
  validate_agent a = do
    fail_if (is_blank a.id) empty_id
    fail_if (not (contains_text a.id (codes "://"))) (not_uri a.id)
    fail_if (ltb_ℤ a.max_depth (pos 1)) (bad_max_depth a.id)
    fail_if (is_nil a.workloads) (no_workloads a.id)
    fail_if (any_blank a.workloads) (empty_workload a.id)
    fail_if (is_nil a.audiences) (no_audiences a.id)
    check_window a (parse_time a.created_at) (parse_time a.expiry)

  -- The loop of `New`.
  unfoldable pub add_agents : Registry → List Agent → Result RegistryError Registry
  unfolding validate_agent
  add_agents r [] = ok r
  add_agents r (a ∷ rest) =
      let later =
        add_agents (record r { by_id = insert a.id a r.by_id; agents = r.agents ++ a ∷ [] }) rest in
      do validate_agent a; fail_if (listed (lookup a.id r.by_id)) (duplicate_agent a.id); later

  unfoldable pub new : File → Result RegistryError Registry
  unfolding add_agents
  new f = do
    fail_if (not (eq_ℤ f.version (pos 1))) invalid_version
    fail_if (is_nil f.agents) agents_required
    add_agents (record { version = f.version; by_id = []; agents = [] }) f.agents

  abbrev json_error : JsonError → RegistryError
  json_error trailing = trailing_json
  json_error (trailing_after e) = trailing_json
  json_error (message e) =
      if contains_text e (codes "unknown field") then unknown_field else invalid_json

  unfoldable pub load_json : Result JsonError File → Result RegistryError Registry
  unfolding new
  load_json (ok f) = new f
  load_json (err e) = err (json_error e)

  unfoldable pub load_file :
      (Text → Option Text) → (Text → Result JsonError File) → Text → Result RegistryError Registry
  unfolding load_json
  load_file read_file decode path = elim (read_file path) [
    | none ↦ err unreadable
    | some raw ↦ load_json (decode raw)
  ]

  -- `Lint` returns the error, if there is one.
  unfoldable pub lint : Result JsonError File → List RegistryError
  unfolding load_json
  lint doc = elim (load_json doc) [ ok r ↦ [] | err e ↦ e ∷ [] ]

  unfoldable pub validate_at : Agent → Time → Result RegistryError Unit
  unfolding not_before_created before_expiry
  validate_at a now = do
    not_before_created a.created_at (parse_rfc3339 a.created_at) now
    before_expiry a.expiry (parse_rfc3339 a.expiry) now

  unfoldable pub authorize_agent : Option Agent → Text → Text → Time → Result RegistryError Agent
  unfolding validate_at contains
  authorize_agent none workload audience now = err agent_not_found
  authorize_agent (some a) workload audience now = do
    validate_at a now
    fail_if (not (contains a.workloads workload)) not_authorized
    fail_if (not (is_empty audience) && not (contains a.audiences audience)) audience_not_allowed
    ok a

  -- `Authorize`
  unfoldable pub authorize : Registry → Text → Text → Text → Time → Result RegistryError Agent
  unfolding authorize_agent
  authorize r agent_id workload audience now =
      authorize_agent (lookup agent_id r.by_id) workload audience now
