-- ===== src/Denylist.antt =====
-- internal/denylist/denylist.go: the owned list of denied agents, workloads and principals.
-- `parse_url` is net/url's parser, of which the code reads the scheme and the host.
pub mod Index
pub mod Decisions
use agent_identity_plane.Prelude.{
  ℕ, Bool, true, false, not, ◌||◌, List, [], ◌∷◌, Option, none, some, ◌==◌, if◌then◌else◌, Result,
  ok, err, ◌>>=◌, ◌>>◌, fail_if, zero, suc,
}
use agent_identity_plane.Prelude.Int.{ℤ, pos, eq_ℤ}
use agent_identity_plane.Prelude.Text.{Text, is_empty, contains_text, codes}
use agent_identity_plane.Prelude.Fields.{space_width}
use agent_identity_plane.Prelude.Assoc.{Assoc, lookup, insert}
use agent_identity_plane.Jsonutil.{JsonError, trailing, trailing_after, message}

pub data Kind : Type 0 where
  agent workload principal : Kind

pub data DenylistError : Type 0 where
  invalid_version : DenylistError
  invalid_json trailing_json unknown_field : DenylistError
  empty_id : Kind → DenylistError
  not_uri : Kind → Text → DenylistError
  duplicate : Kind → Text → DenylistError
  path_required : DenylistError
  unreadable : DenylistError

pub data Reason : Type 0 where
  agent_denied workload_denied principal_denied : Reason

pub record File : Type 0 where
  pub version : ℤ
  pub agents : List Text
  pub workloads : List Text
  pub principals : List Text

-- `map[string]struct{}`
abbrev pub IdSet : Type 0
IdSet = Assoc (Unit {0})

pub record Denied : Type 0 where
  pub agents : IdSet
  pub workloads : IdSet
  pub principals : IdSet

pub record Url : Type 0 where
  pub scheme : Text
  pub host : Text

abbrev pub listed : Option (Unit {0}) → Bool
listed none = false
listed (some u) = true

-- Is there a space anywhere? A space begins at one of its bytes only.
unfoldable pub any_space : Text → Bool
unfolding space_width
any_space [] = false
any_space (b ∷ r) = not (space_width (b ∷ r) == 0) || any_space r

-- `identityID` fails.
unfoldable pub bad_identity_id : Text → Bool
unfolding any_space
bad_identity_id id = is_empty id || any_space id

unfoldable pub has : IdSet → Text → Bool
has m id = if is_empty id then false else listed (lookup id m)

unfoldable pub index_exact : IdSet → List Text → Kind → Result DenylistError IdSet
unfolding bad_identity_id
index_exact dst [] kind = ok dst
index_exact dst (id ∷ ids) kind =
    let rest = index_exact (insert id tt dst) ids kind in
    if bad_identity_id id
    then err (empty_id kind)
    else if listed (lookup id dst)
    then err (duplicate kind id)
    else rest

module _ (parse_url : Text → Option Url) where
  -- `identityURI` fails.
  unfoldable pub bad_identity_uri : Text → Bool
  bad_identity_uri id = elim (parse_url id) [
    | none ↦ true
    | some u ↦ is_empty u.scheme || is_empty u.host
  ]

  unfoldable pub index_uri : IdSet → List Text → Kind → Result DenylistError IdSet
  unfolding bad_identity_id bad_identity_uri
  index_uri dst [] kind = ok dst
  index_uri dst (id ∷ ids) kind =
      let rest = index_uri (insert id tt dst) ids kind in
      if bad_identity_id id
      then err (empty_id kind)
      else if bad_identity_uri id
      then err (not_uri kind id)
      else if listed (lookup id dst)
      then err (duplicate kind id)
      else rest

  -- `New`
  unfoldable pub new : File → Result DenylistError Denied
  unfolding index_uri index_exact
  new f = do
    fail_if (not (eq_ℤ f.version (pos 1))) invalid_version
    agents ← index_uri [] f.agents agent
    workloads ← index_uri [] f.workloads workload
    principals ← index_exact [] f.principals principal
    ok (record { agents = agents; workloads = workloads; principals = principals })

  abbrev json_error : JsonError → DenylistError
  json_error trailing = trailing_json
  json_error (trailing_after e) = trailing_json
  json_error (message e) =
      if contains_text e (codes "unknown field") then unknown_field else invalid_json

  -- `LoadJSON`, on what the strict decoder returns
  unfoldable pub load_json : Result JsonError File → Result DenylistError Denied
  unfolding new
  load_json (ok f) = new f
  load_json (err e) = err (json_error e)

  -- `LoadFile`: `read_file` is the file as it is at the time of the call.
  unfoldable pub load_file :
      (Text → Option Text) → (Text → Result JsonError File) → Text → Result DenylistError Denied
  unfolding load_json
  load_file read_file decode path = elim (read_file path) [
    | none ↦ err unreadable
    | some raw ↦ load_json (decode raw)
  ]

  -- `Live`: what it returns loads the path again at each call.
  unfoldable pub live :
      (Text → Option Text)
      → (Text → Result JsonError File)
      → Text
      → Result DenylistError ((Text → Option Text) → Result DenylistError Denied)
  unfolding load_file
  live read_file decode path = do
    fail_if (is_empty path) path_required
    load_file read_file decode path
    ok (λ read_now. load_file read_now decode path)

-- A nil list denies nothing.
unfoldable pub has_agent : Option Denied → Text → Bool
unfolding has
has_agent none id = false
has_agent (some d) id = has d.agents id

unfoldable pub has_workload : Option Denied → Text → Bool
unfolding has
has_workload none id = false
has_workload (some d) id = has d.workloads id

unfoldable pub has_principal : Option Denied → Text → Bool
unfolding has
has_principal none id = false
has_principal (some d) id = has d.principals id

-- `DenyExchange`; `none` is Go's empty reason.
unfoldable pub deny_exchange : Option Denied → Text → Text → Text → Option Reason
unfolding has_agent has_workload has_principal
deny_exchange none agent_id wl who = none
deny_exchange (some d) agent_id wl who =
    if has_agent (some d) agent_id
    then some agent_denied
    else if has_workload (some d) wl
    then some workload_denied
    else if has_principal (some d) who
    then some principal_denied
    else none

-- The loop of `DenyChain` from the position `i` on.
unfoldable pub deny_hops : Denied → ℕ → List Text → Option Reason
unfolding has_agent
deny_hops d i [] = none
deny_hops d i (h ∷ hops) =
    let rest = deny_hops d (suc i) hops in
    if is_empty h || i == 0 then rest else if has_agent (some d) h then some agent_denied else rest

unfoldable pub deny_chain : Option Denied → Text → Text → List Text → Option Reason
unfolding has_agent has_principal deny_hops
deny_chain none who acting hops = none
deny_chain (some d) who acting hops =
    if has_principal (some d) who
    then some principal_denied
    else if has_agent (some d) acting
    then some agent_denied
    else deny_hops d 0 hops
