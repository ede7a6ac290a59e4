-- ===== src/Token/Scope.antt =====
-- internal/token/claims.go: scope sets. A Go set is a list of texts; the code reads only membership.
pub mod Sets
pub mod Sorting
pub mod Printing
use agent_identity_plane.Prelude.{Bool, true, false, ◌&&◌, List, [], ◌∷◌, if◌then◌else◌}
use agent_identity_plane.Prelude.Text.{Text, text_eq, text_lt}
use agent_identity_plane.Prelude.Fields.{fields, join_words}

abbrev pub ScopeNames : Type 0
ScopeNames = List Text

-- `_, ok := set[s]`
unfoldable pub has : ScopeNames → Text → Bool
has [] t = false
has (s ∷ set) t = if text_eq s t then true else has set t

-- `out[p] = struct{}{}`
unfoldable pub add : ScopeNames → Text → ScopeNames
add [] t = t ∷ []
add (s ∷ set) t = if text_eq s t then s ∷ set else s ∷ add set t

unfoldable pub add_all : ScopeNames → List Text → ScopeNames
add_all out [] = out
add_all out (p ∷ ps) = add_all (add out p) ps

unfoldable pub scope_set : Text → ScopeNames
unfolding add_all
scope_set scope = add_all [] (fields scope)

-- The inner loop of `sortStrings`: the new text moves left past every greater one. The sorted part
-- is held last element first.
unfoldable pub sink : Text → List Text → List Text
sink x [] = x ∷ []
sink x (y ∷ sorted) = let moved = sink x sorted in if text_lt x y then y ∷ moved else x ∷ y ∷ sorted

unfoldable pub sink_all : List Text → List Text → List Text
sink_all sorted [] = sorted
sink_all sorted (x ∷ rest) = sink_all (sink x sorted) rest

unfoldable pub reverse_onto : List Text → List Text → List Text
reverse_onto out [] = out
reverse_onto out (x ∷ xs) = reverse_onto (x ∷ out) xs

unfoldable pub sort_strings : List Text → List Text
unfolding sink_all reverse_onto
sort_strings s = reverse_onto [] (sink_all [] s)

unfoldable pub join_scopes : ScopeNames → Text
unfolding sort_strings
join_scopes set = join_words (sort_strings set)

-- Is every text of the first set in the second?
unfoldable pub subset : ScopeNames → ScopeNames → Bool
subset [] set = true
subset (s ∷ want) set = has set s && subset want set

unfoldable pub intersect : ScopeNames → ScopeNames → ScopeNames
intersect [] b = []
intersect (s ∷ a) b = let rest = intersect a b in if has b s then s ∷ rest else rest

unfoldable pub copy_set : ScopeNames → ScopeNames
unfolding add_all
copy_set set = add_all [] set
