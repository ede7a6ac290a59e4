-- ===== src/Token/Scope/Printing.antt =====
-- `ScopeSet` of internal/token/claims.go reads the set that `JoinScopes` has printed.
use agent_identity_plane.Prelude.{◌≡◌, ap, ◌∙◌, All}
use agent_identity_plane.Prelude.Text.{Text}
use agent_identity_plane.Prelude.Fields.{join_words}
use agent_identity_plane.Prelude.Words.{IsWord, fields-join_words}
use agent_identity_plane.Token.Scope.{ScopeNames, has, scope_set, join_scopes, sort_strings}
use agent_identity_plane.Token.Scope.Sets.{has-scope_set}
use agent_identity_plane.Token.Scope.Sorting.{
  has-sort_strings, All-sort_strings, IsDistinct, sort_strings-ext,
}

-- The scope set of a printed set of words has the elements of the set.
pub has-scope_set-join_scopes :
    (set : ScopeNames) (t : Text) → All IsWord set → has (scope_set (join_scopes set)) t ≡ has set t
unfolding join_scopes
has-scope_set-join_scopes set t h =
    has-scope_set (join_scopes set) t
    ∙ ap (λ l. has l t) (fields-join_words (sort_strings set) (All-sort_strings IsWord set h))
    ∙ has-sort_strings set t

-- The printed scope does not depend on the order in which Go reads the map: two sets with the same
-- elements, each once, are printed alike.
pub join_scopes-ext :
    (s t : ScopeNames)
    → IsDistinct s
    → IsDistinct t
    → ((x : Text) → has s x ≡ has t x)
    → join_scopes s ≡ join_scopes t
unfolding join_scopes
join_scopes-ext s t d e h = ap join_words (sort_strings-ext s t d e h)
