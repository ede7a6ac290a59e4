-- ===== src/Examples/Scopes.antt =====
-- Instances for the scopes of internal/token/claims.go and internal/sts/sts.go.
use agent_identity_plane.Prelude.{◌≡◌, refl, [], ◌∷◌, none, some, arith, All}
use agent_identity_plane.Prelude.Text.{Text, codes, text_eq, text_lt}
use agent_identity_plane.Prelude.Fields.{space_width, fields, is_blank, join_words}
use agent_identity_plane.Prelude.Words.{IsWord}
use agent_identity_plane.Token.Scope.{
  ScopeNames, has, scope_set, join_scopes, add, intersect, sink, subset,
}
use agent_identity_plane.Token.Scope.Printing.{has-scope_set-join_scopes}
use agent_identity_plane.Token.Scope.Sorting.{IsDistinct}
use agent_identity_plane.Sts.Exchange.{narrow_scope}
use agent_identity_plane.Sts.Exchange.Scopes.{narrow_scope_exact, wanted, Within}

abbrev write_read : ScopeNames
write_read = codes "write" ∷ codes "read" ∷ []

abbrev read_write : ScopeNames
read_write = codes "read" ∷ codes "write" ∷ []

write_read-IsWord : All IsWord write_read
unfolding space_width
write_read-IsWord = (
  (λ e. cc, (refl, (refl, (refl, (refl, (refl, tt)))))),
  ((λ e. cc, (refl, (refl, (refl, (refl, tt))))), tt),
)

has-scope_set-join_scopes_example :
    has (scope_set (join_scopes write_read)) (codes "read") ≡ has write_read (codes "read")
has-scope_set-join_scopes_example =
    has-scope_set-join_scopes write_read (codes "read") write_read-IsWord

same_elements : (x : Text) → has write_read x ≡ has read_write x
unfolding has
same_elements x = ground arith

IsDistinct-1 : IsDistinct write_read
unfolding has text_eq
IsDistinct-1 = (refl, (refl, tt))

IsDistinct-2 : IsDistinct read_write
unfolding has text_eq
IsDistinct-2 = (refl, (refl, tt))

sorted_test : join_scopes write_read ≡ codes "read write"
unfolding join_scopes join_words sink text_lt
sorted_test = refl

narrowed :
    narrow_scope (codes "read") (codes "write read") (codes "read" ∷ codes "admin" ∷ [])
    ≡ some (codes "read")
unfolding narrow_scope scope_set is_blank subset fields add has intersect join_words text_eq
    join_scopes sink
narrowed = refl

widened :
    narrow_scope (codes "admin") (codes "write read") (codes "read" ∷ codes "admin" ∷ []) ≡ none
unfolding narrow_scope scope_set is_blank subset fields add has intersect join_words text_eq
widened = refl

narrow_scope_exact_example :
    ((t : Text)
      → has (scope_set (codes "read")) t
        ≡ has (wanted (codes "read") (codes "write read") (codes "read" ∷ codes "admin" ∷ [])) t)
    × Within (scope_set (codes "read")) (codes "write read") (codes "read" ∷ codes "admin" ∷ [])
narrow_scope_exact_example =
    narrow_scope_exact (codes "read") (codes "write read") (codes "read" ∷ codes "admin" ∷ [])
      (codes "read") narrowed
