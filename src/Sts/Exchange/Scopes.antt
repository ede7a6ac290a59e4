-- ===== src/Sts/Exchange/Scopes.antt =====
-- The scope that `narrowScope` of internal/sts/sts.go gives to a new token.
use agent_identity_plane.Prelude.{
  ◌≡◌, refl, ◌∙◌, sym, ◌⊎◌, inl, inr, true, ◌&&◌, some, List, [], ◌∷◌, arith, if◌then◌else◌,
  Bool-cases, All,
}
use agent_identity_plane.Prelude.Text.{Text, is_empty}
use agent_identity_plane.Prelude.Fields.{is_blank, join_words}
use agent_identity_plane.Prelude.Words.{IsWord}
use agent_identity_plane.Token.Scope.{ScopeNames, has, scope_set, join_scopes, subset, copy_set}
use agent_identity_plane.Token.Scope.Sets.{
  has-copy_set, has-intersect, subset_iff, Included, scope_set-IsWord, copy_set-IsWord,
  All-intersect,
}
use agent_identity_plane.Token.Scope.Printing.{has-scope_set-join_scopes}
use agent_identity_plane.Sts.Exchange.{ceiling, narrow_scope}

ceiling-IsWord : (incoming : Text) (max : List Text) → All IsWord (ceiling incoming max)
unfolding ceiling
ceiling-IsWord [] max = scope_set-IsWord (join_words max)
ceiling-IsWord (b ∷ incoming) max =
    All-intersect IsWord (scope_set (join_words max)) (scope_set (b ∷ incoming))
      (scope_set-IsWord (join_words max))

-- Membership in the ceiling: a scope of the agent, and of the incoming token where that has a scope.
pub has-ceiling :
    (incoming : Text) (max : List Text) (t : Text)
    → has (ceiling incoming max) t ≡ (
        has (scope_set (join_words max)) t
        && (if is_empty incoming then true else has (scope_set incoming) t))
unfolding ceiling
has-ceiling [] max t = ground arith
has-ceiling (b ∷ incoming) max t =
    has-intersect (scope_set (join_words max)) (scope_set (b ∷ incoming)) t

-- The scope that is asked for: all that may be had, if none is named.
abbrev pub wanted : Text → Text → List Text → ScopeNames
wanted requested incoming max =
    if is_blank requested then ceiling incoming max else scope_set requested

narrow_scope-wanted :
    (requested incoming : Text) (max : List Text) (s : Text)
    → narrow_scope requested incoming max ≡ some s
    → ((t : Text) → has (scope_set s) t ≡ has (wanted requested incoming max) t)
      × Included (scope_set s) (ceiling incoming max)
unfolding narrow_scope
narrow_scope-wanted requested incoming max s h = elim (Bool-cases (is_blank requested)) [
  | inl blank ↦ rw blank (
      let same : (t : Text) → has (scope_set s) t ≡ has (ceiling incoming max) t = λ t.
        let q : join_scopes (copy_set (ceiling incoming max)) ≡ s = ground (arith, h, blank) in
        rw (sym q) (
          has-scope_set-join_scopes (copy_set (ceiling incoming max)) t
            (copy_set-IsWord (ceiling incoming max) (ceiling-IsWord incoming max))
          ∙ has-copy_set (ceiling incoming max) t) in
      (same, λ t k. sym (same t) ∙ k))
  | inr named ↦ rw named (elim (Bool-cases (subset (scope_set requested) (ceiling incoming max))) [
    | inl fits ↦
        let q : join_scopes (scope_set requested) ≡ s = ground (arith, h, named, fits) in
        let same : (t : Text) → has (scope_set s) t ≡ has (scope_set requested) t = λ t.
          rw (sym q)
            (has-scope_set-join_scopes (scope_set requested) t (scope_set-IsWord requested)) in
        (
          same,
          λ t k.
              (subset_iff (scope_set requested) (ceiling incoming max)).0 fits t (sym (same t) ∙ k),
        )
    | inr wide ↦ absurd (ground (arith, h, named, wide))
  ])
]

-- Every scope of the set is one of the agent's, and one of the incoming token's where that has any.
abbrev pub Within : ScopeNames → Text → List Text → Type 0
Within set incoming max =
    Included set (scope_set (join_words max))
    × ((incoming ≡ []) ⊎ Included set (scope_set incoming))

Within-of_ceiling :
    (set : ScopeNames) (incoming : Text) (max : List Text)
    → Included set (ceiling incoming max)
    → Within set incoming max
Within-of_ceiling set [] max h =
    (λ t k. let c = has-ceiling [] max t in ground (arith, h t k, c), inl refl)
Within-of_ceiling set (b ∷ incoming) max h = (
  λ t k. let c = has-ceiling (b ∷ incoming) max t in ground (arith, h t k, c),
  inr (λ t k. let c = has-ceiling (b ∷ incoming) max t in ground (arith, h t k, c)),
)

-- A narrowed scope has exactly the scopes of the request, or of the ceiling where the request names
-- none; and each of them is one of the agent's scopes, and one of the incoming token's where that has
-- a scope.
pub narrow_scope_exact :
    (requested incoming : Text) (max : List Text) (s : Text)
    → narrow_scope requested incoming max ≡ some s
    → ((t : Text) → has (scope_set s) t ≡ has (wanted requested incoming max) t)
      × Within (scope_set s) incoming max
narrow_scope_exact requested incoming max s h =
    let (same, le) = narrow_scope-wanted requested incoming max s h in
    (same, Within-of_ceiling (scope_set s) incoming max le)
