-- ===== src/VisorSession/Launch.antt =====
-- The command that visor is started with, and its environment (internal/visorsession/session.go).
use mathlib.Core.Path.{subst}
use agent_identity_plane.Prelude.{
  ◌≡◌, ◌↔◌, ◌⊎◌, inl, inr, sym, ◌∙◌, true, Bool, ◌||◌, ◌==◌, ==_iff, ◌++◌, In, Bool-cases, arith,
  refl, false, List, [], ◌∷◌, ok, fail_if, fail_if-eq-ok, >>=-eq-ok, All, ok-injective, ap,
}
use agent_identity_plane.Prelude.Text.{Text, codes, text_eq, text_eq_iff}
use agent_identity_plane.Prelude.Fields.{is_blank}
use agent_identity_plane.Token.Claims.{contains}
use agent_identity_plane.Visor.{Mapping, complete}
use agent_identity_plane.Visor
use agent_identity_plane.VisorSession.{
  identity_args, visor_bin_required, identity_flags, cut_name, reject_identity_args, or_incomplete,
  command,
}
use agent_identity_plane.VisorSession.Agreement.{or_incomplete-eq-ok}

-- The flags that set an identity, without their dashes.
abbrev pub identity_names : List Text
identity_names =
    codes "client-id"
    ∷ codes "session-id"
    ∷ codes "verified-actor-fd"
    ∷ codes "verified-actor-file"
    ∷ codes "verified-actor"
    ∷ []

-- The argument is the flag, or the flag, `=` and a value.
abbrev pub IsFlag : Text → Text → Type 0
IsFlag flag a = (a ≡ flag) ⊎ ((value : Text) × (a ≡ flag ++ 61 ∷ value))

-- The argument sets no identity flag, with one dash or with two.
abbrev pub IsPlain : Text → Type 0
IsPlain a =
    All (λ name. ¬ (IsFlag (codes "-" ++ name) a ⊎ IsFlag (codes "--" ++ name) a)) identity_names

All-of_In : (P : Text → Type 0) (l : List Text) → ((x : Text) → In x l → P x) → All P l
All-of_In P [] h = tt
All-of_In P (x ∷ l) h = (h x (inl refl), All-of_In P l (λ y i. h y (inr i)))

All-In : (P : Text → Type 0) (l : List Text) (x : Text) → All P l → In x l → P x
All-In P [] x h i = absurd i
All-In P (y ∷ l) x (p, h) (inl e) = subst P (sym e) p
All-In P (y ∷ l) x (p, h) (inr i) = All-In P l x h i

-- The argument is one of the two spellings of the flag.
abbrev Spelled : Text → Text → Type 0
Spelled a name = IsFlag (codes "-" ++ name) a ⊎ IsFlag (codes "--" ++ name) a

-- No byte is `=`.
abbrev NoEquals : Text → Type 0
NoEquals t = All (λ b. (b == 61) ≡ false) t

-- The name before `=` is the flag exactly where the argument is the flag.
cut_name-IsFlag : (a flag : Text) → (cut_name a).0 ≡ flag → IsFlag flag a
unfolding cut_name
cut_name-IsFlag [] flag h = inl h
cut_name-IsFlag (b ∷ a) flag h = elim (Bool-cases (b == 61)) [
  | inl equals ↦ inr (a, rw ((==_iff b 61).0 equals) (ap (λ t. t ++ 61 ∷ a) (rw equals at h)))
  | inr other ↦ prefixed (cut_name-IsFlag a (cut_name a).0 refl) (rw other at h)
]
  where
    prefixed : IsFlag (cut_name a).0 a → b ∷ (cut_name a).0 ≡ flag → IsFlag flag (b ∷ a)
    prefixed (inl e) h = inl (ap (λ t. b ∷ t) e ∙ h)
    prefixed (inr (value, e)) h = inr (value, ap (λ t. b ∷ t) e ∙ ap (λ t. t ++ 61 ∷ value) h)

cut_name_of_plain : (flag : Text) → NoEquals flag → (cut_name flag).0 ≡ flag
unfolding cut_name
cut_name_of_plain [] h = refl
cut_name_of_plain (b ∷ flag) (e, h) = rw e (ap (λ t. b ∷ t) (cut_name_of_plain flag h))

cut_name_of_value : (flag value : Text) → NoEquals flag → (cut_name (flag ++ 61 ∷ value)).0 ≡ flag
unfolding cut_name
cut_name_of_value [] value h = refl
cut_name_of_value (b ∷ flag) value (e, h) = rw e (ap (λ t. b ∷ t) (cut_name_of_value flag value h))

IsFlag-cut_name : (a flag : Text) → NoEquals flag → IsFlag flag a → (cut_name a).0 ≡ flag
IsFlag-cut_name a flag h (inl e) = ap (λ t. (cut_name t).0) e ∙ cut_name_of_plain flag h
IsFlag-cut_name a flag h (inr (value, e)) =
    ap (λ t. (cut_name t).0) e ∙ cut_name_of_value flag value h

contains-In : (l : List Text) (x : Text) → contains l x ≡ true → In x l
unfolding contains
contains-In [] x h = cc
contains-In (y ∷ l) x h = elim (Bool-cases (text_eq y x)) [
  | inl same ↦ inl (sym ((text_eq_iff y x).0 same))
  | inr other ↦ inr (contains-In l x (rw other at h))
]

In-contains : (l : List Text) (x : Text) → In x l → contains l x ≡ true
unfolding contains
In-contains [] x i = absurd i
In-contains (y ∷ l) x (inl e) = rw ((text_eq_iff y x).1 (sym e)) refl
In-contains (y ∷ l) x (inr i) = rw (In-contains l x i) (or_true (text_eq y x))
  where
    or_true : (b : Bool) → (b || true) ≡ true
    or_true b = ground arith

-- Every flag of the code is a name with one dash or with two, and has no `=`.
flag_of_name :
    (flag : Text)
    → In flag identity_flags
    → (name : Text) × In name identity_names
      × ((flag ≡ codes "-" ++ name) ⊎ (flag ≡ codes "--" ++ name))
flag_of_name flag (inl e) = (codes "client-id", inl refl, inl e)
flag_of_name flag (inr (inl e)) = (codes "client-id", inl refl, inr e)
flag_of_name flag (inr (inr (inl e))) = (codes "session-id", inr (inl refl), inl e)
flag_of_name flag (inr (inr (inr (inl e)))) = (codes "session-id", inr (inl refl), inr e)
flag_of_name flag (inr (inr (inr (inr (inl e))))) =
    (codes "verified-actor-fd", inr (inr (inl refl)), inl e)
flag_of_name flag (inr (inr (inr (inr (inr (inl e)))))) =
    (codes "verified-actor-fd", inr (inr (inl refl)), inr e)
flag_of_name flag (inr (inr (inr (inr (inr (inr (inl e))))))) =
    (codes "verified-actor-file", inr (inr (inr (inl refl))), inl e)
flag_of_name flag (inr (inr (inr (inr (inr (inr (inr (inl e)))))))) =
    (codes "verified-actor-file", inr (inr (inr (inl refl))), inr e)
flag_of_name flag (inr (inr (inr (inr (inr (inr (inr (inr (inl e))))))))) =
    (codes "verified-actor", inr (inr (inr (inr (inl refl)))), inl e)
flag_of_name flag (inr (inr (inr (inr (inr (inr (inr (inr (inr (inl e)))))))))) =
    (codes "verified-actor", inr (inr (inr (inr (inl refl)))), inr e)
flag_of_name flag (inr (inr (inr (inr (inr (inr (inr (inr (inr (inr i)))))))))) = absurd i

-- Both spellings of a name are flags of the code, and have no `=`.
abbrev IsBoth : Text → Type 0
IsBoth name =
    (contains identity_flags (codes "-" ++ name) ≡ true)
    × (contains identity_flags (codes "--" ++ name) ≡ true)
    × NoEquals name

names_are_flags : (name : Text) → In name identity_names → IsBoth name
unfolding contains text_eq
names_are_flags name (inl e) = rw e (refl, refl, ground arith)
names_are_flags name (inr (inl e)) = rw e (refl, refl, ground arith)
names_are_flags name (inr (inr (inl e))) = rw e (refl, refl, ground arith)
names_are_flags name (inr (inr (inr (inl e)))) = rw e (refl, refl, ground arith)
names_are_flags name (inr (inr (inr (inr (inl e))))) = rw e (refl, refl, ground arith)
names_are_flags name (inr (inr (inr (inr (inr i))))) = absurd i

passed-IsPlain : (a : Text) → contains identity_flags (cut_name a).0 ≡ false → IsPlain a
passed-IsPlain a h = All-of_In (λ name. ¬ Spelled a name) identity_names unspelled
  where
    refuse : (flag : Text) → (cut_name a).0 ≡ flag → contains identity_flags flag ≡ true → ⊥
    refuse flag e listed = ground (arith, h, ap (contains identity_flags) e ∙ listed)

    unspelled : (name : Text) → In name identity_names → ¬ Spelled a name
    unspelled name i (inl f) =
        let (one, two, plain) = names_are_flags name i in
        refuse (codes "-" ++ name) (IsFlag-cut_name a (codes "-" ++ name) (refl, plain) f) one
    unspelled name i (inr f) =
        let (one, two, plain) = names_are_flags name i in
        refuse (codes "--" ++ name) (IsFlag-cut_name a (codes "--" ++ name) (refl, (refl, plain)) f)
          two

IsPlain-passed : (a : Text) → IsPlain a → contains identity_flags (cut_name a).0 ≡ false
IsPlain-passed a plain = elim (Bool-cases (contains identity_flags (cut_name a).0)) [
  | inr fine ↦ fine
  | inl flagged ↦
      let (name, i, spelled) =
        flag_of_name (cut_name a).0 (contains-In identity_flags (cut_name a).0 flagged) in
      absurd (
        All-In (λ n. ¬ Spelled a n) identity_names name plain i
          (elim spelled [
            | inl e ↦ inl (cut_name-IsFlag a (codes "-" ++ name) e)
            | inr e ↦ inr (cut_name-IsFlag a (codes "--" ++ name) e)
          ]))
]

-- The arguments that the mapping alone determines, before those that the caller adds.
abbrev pub serve_args : Mapping → List Text → List Text
serve_args m extra =
    codes "serve"
    ∷ codes "-client-id"
    ∷ m.client_id
    ∷ codes "-session-id"
    ∷ m.session_id
    ∷ codes "-verified-actor-fd"
    ∷ codes "3"
    ∷ extra

passes-All : (args : List Text) → reject_identity_args args ≡ ok tt → All IsPlain args
unfolding reject_identity_args
passes-All [] h = tt
passes-All (a ∷ args) h =
    let (_, plain, rest) =
      >>=-eq-ok (fail_if (contains identity_flags (cut_name a).0) identity_args) _ h in
    (
      passed-IsPlain a (fail_if-eq-ok (contains identity_flags (cut_name a).0) identity_args plain),
      passes-All args rest,
    )

All-passes : (args : List Text) → All IsPlain args → reject_identity_args args ≡ ok tt
unfolding reject_identity_args
All-passes [] h = refl
All-passes (a ∷ args) (plain, rest) = rw (IsPlain-passed a plain, All-passes args rest) refl

module _ (actors : agent_identity_plane.Visor.Codec) where
  abbrev pub IsLaunch : Text → Mapping → List Text → Text × List Text → Type 0
  IsLaunch bin m extra out =
      (is_blank bin ≡ false)
      × (complete actors m ≡ ok tt)
      × All IsPlain extra
      × ((bin, serve_args m extra) ≡ out)

  command-IsLaunch :
      (bin : Text) (m : Mapping) (extra : List Text) (out : Text × List Text)
      → command actors bin m extra ≡ ok out
      → IsLaunch bin m extra out
  unfolding command
  command-IsLaunch bin m extra out h =
      let (_, named, e1) = >>=-eq-ok (fail_if (is_blank bin) visor_bin_required) _ h in
      let (_, whole, e2) = >>=-eq-ok (or_incomplete (complete actors m)) _ e1 in
      let (_, plain, e3) = >>=-eq-ok (reject_identity_args extra) _ e2 in
      (
        fail_if-eq-ok (is_blank bin) visor_bin_required named,
        or_incomplete-eq-ok (complete actors m) whole,
        passes-All extra plain,
        ok-injective (bin, serve_args m extra) out e3,
      )

  IsLaunch-command :
      (bin : Text) (m : Mapping) (extra : List Text) (out : Text × List Text)
      → IsLaunch bin m extra out
      → command actors bin m extra ≡ ok out
  unfolding command
  IsLaunch-command bin m extra out (named, whole, plain, same) =
      rw (named, whole, All-passes extra plain) (ap ok same)

  -- Visor is started exactly where the program's name is not blank, the mapping is complete and no
  -- argument that the caller adds is one of the five flags of an identity (`client-id`, `session-id`,
  -- `verified-actor-fd`, `verified-actor-file`, `verified-actor`), with one dash or with two, alone or
  -- with `=` and a value after it; its arguments are then `serve`, the mapping's client and session, descriptor 3 for
  -- the verified actor, and the caller's.
  pub command_iff :
      (bin : Text) (m : Mapping) (extra : List Text) (out : Text × List Text)
      → (command actors bin m extra ≡ ok out) ↔ IsLaunch bin m extra out
  command_iff bin m extra out = (command-IsLaunch bin m extra out, IsLaunch-command bin m extra out)
