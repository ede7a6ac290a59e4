-- ===== src/Sts/Reload/Atomic.antt =====
-- A reload of internal/sts/reload.go happens as a whole or not at all.
use agent_identity_plane.Prelude.{
  suc, ◌≡◌, ◌≢◌, refl, sym, ap, ◌∙◌, [], ◌∷◌, Option, none, some, Result, ok, err, >>=-eq-ok,
  ok-injective,
}
use agent_identity_plane.Prelude.Text.{Text}
use agent_identity_plane.Denylist.{Denied}
use agent_identity_plane.Registry.{Registry}
use agent_identity_plane.Token.Errors.{TokenError}
use agent_identity_plane.Token.Keys.{Primitives}
use agent_identity_plane.Token.Keyring.{Keyring}
use agent_identity_plane.Token.Keyring.Activation.{IsContinuous, allow_activation-IsContinuous}
use agent_identity_plane.Sts.Request.{Config}
use agent_identity_plane.Sts.Service.{install_identity, or_keep, may_activate}
use agent_identity_plane.Sts.Reload.{
  ReloadError, bad_registry, bad_signing, bad_denylist, Reloader, ReloadMetrics, Loaders, found,
  fetch, wrapped, install_some, load_and_install, concluded, reload,
}

-- What a fetch yields: nothing where no path is given, and otherwise what the loader returns.
abbrev pub IsFetched : {E A : Type 0} → (Text → Result E A) → Text → Option A → Type 0
IsFetched load path none = path ≡ []
IsFetched load path (some a) = (path ≢ []) × (load path ≡ ok a)

some-injective :
    {A : Type 0} (a b : A)
    → ◌≡◌ {A = Result ReloadError (Option A)} (ok (some a)) (ok (some b))
    → a ≡ b
some-injective a b h = cc

found-eq-ok :
    {E A : Type 0} (wrap : E → ReloadError) (load : Text → Result E A) (path : Text)
    (r : Result E A) (o : Option A)
    → load path ≡ r
    → path ≢ []
    → found wrap r ≡ ok o
    → IsFetched load path o
found-eq-ok wrap load path (ok a) none l n h = cc
found-eq-ok wrap load path (ok a) (some b) l n h = (n, l ∙ ap ok (some-injective a b h))
found-eq-ok wrap load path (err e) o l n h = cc

fetch-eq-ok :
    {E A : Type 0} (wrap : E → ReloadError) (load : Text → Result E A) (path : Text) (o : Option A)
    → fetch wrap load path ≡ ok o
    → IsFetched load path o
unfolding fetch
fetch-eq-ok wrap load [] none h = refl
fetch-eq-ok wrap load [] (some a) h = cc
fetch-eq-ok wrap load (b ∷ path) o h =
    found-eq-ok wrap load (b ∷ path) (load (b ∷ path)) o refl (λ e. cc) h

wrapped-eq-ok : {A : Type 0} (r : Result TokenError A) (a : A) → wrapped r ≡ ok a → r ≡ ok a
wrapped-eq-ok (ok b) a h = ap ok (ok-injective b a h)
wrapped-eq-ok (err e) a h = cc

module _ (std : Primitives) (files : Loaders) where
  -- The configuration with the given parts in place of its own.
  abbrev pub with_parts : Config → Option Registry → Option Keyring → Option Denied → Config
  with_parts c registry signer denylist = record c {
    live = record c.live {
      registry = or_keep std registry c.live.registry;
      signer = or_keep std signer c.live.signer;
      denylist = or_keep std denylist c.live.denylist;
    };
  }

  install_identity-eq-ok :
      (c c' : Config) (registry : Option Registry) (signer : Option Keyring)
      (denylist : Option Denied)
      → install_identity std c registry signer denylist ≡ ok c'
      → (may_activate std c.live signer ≡ ok tt) × (c' ≡ with_parts c registry signer denylist)
  unfolding install_identity
  install_identity-eq-ok c c' registry signer denylist h =
      let (u, m, h1) = >>=-eq-ok (may_activate std c.live signer) _ h in
      (m, sym (ok-injective (with_parts c registry signer denylist) c' h1))

  install_some-eq-ok :
      (c c' : Config) (registry : Option Registry) (signer : Option Keyring)
      (denylist : Option Denied)
      → install_some std files c registry signer denylist ≡ ok c'
      → (may_activate std c.live signer ≡ ok tt) × (c' ≡ with_parts c registry signer denylist)
  unfolding install_some
  install_some-eq-ok c c' none none none h = (refl, sym (ok-injective c c' h))
  install_some-eq-ok c c' (some r) signer denylist h =
      install_identity-eq-ok c c' (some r) signer denylist h
  install_some-eq-ok c c' none (some k) denylist h =
      install_identity-eq-ok c c' none (some k) denylist h
  install_some-eq-ok c c' none none (some d) h = install_identity-eq-ok c c' none none (some d) h

  -- Where a new ring is given, it may follow the old one.
  abbrev pub MayFollow : Option Keyring → Option Keyring → Type 0
  MayFollow prev none = Unit
  MayFollow prev (some k) = IsContinuous std prev (some k)

  may_activate-MayFollow :
      (c : Config) (signer : Option Keyring)
      → may_activate std c.live signer ≡ ok tt
      → MayFollow c.live.signer signer
  may_activate-MayFollow c none h = tt
  may_activate-MayFollow c (some k) h = allow_activation-IsContinuous std c.live.signer (some k) h

  -- The outcome of a reload: all that was loaded is live and nothing else has changed, or the
  -- configuration is the old one.
  abbrev pub IsAtomic :
      Reloader → Config → ReloadMetrics → Result ReloadError Unit × Config × ReloadMetrics → Type 0
  IsAtomic r c n (err e, c', n') =
      (c' ≡ c) × (n'.reload_fails ≡ suc n.reload_fails) × (n'.reloads ≡ n.reloads)
  IsAtomic r c n (ok u, c', n') =
      (registry : Option Registry) × (signer : Option Keyring) × (denylist : Option Denied)
      × IsFetched files.load_registry r.registry_path registry
      × IsFetched files.load_signing r.signing_path signer
      × IsFetched files.load_denylist r.denylist_path denylist
      × MayFollow c.live.signer signer
      × (c' ≡ with_parts c registry signer denylist)
      × (n'.reloads ≡ suc n.reloads)
      × (n'.reload_fails ≡ n.reload_fails)

  concluded-IsAtomic :
      (r : Reloader) (c : Config) (n : ReloadMetrics) (o : Result ReloadError Config)
      → load_and_install std files r c ≡ o
      → IsAtomic r c n (concluded std files c n o)
  unfolding load_and_install concluded
  concluded-IsAtomic r c n (err e) h = (refl, refl, refl)
  concluded-IsAtomic r c n (ok c') h =
      let (reg, a, h1) = >>=-eq-ok (fetch bad_registry files.load_registry r.registry_path) _ h in
      let (sig, b, h2) = >>=-eq-ok (fetch bad_signing files.load_signing r.signing_path) _ h1 in
      let (den, d, h3) = >>=-eq-ok (fetch bad_denylist files.load_denylist r.denylist_path) _ h2 in
      let (m, same) =
        install_some-eq-ok c c' reg sig den
          (wrapped-eq-ok (install_some std files c reg sig den) c' h3) in
      (
        reg,
        sig,
        den,
        fetch-eq-ok bad_registry files.load_registry r.registry_path reg a,
        fetch-eq-ok bad_signing files.load_signing r.signing_path sig b,
        fetch-eq-ok bad_denylist files.load_denylist r.denylist_path den d,
        may_activate-MayFollow c sig m,
        same,
        refl,
        refl,
      )

  -- A reload that fails leaves the configuration as it was. One that succeeds has loaded every file
  -- whose path is given, and has replaced exactly those parts; and a new keyring may follow the old
  -- one: its active key was published, if a ring was in use, and the keys that both name agree. Each
  -- outcome is counted.
  pub reload-IsAtomic :
      (r : Reloader) (c : Config) (n : ReloadMetrics)
      → IsAtomic r c n (reload std files (some r) c n)
  unfolding reload
  reload-IsAtomic r c n = concluded-IsAtomic r c n (load_and_install std files r c) refl
