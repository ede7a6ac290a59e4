-- ===== src/Sts/Reload.antt =====
-- internal/sts/reload.go: the replacement of the live registry, keyring and denylist from files. The
-- loaders stand for what they make of the files at the time of the call.
pub mod Atomic
use agent_identity_plane.Prelude.{
  ℕ, suc, Bool, true, false, Option, none, some, if◌then◌else◌, Result, ok, err, ◌>>=◌,
}
use agent_identity_plane.Prelude.Text.{Text, is_empty}
use agent_identity_plane.Denylist.{Denied, DenylistError}
use agent_identity_plane.Registry.{Registry, RegistryError}
use agent_identity_plane.Token.Errors.{TokenError}
use agent_identity_plane.Token.Keys.{Primitives}
use agent_identity_plane.Token.Keyring.{Keyring}
use agent_identity_plane.Sts.Request.{Config}
use agent_identity_plane.Sts.Service.{install_identity}

pub data ReloadError : Type 0 where
  not_configured : ReloadError
  bad_registry : RegistryError → ReloadError
  bad_signing : TokenError → ReloadError
  bad_denylist : DenylistError → ReloadError
  not_installed : TokenError → ReloadError

pub record Reloader : Type 0 where
  pub registry_path : Text
  pub signing_path : Text
  pub denylist_path : Text

pub record ReloadMetrics : Type 0 where
  pub reloads : ℕ
  pub reload_fails : ℕ

-- `LoadFile` of the registry and the denylist, and `LoadSigningFile`.
pub record Loaders : Type 0 where
  pub load_registry : Text → Result RegistryError Registry
  pub load_signing : Text → Result TokenError Keyring
  pub load_denylist : Text → Result DenylistError Denied

abbrev pub found : {E A : Type 0} → (E → ReloadError) → Result E A → Result ReloadError (Option A)
found wrap (ok a) = ok (some a)
found wrap (err e) = err (wrap e)

-- A file that is read if its path is given.
unfoldable pub fetch :
    {E A : Type 0} → (E → ReloadError) → (Text → Result E A) → Text → Result ReloadError (Option A)
fetch wrap load path = if is_empty path then ok none else found wrap (load path)

abbrev pub wrapped : {A : Type 0} → Result TokenError A → Result ReloadError A
wrapped (ok a) = ok a
wrapped (err e) = err (not_installed e)

module _ (std : Primitives) (files : Loaders) where
  -- `installIdentity`, if there is something to install.
  unfoldable pub install_some :
      Config → Option Registry → Option Keyring → Option Denied → Result TokenError Config
  unfolding install_identity
  install_some c none none none = ok c
  install_some c (some r) signer denylist = install_identity std c (some r) signer denylist
  install_some c none (some k) denylist = install_identity std c none (some k) denylist
  install_some c none none (some d) = install_identity std c none none (some d)

  unfoldable pub load_and_install : Reloader → Config → Result ReloadError Config
  unfolding fetch install_some
  load_and_install r c = do
    registry ← fetch bad_registry files.load_registry r.registry_path
    signer ← fetch bad_signing files.load_signing r.signing_path
    denylist ← fetch bad_denylist files.load_denylist r.denylist_path
    wrapped (install_some c registry signer denylist)

  unfoldable pub concluded :
      Config
      → ReloadMetrics
      → Result ReloadError Config
      → Result ReloadError Unit × Config × ReloadMetrics
  concluded c n (ok c') = (ok tt, c', record n { reloads = suc n.reloads })
  concluded c n (err e) = (err e, c, record n { reload_fails = suc n.reload_fails })

  -- `Reload`
  unfoldable pub reload :
      Option Reloader → Config → ReloadMetrics → Result ReloadError Unit × Config × ReloadMetrics
  unfolding load_and_install concluded
  reload none c n = (err not_configured, c, n)
  reload (some r) c n = concluded c n (load_and_install r c)
