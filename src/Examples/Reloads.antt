-- ===== src/Examples/Reloads.antt =====
-- Instances for internal/sts/reload.go and the activation of internal/token/keyring.go.
use agent_identity_plane.Token.Keys.{public_equal, signer_jwk}
use agent_identity_plane.Prelude.Assoc.{insert, lookup}
use agent_identity_plane.Prelude.{◌≡◌, refl, [], some, ok, err}
use agent_identity_plane.Prelude.Text.{codes, text_eq}
use agent_identity_plane.Denylist.{DenylistError}
use agent_identity_plane.Token.Keyring.{allow_activation}
use agent_identity_plane.Token.Keyring.Activation.{IsContinuous, allow_activation-IsContinuous}
use agent_identity_plane.Sts.Reload.{Reloader, ReloadMetrics, Loaders, reload, bad_denylist}
use agent_identity_plane.Sts.Reload.Atomic.{IsAtomic, reload-IsAtomic}
use agent_identity_plane.Examples.Registries.{agents}
use agent_identity_plane.Examples.Exchanges.{std, ring, config}

same_ring : allow_activation std (some ring) (some ring) ≡ ok tt
unfolding allow_activation text_eq lookup insert signer_jwk public_equal
same_ring = refl

allow_activation-IsContinuous_example : IsContinuous std (some ring) (some ring)
allow_activation-IsContinuous_example =
    allow_activation-IsContinuous std (some ring) (some ring) same_ring

abbrev files : Loaders
files = record {
  load_registry = λ path. ok agents;
  load_signing = λ path. ok ring;
  load_denylist = λ path. err DenylistError.unreadable;
}

abbrev reloader : Reloader
reloader = record {
  registry_path = codes "registry.json";
  signing_path = codes "keys.json";
  denylist_path = [];
}

abbrev counts : ReloadMetrics
counts = record { reloads = 0; reload_fails = 0 }

reload-IsAtomic_example :
    IsAtomic std files reloader config counts (reload std files (some reloader) config counts)
reload-IsAtomic_example = reload-IsAtomic std files reloader config counts

reloaded : (reload std files (some reloader) config counts).0 ≡ ok tt
unfolding reload allow_activation text_eq lookup insert signer_jwk public_equal
reloaded = refl

-- The denylist cannot be read, so nothing is replaced.
failed_reload :
    reload std files (some (record reloader { denylist_path = codes "denied.json" })) config counts
    ≡ (err (bad_denylist DenylistError.unreadable), config, record counts { reload_fails = 1 })
unfolding reload
failed_reload = refl
