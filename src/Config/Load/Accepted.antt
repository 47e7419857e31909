-- ===== src/Config/Load/Accepted.antt =====
-- What a configuration that LoadConfig returns satisfies: file.go.
use metricz_exporter.Base.{
  ◌≡◌, ◌≢◌, refl, Bool-cases, String, str_eq, str_ne, Option, none, some, ◌⊎◌, inl, inr,
}
use metricz_exporter.Config.{Logger, Config, ConfigError, validate}
use metricz_exporter.Config.Validity.{IsValid, validate-none}
use metricz_exporter.FileSystem.{Disk, OsError, Os}
use metricz_exporter.Terminal.{Terminal}
use metricz_exporter.Logging.{Logging, or_default, with_fallbacks}
use metricz_exporter.Config.Load.{
  ConfigLibraries, LoadError, logged, checked, defaulted, with_defaults, load_config,
}

-- Each setting of the logger has a value.
pub record IsFilled (l : Logger) : Type 0 where
  pub level : l.level ≢ ""
  pub format : l.format ≢ ""
  pub output : l.output ≢ ""

or_default-ne : (value default : String) → default ≢ "" → or_default value default ≢ ""
or_default-ne value default ne = elim (Bool-cases (str_eq value "")) [
  | inl e ↦ rw e ne
  | inr e ↦ rw e (str_ne value "" e)
]

with_fallbacks-IsFilled : (l : Logger) → IsFilled (with_fallbacks l)
unfolding with_fallbacks
with_fallbacks-IsFilled l = record {
  level = or_default-ne l.level "info" (str_ne "info" "" refl);
  format = or_default-ne l.format "text" (str_ne "text" "" refl);
  output = or_default-ne l.output "stderr" (str_ne "stderr" "" refl);
}

-- The configuration, if there is one.
pub record IsAccepted (lib : ConfigLibraries) (cfg : Config) : Type 0 where
  pub valid : IsValid lib.is_valid_label cfg
  pub filled : IsFilled cfg.app.logger

abbrev pub IsLoaded : ConfigLibraries → LoadError ⊎ (Config × Logging) → Type 0
IsLoaded lib (inl e) = Unit
IsLoaded lib (inr (cfg, logging)) = IsAccepted lib cfg

module _ (lib : ConfigLibraries) (terminal : Terminal) (os : Os) where
  logged-IsLoaded :
      (cfg : Config) (p : Disk × (OsError ⊎ Logging))
      → IsAccepted lib cfg
      → IsLoaded lib (logged cfg p).1
  logged-IsLoaded cfg (disk, inl cause) h = tt
  logged-IsLoaded cfg (disk, inr logging) h = h

  checked-IsLoaded :
      (cfg : Config) (disk : Disk) (e : Option ConfigError)
      → validate lib.is_valid_label cfg ≡ e
      → IsLoaded lib (checked lib terminal os cfg disk e).1
  checked-IsLoaded cfg disk (some e) h = tt
  checked-IsLoaded cfg disk none h =
      let valid = (validate-none lib.is_valid_label cfg).0 h in
      logged-IsLoaded _ _ (record {
        valid = record { servers = valid.servers; fresh = valid.fresh; labels = valid.labels };
        filled = with_fallbacks-IsFilled cfg.app.logger;
      })

  defaulted-IsLoaded :
      (disk : Disk) (cfg : String ⊎ Config) → IsLoaded lib (defaulted lib terminal os disk cfg).1
  defaulted-IsLoaded disk (inl cause) = tt
  defaulted-IsLoaded disk (inr cfg) = checked-IsLoaded cfg disk _ refl

  with_defaults-IsLoaded :
      (disk : Disk) (cfg : LoadError ⊎ Config)
      → IsLoaded lib (with_defaults lib terminal os disk cfg).1
  with_defaults-IsLoaded disk (inl e) = tt
  with_defaults-IsLoaded disk (inr cfg) = defaulted-IsLoaded disk (lib.set_defaults cfg)

  -- What LoadConfig returns on every branch.
  pub load_config-IsLoaded :
      (path : String) (disk : Disk) → IsLoaded lib (load_config lib terminal os path disk).1
  unfolding load_config
  load_config-IsLoaded path disk = with_defaults-IsLoaded disk _
