-- ===== src/Config/Load.antt =====
-- internal/config/file.go: LoadConfig.
pub mod Accepted
use metricz_exporter.Base.{ℤ, Bool, String, Option, none, some, ◌⊎◌, inl, inr}
use metricz_exporter.Storage.{Bytes}
use metricz_exporter.Config.{Config, ConfigError, validate}
use metricz_exporter.FileSystem.{
  Disk, OsError, not_exist, invalid, refused, Os, stat_file, read_all, File,
}
use metricz_exporter.Terminal.{Terminal}
use metricz_exporter.Logging.{Logging, with_fallbacks, setup}

-- new(Config); jamle.Unmarshal into it; defaults.Set; the check of label names; zerolog.ParseLevel.
pub record ConfigLibraries : Type 0 where
  pub zero_config : Config
  pub unmarshal : Bytes → String ⊎ Config
  pub set_defaults : Config → String ⊎ Config
  pub is_valid_label : String → Bool
  pub parse_level : String → Option ℤ

pub data LoadError : Type 0 where
  -- "failed to read config file: %w", "failed to stat config file: %w"
  read_failed stat_failed : OsError → LoadError
  -- "failed to parse config file: %w"
  parse_failed : String → LoadError
  defaults_failed : String → LoadError
  invalid_config : ConfigError → LoadError
  -- Setup ends the process
  log_failed : OsError → LoadError

abbrev parsed : ConfigLibraries → OsError ⊎ Bytes → LoadError ⊎ Config
parsed lib (inl cause) = inl (read_failed cause)
parsed lib (inr content) = elim (ConfigLibraries.unmarshal lib content) [
  | inl cause ↦ inl (parse_failed cause)
  | inr cfg ↦ inr cfg
]

abbrev pub read_config : ConfigLibraries → Os → String → Disk → OsError ⊎ File → LoadError ⊎ Config
read_config lib os path disk (inl not_exist) = inr lib.zero_config
read_config lib os path disk (inl invalid) = inl (stat_failed invalid)
read_config lib os path disk (inl (refused cause)) = inl (stat_failed (refused cause))
read_config lib os path disk (inr f) = parsed lib (read_all os path disk)

abbrev pub Loaded : Type 0
Loaded = Disk × (LoadError ⊎ Config × Logging)

abbrev pub logged : Config → Disk × (OsError ⊎ Logging) → Loaded
logged cfg (disk, inl cause) = (disk, inl (log_failed cause))
logged cfg (disk, inr logging) = (disk, inr (cfg, logging))

-- From the validation on, with its result.
abbrev pub checked : ConfigLibraries → Terminal → Os → Config → Disk → Option ConfigError → Loaded
checked lib terminal os cfg disk (some e) = (disk, inl (invalid_config e))
checked lib terminal os cfg disk none =
    let cfg' = record cfg { app = record cfg.app { logger = with_fallbacks cfg.app.logger } } in
    logged cfg' (setup terminal lib.parse_level os cfg'.app.logger disk)

-- From the defaults on, with what they make of the configuration.
abbrev pub defaulted : ConfigLibraries → Terminal → Os → Disk → String ⊎ Config → Loaded
defaulted lib terminal os disk (inl cause) = (disk, inl (defaults_failed cause))
defaulted lib terminal os disk (inr cfg) =
    checked lib terminal os cfg disk (validate lib.is_valid_label cfg)

abbrev pub with_defaults : ConfigLibraries → Terminal → Os → Disk → LoadError ⊎ Config → Loaded
with_defaults lib terminal os disk (inl e) = (disk, inl e)
with_defaults lib terminal os disk (inr cfg) = defaulted lib terminal os disk (lib.set_defaults cfg)

unfoldable pub load_config : ConfigLibraries → Terminal → Os → String → Disk → Loaded
unfolding stat_file read_all validate with_fallbacks setup
load_config lib terminal os path disk =
    with_defaults lib terminal os disk (read_config lib os path disk (stat_file os path disk))
