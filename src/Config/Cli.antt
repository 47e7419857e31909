-- ===== src/Config/Cli.antt =====
-- internal/config/cli.go: ParseFlags.
pub mod Flags
use metricz_exporter.Base.{
  ℕ, Bool, true, false, if◌then◌else◌, String, Option, none, some, ◌⊎◌, inl, inr,
}
use metricz_exporter.Storage.{Bytes}
use metricz_exporter.FileSystem.{Disk, OsError, Os, Changed}
use metricz_exporter.Config.Files.{ensure_config_file, print_config_or_example}

-- BaseConfig
pub record BaseConfig : Type 0 where
  pub config_path : String
  pub init_config : Bool
  pub print_config : Bool
  pub version : Bool

-- What the parser of github.com/jessevdk/go-flags makes of the arguments.
pub data Parsed : Type 0 where
  asks_help unusable : Parsed
  options : BaseConfig → Parsed

-- The process ends with a status, or goes on.
pub data Started : Type 0 where
  exits : ℕ → Started
  goes_on : BaseConfig → Started

-- Writing to the standard output: its error, if it fails.
abbrev pub Output : Type 0
Output = Bytes → Option OsError

abbrev status_of : Option OsError → ℕ
status_of none = 0
status_of (some cause) = 1

abbrev print_status : Output → OsError ⊎ Bytes → ℕ
print_status output (inl cause) = 1
print_status output (inr content) = status_of (output content)

abbrev pub print_step : Os → Bytes → Output → BaseConfig → Disk → Disk × Started
print_step os example output opts disk =
    if opts.print_config
    then (
      disk,
      exits (print_status output (print_config_or_example os example opts.config_path disk)),
    )
    else (disk, goes_on opts)

abbrev pub initialized : Os → Bytes → Output → BaseConfig → Changed → Disk × Started
initialized os example output opts (disk, some cause) = (disk, exits 1)
initialized os example output opts (disk, none) = print_step os example output opts disk

unfoldable pub parse_flags : Os → Bytes → Output → Parsed → Disk → Disk × Started
unfolding ensure_config_file print_config_or_example
parse_flags os example output asks_help disk = (disk, exits 0)
parse_flags os example output unusable disk = (disk, exits 1)
parse_flags os example output (options opts) disk =
    if opts.version
    then (disk, exits 0)
    else if opts.init_config
    then initialized os example output opts (ensure_config_file os example opts.config_path disk)
    else print_step os example output opts disk
