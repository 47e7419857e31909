-- ===== src/Config/Cli/Flags.antt =====
-- When the program goes on after the command line: cli.go, ParseFlags.
use metricz_exporter.Base.{◌≡◌, if_cases, true, false, none, some, ◌⊎◌, inl, inr}
use metricz_exporter.Storage.{Bytes}
use metricz_exporter.FileSystem.{Disk, Os, Changed}
use metricz_exporter.Config.Files.{has_content, ensure_config_file}
use metricz_exporter.Config.Files.Ready.{IsReady, ensure_config_file-IsReady}
use metricz_exporter.Config.Cli.{
  BaseConfig, Parsed, asks_help, unusable, options, Started, exits, goes_on, Output, print_step,
  initialized, parse_flags,
}

-- A file was not asked for, or it is there, with content.
abbrev pub IsInitialized : BaseConfig → Disk → Type 0
IsInitialized opts disk = (opts.init_config ≡ false) ⊎ IsReady opts.config_path (disk, none)

-- Nothing else was asked for than to run.
pub record IsStarted (opts : BaseConfig) (disk : Disk) : Type 0 where
  pub running : opts.version ≡ false
  pub silent : opts.print_config ≡ false
  pub ready : IsInitialized opts disk

abbrev pub IsSettled : Disk × Started → Type 0
IsSettled (disk, exits status) = Unit
IsSettled (disk, goes_on opts) = IsStarted opts disk

module _ (os : Os) (example : Bytes) (output : Output) (opts : BaseConfig)
    (running : opts.version ≡ false) where
  print_step-IsSettled :
      (disk : Disk) → IsInitialized opts disk → IsSettled (print_step os example output opts disk)
  print_step-IsSettled disk ready =
      if_cases IsSettled opts.print_config (λ prints. tt)
        λ silent. record { running = running; silent = silent; ready = ready }

  initialized-IsSettled :
      (p : Changed) → IsReady opts.config_path p → IsSettled (initialized os example output opts p)
  initialized-IsSettled (disk, some cause) ready = tt
  initialized-IsSettled (disk, none) ready = print_step-IsSettled disk (inr ready)

-- If the embedded example has content and ParseFlags returns options: neither the version nor the
-- printing of the configuration was asked for, and if the initialisation was asked for, the file
-- at the configuration's path exists with content.
pub parse_flags-IsSettled :
    (os : Os) (example : Bytes) (output : Output) (parsed : Parsed) (disk : Disk)
    → has_content example ≡ true
    → IsSettled (parse_flags os example output parsed disk)
unfolding parse_flags
parse_flags-IsSettled os example output asks_help disk full = tt
parse_flags-IsSettled os example output unusable disk full = tt
parse_flags-IsSettled os example output (options opts) disk full =
    if_cases IsSettled opts.version (λ version. tt)
      λ running.
        if_cases IsSettled opts.init_config
          (λ asked.
            initialized-IsSettled os example output opts running
              (ensure_config_file os example opts.config_path disk)
              (ensure_config_file-IsReady os example full opts.config_path disk))
          λ not_asked. print_step-IsSettled os example output opts running disk (inl not_asked)
