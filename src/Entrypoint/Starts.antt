-- ===== src/Entrypoint/Starts.antt =====
-- What holds of a program that serves: main.go, with file.go and manager.go.
use metricz_exporter.Base.{◌≡◌, refl, if_cases, Option, ◌⊎◌, inl, inr}
use metricz_exporter.Storage.{new}
use metricz_exporter.Config.{Config}
use metricz_exporter.Config.Validity.{validate-none}
use metricz_exporter.Config.Load.{
  LoadError, read_failed, stat_failed, parse_failed, defaults_failed, invalid_config, log_failed,
  load_config,
}
use metricz_exporter.Config.Load.Accepted.{IsAccepted, IsLoaded, load_config-IsLoaded}
use metricz_exporter.Config.Cli.{Started, exits, goes_on, parse_flags}
use metricz_exporter.FileSystem.{Disk}
use metricz_exporter.Logging.{Logging}
use metricz_exporter.Poller.Manager.Workers.{endpoints, start-validate}
use metricz_exporter.Entrypoint.{
  Env, Instance, Outcome, exited, panicked, serving, registered, loaded, started, execute,
}

-- A valid configuration, an empty storage of its limit, and a worker for each endpoint.
pub record IsServing {G : Type 0} (env : Env G) (i : Instance G) : Type 0 where
  pub accepted : IsAccepted env.config_lib i.cfg
  pub empty : i.app.storage ≡ new i.cfg.app.ingest.max_staging_size
  pub workers : i.workers ≡ endpoints i.cfg.servers

abbrev pub IsUp : {G : Type 0} → Env G → Disk × Outcome G → Type 0
IsUp env (disk, exited status) = Unit
IsUp env (disk, panicked) = Unit
IsUp env (disk, serving i) = IsServing env i

module _ {G : Type 0} (env : Env G) where
  registered-IsUp :
      (cfg : Config) (logging : Logging) (p : Disk × Option G)
      → IsAccepted env.config_lib cfg
      → IsUp env (registered env cfg logging p)
  registered-IsUp cfg logging (disk, db) ok =
      if_cases (IsUp env) (Env.registers env cfg.app.prometheus _)
        (λ registers. record {
          accepted = ok;
          empty = refl;
          workers =
              start-validate env.config_lib.is_valid_label cfg
                ((validate-none env.config_lib.is_valid_label cfg).1 ok.valid);
        })
        λ refused. tt

  loaded-IsUp :
      (p : Disk × (LoadError ⊎ Config × Logging))
      → IsLoaded env.config_lib p.1
      → IsUp env (loaded env p)
  loaded-IsUp (disk, inl (log_failed cause)) ok = tt
  loaded-IsUp (disk, inl (read_failed cause)) ok = tt
  loaded-IsUp (disk, inl (stat_failed cause)) ok = tt
  loaded-IsUp (disk, inl (parse_failed cause)) ok = tt
  loaded-IsUp (disk, inl (defaults_failed cause)) ok = tt
  loaded-IsUp (disk, inl (invalid_config e)) ok = tt
  loaded-IsUp (disk, inr (cfg, logging)) ok = registered-IsUp cfg logging _ ok

  started-IsUp : (p : Disk × Started) → IsUp env (started env p)
  started-IsUp (disk, exits status) = tt
  started-IsUp (disk, goes_on opts) =
      loaded-IsUp (load_config env.config_lib env.terminal env.os opts.config_path disk)
        (load_config-IsLoaded env.config_lib env.terminal env.os opts.config_path disk)

  -- If Execute comes to serve, whatever the arguments, the files and the libraries are: its
  -- configuration is valid and each setting of its logger has a value, the storage is empty with
  -- the configured limit, and there is one worker for each configured endpoint, in the order of
  -- the servers, A2S before RCon, and none besides.
  pub execute-IsUp : (disk : Disk) → IsUp env (execute env disk)
  unfolding execute
  execute-IsUp disk = started-IsUp (parse_flags env.os env.example env.output env.parsed disk)
