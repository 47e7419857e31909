-- ===== src/Entrypoint.antt =====
-- internal/entrypoint/main.go: Execute.
pub mod Starts
pub mod Requests
pub mod Runs
pub mod Owned
pub mod Scrapes
pub mod Polls
pub mod Lifecycle
use metricz_exporter.Base.{
  ℕ, ◌+◌, ◌*◌, ℤ, pos, eqb, Bool, ◌&&◌, ◌||◌, if◌then◌else◌, String, codes, Option, none, some,
  List, [], ◌⊎◌, inl, inr,
}
use metricz_exporter.Storage.{Duration, Bytes, new}
use metricz_exporter.Storage.Collector.{Desc, new_exporter, describe}
use metricz_exporter.Config.{Config, PrometheusConfig}
use metricz_exporter.Config.Cli.{BaseConfig, Parsed, Started, exits, goes_on, Output, parse_flags}
use metricz_exporter.Config.Load.{ConfigLibraries, LoadError, log_failed, load_config}
use metricz_exporter.FileSystem.{File, Disk, Os}
use metricz_exporter.Geoip.{Http}
use metricz_exporter.Terminal.{Terminal, starts_with}
use metricz_exporter.Logging.{Logging}
use metricz_exporter.Poller.Manager.{Worker, new_manager, start}
use metricz_exporter.Server.Routes.{App}

-- What Execute finds in its surroundings. `registers` says whether the registry takes the
-- collectors, of which MustRegister panics otherwise; `open_db` is geoip2.Open.
pub record Env (G : Type 0) : Type 0 where
  pub os : Os
  pub http : Http
  pub terminal : Terminal
  pub output : Output
  pub example : Bytes
  pub parsed : Parsed
  pub config_lib : ConfigLibraries
  pub registers : PrometheusConfig → List Desc → Bool
  pub open_db : Option File → Option G

-- The program that serves.
pub record Instance (G : Type 0) : Type 0 where
  pub cfg : Config
  pub logging : Logging
  pub app : App
  pub geo_db : Option G
  pub workers : List Worker

pub data Outcome (G : Type 0) : Type 0 where
  exited : ℕ → Outcome G
  panicked : Outcome G
  serving : Instance G → Outcome G

-- After the managers are made.
abbrev pub registered : {G : Type 0} → Env G → Config → Logging → Disk × Option G → Disk × Outcome G
registered env cfg logging (disk, db) =
    let store = new cfg.app.ingest.max_staging_size in
    let stale = cfg.app.stale in
    let exporter = new_exporter store stale.stale_multiplier stale.min_stale_age in
    if env.registers cfg.app.prometheus (describe exporter)
    then (
      disk,
      serving (record {
        cfg = cfg;
        logging = logging;
        app = record { storage = store; public_cache = [] };
        geo_db = db;
        workers = start cfg.servers;
      }),
    )
    else (disk, panicked)

abbrev pub loaded : {G : Type 0} → Env G → Disk × (LoadError ⊎ Config × Logging) → Disk × Outcome G
loaded env (disk, inl (log_failed cause)) = (disk, exited 1)
loaded env (disk, inl e) = (disk, exited 2)
loaded env (disk, inr (cfg, logging)) =
    registered env cfg logging (new_manager env.os env.http env.open_db cfg.app.geo_ip disk)

abbrev pub started : {G : Type 0} → Env G → Disk × Started → Disk × Outcome G
started env (disk, exits status) = (disk, exited status)
started env (disk, goes_on opts) =
    loaded env (load_config env.config_lib env.terminal env.os opts.config_path disk)

unfoldable pub execute : {G : Type 0} → Env G → Disk → Disk × Outcome G
unfolding parse_flags load_config new_manager start new new_exporter describe
execute env disk = started env (parse_flags env.os env.example env.output env.parsed disk)

-- The http.Server that Execute makes; its handler is the table of routes.
pub record HttpServer : Type 0 where
  pub addr : String
  pub read_header_timeout : Duration
  pub read_timeout : Duration
  pub write_timeout : Duration
  pub idle_timeout : Duration

abbrev seconds : ℕ → Duration
seconds n = pos (n * 1000000000)

unfoldable pub http_server : Config → HttpServer
http_server cfg = record {
  addr = cfg.app.listen_addr;
  read_header_timeout = seconds 5;
  read_timeout = seconds 15;
  write_timeout = seconds 30;
  idle_timeout = seconds 60;
}

-- The status at the end of ListenAndServe: on an error log.Fatal ends the process with 1.
unfoldable pub listen_and_serve : (HttpServer → Option String) → Config → ℕ
unfolding http_server
listen_and_serve serves cfg = elim (serves (http_server cfg)) [ some cause ↦ 1 | none ↦ 0 ]

-- The status that Execute returns or exits with, where it comes to an end.
unfoldable pub exit_status : {G : Type 0} → (HttpServer → Option String) → Outcome G → Option ℕ
unfolding listen_and_serve
exit_status serves (exited status) = some status
exit_status serves panicked = none
exit_status serves (serving instance) = some (listen_and_serve serves (Instance.cfg instance))

-- Whether the access log writes a request at the debug level.
unfoldable pub is_debug : ℕ → String → Bool
unfolding starts_with
is_debug status path =
    eqb status 200 && starts_with (codes "/health") (codes path)
    || starts_with (codes "/metrics") (codes path)
