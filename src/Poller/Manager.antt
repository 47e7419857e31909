-- ===== src/Poller/Manager.antt =====
-- internal/poller/manager.go: the workers, each a loop of polls that write to the storage. A tick of
-- a worker is a function; goroutines and tickers are the order in which ticks happen.
pub mod Workers
pub mod Ticks
pub mod Loops
use metricz_exporter.Base.{
  string_key, not, if◌then◌else◌, String, str_eq, Option, none, some, List, [], ◌∷◌, ◌++◌, ◌⊎◌, inl,
  inr,
}
use metricz_exporter.Metrics.{Float64, FloatOps}
use metricz_exporter.Storage.{Time, Duration, Storage, update_polled, update_rcon}
use metricz_exporter.Config.{A2sConfig, RconConfig, ServerDefinition, GeoIpConfig}
use metricz_exporter.Base.Map
use metricz_exporter.FileSystem.{File, Disk, Os}
use metricz_exporter.Geoip.{Http, ensure_db}
use metricz_exporter.Poller.A2s.{Info, PollError, Client, poll_a2s, set_a2s_metrics}
use metricz_exporter.Poller.Rcon.{Bercon, RconSession, poll}
use metricz_exporter.Poller.Players.{Player}

pub data Worker : Type 0 where
  a2s_worker : ServerDefinition → A2sConfig → Worker
  rcon_worker : ServerDefinition → RconConfig → Worker

-- if srv.A2S != nil && srv.A2S.Address != ""
unfoldable pub start_a2s : ServerDefinition → Option A2sConfig → List Worker
start_a2s srv none = []
start_a2s srv (some a2s) = if not (str_eq a2s.address "") then a2s_worker srv a2s ∷ [] else []

unfoldable pub start_rcon : ServerDefinition → Option RconConfig → List Worker
start_rcon srv none = []
start_rcon srv (some rcon) = if not (str_eq rcon.address "") then rcon_worker srv rcon ∷ [] else []

-- The workers that Start launches.
unfoldable pub start : List ServerDefinition → List Worker
unfolding start_a2s start_rcon
start [] = []
start (srv ∷ servers) = start_a2s srv srv.a2s ++ (start_rcon srv srv.rcon ++ start servers)

-- NewManager, up to the database; `open_db` is geoip2.Open, of the file at the path.
unfoldable pub new_manager :
    {G : Type 0} → Os → Http → (Option File → Option G) → GeoIpConfig → Disk → Disk × Option G
unfolding ensure_db Map.get
new_manager os http open_db cfg disk =
    if str_eq cfg.path ""
    then (disk, none)
    else let disk' = if not (str_eq cfg.url "") then (ensure_db os http cfg disk).0 else disk in
      (disk', open_db (Map.get cfg.path disk'))

-- On an error the info is nil.
abbrev pub info_of : PollError ⊎ Info → Option Info
info_of (inl e) = none
info_of (inr info) = some info

-- One tick of runA2SWorker.
unfoldable pub a2s_tick :
    FloatOps → (Duration → Float64) → Client → ServerDefinition → A2sConfig → Storage → Storage
unfolding poll_a2s set_a2s_metrics update_polled
a2s_tick float seconds client srv cfg s =
    update_polled srv.instance_id
      (set_a2s_metrics float seconds srv (info_of (poll_a2s client cfg))) s

-- pollRConAndSubmit; an error comes with metrics too, which are stored as well.
unfoldable pub poll_rcon_and_submit :
    FloatOps
    → (String → List Player)
    → Bercon
    → RconConfig
    → Time
    → String
    → RconSession × Storage
    → RconSession × Storage
unfolding poll update_rcon
poll_rcon_and_submit float parse bercon cfg now id (session, s) =
    let (session', metrics, err) = poll float parse bercon cfg now id session in
    (session', update_rcon id metrics s)
