-- ===== src/Poller/A2s.antt =====
-- internal/poller/a2s.go. What github.com/woozymasta/a2s answers is given: `dial` and `get_info`
-- say what its client would report.
pub mod Series
pub mod Readings
use metricz_exporter.Base.{
  ℕ, ℤ, pos, eqb, Bool, if◌then◌else◌, String, ◌<>◌, Option, none, some, List, [], ◌∷◌, ◌⊎◌, inl,
  inr,
}
use metricz_exporter.Metrics.{Float64, float_zero, float_one, FloatOps, Families}
use metricz_exporter.Base.Map.{Map}
use metricz_exporter.Storage.{Duration}
use metricz_exporter.Strconv.{format_uint}
use metricz_exporter.Config.{A2sConfig, ServerDefinition}
use metricz_exporter.Poller.Dto.{add_gauge, add_gauge_with_labels}
use Prim.Native.Char.{code}

-- The parts of a2s.Info that are read. `environment` is Environment.String(), and `queue` the
-- PlayersQueue that keywords.ParseDayZ makes of the keywords, if it makes anything of them.
pub record Info : Type 0 where
  pub ping : Duration
  pub players : ℕ
  pub max_players : ℕ
  pub queue : Option ℕ
  pub name : String
  pub game : String
  pub map : String
  pub version : String
  pub port : ℕ
  pub environment : String

pub data PollError : Type 0 where
  -- "connection failed: %w", "query failed: %w"
  connection_failed query_failed : String → PollError

-- The client's answers: the error of NewWithString at an address, if it fails, and what GetInfo
-- reports with a timeout and a buffer size.
pub record Client : Type 0 where
  pub new_with_string : String → Option String
  pub get_info : String → Duration → ℕ → String ⊎ Info

abbrev queried : String ⊎ Info → PollError ⊎ Info
queried (inl cause) = inl (query_failed cause)
queried (inr info) = inr info

unfoldable pub poll_a2s : Client → A2sConfig → PollError ⊎ Info
poll_a2s client cfg = elim (Client.new_with_string client cfg.address) [
  | some cause ↦ inl (connection_failed cause)
  | none ↦ queried (Client.get_info client cfg.address cfg.deadline_timeout cfg.buffer_size)
]

-- strings.Split(s, ":")[0]
unfoldable pub before_colon : String → String
before_colon String.[] = ""
before_colon (String.◌∷◌ c s) =
    let rest = before_colon s in if eqb (code c) b':' then "" else String.◌∷◌ c rest

-- srv.A2S.Address; the callers have seen to it that srv.A2S is not nil.
abbrev pub query_address : ServerDefinition → String
query_address srv = elim srv.a2s [ none ↦ "" | some a2s ↦ a2s.address ]

unfoldable pub meta_labels : ServerDefinition → Info → Map String String
unfolding before_colon format_uint
meta_labels srv info =
    ("instance_id", srv.instance_id)
    ∷ ("server_name", info.name)
    ∷ ("server_description", info.game)
    ∷ ("world", info.map)
    ∷ ("version", info.version)
    ∷ ("query_address", query_address srv)
    ∷ ("game_address", before_colon (query_address srv) <> (":" <> format_uint info.port))
    ∷ ("environment", info.environment)
    ∷ []

-- The five gauges that are always set.
pub record Gauges : Type 0 where
  pub state : Float64
  pub ping : Float64
  pub players : Float64
  pub slots : Float64
  pub queue : Float64

-- `seconds` is Duration.Seconds.
unfoldable pub gauges_of : FloatOps → (Duration → Float64) → Option Info → Gauges
gauges_of float seconds none = record {
  state = float_zero;
  ping = float_zero;
  players = float_zero;
  slots = float_zero;
  queue = float_zero;
}
gauges_of float seconds (some info) = record {
  state = float_one;
  ping = seconds info.ping;
  players = FloatOps.of_int64 float (pos info.players);
  slots = FloatOps.of_int64 float (pos info.max_players);
  queue = elim info.queue [ none ↦ float_zero | some n ↦ FloatOps.of_int64 float (pos n) ];
}

unfoldable pub info_family : ServerDefinition → Option Info → Families
unfolding meta_labels add_gauge_with_labels
info_family srv none = []
info_family srv (some info) =
    add_gauge_with_labels [] "metricz_a2s_info" "Static metadata about the game server." float_one
      (meta_labels srv info)

unfoldable pub add_a2s_gauges : String → Gauges → Families → Families
unfolding add_gauge
add_a2s_gauges id g families =
    let f1 =
      add_gauge families "metricz_a2s_up" "A2S server availability (1 = up, 0 = down)." g.state
        id in
    let f2 =
      add_gauge f1 "metricz_a2s_info_response_time_seconds" "Server A2S_INFO response time." g.ping
        id in
    let f3 = add_gauge f2 "metricz_a2s_info_players_online" "Online players." g.players id in
    let f4 = add_gauge f3 "metricz_a2s_info_players_slots" "Players slots count." g.slots id in
    add_gauge f4 "metricz_a2s_info_players_queue" "Players wait in queue." g.queue id

unfoldable pub set_a2s_metrics :
    FloatOps → (Duration → Float64) → ServerDefinition → Option Info → Families
unfolding gauges_of info_family add_a2s_gauges
set_a2s_metrics float seconds srv info =
    add_a2s_gauges srv.instance_id (gauges_of float seconds info) (info_family srv info)
