-- ===== src/Poller/Players.antt =====
-- The players' metrics: internal/poller/rcon.go, generateMetrics.
pub mod Series
use metricz_exporter.Base.{
  ℕ, ℤ, pos, Bool, true, false, not, ◌&&◌, if◌then◌else◌, String, str_eq, Option, none, some, List,
  [], ◌∷◌, ◌++◌,
}
use metricz_exporter.Base.Map.{Map}
use metricz_exporter.Metrics.{Float64, float_zero, float_one, is_zero, FloatOps, Families}
use metricz_exporter.Poller.Dto.{add_gauge, add_gauge_with_labels}

-- beparser.Player; a latitude and a longitude are 0 where they are not known.
pub record Player : Type 0 where
  pub valid : Bool
  pub lobby : Bool
  pub guid : String
  pub name : String
  pub ip : String
  pub country : String
  pub city : String
  pub latitude : Float64
  pub longitude : Float64
  pub ping : ℤ

-- A label, if it has a value.
abbrev pub unless_empty : String → String → Map String String
unless_empty name value = if str_eq value "" then [] else (name, value) ∷ []

unfoldable pub extra_labels : String → Player → Map String String
extra_labels id p =
    ("instance_id", id)
    ∷ ("buid", p.guid)
    ∷ ("name", p.name)
    ∷ ("ip", p.ip)
    ∷ (unless_empty "country" p.country ++ unless_empty "city" p.city)

abbrev pub player_labels : String → Player → Map String String
player_labels id p = ("instance_id", id) ∷ ("buid", p.guid) ∷ []

-- 1000.0
abbrev pub float_thousand : Float64
float_thousand = record { bits = 0x408F400000000000 }

-- p.Latitude != 0 && p.Longitude != 0
abbrev pub is_located : Player → Bool
is_located p = not (is_zero p.latitude) && not (is_zero p.longitude)

unfoldable pub add_location : String → Player → Families → Families
unfolding add_gauge_with_labels
add_location id p families =
    if is_located p
    then add_gauge_with_labels
        (add_gauge_with_labels families "metricz_rcon_player_lat" "Player Latitude." p.latitude
          (player_labels id p))
        "metricz_rcon_player_lon" "Player Longitude." p.longitude (player_labels id p)
    else families

-- The metrics of one valid player.
unfoldable pub add_player : FloatOps → String → Player → Families → Families
unfolding extra_labels add_location add_gauge_with_labels
add_player float id p families =
    let joined =
      add_gauge_with_labels families "metricz_rcon_player_joined"
        "Player joined to server (0=lobby, loading or in queue. 1=playing)."
        (if p.lobby then float_zero else float_one) (extra_labels id p) in
    add_gauge_with_labels (add_location id p joined) "metricz_rcon_player_ping_seconds"
      "Player latency." (FloatOps.div float (FloatOps.of_int64 float p.ping) float_thousand)
      (player_labels id p)

-- The loop's variables.
pub record Counts : Type 0 where
  pub families : Families
  pub total : Float64
  pub in_lobby : Float64

-- x++
abbrev pub increment : FloatOps → Float64 → Float64
increment float x = FloatOps.add float x float_one

unfoldable pub count_player : FloatOps → String → Player → Counts → Counts
unfolding add_player
count_player float id p acc =
    if p.valid
    then record {
      families = add_player float id p acc.families;
      total = increment float acc.total;
      in_lobby = if p.lobby then increment float acc.in_lobby else acc.in_lobby;
    }
    else acc

unfoldable pub count_players : FloatOps → String → List Player → Counts → Counts
unfolding count_player
count_players float id [] acc = acc
count_players float id (p ∷ ps) acc = count_players float id ps (count_player float id p acc)

abbrev no_counts : Counts
no_counts = record { families = []; total = float_zero; in_lobby = float_zero }

abbrev pub counts_of : FloatOps → String → Option (List Player) → Counts
counts_of float id none = no_counts
counts_of float id (some players) = count_players float id players no_counts

abbrev pub up_of : Option (List Player) → Float64
up_of none = float_zero
up_of (some players) = float_one

unfoldable pub generate_metrics : FloatOps → String → Option (List Player) → Families
unfolding count_players add_gauge
generate_metrics float id players =
    let counts = counts_of float id players in
    let f1 = add_gauge counts.families "metricz_rcon_up" "RCon availability." (up_of players) id in
    let f2 =
      add_gauge f1 "metricz_rcon_players_total" "Total clients connected (including lobby)."
        counts.total id in
    add_gauge f2 "metricz_rcon_players_lobby" "Players in lobby." counts.in_lobby id
