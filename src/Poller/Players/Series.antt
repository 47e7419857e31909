-- ===== src/Poller/Players/Series.antt =====
-- The samples that an RCon poll sets: rcon.go, generateMetrics.
use metricz_exporter.Base.{
  ℕ, zero, suc, ◌≡◌, refl, ◌∙◌, Bool, Bool-cases, true, false, if◌then◌else◌, length, String,
  string_key, Option, none, some, List, [], ◌∷◌, ◌++◌, inl, inr,
}
use metricz_exporter.Metrics.{Float64, float_zero, float_one, FloatOps, Metric, Families}
use metricz_exporter.Poller.Dto.{gauge_of, label_pairs}
use metricz_exporter.Poller.Dto.Series.{
  series_of, series_in, Appends, Appends-append, Appends-refl, add_gauge-Appends,
  add_gauge_with_labels-Appends, own_gauge,
}
use metricz_exporter.Poller.Players.{
  Player, extra_labels, player_labels, float_thousand, is_located, add_location, add_player, Counts,
  increment, count_player, count_players, counts_of, up_of, generate_metrics,
}

unfoldable pub valid_players : List Player → List Player
valid_players [] = []
valid_players (p ∷ ps) = let rest = valid_players ps in if p.valid then p ∷ rest else rest

unfoldable pub lobby_players : List Player → List Player
lobby_players [] = []
lobby_players (p ∷ ps) = let rest = lobby_players ps in if p.lobby then p ∷ rest else rest

-- A float that counts: 0, incremented so many times.
unfoldable pub float_count : FloatOps → ℕ → Float64 → Float64
float_count float zero x = x
float_count float (suc n) x = float_count float n (increment float x)

abbrev pub labelled : String → List (String × String) → Float64 → String × Metric
labelled name labels value = (name, gauge_of (label_pairs labels) value)

-- The two samples of a player whose place is known.
abbrev pub location_samples : String → Player → List (String × Metric)
location_samples id p =
    if is_located p
    then labelled "metricz_rcon_player_lat" (player_labels id p) p.latitude
      ∷ labelled "metricz_rcon_player_lon" (player_labels id p) p.longitude
      ∷ []
    else []

abbrev pub player_samples : FloatOps → String → Player → List (String × Metric)
player_samples float id p =
    labelled "metricz_rcon_player_joined" (extra_labels id p)
      (if p.lobby then float_zero else float_one)
    ∷ (location_samples id p
        ++ labelled "metricz_rcon_player_ping_seconds" (player_labels id p)
            (FloatOps.div float (FloatOps.of_int64 float p.ping) float_thousand)
          ∷ [])

unfoldable pub players_samples : FloatOps → String → List Player → List (String × Metric)
players_samples float id [] = []
players_samples float id (p ∷ ps) = player_samples float id p ++ players_samples float id ps

add_location-Appends :
    (id : String) (p : Player) (families : Families)
    → Appends (location_samples id p) families (add_location id p families)
unfolding add_location
add_location-Appends id p families = elim (Bool-cases (is_located p)) [
  | inl known ↦ rw known (
      Appends-append (add_gauge_with_labels-Appends families _ _ p.latitude (player_labels id p))
        (add_gauge_with_labels-Appends _ _ _ p.longitude (player_labels id p)))
  | inr unknown ↦ rw unknown Appends-refl
]

add_player-Appends :
    (float : FloatOps) (id : String) (p : Player) (families : Families)
    → Appends (player_samples float id p) families (add_player float id p families)
unfolding add_player
add_player-Appends float id p families =
    Appends-append (add_gauge_with_labels-Appends families _ _ _ (extra_labels id p)) (
      Appends-append (add_location-Appends id p _)
        (add_gauge_with_labels-Appends _ _ _ _ (player_labels id p)))

module _ (float : FloatOps) (id : String) where
  -- The counts after the valid players.
  record Counted (ps : List Player) (acc acc' : Counts) : Type 0 where
    families : Appends (players_samples float id ps) acc.families acc'.families
    total : acc'.total ≡ float_count float (length ps) acc.total
    lobby : acc'.in_lobby ≡ float_count float (length (lobby_players ps)) acc.in_lobby

  counted : Player → Counts → Counts
  counted p acc = record {
    families = add_player float id p acc.families;
    total = increment float acc.total;
    in_lobby = if p.lobby then increment float acc.in_lobby else acc.in_lobby;
  }

  count_player-eq :
      (p : Player) (acc : Counts)
      → count_player float id p acc ≡ (if p.valid then counted p acc else acc)
  unfolding count_player counted
  count_player-eq p acc = refl

  valid_players-cons :
      (p : Player) (ps : List Player)
      → valid_players (p ∷ ps) ≡ (if p.valid then p ∷ valid_players ps else valid_players ps)
  unfolding valid_players
  valid_players-cons p ps = refl

  lobby-cons :
      (p : Player) (ps : List Player) (x : Float64)
      → float_count float (length (lobby_players ps)) (if p.lobby then increment float x else x)
        ≡ float_count float (length (lobby_players (p ∷ ps))) x
  unfolding lobby_players float_count
  lobby-cons p ps x = pick p.lobby
    where
      pick :
          (b : Bool)
          → float_count float (length (lobby_players ps)) (if b then increment float x else x)
            ≡ float_count float (length (if b then p ∷ lobby_players ps else lobby_players ps)) x
      pick true = refl
      pick false = refl

  Counted-cons :
      (p : Player) (ps : List Player) (acc acc' : Counts)
      → Counted ps (counted p acc) acc'
      → Counted (p ∷ ps) acc acc'
  unfolding counted players_samples float_count
  Counted-cons p ps acc acc' c = record {
    families = Appends-append (add_player-Appends float id p acc.families) c.families;
    total = c.total;
    lobby = c.lobby ∙ lobby-cons p ps acc.in_lobby;
  }

  count_players-Counted :
      (ps : List Player) (acc : Counts)
      → Counted (valid_players ps) acc (count_players float id ps acc)
  unfolding count_players players_samples float_count valid_players lobby_players
  count_players-Counted [] acc = record { families = Appends-refl; total = refl; lobby = refl }
  count_players-Counted (p ∷ ps) acc =
      rw (count_player-eq p acc) (step (λ a. count_players-Counted ps a) p.valid)
    where
      step :
          ((a : Counts) → Counted (valid_players ps) a (count_players float id ps a))
          → (b : Bool)
          → Counted
              (if b then p ∷ valid_players ps else valid_players ps)
              acc
              (count_players float id ps (if b then counted p acc else acc))
      step ih true = Counted-cons p (valid_players ps) acc _ (ih (counted p acc))
      step ih false = ih acc

-- The valid players of an answer.
abbrev pub present : Option (List Player) → List Player
present none = []
present (some players) = valid_players players

-- The samples of each valid player, in order, and the three of the session.
abbrev pub samples_of : FloatOps → String → Option (List Player) → List (String × Metric)
samples_of float id players =
    players_samples float id (present players)
    ++ (own_gauge id "metricz_rcon_up" (up_of players)
        ∷ own_gauge id "metricz_rcon_players_total"
            (float_count float (length (present players)) float_zero)
        ∷ own_gauge id "metricz_rcon_players_lobby"
            (float_count float (length (lobby_players (present players))) float_zero)
        ∷ [])

counts_of-Counted :
    (float : FloatOps) (id : String) (players : Option (List Player))
    → Counted float id (present players) (counts_of float id none) (counts_of float id players)
unfolding players_samples float_count lobby_players
counts_of-Counted float id none = record { families = Appends-refl; total = refl; lobby = refl }
counts_of-Counted float id (some players) = count_players-Counted float id players _

pub series_of-generate_metrics :
    (float : FloatOps) (id : String) (players : Option (List Player)) (j : String)
    → series_of j (generate_metrics float id players) ≡ series_in j (samples_of float id players)
unfolding generate_metrics series_of
series_of-generate_metrics float id players j =
    let c = counts_of-Counted float id players in
    rw (← c.total, ← c.lobby)
      ((Appends-append c.families (
          Appends-append (add_gauge-Appends _ _ _ (up_of players) id)
            (Appends-append (add_gauge-Appends _ _ _ _ id) (add_gauge-Appends _ _ _ _ id)))).same
        j)
