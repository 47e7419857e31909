-- ===== src/Poller/Owned.antt =====
-- The instance that the pollers' metrics name: dto.go, a2s.go and rcon.go.
use metricz_exporter.Base.{
  Bool-cases, String, string_key, Option, Option-cases, none, some, List, [], ◌∷◌, inl, inr,
  All-append, In, here, if◌then◌else◌,
}
use metricz_exporter.Base.Map
use metricz_exporter.Metrics.{Float64, float_zero, float_one, FloatOps, Metric, Families}
use metricz_exporter.Storage.{Duration}
use metricz_exporter.Storage.Owned.{instance_label, Names, NamesAll, IsOwnFamilies}
use metricz_exporter.Config.{ServerDefinition}
use metricz_exporter.Poller.Dto.{add_metric, add_gauge, label_pairs, add_gauge_with_labels}
use metricz_exporter.Poller.A2s.{
  Info, Gauges, gauges_of, info_family, meta_labels, add_a2s_gauges, set_a2s_metrics,
}
use metricz_exporter.Poller.Players.{
  Player, extra_labels, player_labels, is_located, add_location, add_player, Counts, count_player,
  count_players, counts_of, generate_metrics, float_thousand,
}

module _ (id : String) where
  add_metric-own :
      (families : Families) (name help : String) (m : Metric)
      → Names id m
      → IsOwnFamilies id families
      → IsOwnFamilies id (add_metric families name help m)
  unfolding add_metric
  add_metric-own families name help m n own = elim (Option-cases (Map.get name families)) [
    | inl new ↦ rw (new, add_metric) (Map.Values-set (NamesAll id) name _ families (n, tt) own)
    | inr (mf, found) ↦
        rw (found, add_metric)
          (Map.Values-set (NamesAll id) name _ families
            (All-append (Names id) mf.metric (m ∷ [])
              (Map.Values-get (NamesAll id) name mf families own found) (n, tt))
            own)
  ]

  add_gauge-own :
      (families : Families) (name help : String) (value : Float64)
      → IsOwnFamilies id families
      → IsOwnFamilies id (add_gauge families name help value id)
  unfolding add_gauge
  add_gauge-own families name help value own = add_metric-own families name help _ here own

  add_gauge_with_labels-own :
      (families : Families) (name help : String) (value : Float64) (labels : Map.Map String String)
      → In (instance_label id) (label_pairs labels)
      → IsOwnFamilies id families
      → IsOwnFamilies id (add_gauge_with_labels families name help value labels)
  unfolding add_gauge_with_labels
  add_gauge_with_labels-own families name help value labels named own =
      add_metric-own families name help _ named own

  add_a2s_gauges-own :
      (g : Gauges) (families : Families)
      → IsOwnFamilies id families
      → IsOwnFamilies id (add_a2s_gauges id g families)
  unfolding add_a2s_gauges
  add_a2s_gauges-own g families own = add_gauge-own _ _ _ g.queue (
      add_gauge-own _ _ _ g.slots (
        add_gauge-own _ _ _ g.players
          (add_gauge-own _ _ _ g.ping (add_gauge-own _ _ _ g.state own))))

  add_location-own :
      (p : Player) (families : Families)
      → IsOwnFamilies id families
      → IsOwnFamilies id (add_location id p families)
  unfolding add_location
  add_location-own p families own = elim (Bool-cases (is_located p)) [
    | inl known ↦ rw known (
        add_gauge_with_labels-own _ _ _ p.longitude (player_labels id p) here
          (add_gauge_with_labels-own families _ _ p.latitude (player_labels id p) here own))
    | inr unknown ↦ rw unknown own
  ]

  add_player-own :
      (float : FloatOps) (p : Player) (families : Families)
      → IsOwnFamilies id families
      → IsOwnFamilies id (add_player float id p families)
  unfolding add_player extra_labels
  add_player-own float p families own =
      add_gauge_with_labels-own _ "metricz_rcon_player_ping_seconds" "Player latency."
        (FloatOps.div float (FloatOps.of_int64 float p.ping) float_thousand) (player_labels id p)
        here
        (add_location-own p _ (
          add_gauge_with_labels-own families "metricz_rcon_player_joined"
            "Player joined to server (0=lobby, loading or in queue. 1=playing)."
            (if p.lobby then float_zero else float_one) (extra_labels id p) here own))

  count_players-own :
      (float : FloatOps) (ps : List Player) (acc : Counts)
      → IsOwnFamilies id acc.families
      → IsOwnFamilies id (count_players float id ps acc).families
  unfolding count_players count_player
  count_players-own float [] acc own = own
  count_players-own float (p ∷ ps) acc own =
      count_players-own float ps (count_player float id p acc) (elim (Bool-cases p.valid) [
        | inl valid ↦ rw valid (add_player-own float p acc.families own)
        | inr invalid ↦ rw invalid own
      ])

  counts_of-own :
      (float : FloatOps) (players : Option (List Player))
      → IsOwnFamilies id (counts_of float id players).families
  counts_of-own float none = tt
  counts_of-own float (some players) = count_players-own float players _ tt

  -- Each metric of an RCon poll names the instance.
  pub generate_metrics-own :
      (float : FloatOps) (players : Option (List Player))
      → IsOwnFamilies id (generate_metrics float id players)
  unfolding generate_metrics
  generate_metrics-own float players =
      add_gauge-own _ _ _ _
        (add_gauge-own _ _ _ _ (add_gauge-own _ _ _ _ (counts_of-own float players)))

info_family-own :
    (srv : ServerDefinition) (info : Option Info)
    → IsOwnFamilies srv.instance_id (info_family srv info)
unfolding info_family meta_labels
info_family-own srv none = tt
info_family-own srv (some info) =
    add_gauge_with_labels-own srv.instance_id [] "metricz_a2s_info"
      "Static metadata about the game server." float_one (meta_labels srv info) here tt

-- Each metric of an A2S poll names the instance.
pub set_a2s_metrics-own :
    (float : FloatOps) (seconds : Duration → Float64) (srv : ServerDefinition) (info : Option Info)
    → IsOwnFamilies srv.instance_id (set_a2s_metrics float seconds srv info)
unfolding set_a2s_metrics
set_a2s_metrics-own float seconds srv info =
    add_a2s_gauges-own srv.instance_id (gauges_of float seconds info) (info_family srv info)
      (info_family-own srv info)
