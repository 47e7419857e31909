-- ===== src/Poller/A2s/Series.antt =====
-- The samples that an A2S poll sets: a2s.go, setA2SMetrics.
use metricz_exporter.Base.{◌≡◌, String, string_key, Option, none, some, List, [], ◌∷◌, ◌++◌}
use metricz_exporter.Metrics.{Float64, float_one, FloatOps, Metric, Families}
use metricz_exporter.Storage.{Duration}
use metricz_exporter.Config.{ServerDefinition}
use metricz_exporter.Poller.Dto.{gauge_of, label_pairs}
use metricz_exporter.Poller.Dto.Series.{
  series_of, series_in, own_gauge, Appends, Appends-append, Appends-refl, add_gauge-Appends,
  add_gauge_with_labels-Appends,
}
use metricz_exporter.Poller.A2s.{
  Info, Gauges, gauges_of, info_family, add_a2s_gauges, meta_labels, set_a2s_metrics,
}

-- The samples of the gauges, by name.
abbrev pub gauge_samples : String → Gauges → List (String × Metric)
gauge_samples id g =
    own_gauge id "metricz_a2s_up" g.state
    ∷ own_gauge id "metricz_a2s_info_response_time_seconds" g.ping
    ∷ own_gauge id "metricz_a2s_info_players_online" g.players
    ∷ own_gauge id "metricz_a2s_info_players_slots" g.slots
    ∷ own_gauge id "metricz_a2s_info_players_queue" g.queue
    ∷ []

-- The sample that describes the server, if it answered.
abbrev pub info_samples : ServerDefinition → Option Info → List (String × Metric)
info_samples srv none = []
info_samples srv (some info) =
    ("metricz_a2s_info", gauge_of (label_pairs (meta_labels srv info)) float_one) ∷ []

info_family-Appends :
    (srv : ServerDefinition) (info : Option Info)
    → Appends (info_samples srv info) [] (info_family srv info)
unfolding info_family
info_family-Appends srv none = Appends-refl
info_family-Appends srv (some info) =
    add_gauge_with_labels-Appends [] "metricz_a2s_info" "Static metadata about the game server."
      float_one (meta_labels srv info)

add_a2s_gauges-Appends :
    (id : String) (g : Gauges) (families : Families)
    → Appends (gauge_samples id g) families (add_a2s_gauges id g families)
unfolding add_a2s_gauges
add_a2s_gauges-Appends id g families = Appends-append (add_gauge-Appends families _ _ g.state id) (
    Appends-append (add_gauge-Appends _ _ _ g.ping id) (
      Appends-append (add_gauge-Appends _ _ _ g.players id)
        (Appends-append (add_gauge-Appends _ _ _ g.slots id) (add_gauge-Appends _ _ _ g.queue id))))

-- The samples of setA2SMetrics under any name, in the order in which they are added.
pub series_of-set_a2s_metrics :
    (float : FloatOps) (seconds : Duration → Float64) (srv : ServerDefinition) (info : Option Info)
    (j : String)
    → series_of j (set_a2s_metrics float seconds srv info)
      ≡ series_in j
          (info_samples srv info ++ gauge_samples srv.instance_id (gauges_of float seconds info))
unfolding set_a2s_metrics series_of
series_of-set_a2s_metrics float seconds srv info j =
    (Appends-append (info_family-Appends srv info) (
        add_a2s_gauges-Appends srv.instance_id (gauges_of float seconds info)
          (info_family srv info))).same
      j
