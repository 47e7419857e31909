-- ===== src/Poller/A2s/Readings.antt =====
-- What a scrape is to show of a server after an A2S poll, written out from the poll's answer:
-- a2s.go, setA2SMetrics.
use metricz_exporter.Base.{
  ◌≡◌, ℕ, refl, sym, pos, ◌<>◌, Option, Option-cases, none, some, List, [], ◌∷◌, ◌++◌, map, In,
  here, there, String, string_key, ◌⊎◌, inl, inr,
}
use metricz_exporter.Metrics.{Float64, float_zero, float_one, FloatOps, LabelPair, Metric, Families}
use metricz_exporter.Storage.{Duration}
use metricz_exporter.Storage.Owned.{instance_label}
use metricz_exporter.Config.{ServerDefinition, A2sConfig}
use metricz_exporter.Strconv.{format_uint}
use metricz_exporter.Poller.Dto.{gauge_of}
use metricz_exporter.Poller.Dto.Series.{series_in}
use metricz_exporter.Poller.Dto.Gauges.{
  AreGauges, Holds, In-series_of, In-series_in, add_gauge-AreGauges,
  add_gauge_with_labels-AreGauges,
}
use metricz_exporter.Poller.A2s.{
  Info, PollError, Gauges, before_colon, gauges_of, info_family, add_a2s_gauges, meta_labels,
  set_a2s_metrics,
}
use metricz_exporter.Poller.A2s.Series.{info_samples, gauge_samples, series_of-set_a2s_metrics}
use metricz_exporter.Poller.Manager.{info_of}

-- A sample to be seen: its name, labels and value.
pub record Reading : Type 0 where
  pub name : String
  pub labels : List LabelPair
  pub value : Float64

abbrev label : String → String → LabelPair
label name value = record { name = name; value = value }

abbrev own : String → String → Float64 → Reading
own id name value = record { name = name; labels = instance_label id ∷ []; value = value }

-- What the server's description says of it.
abbrev pub about : String → String → Info → Reading
about id address info = record {
  name = "metricz_a2s_info";
  labels =
      instance_label id
      ∷ label "server_name" info.name
      ∷ label "server_description" info.game
      ∷ label "world" info.map
      ∷ label "version" info.version
      ∷ label "query_address" address
      ∷ label "game_address" (before_colon address <> (":" <> format_uint info.port))
      ∷ label "environment" info.environment
      ∷ [];
  value = float_one;
}

-- The players that wait, if the server tells their number.
abbrev pub waiting : FloatOps → Option ℕ → Float64
waiting float none = float_zero
waiting float (some n) = FloatOps.of_int64 float (pos n)

-- What is to be seen of a server after an answer, or after an error.
abbrev pub readings :
    FloatOps → (Duration → Float64) → String → String → PollError ⊎ Info → List Reading
readings float seconds id address (inl e) =
    own id "metricz_a2s_up" float_zero
    ∷ own id "metricz_a2s_info_response_time_seconds" float_zero
    ∷ own id "metricz_a2s_info_players_online" float_zero
    ∷ own id "metricz_a2s_info_players_slots" float_zero
    ∷ own id "metricz_a2s_info_players_queue" float_zero
    ∷ []
readings float seconds id address (inr info) =
    about id address info
    ∷ own id "metricz_a2s_up" float_one
    ∷ own id "metricz_a2s_info_response_time_seconds" (seconds info.ping)
    ∷ own id "metricz_a2s_info_players_online" (FloatOps.of_int64 float (pos info.players))
    ∷ own id "metricz_a2s_info_players_slots" (FloatOps.of_int64 float (pos info.max_players))
    ∷ own id "metricz_a2s_info_players_queue" (waiting float info.queue)
    ∷ []

abbrev named : Reading → String × Metric
named x = (x.name, gauge_of x.labels x.value)

In-map_of {ℓ κ} :
    {A : Type ℓ} {B : Type κ} (f : A → B) {x : A} (xs : List A) → In x xs → In (f x) (map f xs)
In-map_of f [] p = elim p [ ]
In-map_of f (y ∷ xs) here = here
In-map_of f (y ∷ xs) (there p) = there (In-map_of f xs p)

module _ (float : FloatOps) (seconds : Duration → Float64) (srv : ServerDefinition)
    (cfg : A2sConfig) (configured : srv.a2s ≡ some cfg) where
  named-readings :
      (answer : PollError ⊎ Info)
      → map named (readings float seconds srv.instance_id cfg.address answer)
        ≡ info_samples srv (info_of answer)
          ++ gauge_samples srv.instance_id (gauges_of float seconds (info_of answer))
  unfolding meta_labels gauges_of
  named-readings (inl e) = refl
  named-readings (inr info) = elim (Option-cases info.queue) [
    | inl unknown ↦ rw (configured, unknown) refl
    | inr (n, told) ↦ rw (configured, told) refl
  ]

info_family-AreGauges :
    (srv : ServerDefinition) (info : Option Info) → AreGauges (info_family srv info)
unfolding info_family
info_family-AreGauges srv none = tt
info_family-AreGauges srv (some info) =
    add_gauge_with_labels-AreGauges [] "metricz_a2s_info" "Static metadata about the game server."
      float_one (meta_labels srv info) tt

add_a2s_gauges-AreGauges :
    (id : String) (g : Gauges) (families : Families)
    → AreGauges families
    → AreGauges (add_a2s_gauges id g families)
unfolding add_a2s_gauges
add_a2s_gauges-AreGauges id g families all = add_gauge-AreGauges _ _ _ g.queue id (
    add_gauge-AreGauges _ _ _ g.slots id (
      add_gauge-AreGauges _ _ _ g.players id
        (add_gauge-AreGauges _ _ _ g.ping id (add_gauge-AreGauges families _ _ g.state id all))))

set_a2s_metrics-AreGauges :
    (float : FloatOps) (seconds : Duration → Float64) (srv : ServerDefinition) (info : Option Info)
    → AreGauges (set_a2s_metrics float seconds srv info)
unfolding set_a2s_metrics
set_a2s_metrics-AreGauges float seconds srv info =
    add_a2s_gauges-AreGauges srv.instance_id (gauges_of float seconds info) (info_family srv info)
      (info_family-AreGauges srv info)

-- The families that an answer makes hold each of its readings.
pub readings-Holds :
    (float : FloatOps) (seconds : Duration → Float64) (srv : ServerDefinition) (cfg : A2sConfig)
    (answer : PollError ⊎ Info) (x : Reading)
    → srv.a2s ≡ some cfg
    → In x (readings float seconds srv.instance_id cfg.address answer)
    → Holds x.name (gauge_of x.labels x.value) (set_a2s_metrics float seconds srv (info_of answer))
readings-Holds float seconds srv cfg answer x configured p =
    let families = set_a2s_metrics float seconds srv (info_of answer) in
    let all = readings float seconds srv.instance_id cfg.address answer in
    let m = gauge_of x.labels x.value in
    let listed : In m (series_in x.name (map named all)) =
      In-series_in x.name m (map named all) (In-map_of named all p) in
    In-series_of x.name m families (set_a2s_metrics-AreGauges float seconds srv (info_of answer)) (
      rw
        (
          series_of-set_a2s_metrics float seconds srv (info_of answer) x.name,
          sym (named-readings float seconds srv cfg configured answer),
        )
        listed)
