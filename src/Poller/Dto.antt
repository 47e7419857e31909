-- ===== src/Poller/Dto.antt =====
-- internal/poller/dto.go: how the pollers build metric families. The map and its families are
-- passed and returned, where the code changes them in place.
pub mod Series
pub mod Gauges
use metricz_exporter.Base.{String, string_key, Option, none, some, List, [], ◌∷◌, ◌++◌, map}
use metricz_exporter.Base.Map
use metricz_exporter.Base.Map.{Map}
use metricz_exporter.Metrics.{Float64, LabelPair, Metric, MetricType, MetricFamily, Families}

-- The metric is appended to the family of that name, or starts a new one.
unfoldable pub add_metric : Families → String → String → Metric → Families
unfolding Map.get Map.set
add_metric families name help metric = elim (Map.get name families) [
  | some mf ↦ Map.set name (record mf { metric = mf.metric ++ metric ∷ [] }) families
  | none ↦
      Map.set name
        (record { name = name; help = help; type = MetricType.gauge; metric = metric ∷ [] })
        families
]

abbrev pub gauge_of : List LabelPair → Float64 → Metric
gauge_of labels value = record { label = labels; gauge = some value; counter = none }

unfoldable pub add_gauge : Families → String → String → Float64 → String → Families
unfolding add_metric
add_gauge families name help value instance_id =
    add_metric families name help
      (gauge_of (record { name = "instance_id"; value = instance_id } ∷ []) value)

-- The loop over the label map.
abbrev pub label_pairs : Map String String → List LabelPair
label_pairs labels = map (λ e. record { name = e.0; value = e.1 }) labels

unfoldable pub add_gauge_with_labels :
    Families → String → String → Float64 → Map String String → Families
unfolding add_metric
add_gauge_with_labels families name help value labels =
    add_metric families name help (gauge_of (label_pairs labels) value)
