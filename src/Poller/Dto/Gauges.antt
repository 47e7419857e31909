-- ===== src/Poller/Dto/Gauges.antt =====
-- The families that gauges are added to, as the collector reads them: dto.go.
use metricz_exporter.Base.{
  ◌≡◌, refl, Option-cases, String, string_key, some, List, [], ◌∷◌, inl, inr, In, here, there,
  if_pos, if_neg, ◌≟◌, arith,
}
use metricz_exporter.Base.Map
use metricz_exporter.Base.Map.{Map}
use metricz_exporter.Metrics.{Float64, Metric, MetricType, MetricFamily, Families}
use metricz_exporter.Poller.Dto.{add_metric, add_gauge, add_gauge_with_labels}
use metricz_exporter.Poller.Dto.Series.{series_of, series_in}

-- The family has the name under which it stands, and is of gauges.
abbrev pub IsGaugeFamily : String → MetricFamily → Type 0
IsGaugeFamily name mf = (mf.name ≡ name) × (mf.type ≡ MetricType.gauge)

abbrev pub AreGauges : Families → Type 0
AreGauges = Map.Entries IsGaugeFamily

pub add_metric-AreGauges :
    (families : Families) (name help : String) (m : Metric)
    → AreGauges families
    → AreGauges (add_metric families name help m)
unfolding add_metric
add_metric-AreGauges families name help m all = elim (Option-cases (Map.get name families)) [
  | inl new ↦ rw (new, add_metric) (Map.Entries-set IsGaugeFamily name _ families (refl, refl) all)
  | inr (mf, found) ↦
      rw (found, add_metric)
        (Map.Entries-set IsGaugeFamily name _ families
          (Map.Entries-get IsGaugeFamily name mf families all found) all)
]

-- A family with the metric, as the map holds it.
pub record Holds (name : String) (m : Metric) (families : Families) : Type 0 where
  pub family : MetricFamily
  pub held : In (name, family) families
  pub listed : In m family.metric
  pub of_gauges : IsGaugeFamily name family

get-In : {V : Type 0} (k : String) (v : V) (m : Map String V) → Map.get k m ≡ some v → In (k, v) m
unfolding Map.get
get-In k v [] h = let no : ⊥ = cc h in elim no [ ]
get-In k v ((j, w) ∷ m) h = elim (j ≟ k) [
  | yes same ↦ let e : w ≡ v = ground arith in rw (same, e) here
  | no apart ↦ there (get-In k v m (ground arith))
]

pub In-series_of :
    (name : String) (m : Metric) (families : Families)
    → AreGauges families
    → In m (series_of name families)
    → Holds name m families
unfolding series_of
In-series_of name m families all p = elim (Option-cases (Map.get name families)) [
  | inl missing ↦ elim (rw (missing, series_of) at p) [ ]
  | inr (mf, found) ↦ record {
    family = mf;
    held = get-In name mf families found;
    listed = rw (found, series_of) at p;
    of_gauges = Map.Entries-get IsGaugeFamily name mf families all found;
  }
]

pub In-series_in :
    (name : String) (m : Metric) (sent : List (String × Metric))
    → In (name, m) sent
    → In m (series_in name sent)
unfolding series_in
In-series_in name m [] p = elim p [ ]
In-series_in name m ((j, n) ∷ sent) here = rw (if_pos (name ≟ name) refl) here
In-series_in name m ((j, n) ∷ sent) (there p) = elim (j ≟ name) [
  | yes same ↦ rw (if_pos (j ≟ name) same) (there (In-series_in name m sent p))
  | no apart ↦ rw (if_neg (j ≟ name) apart) (In-series_in name m sent p)
]

pub add_gauge-AreGauges :
    (families : Families) (name help : String) (value : Float64) (id : String)
    → AreGauges families
    → AreGauges (add_gauge families name help value id)
unfolding add_gauge
add_gauge-AreGauges families name help value id = add_metric-AreGauges families name help _

pub add_gauge_with_labels-AreGauges :
    (families : Families) (name help : String) (value : Float64) (labels : Map String String)
    → AreGauges families
    → AreGauges (add_gauge_with_labels families name help value labels)
unfolding add_gauge_with_labels
add_gauge_with_labels-AreGauges families name help value labels =
    add_metric-AreGauges families name help _
