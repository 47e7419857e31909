-- ===== src/Poller/Dto/Series.antt =====
-- The series of a family that gauges are added to: dto.go.
use mathlib.Core.List.{append-nil, append_assoc}
use metricz_exporter.Base.{
  ap, ◌∙◌, sym, ◌≡◌, refl, ◌≟◌, ite, String, string_key, Option-cases, inl, inr, none, some, List,
  [], ◌∷◌, ◌++◌, arith,
}
use metricz_exporter.Base.Map
use metricz_exporter.Base.Map.{Map, get-set}
use metricz_exporter.Metrics.{Float64, Metric, MetricFamily, Families}
use metricz_exporter.Poller.Dto.{
  add_metric, gauge_of, add_gauge, label_pairs, add_gauge_with_labels,
}

-- The metrics under a name, in their order.
unfoldable pub series_of : String → Families → List Metric
unfolding Map.get
series_of name families = elim (Map.get name families) [ none ↦ [] | some mf ↦ mf.metric ]

series_of-missing :
    (name : String) (families : Families)
    → Map.get name families ≡ none
    → series_of name families ≡ []
unfolding series_of
series_of-missing name families h = rw (h, series_of) refl

series_of-found :
    (name : String) (mf : MetricFamily) (families : Families)
    → Map.get name families ≡ some mf
    → series_of name families ≡ mf.metric
unfolding series_of
series_of-found name mf families h = rw (h, series_of) refl

series_of-set :
    (j name : String) (mf : MetricFamily) (families : Families)
    → series_of j (Map.set name mf families) ≡ ite (name ≟ j) mf.metric (series_of j families)
unfolding series_of
series_of-set j name mf families = ground (arith, get-set name j mf families)

series_of-add_metric :
    (families : Families) (name help : String) (metric : Metric) (j : String)
    → series_of j (add_metric families name help metric)
      ≡ ite (name ≟ j) (series_of name families ++ metric ∷ []) (series_of j families)
unfolding add_metric
series_of-add_metric families name help metric j = elim (Option-cases (Map.get name families)) [
  | inl new ↦
      rw (new, add_metric, series_of-missing name families new) (series_of-set j name _ families)
  | inr (mf, found) ↦
      rw (found, add_metric, series_of-found name mf families found)
        (series_of-set j name _ families)
]

-- addGauge puts one gauge with the instance's id and the value after the metrics of the family of
-- that name, which may be a new one, and leaves the metrics of other names as they are.
pub series_of-add_gauge :
    (families : Families) (name help : String) (value : Float64) (id : String) (j : String)
    → series_of j (add_gauge families name help value id)
      ≡ ite
          (name ≟ j)
          (series_of name families
            ++ gauge_of (record { name = "instance_id"; value = id } ∷ []) value ∷ [])
          (series_of j families)
unfolding add_gauge
series_of-add_gauge families name help value id = series_of-add_metric families name help _

-- addGaugeWithLabels puts one gauge with the given labels and the value after the metrics of the
-- family of that name, which may be a new one, and leaves the metrics of other names as they are.
pub series_of-add_gauge_with_labels :
    (families : Families) (name help : String) (value : Float64) (labels : Map String String)
    (j : String)
    → series_of j (add_gauge_with_labels families name help value labels)
      ≡ ite
          (name ≟ j)
          (series_of name families ++ gauge_of (label_pairs labels) value ∷ [])
          (series_of j families)
unfolding add_gauge_with_labels
series_of-add_gauge_with_labels families name help value labels =
    series_of-add_metric families name help _

-- The metrics that a list of named metrics holds under a name.
unfoldable pub series_in : String → List (String × Metric) → List Metric
series_in j [] = []
series_in j ((name, metric) ∷ sent) =
    let rest = series_in j sent in ite (name ≟ j) (metric ∷ rest) rest

pub series_in-append :
    (j : String) (sent more : List (String × Metric))
    → series_in j (sent ++ more) ≡ series_in j sent ++ series_in j more
unfolding series_in
series_in-append j [] more = refl
series_in-append j ((name, metric) ∷ sent) more = ground (arith, series_in-append j sent more)

-- The step from the first to the second families appends the listed metrics, each to the family of
-- its name.
pub record Appends (sent : List (String × Metric)) (families families' : Families) : Type 0 where
  pub same : (j : String) → series_of j families' ≡ series_of j families ++ series_in j sent

pub add_metric-Appends :
    (families : Families) (name help : String) (metric : Metric)
    → Appends ((name, metric) ∷ []) families (add_metric families name help metric)
unfolding series_in
add_metric-Appends families name help metric = record {
  same = λ j. series_of-add_metric families name help metric j ∙ pick j (name ≟ j);
}
  where
    pick :
        (j : String) (d : Dec (name ≡ j))
        → ite d (series_of name families ++ metric ∷ []) (series_of j families)
          ≡ series_of j families ++ ite d (metric ∷ []) []
    pick j (yes e) = ap (λ i. series_of i families ++ metric ∷ []) e
    pick j (no _) = sym (append-nil (series_of j families))

pub Appends-append :
    {sent more : List (String × Metric)} {f g h : Families}
    → Appends sent f g
    → Appends more g h
    → Appends (sent ++ more) f h
Appends-append {sent} {more} {f} first next = record {
  same = λ j.
      next.same j
      ∙ rw (first.same j, series_in-append j sent more)
          (append_assoc (series_of j f) (series_in j sent) (series_in j more));
}

pub Appends-refl : {f : Families} → Appends [] f f
unfolding series_in
Appends-refl {f} = record { same = λ j. sym (append-nil (series_of j f)) }

abbrev pub own_gauge : String → String → Float64 → String × Metric
own_gauge id name value = (name, gauge_of (record { name = "instance_id"; value = id } ∷ []) value)

pub add_gauge-Appends :
    (families : Families) (name help : String) (value : Float64) (id : String)
    → Appends (own_gauge id name value ∷ []) families (add_gauge families name help value id)
unfolding add_gauge
add_gauge-Appends families name help value id = add_metric-Appends families name help _

pub add_gauge_with_labels-Appends :
    (families : Families) (name help : String) (value : Float64) (labels : Map String String)
    → Appends
        ((name, gauge_of (label_pairs labels) value) ∷ [])
        families
        (add_gauge_with_labels families name help value labels)
unfolding add_gauge_with_labels
add_gauge_with_labels-Appends families name help value labels =
    add_metric-Appends families name help _
