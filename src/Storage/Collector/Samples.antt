-- ===== src/Storage/Collector/Samples.antt =====
-- Which samples the collector sends for a set of families: collector.go, emitFamilies.
use metricz_exporter.Base.{
  ◌≡◌, ◌↔◌, refl, ◌⊎◌, inl, inr, Bool, true, String, Option, none, some, List, [], ◌∷◌, In, here,
  there, In-append, In-append_left, In-append_right, arith,
}
use metricz_exporter.Metrics.{Float64, Metric, MetricType, MetricFamily, Families, get_value}
use metricz_exporter.Storage.Collector.{
  Desc, ConstMetric, ValueType, counter_value, gauge_value, desc_of, label_values, send_valid,
  emit_typed, emit_metric, emit_metrics, emit_families,
}

abbrev pub sample : MetricFamily → Metric → ValueType → Float64 → ConstMetric
sample family m value_type value = record {
  desc = desc_of family m;
  value_type = value_type;
  value = value;
  label_values = label_values m;
}

-- The sample that a gauge or a counter stands for.
abbrev pub IsSampleOf : MetricFamily → Metric → ConstMetric → Type 0
IsSampleOf family m c =
    ((family.type ≡ MetricType.gauge) × (c ≡ sample family m gauge_value (get_value m.gauge)))
    ⊎ ((family.type ≡ MetricType.counter)
        × (c ≡ sample family m counter_value (get_value m.counter)))

-- A metric of one of the families, with a valid description, that the sample stands for.
pub record Source (valid : Desc → Bool) (families : Families) (c : ConstMetric) : Type 0 where
  pub name : String
  pub family : MetricFamily
  pub metric : Metric
  pub held : In (name, family) families
  pub listed : In metric family.metric
  pub accepted : valid (desc_of family metric) ≡ true
  pub sampled : IsSampleOf family metric c

send_valid_sound :
    (o : Option ConstMetric) (c : ConstMetric) → In (some c) (send_valid o) → o ≡ some c
send_valid_sound none c p = elim p [ ]
send_valid_sound (some m) c here = refl
send_valid_sound (some m) c (there p) = elim p [ ]

send_valid-no_nil : (o : Option ConstMetric) → ¬ In none (send_valid o)
send_valid-no_nil none p = elim p [ ]
send_valid-no_nil (some m) (there p) = elim p [ ]

module _ (valid : Desc → Bool) where
  emit_typed_sound :
      (family : MetricFamily) (m : Metric) (type : MetricType) (c : ConstMetric)
      → family.type ≡ type
      → In (some c) (emit_typed valid family m type)
      → (valid (desc_of family m) ≡ true) × IsSampleOf family m c
  unfolding emit_typed
  emit_typed_sound family m MetricType.gauge c e p =
      let sent = send_valid_sound _ c p in ground arith
  emit_typed_sound family m MetricType.counter c e p =
      let sent = send_valid_sound _ c p in ground arith
  emit_typed_sound family m _ c e p = elim p [ ]

  emit_metric_complete :
      (family : MetricFamily) (m : Metric) (type : MetricType) (c : ConstMetric)
      → family.type ≡ type
      → valid (desc_of family m) ≡ true
      → IsSampleOf family m c
      → In (some c) (emit_typed valid family m type)
  unfolding emit_typed
  emit_metric_complete family m MetricType.gauge c e ok (inl (_, eq)) = rw (ok, eq) here
  emit_metric_complete family m MetricType.counter c e ok (inr (_, eq)) = rw (ok, eq) here
  emit_metric_complete family m _ c e ok (inl (t, _)) = cc
  emit_metric_complete family m _ c e ok (inr (t, _)) = cc

  emit_metrics_sound :
      (family : MetricFamily) (ms : List Metric) (c : ConstMetric)
      → In (some c) (emit_metrics valid family ms)
      → (m : Metric) × In m ms × (valid (desc_of family m) ≡ true) × IsSampleOf family m c
  unfolding emit_metrics emit_metric
  emit_metrics_sound family [] c p = elim p [ ]
  emit_metrics_sound family (m ∷ ms) c p = elim (In-append (emit_metric valid family m) p) [
    | inl q ↦ let (ok, is) = emit_typed_sound family m family.type c refl q in (m, here, ok, is)
    | inr q ↦ let (n, at, ok, is) = emit_metrics_sound family ms c q in (n, there at, ok, is)
  ]

  emit_metrics_complete :
      (family : MetricFamily) (ms : List Metric) (m : Metric) (c : ConstMetric)
      → In m ms
      → valid (desc_of family m) ≡ true
      → IsSampleOf family m c
      → In (some c) (emit_metrics valid family ms)
  unfolding emit_metrics emit_metric
  emit_metrics_complete family [] m c at ok is = elim at [ ]
  emit_metrics_complete family (m ∷ ms) _ c here ok is =
      In-append_left (emit_metrics valid family ms)
        (emit_metric_complete family m family.type c refl ok is)
  emit_metrics_complete family (m ∷ ms) n c (there at) ok is =
      In-append_right (emit_metric valid family m) (emit_metrics_complete family ms n c at ok is)

  emit_families_sound :
      (families : Families) (c : ConstMetric)
      → In (some c) (emit_families valid families)
      → Source valid families c
  unfolding emit_families
  emit_families_sound [] c p = elim p [ ]
  emit_families_sound ((name, family) ∷ rest) c p =
      elim (In-append (emit_metrics valid family family.metric) p) [
        | inl q ↦
            let (m, at, ok, is) = emit_metrics_sound family family.metric c q in
            record {
              name = name;
              family = family;
              metric = m;
              held = here;
              listed = at;
              accepted = ok;
              sampled = is;
            }
        | inr q ↦
            let found = emit_families_sound rest c q in
            record {
              name = found.name;
              family = found.family;
              metric = found.metric;
              held = there found.held;
              listed = found.listed;
              accepted = found.accepted;
              sampled = found.sampled;
            }
      ]

  emit_families_complete :
      (families : Families) (name : String) (family : MetricFamily) (m : Metric) (c : ConstMetric)
      → In (name, family) families
      → In m family.metric
      → valid (desc_of family m) ≡ true
      → IsSampleOf family m c
      → In (some c) (emit_families valid families)
  unfolding emit_families
  emit_families_complete [] n f m c held at ok is = elim held [ ]
  emit_families_complete ((name, family) ∷ rest) _ _ m c here at ok is =
      In-append_left (emit_families valid rest)
        (emit_metrics_complete family family.metric m c at ok is)
  emit_families_complete ((name, family) ∷ rest) n f m c (there held) at ok is =
      In-append_right (emit_metrics valid family family.metric)
        (emit_families_complete rest n f m c held at ok is)

  -- The collector sends a metric for a set of families exactly if it is the sample of a gauge or a
  -- counter of one of them whose description is valid.
  pub emit_families_iff :
      (families : Families) (c : ConstMetric)
      → In (some c) (emit_families valid families) ↔ Source valid families c
  emit_families_iff families c = (
    emit_families_sound families c,
    λ s.
        emit_families_complete families s.name s.family s.metric c s.held s.listed s.accepted
          s.sampled,
  )
