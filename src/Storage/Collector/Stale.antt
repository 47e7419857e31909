-- ===== src/Storage/Collector/Stale.antt =====
-- What the collector sends for an instance's ingested metrics, fresh or stale: collector.go, Collect.
use metricz_exporter.Base.{
  ◌≡◌, ◌↔◌, refl, sym, subst, ◌⊎◌, inl, inr, Bool, Bool-cases, true, false, ltb_ℤ, Option, none,
  some, List, [], ◌∷◌, In, here, there, In-map, map, arith,
}
use metricz_exporter.Metrics.{float_zero, FloatOps, Metric, MetricFamily, Families}
use metricz_exporter.Storage.{Time, InstanceState}
use metricz_exporter.Storage.Collector.{
  Desc, ConstMetric, gauge_value, Exporter, desc_of, label_values, new_const_metric,
  emit_status_zero, emit_current, emit_ingested, time_sub, calc_threshold, is_stale,
}
use metricz_exporter.Storage.Collector.Samples.{sample, Source, emit_families_iff}
use metricz_exporter.Storage.Collector.Staleness.{is_stale-eq}

-- A metric of the instance's last status, at 0.
pub record ZeroSource (valid : Desc → Bool) (cached : Option MetricFamily) (c : ConstMetric)
    : Type 0 where
  pub family : MetricFamily
  pub metric : Metric
  pub held : cached ≡ some family
  pub listed : In metric family.metric
  pub accepted : valid (desc_of family metric) ≡ true
  pub zeroed : c ≡ sample family metric gauge_value float_zero

-- The families were ingested longer ago than both ages.
abbrev pub IsOld : FloatOps → Exporter → Time → InstanceState → Type 0
IsOld float e now state =
    let age = time_sub now state.last_ingest_update in
    (ltb_ℤ e.min_stale_age age ≡ true) × (ltb_ℤ (calc_threshold float e state) age ≡ true)

-- They were not: one of the two ages is not over.
abbrev pub IsYoung : FloatOps → Exporter → Time → InstanceState → Type 0
IsYoung float e now state =
    let age = time_sub now state.last_ingest_update in
    (ltb_ℤ e.min_stale_age age ≡ false) ⊎ (ltb_ℤ (calc_threshold float e state) age ≡ false)

module _ (float : FloatOps) (e : Exporter) (now : Time) (state : InstanceState) where
  IsOld-of : is_stale float e now state ≡ true → IsOld float e now state
  IsOld-of stale = ground (arith, is_stale-eq float e now state)

  IsYoung-of : is_stale float e now state ≡ false → IsYoung float e now state
  IsYoung-of fresh = ground (arith, is_stale-eq float e now state)

  not_both : is_stale float e now state ≡ true → ¬ IsYoung float e now state
  not_both stale young = ground (arith, is_stale-eq float e now state)

  not-IsOld : is_stale float e now state ≡ false → ¬ IsOld float e now state
  not-IsOld fresh old = ground (arith, is_stale-eq float e now state)

abbrev zero_of : (Desc → Bool) → MetricFamily → Metric → Option ConstMetric
zero_of valid family m =
    new_const_metric valid (desc_of family m) gauge_value float_zero (label_values m)

module _ (valid : Desc → Bool) where
  zeros_sound :
      (family : MetricFamily) (ms : List Metric) (c : ConstMetric)
      → In (some c) (map (zero_of valid family) ms)
      → (m : Metric) × In m ms
        × (valid (desc_of family m) ≡ true)
        × (c ≡ sample family m gauge_value float_zero)
  zeros_sound family ms c p =
      let (m, at, e) = In-map (zero_of valid family) ms p in
      elim (Bool-cases (valid (desc_of family m))) [
        | inl ok ↦ (m, at, ok, ground arith)
        | inr refused ↦ let no : ⊥ = ground arith in elim no [ ]
      ]

  zeros_complete :
      (family : MetricFamily) (ms : List Metric) (m : Metric)
      → In m ms
      → valid (desc_of family m) ≡ true
      → In (some (sample family m gauge_value float_zero)) (map (zero_of valid family) ms)
  zeros_complete family [] m at ok = elim at [ ]
  zeros_complete family (n ∷ ms) _ here ok = rw ok here
  zeros_complete family (n ∷ ms) m (there at) ok = there (zeros_complete family ms m at ok)

  emit_current_fresh :
      (cached : Option MetricFamily) (families : Families) (c : ConstMetric)
      → In (some c) (emit_current valid false cached (some families)) ↔ Source valid families c
  unfolding emit_current
  emit_current_fresh cached families c = emit_families_iff valid families c

  emit_current_stale :
      (cached : Option MetricFamily) (families : Families) (c : ConstMetric)
      → In (some c) (emit_current valid true cached (some families)) ↔ ZeroSource valid cached c
  unfolding emit_current emit_status_zero
  emit_current_stale none families c = (λ p. elim p [ ], λ z. let no : ⊥ = cc z.held in elim no [ ])
  emit_current_stale (some family) families c = (
    λ p.
        let (m, at, ok, e) = zeros_sound family family.metric c p in
        record { family = family; metric = m; held = refl; listed = at; accepted = ok; zeroed = e },
    λ z.
        let same : z.family ≡ family = cc z.held in
        subst (λ d. In (some d) (map (zero_of valid family) family.metric))
          (sym (rw same at z.zeroed))
          (zeros_complete family family.metric z.metric (rw same at z.listed)
            (rw same at z.accepted)),
  )

  -- If an instance has ingested families, a metric is sent for them exactly in these cases: the
  -- minimal stale age or the multiple of its scrape interval is not over since its last ingest,
  -- and the metric is the sample of a gauge or counter of the families whose description is valid;
  -- or both are over, and it is the gauge, with the value 0, of a metric of the cached status
  -- whose description is valid.
  pub emit_ingested_iff :
      (float : FloatOps) (e : Exporter) (now : Time) (state : InstanceState) (families : Families)
      (c : ConstMetric)
      → state.ingested_families ≡ some families
      → In (some c) (emit_ingested float valid e now state)
        ↔ (IsYoung float e now state × Source valid families c)
          ⊎ (IsOld float e now state × ZeroSource valid state.cached_status_family c)
  unfolding emit_ingested
  emit_ingested_iff float e now state families c held =
      elim (Bool-cases (is_stale float e now state)) [
        | inl stale ↦
            rw (stale, held)
              (
                λ p. inr (
                  IsOld-of float e now state stale,
                  (emit_current_stale state.cached_status_family families c).0 p,
                ),
                λ sent. elim sent [
                  | inl (young, source) ↦ elim (not_both float e now state stale young) [ ]
                  | inr (old, source) ↦
                      (emit_current_stale state.cached_status_family families c).1 source
                ],
              )
        | inr fresh ↦
            rw (fresh, held)
              (
                λ p. inl (
                  IsYoung-of float e now state fresh,
                  (emit_current_fresh state.cached_status_family families c).0 p,
                ),
                λ sent. elim sent [
                  | inl (young, source) ↦
                      (emit_current_fresh state.cached_status_family families c).1 source
                  | inr (old, source) ↦ elim (not-IsOld float e now state fresh old) [ ]
                ],
              )
      ]
