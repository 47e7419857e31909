-- ===== src/Storage/Collector/Owned.antt =====
-- The instance that the samples of a scrape name: collector.go.
use metricz_exporter.Base.{
  ◌≡◌, refl, ◌≟◌, ite, if_cases, Bool, true, false, int_key, String, Option, none, some, List, [],
  ◌∷◌, ◌++◌, map, All, All-append, In, here,
}
use metricz_exporter.Metrics.{
  Float64, float_zero, FloatOps, LabelPair, Metric, MetricType, MetricFamily, Families,
}
use metricz_exporter.Storage.{Time, Duration, zero_time, InstanceState, Storage}
use metricz_exporter.Storage.Owned.{instance_label, Names, NamesAll, IsOwnFamilies, IfAny, IsOwn}
use metricz_exporter.Storage.Collector.{
  Desc, ValueType, gauge_value, ConstMetric, new_exporter, new_const_metric, desc_of, label_values,
  Channel, send_valid, emit_typed, emit_metric, emit_metrics, emit_families, emit_status_zero,
  emit_optional, emit_current, emit_ingested, emit_stats, collect_instance, is_stale,
}

-- The sample's labels, name by value, have the instance's id.
pub record NamesInstance (id : String) (c : ConstMetric) : Type 0 where
  pub labels : List LabelPair
  pub names : c.desc.label_names ≡ map (λ (l : LabelPair). l.name) labels
  pub values : c.label_values ≡ map (λ (l : LabelPair). l.value) labels
  pub named : In (instance_label id) labels

-- All that is sent, but for what is nil, names the instance.
abbrev pub AllName : String → Channel → Type 0
AllName id = All (IfAny (NamesInstance id))

unless-own :
    {Q : Type 0} (id : String) (d : Dec Q) (c : Option ConstMetric)
    → IfAny (NamesInstance id) c
    → AllName id (ite d [] (c ∷ []))
unless-own id (yes q) c own = tt
unless-own id (no n) c own = (own, tt)

module _ (id : String) (valid : Desc → Bool) where
  const_metric-own :
      (family : MetricFamily) (m : Metric) (t : ValueType) (value : Float64)
      → Names id m
      → IfAny
          (NamesInstance id)
          (new_const_metric valid (desc_of family m) t value (label_values m))
  const_metric-own family m t value named =
      if_cases (IfAny (NamesInstance id)) (valid (desc_of family m))
        (λ _. record { labels = m.label; names = refl; values = refl; named = named }) λ _. tt

  send_valid-own : (c : Option ConstMetric) → IfAny (NamesInstance id) c → AllName id (send_valid c)
  send_valid-own none own = tt
  send_valid-own (some c) own = (own, tt)

  emit_typed-own :
      (family : MetricFamily) (m : Metric) (t : MetricType)
      → Names id m
      → AllName id (emit_typed valid family m t)
  unfolding emit_typed
  emit_typed-own family m MetricType.gauge named =
      send_valid-own _ (const_metric-own family m _ _ named)
  emit_typed-own family m MetricType.counter named =
      send_valid-own _ (const_metric-own family m _ _ named)
  emit_typed-own family m _ named = tt

  emit_metrics-own :
      (family : MetricFamily) (ms : List Metric)
      → All (Names id) ms
      → AllName id (emit_metrics valid family ms)
  unfolding emit_metrics emit_metric
  emit_metrics-own family [] own = tt
  emit_metrics-own family (m ∷ ms) own =
      All-append (IfAny (NamesInstance id)) (emit_metric valid family m)
        (emit_metrics valid family ms) (emit_typed-own family m family.type own.0)
        (emit_metrics-own family ms own.1)

  emit_families-own :
      (families : Families) → IsOwnFamilies id families → AllName id (emit_families valid families)
  unfolding emit_families
  emit_families-own [] own = tt
  emit_families-own ((name, family) ∷ families) own =
      All-append (IfAny (NamesInstance id)) (emit_metrics valid family family.metric)
        (emit_families valid families) (emit_metrics-own family family.metric own.0)
        (emit_families-own families own.1)

  emit_optional-own :
      (families : Option Families)
      → IfAny (IsOwnFamilies id) families
      → AllName id (emit_optional valid families)
  emit_optional-own none own = tt
  emit_optional-own (some families) own = emit_families-own families own

  zeros-own :
      (family : MetricFamily) (ms : List Metric)
      → All (Names id) ms
      → AllName id (
          map
            (λ m. new_const_metric valid (desc_of family m) gauge_value float_zero (label_values m))
            ms)
  zeros-own family [] own = tt
  zeros-own family (m ∷ ms) own =
      (const_metric-own family m gauge_value float_zero own.0, zeros-own family ms own.1)

  emit_current-own :
      (stale : Bool) (cached : Option MetricFamily) (families : Option Families)
      → IfAny (NamesAll id) cached
      → IfAny (IsOwnFamilies id) families
      → AllName id (emit_current valid stale cached families)
  unfolding emit_current emit_status_zero
  emit_current-own stale cached none c own = tt
  emit_current-own true none (some families) c own = tt
  emit_current-own true (some family) (some families) c own = zeros-own family family.metric c
  emit_current-own false cached (some families) c own = emit_families-own families own

  own_metric-own :
      (c : ConstMetric)
      → c.desc.label_names ≡ "instance_id" ∷ []
      → c.label_values ≡ id ∷ []
      → NamesInstance id c
  own_metric-own c names values = record {
    labels = instance_label id ∷ [];
    names = names;
    values = values;
    named = here;
  }

  emit_stats-own :
      (float : FloatOps) (store : Storage) (multiplier : Float64) (min_age : Duration)
      (state : InstanceState)
      → AllName id (emit_stats float (new_exporter store multiplier min_age) id state)
  unfolding emit_stats new_exporter
  emit_stats-own float store multiplier min_age state = (
    own_metric-own _ refl refl,
    (
      own_metric-own _ refl refl,
      (
        own_metric-own _ refl refl,
        unless-own id (state.ingest_stats.last_ingest ≟ zero_time) _ (own_metric-own _ refl refl),
      ),
    ),
  )

  -- Everything that is collected for an instance names it, if all that is kept for it does.
  pub collect_instance-own :
      (float : FloatOps) (store : Storage) (multiplier : Float64) (min_age : Duration) (now : Time)
      (state : InstanceState)
      → IsOwn id state
      → AllName id
          (collect_instance float valid (new_exporter store multiplier min_age) now id state)
  unfolding collect_instance emit_ingested
  collect_instance-own float store multiplier min_age now state own =
      let e = new_exporter store multiplier min_age in
      let ingested = emit_ingested float valid e now state in
      let rcon = emit_optional valid state.rcon_families in
      let a2s = emit_optional valid state.a2s_families in
      let polled = emit_optional valid state.polled_families in
      let P : Option ConstMetric → Type 0 = IfAny (NamesInstance id) in
      All-append P (emit_stats float e id state) (polled ++ (a2s ++ (rcon ++ ingested)))
        (emit_stats-own float store multiplier min_age state)
        (All-append P polled (a2s ++ (rcon ++ ingested))
          (emit_optional-own state.polled_families own.polled)
          (All-append P a2s (rcon ++ ingested) (emit_optional-own state.a2s_families own.a2s) (
            All-append P rcon ingested (emit_optional-own state.rcon_families own.rcon) (
              emit_current-own (is_stale float e now state) state.cached_status_family
                state.ingested_families own.cached own.ingested))))
