-- ===== src/Storage/Collector.antt =====
-- internal/storage/collector.go: the Prometheus collector. A channel is the list of what is sent on
-- it; a nil metric is `none`. `valid` says whether NewConstMetric accepts a description, and the
-- descriptions of the exporter's own counters are valid.
pub mod Staleness
pub mod Samples
pub mod Owned
pub mod Stale
use metricz_exporter.Base.{
  ℤ, pos, negsuc, ◌-ℤ◌, ◌^◌, ◌-◌, ◌/◌, ltb_ℤ, Bool, not, eqb, if◌then◌else◌, String, string_key,
  int_key, ◌≟◌, ite, Option, none, some, List, [], ◌∷◌, ◌++◌, map,
}
use metricz_exporter.Base.Map.{Map}
use metricz_exporter.Metrics.{
  Float64, float_zero, FloatOps, LabelPair, Metric, MetricType, MetricFamily, Families, get_value,
}
use metricz_exporter.Storage.{
  Time, Duration, zero_time, InstanceState, Storage, get_instance_states,
}

pub record Desc : Type 0 where
  pub fq_name : String
  pub help : String
  pub label_names : List String

pub data ValueType : Type 0 where
  counter_value gauge_value : ValueType

pub record ConstMetric : Type 0 where
  pub desc : Desc
  pub value_type : ValueType
  pub value : Float64
  pub label_values : List String

pub record Exporter : Type 0 where
  pub store : Storage
  pub desc_ingest_bytes : Desc
  pub desc_ingest_chunks : Desc
  pub desc_ingest_expired : Desc
  pub desc_last_ingest : Desc
  pub stale_multiplier : Float64
  pub min_stale_age : Duration

abbrev instance_desc : String → String → Desc
instance_desc name help = record { fq_name = name; help = help; label_names = "instance_id" ∷ [] }

unfoldable pub new_exporter : Storage → Float64 → Duration → Exporter
new_exporter s multiplier min_age = record {
  store = s;
  stale_multiplier = multiplier;
  min_stale_age = min_age;
  desc_ingest_bytes =
      instance_desc "metricz_ingest_bytes_total"
        "Total bytes received from the instance via ingest API.";
  desc_ingest_chunks =
      instance_desc "metricz_ingest_chunks_total"
        "Total chunks received from the instance via ingest API.";
  desc_ingest_expired =
      instance_desc "metricz_ingest_transactions_expired_total"
        "Total chunked transactions dropped due to TTL expiration.";
  desc_last_ingest =
      instance_desc "metricz_ingest_last_timestamp_seconds"
        "Unix timestamp of the last successful ingest.";
}

unfoldable pub describe : Exporter → List Desc
describe e =
    e.desc_ingest_bytes ∷ e.desc_ingest_chunks ∷ e.desc_ingest_expired ∷ e.desc_last_ingest ∷ []

-- time.Duration's range, at which Sub saturates.
abbrev pub max_duration : ℤ
max_duration = pos (2 ^ 63 - 1)

abbrev pub min_duration : ℤ
min_duration = negsuc (2 ^ 63 - 1)

-- t.Sub(u)
unfoldable pub time_sub : Time → Time → Duration
unfolding ◌-ℤ◌
time_sub t u =
    let d = t -ℤ u in
    if ltb_ℤ max_duration d then max_duration else if ltb_ℤ d min_duration then min_duration else d

-- float64(time.Second)
abbrev pub float_second : Float64
float_second = record { bits = 0x41CDCD6500000000 }

abbrev pub calc_threshold : FloatOps → Exporter → InstanceState → Duration
calc_threshold float e state =
    FloatOps.to_int64 float (
      FloatOps.mul float (FloatOps.mul float state.scrape_interval e.stale_multiplier) float_second)

-- max(calcThreshold, e.minStaleAge)
unfoldable pub threshold : FloatOps → Exporter → InstanceState → Duration
threshold float e state =
    let calc = calc_threshold float e state in
    if ltb_ℤ calc e.min_stale_age then e.min_stale_age else calc

-- timeSince > threshold
unfoldable pub is_stale : FloatOps → Exporter → Time → InstanceState → Bool
unfolding threshold time_sub
is_stale float e now state = ltb_ℤ (threshold float e state) (time_sub now state.last_ingest_update)

abbrev pub label_names : Metric → List String
label_names m = map (λ l. l.name) m.label

abbrev pub label_values : Metric → List String
label_values m = map (λ l. l.value) m.label

abbrev pub desc_of : MetricFamily → Metric → Desc
desc_of family m = record { fq_name = family.name; help = family.help; label_names = label_names m }

-- NewConstMetric, or nil if it fails
abbrev pub new_const_metric :
    (Desc → Bool) → Desc → ValueType → Float64 → List String → Option ConstMetric
new_const_metric valid desc value_type value values =
    if valid desc
    then some
        (record { desc = desc; value_type = value_type; value = value; label_values = values })
    else none

abbrev pub Channel : Type 0
Channel = List (Option ConstMetric)

-- ch <- metric, if there was no error
abbrev pub send_valid : Option ConstMetric → Channel
send_valid none = []
send_valid (some metric) = some metric ∷ []

-- The switch on the family's type: gauges and counters only.
unfoldable pub emit_typed : (Desc → Bool) → MetricFamily → Metric → MetricType → Channel
emit_typed valid family m MetricType.gauge =
    send_valid
      (new_const_metric valid (desc_of family m) gauge_value (get_value m.gauge) (label_values m))
emit_typed valid family m MetricType.counter =
    send_valid (
      new_const_metric valid (desc_of family m) counter_value (get_value m.counter)
        (label_values m))
emit_typed valid family m _ = []

unfoldable pub emit_metric : (Desc → Bool) → MetricFamily → Metric → Channel
unfolding emit_typed
emit_metric valid family m = emit_typed valid family m family.type

unfoldable pub emit_metrics : (Desc → Bool) → MetricFamily → List Metric → Channel
unfolding emit_metric
emit_metrics valid family [] = []
emit_metrics valid family (m ∷ ms) = emit_metric valid family m ++ emit_metrics valid family ms

unfoldable pub emit_families : (Desc → Bool) → Families → Channel
unfolding emit_metrics
emit_families valid [] = []
emit_families valid ((name, family) ∷ families) =
    emit_metrics valid family family.metric ++ emit_families valid families

-- The status samples at 0; here the error of NewConstMetric is dropped, and nil is sent.
unfoldable pub emit_status_zero : (Desc → Bool) → MetricFamily → Channel
emit_status_zero valid family =
    map (λ m. new_const_metric valid (desc_of family m) gauge_value float_zero (label_values m))
      family.metric

abbrev pub emit_optional : (Desc → Bool) → Option Families → Channel
emit_optional valid none = []
emit_optional valid (some families) = emit_families valid families

abbrev emit_zero_optional : (Desc → Bool) → Option MetricFamily → Channel
emit_zero_optional valid none = []
emit_zero_optional valid (some family) = emit_status_zero valid family

-- The state metric: the ingested families, or zeros for the status if they are stale.
unfoldable pub emit_current : (Desc → Bool) → Bool → Option MetricFamily → Option Families → Channel
unfolding emit_families emit_status_zero
emit_current valid stale cached none = []
emit_current valid stale cached (some families) =
    if stale then emit_zero_optional valid cached else emit_families valid families

unfoldable pub emit_ingested : FloatOps → (Desc → Bool) → Exporter → Time → InstanceState → Channel
unfolding is_stale emit_current
emit_ingested float valid e now state =
    emit_current valid (is_stale float e now state) state.cached_status_family
      state.ingested_families

-- t.Unix(): the seconds since 1970, where the zero time is the first of January of year 1.
unfoldable pub unix_seconds : Time → ℤ
unfolding ◌-ℤ◌
unix_seconds (pos n) = pos (n / 1000000000) -ℤ pos 62135596800
unix_seconds (negsuc n) = negsuc (n / 1000000000) -ℤ pos 62135596800

abbrev own_metric : Desc → ValueType → Float64 → String → Option ConstMetric
own_metric desc value_type value id =
    some (record { desc = desc; value_type = value_type; value = value; label_values = id ∷ [] })

-- The exporter's own counters for an instance.
unfoldable pub emit_stats : FloatOps → Exporter → String → InstanceState → Channel
unfolding unix_seconds
emit_stats float e id state =
    let stats = state.ingest_stats in
    let last =
      own_metric e.desc_last_ingest gauge_value
        (FloatOps.of_int64 float (unix_seconds stats.last_ingest)) id in
    own_metric e.desc_ingest_bytes counter_value (FloatOps.of_int64 float stats.total_bytes) id
    ∷ own_metric e.desc_ingest_chunks counter_value (FloatOps.of_int64 float stats.total_chunks) id
    ∷ own_metric e.desc_ingest_expired counter_value
        (FloatOps.of_int64 float stats.expired_transactions) id
    ∷ ite (stats.last_ingest ≟ zero_time) [] (last ∷ [])

unfoldable pub collect_instance :
    FloatOps → (Desc → Bool) → Exporter → Time → String → InstanceState → Channel
unfolding emit_stats emit_families emit_ingested
collect_instance float valid e now id state =
    emit_stats float e id state
    ++ (emit_optional valid state.polled_families
        ++ (emit_optional valid state.a2s_families
            ++ (emit_optional valid state.rcon_families ++ emit_ingested float valid e now state)))

unfoldable pub collect_states :
    FloatOps → (Desc → Bool) → Exporter → Time → Map String InstanceState → Channel
unfolding collect_instance
collect_states float valid e now [] = []
collect_states float valid e now ((id, state) ∷ states) =
    collect_instance float valid e now id state ++ collect_states float valid e now states

unfoldable pub collect : FloatOps → (Desc → Bool) → Exporter → Time → Channel
unfolding collect_states get_instance_states
collect float valid e now = collect_states float valid e now (get_instance_states e.store)
