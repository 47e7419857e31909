-- ===== src/Storage.antt =====
-- internal/storage/storage.go and errors.go: the state, and the updates of the live store. A
-- method takes the state and returns the new one; `now` is the result of time.Now(). The mutexes
-- make each method one step.
pub mod Live
pub mod Staging
pub mod Gc
pub mod History
pub mod Uploads
pub mod Owned
pub mod Collector
use metricz_exporter.Base.{ℕ, ℤ, pos, add64, String, string_key, Option, none, some, List, [], ◌∷◌}
use metricz_exporter.Base.Map
use metricz_exporter.Base.Map.{Map}
use metricz_exporter.Metrics.{Float64, float_zero, float_sixty, Metric, MetricFamily, Families}

-- time.Time and time.Duration, in nanoseconds; the zero time is 0.
abbrev pub Time : Type 0
Time = ℤ

abbrev pub Duration : Type 0
Duration = ℤ

abbrev pub zero_time : Time
zero_time = pos 0

-- Request and chunk bodies, byte by byte.
abbrev pub Bytes : Type 0
Bytes = List ℕ

pub data StorageError : Type 0 where
  staging_full : StorageError

pub record IngestStats : Type 0 where
  pub last_ingest : Time
  pub total_bytes : ℤ
  pub total_chunks : ℤ
  pub expired_transactions : ℤ

-- A family map that is nil is `none`.
pub record InstanceState : Type 0 where
  pub last_ingest_update : Time
  pub ingested_families : Option Families
  pub cached_status_family : Option MetricFamily
  pub polled_families : Option Families
  pub a2s_families : Option Families
  pub rcon_families : Option Families
  pub ingest_stats : IngestStats
  pub scrape_interval : Float64

pub record StagingItem : Type 0 where
  pub expires_at : Time
  pub chunks : Map ℤ Bytes
  pub instance_id : String
  pub byte_size : ℤ

pub record Storage : Type 0 where
  pub live_store : Map String InstanceState
  pub staging_store : Map String StagingItem
  pub staging_size : ℤ
  pub max_staging_size : ℤ

unfoldable pub new : ℤ → Storage
new max = record {
  live_store = [];
  staging_store = [];
  staging_size = pos 0;
  max_staging_size = max;
}

abbrev pub empty_stats : IngestStats
empty_stats = record {
  last_ingest = zero_time;
  total_bytes = pos 0;
  total_chunks = pos 0;
  expired_transactions = pos 0;
}

-- &InstanceState{}
abbrev pub empty_state : InstanceState
empty_state = record {
  last_ingest_update = zero_time;
  ingested_families = none;
  cached_status_family = none;
  polled_families = none;
  a2s_families = none;
  rcon_families = none;
  ingest_stats = empty_stats;
  scrape_interval = float_zero;
}

-- The state that `getOrCreateState` hands out. The callers write it back under its key, as the
-- pointer does.
unfoldable pub get_or_create_state : String → Storage → InstanceState
unfolding Map.get
get_or_create_state id s = elim (Map.get id s.live_store) [
  | none ↦ empty_state
  | some state ↦ state
]

unfoldable pub put_state : String → InstanceState → Storage → Storage
unfolding Map.set
put_state id state s = record s { live_store = Map.set id state s.live_store }

-- The interval that the families report, or 60.
abbrev first_gauge : List Metric → Float64
first_gauge [] = float_sixty
first_gauge (m ∷ _) = elim m.gauge [ none ↦ float_sixty | some v ↦ v ]

unfoldable pub reported_interval : Families → Float64
unfolding Map.get
reported_interval families = elim (Map.get "dayz_metricz_scrape_interval_seconds" families) [
  | none ↦ float_sixty
  | some mf ↦ first_gauge mf.metric
]

abbrev pub or_else {ℓ} : {A : Type ℓ} → Option A → Option A → Option A
or_else none b = b
or_else (some a) b = some a

-- The two calls of time.Now() are `now` and `later`.
unfoldable pub update_ingested : Time → Time → String → Families → ℤ → ℤ → Storage → Storage
unfolding reported_interval Map.get
update_ingested now later id families bytes_added chunks_added s =
    let state = get_or_create_state id s in
    let stats = state.ingest_stats in
    put_state id
      (record state {
        ingested_families = some families;
        last_ingest_update = now;
        scrape_interval = reported_interval families;
        ingest_stats = record stats {
          last_ingest = later;
          total_bytes = add64 stats.total_bytes bytes_added;
          total_chunks = add64 stats.total_chunks chunks_added;
        };
        cached_status_family =
            or_else (Map.get "dayz_metricz_status" families) state.cached_status_family;
      })
      s

unfoldable pub update_polled : String → Families → Storage → Storage
update_polled id families s =
    put_state id (record (get_or_create_state id s) { polled_families = some families }) s

unfoldable pub update_a2s : String → Families → Storage → Storage
update_a2s id families s =
    put_state id (record (get_or_create_state id s) { a2s_families = some families }) s

unfoldable pub update_rcon : String → Families → Storage → Storage
update_rcon id families s =
    put_state id (record (get_or_create_state id s) { rcon_families = some families }) s

-- The snapshot: a copy of each entry.
unfoldable pub get_instance_states : Storage → Map String InstanceState
get_instance_states s = s.live_store
