-- ===== src/Storage/Collector/Staleness.antt =====
-- When an instance's ingested metrics count as stale: collector.go, Collect.
use metricz_exporter.Base.{◌≡◌, ℤ, ltb_ℤ, true, false, ◌&&◌, arith, if◌then◌else◌}
use metricz_exporter.Metrics.{FloatOps}
use metricz_exporter.Storage.{Time, Duration, InstanceState}
use metricz_exporter.Storage.Collector.{Exporter, time_sub, calc_threshold, threshold, is_stale}

time_sub_mono :
    (t t' u : Time) (d : Duration)
    → ltb_ℤ t' t ≡ false
    → ltb_ℤ d (time_sub t u) ≡ true
    → ltb_ℤ d (time_sub t' u) ≡ true
unfolding time_sub
time_sub_mono t t' u d le h = ground arith

max-lt : (a b t : ℤ) → ltb_ℤ (if ltb_ℤ a b then b else a) t ≡ (ltb_ℤ b t && ltb_ℤ a t)
max-lt a b t = ground arith

-- If an instance's ingested metrics are stale, they are stale at each later time, as long as the
-- instance's state is the same.
pub is_stale_mono :
    (float : FloatOps) (e : Exporter) (now later : Time) (state : InstanceState)
    → ltb_ℤ later now ≡ false
    → is_stale float e now state ≡ true
    → is_stale float e later state ≡ true
unfolding is_stale
is_stale_mono float e now later state le h =
    time_sub_mono now later state.last_ingest_update (threshold float e state) le h

-- An instance's ingested metrics are stale exactly if they are older than the minimal age and
-- older than the multiple of the instance's scrape interval.
pub is_stale-eq :
    (float : FloatOps) (e : Exporter) (now : Time) (state : InstanceState)
    → is_stale float e now state ≡ (
        ltb_ℤ e.min_stale_age (time_sub now state.last_ingest_update)
        && ltb_ℤ (calc_threshold float e state) (time_sub now state.last_ingest_update))
unfolding is_stale threshold
is_stale-eq float e now state =
    max-lt (calc_threshold float e state) e.min_stale_age (time_sub now state.last_ingest_update)
