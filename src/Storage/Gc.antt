-- ===== src/Storage/Gc.antt =====
-- internal/storage/gc.go: the garbage collector of expired transactions.
pub mod Expiry
use metricz_exporter.Base.{ℕ, suc, pos, add64, String, string_key, if◌then◌else◌, List, [], ◌∷◌}
use metricz_exporter.Base.Map
use metricz_exporter.Base.Map.{Map}
use metricz_exporter.Storage.{
  Time, Duration, InstanceState, StagingItem, Storage, get_or_create_state, put_state,
}
use metricz_exporter.Storage.Staging.{after, drop_item}
use metricz_exporter.Tickers.{Wake, Stand, panicked, is_positive, select_loop}

-- state.IngestStats.ExpiredTransactions++, on the state of the instance or a new one
abbrev pub counted_state : String → Storage → InstanceState
counted_state id s =
    let state = get_or_create_state id s in
    let stats = state.ingest_stats in
    record state {
      ingest_stats = record stats {
        expired_transactions = add64 stats.expired_transactions (pos 1);
      };
    }

unfoldable pub count_expired : String → Storage → Storage
count_expired id s = put_state id (counted_state id s) s

-- The loop of cleanupStaging over the entries that it ranges over, with `removedCount`.
unfoldable pub cleanup_loop : Time → Map String StagingItem → Storage × ℕ → Storage × ℕ
unfolding count_expired drop_item
cleanup_loop now [] acc = acc
cleanup_loop now ((key, item) ∷ rest) (s, removed) = cleanup_loop now rest (
    if after now item.expires_at
    then (drop_item key item (count_expired item.instance_id s), suc removed)
    else (s, removed))

-- One tick of StartGarbageCollector.
unfoldable pub cleanup_staging : Time → Storage → Storage × ℕ
unfolding cleanup_loop
cleanup_staging now s = cleanup_loop now s.staging_store (s, 0)

-- StartGarbageCollector; the count of a tick is logged.
unfoldable pub start_garbage_collector :
    Duration → List (Wake Storage) → Storage → (Unit {0} × Storage) × Stand
unfolding cleanup_staging select_loop
start_garbage_collector check_interval wakes s =
    if is_positive check_interval
    then select_loop (λ now st. (tt, (cleanup_staging now st.1).0)) wakes (tt, s)
    else ((tt, s), panicked)
