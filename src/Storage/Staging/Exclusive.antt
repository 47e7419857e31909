-- ===== src/Storage/Staging/Exclusive.antt =====
-- The transactions of one instance in the staging area: staging.go.
use metricz_exporter.Base.{◌≡◌, ◌≟◌, ite, String, string_key, ℤ, some, arith}
use metricz_exporter.Base.Map
use metricz_exporter.Base.Map.{get-set, get-delete, delete-IsDistinct}
use metricz_exporter.Metrics.{FloatOps}
use metricz_exporter.Storage.{Time, Duration, Bytes, StagingItem, Storage}
use metricz_exporter.Storage.Staging.Cases.{
  put_chunk_cases, start_transaction_cases, append_to_staging_cases, retrieve_staging_cases,
}
use metricz_exporter.Storage.Staging.{
  add_chunk, drop_item, store_chunk, put_chunk, open_item, start_transaction, append_to_staging,
  retrieve_staging, evict_loop,
}
use metricz_exporter.Storage.Staging.Accounting.{get-open_item}
use metricz_exporter.Storage.Staging.Eviction.{others, get-evict_loop}

abbrev pub IsExclusive : Storage → Type 0
IsExclusive s =
    (j k : String) (a b : StagingItem)
    → Map.get j s.staging_store ≡ some a
    → Map.get k s.staging_store ≡ some b
    → a.instance_id ≡ b.instance_id
    → j ≡ k

module _ (s : Storage) (txn : String) (item : StagingItem) where
  pub drop_item-IsExclusive : IsExclusive s → IsExclusive (drop_item txn item s)
  unfolding drop_item
  drop_item-IsExclusive ex j k a b =
      ground (arith, ex j k a b, get-delete txn j s.staging_store, get-delete txn k s.staging_store)

  store_chunk-IsExclusive :
      (seq : ℤ) (bytes : Bytes)
      → Map.get txn s.staging_store ≡ some item
      → IsExclusive s
      → IsExclusive (store_chunk s txn item seq bytes)
  unfolding store_chunk
  store_chunk-IsExclusive seq bytes found ex j k a b = ground (
    arith,
    get-set txn j (add_chunk item seq bytes) s.staging_store,
    get-set txn k (add_chunk item seq bytes) s.staging_store,
    ex j k a b,
    ex txn k item b found,
    ex j txn a item,
  )

  put_chunk-IsExclusive :
      (seq : ℤ) (bytes : Bytes)
      → Map.get txn s.staging_store ≡ some item
      → IsExclusive s
      → IsExclusive (put_chunk s txn item seq bytes).0
  put_chunk-IsExclusive seq bytes found ex =
      put_chunk_cases (λ r. IsExclusive r.0) s txn item seq bytes (λ _. ex)
        λ _. store_chunk-IsExclusive seq bytes found ex

pub get-open_item_all :
    (float : FloatOps) (now : Time) (s : Storage) (txn id : String) (ttl : Duration) (j : String)
    → Map.IsDistinct s.staging_store
    → Map.get j (open_item float now s txn id ttl).0.staging_store
      ≡ ite
          (txn ≟ j)
          (some (open_item float now s txn id ttl).1)
          (others id (Map.get j s.staging_store))
unfolding open_item
get-open_item_all float now s txn id ttl j d = ground (
  arith,
  get-evict_loop id s.staging_store s j d,
  get-set txn j (open_item float now s txn id ttl).1
      (evict_loop id s.staging_store s).staging_store,
)

module _ (float : FloatOps) (now : Time) (s : Storage) (txn id : String) (ttl : Duration)
    (d : Map.IsDistinct s.staging_store) where
  open_item-IsExclusive : IsExclusive s → IsExclusive (open_item float now s txn id ttl).0
  open_item-IsExclusive ex j k a b =
      rw
        (get-open_item_all float now s txn id ttl j d, get-open_item_all float now s txn id ttl k d)
        (unfold open_item in ground (arith, ex j k a b))

  start_transaction-IsExclusive :
      (seq : ℤ) (bytes : Bytes)
      → IsExclusive s
      → IsExclusive (start_transaction float now s txn id seq bytes ttl).0
  start_transaction-IsExclusive seq bytes ex =
      start_transaction_cases (λ r. IsExclusive r.0) float now txn id seq bytes ttl s (λ _. ex)
        λ _.
          put_chunk-IsExclusive (open_item float now s txn id ttl).0 txn
            (open_item float now s txn id ttl).1 seq bytes (get-open_item float now s txn id ttl)
            (open_item-IsExclusive ex)

-- Whatever AppendToStaging answers, no instance has two transactions afterwards.
pub append_to_staging-IsExclusive :
    (float : FloatOps) (now : Time) (txn id : String) (seq : ℤ) (bytes : Bytes) (ttl : Duration)
    (s : Storage)
    → Map.IsDistinct s.staging_store
    → IsExclusive s
    → IsExclusive (append_to_staging float now txn id seq bytes ttl s).0
append_to_staging-IsExclusive float now txn id seq bytes ttl s d ex =
    append_to_staging_cases (λ r. IsExclusive r.0) float now txn id seq bytes ttl s
      (λ _. start_transaction-IsExclusive float now s txn id ttl d seq bytes ex)
      (λ item found late.
        start_transaction-IsExclusive float now (drop_item txn item s) txn id ttl
          (unfold drop_item in delete-IsDistinct txn s.staging_store d) seq bytes
          (drop_item-IsExclusive s txn item ex))
      λ item found live. put_chunk-IsExclusive s txn item seq bytes found ex

pub retrieve_staging-IsExclusive :
    (now : Time) (txn : String) (s : Storage)
    → IsExclusive s
    → IsExclusive (retrieve_staging now txn s).0
retrieve_staging-IsExclusive now txn s ex =
    retrieve_staging_cases (λ r. IsExclusive r.0) now txn s (λ _. ex)
      λ item found. drop_item-IsExclusive s txn item ex
