-- ===== src/Storage/Owned/Staging.antt =====
-- The live store under the calls of the staging area: staging.go and gc.go.
use metricz_exporter.Base.{
  ℕ, suc, ◌≡◌, refl, ◌∙◌, ℤ, String, string_key, inl, inr, Bool-cases, [], ◌∷◌,
}
use metricz_exporter.Base.Map
use metricz_exporter.Metrics.{FloatOps}
use metricz_exporter.Storage.{Time, Duration, Bytes, StagingItem, Storage}
use metricz_exporter.Storage.Staging.{
  after, drop_item, store_chunk, open_item, put_chunk, start_transaction, append_to_staging,
  retrieve_staging,
}
use metricz_exporter.Storage.Staging.Cases.{
  put_chunk_cases, start_transaction_cases, append_to_staging_cases, retrieve_staging_cases,
}
use metricz_exporter.Storage.Staging.View.{live_store-evict_loop}
use metricz_exporter.Storage.Gc.{counted_state, count_expired, cleanup_loop, cleanup_staging}
use metricz_exporter.Storage.Owned.{IsOwn, IsOwned, get_or_create_state-IsOwn, put_state-IsOwned}

live_store-put_chunk :
    (s : Storage) (txn : String) (item : StagingItem) (seq : ℤ) (bytes : Bytes)
    → (put_chunk s txn item seq bytes).0.live_store ≡ s.live_store
live_store-put_chunk s txn item seq bytes =
    put_chunk_cases (λ r. r.0.live_store ≡ s.live_store) s txn item seq bytes (λ _. refl)
      λ _. unfold store_chunk in refl

live_store-start_transaction :
    (float : FloatOps) (now : Time) (s : Storage) (txn id : String) (seq : ℤ) (bytes : Bytes)
    (ttl : Duration)
    → (start_transaction float now s txn id seq bytes ttl).0.live_store ≡ s.live_store
live_store-start_transaction float now s txn id seq bytes ttl =
    start_transaction_cases (λ r. r.0.live_store ≡ s.live_store) float now txn id seq bytes ttl s
      (λ _. refl)
      λ _.
        live_store-put_chunk (open_item float now s txn id ttl).0 txn
          (open_item float now s txn id ttl).1 seq bytes
        ∙ (unfold open_item in live_store-evict_loop id s.staging_store s)

-- AppendToStaging and RetrieveStaging leave the live store as it is.
pub live_store-append_to_staging :
    (float : FloatOps) (now : Time) (txn id : String) (seq : ℤ) (bytes : Bytes) (ttl : Duration)
    (s : Storage)
    → (append_to_staging float now txn id seq bytes ttl s).0.live_store ≡ s.live_store
live_store-append_to_staging float now txn id seq bytes ttl s =
    append_to_staging_cases (λ r. r.0.live_store ≡ s.live_store) float now txn id seq bytes ttl s
      (λ _. live_store-start_transaction float now s txn id seq bytes ttl)
      (λ item found late.
        live_store-start_transaction float now (drop_item txn item s) txn id seq bytes ttl
        ∙ (unfold drop_item in refl))
      λ item found live. live_store-put_chunk s txn item seq bytes

pub live_store-retrieve_staging :
    (now : Time) (txn : String) (s : Storage)
    → (retrieve_staging now txn s).0.live_store ≡ s.live_store
live_store-retrieve_staging now txn s =
    retrieve_staging_cases (λ r. r.0.live_store ≡ s.live_store) now txn s (λ _. refl)
      λ item found. unfold drop_item in refl

counted_state-IsOwn : (id : String) (s : Storage) → IsOwned s → IsOwn id (counted_state id s)
counted_state-IsOwn id s owned =
    let own = get_or_create_state-IsOwn id s owned in
    record {
      ingested = own.ingested;
      cached = own.cached;
      polled = own.polled;
      a2s = own.a2s;
      rcon = own.rcon;
    }

cleanup_loop-IsOwned :
    (now : Time) (r : Map.Map String StagingItem) (s : Storage) (n : ℕ)
    → IsOwned s
    → IsOwned (cleanup_loop now r (s, n)).0
unfolding cleanup_loop
cleanup_loop-IsOwned now [] s n owned = owned
cleanup_loop-IsOwned now ((k, v) ∷ r) s n owned = elim (Bool-cases (after now v.expires_at)) [
  | inl late ↦
      rw (late, cleanup_loop)
        (cleanup_loop-IsOwned now r (drop_item k v (count_expired v.instance_id s)) (suc n) (
          unfold drop_item count_expired in
          put_state-IsOwned v.instance_id s owned (counted_state v.instance_id s)
            (counted_state-IsOwn v.instance_id s owned)))
  | inr live ↦ rw (live, cleanup_loop) (cleanup_loop-IsOwned now r s n owned)
]

pub cleanup_staging-IsOwned :
    (now : Time) (s : Storage) → IsOwned s → IsOwned (cleanup_staging now s).0
unfolding cleanup_staging
cleanup_staging-IsOwned now s owned = cleanup_loop-IsOwned now s.staging_store s 0 owned
