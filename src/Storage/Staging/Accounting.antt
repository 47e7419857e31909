-- ===== src/Storage/Staging/Accounting.antt =====
-- The quota of the staging area in AppendToStaging and RetrieveStaging: staging.go.
use metricz_exporter.Base.{
  ℕ, ◌+◌, ◌^◌, ◌<◌, ◌≡◌, refl, ℤ, pos, length, ◌≟◌, if_pos, if_neg, ap, String, string_key, int_key,
  none, some, [], ◌∷◌, arith,
}
use metricz_exporter.Base.Map
use metricz_exporter.Base.Map.{
  Map, total, Values, get-delete, set-IsDistinct, delete-IsDistinct, total-delete, total-set-some,
  total-set-none, Values-get, Values-set, Values-delete, Within, Within-head, Within-tail,
  Within-delete,
}
use metricz_exporter.Storage.Staging.Counts.{
  item_bytes, IsCounted, IsAccounted, drop_item-IsAccounted, put_chunk-IsAccounted,
}
use metricz_exporter.Storage.Staging.Eviction.{get-evict_loop}
use metricz_exporter.Metrics.{FloatOps}
use metricz_exporter.Storage.{Time, Duration, Bytes, StagingItem, Storage}
use metricz_exporter.Storage.Staging.Cases.{
  start_transaction_cases, append_to_staging_cases, retrieve_staging_cases,
}
use metricz_exporter.Storage.Staging.{
  empty_item, drop_item, evict_loop, open_item, start_transaction, append_to_staging,
  retrieve_staging,
}

empty-IsCounted : (t : Time) (id : String) → IsCounted (empty_item t id)
unfolding total
empty-IsCounted t id = record { distinct = tt; size = refl }

pub get-open_item :
    (float : FloatOps) (now : Time) (s : Storage) (txn id : String) (ttl : Duration)
    → Map.get txn (open_item float now s txn id ttl).0.staging_store
      ≡ some (open_item float now s txn id ttl).1
unfolding open_item
get-open_item float now s txn id ttl = Map.get-set_self txn _ _

pub get-drop_item :
    (txn : String) (item : StagingItem) (s : Storage)
    → Map.get txn (drop_item txn item s).staging_store ≡ none
unfolding drop_item
get-drop_item txn item s = ground (arith, get-delete txn txn s.staging_store)

module _ {limit : ℕ} where
  pub evict_loop-IsAccounted :
      (id : String) (r : Map String StagingItem) (s : Storage)
      → Map.IsDistinct r
      → Within r s.staging_store
      → IsAccounted limit s
      → IsAccounted limit (evict_loop id r s)
  unfolding evict_loop
  evict_loop-IsAccounted id [] s d w inv = inv
  evict_loop-IsAccounted id ((k, v) ∷ r) s d w inv = elim (v.instance_id ≟ id) [
    | yes own ↦ rw (if_pos (v.instance_id ≟ id) own) (
        evict_loop-IsAccounted id r (drop_item k v s) d.1
          (unfold drop_item in Within-delete k v r s.staging_store d.0 w)
          (drop_item-IsAccounted inv k v (Within-head k v r s.staging_store w)))
    | no other ↦
        rw (if_neg (v.instance_id ≟ id) other)
          (evict_loop-IsAccounted id r s d.1 (Within-tail k v r s.staging_store d.0 w) inv)
  ]

  pub open_item-IsAccounted :
      (float : FloatOps) (now : Time) (s : Storage) (txn id : String) (ttl : Duration)
      → Map.get txn s.staging_store ≡ none
      → IsAccounted limit s
      → IsAccounted limit (open_item float now s txn id ttl).0
  unfolding open_item total
  open_item-IsAccounted float now s txn id ttl absent inv =
      let evicted = evict_loop id s.staging_store s in
      let kept = evict_loop-IsAccounted id s.staging_store s inv.distinct (λ j v e. e) inv in
      let gone : Map.get txn evicted.staging_store ≡ none =
        ground (arith, get-evict_loop id s.staging_store s txn inv.distinct) in
      let item = (open_item float now s txn id ttl).1 in
      let added = total-set-none item_bytes txn item evicted.staging_store gone in
      record {
        max = kept.max;
        int64 = inv.int64;
        distinct = set-IsDistinct txn item evicted.staging_store kept.distinct;
        items =
            Values-set IsCounted txn item evicted.staging_store (empty-IsCounted _ id) kept.items;
        size = rw kept.size (ap pos (omega (arith, added)));
        bound = omega (arith, added, kept.bound);
      }

  start_transaction-IsAccounted :
      (float : FloatOps) (now : Time) (s : Storage) (txn id : String) (seq : ℤ) (bytes : Bytes)
      (ttl : Duration)
      → Map.get txn s.staging_store ≡ none
      → limit + length bytes < 2 ^ 63
      → IsAccounted limit s
      → IsAccounted limit (start_transaction float now s txn id seq bytes ttl).0
  start_transaction-IsAccounted float now s txn id seq bytes ttl absent fits inv =
      start_transaction_cases (λ r. IsAccounted limit r.0) float now txn id seq bytes ttl s
        (λ _. inv)
        λ _.
          put_chunk-IsAccounted (open_item-IsAccounted float now s txn id ttl absent inv) txn
            (open_item float now s txn id ttl).1 (get-open_item float now s txn id ttl) seq bytes
            fits

  -- Every branch of AppendToStaging keeps the accounts.
  pub append_to_staging-IsAccounted :
      (float : FloatOps) (now : Time) (txn id : String) (seq : ℤ) (bytes : Bytes) (ttl : Duration)
      (s : Storage)
      → limit + length bytes < 2 ^ 63
      → IsAccounted limit s
      → IsAccounted limit (append_to_staging float now txn id seq bytes ttl s).0
  append_to_staging-IsAccounted float now txn id seq bytes ttl s fits inv =
      append_to_staging_cases (λ r. IsAccounted limit r.0) float now txn id seq bytes ttl s
        (λ new. start_transaction-IsAccounted float now s txn id seq bytes ttl new fits inv)
        (λ item found late.
          start_transaction-IsAccounted float now (drop_item txn item s) txn id seq bytes ttl
            (get-drop_item txn item s) fits (drop_item-IsAccounted inv txn item found))
        λ item found live. put_chunk-IsAccounted inv txn item found seq bytes fits

  pub retrieve_staging-IsAccounted :
      (now : Time) (txn : String) (s : Storage)
      → IsAccounted limit s
      → IsAccounted limit (retrieve_staging now txn s).0
  retrieve_staging-IsAccounted now txn s inv =
      retrieve_staging_cases (λ r. IsAccounted limit r.0) now txn s (λ _. inv)
        λ item found. drop_item-IsAccounted inv txn item found
