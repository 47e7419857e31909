-- ===== src/Storage/Staging/Admission.antt =====
-- When AppendToStaging accepts a chunk, and what the store then holds: staging.go.
use metricz_exporter.Base.{
  ℕ, ◌+◌, ◌^◌, ◌≤◌, ◌<◌, ◌≡◌, refl, ℤ, pos, add64, add64_eq, ltb_ℤ, ltb, length, String, string_key,
  int_key, if◌then◌else◌, none, some, [], ◌∷◌, arith,
}
use metricz_exporter.Base.Map
use metricz_exporter.Base.Map.{
  Map, total, get-set, Within, Within-head, Within-tail, Within-delete, total-set-none,
}
use metricz_exporter.Metrics.{FloatOps}
use metricz_exporter.Storage.{Time, Duration, Bytes, staging_full, StagingItem, Storage}
use metricz_exporter.Storage.Staging.{
  size_of, drop_item, evict_loop, store_chunk, put_chunk, open_item, start_transaction,
}
use metricz_exporter.Storage.Staging.Counts.{
  item_bytes, staged_bytes, IsAccounted, drop_item-IsAccounted, staged_bytes-drop_item,
  size-store_chunk, chunk_bytes-set_le, grown,
}
use metricz_exporter.Storage.Staging.Eviction.{get-evict_loop}
use metricz_exporter.Storage.Staging.Accounting.{get-open_item, open_item-IsAccounted}

over_test : (limit size : ℕ) → ltb_ℤ (pos limit) (pos size) ≡ ltb limit size
over_test limit size = ground arith

module _ {limit : ℕ} where
  staged_bytes-evict_loop_le :
      (id : String) (r : Map String StagingItem) (s : Storage)
      → Map.IsDistinct r
      → Within r s.staging_store
      → IsAccounted limit s
      → staged_bytes (evict_loop id r s) ≤ staged_bytes s
  unfolding evict_loop
  staged_bytes-evict_loop_le id [] s d w inv = omega arith
  staged_bytes-evict_loop_le id ((k, v) ∷ r) s d w inv =
      let here = Within-head k v r s.staging_store w in
      ground (
        arith,
        staged_bytes-drop_item inv k v here,
        staged_bytes-evict_loop_le id r (drop_item k v s) d.1
            (unfold drop_item in Within-delete k v r s.staging_store d.0 w)
            (drop_item-IsAccounted inv k v here),
        staged_bytes-evict_loop_le id r s d.1 (Within-tail k v r s.staging_store d.0 w) inv,
      )

  module _ {s : Storage} (inv : IsAccounted limit s) (txn : String) (item : StagingItem)
      (found : Map.get txn s.staging_store ≡ some item) (seq : ℤ) (bytes : Bytes)
      (fits : limit + length bytes < 2 ^ 63) where
    -- The test on the delta compares the new total with the limit.
    pub put_chunk-eq : put_chunk s txn item seq bytes ≡ (
        if ltb limit (staged_bytes (store_chunk s txn item seq bytes))
        then (s, some staging_full)
        else (store_chunk s txn item seq bytes, none))
    unfolding put_chunk
    put_chunk-eq = rw (inv.max, size-store_chunk inv txn item found seq bytes fits, over_test) refl

  module _ {s : Storage} (inv : IsAccounted limit s) (float : FloatOps) (now : Time)
      (txn id : String) (seq : ℤ) (bytes : Bytes) (ttl : Duration) where
    module _ (absent : Map.get txn s.staging_store ≡ none) where
      abbrev opened : Storage
      opened = (open_item float now s txn id ttl).0

      abbrev item : StagingItem
      item = (open_item float now s txn id ttl).1

      abbrev opened-IsAccounted : IsAccounted limit opened
      opened-IsAccounted = open_item-IsAccounted float now s txn id ttl absent inv

      abbrev stored : Storage
      stored = store_chunk opened txn item seq bytes

      staged_bytes-open_item_le : staged_bytes opened ≤ staged_bytes s
      unfolding open_item total
      staged_bytes-open_item_le =
          let evicted = evict_loop id s.staging_store s in
          let gone : Map.get txn evicted.staging_store ≡ none =
            ground (arith, get-evict_loop id s.staging_store s txn inv.distinct) in
          omega (
            arith,
            total-set-none item_bytes txn item evicted.staging_store gone,
            staged_bytes-evict_loop_le id s.staging_store s inv.distinct (λ j v e. e) inv,
          )

      stored_le :
          limit + length bytes < 2 ^ 63 → staged_bytes stored ≤ staged_bytes s + length bytes
      unfolding total store_chunk
      stored_le fits = omega (
        arith,
        staged_bytes-open_item_le,
        grown opened-IsAccounted txn item (get-open_item float now s txn id ttl) seq bytes fits,
        chunk_bytes-set_le item.chunks seq bytes,
      )

      over-eq :
          limit + length bytes < 2 ^ 63
          → ltb_ℤ s.max_staging_size (add64 s.staging_size (size_of bytes))
            ≡ ltb limit (staged_bytes s + length bytes)
      over-eq fits =
          rw
            (
              inv.max,
              inv.size,
              add64_eq (staged_bytes s) (length bytes) _ refl (omega (arith, inv.bound)),
            )
            (over_test limit _)

      -- A new transaction is refused exactly when the chunk does not fit beside all that is staged.
      pub start_transaction-eq :
          limit + length bytes < 2 ^ 63
          → start_transaction float now s txn id seq bytes ttl ≡ (
              if ltb limit (staged_bytes s + length bytes)
              then (s, some staging_full)
              else (stored, none))
      unfolding start_transaction
      start_transaction-eq fits =
          rw
            (
              over-eq fits,
              put_chunk-eq opened-IsAccounted txn item (get-open_item float now s txn id ttl) seq
                  bytes fits,
            )
            (ground (arith, stored_le fits))
