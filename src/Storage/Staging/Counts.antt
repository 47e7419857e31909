-- ===== src/Storage/Staging/Counts.antt =====
-- The bytes that the staged chunks hold, and the quota's counters: staging.go.
use metricz_exporter.Base.{
  ℕ, ◌+◌, ◌^◌, ◌≤◌, ◌<◌, ◌≡◌, ℤ, pos, add64, add64_eq, sub64_eq, add64-sub64_eq, ltb_ℤ, length,
  String, string_key, int_key, false, inl, inr, Option-cases, some, arith,
}
use metricz_exporter.Base.Map
use metricz_exporter.Base.Map.{
  Map, total, Values, get-delete, set-IsDistinct, delete-IsDistinct, total-delete, total-set-some,
  total-set-none, Values-get, Values-set, Values-delete, Within, Within-head, Within-tail,
  Within-delete,
}
use metricz_exporter.Storage.{Bytes, StagingItem, Storage}
use metricz_exporter.Storage.Staging.Cases.{put_chunk_cases}
use metricz_exporter.Storage.Staging.{drop_item, chunk_delta, add_chunk, store_chunk, put_chunk}

abbrev pub chunk_bytes : Map ℤ Bytes → ℕ
chunk_bytes = total length

-- The bytes that a transaction holds.
abbrev pub item_bytes : StagingItem → ℕ
item_bytes item = chunk_bytes item.chunks

abbrev pub staged_bytes : Storage → ℕ
staged_bytes s = total item_bytes s.staging_store

pub record IsCounted (item : StagingItem) : Type 0 where
  pub distinct : Map.IsDistinct item.chunks
  pub size : item.byte_size ≡ pos (item_bytes item)

pub record IsAccounted (limit : ℕ) (s : Storage) : Type 0 where
  pub max : s.max_staging_size ≡ pos limit
  pub int64 : limit < 2 ^ 63
  pub distinct : Map.IsDistinct s.staging_store
  pub items : Values IsCounted s.staging_store
  pub size : s.staging_size ≡ pos (staged_bytes s)
  pub bound : staged_bytes s ≤ limit

module _ {limit : ℕ} {s : Storage} (inv : IsAccounted limit s) where
  module _ (txn : String) (item : StagingItem)
      (found : Map.get txn s.staging_store ≡ some item) where
    pub staged_bytes-drop_item :
        staged_bytes (drop_item txn item s) + item_bytes item ≡ staged_bytes s
    unfolding drop_item
    staged_bytes-drop_item = total-delete item_bytes txn item s.staging_store inv.distinct found

    pub drop_item-IsAccounted : IsAccounted limit (drop_item txn item s)
    unfolding drop_item
    drop_item-IsAccounted = record {
      max = inv.max;
      int64 = inv.int64;
      distinct = delete-IsDistinct txn s.staging_store inv.distinct;
      items = Values-delete IsCounted txn s.staging_store inv.items;
      size =
          rw (inv.size, (Values-get IsCounted txn item s.staging_store inv.items found).size)
            (sub64_eq _ _ _ staged_bytes-drop_item (omega (arith, inv.bound, inv.int64)));
      bound = omega (arith, staged_bytes-drop_item, inv.bound);
    }

not-above : (a b : ℕ) → ltb_ℤ (pos a) (pos b) ≡ false → b ≤ a
not-above a b h = ground arith

module _ (chunks : Map ℤ Bytes) (seq : ℤ) (bytes : Bytes) where
  -- Adding the delta turns a count of the old chunks into one of the new.
  delta_counts :
      (n c : ℕ)
      → Map.IsDistinct chunks
      → c + chunk_bytes chunks ≡ n + chunk_bytes (Map.set seq bytes chunks)
      → chunk_bytes chunks ≤ n
      → n + length bytes < 2 ^ 63
      → add64 (pos n) (chunk_delta chunks seq bytes) ≡ pos c
  unfolding chunk_delta
  delta_counts n c d e le h = elim (Option-cases (Map.get seq chunks)) [
    | inl new ↦
        let grown = total-set-none length seq bytes chunks new in
        rw (new, chunk_delta) (add64_eq n (length bytes) c (omega arith) (omega arith))
    | inr (old, present) ↦
        let grown = total-set-some length seq bytes old chunks present in
        let kept = total-delete length seq old chunks d present in
        rw (present, chunk_delta)
          (add64-sub64_eq n (length bytes) (length old) c (omega arith) (omega arith) (omega arith)
            (omega arith) (omega arith))
  ]

  -- The new total is at most the old one and the chunk.
  pub chunk_bytes-set_le :
      chunk_bytes (Map.set seq bytes chunks) ≤ chunk_bytes chunks + length bytes
  chunk_bytes-set_le = elim (Option-cases (Map.get seq chunks)) [
    | inl new ↦ omega (arith, total-set-none length seq bytes chunks new)
    | inr (old, present) ↦ omega (arith, total-set-some length seq bytes old chunks present)
  ]

module _ {limit : ℕ} {s : Storage} (inv : IsAccounted limit s) (txn : String) (item : StagingItem)
    (found : Map.get txn s.staging_store ≡ some item) (seq : ℤ) (bytes : Bytes)
    (fits : limit + length bytes < 2 ^ 63) where
  abbrev counted : IsCounted item
  counted = Values-get IsCounted txn item s.staging_store inv.items found

  abbrev kept : staged_bytes (drop_item txn item s) + item_bytes item ≡ staged_bytes s
  kept = staged_bytes-drop_item inv txn item found

  add_chunk-IsCounted : IsCounted (add_chunk item seq bytes)
  unfolding add_chunk
  add_chunk-IsCounted = record {
    distinct = set-IsDistinct seq bytes item.chunks counted.distinct;
    size = rw counted.size (
        delta_counts item.chunks seq bytes (item_bytes item) _ counted.distinct (omega arith)
          (omega arith) (omega (arith, kept, inv.bound)));
  }

  pub grown :
      staged_bytes (store_chunk s txn item seq bytes) + item_bytes item
      ≡ staged_bytes s + item_bytes (add_chunk item seq bytes)
  unfolding store_chunk
  grown = total-set-some item_bytes txn (add_chunk item seq bytes) item s.staging_store found

  pub size-store_chunk :
      add64 s.staging_size (chunk_delta item.chunks seq bytes)
      ≡ pos (staged_bytes (store_chunk s txn item seq bytes))
  unfolding store_chunk
  size-store_chunk = rw inv.size (
      delta_counts item.chunks seq bytes (staged_bytes s) _ counted.distinct
        (unfold add_chunk in grown) (omega (arith, kept)) (omega (arith, inv.bound)))

  store_chunk-IsAccounted :
      ltb_ℤ s.max_staging_size (add64 s.staging_size (chunk_delta item.chunks seq bytes)) ≡ false
      → IsAccounted limit (store_chunk s txn item seq bytes)
  unfolding store_chunk
  store_chunk-IsAccounted room = record {
    max = inv.max;
    int64 = inv.int64;
    distinct = set-IsDistinct txn _ s.staging_store inv.distinct;
    items = Values-set IsCounted txn _ s.staging_store add_chunk-IsCounted inv.items;
    size = size-store_chunk;
    bound = not-above limit _ (rw (inv.max, size-store_chunk) at room);
  }

  pub put_chunk-IsAccounted : IsAccounted limit (put_chunk s txn item seq bytes).0
  put_chunk-IsAccounted =
      put_chunk_cases (λ r. IsAccounted limit r.0) s txn item seq bytes (λ _. inv)
        store_chunk-IsAccounted
