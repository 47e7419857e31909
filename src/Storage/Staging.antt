-- ===== src/Storage/Staging.antt =====
-- internal/storage/staging.go: chunked uploads.
pub mod Cases
pub mod Eviction
pub mod Counts
pub mod Accounting
pub mod Exclusive
pub mod Admission
pub mod Delivery
pub mod Order
pub mod Payloads
pub mod Pieces
pub mod Retrieval
pub mod Spec
pub mod View
pub mod Refinement
use metricz_exporter.Base.{
  ℕ, ℤ, pos, ◌+ℤ◌, add64, sub64, mul64, ltb_ℤ, length, eqb, String, string_key, int_key, ◌≟◌, ite,
  Bool, false, not, if◌then◌else◌, Option, none, some, List, [], ◌∷◌, ◌++◌, map,
}
use metricz_exporter.Base.Map
use metricz_exporter.Base.Map.{Map}
use metricz_exporter.Metrics.{FloatOps}
use metricz_exporter.Storage.{
  Time, Duration, Bytes, StorageError, staging_full, InstanceState, StagingItem, Storage,
}

-- t.After(u)
abbrev pub after : Time → Time → Bool
after t u = ltb_ℤ u t

abbrev pub second : Duration
second = pos 1000000000

abbrev pub size_of : Bytes → ℤ
size_of bytes = pos (length bytes)

-- s.stagingSize -= item.ByteSize; delete(s.stagingStore, txn)
unfoldable pub drop_item : String → StagingItem → Storage → Storage
unfolding Map.delete
drop_item txn item s = record s {
  staging_size = sub64 s.staging_size item.byte_size;
  staging_store = Map.delete txn s.staging_store;
}

-- The loop that deletes the other transactions of an instance, over the entries it ranges over.
unfoldable pub evict_loop : String → Map String StagingItem → Storage → Storage
unfolding drop_item
evict_loop id [] s = s
evict_loop id ((key, val) ∷ rest) s =
    evict_loop id rest (ite (val.instance_id ≟ id) (drop_item key val s) s)

abbrev scrape_duration : FloatOps → InstanceState → Duration
scrape_duration float state = mul64 (FloatOps.to_int64 float state.scrape_interval) second

-- The default, or the instance's scrape interval if that is known and longer.
unfoldable pub effective_ttl : FloatOps → Storage → String → Duration → Duration
unfolding Map.get mul64
effective_ttl float s id default_ttl = elim (Map.get id s.live_store) [
  | none ↦ default_ttl
  | some state ↦
      if ltb_ℤ default_ttl (scrape_duration float state)
      then scrape_duration float state
      else default_ttl
]

-- What the chunk adds to the item's size: its length, less that of the chunk it replaces.
unfoldable pub chunk_delta : Map ℤ Bytes → ℤ → Bytes → ℤ
unfolding Map.get
chunk_delta chunks seq bytes = elim (Map.get seq chunks) [
  | none ↦ size_of bytes
  | some old ↦ sub64 (size_of bytes) (size_of old)
]

-- item.Chunks[seqID] = data; item.ByteSize += delta
unfoldable pub add_chunk : StagingItem → ℤ → Bytes → StagingItem
unfolding chunk_delta Map.set
add_chunk item seq bytes = record item {
  chunks = Map.set seq bytes item.chunks;
  byte_size = add64 item.byte_size (chunk_delta item.chunks seq bytes);
}

-- The same with s.stagingSize += delta. `item` is the transaction that the store holds.
unfoldable pub store_chunk : Storage → String → StagingItem → ℤ → Bytes → Storage
unfolding add_chunk
store_chunk s txn item seq bytes = record s {
  staging_store = Map.set txn (add_chunk item seq bytes) s.staging_store;
  staging_size = add64 s.staging_size (chunk_delta item.chunks seq bytes);
}

-- The end of AppendToStaging, from the delta on, with the final capacity check.
unfoldable pub put_chunk :
    Storage → String → StagingItem → ℤ → Bytes → Storage × Option StorageError
unfolding store_chunk
put_chunk s txn item seq bytes =
    if ltb_ℤ s.max_staging_size (add64 s.staging_size (chunk_delta item.chunks seq bytes))
    then (s, some staging_full)
    else (store_chunk s txn item seq bytes, none)

abbrev pub empty_item : Time → String → StagingItem
empty_item expires_at id = record {
  chunks = [];
  expires_at = expires_at;
  instance_id = id;
  byte_size = pos 0;
}

-- The branch `if !exists` up to the new item, which it writes to the store.
unfoldable pub open_item :
    FloatOps → Time → Storage → String → String → Duration → Storage × StagingItem
unfolding evict_loop effective_ttl Map.set
open_item float now s txn id default_ttl =
    let evicted = evict_loop id s.staging_store s in
    let item = empty_item (now +ℤ effective_ttl float evicted id default_ttl) id in
    (record evicted { staging_store = Map.set txn item evicted.staging_store }, item)

-- AppendToStaging where the transaction is new or was just reset.
unfoldable pub start_transaction :
    FloatOps
    → Time
    → Storage
    → String
    → String
    → ℤ
    → Bytes
    → Duration
    → Storage × Option StorageError
unfolding open_item put_chunk
start_transaction float now s txn id seq bytes default_ttl =
    if ltb_ℤ s.max_staging_size (add64 s.staging_size (size_of bytes))
    then (s, some staging_full)
    else let (opened, item) = open_item float now s txn id default_ttl in
      put_chunk opened txn item seq bytes

unfoldable pub append_to_staging :
    FloatOps
    → Time
    → String
    → String
    → ℤ
    → Bytes
    → Duration
    → Storage
    → Storage × Option StorageError
unfolding start_transaction put_chunk drop_item Map.get
append_to_staging float now txn id seq bytes default_ttl s = elim (Map.get txn s.staging_store) [
  | none ↦ start_transaction float now s txn id seq bytes default_ttl
  | some item ↦
      if after now item.expires_at
      then start_transaction float now (drop_item txn item s) txn id seq bytes default_ttl
      else put_chunk s txn item seq bytes
]

-- sort.Ints
unfoldable pub insert_sorted : ℤ → List ℤ → List ℤ
insert_sorted k [] = k ∷ []
insert_sorted k (j ∷ ks) = if ltb_ℤ j k then j ∷ insert_sorted k ks else k ∷ j ∷ ks

unfoldable pub sort_ints : List ℤ → List ℤ
unfolding insert_sorted
sort_ints [] = []
sort_ints (k ∷ ks) = insert_sorted k (sort_ints ks)

-- '\n'
abbrev pub newline : ℕ
newline = 10

-- len(data) > 0 && data[len(data)-1] != '\n'
unfoldable pub lacks_newline : Bytes → Bool
lacks_newline [] = false
lacks_newline (b ∷ []) = not (eqb b newline)
lacks_newline (_ ∷ b ∷ rest) = lacks_newline (b ∷ rest)

-- item.Chunks[k]
unfoldable pub chunk_at : Map ℤ Bytes → ℤ → Bytes
unfolding Map.get
chunk_at chunks k = elim (Map.get k chunks) [ none ↦ [] | some bytes ↦ bytes ]

-- One round of the loop over the sorted keys: the readers' contents so far, and their size.
unfoldable pub append_chunk : Bytes → Bytes × ℤ → Bytes × ℤ
unfolding lacks_newline
append_chunk bytes (reader, total_size) =
    let total = add64 total_size (size_of bytes) in
    if lacks_newline bytes
    then (reader ++ (bytes ++ newline ∷ []), add64 total (pos 1))
    else (reader ++ bytes, total)

unfoldable pub join_chunks : Map ℤ Bytes → List ℤ → Bytes × ℤ → Bytes × ℤ
unfolding chunk_at append_chunk
join_chunks chunks [] acc = acc
join_chunks chunks (k ∷ ks) acc = join_chunks chunks ks (append_chunk (chunk_at chunks k) acc)

-- What a commit reads: the stream, the number of chunks and the number of bytes.
pub record Payload : Type 0 where
  pub reader : Bytes
  pub chunk_count : ℤ
  pub total_size : ℤ

unfoldable pub payload_of : Map ℤ Bytes → Payload
unfolding join_chunks sort_ints
payload_of chunks =
    let keys = sort_ints (map (λ e. e.0) chunks) in
    let joined = join_chunks chunks keys ([], pos 0) in
    record { reader = joined.0; chunk_count = pos (length keys); total_size = joined.1 }

-- From `len(item.Chunks) == 0` on.
unfoldable pub deliver : Map ℤ Bytes → Option Payload
unfolding payload_of
deliver [] = none
deliver (chunk ∷ chunks) = some (payload_of (chunk ∷ chunks))

-- What a found transaction yields: nothing if it has expired or has no chunk.
unfoldable pub result_of : Time → StagingItem → Option Payload
unfolding deliver
result_of now item = if after now item.expires_at then none else deliver item.chunks

unfoldable pub retrieve_staging : Time → String → Storage → Storage × Option Payload
unfolding drop_item result_of Map.get
retrieve_staging now txn s = elim (Map.get txn s.staging_store) [
  | none ↦ (s, none)
  | some item ↦ (drop_item txn item s, result_of now item)
]
