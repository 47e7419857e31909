-- ===== src/Storage/Staging/Delivery.antt =====
-- What AppendToStaging does to the store, accepted or refused, as its caller sees it: staging.go.
use metricz_exporter.Base.{
  ℕ, ◌+◌, ◌^◌, ◌<◌, ◌≡◌, ◌≢◌, refl, ℤ, ltb, length, ◌≟◌, ite, Bool, not, ◌⊎◌, false, String,
  string_key, int_key, if◌then◌else◌, Option, Option-cases, inl, inr, none, some, [], arith,
}
use metricz_exporter.Base.Map
use metricz_exporter.Base.Map.{
  Map, get-set, get-set_ne, get-delete, total-delete, total-set-some, total-set-none, Values-get,
}
use metricz_exporter.Metrics.{FloatOps}
use metricz_exporter.Storage.{
  Time, Duration, Bytes, StorageError, staging_full, StagingItem, Storage,
}
use metricz_exporter.Storage.Staging.Cases.{
  put_chunk_cases, start_transaction_cases, append_to_staging_cases,
}
use metricz_exporter.Storage.Staging.{
  after, chunk_at, drop_item, add_chunk, store_chunk, put_chunk, open_item, start_transaction,
  append_to_staging,
}
use metricz_exporter.Storage.Staging.Counts.{
  item_bytes, staged_bytes, IsAccounted, drop_item-IsAccounted, staged_bytes-drop_item, grown,
}
use metricz_exporter.Storage.Staging.Accounting.{get-drop_item}
use metricz_exporter.Storage.Staging.Eviction.{others}
use metricz_exporter.Storage.Staging.Exclusive.{get-open_item_all}
use metricz_exporter.Storage.Staging.Admission.{put_chunk-eq, start_transaction-eq}

-- The bytes that the chunk takes the place of: the chunk of its number, or all of a transaction
-- that has expired.
abbrev pub replaced_bytes : Time → ℤ → Option StagingItem → ℕ
replaced_bytes now seq none = 0
replaced_bytes now seq (some item) =
    if after now item.expires_at then item_bytes item else length (chunk_at item.chunks seq)

-- The chunks that the transaction already has, if it has not expired.
abbrev pub held_chunks : Time → Option StagingItem → Map ℤ Bytes
held_chunks now none = []
held_chunks now (some item) = if after now item.expires_at then [] else item.chunks

item_bytes-add_chunk :
    (item : StagingItem) (seq : ℤ) (bytes : Bytes)
    → item_bytes (add_chunk item seq bytes) + length (chunk_at item.chunks seq)
      ≡ item_bytes item + length bytes
unfolding add_chunk chunk_at
item_bytes-add_chunk item seq bytes = elim (Option-cases (Map.get seq item.chunks)) [
  | inl new ↦ rw (new, chunk_at) (omega (arith, total-set-none length seq bytes item.chunks new))
  | inr (old, present) ↦
      rw (present, chunk_at)
        (omega (arith, total-set-some length seq bytes old item.chunks present))
]

module _ {limit : ℕ} {s : Storage} (inv : IsAccounted limit s) (float : FloatOps) (now : Time)
    (txn id : String) (seq : ℤ) (bytes : Bytes) (ttl : Duration)
    (fits : limit + length bytes < 2 ^ 63) where
  abbrev Answer : Storage × Option StorageError → Type 0
  Answer r = r.1 ≡ (
      if ltb (limit + replaced_bytes now seq (Map.get txn s.staging_store))
        (staged_bytes s + length bytes)
      then some staging_full
      else none)

  -- In a storage whose accounts are right, and where the limit and the chunk's length together fit
  -- in an int64, AppendToStaging answers ErrStagingFull exactly if the staged bytes, less those
  -- that the chunk replaces (the chunk of its number, or all of its own transaction if that has
  -- expired), and the chunk exceed the limit; otherwise it answers nil.
  pub append_to_staging-admission : Answer (append_to_staging float now txn id seq bytes ttl s)
  append_to_staging-admission =
      append_to_staging_cases Answer float now txn id seq bytes ttl s
        (λ new.
          rw (new, start_transaction-eq inv float now txn id seq bytes ttl new fits) (ground arith))
        (λ item found late.
          rw
            (
              found,
              start_transaction-eq (drop_item-IsAccounted inv txn item found) float now txn id seq
                  bytes ttl (get-drop_item txn item s) fits,
            )
            (ground (arith, late, staged_bytes-drop_item inv txn item found)))
        λ item found live.
          rw (found, put_chunk-eq inv txn item found seq bytes fits)
            (ground (
              arith,
              live,
              grown inv txn item found seq bytes fits,
              item_bytes-add_chunk item seq bytes,
            ))

-- The transaction that an accepted chunk leaves under its hash: the chunks that it held, and the
-- new one in its place.
pub record Holds (now : Time) (txn : String) (seq : ℤ) (bytes : Bytes) (s s' : Storage)
    : Type 0 where
  pub item : StagingItem
  pub found : Map.get txn s'.staging_store ≡ some item
  pub chunk :
      (k : ℤ)
      → Map.get k item.chunks
        ≡ ite (seq ≟ k) (some bytes) (Map.get k (held_chunks now (Map.get txn s.staging_store)))

module _ (float : FloatOps) (now : Time) (txn id : String) (seq : ℤ) (bytes : Bytes)
    (ttl : Duration) (s : Storage) where
  put_chunk-Holds :
      (t : Storage) (item : StagingItem)
      → ((k : ℤ)
          → Map.get k item.chunks ≡ Map.get k (held_chunks now (Map.get txn s.staging_store)))
      → (put_chunk t txn item seq bytes).1 ≡ none
      → Holds now txn seq bytes s (put_chunk t txn item seq bytes).0
  put_chunk-Holds t item same =
      put_chunk_cases (λ r. r.1 ≡ none → Holds now txn seq bytes s r.0) t txn item seq bytes
        (λ _ e. cc)
        λ _ e. record {
          item = add_chunk item seq bytes;
          found = unfold store_chunk in Map.get-set_self txn _ t.staging_store;
          chunk = λ k. unfold add_chunk in ground (arith, get-set seq k bytes item.chunks, same k);
        }

  start_transaction-Holds :
      (t : Storage)
      → ((k : ℤ) → none ≡ Map.get k (held_chunks now (Map.get txn s.staging_store)))
      → (start_transaction float now t txn id seq bytes ttl).1 ≡ none
      → Holds now txn seq bytes s (start_transaction float now t txn id seq bytes ttl).0
  start_transaction-Holds t fresh =
      start_transaction_cases (λ r. r.1 ≡ none → Holds now txn seq bytes s r.0) float now txn id seq
        bytes ttl t (λ _ e. cc)
        λ _.
          put_chunk-Holds (open_item float now t txn id ttl).0 (open_item float now t txn id ttl).1
            (unfold open_item Map.get in fresh)

  -- If AppendToStaging answers nil, the transaction holds the chunk under its number, and under
  -- each other number the chunk that it held before, or none if it was new or had expired.
  pub append_to_staging-Holds :
      (append_to_staging float now txn id seq bytes ttl s).1 ≡ none
      → Holds now txn seq bytes s (append_to_staging float now txn id seq bytes ttl s).0
  append_to_staging-Holds =
      append_to_staging_cases (λ r. r.1 ≡ none → Holds now txn seq bytes s r.0) float now txn id seq
        bytes ttl s (λ new. start_transaction-Holds s (λ k. unfold Map.get in rw new refl))
        (λ item found late.
          start_transaction-Holds (drop_item txn item s)
            (λ k. unfold Map.get in rw (found, late) refl))
        λ item found live. put_chunk-Holds s item (λ k. rw (found, live) refl)

-- A transaction that goes on with this chunk.
abbrev pub is_live : Time → Option StagingItem → Bool
is_live now none = false
is_live now (some item) = not (after now item.expires_at)

-- What another transaction becomes: unchanged if the chunk is refused or its transaction goes on;
-- otherwise it goes if it is of the same instance.
abbrev pub Beside :
    Time → String → String → Storage → String → Storage × Option StorageError → Type 0
Beside now txn id s j r =
    ((r.1 ≡ some staging_full) × (Map.get j r.0.staging_store ≡ Map.get j s.staging_store))
    ⊎ ((r.1 ≡ none)
        × (Map.get j r.0.staging_store ≡ (
            if is_live now (Map.get txn s.staging_store)
            then Map.get j s.staging_store
            else others id (Map.get j s.staging_store))))

abbrev Fresh : String → String → Storage → Storage × Option StorageError → Type 0
Fresh id j s r =
    ((r.1 ≡ some staging_full) × (Map.get j r.0.staging_store ≡ Map.get j s.staging_store))
    ⊎ ((r.1 ≡ none) × (Map.get j r.0.staging_store ≡ others id (Map.get j s.staging_store)))

get-drop_item_ne :
    (txn j : String) (item : StagingItem) (s : Storage)
    → txn ≢ j
    → Map.get j (drop_item txn item s).staging_store ≡ Map.get j s.staging_store
unfolding drop_item
get-drop_item_ne txn j item s other = ground (arith, get-delete txn j s.staging_store)

module _ {limit : ℕ} (float : FloatOps) (now : Time) (txn id : String) (seq : ℤ) (bytes : Bytes)
    (ttl : Duration) (j : String) (other : txn ≢ j) (fits : limit + length bytes < 2 ^ 63) where
  start_transaction-beside :
      (s : Storage)
      → IsAccounted limit s
      → Map.get txn s.staging_store ≡ none
      → Fresh id j s (start_transaction float now s txn id seq bytes ttl)
  unfolding store_chunk
  start_transaction-beside s inv absent =
      rw (start_transaction-eq inv float now txn id seq bytes ttl absent fits) (
        ground (
          arith,
          get-open_item_all float now s txn id ttl j inv.distinct,
          get-set_ne txn j (add_chunk (open_item float now s txn id ttl).1 seq bytes)
              (open_item float now s txn id ttl).0.staging_store other,
        ))

  -- In a storage whose accounts are right, and where the limit and the chunk's length together fit
  -- in an int64, each other transaction is unchanged if the chunk is refused or if its own
  -- transaction goes on; if the chunk starts a transaction, the others of its instance are removed
  -- and those of other instances are unchanged.
  pub append_to_staging-Beside :
      (s : Storage)
      → IsAccounted limit s
      → Beside now txn id s j (append_to_staging float now txn id seq bytes ttl s)
  append_to_staging-Beside s inv =
      append_to_staging_cases (Beside now txn id s j) float now txn id seq bytes ttl s
        (λ new. rw new (start_transaction-beside s inv new))
        (λ item found late.
          rw (found, late, ← get-drop_item_ne txn j item s other)
            (start_transaction-beside (drop_item txn item s)
              (drop_item-IsAccounted inv txn item found) (get-drop_item txn item s)))
        λ item found live.
          rw (found, live, put_chunk-eq inv txn item found seq bytes fits)
            (unfold store_chunk in
              ground (arith, get-set_ne txn j (add_chunk item seq bytes) s.staging_store other))
