-- ===== src/Storage/Staging/Cases.antt =====
-- The branches of the staging operations, as rules.
use metricz_exporter.Base.{
  ◌≡◌, ltb_ℤ, add64, String, string_key, ℤ, Bool-cases, true, false, Option-cases, inl, inr, Option,
  none, some,
}
use metricz_exporter.Base.Map
use metricz_exporter.Metrics.{FloatOps}
use metricz_exporter.Storage.{
  Time, Duration, Bytes, StorageError, staging_full, StagingItem, Storage,
}
use metricz_exporter.Storage.Staging.{
  after, size_of, chunk_delta, drop_item, store_chunk, put_chunk, open_item, start_transaction,
  append_to_staging, Payload, retrieve_staging, result_of,
}

abbrev Outcome : Type 0
Outcome = Storage × Option StorageError

pub put_chunk_cases {ℓ} :
    (P : Outcome → Type ℓ) (s : Storage) (txn : String) (item : StagingItem) (seq : ℤ)
    (bytes : Bytes)
    → let over =
        ltb_ℤ s.max_staging_size (add64 s.staging_size (chunk_delta item.chunks seq bytes)) in
      (over ≡ true → P (s, some staging_full))
      → (over ≡ false → P (store_chunk s txn item seq bytes, none))
      → P (put_chunk s txn item seq bytes)
unfolding put_chunk
put_chunk_cases P s txn item seq bytes full room =
    elim (Bool-cases
      (ltb_ℤ s.max_staging_size (add64 s.staging_size (chunk_delta item.chunks seq bytes)))) [
        | inl h ↦ rw h (full h)
        | inr h ↦ rw h (room h)
      ]

module _ {ℓ} (P : Outcome → Type ℓ) (float : FloatOps) (now : Time) (txn id : String) (seq : ℤ)
    (bytes : Bytes) (ttl : Duration) (s : Storage) where
  pub start_transaction_cases :
      (ltb_ℤ s.max_staging_size (add64 s.staging_size (size_of bytes)) ≡ true
        → P (s, some staging_full))
      → (ltb_ℤ s.max_staging_size (add64 s.staging_size (size_of bytes)) ≡ false
          → P (
              put_chunk
                (open_item float now s txn id ttl).0
                txn
                (open_item float now s txn id ttl).1
                seq
                bytes))
      → P (start_transaction float now s txn id seq bytes ttl)
  unfolding start_transaction
  start_transaction_cases full room =
      elim (Bool-cases (ltb_ℤ s.max_staging_size (add64 s.staging_size (size_of bytes)))) [
        | inl h ↦ rw h (full h)
        | inr h ↦ rw h (room h)
      ]

  -- The transaction is new, or has expired and is reset, or goes on.
  pub append_to_staging_cases :
      (Map.get txn s.staging_store ≡ none → P (start_transaction float now s txn id seq bytes ttl))
      → ((item : StagingItem)
          → Map.get txn s.staging_store ≡ some item
          → after now item.expires_at ≡ true
          → P (start_transaction float now (drop_item txn item s) txn id seq bytes ttl))
      → ((item : StagingItem)
          → Map.get txn s.staging_store ≡ some item
          → after now item.expires_at ≡ false
          → P (put_chunk s txn item seq bytes))
      → P (append_to_staging float now txn id seq bytes ttl s)
  unfolding append_to_staging
  append_to_staging_cases new reset more = elim (Option-cases (Map.get txn s.staging_store)) [
    | inl h ↦ rw (h, append_to_staging) (new h)
    | inr (item, found) ↦ elim (Bool-cases (after now item.expires_at)) [
      | inl late ↦ rw (found, append_to_staging, late) (reset item found late)
      | inr live ↦ rw (found, append_to_staging, live) (more item found live)
    ]
  ]

pub retrieve_staging_cases {ℓ} :
    (P : Storage × Option Payload → Type ℓ) (now : Time) (txn : String) (s : Storage)
    → (Map.get txn s.staging_store ≡ none → P (s, none))
    → ((item : StagingItem)
        → Map.get txn s.staging_store ≡ some item
        → P (drop_item txn item s, result_of now item))
    → P (retrieve_staging now txn s)
unfolding retrieve_staging
retrieve_staging_cases P now txn s missing present =
    elim (Option-cases (Map.get txn s.staging_store)) [
      | inl h ↦ rw (h, retrieve_staging) (missing h)
      | inr (item, found) ↦ rw (found, retrieve_staging) (present item found)
    ]
