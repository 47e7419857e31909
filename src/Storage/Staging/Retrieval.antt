-- ===== src/Storage/Staging/Retrieval.antt =====
-- RetrieveStaging, as its caller sees it: staging.go.
use metricz_exporter.Base.{
  ◌≡◌, refl, ◌≟◌, ite, ℤ, false, String, string_key, int_key, none, some, [], ◌∷◌, arith,
}
use metricz_exporter.Base.Map
use metricz_exporter.Base.Map.{get-delete, Map}
use metricz_exporter.Storage.{Time, Bytes, StagingItem, Storage}
use metricz_exporter.Storage.Staging.Cases.{retrieve_staging_cases}
use metricz_exporter.Storage.Staging.{
  after, drop_item, payload_of, deliver, result_of, retrieve_staging,
}

deliver_lem :
    (chunks : Map ℤ Bytes) (seq : ℤ) (bytes : Bytes)
    → Map.get seq chunks ≡ some bytes
    → deliver chunks ≡ some (payload_of chunks)
unfolding deliver Map.get
deliver_lem [] seq bytes h = cc
deliver_lem (c ∷ cs) seq bytes h = refl

module _ (now : Time) (txn : String) (s : Storage) where
  -- RetrieveStaging removes its transaction from the store, whether it delivers it or not, and
  -- leaves the others as they are.
  pub get-retrieve_staging :
      (j : String)
      → Map.get j (retrieve_staging now txn s).0.staging_store
        ≡ ite (txn ≟ j) none (Map.get j s.staging_store)
  get-retrieve_staging j =
      retrieve_staging_cases
        (λ r. Map.get j r.0.staging_store ≡ ite (txn ≟ j) none (Map.get j s.staging_store)) now txn
        s (λ missing. ground arith)
        λ item found. unfold drop_item in get-delete txn j s.staging_store

  -- A transaction is delivered at most once: after RetrieveStaging, a second call for the same
  -- transaction at any time yields nothing.
  pub retrieve_staging_twice :
      (later : Time) → (retrieve_staging later txn (retrieve_staging now txn s).0).1 ≡ none
  retrieve_staging_twice later =
      retrieve_staging_cases (λ r. r.1 ≡ none) later txn (retrieve_staging now txn s).0 (λ _. refl)
        λ item found. ground (arith, get-retrieve_staging txn)

  -- If the store holds a transaction that has not expired and has a chunk, RetrieveStaging yields
  -- the payload of all its chunks.
  pub retrieve_staging-eq-some :
      (item : StagingItem) (seq : ℤ) (bytes : Bytes)
      → Map.get txn s.staging_store ≡ some item
      → after now item.expires_at ≡ false
      → Map.get seq item.chunks ≡ some bytes
      → (retrieve_staging now txn s).1 ≡ some (payload_of item.chunks)
  retrieve_staging-eq-some item seq bytes found live chunk =
      retrieve_staging_cases (λ r. r.1 ≡ some (payload_of item.chunks)) now txn s
        (λ missing. ground arith)
        λ other same.
          let e : item ≡ other = cc in
          rw (← e) (unfold result_of in rw live (deliver_lem item.chunks seq bytes chunk))
