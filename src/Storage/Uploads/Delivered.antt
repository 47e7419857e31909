-- ===== src/Storage/Uploads/Delivered.antt =====
-- What a retrieval delivers at the end of an upload: internal/storage/staging.go.
use metricz_exporter.Base.{
  ℕ, ◌+◌, ◌^◌, ◌≤◌, ◌<◌, ◌≡◌, refl, ap, ◌∙◌, ℤ, ◌+ℤ◌, length, inl, inr, String, string_key, int_key,
  true, false, Option, Option-cases, none, some, [], ◌∷◌, arith,
}
use metricz_exporter.Base.Map
use metricz_exporter.Base.Map.{Map, get-set, Values-get}
use metricz_exporter.Metrics.{FloatOps}
use metricz_exporter.Storage.{Time, Duration, Bytes, StagingItem, Storage}
use metricz_exporter.Storage.Staging.{
  after, append_to_staging, retrieve_staging, payload_of, effective_ttl,
}
use metricz_exporter.Storage.Staging.Counts.{IsCounted}
use metricz_exporter.Storage.Staging.Order.{is_some}
use metricz_exporter.Storage.Staging.Payloads.{payload_of_unique}
use metricz_exporter.Storage.Staging.Retrieval.{retrieve_staging-eq-some}
use metricz_exporter.Storage.Staging.Delivery.{is_live}
use metricz_exporter.Storage.Staging.Spec
use metricz_exporter.Storage.Staging.Spec.{Slot, accept-fresh, if_open, put, fresh}
use metricz_exporter.Storage.Staging.View.{slot_of, slot_at, view}
use metricz_exporter.Storage.Staging.Refinement.{append_to_staging-Refines}
use metricz_exporter.Storage.History.{Reach, appends, IsSound, Reach-IsSound, Step-IsSound}
use metricz_exporter.Storage.Uploads.{received, Spared, upload}
use metricz_exporter.Storage.Uploads.Carried.{Carried, put-upload, Reach-Carried}
use metricz_exporter.Storage.Uploads.Received.{received-IsDistinct, is_some-received}

-- The chunk of an upload.
abbrev chunk_in : Option Slot → ℤ → Option Bytes
chunk_in none k = none
chunk_in (some slot) k = slot.chunk k

-- The transaction behind an upload.
record Behind (txn : String) (end : Time) (m : Map ℤ Bytes) (s : Storage) : Type 0 where
  item : StagingItem
  found : Map.get txn s.staging_store ≡ some item
  ends : item.expires_at ≡ end
  chunks : (k : ℤ) → Map.get k item.chunks ≡ Map.get k m

module _ (txn id : String) (end : Time) (m : Map ℤ Bytes) (s : Storage) where
  Carried-Behind : Carried txn id end m (view s) → Behind txn end m s
  unfolding view slot_at slot_of
  Carried-Behind held = elim (Option-cases (Map.get txn s.staging_store)) [
    | inl missing ↦ let no : ⊥ = ground arith in elim no [ ]
    | inr (item, found) ↦
        let same : some (slot_of item) ≡ some (upload id end m) = (rw (found, slot_at) at held) in
        record {
          item = item;
          found = found;
          ends = cc;
          chunks = λ k. ap (λ (found : Option Slot). chunk_in found k) same;
        }
  ]

  -- An upload that has not ended and has a chunk is delivered.
  retrieve_staging-Carried :
      {limit : ℕ} (when : Time) (k : ℤ)
      → IsSound limit s
      → Map.IsDistinct m
      → is_some (Map.get k m) ≡ true
      → after when end ≡ false
      → Carried txn id end m (view s)
      → (retrieve_staging when txn s).1 ≡ some (payload_of m)
  retrieve_staging-Carried when k sound d there before held =
      let b = Carried-Behind held in
      elim (Option-cases (Map.get k m)) [
        | inl missing ↦ let no : ⊥ = ground arith in elim no [ ]
        | inr (bytes, has) ↦
            retrieve_staging-eq-some when txn s b.item k bytes b.found (rw b.ends before)
              (b.chunks k ∙ has)
            ∙ ap some (
                payload_of_unique b.item.chunks m
                  (Values-get IsCounted txn b.item s.staging_store sound.accounted.items
                    b.found).distinct
                  d b.chunks)
      ]

module _ (float : FloatOps) (now : Time) (txn id : String) (seq : ℤ) (bytes : Bytes)
    (ttl : Duration) (s : Storage) where
  abbrev first : Storage
  first = (append_to_staging float now txn id seq bytes ttl s).0

  if_open-view : is_live now (Map.get txn s.staging_store) ≡ false → if_open now (view s txn) ≡ none
  unfolding if_open view slot_at slot_of Spec.is_open
  if_open-view ended = elim (Option-cases (Map.get txn s.staging_store)) [
    | inl missing ↦ rw (missing, slot_at) refl
    | inr (item, found) ↦
        let late : after now item.expires_at ≡ true = ground arith in rw (found, slot_at, late) refl
  ]

  -- The first chunk begins the upload.
  append_to_staging-Carried-first :
      {limit : ℕ}
      → limit + length bytes < 2 ^ 63
      → IsSound limit s
      → is_live now (Map.get txn s.staging_store) ≡ false
      → (append_to_staging float now txn id seq bytes ttl s).1 ≡ none
      → Carried txn id (now +ℤ effective_ttl float s id ttl) ((seq, bytes) ∷ []) (view first)
  unfolding Spec.at fresh Map.set Map.get
  append_to_staging-Carried-first fits sound ended accepted =
      elim (append_to_staging-Refines float now txn id seq bytes ttl s fits sound.accounted) [
        | inl (refused, e) ↦ let no : ⊥ = ground arith in elim no [ ]
        | inr (nil, e) ↦
            rw
              (
                e,
                accept-fresh now (effective_ttl float s id ttl) txn id seq bytes (view s)
                    (if_open-view ended),
                put-upload id (now +ℤ effective_ttl float s id ttl) seq bytes [],
              )
              (ground arith)
      ]

  module _ {limit max_body : ℕ} (fits : limit + max_body < 2 ^ 63) (small : length bytes ≤ max_body)
      (sound : IsSound limit s) (ended : is_live now (Map.get txn s.staging_store) ≡ false)
      (accepted : (append_to_staging float now txn id seq bytes ttl s).1 ≡ none) {t : Storage}
      (r : Reach max_body first t) (spared : Spared txn id (now +ℤ effective_ttl float s id ttl) r)
      (when : Time) (early : after when (now +ℤ effective_ttl float s id ttl) ≡ false) where
    pub retrieve_staging-received :
        (retrieve_staging when txn t).1 ≡ some (payload_of (received txn r ((seq, bytes) ∷ [])))
    unfolding Map.get
    retrieve_staging-received =
        let begun : IsSound limit first =
          Step-IsSound fits (appends s float now txn id seq bytes ttl small) sound in
        let m : Map ℤ Bytes = (seq, bytes) ∷ [] in
        let distinct : Map.IsDistinct m = (refl, tt) in
        retrieve_staging-Carried txn id (now +ℤ effective_ttl float s id ttl) (received txn r m) t
          when seq (Reach-IsSound fits begun r) (received-IsDistinct txn r m distinct)
          (is_some-received txn seq r m (ground arith)) early
          (Reach-Carried txn id (now +ℤ effective_ttl float s id ttl) fits r m begun spared
            (append_to_staging-Carried-first (omega arith) sound ended accepted))
