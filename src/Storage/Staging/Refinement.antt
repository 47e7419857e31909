-- ===== src/Storage/Staging/Refinement.antt =====
-- The staging area against its specification: staging.go and gc.go.
use mathlib.Core.Path.{fun_ext}
use metricz_exporter.Base.{
  ℕ, ◌+◌, ◌^◌, ◌<◌, ◌≡◌, refl, ◌∙◌, sym, ℤ, length, ◌⊎◌, inl, inr, String, string_key, int_key,
  if_cases, Option, none, some, arith,
}
use metricz_exporter.Base.Map
use metricz_exporter.Base.Map.{get-set, get-set_ne, get-delete}
use metricz_exporter.Metrics.{FloatOps}
use metricz_exporter.Storage.{
  Time, Duration, Bytes, StorageError, staging_full, StagingItem, Storage,
}
use metricz_exporter.Storage.Staging.{
  drop_item, store_chunk, put_chunk, open_item, start_transaction, append_to_staging, effective_ttl,
  retrieve_staging,
}
use metricz_exporter.Storage.Staging.Cases.{put_chunk_cases, append_to_staging_cases}
use metricz_exporter.Storage.Staging.Counts.{IsAccounted, drop_item-IsAccounted}
use metricz_exporter.Storage.Staging.Accounting.{get-drop_item}
use metricz_exporter.Storage.Staging.Admission.{start_transaction-eq}
use metricz_exporter.Storage.Staging.Retrieval.{get-retrieve_staging}
use metricz_exporter.Storage.Staging.View.{
  slot_of, slot_at, view, view-going, view-late, view-absent, view-store_chunk, view-drop_item,
  effective_ttl-same, slot_of-open_item, view-open_item, at_twice, at_begun, at-none, at_self,
}
use metricz_exporter.Storage.Staging.Spec
use metricz_exporter.Storage.Staging.Spec.{
  Slot, Area, accept, accept-going, accept-fresh, refuse, put, fresh, of_others, if_open,
}

module _ (float : FloatOps) (now : Time) (txn id : String) (seq : ℤ) (bytes : Bytes)
    (ttl : Duration) where
  abbrev pub Refines : Storage → Storage × Option StorageError → Type 0
  Refines s r =
      ((r.1 ≡ some staging_full) × (view r.0 ≡ refuse now txn (view s)))
      ⊎ ((r.1 ≡ none)
          × (view r.0 ≡ accept now (effective_ttl float s id ttl) txn id seq bytes (view s)))

  put_chunk-Refines :
      (s : Storage) (item : StagingItem)
      → if_open now (view s txn) ≡ some (slot_of item)
      → view s txn ≡ some (slot_of item)
      → Refines s (put_chunk s txn item seq bytes)
  unfolding refuse
  put_chunk-Refines s item going found =
      put_chunk_cases (Refines s) s txn item seq bytes
        (λ _. inl (refl, rw going (at_self txn (slot_of item) (view s) found)))
        λ _. inr (
          refl,
          view-store_chunk s txn item seq bytes
              ∙ sym (
                  accept-going now (effective_ttl float s id ttl) txn id seq bytes (view s)
                    (slot_of item) going),
        )

  view-begun :
      (s t : Storage)
      → Map.IsDistinct t.staging_store
      → view t ≡ Spec.at txn none (view s)
      → effective_ttl float t id ttl ≡ effective_ttl float s id ttl
      → if_open now (view s txn) ≡ none
      → view (
          store_chunk
            (open_item float now t txn id ttl).0
            txn
            (open_item float now t txn id ttl).1
            seq
            bytes)
        ≡ accept now (effective_ttl float s id ttl) txn id seq bytes (view s)
  view-begun s t distinct same period closed =
      rw
        (
          view-store_chunk (open_item float now t txn id ttl).0 txn
              (open_item float now t txn id ttl).1 seq bytes,
          view-open_item float now t txn id ttl distinct,
          slot_of-open_item float now t txn id ttl,
          period,
          same,
          accept-fresh now (effective_ttl float s id ttl) txn id seq bytes (view s) closed,
        )
        (at_twice txn _ _ _ ∙ at_begun txn id _ (view s))

  module _ {limit : ℕ} (fits : limit + length bytes < 2 ^ 63) where
    start_transaction-Refines :
        (s t : Storage)
        → IsAccounted limit t
        → Map.get txn t.staging_store ≡ none
        → view t ≡ Spec.at txn none (view s)
        → effective_ttl float t id ttl ≡ effective_ttl float s id ttl
        → if_open now (view s txn) ≡ none
        → Refines s (start_transaction float now t txn id seq bytes ttl)
    unfolding refuse
    start_transaction-Refines s t inv absent same period closed =
        rw (start_transaction-eq inv float now txn id seq bytes ttl absent fits) (
          if_cases (Refines s) _ (λ _. inl (refl, rw closed same))
            λ _. inr (refl, view-begun s t inv.distinct same period closed))

  -- In a storage whose accounts are right, and where the limit and the chunk's length together fit
  -- in an int64, AppendToStaging does to the uploads that the storage stands for what their
  -- specification says: if it answers ErrStagingFull, they are unchanged, but for its own upload
  -- if that has expired; if it answers nil, the chunk has joined its unexpired upload, which keeps
  -- its end, or begins an upload that lasts the effective TTL, in place of all uploads of the same
  -- instance.
  pub append_to_staging-Refines :
      {limit : ℕ} (s : Storage)
      → limit + length bytes < 2 ^ 63
      → IsAccounted limit s
      → Refines s (append_to_staging float now txn id seq bytes ttl s)
  append_to_staging-Refines s fits inv =
      append_to_staging_cases (Refines s) float now txn id seq bytes ttl s
        (λ new.
          start_transaction-Refines fits s s inv new
            (at-none txn (view s) (unfold view slot_at in rw (new, slot_at) refl)) refl
            (view-absent now txn s new))
        (λ item found late.
          start_transaction-Refines fits s (drop_item txn item s)
            (drop_item-IsAccounted inv txn item found) (get-drop_item txn item s)
            (view-drop_item txn item s)
            (effective_ttl-same float id ttl (drop_item txn item s) s (unfold drop_item in refl))
            (view-late now txn item s found late))
        λ item found live.
          put_chunk-Refines s item (view-going now txn item s found live)
            (unfold view slot_at in rw (found, slot_at) refl)

-- RetrieveStaging removes its upload from the area.
pub view-retrieve_staging :
    (now : Time) (txn : String) (s : Storage)
    → view (retrieve_staging now txn s).0 ≡ Spec.retrieve txn (view s)
unfolding view Spec.retrieve Spec.at slot_at
view-retrieve_staging now txn s = fun_ext λ j. rw (get-retrieve_staging now txn s j) (ground arith)
