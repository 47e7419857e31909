-- ===== src/Storage/Staging/View.antt =====
-- The uploads that a storage holds, and what the storage's parts make of them: staging.go.
use mathlib.Core.Path.{fun_ext}
use metricz_exporter.Base.{
  ◌≡◌, refl, ap, ◌∙◌, ℤ, ◌+ℤ◌, String, string_key, int_key, true, false, Option, none, some, [],
  ◌∷◌, arith,
}
use metricz_exporter.Base.Map
use metricz_exporter.Base.Map.{get-set, get-set_ne, get-delete}
use metricz_exporter.Metrics.{FloatOps}
use metricz_exporter.Storage.{Time, Duration, Bytes, StagingItem, Storage}
use metricz_exporter.Storage.Staging.{
  after, add_chunk, drop_item, store_chunk, open_item, effective_ttl, evict_loop, empty_item,
}
use metricz_exporter.Storage.Staging.Exclusive.{get-open_item_all}
use metricz_exporter.Storage.Staging.Eviction.{others}
use metricz_exporter.Storage.Staging.Spec
use metricz_exporter.Storage.Staging.Spec.{
  Slot, Area, accept, accept-going, accept-fresh, refuse, put, fresh, of_others, if_open,
}

unfoldable pub slot_of : StagingItem → Slot
slot_of item = record {
  instance_id = item.instance_id;
  expires_at = item.expires_at;
  chunk = λ k. Map.get k item.chunks;
}

unfoldable pub slot_at : Option StagingItem → Option Slot
unfolding slot_of
slot_at none = none
slot_at (some item) = some (slot_of item)

-- The area that a storage stands for.
unfoldable pub view : Storage → Area
unfolding slot_at
view s j = slot_at (Map.get j s.staging_store)

pub slot_of-add_chunk :
    (item : StagingItem) (seq : ℤ) (bytes : Bytes)
    → slot_of (add_chunk item seq bytes) ≡ put seq bytes (slot_of item)
unfolding add_chunk slot_of put
slot_of-add_chunk item seq bytes i = record {
  instance_id = item.instance_id;
  expires_at = item.expires_at;
  chunk = fun_ext (λ k. get-set seq k bytes item.chunks) i;
}

pub slot_of-empty_item : (t : Time) (id : String) → slot_of (empty_item t id) ≡ fresh t id
unfolding slot_of fresh Map.get
slot_of-empty_item t id = refl

pub slot_at-others :
    (id : String) (found : Option StagingItem)
    → slot_at (others id found) ≡ of_others id (slot_at found)
unfolding slot_at slot_of of_others
slot_at-others id none = refl
slot_at-others id (some item) = (ground arith)

pub view-going :
    (now : Time) (txn : String) (item : StagingItem) (s : Storage)
    → Map.get txn s.staging_store ≡ some item
    → after now item.expires_at ≡ false
    → if_open now (view s txn) ≡ some (slot_of item)
unfolding view slot_at slot_of if_open Spec.is_open
view-going now txn item s found live = rw (found, slot_at, live) refl

pub view-late :
    (now : Time) (txn : String) (item : StagingItem) (s : Storage)
    → Map.get txn s.staging_store ≡ some item
    → after now item.expires_at ≡ true
    → if_open now (view s txn) ≡ none
unfolding view slot_at slot_of if_open Spec.is_open
view-late now txn item s found late = rw (found, slot_at, late) refl

pub view-absent :
    (now : Time) (txn : String) (s : Storage)
    → Map.get txn s.staging_store ≡ none
    → if_open now (view s txn) ≡ none
unfolding view slot_at if_open Spec.is_open
view-absent now txn s absent = rw (absent, slot_at) refl

pub view-store_chunk :
    (s : Storage) (txn : String) (item : StagingItem) (seq : ℤ) (bytes : Bytes)
    → view (store_chunk s txn item seq bytes)
      ≡ Spec.at txn (some (put seq bytes (slot_of item))) (view s)
unfolding view store_chunk Spec.at slot_at
view-store_chunk s txn item seq bytes = fun_ext λ j.
    rw
      (get-set txn j (add_chunk item seq bytes) s.staging_store, ← slot_of-add_chunk item seq bytes)
      (ground arith)

pub view-drop_item :
    (txn : String) (item : StagingItem) (s : Storage)
    → view (drop_item txn item s) ≡ Spec.at txn none (view s)
unfolding view drop_item Spec.at slot_at
view-drop_item txn item s = fun_ext λ j. rw (get-delete txn j s.staging_store) (ground arith)

pub live_store-evict_loop :
    (id : String) (r : Map.Map String StagingItem) (s : Storage)
    → (evict_loop id r s).live_store ≡ s.live_store
unfolding evict_loop drop_item
live_store-evict_loop id [] s = refl
live_store-evict_loop id ((k, v) ∷ r) s =
    ground (arith, live_store-evict_loop id r s, live_store-evict_loop id r (drop_item k v s))

pub effective_ttl-same :
    (float : FloatOps) (id : String) (ttl : Duration) (s t : Storage)
    → s.live_store ≡ t.live_store
    → effective_ttl float s id ttl ≡ effective_ttl float t id ttl
unfolding effective_ttl
effective_ttl-same float id ttl s t same = rw (same, effective_ttl) refl

-- A new upload begins as the specification's.
pub slot_of-open_item :
    (float : FloatOps) (now : Time) (s : Storage) (txn id : String) (ttl : Duration)
    → slot_of (open_item float now s txn id ttl).1 ≡ fresh (now +ℤ effective_ttl float s id ttl) id
unfolding open_item
slot_of-open_item float now s txn id ttl =
    slot_of-empty_item _ id
    ∙ ap (λ d. fresh (now +ℤ d) id)
        (effective_ttl-same float id ttl (evict_loop id s.staging_store s) s
          (live_store-evict_loop id s.staging_store s))

pub view-open_item :
    (float : FloatOps) (now : Time) (s : Storage) (txn id : String) (ttl : Duration)
    → Map.IsDistinct s.staging_store
    → view (open_item float now s txn id ttl).0
      ≡ Spec.at txn
          (some (slot_of (open_item float now s txn id ttl).1))
          (λ j. of_others id (view s j))
unfolding view Spec.at slot_at
view-open_item float now s txn id ttl d = fun_ext λ j.
    rw
      (
        get-open_item_all float now s txn id ttl j d,
        ← slot_at-others id (Map.get j s.staging_store),
      )
      (ground arith)

pub at_twice :
    (txn : String) (a b : Option Slot) (area : Area)
    → Spec.at txn a (Spec.at txn b area) ≡ Spec.at txn a area
unfolding Spec.at
at_twice txn a b area = fun_ext λ j. ground arith

pub at_begun :
    (txn id : String) (a : Option Slot) (area : Area)
    → Spec.at txn a (λ j. of_others id (Spec.at txn none area j))
      ≡ Spec.at txn a (λ j. of_others id (area j))
unfolding Spec.at
at_begun txn id a area = fun_ext λ j. ground arith

pub at-none : (txn : String) (area : Area) → area txn ≡ none → area ≡ Spec.at txn none area
unfolding Spec.at
at-none txn area h = fun_ext λ j. ground arith

pub at_self :
    (txn : String) (slot : Slot) (area : Area)
    → area txn ≡ some slot
    → area ≡ Spec.at txn (some slot) area
unfolding Spec.at
at_self txn slot area h = fun_ext λ j. ground arith
