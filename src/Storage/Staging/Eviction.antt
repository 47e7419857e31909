-- ===== src/Storage/Staging/Eviction.antt =====
-- The loop of AppendToStaging that deletes an instance's other transactions: staging.go.
use metricz_exporter.Base.{
  ◌≡◌, refl, ◌≟◌, ite, String, string_key, Option, none, some, [], ◌∷◌, arith,
}
use metricz_exporter.Base.Map
use metricz_exporter.Base.Map.{Map, get-delete}
use metricz_exporter.Storage.{StagingItem, Storage}
use metricz_exporter.Storage.Staging.{drop_item, evict_loop}

-- A transaction of another instance stays.
abbrev pub others : String → Option StagingItem → Option StagingItem
others id none = none
others id (some item) = ite (item.instance_id ≟ id) none (some item)

-- `found` where the entries ranged over have nothing under the key.
abbrev pub without : String → Option StagingItem → Option StagingItem → Option StagingItem
without id none found = found
without id (some item) found = ite (item.instance_id ≟ id) none found

pub get-evict_loop :
    (id : String) (r : Map String StagingItem) (s : Storage) (j : String)
    → Map.IsDistinct r
    → Map.get j (evict_loop id r s).staging_store
      ≡ without id (Map.get j r) (Map.get j s.staging_store)
unfolding evict_loop Map.get
get-evict_loop id [] s j d = refl
get-evict_loop id ((k, v) ∷ r) s j d = ground (
  arith,
  get-evict_loop id r s j d.1,
  get-evict_loop id r (drop_item k v s) j d.1,
  get-delete k j s.staging_store,
)
