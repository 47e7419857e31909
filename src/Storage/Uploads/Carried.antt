-- ===== src/Storage/Uploads/Carried.antt =====
-- What each call of the storage makes of an upload: internal/storage/staging.go and gc.go.
use mathlib.Core.Path.{fun_ext}
use metricz_exporter.Base.{
  ℕ, ◌+◌, ◌^◌, ◌≤◌, ◌<◌, ◌≡◌, ◌≢◌, refl, sym, ℤ, length, ◌≟◌, ite, inl, inr, String, string_key,
  int_key, false, Option, Option-cases, none, some, arith,
}
use metricz_exporter.Base.Map
use metricz_exporter.Base.Map.{Map, get-set, set-IsDistinct}
use metricz_exporter.Storage.{
  Time, Duration, Bytes, StagingItem, Storage, update_ingested, update_polled, update_a2s,
  update_rcon, put_state,
}
use metricz_exporter.Storage.Staging.{after, append_to_staging, retrieve_staging, effective_ttl}
use metricz_exporter.Metrics.{FloatOps}
use metricz_exporter.Storage.Staging.Spec
use metricz_exporter.Storage.Staging.Spec.{
  Slot, Area, accept, refuse, put, fresh, of_others, if_open, accept-going, accept-fresh,
}
use metricz_exporter.Storage.Staging.View.{slot_of, slot_at, view}
use metricz_exporter.Storage.Staging.Refinement.{append_to_staging-Refines, view-retrieve_staging}
use metricz_exporter.Storage.Gc.{cleanup_staging}
use metricz_exporter.Storage.Gc.Expiry.{get-cleanup_staging, unexpired}
use metricz_exporter.Storage.History.{
  ingests, polls, queries, consoles, appends, retrieves, collects, Reach, start, next, IsSound,
  Reach-IsSound,
}
use metricz_exporter.Storage.Uploads.{answered, received, Spared, upload}

pub put-upload :
    (id : String) (end : Time) (seq : ℤ) (bytes : Bytes) (m : Map ℤ Bytes)
    → put seq bytes (upload id end m) ≡ upload id end (Map.set seq bytes m)
unfolding put
put-upload id end seq bytes m i = record {
  instance_id = id;
  expires_at = end;
  chunk = fun_ext (λ k. sym (get-set seq k bytes m)) i;
}

if_open-upload :
    (now end : Time) (id : String) (m : Map ℤ Bytes) (found : Option Slot)
    → found ≡ some (upload id end m)
    → after now end ≡ false
    → if_open now found ≡ some (upload id end m)
unfolding if_open Spec.is_open
if_open-upload now end id m found held before = rw held (rw before refl)

module _ (txn id : String) (end : Time) where
  abbrev pub Carried : Map ℤ Bytes → Area → Type 0
  Carried m area = area txn ≡ some (upload id end m)

  refuse-Carried_own :
      (now : Time) (m : Map ℤ Bytes) (area : Area)
      → after now end ≡ false
      → Carried m area
      → Carried m (refuse now txn area)
  unfolding refuse Spec.at
  refuse-Carried_own now m area before held =
      rw (if_open-upload now end id m (area txn) held before) (ground arith)

  refuse-Carried_other :
      (now : Time) (other : String) (m : Map ℤ Bytes) (area : Area)
      → other ≢ txn
      → Carried m area
      → Carried m (refuse now other area)
  unfolding refuse Spec.at
  refuse-Carried_other now other m area apart held = ground arith

  accept-Carried_own :
      (now : Time) (ttl : Duration) (whose : String) (seq : ℤ) (bytes : Bytes) (m : Map ℤ Bytes)
      (area : Area)
      → after now end ≡ false
      → Carried m area
      → Carried (Map.set seq bytes m) (accept now ttl txn whose seq bytes area)
  unfolding Spec.at
  accept-Carried_own now ttl whose seq bytes m area before held =
      rw
        (
          accept-going now ttl txn whose seq bytes area (upload id end m)
              (if_open-upload now end id m (area txn) held before),
          put-upload id end seq bytes m,
        )
        (ground arith)

  accept-Carried_other :
      (now : Time) (ttl : Duration) (other whose : String) (seq : ℤ) (bytes : Bytes)
      (m : Map ℤ Bytes) (area : Area)
      → other ≢ txn
      → whose ≢ id
      → Carried m area
      → Carried m (accept now ttl other whose seq bytes area)
  unfolding Spec.at
  accept-Carried_other now ttl other whose seq bytes m area apart foreign held =
      elim (Option-cases (if_open now (area other))) [
        | inl closed ↦
            rw (accept-fresh now ttl other whose seq bytes area closed, held)
              (unfold of_others in ground arith)
        | inr (slot, going) ↦
            rw (accept-going now ttl other whose seq bytes area slot going) (ground arith)
      ]

slot_at-unexpired :
    (now : Time) (found : Option StagingItem)
    → slot_at (unexpired now found) ≡ if_open now (slot_at found)
unfolding slot_at slot_of if_open Spec.is_open
slot_at-unexpired now none = refl
slot_at-unexpired now (some item) = ground arith

-- If no key is held twice, a collection removes the uploads that have expired.
pub view-cleanup_staging :
    (now : Time) (s : Storage)
    → Map.IsDistinct s.staging_store
    → view (cleanup_staging now s).0 ≡ Spec.collect now (view s)
unfolding view Spec.collect
view-cleanup_staging now s d =
    fun_ext
      λ j. rw (get-cleanup_staging now s j d) (slot_at-unexpired now (Map.get j s.staging_store))

ite_both {ℓ κ} :
    {A : Type ℓ} {Q X Y : Type 0} (P : A → Type κ) (d : Dec Q) {a b : A}
    → ite d X Y
    → (Q → X → P a)
    → (¬ Q → Y → P b)
    → P (ite d a b)
ite_both P (yes q) xy left right = left q xy
ite_both P (no n) xy left right = right n xy

module _ (txn id : String) (end : Time) where
  retrieve_staging-Carried :
      (now : Time) (other : String) (s : Storage) (m : Map ℤ Bytes)
      → other ≢ txn
      → Carried txn id end m (view s)
      → Carried txn id end m (view (retrieve_staging now other s).0)
  unfolding Spec.retrieve Spec.at
  retrieve_staging-Carried now other s m apart held =
      rw (view-retrieve_staging now other s) (ground arith)

  cleanup_staging-Carried :
      (now : Time) (s : Storage) (m : Map ℤ Bytes)
      → Map.IsDistinct s.staging_store
      → after now end ≡ false
      → Carried txn id end m (view s)
      → Carried txn id end m (view (cleanup_staging now s).0)
  unfolding Spec.collect
  cleanup_staging-Carried now s m d before held =
      rw (view-cleanup_staging now s d) (if_open-upload now end id m (view s txn) held before)

module _ (txn id : String) (end : Time) {limit max_body : ℕ}
    (fits : limit + max_body < 2 ^ 63) where
  append_to_staging-Carried :
      (float : FloatOps) (now : Time) (other whose : String) (seq : ℤ) (bytes : Bytes)
      (ttl : Duration) (s : Storage) (m : Map ℤ Bytes)
      → length bytes ≤ max_body
      → IsSound limit s
      → ite (other ≟ txn) (after now end ≡ false) (whose ≢ id)
      → Carried txn id end m (view s)
      → let r = append_to_staging float now other whose seq bytes ttl s in
        Carried txn id end (ite (other ≟ txn) (answered r.1 seq bytes m) m) (view r.0)
  append_to_staging-Carried float now other whose seq bytes ttl s m small sound spares held =
      let refines =
        append_to_staging-Refines float now other whose seq bytes ttl s (omega arith)
          sound.accounted in
      let r = append_to_staging float now other whose seq bytes ttl s in
      ite_both (λ n. Carried txn id end n (view r.0)) (other ≟ txn) spares
        (λ same before. elim refines [
          | inl (refused, e) ↦
              rw (refused, e, same) (refuse-Carried_own txn id end now m (view s) before held)
          | inr (nil, e) ↦
              rw (nil, e, same)
                (accept-Carried_own txn id end now (effective_ttl float s whose ttl) whose seq bytes
                  m (view s) before held)
        ])
        λ apart foreign. elim refines [
          | inl (refused, e) ↦
              rw e (refuse-Carried_other txn id end now other m (view s) apart held)
          | inr (nil, e) ↦ rw e (
              accept-Carried_other txn id end now (effective_ttl float s whose ttl) other whose seq
                bytes m (view s) apart foreign held)
        ]

  -- An upload goes through a history that spares it with the chunks that were staged.
  pub Reach-Carried :
      {s t : Storage} (r : Reach max_body s t) (m : Map ℤ Bytes)
      → IsSound limit s
      → Spared txn id end r
      → Carried txn id end m (view s)
      → Carried txn id end (received txn r m) (view t)
  unfolding received update_ingested update_polled update_a2s update_rcon put_state view
  Reach-Carried start m sound spared held = held
  Reach-Carried (next r (ingests s now later other families bytes chunks)) m sound spared held =
      Reach-Carried r m sound spared.0 held
  Reach-Carried (next r (polls s other families)) m sound spared held =
      Reach-Carried r m sound spared.0 held
  Reach-Carried (next r (queries s other families)) m sound spared held =
      Reach-Carried r m sound spared.0 held
  Reach-Carried (next r (consoles s other families)) m sound spared held =
      Reach-Carried r m sound spared.0 held
  Reach-Carried (next r (appends s float now other whose seq bytes ttl small)) m sound spared held =
      append_to_staging-Carried float now other whose seq bytes ttl s (received txn r m) small
        (Reach-IsSound fits sound r) spared.1 (Reach-Carried r m sound spared.0 held)
  Reach-Carried (next r (retrieves s now other)) m sound spared held =
      retrieve_staging-Carried txn id end now other s (received txn r m) spared.1
        (Reach-Carried r m sound spared.0 held)
  Reach-Carried (next r (collects s now)) m sound spared held =
      cleanup_staging-Carried txn id end now s (received txn r m)
        (Reach-IsSound fits sound r).accounted.distinct spared.1
        (Reach-Carried r m sound spared.0 held)
