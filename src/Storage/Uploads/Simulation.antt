-- ===== src/Storage/Uploads/Simulation.antt =====
-- The histories of the storage's calls against the specification of the staging area: staging.go and
-- gc.go.
use metricz_exporter.Base.{
  ℕ, ◌+◌, ◌^◌, ◌<◌, ◌≤◌, ◌≡◌, refl, ap, ◌∙◌, ℤ, Option, some, pos, length, String, string_key, inl,
  inr, none, arith,
}
use metricz_exporter.Base.Map
use metricz_exporter.Metrics.{FloatOps}
use metricz_exporter.Storage.{
  Time, Duration, Bytes, StorageError, Storage, new, put_state, update_ingested, update_polled,
  update_a2s, update_rcon,
}
use metricz_exporter.Storage.Staging.{append_to_staging, effective_ttl}
use metricz_exporter.Storage.Staging.Spec
use metricz_exporter.Storage.Staging.Spec.{Area, accept, refuse}
use metricz_exporter.Storage.Staging.View.{slot_at, view}
use metricz_exporter.Storage.Staging.Refinement.{append_to_staging-Refines, view-retrieve_staging}
use metricz_exporter.Storage.History.{
  ingests, polls, queries, consoles, appends, retrieves, collects, Reach, start, next, IsSound,
  Reach-IsSound, new-IsSound,
}
use metricz_exporter.Storage.Uploads.Carried.{view-cleanup_staging}

abbrev pub empty_area : Area
empty_area id = none

-- A chunk's call in the specification, by its answer.
abbrev pub appended :
    Option StorageError → Time → Duration → String → String → ℤ → Bytes → Area → Area
appended none now ttl txn id seq bytes area = accept now ttl txn id seq bytes area
appended (some e) now ttl txn id seq bytes area = refuse now txn area

-- The same calls, in the same order and with the same arguments, of the specification. A chunk is
-- answered as the storage answers it, and lasts the TTL that the storage then has for the instance.
unfoldable pub replay : {max_body : ℕ} {s t : Storage} → Reach max_body s t → Area → Area
replay start area = area
replay (next r (ingests s now later id families bytes chunks)) area = replay r area
replay (next r (polls s id families)) area = replay r area
replay (next r (queries s id families)) area = replay r area
replay (next r (consoles s id families)) area = replay r area
replay (next r (appends s float now txn id seq bytes ttl small)) area =
    appended (append_to_staging float now txn id seq bytes ttl s).1 now
      (effective_ttl float s id ttl) txn id seq bytes (replay r area)
replay (next r (retrieves s now txn)) area = Spec.retrieve txn (replay r area)
replay (next r (collects s now)) area = Spec.collect now (replay r area)

module _ {limit max_body : ℕ} (fits : limit + max_body < 2 ^ 63) where
  view-append_to_staging :
      (float : FloatOps) (now : Time) (txn id : String) (seq : ℤ) (bytes : Bytes) (ttl : Duration)
      (s : Storage)
      → length bytes ≤ max_body
      → IsSound limit s
      → let r = append_to_staging float now txn id seq bytes ttl s in
        view r.0 ≡ appended r.1 now (effective_ttl float s id ttl) txn id seq bytes (view s)
  view-append_to_staging float now txn id seq bytes ttl s small sound =
      elim (append_to_staging-Refines float now txn id seq bytes ttl s (omega arith)
        sound.accounted) [
          | inl (refused, e) ↦ rw (refused, e) refl
          | inr (nil, e) ↦ rw (nil, e) refl
        ]

  view-replay :
      {s t : Storage} (r : Reach max_body s t) → IsSound limit s → view t ≡ replay r (view s)
  unfolding replay update_ingested update_polled update_a2s update_rcon put_state view
  view-replay start sound = refl
  view-replay (next r (ingests s now later id families bytes chunks)) sound = view-replay r sound
  view-replay (next r (polls s id families)) sound = view-replay r sound
  view-replay (next r (queries s id families)) sound = view-replay r sound
  view-replay (next r (consoles s id families)) sound = view-replay r sound
  view-replay (next r (appends s float now txn id seq bytes ttl small)) sound =
      view-append_to_staging float now txn id seq bytes ttl s small (Reach-IsSound fits sound r)
      ∙ ap
          (appended (append_to_staging float now txn id seq bytes ttl s).1 now
            (effective_ttl float s id ttl) txn id seq bytes)
          (view-replay r sound)
  view-replay (next r (retrieves s now txn)) sound =
      view-retrieve_staging now txn s ∙ ap (Spec.retrieve txn) (view-replay r sound)
  view-replay (next r (collects s now)) sound =
      view-cleanup_staging now s (Reach-IsSound fits sound r).accounted.distinct
      ∙ ap (Spec.collect now) (view-replay r sound)

view-new : (limit : ℕ) → view (new (pos limit)) ≡ empty_area
unfolding view new slot_at Map.get
view-new limit = refl

-- After every history of the storage's calls from an empty storage, in which no chunk has more
-- than `max_body` bytes, and where the limit and `max_body` together fit in an int64, the uploads
-- that the storage stands for are exactly those that the specification has after the same calls
-- with the same arguments in the same order: a chunk joins or begins an upload where the storage
-- answered nil and is refused where it answered ErrStagingFull, with the TTL that the storage then
-- has for the instance, a retrieval takes the upload away, a collection takes those away that have
-- expired, and every other call leaves them as they are.
pub view-replay-new :
    (limit max_body : ℕ) {s : Storage}
    → limit + max_body < 2 ^ 63
    → (r : Reach max_body (new (pos limit)) s) → view s ≡ replay r empty_area
view-replay-new limit max_body fits r =
    view-replay fits r (new-IsSound limit (omega arith)) ∙ ap (replay r) (view-new limit)
