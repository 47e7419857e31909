-- ===== src/Storage/Uploads.antt =====
-- An upload in the histories of the storage's calls: internal/storage/staging.go and gc.go.
pub mod Received
pub mod Carried
pub mod Delivered
pub mod Simulation
use mathlib.Core.Path.{fun_ext}
use metricz_exporter.Base.{
  ℕ, ◌+◌, ◌^◌, ◌≤◌, ◌<◌, ◌≡◌, ◌≢◌, refl, ap, ◌∙◌, sym, ℤ, ◌+ℤ◌, length, ◌≟◌, ite, inl, inr, String,
  string_key, int_key, Bool, true, false, if◌then◌else◌, Option, Option-cases, none, some, [], ◌∷◌,
  arith,
}
use metricz_exporter.Base.Map
use metricz_exporter.Base.Map.{Map, get-set, set-IsDistinct}
use metricz_exporter.Storage.{
  Time, Duration, Bytes, StorageError, StagingItem, staging_full, Storage, update_ingested,
  update_polled, update_a2s, update_rcon, put_state,
}
use metricz_exporter.Storage.Staging.{
  after, append_to_staging, retrieve_staging, payload_of, effective_ttl,
}
use metricz_exporter.Metrics.{FloatOps}
use metricz_exporter.Storage.Staging.Spec
use metricz_exporter.Storage.Staging.Spec.{
  Slot, Area, accept, refuse, put, fresh, of_others, if_open, accept-going, accept-fresh,
}
use metricz_exporter.Storage.Staging.View.{slot_of, slot_at, view}
use metricz_exporter.Storage.Staging.Refinement.{append_to_staging-Refines, view-retrieve_staging}
use metricz_exporter.Storage.Gc.{cleanup_staging}
use metricz_exporter.Storage.Gc.Expiry.{get-cleanup_staging, unexpired}
use metricz_exporter.Storage.History.{
  Step, ingests, polls, queries, consoles, appends, retrieves, collects, Reach, start, next,
  IsSound, Reach-IsSound,
}

-- The map of chunks after an append's answer.
abbrev pub answered : Option StorageError → ℤ → Bytes → Map ℤ Bytes → Map ℤ Bytes
answered none seq bytes m = Map.set seq bytes m
answered (some _) seq bytes m = m

-- The chunks of a transaction that a history's calls were told to be staged.
unfoldable pub received :
    {max_body : ℕ} {s t : Storage} → String → Reach max_body s t → Map ℤ Bytes → Map ℤ Bytes
received txn start m = m
received txn (next r (ingests s now later id families bytes chunks)) m = received txn r m
received txn (next r (polls s id families)) m = received txn r m
received txn (next r (queries s id families)) m = received txn r m
received txn (next r (consoles s id families)) m = received txn r m
received txn (next r (appends s float now other id seq bytes ttl small)) m =
    let before = received txn r m in
    ite (other ≟ txn)
      (answered (append_to_staging float now other id seq bytes ttl s).1 seq bytes before) before
received txn (next r (retrieves s now other)) m = received txn r m
received txn (next r (collects s now)) m = received txn r m

-- A call that leaves an upload that ends at `end` be: its own chunks and collections come before
-- its end, other transactions begin for other instances, and other transactions are retrieved.
abbrev pub Spares :
    {max_body : ℕ} {s t : Storage} → String → String → Time → Step max_body s t → Type 0
Spares txn id end (ingests s now later other families bytes chunks) = Unit
Spares txn id end (polls s other families) = Unit
Spares txn id end (queries s other families) = Unit
Spares txn id end (consoles s other families) = Unit
Spares txn id end (appends s float now other whose seq bytes ttl small) =
    ite (other ≟ txn) (after now end ≡ false) (whose ≢ id)
Spares txn id end (retrieves s now other) = other ≢ txn
Spares txn id end (collects s now) = after now end ≡ false

abbrev pub Spared :
    {max_body : ℕ} {s t : Storage} → String → String → Time → Reach max_body s t → Type 0
Spared txn id end start = Unit
Spared txn id end (next r step) = Spared txn id end r × Spares txn id end step

abbrev pub upload : String → Time → Map ℤ Bytes → Slot
upload id end m = record { instance_id = id; expires_at = end; chunk = λ k. Map.get k m }
