-- ===== src/Storage/History.antt =====
-- The histories of calls of the storage's methods, each one step under the mutexes, in any order.
use metricz_exporter.Base.{ℕ, ◌+◌, ◌^◌, ◌≤◌, ◌<◌, refl, ℤ, pos, length, String, string_key, arith}
use metricz_exporter.Base.Map
use metricz_exporter.Base.Map.{set-IsDistinct}
use metricz_exporter.Metrics.{FloatOps, Families}
use metricz_exporter.Storage.{
  Time, Duration, Bytes, Storage, new, put_state, update_ingested, update_polled, update_a2s,
  update_rcon,
}
use metricz_exporter.Storage.Staging.{append_to_staging, retrieve_staging}
use metricz_exporter.Storage.Staging.Counts.{IsAccounted}
use metricz_exporter.Storage.Staging.Accounting.{
  append_to_staging-IsAccounted, retrieve_staging-IsAccounted,
}
use metricz_exporter.Storage.Staging.Exclusive.{
  IsExclusive, append_to_staging-IsExclusive, retrieve_staging-IsExclusive,
}
use metricz_exporter.Storage.Gc.{cleanup_staging}
use metricz_exporter.Storage.Gc.Expiry.{get-cleanup_staging, cleanup_staging-IsAccounted}

-- One call. A body has at most `max_body` bytes, the limit that the HTTP handlers set.
pub data Step (max_body : ℕ) : Storage → Storage → Type 0 where
  ingests :
      (s : Storage) (now later : Time) (id : String) (families : Families) (bytes chunks : ℤ)
      → Step max_body s (update_ingested now later id families bytes chunks s)
  polls :
      (s : Storage) (id : String) (families : Families)
      → Step max_body s (update_polled id families s)
  queries :
      (s : Storage) (id : String) (families : Families) → Step max_body s (update_a2s id families s)
  consoles :
      (s : Storage) (id : String) (families : Families)
      → Step max_body s (update_rcon id families s)
  appends :
      (s : Storage) (float : FloatOps) (now : Time) (txn id : String) (seq : ℤ) (bytes : Bytes)
      (ttl : Duration)
      → length bytes ≤ max_body
      → Step max_body s (append_to_staging float now txn id seq bytes ttl s).0
  retrieves :
      (s : Storage) (now : Time) (txn : String) → Step max_body s (retrieve_staging now txn s).0
  collects : (s : Storage) (now : Time) → Step max_body s (cleanup_staging now s).0

pub data Reach (max_body : ℕ) (s : Storage) : Storage → Type 0 where
  start : Reach max_body s s
  next : {t u : Storage} → Reach max_body s t → Step max_body t u → Reach max_body s u

-- The storage's invariant: the quota counts the staged bytes and is kept, and no instance has two
-- unfinished transactions.
pub record IsSound (limit : ℕ) (s : Storage) : Type 0 where
  pub accounted : IsAccounted limit s
  pub exclusive : IsExclusive s

cleanup_staging-IsExclusive :
    (now : Time) (s : Storage)
    → Map.IsDistinct s.staging_store
    → IsExclusive s
    → IsExclusive (cleanup_staging now s).0
cleanup_staging-IsExclusive now s d ex j k a b =
    ground (arith, ex j k a b, get-cleanup_staging now s j d, get-cleanup_staging now s k d)

-- The updates of the live store leave the staging area as it is.
put_state-IsSound :
    {limit : ℕ} (id : String) (state : _) (s : Storage)
    → IsSound limit s
    → IsSound limit (put_state id state s)
unfolding put_state
put_state-IsSound id state s inv = record {
  accounted = record {
    max = inv.accounted.max;
    int64 = inv.accounted.int64;
    distinct = inv.accounted.distinct;
    items = inv.accounted.items;
    size = inv.accounted.size;
    bound = inv.accounted.bound;
  };
  exclusive = inv.exclusive;
}

module _ {limit max_body : ℕ} (fits : limit + max_body < 2 ^ 63) where
  -- Every call keeps the invariant.
  pub Step-IsSound : {s t : Storage} → Step max_body s t → IsSound limit s → IsSound limit t
  unfolding update_ingested update_polled update_a2s update_rcon
  Step-IsSound (ingests s now later id families bytes chunks) inv = put_state-IsSound id _ s inv
  Step-IsSound (polls s id families) inv = put_state-IsSound id _ s inv
  Step-IsSound (queries s id families) inv = put_state-IsSound id _ s inv
  Step-IsSound (consoles s id families) inv = put_state-IsSound id _ s inv
  Step-IsSound (appends s float now txn id seq bytes ttl small) inv = record {
    accounted =
        append_to_staging-IsAccounted float now txn id seq bytes ttl s (omega arith) inv.accounted;
    exclusive =
        append_to_staging-IsExclusive float now txn id seq bytes ttl s inv.accounted.distinct
          inv.exclusive;
  }
  Step-IsSound (retrieves s now txn) inv = record {
    accounted = retrieve_staging-IsAccounted now txn s inv.accounted;
    exclusive = retrieve_staging-IsExclusive now txn s inv.exclusive;
  }
  Step-IsSound (collects s now) inv = record {
    accounted = cleanup_staging-IsAccounted now s inv.accounted;
    exclusive = cleanup_staging-IsExclusive now s inv.accounted.distinct inv.exclusive;
  }

  pub Reach-IsSound : {s t : Storage} → IsSound limit s → Reach max_body s t → IsSound limit t
  Reach-IsSound inv start = inv
  Reach-IsSound inv (next r step) = Step-IsSound step (Reach-IsSound inv r)

pub new-IsSound : (limit : ℕ) → limit < 2 ^ 63 → IsSound limit (new (pos limit))
unfolding new Map.get Map.total
new-IsSound limit h = record {
  accounted = record {
    max = refl;
    int64 = h;
    distinct = tt;
    items = tt;
    size = refl;
    bound = omega arith;
  };
  exclusive = λ j k a b e f g. cc;
}

-- After any sequence of calls of the storage's methods from an empty storage with the given limit,
-- in which no chunk has more than `max_body` bytes, and where the limit and `max_body` together
-- fit in an int64: the quota's counter is exactly the number of bytes that the staged chunks hold
-- and is within the limit, each transaction's counter is exactly its bytes, and no instance has
-- two unfinished transactions.
pub reachable-IsSound :
    (limit max_body : ℕ) {s : Storage}
    → limit + max_body < 2 ^ 63
    → Reach max_body (new (pos limit)) s
    → IsSound limit s
reachable-IsSound limit max_body fits r = Reach-IsSound fits (new-IsSound limit (omega arith)) r
