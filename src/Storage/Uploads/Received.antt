-- ===== src/Storage/Uploads/Received.antt =====
-- The chunks that a history's calls were told to be staged: internal/storage/staging.go.
use metricz_exporter.Base.{ℕ, ◌≡◌, ℤ, true, String, string_key, int_key, arith}
use metricz_exporter.Base.Map
use metricz_exporter.Base.Map.{Map, get-set, set-IsDistinct}
use metricz_exporter.Storage.{Bytes, Storage}
use metricz_exporter.Storage.History.{
  ingests, polls, queries, consoles, appends, retrieves, collects, Reach, start, next,
}
use metricz_exporter.Storage.Uploads.{received}
use metricz_exporter.Storage.Staging.Order.{is_some}

pub received-IsDistinct :
    {max_body : ℕ} {s t : Storage} (txn : String) (r : Reach max_body s t) (m : Map ℤ Bytes)
    → Map.IsDistinct m
    → Map.IsDistinct (received txn r m)
unfolding received
received-IsDistinct txn start m d = d
received-IsDistinct txn (next r (ingests s now later id families bytes chunks)) m d =
    received-IsDistinct txn r m d
received-IsDistinct txn (next r (polls s id families)) m d = received-IsDistinct txn r m d
received-IsDistinct txn (next r (queries s id families)) m d = received-IsDistinct txn r m d
received-IsDistinct txn (next r (consoles s id families)) m d = received-IsDistinct txn r m d
received-IsDistinct txn (next r (appends s float now other id seq bytes ttl small)) m d = ground (
  arith,
  received-IsDistinct txn r m d,
  set-IsDistinct seq bytes (received txn r m) (received-IsDistinct txn r m d),
)
received-IsDistinct txn (next r (retrieves s now other)) m d = received-IsDistinct txn r m d
received-IsDistinct txn (next r (collects s now)) m d = received-IsDistinct txn r m d

-- A chunk that is there stays, perhaps with other bytes.
pub is_some-received :
    {max_body : ℕ} {s t : Storage} (txn : String) (k : ℤ) (r : Reach max_body s t) (m : Map ℤ Bytes)
    → is_some (Map.get k m) ≡ true
    → is_some (Map.get k (received txn r m)) ≡ true
unfolding received
is_some-received txn k start m h = h
is_some-received txn k (next r (ingests s now later id families bytes chunks)) m h =
    is_some-received txn k r m h
is_some-received txn k (next r (polls s id families)) m h = is_some-received txn k r m h
is_some-received txn k (next r (queries s id families)) m h = is_some-received txn k r m h
is_some-received txn k (next r (consoles s id families)) m h = is_some-received txn k r m h
is_some-received txn k (next r (appends s float now other id seq bytes ttl small)) m h =
    ground (arith, is_some-received txn k r m h, get-set seq k bytes (received txn r m))
is_some-received txn k (next r (retrieves s now other)) m h = is_some-received txn k r m h
is_some-received txn k (next r (collects s now)) m h = is_some-received txn k r m h
