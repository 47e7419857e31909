-- ===== src/Tests.antt =====
-- Concrete data for the tests and the examples, which the children hold.
pub mod Staging
pub mod Uploads
pub mod Parsing
pub mod Collecting
pub mod Settings
pub mod Publishing
pub mod Polling
pub mod Serving
pub mod Scraping
pub mod Starting
pub mod Histories
use metricz_exporter.Base.{
  ℕ, ◌+◌, ◌%◌, ◌^◌, ◌<◌, ◌≡◌, refl, ℤ, pos, true, false, String, Option, none, some, List, [], ◌∷◌,
  arith,
}
use metricz_exporter.Metrics.{
  Float64, FloatOps, LabelPair, Metric, MetricType, MetricFamily, Families,
}
use metricz_exporter.Storage.{Time, Bytes, StagingItem, Storage, new}
use metricz_exporter.Storage.Staging.{append_to_staging}
use metricz_exporter.Storage.History.{Step, appends, IsSound, Step-IsSound, new-IsSound}
use metricz_exporter.Config.{AuthConfig, Config, A2sConfig, RconConfig, ServerDefinition}
use metricz_exporter.Parser.{Decoded, family, eof}
use metricz_exporter.Server.{Stream, Libraries}

-- Stand-ins for the machine's floats: each float reads as 2 seconds.
abbrev pub floats : FloatOps
floats = record {
  add = λ x y. x;
  mul = λ x y. x;
  div = λ x y. x;
  of_int64 = λ n. record { bits = 0 };
  to_int64 = λ x. pos 2;
}

-- The sum of the bytes stands for xxhash.
abbrev pub sum : List ℕ → ℕ
sum [] = 0
sum (b ∷ bs) = b + sum bs

abbrev pub hour : ℤ
hour = pos 3600000000000

abbrev pub label : String → String → LabelPair
label name value = record { name = name; value = value }

abbrev pub gauge_metric : List LabelPair → ℕ → Metric
gauge_metric labels bits = record {
  label = labels;
  gauge = some (record { bits = bits });
  counter = none;
}

abbrev pub players : MetricFamily
players = record {
  name = "players";
  help = "Players online";
  type = MetricType.gauge;
  metric =
      gauge_metric (label "world" "enoch" ∷ label "instance_id" "b" ∷ []) 1
      ∷ gauge_metric (label "world" "enoch" ∷ []) 2
      ∷ [];
}

abbrev pub decoded : Decoded
decoded = family players eof

abbrev pub libraries : Libraries
libraries = record {
  decode = λ stream. decoded;
  xxhash = sum;
  battleye = λ n. "be";
  float = floats;
}

-- A store with room for 10 bytes, in which instance "a" has staged one chunk of transaction "t".
abbrev pub before : Storage
before = new (pos 10)

abbrev pub one_chunk : Bytes
one_chunk = 97 ∷ 98 ∷ []

-- A body that the connection delivers whole.
abbrev pub whole : Bytes → Stream
whole content = record { content = content; broken = none }

abbrev pub staged : Storage
staged = (append_to_staging floats (pos 5) "t" "a" (pos 1) one_chunk (pos 100) before).0

pub staged-IsSound : IsSound 10 staged
staged-IsSound =
    Step-IsSound {max_body = 5} (omega arith)
      (appends before floats (pos 5) "t" "a" (pos 1) one_chunk (pos 100) (omega arith))
      (new-IsSound 10 (omega arith))

abbrev pub item_of_staged : StagingItem
item_of_staged = record {
  chunks = (pos 1, one_chunk) ∷ [];
  expires_at = pos 105;
  instance_id = "a";
  byte_size = pos 2;
}

abbrev pub server : String → ServerDefinition
server id = record { a2s = none; rcon = none; instance_id = id }

abbrev pub config : Config
config = record {
  public_export = record { values = []; labels = []; labels_exclude = [] };
  servers = server "a" ∷ server "b" ∷ [];
  app = record {
    prometheus = record {
      extra_labels = ("region", "eu") ∷ [];
      disable_go_collector = false;
      disable_process_collector = false;
    };
    logger = record { level = "info"; format = "text"; output = "stderr" };
    auth = record { user = ""; pass = "" };
    listen_addr = ":8098";
    geo_ip = record { path = ""; url = ""; max_age = hour };
    ingest = record {
      transaction_ttl = pos 100;
      garbage_collector_ttl = hour;
      max_body_size = pos 10;
      max_staging_size = pos 10;
      overwrite_instance_id = true;
    };
    public = record { public_cache_ttl = pos 10; enabled = true; public_cors = false };
    stale = record { stale_multiplier = record { bits = 0 }; min_stale_age = pos 10 };
  };
}
