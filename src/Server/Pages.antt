-- ===== src/Server/Pages.antt =====
-- internal/server/health.go and index.go: the probes and the index page.
use metricz_exporter.Base.{
  ℕ, ℤ, length, Bool, true, false, String, Option, none, some, List, [], ◌∷◌,
}
use metricz_exporter.Storage.{Time, Bytes, Storage, get_instance_states}
use metricz_exporter.Vars
use metricz_exporter.Vars.{Vars, BuildInfo}
use metricz_exporter.Server.{Response, text, json, html, respond}

pub record HealthResponse : Type 0 where
  pub status : String
  pub build : BuildInfo

pub record Link : Type 0 where
  pub title : String
  pub url : String
  pub desc : String
  pub is_ext : Bool

pub record IndexData : Type 0 where
  pub build : BuildInfo
  pub internal : List Link
  pub external : List Link
  pub year : ℤ
  pub instances_count : ℕ

-- What the encoder of encoding/json writes; the parsed template of index.html, as what it writes,
-- if it parses; and Time.Year.
pub record Pages : Type 0 where
  pub encode : HealthResponse → Bytes
  pub parsed : Option (IndexData → Bytes)
  pub year : Time → ℤ

unfoldable pub write_health_response : Pages → Vars → Response
unfolding Vars.info
write_health_response pages vars = record {
  status = 200;
  headers = ("Content-Type", "application/json") ∷ [];
  body = json (Pages.encode pages (record { status = "UP"; build = Vars.info vars }));
}

abbrev pub handle_liveness : Pages → Vars → Response
handle_liveness = write_health_response

abbrev pub handle_readiness : Pages → Vars → Response
handle_readiness = write_health_response

unfoldable pub index_data : Pages → Vars → Time → Storage → IndexData
unfolding Vars.info get_instance_states
index_data pages vars now s = record {
  build = Vars.info vars;
  year = Pages.year pages now;
  instances_count = length (get_instance_states s);
  internal =
      record {
        title = "Metrics";
        url = "/metrics";
        desc = "Prometheus scrape endpoint";
        is_ext = false;
      }
      ∷ record {
        title = "Status API";
        url = "/api/v1/status";
        desc = "Public JSON server status";
        is_ext = false;
      }
      ∷ record {
        title = "Health";
        url = "/health";
        desc = "Liveness/Readiness probes";
        is_ext = false;
      }
      ∷ [];
  external =
      record {
        title = "MetricZ DayZ Mod";
        url = "https://github.com/WoozyMasta/metricz";
        desc = "DayZ Mod Source Code";
        is_ext = true;
      }
      ∷ record {
        title = "MetricZ Exporter";
        url = vars.url;
        desc = "Exporter Source Code";
        is_ext = true;
      }
      ∷ [];
}

-- HandleIndex
unfoldable pub handle_index : Pages → Vars → Time → Storage → Response
unfolding index_data
handle_index pages vars now s = elim (Pages.parsed pages) [
  | none ↦ respond 500 (text "Template error")
  | some execute ↦ record {
    status = 200;
    headers = ("Content-Type", "text/html; charset=utf-8") ∷ [];
    body = html (execute (index_data pages vars now s));
  }
]
