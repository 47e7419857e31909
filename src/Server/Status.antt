-- ===== src/Server/Status.antt =====
-- internal/server/status.go: the public status and its cache. The public cache is a map from keys
-- to responses; json.Marshal is a parameter.
pub mod Cache
pub mod Export
use metricz_exporter.Base.{
  ℤ, ◌+ℤ◌, ltb_ℤ, Bool, true, false, not, ◌||◌, if◌then◌else◌, String, string_key, str_eq, codes,
  Option, none, some, List, [], ◌∷◌, ◌++◌, map,
}
use metricz_exporter.Base.Map
use metricz_exporter.Base.Map.{Map}
use metricz_exporter.Metrics.{
  Float64, float_zero, FloatOps, LabelPair, Metric, MetricFamily, Families,
}
use metricz_exporter.Storage.{Time, Bytes, InstanceState, Storage, get_instance_states}
use metricz_exporter.Parser.{ltb_codes}
use metricz_exporter.Config.{PublicExportConfig, Config}
use metricz_exporter.Server.{Response, text, json, respond}

pub record PublicStatusData : Type 0 where
  pub values : Map String Float64
  pub labels : Map String (Map String (List String))

pub record PublicCacheItem : Type 0 where
  pub expires_at : Time
  pub response : Bytes

abbrev pub PublicCache : Type 0
PublicCache = Map String PublicCacheItem

-- json.Marshal of one instance's data and of all; `none` is its error.
pub record Marshal : Type 0 where
  pub one : PublicStatusData → Option Bytes
  pub all : Map String PublicStatusData → Option Bytes

-- slices.Contains, and the lookup in a set that is made from a list
unfoldable pub contains : List String → String → Bool
contains [] x = false
contains (y ∷ ys) x = str_eq y x || contains ys x

-- The sum over the samples: a gauge, or else a counter.
unfoldable pub add_sample : FloatOps → Float64 → Metric → Float64
add_sample float sum m = elim m.gauge [
  | some v ↦ FloatOps.add float sum v
  | none ↦ elim m.counter [ some v ↦ FloatOps.add float sum v | none ↦ sum ]
]

unfoldable pub sum_samples : FloatOps → Float64 → List Metric → Float64
unfolding add_sample
sum_samples float sum [] = sum
sum_samples float sum (m ∷ ms) = sum_samples float (add_sample float sum m) ms

-- set[v] = struct{}{}
unfoldable pub add_value : String → List String → List String
unfolding contains
add_value v vs = if contains vs v then vs else v ∷ vs

-- sets[k], or a new set
unfoldable pub set_at : String → Map String (List String) → List String
unfolding Map.get
set_at k sets = elim (Map.get k sets) [ none ↦ [] | some vs ↦ vs ]

abbrev pub is_skipped : List String → String → Bool
is_skipped exclude k = str_eq k "" || contains exclude k

unfoldable pub collect_label :
    List String → LabelPair → Map String (List String) → Map String (List String)
unfolding add_value set_at Map.set
collect_label exclude lp sets =
    if is_skipped exclude lp.name
    then sets
    else Map.set lp.name (add_value lp.value (set_at lp.name sets)) sets

unfoldable pub collect_labels :
    List String → List LabelPair → Map String (List String) → Map String (List String)
unfolding collect_label
collect_labels exclude [] sets = sets
collect_labels exclude (lp ∷ labels) sets =
    collect_labels exclude labels (collect_label exclude lp sets)

unfoldable pub collect_sets :
    List String → List Metric → Map String (List String) → Map String (List String)
unfolding collect_labels
collect_sets exclude [] sets = sets
collect_sets exclude (m ∷ ms) sets = collect_sets exclude ms (collect_labels exclude m.label sets)

-- slices.Sort
unfoldable pub insert_value : String → List String → List String
unfolding ltb_codes
insert_value v [] = v ∷ []
insert_value v (w ∷ ws) =
    if ltb_codes (codes w) (codes v) then w ∷ insert_value v ws else v ∷ w ∷ ws

unfoldable pub sort_values : List String → List String
unfolding insert_value
sort_values [] = []
sort_values (v ∷ vs) = insert_value v (sort_values vs)

-- kv: each set as a sorted slice
unfoldable pub label_lists : List String → List Metric → Map String (List String)
unfolding collect_sets sort_values
label_lists exclude ms = map (λ e. (e.0, sort_values e.1)) (collect_sets exclude ms [])

-- One family with samples.
unfoldable pub export_values :
    FloatOps → PublicExportConfig → String → List Metric → PublicStatusData → PublicStatusData
unfolding contains sum_samples Map.set
export_values float cfg name ms out =
    if contains cfg.values name
    then record out { values = Map.set name (sum_samples float float_zero ms) out.values }
    else out

unfoldable pub export_labels :
    PublicExportConfig → String → List Metric → PublicStatusData → PublicStatusData
unfolding contains label_lists Map.set
export_labels cfg name ms out =
    if contains cfg.labels name
    then record out { labels = Map.set name (label_lists cfg.labels_exclude ms) out.labels }
    else out

abbrev pub export_family :
    FloatOps → PublicExportConfig → String → List Metric → PublicStatusData → PublicStatusData
export_family float cfg name [] out = out
export_family float cfg name (m ∷ ms) out =
    export_labels cfg name (m ∷ ms) (export_values float cfg name (m ∷ ms) out)

unfoldable pub process_families :
    FloatOps → PublicExportConfig → Families → PublicStatusData → PublicStatusData
unfolding export_values export_labels
process_families float cfg [] out = out
process_families float cfg ((name, mf) ∷ families) out =
    process_families float cfg families (export_family float cfg name mf.metric out)

abbrev pub process_optional :
    FloatOps → PublicExportConfig → Option Families → PublicStatusData → PublicStatusData
process_optional float cfg none out = out
process_optional float cfg (some families) out = process_families float cfg families out

-- The ingested families, or the cached status.
abbrev pub ingested_or_cached : Option Families → Option MetricFamily → Option Families
ingested_or_cached (some families) cached = some families
ingested_or_cached none (some mf) = some ((mf.name, mf) ∷ [])
ingested_or_cached none none = none

unfoldable pub collect_public_data :
    FloatOps → PublicExportConfig → InstanceState → PublicStatusData
unfolding process_families
collect_public_data float cfg state =
    let polled =
      process_optional float cfg state.polled_families (record { values = []; labels = [] }) in
    let queried = process_optional float cfg state.a2s_families polled in
    let consoled = process_optional float cfg state.rcon_families queried in
    process_optional float cfg
      (ingested_or_cached state.ingested_families state.cached_status_family) consoled

-- What the handler puts together: no such instance, an error of json.Marshal, or the body.
pub data Fetched : Type 0 where
  not_found json_error : Fetched
  fetched : Bytes → Fetched

abbrev pub marshalled : Option Bytes → Fetched
marshalled none = json_error
marshalled (some bytes) = fetched bytes

unfoldable pub fetch :
    FloatOps → Marshal → PublicExportConfig → String → Bool → Map String InstanceState → Fetched
unfolding collect_public_data Map.get
fetch float marshal cfg key true states =
    marshalled (marshal.all (map (λ e. (e.0, collect_public_data float cfg e.1)) states))
fetch float marshal cfg key false states = elim (Map.get key states) [
  | none ↦ not_found
  | some state ↦ marshalled (marshal.one (collect_public_data float cfg state))
]

-- The cached body, if it has not expired.
unfoldable pub cached_body : Time → String → PublicCache → Option Bytes
unfolding Map.get
cached_body now key cache = elim (Map.get key cache) [
  | none ↦ none
  | some item ↦ if ltb_ℤ now item.expires_at then some item.response else none
]

abbrev pub cors : Config → List (String × String)
cors cfg =
    if cfg.app.public.public_cors
    then ("Access-Control-Allow-Origin", "*")
      ∷ ("Access-Control-Allow-Methods", "GET, OPTIONS")
      ∷ []
    else []

abbrev pub with_json : Config → String → Bytes → Response
with_json cfg x_cache bytes = record {
  status = 200;
  headers = cors cfg ++ ("Content-Type", "application/json") ∷ ("X-Cache", x_cache) ∷ [];
  body = json bytes;
}

-- From the marshalled data on; `later` is the time at which the response is cached.
unfoldable pub refresh : Config → Time → String → PublicCache → Fetched → PublicCache × Response
unfolding Map.set
refresh cfg later key cache not_found =
    (cache, record (respond 404 (text "Instance not found")) { headers = cors cfg })
refresh cfg later key cache json_error =
    (cache, record (respond 500 (text "JSON error")) { headers = cors cfg })
refresh cfg later key cache (fetched bytes) =
    let item : PublicCacheItem = record {
      response = bytes;
      expires_at = later +ℤ cfg.app.public.public_cache_ttl;
    } in
    (Map.set key item cache, with_json cfg "MISS" bytes)

unfoldable pub serve_status_request :
    FloatOps
    → Marshal
    → Config
    → Time
    → Time
    → String
    → Bool
    → Storage
    → PublicCache
    → PublicCache × Response
unfolding cached_body fetch refresh get_instance_states
serve_status_request float marshal cfg now later key is_all s cache =
    if not cfg.app.public.enabled
    then (cache, respond 404 (text "Not Found"))
    else elim (cached_body now key cache) [
      | some bytes ↦ (cache, with_json cfg "HIT" bytes)
      | none ↦
          refresh cfg later key cache
            (fetch float marshal cfg.public_export key is_all (get_instance_states s))
    ]

abbrev pub handle_status_single :
    FloatOps
    → Marshal
    → Config
    → Time
    → Time
    → String
    → Storage
    → PublicCache
    → PublicCache × Response
handle_status_single float marshal cfg now later id =
    serve_status_request float marshal cfg now later id false

abbrev pub handle_status_full :
    FloatOps → Marshal → Config → Time → Time → Storage → PublicCache → PublicCache × Response
handle_status_full float marshal cfg now later =
    serve_status_request float marshal cfg now later "all" true
