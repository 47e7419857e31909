-- ===== src/Server/Routes.antt =====
-- The routes and the middlewares before the handlers: internal/server/handler.go and
-- internal/entrypoint/main.go. What github.com/go-chi/chi makes of the table is a parameter.
pub mod Access
use metricz_exporter.Base.{
  ◌≡◌, In, Bool, str_eq, String, ◌<>◌, Option, none, some, List, [], ◌∷◌, ◌++◌, map,
}
use metricz_exporter.Storage.{Time, Storage}
use metricz_exporter.Storage.Collector.{Desc, Channel, new_exporter, collect}
use metricz_exporter.Config.{Config}
use metricz_exporter.Vars.{Vars}
use metricz_exporter.Server.{Stream, Libraries, Response}
use metricz_exporter.Server.Auth.{basic_auth}
use metricz_exporter.Server.Json.{JsonBody, json_translator}
use metricz_exporter.Server.Ingest.{handle_single_shot, handle_chunk_ingest, handle_commit}
use metricz_exporter.Server.Status.{
  PublicCache, Marshal, serve_status_request, handle_status_single, handle_status_full,
}
use metricz_exporter.Server.Pages.{Pages, handle_index, handle_liveness, handle_readiness}

pub data Endpoint : Type 0 where
  index liveness readiness status_full status_single : Endpoint
  single_shot chunk_ingest commit : Endpoint
  -- promhttp's handler for the registry
  metrics : Endpoint

pub data Middleware : Type 0 where
  basic_auth_middleware json_translator_middleware : Middleware

-- Handle registers for every method.
pub data Method : Type 0 where
  get post every : Method

pub record Route : Type 0 where
  pub method : Method
  pub pattern : String
  -- the first runs first
  pub middlewares : List Middleware
  pub endpoint : Endpoint

abbrev pub route : Method → String → Endpoint → Route
route method pattern endpoint = record {
  method = method;
  pattern = pattern;
  middlewares = [];
  endpoint = endpoint;
}

-- r.Use and r.With, for the routes of a group
abbrev pub behind : List Middleware → List Route → List Route
behind ms [] = []
behind ms (r ∷ rs) = record r { middlewares = ms ++ r.middlewares } ∷ behind ms rs

-- r.Route
abbrev pub under : String → List Route → List Route
under prefix [] = []
under prefix (r ∷ rs) = record r { pattern = prefix <> r.pattern } ∷ under prefix rs

abbrev pub private_routes : List Route
private_routes = behind (basic_auth_middleware ∷ json_translator_middleware ∷ []) (
    route post "/ingest/{instance_id}" single_shot
    ∷ route post "/ingest/{instance_id}/{txn_hash}/{seq_id}" chunk_ingest
    ∷ route post "/commit/{instance_id}/{txn_hash}" commit
    ∷ [])

abbrev pub ui_routes : List Route
ui_routes = route get "/" index ∷ []

abbrev pub public_routes : List Route
public_routes =
    route get "/status" status_full ∷ route get "/status/{instance_id}" status_single ∷ []

abbrev pub health_routes : List Route
health_routes =
    route get "/health" liveness
    ∷ route get "/health/liveness" liveness
    ∷ route get "/health/readiness" readiness
    ∷ []

-- The table that Execute builds.
abbrev pub routes : List Route
routes =
    ui_routes
    ++ (health_routes
        ++ (under "/api/v1" (public_routes ++ private_routes)
            ++ behind (basic_auth_middleware ∷ []) (route every "/metrics" metrics ∷ [])))

-- The parts of a request that the handlers read; `query` is URL.Query().Get.
pub record Request : Type 0 where
  pub method : String
  pub path : String
  pub query : String → String
  pub credentials : Option (String × String)
  pub body : Stream

-- chi.URLParam, which is empty for a name that the pattern does not have.
pub record Params : Type 0 where
  pub instance_id : String
  pub txn_hash : String
  pub seq_id : String

-- The route that chi finds in a table, which is one of the table; `missing` is its response where
-- it finds none.
pub record Router : Type 0 where
  pub lookup : List Route → Request → Option (Route × Params)
  pub missing : Request → Response
  pub sound :
      (table : List Route) (req : Request) (r : Route) (params : Params)
      → lookup table req ≡ some (r, params)
      → In r table

-- The times at which a handler reads the clock.
pub record Clock : Type 0 where
  pub start : Time
  pub now : Time
  pub later : Time

-- What a handler has besides the state. `gather` is what promhttp answers to what the exporter
-- sends, and `valid` says which descriptions NewConstMetric accepts.
pub record Site : Type 0 where
  pub cfg : Config
  pub vars : Vars
  pub lib : Libraries
  pub marshal : Marshal
  pub pages : Pages
  pub tokens : Stream → JsonBody
  pub valid : Desc → Bool
  pub gather : Channel → Response

-- The state that the requests share.
pub record App : Type 0 where
  pub storage : Storage
  pub public_cache : PublicCache

abbrev pub on_storage : (Storage → Storage × Response) → App → App × Response
on_storage handle app =
    let (s', response) = handle app.storage in (record app { storage = s' }, response)

abbrev pub on_cache : (PublicCache → PublicCache × Response) → App → App × Response
on_cache handle app =
    let (cache', response) = handle app.public_cache in
    (record app { public_cache = cache' }, response)

-- The handler of an endpoint.
unfoldable pub run : Site → Clock → Endpoint → Params → Stream → App → App × Response
unfolding handle_single_shot handle_chunk_ingest handle_commit serve_status_request collect
    new_exporter
run site t index params body app = (app, handle_index site.pages site.vars t.now app.storage)
run site t liveness params body app = (app, handle_liveness site.pages site.vars)
run site t readiness params body app = (app, handle_readiness site.pages site.vars)
run site t status_full params body app =
    on_cache (handle_status_full site.lib.float site.marshal site.cfg t.now t.later app.storage) app
run site t status_single params body app =
    on_cache
      (handle_status_single site.lib.float site.marshal site.cfg t.now t.later params.instance_id
        app.storage)
      app
run site t single_shot params body app =
    on_storage (handle_single_shot site.lib site.cfg t.now t.later params.instance_id body) app
run site t chunk_ingest params body app =
    on_storage
      (handle_chunk_ingest site.lib site.cfg t.now params.instance_id params.txn_hash params.seq_id
        body)
      app
run site t commit params body app =
    on_storage
      (handle_commit site.lib site.cfg t.start t.now t.later params.instance_id params.txn_hash) app
run site t metrics params body app =
    let stale = site.cfg.app.stale in
    let exporter = new_exporter app.storage stale.stale_multiplier stale.min_stale_age in
    (app, site.gather (collect site.lib.float site.valid exporter t.now))

-- The middlewares, and the handler behind them.
unfoldable pub through :
    Site
    → Request
    → List Middleware
    → (Stream → App → App × Response)
    → Stream
    → App
    → App × Response
unfolding basic_auth json_translator
through site req [] next body app = next body app
through site req (basic_auth_middleware ∷ ms) next body app =
    basic_auth site.cfg.app.auth (through site req ms next body) req.credentials app
through site req (json_translator_middleware ∷ ms) next body app =
    json_translator site.tokens (str_eq (req.query "format") "json") (through site req ms next) body
      app

abbrev pub answer : Site → Router → Clock → Request → Option (Route × Params) → App → App × Response
answer site router t req none app = (app, router.missing req)
answer site router t req (some (r, params)) app =
    through site req r.middlewares (run site t r.endpoint params) req.body app

-- One request to the server.
unfoldable pub serve : Site → Router → Clock → Request → App → App × Response
unfolding through run
serve site router t req app = answer site router t req (router.lookup routes req) app
