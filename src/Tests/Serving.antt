-- ===== src/Tests/Serving.antt =====
-- The theorems on the whole server at concrete requests.
use metricz_exporter.Base.{
  ◌≡◌, refl, ap, subst, In, here, there, Bool-cases, true, if◌then◌else◌, pos, String, str_eq,
  str_ne, Option, none, some, List, [], ◌∷◌, inl, inr, arith,
}
use metricz_exporter.Storage.History.{IsSound}
use metricz_exporter.Vars.{Vars}
use metricz_exporter.Server.{respond, text}
use metricz_exporter.Server.Auth.{unauthorized}
use metricz_exporter.Server.Auth.Access.{IsAllowed}
use metricz_exporter.Server.Json.{delim, string, closed, element, JsonBody, starts}
use metricz_exporter.Server.Json.Lines.{lines_of_body, text_of}
use metricz_exporter.Server.Ingest.{handle_single_shot}
use metricz_exporter.Server.Routes.{
  post, single_shot, basic_auth_middleware, json_translator_middleware, Route, routes, Request,
  Params, Router, Clock, Site, App, on_storage, serve,
}
use metricz_exporter.Server.Routes.Access.{serve-denied, storage-serve, serve-single_shot}
use metricz_exporter.Entrypoint.Runs.{begins, continues, answers, Runs-IsSound}
use metricz_exporter.Base.Map
use metricz_exporter.Entrypoint.Owned.{Runs-own}
use metricz_exporter.Storage.{
  InstanceState, get_or_create_state, get_instance_states, put_state, new,
}
use metricz_exporter.Storage.Collector.{new_exporter, collect_instance}
use metricz_exporter.Storage.Collector.Owned.{AllName}
use metricz_exporter.Parser.{parse_and_validate}
use metricz_exporter.Base.{String-discrete, ℤ-discrete, ℕ_discrete, add64, sub64, string_key}
use metricz_exporter.Tests.{libraries, whole, before, config, floats}

abbrev vars : Vars
vars = record {
  name = "MetricZ Exporter";
  version = "dev";
  commit = "unknown";
  revision = pos 0;
  build_time = pos 0;
  url = "https://github.com/woozymasta/metricz-exporter";
  license = "AGPL-3.0";
}

abbrev lines_body : JsonBody
lines_body = starts (delim b'[') (element (string "a 1") (element (string "b 2") closed))

abbrev site : Site
site = record {
  cfg = record config { app = record config.app { auth = record { user = "u"; pass = "p" } } };
  vars = vars;
  lib = libraries;
  marshal = record { one = λ d. none; all = λ ds. none };
  pages = record { encode = λ h. []; parsed = none; year = λ t. pos 2025 };
  tokens = λ body. lines_body;
  valid = λ desc. true;
  gather = λ sent. respond 200 (text "");
}

abbrev params : Params
params = record { instance_id = "a"; txn_hash = "t"; seq_id = "1" }

-- Finds a path that is spelled like a route's pattern.
abbrev look : List Route → String → Option (Route × Params)
look [] path = none
look (r ∷ rs) path =
    let rest = look rs path in if str_eq r.pattern path then some (r, params) else rest

route_of : Route × Params → Option (Route × Params) → Route
route_of p none = p.0
route_of p (some q) = q.0

look_sound :
    (table : List Route) (path : String) (r : Route) (ps : Params)
    → look table path ≡ some (r, ps)
    → In r table
unfolding route_of
look_sound [] path r ps h = let no : ⊥ = cc h in elim no [ ]
look_sound (x ∷ xs) path r ps h = elim (Bool-cases (str_eq x.pattern path)) [
  | inl e ↦
      let found : some (x, params) ≡ some (r, ps) = rw e at h in
      subst (λ z. In z (x ∷ xs)) (ap (route_of (x, params)) found) here
  | inr e ↦ there (look_sound xs path r ps (rw e at h))
]

abbrev router : Router
router = record {
  lookup = λ table req. look table req.path;
  missing = λ req. respond 404 (text "404 page not found");
  sound = λ table req r ps h. look_sound table req.path r ps h;
}

abbrev clock : Clock
clock = record { start = pos 5; now = pos 5; later = pos 6 }

-- An upload in JSON.
abbrev upload : Request
upload = record {
  method = "POST";
  path = "/api/v1/ingest/{instance_id}";
  query = λ name. if str_eq name "format" then "json" else "";
  credentials = some ("u", "p");
  body = whole [];
}

abbrev app : App
app = record { storage = before; public_cache = [] }

abbrev upload_route : Route
upload_route = record {
  method = post;
  pattern = "/api/v1/ingest/{instance_id}";
  middlewares = basic_auth_middleware ∷ json_translator_middleware ∷ [];
  endpoint = single_shot;
}

upload_found : router.lookup routes upload ≡ some (upload_route, params)
upload_found = refl

both_read : lines_of_body lines_body ≡ some ("a 1" ∷ "b 2" ∷ [])
unfolding lines_of_body
both_read = refl

serve-single_shot_example :
    serve site router clock upload app
    ≡ on_storage
        (handle_single_shot libraries site.cfg
          (pos 5)
          (pos 6)
          "a"
          (whole (text_of ("a 1" ∷ "b 2" ∷ []))))
        app
serve-single_shot_example =
    serve-single_shot site router clock upload app upload_route params ("a 1" ∷ "b 2" ∷ [])
      upload_found refl (inr (inr refl)) refl both_read

abbrev intrusion : Request
intrusion = record upload { credentials = some ("u", "q") }

password_of : Option (String × String) → String
password_of none = ""
password_of (some c) = c.1

stranger : ¬ IsAllowed site.cfg.app.auth intrusion.credentials
unfolding password_of
stranger (inl e) = str_ne "u" "" refl e
stranger (inr (inl e)) = str_ne "p" "" refl e
stranger (inr (inr e)) = str_ne "q" "p" refl (ap password_of e)

serve-denied_example : serve site router clock intrusion app ≡ (app, unauthorized)
serve-denied_example =
    serve-denied site router clock intrusion app upload_route params upload_found refl stranger

storage-serve_example : (serve site router clock intrusion app).0.storage ≡ before
storage-serve_example = storage-serve site router clock intrusion app stranger

Runs-IsSound_example : IsSound 10 (serve site router clock upload app).0.storage
Runs-IsSound_example =
    Runs-IsSound site router 10 10 (omega arith) refl (continues begins (answers app clock upload))

-- The upload is stored for instance "a", and its metrics, which named "b" or none, name "a".
abbrev served : App
served = (serve site router clock upload app).0

abbrev stored : InstanceState
stored = get_or_create_state "a" served.storage

stored_found : Map.get "a" (get_instance_states served.storage) ≡ some stored
unfolding serve parse_and_validate get_instance_states get_or_create_state put_state new
    String-discrete ℤ-discrete ℕ_discrete add64 sub64
stored_found = refl

Runs-own_example : AllName "a" (
    collect_instance floats
      (λ desc. true)
      (new_exporter served.storage (record { bits = 0 }) (pos 10))
      (pos 7)
      "a"
      stored)
Runs-own_example =
    Runs-own site router (pos 10) (continues begins (answers app clock upload)) floats
      (λ desc. true) (record { bits = 0 }) (pos 10) (pos 7) "a" stored stored_found
