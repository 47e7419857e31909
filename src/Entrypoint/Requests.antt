-- ===== src/Entrypoint/Requests.antt =====
-- What every endpoint does to the storage, a request does: handler.go and main.go.
use metricz_exporter.Base.{Option, none, some, List, [], ◌∷◌}
use metricz_exporter.Storage.{Storage}
use metricz_exporter.Server.{Stream, Response}
use metricz_exporter.Server.Auth.Access.{basic_auth_cases}
use metricz_exporter.Server.Json.{json_translator}
use metricz_exporter.Server.Routes.{
  Endpoint, Middleware, basic_auth_middleware, json_translator_middleware, Route, routes, Request,
  Params, Router, Clock, Site, App, run, through, answer, serve,
}

module _ (site : Site) (R : Storage → Storage → Type 0) (same : (s : Storage) → R s s)
    (run-respects : (t : Clock) (e : Endpoint) (params : Params) (body : Stream) (app : App)
      → R app.storage (run site t e params body app).0.storage) where
  through-Respects :
      (req : Request) (ms : List Middleware) (handle : Stream → App → App × Response)
      → ((body : Stream) (app : App) → R app.storage (handle body app).0.storage)
      → (body : Stream) (app : App) → R app.storage (through site req ms handle body app).0.storage
  unfolding through json_translator
  through-Respects req [] handle keeps body app = keeps body app
  through-Respects req (basic_auth_middleware ∷ ms) handle keeps body app =
      basic_auth_cases site.cfg.app.auth (through site req ms handle body) app
        (λ r. R app.storage r.0.storage) (through-Respects req ms handle keeps body app)
        (same app.storage) req.credentials
  through-Respects req (json_translator_middleware ∷ ms) handle keeps body app =
      through-Respects req ms handle keeps _ app

  answer-Respects :
      (router : Router) (t : Clock) (req : Request) (found : Option (Route × Params)) (app : App)
      → R app.storage (answer site router t req found app).0.storage
  answer-Respects router t req none app = same app.storage
  answer-Respects router t req (some (r, params)) app =
      through-Respects req r.middlewares (run site t r.endpoint params)
        (run-respects t r.endpoint params) req.body app

  pub serve-Respects :
      (router : Router) (t : Clock) (req : Request) (app : App)
      → R app.storage (serve site router t req app).0.storage
  unfolding serve
  serve-Respects router t req app = answer-Respects router t req (router.lookup routes req) app
