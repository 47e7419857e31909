-- ===== src/Server/Routes/Access.antt =====
-- Which requests reach the storage: handler.go and main.go, with auth.go and middleware_json.go.
use metricz_exporter.Base.{
  ◌≡◌, refl, ap, ◌∙◌, Bool, Bool-cases, true, false, str_eq, str_eq_iff, String, Option-cases, none,
  some, List, [], ◌∷◌, All, All-In, inl, inr,
}
use metricz_exporter.Server.{Stream, Response}
use metricz_exporter.Server.Auth.{unauthorized}
use metricz_exporter.Server.Auth.Access.{IsAllowed, basic_auth-allowed, basic_auth-denied}
use metricz_exporter.Server.Json.Lines.{lines_of_body, text_of, json_translator-lines}
use metricz_exporter.Server.Ingest.{handle_single_shot}
use metricz_exporter.Server.Routes.{
  Endpoint, index, liveness, readiness, status_full, status_single, single_shot, chunk_ingest,
  commit, metrics, Middleware, basic_auth_middleware, json_translator_middleware, Route, routes,
  Request, Params, Router, Clock, Site, App, on_storage, run, through, serve,
}

-- The endpoints that write to the storage, and the metrics.
abbrev pub is_private : Endpoint → Bool
is_private single_shot = true
is_private chunk_ingest = true
is_private commit = true
is_private metrics = true
is_private _ = false

abbrev expected_middlewares : Endpoint → List Middleware
expected_middlewares single_shot = basic_auth_middleware ∷ json_translator_middleware ∷ []
expected_middlewares chunk_ingest = basic_auth_middleware ∷ json_translator_middleware ∷ []
expected_middlewares commit = basic_auth_middleware ∷ json_translator_middleware ∷ []
expected_middlewares metrics = basic_auth_middleware ∷ []
expected_middlewares _ = []

abbrev IsExpected : Route → Type 0
IsExpected r = r.middlewares ≡ expected_middlewares r.endpoint

routes-IsExpected : All IsExpected routes
routes-IsExpected =
    (refl, (refl, (refl, (refl, (refl, (refl, (refl, (refl, (refl, (refl, tt))))))))))

module _ (site : Site) (router : Router) (t : Clock) (req : Request) (app : App) where
  serve-missing :
      router.lookup routes req ≡ none → serve site router t req app ≡ (app, router.missing req)
  unfolding serve
  serve-missing h = rw (h, serve) refl

  serve-found :
      (r : Route) (params : Params)
      → router.lookup routes req ≡ some (r, params)
      → serve site router t req app
        ≡ through site req
            (expected_middlewares r.endpoint)
            (run site t r.endpoint params)
            req.body
            app
  unfolding serve
  serve-found r params found =
      let expected : IsExpected r =
        All-In IsExpected routes-IsExpected (Router.sound router routes req r params found) in
      rw (found, serve)
        (ap (λ ms. through site req ms (run site t r.endpoint params) req.body app) expected)

  stopped :
      (ms : List Middleware) (next : Stream → App → App × Response)
      → ¬ IsAllowed site.cfg.app.auth req.credentials
      → through site req (basic_auth_middleware ∷ ms) next req.body app ≡ (app, unauthorized)
  unfolding through
  stopped ms next denied =
      basic_auth-denied site.cfg.app.auth (through site req ms next req.body) app req.credentials
        denied

  through-denied :
      (e : Endpoint) (next : Stream → App → App × Response)
      → ¬ IsAllowed site.cfg.app.auth req.credentials
      → is_private e ≡ true
      → through site req (expected_middlewares e) next req.body app ≡ (app, unauthorized)
  through-denied single_shot next denied _ = stopped (json_translator_middleware ∷ []) next denied
  through-denied chunk_ingest next denied _ = stopped (json_translator_middleware ∷ []) next denied
  through-denied commit next denied _ = stopped (json_translator_middleware ∷ []) next denied
  through-denied metrics next denied _ = stopped [] next denied
  through-denied index next denied h = cc
  through-denied liveness next denied h = cc
  through-denied readiness next denied h = cc
  through-denied status_full next denied h = cc
  through-denied status_single next denied h = cc

  -- If authentication is configured and the credentials are missing or are not the configured
  -- ones, a request that the router sends to an upload, to a commit or to the metrics is answered
  -- with 401, and neither the storage nor the cache changes.
  pub serve-denied :
      (r : Route) (params : Params)
      → router.lookup routes req ≡ some (r, params)
      → is_private r.endpoint ≡ true
      → ¬ IsAllowed site.cfg.app.auth req.credentials
      → serve site router t req app ≡ (app, unauthorized)
  serve-denied r params found private denied =
      serve-found r params found
      ∙ through-denied r.endpoint (run site t r.endpoint params) denied private

  storage-public :
      (e : Endpoint) (params : Params)
      → is_private e ≡ false
      → (through site req (expected_middlewares e) (run site t e params) req.body app).0.storage
        ≡ app.storage
  unfolding through run
  storage-public index params _ = refl
  storage-public liveness params _ = refl
  storage-public readiness params _ = refl
  storage-public status_full params _ = refl
  storage-public status_single params _ = refl
  storage-public single_shot params h = cc
  storage-public chunk_ingest params h = cc
  storage-public commit params h = cc
  storage-public metrics params h = cc

  -- If authentication is configured and a request's credentials are missing or are not the
  -- configured ones, the request, whatever its path is, leaves the storage as it is.
  pub storage-serve :
      ¬ IsAllowed site.cfg.app.auth req.credentials
      → (serve site router t req app).0.storage ≡ app.storage
  storage-serve denied = elim (Option-cases (router.lookup routes req)) [
    | inl missing ↦ ap (λ p. p.0.storage) (serve-missing missing)
    | inr ((r, params), found) ↦ elim (Bool-cases (is_private r.endpoint)) [
      | inl private ↦ ap (λ p. p.0.storage) (serve-denied r params found private denied)
      | inr public ↦
          ap (λ p. p.0.storage) (serve-found r params found)
          ∙ storage-public r.endpoint params public
    ]
  ]

  through-lines :
      (next : Stream → App → App × Response) (lines : List String)
      → IsAllowed site.cfg.app.auth req.credentials
      → str_eq (req.query "format") "json" ≡ true
      → lines_of_body (site.tokens req.body) ≡ some lines
      → through site req (basic_auth_middleware ∷ json_translator_middleware ∷ []) next req.body app
        ≡ next (record { content = text_of lines; broken = none }) app
  unfolding through
  through-lines next lines allowed asked h =
      basic_auth-allowed site.cfg.app.auth
        (through site req (json_translator_middleware ∷ []) next req.body) app req.credentials
        allowed
      ∙ rw asked (json_translator-lines site.tokens next req.body lines app h)

  -- A request that the router sends to the single-shot upload, with the configured credentials or
  -- where no authentication is configured, with format=json and a body that is an array of
  -- strings, is handled as the upload of these strings as lines of text.
  pub serve-single_shot :
      (r : Route) (params : Params) (lines : List String)
      → router.lookup routes req ≡ some (r, params)
      → r.endpoint ≡ single_shot
      → IsAllowed site.cfg.app.auth req.credentials
      → req.query "format" ≡ "json"
      → lines_of_body (site.tokens req.body) ≡ some lines
      → serve site router t req app
        ≡ on_storage
            (handle_single_shot site.lib site.cfg t.now t.later params.instance_id
              (record { content = text_of lines; broken = none }))
            app
  unfolding run
  serve-single_shot r params lines found single allowed asked h =
      serve-found r params found
      ∙ ap (λ e. through site req (expected_middlewares e) (run site t e params) req.body app)
          single
      ∙ through-lines (run site t single_shot params) lines allowed
          ((str_eq_iff (req.query "format") "json").1 asked) h
