-- ===== src/Entrypoint/Runs.antt =====
-- The whole server: any sequence of requests, of ticks of the pollers and of collections, from the
-- start that main.go makes. Each is one step here; the single calls of the storage that they make,
-- in any order, are in Storage/History.
use metricz_exporter.Base.{
  ℕ, ◌+◌, ◌^◌, ◌<◌, ◌≤◌, ◌≡◌, subst, ltb_ℤ, pos, length, Option-cases, false, String, none, List,
  [], inl, inr, arith,
}
use metricz_exporter.Metrics.{Float64, FloatOps}
use metricz_exporter.Storage.{Time, Duration, Storage, new}
use metricz_exporter.Storage.Staging.{Payload, retrieve_staging}
use metricz_exporter.Storage.Gc.{cleanup_staging}
use metricz_exporter.Storage.History.{
  ingests, polls, consoles, appends, retrieves, collects, Reach, start, next, IsSound,
  reachable-IsSound,
}
use metricz_exporter.Entrypoint.Requests.{serve-Respects}
use metricz_exporter.Parser.{Result-cases}
use metricz_exporter.Config.{Config, A2sConfig, RconConfig, ServerDefinition}
use metricz_exporter.Server.{Stream, Libraries}
use metricz_exporter.Server.Ingest.{
  parse, handle_single_shot, handle_chunk_ingest, handle_commit, commit_payload,
}
use metricz_exporter.Server.Ingest.Commit.{handle_chunk_ingest_cases}
use metricz_exporter.Server.Routes.{
  Endpoint, index, liveness, readiness, status_full, status_single, single_shot, chunk_ingest,
  commit, metrics, Request, Params, Router, Clock, Site, App, run, serve,
}
use metricz_exporter.Poller.A2s.{Client}
use metricz_exporter.Poller.Rcon.{Bercon, RconSession}
use metricz_exporter.Poller.Players.{Player}
use metricz_exporter.Poller.Manager.{a2s_tick, poll_rcon_and_submit}
use metricz_exporter.Server.{byte_limit, max_bytes_reader}

Reach-trans : {m : ℕ} {s t u : Storage} → Reach m s t → Reach m t u → Reach m s u
Reach-trans r start = r
Reach-trans r (next q step) = next (Reach-trans r q) step

module _ (lib : Libraries) (cfg : Config) (max_body : ℕ) where
  handle_single_shot-Reach :
      (now later : Time) (id : String) (body : Stream) (s : Storage)
      → Reach max_body s (handle_single_shot lib cfg now later id body s).0
  unfolding handle_single_shot
  handle_single_shot-Reach now later id body s =
      let stream = max_bytes_reader cfg.app.ingest.max_body_size body in
      elim (Result-cases (parse lib cfg stream id)) [
        | inl (e, h) ↦ rw (h, handle_single_shot) start
        | inr (families, h) ↦
            rw (h, handle_single_shot)
              (next start (ingests s now later id families (pos (length stream.content)) (pos 1)))
      ]

  commit_payload-Reach :
      (now later : Time) (id : String) (payload : Payload) (s : Storage)
      → Reach max_body s (commit_payload lib cfg now later id payload s).0
  unfolding commit_payload
  commit_payload-Reach now later id payload s =
      let stream : Stream = record { content = payload.reader; broken = none } in
      elim (Result-cases (parse lib cfg stream id)) [
        | inl (e, h) ↦ rw (h, commit_payload) start
        | inr (families, h) ↦
            rw (h, commit_payload)
              (next start (ingests s now later id families payload.total_size payload.chunk_count))
      ]

  handle_commit-Reach :
      (begin now later : Time) (id txn : String) (s : Storage)
      → Reach max_body s (handle_commit lib cfg begin now later id txn s).0
  unfolding handle_commit
  handle_commit-Reach begin now later id txn s =
      let taken : Reach max_body s (retrieve_staging begin txn s).0 =
        next start (retrieves s begin txn) in
      elim (Option-cases (retrieve_staging begin txn s).1) [
        | inl h ↦ rw (h, handle_commit) taken
        | inr (payload, h) ↦
            rw (h, handle_commit)
              (Reach-trans taken
                (commit_payload-Reach now later id payload (retrieve_staging begin txn s).0))
      ]

  handle_chunk_ingest-Reach :
      cfg.app.ingest.max_body_size ≡ pos max_body
      → (now : Time) (id txn seq_text : String) (body : Stream) (s : Storage)
      → Reach max_body s (handle_chunk_ingest lib cfg now id txn seq_text body s).0
  handle_chunk_ingest-Reach limited now id txn seq_text body s =
      handle_chunk_ingest_cases lib cfg now id txn seq_text body s (λ r. Reach max_body s r.0) start
        start
        λ seq number fits.
          let small : length body.content ≤ max_body =
            let under : ltb_ℤ (pos max_body) (pos (length body.content)) ≡ false =
              subst (λ n. ltb_ℤ (byte_limit n) (pos (length body.content)) ≡ false) limited fits in
            ground arith in
          next start
            (appends s lib.float now txn id seq body.content cfg.app.ingest.transaction_ttl small)

module _ (site : Site) (max_body : ℕ)
    (limited : site.cfg.app.ingest.max_body_size ≡ pos max_body) where
  run-Reach :
      (t : Clock) (e : Endpoint) (params : Params) (body : Stream) (app : App)
      → Reach max_body app.storage (run site t e params body app).0.storage
  unfolding run
  run-Reach t index params body app = start
  run-Reach t liveness params body app = start
  run-Reach t readiness params body app = start
  run-Reach t status_full params body app = start
  run-Reach t status_single params body app = start
  run-Reach t single_shot params body app =
      handle_single_shot-Reach site.lib site.cfg max_body t.now t.later params.instance_id body
        app.storage
  run-Reach t chunk_ingest params body app =
      handle_chunk_ingest-Reach site.lib site.cfg max_body limited t.now params.instance_id
        params.txn_hash params.seq_id body app.storage
  run-Reach t commit params body app =
      handle_commit-Reach site.lib site.cfg max_body t.start t.now t.later params.instance_id
        params.txn_hash app.storage
  run-Reach t metrics params body app = start

  serve-Reach :
      (router : Router) (t : Clock) (req : Request) (app : App)
      → Reach max_body app.storage (serve site router t req app).0.storage
  serve-Reach = serve-Respects site (Reach max_body) (λ s. start) run-Reach

abbrev pub with_storage : App → Storage → App
with_storage app s = record app { storage = s }

-- One step of the server.
pub data Event (site : Site) (router : Router) : App → App → Type 0 where
  answers :
      (app : App) (t : Clock) (req : Request)
      → Event site router app (serve site router t req app).0
  queries :
      (app : App) (float : FloatOps) (seconds : Duration → Float64) (client : Client)
      (srv : ServerDefinition) (cfg : A2sConfig)
      → Event site router app (with_storage app (a2s_tick float seconds client srv cfg app.storage))
  consults :
      (app : App) (float : FloatOps) (table : String → List Player) (bercon : Bercon)
      (cfg : RconConfig) (now : Time) (id : String) (session : RconSession)
      → Event site router app (
          with_storage app
            (poll_rcon_and_submit float table bercon cfg now id (session, app.storage)).1)
  cleans :
      (app : App) (now : Time)
      → Event site router app (with_storage app (cleanup_staging now app.storage).0)

pub data Runs (site : Site) (router : Router) (app : App) : App → Type 0 where
  begins : Runs site router app app
  continues : {b c : App} → Runs site router app b → Event site router b c → Runs site router app c

module _ (site : Site) (router : Router) (max_body : ℕ)
    (limited : site.cfg.app.ingest.max_body_size ≡ pos max_body) where
  Event-Reach : {a b : App} → Event site router a b → Reach max_body a.storage b.storage
  unfolding a2s_tick poll_rcon_and_submit
  Event-Reach (answers app t req) = serve-Reach site max_body limited router t req app
  Event-Reach (queries app float seconds client srv cfg) =
      next start (polls app.storage srv.instance_id _)
  Event-Reach (consults app float table bercon cfg now id session) =
      next start (consoles app.storage id _)
  Event-Reach (cleans app now) = next start (collects app.storage now)

  Runs-Reach : {a b : App} → Runs site router a b → Reach max_body a.storage b.storage
  Runs-Reach begins = start
  Runs-Reach (continues r e) = Reach-trans (Runs-Reach r) (Event-Reach e)

-- After any sequence of HTTP requests, of ticks of the A2S and RCon workers and of garbage
-- collections, from the start with an empty storage, whatever the router and the other libraries
-- make of the requests, and where the limit of the staging area and that of a body together fit in
-- an int64: the quota's counter is exactly the number of bytes that the staged chunks hold and is
-- within the limit, each transaction's counter is exactly its bytes, and no instance has two
-- unfinished transactions.
pub Runs-IsSound :
    (site : Site) (router : Router) (limit max_body : ℕ)
    → limit + max_body < 2 ^ 63
    → site.cfg.app.ingest.max_body_size ≡ pos max_body
    → {app : App} → Runs site router (record { storage = new (pos limit); public_cache = [] }) app
    → IsSound limit app.storage
Runs-IsSound site router limit max_body fits limited r =
    reachable-IsSound limit max_body fits (Runs-Reach site router max_body limited r)
