-- ===== src/Entrypoint/Owned.antt =====
-- The instance that each sample names, over any run of the server: from parser.go, storage.go and the
-- pollers to collector.go.
use metricz_exporter.Base.{
  ℕ, Bool, ◌≡◌, sym, subst, ℤ, pos, length, Option-cases, String, string_key, none, some, List, [],
  ◌∷◌, inl, inr, All,
}
use metricz_exporter.Base.Map
use metricz_exporter.Base.Map.{Map}
use metricz_exporter.Metrics.{Float64, FloatOps, Metric, Families}
use metricz_exporter.Storage.{Time, Duration, InstanceState, Storage, new, get_instance_states}
use metricz_exporter.Storage.Owned.{
  Names, IsOwnFamilies, IsOwn, IsOwned, update_ingested-IsOwned, update_polled-IsOwned,
  update_rcon-IsOwned,
}
use metricz_exporter.Storage.Owned.Staging.{
  live_store-append_to_staging, live_store-retrieve_staging, cleanup_staging-IsOwned,
}
use metricz_exporter.Storage.Collector.{Desc, new_exporter, collect_instance}
use metricz_exporter.Storage.Collector.Owned.{AllName, collect_instance-own}
use metricz_exporter.Storage.Staging.{Payload, retrieve_staging}
use metricz_exporter.Parser.{Result-cases, ok}
use metricz_exporter.Parser.Labels.{IsNormal}
use metricz_exporter.Parser.Families.{IsClean, parse_and_validate-IsClean}
use metricz_exporter.Config.{Config}
use metricz_exporter.Server.{Stream, Libraries, max_bytes_reader}
use metricz_exporter.Server.Ingest.{
  parse, handle_single_shot, handle_chunk_ingest, handle_commit, commit_payload,
}
use metricz_exporter.Server.Ingest.Commit.{handle_chunk_ingest_cases}
use metricz_exporter.Server.Routes.{
  Endpoint, single_shot, chunk_ingest, commit, Params, Router, Clock, Site, App, run,
}
use metricz_exporter.Poller.Owned.{set_a2s_metrics-own, generate_metrics-own}
use metricz_exporter.Poller.Rcon.{Polled, request, finish, poll}
use metricz_exporter.Poller.Players.{Player}
use metricz_exporter.Poller.Manager.{a2s_tick, poll_rcon_and_submit}
use metricz_exporter.Entrypoint.Requests.{serve-Respects}
use metricz_exporter.Entrypoint.Runs.{
  Event, answers, queries, consults, cleans, Runs, begins, continues,
}

All-IsNormal-Names : (id : String) (ms : List Metric) → All (IsNormal id) ms → All (Names id) ms
All-IsNormal-Names id [] all = tt
All-IsNormal-Names id (m ∷ ms) all = (all.0.owned, All-IsNormal-Names id ms all.1)

IsClean-own :
    (xxhash : List ℕ → ℕ) (id : String) (families : Families)
    → Map.Values (IsClean xxhash id) families
    → IsOwnFamilies id families
IsClean-own xxhash id [] clean = tt
IsClean-own xxhash id ((name, mf) ∷ families) clean =
    (All-IsNormal-Names id mf.metric clean.0.normal, IsClean-own xxhash id families clean.1)

module _ (lib : Libraries) (cfg : Config) where
  parse-own :
      (stream : Stream) (id : String) (families : Families)
      → parse lib cfg stream id ≡ ok families
      → IsOwnFamilies id families
  parse-own stream id families h =
      IsClean-own lib.xxhash id families
        (parse_and_validate-IsClean lib.xxhash lib.battleye id (lib.decode stream)
          cfg.app.ingest.overwrite_instance_id families h).0

  handle_single_shot-IsOwned :
      (now later : Time) (id : String) (body : Stream) (s : Storage)
      → IsOwned s
      → IsOwned (handle_single_shot lib cfg now later id body s).0
  unfolding handle_single_shot
  handle_single_shot-IsOwned now later id body s owned =
      let stream = max_bytes_reader cfg.app.ingest.max_body_size body in
      elim (Result-cases (parse lib cfg stream id)) [
        | inl (e, h) ↦ rw (h, handle_single_shot) owned
        | inr (families, h) ↦
            rw (h, handle_single_shot)
              (update_ingested-IsOwned id s owned families (parse-own stream id families h) now
                later (pos (length stream.content)) (pos 1))
      ]

  commit_payload-IsOwned :
      (now later : Time) (id : String) (payload : Payload) (s : Storage)
      → IsOwned s
      → IsOwned (commit_payload lib cfg now later id payload s).0
  unfolding commit_payload
  commit_payload-IsOwned now later id payload s owned =
      let stream : Stream = record { content = payload.reader; broken = none } in
      elim (Result-cases (parse lib cfg stream id)) [
        | inl (e, h) ↦ rw (h, commit_payload) owned
        | inr (families, h) ↦
            rw (h, commit_payload)
              (update_ingested-IsOwned id s owned families (parse-own stream id families h) now
                later payload.total_size payload.chunk_count)
      ]

  handle_commit-IsOwned :
      (begin now later : Time) (id txn : String) (s : Storage)
      → IsOwned s
      → IsOwned (handle_commit lib cfg begin now later id txn s).0
  unfolding handle_commit
  handle_commit-IsOwned begin now later id txn s owned =
      let taken : IsOwned (retrieve_staging begin txn s).0 =
        subst (Map.Entries IsOwn) (sym (live_store-retrieve_staging begin txn s)) owned in
      elim (Option-cases (retrieve_staging begin txn s).1) [
        | inl h ↦ rw (h, handle_commit) taken
        | inr (payload, h) ↦
            rw (h, handle_commit)
              (commit_payload-IsOwned now later id payload (retrieve_staging begin txn s).0 taken)
      ]

  handle_chunk_ingest-IsOwned :
      (now : Time) (id txn seq_text : String) (body : Stream) (s : Storage)
      → IsOwned s
      → IsOwned (handle_chunk_ingest lib cfg now id txn seq_text body s).0
  handle_chunk_ingest-IsOwned now id txn seq_text body s owned =
      handle_chunk_ingest_cases lib cfg now id txn seq_text body s (λ r. IsOwned r.0) owned owned
        λ seq number fits.
          subst (Map.Entries IsOwn)
            (sym (
              live_store-append_to_staging lib.float now txn id seq body.content
                cfg.app.ingest.transaction_ttl s))
            owned

abbrev Keeps : Storage → Storage → Type 0
Keeps s t = IsOwned s → IsOwned t

module _ (site : Site) where
  run-Keeps :
      (t : Clock) (e : Endpoint) (params : Params) (body : Stream) (app : App)
      → Keeps app.storage (run site t e params body app).0.storage
  unfolding run
  run-Keeps t single_shot params body app =
      handle_single_shot-IsOwned site.lib site.cfg t.now t.later params.instance_id body app.storage
  run-Keeps t chunk_ingest params body app =
      handle_chunk_ingest-IsOwned site.lib site.cfg t.now params.instance_id params.txn_hash
        params.seq_id body app.storage
  run-Keeps t commit params body app =
      handle_commit-IsOwned site.lib site.cfg t.start t.now t.later params.instance_id
        params.txn_hash app.storage
  run-Keeps t _ params body app = λ owned. owned

  finish-own :
      (float : FloatOps) (parse : String → List Player) (now : Time) (id : String) (p : Polled)
      → IsOwnFamilies id (finish float parse now id p).1
  finish-own float parse now id (s, inl e) = generate_metrics-own id float none
  finish-own float parse now id (s, inr response) =
      generate_metrics-own id float (some (parse response))

  Event-Keeps : {router : Router} {a b : App} → Event site router a b → Keeps a.storage b.storage
  unfolding a2s_tick poll_rcon_and_submit poll
  Event-Keeps {router} (answers app t req) =
      serve-Respects site Keeps (λ s owned. owned) run-Keeps router t req app
  Event-Keeps (queries app float seconds client srv cfg) = λ owned.
      update_polled-IsOwned srv.instance_id app.storage owned _
        (set_a2s_metrics-own float seconds srv _)
  Event-Keeps (consults app float table bercon cfg now id session) = λ owned.
      update_rcon-IsOwned id app.storage owned _
        (finish-own float table now id (request bercon cfg session))
  Event-Keeps (cleans app now) = λ owned. cleanup_staging-IsOwned now app.storage owned

  Runs-Keeps : {router : Router} {a b : App} → Runs site router a b → Keeps a.storage b.storage
  Runs-Keeps begins = λ owned. owned
  Runs-Keeps (continues r e) = λ owned. Event-Keeps e (Runs-Keeps r owned)

  -- After any sequence of HTTP requests, of ticks of the A2S and RCon workers and of garbage
  -- collections, from the start with an empty storage, whatever instance ids the uploaded metrics
  -- name, and whatever the router, the game servers and the other libraries answer: each sample
  -- that a scrape collects for an instance has the label `instance_id` with that instance's id.
  pub Runs-own :
      (router : Router) (limit : ℤ) {app : App}
      → Runs site router (record { storage = new limit; public_cache = [] }) app
      → (float : FloatOps) (valid : Desc → Bool) (multiplier : Float64) (min_age : Duration)
        (now : Time) (id : String) (state : InstanceState)
      → Map.get id (get_instance_states app.storage) ≡ some state
      → AllName id
          (collect_instance float valid (new_exporter app.storage multiplier min_age) now id state)
  unfolding new get_instance_states
  Runs-own router limit {app} r float valid multiplier min_age now id state found =
      collect_instance-own id valid float app.storage multiplier min_age now state
        (Map.Entries-get IsOwn id state app.storage.live_store (Runs-Keeps r tt) found)
