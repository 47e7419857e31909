-- ===== src/Entrypoint/Lifecycle.antt =====
-- From the first chunk of an upload to the scrapes after its commit: ingest_chunked.go, staging.go
-- and collector.go.
use metricz_exporter.Base.{
  ℕ, ◌+◌, ◌^◌, ◌<◌, ◌≡◌, ℤ, pos, ltb_ℤ, ◌+ℤ◌, String, string_key, Bool, false, none, some, [], ◌∷◌,
  In,
}
use metricz_exporter.Base.Map
use metricz_exporter.Base.Map.{Map}
use metricz_exporter.Metrics.{Families}
use metricz_exporter.Storage.{Time, Storage}
use metricz_exporter.Storage.Live.{update_ingested-IsPublished}
use metricz_exporter.Storage.Staging.{after, effective_ttl, payload_of, Payload, retrieve_staging}
use metricz_exporter.Storage.Staging.Delivery.{is_live}
use metricz_exporter.Storage.History.{Reach, IsSound}
use metricz_exporter.Storage.Uploads.{received, Spared}
use metricz_exporter.Storage.Collector.{Desc, ConstMetric, new_exporter, time_sub, collect}
use metricz_exporter.Storage.Collector.Samples.{Source}
use metricz_exporter.Parser.{ok}
use metricz_exporter.Config.{Config}
use metricz_exporter.Strconv.{parse_int}
use metricz_exporter.Server.{Stream, Libraries}
use metricz_exporter.Server.Ingest.{parse, handle_chunk_ingest, handle_commit, commit_payload}
use metricz_exporter.Server.Ingest.Whole.{handle_commit-received}
use metricz_exporter.Entrypoint.Scrapes.{published-collected}

-- The stream that a commit hands to the parser.
abbrev pub stream_of : Payload → Stream
stream_of payload = record { content = payload.reader; broken = none }

module _ (lib : Libraries) (cfg : Config) (families : Families) (valid : Desc → Bool) (t : Time)
    (c : ConstMetric) (source : Source valid families c) where
  abbrev IsScraped : Storage → Type 0
  IsScraped s = In (some c) (
      collect lib.float valid
        (new_exporter s cfg.app.stale.stale_multiplier cfg.app.stale.min_stale_age) t)

  commit_payload-IsScraped :
      (at later : Time) (id : String) (payload : Payload) (s : Storage)
      → parse lib cfg (stream_of payload) id ≡ ok families
      → ltb_ℤ cfg.app.stale.min_stale_age (time_sub t at) ≡ false
      → IsScraped (commit_payload lib cfg at later id payload s).0
  unfolding commit_payload
  commit_payload-IsScraped at later id payload s parsed young =
      rw (parsed, commit_payload)
        (published-collected lib.float valid cfg.app.stale.stale_multiplier
          cfg.app.stale.min_stale_age t c
          (update_ingested-IsPublished at later id families payload.total_size payload.chunk_count
            s)
          young source)

  module _ {limit max_body : ℕ} (fits : limit + max_body < 2 ^ 63)
      (limited : cfg.app.ingest.max_body_size ≡ pos max_body) (now : Time)
      (id txn seq_text : String) (body : Stream) (s : Storage) (sound : IsSound limit s)
      (ended : is_live now (Map.get txn s.staging_store) ≡ false)
      (answered : (handle_chunk_ingest lib cfg now id txn seq_text body s).1.status ≡ 202)
      {u : Storage}
      (r : Reach max_body (handle_chunk_ingest lib cfg now id txn seq_text body s).0 u)
      (spared : Spared txn id
        (now +ℤ effective_ttl lib.float s id cfg.app.ingest.transaction_ttl)
        r)
      (start at later : Time)
      (early : after start (now +ℤ effective_ttl lib.float s id cfg.app.ingest.transaction_ttl)
        ≡ false)
      (seq : ℤ) (number : parse_int seq_text ≡ some seq)
      (parsed : parse lib cfg
          (stream_of (payload_of (received txn r ((seq, body.content) ∷ []))))
          id
        ≡ ok families)
      (young : ltb_ℤ cfg.app.stale.min_stale_age (time_sub t at) ≡ false) where
    -- A request begins an upload of an instance in a sound storage (its transaction is unknown or
    -- has expired, the body's limit is `max_body`, and the staging area's limit and the body's
    -- together fit in an int64) and is answered with 202. Any history of the storage's calls
    -- follows in which the transaction's own chunks and the collections come before the upload's
    -- end, other transactions begin or go on for other instances only, and only other transactions
    -- are retrieved. Then the instance commits before the upload's end. If the parser accepts the
    -- ordered chunks that were staged, every scrape of the storage that the commit leaves, which
    -- is made not later than the minimal stale age after it, contains the sample of each gauge and
    -- counter of the parser's families whose description is valid.
    pub collect-handle_commit : IsScraped (handle_commit lib cfg start at later id txn u).0
    collect-handle_commit =
        let (seq', number', e) =
          handle_commit-received lib cfg fits limited now id txn seq_text body s sound ended
            answered r spared start at later id early in
        let same : seq' ≡ seq = cc in
        rw (e, same)
          (commit_payload-IsScraped at later id
            (payload_of (received txn r ((seq, body.content) ∷ [])))
            (retrieve_staging start txn u).0 parsed young)
