-- ===== src/Server/Ingest/Whole.antt =====
-- An upload in chunks from its first request to its commit, among the other calls of the storage:
-- internal/server/ingest_chunked.go.
use metricz_exporter.Base.{
  ℕ, ◌+◌, ◌^◌, ◌≤◌, ◌<◌, ◌≡◌, refl, subst, ℤ, pos, ltb_ℤ, ◌+ℤ◌, length, String, string_key, false,
  Option, none, some, [], ◌∷◌, arith,
}
use metricz_exporter.Base.Map
use metricz_exporter.Storage.{Time, StorageError, Storage}
use metricz_exporter.Storage.Staging.{after, retrieve_staging, payload_of, effective_ttl}
use metricz_exporter.Storage.Staging.Delivery.{is_live}
use metricz_exporter.Storage.History.{Reach, IsSound}
use metricz_exporter.Storage.Uploads.{received, Spared}
use metricz_exporter.Storage.Uploads.Delivered.{retrieve_staging-received}
use metricz_exporter.Config.{Config}
use metricz_exporter.Strconv.{parse_int}
use metricz_exporter.Server.{Stream, Libraries, Response, byte_limit}
use metricz_exporter.Server.Ingest.{
  staged_response, handle_chunk_ingest, handle_commit, commit_payload,
}
use metricz_exporter.Server.Ingest.Commit.{handle_chunk_ingest_cases, handle_commit-live}

nil_of_202 : (answer : Option StorageError) → (staged_response answer).status ≡ 202 → answer ≡ none
nil_of_202 none h = refl
nil_of_202 (some e) h = let no : ⊥ = ground arith in elim no [ ]

module _ (lib : Libraries) (cfg : Config) {limit max_body : ℕ} (fits : limit + max_body < 2 ^ 63)
    (limited : cfg.app.ingest.max_body_size ≡ pos max_body) (now : Time) (id txn seq_text : String)
    (body : Stream) (s : Storage) (sound : IsSound limit s)
    (ended : is_live now (Map.get txn s.staging_store) ≡ false) where
  abbrev last : Time
  last = now +ℤ effective_ttl lib.float s id cfg.app.ingest.transaction_ttl

  small :
      ltb_ℤ (byte_limit cfg.app.ingest.max_body_size) (pos (length body.content)) ≡ false
      → length body.content ≤ max_body
  small within =
      let under : ltb_ℤ (pos max_body) (pos (length body.content)) ≡ false =
        subst (λ n. ltb_ℤ (byte_limit n) (pos (length body.content)) ≡ false) limited within in
      ground arith

  -- The commit at the end of a history hands over all the chunks that were staged in it.
  abbrev HandsOver :
      {b : Storage} (t : Storage) → Reach max_body b t → Time → Time → Time → String → Type 0
  HandsOver t r start at later whose =
      (seq : ℤ) × (parse_int seq_text ≡ some seq)
      × (handle_commit lib cfg start at later whose txn t
          ≡ commit_payload lib cfg at later whose
              (payload_of (received txn r ((seq, body.content) ∷ [])))
              (retrieve_staging start txn t).0)

  abbrev CommitsAll : Storage × Response → Type 0
  CommitsAll begun =
      begun.1.status ≡ 202
      → (t : Storage) (r : Reach max_body begun.0 t) → Spared txn id last r
      → (start at later : Time) (whose : String) → after start last ≡ false
      → HandsOver t r start at later whose

  commits_all : CommitsAll (handle_chunk_ingest lib cfg now id txn seq_text body s)
  commits_all =
      handle_chunk_ingest_cases lib cfg now id txn seq_text body s CommitsAll
        (λ h. let no : ⊥ = ground arith in elim no [ ])
        (λ h. let no : ⊥ = ground arith in elim no [ ])
        λ seq number within h t r spared start at later whose early. (
          seq,
          number,
          handle_commit-live lib cfg start at later whose txn t _ (
              retrieve_staging-received lib.float now txn id seq body.content
                cfg.app.ingest.transaction_ttl s fits (small within) sound ended (nil_of_202 _ h) r
                spared start early),
        )

  -- If a request begins an upload of an instance in a sound storage (its transaction is unknown or
  -- has expired, the body's limit is `max_body`, and the staging area's limit and the body's
  -- together fit in an int64) and is answered with 202, then after any further history of the
  -- storage's calls in which the transaction's own chunks and the collections come before the
  -- upload's end, other transactions begin or go on for other instances only, and only other
  -- transactions are retrieved, a commit before the upload's end finds the transaction and hands
  -- over the chunk of this request and all those that the history staged for the transaction,
  -- whatever came between them.
  pub handle_commit-received :
      (handle_chunk_ingest lib cfg now id txn seq_text body s).1.status ≡ 202
      → {t : Storage}
        (r : Reach max_body (handle_chunk_ingest lib cfg now id txn seq_text body s).0 t)
      → Spared txn id last r
      → (start at later : Time) (whose : String) → after start last ≡ false
      → HandsOver t r start at later whose
  handle_commit-received answered r = commits_all answered _ r
