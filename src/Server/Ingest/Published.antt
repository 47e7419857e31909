-- ===== src/Server/Ingest/Published.antt =====
-- What an upload leaves that is answered with 200: ingest_single.go, ingest_chunked.go.
use metricz_exporter.Base.{
  ◌≡◌, ◌≢◌, refl, if_cases, ℤ, pos, length, String, Option-cases, none, some, inl, inr, arith,
}
use metricz_exporter.Metrics.{Families}
use metricz_exporter.Storage.{Time, Storage}
use metricz_exporter.Storage.Live.{IsPublished, update_ingested-IsPublished}
use metricz_exporter.Storage.Staging.{Payload, retrieve_staging}
use metricz_exporter.Parser.{ParseError, Result-cases, ok}
use metricz_exporter.Config.{Config}
use metricz_exporter.Server.{Stream, Libraries, Response, max_bytes_reader}
use metricz_exporter.Server.Ingest.{
  parse, is_too_large, reject_single, handle_single_shot, commit_payload, handle_commit,
}

-- The families of a stream are in the storage, and all else is as it was.
pub record IsIngested (lib : Libraries) (cfg : Config) (now later : Time) (id : String)
    (stream : Stream) (bytes chunks : ℤ) (s s' : Storage) : Type 0 where
  pub families : Families
  pub parsed : parse lib cfg stream id ≡ ok families
  pub published : IsPublished now later id families bytes chunks s s'

reject_single-ne : (e : ParseError) → (reject_single e).status ≢ 200
unfolding reject_single
reject_single-ne e =
    if_cases (λ (r : Response). r.status ≢ 200) (is_too_large e) (λ large h. omega (arith, h))
      λ other h. omega (arith, h)

module _ (lib : Libraries) (cfg : Config) (now later : Time) (id : String) where
  -- If a single-shot upload is answered with 200, the parser has accepted the body up to the
  -- limit, and the instance then has exactly the parser's families, with the time and the interval
  -- that they report, and its counters advanced by the body's length and by one; its polled and
  -- RCon families, the other instances and the staging area are as they were.
  pub handle_single_shot-IsIngested :
      (body : Stream) (s : Storage)
      → let r = handle_single_shot lib cfg now later id body s in
        let stream = max_bytes_reader cfg.app.ingest.max_body_size body in
        r.1.status ≡ 200
        → IsIngested lib cfg now later id stream (pos (length stream.content)) (pos 1) s r.0
  unfolding handle_single_shot
  handle_single_shot-IsIngested body s =
      let stream = max_bytes_reader cfg.app.ingest.max_body_size body in
      elim (Result-cases (parse lib cfg stream id)) [
        | inl (e, h) ↦ rw (h, handle_single_shot) (λ found. elim (reject_single-ne e found) [ ])
        | inr (families, h) ↦
            rw (h, handle_single_shot)
              λ _. record {
                families = families;
                parsed = h;
                published = update_ingested-IsPublished now later id families _ _ s;
              }
      ]

  commit_payload-IsIngested :
      (payload : Payload) (s : Storage)
      → let r = commit_payload lib cfg now later id payload s in
        let stream : Stream = record { content = payload.reader; broken = none } in
        r.1.status ≡ 200
        → IsIngested lib cfg now later id stream payload.total_size payload.chunk_count s r.0
  unfolding commit_payload
  commit_payload-IsIngested payload s =
      let stream : Stream = record { content = payload.reader; broken = none } in
      elim (Result-cases (parse lib cfg stream id)) [
        | inl (e, h) ↦
            rw (h, commit_payload) (λ found. let no : ⊥ = omega (arith, found) in elim no [ ])
        | inr (families, h) ↦
            rw (h, commit_payload)
              λ _. record {
                families = families;
                parsed = h;
                published = update_ingested-IsPublished now later id families _ _ s;
              }
      ]

  -- If a commit is answered with 200, the storage has delivered a payload, the parser has accepted
  -- it, and the instance then has exactly the parser's families, with the time and the interval
  -- that they report, and its counters advanced by the payload's size and its number of chunks;
  -- beside the delivery, its polled and RCon families, the other instances and the staging area
  -- are as they were.
  pub handle_commit-IsIngested :
      (start : Time) (txn : String) (s : Storage)
      → let r = handle_commit lib cfg start now later id txn s in
        let taken = retrieve_staging start txn s in
        r.1.status ≡ 200
        → (payload : Payload) × (taken.1 ≡ some payload)
          × IsIngested lib cfg now later id
              (record { content = payload.reader; broken = none })
              payload.total_size
              payload.chunk_count
              taken.0
              r.0
  unfolding handle_commit
  handle_commit-IsIngested start txn s = elim (Option-cases (retrieve_staging start txn s).1) [
    | inl h ↦ rw (h, handle_commit) (λ found. let no : ⊥ = omega (arith, found) in elim no [ ])
    | inr (payload, h) ↦
        rw (h, handle_commit)
          λ found. (
            payload,
            refl,
            commit_payload-IsIngested payload (retrieve_staging start txn s).0 found,
          )
  ]
