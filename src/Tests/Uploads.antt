-- ===== src/Tests/Uploads.antt =====
-- The HTTP handlers' theorems at concrete requests.
use metricz_exporter.Base.{
  length, ◌≡◌, refl, pos, String, string_key, int_key, none, some, [], ◌∷◌, String-discrete,
  ℤ-discrete, ℕ_discrete, add64, sub64,
}
use metricz_exporter.Storage.{Storage, new}
use metricz_exporter.Storage.Staging.{Payload, append_to_staging, retrieve_staging}
use metricz_exporter.Parser.{Decoded, failure, parse_and_validate, parsing_failed, err}
use metricz_exporter.Server.{
  Stream, ReadError, body_too_large, too_large, Libraries, text, error_text, respond,
  max_bytes_reader,
}
use metricz_exporter.Server.Ingest.{parse, handle_single_shot, handle_commit}
use metricz_exporter.Server.Ingest.Limits.{handle_single_shot-err}
use metricz_exporter.Server.Ingest.Commit.{handle_commit_twice}
use metricz_exporter.Server.Ingest.Published.{
  IsIngested, handle_single_shot-IsIngested, handle_commit-IsIngested,
}
use metricz_exporter.Tests.{libraries, whole, before, staged, one_chunk, config}

abbrev reason : ReadError → String
reason body_too_large = too_large
reason _ = "other"

-- A decoder that reports the reader's error.
abbrev strict : Libraries
strict = record libraries {
  decode =
      λ stream. elim stream.broken [ none ↦ Decoded.eof | some cause ↦ failure (reason cause) ];
}

-- Twelve bytes, where ten are allowed.
abbrev large : Stream
large = whole (1 ∷ 2 ∷ 3 ∷ 4 ∷ 5 ∷ 6 ∷ 7 ∷ 8 ∷ 9 ∷ 10 ∷ 11 ∷ 12 ∷ [])

over_limit :
    parse strict config (max_bytes_reader config.app.ingest.max_body_size large) "a"
    ≡ err (parsing_failed "http: request body too large")
unfolding max_bytes_reader parse_and_validate
over_limit = refl

handle_single_shot-err_example :
    handle_single_shot strict config (pos 5) (pos 6) "a" large before
    ≡ (before, respond 400 (error_text (parsing_failed "http: request body too large")))
handle_single_shot-err_example =
    handle_single_shot-err strict config (pos 5) (pos 6) "a" large before
      (parsing_failed "http: request body too large") over_limit

abbrev after_commit : Storage
after_commit = (handle_commit libraries config (pos 6) (pos 6) (pos 7) "a" "t" staged).0

handle_commit_twice_example :
    handle_commit libraries config (pos 8) (pos 8) (pos 9) "a" "t" after_commit
    ≡ (after_commit, respond 404 (text "Transaction not found or empty"))
handle_commit_twice_example =
    handle_commit_twice libraries config (pos 6) (pos 6) (pos 7) (pos 8) (pos 8) (pos 9) "a" "a" "t"
      staged

single_answered :
    (handle_single_shot libraries config (pos 5) (pos 6) "a" (whole one_chunk) before).1.status
    ≡ 200
unfolding handle_single_shot parse_and_validate String-discrete ℤ-discrete ℕ_discrete add64 sub64
single_answered = refl

handle_single_shot-IsIngested_example :
    IsIngested libraries config
      (pos 5)
      (pos 6)
      "a"
      (max_bytes_reader config.app.ingest.max_body_size (whole one_chunk))
      (pos (length (max_bytes_reader config.app.ingest.max_body_size (whole one_chunk)).content))
      (pos 1)
      before
      (handle_single_shot libraries config (pos 5) (pos 6) "a" (whole one_chunk) before).0
handle_single_shot-IsIngested_example =
    handle_single_shot-IsIngested libraries config (pos 5) (pos 6) "a" (whole one_chunk) before
      single_answered

commit_answered :
    (handle_commit libraries config (pos 6) (pos 6) (pos 7) "a" "t" staged).1.status ≡ 200
unfolding handle_commit parse_and_validate String-discrete ℤ-discrete ℕ_discrete add64 sub64
    append_to_staging new
commit_answered = refl

handle_commit-IsIngested_example :
    (payload : Payload) × ((retrieve_staging (pos 6) "t" staged).1 ≡ some payload)
    × IsIngested libraries config
        (pos 6)
        (pos 7)
        "a"
        (record { content = payload.reader; broken = none })
        payload.total_size
        payload.chunk_count
        (retrieve_staging (pos 6) "t" staged).0
        (handle_commit libraries config (pos 6) (pos 6) (pos 7) "a" "t" staged).0
handle_commit-IsIngested_example =
    handle_commit-IsIngested libraries config (pos 6) (pos 7) "a" (pos 6) "t" staged commit_answered
