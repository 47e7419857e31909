-- ===== src/Server/Ingest.antt =====
-- internal/server/ingest_single.go and ingest_chunked.go.
pub mod Limits
pub mod Commit
pub mod Published
pub mod Whole
use metricz_exporter.Base.{
  ℕ, ◌-◌, ℤ, pos, leb, eqb, length, drop, Bool, true, false, not, ◌&&◌, ◌||◌, if◌then◌else◌, String,
  str_eq, codes, Option, none, some, List, [], ◌∷◌, ◌++◌,
}
use metricz_exporter.Storage.{Time, Bytes, Storage, StorageError, update_ingested}
use metricz_exporter.Storage.Staging.{Payload, append_to_staging, retrieve_staging}
use metricz_exporter.Metrics
use metricz_exporter.Parser.{
  ParseError, parsing_failed, mismatch, Result, ok, err, parse_and_validate,
}
use metricz_exporter.Config.{Config}
use metricz_exporter.Strconv.{parse_int}
use metricz_exporter.Server.{
  Stream, Libraries, Response, Body, text, error_text, respond, too_large, max_bytes_reader,
}

-- err.Error()
unfoldable pub message : ParseError → List ℕ
message (parsing_failed cause) = codes "parsing failed: " ++ codes cause
message (mismatch name expected got) =
    codes "instance_id mismatch in metric '"
    ++ (codes name
        ++ (codes "': expected '"
            ++ (codes expected ++ (codes "', got '" ++ (codes got ++ codes "'")))))

unfoldable pub eq_codes : List ℕ → List ℕ → Bool
eq_codes [] [] = true
eq_codes (a ∷ as') (b ∷ bs) = eqb a b && eq_codes as' bs
eq_codes _ _ = false

-- len(s) >= 26 && s[len(s)-26:] == "http: request body too large"
unfoldable pub contains_body_too_large : List ℕ → Bool
unfolding eq_codes
contains_body_too_large s = leb 26 (length s) && eq_codes (drop (length s - 26) s) (codes too_large)

abbrev is_empty : List ℕ → Bool
is_empty [] = true
is_empty (_ ∷ _) = false

unfoldable pub is_too_large : ParseError → Bool
unfolding message eq_codes contains_body_too_large
is_too_large e =
    eq_codes (message e) (codes too_large)
    || not (is_empty (message e)) && contains_body_too_large (message e)

abbrev pub parse : Libraries → Config → Stream → String → Result Metrics.Families
parse lib cfg stream id =
    parse_and_validate lib.xxhash lib.battleye (lib.decode stream) id
      cfg.app.ingest.overwrite_instance_id

unfoldable pub reject_single : ParseError → Response
unfolding is_too_large
reject_single e =
    if is_too_large e
    then respond 413 (text "Request body too large")
    else respond 400 (error_text e)

abbrev pub accepted : ℕ → Response
accepted status = record {
  status = status;
  headers = ("Content-Type", "text/plain") ∷ [];
  body = text "OK";
}

-- handleSingleShot: the counting reader has read the whole content where the parser succeeds.
unfoldable pub handle_single_shot :
    Libraries → Config → Time → Time → String → Stream → Storage → Storage × Response
unfolding max_bytes_reader reject_single update_ingested parse_and_validate
handle_single_shot lib cfg now later id body s =
    let stream = max_bytes_reader cfg.app.ingest.max_body_size body in
    elim (parse lib cfg stream id) [
      | err e ↦ (s, reject_single e)
      | ok families ↦ (
        update_ingested now later id families (pos (length stream.content)) (pos 1) s,
        accepted 200,
      )
    ]

abbrev pub staged_response : Option StorageError → Response
staged_response none = accepted 202
staged_response (some _) = respond 503 (text "staging buffer full")

abbrev with_body :
    Libraries → Config → Time → String → String → ℤ → Stream → Storage → Storage × Response
with_body lib cfg now id txn seq stream s = elim stream.broken [
  | some _ ↦ (s, respond 500 (text "failed to read body"))
  | none ↦
      let (s', refused) =
        append_to_staging lib.float now txn id seq stream.content cfg.app.ingest.transaction_ttl
          s in
      (s', staged_response refused)
]

-- handleChunkIngest
unfoldable pub handle_chunk_ingest :
    Libraries → Config → Time → String → String → String → Stream → Storage → Storage × Response
unfolding parse_int max_bytes_reader append_to_staging
handle_chunk_ingest lib cfg now id txn seq_text body s = elim (parse_int seq_text) [
  | none ↦ (s, respond 400 (text "invalid seq_id"))
  | some seq ↦
      with_body lib cfg now id txn seq (max_bytes_reader cfg.app.ingest.max_body_size body) s
]

-- The end of handleCommit, from the parser on.
unfoldable pub commit_payload :
    Libraries → Config → Time → Time → String → Payload → Storage → Storage × Response
unfolding update_ingested parse_and_validate
commit_payload lib cfg now later id payload s =
    elim (parse lib cfg (record { content = payload.reader; broken = none }) id) [
      | err e ↦ (s, respond 400 (error_text e))
      | ok families ↦ (
        update_ingested now later id families payload.total_size payload.chunk_count s,
        accepted 200,
      )
    ]

abbrev pub committed :
    Libraries → Config → Time → Time → String → Option Payload → Storage → Storage × Response
committed lib cfg now later id none s = (s, respond 404 (text "Transaction not found or empty"))
committed lib cfg now later id (some payload) s = commit_payload lib cfg now later id payload s

-- handleCommit: `start` is the time at which the transaction is looked up.
unfoldable pub handle_commit :
    Libraries → Config → Time → Time → Time → String → String → Storage → Storage × Response
unfolding retrieve_staging commit_payload
handle_commit lib cfg start now later id txn s =
    let (s', payload) = retrieve_staging start txn s in committed lib cfg now later id payload s'
