-- ===== src/Server/Ingest/Commit.antt =====
-- An upload in chunks up to its commit: ingest_chunked.go.
use metricz_exporter.Base.{
  subst, sym, ◌∙◌, Bool-cases, ltb_ℤ, ℤ, pos, length, false, String, string_key, int_key, none,
  some, ◌≡◌, inl, inr, refl, arith, ite, ◌≟◌, Option-cases,
}
use metricz_exporter.Base.Map
use metricz_exporter.Storage.{Time, Bytes, StagingItem, Storage, update_ingested, put_state}
use metricz_exporter.Storage.Staging.{
  after, Payload, payload_of, append_to_staging, retrieve_staging,
}
use metricz_exporter.Storage.Staging.Delivery.{Holds, append_to_staging-Holds}
use metricz_exporter.Storage.Staging.Retrieval.{retrieve_staging-eq-some, get-retrieve_staging}
use metricz_exporter.Parser.{Result-cases}
use metricz_exporter.Config.{Config}
use metricz_exporter.Strconv.{parse_int}
use metricz_exporter.Server.{
  Stream, Response, Libraries, text, respond, byte_limit, max_bytes_reader,
}
use metricz_exporter.Server.Ingest.{
  parse, staged_response, handle_chunk_ingest, handle_commit, commit_payload,
}

commit_payload-staging :
    (lib : Libraries) (cfg : Config) (now later : Time) (id : String) (payload : Payload)
    (s : Storage)
    → (commit_payload lib cfg now later id payload s).0.staging_store ≡ s.staging_store
unfolding commit_payload update_ingested put_state
commit_payload-staging lib cfg now later id payload s =
    let stream : Stream = record { content = payload.reader; broken = none } in
    elim (Result-cases (parse lib cfg stream id)) [
      | inl (e, h) ↦ rw (h, commit_payload) refl
      | inr (families, h) ↦ rw (h, commit_payload) refl
    ]

retrieve_staging-missing :
    (now : Time) (txn : String) (s : Storage)
    → Map.get txn s.staging_store ≡ none
    → retrieve_staging now txn s ≡ (s, none)
unfolding retrieve_staging
retrieve_staging-missing now txn s h = rw (h, retrieve_staging) refl

module _ (lib : Libraries) (cfg : Config) (start now later : Time) (id txn : String)
    (s : Storage) where
  handle_commit-staging :
      (handle_commit lib cfg start now later id txn s).0.staging_store
      ≡ (retrieve_staging start txn s).0.staging_store
  unfolding handle_commit
  handle_commit-staging = elim (Option-cases (retrieve_staging start txn s).1) [
    | inl h ↦ rw (h, handle_commit) refl
    | inr (payload, h) ↦
        rw (h, handle_commit)
          (commit_payload-staging lib cfg now later id payload (retrieve_staging start txn s).0)
  ]

  -- On every branch, the parser's errors included, a commit removes its transaction from the
  -- staging area and leaves the others as they are.
  pub get-handle_commit :
      (j : String)
      → Map.get j (handle_commit lib cfg start now later id txn s).0.staging_store
        ≡ ite (txn ≟ j) none (Map.get j s.staging_store)
  get-handle_commit j = rw handle_commit-staging (get-retrieve_staging start txn s j)

  handle_commit-missing :
      Map.get txn s.staging_store ≡ none
      → handle_commit lib cfg start now later id txn s
        ≡ (s, respond 404 (text "Transaction not found or empty"))
  unfolding handle_commit
  handle_commit-missing h = rw (retrieve_staging-missing start txn s h, handle_commit) refl

-- After a commit, whatever its response was, a second commit of the same transaction is answered
-- with 404 and changes no state.
pub handle_commit_twice :
    (lib : Libraries) (cfg : Config) (start now later start' now' later' : Time)
    (id id' txn : String) (s : Storage)
    → let t = (handle_commit lib cfg start now later id txn s).0 in
      handle_commit lib cfg start' now' later' id' txn t
      ≡ (t, respond 404 (text "Transaction not found or empty"))
handle_commit_twice lib cfg start now later start' now' later' id id' txn s =
    let t = (handle_commit lib cfg start now later id txn s).0 in
    handle_commit-missing lib cfg start' now' later' id' txn t
      (ground (arith, get-handle_commit lib cfg start now later id txn s txn))

-- The chunk is staged: its transaction holds the body under the chunk's number.
pub record Uploaded (txn seq_text : String) (body : Bytes) (s' : Storage) : Type 0 where
  pub seq : ℤ
  pub item : StagingItem
  pub number : parse_int seq_text ≡ some seq
  pub found : Map.get txn s'.staging_store ≡ some item
  pub chunk : Map.get seq item.chunks ≡ some body

pub handle_commit-live :
    (lib : Libraries) (cfg : Config) (start now later : Time) (id txn : String) (s : Storage)
    (payload : Payload)
    → (retrieve_staging start txn s).1 ≡ some payload
    → handle_commit lib cfg start now later id txn s
      ≡ commit_payload lib cfg now later id payload (retrieve_staging start txn s).0
unfolding handle_commit
handle_commit-live lib cfg start now later id txn s payload h = rw (h, handle_commit) refl

Holds-Uploaded :
    (now : Time) (txn seq_text : String) (seq : ℤ) (body : Bytes) (s s' : Storage)
    → parse_int seq_text ≡ some seq
    → Holds now txn seq body s s'
    → Uploaded txn seq_text body s'
Holds-Uploaded now txn seq_text seq body s s' number h = record {
  seq = seq;
  item = h.item;
  number = number;
  found = h.found;
  chunk = ground (arith, h.chunk seq);
}

some-injective {ℓ} : {A : Type ℓ} {a b : A} → some a ≡ some b → a ≡ b
some-injective e = cc

absurd_of {ℓ} : {A : Type ℓ} → ⊥ → A
absurd_of e = elim e [ ]

module _ (lib : Libraries) (cfg : Config) (now : Time) (id txn seq_text : String) (body : Stream)
    (s : Storage) where
  pub handle_chunk_ingest_cases {ℓ} :
      (P : Storage × Response → Type ℓ)
      → P (s, respond 400 (text "invalid seq_id"))
      → P (s, respond 500 (text "failed to read body"))
      → ((seq : ℤ)
          → parse_int seq_text ≡ some seq
          → ltb_ℤ (byte_limit cfg.app.ingest.max_body_size) (pos (length body.content)) ≡ false
          → let r =
              append_to_staging lib.float now txn id seq body.content cfg.app.ingest.transaction_ttl
                s in
            P (r.0, staged_response r.1))
      → P (handle_chunk_ingest lib cfg now id txn seq_text body s)
  unfolding handle_chunk_ingest max_bytes_reader
  handle_chunk_ingest_cases P bad broken staged = elim (Option-cases (parse_int seq_text)) [
    | inl h ↦ rw (h, handle_chunk_ingest) bad
    | inr (seq, h) ↦
        elim (Bool-cases
          (ltb_ℤ (byte_limit cfg.app.ingest.max_body_size) (pos (length body.content)))) [
            | inl over ↦ rw (h, handle_chunk_ingest) (rw over broken)
            | inr fits ↦ elim (Option-cases body.broken) [
              | inl whole ↦ rw (h, handle_chunk_ingest) (rw fits (rw whole (staged seq h fits)))
              | inr (cause, e) ↦ rw (h, handle_chunk_ingest) (rw fits (rw e broken))
            ]
          ]
  ]

  -- If a chunk is answered with 202, its sequence text is a number, and the storage holds its
  -- transaction, with the whole body under that number.
  pub handle_chunk_ingest-Uploaded :
      (handle_chunk_ingest lib cfg now id txn seq_text body s).1.status ≡ 202
      → Uploaded txn seq_text body.content
          (handle_chunk_ingest lib cfg now id txn seq_text body s).0
  handle_chunk_ingest-Uploaded =
      handle_chunk_ingest_cases (λ r. r.1.status ≡ 202 → Uploaded txn seq_text body.content r.0)
        (λ e. absurd_of (omega (arith, e))) (λ e. absurd_of (omega (arith, e)))
        λ seq number fits.
          let ttl = cfg.app.ingest.transaction_ttl in
          let r = append_to_staging lib.float now txn id seq body.content ttl s in
          elim (Option-cases r.1) [
            | inl h ↦ λ e.
                Holds-Uploaded now txn seq_text seq body.content s r.0 number
                  (append_to_staging-Holds lib.float now txn id seq body.content ttl s h)
            | inr (refusal, h) ↦ rw h (λ e. absurd_of (omega (arith, e)))
          ]

  -- After a chunk that was answered with 202, a commit by any instance, at a time that is not past
  -- the end of the transaction that the storage holds, finds the transaction, with the chunk's
  -- body under the number that the request names, and is the commit of all the transaction's
  -- chunks.
  pub handle_commit-handle_chunk_ingest :
      (handle_chunk_ingest lib cfg now id txn seq_text body s).1.status ≡ 202
      → let s' = (handle_chunk_ingest lib cfg now id txn seq_text body s).0 in
        (item : StagingItem)
        → Map.get txn s'.staging_store ≡ some item
        → (start now' later : Time) (id' : String) → after start item.expires_at ≡ false
        → ((seq : ℤ) × (parse_int seq_text ≡ some seq)
            × (Map.get seq item.chunks ≡ some body.content))
          × (handle_commit lib cfg start now' later id' txn s'
              ≡ commit_payload lib cfg now' later id'
                  (payload_of item.chunks)
                  (retrieve_staging start txn s').0)
  handle_commit-handle_chunk_ingest h item found start now' later id' live =
      let s' = (handle_chunk_ingest lib cfg now id txn seq_text body s).0 in
      let up = handle_chunk_ingest-Uploaded h in
      let same : up.item ≡ item = some-injective (sym up.found ∙ found) in
      let chunk =
        subst (λ (i : StagingItem). Map.get up.seq i.chunks ≡ some body.content) same up.chunk in
      (
        (up.seq, up.number, chunk),
        handle_commit-live lib cfg start now' later id' txn s' (payload_of item.chunks)
            (retrieve_staging-eq-some start txn s' item up.seq body.content found live chunk),
      )
