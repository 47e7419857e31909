-- ===== src/Tests/Histories.antt =====
-- Uploads at a concrete history of the storage's calls.
use metricz_exporter.Base.{
  ◌+ℤ◌, ◌≡◌, refl, ℤ, pos, ◌⊎◌, string_key, int_key, none, some, [], ◌∷◌, arith, String-discrete,
  ℤ-discrete, ℕ_discrete, add64, sub64, str_ne,
}
use metricz_exporter.Base.Map
use metricz_exporter.Storage.{Storage, staging_full, new, update_polled}
use metricz_exporter.Storage.Gc.{cleanup_staging}
use metricz_exporter.Storage.Staging.{
  append_to_staging, retrieve_staging, payload_of, effective_ttl,
}
use metricz_exporter.Storage.Staging.Spec.{accept, refuse}
use metricz_exporter.Storage.Staging.View.{view}
use metricz_exporter.Storage.Staging.Refinement.{append_to_staging-Refines}
use metricz_exporter.Storage.History.{Reach, appends, polls, collects, start, next, new-IsSound}
use metricz_exporter.Storage.Uploads.{received, Spared}
use metricz_exporter.Storage.Uploads.Simulation.{empty_area, replay, view-replay-new}
use metricz_exporter.Strconv.{parse_int}
use metricz_exporter.Server.Ingest.{handle_chunk_ingest, handle_commit, commit_payload}
use metricz_exporter.Server.Ingest.Whole.{handle_commit-received}
use metricz_exporter.Tests.{
  floats, libraries, config, before, whole, one_chunk, staged, staged-IsSound,
}

-- The upload of "t" has expired.
abbrev swept : Storage
swept = (cleanup_staging (pos 106) staged).0

append_to_staging-Refines_example :
    let r = append_to_staging floats (pos 6) "u" "a" (pos 1) one_chunk (pos 100) staged in
    ((r.1 ≡ some staging_full) × (view r.0 ≡ refuse (pos 6) "u" (view staged)))
    ⊎ ((r.1 ≡ none)
        × (view r.0
            ≡ accept
                (pos 6)
                (effective_ttl floats staged "a" (pos 100))
                "u"
                "a"
                (pos 1)
                one_chunk
                (view staged)))
append_to_staging-Refines_example =
    append_to_staging-Refines floats (pos 6) "u" "a" (pos 1) one_chunk (pos 100) staged
      (omega arith) staged-IsSound.accounted

-- Instance "a" begins transaction "t"; then "b" begins "u", "a" sends a second chunk, the garbage
-- collector ticks, and "a" is polled.
abbrev pub begun : Storage
begun = (handle_chunk_ingest libraries config (pos 5) "a" "t" "1" (whole one_chunk) before).0

abbrev pub beside : Storage
beside = (append_to_staging floats (pos 6) "u" "b" (pos 1) (120 ∷ []) (pos 100) begun).0

abbrev pub joined : Storage
joined = (append_to_staging floats (pos 7) "t" "a" (pos 0) (99 ∷ []) (pos 100) beside).0

abbrev pub ticked : Storage
ticked = (cleanup_staging (pos 8) joined).0

abbrev pub ended : Storage
ended = update_polled "a" [] ticked

abbrev pub history : Reach 10 begun ended
history =
    next
      (next
        (next
          (next start
            (appends begun floats (pos 6) "u" "b" (pos 1) (120 ∷ []) (pos 100) (omega arith)))
          (appends beside floats (pos 7) "t" "a" (pos 0) (99 ∷ []) (pos 100) (omega arith)))
        (collects joined (pos 8)))
      (polls ticked "a" [])

received-history :
    payload_of (received "t" history ((pos 1, one_chunk) ∷ []))
    ≡ record { reader = 99 ∷ 10 ∷ 97 ∷ 98 ∷ 10 ∷ []; chunk_count = pos 2; total_size = pos 5 }
unfolding received append_to_staging handle_chunk_ingest payload_of new String-discrete ℤ-discrete
    ℕ_discrete add64 sub64
received-history = refl

pub Spared-history : Spared "t" "a" (pos 105) history
unfolding String-discrete ℤ-discrete ℕ_discrete
Spared-history = ((((tt, str_ne "b" "a" refl), refl), refl), tt)

pub begins :
    (handle_chunk_ingest libraries config (pos 5) "a" "t" "1" (whole one_chunk) before).1.status
    ≡ 202
unfolding handle_chunk_ingest new String-discrete ℤ-discrete ℕ_discrete add64 sub64
begins = refl

handle_commit-received_example :
    (seq : ℤ) × (parse_int "1" ≡ some seq)
    × (handle_commit libraries config (pos 105) (pos 106) (pos 107) "a" "t" ended
        ≡ commit_payload libraries config
            (pos 106)
            (pos 107)
            "a"
            (payload_of (received "t" history ((seq, one_chunk) ∷ [])))
            (retrieve_staging (pos 105) "t" ended).0)
unfolding new effective_ttl Map.get ◌+ℤ◌
handle_commit-received_example =
    handle_commit-received libraries config {limit = 10} {max_body = 10} (omega arith) refl (pos 5)
      "a" "t" "1" (whole one_chunk) before (new-IsSound 10 (omega arith)) refl begins history
      Spared-history (pos 105) (pos 106) (pos 107) "a" refl

-- The upload of "t" begins, and expires.
abbrev expiry : Reach 10 before swept
expiry =
    next
      (next start (appends before floats (pos 5) "t" "a" (pos 1) one_chunk (pos 100) (omega arith)))
      (collects staged (pos 106))

view-replay-new_example : view swept ≡ replay expiry empty_area
view-replay-new_example = view-replay-new 10 10 (omega arith) expiry
