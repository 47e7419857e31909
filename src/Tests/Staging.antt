-- ===== src/Tests/Staging.antt =====
-- The storage's theorems at concrete stores.
use metricz_exporter.Base.{
  List, ◌+◌, ◌^◌, ◌<◌, ◌≡◌, refl, ℤ, pos, ltb, length, if◌then◌else◌, string_key, int_key, Option,
  none, some, [], ◌∷◌, arith, ap, sym, ◌∙◌, pos_part, String-discrete, ℤ-discrete, ℕ_discrete,
  add64, sub64,
}
use metricz_exporter.Base.Map
use metricz_exporter.Base.Map.{Map}
use metricz_exporter.Storage.{Bytes, Storage, StorageError, staging_full, new, get_or_create_state}
use metricz_exporter.Storage.Staging.{lacks_newline, payload_of, append_to_staging}
use metricz_exporter.Storage.Staging.Counts.{staged_bytes}
use metricz_exporter.Storage.Staging.Delivery.{replaced_bytes, append_to_staging-admission}
use metricz_exporter.Storage.Staging.Order.{contains, is_some}
use metricz_exporter.Storage.Staging.Pieces.{numbered, joined, payload_of-joined}
use metricz_exporter.Storage.Staging.Payloads.{lines_of, payload_of_lem}
use metricz_exporter.Storage.Gc.{cleanup_staging}
use metricz_exporter.Storage.Gc.Expiry.{expired_total, expired_of, expired_total-cleanup_staging}
use metricz_exporter.Storage.History.{appends, collects, start, next, IsSound, reachable-IsSound}
use metricz_exporter.Tests.{floats, before, one_chunk, staged, staged-IsSound, item_of_staged}

abbrev swept_store : Storage
swept_store = (cleanup_staging (pos 106) staged).0

reachable-IsSound_example : IsSound 10 swept_store
reachable-IsSound_example = reachable-IsSound 10 5 (omega arith) (
    next
      (next start (appends before floats (pos 5) "t" "a" (pos 1) one_chunk (pos 100) (omega arith)))
      (collects staged (pos 106)))

-- The chunk 1 is replaced by nine bytes: 2 + 9 is at most 10 + 2.
abbrev nine : Bytes
nine = 49 ∷ 50 ∷ 51 ∷ 52 ∷ 53 ∷ 54 ∷ 55 ∷ 56 ∷ 10 ∷ []

abbrev replaced : Storage × Option StorageError
replaced = append_to_staging floats (pos 6) "t" "a" (pos 1) nine (pos 100) staged

append_to_staging-admission_example : replaced.1 ≡ (
    if ltb
      (10 + replaced_bytes (pos 6) (pos 1) (Map.get "t" staged.staging_store))
      (staged_bytes staged + length nine)
    then some staging_full
    else none)
append_to_staging-admission_example =
    append_to_staging-admission staged-IsSound.accounted floats (pos 6) "t" "a" (pos 1) nine
      (pos 100) (omega arith)

accepted : replaced.1 ≡ none
unfolding append_to_staging new String-discrete ℤ-discrete ℕ_discrete add64 sub64
accepted = refl

abbrev two_chunks : Map ℤ Bytes
two_chunks = (pos 10, 100 ∷ []) ∷ (pos 9, 99 ∷ 10 ∷ []) ∷ []

-- Number 9 comes before number 10, and the chunk without a newline gets one.
payload_of-two_chunks :
    payload_of two_chunks
    ≡ record { reader = 99 ∷ 10 ∷ 100 ∷ 10 ∷ []; chunk_count = pos 2; total_size = pos 4 }
unfolding payload_of ℤ-discrete ℕ_discrete add64
payload_of-two_chunks = refl

abbrev nine_ten : List ℤ
nine_ten = pos 9 ∷ pos 10 ∷ []

short : length (lines_of two_chunks nine_ten) < 2 ^ 63
unfolding lines_of payload_of ℤ-discrete ℕ_discrete
short = omega arith

contains-nine_ten : (k : ℤ) → contains k nine_ten ≡ is_some (Map.get k two_chunks)
unfolding contains Map.get
contains-nine_ten k = ground arith

distinct : (a b : Bytes) → Map.IsDistinct ((pos 10, a) ∷ (pos 9, b) ∷ [])
unfolding Map.get ℤ-discrete ℕ_discrete
distinct a b = (refl, (refl, tt))

payload_of_lem_example : payload_of two_chunks ≡ record {
  reader = lines_of two_chunks nine_ten;
  chunk_count = pos 2;
  total_size = pos (length (lines_of two_chunks nine_ten));
}
payload_of_lem_example =
    payload_of_lem two_chunks nine_ten (distinct (100 ∷ []) (99 ∷ 10 ∷ [])) ((refl, tt), (tt, tt))
      contains-nine_ten short

found : Map.get "t" staged.staging_store ≡ some item_of_staged
unfolding append_to_staging new String-discrete ℤ-discrete ℕ_discrete add64 sub64
found = refl

chunk_found : Map.get (pos 1) item_of_staged.chunks ≡ some one_chunk
unfolding Map.get ℤ-discrete ℕ_discrete
chunk_found = refl

not_counted : expired_total "a" staged ≡ pos 0
unfolding append_to_staging new get_or_create_state String-discrete ℤ-discrete ℕ_discrete add64
    sub64
not_counted = refl

few_expired : 0 + expired_of (pos 106) "a" staged.staging_store < 2 ^ 63
unfolding append_to_staging new expired_of String-discrete ℤ-discrete ℕ_discrete add64 sub64
few_expired = omega arith

expired_total-cleanup_staging_example :
    expired_total "a" swept_store ≡ pos (0 + expired_of (pos 106) "a" staged.staging_store)
expired_total-cleanup_staging_example =
    expired_total-cleanup_staging (pos 106) "a" staged 0 not_counted few_expired

-- Two lines, of which the second was staged first.
abbrev second_first : Map ℤ Bytes
second_first = (pos 1, 98 ∷ 10 ∷ []) ∷ (pos 0, 97 ∷ 10 ∷ []) ∷ []

abbrev two_lines : List Bytes
two_lines = (97 ∷ 10 ∷ []) ∷ (98 ∷ 10 ∷ []) ∷ []

not_both : (k : ℤ) → pos 1 ≡ k → pos 0 ≡ k → ⊥
not_both k a b = let e : 0 ≡ 1 = ap pos_part (b ∙ sym a) in omega (arith, e)

get-second_first : (k : ℤ) → Map.get k second_first ≡ Map.get k (numbered 0 two_lines)
unfolding Map.get numbered
get-second_first k = ground (arith, not_both k)

IsDistinct-second_first : Map.IsDistinct second_first
unfolding Map.get ℤ-discrete ℕ_discrete
IsDistinct-second_first = (refl, (refl, tt))

payload_of-joined_example : (payload_of second_first).reader ≡ joined two_lines
unfolding lacks_newline joined
payload_of-joined_example =
    payload_of-joined two_lines second_first (refl, (refl, tt)) (omega arith)
      IsDistinct-second_first get-second_first
