-- ===== src/Storage/Staging/Payloads.antt =====
-- What RetrieveStaging makes of a transaction's chunks: staging.go.
use native.Mathlib.Nat.{add-zero, add_assoc}
use mathlib.Core.List.{append-nil, append_assoc}
use metricz_exporter.Base.{
  ℕ, suc, ◌+◌, ◌^◌, ◌<◌, ◌≡◌, refl, ap, ◌∙◌, ℤ, pos, add64_eq, length, length-append, length-map,
  if◌then◌else◌, int_key, List, [], ◌∷◌, ◌++◌, arith,
}
use metricz_exporter.Base.Map
use metricz_exporter.Base.Map.{Map}
use metricz_exporter.Storage.{Bytes}
use metricz_exporter.Storage.Staging.{
  sort_ints, insert_sorted, newline, lacks_newline, chunk_at, append_chunk, join_chunks, payload_of,
}
use metricz_exporter.Storage.Staging.Order.{
  contains, is_some, Increasing, sort_ints-keys, keys, sorted_keys_unique,
}

-- A chunk with its closing newline.
abbrev pub closed : Bytes → Bytes
closed bytes = if lacks_newline bytes then bytes ++ newline ∷ [] else bytes

-- The chunks one after the other.
unfoldable pub lines_of : Map ℤ Bytes → List ℤ → Bytes
lines_of chunks [] = []
lines_of chunks (k ∷ ks) = closed (chunk_at chunks k) ++ lines_of chunks ks

append_chunk_lem :
    (bytes reader : Bytes) (n : ℕ)
    → n + length (closed bytes) < 2 ^ 63
    → append_chunk bytes (reader, pos n) ≡ (reader ++ closed bytes, pos (n + length (closed bytes)))
unfolding append_chunk
append_chunk_lem bytes reader n h = ground (
  arith,
  length-append bytes (newline ∷ []),
  add64_eq n (length bytes) (n + length bytes),
  add64_eq (n + length bytes) 1 (n + length bytes + 1),
)

join_chunks_lem :
    (chunks : Map ℤ Bytes) (ks : List ℤ) (reader : Bytes) (n : ℕ)
    → n + length (lines_of chunks ks) < 2 ^ 63
    → join_chunks chunks ks (reader, pos n)
      ≡ (reader ++ lines_of chunks ks, pos (n + length (lines_of chunks ks)))
unfolding join_chunks lines_of
join_chunks_lem chunks [] reader n h = cc (append-nil reader, add-zero n)
join_chunks_lem chunks (k ∷ ks) reader n h =
    let line = closed (chunk_at chunks k) in
    let rest = lines_of chunks ks in
    let both = length-append line rest in
    rw (append_chunk_lem (chunk_at chunks k) reader n (omega (arith, both))) (
      join_chunks_lem chunks ks (reader ++ line) (n + length line) (omega (arith, both))
      ∙ cc (append_assoc reader line rest, both, add_assoc n (length line) (length rest)))

-- The keys of the chunks in order.
abbrev pub ordered : Map ℤ Bytes → List ℤ
ordered chunks = sort_ints (keys chunks)

length-insert_sorted : (k : ℤ) (ks : List ℤ) → length (insert_sorted k ks) ≡ suc (length ks)
unfolding insert_sorted
length-insert_sorted k [] = refl
length-insert_sorted k (j ∷ ks) = ground (arith, length-insert_sorted k ks)

length-sort_ints : (ks : List ℤ) → length (sort_ints ks) ≡ length ks
unfolding sort_ints
length-sort_ints [] = refl
length-sort_ints (k ∷ ks) = length-insert_sorted k (sort_ints ks) ∙ ap suc (length-sort_ints ks)

-- As many chunks as the transaction holds.
length-ordered : (chunks : Map ℤ Bytes) → length (ordered chunks) ≡ length chunks
length-ordered chunks = length-sort_ints (keys chunks) ∙ length-map (λ e. e.0) chunks

payload_of-ordered :
    (chunks : Map ℤ Bytes)
    → length (lines_of chunks (ordered chunks)) < 2 ^ 63
    → payload_of chunks ≡ record {
      reader = lines_of chunks (ordered chunks);
      chunk_count = pos (length (ordered chunks));
      total_size = pos (length (lines_of chunks (ordered chunks)));
    }
unfolding payload_of
payload_of-ordered chunks fits =
    ground (arith, join_chunks_lem chunks (ordered chunks) [] 0 (omega arith))

-- For a transaction's chunks, without double keys, and the increasing list of their numbers: if
-- the chunks in that order, each non-empty one ended by a newline, fit in an int64 together, they
-- are what a commit's stream holds; the reported size is the stream's length and the reported
-- count the number of chunks.
pub payload_of_lem :
    (chunks : Map ℤ Bytes) (ks : List ℤ)
    → Map.IsDistinct chunks
    → Increasing ks
    → ((k : ℤ) → contains k ks ≡ is_some (Map.get k chunks))
    → length (lines_of chunks ks) < 2 ^ 63
    → payload_of chunks ≡ record {
      reader = lines_of chunks ks;
      chunk_count = pos (length chunks);
      total_size = pos (length (lines_of chunks ks));
    }
payload_of_lem chunks ks d inc same fits =
    let e = sort_ints-keys chunks ks d inc same in
    rw (payload_of-ordered chunks (rw e at fits), length-ordered chunks, e) refl

chunk_at-same :
    (m n : Map ℤ Bytes) (k : ℤ) → Map.get k m ≡ Map.get k n → chunk_at m k ≡ chunk_at n k
unfolding chunk_at
chunk_at-same m n k same = rw (same, chunk_at)

join_chunks-same :
    (m n : Map ℤ Bytes) (ks : List ℤ) (acc : Bytes × ℤ)
    → ((k : ℤ) → Map.get k m ≡ Map.get k n)
    → join_chunks m ks acc ≡ join_chunks n ks acc
unfolding join_chunks
join_chunks-same m n [] acc same = refl
join_chunks-same m n (k ∷ ks) acc same =
    rw (chunk_at-same m n k (same k))
      (join_chunks-same m n ks (append_chunk (chunk_at n k) acc) same)

-- Two maps of chunks without double keys that hold the same chunk under each number yield the same
-- payload: the order in which the chunks came does not matter.
pub payload_of_unique :
    (m n : Map ℤ Bytes)
    → Map.IsDistinct m
    → Map.IsDistinct n
    → ((k : ℤ) → Map.get k m ≡ Map.get k n)
    → payload_of m ≡ payload_of n
unfolding payload_of
payload_of_unique m n d e same =
    rw (sorted_keys_unique m n d e same, join_chunks-same m n (ordered n) ([], pos 0) same)
