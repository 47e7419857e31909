-- ===== src/Storage/Staging/Pieces.antt =====
-- A text that is sent in pieces: the chunks of staging.go.
use metricz_exporter.Base.{
  ℕ, suc, ◌^◌, ◌<◌, ◌≡◌, refl, ap, ◌∙◌, ℤ, pos, ltb_ℤ, true, false, length, int_key, none, some,
  List, [], ◌∷◌, ◌++◌, All, arith,
}
use metricz_exporter.Base.Map
use metricz_exporter.Base.Map.{Map, Within, Within-head, Within-tail}
use metricz_exporter.Storage.{Bytes}
use metricz_exporter.Storage.Staging.{lacks_newline, chunk_at, payload_of, Payload}
use metricz_exporter.Storage.Staging.Order.{Increasing, keys, contains-keys}
use metricz_exporter.Storage.Staging.Payloads.{lines_of, payload_of_lem, payload_of_unique}

-- The pieces, numbered from n on.
unfoldable pub numbered : ℕ → List Bytes → Map ℤ Bytes
numbered n [] = []
numbered n (p ∷ ps) = (pos n, p) ∷ numbered (suc n) ps

unfoldable pub joined : List Bytes → Bytes
joined [] = []
joined (p ∷ ps) = p ++ joined ps

-- No piece ends in the middle of a line.
abbrev pub IsWhole : Bytes → Type 0
IsWhole p = lacks_newline p ≡ false

keys-above :
    (n k : ℕ) (ps : List Bytes)
    → ltb_ℤ (pos n) (pos k) ≡ true
    → All (λ j. ltb_ℤ (pos n) j ≡ true) (keys (numbered k ps))
unfolding numbered
keys-above n k [] h = tt
keys-above n k (p ∷ ps) h = (h, keys-above n (suc k) ps (ground arith))

numbered-Increasing : (n : ℕ) (ps : List Bytes) → Increasing (keys (numbered n ps))
unfolding numbered
numbered-Increasing n [] = tt
numbered-Increasing n (p ∷ ps) =
    (keys-above n (suc n) ps (ground arith), numbered-Increasing (suc n) ps)

get-numbered : (n k : ℕ) (ps : List Bytes) → n < k → Map.get (pos n) (numbered k ps) ≡ none
unfolding numbered Map.get
get-numbered n k [] h = refl
get-numbered n k (p ∷ ps) h = ground (arith, get-numbered n (suc k) ps)

numbered-IsDistinct : (n : ℕ) (ps : List Bytes) → Map.IsDistinct (numbered n ps)
unfolding numbered
numbered-IsDistinct n [] = tt
numbered-IsDistinct n (p ∷ ps) =
    (get-numbered n (suc n) ps (omega arith), numbered-IsDistinct (suc n) ps)

chunk_at-found :
    (chunks : Map ℤ Bytes) (k : ℤ) (p : Bytes) → Map.get k chunks ≡ some p → chunk_at chunks k ≡ p
unfolding chunk_at
chunk_at-found chunks k p h = rw (h, chunk_at) refl

lines_of-numbered :
    (n : ℕ) (ps : List Bytes) (chunks : Map ℤ Bytes)
    → All IsWhole ps
    → Within (numbered n ps) chunks
    → lines_of chunks (keys (numbered n ps)) ≡ joined ps
unfolding numbered lines_of joined
lines_of-numbered n [] chunks whole within = refl
lines_of-numbered n (p ∷ ps) chunks whole within =
    rw
      (
        chunk_at-found chunks (pos n) p (Within-head (pos n) p (numbered (suc n) ps) chunks within),
        whole.0,
      )
      (ap (λ rest. p ++ rest)
        (lines_of-numbered (suc n) ps chunks whole.1 (
          Within-tail (pos n) p (numbered (suc n) ps) chunks
            (get-numbered n (suc n) ps (omega arith)) within)))

-- A text that is split into numbered pieces, none of which ends in the middle of a line, comes
-- back: for any map without double keys that holds each piece under its number and nothing else,
-- whatever the order of its entries, if the text's length fits in an int64, a commit's stream is
-- the text.
pub payload_of-joined :
    (pieces : List Bytes) (m : Map ℤ Bytes)
    → All IsWhole pieces
    → length (joined pieces) < 2 ^ 63
    → Map.IsDistinct m
    → ((k : ℤ) → Map.get k m ≡ Map.get k (numbered 0 pieces))
    → (payload_of m).reader ≡ joined pieces
payload_of-joined pieces m whole fits d same =
    let n = numbered 0 pieces in
    let lines : lines_of n (keys n) ≡ joined pieces =
      lines_of-numbered 0 pieces n whole (λ j v e. e) in
    ap (λ (p : Payload). p.reader)
      (payload_of_unique m n d (numbered-IsDistinct 0 pieces) same
        ∙ payload_of_lem n (keys n) (numbered-IsDistinct 0 pieces) (numbered-Increasing 0 pieces)
            (λ k. contains-keys k n) (rw lines fits))
    ∙ lines
