-- ===== src/Parser.antt =====
-- internal/parser/parser.go. The decoder of github.com/prometheus/common, xxhash and the BattlEye
-- id of github.com/woozymasta/dzid are parameters.
pub mod Labels
pub mod Unique
pub mod Families
use metricz_exporter.Base.{
  ℕ, ◌+◌, ℤ, Bool, true, false, not, ◌&&◌, if◌then◌else◌, ltb, eqb, length, String, string_key,
  nat_key, str_eq, codes, Option, none, some, List, [], ◌∷◌, ◌++◌, map, ◌≡◌, ◌⊎◌, inl, inr, refl,
}
use metricz_exporter.Base.Map
use metricz_exporter.Base.Map.{Map}
use metricz_exporter.Metrics
use metricz_exporter.Metrics.{LabelPair, Metric, MetricFamily}
use metricz_exporter.Strconv.{parse_int}

-- What the decoder yields from a stream, family by family, up to the end or an error.
pub data Decoded : Type 0 where
  family : MetricFamily → Decoded → Decoded
  eof : Decoded
  failure : String → Decoded

pub data ParseError : Type 0 where
  -- "parsing failed: %w"
  parsing_failed : String → ParseError
  -- instance_id mismatch in metric, expected, got
  mismatch : String → String → String → ParseError

pub data Result {ℓ} (A : Type ℓ) : Type ℓ where
  err : ParseError → Result A
  ok : A → Result A

pub Result-cases {ℓ} :
    {A : Type ℓ} (r : Result A) → ((e : ParseError) × (r ≡ err e)) ⊎ ((a : A) × (r ≡ ok a))
Result-cases (ok a) = inr (a, refl)
Result-cases (err e) = inl (e, refl)

infixl 5 ◌>>=◌
abbrev pub ◌>>=◌ {κ ℓ} : {B : Type κ} {A : Type ℓ} → Result A → (A → Result B) → Result B
err cause >>= next = err cause
ok value >>= next = next value

abbrev pub pair : String → String → LabelPair
pair name value = record { name = name; value = value }

-- The scan for `steam_id` and `buid`: the last steam id, and whether there is a buid.
unfoldable pub scan_identity : List LabelPair → String × Bool → String × Bool
scan_identity [] found = found
scan_identity (lp ∷ labels) (steam_id, has_buid) = scan_identity labels (
    if str_eq lp.name "steam_id"
    then (lp.value, has_buid)
    else if str_eq lp.name "buid"
    then (steam_id, true)
    else (steam_id, has_buid))

-- Identity enrichment; `battleye` is dzid.BattlEyeString.
unfoldable pub add_buid : (ℤ → String) → List LabelPair → List LabelPair
unfolding scan_identity parse_int
add_buid battleye labels =
    let (steam_id, has_buid) = scan_identity labels ("", false) in
    if not (str_eq steam_id "") && not has_buid
    then elim (parse_int steam_id) [
      | none ↦ labels
      | some sid ↦ labels ++ pair "buid" (battleye sid) ∷ []
    ]
    else labels

-- The loop over the labels up to the first `instance_id`, with the append where there is none.
unfoldable pub inject_instance : String → String → Bool → List LabelPair → Result (List LabelPair)
inject_instance name target overwrite [] = ok (pair "instance_id" target ∷ [])
inject_instance name target overwrite (lp ∷ labels) =
    let rest = inject_instance name target overwrite labels in
    if str_eq lp.name "instance_id"
    then if str_eq lp.value target
      then ok (lp ∷ labels)
      else if overwrite
      then ok (record lp { value = target } ∷ labels)
      else err (mismatch name target lp.value)
    else (do injected ← rest; ok (lp ∷ injected))

-- a < b on texts, byte by byte: the order of the code points.
unfoldable pub ltb_codes : List ℕ → List ℕ → Bool
ltb_codes [] [] = false
ltb_codes [] (_ ∷ _) = true
ltb_codes (_ ∷ _) [] = false
ltb_codes (a ∷ as') (b ∷ bs) =
    let rest = ltb_codes as' bs in if ltb a b then true else if ltb b a then false else rest

abbrev pub ltb_name : LabelPair → LabelPair → Bool
ltb_name a b = ltb_codes (codes a.name) (codes b.name)

-- sort.Slice by name. Labels of one name keep their order here; the library leaves it open.
unfoldable pub insert_label : LabelPair → List LabelPair → List LabelPair
unfolding ltb_codes
insert_label lp [] = lp ∷ []
insert_label lp (l ∷ labels) = if ltb_name l lp then l ∷ insert_label lp labels else lp ∷ l ∷ labels

unfoldable pub sort_labels : List LabelPair → List LabelPair
unfolding insert_label
sort_labels [] = []
sort_labels (lp ∷ labels) = insert_label lp (sort_labels labels)

-- One round of the loop over the metrics of a family.
unfoldable pub normalize_metric : (ℤ → String) → String → String → Bool → Metric → Result Metric
unfolding add_buid inject_instance sort_labels
normalize_metric battleye name target overwrite m =
    let labels =
      if str_eq name "dayz_metricz_player_loaded" then add_buid battleye m.label else m.label in
    do
      injected ← inject_instance name target overwrite labels
      ok (record m { label = sort_labels injected })

unfoldable pub normalize_metrics :
    (ℤ → String) → String → String → Bool → List Metric → Result (List Metric)
unfolding normalize_metric
normalize_metrics battleye name target overwrite [] = ok []
normalize_metrics battleye name target overwrite (m ∷ ms) = do
  m' ← normalize_metric battleye name target overwrite m
  ms' ← normalize_metrics battleye name target overwrite ms
  ok (m' ∷ ms')

-- What getLabelHash writes to the digest: each name and value with a zero byte after it.
unfoldable pub label_bytes : List LabelPair → List ℕ
label_bytes [] = []
label_bytes (lp ∷ labels) = codes lp.name ++ 0 ∷ (codes lp.value ++ 0 ∷ label_bytes labels)

abbrev pub get_label_hash : (List ℕ → ℕ) → List LabelPair → ℕ
get_label_hash xxhash labels = xxhash (label_bytes labels)

-- uniqueMetrics: the last metric of each hash.
unfoldable pub unique_metrics : (List ℕ → ℕ) → List Metric → Map ℕ Metric → Map ℕ Metric
unfolding label_bytes Map.set
unique_metrics xxhash [] unique = unique
unique_metrics xxhash (m ∷ ms) unique =
    unique_metrics xxhash ms (Map.set (get_label_hash xxhash m.label) m unique)

-- The slice is rebuilt from the map if there were duplicates.
unfoldable pub deduplicate : (List ℕ → ℕ) → List Metric → List Metric
unfolding unique_metrics
deduplicate xxhash ms =
    let unique = unique_metrics xxhash ms [] in
    if eqb (length unique) (length ms) then ms else map (λ e. e.1) unique

unfoldable pub process_family :
    (List ℕ → ℕ) → (ℤ → String) → String → Bool → MetricFamily → Result MetricFamily
unfolding normalize_metrics deduplicate
process_family xxhash battleye target overwrite mf = do
  metrics ← normalize_metrics battleye mf.name target overwrite mf.metric
  ok (record mf { metric = deduplicate xxhash metrics })

-- The loop over the stream.
unfoldable pub parse_families :
    (List ℕ → ℕ)
    → (ℤ → String)
    → String
    → Bool
    → Decoded
    → Metrics.Families
    → Result Metrics.Families
unfolding process_family Map.set
parse_families xxhash battleye target overwrite eof families = ok families
parse_families xxhash battleye target overwrite (failure message) families =
    err (parsing_failed message)
parse_families xxhash battleye target overwrite (family mf rest) families = do
  mf' ← process_family xxhash battleye target overwrite mf
  parse_families xxhash battleye target overwrite rest (Map.set mf.name mf' families)

unfoldable pub parse_and_validate :
    (List ℕ → ℕ) → (ℤ → String) → Decoded → String → Bool → Result Metrics.Families
unfolding parse_families
parse_and_validate xxhash battleye input target overwrite =
    parse_families xxhash battleye target overwrite input []
