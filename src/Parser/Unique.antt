-- ===== src/Parser/Unique.antt =====
-- The deduplication of a family's metrics by label hash: parser.go.
use metricz_exporter.Base.{
  ℕ, ◌+◌, ◌≤◌, ◌≡◌, refl, ap, ◌∙◌, length, eqb, Bool-cases, ◌≟◌, ite, nat_key, inl, inr, Option,
  none, some, List, [], ◌∷◌, map, All, arith,
}
use metricz_exporter.Base.Map
use metricz_exporter.Base.Map.{Map, get-set, set-IsDistinct}
use metricz_exporter.Metrics.{Metric}
use metricz_exporter.Parser.{get_label_hash, unique_metrics, deduplicate}

module _ (xxhash : List ℕ → ℕ) where
  abbrev pub hash_of : Metric → ℕ
  hash_of m = get_label_hash xxhash m.label

  -- The last metric with a hash; `found` if there is none.
  unfoldable pub last_with : ℕ → List Metric → Option Metric → Option Metric
  last_with h [] found = found
  last_with h (m ∷ ms) found = last_with h ms (ite (hash_of m ≟ h) (some m) found)

  -- The first one.
  unfoldable pub first_with : ℕ → List Metric → Option Metric
  first_with h [] = none
  first_with h (m ∷ ms) = ite (hash_of m ≟ h) (some m) (first_with h ms)

  -- No two metrics have the same hash.
  abbrev pub IsUnique : List Metric → Type 0
  IsUnique [] = Unit {0}
  IsUnique (m ∷ ms) = (first_with (hash_of m) ms ≡ none) × IsUnique ms

  -- Each entry stands under its own hash.
  abbrev Indexed : Map ℕ Metric → Type 0
  Indexed [] = Unit {0}
  Indexed ((h, m) ∷ unique) = (hash_of m ≡ h) × Indexed unique

  get-unique_metrics :
      (h : ℕ) (ms : List Metric) (unique : Map ℕ Metric)
      → Map.get h (unique_metrics xxhash ms unique) ≡ last_with h ms (Map.get h unique)
  unfolding unique_metrics last_with
  get-unique_metrics h [] unique = refl
  get-unique_metrics h (m ∷ ms) unique =
      get-unique_metrics h ms _ ∙ ap (last_with h ms) (get-set (hash_of m) h m unique)

  Indexed-set :
      (m : Metric) (unique : Map ℕ Metric) → Indexed unique → Indexed (Map.set (hash_of m) m unique)
  unfolding Map.set
  Indexed-set m [] i = (refl, tt)
  Indexed-set m ((h, n) ∷ unique) i = ground (arith, Indexed-set m unique i.1)

  unique_metrics-Indexed :
      (ms : List Metric) (unique : Map ℕ Metric)
      → Indexed unique
      → Indexed (unique_metrics xxhash ms unique)
  unfolding unique_metrics
  unique_metrics-Indexed [] unique i = i
  unique_metrics-Indexed (m ∷ ms) unique i = unique_metrics-Indexed ms _ (Indexed-set m unique i)

  unique_metrics-IsDistinct :
      (ms : List Metric) (unique : Map ℕ Metric)
      → Map.IsDistinct unique
      → Map.IsDistinct (unique_metrics xxhash ms unique)
  unfolding unique_metrics
  unique_metrics-IsDistinct [] unique d = d
  unique_metrics-IsDistinct (m ∷ ms) unique d =
      unique_metrics-IsDistinct ms _ (set-IsDistinct (hash_of m) m unique d)

  abbrev values : Map ℕ Metric → List Metric
  values = map (λ e. e.1)

  first_with-values :
      (h : ℕ) (unique : Map ℕ Metric)
      → Indexed unique
      → first_with h (values unique) ≡ Map.get h unique
  unfolding first_with Map.get
  first_with-values h [] i = refl
  first_with-values h ((k, m) ∷ unique) i = ground (arith, first_with-values h unique i.1)

  values-IsUnique :
      (unique : Map ℕ Metric) → Indexed unique → Map.IsDistinct unique → IsUnique (values unique)
  values-IsUnique [] i d = tt
  values-IsUnique ((k, m) ∷ unique) i d = (
    first_with-values (hash_of m) unique i.1 ∙ ap (λ h. Map.get h unique) i.0 ∙ d.0,
    values-IsUnique unique i.1 d.1,
  )

  length-set :
      (h : ℕ) (m : Metric) (unique : Map ℕ Metric)
      → length (Map.set h m unique)
        ≡ elim (Map.get h unique) [ none ↦ length unique + 1 | some _ ↦ length unique ]
  unfolding Map.set Map.get
  length-set h m [] = refl
  length-set h m ((k, n) ∷ unique) = ground (arith, length-set h m unique)

  length-unique_metrics-le :
      (ms : List Metric) (unique : Map ℕ Metric)
      → length (unique_metrics xxhash ms unique) ≤ length ms + length unique
  unfolding unique_metrics
  length-unique_metrics-le [] unique = omega arith
  length-unique_metrics-le (m ∷ ms) unique = ground (
    arith,
    length-set (hash_of m) m unique,
    length-unique_metrics-le ms (Map.set (hash_of m) m unique),
  )

  -- Where nothing is lost no metric has a hash that is taken.
  new_hashes :
      (ms : List Metric) (unique : Map ℕ Metric) (h : ℕ) (v : Metric)
      → length (unique_metrics xxhash ms unique) ≡ length ms + length unique
      → Map.get h unique ≡ some v
      → first_with h ms ≡ none
  unfolding unique_metrics first_with
  new_hashes [] unique h v e held = refl
  new_hashes (m ∷ ms) unique h v e held = ground (
    arith,
    length-set (hash_of m) m unique,
    get-set (hash_of m) h m unique,
    length-unique_metrics-le ms (Map.set (hash_of m) m unique),
    new_hashes ms (Map.set (hash_of m) m unique) h v,
  )

  lossless-IsUnique :
      (ms : List Metric) (unique : Map ℕ Metric)
      → length (unique_metrics xxhash ms unique) ≡ length ms + length unique
      → IsUnique ms
  unfolding unique_metrics
  lossless-IsUnique [] unique e = tt
  lossless-IsUnique (m ∷ ms) unique e = (
    new_hashes ms next (hash_of m) m tight (Map.get-set_self (hash_of m) m unique),
    lossless-IsUnique ms next tight,
  )
    where
      next : Map ℕ Metric
      next = Map.set (hash_of m) m unique

      tight : length (unique_metrics xxhash ms next) ≡ length ms + length next
      tight = ground (arith, length-set (hash_of m) m unique, length-unique_metrics-le ms next)

  last_with-found :
      (h : ℕ) (ms : List Metric) (found : Option Metric)
      → first_with h ms ≡ none
      → last_with h ms found ≡ found
  unfolding last_with first_with
  last_with-found h [] found e = refl
  last_with-found h (m ∷ ms) found e = ground (arith, last_with-found h ms found)

  -- Where the hashes differ the first metric of a hash is the last.
  first-eq-last : (h : ℕ) (ms : List Metric) → IsUnique ms → first_with h ms ≡ last_with h ms none
  unfolding last_with first_with
  first-eq-last h [] u = refl
  first-eq-last h (m ∷ ms) u = ground (
    arith,
    ap (λ (k : ℕ). first_with k ms),
    last_with-found h ms (some m),
    first-eq-last h ms u.1,
  )

  abbrev unique_of : List Metric → Map ℕ Metric
  unique_of ms = unique_metrics xxhash ms []

  -- After deduplication no two metrics of a family have the same label hash.
  pub deduplicate-IsUnique : (ms : List Metric) → IsUnique (deduplicate xxhash ms)
  unfolding deduplicate
  deduplicate-IsUnique ms = elim (Bool-cases (eqb (length (unique_of ms)) (length ms))) [
    | inl same ↦ rw same (lossless-IsUnique ms [] (ground arith))
    | inr fewer ↦ rw fewer (
        values-IsUnique (unique_of ms) (unique_metrics-Indexed ms [] tt)
          (unique_metrics-IsDistinct ms [] tt))
  ]

  -- Last write wins: under each label hash, deduplication keeps the last metric of the family that
  -- has the hash, or none if none has.
  pub first_with-deduplicate :
      (ms : List Metric) (h : ℕ) → first_with h (deduplicate xxhash ms) ≡ last_with h ms none
  unfolding deduplicate Map.get
  first_with-deduplicate ms h = elim (Bool-cases (eqb (length (unique_of ms)) (length ms))) [
    | inl same ↦ rw same (first-eq-last h ms (lossless-IsUnique ms [] (ground arith)))
    | inr fewer ↦ rw fewer (
        first_with-values h (unique_of ms) (unique_metrics-Indexed ms [] tt)
        ∙ get-unique_metrics h ms [])
  ]

-- What holds of every metric holds of the deduplicated ones.
module _ {ℓ} (xxhash : List ℕ → ℕ) (P : Metric → Type ℓ) where
  Values-unique_metrics :
      (ms : List Metric) (unique : Map ℕ Metric)
      → All P ms
      → Map.Values P unique
      → Map.Values P (unique_metrics xxhash ms unique)
  unfolding unique_metrics
  Values-unique_metrics [] unique all held = held
  Values-unique_metrics (m ∷ ms) unique all held =
      Values-unique_metrics ms _ all.1 (Map.Values-set P _ m unique all.0 held)

  All-Values : (unique : Map ℕ Metric) → Map.Values P unique → All P (map (λ e. e.1) unique)
  All-Values [] held = tt
  All-Values ((h, m) ∷ unique) held = (held.0, All-Values unique held.1)

  pub All-deduplicate : (ms : List Metric) → All P ms → All P (deduplicate xxhash ms)
  unfolding deduplicate
  All-deduplicate ms all =
      elim (Bool-cases (eqb (length (unique_metrics xxhash ms [])) (length ms))) [
        | inl same ↦ rw same all
        | inr fewer ↦ rw fewer (All-Values _ (Values-unique_metrics ms [] all tt))
      ]
