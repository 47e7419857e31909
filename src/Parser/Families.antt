-- ===== src/Parser/Families.antt =====
-- What ParseAndValidate returns, and when it fails: parser.go.
use metricz_exporter.Base.{
  ℕ, ◌≡◌, refl, subst, ℤ, Bool, true, false, if◌then◌else◌, String, string_key, str_eq, List, [],
  ◌∷◌, All, arith,
}
use metricz_exporter.Base.Map
use metricz_exporter.Metrics.{LabelPair, Metric, MetricFamily}
use metricz_exporter.Metrics
use metricz_exporter.Parser.{
  Decoded, eof, failure, family, Result, ok, err, ◌>>=◌, add_buid, inject_instance, sort_labels,
  normalize_metric, normalize_metrics, deduplicate, process_family, parse_families,
  parse_and_validate,
}
use metricz_exporter.Parser.Labels.{
  with_instance, inject_instance-eq, In-with_instance, In-sort_labels, sort_labels-IsSorted,
  IsNormal,
}
use metricz_exporter.Parser.Unique.{IsUnique, deduplicate-IsUnique, All-deduplicate}

-- A chain that succeeds has succeeded at its first step.
>>=-eq-ok {κ ℓ} :
    {B : Type κ} {A : Type ℓ} (first : Result A) (next : A → Result B) {result : B}
    → (first >>= next) ≡ ok result
    → (value : A) × (first ≡ ok value) × (next value ≡ ok result)
>>=-eq-ok (err cause) next h = cc
>>=-eq-ok (ok value) next h = (value, refl, h)

ok-injective {ℓ} : {A : Type ℓ} {a b : A} → ok a ≡ ok b → a ≡ b
ok-injective e = cc

inject_instance-with_instance :
    (name target : String) (overwrite : Bool) (labels : List LabelPair) (out : List LabelPair)
    → inject_instance name target overwrite labels ≡ ok out
    → out ≡ with_instance target labels
inject_instance-with_instance name target overwrite labels out e =
    ground (arith, inject_instance-eq name target overwrite labels)

module _ (battleye : ℤ → String) (name target : String) (overwrite : Bool) where
  abbrev pub enriched : Metric → List LabelPair
  enriched m =
      if str_eq name "dayz_metricz_player_loaded" then add_buid battleye m.label else m.label

  -- If a metric is accepted, it becomes the metric whose labels are its own, with the BattlEye id
  -- added where that is due, the first `instance_id` set to the target or a new one appended,
  -- sorted by name; its values are unchanged.
  pub normalize_metric-ok :
      (m m' : Metric)
      → normalize_metric battleye name target overwrite m ≡ ok m'
      → m' ≡ record m { label = sort_labels (with_instance target (enriched m)) }
  unfolding normalize_metric
  normalize_metric-ok m m' e =
      let (injected, done, e') =
        >>=-eq-ok (inject_instance name target overwrite (enriched m)) _ e in
      let eq = inject_instance-with_instance name target overwrite (enriched m) injected done in
      ground arith

  normalize_metric-IsNormal :
      (m m' : Metric)
      → normalize_metric battleye name target overwrite m ≡ ok m'
      → IsNormal target m'
  normalize_metric-IsNormal m m' e = rw (normalize_metric-ok m m' e) (record {
    sorted = sort_labels-IsSorted (with_instance target (enriched m));
    owned =
        In-sort_labels (with_instance target (enriched m)) (In-with_instance target (enriched m));
  })

  normalize_metrics-IsNormal :
      (ms ms' : List Metric)
      → normalize_metrics battleye name target overwrite ms ≡ ok ms'
      → All (IsNormal target) ms'
  unfolding normalize_metrics
  normalize_metrics-IsNormal [] ms' e = subst (All (IsNormal target)) (ok-injective e) tt
  normalize_metrics-IsNormal (m ∷ ms) ms' e =
      let (m1, d1, e1) = >>=-eq-ok (normalize_metric battleye name target overwrite m) _ e in
      let (ms1, d2, e2) = >>=-eq-ok (normalize_metrics battleye name target overwrite ms) _ e1 in
      subst (All (IsNormal target)) (ok-injective e2)
        (normalize_metric-IsNormal m m1 d1, normalize_metrics-IsNormal ms ms1 d2)

-- A family as the storage receives it: each metric is owned and sorted, and no label set occurs
-- twice, as far as the hash tells them apart.
pub record IsClean (xxhash : List ℕ → ℕ) (target : String) (mf : MetricFamily) : Type 0 where
  pub normal : All (IsNormal target) mf.metric
  pub unique : IsUnique xxhash mf.metric

-- A stream that the decoder reads to its end.
unfoldable pub reads_to_end : Decoded → Bool
reads_to_end eof = true
reads_to_end (failure message) = false
reads_to_end (family mf rest) = reads_to_end rest

module _ (xxhash : List ℕ → ℕ) (battleye : ℤ → String) (target : String) where
  process_family-IsClean :
      (overwrite : Bool) (mf mf' : MetricFamily)
      → process_family xxhash battleye target overwrite mf ≡ ok mf'
      → IsClean xxhash target mf'
  unfolding process_family
  process_family-IsClean overwrite mf mf' e =
      let (ms, done, e') =
        >>=-eq-ok (normalize_metrics battleye mf.name target overwrite mf.metric) _ e in
      rw (← ok-injective e') (record {
        normal =
            All-deduplicate xxhash (IsNormal target) ms
              (normalize_metrics-IsNormal battleye mf.name target overwrite mf.metric ms done);
        unique = deduplicate-IsUnique xxhash ms;
      })

  parse_families-IsClean :
      (overwrite : Bool) (input : Decoded) (acc families : Metrics.Families)
      → Map.Values (IsClean xxhash target) acc
      → parse_families xxhash battleye target overwrite input acc ≡ ok families
      → Map.Values (IsClean xxhash target) families × (reads_to_end input ≡ true)
  unfolding parse_families reads_to_end
  parse_families-IsClean overwrite eof acc families clean e =
      (subst (Map.Values (IsClean xxhash target)) (ok-injective e) clean, refl)
  parse_families-IsClean overwrite (failure message) acc families clean e = cc
  parse_families-IsClean overwrite (family mf rest) acc families clean e =
      let (mf', done, e') = >>=-eq-ok (process_family xxhash battleye target overwrite mf) _ e in
      parse_families-IsClean overwrite rest (Map.set mf.name mf' acc) families
        (Map.Values-set (IsClean xxhash target) mf.name mf' acc
          (process_family-IsClean overwrite mf mf' done) clean)
        e'

  -- If ParseAndValidate succeeds, the stream was read to its end, and in every family that it
  -- returns each metric has the target's `instance_id` and its labels sorted by name, and no two
  -- metrics have the same label hash.
  pub parse_and_validate-IsClean :
      (input : Decoded) (overwrite : Bool) (families : Metrics.Families)
      → parse_and_validate xxhash battleye input target overwrite ≡ ok families
      → Map.Values (IsClean xxhash target) families × (reads_to_end input ≡ true)
  unfolding parse_and_validate
  parse_and_validate-IsClean input overwrite families e =
      parse_families-IsClean overwrite input [] families tt e

  normalize_metrics-total :
      (name : String) (ms : List Metric)
      → (ms' : List Metric) × (normalize_metrics battleye name target true ms ≡ ok ms')
  unfolding normalize_metrics normalize_metric
  normalize_metrics-total name [] = ([], refl)
  normalize_metrics-total name (m ∷ ms) =
      let (ms', e) = normalize_metrics-total name ms in
      let labels = enriched battleye name target true m in
      (
        record m { label = sort_labels (with_instance target labels) } ∷ ms',
        ground (arith, inject_instance-eq name target true labels),
      )

  process_family-total :
      (mf : MetricFamily)
      → (mf' : MetricFamily) × (process_family xxhash battleye target true mf ≡ ok mf')
  unfolding process_family
  process_family-total mf =
      let (ms, e) = normalize_metrics-total mf.name mf.metric in
      (record mf { metric = deduplicate xxhash ms }, rw e refl)

  parse_families-total :
      (input : Decoded) (acc : Metrics.Families)
      → reads_to_end input ≡ true
      → (families : Metrics.Families) × (parse_families xxhash battleye target true input acc
          ≡ ok families)
  unfolding parse_families reads_to_end
  parse_families-total eof acc h = (acc, refl)
  parse_families-total (failure message) acc h = cc
  parse_families-total (family mf rest) acc h =
      let (mf', e) = process_family-total mf in
      let (families, e') = parse_families-total rest (Map.set mf.name mf' acc) h in
      (families, rw e e')

  -- Where the instance id may be overwritten, ParseAndValidate succeeds on every stream that the
  -- decoder reads to its end.
  pub parse_and_validate-total :
      (input : Decoded)
      → reads_to_end input ≡ true
      → (families : Metrics.Families) × (parse_and_validate xxhash battleye input target true
          ≡ ok families)
  unfolding parse_and_validate
  parse_and_validate-total input h = parse_families-total input [] h
