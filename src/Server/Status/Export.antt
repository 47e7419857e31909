-- ===== src/Server/Status/Export.antt =====
-- What the public status gives away: status.go, collectPublicData.
use metricz_exporter.Base.{
  ◌≡◌, ◌≢◌, Bool-cases, true, false, inl, inr, String, string_key, str_eq_iff, Option, none, some,
  List, [], ◌∷◌, map, All, arith, ◌≟◌, if_pos, if_neg,
}
use metricz_exporter.Base.Map
use metricz_exporter.Base.Map.{Map}
use metricz_exporter.Metrics.{FloatOps, LabelPair, Metric, Families}
use metricz_exporter.Storage.{InstanceState}
use metricz_exporter.Config.{PublicExportConfig}
use metricz_exporter.Server.Status.{
  PublicStatusData, contains, is_skipped, collect_label, collect_labels, collect_sets, sort_values,
  label_lists, export_values, export_labels, export_family, process_families, process_optional,
  ingested_or_cached, collect_public_data,
}

-- A key that may be shown: it has a name and is not excluded.
abbrev pub IsShown : List String → String → Type 0
IsShown exclude k = (k ≢ "") × (contains exclude k ≡ false)

-- Every entry is allowed by the configuration.
pub record IsPublic (cfg : PublicExportConfig) (out : PublicStatusData) : Type 0 where
  pub values : All (λ e. contains cfg.values e.0 ≡ true) out.values
  pub labels :
      All
        (λ e. (contains cfg.labels e.0 ≡ true) × All (λ l. IsShown cfg.labels_exclude l.0) e.1)
        out.labels

All-set {κ} :
    {V : Type 0} (P : String × V → Type κ) (k : String) (v : V) (m : Map String V)
    → P (k, v)
    → All P m
    → All P (Map.set k v m)
unfolding Map.set
All-set P k v [] p all = (p, tt)
All-set P k v ((j, w) ∷ m) p all = elim (j ≟ k) [
  | yes e ↦ rw (if_pos (j ≟ k) e) (p, all.1)
  | no e ↦ rw (if_neg (j ≟ k) e) (all.0, All-set P k v m p all.1)
]

module _ (exclude : List String) where
  abbrev Shown : Map String (List String) → Type 0
  Shown sets = All (λ e. IsShown exclude e.0) sets

  collect_label-Shown :
      (lp : LabelPair) (sets : Map String (List String))
      → Shown sets
      → Shown (collect_label exclude lp sets)
  unfolding collect_label
  collect_label-Shown lp sets all = elim (Bool-cases (is_skipped exclude lp.name)) [
    | inl skipped ↦ rw (skipped, collect_label) all
    | inr shown ↦
        rw (shown, collect_label)
          (All-set (λ e. IsShown exclude e.0) lp.name _ sets (ground (arith, str_eq_iff lp.name ""))
            all)
  ]

  collect_labels-Shown :
      (labels : List LabelPair) (sets : Map String (List String))
      → Shown sets
      → Shown (collect_labels exclude labels sets)
  unfolding collect_labels
  collect_labels-Shown [] sets all = all
  collect_labels-Shown (lp ∷ labels) sets all =
      collect_labels-Shown labels _ (collect_label-Shown lp sets all)

  collect_sets-Shown :
      (ms : List Metric) (sets : Map String (List String))
      → Shown sets
      → Shown (collect_sets exclude ms sets)
  unfolding collect_sets
  collect_sets-Shown [] sets all = all
  collect_sets-Shown (m ∷ ms) sets all =
      collect_sets-Shown ms _ (collect_labels-Shown m.label sets all)

  Shown-map :
      (sets : Map String (List String))
      → Shown sets
      → Shown (map (λ e. (e.0, sort_values e.1)) sets)
  Shown-map [] all = tt
  Shown-map (e ∷ sets) all = (all.0, Shown-map sets all.1)

  label_lists-Shown : (ms : List Metric) → Shown (label_lists exclude ms)
  unfolding label_lists
  label_lists-Shown ms = Shown-map (collect_sets exclude ms []) (collect_sets-Shown ms [] tt)

module _ (float : FloatOps) (cfg : PublicExportConfig) where
  export_values-IsPublic :
      (name : String) (ms : List Metric) (out : PublicStatusData)
      → IsPublic cfg out
      → IsPublic cfg (export_values float cfg name ms out)
  unfolding export_values
  export_values-IsPublic name ms out h = elim (Bool-cases (contains cfg.values name)) [
    | inl wanted ↦
        rw (wanted, export_values)
          (record {
            values =
                All-set (λ e. contains cfg.values e.0 ≡ true) name _ out.values wanted h.values;
            labels = h.labels;
          })
    | inr other ↦ rw (other, export_values) h
  ]

  export_labels-IsPublic :
      (name : String) (ms : List Metric) (out : PublicStatusData)
      → IsPublic cfg out
      → IsPublic cfg (export_labels cfg name ms out)
  unfolding export_labels
  export_labels-IsPublic name ms out h = elim (Bool-cases (contains cfg.labels name)) [
    | inl wanted ↦
        rw (wanted, export_labels)
          (record {
            values = h.values;
            labels =
                All-set
                  (λ e.
                    (contains cfg.labels e.0 ≡ true)
                    × All (λ l. IsShown cfg.labels_exclude l.0) e.1)
                  name _ out.labels (wanted, label_lists-Shown cfg.labels_exclude ms) h.labels;
          })
    | inr other ↦ rw (other, export_labels) h
  ]

  export_family-IsPublic :
      (name : String) (ms : List Metric) (out : PublicStatusData)
      → IsPublic cfg out
      → IsPublic cfg (export_family float cfg name ms out)
  export_family-IsPublic name [] out h = h
  export_family-IsPublic name (m ∷ ms) out h =
      export_labels-IsPublic name (m ∷ ms) _ (export_values-IsPublic name (m ∷ ms) out h)

  process_families-IsPublic :
      (families : Families) (out : PublicStatusData)
      → IsPublic cfg out
      → IsPublic cfg (process_families float cfg families out)
  unfolding process_families
  process_families-IsPublic [] out h = h
  process_families-IsPublic ((name, mf) ∷ families) out h =
      process_families-IsPublic families _ (export_family-IsPublic name mf.metric out h)

  process_optional-IsPublic :
      (families : Option Families) (out : PublicStatusData)
      → IsPublic cfg out
      → IsPublic cfg (process_optional float cfg families out)
  process_optional-IsPublic none out h = h
  process_optional-IsPublic (some families) out h = process_families-IsPublic families out h

  -- The data that the public status exports for an instance has values and labels only of the
  -- families that the configuration lists for each, and no label whose name is empty or excluded.
  pub collect_public_data-IsPublic :
      (state : InstanceState) → IsPublic cfg (collect_public_data float cfg state)
  unfolding collect_public_data
  collect_public_data-IsPublic state =
      process_optional-IsPublic
        (ingested_or_cached state.ingested_families state.cached_status_family) _
        (process_optional-IsPublic state.rcon_families _ (
          process_optional-IsPublic state.a2s_families _ (
            process_optional-IsPublic state.polled_families _
              (record { values = tt; labels = tt }))))
