-- ===== src/Parser/Labels.antt =====
-- The labels of a metric after validation, the instance id and the order by name: parser.go.
use metricz_exporter.Base.{
  ℕ, ◌≡◌, refl, Bool, Bool-cases, true, false, if◌then◌else◌, String, str_eq, str_eq_iff, codes,
  inl, inr, Option, none, some, List, [], ◌∷◌, All, In, here, there, arith,
}
use metricz_exporter.Metrics.{LabelPair, Metric}
use metricz_exporter.Parser.{
  mismatch, Result, ok, err, pair, inject_instance, ltb_codes, ltb_name, insert_label, sort_labels,
}

-- The value of the first `instance_id`.
unfoldable pub instance_of : List LabelPair → Option String
instance_of [] = none
instance_of (lp ∷ labels) =
    if str_eq lp.name "instance_id" then some lp.value else instance_of labels

-- The labels with the first `instance_id` set.
unfoldable pub with_instance : String → List LabelPair → List LabelPair
with_instance target [] = pair "instance_id" target ∷ []
with_instance target (lp ∷ labels) =
    if str_eq lp.name "instance_id"
    then record lp { value = target } ∷ labels
    else lp ∷ with_instance target labels

-- The verdict on the first `instance_id`: it is set if it is absent, is the target or may be
-- overwritten, and refused otherwise.
abbrev pub verdict :
    String → String → Bool → List LabelPair → Option String → Result (List LabelPair)
verdict name target overwrite labels none = ok (with_instance target labels)
verdict name target overwrite labels (some value) =
    if str_eq value target
    then ok (with_instance target labels)
    else if overwrite
    then ok (with_instance target labels)
    else err (mismatch name target value)

-- Validating and injecting the instance id refuses the labels exactly if their first `instance_id`
-- differs from the target and may not be overwritten; otherwise it sets the first `instance_id` to
-- the target, or appends one if there is none.
pub inject_instance-eq :
    (name target : String) (overwrite : Bool) (labels : List LabelPair)
    → inject_instance name target overwrite labels
      ≡ verdict name target overwrite labels (instance_of labels)
unfolding inject_instance instance_of with_instance
inject_instance-eq name target overwrite [] = refl
inject_instance-eq name target overwrite (lp ∷ labels) = ground (
  arith,
  str_eq_iff lp.value target,
  str_eq_iff lp.name "instance_id",
  inject_instance-eq name target overwrite labels,
)

pub In-with_instance :
    (target : String) (labels : List LabelPair)
    → In (pair "instance_id" target) (with_instance target labels)
unfolding with_instance
In-with_instance target [] = here
In-with_instance target (lp ∷ labels) = elim (Bool-cases (str_eq lp.name "instance_id")) [
  | inl h ↦ rw (h, with_instance, (str_eq_iff lp.name "instance_id").0 h) here
  | inr h ↦ rw (h, with_instance) (there (In-with_instance target labels))
]

-- To pass the second element on, where the rest is mapped.
swap_under :
    {x : LabelPair} (a b : LabelPair) {ls ms : List LabelPair}
    → (In x (a ∷ ls) → In x ms)
    → In x (a ∷ b ∷ ls)
    → In x (b ∷ ms)
swap_under a b f here = there (f here)
swap_under a b f (there here) = here
swap_under a b f (there (there q)) = there (f (there q))

In-insert_label :
    {x : LabelPair} (lp : LabelPair) (labels : List LabelPair)
    → In x (lp ∷ labels)
    → In x (insert_label lp labels)
unfolding insert_label
In-insert_label lp [] p = p
In-insert_label lp (l ∷ labels) p = elim (Bool-cases (ltb_name l lp)) [
  | inl h ↦ rw (h, insert_label) (swap_under lp l (In-insert_label lp labels) p)
  | inr h ↦ rw (h, insert_label) p
]

pub In-sort_labels :
    {x : LabelPair} (labels : List LabelPair) → In x labels → In x (sort_labels labels)
unfolding sort_labels
In-sort_labels [] p = p
In-sort_labels (lp ∷ labels) here = In-insert_label lp (sort_labels labels) here
In-sort_labels (lp ∷ labels) (there p) =
    In-insert_label lp (sort_labels labels) (there (In-sort_labels labels p))

-- The order of names is a total preorder.
ltb_codes_asym : (a b : List ℕ) → ltb_codes a b ≡ true → ltb_codes b a ≡ false
unfolding ltb_codes
ltb_codes_asym [] [] h = cc
ltb_codes_asym [] (b ∷ bs) h = refl
ltb_codes_asym (a ∷ as') [] h = cc
ltb_codes_asym (a ∷ as') (b ∷ bs) h = ground (arith, ltb_codes_asym as' bs)

ltb_codes_cotrans :
    (a b c : List ℕ) → ltb_codes b a ≡ false → ltb_codes c b ≡ false → ltb_codes c a ≡ false
unfolding ltb_codes
ltb_codes_cotrans [] b [] p q = refl
ltb_codes_cotrans (a ∷ as') [] [] p q = p
ltb_codes_cotrans (a ∷ as') (b ∷ bs) [] p q = cc
ltb_codes_cotrans [] [] (c ∷ cs) p q = q
ltb_codes_cotrans [] (b ∷ bs) (c ∷ cs) p q = refl
ltb_codes_cotrans (a ∷ as') [] (c ∷ cs) p q = cc
ltb_codes_cotrans (a ∷ as') (b ∷ bs) (c ∷ cs) p q = ground (arith, ltb_codes_cotrans as' bs cs)

abbrev pub IsSorted : List LabelPair → Type 0
IsSorted [] = Unit {0}
IsSorted (lp ∷ labels) = All (λ l. ltb_name l lp ≡ false) labels × IsSorted labels

All-above :
    (a b : LabelPair) (labels : List LabelPair)
    → ltb_name b a ≡ false
    → All (λ l. ltb_name l b ≡ false) labels
    → All (λ l. ltb_name l a ≡ false) labels
All-above a b [] h all = tt
All-above a b (l ∷ labels) h all = (
  ltb_codes_cotrans (codes a.name) (codes b.name) (codes l.name) h all.0,
  All-above a b labels h all.1,
)

All-insert_label :
    (a lp : LabelPair) (labels : List LabelPair)
    → ltb_name lp a ≡ false
    → All (λ l. ltb_name l a ≡ false) labels
    → All (λ l. ltb_name l a ≡ false) (insert_label lp labels)
unfolding insert_label
All-insert_label a lp [] h all = (h, tt)
All-insert_label a lp (l ∷ labels) h all = elim (Bool-cases (ltb_name l lp)) [
  | inl lt ↦ rw (lt, insert_label) (all.0, All-insert_label a lp labels h all.1)
  | inr ge ↦ rw (ge, insert_label) (h, all)
]

insert_label-IsSorted :
    (lp : LabelPair) (labels : List LabelPair) → IsSorted labels → IsSorted (insert_label lp labels)
unfolding insert_label
insert_label-IsSorted lp [] s = (tt, tt)
insert_label-IsSorted lp (l ∷ labels) s = elim (Bool-cases (ltb_name l lp)) [
  | inl lt ↦
      rw (lt, insert_label)
        (
          All-insert_label l lp labels (ltb_codes_asym (codes l.name) (codes lp.name) lt) s.0,
          insert_label-IsSorted lp labels s.1,
        )
  | inr ge ↦ rw (ge, insert_label) ((ge, All-above lp l labels ge s.0), s)
]

pub sort_labels-IsSorted : (labels : List LabelPair) → IsSorted (sort_labels labels)
unfolding sort_labels
sort_labels-IsSorted [] = tt
sort_labels-IsSorted (lp ∷ labels) =
    insert_label-IsSorted lp (sort_labels labels) (sort_labels-IsSorted labels)

-- What validation makes of a metric's labels: sorted by name, with the target's instance id.
pub record IsNormal (target : String) (m : Metric) : Type 0 where
  pub sorted : IsSorted m.label
  pub owned : In (pair "instance_id" target) m.label
