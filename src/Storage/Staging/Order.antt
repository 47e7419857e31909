-- ===== src/Storage/Staging/Order.antt =====
-- The order of the chunks' numbers: sort.Ints in RetrieveStaging, staging.go.
use metricz_exporter.Base.{
  ◌≡◌, ◌≢◌, refl, sym, ap, subst, ◌∙◌, ℤ, ltb_ℤ, Bool, true, false, Bool-cases, inl, inr, ◌≟◌, ite,
  int_key, List, [], ◌∷◌, All, map, Option, none, some, arith,
}
use metricz_exporter.Base.Map
use metricz_exporter.Base.Map.{Map}
use metricz_exporter.Storage.Staging.{insert_sorted, sort_ints}

abbrev pub Increasing : List ℤ → Type 0
Increasing [] = Unit {0}
Increasing (k ∷ ks) = All (λ j. ltb_ℤ k j ≡ true) ks × Increasing ks

unfoldable pub contains : ℤ → List ℤ → Bool
contains k [] = false
contains k (j ∷ ks) = ite (j ≟ k) true (contains k ks)

contains-insert_sorted :
    (k j : ℤ) (ks : List ℤ) → contains k (insert_sorted j ks) ≡ ite (j ≟ k) true (contains k ks)
unfolding contains insert_sorted
contains-insert_sorted k j [] = refl
contains-insert_sorted k j (i ∷ ks) = ground (arith, contains-insert_sorted k j ks)

contains-sort_ints : (k : ℤ) (ks : List ℤ) → contains k (sort_ints ks) ≡ contains k ks
unfolding contains sort_ints
contains-sort_ints k [] = refl
contains-sort_ints k (j ∷ ks) =
    ground (arith, contains-insert_sorted k j (sort_ints ks), contains-sort_ints k ks)

ltb_ℤ_trans : (a b c : ℤ) → ltb_ℤ a b ≡ true → ltb_ℤ b c ≡ true → ltb_ℤ a c ≡ true
ltb_ℤ_trans a b c p q = ground arith

ltb_ℤ_connected : (a b : ℤ) → ltb_ℤ a b ≡ false → a ≢ b → ltb_ℤ b a ≡ true
ltb_ℤ_connected a b p ne = ground arith

All-above :
    (a b : ℤ) (ks : List ℤ)
    → ltb_ℤ a b ≡ true
    → All (λ j. ltb_ℤ b j ≡ true) ks
    → All (λ j. ltb_ℤ a j ≡ true) ks
All-above a b [] h all = tt
All-above a b (k ∷ ks) h all = (ltb_ℤ_trans a b k h all.0, All-above a b ks h all.1)

All-insert_sorted :
    (a k : ℤ) (ks : List ℤ)
    → ltb_ℤ a k ≡ true
    → All (λ j. ltb_ℤ a j ≡ true) ks
    → All (λ j. ltb_ℤ a j ≡ true) (insert_sorted k ks)
unfolding insert_sorted
All-insert_sorted a k [] h all = (h, tt)
All-insert_sorted a k (j ∷ ks) h all = elim (Bool-cases (ltb_ℤ j k)) [
  | inl lt ↦ rw (lt, insert_sorted) (all.0, All-insert_sorted a k ks h all.1)
  | inr ge ↦ rw (ge, insert_sorted) (h, all)
]

insert_sorted-Increasing :
    (k : ℤ) (ks : List ℤ) → contains k ks ≡ false → Increasing ks → Increasing (insert_sorted k ks)
unfolding contains insert_sorted
insert_sorted-Increasing k [] new inc = (tt, tt)
insert_sorted-Increasing k (j ∷ ks) new inc = elim (Bool-cases (ltb_ℤ j k)) [
  | inl lt ↦
      rw (lt, insert_sorted)
        (All-insert_sorted j k ks lt inc.0, insert_sorted-Increasing k ks (ground arith) inc.1)
  | inr ge ↦
      let above : ltb_ℤ k j ≡ true = ltb_ℤ_connected j k ge (λ e. ground arith) in
      rw (ge, insert_sorted) ((above, All-above k j ks above inc.0), inc)
]

-- No key stands twice.
abbrev pub Unique : List ℤ → Type 0
Unique [] = Unit {0}
Unique (k ∷ ks) = (contains k ks ≡ false) × Unique ks

pub sort_ints-Increasing : (ks : List ℤ) → Unique ks → Increasing (sort_ints ks)
unfolding sort_ints
sort_ints-Increasing [] u = tt
sort_ints-Increasing (k ∷ ks) u =
    insert_sorted-Increasing k (sort_ints ks) (contains-sort_ints k ks ∙ u.0)
      (sort_ints-Increasing ks u.1)

not-contains_of_above :
    (k : ℤ) (ks : List ℤ) → All (λ j. ltb_ℤ k j ≡ true) ks → contains k ks ≡ false
unfolding contains
not-contains_of_above k [] all = refl
not-contains_of_above k (j ∷ ks) all = ground (arith, not-contains_of_above k ks all.1)

above_of_contains :
    (a k : ℤ) (ks : List ℤ)
    → All (λ j. ltb_ℤ a j ≡ true) ks
    → contains k ks ≡ true
    → ltb_ℤ a k ≡ true
unfolding contains
above_of_contains a k [] all h = cc
above_of_contains a k (j ∷ ks) all h = elim (j ≟ k) [
  | yes e ↦ subst (λ (i : ℤ). ltb_ℤ a i ≡ true) e all.0
  | no ne ↦ above_of_contains a k ks all.1 (ground arith)
]

abbrev SameKeys : List ℤ → List ℤ → Type 0
SameKeys ks js = (k : ℤ) → contains k ks ≡ contains k js

heads_eq :
    (a b : ℤ) (ks js : List ℤ)
    → Increasing (a ∷ ks)
    → Increasing (b ∷ js)
    → SameKeys (a ∷ ks) (b ∷ js)
    → a ≡ b
unfolding contains
heads_eq a b ks js inc inc' same =
    ground (arith, same a, same b, above_of_contains b a js inc'.0, above_of_contains a b ks inc.0)

-- Two increasing lists of the same keys are one.
pub Increasing-unique : (ks js : List ℤ) → Increasing ks → Increasing js → SameKeys ks js → ks ≡ js
unfolding contains
Increasing-unique [] [] inc inc' same = refl
Increasing-unique [] (b ∷ js) inc inc' same = ground (arith, same b)
Increasing-unique (a ∷ ks) [] inc inc' same = ground (arith, same a)
Increasing-unique (a ∷ ks) (b ∷ js) inc inc' same =
    let e = heads_eq a b ks js inc inc' same in cc (e, Increasing-unique ks js inc.1 inc'.1 rest)
  where
    rest : SameKeys ks js
    rest k = ground (
      arith,
      same k,
      heads_eq a b ks js inc inc' same,
      not-contains_of_above a ks inc.0,
      not-contains_of_above b js inc'.0,
    )

pub sort_ints-Unique :
    (ks js : List ℤ) → Unique ks → Unique js → SameKeys ks js → sort_ints ks ≡ sort_ints js
sort_ints-Unique ks js u v same =
    Increasing-unique (sort_ints ks) (sort_ints js) (sort_ints-Increasing ks u)
      (sort_ints-Increasing js v)
      λ k. contains-sort_ints k ks ∙ same k ∙ sym (contains-sort_ints k js)

-- The keys of a map.
abbrev pub keys : {V : Type 0} → Map ℤ V → List ℤ
keys = map (λ e. e.0)

abbrev pub is_some : {V : Type 0} → Option V → Bool
is_some none = false
is_some (some _) = true

pub contains-keys : {V : Type 0} (k : ℤ) (m : Map ℤ V) → contains k (keys m) ≡ is_some (Map.get k m)
unfolding contains Map.get
contains-keys k [] = refl
contains-keys k ((j, v) ∷ m) = ground (arith, contains-keys k m)

keys-Unique : {V : Type 0} (m : Map ℤ V) → Map.IsDistinct m → Unique (keys m)
keys-Unique [] d = tt
keys-Unique ((k, v) ∷ m) d = (contains-keys k m ∙ ap is_some d.0, keys-Unique m d.1)

-- The sorted keys depend on what the map holds, and not on the order of its entries.
pub sorted_keys_unique :
    {V : Type 0} (m n : Map ℤ V)
    → Map.IsDistinct m
    → Map.IsDistinct n
    → ((k : ℤ) → Map.get k m ≡ Map.get k n)
    → sort_ints (keys m) ≡ sort_ints (keys n)
sorted_keys_unique m n d e same =
    sort_ints-Unique (keys m) (keys n) (keys-Unique m d) (keys-Unique n e)
      λ k. contains-keys k m ∙ ap is_some (same k) ∙ sym (contains-keys k n)

-- The increasing list of a map's keys is what sorting them yields.
pub sort_ints-keys :
    {V : Type 0} (m : Map ℤ V) (ks : List ℤ)
    → Map.IsDistinct m
    → Increasing ks
    → ((k : ℤ) → contains k ks ≡ is_some (Map.get k m))
    → ks ≡ sort_ints (keys m)
sort_ints-keys m ks d inc same =
    Increasing-unique ks (sort_ints (keys m)) inc (sort_ints-Increasing (keys m) (keys-Unique m d))
      λ k. same k ∙ sym (contains-sort_ints k (keys m) ∙ contains-keys k m)
