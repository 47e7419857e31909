-- ===== src/Base/Map.antt =====
-- Go's maps as association lists. The list's order stands for the order in which `range` visits
-- the entries, which Go leaves open: theorems hold for every list.
use metricz_exporter.Base.Tests.{Key, ◌≟◌}
use Prim.Native.Nat.{ℕ, ◌+◌}
use mathlib.Core.Path.{◌≡◌, refl, subst, subst₂}
use mathlib.Core.Logic.{ite, if_pos, if_neg, ◌≢◌}
use mathlib.Core.Option.{Option, none, some}
use mathlib.Core.List.{List, [], ◌∷◌}
use native.Mathlib.Omega.{arith}

abbrev pub Map {ℓ} : Type ℓ → Type ℓ → Type ℓ
Map K V = List (K × V)

module _ {ℓ} {K V : Type ℓ} ⦃key : Key K⦄ where
  -- v, ok := m[k]
  unfoldable pub get : K → Map K V → Option V
  get k [] = none
  get k ((j, v) ∷ m) = ite (j ≟ k) (some v) (get k m)

  -- m[k] = v
  unfoldable pub set : K → V → Map K V → Map K V
  set k v [] = (k, v) ∷ []
  set k v ((j, w) ∷ m) = ite (j ≟ k) ((k, v) ∷ m) ((j, w) ∷ set k v m)

  -- delete(m, k)
  unfoldable pub delete : K → Map K V → Map K V
  delete k [] = []
  delete k ((j, v) ∷ m) = let rest = delete k m in ite (j ≟ k) rest ((j, v) ∷ rest)

  -- No key has two entries.
  abbrev pub IsDistinct : Map K V → Type ℓ
  IsDistinct [] = Unit
  IsDistinct ((k, v) ∷ m) = (get k m ≡ none) × IsDistinct m

  pub get-set : (k j : K) (v : V) (m : Map K V) → get j (set k v m) ≡ ite (k ≟ j) (some v) (get j m)
  unfolding get set
  get-set k j v [] = refl
  get-set k j v ((i, w) ∷ m) = ground (arith, get-set k j v m)

  pub get-delete : (k j : K) (m : Map K V) → get j (delete k m) ≡ ite (k ≟ j) none (get j m)
  unfolding get delete
  get-delete k j [] = ground arith
  get-delete k j ((i, w) ∷ m) = ground (arith, get-delete k j m)

  pub get-set_self : (k : K) (v : V) (m : Map K V) → get k (set k v m) ≡ some v
  get-set_self k v m = ground (arith, get-set k k v m)

  pub get-set_ne : (k j : K) (v : V) (m : Map K V) → k ≢ j → get j (set k v m) ≡ get j m
  get-set_ne k j v m h = ground (arith, get-set k j v m)

  pub set-IsDistinct : (k : K) (v : V) (m : Map K V) → IsDistinct m → IsDistinct (set k v m)
  unfolding get set
  set-IsDistinct k v [] h = (refl, tt)
  set-IsDistinct k v ((j, w) ∷ m) h = ground (arith, set-IsDistinct k v m h.1, get-set k j v m)

  pub delete-IsDistinct : (k : K) (m : Map K V) → IsDistinct m → IsDistinct (delete k m)
  unfolding delete
  delete-IsDistinct k [] h = tt
  delete-IsDistinct k ((j, w) ∷ m) h = ground (arith, delete-IsDistinct k m h.1, get-delete k j m)

  pub delete_absent : (k : K) (m : Map K V) → get k m ≡ none → delete k m ≡ m
  unfolding get delete
  delete_absent k [] h = refl
  delete_absent k ((j, w) ∷ m) h = ground (arith, delete_absent k m)

module _ {ℓ} {K V : Type ℓ} where
  -- The sum of a measure of the values.
  unfoldable pub total : (V → ℕ) → Map K V → ℕ
  total w [] = 0
  total w ((k, v) ∷ m) = w v + total w m

module _ {ℓ} {K V : Type ℓ} ⦃key : Key K⦄ (w : V → ℕ) where
  pub total-delete :
      (k : K) (v : V) (m : Map K V)
      → IsDistinct m
      → get k m ≡ some v
      → total w (delete k m) + w v ≡ total w m
  unfolding get delete total
  total-delete k v [] d h = cc
  total-delete k v ((j, u) ∷ m) d h = ground (arith, total-delete k v m d.1, delete_absent k m)

  pub total-set-some :
      (k : K) (v u : V) (m : Map K V)
      → get k m ≡ some u
      → total w (set k v m) + w u ≡ total w m + w v
  unfolding get set total
  total-set-some k v u [] h = cc
  total-set-some k v u ((j, x) ∷ m) h = ground (arith, total-set-some k v u m)

  pub total-set-none :
      (k : K) (v : V) (m : Map K V) → get k m ≡ none → total w (set k v m) ≡ total w m + w v
  unfolding get set total
  total-set-none k v [] h = omega arith
  total-set-none k v ((j, x) ∷ m) h = ground (arith, total-set-none k v m)

-- Every value satisfies P.
abbrev pub Values {ℓ κ} : {K V : Type ℓ} → (V → Type κ) → Map K V → Type κ
Values P [] = Unit
Values P ((k, v) ∷ m) = P v × Values P m

module _ {ℓ κ} {K V : Type ℓ} ⦃key : Key K⦄ (P : V → Type κ) where
  pub Values-get : (k : K) (v : V) (m : Map K V) → Values P m → get k m ≡ some v → P v
  unfolding get
  Values-get k v [] all h = cc
  Values-get k v ((j, w) ∷ m) all h = elim (j ≟ k) [
    | yes p ↦ let e : w ≡ v = ground arith in subst P e all.0
    | no p ↦ Values-get k v m all.1 (ground arith)
  ]

  pub Values-set : (k : K) (v : V) (m : Map K V) → P v → Values P m → Values P (set k v m)
  unfolding set
  Values-set k v [] p all = (p, tt)
  Values-set k v ((j, w) ∷ m) p all = elim (j ≟ k) [
    | yes e ↦ rw (if_pos (j ≟ k) e) (p, all.1)
    | no e ↦ rw (if_neg (j ≟ k) e) (all.0, Values-set k v m p all.1)
  ]

  pub Values-delete : (k : K) (m : Map K V) → Values P m → Values P (delete k m)
  unfolding delete
  Values-delete k [] all = tt
  Values-delete k ((j, w) ∷ m) all = elim (j ≟ k) [
    | yes e ↦ rw (if_pos (j ≟ k) e) (Values-delete k m all.1)
    | no e ↦ rw (if_neg (j ≟ k) e) (all.0, Values-delete k m all.1)
  ]

-- What `range` has still to visit: its entries are entries of the map.
abbrev pub Within {ℓ} : {K V : Type ℓ} ⦃key : Key K⦄ → Map K V → Map K V → Type ℓ
Within {K} {V} r m = (j : K) (v : V) → get j r ≡ some v → get j m ≡ some v

module _ {ℓ} {K V : Type ℓ} ⦃key : Key K⦄ (k : K) (v : V) (r m : Map K V) where
  pub Within-head : Within ((k, v) ∷ r) m → get k m ≡ some v
  unfolding get
  Within-head w = w k v (ground arith)

  pub Within-tail : get k r ≡ none → Within ((k, v) ∷ r) m → Within r m
  unfolding get
  Within-tail d w = λ j u e. w j u (ground arith)

  -- Deleting the visited key leaves the rest.
  pub Within-delete : get k r ≡ none → Within ((k, v) ∷ r) m → Within r (delete k m)
  Within-delete d w = λ j u e. ground (arith, get-delete k j m, Within-tail d w j u e)

-- Every entry satisfies P.
abbrev pub Entries {ℓ κ} : {K V : Type ℓ} → (K → V → Type κ) → Map K V → Type κ
Entries P [] = Unit
Entries P ((k, v) ∷ m) = P k v × Entries P m

module _ {ℓ κ} {K V : Type ℓ} ⦃key : Key K⦄ (P : K → V → Type κ) where
  pub Entries-get : (k : K) (v : V) (m : Map K V) → Entries P m → get k m ≡ some v → P k v
  unfolding get
  Entries-get k v [] all h = cc
  Entries-get k v ((j, w) ∷ m) all h = elim (j ≟ k) [
    | yes p ↦ let e : w ≡ v = ground arith in subst₂ P p e all.0
    | no p ↦ Entries-get k v m all.1 (ground arith)
  ]

  pub Entries-set : (k : K) (v : V) (m : Map K V) → P k v → Entries P m → Entries P (set k v m)
  unfolding set
  Entries-set k v [] p all = (p, tt)
  Entries-set k v ((j, w) ∷ m) p all = elim (j ≟ k) [
    | yes e ↦ rw (if_pos (j ≟ k) e) (p, all.1)
    | no e ↦ rw (if_neg (j ≟ k) e) (all.0, Entries-set k v m p all.1)
  ]
