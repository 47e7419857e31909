-- ===== src/Storage/Staging/Spec.antt =====
-- What the staging area promises its callers: internal/storage/staging.go and gc.go, without the
-- counters and the order of the maps.
use metricz_exporter.Base.{
  ◌≡◌, refl, ℤ, ◌+ℤ◌, ◌≟◌, ite, Bool, false, not, if◌then◌else◌, String, string_key, int_key,
  Option, none, some,
}
use metricz_exporter.Storage.{Time, Duration, Bytes}
use metricz_exporter.Storage.Staging.{after}

-- An unfinished upload: its instance, its end, and the chunk under each number.
pub record Slot : Type 0 where
  pub instance_id : String
  pub expires_at : Time
  pub chunk : ℤ → Option Bytes

abbrev pub Area : Type 0
Area = String → Option Slot

unfoldable pub is_open : Time → Option Slot → Bool
is_open now none = false
is_open now (some slot) = not (after now slot.expires_at)

unfoldable pub fresh : Time → String → Slot
fresh expires_at id = record { instance_id = id; expires_at = expires_at; chunk = λ _. none }

unfoldable pub put : ℤ → Bytes → Slot → Slot
put seq bytes slot = record slot { chunk = λ k. ite (seq ≟ k) (some bytes) (slot.chunk k) }

unfoldable pub at : String → Option Slot → Area → Area
at txn found area j = ite (txn ≟ j) found (area j)

unfoldable pub of_others : String → Option Slot → Option Slot
of_others id none = none
of_others id (some slot) = ite (slot.instance_id ≟ id) none (some slot)

unfoldable pub if_open : Time → Option Slot → Option Slot
unfolding is_open
if_open now found = if is_open now found then found else none

-- An accepted chunk joins its open upload, or begins one in place of its instance's others.
unfoldable pub accept : Time → Duration → String → String → ℤ → Bytes → Area → Area
unfolding if_open at put fresh of_others
accept now ttl txn id seq bytes area = elim (if_open now (area txn)) [
  | none ↦ at txn (some (put seq bytes (fresh (now +ℤ ttl) id))) (λ j. of_others id (area j))
  | some slot ↦ at txn (some (put seq bytes slot)) area
]

-- A refused chunk leaves the area as it is, but for its own upload if that has expired.
unfoldable pub refuse : Time → String → Area → Area
unfolding if_open at
refuse now txn area = at txn (if_open now (area txn)) area

unfoldable pub retrieve : String → Area → Area
unfolding at
retrieve txn area = at txn none area

unfoldable pub collect : Time → Area → Area
unfolding if_open
collect now area j = if_open now (area j)

module _ (now : Time) (ttl : Duration) (txn id : String) (seq : ℤ) (bytes : Bytes)
    (area : Area) where
  pub accept-going :
      (slot : Slot)
      → if_open now (area txn) ≡ some slot
      → accept now ttl txn id seq bytes area ≡ at txn (some (put seq bytes slot)) area
  unfolding accept
  accept-going slot going = rw (going, accept) refl

  pub accept-fresh :
      if_open now (area txn) ≡ none
      → accept now ttl txn id seq bytes area
        ≡ at txn (some (put seq bytes (fresh (now +ℤ ttl) id))) (λ j. of_others id (area j))
  unfolding accept
  accept-fresh none_open = rw (none_open, accept) refl
