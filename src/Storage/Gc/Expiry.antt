-- ===== src/Storage/Gc/Expiry.antt =====
-- What a tick of the garbage collector removes, counts and keeps: gc.go.
use metricz_exporter.Base.{
  ℕ, suc, ◌+◌, ◌^◌, ◌<◌, ◌≡◌, refl, ap, ℤ, pos, add64, add64_eq, ◌≟◌, ite, String, string_key, ◌∙◌,
  true, Bool-cases, if◌then◌else◌, inl, inr, Option, none, some, [], ◌∷◌, arith,
}
use metricz_exporter.Base.Map
use metricz_exporter.Base.Map.{
  Map, get-set, get-delete, Within, Within-head, Within-tail, Within-delete,
}
use metricz_exporter.Storage.{
  Time, InstanceState, StagingItem, Storage, get_or_create_state, put_state,
}
use metricz_exporter.Storage.Live.{get_or_create_state-put_state}
use metricz_exporter.Storage.Staging.{after, drop_item}
use metricz_exporter.Storage.Staging.Counts.{IsAccounted, drop_item-IsAccounted}
use metricz_exporter.Storage.Gc.{counted_state, count_expired, cleanup_loop, cleanup_staging}

-- A transaction that has not expired.
abbrev pub unexpired : Time → Option StagingItem → Option StagingItem
unexpired now none = none
unexpired now (some item) = if after now item.expires_at then none else some item

-- `found`, but for a transaction that is visited and has expired.
abbrev swept : Time → Option StagingItem → Option StagingItem → Option StagingItem
swept now none found = found
swept now (some item) found = if after now item.expires_at then none else found

get-cleanup_loop :
    (now : Time) (r : Map String StagingItem) (s : Storage) (n : ℕ) (j : String)
    → Map.IsDistinct r
    → Map.get j (cleanup_loop now r (s, n)).0.staging_store
      ≡ swept now (Map.get j r) (Map.get j s.staging_store)
unfolding cleanup_loop put_state Map.get
get-cleanup_loop now [] s n j d = refl
get-cleanup_loop now ((k, v) ∷ r) s n j d = ground (
  arith,
  get-cleanup_loop now r s n j d.1,
  get-cleanup_loop now r (drop_item k v (count_expired v.instance_id s)) (suc n) j d.1,
  get-delete k j s.staging_store,
)

-- If no key is held twice, a tick of the garbage collector removes the transactions that have
-- expired and leaves the others as they are.
pub get-cleanup_staging :
    (now : Time) (s : Storage) (j : String)
    → Map.IsDistinct s.staging_store
    → Map.get j (cleanup_staging now s).0.staging_store ≡ unexpired now (Map.get j s.staging_store)
unfolding cleanup_staging
get-cleanup_staging now s j d = ground (arith, get-cleanup_loop now s.staging_store s 0 j d)

module _ {limit : ℕ} where
  count_expired-IsAccounted :
      (id : String) {s : Storage} → IsAccounted limit s → IsAccounted limit (count_expired id s)
  unfolding count_expired put_state
  count_expired-IsAccounted id inv = record {
    max = inv.max;
    int64 = inv.int64;
    distinct = inv.distinct;
    items = inv.items;
    size = inv.size;
    bound = inv.bound;
  }

  cleanup_loop-IsAccounted :
      (now : Time) (r : Map String StagingItem) (s : Storage) (n : ℕ)
      → Map.IsDistinct r
      → Within r s.staging_store
      → IsAccounted limit s
      → IsAccounted limit (cleanup_loop now r (s, n)).0
  unfolding cleanup_loop
  cleanup_loop-IsAccounted now [] s n d w inv = inv
  cleanup_loop-IsAccounted now ((k, v) ∷ r) s n d w inv =
      elim (Bool-cases (after now v.expires_at)) [
        | inl late ↦
            rw (late, cleanup_loop)
              (cleanup_loop-IsAccounted now r (drop_item k v (count_expired v.instance_id s))
                (suc n) d.1
                (unfold drop_item count_expired put_state in
                  Within-delete k v r s.staging_store d.0 w)
                (drop_item-IsAccounted (count_expired-IsAccounted v.instance_id inv) k v
                  (unfold count_expired put_state in Within-head k v r s.staging_store w)))
        | inr live ↦
            rw (live, cleanup_loop)
              (cleanup_loop-IsAccounted now r s n d.1 (Within-tail k v r s.staging_store d.0 w) inv)
      ]

  -- A tick keeps the accounts.
  pub cleanup_staging-IsAccounted :
      (now : Time) (s : Storage) → IsAccounted limit s → IsAccounted limit (cleanup_staging now s).0
  unfolding cleanup_staging
  cleanup_staging-IsAccounted now s inv =
      cleanup_loop-IsAccounted now s.staging_store s 0 inv.distinct (λ j v e. e) inv

-- metricz_ingest_transactions_expired_total of an instance.
abbrev pub expired_total : String → Storage → ℤ
expired_total id s = (get_or_create_state id s).ingest_stats.expired_transactions

-- The transactions of an instance that have expired.
unfoldable pub expired_of : Time → String → Map String StagingItem → ℕ
expired_of now id [] = 0
expired_of now id ((k, v) ∷ r) =
    ite (v.instance_id ≟ id) (if after now v.expires_at then 1 else 0) 0 + expired_of now id r

expired_total-count_expired :
    (id id' : String) (s : Storage)
    → expired_total id' (count_expired id s)
      ≡ ite (id ≟ id') (add64 (expired_total id' s) (pos 1)) (expired_total id' s)
unfolding count_expired
expired_total-count_expired id id' s =
    ap (λ (st : InstanceState). st.ingest_stats.expired_transactions)
      (get_or_create_state-put_state id id' _ s)
    ∙ pick (id ≟ id')
  where
    pick :
        (d : Dec (id ≡ id'))
        → (ite d (counted_state id s) (get_or_create_state id' s)).ingest_stats.expired_transactions
          ≡ ite d (add64 (expired_total id' s) (pos 1)) (expired_total id' s)
    pick (yes e) = ap (λ j. add64 (expired_total j s) (pos 1)) e
    pick (no _) = refl

expired_total-drop_item :
    (k : String) (v : StagingItem) (s : Storage) (id : String)
    → expired_total id (drop_item k v s) ≡ expired_total id s
unfolding drop_item get_or_create_state
expired_total-drop_item k v s id = refl

expired_total-cleanup_loop :
    (now : Time) (id : String) (r : Map String StagingItem) (s : Storage) (n c : ℕ)
    → expired_total id s ≡ pos c
    → c + expired_of now id r < 2 ^ 63
    → expired_total id (cleanup_loop now r (s, n)).0 ≡ pos (c + expired_of now id r)
unfolding cleanup_loop expired_of
expired_total-cleanup_loop now id [] s n c e h = rw e (ap pos (omega arith))
expired_total-cleanup_loop now id ((k, v) ∷ r) s n c e h =
    elim (Bool-cases (after now v.expires_at)) [
      | inl late ↦
          rw (late, cleanup_loop)
            (expired_total-cleanup_loop now id r (drop_item k v (count_expired v.instance_id s))
                (suc n) (c + ite (v.instance_id ≟ id) 1 0) (counted late) (ground arith)
              ∙ ap pos (omega arith))
      | inr live ↦
          rw (live, cleanup_loop)
            (expired_total-cleanup_loop now id r s n c e (ground arith) ∙ ap pos (ground arith))
    ]
  where
    counted :
        after now v.expires_at ≡ true
        → expired_total id (drop_item k v (count_expired v.instance_id s))
          ≡ pos (c + ite (v.instance_id ≟ id) 1 0)
    counted late =
        expired_total-drop_item k v (count_expired v.instance_id s) id
        ∙ expired_total-count_expired v.instance_id id s
        ∙ ground (arith, add64_eq c 1 (c + 1))

-- If an instance's counter of expired transactions and the number of its expired transactions in
-- the store together fit in an int64, a tick of the garbage collector raises the counter by
-- exactly that number.
pub expired_total-cleanup_staging :
    (now : Time) (id : String) (s : Storage) (c : ℕ)
    → expired_total id s ≡ pos c
    → c + expired_of now id s.staging_store < 2 ^ 63
    → expired_total id (cleanup_staging now s).0 ≡ pos (c + expired_of now id s.staging_store)
unfolding cleanup_staging
expired_total-cleanup_staging now id s c e h =
    expired_total-cleanup_loop now id s.staging_store s 0 c e h
