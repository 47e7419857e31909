-- ===== src/Tickers.antt =====
-- The loops of the goroutines in internal/storage/gc.go and internal/poller/manager.go: a time.Ticker
-- and a context.Context in a `select`.
use metricz_exporter.Base.{pos, ltb_ℤ, Bool, List, [], ◌∷◌, ◌++◌, ◌≡◌, refl}
use metricz_exporter.Storage.{Time, Duration}

-- What a loop waits for: a tick, before which the others have done something to the state that they
-- share, or the end of the context. If both are there, `select` takes either.
pub data Wake (S : Type 0) : Type 0 where
  ticked : Time → (S → S) → Wake S
  done : Wake S

-- How a goroutine stands: it still waits, it has returned, or time.NewTicker has panicked.
pub data Stand : Type 0 where
  waiting returned panicked : Stand

-- time.NewTicker panics otherwise.
abbrev pub is_positive : Duration → Bool
is_positive d = ltb_ℤ (pos 0) d

-- for { select { … } }, with the loop's own state beside the shared one.
unfoldable pub select_loop :
    {L S : Type 0} → (Time → L × S → L × S) → List (Wake S) → L × S → (L × S) × Stand
select_loop tick [] state = (state, waiting)
select_loop tick (done ∷ wakes) state = (state, returned)
select_loop tick (ticked now others ∷ wakes) (own, shared) =
    select_loop tick wakes (tick now (own, others shared))

module _ {L S : Type 0} (tick : Time → L × S → L × S) where
  -- What every tick keeps holds after the loop.
  pub select_loop-keeps {κ} :
      (P : L → Type κ)
      → ((now : Time) (state : L × S) → P state.0 → P (tick now state).0)
      → (wakes : List (Wake S)) (state : L × S) → P state.0
      → P (select_loop tick wakes state).0.0
  unfolding select_loop
  select_loop-keeps P step [] state p = p
  select_loop-keeps P step (done ∷ wakes) state p = p
  select_loop-keeps P step (ticked now others ∷ wakes) (own, shared) p =
      select_loop-keeps P step wakes (tick now (own, others shared))
        (step now (own, others shared) p)

  -- A loop returns at the first end of its context, whatever would come after.
  pub select_loop-returned :
      (wakes rest : List (Wake S)) (state : L × S)
      → (select_loop tick (wakes ++ done ∷ rest) state).1 ≡ returned
  unfolding select_loop
  select_loop-returned [] rest state = refl
  select_loop-returned (done ∷ wakes) rest state = refl
  select_loop-returned (ticked now others ∷ wakes) rest (own, shared) =
      select_loop-returned wakes rest (tick now (own, others shared))

  pub select_loop-done :
      (wakes rest : List (Wake S)) (state : L × S)
      → select_loop tick (wakes ++ done ∷ rest) state ≡ select_loop tick (wakes ++ done ∷ []) state
  unfolding select_loop
  select_loop-done [] rest state = refl
  select_loop-done (done ∷ wakes) rest state = refl
  select_loop-done (ticked now others ∷ wakes) rest (own, shared) =
      select_loop-done wakes rest (tick now (own, others shared))
