-- ===== src/Poller/Manager/Loops.antt =====
-- The workers' goroutines: manager.go, runA2SWorker and runRConWorker.
use metricz_exporter.Base.{
  ◌≡◌, refl, ap, ◌∙◌, true, if◌then◌else◌, String, List, [], ◌∷◌, ◌++◌, arith,
}
use metricz_exporter.Metrics.{Float64, FloatOps}
use metricz_exporter.Storage.{Time, Duration, Storage}
use metricz_exporter.Config.{A2sConfig, RconConfig, ServerDefinition}
use metricz_exporter.Tickers.{
  Wake, done, Stand, waiting, returned, panicked, is_positive, select_loop, select_loop-keeps,
  select_loop-done, select_loop-returned,
}
use metricz_exporter.Poller.A2s.{Client}
use metricz_exporter.Poller.Rcon.{Bercon, RconSession, new_rcon_session, close_internal}
use metricz_exporter.Poller.Players.{Player}
use metricz_exporter.Poller.Rcon.Calls.{unclosed}
use metricz_exporter.Poller.Rcon.Sessions.{SessionReach, fresh, polls, unclosed-close_internal}
use metricz_exporter.Poller.Manager.{a2s_tick, poll_rcon_and_submit}

-- The client may answer differently at each tick.
unfoldable pub run_a2s_worker :
    FloatOps
    → (Duration → Float64)
    → (Time → Client)
    → ServerDefinition
    → A2sConfig
    → List (Wake Storage)
    → Storage
    → (Unit {0} × Storage) × Stand
unfolding a2s_tick select_loop
run_a2s_worker float seconds client srv cfg wakes s =
    if is_positive cfg.poll_interval
    then select_loop (λ now st. (tt, a2s_tick float seconds (client now) srv cfg st.1)) wakes
        (tt, s)
    else ((tt, s), panicked)

-- defer session.Close()
abbrev pub deferred : {S : Type 0} → (RconSession × S) × Stand → (RconSession × S) × Stand
deferred ((session, s), waiting) = ((session, s), waiting)
deferred ((session, s), returned) = ((close_internal session, s), returned)
deferred ((session, s), panicked) = ((close_internal session, s), panicked)

-- `now` is the time of the first poll, which does not wait for a tick.
unfoldable pub run_rcon_worker :
    FloatOps
    → (String → List Player)
    → Bercon
    → RconConfig
    → String
    → Time
    → List (Wake Storage)
    → Storage
    → (RconSession × Storage) × Stand
unfolding poll_rcon_and_submit select_loop close_internal
run_rcon_worker float parse bercon cfg id now wakes s =
    let submit = λ (at : Time) (st : RconSession × Storage).
      poll_rcon_and_submit float parse bercon cfg at id st in
    deferred (
      if is_positive cfg.poll_interval
      then select_loop submit wakes (submit now (new_rcon_session, s))
      else ((new_rcon_session, s), panicked))

deferred-returned :
    {S : Type 0} (p : (RconSession × S) × Stand)
    → p.1 ≡ returned
    → deferred p ≡ ((close_internal p.0.0, p.0.1), returned)
deferred-returned ((session, s), returned) h = refl
deferred-returned ((session, s), waiting) h = let no : ⊥ = ground arith in elim no [ ]
deferred-returned ((session, s), panicked) h = let no : ⊥ = ground arith in elim no [ ]

module _ (float : FloatOps) (parse : String → List Player) (bercon : Bercon) (cfg : RconConfig)
    (id : String) (now : Time) where
  abbrev submit : Time → RconSession × Storage → RconSession × Storage
  submit at st = poll_rcon_and_submit float parse bercon cfg at id st

  submit-Reach :
      (at : Time) (st : RconSession × Storage)
      → SessionReach cfg st.0
      → SessionReach cfg (submit at st).0
  unfolding poll_rcon_and_submit
  submit-Reach at (session, s) r = polls float parse bercon at id r

  abbrev looped : List (Wake Storage) → Storage → (RconSession × Storage) × Stand
  looped wakes s = select_loop submit wakes (submit now (new_rcon_session, s))

  looped-Reach : (wakes : List (Wake Storage)) (s : Storage) → SessionReach cfg (looped wakes s).0.0
  looped-Reach wakes s =
      select_loop-keeps submit (SessionReach cfg) submit-Reach wakes
        (submit now (new_rcon_session, s)) (submit-Reach now (new_rcon_session, s) fresh)

  run_rcon_worker-looped :
      (wakes : List (Wake Storage)) (s : Storage)
      → is_positive cfg.poll_interval ≡ true
      → run_rcon_worker float parse bercon cfg id now wakes s ≡ deferred (looped wakes s)
  unfolding run_rcon_worker
  run_rcon_worker-looped wakes s positive = rw positive refl

  run_rcon_worker-done :
      (wakes rest : List (Wake Storage)) (s : Storage)
      → is_positive cfg.poll_interval ≡ true
      → run_rcon_worker float parse bercon cfg id now (wakes ++ done ∷ rest) s ≡ (
        (close_internal (looped (wakes ++ done ∷ []) s).0.0, (looped (wakes ++ done ∷ []) s).0.1),
        returned,
      )
  run_rcon_worker-done wakes rest s positive =
      run_rcon_worker-looped (wakes ++ done ∷ rest) s positive
      ∙ ap deferred (select_loop-done submit wakes rest (submit now (new_rcon_session, s)))
      ∙ deferred-returned (looped (wakes ++ done ∷ []) s)
          (select_loop-returned submit wakes [] (submit now (new_rcon_session, s)))

  -- Where the polling interval is positive, runRConWorker returns at the end of its context,
  -- whatever ticks come before, whatever the others do to the storage between them, and whatever
  -- the connections answer; what would come later makes no difference, and every connection that
  -- it has opened is closed.
  pub run_rcon_worker-stops :
      (wakes rest : List (Wake Storage)) (s : Storage)
      → is_positive cfg.poll_interval ≡ true
      → let r = run_rcon_worker float parse bercon cfg id now (wakes ++ done ∷ rest) s in
        (r.1 ≡ returned)
        × (r ≡ run_rcon_worker float parse bercon cfg id now (wakes ++ done ∷ []) s)
        × (unclosed r.0.0.calls ≡ [])
  run_rcon_worker-stops wakes rest s positive =
      rw (run_rcon_worker-done wakes rest s positive, run_rcon_worker-done wakes [] s positive)
        (refl, refl, unclosed-close_internal (looped-Reach (wakes ++ done ∷ []) s))
