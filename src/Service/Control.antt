-- ===== src/Service/Control.antt =====
-- The statuses that the service's handler sends: service_windows.go, Execute.
use metricz_exporter.Base.{◌≡◌, refl, Bool, true, false, some, List, [], ◌∷◌, ◌++◌}
use metricz_exporter.Service.{
  Cmd, interrogate, stop, shutdown, other, start_pending, stop_pending, Action, sends, runs,
  status_of, accepting, range_requests, execute,
}

-- A request that ends the service.
abbrev pub is_stop : Cmd → Bool
is_stop interrogate = false
is_stop stop = true
is_stop shutdown = true
is_stop (other code) = false

-- None of the requests ends it.
abbrev pub IsServing : List Cmd → Type 0
IsServing [] = Unit
IsServing (cmd ∷ cmds) = (is_stop cmd ≡ false) × IsServing cmds

-- One answer to each inquiry.
unfoldable pub answers : List Cmd → List Action
answers [] = []
answers (interrogate ∷ cmds) = sends accepting ∷ answers cmds
answers (_ ∷ cmds) = answers cmds

range_requests-stop :
    (cmds rest : List Cmd) (cmd : Cmd) (closed : Bool)
    → IsServing cmds
    → is_stop cmd ≡ true
    → range_requests (cmds ++ cmd ∷ rest) closed
      ≡ (answers cmds ++ sends (status_of stop_pending) ∷ [], some (false, 0))
unfolding range_requests answers
range_requests-stop [] rest stop closed s h = refl
range_requests-stop [] rest shutdown closed s h = refl
range_requests-stop [] rest interrogate closed s h = cc
range_requests-stop [] rest (other code) closed s h = cc
range_requests-stop (interrogate ∷ cmds) rest cmd closed s h =
    rw (range_requests-stop cmds rest cmd closed s.1 h) refl
range_requests-stop (other code ∷ cmds) rest cmd closed s h =
    range_requests-stop cmds rest cmd closed s.1 h
range_requests-stop (stop ∷ cmds) rest cmd closed s h = let absurd : true ≡ false = s.0 in cc
range_requests-stop (shutdown ∷ cmds) rest cmd closed s h = let absurd : true ≡ false = s.0 in cc

-- As a service, the program announces that it starts, is started once, announces that it runs,
-- answers each inquiry that comes before the first request to stop or to shut down, and to that
-- request announces that it stops; the handler then returns without an error and sends nothing
-- more, whatever else is requested.
pub execute-stop :
    (cmds rest : List Cmd) (cmd : Cmd) (closed : Bool)
    → IsServing cmds
    → is_stop cmd ≡ true
    → execute (cmds ++ cmd ∷ rest) closed ≡ (
      sends (status_of start_pending) ∷ runs ∷ sends accepting ∷ answers cmds
          ++ sends (status_of stop_pending) ∷ [],
      some (false, 0),
    )
unfolding execute
execute-stop cmds rest cmd closed s h = rw (range_requests-stop cmds rest cmd closed s h) refl
