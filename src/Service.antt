-- ===== src/Service.antt =====
-- internal/service/service_windows.go and service_unix.go: the program as a Windows service. What
-- golang.org/x/sys/windows/svc does with a handler is seen through the requests that it sends.
pub mod Control
use metricz_exporter.Base.{
  ℕ, Bool, true, false, String, Option, none, some, List, [], ◌∷◌, ◌⊎◌, inl, inr,
}
use metricz_exporter.Console.{Platform, unix, windows}

-- svc.Cmd: `other` stands for the commands that the handler does not know.
pub data Cmd : Type 0 where
  interrogate stop shutdown : Cmd
  other : ℕ → Cmd

pub data State : Type 0 where
  start_pending running stop_pending : State

-- svc.Status, with AcceptStop and AcceptShutdown of `Accepts`.
pub record Status : Type 0 where
  pub state : State
  pub accept_stop : Bool
  pub accept_shutdown : Bool

-- What Execute does: it sends a status, or starts `run` in a goroutine.
pub data Action : Type 0 where
  sends : Status → Action
  runs : Action

abbrev pub status_of : State → Status
status_of state = record { state = state; accept_stop = false; accept_shutdown = false }

abbrev pub accepting : Status
accepting = record { state = running; accept_stop = true; accept_shutdown = true }

-- for c := range r, over the requests of a channel that is then closed, or on which the handler
-- waits: what it returns, if it does.
unfoldable pub range_requests : List Cmd → Bool → List Action × Option (Bool × ℕ)
range_requests [] true = ([], some (false, 0))
range_requests [] false = ([], none)
range_requests (interrogate ∷ cmds) closed =
    let rest = range_requests cmds closed in (sends accepting ∷ rest.0, rest.1)
range_requests (stop ∷ cmds) closed = (sends (status_of stop_pending) ∷ [], some (false, 0))
range_requests (shutdown ∷ cmds) closed = (sends (status_of stop_pending) ∷ [], some (false, 0))
range_requests (other code ∷ cmds) closed = range_requests cmds closed

-- serviceHandler.Execute
unfoldable pub execute : List Cmd → Bool → List Action × Option (Bool × ℕ)
unfolding range_requests
execute cmds closed =
    let handled = range_requests cmds closed in
    (sends (status_of start_pending) ∷ runs ∷ sends accepting ∷ handled.0, handled.1)

-- os.Executable and filepath.Base, svc.IsWindowsService with its error, and the error of svc.Run
-- under a name, which ends when the handler does.
pub record Scm : Type 0 where
  pub is_windows_service : Bool × Option String
  pub executable : String ⊎ String
  pub base : String → String
  pub run : String → Option String

unfoldable pub is_running_under_windows_service : Platform → Scm → Bool
is_running_under_windows_service unix scm = false
is_running_under_windows_service (windows c) scm = scm.is_windows_service.0

unfoldable pub default_service_name : Scm → String
default_service_name scm = elim scm.executable [
  | inl cause ↦ "beyond-bounds"
  | inr exe ↦ scm.base exe
]

-- The status with which the process exits, or none where the call returns.
unfoldable pub run_under_windows_service : Platform → Scm → Option ℕ
unfolding default_service_name
run_under_windows_service unix scm = some 1
run_under_windows_service (windows c) scm = elim (scm.run (default_service_name scm)) [
  | some cause ↦ some 1
  | none ↦ none
]
