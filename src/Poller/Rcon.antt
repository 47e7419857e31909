-- ===== src/Poller/Rcon.antt =====
-- internal/poller/rcon.go. The connection of github.com/woozymasta/bercon-cli is seen through the
-- calls that the session makes, newest first: what a call answers may depend on all before it. A
-- connection is the number of those opened before it.
pub mod Calls
pub mod Sessions
pub mod Bounds
use metricz_exporter.Base.{
  ℕ, suc, ◌+◌, ℤ, pos, Bool, true, false, not, ◌&&◌, if◌then◌else◌, String, str_eq, Option, none,
  some, List, [], ◌∷◌, ◌++◌, ◌⊎◌, inl, inr,
}
use metricz_exporter.Base.Map.{Map}
use metricz_exporter.Metrics.{Float64, float_zero, float_one, is_zero, FloatOps, Families}
use metricz_exporter.Storage.{Time, Duration}
use metricz_exporter.Config.{RconConfig, ServerDefinition}
use metricz_exporter.Poller.Players.{Player, generate_metrics}

pub data Call : Type 0 where
  -- bercon.Open, with the address and the password
  opened : ℕ → String → String → Call
  not_opened : String → String → Call
  set_keepalive set_deadline : ℕ → Duration → Call
  set_buffer_size : ℕ → ℕ → Call
  set_login_attempts : ℕ → ℤ → Call
  start_keep_alive : ℕ → Call
  sent : ℕ → String → Call
  closed : ℕ → Call

-- The answers: the error of Open, if it fails; IsAlive; the error or the response of Send.
pub record Bercon : Type 0 where
  pub open_error : List Call → String → String → Option String
  pub is_alive : List Call → ℕ → Bool
  pub send : List Call → ℕ → String → String ⊎ String

-- A session, with the calls that were made so far.
pub record RconSession : Type 0 where
  pub last_active : Time
  pub conn : Option ℕ
  pub calls : List Call

-- NewRConSession
abbrev pub new_rcon_session : RconSession
new_rcon_session = record { last_active = pos 0; conn = none; calls = [] }

unfoldable pub close_internal : RconSession → RconSession
close_internal s = elim s.conn [
  | none ↦ s
  | some c ↦ record s { conn = none; calls = closed c ∷ s.calls }
]

-- How many were opened.
unfoldable pub next_conn : List Call → ℕ
next_conn [] = 0
next_conn (opened c address password ∷ calls) = next_conn calls + 1
next_conn (_ ∷ calls) = next_conn calls

-- Open and the settings, in the order in which connect makes them.
unfoldable pub set_up : RconConfig → ℕ → List Call → List Call
set_up cfg c calls =
    start_keep_alive c
    ∷ set_login_attempts c cfg.login_attempts
    ∷ set_buffer_size c cfg.buffer_size
    ∷ set_deadline c cfg.deadline_timeout
    ∷ set_keepalive c cfg.keepalive_timeout
    ∷ opened c cfg.address cfg.password
    ∷ calls

abbrev pub Connected : Type 0
Connected = RconSession × (String ⊎ ℕ)

-- connect, with the error or the new connection.
unfoldable pub connect : Bercon → RconConfig → RconSession → Connected
unfolding close_internal next_conn set_up
connect bercon cfg s =
    let s' = close_internal s in
    elim (Bercon.open_error bercon s'.calls cfg.address cfg.password) [
      | some cause ↦
          (record s' { calls = not_opened cfg.address cfg.password ∷ s'.calls }, inl cause)
      | none ↦
          let c = next_conn s'.calls in
          (record s' { conn = some c; calls = set_up cfg c s'.calls }, inr c)
    ]

-- Poll, up to a connection that is alive.
unfoldable pub ensure_connection : Bercon → RconConfig → RconSession → Connected
unfolding connect
ensure_connection bercon cfg s = elim s.conn [
  | none ↦ connect bercon cfg s
  | some c ↦ if Bercon.is_alive bercon s.calls c then (s, inr c) else connect bercon cfg s
]

pub data RconError : Type 0 where
  -- "initial connect failed: %w"
  initial_connect_failed : String → RconError
  reconnect_failed retry_failed : String → RconError

-- The session, and the error or the response.
abbrev pub Polled : Type 0
Polled = RconSession × (RconError ⊎ String)

abbrev pub send_on : RconSession → ℕ → RconSession
send_on s c = record s { calls = sent c "players" ∷ s.calls }

-- The second Send, on the new connection.
unfoldable pub retry : Bercon → RconSession → ℕ → Polled
unfolding close_internal
retry bercon s c = elim (Bercon.send bercon s.calls c "players") [
  | inl cause ↦ (close_internal (send_on s c), inl (retry_failed cause))
  | inr response ↦ (send_on s c, inr response)
]

abbrev pub retry_connected : Bercon → Connected → Polled
retry_connected bercon (s, inl cause) = (s, inl (reconnect_failed cause))
retry_connected bercon (s, inr c) = retry bercon s c

-- The first Send, and where it fails a new connection and the second.
unfoldable pub send_players : Bercon → RconConfig → RconSession → ℕ → Polled
unfolding retry connect close_internal
send_players bercon cfg s c = elim (Bercon.send bercon s.calls c "players") [
  | inl cause ↦ retry_connected bercon (connect bercon cfg (close_internal (send_on s c)))
  | inr response ↦ (send_on s c, inr response)
]

abbrev pub send_connected : Bercon → RconConfig → Connected → Polled
send_connected bercon cfg (s, inl cause) = (s, inl (initial_connect_failed cause))
send_connected bercon cfg (s, inr c) = send_players bercon cfg s c

-- Poll, up to the response.
unfoldable pub request : Bercon → RconConfig → RconSession → Polled
unfolding ensure_connection send_players
request bercon cfg s = send_connected bercon cfg (ensure_connection bercon cfg s)

-- The rest of Poll. `parse` is Players.Parse, with SetGeo where a database is open.
abbrev pub finish :
    FloatOps
    → (String → List Player)
    → Time
    → String
    → Polled
    → RconSession × Families × Option RconError
finish float parse now id (s, inl e) = (s, generate_metrics float id none, some e)
finish float parse now id (s, inr response) =
    (record s { last_active = now }, generate_metrics float id (some (parse response)), none)

unfoldable pub poll :
    FloatOps
    → (String → List Player)
    → Bercon
    → RconConfig
    → Time
    → String
    → RconSession
    → RconSession × Families × Option RconError
unfolding request generate_metrics
poll float parse bercon cfg now id s = finish float parse now id (request bercon cfg s)
