-- ===== src/Tests/Polling.antt =====
-- The theorems on the pollers at concrete servers and clients.
use metricz_exporter.Base.{
  ℕ, zero, suc, ◌≡◌, refl, pos, Bool, true, false, String, none, some, List, [], ◌∷◌, ◌++◌, ◌⊎◌,
  inl, inr, here,
}
use metricz_exporter.Metrics.{Float64}
use metricz_exporter.Storage.{Duration, get_or_create_state}
use metricz_exporter.Config.{A2sConfig, RconConfig, ServerDefinition, Config}
use metricz_exporter.Poller.A2s.{Info, Client, poll_a2s}
use metricz_exporter.Poller.A2s.Readings.{about}
use metricz_exporter.Entrypoint.Polls.{Shown, collect-a2s_tick}
use metricz_exporter.Storage.Collector.{Desc, new_exporter, collect}
use metricz_exporter.Poller.Rcon.{Bercon, RconSession, new_rcon_session, request, poll}
use metricz_exporter.Poller.Players.{Player}
use metricz_exporter.Poller.Rcon.Calls.{IsTidy}
use metricz_exporter.Poller.Rcon.Sessions.{SessionReach, fresh, polls, session-IsTidy}
use metricz_exporter.Poller.Rcon.Bounds.{Within, poll-Within}
use metricz_exporter.Poller.Manager.{a2s_tick, poll_rcon_and_submit}
use metricz_exporter.Poller.Manager.Ticks.{
  stored, one_sample, availability, poll_rcon_and_submit-up,
}
use metricz_exporter.Tickers.{Wake, ticked, done, returned}
use metricz_exporter.Poller.Rcon.Calls.{unclosed}
use metricz_exporter.Poller.Manager.Loops.{run_rcon_worker, run_rcon_worker-stops}
use metricz_exporter.Storage.{Storage}
use metricz_exporter.Service
use metricz_exporter.Service.{
  interrogate, stop, sends, runs, status_of, accepting, start_pending, stop_pending,
}
use metricz_exporter.Service.Control.{answers, execute-stop}
use metricz_exporter.Tests.{floats, server, config, before}

abbrev a2s : A2sConfig
a2s = record {
  address = "10.0.0.1:27016";
  poll_interval = pos 15;
  deadline_timeout = pos 5;
  buffer_size = 1024;
}

abbrev rcon : RconConfig
rcon = record {
  address = "10.0.0.1:2305";
  password = "secret";
  poll_interval = pos 15;
  keepalive_timeout = pos 30;
  deadline_timeout = pos 5;
  buffer_size = 1024;
  login_attempts = pos 1;
}

abbrev info : Info
info = record {
  ping = pos 20;
  players = 40;
  max_players = 60;
  queue = some 3;
  name = "Namalsk";
  game = "DayZ";
  map = "namalsk";
  version = "1.27";
  port = 2302;
  environment = "Windows";
}

abbrev queried : ServerDefinition
queried = record (server "a") { a2s = some a2s; rcon = some rcon }

abbrev no_seconds : Duration → Float64
no_seconds d = record { bits = 0 }

abbrev client : Client
client = record { new_with_string = λ address. none; get_info = λ address timeout size. inr info }

abbrev every_desc : Desc → Bool
every_desc d = true

collect-a2s_tick_example :
    let s' = a2s_tick floats no_seconds client queried a2s before in
    Shown
      (about "a" "10.0.0.1:27016" info)
      (collect floats every_desc (new_exporter s' (record { bits = 0 }) (pos 60)) (pos 100))
unfolding poll_a2s
collect-a2s_tick_example =
    collect-a2s_tick floats no_seconds client queried a2s before refl every_desc
      (record { bits = 0 }) (pos 60) (pos 100) (about "a" "10.0.0.1:27016" info) here (λ help. refl)

-- A command fails on the first connection, and is answered on the later ones.
abbrev first_fails : ℕ → String ⊎ String
first_fails zero = inl "timeout"
first_fails (suc c) = inr "players"

abbrev bercon : Bercon
bercon = record {
  open_error = λ calls address password. none;
  is_alive = λ calls c. true;
  send = λ calls c command. first_fails c;
}

abbrev ada : Player
ada = record {
  valid = true;
  lobby = false;
  guid = "00";
  name = "Ada";
  ip = "10.0.0.2";
  country = "";
  city = "";
  latitude = record { bits = 0 };
  longitude = record { bits = 0 };
  ping = pos 40;
}

abbrev table : String → List Player
table response = ada ∷ []

abbrev session : RconSession
session = (poll floats table bercon rcon (pos 5) "a" new_rcon_session).0

reached : SessionReach rcon session
reached = polls floats table bercon (pos 5) "a" fresh

session-IsTidy_example : IsTidy session
session-IsTidy_example = session-IsTidy reached

poll-Within_example : Within 2 2 session (poll floats table bercon rcon (pos 9) "a" session).0
poll-Within_example = poll-Within floats table bercon rcon (pos 9) "a" session

abbrev any_label : String → Bool
any_label name = true

abbrev polling : Config
polling = record config { servers = queried ∷ server "b" ∷ [] }

poll_rcon_and_submit-up_example :
    stored "metricz_rcon_up"
      (get_or_create_state "a"
        (poll_rcon_and_submit floats table bercon rcon
          (pos 5)
          "a"
          (session, before)).1).rcon_families
    ≡ one_sample "a" "metricz_rcon_up" (availability (request bercon rcon session).1)
poll_rcon_and_submit-up_example =
    poll_rcon_and_submit-up floats table bercon rcon (pos 5) "a" session before

-- Two ticks, the end, and a tick that is not waited for.
abbrev ticks : List (Wake Storage)
ticks = ticked (pos 20) (λ s. s) ∷ ticked (pos 35) (λ s. s) ∷ []

run_rcon_worker-stops_example :
    let r =
      run_rcon_worker floats table bercon rcon "a"
        (pos 5)
        (ticks ++ done ∷ ticked (pos 50) (λ s. s) ∷ [])
        before in
    (r.1 ≡ returned)
    × (r ≡ run_rcon_worker floats table bercon rcon "a" (pos 5) (ticks ++ done ∷ []) before)
    × (unclosed r.0.0.calls ≡ [])
run_rcon_worker-stops_example =
    run_rcon_worker-stops floats table bercon rcon "a" (pos 5) ticks (ticked (pos 50) (λ s. s) ∷ [])
      before refl

-- A service that is asked for its state, then to stop, and then again.
execute-stop_example :
    Service.execute (interrogate ∷ Service.other 7 ∷ stop ∷ interrogate ∷ []) false ≡ (
      sends (status_of start_pending)
            ∷ runs
            ∷ sends accepting
            ∷ answers (interrogate ∷ Service.other 7 ∷ [])
          ++ sends (status_of stop_pending) ∷ [],
      some (false, 0),
    )
execute-stop_example =
    execute-stop (interrogate ∷ Service.other 7 ∷ []) (interrogate ∷ []) stop false
      (refl, (refl, tt)) refl
