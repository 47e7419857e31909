-- ===== src/Poller/Rcon/Bounds.antt =====
-- How often a poll calls the server: rcon.go, Poll.
use metricz_exporter.Base.{
  ℕ, ◌+◌, ◌≤◌, String, Option-cases, Sum-cases, List, [], ◌∷◌, inl, inr, arith,
}
use metricz_exporter.Metrics.{FloatOps}
use metricz_exporter.Storage.{Time}
use metricz_exporter.Config.{RconConfig}
use metricz_exporter.Poller.Rcon.{
  Call, opened, not_opened, sent, Bercon, RconSession, close_internal, set_up, Connected, connect,
  ensure_connection, Polled, send_on, retry, retry_connected, send_players, send_connected, request,
  finish, poll,
}
use metricz_exporter.Poller.Players.{Player}

-- The commands sent, and the attempts to connect.
unfoldable pub commands : List Call → ℕ
commands [] = 0
commands (sent c command ∷ calls) = commands calls + 1
commands (_ ∷ calls) = commands calls

unfoldable pub attempts : List Call → ℕ
attempts [] = 0
attempts (opened c address password ∷ calls) = attempts calls + 1
attempts (not_opened address password ∷ calls) = attempts calls + 1
attempts (_ ∷ calls) = attempts calls

-- At most `n` commands and `k` attempts from the first session to the second.
pub record Within (n k : ℕ) (s s' : RconSession) : Type 0 where
  pub sending : commands s'.calls ≤ commands s.calls + n
  pub opening : attempts s'.calls ≤ attempts s.calls + k

close_internal-Within : (s : RconSession) → Within 0 0 s (close_internal s)
unfolding close_internal commands attempts
close_internal-Within s = ground arith

connect-Within :
    (bercon : Bercon) (cfg : RconConfig) (s : RconSession) → Within 0 1 s (connect bercon cfg s).0
unfolding connect commands attempts set_up
connect-Within bercon cfg s =
    let w = close_internal-Within s in
    let s' = close_internal s in
    elim (Option-cases (Bercon.open_error bercon s'.calls cfg.address cfg.password)) [
      | inl h ↦
          rw (h, connect)
            (record { sending = omega (arith, w.sending); opening = omega (arith, w.opening) })
      | inr (cause, h) ↦
          rw (h, connect)
            (record { sending = omega (arith, w.sending); opening = omega (arith, w.opening) })
    ]

ensure_connection-Within :
    (bercon : Bercon) (cfg : RconConfig) (s : RconSession)
    → Within 0 1 s (ensure_connection bercon cfg s).0
unfolding ensure_connection
ensure_connection-Within bercon cfg s = ground (arith, connect-Within bercon cfg s)

Within-trans :
    {n k m l : ℕ} {s t u : RconSession}
    → Within n k s t
    → Within m l t u
    → Within (n + m) (k + l) s u
Within-trans a b = record {
  sending = omega (arith, a.sending, b.sending);
  opening = omega (arith, a.opening, b.opening);
}

Within-weaken : {n k m l : ℕ} {s t : RconSession} → n ≤ m → k ≤ l → Within n k s t → Within m l s t
Within-weaken p q a = record {
  sending = omega (arith, a.sending);
  opening = omega (arith, a.opening);
}

send_on-Within : (s : RconSession) (c : ℕ) → Within 1 0 s (send_on s c)
unfolding commands attempts
send_on-Within s c = record { sending = omega arith; opening = omega arith }

module _ (bercon : Bercon) (cfg : RconConfig) where
  retry-Within : (s : RconSession) (c : ℕ) → Within 1 0 s (retry bercon s c).0
  unfolding retry
  retry-Within s c = elim (Sum-cases (Bercon.send bercon s.calls c "players")) [
    | inl (cause, e) ↦
        rw (e, retry) (Within-trans (send_on-Within s c) (close_internal-Within (send_on s c)))
    | inr (response, e) ↦ rw (e, retry) (send_on-Within s c)
  ]

  retry_connected-Within :
      {n k : ℕ} (s : RconSession) (p : Connected)
      → Within n k s p.0
      → Within (n + 1) (k + 0) s (retry_connected bercon p).0
  retry_connected-Within s (t, inl cause) w = Within-weaken (omega arith) (omega arith) w
  retry_connected-Within s (t, inr c) w = Within-trans w (retry-Within t c)

  send_players-Within : (s : RconSession) (c : ℕ) → Within 2 1 s (send_players bercon cfg s c).0
  unfolding send_players
  send_players-Within s c = elim (Sum-cases (Bercon.send bercon s.calls c "players")) [
    | inl (cause, e) ↦
        let dropped = close_internal (send_on s c) in
        let closing = Within-trans (send_on-Within s c) (close_internal-Within (send_on s c)) in
        rw (e, send_players)
          (retry_connected-Within s (connect bercon cfg dropped)
            (Within-trans closing (connect-Within bercon cfg dropped)))
    | inr (response, e) ↦
        rw (e, send_players) (Within-weaken (omega arith) (omega arith) (send_on-Within s c))
  ]

  send_connected-Within :
      (s : RconSession) (p : Connected)
      → Within 0 1 s p.0
      → Within 2 2 s (send_connected bercon cfg p).0
  send_connected-Within s (t, inl cause) w = Within-weaken (omega arith) (omega arith) w
  send_connected-Within s (t, inr c) w = Within-trans w (send_players-Within t c)

finish-Within :
    {n k : ℕ} (float : FloatOps) (parse : String → List Player) (now : Time) (id : String)
    (s : RconSession) (p : Polled)
    → Within n k s p.0
    → Within n k s (finish float parse now id p).0
finish-Within float parse now id s (t, inl e) w = w
finish-Within float parse now id s (t, inr response) w = record {
  sending = w.sending;
  opening = w.opening;
}

-- Whatever the connections answer, one Poll sends at most two commands and calls Open at most
-- twice.
pub poll-Within :
    (float : FloatOps) (parse : String → List Player) (bercon : Bercon) (cfg : RconConfig)
    (now : Time) (id : String) (s : RconSession)
    → Within 2 2 s (poll float parse bercon cfg now id s).0
unfolding poll request
poll-Within float parse bercon cfg now id s =
    finish-Within float parse now id s (request bercon cfg s) (
      send_connected-Within bercon cfg s (ensure_connection bercon cfg s)
        (ensure_connection-Within bercon cfg s))
