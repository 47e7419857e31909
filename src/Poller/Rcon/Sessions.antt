-- ===== src/Poller/Rcon/Sessions.antt =====
-- The calls that an RCon session makes, over its whole life: rcon.go, Poll and Close.
use metricz_exporter.Base.{
  ℕ, ◌≡◌, refl, sym, subst, nat_key, Bool-cases, String, Option-cases, Sum-cases, some, List, [],
  ◌∷◌, inl, inr,
}
use metricz_exporter.Metrics.{FloatOps}
use metricz_exporter.Storage.{Time}
use metricz_exporter.Config.{RconConfig}
use metricz_exporter.Poller.Rcon.{
  Call, not_opened, sent, Bercon, RconSession, new_rcon_session, close_internal, next_conn,
  Connected, connect, ensure_connection, Polled, send_on, retry, retry_connected, send_players,
  send_connected, request, finish, poll,
}
use metricz_exporter.Poller.Players.{Player}
use metricz_exporter.Poller.Rcon.Calls.{
  unclosed, IsOrderly, held, Balanced, IsTidy, set_up-Balanced, sent-Balanced,
  close_internal-Balanced,
}

-- A session that is tidy, and holds the connection that it was given.
abbrev Reached : Connected → Type 0
Reached (s, inl cause) = IsTidy s
Reached (s, inr c) = IsTidy s × (s.conn ≡ some c)

not_opened-Balanced :
    (address password : String) (calls : List Call)
    → Balanced [] calls
    → Balanced [] (not_opened address password ∷ calls)
unfolding unclosed IsOrderly
not_opened-Balanced address password calls b = record { kept = b.kept; orderly = (tt, b.orderly) }

connect-Reached :
    (bercon : Bercon) (cfg : RconConfig) (s : RconSession)
    → IsTidy s
    → Reached (connect bercon cfg s)
unfolding connect
connect-Reached bercon cfg s b =
    let s' = close_internal s in
    let (idle, free) = close_internal-Balanced s b in
    elim (Option-cases (Bercon.open_error bercon s'.calls cfg.address cfg.password)) [
      | inl h ↦ rw (h, connect) (set_up-Balanced cfg (next_conn s'.calls) s'.calls idle, refl)
      | inr (cause, h) ↦
          rw (h, connect, free) (not_opened-Balanced cfg.address cfg.password s'.calls idle)
    ]

ensure_connection-Reached :
    (bercon : Bercon) (cfg : RconConfig) (s : RconSession)
    → IsTidy s
    → Reached (ensure_connection bercon cfg s)
unfolding ensure_connection
ensure_connection-Reached bercon cfg s b = elim (Option-cases s.conn) [
  | inl h ↦ rw (h, ensure_connection) (connect-Reached bercon cfg s b)
  | inr (c, h) ↦ elim (Bool-cases (Bercon.is_alive bercon s.calls c)) [
    | inl alive ↦ rw (h, ensure_connection) (rw alive (b, h))
    | inr dead ↦ rw (h, ensure_connection) (rw dead (connect-Reached bercon cfg s b))
  ]
]

send_on-IsTidy : (s : RconSession) (c : ℕ) → IsTidy s → s.conn ≡ some c → IsTidy (send_on s c)
send_on-IsTidy s c b h =
    subst (λ o. Balanced (held o) (sent c "players" ∷ s.calls)) (sym h)
      (sent-Balanced c s.calls (subst (λ o. Balanced (held o) s.calls) h b) "players")

close_internal-IsTidy : (s : RconSession) → IsTidy s → IsTidy (close_internal s)
close_internal-IsTidy s b =
    let (idle, free) = close_internal-Balanced s b in
    subst (λ o. Balanced (held o) (close_internal s).calls) (sym free) idle

module _ (bercon : Bercon) (cfg : RconConfig) where
  retry-IsTidy :
      (s : RconSession) (c : ℕ) → IsTidy s → s.conn ≡ some c → IsTidy (retry bercon s c).0
  unfolding retry
  retry-IsTidy s c b h = elim (Sum-cases (Bercon.send bercon s.calls c "players")) [
    | inl (cause, e) ↦ rw (e, retry) (close_internal-IsTidy (send_on s c) (send_on-IsTidy s c b h))
    | inr (response, e) ↦ rw (e, retry) (send_on-IsTidy s c b h)
  ]

  retry_connected-IsTidy : (p : Connected) → Reached p → IsTidy (retry_connected bercon p).0
  retry_connected-IsTidy (s, inl cause) b = b
  retry_connected-IsTidy (s, inr c) (b, h) = retry-IsTidy s c b h

  send_players-IsTidy :
      (s : RconSession) (c : ℕ)
      → IsTidy s
      → s.conn ≡ some c
      → IsTidy (send_players bercon cfg s c).0
  unfolding send_players
  send_players-IsTidy s c b h = elim (Sum-cases (Bercon.send bercon s.calls c "players")) [
    | inl (cause, e) ↦
        let dropped = close_internal (send_on s c) in
        rw (e, send_players)
          (retry_connected-IsTidy (connect bercon cfg dropped) (
            connect-Reached bercon cfg dropped
              (close_internal-IsTidy (send_on s c) (send_on-IsTidy s c b h))))
    | inr (response, e) ↦ rw (e, send_players) (send_on-IsTidy s c b h)
  ]

  send_connected-IsTidy : (p : Connected) → Reached p → IsTidy (send_connected bercon cfg p).0
  send_connected-IsTidy (s, inl cause) b = b
  send_connected-IsTidy (s, inr c) (b, h) = send_players-IsTidy s c b h

  request-IsTidy : (s : RconSession) → IsTidy s → IsTidy (request bercon cfg s).0
  unfolding request
  request-IsTidy s b =
      send_connected-IsTidy (ensure_connection bercon cfg s)
        (ensure_connection-Reached bercon cfg s b)

module _ (float : FloatOps) (parse : String → List Player) where
  finish-IsTidy :
      (now : Time) (id : String) (p : Polled) → IsTidy p.0 → IsTidy (finish float parse now id p).0
  finish-IsTidy now id (s, inl e) b = b
  finish-IsTidy now id (s, inr response) b = b

  pub poll-IsTidy :
      (bercon : Bercon) (cfg : RconConfig) (now : Time) (id : String) (s : RconSession)
      → IsTidy s
      → IsTidy (poll float parse bercon cfg now id s).0
  unfolding poll
  poll-IsTidy bercon cfg now id s b =
      finish-IsTidy now id (request bercon cfg s) (request-IsTidy bercon cfg s b)

-- A session's life: polls, each with whatever the connection answers, and calls of Close.
pub data SessionReach (cfg : RconConfig) : RconSession → Type 0 where
  fresh : SessionReach cfg new_rcon_session
  polls :
      {s : RconSession} (float : FloatOps) (parse : String → List Player) (bercon : Bercon)
      (now : Time) (id : String)
      → SessionReach cfg s
      → SessionReach cfg (poll float parse bercon cfg now id s).0
  closes : {s : RconSession} → SessionReach cfg s → SessionReach cfg (close_internal s)

new_rcon_session-IsTidy : IsTidy new_rcon_session
unfolding unclosed IsOrderly
new_rcon_session-IsTidy = record { kept = refl; orderly = tt }

-- After any sequence of polls and closings of a new session, whatever the connections answer and
-- the players' parser makes of it: the session's connection is the only one that was opened and
-- not closed, there is none if the session has none, and every setting, command and closing was
-- made on a connection that was open then.
pub session-IsTidy : {cfg : RconConfig} {s : RconSession} → SessionReach cfg s → IsTidy s
session-IsTidy fresh = new_rcon_session-IsTidy
session-IsTidy {cfg} (polls {s} float parse bercon now id r) =
    poll-IsTidy float parse bercon cfg now id s (session-IsTidy r)
session-IsTidy (closes {s} r) = close_internal-IsTidy s (session-IsTidy r)

-- After any sequence of polls and closings of a new session, Close leaves no connection open.
pub unclosed-close_internal :
    {cfg : RconConfig} {s : RconSession}
    → SessionReach cfg s
    → unclosed (close_internal s).calls ≡ []
unclosed-close_internal {s} r = (close_internal-Balanced s (session-IsTidy r)).0.kept
