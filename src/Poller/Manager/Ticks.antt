-- ===== src/Poller/Manager/Ticks.antt =====
-- What a tick leaves in the storage: manager.go, pollRConAndSubmit and runA2SWorker.
use metricz_exporter.Base.{
  ◌≡◌, refl, ap, ◌∙◌, Bool-cases, String, String-discrete, string_key, Option, none, some, List, [],
  ◌∷◌, ◌⊎◌, inl, inr, arith,
}
use metricz_exporter.Metrics.{Float64, float_zero, float_one, FloatOps, Metric, Families}
use metricz_exporter.Storage.{
  Time, Duration, Storage, get_or_create_state, update_polled, update_rcon,
}
use metricz_exporter.Storage.Live.{get_or_create_state-put_state}
use metricz_exporter.Config.{A2sConfig, RconConfig, ServerDefinition}
use metricz_exporter.Poller.Dto.Series.{series_of, series_in, series_in-append, own_gauge}
use metricz_exporter.Poller.A2s.{Info, PollError, Client, poll_a2s, gauges_of, set_a2s_metrics}
use metricz_exporter.Poller.A2s.Series.{series_of-set_a2s_metrics}
use metricz_exporter.Poller.Rcon.{Bercon, RconSession, Polled, request, finish, poll}
use metricz_exporter.Poller.Players.{Player, is_located, up_of, generate_metrics}
use metricz_exporter.Poller.Players.Series.{
  player_samples, players_samples, present, series_of-generate_metrics,
}
use metricz_exporter.Poller.Manager.{info_of, a2s_tick, poll_rcon_and_submit}

-- The samples under a name in a set of families that may be missing.
abbrev pub stored : String → Option Families → List Metric
stored name none = []
stored name (some families) = series_of name families

-- One sample, of the instance, with the value.
abbrev pub one_sample : String → String → Float64 → List Metric
one_sample id name value = (own_gauge id name value).1 ∷ []

pub update_polled-polled :
    (id : String) (families : Families) (s : Storage)
    → (get_or_create_state id (update_polled id families s)).polled_families ≡ some families
unfolding update_polled
update_polled-polled id families s =
    let state = get_or_create_state id s in
    ground (
      arith,
      get_or_create_state-put_state id id (record state { polled_families = some families }) s,
    )

update_rcon-rcon :
    (id : String) (families : Families) (s : Storage)
    → (get_or_create_state id (update_rcon id families s)).rcon_families ≡ some families
unfolding update_rcon
update_rcon-rcon id families s =
    let state = get_or_create_state id s in
    ground (
      arith,
      get_or_create_state-put_state id id (record state { rcon_families = some families }) s,
    )

-- 1 if there is an answer, 0 if there is an error.
abbrev pub availability {ℓ κ} : {A : Type ℓ} {B : Type κ} → A ⊎ B → Float64
availability (inl e) = float_zero
availability (inr answer) = float_one

a2s_up :
    (float : FloatOps) (seconds : Duration → Float64) (srv : ServerDefinition)
    (answer : PollError ⊎ Info)
    → series_of "metricz_a2s_up" (set_a2s_metrics float seconds srv (info_of answer))
      ≡ one_sample srv.instance_id "metricz_a2s_up" (availability answer)
unfolding series_in gauges_of String-discrete
a2s_up float seconds srv (inl e) = series_of-set_a2s_metrics float seconds srv none "metricz_a2s_up"
a2s_up float seconds srv (inr info) =
    series_of-set_a2s_metrics float seconds srv (some info) "metricz_a2s_up"

-- After a tick of the A2S worker, the instance's polled families in the storage hold exactly one
-- sample of metricz_a2s_up, which is 1 if the query was answered and 0 if the client or the query
-- failed.
pub a2s_tick-up :
    (float : FloatOps) (seconds : Duration → Float64) (client : Client) (srv : ServerDefinition)
    (cfg : A2sConfig) (s : Storage)
    → stored "metricz_a2s_up"
        (get_or_create_state srv.instance_id
          (a2s_tick float seconds client srv cfg s)).polled_families
      ≡ one_sample srv.instance_id "metricz_a2s_up" (availability (poll_a2s client cfg))
unfolding a2s_tick
a2s_tick-up float seconds client srv cfg s =
    ap (stored "metricz_a2s_up") (update_polled-polled srv.instance_id _ s)
    ∙ a2s_up float seconds srv (poll_a2s client cfg)

no_up-player :
    (float : FloatOps) (id : String) (p : Player)
    → series_in "metricz_rcon_up" (player_samples float id p) ≡ []
unfolding series_in String-discrete
no_up-player float id p = elim (Bool-cases (is_located p)) [
  | inl known ↦ rw known refl
  | inr unknown ↦ rw unknown refl
]

no_up-players :
    (float : FloatOps) (id : String) (ps : List Player)
    → series_in "metricz_rcon_up" (players_samples float id ps) ≡ []
unfolding players_samples series_in
no_up-players float id [] = refl
no_up-players float id (p ∷ ps) =
    series_in-append "metricz_rcon_up" (player_samples float id p) (players_samples float id ps)
    ∙ rw (no_up-player float id p, no_up-players float id ps) refl

rcon_up :
    (float : FloatOps) (id : String) (players : Option (List Player))
    → series_of "metricz_rcon_up" (generate_metrics float id players)
      ≡ one_sample id "metricz_rcon_up" (up_of players)
unfolding series_in String-discrete
rcon_up float id players =
    series_of-generate_metrics float id players "metricz_rcon_up"
    ∙ series_in-append "metricz_rcon_up" (players_samples float id (present players)) _
    ∙ rw (no_up-players float id (present players)) refl

rcon_up-finish :
    (float : FloatOps) (parse : String → List Player) (now : Time) (id : String) (p : Polled)
    → series_of "metricz_rcon_up" (finish float parse now id p).1
      ≡ one_sample id "metricz_rcon_up" (availability p.1)
rcon_up-finish float parse now id (s, inl e) = rcon_up float id none
rcon_up-finish float parse now id (s, inr response) = rcon_up float id (some (parse response))

-- After pollRConAndSubmit, the instance's RCon families in the storage hold exactly one sample of
-- metricz_rcon_up, which is 1 if the request for the players was answered, at once or on a new
-- connection, and 0 if there was an error.
pub poll_rcon_and_submit-up :
    (float : FloatOps) (parse : String → List Player) (bercon : Bercon) (cfg : RconConfig)
    (now : Time) (id : String) (session : RconSession) (s : Storage)
    → stored "metricz_rcon_up"
        (get_or_create_state id
          (poll_rcon_and_submit float parse bercon cfg now id (session, s)).1).rcon_families
      ≡ one_sample id "metricz_rcon_up" (availability (request bercon cfg session).1)
unfolding poll_rcon_and_submit poll
poll_rcon_and_submit-up float parse bercon cfg now id session s =
    ap (stored "metricz_rcon_up") (update_rcon-rcon id _ s)
    ∙ rcon_up-finish float parse now id (request bercon cfg session)
