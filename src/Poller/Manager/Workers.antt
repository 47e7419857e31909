-- ===== src/Poller/Manager/Workers.antt =====
-- Which workers Start launches for a configuration that was loaded: manager.go and file.go.
use metricz_exporter.Base.{
  ◌≡◌, refl, Bool, String, str_eq_iff, Option, none, some, List, [], ◌∷◌, ◌++◌, All, arith,
}
use metricz_exporter.Config.{A2sConfig, RconConfig, ServerDefinition, Config, validate}
use metricz_exporter.Config.Validity.{IsValidServer, HasA2sAddress, HasRconAccess, validate-none}
use metricz_exporter.Poller.Manager.{Worker, a2s_worker, rcon_worker, start_a2s, start_rcon, start}

-- A worker for each endpoint that is configured.
abbrev pub a2s_of : ServerDefinition → Option A2sConfig → List Worker
a2s_of srv none = []
a2s_of srv (some a2s) = a2s_worker srv a2s ∷ []

abbrev pub rcon_of : ServerDefinition → Option RconConfig → List Worker
rcon_of srv none = []
rcon_of srv (some rcon) = rcon_worker srv rcon ∷ []

unfoldable pub endpoints : List ServerDefinition → List Worker
endpoints [] = []
endpoints (srv ∷ servers) = a2s_of srv srv.a2s ++ (rcon_of srv srv.rcon ++ endpoints servers)

start_a2s-eq :
    (srv : ServerDefinition) (a2s : Option A2sConfig)
    → HasA2sAddress a2s
    → start_a2s srv a2s ≡ a2s_of srv a2s
unfolding start_a2s
start_a2s-eq srv none h = refl
start_a2s-eq srv (some a2s) h = ground (arith, str_eq_iff a2s.address "")

start_rcon-eq :
    (srv : ServerDefinition) (rcon : Option RconConfig)
    → HasRconAccess rcon
    → start_rcon srv rcon ≡ rcon_of srv rcon
unfolding start_rcon
start_rcon-eq srv none h = refl
start_rcon-eq srv (some rcon) h = ground (arith, str_eq_iff rcon.address "")

start-endpoints :
    (servers : List ServerDefinition)
    → All IsValidServer servers
    → start servers ≡ endpoints servers
unfolding start endpoints
start-endpoints [] all = refl
start-endpoints (srv ∷ servers) (valid, all) =
    rw
      (
        start_a2s-eq srv srv.a2s valid.queried,
        start_rcon-eq srv srv.rcon valid.managed,
        start-endpoints servers all,
      )
      refl

-- For a configuration that validate accepts, Start launches one worker for each configured
-- endpoint, in the order of the servers, A2S before RCon, and none besides: its tests for an empty
-- address drop none.
pub start-validate :
    (is_valid_label : String → Bool) (cfg : Config)
    → validate is_valid_label cfg ≡ none
    → start cfg.servers ≡ endpoints cfg.servers
start-validate ok cfg accepted =
    start-endpoints cfg.servers ((validate-none ok cfg).0 accepted).servers
