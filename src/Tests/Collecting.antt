-- ===== src/Tests/Collecting.antt =====
-- The collector's theorems at a concrete state.
use metricz_exporter.Base.{
  ◌≡◌, ◌↔◌, ◌⊎◌, refl, Bool, pos, true, false, some, [], ◌∷◌, In, here, ◌-ℤ◌,
}
use metricz_exporter.Metrics.{float_zero}
use metricz_exporter.Storage.{InstanceState, empty_state}
use metricz_exporter.Storage.Collector.{
  Desc, ConstMetric, gauge_value, Exporter, new_exporter, emit_families, emit_ingested, is_stale,
}
use metricz_exporter.Storage.Collector.Samples.{Source, emit_families_iff}
use metricz_exporter.Storage.Collector.Stale.{ZeroSource, IsOld, IsYoung, emit_ingested_iff}
use metricz_exporter.Tests.{floats, players, before}

abbrev all_valid : Desc → Bool
all_valid d = true

abbrev exporter : Exporter
exporter = new_exporter before (record { bits = 0 }) (pos 10)

-- Ingested at 100, with a status to send while it is stale.
abbrev state : InstanceState
state = record empty_state {
  last_ingest_update = pos 100;
  ingested_families = some (("players", players) ∷ []);
  cached_status_family = some players;
}

abbrev zeroed : ConstMetric
zeroed = record {
  desc = record {
    fq_name = "players";
    help = "Players online";
    label_names = "world" ∷ "instance_id" ∷ [];
  };
  value_type = gauge_value;
  value = float_zero;
  label_values = "enoch" ∷ "b" ∷ [];
}

stale_at_111 : is_stale floats exporter (pos 111) state ≡ true
unfolding is_stale new_exporter ◌-ℤ◌
stale_at_111 = refl

fresh_at_110 : is_stale floats exporter (pos 110) state ≡ false
unfolding is_stale new_exporter ◌-ℤ◌
fresh_at_110 = refl

-- At 111 a zero of the status is sent.
sent : In (some zeroed) (emit_ingested floats all_valid exporter (pos 111) state)
unfolding emit_ingested new_exporter ◌-ℤ◌
sent = here

emit_ingested_iff_example :
    In (some zeroed) (emit_ingested floats all_valid exporter (pos 111) state)
    ↔ (IsYoung floats exporter (pos 111) state
        × Source all_valid (("players", players) ∷ []) zeroed)
      ⊎ (IsOld floats exporter (pos 111) state × ZeroSource all_valid (some players) zeroed)
emit_ingested_iff_example =
    emit_ingested_iff all_valid floats exporter (pos 111) state (("players", players) ∷ []) zeroed
      refl

emit_families_iff_example :
    In (some zeroed) (emit_families all_valid (("players", players) ∷ []))
    ↔ Source all_valid (("players", players) ∷ []) zeroed
emit_families_iff_example = emit_families_iff all_valid (("players", players) ∷ []) zeroed
