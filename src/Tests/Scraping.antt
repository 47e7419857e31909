-- ===== src/Tests/Scraping.antt =====
-- The theorem on the scrapes after an upload at a concrete upload.
use metricz_exporter.Base.{
  ◌≡◌, refl, pos, ltb_ℤ, true, false, some, [], ◌∷◌, In, here, inl, String-discrete, ℕ_discrete,
}
use metricz_exporter.Metrics.{Metric, MetricFamily, get_value}
use metricz_exporter.Storage.Collector.{ConstMetric, gauge_value, new_exporter, time_sub, collect}
use metricz_exporter.Storage.Collector.Samples.{Source, sample}
use metricz_exporter.Parser.{ok, parse_and_validate}
use metricz_exporter.Server.{max_bytes_reader}
use metricz_exporter.Server.Ingest.{parse, handle_single_shot}
use metricz_exporter.Entrypoint.Scrapes.{collect-handle_single_shot}
use metricz_exporter.Base.Map
use metricz_exporter.Base.{◌+ℤ◌, arith}
use metricz_exporter.Storage.{new}
use metricz_exporter.Storage.Staging.{payload_of, effective_ttl}
use metricz_exporter.Storage.History.{new-IsSound}
use metricz_exporter.Storage.Uploads.{received}
use metricz_exporter.Strconv.{parse_int}
use metricz_exporter.Server.Ingest.{handle_commit}
use metricz_exporter.Entrypoint.Lifecycle.{stream_of, collect-handle_commit}
use metricz_exporter.Tests.Histories.{begins, ended, history, Spared-history}
use metricz_exporter.Tests.{
  libraries, players, gauge_metric, label, whole, before, one_chunk, config,
}
use metricz_exporter.Tests.Parsing.{parsed}

abbrev online : Metric
online = gauge_metric (label "instance_id" "a" ∷ label "world" "enoch" ∷ []) 2

abbrev online_players : MetricFamily
online_players = record players { metric = online ∷ [] }

abbrev sent : ConstMetric
sent = sample online_players online gauge_value (get_value online.gauge)

source : Source (λ desc. true) parsed sent
source = record {
  name = "players";
  family = online_players;
  metric = online;
  held = here;
  listed = here;
  accepted = refl;
  sampled = inl (refl, refl);
}

reads :
    parse libraries config (max_bytes_reader config.app.ingest.max_body_size (whole one_chunk)) "a"
    ≡ ok parsed
unfolding parse_and_validate max_bytes_reader String-discrete ℕ_discrete
reads = refl

young : ltb_ℤ config.app.stale.min_stale_age (time_sub (pos 14) (pos 5)) ≡ false
unfolding time_sub
young = refl

collect-handle_single_shot_example : In (some sent) (
    collect libraries.float
      (λ desc. true)
      (new_exporter
        (handle_single_shot libraries config (pos 5) (pos 6) "a" (whole one_chunk) before).0
        config.app.stale.stale_multiplier
        config.app.stale.min_stale_age)
      (pos 14))
collect-handle_single_shot_example =
    collect-handle_single_shot libraries config (pos 5) (pos 6) "a" (whole one_chunk) before parsed
      reads (λ desc. true) (pos 14) sent young source

-- The commit of the upload in the history of Tests/Histories, and a scrape nine nanoseconds later.
committed_reads :
    parse libraries config
      (stream_of (payload_of (received "t" history ((pos 1, one_chunk) ∷ []))))
      "a"
    ≡ ok parsed
unfolding parse_and_validate String-discrete ℕ_discrete
committed_reads = refl

committed_young : ltb_ℤ config.app.stale.min_stale_age (time_sub (pos 115) (pos 106)) ≡ false
unfolding time_sub
committed_young = refl

collect-handle_commit_example : In (some sent) (
    collect libraries.float
      (λ desc. true)
      (new_exporter
        (handle_commit libraries config (pos 105) (pos 106) (pos 107) "a" "t" ended).0
        config.app.stale.stale_multiplier
        config.app.stale.min_stale_age)
      (pos 115))
unfolding new effective_ttl Map.get ◌+ℤ◌ parse_int
collect-handle_commit_example =
    collect-handle_commit libraries config parsed (λ desc. true) (pos 115) sent source {limit = 10}
      {max_body = 10} (omega arith) refl (pos 5) "a" "t" "1" (whole one_chunk) before
      (new-IsSound 10 (omega arith)) refl begins history Spared-history (pos 105) (pos 106)
      (pos 107) refl (pos 1) refl committed_reads committed_young
