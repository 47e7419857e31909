-- ===== src/Tests/Parsing.antt =====
-- The parser's theorems at a concrete stream.
use metricz_exporter.Base.{
  ◌≡◌, refl, ℤ, true, false, String, string_key, none, List, [], ◌∷◌, String-discrete, ℕ_discrete,
}
use metricz_exporter.Base.Map
use metricz_exporter.Metrics
use metricz_exporter.Metrics.{LabelPair, Metric, MetricFamily}
use metricz_exporter.Parser.{
  ok, err, mismatch, inject_instance, normalize_metric, deduplicate, parse_and_validate,
}
use metricz_exporter.Parser.Labels.{verdict, instance_of, inject_instance-eq}
use metricz_exporter.Parser.Unique.{first_with, last_with, first_with-deduplicate}
use metricz_exporter.Parser.Families.{
  IsClean, reads_to_end, parse_and_validate-IsClean, parse_and_validate-total,
}
use metricz_exporter.Tests.{sum, label, gauge_metric, players, decoded}

abbrev battleye : ℤ → String
battleye n = "be"

-- The two samples have the same labels once the instance id is set: the last one is kept.
abbrev pub parsed : Metrics.Families
parsed =
    (
      "players",
      record players {
        metric = gauge_metric (label "instance_id" "a" ∷ label "world" "enoch" ∷ []) 2 ∷ [];
      },
    )
    ∷ []

parses : parse_and_validate sum battleye decoded "a" true ≡ ok parsed
unfolding parse_and_validate String-discrete ℕ_discrete
parses = refl

parse_and_validate-IsClean_example :
    Map.Values (IsClean sum "a") parsed × (reads_to_end decoded ≡ true)
parse_and_validate-IsClean_example =
    parse_and_validate-IsClean sum battleye "a" decoded true parsed parses

whole : reads_to_end decoded ≡ true
unfolding reads_to_end
whole = refl

parse_and_validate-total_example :
    (families : Metrics.Families) × (parse_and_validate sum battleye decoded "a" true ≡ ok families)
parse_and_validate-total_example = parse_and_validate-total sum battleye "a" decoded whole

-- A foreign id is refused where it may not be overwritten.
refuses :
    inject_instance "players" "a" false (label "instance_id" "b" ∷ [])
    ≡ err (mismatch "players" "a" "b")
unfolding inject_instance
refuses = refl

inject_instance-eq_example :
    inject_instance "players" "a" false (label "instance_id" "b" ∷ [])
    ≡ verdict "players" "a" false
        (label "instance_id" "b" ∷ [])
        (instance_of (label "instance_id" "b" ∷ []))
inject_instance-eq_example = inject_instance-eq "players" "a" false (label "instance_id" "b" ∷ [])

-- A player's sample gets the id that belongs to its Steam id.
abbrev player : Metric
player = gauge_metric (label "steam_id" "76561198000000000" ∷ []) 1

abbrev known : Metric
known =
    gauge_metric
      (label "buid" "be" ∷ label "instance_id" "a" ∷ label "steam_id" "76561198000000000" ∷ []) 1

normalizes : normalize_metric battleye "dayz_metricz_player_loaded" "a" true player ≡ ok known
unfolding normalize_metric
normalizes = refl

abbrev doubles : List Metric
doubles = gauge_metric [] 1 ∷ gauge_metric (label "x" "y" ∷ []) 2 ∷ gauge_metric [] 3 ∷ []

first_with-deduplicate_example :
    first_with sum 0 (deduplicate sum doubles) ≡ last_with sum 0 doubles none
first_with-deduplicate_example = first_with-deduplicate sum doubles 0
