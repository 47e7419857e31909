-- ===== src/Tests/Publishing.antt =====
-- The theorems on the public status, the JSON middleware and the pollers' families at concrete
-- data.
use metricz_exporter.Base.{
  ◌≡◌, ltb_ℤ, ◌+ℤ◌, refl, ite, pos, true, false, String-discrete, none, some, [], ◌∷◌, ◌++◌,
}
use metricz_exporter.Metrics.{Float64, Families}
use metricz_exporter.Storage.{Bytes, InstanceState, empty_state, get_instance_states}
use metricz_exporter.Config.{PublicExportConfig}
use metricz_exporter.Poller.Dto.{gauge_of, add_gauge}
use metricz_exporter.Poller.Dto.Series.{series_of, series_of-add_gauge}
use metricz_exporter.Server.{Stream, respond, text, Response}
use metricz_exporter.Server.Json.{delim, string, closed, element, JsonBody, starts, json_translator}
use metricz_exporter.Server.Json.Lines.{lines_of_body, text_of, json_translator-lines}
use metricz_exporter.Server.Status.{
  Marshal, PublicCache, fetched, fetch, cached_body, with_json, collect_public_data,
  serve_status_request,
}
use metricz_exporter.Server.Status.Cache.{serve_status_request_twice}
use metricz_exporter.Server.Status.Export.{IsPublic, collect_public_data-IsPublic}
use metricz_exporter.Tests.{floats, players, before, whole, config}

abbrev marshal : Marshal
marshal = record { one = λ d. some (49 ∷ []); all = λ ds. some (50 ∷ []) }

-- The request for the instance "all" is answered with the cached body of all instances.
abbrev first : PublicCache × Response
first = serve_status_request floats marshal config (pos 5) (pos 6) "all" true before []

nothing_cached : cached_body (pos 5) "all" [] ≡ none
unfolding cached_body
nothing_cached = refl

all_fetched :
    fetch floats marshal config.public_export "all" true (get_instance_states before)
    ≡ fetched (50 ∷ [])
unfolding fetch
all_fetched = refl

in_time : ltb_ℤ (pos 15) (pos 6 +ℤ config.app.public.public_cache_ttl) ≡ true
unfolding ◌+ℤ◌
in_time = refl

serve_status_request_twice_example :
    (first.1 ≡ with_json config "MISS" (50 ∷ []))
    × (serve_status_request floats marshal config (pos 15) (pos 16) "all" false before first.0
        ≡ (first.0, with_json config "HIT" (50 ∷ [])))
serve_status_request_twice_example =
    serve_status_request_twice floats marshal config refl "all" (pos 5) (pos 6) (pos 15) (pos 16)
      true false before before [] (50 ∷ []) nothing_cached all_fetched in_time

abbrev public : PublicExportConfig
public = record {
  values = "players" ∷ [];
  labels = "players" ∷ [];
  labels_exclude = "instance_id" ∷ [];
}

abbrev polled : InstanceState
polled = record empty_state { polled_families = some (("players", players) ∷ []) }

-- The excluded label is not among the exported ones.
exported :
    (collect_public_data floats public polled).labels
    ≡ ("players", ("world", "enoch" ∷ []) ∷ []) ∷ []
unfolding collect_public_data String-discrete
exported = refl

collect_public_data-IsPublic_example : IsPublic public (collect_public_data floats public polled)
collect_public_data-IsPublic_example = collect_public_data-IsPublic floats public polled

abbrev two_lines : JsonBody
two_lines = starts (delim b'[') (element (string "a 1") (element (string "b 2") closed))

both_lines : lines_of_body two_lines ≡ some ("a 1" ∷ "b 2" ∷ [])
unfolding lines_of_body
both_lines = refl

-- A handler that keeps the body that it reads.
abbrev keep : Stream → Bytes → Bytes × Response
keep body kept = (body.content, respond 200 (text "OK"))

json_translator-lines_example :
    json_translator (λ body. two_lines) true keep (whole []) []
    ≡ keep (whole (text_of ("a 1" ∷ "b 2" ∷ []))) []
json_translator-lines_example =
    json_translator-lines (λ body. two_lines) keep (whole []) ("a 1" ∷ "b 2" ∷ []) [] both_lines

abbrev one : Float64
one = record { bits = 0x3FF0000000000000 }

abbrev up : Families
up = add_gauge [] "up" "Available" one "a"

series_of-add_gauge_example :
    series_of "up" (add_gauge up "up" "Available" one "b")
    ≡ ite
        (String-discrete "up" "up")
        (series_of "up" up ++ gauge_of (record { name = "instance_id"; value = "b" } ∷ []) one ∷ [])
        (series_of "up" up)
series_of-add_gauge_example = series_of-add_gauge up "up" "Available" one "b" "up"
