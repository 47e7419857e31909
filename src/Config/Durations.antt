-- ===== src/Config/Durations.antt =====
-- internal/config/unmarshal.go: the codec of durations. time.ParseDuration, Duration.String and
-- encoding/json are parameters.
use metricz_exporter.Base.{◌≡◌, ◌∙◌, ap, String, ◌⊎◌, inl, inr}
use metricz_exporter.Metrics.{Float64, FloatOps}
use metricz_exporter.Storage.{Bytes, Duration}

-- What json.Unmarshal makes of a text, of which numbers and strings are told apart.
pub data JsonValue : Type 0 where
  number : Float64 → JsonValue
  string : String → JsonValue
  other : JsonValue

pub record DurationLibraries : Type 0 where
  pub unmarshal : Bytes → String ⊎ JsonValue
  -- json.Marshal of a string, which does not fail
  pub marshal : String → Bytes
  pub parse_duration : String → String ⊎ Duration
  pub format_duration : Duration → String
  pub float : FloatOps

pub data DurationError : Type 0 where
  not_json not_a_duration : String → DurationError
  invalid_duration : DurationError

abbrev parsed : String ⊎ Duration → DurationError ⊎ Duration
parsed (inl cause) = inl (not_a_duration cause)
parsed (inr d) = inr d

-- The switch on the value's type.
unfoldable pub duration_of : DurationLibraries → JsonValue → DurationError ⊎ Duration
duration_of lib (number x) = inr (FloatOps.to_int64 lib.float x)
duration_of lib (string text) = parsed (lib.parse_duration text)
duration_of lib other = inl invalid_duration

abbrev decoded : DurationLibraries → String ⊎ JsonValue → DurationError ⊎ Duration
decoded lib (inl cause) = inl (not_json cause)
decoded lib (inr value) = duration_of lib value

unfoldable pub unmarshal_json : DurationLibraries → Bytes → DurationError ⊎ Duration
unfolding duration_of
unmarshal_json lib text = decoded lib (lib.unmarshal text)

unfoldable pub marshal_json : DurationLibraries → Duration → Bytes
marshal_json lib d = lib.marshal (lib.format_duration d)

unfoldable pub unmarshal_text : DurationLibraries → String → DurationError ⊎ Duration
unmarshal_text lib text = parsed (lib.parse_duration text)

-- If the libraries read back what they write, a duration is read back from its JSON.
unmarshal_json-marshal_json :
    (lib : DurationLibraries)
    → ((text : String) → lib.unmarshal (lib.marshal text) ≡ inr (string text))
    → ((d : Duration) → lib.parse_duration (lib.format_duration d) ≡ inr d)
    → (d : Duration) → unmarshal_json lib (marshal_json lib d) ≡ inr d
unfolding unmarshal_json marshal_json duration_of
unmarshal_json-marshal_json lib json time d =
    ap (decoded lib) (json (lib.format_duration d)) ∙ ap parsed (time d)
