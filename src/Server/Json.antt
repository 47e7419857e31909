-- ===== src/Server/Json.antt =====
-- internal/server/middleware_json.go: a JSON array of strings is read as lines of text. What the
-- decoder of encoding/json makes of the body is the input.
pub mod Lines
use metricz_exporter.Base.{
  ℕ, Bool, if◌then◌else◌, eqb, String, codes, Option, none, some, List, [], ◌∷◌, ◌++◌,
}
use metricz_exporter.Metrics.{Float64}
use metricz_exporter.Storage.{Bytes}
use metricz_exporter.Server.{
  Stream, ReadError, expected_array_start, expected_string, json_stream_error,
}

pub data Token : Type 0 where
  delim : ℕ → Token
  string : String → Token
  number : Float64 → Token
  boolean : Bool → Token
  null : Token

-- What follows the opening bracket. `element`: More() holds and Token() yields the token;
-- `failure`: More() holds and Token() fails. At `closed` and at `unclosed`, where the input ends or
-- cannot be read on, More() does not hold.
pub data Elements : Type 0 where
  closed unclosed : Elements
  element : Token → Elements → Elements
  failure : String → Elements

-- The first call of Token(), and the rest.
pub data JsonBody : Type 0 where
  unreadable : String → JsonBody
  starts : Token → Elements → JsonBody

-- pw.Write([]byte(line + "\n")), before what follows
abbrev pub write_line : String → Stream → Stream
write_line line after = record after { content = codes line ++ 10 ∷ after.content }

abbrev pub close_with_error : ReadError → Stream
close_with_error e = record { content = []; broken = some e }

-- The loop while dec.More() holds.
unfoldable pub translate : Elements → Stream
translate closed = record { content = []; broken = none }
translate unclosed = record { content = []; broken = none }
translate (failure message) = close_with_error (json_stream_error message)
translate (element (string line) rest) = write_line line (translate rest)
translate (element _ rest) = close_with_error expected_string

unfoldable pub new_json_to_text_reader : JsonBody → Stream
unfolding translate
new_json_to_text_reader (unreadable message) = close_with_error expected_array_start
new_json_to_text_reader (starts (delim c) rest) =
    if eqb c b'[' then translate rest else close_with_error expected_array_start
new_json_to_text_reader (starts _ rest) = close_with_error expected_array_start

-- JSONTranslatorMiddleware around `next`; `is_json` says whether the query has format=json, and
-- `tokens` is what the decoder makes of a body.
unfoldable pub json_translator :
    {S R : Type 0} → (Stream → JsonBody) → Bool → (Stream → S → S × R) → Stream → S → S × R
unfolding new_json_to_text_reader
json_translator tokens is_json next body =
    next (if is_json then new_json_to_text_reader (tokens body) else body)
