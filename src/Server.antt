-- ===== src/Server.antt =====
-- internal/server: the HTTP handlers. A handler is a function from the request's parts and the
-- state to the new state and the response.
pub mod Auth
pub mod Json
pub mod Ingest
pub mod Status
pub mod Pages
pub mod Routes
use metricz_exporter.Base.{
  ℕ, ℤ, pos, ltb_ℤ, pos_part, take, length, Bool, if◌then◌else◌, String, Option, none, some, List,
  [], ◌∷◌,
}
use metricz_exporter.Metrics.{FloatOps}
use metricz_exporter.Storage.{Bytes}
use metricz_exporter.Parser.{Decoded, ParseError}

-- The errors that a body's reader can end in: the connection's own, that of http.MaxBytesReader,
-- and those of newJSONToTextReader.
pub data ReadError : Type 0 where
  connection_error : String → ReadError
  body_too_large : ReadError
  expected_array_start expected_string : ReadError
  json_stream_error : String → ReadError

-- What a reader yields: its bytes up to the end, or up to an error.
pub record Stream : Type 0 where
  pub content : Bytes
  pub broken : Option ReadError

-- The libraries that the handlers call: the exposition format's decoder, xxhash, dzid and the
-- machine's floats.
pub record Libraries : Type 0 where
  pub decode : Stream → Decoded
  pub xxhash : List ℕ → ℕ
  pub battleye : ℤ → String
  pub float : FloatOps

-- The body of a response: a text, the text of a parser's error, encoded JSON, or a page.
pub data Body : Type 0 where
  text : String → Body
  error_text : ParseError → Body
  json html : Bytes → Body

pub record Response : Type 0 where
  pub status : ℕ
  pub headers : List (String × String)
  pub body : Body

-- http.Error, w.Write
abbrev pub respond : ℕ → Body → Response
respond status body = record { status = status; headers = []; body = body }

abbrev pub too_large : String
too_large = "http: request body too large"

-- A negative limit is 0.
abbrev pub byte_limit : ℤ → ℤ
byte_limit limit = pos (pos_part limit)

-- http.MaxBytesReader: an error after the first `limit` bytes.
unfoldable pub max_bytes_reader : ℤ → Stream → Stream
max_bytes_reader limit body =
    if ltb_ℤ (byte_limit limit) (pos (length body.content))
    then record { content = take (pos_part limit) body.content; broken = some body_too_large }
    else body
