-- ===== src/Server/Json/Lines.antt =====
-- Which bodies the JSON middleware reads as text, and as which: middleware_json.go.
use metricz_exporter.Base.{
  true, subst, ◌≡◌, ◌≢◌, refl, ap, Bool-cases, eqb, if◌then◌else◌, String, codes, Option, inl, inr,
  none, some, List, [], ◌∷◌, ◌++◌,
}
use metricz_exporter.Storage.{Bytes}
use metricz_exporter.Server.{Stream}
use metricz_exporter.Server.Json.{
  json_translator, delim, string, number, boolean, null, Elements, closed, unclosed, element,
  failure, JsonBody, unreadable, starts, write_line, translate, new_json_to_text_reader,
}

abbrev cons_line : String → Option (List String) → Option (List String)
cons_line line none = none
cons_line line (some lines) = some (line ∷ lines)

-- The strings of an array that holds nothing else and can be read, to its end or to where the
-- input ends between two elements.
unfoldable pub strings_of : Elements → Option (List String)
strings_of closed = some []
strings_of unclosed = some []
strings_of (failure message) = none
strings_of (element (string line) rest) = cons_line line (strings_of rest)
strings_of (element _ rest) = none

unfoldable pub lines_of_body : JsonBody → Option (List String)
unfolding strings_of
lines_of_body (unreadable message) = none
lines_of_body (starts (delim c) rest) = if eqb c b'[' then strings_of rest else none
lines_of_body (starts _ rest) = none

-- Each text and a newline.
unfoldable pub text_of : List String → Bytes
text_of [] = []
text_of (line ∷ lines) = codes line ++ 10 ∷ text_of lines

-- The text of the lines and no error; or an error, where there are no lines.
abbrev pub Reads : Option (List String) → Stream → Type 0
Reads (some lines) out = out ≡ record { content = text_of lines; broken = none }
Reads none out = out.broken ≢ none

Reads-write_line :
    (line : String) (lines : Option (List String)) (out : Stream)
    → Reads lines out
    → Reads (cons_line line lines) (write_line line out)
unfolding text_of
Reads-write_line line none out h = h
Reads-write_line line (some lines) out h = ap (write_line line) h

Reads-translate : (e : Elements) → Reads (strings_of e) (translate e)
unfolding strings_of translate text_of
Reads-translate closed = refl
Reads-translate unclosed = refl
Reads-translate (failure message) = λ e. cc
Reads-translate (element (delim c) rest) = λ e. cc
Reads-translate (element (string line) rest) =
    Reads-write_line line (strings_of rest) (translate rest) (Reads-translate rest)
Reads-translate (element (number x) rest) = λ e. cc
Reads-translate (element (boolean b) rest) = λ e. cc
Reads-translate (element null rest) = λ e. cc

-- If the body is an array of strings that can be read up to its closing bracket or up to an end of
-- the input between two elements, the JSON middleware's reader yields each string followed by a
-- newline, and no error; for every other body it ends in an error.
pub Reads-new_json_to_text_reader :
    (body : JsonBody) → Reads (lines_of_body body) (new_json_to_text_reader body)
unfolding lines_of_body new_json_to_text_reader
Reads-new_json_to_text_reader (unreadable message) = λ e. cc
Reads-new_json_to_text_reader (starts (delim c) rest) = elim (Bool-cases (eqb c b'[')) [
  | inl opens ↦ rw opens (Reads-translate rest)
  | inr other ↦ rw other (λ e. cc)
]
Reads-new_json_to_text_reader (starts (string line) rest) = λ e. cc
Reads-new_json_to_text_reader (starts (number x) rest) = λ e. cc
Reads-new_json_to_text_reader (starts (boolean b) rest) = λ e. cc
Reads-new_json_to_text_reader (starts null rest) = λ e. cc

-- Where the query asks for JSON and the body is an array of strings that is closed, or that the
-- decoder cannot read on between two elements, any handler behind the middleware sees the strings
-- read, each followed by a line feed, without an error.
pub json_translator-lines :
    {S R : Type 0} (tokens : Stream → JsonBody) (next : Stream → S → S × R) (body : Stream)
    (lines : List String) (s : S)
    → lines_of_body (tokens body) ≡ some lines
    → json_translator tokens true next body s
      ≡ next (record { content = text_of lines; broken = none }) s
unfolding json_translator
json_translator-lines tokens next body lines s h =
    let reads : Reads (some lines) (new_json_to_text_reader (tokens body)) =
      subst (λ o. Reads o (new_json_to_text_reader (tokens body))) h
        (Reads-new_json_to_text_reader (tokens body)) in
    ap (λ (stream : Stream). next stream s) reads
