-- ===== src/Strconv.antt =====
-- Go's strconv.ParseInt(s, 10, 64), which is also strconv.Atoi on a 64-bit machine; `none` stands
-- for both of its errors.
pub mod Decimal
use metricz_exporter.Base.{
  zero, suc, ◌/◌, ◌%◌, ◌<>◌, ℕ, ◌+◌, ◌-◌, ◌*◌, ◌^◌, ℤ, pos, negsuc, ltb, leb, eqb, ◌&&◌,
  if◌then◌else◌, String, codes, Option, none, some, List, [], ◌∷◌,
}

unfoldable pub parse_digits : ℕ → List ℕ → Option ℕ
parse_digits acc [] = some acc
parse_digits acc (c ∷ cs) =
    if leb b'0' c && leb c b'9' then parse_digits (acc * 10 + (c - 48)) cs else none

-- At least one digit, and nothing else.
unfoldable pub parse_uint : List ℕ → Option ℕ
unfolding parse_digits
parse_uint [] = none
parse_uint (c ∷ cs) = parse_digits 0 (c ∷ cs)

abbrev pub positive : Option ℕ → Option ℤ
positive none = none
positive (some n) = if ltb n (2 ^ 63) then some (pos n) else none

-- -n, in range
abbrev pub negative : Option ℕ → Option ℤ
negative none = none
negative (some n) =
    if leb n (2 ^ 63) then some (if eqb n 0 then pos 0 else negsuc (n - 1)) else none

unfoldable pub parse_int_codes : List ℕ → Option ℤ
unfolding parse_uint
parse_int_codes [] = none
parse_int_codes (c ∷ cs) =
    if eqb c b'-'
    then negative (parse_uint cs)
    else if eqb c b'+'
    then positive (parse_uint cs)
    else positive (parse_uint (c ∷ cs))

unfoldable pub parse_int : String → Option ℤ
unfolding parse_int_codes
parse_int s = parse_int_codes (codes s)

-- The digits '0' to '9'.
abbrev pub digit : ℕ → String
digit zero = "0"
digit (suc zero) = "1"
digit (suc (suc zero)) = "2"
digit (suc (suc (suc zero))) = "3"
digit (suc (suc (suc (suc zero)))) = "4"
digit (suc (suc (suc (suc (suc zero))))) = "5"
digit (suc (suc (suc (suc (suc (suc zero)))))) = "6"
digit (suc (suc (suc (suc (suc (suc (suc zero))))))) = "7"
digit (suc (suc (suc (suc (suc (suc (suc (suc zero)))))))) = "8"
digit _ = "9"

-- The decimal digits, on fuel.
unfoldable pub format_digits : ℕ → ℕ → String
format_digits zero n = ""
format_digits (suc fuel) n =
    let front = format_digits fuel (n / 10) in if ltb n 10 then digit n else front <> digit (n % 10)

-- strconv.Itoa, and the verb %d, of a number that is not negative. A number has no more digits
-- than it counts, so its successor is enough fuel.
unfoldable pub format_uint : ℕ → String
unfolding format_digits
format_uint n = format_digits (suc n) n

-- %d of an int.
unfoldable pub format_int : ℤ → String
unfolding format_uint
format_int (pos n) = format_uint n
format_int (negsuc n) = "-" <> format_uint (suc n)
