-- ===== src/Strconv/Decimal.antt =====
-- The decimal digits that are printed, read back.
use Prim.Native.String.append.{nil as append_nil, cons as append_cons}
use Prim.Native.Char.{code}
use metricz_exporter.Base.{
  ℕ, ◌-◌, zero, suc, ◌+◌, ◌*◌, ◌/◌, ◌%◌, ◌^◌, ◌<◌, ◌≡◌, refl, ap, ◌∙◌, pos, ltb, Bool-cases, inl,
  inr, length, length-append, String, ◌<>◌, codes, some, List, [], ◌∷◌, ◌++◌, arith,
}
use metricz_exporter.Strconv.{
  parse_digits, parse_int_codes, parse_int, digit, format_digits, format_uint,
}

codes-append : (s t : String) → codes (s <> t) ≡ codes s ++ codes t
codes-append String.[] t = λ i. codes (append_nil t i)
codes-append (String.◌∷◌ c s) t =
    let step : codes (String.◌∷◌ c s <> t) ≡ codes (String.◌∷◌ c (s <> t)) =
      λ i. codes (append_cons c s t i) in
    step ∙ ap (λ cs. code c ∷ cs) (codes-append s t)

parse_digits-append :
    (acc : ℕ) (xs ys : List ℕ) (a : ℕ)
    → parse_digits acc xs ≡ some a
    → parse_digits acc (xs ++ ys) ≡ parse_digits a ys
unfolding parse_digits
parse_digits-append acc [] ys a h = ground arith
parse_digits-append acc (x ∷ xs) ys a h =
    ground (arith, parse_digits-append (acc * 10 + (x - 48)) xs ys a)

codes-digit : (n : ℕ) → n < 10 → codes (digit n) ≡ (48 + n) ∷ []
codes-digit zero h = refl
codes-digit (suc zero) h = refl
codes-digit (suc (suc zero)) h = refl
codes-digit (suc (suc (suc zero))) h = refl
codes-digit (suc (suc (suc (suc zero)))) h = refl
codes-digit (suc (suc (suc (suc (suc zero))))) h = refl
codes-digit (suc (suc (suc (suc (suc (suc zero)))))) h = refl
codes-digit (suc (suc (suc (suc (suc (suc (suc zero))))))) h = refl
codes-digit (suc (suc (suc (suc (suc (suc (suc (suc zero)))))))) h = refl
codes-digit (suc (suc (suc (suc (suc (suc (suc (suc (suc zero))))))))) h = refl
codes-digit (suc (suc (suc (suc (suc (suc (suc (suc (suc (suc n)))))))))) h =
    absurd (omega (arith, h))

parse_digits-digit : (acc n : ℕ) → n < 10 → parse_digits acc (codes (digit n)) ≡ some (acc * 10 + n)
unfolding parse_digits
parse_digits-digit acc n h = rw (codes-digit n h) (ground arith)

length-digit : (n : ℕ) → n < 10 → 0 < length (codes (digit n))
length-digit n h = rw (codes-digit n h) (omega arith)

format_digits-value :
    (fuel n : ℕ) → n < fuel → parse_digits 0 (codes (format_digits fuel n)) ≡ some n
unfolding format_digits
format_digits-value zero n h = elim h [ ]
format_digits-value (suc fuel) n h = elim (Bool-cases (ltb n 10)) [
  | inl small ↦ rw small (parse_digits-digit 0 n (ground arith) ∙ ap some (omega arith))
  | inr large ↦
      let front = format_digits fuel (n / 10) in
      rw (large, codes-append front (digit (n % 10)))
        (parse_digits-append 0 (codes front) (codes (digit (n % 10))) (n / 10)
            (format_digits-value fuel (n / 10) (ground arith))
          ∙ parse_digits-digit (n / 10) (n % 10) (omega arith)
          ∙ ap some (omega arith))
]

length-format_digits : (fuel n : ℕ) → 0 < length (codes (format_digits (suc fuel) n))
unfolding format_digits
length-format_digits fuel n = elim (Bool-cases (ltb n 10)) [
  | inl small ↦ rw small (length-digit n (ground arith))
  | inr large ↦
      let front = format_digits fuel (n / 10) in
      rw (large, codes-append front (digit (n % 10)))
        (omega (
          arith,
          length-digit (n % 10) (omega arith),
          length-append (codes front) (codes (digit (n % 10))),
        ))
]

-- Digits only: no sign is read.
parse_int_codes-digits :
    (cs : List ℕ) (n : ℕ)
    → 0 < length cs
    → parse_digits 0 cs ≡ some n
    → n < 2 ^ 63
    → parse_int_codes cs ≡ some (pos n)
unfolding parse_int_codes parse_digits
parse_int_codes-digits [] n l h fits = elim l [ ]
parse_int_codes-digits (c ∷ cs) n l h fits = ground arith

-- The decimal digits that are written for a number below 2^63 are read back by ParseInt as that
-- number.
pub parse_int-format_uint : (n : ℕ) → n < 2 ^ 63 → parse_int (format_uint n) ≡ some (pos n)
unfolding parse_int format_uint
parse_int-format_uint n fits =
    parse_int_codes-digits (codes (format_digits (suc n) n)) n (length-format_digits n n)
      (format_digits-value (suc n) n (omega arith)) fits
