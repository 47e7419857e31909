-- ===== src/Base/Int.antt =====
-- Signed integers over the native numbers, and Go's int64: each int64 operation ends in `wrap64`,
-- the two's complement wrap-around.
use Prim.Native.Nat.{ℕ, suc, ◌+◌, ◌-◌, ◌*◌, ◌%◌, ◌^◌, ◌≤◌, ◌<◌}
use mathlib.Core.Path.{◌≡◌}
use mathlib.Core.Bool.{Bool}
use native.Mathlib.Omega.{arith}
use native.Mathlib.Decide.{ℕ_discrete}
use metricz_exporter.Base.Tests.{ltb, leb, if◌then◌else◌, Key}

-- `negsuc n` is -(n + 1).
pub data ℤ : Type 0 where
  pos : ℕ → ℤ
  negsuc : ℕ → ℤ

unfoldable pub ℤ-discrete : Discrete ℤ
ℤ-discrete = hlevel ℕ_discrete

instance abbrev pub int_key : Key ℤ
int_key = record { dec = ℤ-discrete }

abbrev pub pos_part : ℤ → ℕ
pos_part (pos n) = n
pos_part (negsuc n) = 0

abbrev pub neg_part : ℤ → ℕ
neg_part (pos n) = 0
neg_part (negsuc n) = suc n

-- a - b, as an integer.
abbrev pub sub_ℕ : ℕ → ℕ → ℤ
sub_ℕ a b = if leb b a then pos (a - b) else negsuc (b - a - 1)

infixl 65 ◌+ℤ◌ ◌-ℤ◌
infixl 70 ◌*ℤ◌
infix 50 ◌≤ℤ◌
unfoldable pub ◌+ℤ◌ : ℤ → ℤ → ℤ
a +ℤ b = sub_ℕ (pos_part a + pos_part b) (neg_part a + neg_part b)

unfoldable pub ◌-ℤ◌ : ℤ → ℤ → ℤ
a -ℤ b = sub_ℕ (pos_part a + neg_part b) (neg_part a + pos_part b)

unfoldable pub ◌*ℤ◌ : ℤ → ℤ → ℤ
a *ℤ b =
    sub_ℕ (pos_part a * pos_part b + neg_part a * neg_part b)
      (pos_part a * neg_part b + neg_part a * pos_part b)

abbrev pub ◌≤ℤ◌ : ℤ → ℤ → Type 0
a ≤ℤ b = pos_part a + neg_part b ≤ pos_part b + neg_part a

abbrev pub ltb_ℤ : ℤ → ℤ → Bool
ltb_ℤ a b = ltb (pos_part a + neg_part b) (pos_part b + neg_part a)

abbrev word : ℕ → ℕ
word n = n % 2 ^ 64

-- The int64 that is congruent to an integer modulo 2^64.
unfoldable pub wrap64 : ℤ → ℤ
wrap64 (pos n) = if ltb (word n) (2 ^ 63) then pos (word n) else negsuc (2 ^ 64 - 1 - word n)
wrap64 (negsuc n) = if ltb (word n) (2 ^ 63) then negsuc (word n) else pos (2 ^ 64 - 1 - word n)

unfoldable pub add64 : ℤ → ℤ → ℤ
unfolding wrap64 ◌+ℤ◌
add64 a b = wrap64 (a +ℤ b)

unfoldable pub sub64 : ℤ → ℤ → ℤ
unfolding wrap64 ◌-ℤ◌
sub64 a b = wrap64 (a -ℤ b)

unfoldable pub mul64 : ℤ → ℤ → ℤ
unfolding wrap64 ◌*ℤ◌
mul64 a b = wrap64 (a *ℤ b)

-- Where the exact result of an operation on sizes fits in an int64, it is that result.
pub add64_eq : (a b c : ℕ) → a + b ≡ c → c < 2 ^ 63 → add64 (pos a) (pos b) ≡ pos c
unfolding add64
add64_eq a b c e h = ground arith

pub sub64_eq : (a b c : ℕ) → c + b ≡ a → a < 2 ^ 63 → sub64 (pos a) (pos b) ≡ pos c
unfolding sub64
sub64_eq a b c e h = ground arith

pub add64-sub64_eq :
    (n a b c : ℕ)
    → c + b ≡ n + a
    → n < 2 ^ 63
    → a < 2 ^ 63
    → b < 2 ^ 63
    → c < 2 ^ 63
    → add64 (pos n) (sub64 (pos a) (pos b)) ≡ pos c
unfolding add64 sub64
add64-sub64_eq n a b c e hn ha hb hc = ground arith
