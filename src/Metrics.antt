-- ===== src/Metrics.antt =====
-- The metric families of github.com/prometheus/client_model that the program builds and reads, and
-- Go's float64. The getters read a nil pointer as the zero value, so a name or a value is that
-- value; the slices hold no nil pointer.
use metricz_exporter.Base.{ℕ, ◌%◌, ◌^◌, eqb, Bool, ℤ, String, Option, none, some, List}
use metricz_exporter.Base.Map.{Map}

-- A float64 is its bit pattern.
pub record Float64 : Type 0 where
  pub bits : ℕ

-- 0 and 1 and 60 as float64.
abbrev pub float_zero : Float64
float_zero = record { bits = 0 }

abbrev pub float_one : Float64
float_one = record { bits = 0x3FF0000000000000 }

abbrev pub float_sixty : Float64
float_sixty = record { bits = 0x404E000000000000 }

-- `x == 0`: the bits of +0 and -0.
abbrev pub is_zero : Float64 → Bool
is_zero x = eqb (x.bits % 2 ^ 63) 0

-- The arithmetic of the machine's float64, which the model takes as it is given.
pub record FloatOps : Type 0 where
  pub add : Float64 → Float64 → Float64
  pub mul : Float64 → Float64 → Float64
  pub div : Float64 → Float64 → Float64
  -- float64(n)
  pub of_int64 : ℤ → Float64
  -- int64(x)
  pub to_int64 : Float64 → ℤ

pub record LabelPair : Type 0 where
  pub name : String
  pub value : String

pub record Metric : Type 0 where
  pub label : List LabelPair
  pub gauge : Option Float64
  pub counter : Option Float64

pub data MetricType : Type 0 where
  counter gauge summary untyped histogram gauge_histogram : MetricType

pub record MetricFamily : Type 0 where
  pub name : String
  pub help : String
  pub type : MetricType
  pub metric : List Metric

abbrev pub Families : Type 0
Families = Map String MetricFamily

-- m.GetGauge().GetValue(), m.GetCounter().GetValue()
abbrev pub get_value : Option Float64 → Float64
get_value none = float_zero
get_value (some x) = x
