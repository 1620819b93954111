-- ===== src/Py/Maths.antt =====
-- Arithmetic of floats: `min` and `max`, which only compare, by their definition, and the operations
-- that round as an interface.
use https_gitflic_ru_project.Base.{ℕ, ◌*◌, ◌≡◌, String, true, if◌then◌else◌, arith}
use https_gitflic_ru_project.Py.Float.{
  Float, positive, negative, infinity, neg_infinity, nan, unit, of_nat, float_lt, float_ge,
}
use https_gitflic_ru_project.Py.Act.{Result}

-- The literal `-n.0`, for a number that a double holds exactly.
abbrev pub of_neg : ℕ → Float
of_neg n = negative (n * unit)

-- `min(a, b)` and `max(a, b)`: the first of two equal or incomparable values.
unfoldable pub py_min : Float → Float → Float
unfolding float_lt
py_min a b = if float_lt b a then b else a

unfoldable pub py_max : Float → Float → Float
unfolding float_lt
py_max a b = if float_lt a b then b else a

-- `max(low, min(high, x))`
unfoldable pub clamp : Float → Float → Float → Float
unfolding py_min py_max
clamp low high x = py_max low (py_min high x)

abbrev pub Within : Float → Float → Float → Type 0
Within low high x = (float_ge x low ≡ true) × (float_ge high x ≡ true)

-- What floats and the library of mathematics compute. `literal` is the float that a literal of the
-- source denotes; `seconds` reads the clock as `time.time()` and `time.monotonic()` do.
pub record Maths : Type 0 where
  pub literal : String → Float
  pub pi : Float
  pub seconds : String → Float
  pub plus : Float → Float → Float
  pub minus : Float → Float → Float
  pub times : Float → Float → Float
  pub over : Float → Float → Float
  pub modulo : Float → Float → Float
  -- `x ** y`
  pub power : Float → Float → Result Float
  pub absolute : Float → Float
  -- `round(x, digits)`
  pub round_to : ℕ → Float → Float
  pub radians : Float → Float
  pub degrees : Float → Float
  pub sin : Float → Result Float
  pub cos : Float → Result Float
  pub atan2 : Float → Float → Float
  pub hypot : Float → Float → Float
  pub sqrt : Float → Result Float

-- Rounding to digits is monotone and keeps whole numbers, and rounding to one digit keeps 359.9,
-- which is not negative.
pub record IsRounding (maths : Maths) : Type 0 where
  pub round-Within :
      (digits a b : ℕ) (x : Float)
      → Within (of_neg a) (of_nat b) x
      → Within (of_neg a) (of_nat b) (maths.round_to digits x)
  pub heading_positive : float_ge (maths.literal "359.9") (of_nat 0) ≡ true
  pub round_heading-Within :
      (x : Float)
      → Within (of_nat 0) (maths.literal "359.9") x
      → Within (of_nat 0) (maths.literal "359.9") (maths.round_to 1 x)

-- Between a negative and a positive bound, every float is clamped, infinities and NaN included.
pub clamp-Within :
    (a b : ℕ) (x : Float) → Within (of_neg a) (of_nat b) (clamp (of_neg a) (of_nat b) x)
unfolding clamp float_ge
clamp-Within a b (positive n) = ground arith
clamp-Within a b (negative n) = ground arith
clamp-Within a b infinity = ground arith
clamp-Within a b neg_infinity = ground arith
clamp-Within a b nan = ground arith

-- The same between 0.0 and a bound that is not negative.
pub clamp_positive-Within :
    (high x : Float)
    → float_ge high (of_nat 0) ≡ true
    → Within (of_nat 0) high (clamp (of_nat 0) high x)
unfolding clamp float_ge
clamp_positive-Within (positive a) (positive n) h = ground arith
clamp_positive-Within (positive a) (negative n) h = ground arith
clamp_positive-Within (positive a) infinity h = ground arith
clamp_positive-Within (positive a) neg_infinity h = ground arith
clamp_positive-Within (positive a) nan h = ground arith
clamp_positive-Within (negative a) (positive n) h = ground arith
clamp_positive-Within (negative a) (negative n) h = ground arith
clamp_positive-Within (negative a) infinity h = ground arith
clamp_positive-Within (negative a) neg_infinity h = ground arith
clamp_positive-Within (negative a) nan h = ground arith
clamp_positive-Within infinity (positive n) h = ground arith
clamp_positive-Within infinity (negative n) h = ground arith
clamp_positive-Within infinity infinity h = ground arith
clamp_positive-Within infinity neg_infinity h = ground arith
clamp_positive-Within infinity nan h = ground arith
clamp_positive-Within neg_infinity x h = cc
clamp_positive-Within nan x h = cc
