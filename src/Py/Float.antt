-- ===== src/Py/Float.antt =====
-- Python's `float` as far as the components compare it. A finite double is a whole multiple of
-- 2 ^ -1074, so it is a sign and a number of those units; the comparisons are exact.
use https_gitflic_ru_project.Base.{ℕ, ◌*◌, ◌^◌, Bool, true, false, ◌&&◌, not, ltb, nat_eq}

pub data Float : Type 0 where
  positive : ℕ → Float
  negative : ℕ → Float
  infinity : Float
  neg_infinity : Float
  nan : Float

-- How many units 1.0 has.
unfoldable pub unit : ℕ
unit = 2 ^ 1074

-- The literal `n.0`, for a number that a double holds exactly.
abbrev pub of_nat : ℕ → Float
of_nat n = positive (n * unit)

-- `a < b`; every comparison with a NaN is false, and 0.0 is not above -0.0.
unfoldable pub float_lt : Float → Float → Bool
float_lt nan b = false
float_lt infinity b = false
float_lt neg_infinity nan = false
float_lt neg_infinity neg_infinity = false
float_lt neg_infinity (positive b) = true
float_lt neg_infinity (negative b) = true
float_lt neg_infinity infinity = true
float_lt (positive a) (positive b) = ltb a b
float_lt (positive a) infinity = true
float_lt (positive a) (negative b) = false
float_lt (positive a) neg_infinity = false
float_lt (positive a) nan = false
float_lt (negative a) (positive b) = not (nat_eq a 0 && nat_eq b 0)
float_lt (negative a) (negative b) = ltb b a
float_lt (negative a) infinity = true
float_lt (negative a) neg_infinity = false
float_lt (negative a) nan = false

-- The truth value of a float: false at 0.0 and -0.0 alone.
abbrev pub float_truthy : Float → Bool
float_truthy (positive a) = not (nat_eq a 0)
float_truthy (negative a) = not (nat_eq a 0)
float_truthy infinity = true
float_truthy neg_infinity = true
float_truthy nan = true

-- `a >= b`
unfoldable pub float_ge : Float → Float → Bool
float_ge nan b = false
float_ge infinity b = elim b [ nan ↦ false | _ ↦ true ]
float_ge neg_infinity b = elim b [ neg_infinity ↦ true | _ ↦ false ]
float_ge (positive a) (positive b) = not (ltb a b)
float_ge (positive a) (negative b) = true
float_ge (positive a) infinity = false
float_ge (positive a) neg_infinity = true
float_ge (positive a) nan = false
float_ge (negative a) (positive b) = nat_eq a 0 && nat_eq b 0
float_ge (negative a) (negative b) = not (ltb b a)
float_ge (negative a) infinity = false
float_ge (negative a) neg_infinity = true
float_ge (negative a) nan = false
