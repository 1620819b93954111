-- ===== src/Port/Charging/Arithmetic.antt =====
-- What is relied on of the arithmetic of a charge, and the comparisons of floats.
use native.Mathlib.Nat.{mul-le-mul_right, div-mul-le_self}
use https_gitflic_ru_project.Base.{
  ℕ, ◌+◌, ◌*◌, ◌/◌, ◌≤◌, String, true, false, ◌≡◌, ◌≢◌, refl, arith,
}
use https_gitflic_ru_project.Py.Float.{
  Float, positive, negative, infinity, neg_infinity, nan, unit, of_nat, float_lt, float_ge,
}
use https_gitflic_ru_project.Py.Value.{ℤ, pos}
use https_gitflic_ru_project.Py.Act.{ok}
use https_gitflic_ru_project.Py.Maths.{Maths, Within}
use https_gitflic_ru_project.Port.Charging.{int_of, float_of}

-- What is relied on of the arithmetic of floats: the sum and the double are monotone where nothing
-- is negative; whole numbers up to 100 have exact sums; half of what is left above 99 is exact, and
-- so is the sum with it; rounding to digits is monotone and keeps whole numbers; the difference of
-- two readings of the clock is a number.
pub record IsArithmetic (maths : Maths) : Type 0 where
  pub plus_monotone :
      (a b x y : Float)
      → float_ge b (of_nat 0) ≡ true
      → float_ge y (of_nat 0) ≡ true
      → float_ge a b ≡ true
      → float_ge x y ≡ true
      → float_ge (maths.plus a x) (maths.plus b y) ≡ true
  pub plus_whole : (a b : ℕ) → a + b ≤ 100 → maths.plus (of_nat a) (of_nat b) ≡ of_nat (a + b)
  pub double_monotone :
      (x y : Float)
      → float_ge y (of_nat 0) ≡ true
      → float_ge x y ≡ true
      → float_ge (maths.times (of_nat 2) x) (maths.times (of_nat 2) y) ≡ true
  pub double_half : maths.times (of_nat 2) (maths.literal "0.5") ≡ of_nat 1
  pub half_positive : float_ge (maths.literal "0.5") (of_nat 0) ≡ true
  pub rest_positive :
      (x : Float)
      → Within (of_nat 0) (of_nat 100) x
      → (float_ge (maths.minus (of_nat 100) x) (of_nat 0) ≡ true)
        × (float_ge (maths.over (maths.minus (of_nat 100) x) (of_nat 2)) (of_nat 0) ≡ true)
  pub rest_large :
      (x : Float)
      → Within (of_nat 0) (of_nat 100) x
      → float_lt (maths.over (maths.minus (of_nat 100) x) (of_nat 2)) (maths.literal "0.5") ≡ true
      → float_ge x (of_nat 99) ≡ true
  pub rest_exact :
      (x : Float)
      → Within (of_nat 99) (of_nat 100) x
      → (maths.times (of_nat 2) (maths.over (maths.minus (of_nat 100) x) (of_nat 2))
          ≡ maths.minus (of_nat 100) x)
        × (maths.plus x (maths.minus (of_nat 100) x) ≡ of_nat 100)
  pub round-Within :
      (digits a b : ℕ) (x : Float)
      → Within (of_nat a) (of_nat b) x
      → Within (of_nat a) (of_nat b) (maths.round_to digits x)
  pub elapsed : (t u : String) → maths.minus (maths.seconds t) (maths.seconds u) ≢ nan

-- Comparisons of floats.
pub not_less : (x y : Float) → x ≢ nan → y ≢ nan → float_lt x y ≡ false → float_ge x y ≡ true
unfolding float_lt float_ge
not_less x y a b e = ground arith

pub ge_trans : (x y z : Float) → float_ge x y ≡ true → float_ge y z ≡ true → float_ge x z ≡ true
unfolding float_ge
ge_trans x y z a b = ground arith

pub ge_number : (x y : Float) → float_ge x y ≡ true → x ≢ nan
unfolding float_ge
ge_number x y a = ground arith

pub ge_self : (x : Float) → x ≢ nan → float_ge x x ≡ true
unfolding float_ge
ge_self x a = ground arith

pub less_not : (x y : Float) → float_ge x y ≡ true → float_lt x y ≡ false
unfolding float_lt float_ge
less_not x y a = ground arith

pub less_below : (x y : Float) → float_lt x y ≡ true → float_ge y x ≡ true
unfolding float_lt float_ge
less_below x y a = ground arith

pub whole_ge : (a b : ℕ) → b ≤ a → float_ge (of_nat a) (of_nat b) ≡ true
unfolding float_ge
whole_ge a b h = let scaled : b * unit ≤ a * unit = mul-le-mul_right unit h in ground arith

not_less_whole : (a b : ℕ) → b ≤ a → float_lt (of_nat a) (of_nat b) ≡ false
unfolding float_lt
not_less_whole a b h = let scaled : b * unit ≤ a * unit = mul-le-mul_right unit h in ground arith

-- What is between 0 and 100 has a whole part, which is between 0 and 100 too.
pub int-Within :
    (x : Float)
    → Within (of_nat 0) (of_nat 100) x
    → (n : ℤ) × (int_of x ≡ ok n) × Within (of_nat 0) (of_nat 100) (float_of n)
unfolding int_of float_ge
int-Within (positive n) h =
    let below : (n / unit) * unit ≤ n = div-mul-le_self n unit in
    (pos (n / unit), refl, ground arith)
int-Within (negative n) h =
    let nothing : n ≡ 0 = ground arith in rw nothing (pos 0, refl, ground arith)
int-Within infinity h = absurd (ground arith)
int-Within neg_infinity h = absurd (ground arith)
int-Within nan h = absurd (ground arith)
