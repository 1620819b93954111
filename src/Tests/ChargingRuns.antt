-- ===== src/Tests/ChargingRuns.antt =====
-- A charge at the drone port, with an arithmetic of exact sums.
use https_gitflic_ru_project.Base.{ℕ, ◌+◌, ◌-◌, ◌≡◌, refl, true, Option, none, some, [], arith}
use https_gitflic_ru_project.Py.Float.{Float, positive, infinity, of_nat, float_ge, float_lt}
use https_gitflic_ru_project.Py.Value.{text, float}
use https_gitflic_ru_project.Py.Act.{ok, Always, AnyCall}
use https_gitflic_ru_project.Py.Maths.{Maths}
use https_gitflic_ru_project.Py.Read.{to_float}
use https_gitflic_ru_project.Port.Charging.{ChargingManager, simulate_charging}
use https_gitflic_ru_project.Port.Charging.Full.{IsUpdate, simulate_charging-Full}
use https_gitflic_ru_project.Port.Charging.Arithmetic.{IsArithmetic}
use https_gitflic_ru_project.Tests.Samples.{rt, component}
use https_gitflic_ru_project.Tests.AgroRuns.{maths}

-- The units of a number that is not negative.
abbrev units : Float → Option ℕ
units (positive n) = some n
units infinity = none
units _ = some 0

abbrev sum_of : Option ℕ → Option ℕ → Float
sum_of (some a) (some b) = positive (a + b)
sum_of _ _ = infinity

abbrev difference_of : Option ℕ → Option ℕ → Float
difference_of (some a) (some b) = positive (a - b)
difference_of _ _ = infinity

abbrev exact : Maths
exact = record maths {
  plus = λ a b. sum_of (units a) (units b);
  minus = λ a b. difference_of (units a) (units b);
  times = λ a b. b;
  over = λ a b. a;
  literal = λ s. of_nat 1;
  seconds = λ t. of_nat 0;
  round_to = λ n a. a;
}

exact-IsArithmetic : IsArithmetic exact
unfolding float_ge float_lt
exact-IsArithmetic = record {
  plus_monotone = λ a b x y h k l m. ground arith;
  plus_whole = λ a b h. ground arith;
  double_monotone = λ x y h k. k;
  double_half = refl;
  half_positive = ground arith;
  rest_positive = λ x h. ground arith;
  rest_large = λ x h l. ground arith;
  rest_exact = λ x h. ground arith;
  round-Within = λ digits a b x h. h;
  elapsed = λ t u e. cc;
}

abbrev charger : ChargingManager
charger = record {
  place = record { component = component; namespace = ""; system = "drone_port" };
  threads = [];
}

simulate_charging-Full_example :
    Always AnyCall
      (IsUpdate charger (text "drone_7"))
      (λ r. r ≡ (ok true, charger))
      (simulate_charging rt exact 100 (text "drone_7") (float (of_nat 97)) charger)
unfolding to_float
simulate_charging-Full_example =
    simulate_charging-Full rt exact exact-IsArithmetic (text "drone_7") (float (of_nat 97))
      (of_nat 97) charger refl
