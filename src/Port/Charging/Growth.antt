-- ===== src/Port/Charging/Growth.antt =====
-- What a turn of a charge adds to the battery.
use https_gitflic_ru_project.Base.{ℕ, suc, ◌+◌, ◌≤◌, String, true, ◌≡◌, arith, Bool-cases, inl, inr}
use https_gitflic_ru_project.Py.Float.{Float, of_nat, float_lt, float_ge}
use https_gitflic_ru_project.Py.Value.{Runtime}
use https_gitflic_ru_project.Py.Maths.{Maths, py_min, Within}
use https_gitflic_ru_project.Port.Charging.{sleep_time, charged, step_time}
use https_gitflic_ru_project.Port.Charging.Arithmetic.{
  IsArithmetic, not_less, ge_trans, ge_number, ge_self, less_below, whole_ge,
}

module _ (rt : Runtime) (maths : Maths) (law : IsArithmetic maths) where
  pub least_time :
      (t u : String) (sleep_s : Float)
      → float_ge sleep_s (of_nat 0) ≡ true
      → float_ge
          (step_time rt maths (maths.minus (maths.seconds t) (maths.seconds u)) sleep_s)
          sleep_s
        ≡ true
  least_time t u sleep_s e =
      let dt_s = maths.minus (maths.seconds t) (maths.seconds u) in
      elim (Bool-cases (float_lt dt_s sleep_s)) [
        | inl early ↦ rw early (ge_self sleep_s (ge_number sleep_s (of_nat 0) e))
        | inr late ↦
            rw late (not_less dt_s sleep_s (law.elapsed t u) (ge_number sleep_s (of_nat 0) e) late)
      ]

  abbrev rest : Float → Float
  rest x = maths.over (maths.minus (of_nat 100) x) (of_nat 2)

  pub sleep_positive :
      (x : Float)
      → Within (of_nat 0) (of_nat 100) x
      → float_ge (sleep_time rt maths x) (of_nat 0) ≡ true
  unfolding sleep_time py_min
  sleep_positive x h = elim (Bool-cases (float_lt (rest x) (maths.literal "0.5"))) [
    | inl near ↦ rw near (law.rest_positive x h).1
    | inr far ↦ rw far law.half_positive
  ]

  -- A turn that takes the time of its sleep charges by a whole per cent, or to the full.
  sum_grows :
      (k : ℕ) (x dt_s : Float)
      → suc k ≤ 100
      → Within (of_nat k) (of_nat 100) x
      → float_ge dt_s (sleep_time rt maths x) ≡ true
      → float_ge (maths.plus x (maths.times (of_nat 2) dt_s)) (of_nat (suc k)) ≡ true
  unfolding sleep_time py_min
  sum_grows k x dt_s small h e =
      let low : Within (of_nat 0) (of_nat 100) x =
        (ge_trans x (of_nat k) (of_nat 0) h.0 (whole_ge k 0 (omega arith)), h.1) in
      let positive_rest = law.rest_positive x low in
      elim (Bool-cases (float_lt (rest x) (maths.literal "0.5"))) [
        | inl near ↦
            let late : float_ge dt_s (rest x) ≡ true = (rw near at e) in
            let above : Within (of_nat 99) (of_nat 100) x = (law.rest_large x low near, h.1) in
            let exact = law.rest_exact x above in
            let doubled : float_ge (maths.times (of_nat 2) dt_s) (maths.minus (of_nat 100) x)
                ≡ true =
              rw exact.0 at (law.double_monotone dt_s (rest x) positive_rest.1 late) in
            let full : float_ge (maths.plus x (maths.times (of_nat 2) dt_s)) (of_nat 100) ≡ true =
              rw exact.1 at (
                law.plus_monotone x x _ _ low.0 positive_rest.0
                  (ge_self x (ge_number x (of_nat 0) low.0)) doubled) in
            ge_trans _ (of_nat 100) (of_nat (suc k)) full (whole_ge 100 (suc k) small)
        | inr far ↦
            let late : float_ge dt_s (maths.literal "0.5") ≡ true = (rw far at e) in
            let doubled : float_ge (maths.times (of_nat 2) dt_s) (of_nat 1) ≡ true =
              rw law.double_half at
                (law.double_monotone dt_s (maths.literal "0.5") law.half_positive late) in
            let sum : maths.plus (of_nat k) (of_nat 1) ≡ of_nat (k + 1) =
              law.plus_whole k 1 (omega arith) in
            let next : float_ge (maths.plus x (maths.times (of_nat 2) dt_s)) (of_nat (k + 1))
                ≡ true =
              rw sum at (
                law.plus_monotone x (of_nat k) _ (of_nat 1) (whole_ge k 0 (omega arith))
                  (whole_ge 1 0 (omega arith)) h.0 doubled) in
            ge_trans _ (of_nat (k + 1)) (of_nat (suc k)) next
              (whole_ge (k + 1) (suc k) (omega arith))
      ]

  pub charged-Within :
      (k : ℕ) (x dt_s : Float)
      → suc k ≤ 100
      → Within (of_nat k) (of_nat 100) x
      → float_ge dt_s (sleep_time rt maths x) ≡ true
      → Within (of_nat (suc k)) (of_nat 100) (charged rt maths x dt_s)
  unfolding charged py_min
  charged-Within k x dt_s small h e =
      let sum = maths.plus x (maths.times (of_nat 2) dt_s) in
      law.round-Within 2 (suc k) 100 _ (elim (Bool-cases (float_lt sum (of_nat 100))) [
        | inl below ↦ rw below (sum_grows k x dt_s small h e, less_below sum (of_nat 100) below)
        | inr above ↦ rw above (whole_ge 100 (suc k) small, whole_ge 100 100 (omega arith))
      ])
