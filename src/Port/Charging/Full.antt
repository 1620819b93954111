-- ===== src/Port/Charging/Full.antt =====
-- The end of a charge.
use https_gitflic_ru_project.Base.{
  ℕ, zero, suc, ◌+◌, ◌≤◌, String, true, false, ◌&&◌, ◌≡◌, refl, sym, ◌∙◌, leb, arith, Bool-cases,
  inl, inr, [], ◌∷◌,
}
use https_gitflic_ru_project.Py.Float.{
  Float, positive, negative, infinity, neg_infinity, nan, of_nat, float_lt, float_ge,
}
use https_gitflic_ru_project.Py.Value.{Value, ℤ, pos, float, Fields, Runtime}
use https_gitflic_ru_project.Py.Act.{
  Result, ok, Always, at_ret, at_send, at_clock, AnyCall, Always-bind, Always-if_act, pure, go_on,
  ◌>>=◌,
}
use https_gitflic_ru_project.Py.Maths.{Maths, py_min, py_max, Within}
use https_gitflic_ru_project.Py.Read.{to_float}
use https_gitflic_ru_project.Port.Place.{topic, call_from}
use https_gitflic_ru_project.Port.Charging.{
  int_eq, ChargingManager, Charge, sleep_time, charged, step_time, charge_turn, charge_loop,
  start_battery, simulate_charging, float_of, persist_if_changed,
}
use https_gitflic_ru_project.Port.Charging.Arithmetic.{
  IsArithmetic, ge_trans, less_not, whole_ge, int-Within,
}
use https_gitflic_ru_project.Port.Charging.Growth.{least_time, sleep_positive, charged-Within}

-- An update of the drone in the registry, with a battery between 0 and 100 %.
abbrev pub IsUpdate : ChargingManager → Value → Value → Fields → Type 0
IsUpdate s drone_id to m =
    (battery : Float) × Within (of_nat 0) (of_nat 100) battery
    × (to ≡ topic s.place "registry")
    × (m
        ≡ call_from s.place "update_battery"
            (("drone_id", drone_id) ∷ ("battery", float battery) ∷ []))

module _ (rt : Runtime) (maths : Maths) (law : IsArithmetic maths) where
  -- The variables of a charge after a reading `u` of the clock.
  abbrev since : Float → String → ℤ → Charge
  since battery u last = record {
    current_battery = battery;
    last_update_ts = maths.seconds u;
    last_persisted_percent = last;
  }

  -- A turn that ends with at least `k` per cent.
  data Charges (s : ChargingManager) (k : ℕ) : Result Charge × ChargingManager → Type 0 where
    charges :
        (battery : Float) (u : String) (last : ℤ)
        → Within (of_nat k) (of_nat 100) battery
        → Charges s k (ok (since battery u last), s)

  persist-Charges :
      (drone_id : Value) (battery : Float) (u : String) (percent last : ℤ) (k : ℕ)
      (s : ChargingManager)
      → Within (of_nat k) (of_nat 100) battery
      → Within (of_nat 0) (of_nat 100) (float_of percent)
      → Always AnyCall (IsUpdate s drone_id) (Charges s k) (
          (persist_if_changed rt maths drone_id battery percent last >>= λ n.
          pure (since battery u n))
            s)
  persist-Charges drone_id battery u percent last k s h p =
      elim (Bool-cases (float_lt battery (of_nat 100) && int_eq percent last)) [
        | inl same ↦ rw same (at_ret (charges battery u last h))
        | inr new ↦ rw new (elim (Bool-cases (float_ge battery (of_nat 100))) [
          | inl full ↦ rw full (
              at_send
                (
                  of_nat 100,
                  (whole_ge 100 0 (omega arith), whole_ge 100 100 (omega arith)),
                  refl,
                  refl,
                )
                (λ _. at_ret (charges battery u (pos 100) h)))
          | inr partly ↦ rw partly (
              at_send (float_of percent, p, refl, refl) (λ _. at_ret (charges battery u percent h)))
        ])
      ]

  turn-Charges :
      (drone_id : Value) (x : Float) (u : String) (last : ℤ) (k : ℕ) (s : ChargingManager)
      → suc k ≤ 100
      → Within (of_nat k) (of_nat 100) x
      → Always AnyCall
          (IsUpdate s drone_id)
          (Charges s (suc k))
          (charge_turn rt maths drone_id (since x u last) s)
  unfolding charge_turn
  turn-Charges drone_id x u last k s small h = at_clock (λ t.
      let low : Within (of_nat 0) (of_nat 100) x =
        (ge_trans x (of_nat k) (of_nat 0) h.0 (whole_ge k 0 (omega arith)), h.1) in
      let sleep_s = sleep_time rt maths x in
      let dt_s = step_time rt maths (maths.minus (maths.seconds t) (maths.seconds u)) sleep_s in
      let battery = charged rt maths x dt_s in
      let w =
        charged-Within rt maths law k x dt_s small h
          (least_time rt maths law t u sleep_s (sleep_positive rt maths law x low)) in
      let whole = int-Within battery (
        ge_trans battery (of_nat (suc k)) (of_nat 0) w.0 (whole_ge (suc k) 0 (omega arith)),
        w.1,
      ) in
      rw whole.1 (persist-Charges drone_id battery t whole.0 last (suc k) s w whole.2))

  next-Full :
      (turns : ℕ) (drone_id : Value) (k : ℕ) (s : ChargingManager)
      (r : Result Charge × ChargingManager)
      → Charges s (suc k) r
      → ((x : Float) (u : String) (last : ℤ)
          → Within (of_nat (suc k)) (of_nat 100) x
          → Always AnyCall
              (IsUpdate s drone_id)
              (λ r. r ≡ (ok true, s))
              (charge_loop rt maths turns drone_id (since x u last) s))
      → Always AnyCall
          (IsUpdate s drone_id)
          (λ r. r ≡ (ok true, s))
          (go_on (charge_loop rt maths turns drone_id) r)
  next-Full turns drone_id k s _ (charges x u last w) later = later x u last w

  below_full :
      (k : ℕ) (x : Float)
      → Within (of_nat k) (of_nat 100) x
      → float_lt x (of_nat 100) ≡ true
      → k ≤ 100
      → suc k ≤ 100
  below_full k x h partly small = elim (Bool-cases (leb (suc k) 100)) [
    | inl less ↦ ground arith
    | inr more ↦
        let at_end : k ≡ 100 = ground arith in
        let full : float_ge x (of_nat 100) ≡ true = (rw at_end at (h.0)) in
        let twice : true ≡ false = sym partly ∙ less_not x (of_nat 100) full in cc
  ]

  loop-Full :
      (turns : ℕ) (drone_id : Value) (x : Float) (u : String) (last : ℤ) (k : ℕ)
      (s : ChargingManager)
      → Within (of_nat k) (of_nat 100) x
      → k ≤ 100
      → 100 ≤ turns + k
      → Always AnyCall
          (IsUpdate s drone_id)
          (λ r. r ≡ (ok true, s))
          (charge_loop rt maths turns drone_id (since x u last) s)
  unfolding charge_loop
  loop-Full zero drone_id x u last k s h small enough =
      let at_end : k ≡ 100 = omega arith in
      let full : float_ge x (of_nat 100) ≡ true = (rw at_end at (h.0)) in
      rw (less_not x (of_nat 100) full) (at_ret refl)
  loop-Full (suc turns) drone_id x u last k s h small enough =
      Always-if_act (float_lt x (of_nat 100)) _ _ s
        (λ partly.
          let below : suc k ≤ 100 = below_full k x h partly small in
          Always-bind (go_on (charge_loop rt maths turns drone_id))
            (turn-Charges drone_id x u last k s below h)
            (λ r q.
              next-Full turns drone_id k s r q
                (λ y v n w. loop-Full turns drone_id y v n (suc k) s w below (omega arith))))
        (λ full. at_ret refl)

  start-Within : (x : Float) → Within (of_nat 0) (of_nat 100) (start_battery rt maths x)
  unfolding start_battery py_min py_max float_lt float_ge
  start-Within (positive n) = ground arith
  start-Within (negative n) = ground arith
  start-Within infinity = ground arith
  start-Within neg_infinity = ground arith
  start-Within nan = ground arith

  -- Where the arithmetic of floats is as `IsArithmetic` says, the charge of a drone whose battery is
  -- told as a number ends after at most 100 turns, however long they take, and every update that it
  -- publishes is one of that drone in the registry, with a battery between 0 and 100 %.
  pub simulate_charging-Full :
      (drone_id battery : Value) (given : Float) (s : ChargingManager)
      → to_float rt battery ≡ ok given
      → Always AnyCall
          (IsUpdate s drone_id)
          (λ r. r ≡ (ok true, s))
          (simulate_charging rt maths 100 drone_id battery s)
  unfolding simulate_charging
  simulate_charging-Full drone_id battery given s e =
      let start = start_battery rt maths given in
      let w = start-Within given in
      let whole = int-Within start w in
      rw e (
        at_clock (λ t.
          rw whole.1 (loop-Full 100 drone_id start t whole.0 0 s w (omega arith) (omega arith))))
