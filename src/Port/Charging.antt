-- ===== src/Port/Charging.antt =====
-- systems/drone_port/src/charging_manager/src/charging_manager.py: charges the drones that landed,
-- each in a thread of its own.
pub mod Arithmetic
pub mod Growth
pub mod Full
use https_gitflic_ru_project.Base.{
  ℕ, zero, suc, ◌/◌, ◌-◌, String, Bool, true, false, not, ◌&&◌, nat_eq, Option, none, some, List,
  [], ◌∷◌, if◌then◌else◌,
}
use https_gitflic_ru_project.Py.Float.{
  Float, positive, negative, infinity, neg_infinity, nan, unit, of_nat, float_lt, float_ge,
}
use https_gitflic_ru_project.Py.Value.{
  Value, ℤ, pos, negsuc, float, text, dict, Fields, end, Runtime, value_error, overflow_error, get,
  get_or,
}
use https_gitflic_ru_project.Py.Act.{
  Result, ok, raised, Act, pure, lift, read, write, publish, now, ◌>>=◌, ◌>>◌,
}
use https_gitflic_ru_project.Py.Maths.{Maths, of_neg, py_min, py_max}
use https_gitflic_ru_project.Py.Read.{as_dict, to_float}
use https_gitflic_ru_project.Sdk.Component.{
  Component, Handler, Handlers, register_handler, handle_ping, handle_get_status, handle_message,
}
use https_gitflic_ru_project.Port.Place.{Place, topic, call_from}

abbrev pub negated : ℕ → ℤ
negated zero = pos 0
negated (suc n) = negsuc n

-- `int(x)`
unfoldable pub int_of : Float → Result ℤ
unfolding unit
int_of (positive n) = ok (pos (n / unit))
int_of (negative n) = ok (negated (n / unit))
int_of infinity = raised overflow_error
int_of neg_infinity = raised overflow_error
int_of nan = raised value_error

abbrev pub int_eq : ℤ → ℤ → Bool
int_eq (pos a) (pos b) = nat_eq a b
int_eq (negsuc a) (negsuc b) = nat_eq a b
int_eq _ _ = false

-- `float(n)`, of a small number.
abbrev pub float_of : ℤ → Float
float_of (pos n) = of_nat n
float_of (negsuc n) = of_neg (suc n)

-- The threads of the charges that were started, each with its drone and battery.
pub record ChargingManager : Type 0 where
  pub place : Place
  pub threads : List (Value × Value)

-- The variables of a charge: `current_battery`, `last_update_ts`, `last_persisted_percent`.
pub record Charge : Type 0 where
  pub current_battery : Float
  pub last_update_ts : Float
  pub last_persisted_percent : ℤ

abbrev pub component_of : ChargingManager → Component
component_of s = s.place.component

abbrev pub to_registry : String → List (String × Value) → Act ChargingManager (Unit {0})
to_registry action payload = do
  s ← read (λ s. s)
  sent ← publish (topic s.place "registry") (call_from s.place action payload)
  pure tt

module _ (rt : Runtime) (maths : Maths) where
  -- How long a turn sleeps: with `_charging_update_interval_s` and `_charging_rate_pct_per_s`.
  unfoldable pub sleep_time : Float → Float
  unfolding py_min
  sleep_time current_battery =
      py_min (maths.literal "0.5")
        (maths.over (maths.minus (of_nat 100) current_battery) (of_nat 2))

  -- The battery after a turn.
  unfoldable pub charged : Float → Float → Float
  unfolding py_min
  charged current_battery dt_s =
      maths.round_to 2
        (py_min (of_nat 100) (maths.plus current_battery (maths.times (of_nat 2) dt_s)))

  -- The time that a turn took, or that it was to take.
  abbrev pub step_time : Float → Float → Float
  step_time dt_s sleep_s = if float_lt dt_s sleep_s then sleep_s else dt_s

  abbrev pub persist : Value → Float → ℤ → Act ChargingManager ℤ
  persist drone_id battery percent = do
    let full = float_ge battery (of_nat 100)
    to_registry "update_battery" (
        ("drone_id", drone_id)
        ∷ ("battery", float (if full then of_nat 100 else float_of percent))
        ∷ [])
    pure (if full then pos 100 else percent)

  -- A `continue`, or an update for the registry.
  abbrev pub persist_if_changed : Value → Float → ℤ → ℤ → Act ChargingManager ℤ
  persist_if_changed drone_id battery percent last =
      if float_lt battery (of_nat 100) && int_eq percent last
      then pure last
      else persist drone_id battery percent

  unfoldable pub charge_turn : Value → Charge → Act ChargingManager Charge
  unfolding float_lt float_ge sleep_time charged int_of
  charge_turn drone_id c = do
    t ← now
    let moment = maths.seconds t
    let dt_s = step_time (maths.minus moment c.last_update_ts) (sleep_time c.current_battery)
    let battery = charged c.current_battery dt_s
    percent ← lift (int_of battery)
    last ← persist_if_changed drone_id battery percent c.last_persisted_percent
    pure (record {
      current_battery = battery;
      last_update_ts = moment;
      last_persisted_percent = last;
    })

  -- `while current_battery < 100.0`; the answer is whether the loop ended within the turns.
  unfoldable pub charge_loop : ℕ → Value → Charge → Act ChargingManager Bool
  unfolding float_lt charge_turn
  charge_loop zero drone_id c = pure (not (float_lt c.current_battery (of_nat 100)))
  charge_loop (suc turns) drone_id c =
      if float_lt c.current_battery (of_nat 100)
      then charge_turn drone_id c >>= charge_loop turns drone_id
      else pure true

  -- `max(0.0, min(float(battery), 100.0))`
  unfoldable pub start_battery : Float → Float
  unfolding py_min py_max
  start_battery battery = py_max (of_nat 0) (py_min battery (of_nat 100))

  unfoldable pub simulate_charging : ℕ → Value → Value → Act ChargingManager Bool
  unfolding to_float start_battery int_of charge_loop
  simulate_charging turns drone_id battery = do
    given ← lift (to_float rt battery)
    let current_battery = start_battery given
    t ← now
    percent ← lift (int_of current_battery)
    charge_loop turns drone_id (record {
      current_battery = current_battery;
      last_update_ts = maths.seconds t;
      last_persisted_percent = percent;
    })

unfoldable pub handle_start_charging : Handler ChargingManager
unfolding get get_or
handle_start_charging message = do
  payload ← lift (as_dict (get_or message "payload" (dict end)))
  let drone_id = get payload "drone_id"
  to_registry "charging_started" (("drone_id", drone_id) ∷ [])
  write (λ s. record s {
    threads = (drone_id, get_or payload "battery" (float (of_nat 0))) ∷ s.threads;
  })
  pure none

abbrev pub charging_actions : List String
charging_actions = "ping" ∷ "get_status" ∷ "start_charging" ∷ []

unfoldable pub charging_handlers : Handlers ChargingManager
unfolding register_handler
charging_handlers = register_handler "start_charging" handle_start_charging (
    register_handler "get_status" (handle_get_status component_of charging_actions)
      (register_handler "ping" (handle_ping component_of) []))

unfoldable pub handle_charging : Runtime → Fields → Act ChargingManager (Unit {0})
unfolding handle_message charging_handlers
handle_charging rt message = handle_message rt component_of charging_handlers message
