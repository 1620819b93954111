-- ===== src/Agro/Autopilot/Steering.antt =====
-- The flight from step to step of a mission.
use https_gitflic_ru_project.Base.{
  ℕ, zero, suc, Bool, true, false, not, leb, Option, none, some, [], ◌∷◌, if◌then◌else◌,
}
use https_gitflic_ru_project.Py.Float.{of_nat, float_ge}
use https_gitflic_ru_project.Py.Value.{
  Value, float, text, list, dict, Items, nil, cons, Fields, Runtime, type_error, key_error,
  index_error, get, or_else, truthy,
}
use https_gitflic_ru_project.Py.Act.{Result, ok, raised, Act, pure, lift, read, write, ◌>>=◌, ◌>>◌}
use https_gitflic_ru_project.Py.Read.{
  then_check, to_float, as_dict, items_count, fields_count, characters,
}
use https_gitflic_ru_project.Py.Maths.{Maths}
use https_gitflic_ru_project.Agro.Autopilot.{
  FlightState, executing, paused, completed, Settings, Autopilot, Target, mission_field,
  send_motors_target, send_sprayer, log_to_journal,
}
use https_gitflic_ru_project.Agro.Autopilot.Geometry.{
  Position, or_return, position, distance, heading_to, compute_velocity_vectors,
}
use https_gitflic_ru_project.Agro.Autopilot.Landing.{hover, start_mission_landing}

-- `len(steps)`
unfoldable pub steps_length : Value → Result ℕ
steps_length (list vs) = ok (items_count vs)
steps_length (text s) = ok (items_count (characters s))
steps_length (dict d) = ok (fields_count d)
steps_length _ = raised type_error

abbrev pub nth : Items → ℕ → Result Value
nth nil i = raised index_error
nth (cons v vs) zero = ok v
nth (cons v vs) (suc i) = nth vs i

-- `steps[i]`; the keys of a dict are texts.
unfoldable pub step_at : Value → ℕ → Result Value
step_at (list vs) i = nth vs i
step_at (text s) i = nth (characters s) i
step_at (dict d) i = raised key_error
step_at _ i = raised type_error

-- `if self._current_step_index is None: self._current_step_index = 0`
abbrev pub index_or_first : Option ℕ → ℕ
index_or_first none = 0
index_or_first (some i) = i

abbrev pub is_paused : FlightState → Bool
is_paused paused = true
is_paused _ = false

-- `self._state not in ("EXECUTING", "PAUSED")` fails.
abbrev pub is_flying : FlightState → Bool
is_flying executing = true
is_flying paused = true
is_flying _ = false

module _ (rt : Runtime) (maths : Maths) (c : Settings) where
  -- A step and its position.
  unfoldable pub step_position : Value → Result (Fields × Position)
  unfolding position
  step_position step = then_check (as_dict step) (λ d. then_check (position rt d) (λ p. ok (d, p)))

  -- The target of a state EXECUTING.
  unfoldable pub step_target : Position → Fields → Position → Result Target
  unfolding get to_float heading_to compute_velocity_vectors
  step_target p step t =
      let heading_deg = heading_to maths p t in
      then_check (to_float rt (or_else (get step "speed_mps") (float (of_nat 5)))) (λ speed_mps.
        then_check (compute_velocity_vectors maths heading_deg speed_mps p.alt t.alt) (λ v.
          ok (record {
            vx = v.vx;
            vy = v.vy;
            vz = v.vz;
            alt_m = t.alt;
            lat = p.lat;
            lon = p.lon;
            heading_deg = float heading_deg;
            drop = truthy (get step "spray");
          })))

  -- Towards a step, or standing still.
  unfoldable pub fly_to : Fields → Position → Fields × Position → Act Autopilot (Unit {0})
  unfolding send_motors_target send_sprayer step_target
  fly_to nav p (step, t) = do
    s ← read (λ s. s)
    if is_paused s.state
        then (do send_motors_target c (hover nav p (of_nat 0) p.alt); send_sprayer c false)
        else (do
          target ← lift (step_target p step t)
          send_motors_target c target
          send_sprayer c target.drop)

  -- At a step: on to the next, or down after the last.
  unfoldable pub reached : Fields → Position → Value → ℕ → ℕ → Act Autopilot (Unit {0})
  unfolding step_at step_position fly_to send_sprayer start_mission_landing get
  reached nav p steps i n =
      if leb (suc (suc i)) n
      then (do
        write (λ s. record s { current_step_index = some (suc i) })
        step ← lift (step_at steps (suc i))
        or_return (step_position step) (fly_to nav p))
      else (do
        s ← read (λ s. s)
        mid ← lift (mission_field s.mission "mission_id")
        send_sprayer c false
        start_mission_landing rt maths c mid)

  unfoldable pub fly_step :
      Fields → Value → ℕ → ℕ → Position × (Fields × Position) → Act Autopilot (Unit {0})
  unfolding distance float_ge reached fly_to
  fly_step nav steps i n (p, target) = do
    distance_m ← lift (distance maths p target.1)
    if float_ge (of_nat 2) distance_m then reached nav p steps i n else fly_to nav p target

  -- The positions of the drone and of the step.
  unfoldable pub both_positions : Fields → Value → Result (Position × (Fields × Position))
  unfolding position step_position
  both_positions nav step =
      then_check (position rt nav) (λ p. then_check (step_position step) (λ t. ok (p, t)))

  unfoldable pub follow : Fields → Value → ℕ → ℕ → Act Autopilot (Unit {0})
  unfolding step_at both_positions fly_step log_to_journal get
  follow nav steps i n =
      if leb n i
      then (do
        write (λ s. record s { state = completed })
        s ← read (λ s. s)
        mid ← lift (mission_field s.mission "mission_id")
        log_to_journal c "AUTOPILOT_MISSION_COMPLETED" (("mission_id", mid) ∷ []))
      else (do
        step ← lift (step_at steps i)
        or_return (both_positions nav step) (fly_step nav steps i n))

  unfoldable pub fly_mission : Fields → Fields → Act Autopilot (Unit {0})
  unfolding get steps_length follow
  fly_mission nav m =
      let steps = get m "steps" in
      if not (truthy steps) then pure tt else (do
        i ← read (λ s. index_or_first s.current_step_index)
        write (λ s. record s { current_step_index = some i })
        n ← lift (steps_length steps)
        follow nav steps i n)
