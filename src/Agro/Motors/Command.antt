-- ===== src/Agro/Motors/Command.antt =====
-- The numbers of motors.py: the velocity of a target and the command for the simulator.
use https_gitflic_ru_project.Base.{String, Bool, true, ◌&&◌, ◌||◌, [], ◌∷◌, if◌then◌else◌}
use https_gitflic_ru_project.Py.Float.{Float, of_nat, float_lt}
use https_gitflic_ru_project.Py.Value.{
  Value, null, float, text, Fields, fields_of, Runtime, get, or_else,
}
use https_gitflic_ru_project.Py.Act.{Result, ok}
use https_gitflic_ru_project.Py.Read.{then_check, to_float}
use https_gitflic_ru_project.Py.Maths.{Maths, of_neg, clamp}

pub record Velocity : Type 0 where
  pub vx : Float
  pub vy : Float
  pub vz : Float

abbrev pub is_none : Value → Bool
is_none null = true
is_none _ = Bool.false

module _ (rt : Runtime) (maths : Maths) where
  -- `_vx_vy_to_mag_heading(vx, vy)`
  unfoldable pub mag_heading_of : Float → Float → Float
  unfolding float_lt
  mag_heading_of vx vy =
      if float_lt (maths.absolute vx) (maths.literal "1e-9")
        && float_lt (maths.absolute vy) (maths.literal "1e-9")
      then of_nat 0
      else maths.modulo (maths.plus (maths.degrees (maths.atan2 vx vy)) (of_nat 360)) (of_nat 360)

  -- `float(value or 0.0)`
  abbrev pub float_or_zero : Value → Result Float
  float_or_zero v = to_float rt (or_else v (float (of_nat 0)))

  -- The components of a target: as they stand, or from a heading and a speed.
  unfoldable pub velocity : Fields → Result Velocity
  unfolding get to_float
  velocity payload =
      let x = get payload "vx" in
      let y = get payload "vy" in
      let z = get payload "vz" in
      if is_none x || is_none y || is_none z
      then then_check (float_or_zero (get payload "heading_deg")) (λ h.
        then_check (float_or_zero (get payload "ground_speed_mps")) (λ s.
          let hr = maths.radians h in
          then_check (maths.sin hr) (λ sine. then_check (maths.cos hr) (λ cosine.
            ok (record { vx = maths.times s sine; vy = maths.times s cosine; vz = of_nat 0 })))))
      else then_check (to_float rt x) (λ vx.
        then_check (to_float rt y)
          (λ vy. then_check (to_float rt z) (λ vz. ok (record { vx = vx; vy = vy; vz = vz }))))

  abbrev pub heading_in_range : Float → Float
  heading_in_range x = clamp (of_nat 0) (maths.literal "359.9") x

  -- The heading, from the command or from the velocity.
  abbrev pub mag_heading : Value → Float → Float → Result Float
  mag_heading null vx vy = ok (heading_in_range (maths.round_to 1 (mag_heading_of vx vy)))
  mag_heading heading_deg vx vy =
      then_check (to_float rt heading_deg)
        (λ h. ok (heading_in_range (maths.modulo h (of_nat 360))))

  unfoldable pub build_sitl_command : String → Fields → Result Fields
  unfolding get to_float clamp mag_heading_of
  build_sitl_command drone_id command = then_check (float_or_zero (get command "vx")) (λ x.
      then_check (float_or_zero (get command "vy")) (λ y.
        then_check (float_or_zero (get command "vz")) (λ z.
          let vx = clamp (of_neg 50) (of_nat 50) x in
          let vy = clamp (of_neg 50) (of_nat 50) y in
          let vz = clamp (of_neg 10) (of_nat 10) z in
          then_check (mag_heading (get command "heading_deg") vx vy) (λ heading. ok (
            fields_of (
              ("drone_id", text drone_id)
              ∷ ("vx", float (maths.round_to 2 vx))
              ∷ ("vy", float (maths.round_to 2 vy))
              ∷ ("vz", float (maths.round_to 2 vz))
              ∷ ("mag_heading", float (maths.round_to 1 heading))
              ∷ []))))))
