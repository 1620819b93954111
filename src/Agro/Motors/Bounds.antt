-- ===== src/Agro/Motors/Bounds.antt =====
-- The range of the commands for the simulator.
use https_gitflic_ru_project.Base.{String, ◌≡◌, ◌⊎◌, inl, inr, refl, some, subst}
use https_gitflic_ru_project.Py.Float.{Float, of_nat}
use https_gitflic_ru_project.Py.Value.{
  Value, null, bool, int, float, text, list, dict, Fields, Runtime, find, get,
}
use https_gitflic_ru_project.Py.Act.{ok, Always, at_ret, Ends, Always-weaken}
use https_gitflic_ru_project.Py.Maths.{
  Maths, IsRounding, Within, of_neg, clamp, clamp-Within, clamp_positive-Within,
}
use https_gitflic_ru_project.Py.Read.{then_check, to_float}
use https_gitflic_ru_project.Py.Read.Outcome.{IfOk, then_check-IfOk, then_check-IfOk_both}
use https_gitflic_ru_project.Sdk.Component.{handle_ping, handle_get_status}
use https_gitflic_ru_project.Sdk.Component.Calls.{IsService, handle_message-Keeps}
use https_gitflic_ru_project.Agro.Place.{Place}
use https_gitflic_ru_project.Agro.Motors.Command.{
  mag_heading, heading_in_range, build_sitl_command, float_or_zero,
}
use https_gitflic_ru_project.Agro.Motors.Calls.{
  Sends, IsSame, handle_set_target-Keeps, handle_land-Keeps,
}
use https_gitflic_ru_project.Agro.Motors.{
  Motors, component_of, handle_motors_state, handlers, handle,
}

-- A command within the limits of the simulator: 50 m/s on either axis, 10 m/s up or down, and a
-- heading from 0 to 359.9 degrees.
pub record IsWithinLimits (maths : Maths) (command : Fields) : Type 0 where
  pub vx : Float
  pub vy : Float
  pub vz : Float
  pub mag_heading : Float
  pub vx_stands : find command "vx" ≡ some (float vx)
  pub vy_stands : find command "vy" ≡ some (float vy)
  pub vz_stands : find command "vz" ≡ some (float vz)
  pub mag_heading_stands : find command "mag_heading" ≡ some (float mag_heading)
  pub vx_within : Within (of_neg 50) (of_nat 50) vx
  pub vy_within : Within (of_neg 50) (of_nat 50) vy
  pub vz_within : Within (of_neg 10) (of_nat 10) vz
  pub mag_heading_within : Within (of_nat 0) (maths.literal "359.9") mag_heading

module _ (rt : Runtime) (maths : Maths) (rounding : IsRounding maths) where
  abbrev IsHeading : Float → Type 0
  IsHeading x = Within (of_nat 0) (maths.literal "359.9") x

  heading_in_range-IsHeading : (x : Float) → IsHeading (heading_in_range rt maths x)
  heading_in_range-IsHeading x =
      clamp_positive-Within (maths.literal "359.9") x rounding.heading_positive

  read-IsHeading :
      (v : Value)
      → IfOk IsHeading (
          then_check
            (to_float rt v)
            (λ h. ok (heading_in_range rt maths (maths.modulo h (of_nat 360)))))
  read-IsHeading v = then_check-IfOk IsHeading (to_float rt v) _ (λ h. heading_in_range-IsHeading _)

  mag_heading-IsHeading :
      (v : Value) (vx vy : Float) → IfOk IsHeading (mag_heading rt maths v vx vy)
  mag_heading-IsHeading null vx vy = heading_in_range-IsHeading _
  mag_heading-IsHeading (bool b) vx vy = read-IsHeading (bool b)
  mag_heading-IsHeading (int n) vx vy = read-IsHeading (int n)
  mag_heading-IsHeading (float x) vx vy = read-IsHeading (float x)
  mag_heading-IsHeading (text t) vx vy = read-IsHeading (text t)
  mag_heading-IsHeading (list vs) vx vy = read-IsHeading (list vs)
  mag_heading-IsHeading (dict d) vx vy = read-IsHeading (dict d)

  build-IsWithinLimits :
      (drone_id : String) (command : Fields)
      → IfOk (IsWithinLimits maths) (build_sitl_command rt maths drone_id command)
  unfolding build_sitl_command find
  build-IsWithinLimits drone_id command =
      then_check-IfOk (IsWithinLimits maths) (float_or_zero rt maths (get command "vx")) _ (λ x.
        then_check-IfOk (IsWithinLimits maths) (float_or_zero rt maths (get command "vy")) _ (λ y.
          then_check-IfOk (IsWithinLimits maths) (float_or_zero rt maths (get command "vz")) _ (λ z.
            let vx = clamp (of_neg 50) (of_nat 50) x in
            let vy = clamp (of_neg 50) (of_nat 50) y in
            let vz = clamp (of_neg 10) (of_nat 10) z in
            then_check-IfOk_both IsHeading (IsWithinLimits maths)
              (mag_heading rt maths (get command "heading_deg") vx vy) _
              (mag_heading-IsHeading (get command "heading_deg") vx vy)
              (λ heading h. record {
                vx = maths.round_to 2 vx;
                vy = maths.round_to 2 vy;
                vz = maths.round_to 2 vz;
                mag_heading = maths.round_to 1 heading;
                mag_heading_stands = refl;
                vx_stands = refl;
                vy_stands = refl;
                vz_stands = refl;
                vx_within = rounding.round-Within 2 50 50 vx (clamp-Within 50 50 x);
                vy_within = rounding.round-Within 2 50 50 vy (clamp-Within 50 50 y);
                vz_within = rounding.round-Within 2 10 10 vz (clamp-Within 10 10 z);
                mag_heading_within = rounding.round_heading-Within heading h;
              }))))

-- Those within the limits, or a message of the base class.
abbrev pub SendsOrServes : Maths → Motors → Fields → Value → Fields → Type 0
SendsOrServes maths m message topic body =
    Sends (IsWithinLimits maths) m topic body ⊎ IsService message (component_of m) topic

module _ (rt : Runtime) (maths : Maths) (rounding : IsRounding maths) (m : Motors) where
  -- Whatever message the motors get, what they publish is a command within the limits of the
  -- simulator, its heading included, that the monitor is to forward, an entry for the journal, or
  -- one of the messages of the base class; and nothing is requested. Rounding is to be monotone and
  -- to keep the limits, and the literal 359.9 is not to be negative.
  pub handle-IsWithinLimits :
      (message : Fields)
      → Always
          (λ topic body. ⊥)
          (SendsOrServes maths m message)
          (Ends (IsSame m))
          (handle rt maths message m)
  unfolding handle handlers handle_ping handle_get_status handle_motors_state
  handle-IsWithinLimits message =
      handle_message-Keeps rt component_of (λ topic body. ⊥) (SendsOrServes maths m message)
        (IsSame m) message
        (λ s q topic body h. inr (subst (λ (p : Place). IsService message p.component topic) q.0 h))
        (handlers rt maths) m (refl, refl)
        (
          at_ret (refl, refl),
          (
            at_ret (refl, refl),
            (
              Always-weaken (λ topic body h. inl h)
                  (handle_set_target-Keeps rt maths (IsWithinLimits maths)
                    (build-IsWithinLimits rt maths rounding) m message m (refl, refl)),
              (
                Always-weaken (λ topic body h. inl h)
                    (handle_land-Keeps rt maths (IsWithinLimits maths)
                      (build-IsWithinLimits rt maths rounding) m message m (refl, refl)),
                (at_ret (refl, refl), tt),
              ),
            ),
          ),
        )
