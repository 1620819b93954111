-- ===== src/Agro/Autopilot/Targets.antt =====
-- The targets for the steps of a mission.
use https_gitflic_ru_project.Base.{Bool, false, ◌≡◌}
use https_gitflic_ru_project.Py.Float.{Float, of_nat}
use https_gitflic_ru_project.Py.Value.{Fields, Runtime, get, or_else, float}
use https_gitflic_ru_project.Py.Act.{
  Always, at_ret, at_send, calls, AnyCall, Ends, Always-lift, Always-seq, Always-if_act, ◌>>◌,
}
use https_gitflic_ru_project.Py.Maths.{Maths, of_neg, Within}
use https_gitflic_ru_project.Py.Read.{to_float}
use https_gitflic_ru_project.Py.Read.Outcome.{IfOk, IfOk-ok, then_check-IfOk, then_check-IfOk_both}
use https_gitflic_ru_project.Agro.Autopilot.{
  Settings, Autopilot, Target, send_motors_target, send_sprayer,
}
use https_gitflic_ru_project.Agro.Autopilot.Geometry.{
  Position, Velocity3, compute_velocity_vectors, heading_to,
}
use https_gitflic_ru_project.Agro.Autopilot.Landing.{hover}
use https_gitflic_ru_project.Agro.Autopilot.Steering.{is_paused, step_target, fly_to}
use https_gitflic_ru_project.Agro.Autopilot.Emits.{
  Emits, steers, sprays, Emitting, climb_rate-Within, still-Within,
}

module _ (rt : Runtime) (maths : Maths) (c : Settings) where
  abbrev ClimbsWithin : Target → Type 0
  ClimbsWithin target = Within (of_neg 3) (of_nat 3) target.vz

  compute-Within :
      (heading speed alt target_alt : Float)
      → IfOk
          (λ (v : Velocity3). Within (of_neg 3) (of_nat 3) v.vz)
          (compute_velocity_vectors maths heading speed alt target_alt)
  unfolding compute_velocity_vectors
  compute-Within heading speed alt target_alt =
      then_check-IfOk _ (maths.sin (maths.radians heading)) _ (λ sine.
        then_check-IfOk _ (maths.cos (maths.radians heading)) _
          (λ cosine. climb_rate-Within maths (maths.minus target_alt alt)))

  -- Every target for a step is within the limits of a climb.
  step_target-Within :
      (p : Position) (step : Fields) (t : Position)
      → IfOk ClimbsWithin (step_target rt maths c p step t)
  unfolding step_target
  step_target-Within p step t =
      then_check-IfOk ClimbsWithin (to_float rt (or_else (get step "speed_mps") (float (of_nat 5))))
        _
        (λ speed.
          then_check-IfOk_both (λ (v : Velocity3). Within (of_neg 3) (of_nat 3) v.vz) ClimbsWithin
            (compute_velocity_vectors maths (heading_to maths p t) speed p.alt t.alt) _
            (compute-Within (heading_to maths p t) speed p.alt t.alt) (λ v w. w))

module _ (rt : Runtime) (maths : Maths) (c : Settings) (spraying : Type 0) (Q : Autopilot → Type 0)
    (s : Autopilot) (kept : (b : Bool) → Q (record s { sprayer_on = b })) where
  target-Emitting :
      (target : Target)
      → ClimbsWithin rt maths c target
      → spraying
      → Q s
      → Always AnyCall
          (Emits c spraying)
          (Ends Q)
          ((send_motors_target c target >> send_sprayer c target.drop) s)
  unfolding send_motors_target send_sprayer
  target-Emitting target w h q = search (calls, steers, sprays, kept, Always-seq)

  -- A drone that is not held at its place sprays as the step says.
  pub fly_to-Emitting :
      (nav : Fields) (p : Position) (t : Fields × Position)
      → (is_paused s.state ≡ false → spraying)
      → Q s
      → Emitting rt c spraying Q (fly_to rt maths c nav p t) s
  unfolding fly_to send_motors_target send_sprayer
  fly_to-Emitting nav p (step, t) h q =
      Always-if_act (is_paused s.state) _ _ s
        (λ e.
          at_send (steers (hover nav p (of_nat 0) p.alt) still-Within (λ d. cc))
            (λ _. at_send (sprays false (λ d. cc)) (λ _. at_ret (kept false))))
        (λ e.
          Always-lift (step_target rt maths c p step t) _ s (λ x. q)
            (λ target b.
              target-Emitting target
                (IfOk-ok (ClimbsWithin rt maths c) _ target (step_target-Within rt maths c p step t)
                  b)
                (h e) q))
