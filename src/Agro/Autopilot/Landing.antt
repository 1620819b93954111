-- ===== src/Agro/Autopilot/Landing.antt =====
-- The landing of the autopilot at the end of a mission.
use https_gitflic_ru_project.Base.{
  true, false, not, ◌||◌, Option, none, some, [], ◌∷◌, if◌then◌else◌,
}
use https_gitflic_ru_project.Py.Float.{Float, of_nat, float_ge}
use https_gitflic_ru_project.Py.Value.{Value, float, text, Fields, end, field, Runtime, get_or}
use https_gitflic_ru_project.Py.Act.{Act, pure, read, write, now, ◌>>=◌, ◌>>◌}
use https_gitflic_ru_project.Py.Maths.{Maths, of_neg}
use https_gitflic_ru_project.Agro.Autopilot.{
  landing, idle, Settings, Autopilot, Target, mission_id_or_none, send_motors_target,
  log_to_journal,
}
use https_gitflic_ru_project.Agro.Autopilot.External.{
  request_landing_droneport, request_charging_droneport, notify_nus,
}
use https_gitflic_ru_project.Agro.Autopilot.Geometry.{Position, or_return, landing_position}

-- `self._last_nav_state.get("heading_deg", 0.0)`
abbrev pub nav_heading : Fields → Value
nav_heading nav = get_or nav "heading_deg" (float (of_nat 0))

-- A target without a horizontal velocity.
abbrev pub hover : Fields → Position → Float → Float → Target
hover nav p vz alt_m = record {
  vx = of_nat 0;
  vy = of_nat 0;
  vz = vz;
  alt_m = alt_m;
  lat = p.lat;
  lon = p.lon;
  heading_deg = nav_heading nav;
  drop = false;
}

module _ (rt : Runtime) (maths : Maths) (c : Settings) where
  unfoldable pub start_mission_landing : Value → Act Autopilot (Unit {0})
  unfolding request_landing_droneport notify_nus log_to_journal
  start_mission_landing mission_id = do
    write (λ s. record s {
      landing_active = true;
      landing_port_confirmed = false;
      last_landing_port_request_ts = of_nat 0;
      state = landing;
    })
    confirmed ← request_landing_droneport rt c
    write (λ s. record s { landing_port_confirmed = confirmed })
    t ← now
    write (λ s. record s { last_landing_port_request_ts = maths.seconds t })
    if confirmed
        then pure tt
        else notify_nus c "mission_waiting_landing_port" (("mission_id", mission_id) ∷ [])
    log_to_journal c "AUTOPILOT_LANDING_STARTED" (("mission_id", mission_id) ∷ [])

  -- A port is asked for again after the interval of 2 s.
  abbrev pub retry_landing_port : Act Autopilot (Unit {0})
  retry_landing_port = do
    t ← now
    s ← read (λ s. s)
    let moment = maths.seconds t
    if float_ge (maths.minus moment s.last_landing_port_request_ts) (of_nat 2)
        then (do
          confirmed ← request_landing_droneport rt c
          write (λ s. record s {
            landing_port_confirmed = confirmed;
            last_landing_port_request_ts = moment;
          }))
        else pure tt

  -- On the ground: the mission is over.
  unfoldable pub finish_landing : Fields → Position → Act Autopilot (Unit {0})
  unfolding get_or send_motors_target request_charging_droneport notify_nus log_to_journal
  finish_landing nav p = do
    send_motors_target c (hover nav p (of_nat 0) (of_nat 0))
    request_charging_droneport rt c
    mid ← read (λ s. mission_id_or_none s.mission)
    notify_nus c "mission_completed" (("mission_id", mid) ∷ ("drone_id", text c.drone_id) ∷ [])
    log_to_journal c "AUTOPILOT_MISSION_COMPLETED" (("mission_id", mid) ∷ [])
    log_to_journal c "AUTOPILOT_READY_FOR_NEW_MISSION" (("mission_id", mid) ∷ [])
    write (λ s. record s {
      landing_active = false;
      mission = none;
      current_step_index = none;
      state = idle;
    })

  -- `if not self._landing_port_confirmed: if self._last_landing_port_request_ts <= 0.0: ...`
  abbrev pub confirm_external : Autopilot → Autopilot
  confirm_external s = record s {
    landing_port_confirmed =
        s.landing_port_confirmed || float_ge (of_nat 0) s.last_landing_port_request_ts;
  }

  unfoldable pub descend : Fields → Position → Act Autopilot (Unit {0})
  unfolding float_ge request_landing_droneport send_motors_target get_or finish_landing
  descend nav p = do
    write confirm_external
    s ← read (λ s. s)
    if not s.landing_port_confirmed
        then (do retry_landing_port; send_motors_target c (hover nav p (of_nat 0) p.alt))
        else if float_ge (maths.literal "0.5") p.alt
        then finish_landing nav p
        else send_motors_target c (hover nav p (of_neg 1) (of_nat 0))

  unfoldable pub handle_mission_landing : Option Fields → Act Autopilot (Unit {0})
  unfolding landing_position descend
  handle_mission_landing none = pure tt
  handle_mission_landing (some end) = pure tt
  handle_mission_landing (some (field k v nav)) =
      or_return (landing_position rt (field k v nav)) (λ p. descend (field k v nav) p)
