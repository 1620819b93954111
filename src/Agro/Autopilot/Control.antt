-- ===== src/Agro/Autopilot/Control.antt =====
-- The control loop of the autopilot.
use https_gitflic_ru_project.Base.{
  String, Bool, true, false, not, Option, none, some, List, [], ◌∷◌, if◌then◌else◌,
}
use https_gitflic_ru_project.Py.Float.{of_nat, float_lt, float_ge}
use https_gitflic_ru_project.Py.Value.{Value, text, Fields, end, Runtime, get_or}
use https_gitflic_ru_project.Py.Act.{Act, pure, read, write, request, now, attempt, ◌>>=◌, ◌>>◌}
use https_gitflic_ru_project.Py.Maths.{Maths, of_neg}
use https_gitflic_ru_project.Agro.Place.{place_topic, proxied}
use https_gitflic_ru_project.Agro.ProxyReply.{
  unwrap_proxy_target_response, extract_navigation_nav_state,
}
use https_gitflic_ru_project.Agro.Autopilot.{
  FlightState, pre_flight, executing, paused, aborted, Settings, Autopilot, send_motors_target,
  send_sprayer, log_to_journal,
}
use https_gitflic_ru_project.Agro.Autopilot.External.{
  request_departure_orvd, request_takeoff_droneport,
}
use https_gitflic_ru_project.Agro.Autopilot.Geometry.{Position, or_return, landing_position}
use https_gitflic_ru_project.Agro.Autopilot.Landing.{hover, handle_mission_landing}
use https_gitflic_ru_project.Agro.Autopilot.Steering.{is_flying, fly_mission}

-- `self._mission.get("mission_id", "") if self._mission else "unknown"`
abbrev pub preflight_mission_id : Option Fields → Value
preflight_mission_id none = text "unknown"
preflight_mission_id (some end) = text "unknown"
preflight_mission_id (some (Fields.field k v d)) =
    get_or (Fields.field k v d) "mission_id" (text "")

abbrev pub is_pre_flight : FlightState → Bool
is_pre_flight pre_flight = true
is_pre_flight _ = false

abbrev pub or_last : Option Fields → Option Fields → Option Fields
or_last none last = last
or_last (some nav) last = some nav

module _ (rt : Runtime) (maths : Maths) (c : Settings) where
  unfoldable pub poll_navigation_if_due : Act Autopilot (Unit {0})
  unfolding float_lt place_topic unwrap_proxy_target_response extract_navigation_nav_state
  poll_navigation_if_due = do
    t ← now
    s ← read (λ s. s)
    let moment = maths.seconds t
    if float_lt (maths.minus moment s.last_nav_poll_ts) c.nav_poll_interval_s then pure tt else (do
      write (λ s. record s { last_nav_poll_ts = moment })
      response ← request (text c.place.monitor_topic) (
          proxied "proxy_request" c.place (place_topic c.place "navigation") c.navigation_action
            end)
      write (λ s. record s {
        last_nav_state =
            or_last (extract_navigation_nav_state (unwrap_proxy_target_response response))
              s.last_nav_state;
      }))

  abbrev pub refuse : String → Act Autopilot (Unit {0})
  refuse reason = write (λ s. record s { state = aborted; last_error = some reason })

  -- What follows the answer of the drone port, and that of air traffic control.
  abbrev pub on_released : Value → Bool → Act Autopilot (Unit {0})
  on_released mission_id false = refuse "droneport_denied"
  on_released mission_id true = do
    write (λ s. record s { state = executing })
    log_to_journal c "AUTOPILOT_PREFLIGHT_PASSED" (("mission_id", mission_id) ∷ [])

  abbrev pub on_cleared : Value → Bool → Act Autopilot (Unit {0})
  on_cleared mission_id false = refuse "orvd_denied"
  on_cleared mission_id true = request_takeoff_droneport c mission_id >>= on_released mission_id

  -- The permissions before a flight.
  unfoldable pub preflight : Act Autopilot (Unit {0})
  unfolding get_or request_departure_orvd request_takeoff_droneport log_to_journal
  preflight = do
    mission_id ← read (λ s. preflight_mission_id s.mission)
    write (λ s. record s { last_error = none })
    cleared ← request_departure_orvd c mission_id
    on_cleared mission_id cleared

  -- The descent of the command KOVER, to the ground.
  unfoldable pub land_on_spot : Fields → Position → Act Autopilot (Unit {0})
  unfolding float_ge send_motors_target send_sprayer log_to_journal get_or
  land_on_spot nav p = do
    send_motors_target c (hover nav p (of_neg 1) (of_nat 0))
    send_sprayer c false
    if float_ge (maths.literal "0.5") (maths.absolute (maths.minus p.alt (of_nat 0)))
        then (do
          write (λ s. record s { kover_active = false; state = paused })
          log_to_journal c "AUTOPILOT_KOVER_LANDED" [])
        else pure tt

  abbrev pub fly_if_loaded : Fields → Option Fields → FlightState → Act Autopilot (Unit {0})
  fly_if_loaded nav none state = pure tt
  fly_if_loaded nav (some m) state =
      if not (is_flying state) then pure tt else fly_mission rt maths c nav m

  unfoldable pub step_with : Fields → Act Autopilot (Unit {0})
  unfolding preflight handle_mission_landing landing_position land_on_spot fly_mission
  step_with nav = do
    s ← read (λ s. s)
    if is_pre_flight s.state
        then preflight
        else if s.landing_active
        then handle_mission_landing rt maths c (some nav)
        else if s.kover_active
        then or_return (landing_position rt nav) (land_on_spot nav)
        else fly_if_loaded nav s.mission s.state

  abbrev pub step_if_known : Option Fields → Act Autopilot (Unit {0})
  step_if_known none = pure tt
  step_if_known (some nav) = step_with nav

  unfoldable pub step_control : Act Autopilot (Unit {0})
  unfolding step_with
  step_control = read (λ s. s.last_nav_state) >>= step_if_known

  -- A turn of the loop; its exceptions are printed.
  unfoldable pub turn : Act Autopilot (Unit {0})
  unfolding poll_navigation_if_due step_control
  turn = attempt (poll_navigation_if_due >> step_control)

  -- The turns of the loop, each with what it reads of `self._running`.
  unfoldable pub control_loop : List Bool → Act Autopilot (Unit {0})
  unfolding turn
  control_loop [] = pure tt
  control_loop (false ∷ runs) = pure tt
  control_loop (true ∷ runs) = turn >> control_loop runs
