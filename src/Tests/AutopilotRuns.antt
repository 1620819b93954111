-- ===== src/Tests/AutopilotRuns.antt =====
-- The autopilot of the drone on concrete messages and answers.
use https_gitflic_ru_project.Base.{String, refl, true, false, some, [], ◌∷◌}
use https_gitflic_ru_project.Py.Float.{of_nat}
use https_gitflic_ru_project.Py.Value.{
  text, float, list, dict, nil, cons, Fields, fields_of, get, str,
}
use https_gitflic_ru_project.Py.Act.{AnyCall, Always, Ends}
use https_gitflic_ru_project.Py.Run.{run}
use https_gitflic_ru_project.Agro.Place.{is_trusted_sender}
use https_gitflic_ru_project.Agro.Autopilot.{Settings, Autopilot, executing, pre_flight, landing}
use https_gitflic_ru_project.Agro.Autopilot.Commands.{handle, handle_cmd}
use https_gitflic_ru_project.Agro.Autopilot.Control.{turn, step_control}
use https_gitflic_ru_project.Agro.Autopilot.Emits.{Emits}
use https_gitflic_ru_project.Agro.Autopilot.Turns.{MaySpray, turn-Emits}
use https_gitflic_ru_project.Agro.Autopilot.Fits.{IsWellFormed}
use https_gitflic_ru_project.Agro.Autopilot.Reachable.{
  initial, begins, handles, turns, Reachable-IsWellFormed,
}
use https_gitflic_ru_project.Agro.Autopilot.Stopped.{IsEntry, StaysSilent, stop_silences}
use https_gitflic_ru_project.Agro.Autopilot.Cleared.{After, step_control-After}
use https_gitflic_ru_project.Tests.Samples.{rt, message_of}
use https_gitflic_ru_project.Tests.AgroRuns.{maths, env, place_of}
use https_gitflic_ru_project.Tests.MissionRuns.{formats}

abbrev settings : Settings
settings = record {
  place = place_of "components.Agro.autopilot";
  journal_topic = "components.Agro.journal";
  navigation_action = "get_state";
  orvd_topic = "orvd";
  orvd_mock_success = false;
  drone_id = "drone_7";
  nus_topic = "nus";
  droneport_topic = "";
  droneport_mock_success = false;
  drone_model = "agrodron";
  landing_battery_default = of_nat 95;
  charging_battery_default = of_nat 50;
  nav_poll_interval_s = of_nat 1;
  start_mission_wait_s = of_nat 3;
}

abbrev over_field : Fields
over_field =
    fields_of
      (("lat", float (of_nat 60)) ∷ ("lon", float (of_nat 30)) ∷ ("alt_m", float (of_nat 5)) ∷ [])

abbrev mission : Fields
mission =
    fields_of (("mission_id", text "field_1") ∷ ("steps", list (cons (dict over_field) nil)) ∷ [])

abbrev flying : Autopilot
flying = record initial {
  mission = some mission;
  state = executing;
  current_step_index = some 0;
  last_nav_state = some over_field;
}

turn-Emits_example :
    Always AnyCall
      (Emits settings (MaySpray flying))
      (Ends (λ t. Unit {0}))
      (turn rt maths settings flying)
turn-Emits_example = turn-Emits rt maths settings flying

abbrev monitor_topic : String
monitor_topic = "components.Agro.security_monitor"

abbrev loading : Fields
loading = message_of monitor_topic "mission_load" (("mission", dict mission) ∷ [])

Reachable-IsWellFormed_example :
    IsWellFormed
      (run env
        (turn rt maths settings (run env (handle rt formats settings [] loading initial)).0.1)).0.1
Reachable-IsWellFormed_example =
    Reachable-IsWellFormed rt formats maths settings _ (turns env (handles env [] loading begins))

abbrev stop_flight : Fields
stop_flight = message_of monitor_topic "cmd" (("command", text "EMERGENCY_STOP") ∷ [])

stop_silences_example :
    Always AnyCall
      (IsEntry settings)
      (StaysSilent rt maths settings (true ∷ true ∷ []))
      (handle_cmd rt formats settings [] stop_flight flying)
unfolding is_trusted_sender get str
stop_silences_example =
    stop_silences rt formats maths settings [] stop_flight
      (fields_of (("command", text "EMERGENCY_STOP") ∷ [])) (true ∷ true ∷ []) flying refl refl refl
      refl refl

abbrev over_port : Autopilot
over_port = record flying {
  state = landing;
  landing_active = true;
  last_landing_port_request_ts = of_nat 9;
}

abbrev prepared_flight : Autopilot
prepared_flight = record flying { state = pre_flight }

step_control-After_example :
    After settings env
      (text "field_1")
      (run env (step_control rt maths settings prepared_flight)).0.1
step_control-After_example = step_control-After rt maths settings env prepared_flight (λ e. cc) refl
