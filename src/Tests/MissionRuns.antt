-- ===== src/Tests/MissionRuns.antt =====
-- The mission handler of the drone on concrete messages.
use https_gitflic_ru_project.Base.{String, ◌≡◌, ◌↔◌, refl, none, some, [], ◌∷◌}
use https_gitflic_ru_project.Py.Float.{of_nat}
use https_gitflic_ru_project.Py.Value.{
  float, text, list, dict, nil, cons, Fields, fields_of, Runtime, find, get,
}
use https_gitflic_ru_project.Py.Act.{Always, Ends}
use https_gitflic_ru_project.Agro.Missions.Wpl.{Formats}
use https_gitflic_ru_project.Agro.Missions.{MissionHandler, handle}
use https_gitflic_ru_project.Agro.Missions.Check.{validate_mission, steps_error}
use https_gitflic_ru_project.Agro.Missions.Valid.{IsMission, validate_mission_iff}
use https_gitflic_ru_project.Agro.Missions.Reports.{PassesMission, Reports, Kept}
use https_gitflic_ru_project.Agro.Missions.Passed.{handle_passes_missions}
use https_gitflic_ru_project.Tests.Samples.{rt, message_of}
use https_gitflic_ru_project.Tests.AgroRuns.{place_of}

-- A reader that takes every text for a 16, so that each line is a waypoint.
abbrev reader : Runtime
reader = record rt { float_of_text = λ s. some (of_nat 16) }

abbrev pub formats : Formats
formats = record { upper = λ s. s; number = λ n. "n"; three_digits = λ n. "000"; millis = λ s. s }

abbrev wpl : String
wpl = "QGC WPL 110\n0\t1\t3\t16\t0\t0\t0\t0\t16\t16\t16\t1"

abbrev handler : MissionHandler
handler = record {
  place = place_of "components.Agro.mission_handler";
  autopilot_topic = "components.Agro.autopilot";
  journal_topic = "components.Agro.journal";
  last_mission = none;
  last_error = none;
}

abbrev load_message : Fields
load_message =
    message_of "components.Agro.security_monitor" "load_mission"
      (("mission_id", text "m1") ∷ ("wpl_content", text wpl) ∷ [])

handle_passes_missions_example :
    Always
      (PassesMission handler)
      (Reports handler load_message)
      (Ends (Kept handler))
      (handle reader formats load_message handler)
handle_passes_missions_example = handle_passes_missions reader formats load_message handler tt

abbrev mission : Fields
mission = fields_of (
    ("mission_id", text "m1")
    ∷ (
      "steps",
      list (
          cons
            (dict (
              fields_of (
                ("lat", float (of_nat 1))
                ∷ ("lon", float (of_nat 2))
                ∷ ("alt_m", float (of_nat 3))
                ∷ [])))
            nil),
    )
    ∷ [])

validate_mission_iff_example : (validate_mission formats mission ≡ none) ↔ IsMission mission
validate_mission_iff_example = validate_mission_iff formats mission

-- The check accepts the mission.
accepts : validate_mission formats mission ≡ none
unfolding validate_mission steps_error get find
accepts = refl
