-- ===== src/Tests/TelemetryRuns.antt =====
-- The telemetry of the drone when every component answers.
use https_gitflic_ru_project.Base.{true, false, some, none, [], ◌∷◌}
use https_gitflic_ru_project.Py.Float.{of_nat}
use https_gitflic_ru_project.Py.Value.{dict, end, fields_of}
use https_gitflic_ru_project.Py.Run.{Env}
use https_gitflic_ru_project.Agro.Telemetry.{Telemetry}
use https_gitflic_ru_project.Tests.AgroRuns.{place_of}

abbrev answering : Env
answering = record {
  answer = λ topic m. some (fields_of (("target_response", dict end) ∷ []));
  sent = λ topic m. true;
  clock = "noon";
}

abbrev telemetry : Telemetry
telemetry = record {
  place = place_of "components.Agro.telemetry";
  motors_topic = "components.Agro.motors";
  motors_action = "get_state";
  sprayer_topic = "components.Agro.sprayer";
  sprayer_action = "get_state";
  navigation_topic = "components.Agro.navigation";
  last_motors = none;
  last_sprayer = none;
  last_navigation = none;
  last_poll = of_nat 0;
  logged = false;
}
