-- ===== src/Tests/Samples.antt =====
-- Concrete inputs: an interpreter that renders nothing, a drone's security monitor, messages.
use https_gitflic_ru_project.Base.{String, true, none, List, [], ◌∷◌}
use https_gitflic_ru_project.Py.Value.{Value, text, dict, Fields, end, fields_of, Runtime}
use https_gitflic_ru_project.Sdk.Component.{Component}
use https_gitflic_ru_project.Monitor.Policy.{PolicyKey}
use https_gitflic_ru_project.Monitor.State.{Monitor, normal, isolated}

abbrev pub rt : Runtime
rt = record {
  show = λ v. "<value>";
  message_of = λ e. "error";
  float_of_text = λ s. none;
  float_of_int = λ n. none;
  loads = λ s. none;
  lists_le = λ a b. none;
}

abbrev pub component : Component
component = record {
  component_id = "security_monitor";
  component_type = "security_monitor";
  topic = "components.Agro.security_monitor";
  running = true;
  journal_topic = "";
}

abbrev pub steering : PolicyKey
steering = record {
  sender = "components.Agro.autopilot";
  topic = "components.Agro.motors";
  action = "set_target";
}

abbrev pub watching : PolicyKey
watching = record { sender = "components.Agro.telemetry"; topic = "*"; action = "get_state" }

abbrev pub monitor : Monitor
monitor = record {
  component = component;
  prefix = "components.Agro";
  policy_admin_sender = "admin";
  policies = steering ∷ watching ∷ [];
  mode = normal;
  ready = true;
}

abbrev pub isolated_monitor : Monitor
isolated_monitor = record monitor { mode = isolated }

-- A message with an action and a payload.
abbrev pub message_of : String → String → List (String × Value) → Fields
message_of sender action payload =
    fields_of (
      ("action", text action)
      ∷ ("sender", text sender)
      ∷ ("payload", dict (fields_of payload))
      ∷ [])

abbrev pub target_of : String → String → List (String × Value)
target_of topic action =
    ("target", dict (fields_of (("topic", text topic) ∷ ("action", text action) ∷ [])))
    ∷ ("data", dict end)
    ∷ []

abbrev pub steer : Fields
steer =
    message_of "components.Agro.autopilot" "proxy_publish"
      (target_of "components.Agro.motors" "set_target")

abbrev pub set_policy : Fields
set_policy =
    message_of "admin" "set_policy"
      (("sender", text "mission") ∷ ("topic", text " journal ") ∷ ("action", text "log_event") ∷ [])
