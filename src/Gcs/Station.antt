-- ===== src/Gcs/Station.antt =====
-- What the components of the ground station share: their topics (systems/gcs/src/*/topics.py and
-- systems/gcs/external_topics.py), their messages and how they read an answer.
use https_gitflic_ru_project.Base.{
  String, Bool, false, Option, none, some, List, [], ◌∷◌, if◌then◌else◌,
}
use https_gitflic_ru_project.Py.Value.{
  Value, text, list, dict, Fields, end, fields_of, type_error, get, get_or, put, truthy,
}
use https_gitflic_ru_project.Py.Act.{Result, ok, raised}
use https_gitflic_ru_project.Sdk.Component.{Component}
use https_gitflic_ru_project.Port.Place.{build_component_topic}

-- `namespace` and `system` are `SYSTEM_NAMESPACE` and `GCS_SYSTEM_NAME` of the environment; the last
-- three are the topics of the drone, as they are configured.
pub record Station : Type 0 where
  pub component : Component
  pub namespace : String
  pub system : String
  pub security_monitor : String
  pub mission_handler : String
  pub autopilot : String
  pub telemetry : String

-- `ComponentTopics.X`
abbrev pub station_topic : Station → String → Value
station_topic s suffix = text (build_component_topic s.namespace s.system suffix)

-- `{"action": action, "sender": sender, "payload": payload}`
abbrev pub message_from : Value → String → List (String × Value) → Fields
message_from sender action payload =
    fields_of
      (("action", text action) ∷ ("sender", sender) ∷ ("payload", dict (fields_of payload)) ∷ [])

-- `self.component_id`
abbrev pub id_of : Station → Value
id_of s = text s.component.component_id

-- `if correlation_id: message["correlation_id"] = correlation_id`
abbrev pub correlated : Value → Fields → Fields
correlated correlation_id m =
    if truthy correlation_id then put m "correlation_id" correlation_id else m

-- `response and response.get("success")`
abbrev pub succeeded : Option Fields → Bool
succeeded none = false
succeeded (some response) = truthy (get response "success")

-- `response.get("payload", {})`
abbrev pub payload_in : Option Fields → Value
payload_in none = dict end
payload_in (some response) = get_or response "payload" (dict end)

-- `len(value)`, which a log line takes.
abbrev pub measured : Value → Result (Unit {0})
measured (text s) = ok tt
measured (list vs) = ok tt
measured (dict d) = ok tt
measured _ = raised type_error

abbrev pub reply : List (String × Value) → Option Fields
reply l = some (fields_of l)
