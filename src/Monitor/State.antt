-- ===== src/Monitor/State.antt =====
-- The fields of the security monitor, its topics, and what it writes to the journal. `prefix` is
-- `topic_prefix()`, which the process reads from its environment.
pub mod Lockdown
pub mod Validity
use Prim.Native.String.{◌++◌ as append}
use https_gitflic_ru_project.Base.{
  String, Bool, false, Option, some, List, [], ◌∷◌, ◌==◌, ◌&&◌, length,
}
use https_gitflic_ru_project.Py.Text.{nonempty, strip, replace}
use https_gitflic_ru_project.Py.Value.{
  Value, int, text, dict, Items, nil, cons, Fields, end, fields_of, Runtime, pos, get_or, or_else,
}
use https_gitflic_ru_project.Py.Act.{Act, pure, publish, ◌>>◌}
use https_gitflic_ru_project.Sdk.Component.{Component}
use https_gitflic_ru_project.Monitor.Policy.{PolicyKey, Policies, policy_to_dict}
use https_gitflic_ru_project.Monitor.Parse.{parse_policies}

pub data Mode : Type 0 where
  normal isolated : Mode

abbrev pub mode_text : Mode → String
mode_text normal = "NORMAL"
mode_text isolated = "ISOLATED"

pub record Monitor : Type 0 where
  pub component : Component
  pub prefix : String
  pub policy_admin_sender : String
  pub policies : Policies
  pub mode : Mode
  pub ready : Bool

-- `config.topic_for(suffix)`
unfoldable pub topic_for : Monitor → String → String
topic_for m suffix = append m.prefix (append "." suffix)

-- `policies` with the name of the system put in.
unfoldable pub with_system_name : String → String → String
unfolding replace
with_system_name prefix raw =
    replace "$SYSTEM_NAME" prefix
      (replace "${SYSTEM_NAME}" prefix (replace "$${SYSTEM_NAME}" prefix raw))

-- `__init__`, from the texts that are given or stand in the environment.
unfoldable pub new : Runtime → Component → String → String → String → Monitor
unfolding strip with_system_name parse_policies
new rt component prefix policy_admin_sender security_policies = record {
  component = component;
  prefix = prefix;
  policy_admin_sender = strip policy_admin_sender;
  policies = parse_policies rt (with_system_name prefix security_policies);
  mode = normal;
  ready = false;
}

abbrev pub reply : List (String × Value) → Option Fields
reply l = some (fields_of l)

abbrev pub size : Policies → Value
size l = int (pos (length l))

abbrev pub dicts : Policies → Items
dicts [] = nil
dicts (p ∷ l) = cons (dict (policy_to_dict p)) (dicts l)

unfoldable pub can_manage_policies : Monitor → String → Bool
can_manage_policies m sender = nonempty m.policy_admin_sender && sender == m.policy_admin_sender

-- The literal set of `_load_emergency_policies`.
unfoldable pub emergency_policies : Monitor → Policies
unfolding topic_for
emergency_policies m =
    let allow = λ (topic action : String).
      let p : PolicyKey = record {
        sender = topic_for m "emergensy";
        topic = topic;
        action = action;
      } in
      p in
    allow (topic_for m "navigation") "get_state"
    ∷ allow (topic_for m "motors") "land"
    ∷ allow (topic_for m "sprayer") "set_spray"
    ∷ allow (topic_for m "journal") "log_event"
    ∷ allow (topic_for m "security_monitor") "isolation_status"
    ∷ []

unfoldable pub load_emergency_policies : Monitor → Monitor
unfolding emergency_policies
load_emergency_policies m = record m { policies = emergency_policies m; mode = isolated }

-- `message.get("payload", {}) or {}`
abbrev pub payload_of : Fields → Value
payload_of message = or_else (get_or message "payload" (dict end)) (dict end)

-- The event that the monitor writes to the journal by itself.
abbrev pub own_event : Monitor → String → List (String × Value) → Fields
own_event m event details = fields_of (
    ("action", text "log_event")
    ∷ ("sender", text m.component.topic)
    ∷ (
      "payload",
      dict (
          fields_of (
            ("event", text event)
            ∷ ("source", text "security_monitor")
            ∷ ("details", dict (fields_of details))
            ∷ [])),
    )
    ∷ [])

unfoldable pub log_component_started : Act Monitor (Unit {0})
unfolding topic_for
log_component_started m =
    (publish (text (topic_for m "journal")) (
          own_event m "SECURITY_MONITOR_STARTED"
            (("policies_count", size m.policies) ∷ ("mode", text (mode_text m.mode)) ∷ []))
        >> pure tt)
      m

unfoldable pub log_isolation_activated : Act Monitor (Unit {0})
unfolding topic_for
log_isolation_activated m =
    (publish (text (topic_for m "journal")) (
          own_event m "SECURITY_MONITOR_ISOLATION_ACTIVATED"
            (("mode", text (mode_text m.mode)) ∷ []))
        >> pure tt)
      m
