-- ===== src/Agro/Emergensy.antt =====
-- systems/agrodron/src/emergensy/src/emergensy.py: starts the emergency protocol.
use https_gitflic_ru_project.Base.{
  String, Bool, true, false, not, Option, none, List, [], ◌∷◌, ◌==◌, if◌then◌else◌,
}
use https_gitflic_ru_project.Py.Value.{
  Value, bool, text, dict, Fields, end, fields_of, Runtime, get, or_else, str,
}
use https_gitflic_ru_project.Py.Act.{Act, pure, lift, read, write, publish, ◌>>=◌, ◌>>◌}
use https_gitflic_ru_project.Py.Read.{as_dict}
use https_gitflic_ru_project.Sdk.Component.{
  Component, Handler, Handlers, register_handler, handle_ping, handle_get_status, handle_message,
}
use https_gitflic_ru_project.Agro.Place.{
  Place, place_topic, is_trusted_sender, proxied, payload_or_empty, reply,
}

-- `security_monitor_topic` is the argument of the constructor, or the configured topic.
pub record Emergensy : Type 0 where
  pub place : Place
  pub security_monitor_topic : String
  pub active : Bool

abbrev pub component_of : Emergensy → Component
component_of e = e.place.component

-- 1. the request for isolation
abbrev pub isolation_msg : Emergensy → Value → Fields
isolation_msg e mission_id = fields_of (
    ("action", text "isolation_start")
    ∷ ("sender", text e.place.component.topic)
    ∷ (
      "payload",
      dict (fields_of (("reason", text "LIMITER_EMERGENCY") ∷ ("mission_id", mission_id) ∷ [])),
    )
    ∷ [])

abbrev pub spray_data : Fields
spray_data = fields_of (("spray", bool false) ∷ ("reason", text "emergency") ∷ [])

abbrev pub land_data : Fields
land_data = fields_of (("mode", text "AUTO_LAND") ∷ ("reason", text "emergency") ∷ [])

abbrev pub journal_data : Value → Value → Fields
journal_data mission_id details = fields_of (
    ("event", text "EMERGENCY_PROTOCOL_STARTED")
    ∷ ("mission_id", mission_id)
    ∷ ("details", details)
    ∷ [])

-- 2. to 4.: the commands that the monitor is asked to forward
abbrev pub command : Emergensy → String → String → Fields → Fields
command e suffix action forwarded =
    proxied "proxy_publish" e.place (place_topic e.place suffix) action forwarded

unfoldable pub start_protocol : Value → Value → Act Emergensy (Option Fields)
unfolding place_topic
start_protocol mission_id details = do
  write (λ e. record e { active = true })
  e ← read (λ e. e)
  let monitor = text e.security_monitor_topic
  isolated ← publish monitor (isolation_msg e mission_id)
  closed ← publish monitor (command e "sprayer" "set_spray" spray_data)
  landing ← publish monitor (command e "motors" "land" land_data)
  logged ← publish monitor (command e "journal" "log_event" (journal_data mission_id details))
  pure (reply (("ok", bool true) ∷ []))

unfoldable pub handle_active : Handler Emergensy
handle_active message = do e ← read (λ e. e); pure (reply (("active", bool e.active) ∷ []))

-- The keys of the table, in the order in which they are registered.
abbrev pub actions : List String
actions = "ping" ∷ "get_status" ∷ "limiter_event" ∷ "get_state" ∷ []

module _ (rt : Runtime) where
  unfoldable pub handle_limiter_event : Handler Emergensy
  unfolding is_trusted_sender get str start_protocol
  handle_limiter_event message = do
    e ← read (λ e. e)
    if not (is_trusted_sender e.place message) then pure none else (do
      payload ← lift (as_dict (payload_or_empty message))
      if not (str rt (or_else (get payload "event") (text "")) == "EMERGENCY_LAND_REQUIRED")
          then pure (reply (("ok", bool false) ∷ ("ignored", bool true) ∷ []))
          else start_protocol (get payload "mission_id")
              (or_else (get payload "details") (dict end)))

  unfoldable pub handlers : Handlers Emergensy
  unfolding register_handler
  handlers = register_handler "get_state" handle_active (
      register_handler "limiter_event" handle_limiter_event (
        register_handler "get_status" (handle_get_status component_of actions)
          (register_handler "ping" (handle_ping component_of) [])))

  unfoldable pub handle : Fields → Act Emergensy (Unit {0})
  unfolding handle_message handlers
  handle message = handle_message rt component_of handlers message
