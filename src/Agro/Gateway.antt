-- ===== src/Agro/Gateway.antt =====
-- systems/agrodron/src/gateway/src/gateway.py: the entry to the drone from outside.
pub mod Routes
use https_gitflic_ru_project.Base.{
  String, Bool, true, false, Option, none, some, List, [], ◌∷◌, if◌then◌else◌,
}
use https_gitflic_ru_project.Py.Text.{nonempty, strip}
use https_gitflic_ru_project.Py.Value.{
  Value, bool, text, dict, Fields, end, fields_of, Runtime, get, or_else, str,
}
use https_gitflic_ru_project.Py.Act.{Act, pure, lift, read, request, ◌>>=◌}
use https_gitflic_ru_project.Py.Read.{as_dict}
use https_gitflic_ru_project.Sdk.Component.{Handler, Handlers, register_handler}
use https_gitflic_ru_project.Agro.Place.{payload_or_empty}

-- The sender that stands in for a missing one, and the topics of gateway/topics.py.
pub record Gateway : Type 0 where
  pub default_sender : String
  pub security_monitor : String
  pub mission_handler : String
  pub autopilot : String
  pub telemetry : String

abbrev pub sender_or : String → String → String
sender_or sender default_sender = if nonempty sender then sender else default_sender

-- The message that asks the monitor to pass `data` on for a sender.
abbrev pub proxy_message : String → String → String → Fields → Fields
proxy_message source_sender target_topic target_action forwarded = fields_of (
    ("action", text "proxy_request")
    ∷ ("sender", text source_sender)
    ∷ (
      "payload",
      dict (
          fields_of (
            (
              "target",
              dict (fields_of (("topic", text target_topic) ∷ ("action", text target_action) ∷ [])),
            )
            ∷ ("data", dict forwarded)
            ∷ [])),
    )
    ∷ [])

abbrev pub or_unavailable : Option Fields → Fields
or_unavailable none =
    fields_of (("ok", bool false) ∷ ("error", text "security_monitor_unavailable") ∷ [])
or_unavailable (some response) = response

unfoldable pub proxy_request : String → String → String → Fields → Act Gateway Fields
proxy_request source_sender target_topic target_action forwarded = do
  g ← read (λ g. g)
  response ←
      request (text g.security_monitor)
        (proxy_message source_sender target_topic target_action forwarded)
  pure (or_unavailable response)

abbrev pub dict_or : Value → Fields → Fields
dict_or (dict d) response = d
dict_or _ response = response

abbrev pub nested : Value → Fields → Fields
nested (dict payload) response = dict_or (get payload "target_response") response
nested _ response = response

abbrev pub unwrapped : Value → Fields → Fields
unwrapped (dict target_response) response = target_response
unwrapped _ response = nested (get response "payload") response

unfoldable pub unwrap_target_response : Fields → Fields
unfolding get
unwrap_target_response response = unwrapped (get response "target_response") response

module _ (rt : Runtime) where
  unfoldable pub extract_sender : Fields → Act Gateway String
  unfolding get str strip
  extract_sender message = do
    g ← read (λ g. g)
    pure (sender_or (strip (str rt (or_else (get message "sender") (text "")))) g.default_sender)

  -- What the four handlers have in common.
  unfoldable pub proxy : (Gateway → String) → String → Fields → Handler Gateway
  unfolding extract_sender proxy_request unwrap_target_response
  proxy target action forwarded message = do
    sender ← extract_sender message
    g ← read (λ g. g)
    response ← proxy_request sender (target g) action forwarded
    pure (some (unwrap_target_response response))

  -- The mission of the payload.
  abbrev pub mission_data : Fields → Fields
  mission_data payload =
      fields_of
        (("mission_id", get payload "mission_id") ∷ ("wpl_content", get payload "wpl_content") ∷ [])

  unfoldable pub handle_load_mission : Handler Gateway
  unfolding get proxy
  handle_load_mission message = do
    payload ← lift (as_dict (payload_or_empty message))
    proxy Gateway.mission_handler "load_mission" (mission_data payload) message

  unfoldable pub handle_validate_only : Handler Gateway
  unfolding get proxy
  handle_validate_only message = do
    payload ← lift (as_dict (payload_or_empty message))
    proxy Gateway.mission_handler "validate_only" (mission_data payload) message

  unfoldable pub handle_cmd : Handler Gateway
  unfolding get proxy
  handle_cmd message = do
    payload ← lift (as_dict (payload_or_empty message))
    proxy Gateway.autopilot "cmd" (fields_of (("command", get payload "command") ∷ [])) message

  unfoldable pub handle_get_state : Handler Gateway
  unfolding proxy
  handle_get_state message = proxy Gateway.telemetry "get_state" end message

  -- The handlers of `_register_handlers`.
  unfoldable pub handlers : Handlers Gateway
  unfolding register_handler
  handlers = register_handler "get_state" handle_get_state (
      register_handler "cmd" handle_cmd (
        register_handler "validate_only" handle_validate_only
          (register_handler "load_mission" handle_load_mission [])))
