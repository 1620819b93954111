-- ===== src/Agro/Missions.antt =====
-- systems/agrodron/src/mission_handler/src/mission_handler.py: takes missions as WPL texts, checks
-- them and passes them on to the autopilot.
pub mod Wpl
pub mod Check
pub mod Valid
pub mod Reports
pub mod Passed
pub mod Parsing
use Prim.Native.String.{◌++◌ as append}
use https_gitflic_ru_project.Base.{
  ℕ, zero, suc, String, Bool, true, false, not, Option, none, some, List, [], ◌∷◌, if◌then◌else◌,
}
use https_gitflic_ru_project.Py.Text.{nonempty}
use https_gitflic_ru_project.Py.Value.{
  Value, null, bool, text, list, dict, Items, nil, cons, Fields, end, fields_of, Runtime, find, get,
  get_or, or_else, truthy, str,
}
use https_gitflic_ru_project.Py.Act.{Act, pure, read, write, request, publish, ◌>>=◌, ◌>>◌}
use https_gitflic_ru_project.Sdk.Component.{
  Component, Handler, Handlers, register_handler, handle_ping, handle_get_status, handle_message,
}
use https_gitflic_ru_project.Agro.Place.{
  Place, is_trusted_sender, proxied, entry, payload_or_empty, reply,
}
use https_gitflic_ru_project.Agro.Missions.Wpl.{Formats, Parsed, parsed, failed, parse_wpl}
use https_gitflic_ru_project.Agro.Missions.Check.{validate_mission}

-- The topics are the configured ones; `last_error` is None or a text.
pub record MissionHandler : Type 0 where
  pub place : Place
  pub autopilot_topic : String
  pub journal_topic : String
  pub last_mission : Option Fields
  pub last_error : Option String

abbrev pub component_of : MissionHandler → Component
component_of h = h.place.component

-- `payload.get(key) if isinstance(payload, dict) else None`
abbrev pub get_in : Value → String → Value
get_in (dict payload) key = get payload key
get_in _ key = null

abbrev pub dict_or_null : Option Fields → Value
dict_or_null none = null
dict_or_null (some d) = dict d

abbrev pub text_or_null : Option String → Value
text_or_null none = null
text_or_null (some s) = text s

-- `text[:n]`
abbrev pub prefix_of : ℕ → String → String
prefix_of zero s = ""
prefix_of (suc n) String.[] = ""
prefix_of (suc n) (String.◌∷◌ c s) = String.◌∷◌ c (prefix_of n s)

unfoldable pub log_to_journal : String → List (String × Value) → Act MissionHandler (Unit {0})
log_to_journal event details = do
  h ← read (λ h. h)
  sent ← publish (text h.place.monitor_topic) (
      proxied "proxy_publish" h.place h.journal_topic "log_event"
        (entry event "mission_handler" (fields_of details)))
  pure tt

-- The end of a message that is refused: the error is kept, written and answered. No error of the
-- parser is empty.
abbrev pub refuse : String → String → List (String × Value) → Act MissionHandler (Option Fields)
refuse event error details = do
  write (λ h. record h { last_error = some error })
  done ← log_to_journal event details
  pure (reply (("ok", bool false) ∷ ("error", text error) ∷ []))

abbrev pub invalid : String → List (String × Value) → Act MissionHandler (Option Fields)
invalid error details = refuse "MISSION_HANDLER_VALIDATION_ERROR" error details

abbrev pub no_autopilot : Value → String → Act MissionHandler (Option Fields)
no_autopilot mid error =
    refuse "MISSION_HANDLER_AUTOPILOT_ERROR" error
      (("error", text error) ∷ ("mission_id", mid) ∷ [])

abbrev pub required : String
required = "invalid_input_wpl_required"

-- What follows the check of a mission that is only checked.
abbrev pub answer_check : Option String → Act MissionHandler (Option Fields)
answer_check (some error) = invalid error (("error", text error) ∷ [])
answer_check none = do
  write (λ h. record h { last_error = none })
  pure (reply (("ok", bool true) ∷ []))

-- The request that passes the mission on.
abbrev pub mission_request : MissionHandler → Fields → Fields
mission_request h mission =
    proxied "proxy_request" h.place h.autopilot_topic "mission_load"
      (fields_of (("mission", dict mission) ∷ []))

-- `response.get("target_response") or response.get("payload") or response`, an empty dict for what
-- is no dict.
abbrev pub only_fields : Value → Fields
only_fields (dict d) = d
only_fields _ = end

abbrev pub autopilot_fields : Fields → Fields
autopilot_fields response =
    only_fields
      (or_else (get response "target_response") (or_else (get response "payload") (dict response)))

module _ (rt : Runtime) (formats : Formats) where
  -- What follows the autopilot's answer.
  unfoldable pub answered : Value → Option Fields → Act MissionHandler (Option Fields)
  unfolding get get_or str log_to_journal
  answered mid none = no_autopilot mid "autopilot_no_response"
  answered mid (some response) =
      if not (truthy (dict response))
      then no_autopilot mid "autopilot_no_response"
      else if not (truthy (get_or (autopilot_fields response) "ok" (bool true)))
      then no_autopilot mid
          (str rt (or_else (get (autopilot_fields response) "error") (text "autopilot_error")))
      else (do
        sent ← log_to_journal "MISSION_HANDLER_MISSION_SENT_TO_AUTOPILOT" (("mission_id", mid) ∷ [])
        skipped ←
            log_to_journal "MISSION_HANDLER_SITL_HOME_SKIPPED"
              (("mission_id", mid) ∷ ("reason", text "home_managed_by_droneport") ∷ [])
        pure (reply (("ok", bool true) ∷ [])))

  -- `request_message`, and what follows its answer.
  unfoldable pub pass_on : Fields → Act MissionHandler (Option Fields)
  unfolding get answered
  pass_on mission = do
    h ← read (λ h. h)
    response ← request (text h.place.monitor_topic) (mission_request h mission)
    answered (get mission "mission_id") response

  -- What follows a mission without an error.
  unfoldable pub send_mission : Fields → Act MissionHandler (Option Fields)
  unfolding get log_to_journal pass_on
  send_mission mission = do
    write (λ h. record h { last_mission = some mission; last_error = none })
    let mid = get mission "mission_id"
    received ← log_to_journal "MISSION_HANDLER_MISSION_RECEIVED" (("mission_id", mid) ∷ [])
    pass_on mission

  unfoldable pub load_valid : Fields → Option String → Act MissionHandler (Option Fields)
  unfolding get log_to_journal send_mission
  load_valid mission (some error) =
      invalid error (("error", text error) ∷ ("mission_id", get mission "mission_id") ∷ [])
  load_valid mission none = send_mission mission

  unfoldable pub load_parsed : String → Parsed Fields → Act MissionHandler (Option Fields)
  unfolding log_to_journal validate_mission load_valid
  load_parsed wpl_content (failed error) =
      invalid error (("error", text error) ∷ ("wpl_preview", text (prefix_of 200 wpl_content)) ∷ [])
  load_parsed wpl_content (parsed mission) = load_valid mission (validate_mission formats mission)

  unfoldable pub load : Value → Value → Act MissionHandler (Option Fields)
  unfolding log_to_journal parse_wpl load_parsed
  load mission_id (text wpl_content) =
      if nonempty wpl_content
      then (parse_wpl rt formats wpl_content mission_id >>= load_parsed wpl_content)
      else invalid required (("error", text required) ∷ [])
  load mission_id _ = invalid required (("error", text required) ∷ [])

  unfoldable pub handle_load_mission : Handler MissionHandler
  unfolding is_trusted_sender get load
  handle_load_mission message = do
    h ← read (λ h. h)
    let payload = payload_or_empty message
    if not (is_trusted_sender h.place message)
        then pure none
        else load (get_in payload "mission_id") (get_in payload "wpl_content")

  unfoldable pub checked_only : Parsed Fields → Act MissionHandler (Option Fields)
  unfolding log_to_journal validate_mission
  checked_only (failed error) = invalid error (("error", text error) ∷ [])
  checked_only (parsed mission) = answer_check (validate_mission formats mission)

  unfoldable pub check_only : Value → Value → Act MissionHandler (Option Fields)
  unfolding log_to_journal parse_wpl checked_only
  check_only mission_id (text wpl_content) =
      if nonempty wpl_content
      then (parse_wpl rt formats wpl_content mission_id >>= checked_only)
      else invalid required (("error", text required) ∷ [])
  check_only mission_id _ = invalid required (("error", text required) ∷ [])

  unfoldable pub handle_validate_only : Handler MissionHandler
  unfolding is_trusted_sender get check_only
  handle_validate_only message = do
    h ← read (λ h. h)
    let payload = payload_or_empty message
    if not (is_trusted_sender h.place message)
        then pure none
        else check_only (get_in payload "mission_id") (get_in payload "wpl_content")

  unfoldable pub handle_get_state : Handler MissionHandler
  unfolding is_trusted_sender
  handle_get_state message = do
    h ← read (λ h. h)
    pure (
        if not (is_trusted_sender h.place message)
        then none
        else reply (
            ("last_mission", dict_or_null h.last_mission)
            ∷ ("last_error", text_or_null h.last_error)
            ∷ []))

  abbrev pub actions : List String
  actions = "ping" ∷ "get_status" ∷ "load_mission" ∷ "validate_only" ∷ "get_state" ∷ []

  unfoldable pub handlers : Handlers MissionHandler
  unfolding register_handler
  handlers = register_handler "get_state" handle_get_state (
      register_handler "validate_only" handle_validate_only (
        register_handler "load_mission" handle_load_mission (
          register_handler "get_status" (handle_get_status component_of actions)
            (register_handler "ping" (handle_ping component_of) []))))

  unfoldable pub handle : Fields → Act MissionHandler (Unit {0})
  unfolding handle_message handlers
  handle message = handle_message rt component_of handlers message
