-- ===== src/Gcs/Manager.antt =====
-- systems/gcs/src/drone_manager/src/drone_manager.py: uploads missions to the drone, starts them and
-- polls its telemetry.
pub mod Started
pub mod Stored
pub mod Assigned
use https_gitflic_ru_project.Base.{
  String, Bool, true, false, not, ◌&&◌, Option, none, some, List, [], ◌∷◌, if◌then◌else◌,
}
use https_gitflic_ru_project.Py.Value.{
  Value, null, bool, text, dict, Fields, end, field, fields_of, Runtime, find, get, get_or, put,
  truthy,
}
use https_gitflic_ru_project.Py.Dict.{Dict, hashed, lookup, insert}
use https_gitflic_ru_project.Py.Act.{Act, pure, lift, read, write, request, publish, ◌>>=◌, ◌>>◌}
use https_gitflic_ru_project.Py.Read.{as_dict}
use https_gitflic_ru_project.Sdk.Component.{
  Component, Handler, Handlers, register_handler, handle_ping, handle_get_status, handle_message,
}
use https_gitflic_ru_project.Gcs.Station.{
  Station, station_topic, message_from, id_of, correlated, reply,
}

-- For each drone that is polled, whether its thread is alive.
pub record DroneManager : Type 0 where
  pub station : Station
  pub telemetry_pollers : Dict Bool

abbrev pub component_of : DroneManager → Component
component_of s = s.station.component

abbrev pub dict_or : Value → Fields → Fields
dict_or (dict d) r = d
dict_or _ r = r

abbrev pub nested : Value → Fields → Fields
nested (dict payload) response = dict_or (get payload "target_response") response
nested _ response = response

abbrev pub unwrapped : Value → Fields → Fields
unwrapped (dict target_response) response = target_response
unwrapped _ response = nested (get response "payload") response

-- `_unwrap_target_response(response)`, of a dict.
unfoldable pub unwrap_target_response : Fields → Fields
unfolding get
unwrap_target_response response = unwrapped (get response "target_response") response

-- `_response_payload(response)`
unfoldable pub response_payload : Option Fields → Option Fields
unfolding get unwrap_target_response
response_payload none = none
response_payload (some response) =
    let r = unwrap_target_response response in some (dict_or (get r "payload") r)

abbrev pub is_false : Value → Bool
is_false (bool false) = true
is_false _ = false

abbrev pub says_ok : Option Fields → Bool
says_ok none = false
says_ok (some payload) = truthy (get payload "ok")

-- `_response_ok(response)`
unfoldable pub response_ok : Option Fields → Bool
unfolding get response_payload
response_ok none = false
response_ok (some response) =
    not (is_false (get response "success")) && says_ok (response_payload (some response))

abbrev pub unwrap_answer : Option Fields → Option Fields
unwrap_answer none = none
unwrap_answer (some response) = some (unwrap_target_response response)

-- The message that asks the drone's security monitor to pass `data` on.
abbrev pub proxy_message : Station → String → String → Value → List (String × Value) → Fields
proxy_message s target_topic target_action correlation_id payload = correlated correlation_id (
    message_from (station_topic s "drone_manager") "proxy_request" (
      ("target", dict (field "topic" (text target_topic) (field "action" (text target_action) end)))
      ∷ ("data", dict (fields_of payload))
      ∷ []))

unfoldable pub proxy_request_drone :
    String → String → List (String × Value) → Value → Act DroneManager (Option Fields)
unfolding unwrap_target_response
proxy_request_drone target_topic target_action payload correlation_id = do
  s ← read DroneManager.station
  response ←
      request (text s.security_monitor)
        (proxy_message s target_topic target_action correlation_id payload)
  pure (unwrap_answer response)

-- The updates of the two stores.
abbrev pub mission_update : Station → Value → Value → List (String × Value) → Fields
mission_update s correlation_id mission_id changes = correlated correlation_id (
    message_from (id_of s) "store.update_mission"
      (("mission_id", mission_id) ∷ ("fields", dict (fields_of changes)) ∷ []))

abbrev pub drone_update : Station → Value → Value → String → Fields
drone_update s correlation_id drone_id status = correlated correlation_id (
    message_from (id_of s) "store.update_drone"
      (("drone_id", drone_id) ∷ ("status", text status) ∷ []))

unfoldable pub handle_mission_upload : Handler DroneManager
unfolding get get_or proxy_request_drone
handle_mission_upload message = do
  payload ← lift (as_dict (get_or message "payload" (dict end)))
  s ← read DroneManager.station
  let correlation_id = get message "correlation_id"
  let mission_id = get payload "mission_id"
  let drone_id = get payload "drone_id"
  upload_response ←
      proxy_request_drone s.mission_handler "load_mission"
        (("mission_id", mission_id)
          ∷ ("drone_id", drone_id)
          ∷ ("wpl_content", get payload "wpl")
          ∷ [])
        correlation_id
  stored ← publish (station_topic s "mission_store") (
      mission_update s correlation_id mission_id
        (("assigned_drone", drone_id) ∷ ("status", text "assigned") ∷ []))
  reserved ←
      publish (station_topic s "drone_store") (drone_update s correlation_id drone_id "reserved")
  pure none

-- `self._start_telemetry_polling(drone_id)`
abbrev pub is_polled : Option Bool → Bool
is_polled none = false
is_polled (some alive) = alive

unfoldable pub start_telemetry_polling : Value → Act DroneManager (Unit {0})
unfolding hashed lookup insert
start_telemetry_polling drone_id = do
  k ← lift (hashed drone_id)
  pollers ← read DroneManager.telemetry_pollers
  if is_polled (lookup pollers k)
      then pure tt
      else write (λ s. record s { telemetry_pollers = insert pollers k true })

-- `start_response` in a reply, None for no answer.
abbrev pub or_null : Option Fields → Value
or_null none = null
or_null (some d) = dict d

abbrev pub error_in : Option Fields → Value
error_in none = text "mission_start_failed"
error_in (some payload) = get_or payload "error" (text "mission_start_failed")

abbrev pub not_started : Value → Value → Option Fields → Option Fields
not_started mission_id drone_id start_response = reply (
    ("ok", bool false)
    ∷ ("mission_id", mission_id)
    ∷ ("drone_id", drone_id)
    ∷ ("error", error_in (response_payload start_response))
    ∷ ("start_response", or_null start_response)
    ∷ [])

-- What follows an answer of the autopilot that is ok.
unfoldable pub mission_started :
    Value → Value → Value → Option Fields → Act DroneManager (Option Fields)
unfolding start_telemetry_polling
mission_started correlation_id mission_id drone_id start_response = do
  s ← read DroneManager.station
  stored ←
      publish (station_topic s "mission_store")
        (mission_update s correlation_id mission_id (("status", text "running") ∷ []))
  busy ← publish (station_topic s "drone_store") (drone_update s correlation_id drone_id "busy")
  polled ← if truthy drone_id then start_telemetry_polling drone_id else pure tt
  pure (
      reply (
        ("ok", bool true)
        ∷ ("mission_id", mission_id)
        ∷ ("drone_id", drone_id)
        ∷ ("start_response", or_null start_response)
        ∷ []))

unfoldable pub handle_mission_start : Handler DroneManager
unfolding get get_or proxy_request_drone response_ok response_payload mission_started
handle_mission_start message = do
  payload ← lift (as_dict (get_or message "payload" (dict end)))
  s ← read DroneManager.station
  let correlation_id = get message "correlation_id"
  let mission_id = get payload "mission_id"
  let drone_id = get payload "drone_id"
  start_response ←
      proxy_request_drone s.autopilot "cmd" (("command", text "START") ∷ []) correlation_id
  if response_ok start_response
      then mission_started correlation_id mission_id drone_id start_response
      else pure (not_started mission_id drone_id start_response)

abbrev pub actions : List String
actions = "ping" ∷ "get_status" ∷ "mission.upload" ∷ "mission.start" ∷ []

module _ (rt : Runtime) where
  unfoldable pub handlers : Handlers DroneManager
  unfolding register_handler
  handlers = register_handler "mission.start" handle_mission_start (
      register_handler "mission.upload" handle_mission_upload (
        register_handler "get_status" (handle_get_status component_of actions)
          (register_handler "ping" (handle_ping component_of) [])))

  unfoldable pub handle : Fields → Act DroneManager (Unit {0})
  unfolding handle_message handlers
  handle message = handle_message rt component_of handlers message
