-- ===== src/Gcs/Telemetry.antt =====
-- systems/gcs/src/drone_manager/src/drone_manager.py: what the thread of a drone that flies does: it
-- asks for the telemetry, brings it into one form and has it saved, until it is stopped.
pub mod Named
use https_gitflic_ru_project.Base.{
  String, Bool, true, false, not, Option, none, some, List, [], ◌∷◌, if◌then◌else◌,
}
use https_gitflic_ru_project.Py.Value.{Value, null, dict, Fields, end, field, find, get, put}
use https_gitflic_ru_project.Py.Act.{Act, pure, read, publish, ◌>>=◌, ◌>>◌}
use https_gitflic_ru_project.Gcs.Station.{Station, station_topic, message_from, id_of, correlated}
use https_gitflic_ru_project.Gcs.Manager.{
  DroneManager, component_of, dict_or, response_payload, proxy_request_drone,
}

-- `if value is not None: telemetry[key] = value`
abbrev pub put_known : String → Value → Fields → Fields
put_known k null d = d
put_known k v d = put d k v

-- `nav_state`: the first dict of `payload`, `nav_state` and the answer itself.
abbrev pub nav_state_of : Fields → Fields
nav_state_of navigation =
    dict_or (get navigation "payload") (dict_or (get navigation "nav_state") navigation)

abbrev pub motors_battery : Value → Value
motors_battery (dict motors) = get motors "battery"
motors_battery _ = null

-- `telemetry or None`
abbrev pub nonempty_fields : Fields → Option Fields
nonempty_fields end = none
nonempty_fields (field k v d) = some (field k v d)

unfoldable pub from_navigation : Value → Value → Option Fields
unfolding get put
from_navigation (dict navigation) motors =
    let nav_state = nav_state_of navigation in
    nonempty_fields (
      put_known "battery" (motors_battery motors) (
        put_known "battery" (get nav_state "battery_pct") (
          put_known "altitude" (get nav_state "alt_m") (
            put_known "longitude" (get nav_state "lon")
              (put_known "latitude" (get nav_state "lat") end)))))
from_navigation _ motors = none

abbrev pub normalized : Value → Fields → Option Fields
normalized (dict telemetry) payload = some telemetry
normalized _ payload = from_navigation (get payload "navigation") (get payload "motors")

abbrev pub normalized_payload : Option Fields → Option Fields
normalized_payload none = none
normalized_payload (some payload) = normalized (get payload "telemetry") payload

-- `_normalize_telemetry(response)`
unfoldable pub normalize_telemetry : Option Fields → Option Fields
unfolding get from_navigation response_payload
normalize_telemetry response = normalized_payload (response_payload response)

-- `fields.setdefault(key, value)`
abbrev pub put_if_missing : Option Value → Fields → String → Value → Fields
put_if_missing none d k v = put d k v
put_if_missing (some w) d k v = d

unfoldable pub setdefault : Fields → String → Value → Fields
unfolding find put
setdefault d k v = put_if_missing (find d k) d k v

unfoldable pub save_telemetry : Fields → Value → Act DroneManager (Unit {0})
save_telemetry telemetry correlation_id = do
  s ← read DroneManager.station
  sent ← publish (station_topic s "drone_store") (
      correlated correlation_id
        (message_from (id_of s) "telemetry.save" (("telemetry", dict telemetry) ∷ [])))
  pure tt

abbrev pub save_named : Value → Option Fields → Act DroneManager (Unit {0})
save_named drone_id none = pure tt
save_named drone_id (some telemetry) =
    save_telemetry (setdefault telemetry "drone_id" drone_id) null

-- The turns of the loop, each with what its wait for the stop event returned.
unfoldable pub poll_telemetry_loop : Value → List Bool → Act DroneManager (Unit {0})
unfolding setdefault normalize_telemetry proxy_request_drone save_telemetry
poll_telemetry_loop drone_id [] = pure tt
poll_telemetry_loop drone_id (true ∷ waits) = pure tt
poll_telemetry_loop drone_id (false ∷ waits) = do
  s ← read (λ s. s)
  if not (component_of s).running then pure tt else (do
    response ←
        proxy_request_drone s.station.telemetry "get_state" (("drone_id", drone_id) ∷ []) null
    saved ← save_named drone_id (normalize_telemetry response)
    poll_telemetry_loop drone_id waits)
