-- ===== src/Orvd/Watch.antt =====
-- The handlers of telemetry and of the history.
pub mod Timeout
use https_gitflic_ru_project.Base.{
  String, Bool, true, false, not, Option, none, some, List, [], ◌∷◌, if◌then◌else◌,
}
use https_gitflic_ru_project.Py.Value.{
  Value, text, list, dict, Items, nil, cons, Fields, end, fields_of, attribute_error, Runtime, get,
  get_or, truthy,
}
use https_gitflic_ru_project.Py.Act.{
  Result, ok, raised, Act, pure, raise, lift, read, write, request, ◌>>=◌, ◌>>◌,
}
use https_gitflic_ru_project.Py.Read.{as_dict, then_check, iterated}
use https_gitflic_ru_project.Py.Dict.{hashed, insert}
use https_gitflic_ru_project.Sdk.Component.{Handler}
use https_gitflic_ru_project.Orvd.State.{Orvd, log, payload_of, reply, refusal}
use https_gitflic_ru_project.Orvd.Zones.{value_in_zone, point_in_no_fly_zone}
use https_gitflic_ru_project.Orvd.Flights.{from_self}

-- What both telemetry handlers answer to a point in a zone.
unfoldable pub emergency : Value → Act Orvd (Option Fields)
unfolding log
emergency drone_id = do
  log "zone_violation" (("drone_id", drone_id) ∷ [])
  from ← read from_self
  pure (
      reply (
        ("status", text "emergency")
        ∷ ("command", text "LAND")
        ∷ ("reason", text "entered no_fly_zone")
        ∷ from
        ∷ []))

abbrev pub get_nav_state : Orvd → Value → Fields
get_nav_state o drone_id = fields_of (
    ("action", text "get_nav_state")
    ∷ ("sender", text o.component.topic)
    ∷ ("payload", dict (fields_of (("drone_id", drone_id) ∷ [])))
    ∷ [])

abbrev pub dicts : List Fields → Items
dicts [] = nil
dicts (d ∷ l) = cons (dict d) (dicts l)

unfoldable pub handle_get_history : Handler Orvd
handle_get_history message = do
  o ← read (λ o. o)
  pure (reply (("history", list (dicts o.history)) ∷ from_self o ∷ []))

module _ (rt : Runtime) where
  unfoldable pub handle_send_telemetry : Handler Orvd
  unfolding payload_of get get_or hashed insert value_in_zone emergency
  handle_send_telemetry message = do
    payload ← lift (payload_of message)
    let drone_id = get payload "drone_id"
    if not (truthy drone_id) then pure (refusal "drone_id required") else do
      k ← lift (hashed drone_id)
      write (λ o. record o { telemetry = insert o.telemetry k payload })
      zones ← read (λ o. o.no_fly_zones)
      inside ← lift (value_in_zone rt zones (get_or payload "coords" (dict end)))
      from ← read from_self
      if inside
          then emergency drone_id
          else pure (reply (("status", text "telemetry_received") ∷ from ∷ []))

  -- After the answer of the drone; `response.get` is an AttributeError on None.
  unfoldable pub record_answer : Value → Option Fields → Act Orvd (Option Fields)
  unfolding get get_or hashed insert point_in_no_fly_zone emergency
  record_answer drone_id none = raise attribute_error
  record_answer drone_id (some response) = do
    nav_payload ← lift (as_dict (get_or response "payload" (dict end)))
    let coords = fields_of (("lat", get nav_payload "lat") ∷ ("lon", get nav_payload "lon") ∷ [])
    k ← lift (hashed drone_id)
    write (λ o. record o { telemetry = insert o.telemetry k nav_payload })
    zones ← read (λ o. o.no_fly_zones)
    inside ← lift (point_in_no_fly_zone rt zones coords)
    from ← read from_self
    if inside
        then emergency drone_id
        else pure (reply (("status", text "telemetry_ok") ∷ ("coords", dict coords) ∷ from ∷ []))

  unfoldable pub handle_request_telemetry : Handler Orvd
  unfolding payload_of get record_answer
  handle_request_telemetry message = do
    payload ← lift (payload_of message)
    let drone_id = get payload "drone_id"
    if not (truthy drone_id) then pure (refusal "drone_id required") else do
      o ← read (λ o. o)
      response ← request (get payload "drone_topic") (get_nav_state o drone_id)
      record_answer drone_id response
