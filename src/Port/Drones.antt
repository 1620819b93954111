-- ===== src/Port/Drones.antt =====
-- systems/drone_port/src/drone_manager/src/drone_manager.py: lands drones and lets them take off.
pub mod Guards
use https_gitflic_ru_project.Base.{
  String, Bool, true, false, not, ◌||◌, Option, none, some, List, [], ◌∷◌, ◌==◌, if◌then◌else◌,
}
use https_gitflic_ru_project.Py.Float.{Float, of_nat, float_lt}
use https_gitflic_ru_project.Py.Value.{
  Value, null, bool, float, text, list, dict, Items, nil, cons, Fields, end, field, fields_of,
  Runtime, get, get_or, or_else, truthy,
}
use https_gitflic_ru_project.Py.Act.{
  Result, ok, raised, Act, pure, lift, read, request, publish, ◌>>=◌, ◌>>◌,
}
use https_gitflic_ru_project.Py.Read.{
  as_dict, iterated, to_float, number_or_none, equal, then_check,
}
use https_gitflic_ru_project.Sdk.Component.{
  Handler, Handlers, register_handler, handle_ping, handle_get_status, handle_message,
}
use https_gitflic_ru_project.Port.Place.{
  Place, topic, extract_payload, is_blank, call, call_from, reply, dict_or_none, only_dict,
}

abbrev pub failure : String → Act Place (Option Fields)
failure error = do
  p ← read (λ p. p)
  pure (reply (("error", text error) ∷ ("from", text p.component.component_id) ∷ []))

-- `response and response.get("success")`
abbrev pub succeeds : Option Fields → Bool
succeeds none = false
succeeds (some response) = truthy (get response "success")

module _ (rt : Runtime) where
  unfoldable pub parse_battery_value : Value → Result (Option Float)
  unfolding to_float
  parse_battery_value null = ok none
  parse_battery_value (text s) =
      if s == "" || s == "unknown" then ok none else number_or_none (to_float rt (text s))
  parse_battery_value v = number_or_none (to_float rt v)

  -- `float((drone_port or {}).get(key) or 0.0)`
  unfoldable pub coordinate : Fields → String → Result Float
  unfolding get to_float
  coordinate port key = to_float rt (or_else (get port key) (float (of_nat 0)))

  unfoldable pub build_sitl_home_message : Value → Fields → Result Fields
  unfolding coordinate
  build_sitl_home_message drone_id port = then_check (coordinate port "lat") (λ lat.
      then_check (coordinate port "lon") (λ lon. then_check (coordinate port "alt") (λ alt. ok (
        fields_of (
          ("drone_id", drone_id)
          ∷ ("home_lat", float lat)
          ∷ ("home_lon", float lon)
          ∷ ("home_alt", float alt)
          ∷ [])))))

  -- What is told of the battery of a drone that lands.
  unfoldable pub tell_battery : Value → Option Float → Act Place (Unit {0})
  unfolding float_lt
  tell_battery drone_id none = pure tt
  tell_battery drone_id (some battery) = do
    p ← read (λ p. p)
    let level = ("drone_id", drone_id) ∷ ("battery", float battery) ∷ []
    sent ← publish (topic p "registry") (call_from p "update_battery" level)
    if float_lt battery (of_nat 100)
        then (do
          started ← publish (topic p "charging_manager") (call_from p "start_charging" level)
          pure tt)
        else pure tt

  unfoldable pub land : Value → Value → Option Float → Value → Act Place (Option Fields)
  unfolding tell_battery
  land drone_id model battery port_id = do
    p ← read (λ p. p)
    sent ← publish (topic p "registry") (
        call_from p "register_drone"
          (("drone_id", drone_id) ∷ ("model", model) ∷ ("port_id", port_id) ∷ []))
    told ← tell_battery drone_id battery
    pure (
        reply (
          ("approved", bool true)
          ∷ ("port_id", port_id)
          ∷ ("drone_id", drone_id)
          ∷ ("from", text p.component.component_id)
          ∷ []))

  unfoldable pub landing : Option Fields → Act Place (Option Fields)
  unfolding get get_or is_blank parse_battery_value extract_payload land
  landing none = failure "Invalid payload"
  landing (some payload) =
      let drone_id = get payload "drone_id" in
      if is_blank rt drone_id then failure "drone_id required" else (do
        battery ← lift (parse_battery_value (get payload "battery"))
        p ← read (λ p. p)
        response ←
            request (topic p "port_manager")
              (call_from p "request_landing" (("drone_id", drone_id) ∷ []))
        let port_id = get (extract_payload response) "port_id"
        if truthy port_id
            then land drone_id (get_or payload "model" (text "unknown")) battery port_id
            else failure "No free ports")

  unfoldable pub handle_landing : Handler Place
  unfolding get landing
  handle_landing message = landing (dict_or_none (get message "payload"))

  -- `next((port for port in ports if port.get("drone_id") == drone_id), None) or {}`
  unfoldable pub port_of : Value → Items → Result Fields
  unfolding get equal
  port_of drone_id nil = ok end
  port_of drone_id (cons v ports) =
      let rest = port_of drone_id ports in
      then_check (as_dict v)
        (λ port. if equal (get port "drone_id") drone_id then ok port else rest)

  -- The home of the drone is computed for the log line, before anything is sent.
  unfoldable pub take_off : String → Value → Fields → Value → Float → Act Place (Option Fields)
  unfolding get build_sitl_home_message
  take_off sitl_home drone_id port port_id battery = do
    p ← read (λ p. p)
    home ← lift (build_sitl_home_message drone_id port)
    freed ←
        publish (topic p "port_manager")
          (call_from p "free_slot" (("drone_id", drone_id) ∷ ("port_id", port_id) ∷ []))
    sent ← publish (text sitl_home) home
    pure (
        reply (
          ("approved", bool true)
          ∷ ("battery", float battery)
          ∷ ("port_id", port_id)
          ∷ ("drone_id", drone_id)
          ∷ (
            "port_coordinates",
            dict (fields_of (("lat", get port "lat") ∷ ("lon", get port "lon") ∷ [])),
          )
          ∷ ("from", text p.component.component_id)
          ∷ []))

  unfoldable pub take_off_at :
      String → Value → Fields → Value → Option Float → Act Place (Option Fields)
  unfolding float_lt take_off
  take_off_at sitl_home drone_id port port_id none = failure "Battery level is unknown"
  take_off_at sitl_home drone_id port port_id (some battery) =
      if float_lt (of_nat 60) battery
      then take_off sitl_home drone_id port port_id battery
      else failure "Not enough battery for takeoff"

  unfoldable pub decide : String → Value → Fields → Option Fields → Act Place (Option Fields)
  unfolding get extract_payload parse_battery_value take_off_at
  decide sitl_home drone_id port response =
      let drone = extract_payload response in
      if succeeds response
      then (do
        battery ← lift (parse_battery_value (get drone "battery"))
        take_off_at sitl_home drone_id port (or_else (get drone "port_id") (get port "port_id"))
            battery)
      else failure "Failed to get drone information"

  unfoldable pub takeoff : String → Option Fields → Act Place (Option Fields)
  unfolding get get_or is_blank extract_payload iterated port_of decide
  takeoff sitl_home none = failure "Invalid payload"
  takeoff sitl_home (some payload) =
      let drone_id = get payload "drone_id" in
      if is_blank rt drone_id then failure "drone_id required" else (do
        p ← read (λ p. p)
        port_response ← request (topic p "port_manager") (call "get_port_status" [])
        ports ← lift (iterated (get_or (extract_payload port_response) "ports" (list nil)))
        port ← lift (port_of drone_id ports)
        response ←
            request (topic p "registry") (call_from p "get_drone" (("drone_id", drone_id) ∷ []))
        decide sitl_home drone_id port response)

  unfoldable pub handle_takeoff : String → Handler Place
  unfolding get takeoff
  handle_takeoff sitl_home message = takeoff sitl_home (only_dict (get message "payload"))
