-- ===== src/Gcs/Converter.antt =====
-- systems/gcs/src/mission_converter/src/mission_converter.py: the text of waypoints of a mission.
pub mod Prepares
use Prim.Native.Char.{Char, code}
use https_gitflic_ru_project.Base.{
  ℕ, suc, String, Bool, true, false, ◌&&◌, not, nat_eq, Option, none, some, List, [], ◌∷◌,
  if◌then◌else◌,
}
use https_gitflic_ru_project.Py.Text.{nonempty}
use https_gitflic_ru_project.Py.Float.{of_nat}
use https_gitflic_ru_project.Py.Value.{
  Value, int, pos, float, text, list, dict, Items, nil, cons, Fields, end, fields_of, Runtime, Exc,
  value_error, get, get_or, or_else, str,
}
use https_gitflic_ru_project.Py.Act.{
  Result, ok, raised, Act, pure, lift, read, request, ◌>>=◌, ◌>>◌,
}
use https_gitflic_ru_project.Py.Read.{as_dict, then_check}
use https_gitflic_ru_project.Sdk.Component.{
  Handler, Handlers, register_handler, handle_ping, handle_get_status, handle_message,
}
use https_gitflic_ru_project.Gcs.Station.{
  Station, station_topic, message_from, id_of, correlated, succeeded, payload_in, reply,
}
use https_gitflic_ru_project.Gcs.Route.Rows.{join, wpl_header, points_to_wpl}
use https_gitflic_ru_project.Gcs.Planner.{station_component}

-- `text.rstrip("\n")`
unfoldable pub without_end : String → String
without_end String.[] = ""
without_end (String.◌∷◌ c s) =
    let rest = without_end s in
    if not (nonempty rest) && nat_eq (code c) 10 then "" else String.◌∷◌ c rest

-- A list of points, or none.
abbrev pub points_in : Value → Items
points_in (list points) = points
points_in _ = nil

module _ (rt : Runtime) where
  -- `str(d.get(key, default))`
  abbrev pub shown : Fields → String → Value → String
  shown d key default = str rt (get_or d key default)

  abbrev pub whole : ℕ → Value
  whole n = int (pos n)

  -- A row of a point that need not pass any check.
  unfoldable pub loose_row : ℕ → Fields → Result String
  unfolding str get_or
  loose_row i point = then_check (as_dict (get_or point "params" (dict end))) (λ params. ok (
      join "\t" (
        str rt (whole i)
        ∷ (if nat_eq i 0 then "1" else "0")
        ∷ shown point "frame" (whole 3)
        ∷ shown point "command" (whole 16)
        ∷ shown params "p1" (whole 0)
        ∷ shown params "p2" (whole 0)
        ∷ shown params "p3" (whole 0)
        ∷ shown params "p4" (whole 0)
        ∷ shown point "lat" (get_or point "latitude" (float (of_nat 0)))
        ∷ shown point "lon" (get_or point "lng" (get_or point "longitude" (float (of_nat 0))))
        ∷ shown point "alt" (get_or point "altitude" (float (of_nat 0)))
        ∷ "1"
        ∷ [])))

  -- The rows; what is no dict is left out.
  unfoldable pub loose_rows : ℕ → Items → Result (List String)
  unfolding loose_row
  loose_rows i nil = ok []
  loose_rows i (cons (dict point) vs) =
      then_check (loose_row i point)
        (λ row. then_check (loose_rows (suc i) vs) (λ rows. ok (row ∷ rows)))
  loose_rows i (cons v vs) = loose_rows (suc i) vs

  unfoldable pub to_wpl : Items → Result String
  unfolding loose_rows
  to_wpl points = then_check (loose_rows 0 points) (λ rows. ok (join "\n" (wpl_header ∷ rows)))

  -- `except ValueError`
  abbrev pub or_loose : Items → Result String → Result String
  or_loose points (raised value_error) = to_wpl points
  or_loose points r = r

  unfoldable pub wpl_of : Items → Result String
  unfolding to_wpl points_to_wpl
  wpl_of nil = to_wpl nil
  wpl_of (cons v vs) = or_loose (cons v vs) (points_to_wpl rt (cons v vs))

  -- The points of the mission in an answer of the store.
  unfoldable pub stored_points : Option Fields → Result Items
  unfolding get get_or
  stored_points response = then_check (as_dict (payload_in response)) (λ payload.
      then_check (as_dict (or_else (get payload "mission") (dict end)))
        (λ mission. ok (points_in (get mission "waypoints"))))

  abbrev pub mission_request : Station → Value → Value → Fields
  mission_request s correlation_id mission_id =
      correlated correlation_id
        (message_from (id_of s) "store.get_mission" (("mission_id", mission_id) ∷ []))

  -- What follows the answer of the store.
  abbrev pub convert : Value → Option Fields → Act Station (Option Fields)
  convert mission_id response = do
    s ← read (λ s. s)
    if not (succeeded response)
        then pure (reply (("error", text "mission store unavailable") ∷ ("from", id_of s) ∷ []))
        else (do
          points ← lift (stored_points response)
          wpl ← lift (wpl_of points)
          pure (
              reply (
                (
                  "mission",
                  dict (
                      fields_of
                        (("mission_id", mission_id) ∷ ("wpl", text (without_end wpl)) ∷ [])),
                )
                ∷ ("from", id_of s)
                ∷ [])))

  unfoldable pub handle_mission_prepare : Handler Station
  unfolding get get_or stored_points wpl_of without_end
  handle_mission_prepare message = do
    payload ← lift (as_dict (get_or message "payload" (dict end)))
    let mission_id = get payload "mission_id"
    s ← read (λ s. s)
    response ←
        request (station_topic s "mission_store")
          (mission_request s (get message "correlation_id") mission_id)
    convert mission_id response

  abbrev pub converter_actions : List String
  converter_actions = "ping" ∷ "get_status" ∷ "mission.prepare" ∷ []

  unfoldable pub converter_handlers : Handlers Station
  unfolding register_handler
  converter_handlers = register_handler "mission.prepare" handle_mission_prepare (
      register_handler "get_status" (handle_get_status station_component converter_actions)
        (register_handler "ping" (handle_ping station_component) []))

  unfoldable pub handle_converting : Fields → Act Station (Unit {0})
  unfolding handle_message converter_handlers
  handle_converting message = handle_message rt station_component converter_handlers message
