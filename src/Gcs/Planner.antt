-- ===== src/Gcs/Planner.antt =====
-- systems/gcs/src/path_planner/src/path_planner.py: a route for the points of a task.
pub mod Shape
pub mod Routes
pub mod Planned
use https_gitflic_ru_project.Base.{
  String, Bool, true, false, Option, none, some, List, [], ◌∷◌, if◌then◌else◌,
}
use https_gitflic_ru_project.Py.Float.{Float, of_nat}
use https_gitflic_ru_project.Py.Value.{
  Value, null, float, text, list, dict, Items, nil, cons, Fields, end, fields_of, Runtime, Exc,
  type_error, value_error, key_error, get, get_or,
}
use https_gitflic_ru_project.Py.Act.{
  Result, ok, raised, Act, pure, lift, raise, read, publish, now, ◌>>=◌, ◌>>◌,
}
use https_gitflic_ru_project.Py.Maths.{Maths}
use https_gitflic_ru_project.Py.Read.{as_dict, item, then_check, to_float}
use https_gitflic_ru_project.Sdk.Component.{
  Component, Handler, Handlers, register_handler, handle_ping, handle_get_status, handle_message,
}
use https_gitflic_ru_project.Gcs.Station.{
  Station, station_topic, message_from, id_of, correlated, reply,
}
use https_gitflic_ru_project.Gcs.Route.{PathPoint, point_fields, expand_two_points_to_path}
use https_gitflic_ru_project.Gcs.Route.Snake.{expand_three_points_to_snake_path}

abbrev pub station_component : Station → Component
station_component s = s.component

-- The waypoints of a route in a message.
abbrev pub waypoint_items : List PathPoint → Items
waypoint_items [] = nil
waypoint_items (p ∷ route) = cons (dict (point_fields p)) (waypoint_items route)

abbrev pub waypoint_list : List PathPoint → Value
waypoint_list route = list (waypoint_items route)

-- `except (KeyError, TypeError, ValueError): raise ValueError`
abbrev pub as_bad_points : {A : Type 0} → Result A → Result A
as_bad_points (ok a) = ok a
as_bad_points (raised key_error) = raised value_error
as_bad_points (raised type_error) = raised value_error
as_bad_points (raised e) = raised e

module _ (rt : Runtime) (maths : Maths) where
  -- A point of the task: what is no dict has no item under a text.
  unfoldable pub seed_point : Value → Result Fields
  unfolding item get_or to_float
  seed_point (dict point) = then_check (item point "lat") (λ x. then_check (to_float rt x) (λ lat.
      then_check (item point "lon") (λ y. then_check (to_float rt y) (λ lon.
        then_check (to_float rt (get_or point "alt_m" (float (of_nat 0)))) (λ alt_m.
          ok
            (fields_of (("lat", float lat) ∷ ("lon", float lon) ∷ ("alt_m", float alt_m) ∷ [])))))))
  seed_point _ = raised type_error

  unfoldable pub seed_points : Items → Result (List Fields)
  unfolding seed_point
  seed_points nil = ok []
  seed_points (cons v vs) =
      then_check (seed_point v) (λ p. then_check (seed_points vs) (λ l. ok (p ∷ l)))

  unfoldable pub route_of : List Fields → Result (List PathPoint)
  unfolding expand_two_points_to_path expand_three_points_to_snake_path
  route_of (a ∷ b ∷ []) = expand_two_points_to_path rt maths a b
  route_of (a ∷ b ∷ c ∷ []) = expand_three_points_to_snake_path rt maths a b c
  route_of _ = raised value_error

  unfoldable pub build_route : Items → Result (List PathPoint)
  unfolding seed_points route_of
  build_route waypoints = then_check (as_bad_points (seed_points waypoints)) route_of

  abbrev pub no_route : Act Station (Option Fields)
  no_route = do
    s ← read (λ s. s)
    pure (reply (("from", id_of s) ∷ ("error", text "failed to build route") ∷ []))

  -- The message that has the mission stored.
  abbrev pub mission_message : Station → Value → Value → List PathPoint → String → Fields
  mission_message s correlation_id mission_id route t = correlated correlation_id (
      message_from (id_of s) "store.save_mission" (
        (
          "mission",
          dict (
              fields_of (
                ("mission_id", mission_id)
                ∷ ("waypoints", waypoint_list route)
                ∷ ("status", text "created")
                ∷ ("assigned_drone", null)
                ∷ ("created_at", text t)
                ∷ ("updated_at", text t)
                ∷ [])),
        )
        ∷ []))

  unfoldable pub store_route : Value → Value → List PathPoint → Act Station (Option Fields)
  store_route correlation_id mission_id route = do
    t ← now
    s ← read (λ s. s)
    sent ←
        publish (station_topic s "mission_store")
          (mission_message s correlation_id mission_id route t)
    pure (
        reply (
          ("from", id_of s) ∷ ("mission_id", mission_id) ∷ ("waypoints", waypoint_list route) ∷ []))

  -- The `try` around the building of the route.
  abbrev pub on_route : Value → Value → Result (List PathPoint) → Act Station (Option Fields)
  on_route correlation_id mission_id (ok route) = store_route correlation_id mission_id route
  on_route correlation_id mission_id (raised value_error) = no_route
  on_route correlation_id mission_id (raised e) = raise e

  abbrev pub plan : Value → Value → Value → Act Station (Option Fields)
  plan correlation_id mission_id (list waypoints) =
      on_route correlation_id mission_id (build_route waypoints)
  plan correlation_id mission_id _ = no_route

  unfoldable pub handle_path_plan : Handler Station
  unfolding get get_or build_route store_route
  handle_path_plan message = do
    payload ← lift (as_dict (get_or message "payload" (dict end)))
    task ← lift (as_dict (get_or payload "task" (dict end)))
    plan (get message "correlation_id") (get payload "mission_id") (get task "waypoints")

  abbrev pub planner_actions : List String
  planner_actions = "ping" ∷ "get_status" ∷ "path.plan" ∷ []

  unfoldable pub planner_handlers : Handlers Station
  unfolding register_handler
  planner_handlers = register_handler "path.plan" handle_path_plan (
      register_handler "get_status" (handle_get_status station_component planner_actions)
        (register_handler "ping" (handle_ping station_component) []))

  unfoldable pub handle_planning : Fields → Act Station (Unit {0})
  unfolding handle_message planner_handlers
  handle_planning message = handle_message rt station_component planner_handlers message
