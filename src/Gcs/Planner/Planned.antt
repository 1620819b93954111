-- ===== src/Gcs/Planner/Planned.antt =====
-- The routes of the planner, and what it publishes.
use https_gitflic_ru_project.Base.{String, true, ◌≡◌, refl, arith, Option, List, [], ◌∷◌, length}
use https_gitflic_ru_project.Py.Value.{
  Value, text, list, dict, Items, Fields, end, Runtime, Exc, get, get_or,
}
use https_gitflic_ru_project.Py.Act.{Result, ok, raised, Act, Always}
use https_gitflic_ru_project.Py.Maths.{Maths}
use https_gitflic_ru_project.Py.Read.{as_dict, items_count}
use https_gitflic_ru_project.Gcs.Station.{Station, station_topic, reply, id_of}
use https_gitflic_ru_project.Gcs.Orchestrator.{is_route}
use https_gitflic_ru_project.Gcs.Route.{PathPoint}
use https_gitflic_ru_project.Gcs.Planner.{
  build_route, mission_message, waypoint_items, waypoint_list,
}
use https_gitflic_ru_project.Gcs.Planner.Shape.{IsRouteOf}

count-waypoint_items : (route : List PathPoint) → items_count (waypoint_items route) ≡ length route
count-waypoint_items [] = refl
count-waypoint_items (p ∷ route) = omega (arith, count-waypoint_items route)

-- The route that is built of the points of the task.
abbrev pub IsBuilt : Runtime → Maths → Fields → List PathPoint → Type 0
IsBuilt rt maths task route =
    (waypoints : Items) × (get task "waypoints" ≡ list waypoints)
    × (build_route rt maths waypoints ≡ ok route)
    × IsRouteOf rt maths waypoints route

module _ (rt : Runtime) (maths : Maths) (s : Station) (message payload task : Fields) where
  -- The mission that the planner has stored for a message.
  pub data Stores : Value → Fields → Type 0 where
    stores :
        (route : List PathPoint) (t : String)
        → IsBuilt rt maths task route
        → Stores (station_topic s "mission_store") (
            mission_message rt maths s
              (get message "correlation_id")
              (get payload "mission_id")
              route
              t)

  -- The answer: the route that was built, for the mission of the message, or the error or an
  -- exception if none could be built.
  pub data Answers : Result (Option Fields) → Type 0 where
    with_route :
        (route : List PathPoint)
        → IsBuilt rt maths task route
        → is_route (waypoint_list route) ≡ true
        → Answers (
            ok (
              reply (
                ("from", id_of s)
                ∷ ("mission_id", get payload "mission_id")
                ∷ ("waypoints", waypoint_list route)
                ∷ [])))
    without_route :
        ((route : List PathPoint) → ¬ IsBuilt rt maths task route)
        → Answers (ok (reply (("from", id_of s) ∷ ("error", text "failed to build route") ∷ [])))
    fails :
        (e : Exc) → ((route : List PathPoint) → ¬ IsBuilt rt maths task route) → Answers (raised e)

module _ (rt : Runtime) (maths : Maths) (s : Station) (message payload task : Fields)
    (with_payload : as_dict (get_or message "payload" (dict end)) ≡ ok payload)
    (with_task : as_dict (get_or payload "task" (dict end)) ≡ ok task) where
  abbrev Plans : Act Station (Option Fields) → Type 0
  Plans act =
      Always (λ topic m. ⊥) (Stores rt maths s message payload task)
        (λ r. Answers rt maths s message payload task r.0 × (r.1 ≡ s)) (act s)
