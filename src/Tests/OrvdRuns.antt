-- ===== src/Tests/OrvdRuns.antt =====
-- Air traffic control on concrete messages.
use https_gitflic_ru_project.Base.{ℕ, String, ◌≡◌, refl, ◌↔◌, true, false, List, [], ◌∷◌}
use https_gitflic_ru_project.Py.Value.{
  text, int, pos, dict, Items, nil, cons, Fields, fields_of, get, get_or, truthy,
}
use https_gitflic_ru_project.Py.Act.{ret, reads_clock, ok, Always, Ends, AnyCall}
use https_gitflic_ru_project.Py.Dict.{Dict, text_key, lookup}
use https_gitflic_ru_project.Orvd.State.{Orvd, log, reply, payload_of}
use https_gitflic_ru_project.Orvd.Zones.{points_violate}
use https_gitflic_ru_project.Orvd.Zones.Clear.{IsClearRoute, points_violate_iff}
use https_gitflic_ru_project.Orvd.Flights.{handle_request_takeoff}
use https_gitflic_ru_project.Orvd.Flights.Cleared.{IsCleared}
use https_gitflic_ru_project.Orvd.Table.{handle}
use https_gitflic_ru_project.Orvd.Table.Safety.{handle-IsCleared}
use https_gitflic_ru_project.Tests.Samples.{rt, component, message_of}

-- Drone d1 is registered, and its mission m1 is registered and authorized.
abbrev waiting : Orvd
waiting = record {
  component = component;
  regulator_topic = "regulator";
  drones = (text_key "d1", fields_of (("drone_id", text "d1") ∷ [])) ∷ [];
  missions =
      (text_key "m1", fields_of (("mission_id", text "m1") ∷ ("drone_id", text "d1") ∷ [])) ∷ [];
  authorized = text_key "m1" ∷ [];
  active_flights = [];
  telemetry = [];
  history = [];
  no_fly_zones = [];
}

waiting-IsCleared : IsCleared waiting
unfolding lookup
waiting-IsCleared = record { drone = λ d v h. cc; mission = λ d v h. cc }

abbrev take_off : Fields
take_off = message_of "gcs" "request_takeoff" (("mission_id", text "m1") ∷ [])

abbrev history_of : String → List Fields
history_of t =
    fields_of (
      ("event", text "takeoff_authorized")
      ∷ ("timestamp", text t)
      ∷ ("drone_id", text "d1")
      ∷ ("mission_id", text "m1")
      ∷ [])
    ∷ []

takes_off :
    handle_request_takeoff take_off waiting
    ≡ reads_clock (λ t. ret (
      ok (
          reply (
            ("status", text "takeoff_authorized")
            ∷ ("drone_id", text "d1")
            ∷ ("mission_id", text "m1")
            ∷ ("from", text "security_monitor")
            ∷ [])),
      record waiting { active_flights = (text_key "d1", text "m1") ∷ []; history = history_of t },
    ))
unfolding handle_request_takeoff log
takes_off = refl

handle-IsCleared_example : Always AnyCall AnyCall (Ends IsCleared) (handle rt take_off waiting)
handle-IsCleared_example = handle-IsCleared rt waiting take_off waiting-IsCleared

abbrev at : ℕ → ℕ → Fields
at lat lon = fields_of (("lat", int (pos lat)) ∷ ("lon", int (pos lon)) ∷ [])

abbrev zones : Dict Fields
zones =
    (
      text_key "z1",
      fields_of (
          ("zone_id", text "z1")
          ∷ (
            "bounds",
            dict (
                fields_of (
                  ("min_lat", int (pos 1))
                  ∷ ("max_lat", int (pos 4))
                  ∷ ("min_lon", int (pos 2))
                  ∷ ("max_lon", int (pos 5))
                  ∷ [])),
          )
          ∷ []),
    )
    ∷ []

abbrev route : Items
route = cons (dict (at 9 3)) (cons (dict (at 4 6)) nil)

clear_route : points_violate rt zones route ≡ ok false
unfolding points_violate
clear_route = refl

crossing : points_violate rt zones (cons (dict (at 9 3)) (cons (dict (at 4 5)) nil)) ≡ ok true
unfolding points_violate
crossing = refl

points_violate_iff_example :
    (points_violate rt zones route ≡ ok false) ↔ IsClearRoute rt zones route
points_violate_iff_example = points_violate_iff rt zones route

abbrev asked : Fields
asked = fields_of (("drone_id", text "d1") ∷ ("drone_topic", text "drones.d1") ∷ [])

abbrev ask_telemetry : Fields
ask_telemetry =
    message_of "gcs" "request_telemetry"
      (("drone_id", text "d1") ∷ ("drone_topic", text "drones.d1") ∷ [])

ask_payload : payload_of ask_telemetry ≡ ok asked
unfolding payload_of get_or
ask_payload = refl

ask_drone : truthy (get asked "drone_id") ≡ true
unfolding get
ask_drone = refl
