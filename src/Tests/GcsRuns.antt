-- ===== src/Tests/GcsRuns.antt =====
-- The stores of the ground control station on concrete messages. The database is two functions: of
-- the texts, and of the members of the sets; a dict is kept as it is.
use https_gitflic_ru_project.Base.{
  String, ◌≡◌, refl, Bool, true, false, Option, none, some, [], ◌∷◌, ◌==◌, ◌&&◌, if◌then◌else◌,
  eq_refl,
}
use https_gitflic_ru_project.Py.Value.{
  Value, text, dict, Fields, end, fields_of, type_error, find, get, get_or,
}
use https_gitflic_ru_project.Py.Act.{ret, ok, raised}
use https_gitflic_ru_project.Gcs.Redis.{Library, IsLibrary}
use https_gitflic_ru_project.Gcs.Missions.{MissionStore, handle_save_mission, handle_get_mission}
use https_gitflic_ru_project.Gcs.Missions.Roundtrip.{save-get}
use https_gitflic_ru_project.Gcs.Drones.{DroneStore, normalize_drone_id, handle_update_drone}
use https_gitflic_ru_project.Gcs.Drones.Available.{Written, handle_update_drone-Reflects}
use https_gitflic_ru_project.Tests.Samples.{rt, component}

abbrev pub library : Library
library = record {
  Db = (String → Option Value) × (String → String → Bool);
  Raw = Value;
  get_key = λ db k. db.0 k;
  set_key = λ db k v. (λ j. if k == j then some v else db.0 j, db.1);
  sadd = λ db k s. (db.0, λ j t. if k == j && s == t then true else db.1 j t);
  srem = λ db k s. (db.0, λ j t. if k == j && s == t then false else db.1 j t);
  sismember = λ db k s. db.1 k s;
  dumps = λ v. v;
  to_int = λ v. raised type_error;
  update_from = λ d v. raised type_error;
  loads = λ v. some v;
}

pub library-IsLibrary : IsLibrary library
library-IsLibrary = record {
  get-set = λ db k s. rw (eq_refl k);
  get-sadd = λ db j k s. refl;
  get-srem = λ db j k s. refl;
  sismember-sadd = λ db k s. rw (eq_refl k, eq_refl s);
  sismember-srem = λ db k s. rw (eq_refl k, eq_refl s);
  loads-dumps = λ d. refl;
}

abbrev missions : MissionStore rt library
missions = record { component = component; db = (λ k. none, λ k s. false) }

abbrev mission : Fields
mission = fields_of (("mission_id", text "m1") ∷ ("drone_id", text "d1") ∷ [])

abbrev saved : Fields
saved = fields_of (("mission", dict mission) ∷ [])

abbrev asked : Fields
asked = fields_of (("mission_id", text "m1") ∷ [])

abbrev payload_message : Fields → Fields
payload_message d = fields_of (("payload", dict d) ∷ [])

has_payload : (d : Fields) → get_or (payload_message d) "payload" (dict end) ≡ dict d
unfolding get_or
has_payload d = refl

has_mission : get_or saved "mission" (dict end) ≡ dict mission
unfolding get_or
has_mission = refl

has_id : find mission "mission_id" ≡ some (text "m1")
unfolding find
has_id = refl

asks_id : get asked "mission_id" ≡ text "m1"
unfolding get
asks_id = refl

save-get_example :
    (after : MissionStore rt library) × (handle_save_mission rt library
        (payload_message saved)
        missions
      ≡ ret (ok none, after))
    × (handle_get_mission rt library (payload_message asked) after
        ≡ ret (
          ok (
              some (
                fields_of (
                  ("from", text missions.component.component_id)
                  ∷ ("mission", dict mission)
                  ∷ []))),
          after,
        ))
save-get_example =
    save-get rt library library-IsLibrary missions (payload_message saved) (payload_message asked)
      saved asked mission (text "m1") (has_payload saved) has_mission has_id (has_payload asked)
      asks_id

abbrev drones : DroneStore rt library
drones = record { component = component; db = (λ k. none, λ k s. false) }

abbrev release : Fields
release = fields_of (("drone_id", text " d1 ") ∷ ("status", text "available") ∷ [])

has_release : get (payload_message release) "payload" ≡ dict release
unfolding get
has_release = refl

release_id : normalize_drone_id rt library (get release "drone_id") ≡ some "d1"
unfolding normalize_drone_id get
release_id = refl

handle_update_drone-Reflects_example :
    Written rt library library-IsLibrary "d1"
      (handle_update_drone rt library (payload_message release) drones)
handle_update_drone-Reflects_example =
    handle_update_drone-Reflects rt library library-IsLibrary (payload_message release) release "d1"
      drones has_release release_id

abbrev telemetry : Fields
telemetry =
    fields_of
      (("drone_id", text "d1") ∷ ("latitude", text "55.7") ∷ ("longitude", text "37.6") ∷ [])

abbrev report : Fields
report = fields_of (("telemetry", dict telemetry) ∷ [])

has_report : get (payload_message report) "payload" ≡ dict report
unfolding get
has_report = refl

has_telemetry : get report "telemetry" ≡ dict telemetry
unfolding get
has_telemetry = refl

report_id : normalize_drone_id rt library (get telemetry "drone_id") ≡ some "d1"
unfolding normalize_drone_id get
report_id = refl
