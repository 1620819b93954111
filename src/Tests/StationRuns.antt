-- ===== src/Tests/StationRuns.antt =====
-- The ground station on concrete messages: an upload and a start of a mission, an update, a task.
use https_gitflic_ru_project.Base.{
  String, ◌≡◌, refl, true, false, none, some, List, Bool, [], ◌∷◌, ◌==◌, if◌then◌else◌,
}
use https_gitflic_ru_project.Py.Value.{
  bool, text, dict, Fields, end, fields_of, find, get, get_or, str,
}
use https_gitflic_ru_project.Py.Asking.{AfterAsking}
use https_gitflic_ru_project.Py.Run.{Env, run}
use https_gitflic_ru_project.Port.Redis.{or_found}
use https_gitflic_ru_project.Gcs.Missions.{MissionStore, mission_key, handle_update_mission}
use https_gitflic_ru_project.Gcs.Missions.Update.{IsStored, IsUpdate, update-get}
use https_gitflic_ru_project.Gcs.Drones.{DroneStore, normalize_drone_id, read_drone}
use https_gitflic_ru_project.Gcs.Station.{Station, station_topic}
use https_gitflic_ru_project.Gcs.Orchestrator.{handle_task_assign}
use https_gitflic_ru_project.Gcs.Orchestrator.Prepared.{IsUpload, handle_task_assign-IsUpload}
use https_gitflic_ru_project.Gcs.Manager.{
  DroneManager, handle_mission_upload, handle_mission_start, response_ok, unwrap_target_response,
  response_payload,
}
use https_gitflic_ru_project.Gcs.Manager.Assigned.{
  IsTask, Holds, updates, assigned, running, start_answer, upload_reserves, start_occupies,
}
use https_gitflic_ru_project.Gcs.Telemetry.{normalize_telemetry}
use https_gitflic_ru_project.Gcs.Telemetry.Named.{telemetry_of}
use https_gitflic_ru_project.Tests.Samples.{rt, component}
use https_gitflic_ru_project.Tests.GcsRuns.{library, library-IsLibrary}

-- Everything is answered with an ok, and the clock stands.
abbrev env : Env
env = record {
  answer = λ t m. some (fields_of (("payload", dict (fields_of (("ok", bool true) ∷ []))) ∷ []));
  sent = λ t m. true;
  clock = "2026-01-01T00:00:00+00:00";
}

abbrev pub station : Station
station = record {
  component = component;
  namespace = "";
  system = "gcs";
  security_monitor = "components.Agrodron.security_monitor";
  mission_handler = "components.Agrodron.mission_handler";
  autopilot = "components.Agrodron.autopilot";
  telemetry = "components.Agrodron.telemetry";
}

abbrev manager : DroneManager
manager = record { station = station; telemetry_pollers = [] }

abbrev mission : Fields
mission = fields_of (("mission_id", text "m1") ∷ ("status", text "created") ∷ [])

abbrev missions : MissionStore rt library
missions = record {
  component = component;
  db = (λ k. if "gcs:mission:m1" == k then some (dict mission) else none, λ k s. false);
}

abbrev drones : DroneStore rt library
drones = record { component = component; db = (λ k. none, λ k s. true) }

abbrev payload : Fields
payload = fields_of (("mission_id", text "m1") ∷ ("drone_id", text "d1") ∷ [])

abbrev message : Fields
message = fields_of (("payload", dict payload) ∷ ("correlation_id", text "c1") ∷ [])

stored : IsStored rt library missions (text "m1") mission
unfolding find mission_key str
stored = record { kept = refl; named = refl }

task : IsTask rt library missions drones message (text "m1") (text "d1") "d1"
unfolding get get_or find normalize_drone_id read_drone
task = record {
  payload = payload;
  carries = refl;
  names_mission = refl;
  names_drone = refl;
  given = refl;
  mission = mission;
  stored = stored;
  normal = refl;
  old = end;
  known = refl;
}

upload_reserves_example :
    ((run env (handle_mission_upload message manager)).1
      ≡ updates manager
          (get message "correlation_id")
          (text "m1")
          (text "d1")
          (assigned manager (text "d1"))
          "reserved")
    × Holds rt library env manager missions drones message
        (text "m1")
        (text "d1")
        "d1"
        (assigned manager (text "d1"))
        "reserved"
upload_reserves_example =
    upload_reserves rt library library-IsLibrary env manager missions drones message (text "m1")
      (text "d1") "d1" task

start_occupies_example :
    (response_ok (start_answer env manager message) ≡ false
      → (run env (handle_mission_start message manager)).1 ≡ [])
    × (response_ok (start_answer env manager message) ≡ true
        → ((run env (handle_mission_start message manager)).1
            ≡ updates manager
                (get message "correlation_id")
                (text "m1")
                (text "d1")
                (running manager)
                "busy")
          × Holds rt library env manager missions drones message
              (text "m1")
              (text "d1")
              "d1"
              (running manager)
              "busy")
start_occupies_example =
    start_occupies rt library library-IsLibrary env manager missions drones message (text "m1")
      (text "d1") "d1" task

-- The autopilot of the example says ok.
answers_ok : response_ok (start_answer env manager message) ≡ true
unfolding response_ok get find unwrap_target_response response_payload
answers_ok = refl

carried : get_or message "payload" (dict end) ≡ dict payload
unfolding get_or find
carried = refl

handle_task_assign-IsUpload_example :
    AfterAsking
      (station_topic station "mission_converter")
      (IsUpload station
        (get payload "mission_id")
        (get payload "drone_id")
        (get message "correlation_id"))
      (handle_task_assign message station)
handle_task_assign-IsUpload_example = handle_task_assign-IsUpload station message payload carried

abbrev waits : List Bool
waits = false ∷ false ∷ true ∷ []

-- A drone that answers with telemetry.
abbrev flying_env : Env
flying_env = record env {
  answer = λ t m. some (
      fields_of (
        (
          "payload",
          dict (fields_of (("telemetry", dict (fields_of (("lat", text "1") ∷ []))) ∷ [])),
        )
        ∷ []));
}

answered : telemetry_of manager (text "d1") flying_env ≡ some (fields_of (("lat", text "1") ∷ []))
unfolding normalize_telemetry
answered = refl

abbrev changes : Fields
changes = fields_of (("status", text "running") ∷ [])

abbrev update : Fields
update =
    fields_of (
      ("payload", dict (fields_of (("mission_id", text "m1") ∷ ("fields", dict changes) ∷ [])))
      ∷ [])

updates_it : IsUpdate rt library update (text "m1") changes
unfolding get find
updates_it = record {
  payload = fields_of (("mission_id", text "m1") ∷ ("fields", dict changes) ∷ []);
  carries = refl;
  names = refl;
  given = refl;
  asks = refl;
  differ = (refl, tt);
  keeps_id = refl;
}

update-get_example :
    (new : Fields) × IsStored rt library
      (run env (handle_update_mission rt library update missions)).0.1
      (text "m1")
      new
    × ((f : String)
        → ("updated_at" == f) ≡ false
        → find new f ≡ or_found (find changes f) (find mission f))
    × (find new "updated_at" ≡ some (text env.clock))
update-get_example =
    update-get rt library library-IsLibrary env missions update (text "m1") mission changes stored
      updates_it
