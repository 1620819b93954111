-- ===== src/Gcs/Manager/Assigned.antt =====
-- An upload and a start of a mission, of the drone manager and the two stores together.
use https_gitflic_ru_project.Base.{
  String, ◌≡◌, refl, true, false, Option, some, List, [], ◌∷◌, Bool, ap, ◌++◌, if◌then◌else◌,
}
use https_gitflic_ru_project.Py.Value.{
  Value, text, dict, Fields, end, fields_of, Runtime, get, get_or, or_else, truthy, find,
}
use https_gitflic_ru_project.Py.Act.{
  Result, ok, raised, Tree, pure, go_on, bind, ◌>>=◌, ret, write, read,
}
use https_gitflic_ru_project.Py.Run.{Env, Messages, run}
use https_gitflic_ru_project.Py.Dict.{Key, hashed, lookup, insert}
use https_gitflic_ru_project.Gcs.Redis.{Library, IsLibrary}
use https_gitflic_ru_project.Gcs.Missions.{MissionStore, handle_update_mission}
use https_gitflic_ru_project.Gcs.Missions.Update.{IsStored}
use https_gitflic_ru_project.Gcs.Drones.{
  DroneStore, normalize_drone_id, read_drone, handle_update_drone,
}
use https_gitflic_ru_project.Gcs.Station.{station_topic}
use https_gitflic_ru_project.Gcs.Manager.{
  DroneManager, mission_update, drone_update, response_ok, unwrap_answer, proxy_message, is_polled,
  start_telemetry_polling, mission_started, handle_mission_upload, handle_mission_start,
  proxy_request_drone,
}
use https_gitflic_ru_project.Gcs.Manager.Stored.{HasMission, HasDrone, mission_stored, drone_stored}

module _ (rt : Runtime) (lib : Library) (missions : MissionStore rt lib)
    (drones : DroneStore rt lib) where
  -- A message about a mission that is stored and about a drone with a normal id, whose state in the
  -- store is a dict or nothing.
  pub record IsTask (message : Fields) (mission_id drone_id : Value) (nid : String) : Type 0 where
    pub payload : Fields
    pub carries : get_or message "payload" (dict end) ≡ dict payload
    pub names_mission : get payload "mission_id" ≡ mission_id
    pub names_drone : get payload "drone_id" ≡ drone_id
    pub given : truthy mission_id ≡ true
    pub mission : Fields
    pub stored : IsStored rt lib missions mission_id mission
    pub normal : normalize_drone_id rt lib drone_id ≡ some nid
    pub old : Fields
    pub known : or_else (read_drone rt lib nid drones) (dict end) ≡ dict old

module _ (m : DroneManager) where
  -- The updates of the two stores, as they are published.
  abbrev pub updates : Value → Value → Value → List (String × Value) → String → Messages
  updates correlation_id mission_id drone_id changes status =
      (
        station_topic m.station "mission_store",
        mission_update m.station correlation_id mission_id changes,
      )
      ∷ (
        station_topic m.station "drone_store",
        drone_update m.station correlation_id drone_id status,
      )
      ∷ []

  abbrev pub assigned : Value → List (String × Value)
  assigned drone_id = ("assigned_drone", drone_id) ∷ ("status", text "assigned") ∷ []

  abbrev pub running : List (String × Value)
  running = ("status", text "running") ∷ []

module _ (env : Env) (m : DroneManager) where
  -- The polling starts without a call.
  abbrev Returns : Tree (Result (Unit {0}) × DroneManager) → Type 0
  Returns t = (x : Result (Unit {0}) × DroneManager) × (t ≡ ret x)

  if-Returns :
      (b : Bool) (f : DroneManager → DroneManager) → Returns ((if b then pure tt else write f) m)
  if-Returns true f = ((ok tt, m), refl)
  if-Returns false f = ((ok tt, f m), refl)

  hashed-Returns :
      (r : Result Key)
      → Returns (
          go_on
            (λ k. read DroneManager.telemetry_pollers >>= λ pollers.
              if is_polled (lookup pollers k)
              then pure tt
              else write (λ s. record s { telemetry_pollers = insert pollers k true }))
            (r, m))
  hashed-Returns (ok k) = if-Returns _ _
  hashed-Returns (raised e) = ((raised e, m), refl)

  polling-Returns : (drone_id : Value) → Returns (start_telemetry_polling drone_id m)
  unfolding start_telemetry_polling
  polling-Returns drone_id = hashed-Returns (hashed drone_id)

  silent :
      (a : Option Fields) (x : Result (Unit {0}) × DroneManager)
      → (run env (go_on (λ _. pure a) x)).1 ≡ []
  silent a (ok b, s) = refl
  silent a (raised e, s) = refl

  returned_silent :
      (t : Tree (Result (Unit {0}) × DroneManager)) (a : Option Fields)
      → Returns t
      → (run env (bind t (go_on (λ _. pure a)))).1 ≡ []
  returned_silent t a (x, h) = rw h (silent a x)

  polled-Returns :
      (b : Bool) (drone_id : Value)
      → Returns ((if b then start_telemetry_polling drone_id else pure tt) m)
  polled-Returns true drone_id = polling-Returns drone_id
  polled-Returns false drone_id = ((ok tt, m), refl)

  started_publishes :
      (correlation_id mission_id drone_id : Value) (r : Option Fields)
      → (run env (mission_started correlation_id mission_id drone_id r m)).1
        ≡ updates m correlation_id mission_id drone_id (running m) "busy"
  unfolding mission_started
  started_publishes correlation_id mission_id drone_id r =
      ap (λ l. updates m correlation_id mission_id drone_id (running m) "busy" ++ l)
        (returned_silent _ _ (polled-Returns (truthy drone_id) drone_id))

module _ (env : Env) (m : DroneManager) (message : Fields) where
  -- What the autopilot answers to the command, through the drone's security monitor.
  abbrev pub start_answer : Option Fields
  start_answer = unwrap_answer (
      env.answer (text m.station.security_monitor) (
        proxy_message m.station m.station.autopilot "cmd" (get message "correlation_id")
          (("command", text "START") ∷ [])))

module _ (rt : Runtime) (lib : Library) (env : Env) (m : DroneManager)
    (missions : MissionStore rt lib) (drones : DroneStore rt lib) (message : Fields)
    (mission_id drone_id : Value) (nid : String) where
  -- What the stores have when they have handled two such updates.
  abbrev pub Holds : List (String × Value) → String → Type 0
  Holds changes status =
      HasMission rt lib
        (run env (
          handle_update_mission rt lib
            (mission_update m.station (get message "correlation_id") mission_id changes)
            missions)).0.1
        mission_id (fields_of changes)
      × HasDrone rt lib
          (run env (
            handle_update_drone rt lib
              (drone_update m.station (get message "correlation_id") drone_id status) drones)).0.1
          nid status

module _ (rt : Runtime) (lib : Library) (laws : IsLibrary lib) (env : Env) (m : DroneManager)
    (missions : MissionStore rt lib) (drones : DroneStore rt lib) (message : Fields)
    (mission_id drone_id : Value) (nid : String)
    (task : IsTask rt lib missions drones message mission_id drone_id nid) where
  abbrev correlation : Value
  correlation = get message "correlation_id"

  upload_publishes :
      (run env (handle_mission_upload message m)).1
      ≡ updates m correlation mission_id drone_id (assigned m drone_id) "reserved"
  unfolding handle_mission_upload proxy_request_drone
  upload_publishes = rw (task.carries, task.names_mission, task.names_drone) refl

  -- For a mission that is stored under its id, which is neither null nor empty, and a drone with a
  -- normal id, an upload publishes one update for each store, whatever the drone answers; when the
  -- stores have handled them, the mission is assigned to the drone and the drone is reserved and not available.
  pub upload_reserves :
      ((run env (handle_mission_upload message m)).1
        ≡ updates m correlation mission_id drone_id (assigned m drone_id) "reserved")
      × Holds rt lib env m missions drones message mission_id drone_id nid
          (assigned m drone_id)
          "reserved"
  unfolding find
  upload_reserves = (
    upload_publishes,
    (
      mission_stored rt lib laws env m.station missions correlation mission_id task.mission
          (assigned m drone_id) task.given (refl, (refl, tt)) refl refl task.stored,
      drone_stored rt lib laws env m.station drones nid "reserved" task.old correlation drone_id
          refl task.normal task.known,
    ),
  )

  start_publishes :
      response_ok (start_answer env m message) ≡ true
      → (run env (handle_mission_start message m)).1
        ≡ updates m correlation mission_id drone_id (running m) "busy"
  unfolding handle_mission_start proxy_request_drone
  start_publishes h =
      rw (task.carries, task.names_mission, task.names_drone, run, h)
        (started_publishes env m correlation mission_id drone_id (start_answer env m message))

  -- For a mission that is stored under its id, which is neither null nor empty, and a drone with a
  -- normal id, a start publishes nothing when the autopilot does not answer that it is ok. When it
  -- does, one
  -- update for each store is published, and when the stores have handled them, the mission is
  -- running and the drone is busy and not available.
  pub start_occupies :
      (response_ok (start_answer env m message) ≡ false
        → (run env (handle_mission_start message m)).1 ≡ [])
      × (response_ok (start_answer env m message) ≡ true
          → ((run env (handle_mission_start message m)).1
              ≡ updates m correlation mission_id drone_id (running m) "busy")
            × Holds rt lib env m missions drones message mission_id drone_id nid (running m) "busy")
  unfolding find handle_mission_start proxy_request_drone
  start_occupies = (
    λ h. rw (task.carries, task.names_mission, task.names_drone, run, h) refl,
    λ h. (
      start_publishes h,
      (
        mission_stored rt lib laws env m.station missions correlation mission_id task.mission
            (running m) task.given (refl, tt) refl refl task.stored,
        drone_stored rt lib laws env m.station drones nid "busy" task.old correlation drone_id refl
            task.normal task.known,
      ),
    ),
  )
