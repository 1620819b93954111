-- ===== src/Gcs/Manager/Stored.antt =====
-- The two stores after they have handled the updates that the drone manager sends.
use https_gitflic_ru_project.Base.{
  String, ◌≡◌, refl, true, false, none, some, List, [], ◌∷◌, ◌==◌, Bool-cases, inl, inr, arith,
  eq_iff,
}
use https_gitflic_ru_project.Py.Value.{
  Value, text, dict, Fields, end, fields_of, Runtime, find, get, put, or_else, truthy, find-put,
}
use https_gitflic_ru_project.Py.Act.{ret, ok}
use https_gitflic_ru_project.Py.Run.{Env, run}
use https_gitflic_ru_project.Port.Redis.{IsDict, or_found}
use https_gitflic_ru_project.Gcs.Redis.{Library, IsLibrary}
use https_gitflic_ru_project.Gcs.Missions.{MissionStore, handle_update_mission}
use https_gitflic_ru_project.Gcs.Missions.Update.{IsStored, IsUpdate, update-get}
use https_gitflic_ru_project.Gcs.Drones.{
  DroneStore, normalize_drone_id, drone_key, all_key, available_key, read_drone, write_drone,
  set_status, update_drone, handle_update_drone,
}
use https_gitflic_ru_project.Gcs.Station.{Station, message_from, correlated, id_of}
use https_gitflic_ru_project.Gcs.Manager.{mission_update, drone_update}

correlated_payload :
    (correlation_id sender : Value) (action : String) (l : List (String × Value))
    → get (correlated correlation_id (message_from sender action l)) "payload" ≡ dict (fields_of l)
unfolding get find put
correlated_payload correlation_id sender action l = elim (Bool-cases (truthy correlation_id)) [
  | inl e ↦ rw e refl
  | inr e ↦ rw e refl
]

module _ (rt : Runtime) (lib : Library) where
  -- The mission store has the mission, with these values of these fields.
  pub record HasMission (missions : MissionStore rt lib) (mission_id : Value) (changes : Fields)
      : Type 0 where
    pub mission : Fields
    pub stored : IsStored rt lib missions mission_id mission
    pub has : (f : String) (v : Value) → find changes f ≡ some v → find mission f ≡ some v

  -- The drone store has the drone with this status, and not among the available ones.
  pub record HasDrone (drones : DroneStore rt lib) (nid status : String) : Type 0 where
    pub state : Fields
    pub stored : read_drone rt lib nid drones ≡ dict state
    pub says : get state "status" ≡ text status
    pub taken : lib.sismember drones.db available_key nid ≡ false

  module _ (laws : IsLibrary lib) (env : Env) (s : Station) where
    is_update :
        (correlation_id mission_id : Value) (changes : List (String × Value))
        → truthy mission_id ≡ true
        → IsDict (fields_of changes)
        → find (fields_of changes) "mission_id" ≡ none
        → IsUpdate rt lib
            (mission_update s correlation_id mission_id changes)
            mission_id
            (fields_of changes)
    unfolding get find
    is_update correlation_id mission_id changes t d n = record {
      payload = fields_of (("mission_id", mission_id) ∷ ("fields", dict (fields_of changes)) ∷ []);
      carries =
          correlated_payload correlation_id (id_of s) "store.update_mission"
            (("mission_id", mission_id) ∷ ("fields", dict (fields_of changes)) ∷ []);
      names = refl;
      given = t;
      asks = refl;
      differ = d;
      keeps_id = n;
    }

    -- A field that was changed has its new value.
    overlaid :
        (new mission changes : Fields)
        → find changes "updated_at" ≡ none
        → ((f : String)
            → ("updated_at" == f) ≡ false
            → find new f ≡ or_found (find changes f) (find mission f))
        → (f : String) (v : Value) → find changes f ≡ some v
        → find new f ≡ some v
    overlaid new mission changes u q f v h = elim (Bool-cases ("updated_at" == f)) [
      | inl e ↦ ground (arith, eq_iff "updated_at" f, u, h)
      | inr e ↦ rw (q f e, h)
    ]

    pub mission_stored :
        (missions : MissionStore rt lib) (correlation_id mission_id : Value) (mission : Fields)
        (changes : List (String × Value))
        → truthy mission_id ≡ true
        → IsDict (fields_of changes)
        → find (fields_of changes) "mission_id" ≡ none
        → find (fields_of changes) "updated_at" ≡ none
        → IsStored rt lib missions mission_id mission
        → HasMission
            (run env (
              handle_update_mission rt lib
                (mission_update s correlation_id mission_id changes)
                missions)).0.1
            mission_id
            (fields_of changes)
    mission_stored missions correlation_id mission_id mission changes t d n u stored =
        let new =
          update-get rt lib laws env missions (mission_update s correlation_id mission_id changes)
            mission_id mission (fields_of changes) stored
            (is_update correlation_id mission_id changes t d n) in
        record {
          mission = new.0;
          stored = new.1;
          has = overlaid new.0 mission (fields_of changes) u new.2;
        }

    module _ (drones : DroneStore rt lib) (nid status : String) (old : Fields) where
      abbrev state_of : Fields
      state_of = put old "status" (text status)

      abbrev after : DroneStore rt lib
      after = record drones {
        db =
            lib.srem
              (lib.sadd (lib.set_key drones.db (drone_key nid) (lib.dumps (dict state_of))) all_key
                nid)
              available_key nid;
      }

      status_in : get state_of "status" ≡ text status
      unfolding get
      status_in = rw (find-put old "status" "status" (text status)) refl

      writes :
          (status == "available") ≡ false
          → write_drone rt lib nid (dict state_of) drones ≡ ret (ok tt, after)
      unfolding write_drone
      writes h = rw (status_in, h) refl

      handles :
          (correlation_id drone_id : Value)
          → (status == "available") ≡ false
          → normalize_drone_id rt lib drone_id ≡ some nid
          → or_else (read_drone rt lib nid drones) (dict end) ≡ dict old
          → (run env
              (handle_update_drone rt lib (drone_update s correlation_id drone_id status) drones)).0
            ≡ (ok none, after)
      unfolding handle_update_drone update_drone set_status get find
      handles correlation_id drone_id h n k = rw (
        correlated_payload correlation_id (id_of s) "store.update_drone"
            (("drone_id", drone_id) ∷ ("status", text status) ∷ []),
        n,
        k,
        writes h,
      )

      after_reads : read_drone rt lib nid after ≡ dict state_of
      unfolding read_drone
      after_reads = rw (
        laws.get-srem _ available_key (drone_key nid) nid,
        laws.get-sadd _ all_key (drone_key nid) nid,
        laws.get-set drones.db (drone_key nid) (lib.dumps (dict state_of)),
        laws.loads-dumps state_of,
      )

      pub drone_stored :
          (correlation_id drone_id : Value)
          → (status == "available") ≡ false
          → normalize_drone_id rt lib drone_id ≡ some nid
          → or_else (read_drone rt lib nid drones) (dict end) ≡ dict old
          → HasDrone
              (run env (
                handle_update_drone rt lib
                  (drone_update s correlation_id drone_id status)
                  drones)).0.1
              nid
              status
      drone_stored correlation_id drone_id h n k =
          rw (handles correlation_id drone_id h n k) (record {
            state = state_of;
            stored = after_reads;
            says = status_in;
            taken = laws.sismember-srem _ available_key nid;
          })
