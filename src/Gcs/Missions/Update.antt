-- ===== src/Gcs/Missions/Update.antt =====
-- An update of a stored mission.
use https_gitflic_ru_project.Base.{String, ◌≡◌, refl, true, false, none, some, [], ◌==◌}
use https_gitflic_ru_project.Py.Value.{
  Value, text, dict, Fields, end, field, Runtime, find, get, put, or_else, str, truthy, find-put,
}
use https_gitflic_ru_project.Py.Act.{ret, ok}
use https_gitflic_ru_project.Py.Run.{Env, run}
use https_gitflic_ru_project.Py.Read.{merge, item}
use https_gitflic_ru_project.Port.Redis.{IsDict, or_found, find-merge}
use https_gitflic_ru_project.Gcs.Redis.{Library, IsLibrary}
use https_gitflic_ru_project.Gcs.Missions.{
  MissionStore, mission_key, write_mission, read_mission, read_json, updated, update_found,
  handle_update_mission,
}

pub or_empty : (d : Fields) → or_else (dict d) (dict end) ≡ dict d
or_empty end = refl
or_empty (field k v d) = refl

module _ (rt : Runtime) (lib : Library) where
  -- The database has this mission under its own id.
  pub record IsStored (s : MissionStore rt lib) (mission_id : Value) (mission : Fields)
      : Type 0 where
    pub kept : lib.get_key s.db (mission_key (str rt mission_id)) ≡ some (lib.dumps (dict mission))
    pub named : find mission "mission_id" ≡ some mission_id

  -- A message that changes a mission.
  pub record IsUpdate (message : Fields) (mission_id : Value) (changes : Fields) : Type 0 where
    pub payload : Fields
    pub carries : get message "payload" ≡ dict payload
    pub names : get payload "mission_id" ≡ mission_id
    pub given : truthy mission_id ≡ true
    pub asks : get payload "fields" ≡ dict changes
    pub differ : IsDict changes
    pub keeps_id : find changes "mission_id" ≡ none

  -- The mission after an update at the time of `env`.
  abbrev pub changed : Env → Fields → Fields → Fields
  changed env mission changes = put (merge mission changes) "updated_at" (text env.clock)

  module _ (laws : IsLibrary lib) (env : Env) (s : MissionStore rt lib) where
    -- The store after it.
    abbrev pub after_update : Value → Fields → MissionStore rt lib
    after_update mission_id mission = record s {
      db = lib.set_key s.db (mission_key (str rt mission_id)) (lib.dumps (dict mission));
    }

    changed-find :
        (mission changes : Fields)
        → IsDict changes
        → (f : String) → ("updated_at" == f) ≡ false
        → find (changed env mission changes) f ≡ or_found (find changes f) (find mission f)
    changed-find mission changes d f h = rw (
      find-put (merge mission changes) "updated_at" f (text env.clock),
      h,
      find-merge mission changes f d,
    )

    same_id :
        (message : Fields) (mission_id : Value) (mission changes : Fields)
        → find mission "mission_id" ≡ some mission_id
        → IsUpdate message mission_id changes
        → find (changed env mission changes) "mission_id" ≡ some mission_id
    same_id message mission_id mission changes named update =
        rw (changed-find mission changes update.differ "mission_id" refl, update.keeps_id, named)

    writes :
        (new : Fields) (mission_id : Value)
        → find new "mission_id" ≡ some mission_id
        → write_mission rt lib new s ≡ ret (ok tt, after_update mission_id new)
    unfolding write_mission item
    writes new mission_id h = rw h

    finds :
        (mission changes : Fields) (mission_id : Value)
        → find (changed env mission changes) "mission_id" ≡ some mission_id
        → run env (update_found rt lib (dict mission) (dict changes) s)
          ≡ ((ok none, after_update mission_id (changed env mission changes)), [])
    unfolding update_found updated
    finds mission end mission_id h = rw (run, writes (changed env mission end) mission_id h)
    finds mission (field k v d) mission_id h =
        rw (run, writes (changed env mission (field k v d)) mission_id h)

    stores :
        (message : Fields) (mission_id : Value) (mission changes : Fields)
        → IsStored s mission_id mission
        → IsUpdate message mission_id changes
        → (run env (handle_update_mission rt lib message s)).0
          ≡ (ok none, after_update mission_id (changed env mission changes))
    unfolding handle_update_mission read_mission read_json
    stores message mission_id mission changes stored update = rw (
      update.carries,
      or_empty update.payload,
      update.names,
      update.given,
      stored.kept,
      laws.loads-dumps mission,
      update.asks,
      finds mission changes mission_id
          (same_id message mission_id mission changes stored.named update),
    )

    -- A message whose fields are a dict without duplicate keys and without `mission_id`, for a mission
    -- that is stored under its own id, which is not empty, leaves
    -- a mission under the same id in which these fields are as the message says, all others but
    -- `updated_at` as they were, and `updated_at` is the time.
    pub update-get :
        (message : Fields) (mission_id : Value) (mission changes : Fields)
        → IsStored s mission_id mission
        → IsUpdate message mission_id changes
        → (new : Fields) × IsStored
            (run env (handle_update_mission rt lib message s)).0.1
            mission_id
            new
          × ((f : String)
              → ("updated_at" == f) ≡ false
              → find new f ≡ or_found (find changes f) (find mission f))
          × (find new "updated_at" ≡ some (text env.clock))
    update-get message mission_id mission changes stored update = (
      changed env mission changes,
      rw (stores message mission_id mission changes stored update) (record {
        kept = laws.get-set s.db _ _;
        named = same_id message mission_id mission changes stored.named update;
      }),
      changed-find mission changes update.differ,
      rw (find-put (merge mission changes) "updated_at" "updated_at" (text env.clock)),
    )
