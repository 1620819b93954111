-- ===== src/Gcs/Missions.antt =====
-- systems/gcs/src/mission_store/src/mission_store.py: the missions, each as a JSON text.
pub mod Roundtrip
pub mod Update
use Prim.Native.String.{◌++◌ as append}
use https_gitflic_ru_project.Base.{String, not, Option, none, some, List, [], ◌∷◌, if◌then◌else◌}
use https_gitflic_ru_project.Py.Value.{
  Value, null, text, dict, Fields, end, fields_of, Runtime, Exc, value_error, get, get_or, put,
  or_else, str, truthy,
}
use https_gitflic_ru_project.Py.Act.{
  Result, ok, raised, Act, pure, lift, read, write, now, ◌>>=◌, ◌>>◌,
}
use https_gitflic_ru_project.Py.Read.{as_dict, item, merge}
use https_gitflic_ru_project.Sdk.Component.{
  Component, Handler, Handlers, register_handler, handle_ping, handle_get_status, handle_message,
}
use https_gitflic_ru_project.Gcs.Redis.{Library}

-- `_mission_key(mission_id)`
unfoldable pub mission_key : String → String
mission_key mission_id = append "gcs:mission:" mission_id

abbrev pub decoded : Option Value → Result Value
decoded none = raised value_error
decoded (some v) = ok v

module _ (rt : Runtime) (lib : Library) where
  pub record MissionStore : Type 0 where
    pub component : Component
    pub db : lib.Db

  -- `_read_json(key)`
  unfoldable pub read_json : Option lib.Raw → Result Value
  read_json none = ok null
  read_json (some raw) = decoded (lib.loads raw)

  unfoldable pub read_mission : Value → Act MissionStore Value
  unfolding str mission_key read_json
  read_mission mission_id = do
    s ← read (λ s. s)
    lift (read_json (lib.get_key s.db (mission_key (str rt mission_id))))

  unfoldable pub write_mission : Fields → Act MissionStore (Unit {0})
  unfolding item str mission_key
  write_mission mission = do
    mission_id ← lift (item mission "mission_id")
    write (λ s. record s {
      db = lib.set_key s.db (mission_key (str rt mission_id)) (lib.dumps (dict mission));
    })

  unfoldable pub handle_save_mission : Handler MissionStore
  unfolding get_or write_mission
  handle_save_mission message = do
    payload ← lift (as_dict (get_or message "payload" (dict end)))
    mission ← lift (as_dict (get_or payload "mission" (dict end)))
    done ← write_mission mission
    pure none

  unfoldable pub handle_get_mission : Handler MissionStore
  unfolding get get_or read_mission
  handle_get_mission message = do
    payload ← lift (as_dict (get_or message "payload" (dict end)))
    mission ← read_mission (get payload "mission_id")
    s ← read (λ s. s)
    pure (some (fields_of (("from", text s.component.component_id) ∷ ("mission", mission) ∷ [])))

  -- `mission.update(fields)`
  unfoldable pub updated : Fields → Value → Result Fields
  unfolding merge
  updated mission (dict changes) = ok (merge mission changes)
  updated mission v = lib.update_from mission v

  -- What follows the read of the mission.
  unfoldable pub update_found : Value → Value → Act MissionStore (Option Fields)
  unfolding put updated write_mission
  update_found null changes = pure none
  update_found mission changes = do
    old ← lift (as_dict mission)
    new ← lift (updated old (or_else changes (dict end)))
    t ← now
    done ← write_mission (put new "updated_at" (text t))
    pure none

  unfoldable pub handle_update_mission : Handler MissionStore
  unfolding get read_mission update_found
  handle_update_mission message = do
    payload ← lift (as_dict (or_else (get message "payload") (dict end)))
    let mission_id = get payload "mission_id"
    if not (truthy mission_id)
        then pure none
        else (do mission ← read_mission mission_id; update_found mission (get payload "fields"))

  abbrev pub component_of : MissionStore → Component
  component_of s = s.component

  abbrev pub actions : List String
  actions =
      "ping" ∷ "get_status" ∷ "store.save_mission" ∷ "store.get_mission" ∷ "store.update_mission"
      ∷ []

  unfoldable pub handlers : Handlers MissionStore
  unfolding register_handler
  handlers = register_handler "store.update_mission" handle_update_mission (
      register_handler "store.get_mission" handle_get_mission (
        register_handler "store.save_mission" handle_save_mission (
          register_handler "get_status" (handle_get_status component_of actions)
            (register_handler "ping" (handle_ping component_of) []))))

  unfoldable pub handle : Fields → Act MissionStore (Unit {0})
  unfolding handle_message handlers
  handle message = handle_message rt component_of handlers message
