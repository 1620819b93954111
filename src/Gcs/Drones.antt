-- ===== src/Gcs/Drones.antt =====
-- systems/gcs/src/drone_store/src/drone_store.py: the drones, each as a JSON text, and the sets of
-- all and of the available ones.
pub mod Available
use Prim.Native.String.{◌++◌ as append}
use https_gitflic_ru_project.Base.{
  String, Bool, true, false, not, ◌&&◌, Option, none, some, List, [], ◌∷◌, if◌then◌else◌,
}
use https_gitflic_ru_project.Py.Text.{nonempty, strip}
use https_gitflic_ru_project.Py.Value.{
  Value, null, bool, int, text, dict, Fields, end, fields_of, Runtime, Exc, type_error, value_error,
  find, get, get_or, put, or_else, str, truthy, is_text,
}
use https_gitflic_ru_project.Py.Act.{
  Result, ok, raised, Act, pure, lift, read, write, now, ◌>>=◌, ◌>>◌,
}
use https_gitflic_ru_project.Py.Read.{as_dict}
use https_gitflic_ru_project.Sdk.Component.{
  Component, Handler, Handlers, register_handler, handle_ping, handle_get_status, handle_message,
}
use https_gitflic_ru_project.Gcs.Redis.{Library}

-- `_drone_key(drone_id)`
unfoldable pub drone_key : String → String
drone_key drone_id = append "gcs:drone:" drone_id

abbrev pub all_key : String
all_key = "gcs:drones:all"

abbrev pub available_key : String
available_key = "gcs:drones:available"

abbrev pub nonempty_or_none : String → Option String
nonempty_or_none s = if nonempty s then some s else none

-- `state[key] = value`
abbrev pub assign : Value → String → Value → Result Value
assign (dict d) k v = ok (dict (put d k v))
assign _ k v = raised type_error

-- A text that is no JSON counts as no state, as does `null`.
abbrev pub value_or_null : Option Value → Value
value_or_null none = null
value_or_null (some v) = v

abbrev pub is_none : Value → Bool
is_none null = true
is_none _ = false

-- The battery of the telemetry, as it is put into the state; what cannot be read is passed over.
abbrev pub kept : Value → Result Value → Result Value
kept state (ok v) = ok v
kept state (raised type_error) = ok state
kept state (raised value_error) = ok state
kept state (raised e) = raised e

abbrev pub put_int : Value → Result Value → Result Value
put_int state (ok n) = assign state "battery" n
put_int state (raised e) = raised e

module _ (rt : Runtime) (lib : Library) where
  pub record DroneStore : Type 0 where
    pub component : Component
    pub db : lib.Db

  unfoldable pub normalize_drone_id : Value → Option String
  unfolding strip str
  normalize_drone_id (text s) = nonempty_or_none (strip s)
  normalize_drone_id (int n) = some (str rt (int n))
  normalize_drone_id (bool b) = some (str rt (bool b))
  normalize_drone_id _ = none

  abbrev pub loaded : Option lib.Raw → Value
  loaded none = null
  loaded (some raw) = value_or_null (lib.loads raw)

  -- `_read_drone(nid)`, for an id that is normal.
  unfoldable pub read_drone : String → DroneStore → Value
  unfolding drone_key
  read_drone nid s = loaded (lib.get_key s.db (drone_key nid))

  -- `_write_drone(nid, state)`, for an id that is normal.
  unfoldable pub write_drone : String → Value → Act DroneStore (Unit {0})
  unfolding drone_key get
  write_drone nid state = do
    write (λ s. record s { db = lib.set_key s.db (drone_key nid) (lib.dumps state) })
    write (λ s. record s { db = lib.sadd s.db all_key nid })
    d ← lift (as_dict state)
    if is_text (get d "status") "available"
        then write (λ s. record s { db = lib.sadd s.db available_key nid })
        else write (λ s. record s { db = lib.srem s.db available_key nid })

  abbrev pub with_battery : Fields → Value → Result Value
  with_battery telemetry state =
      let raw_battery = get telemetry "battery" in
      if is_none raw_battery then ok state else kept state (put_int state (lib.to_int raw_battery))

  abbrev pub with_position : Fields → Value → Result Value
  with_position telemetry state =
      let latitude = get telemetry "latitude" in
      let longitude = get telemetry "longitude" in
      if not (is_none latitude) && not (is_none longitude)
      then assign state "last_position" (
          dict (
            fields_of (
              ("latitude", latitude)
              ∷ ("longitude", longitude)
              ∷ ("altitude", get telemetry "altitude")
              ∷ [])))
      else ok state

  -- `drone_state`, or a new one for a drone that is not known.
  unfoldable pub known_or_new : Value → Act DroneStore Value
  known_or_new null = do
    t ← now
    pure (dict (fields_of (("connected_at", text t) ∷ ("status", text "connected") ∷ [])))
  known_or_new state = pure state

  unfoldable pub update_drone_from_telemetry :
      Option String → Fields → Act DroneStore (Option Fields)
  unfolding get put read_drone known_or_new write_drone
  update_drone_from_telemetry none telemetry = pure none
  update_drone_from_telemetry (some nid) telemetry = do
    old ← read (read_drone nid)
    state ← known_or_new old
    charged ← lift (with_battery telemetry state)
    placed ← lift (with_position telemetry charged)
    done ← write_drone nid placed
    pure none

  abbrev pub drone_of : Option String → DroneStore → Value
  drone_of none s = null
  drone_of (some nid) s = read_drone nid s

  unfoldable pub handle_get_drone : Handler DroneStore
  unfolding get get_or normalize_drone_id read_drone
  handle_get_drone message = do
    payload ← lift (as_dict (get_or message "payload" (dict end)))
    drone ← read (drone_of (normalize_drone_id (get payload "drone_id")))
    s ← read (λ s. s)
    pure (some (fields_of (("from", text s.component.component_id) ∷ ("drone", drone) ∷ [])))

  unfoldable pub save_telemetry : Value → Act DroneStore (Option Fields)
  unfolding get normalize_drone_id update_drone_from_telemetry
  save_telemetry (dict payload) = do
    telemetry ← lift (as_dict (get payload "telemetry"))
    update_drone_from_telemetry (normalize_drone_id (get telemetry "drone_id")) telemetry
  save_telemetry _ = pure none

  unfoldable pub handle_save_telemetry : Handler DroneStore
  unfolding get save_telemetry
  handle_save_telemetry message = save_telemetry (get message "payload")

  unfoldable pub set_status : Option String → Value → Act DroneStore (Option Fields)
  unfolding put read_drone write_drone
  set_status none status = pure none
  set_status (some nid) status = do
    old ← read (read_drone nid)
    state ← lift (assign (or_else old (dict end)) "status" status)
    done ← write_drone nid state
    pure none

  unfoldable pub update_drone : Value → Act DroneStore (Option Fields)
  unfolding get normalize_drone_id set_status
  update_drone (dict payload) =
      set_status (normalize_drone_id (get payload "drone_id")) (get payload "status")
  update_drone _ = pure none

  unfoldable pub handle_update_drone : Handler DroneStore
  unfolding get update_drone
  handle_update_drone message = update_drone (get message "payload")

  abbrev pub component_of : DroneStore → Component
  component_of s = s.component

  abbrev pub actions : List String
  actions = "ping" ∷ "get_status" ∷ "store.get_drone" ∷ "store.update_drone" ∷ "telemetry.save" ∷ []

  unfoldable pub handlers : Handlers DroneStore
  unfolding register_handler
  handlers = register_handler "telemetry.save" handle_save_telemetry (
      register_handler "store.update_drone" handle_update_drone (
        register_handler "store.get_drone" handle_get_drone (
          register_handler "get_status" (handle_get_status component_of actions)
            (register_handler "ping" (handle_ping component_of) []))))

  unfoldable pub handle : Fields → Act DroneStore (Unit {0})
  unfolding handle_message handlers
  handle message = handle_message rt component_of handlers message
