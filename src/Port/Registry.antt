-- ===== src/Port/Registry.antt =====
-- systems/drone_port/src/drone_registry/src/drone_registry.py: the drones, one Redis hash for each.
use Prim.Native.String.{◌++◌ as append}
use https_gitflic_ru_project.Base.{
  String, Bool, true, false, not, ◌&&◌, Option, none, some, List, [], ◌∷◌, if◌then◌else◌,
}
use https_gitflic_ru_project.Py.Float.{Float, of_nat, float_ge}
use https_gitflic_ru_project.Py.Value.{
  Value, bool, float, text, list, dict, Items, nil, cons, Fields, end, field, fields_of, Runtime,
  get, get_or, str, is_text,
}
use https_gitflic_ru_project.Py.Act.{Act, pure, lift, read, write, now, ◌>>=◌, ◌>>◌}
use https_gitflic_ru_project.Py.Read.{merge, to_float, number_or_none}
use https_gitflic_ru_project.Sdk.Component.{Component, Handler}
use https_gitflic_ru_project.Port.Redis.{Redis}
use https_gitflic_ru_project.Port.Place.{is_blank, only_dict, reply}

-- `f"drone:{drone_id}"`
unfoldable pub drone_key : String → String
drone_key drone_id = append "drone:" drone_id

-- The mapping of `_seed_default_demo_drone`.
abbrev pub demo_drone : String → Fields
demo_drone t = fields_of (
    ("drone_id", text "drone_001")
    ∷ ("model", text "AgroDron")
    ∷ ("port_id", text "P-01")
    ∷ ("battery", text "100")
    ∷ ("status", text "ready")
    ∷ ("registered_at", text t)
    ∷ ("updated_at", text t)
    ∷ [])

-- The mapping of `_handle_register_drone`.
abbrev pub new_drone : Fields → Value → String → Fields
new_drone payload drone_id t = fields_of (
    ("drone_id", drone_id)
    ∷ ("model", get_or payload "model" (text "unknown"))
    ∷ ("port_id", get_or payload "port_id" (text ""))
    ∷ ("battery", text "unknown")
    ∷ ("status", text "new")
    ∷ ("registered_at", text t)
    ∷ ("updated_at", text t)
    ∷ [])

-- `"ready" if battery_num >= 100.0 else "charging"`
unfoldable pub status_of : Float → String
unfolding float_ge
status_of battery_num = if float_ge battery_num (of_nat 100) then "ready" else "charging"

abbrev pub is_empty : Fields → Bool
is_empty end = true
is_empty (field k v d) = false

module _ (redis : Redis) where
  pub record Registry : Type 0 where
    pub component : Component
    pub db : redis.Db

  unfoldable pub seed_default_demo_drone : redis.Db → Act redis.Db (Unit {0})
  unfolding drone_key
  seed_default_demo_drone db =
      if is_empty (redis.hgetall db (drone_key "drone_001"))
      then (do
        t ← now
        after ← lift (redis.hset db (drone_key "drone_001") (demo_drone t))
        write (λ _. after))
      else pure tt

  -- `self.redis.hset(f"drone:{drone_id}", mapping=d)`
  unfoldable pub save : String → Fields → Act Registry (Option Fields)
  unfolding drone_key
  save drone_id d = do
    s ← read (λ s. s)
    after ← lift (redis.hset s.db (drone_key drone_id) d)
    write (λ s. record s { db = after })
    pure none

  -- The loop of `_handle_get_available_drones`.
  unfoldable pub ready_drones : redis.Db → List String → Items
  unfolding get
  ready_drones db [] = nil
  ready_drones db (key ∷ keys) =
      let drone = redis.hgetall db key in
      let rest = ready_drones db keys in
      if not (is_empty drone) && is_text (get drone "status") "ready"
      then cons (dict drone) rest
      else rest

  unfoldable pub handle_get_available_drones : Handler Registry
  unfolding ready_drones
  handle_get_available_drones message = do
    s ← read (λ s. s)
    pure (
        reply (
          ("drones", list (ready_drones s.db (redis.keys_from s.db "drone:")))
          ∷ ("from", text s.component.component_id)
          ∷ []))

  abbrev pub failure : String → Act Registry (Option Fields)
  failure error = do
    s ← read (λ s. s)
    pure (reply (("error", text error) ∷ ("from", text s.component.component_id) ∷ []))

  unfoldable pub drone_or_error : Fields → Act Registry (Option Fields)
  unfolding merge
  drone_or_error end = failure "Drone not found"
  drone_or_error (field k v d) = do
    s ← read (λ s. s)
    pure (
        some (
          merge (field k v d)
            (fields_of (("success", bool true) ∷ ("from", text s.component.component_id) ∷ []))))

  module _ (rt : Runtime) where
    unfoldable pub register : Option Fields → Act Registry (Option Fields)
    unfolding get get_or is_blank str save
    register none = pure none
    register (some payload) =
        let drone_id = get payload "drone_id" in
        if is_blank rt drone_id
        then pure none
        else (do t ← now; save (str rt drone_id) (new_drone payload drone_id t))

    unfoldable pub handle_register : Handler Registry
    unfolding get register
    handle_register message = register (only_dict (get message "payload"))

    unfoldable pub get_drone : Option Fields → Act Registry (Option Fields)
    unfolding get is_blank str drone_key drone_or_error
    get_drone none = failure "Invalid payload"
    get_drone (some payload) =
        let drone_id = get payload "drone_id" in
        if is_blank rt drone_id then failure "drone_id required" else (do
          s ← read (λ s. s)
          drone_or_error (redis.hgetall s.db (drone_key (str rt drone_id))))

    unfoldable pub handle_get_drone : Handler Registry
    unfolding get get_drone
    handle_get_drone message = get_drone (only_dict (get message "payload"))

    unfoldable pub delete_drone : Option Fields → Act Registry (Option Fields)
    unfolding get is_blank str drone_key
    delete_drone none = pure none
    delete_drone (some payload) =
        let drone_id = get payload "drone_id" in
        if is_blank rt drone_id then pure none else (do
          write (λ s. record s { db = redis.delete s.db (drone_key (str rt drone_id)) })
          pure none)

    unfoldable pub handle_delete_drone : Handler Registry
    unfolding get delete_drone
    handle_delete_drone message = delete_drone (only_dict (get message "payload"))

    unfoldable pub charging_started : Option Fields → Act Registry (Option Fields)
    unfolding get is_blank str save
    charging_started none = pure none
    charging_started (some payload) =
        let drone_id = get payload "drone_id" in
        if is_blank rt drone_id
        then pure none
        else save (str rt drone_id) (fields_of (("status", text "charging") ∷ []))

    unfoldable pub handle_charging_started : Handler Registry
    unfolding get charging_started
    handle_charging_started message = charging_started (only_dict (get message "payload"))

    unfoldable pub save_battery : Value → Option Float → Act Registry (Option Fields)
    unfolding str save status_of
    save_battery drone_id none = pure none
    save_battery drone_id (some battery_num) = do
      t ← now
      save (str rt drone_id) (
          fields_of (
            ("battery", float battery_num)
            ∷ ("status", text (status_of battery_num))
            ∷ ("updated_at", text t)
            ∷ []))

    unfoldable pub update_battery : Option Fields → Act Registry (Option Fields)
    unfolding get is_blank to_float save_battery
    update_battery none = pure none
    update_battery (some payload) =
        let drone_id = get payload "drone_id" in
        if is_blank rt drone_id then pure none else (do
          battery_num ← lift (number_or_none (to_float rt (get payload "battery")))
          save_battery drone_id battery_num)

    unfoldable pub handle_update_battery : Handler Registry
    unfolding get update_battery
    handle_update_battery message = update_battery (only_dict (get message "payload"))
