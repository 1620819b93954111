-- ===== src/Port/Store.antt =====
-- systems/drone_port/src/state_store/: the landing places, one Redis hash for each.
use Prim.Native.String.{◌++◌ as append}
use https_gitflic_ru_project.Base.{String, none, List, [], ◌∷◌, if◌then◌else◌}
use https_gitflic_ru_project.Py.Value.{
  text, list, dict, Items, nil, cons, Fields, end, field, fields_of, Runtime, get, str, or_else,
}
use https_gitflic_ru_project.Py.Act.{Result, ok, Act, pure, lift, read, write, ◌>>=◌, ◌>>◌}
use https_gitflic_ru_project.Py.Read.{as_dict, merge, then_check}
use https_gitflic_ru_project.Sdk.Component.{
  Component, Handler, Handlers, register_handler, handle_ping, handle_get_status, handle_message,
}
use https_gitflic_ru_project.Port.Redis.{Redis}
use https_gitflic_ru_project.Port.Place.{reply}

pub record DefaultPort : Type 0 where
  pub port_id : String
  pub drone_id : String
  pub status : String
  pub lat : String
  pub lon : String

-- `DEFAULT_PORTS` of ports.py.
abbrev pub default_ports : List DefaultPort
default_ports =
    record {
      port_id = "P-01";
      drone_id = "drone_001";
      status = "reserved";
      lat = "55.751000";
      lon = "37.617000";
    }
    ∷ record {
      port_id = "P-02";
      drone_id = "";
      status = "free";
      lat = "55.751100";
      lon = "37.617100";
    }
    ∷ record {
      port_id = "P-03";
      drone_id = "";
      status = "free";
      lat = "55.751200";
      lon = "37.617200";
    }
    ∷ record {
      port_id = "P-04";
      drone_id = "";
      status = "free";
      lat = "55.751300";
      lon = "37.617300";
    }
    ∷ []

abbrev pub mapping_of : DefaultPort → Fields
mapping_of p = fields_of (
    ("port_id", text p.port_id)
    ∷ ("drone_id", text p.drone_id)
    ∷ ("status", text p.status)
    ∷ ("lat", text p.lat)
    ∷ ("lon", text p.lon)
    ∷ [])

-- `f"port:{port_id}"`
unfoldable pub port_key : String → String
port_key port_id = append "port:" port_id

module _ (redis : Redis) where
  pub record Store : Type 0 where
    pub component : Component
    pub db : redis.Db

  -- The loop of `__init__`, which writes the ports that are missing.
  unfoldable pub seed : List DefaultPort → redis.Db → Result redis.Db
  unfolding port_key
  seed [] db = ok db
  seed (p ∷ ports) db =
      let key = port_key p.port_id in
      then_check (if redis.exists_key db key then ok db else redis.hset db key (mapping_of p))
        (seed ports)

  -- One round of the loop of `_handle_get_all_ports`.
  unfoldable pub listed : String → Fields → Items → Items
  unfolding merge
  listed port_id end ports = ports
  listed port_id (field k v d) ports =
      cons (dict (merge (fields_of (("port_id", text port_id) ∷ [])) (field k v d))) ports

  unfoldable pub all_ports : redis.Db → List DefaultPort → Items
  unfolding port_key listed
  all_ports db [] = nil
  all_ports db (p ∷ ports) =
      listed p.port_id (redis.hgetall db (port_key p.port_id)) (all_ports db ports)

  unfoldable pub handle_get_all_ports : Handler Store
  unfolding all_ports
  handle_get_all_ports message = do
    s ← read (λ s. s)
    pure (reply (("ports", list (all_ports s.db default_ports)) ∷ []))

  module _ (rt : Runtime) where
    unfoldable pub handle_update_port : Handler Store
    unfolding get str port_key
    handle_update_port message = do
      payload ← lift (as_dict (get message "payload"))
      s ← read (λ s. s)
      db ← lift (
          redis.hset s.db (port_key (str rt (get payload "port_id"))) (
            fields_of (
              ("drone_id", or_else (get payload "drone_id") (text ""))
              ∷ ("status", get payload "status")
              ∷ [])))
      write (λ s. record s { db = db })
      pure none

  -- The keys of the table, in the order in which they are registered.
  abbrev pub actions : List String
  actions = "ping" ∷ "get_status" ∷ "get_all_ports" ∷ "update_port" ∷ []

  module _ (rt : Runtime) where
    unfoldable pub handlers : Handlers Store
    unfolding register_handler
    handlers = register_handler "update_port" (handle_update_port rt) (
        register_handler "get_all_ports" handle_get_all_ports (
          register_handler "get_status" (handle_get_status Store.component actions)
            (register_handler "ping" (handle_ping Store.component) [])))

    unfoldable pub handle : Fields → Act Store (Unit {0})
    unfolding handle_message handlers
    handle message = handle_message rt Store.component handlers message
