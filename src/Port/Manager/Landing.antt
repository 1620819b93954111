-- ===== src/Port/Manager/Landing.antt =====
-- A landing, of the port manager and the state store together.
use https_gitflic_ru_project.Base.{
  String, ◌≡◌, ◌≢◌, refl, true, false, Option, none, some, List, [], ◌∷◌, ◌++◌, All, Bool-cases,
  inl, inr, arith,
}
use https_gitflic_ru_project.Py.Value.{
  Value, text, list, dict, Items, nil, cons, Fields, end, field, fields_of, Runtime, find, get,
  get_or, truthy,
}
use https_gitflic_ru_project.Py.Act.{Tree, ret, asks, sends, Result, ok, go_on, lift, ◌>>=◌}
use https_gitflic_ru_project.Py.Read.{merge, item, iterated}
use https_gitflic_ru_project.Port.Redis.{Redis, IsRedis, AllText, IsDict, or_found, find-merge}
use https_gitflic_ru_project.Py.Text.{nonempty}
use https_gitflic_ru_project.Sdk.Component.{Component}
use https_gitflic_ru_project.Port.Place.{Place, topic, is_blank, extract_payload, call, reply}
use https_gitflic_ru_project.Port.Store.{
  DefaultPort, port_key, listed, all_ports, handle_update_port, default_ports,
}
use https_gitflic_ru_project.Port.Manager.{
  update_port, reserve_port, reserve_first, ask_ports, landing, handle_request_landing,
}

or_found-none : (o : Option Value) → or_found o none ≡ o
or_found-none none = refl
or_found-none (some v) = refl

listed-cons :
    (redis : Redis) (port_id : String) (v : Value) (d : Fields) (ports : Items)
    → find d "port_id" ≡ some v
    → listed redis port_id d ports
      ≡ cons (dict (merge (fields_of (("port_id", text port_id) ∷ [])) d)) ports
unfolding listed find
listed-cons redis port_id v end ports h = ground arith
listed-cons redis port_id v (field k w d) ports h = refl

module _ (rt : Runtime) (redis : Redis) (laws : IsRedis redis) where
  -- The port stands in the database, under its own name.
  abbrev pub IsSeeded : redis.Db → DefaultPort → Type 0
  IsSeeded db p = find (redis.hgetall db (port_key p.port_id)) "port_id" ≡ some (text p.port_id)

  -- The drone that the database has for a port.
  abbrev pub holder : redis.Db → DefaultPort → Value
  holder db p = get (redis.hgetall db (port_key p.port_id)) "drone_id"

  -- What a landing comes to: no port is free; or the manager tells the store to reserve a free
  -- port and names it, and when the store has done so the drone holds that port and the other
  -- hashes are as before.
  pub data Landed (place : Place) (db : redis.Db) (drone_id : String)
      : List DefaultPort → Tree (Result (Option Fields) × Place) → Type 0 where
    full :
        {ports : List DefaultPort}
        → All (λ p. truthy (holder db p) ≡ true) ports
        → Landed place db drone_id ports
            (ret (ok (reply (("error", text "No free ports") ∷ [])), place))
    reserved :
        (busy rest : List DefaultPort) (p : DefaultPort)
        → All (λ q. truthy (holder db q) ≡ true) busy
        → truthy (holder db p) ≡ false
        → ((component : Component)
            → (after : redis.Db) × (handle_update_port redis rt
                  (update_port (text p.port_id) (text drone_id) "reserved")
                  (record { component = component; db = db })
                ≡ ret (ok none, record { component = component; db = after }))
              × (holder after p ≡ text drone_id)
              × ((key : String)
                  → port_key p.port_id ≢ key
                  → redis.hgetall after key ≡ redis.hgetall db key))
        → Landed place db drone_id (busy ++ p ∷ rest) (
            sends
              (topic place "state_store")
              (update_port (text p.port_id) (text drone_id) "reserved")
              (λ _. ret (ok (reply (("port_id", text p.port_id) ∷ [])), place)))

  module _ (place : Place) (db : redis.Db) (drone_id : String)
      (named : nonempty drone_id ≡ true) where
    abbrev mapping : Fields
    mapping = field "drone_id" (text drone_id) (field "status" (text "reserved") end)

    mapping-AllText : AllText mapping
    mapping-AllText = ((drone_id, refl), (("reserved", refl), tt))

    mapping-IsDict : IsDict mapping
    unfolding find
    mapping-IsDict = (refl, (refl, tt))

    update_reserves :
        (p : DefaultPort) (component : Component)
        → (after : redis.Db) × (handle_update_port redis rt
              (update_port (text p.port_id) (text drone_id) "reserved")
              (record { component = component; db = db })
            ≡ ret (ok none, record { component = component; db = after }))
          × (holder after p ≡ text drone_id)
          × ((key : String)
              → port_key p.port_id ≢ key
              → redis.hgetall after key ≡ redis.hgetall db key)
    unfolding handle_update_port get
    update_reserves p component =
        let stored =
          laws.hset-stores db (port_key p.port_id) "drone_id" (text drone_id)
            (field "status" (text "reserved") end) mapping-AllText in
        (
          stored.0,
          rw (named, stored.1),
          rw (
              laws.hset-field db stored.0 (port_key p.port_id) "drone_id" mapping mapping-AllText
                mapping-IsDict stored.1),
          λ key other. laws.hset-other db stored.0 (port_key p.port_id) key mapping stored.1 other,
        )

    -- What the manager sees of a port is what the database has.
    port_seen :
        (p : DefaultPort)
        → IsSeeded db p
        → get
            (merge
              (fields_of (("port_id", text p.port_id) ∷ []))
              (redis.hgetall db (port_key p.port_id)))
            "drone_id"
          ≡ holder db p
    unfolding get find
    port_seen p h =
        rw
          (find-merge (fields_of (("port_id", text p.port_id) ∷ []))
            (redis.hgetall db (port_key p.port_id)) "drone_id"
            (laws.hgetall-IsDict db (port_key p.port_id)))
          (rw (or_found-none (find (redis.hgetall db (port_key p.port_id)) "drone_id")))

    port_named :
        (p : DefaultPort)
        → IsSeeded db p
        → item
            (merge
              (fields_of (("port_id", text p.port_id) ∷ []))
              (redis.hgetall db (port_key p.port_id)))
            "port_id"
          ≡ ok (text p.port_id)
    unfolding item
    port_named p h = rw (
      find-merge (fields_of (("port_id", text p.port_id) ∷ []))
          (redis.hgetall db (port_key p.port_id)) "port_id"
          (laws.hgetall-IsDict db (port_key p.port_id)),
      h,
    )

    skip :
        (p : DefaultPort) {ports : List DefaultPort} {t : Tree (Result (Option Fields) × Place)}
        → truthy (holder db p) ≡ true
        → Landed place db drone_id ports t
        → Landed place db drone_id (p ∷ ports) t
    skip p h (full busy) = full (h, busy)
    skip p h (reserved busy rest q b f u) = reserved (p ∷ busy) rest q (h, b) f u

    reserve_first-Landed :
        (ports : List DefaultPort)
        → All (IsSeeded db) ports
        → Landed place db drone_id ports
            (reserve_first (text drone_id) (all_ports redis db ports) place)
    unfolding reserve_first all_ports reserve_port
    reserve_first-Landed [] h = full tt
    reserve_first-Landed (p ∷ ports) h = elim (Bool-cases (truthy (holder db p))) [
      | inl b ↦
          rw
            (
              listed-cons redis p.port_id (text p.port_id) _ (all_ports redis db ports) h.0,
              port_seen p h.0,
              b,
            )
            (skip p b (reserve_first-Landed ports h.1))
      | inr f ↦
          rw
            (
              listed-cons redis p.port_id (text p.port_id) _ (all_ports redis db ports) h.0,
              port_seen p h.0,
              f,
              port_named p h.0,
            )
            (reserved [] ports p tt f (update_reserves p))
    ]

    -- The answer of `_handle_get_all_ports`.
    abbrev pub listing : Fields
    listing = fields_of (("ports", list (all_ports redis db default_ports)) ∷ [])

    listed_ports :
        (response : Fields)
        → get response "payload" ≡ dict listing
        → get_or (extract_payload (some response)) "ports" (list nil)
          ≡ list (all_ports redis db default_ports)
    unfolding extract_payload get get_or
    listed_ports end h = ground arith
    listed_ports (field k v d) h = rw h

    -- A request to land of a drone with an id asks the store for its ports; where the answer carries
    -- the store's listing, the outcome is `Landed`.
    pub handle_request_landing-Landed :
        (message payload : Fields)
        → get message "payload" ≡ dict payload
        → get payload "drone_id" ≡ text drone_id
        → is_blank rt (text drone_id) ≡ false
        → All (IsSeeded db) default_ports
        → (k : Option Fields → Tree (Result (Option Fields) × Place)) × (handle_request_landing rt
              message place
            ≡ asks (topic place "state_store") (call "get_all_ports" []) k)
          × ((response : Fields)
              → get response "payload" ≡ dict listing
              → Landed place db drone_id default_ports (k (some response)))
    unfolding handle_request_landing landing ask_ports iterated
    handle_request_landing-Landed message payload m d b seeded = (
      λ response.
          go_on (λ ports. lift (iterated ports) >>= reserve_first (text drone_id))
            (ok (get_or (extract_payload response) "ports" (list nil)), place),
      rw (m, d, b),
      λ response h. rw (listed_ports response h) (reserve_first-Landed default_ports seeded),
    )
