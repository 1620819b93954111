-- ===== src/Tests/PortRuns.antt =====
-- The drone port on concrete messages, with a database that is a function of the key.
use https_gitflic_ru_project.Base.{
  String, ◌≡◌, ◌≢◌, refl, true, false, Option, some, [], ◌∷◌, ◌==◌, if◌then◌else◌, arith, eq_iff,
  eq_refl, All, subst, Bool-cases, inl, inr,
}
use https_gitflic_ru_project.Py.Value.{text, dict, Fields, end, field, fields_of, find, get}
use https_gitflic_ru_project.Py.Act.{Tree, asks, Result, ok}
use https_gitflic_ru_project.Py.Read.{merge}
use https_gitflic_ru_project.Port.Redis.{Redis, IsRedis, IsDict, or_found, merge-IsDict, find-merge}
use https_gitflic_ru_project.Port.Place.{Place, topic, call, is_blank}
use https_gitflic_ru_project.Port.Store.{default_ports, port_key}
use https_gitflic_ru_project.Port.Manager.{handle_request_landing}
use https_gitflic_ru_project.Port.Manager.Landing.{
  Landed, IsSeeded, listing, handle_request_landing-Landed,
}
use https_gitflic_ru_project.Port.Drones.{handle_takeoff}
use https_gitflic_ru_project.Py.Asking.{AfterAsking}
use https_gitflic_ru_project.Port.Drones.Guards.{IsCharged, handle_takeoff-IsCharged}
use https_gitflic_ru_project.Tests.Samples.{rt, component, message_of}

abbrev Hash : Type 0
Hash = (d : Fields) × IsDict d

abbrev merged : Hash → Fields → Hash
merged h d = (merge h.0 d, merge-IsDict h.0 d h.1)

abbrev written : (String → Hash) → String → Fields → String → Hash
written db k d j = if k == j then merged (db j) d else db j

abbrev empty : Hash
empty = (end, tt)

abbrev redis : Redis
redis = record {
  Db = String → Hash;
  exists_key = λ db k. elim (db k).0 [ end ↦ false | field j v d ↦ true ];
  hset = λ db k d. ok (written db k d);
  hgetall = λ db k. (db k).0;
  keys_from = λ db k. [];
  delete = λ db k. λ j. if k == j then empty else db j;
}

same_field :
    (db : String → Hash) (k f : String) (d : Fields)
    → IsDict d
    → find (written db k d k).0 f ≡ or_found (find d f) (find (db k).0 f)
same_field db k f d i = rw (eq_refl k) (find-merge (db k).0 d f i)

other_key :
    (db : String → Hash) (k j : String) (d : Fields) → k ≢ j → (written db k d j).0 ≡ (db j).0
other_key db k j d h = elim (Bool-cases (k == j)) [
  | inl e ↦ ground (arith, eq_iff k j, h)
  | inr e ↦ rw e
]

redis-IsRedis : IsRedis redis
redis-IsRedis = record {
  hset-stores = λ db k f v d h. (_, refl);
  hset-field = λ db after k f d h i e.
      let same : written db k d ≡ after = cc e in
      subst (λ a. find (a k).0 f ≡ or_found (find d f) (find (db k).0 f)) same
        (same_field db k f d i);
  hset-other = λ db after k j d e h.
      let same : written db k d ≡ after = cc e in
      subst (λ a. (a j).0 ≡ (db j).0) same (other_key db k j d h);
  hgetall-IsDict = λ db k. (db k).1;
}

abbrev place : Place
place = record { component = component; namespace = ""; system = "drone_port" }

-- The database after the ports were written, which are all free but the first.
abbrev db : redis.Db
db k =
    if k == "port:P-01"
    then merged empty (fields_of (("port_id", text "P-01") ∷ ("drone_id", text "drone_001") ∷ []))
    else (if k == "port:P-02"
        then merged empty (fields_of (("port_id", text "P-02") ∷ ("drone_id", text "") ∷ []))
        else (if k == "port:P-03"
            then merged empty (fields_of (("port_id", text "P-03") ∷ ("drone_id", text "") ∷ []))
            else merged empty (fields_of (("port_id", text "P-04") ∷ ("drone_id", text "") ∷ []))))

seeded : All (IsSeeded rt redis redis-IsRedis db) default_ports
unfolding find merge port_key
seeded = (refl, (refl, (refl, (refl, tt))))

abbrev land : Fields
land = message_of "drones.d1" "request_landing" (("drone_id", text "d1") ∷ [])

land_payload : get land "payload" ≡ dict (fields_of (("drone_id", text "d1") ∷ []))
unfolding get
land_payload = refl

land_drone : get (fields_of (("drone_id", text "d1") ∷ [])) "drone_id" ≡ text "d1"
unfolding get
land_drone = refl

named : is_blank rt (text "d1") ≡ false
unfolding is_blank
named = refl

handle_request_landing-Landed_example :
    (k : Option Fields → Tree (Result (Option Fields) × Place)) × (handle_request_landing rt land
        place
      ≡ asks (topic place "state_store") (call "get_all_ports" []) k)
    × ((response : Fields)
        → get response "payload" ≡ dict (listing rt redis redis-IsRedis place db "d1" refl)
        → Landed rt redis redis-IsRedis place db "d1" default_ports (k (some response)))
handle_request_landing-Landed_example =
    handle_request_landing-Landed rt redis redis-IsRedis place db "d1" refl land
      (fields_of (("drone_id", text "d1") ∷ [])) land_payload land_drone named seeded

handle_takeoff-IsCharged_example :
    AfterAsking
      (topic place "registry")
      (λ r u b. IsCharged rt r)
      (handle_takeoff rt "sitl-drone-home" land place)
handle_takeoff-IsCharged_example = handle_takeoff-IsCharged rt "sitl-drone-home" place land
