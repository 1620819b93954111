-- ===== src/Orvd/Flights/Takeoff.antt =====
-- When a take-off is granted.
use https_gitflic_ru_project.Base.{◌≡◌, ◌⊎◌, String, true, false, some, ◌++◌, ◌∷◌, []}
use https_gitflic_ru_project.Py.Value.{Value, text, Fields, field, fields_of, get, truthy}
use https_gitflic_ru_project.Py.Act.{ok, Act}
use https_gitflic_ru_project.Py.Dict.{Key, hashed, lookup, insert, holds}
use https_gitflic_ru_project.Orvd.State.{Orvd, payload_of}
use https_gitflic_ru_project.Orvd.Flights.{present}

-- What a take-off requires of the message and the fields.
pub record Grantable (message : Fields) (o : Orvd) : Type 0 where
  pub payload : Fields
  pub reads : payload_of message ≡ ok payload
  pub mission_named : truthy (get payload "mission_id") ≡ true
  pub mission_key : Key
  pub mission_hashes : hashed (get payload "mission_id") ≡ ok mission_key
  pub mission : Fields
  pub registered : lookup o.missions mission_key ≡ some mission
  pub authorized : holds o.authorized mission_key ≡ true
  pub drone_named : truthy (get mission "drone_id") ≡ true
  pub drone_key : Key
  pub drone_hashes : hashed (get mission "drone_id") ≡ ok drone_key
  pub drone_registered : present (lookup o.drones drone_key) ≡ true
  pub not_flying : present (lookup o.active_flights drone_key) ≡ false

-- The entry of the history for a take-off.
abbrev pub takeoff_entry : Value → Value → String → Fields
takeoff_entry drone_id mission_id t = field "event" (text "takeoff_authorized") (
    field "timestamp" (text t)
      (fields_of (("drone_id", drone_id) ∷ ("mission_id", mission_id) ∷ [])))

-- The fields after it: the flight is added, and an entry of the history, and nothing else.
pub record IsGranted (message : Fields) (o o' : Orvd) : Type 0 where
  pub grantable : Grantable message o
  pub time : String
  pub takes_off : o' ≡ record o {
    active_flights =
        insert o.active_flights grantable.drone_key (get grantable.payload "mission_id");
    history =
        o.history
        ++ takeoff_entry
            (get grantable.mission "drone_id")
            (get grantable.payload "mission_id")
            time
          ∷ [];
  }

-- A flight is granted if it can be; else nothing changes.
abbrev pub Decided : Fields → Orvd → Orvd → Type 0
Decided message o o' = ((¬ Grantable message o) × (o' ≡ o)) ⊎ IsGranted message o o'
