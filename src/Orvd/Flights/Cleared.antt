-- ===== src/Orvd/Flights/Cleared.antt =====
-- What holds of every flight that is active, and that the changes of the fields keep it.
use https_gitflic_ru_project.Base.{
  String, ◌≡◌, subst, inl, inr, true, some, List, arith, Bool-cases,
}
use https_gitflic_ru_project.Py.Value.{Value, Fields}
use https_gitflic_ru_project.Py.Act.{ok}
use https_gitflic_ru_project.Py.Dict.{
  Key, Dict, same_key, same_key_iff, hashed, lookup, insert, remove, holds, include, lookup-insert,
  lookup-remove, holds-include,
}
use https_gitflic_ru_project.Sdk.Component.{Component}
use https_gitflic_ru_project.Orvd.State.{Orvd, new}
use https_gitflic_ru_project.Orvd.Flights.{present}

-- A flight of a mission: the mission is registered and authorized.
pub record IsClearedMission (o : Orvd) (mission_id : Value) : Type 0 where
  pub key : Key
  pub hashes : hashed mission_id ≡ ok key
  pub registered : present (lookup o.missions key) ≡ true
  pub authorized : holds o.authorized key ≡ true

-- Every active flight is one of a registered drone, for a registered and authorized mission.
pub record IsCleared (o : Orvd) : Type 0 where
  pub drone :
      (d : Key) (v : Value)
      → lookup o.active_flights d ≡ some v
      → present (lookup o.drones d) ≡ true
  pub mission : (d : Key) (v : Value) → lookup o.active_flights d ≡ some v → IsClearedMission o v

module _ (o : Orvd) (c : IsCleared o) where
  pub drones-IsCleared :
      (k : Key) (d : Fields) → IsCleared (record o { drones = insert o.drones k d })
  drones-IsCleared k d = record {
    drone = λ j v h. ground (arith, lookup-insert o.drones k j d, c.drone j v h);
    mission = λ j v h.
        let x = c.mission j v h in
        record {
          key = x.key;
          hashes = x.hashes;
          registered = x.registered;
          authorized = x.authorized;
        };
  }

  pub missions-IsCleared :
      (k : Key) (d : Fields) → IsCleared (record o { missions = insert o.missions k d })
  missions-IsCleared k d = record {
    drone = c.drone;
    mission = λ j v h.
        let x = c.mission j v h in
        record {
          key = x.key;
          hashes = x.hashes;
          registered = ground (arith, lookup-insert o.missions k x.key d, x.registered);
          authorized = x.authorized;
        };
  }

  pub authorized-IsCleared :
      (k : Key) → IsCleared (record o { authorized = include o.authorized k })
  authorized-IsCleared k = record {
    drone = c.drone;
    mission = λ j v h.
        let x = c.mission j v h in
        record {
          key = x.key;
          hashes = x.hashes;
          registered = x.registered;
          authorized = ground (arith, holds-include o.authorized k x.key, x.authorized);
        };
  }

  -- The flights are no part of what clears a mission.
  abbrev pub with_flights : Dict Value → Orvd
  with_flights flights = record o { active_flights = flights }

  keep :
      (flights : Dict Value) (v : Value)
      → IsClearedMission o v
      → IsClearedMission (with_flights flights) v
  keep flights v x = record {
    key = x.key;
    hashes = x.hashes;
    registered = x.registered;
    authorized = x.authorized;
  }

  pub launched-IsCleared :
      (d : Key) (v : Value)
      → present (lookup o.drones d) ≡ true
      → IsClearedMission o v
      → IsCleared (with_flights (insert o.active_flights d v))
  launched-IsCleared d v drone m = record {
    drone = λ j w h.
        ground (arith, lookup-insert o.active_flights d j v, same_key_iff d j, c.drone j w);
    mission = λ j w h. elim (Bool-cases (same_key d j)) [
      | inl same ↦
          let e : some v ≡ some w = ground (arith, lookup-insert o.active_flights d j v) in
          subst (IsClearedMission (with_flights (insert o.active_flights d v))) (cc e) (keep _ v m)
      | inr other ↦ keep _ w (c.mission j w (ground (arith, lookup-insert o.active_flights d j v)))
    ];
  }

  pub landed-IsCleared : (d : Key) → IsCleared (with_flights (remove o.active_flights d))
  landed-IsCleared d = record {
    drone = λ j w h. ground (arith, lookup-remove o.active_flights d j, c.drone j w);
    mission =
        λ j w h. keep _ w (c.mission j w (ground (arith, lookup-remove o.active_flights d j)));
  }

pub history-IsCleared :
    (o : Orvd) (h : List Fields) → IsCleared o → IsCleared (record o { history = h })
history-IsCleared o h c = record {
  drone = c.drone;
  mission = λ j v x.
      let m = c.mission j v x in
      record {
        key = m.key;
        hashes = m.hashes;
        registered = m.registered;
        authorized = m.authorized;
      };
}

pub telemetry-IsCleared :
    (o : Orvd) (h : Dict Fields) → IsCleared o → IsCleared (record o { telemetry = h })
telemetry-IsCleared o h c = record {
  drone = c.drone;
  mission = λ j v x.
      let m = c.mission j v x in
      record {
        key = m.key;
        hashes = m.hashes;
        registered = m.registered;
        authorized = m.authorized;
      };
}

pub zones-IsCleared :
    (o : Orvd) (h : Dict Fields) → IsCleared o → IsCleared (record o { no_fly_zones = h })
zones-IsCleared o h c = record {
  drone = c.drone;
  mission = λ j v x.
      let m = c.mission j v x in
      record {
        key = m.key;
        hashes = m.hashes;
        registered = m.registered;
        authorized = m.authorized;
      };
}

-- A component that has just been built has no flights.
pub new-IsCleared :
    (component : Component) (regulator_topic : String) → IsCleared (new component regulator_topic)
unfolding new lookup
new-IsCleared component regulator_topic = record { drone = λ d v h. cc; mission = λ d v h. cc }
