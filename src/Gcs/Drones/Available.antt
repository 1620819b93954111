-- ===== src/Gcs/Drones/Available.antt =====
-- The set of the available drones.
use https_gitflic_ru_project.Base.{
  String, ◌≡◌, refl, Option, none, some, Bool-cases, inl, inr, arith,
}
use https_gitflic_ru_project.Py.Value.{
  Value, null, dict, Fields, end, Runtime, Exc, get, is_text, or_else,
}
use https_gitflic_ru_project.Py.Act.{
  Tree, Result, ok, raised, Always, at_ret, at_clock, AnyCall, Always-lift, Always-bind, go_on,
  pure, lift, ◌>>=◌,
}
use https_gitflic_ru_project.Gcs.Redis.{Library, IsLibrary}
use https_gitflic_ru_project.Gcs.Drones.{
  DroneStore, drone_key, all_key, available_key, assign, read_drone, write_drone,
  normalize_drone_id, set_status, update_drone, handle_update_drone, handle_save_telemetry,
  save_telemetry, update_drone_from_telemetry, known_or_new, with_battery, with_position,
}

module _ (rt : Runtime) (lib : Library) (laws : IsLibrary lib) where
  -- The database has a dict for the drone, and the drone is in the set of the available ones
  -- exactly when the status of that dict is `available`.
  pub record Reflects (nid : String) (s : DroneStore rt lib) : Type 0 where
    pub state : Fields
    pub stored : read_drone rt lib nid s ≡ dict state
    pub member : lib.sismember s.db available_key nid ≡ is_text (get state "status") "available"

  abbrev pub Written : {A : Type 0} → String → Tree (Result A × DroneStore rt lib) → Type 0
  Written nid t = Always AnyCall AnyCall (λ r. (a : _) → r.0 ≡ ok a → Reflects nid r.1) t

  module _ (nid : String) (state : Fields) (s : DroneStore rt lib) where
    abbrev entered : lib.Db
    entered = lib.sadd (lib.set_key s.db (drone_key nid) (lib.dumps (dict state))) all_key nid

    entered_text : lib.get_key entered (drone_key nid) ≡ some (lib.dumps (dict state))
    entered_text = rw (
      laws.get-sadd (lib.set_key s.db (drone_key nid) (lib.dumps (dict state))) all_key
          (drone_key nid) nid,
      laws.get-set s.db (drone_key nid) (lib.dumps (dict state)),
    )

    write_drone-Reflects : Written nid (write_drone rt lib nid (dict state) s)
    unfolding write_drone read_drone
    write_drone-Reflects = elim (Bool-cases (is_text (get state "status") "available")) [
      | inl e ↦ rw e (
          at_ret (λ a h. record {
            state = state;
            stored = rw (
              laws.get-sadd entered available_key (drone_key nid) nid,
              entered_text,
              laws.loads-dumps state,
            );
            member = rw (e, laws.sismember-sadd entered available_key nid);
          }))
      | inr e ↦ rw e (
          at_ret (λ a h. record {
            state = state;
            stored = rw (
              laws.get-srem entered available_key (drone_key nid) nid,
              entered_text,
              laws.loads-dumps state,
            );
            member = rw (e, laws.sismember-srem entered available_key nid);
          }))
    ]
    -- A state that is no dict is not written without an exception.

  write_value :
      (nid : String) (state : Value) (s : DroneStore rt lib)
      → Written nid (write_drone rt lib nid state s)
  unfolding write_drone
  write_value nid (dict state) s = write_drone-Reflects nid state s
  write_value nid state s = at_ret (λ a h. ground arith)

  returned :
      (nid : String) (r : Result (Unit {0}) × DroneStore rt lib)
      → ((a : Unit {0}) → r.0 ≡ ok a → Reflects nid r.1)
      → Written {A = Option Fields} nid (go_on (λ _. pure none) r)
  returned nid (ok a, s) q = at_ret (λ b h. q a refl)
  returned nid (raised e, s) q = at_ret (λ b h. ground arith)

  write_and_return :
      (nid : String) (state : Value) (s : DroneStore rt lib)
      → Written {A = Option Fields} nid ((write_drone rt lib nid state >>= (λ _. pure none)) s)
  write_and_return nid state s =
      Always-bind (go_on (λ _. pure none)) (write_value nid state s) (λ r q. returned nid r q)

  not_raised :
      {A : Type 0} {e : Exc} {s : DroneStore rt lib} (nid : String) (a : A)
      → raised e ≡ ok a
      → Reflects nid s
  not_raised nid a h = ground arith

  -- A message that sets the status of a drone and is handled without an exception leaves the
  -- database and the set of the available drones in agreement on that drone.
  pub handle_update_drone-Reflects :
      (message payload : Fields) (nid : String) (s : DroneStore rt lib)
      → get message "payload" ≡ dict payload
      → normalize_drone_id rt lib (get payload "drone_id") ≡ some nid
      → Written nid (handle_update_drone rt lib message s)
  unfolding handle_update_drone update_drone set_status
  handle_update_drone-Reflects message payload nid s p n =
      rw (p, n)
        (Always-lift
          (assign (or_else (read_drone rt lib nid s) (dict end)) "status" (get payload "status")) _
          s (λ e a h. not_raised nid a h) (λ state _. write_and_return nid state s))

  from_state :
      (nid : String) (telemetry : Fields) (state : Value) (s : DroneStore rt lib)
      → Written {A = Option Fields} nid (
          (lift (with_battery rt lib telemetry state) >>= (λ charged.
              lift (with_position rt lib telemetry charged)
              >>= (λ placed. write_drone rt lib nid placed >>= (λ _. pure none))))
            s)
  from_state nid telemetry state s =
      Always-lift (with_battery rt lib telemetry state) _ s (λ e a h. not_raised nid a h)
        (λ charged _.
          Always-lift (with_position rt lib telemetry charged) _ s (λ e a h. not_raised nid a h)
            (λ placed _. write_and_return nid placed s))

  from_telemetry :
      (nid : String) (telemetry : Fields) (s : DroneStore rt lib) (old : Value)
      → Written {A = Option Fields} nid (
          (known_or_new rt lib old >>= (λ state.
              lift (with_battery rt lib telemetry state) >>= (λ charged.
                lift (with_position rt lib telemetry charged)
                >>= (λ placed. write_drone rt lib nid placed >>= (λ _. pure none)))))
            s)
  unfolding known_or_new
  from_telemetry nid telemetry s null = at_clock (λ t. from_state nid telemetry _ s)
  from_telemetry nid telemetry s old = from_state nid telemetry old s

  -- So does telemetry of a drone.
  pub handle_save_telemetry-Reflects :
      (message payload telemetry : Fields) (nid : String) (s : DroneStore rt lib)
      → get message "payload" ≡ dict payload
      → get payload "telemetry" ≡ dict telemetry
      → normalize_drone_id rt lib (get telemetry "drone_id") ≡ some nid
      → Written nid (handle_save_telemetry rt lib message s)
  unfolding handle_save_telemetry save_telemetry update_drone_from_telemetry
  handle_save_telemetry-Reflects message payload telemetry nid s p t n =
      rw (p, t, n) (from_telemetry nid telemetry s (read_drone rt lib nid s))
