-- ===== src/Orvd/Table/Safety.antt =====
-- What air traffic control guarantees of its flights, whatever messages it gets.
use https_gitflic_ru_project.Base.{
  String, ◌≡◌, Bool, true, false, not, Option, none, some, List, arith,
}
use https_gitflic_ru_project.Py.Value.{Value, Fields, Runtime}
use https_gitflic_ru_project.Py.Act.{
  Tree, Result, ok, Always, at_ret, calls, Ends, AnyCall, Always-lift, Always-seq,
}
use https_gitflic_ru_project.Py.Dict.{Key, hashed, lookup, holds}
use https_gitflic_ru_project.Sdk.Component.{handle_ping, handle_get_status}
use https_gitflic_ru_project.Sdk.Component.Calls.{handle_message-Keeps}
use https_gitflic_ru_project.Orvd.State.{Orvd, log}
use https_gitflic_ru_project.Orvd.Zones.{handle_add_zone, handle_remove_zone}
use https_gitflic_ru_project.Orvd.Flights.{
  present, check_certificate, enter_drone, enter_mission, plan_mission, authorize_found, launch,
  takeoff_mission, revoke_active, handle_register_drone, handle_register_mission,
  handle_authorize_mission, handle_request_takeoff, handle_revoke_takeoff,
}
use https_gitflic_ru_project.Orvd.Watch.{
  emergency, record_answer, handle_send_telemetry, handle_request_telemetry, handle_get_history,
}
use https_gitflic_ru_project.Orvd.Table.{handlers, handle}
use https_gitflic_ru_project.Orvd.Flights.Cleared.{
  IsClearedMission, IsCleared, drones-IsCleared, missions-IsCleared, authorized-IsCleared,
  launched-IsCleared, landed-IsCleared, history-IsCleared, telemetry-IsCleared, zones-IsCleared,
}

abbrev Keeps : {A : Type 0} → Tree (Result A × Orvd) → Type 0
Keeps t = Always AnyCall AnyCall (Ends IsCleared) t

abbrev any : Unit {0}
any = tt

log-Keeps :
    (event : String) (kwargs : List (String × Value)) (o : Orvd)
    → IsCleared o
    → Keeps (log event kwargs o)
unfolding log
log-Keeps event kwargs o c = search (calls, history-IsCleared o _ c)

of_not : {b : Bool} → not b ≡ false → b ≡ true
of_not h = ground arith

present-some : {A : Type 0} (o : Option A) (a : A) → o ≡ some a → present o ≡ true
present-some o a e = rw e

ruleset orvd_calls = (calls, Always-lift, Always-seq, log-Keeps)

module _ (o : Orvd) (c : IsCleared o) where
  cleared :
      (mission_id : Value) (k : Key)
      → hashed mission_id ≡ ok k
      → present (lookup o.missions k) ≡ true
      → holds o.authorized k ≡ true
      → IsClearedMission o mission_id
  cleared mission_id k h p a = record { key = k; hashes = h; registered = p; authorized = a }

  enter_drone-Keeps : (payload : Fields) (drone_id : Value) → Keeps (enter_drone payload drone_id o)
  unfolding enter_drone
  enter_drone-Keeps payload drone_id = search (orvd_calls, drones-IsCleared o c) depth 9

  enter_mission-Keeps :
      (rt : Runtime) (payload : Fields) (mission_id drone_id : Value) (b : Bool)
      → Keeps (enter_mission rt payload mission_id drone_id b o)
  unfolding enter_mission
  enter_mission-Keeps rt payload mission_id drone_id true = search orvd_calls depth 9
  enter_mission-Keeps rt payload mission_id drone_id false =
      search (orvd_calls, missions-IsCleared o c) depth 9

  handle_add_zone-Keeps : (message : Fields) → Keeps (handle_add_zone message o)
  unfolding handle_add_zone
  handle_add_zone-Keeps message = search (orvd_calls, zones-IsCleared o) depth 9

  handle_remove_zone-Keeps : (message : Fields) → Keeps (handle_remove_zone message o)
  unfolding handle_remove_zone
  handle_remove_zone-Keeps message = search (orvd_calls, zones-IsCleared o) depth 9

  check_certificate-Keeps :
      (payload : Fields) (drone_id : Value) (cert : String)
      → Keeps (check_certificate payload drone_id cert o)
  unfolding check_certificate
  check_certificate-Keeps payload drone_id cert =
      search (orvd_calls, any, enter_drone-Keeps) depth 9

  handle_register_drone-Keeps :
      (rt : Runtime) (message : Fields) → Keeps (handle_register_drone rt message o)
  unfolding handle_register_drone
  handle_register_drone-Keeps rt message = search (orvd_calls, check_certificate-Keeps) depth 9

  plan_mission-Keeps :
      (rt : Runtime) (payload : Fields) (mission_id drone_id : Value) (d : Option Fields)
      → Keeps (plan_mission rt payload mission_id drone_id d o)
  unfolding plan_mission
  plan_mission-Keeps rt payload mission_id drone_id none = at_ret c
  plan_mission-Keeps rt payload mission_id drone_id (some d) =
      search (orvd_calls, enter_mission-Keeps) depth 9

  handle_register_mission-Keeps :
      (rt : Runtime) (message : Fields) → Keeps (handle_register_mission rt message o)
  unfolding handle_register_mission
  handle_register_mission-Keeps rt message = search (orvd_calls, plan_mission-Keeps) depth 9

  authorize_found-Keeps :
      (mission_id : Value) (k : Key) (m : Option Fields) → Keeps (authorize_found mission_id k m o)
  unfolding authorize_found
  authorize_found-Keeps mission_id k none = at_ret c
  authorize_found-Keeps mission_id k (some m) =
      search (orvd_calls, authorized-IsCleared o c) depth 9

  handle_authorize_mission-Keeps : (message : Fields) → Keeps (handle_authorize_mission message o)
  unfolding handle_authorize_mission
  handle_authorize_mission-Keeps message = search (orvd_calls, authorize_found-Keeps) depth 9

  launch-Keeps :
      (mission_id drone_id : Value) (k : Key)
      → IsClearedMission o mission_id
      → Keeps (launch mission_id drone_id k o)
  unfolding launch
  launch-Keeps mission_id drone_id k m = search (orvd_calls, of_not, launched-IsCleared o c) depth 9

  takeoff_mission-Keeps :
      (mission_id : Value) (k : Key) (m : Option Fields)
      → hashed mission_id ≡ ok k
      → lookup o.missions k ≡ m
      → Keeps (takeoff_mission mission_id k m o)
  unfolding takeoff_mission
  takeoff_mission-Keeps mission_id k none h e = at_ret c
  takeoff_mission-Keeps mission_id k (some m) h e =
      search
        (
          orvd_calls,
          of_not,
          launch-Keeps,
          λ (a : holds o.authorized k ≡ true). cleared mission_id k h (present-some _ m e) a,
        )
        depth 12

  handle_request_takeoff-Keeps : (message : Fields) → Keeps (handle_request_takeoff message o)
  unfolding handle_request_takeoff
  handle_request_takeoff-Keeps message = search (orvd_calls, takeoff_mission-Keeps) depth 9

  revoke_active-Keeps :
      (drone_id : Value) (k : Key) (m : Option Value) → Keeps (revoke_active drone_id k m o)
  unfolding revoke_active
  revoke_active-Keeps drone_id k none = at_ret c
  revoke_active-Keeps drone_id k (some m) = search (orvd_calls, landed-IsCleared o c) depth 9

  handle_revoke_takeoff-Keeps : (message : Fields) → Keeps (handle_revoke_takeoff message o)
  unfolding handle_revoke_takeoff
  handle_revoke_takeoff-Keeps message = search (orvd_calls, revoke_active-Keeps) depth 9

  handle_get_history-Keeps : (message : Fields) → Keeps (handle_get_history message o)
  unfolding handle_get_history
  handle_get_history-Keeps message = at_ret c

module _ (rt : Runtime) where
  emergency-Keeps : (drone_id : Value) (o : Orvd) → IsCleared o → Keeps (emergency drone_id o)
  unfolding emergency
  emergency-Keeps drone_id o c = search orvd_calls depth 9

  handle_send_telemetry-Keeps :
      (o : Orvd) → IsCleared o → (message : Fields) → Keeps (handle_send_telemetry rt message o)
  unfolding handle_send_telemetry
  handle_send_telemetry-Keeps o c message =
      search (orvd_calls, telemetry-IsCleared o, emergency-Keeps) depth 9

  record_answer-Keeps :
      (o : Orvd)
      → IsCleared o
      → (drone_id : Value) (r : Option Fields) → Keeps (record_answer rt drone_id r o)
  unfolding record_answer
  record_answer-Keeps o c drone_id none = at_ret c
  record_answer-Keeps o c drone_id (some r) =
      search (orvd_calls, telemetry-IsCleared o, emergency-Keeps) depth 9

  handle_request_telemetry-Keeps :
      (o : Orvd) → IsCleared o → (message : Fields) → Keeps (handle_request_telemetry rt message o)
  unfolding handle_request_telemetry
  handle_request_telemetry-Keeps o c message = search (orvd_calls, any, record_answer-Keeps) depth 9

  -- Every message, whatever it is answered, keeps every active flight cleared: its drone is
  -- registered, and its mission is registered and authorized.
  pub handle-IsCleared :
      (o : Orvd) (message : Fields)
      → IsCleared o
      → Always AnyCall AnyCall (Ends IsCleared) (handle rt message o)
  unfolding handle handlers handle_ping handle_get_status
  handle-IsCleared o message c =
      handle_message-Keeps rt Orvd.component AnyCall AnyCall IsCleared message (λ s q t m h. tt)
        (handlers rt) o c
        (
          at_ret c,
          (
            at_ret c,
            (
              handle_register_drone-Keeps o c rt message,
              (
                handle_register_mission-Keeps o c rt message,
                (
                  handle_authorize_mission-Keeps o c message,
                  (
                    handle_request_takeoff-Keeps o c message,
                    (
                      handle_revoke_takeoff-Keeps o c message,
                      (
                        handle_send_telemetry-Keeps o c message,
                        (
                          handle_request_telemetry-Keeps o c message,
                          (
                            handle_get_history-Keeps o c message,
                            (
                              handle_add_zone-Keeps o c message,
                              (handle_remove_zone-Keeps o c message, tt),
                            ),
                          ),
                        ),
                      ),
                    ),
                  ),
                ),
              ),
            ),
          ),
        )
