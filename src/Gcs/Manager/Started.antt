-- ===== src/Gcs/Manager/Started.antt =====
-- When the drone manager says that a mission has started.
use https_gitflic_ru_project.Base.{◌≡◌, true, Option, if◌then◌else◌}
use https_gitflic_ru_project.Py.Value.{Value, text, dict, Fields, end, get, get_or, truthy}
use https_gitflic_ru_project.Py.Act.{
  Always, at_ret, at_send, AnyCall, Always-lift, Always-if_act, Always-bind, go_on, pure, Tree,
  Result, ok, raised,
}
use https_gitflic_ru_project.Py.Dict.{hashed, lookup}
use https_gitflic_ru_project.Py.Read.{as_dict}
use https_gitflic_ru_project.Py.Asking.{AfterAsking, at_answer, AfterAsking-lift}
use https_gitflic_ru_project.Gcs.Manager.{
  DroneManager, response_ok, unwrap_answer, is_polled, start_telemetry_polling, mission_started,
  handle_mission_start, proxy_request_drone,
}

abbrev Sends : {A : Type 0} → Type 0 → Tree A → Type 0
Sends G t = Always AnyCall (λ u b. G) (λ a. Unit {0}) t

module _ (m : DroneManager) where
  polling-Sends : {G : Type 0} (drone_id : Value) → Sends G (start_telemetry_polling drone_id m)
  unfolding start_telemetry_polling
  polling-Sends drone_id =
      Always-lift (hashed drone_id) _ m (λ e. tt)
        (λ k _.
          Always-if_act (is_polled (lookup m.telemetry_pollers k)) _ _ m (λ h. at_ret tt)
            (λ h. at_ret tt))

  polled-Sends :
      {G : Type 0} (drone_id : Value)
      → Sends G ((if truthy drone_id then start_telemetry_polling drone_id else pure tt) m)
  polled-Sends drone_id =
      Always-if_act (truthy drone_id) _ _ m (λ h. polling-Sends drone_id) (λ h. at_ret tt)

  returned :
      {G A B : Type 0} (a : A) (x : Result B × DroneManager) → Sends G (go_on (λ _. pure a) x)
  returned a (ok b, s) = at_ret tt
  returned a (raised e, s) = at_ret tt

  started-Sends :
      {G : Type 0}
      → G
      → (correlation_id mission_id drone_id : Value) (r : Option Fields)
      → Sends G (mission_started correlation_id mission_id drone_id r m)
  unfolding mission_started
  started-Sends g correlation_id mission_id drone_id r =
      at_send g
        (λ _. at_send g (λ _. Always-bind (go_on _) (polled-Sends drone_id) (λ x _. returned _ x)))

  -- The start of a mission publishes nothing before the drone's security monitor was asked to pass
  -- the command on, and nothing after it unless the autopilot answers that it is ok.
  pub handle_mission_start_confirmed :
      (message : Fields)
      → AfterAsking
          (text m.station.security_monitor)
          (λ r u b. response_ok (unwrap_answer r) ≡ true)
          (handle_mission_start message m)
  unfolding handle_mission_start proxy_request_drone
  handle_mission_start_confirmed message =
      AfterAsking-lift (as_dict (get_or message "payload" (dict end))) _ m (λ payload.
        at_answer (λ r.
          Always-if_act (response_ok (unwrap_answer r)) _ _ m
            (λ h.
              started-Sends h (get message "correlation_id") (get payload "mission_id")
                (get payload "drone_id") (unwrap_answer r))
            (λ h. at_ret tt)))
