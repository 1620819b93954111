-- ===== src/Agro/Autopilot/Cleared.antt =====
-- The permissions that a flight of the autopilot begins with.
use https_gitflic_ru_project.Base.{
  String, Bool, true, false, not, ◌||◌, ◌&&◌, Option, none, some, List, [], ◌∷◌, ◌≡◌, ◌≢◌, refl,
  sym, subst, arith, Bool-cases, inl, inr, if◌then◌else◌,
}
use https_gitflic_ru_project.Py.Text.{nonempty, replace}
use https_gitflic_ru_project.Py.Value.{Value, text, Fields, fields_of, Runtime}
use https_gitflic_ru_project.Py.Act.{ok}
use https_gitflic_ru_project.Py.Run.{Env, run, run-seq}
use https_gitflic_ru_project.Py.Maths.{Maths}
use https_gitflic_ru_project.Agro.Place.{proxied}
use https_gitflic_ru_project.Agro.Autopilot.{
  pre_flight, executing, aborted, Settings, Autopilot, log_to_journal,
}
use https_gitflic_ru_project.Agro.Autopilot.External.{
  unwrapped, takeoff_authorized, droneport_takeoff_ok, proxy_request_external,
  request_departure_orvd, request_takeoff_droneport,
}
use https_gitflic_ru_project.Agro.Autopilot.Control.{
  preflight_mission_id, is_pre_flight, on_released, on_cleared, preflight, step_if_known, step_with,
  step_control,
}

module _ (c : Settings) (env : Env) where
  -- The answer to a request that the monitor passes on.
  abbrev answered : String → String → List (String × Value) → Option Fields
  answered topic action sent_data = unwrapped (
      env.answer (text c.place.monitor_topic)
        (proxied "proxy_request" c.place topic action (fields_of sent_data)))

  -- Air traffic control authorizes the take-off, or is not to be asked.
  abbrev pub orvd_answer : Value → Bool
  orvd_answer mission_id = takeoff_authorized (
      answered c.orvd_topic "request_takeoff" (
        ("drone_id", text c.drone_id)
        ∷ ("mission_id", mission_id)
        ∷ ("time", text (replace "+00:00" "Z" env.clock))
        ∷ []))

  abbrev pub orvd_allows : Value → Bool
  orvd_allows mission_id =
      not (nonempty c.orvd_topic) || c.orvd_mock_success || orvd_answer mission_id

  -- The drone port lets the drone go, or is not to be asked.
  abbrev pub droneport_answer : Bool
  droneport_answer =
      droneport_takeoff_ok
        (answered c.droneport_topic "request_takeoff" (("drone_id", text c.drone_id) ∷ []))

  abbrev pub droneport_allows : Bool
  droneport_allows =
      not (nonempty c.droneport_topic) || c.droneport_mock_success || droneport_answer

  departure-run :
      (id : Value) (s : Autopilot)
      → (run env (request_departure_orvd c id s)).0 ≡ (ok (orvd_allows id), s)
  unfolding request_departure_orvd proxy_request_external log_to_journal
  departure-run id s = elim (Bool-cases (not (nonempty c.orvd_topic))) [
    | inl alone ↦ rw (alone, run) refl
    | inr asked ↦ elim (Bool-cases c.orvd_mock_success) [
      | inl mock ↦ rw (asked, mock, run) refl
      | inr real ↦ elim (Bool-cases (orvd_answer id)) [
        | inl agreed ↦ rw (asked, real, run, agreed) refl
        | inr denied ↦ rw (asked, real, run, denied) refl
      ]
    ]
  ]

  release-run :
      (id : Value) (s : Autopilot)
      → (run env (request_takeoff_droneport c id s)).0 ≡ (ok droneport_allows, s)
  unfolding request_takeoff_droneport proxy_request_external log_to_journal
  release-run id s = elim (Bool-cases (not (nonempty c.droneport_topic))) [
    | inl alone ↦ rw (alone, run) refl
    | inr asked ↦ elim (Bool-cases c.droneport_mock_success) [
      | inl mock ↦ rw (asked, mock, run) refl
      | inr real ↦ elim (Bool-cases droneport_answer) [
        | inl agreed ↦ rw (asked, real, run, agreed) refl
        | inr denied ↦ rw (asked, real, run, denied) refl
      ]
    ]
  ]

  -- The fields after the request for a permission, as far as they are not those of the ports.
  abbrev pub After : Value → Autopilot → Type 0
  After id t =
      (t.state ≡ (if orvd_allows id && droneport_allows then executing else aborted))
      × (t.last_error ≡ (
          if not (orvd_allows id)
          then some "orvd_denied"
          else if not droneport_allows
          then some "droneport_denied"
          else none))

module _ (rt : Runtime) (maths : Maths) (c : Settings) (env : Env) where
  released-After :
      (id : Value) (b : Bool) (s : Autopilot)
      → orvd_allows c env id ≡ true
      → droneport_allows c env ≡ b
      → s.last_error ≡ none
      → After c env id (run env (on_released rt maths c id b s)).0.1
  unfolding log_to_journal
  released-After id true s e d n = rw (e, d, run, n) (refl, refl)
  released-After id false s e d n = rw (e, d, run) (refl, refl)

  cleared-After :
      (id : Value) (b : Bool) (s : Autopilot)
      → orvd_allows c env id ≡ b
      → s.last_error ≡ none
      → After c env id (run env (on_cleared rt maths c id b s)).0.1
  cleared-After id true s e n =
      subst (λ r. After c env id r.1)
        (sym (
          run-seq env (request_takeoff_droneport c id) (on_released rt maths c id) s
            (droneport_allows c env) s (release-run c env id s)))
        (released-After id (droneport_allows c env) s e refl n)
  cleared-After id false s e n = rw (e, run) (refl, refl)

  preflight-After :
      (s : Autopilot)
      → After c env (preflight_mission_id s.mission) (run env (preflight rt maths c s)).0.1
  unfolding preflight
  preflight-After s =
      let id = preflight_mission_id s.mission in
      let t = record s { last_error = none } in
      subst (λ r. After c env id r.1)
        (sym (
          run-seq env (request_departure_orvd c id) (on_cleared rt maths c id) t
            (orvd_allows c env id) t (departure-run c env id t)))
        (cleared-After id (orvd_allows c env id) t refl refl)

  known-After :
      (nav : Option Fields) (s : Autopilot)
      → nav ≢ none
      → s.state ≡ pre_flight
      → After c env (preflight_mission_id s.mission) (run env (step_if_known rt maths c nav s)).0.1
  unfolding step_with
  known-After none s k f = absurd (k refl)
  known-After (some nav) s k f =
      let b : is_pre_flight s.state ≡ true = ground arith in rw b (preflight-After s)

  -- In the state PRE_FLIGHT, once a position is known, a step of the control loop ends in the state
  -- EXECUTING exactly when air traffic control and the drone port allow the flight, each by its
  -- answer or since it is not to be asked; it ends in ABORTED else, with the first refusal as the
  -- last error.
  pub step_control-After :
      (s : Autopilot)
      → s.last_nav_state ≢ none
      → s.state ≡ pre_flight
      → After c env (preflight_mission_id s.mission) (run env (step_control rt maths c s)).0.1
  unfolding step_control
  step_control-After s k f = known-After s.last_nav_state s k f
