-- ===== src/Agro/Autopilot/Reachable.antt =====
-- The states that the autopilot gets into, by messages and turns of its control loop in any order.
use https_gitflic_ru_project.Base.{
  ℕ, ◌<◌, String, Bool, true, false, Option, none, some, List, [], ◌∷◌, ◌≡◌, refl, arith,
  Bool-cases, inl, inr,
}
use https_gitflic_ru_project.Py.Float.{of_nat, float_ge}
use https_gitflic_ru_project.Py.Value.{Value, dict, Fields, Runtime, truthy, get}
use https_gitflic_ru_project.Py.Act.{
  Result, ok, raised, Act, Always, at_ret, calls, AnyCall, Ends, Always-lift, Always-seq,
  Always-bind, Always-if, Always-if_act, go_on,
}
use https_gitflic_ru_project.Py.Run.{Env, run, Always-run}
use https_gitflic_ru_project.Py.Maths.{Maths}
use https_gitflic_ru_project.Sdk.Component.{handle_ping, handle_get_status}
use https_gitflic_ru_project.Sdk.Component.Calls.{handle_message-Keeps}
use https_gitflic_ru_project.Agro.Missions.Wpl.{Formats}
use https_gitflic_ru_project.Agro.Autopilot.{
  FlightState, idle, pre_flight, executing, paused, aborted, emergency_stop, Settings, Autopilot,
  has_mission, log_to_journal,
}
use https_gitflic_ru_project.Agro.Autopilot.Commands.{
  Command, start, pause, resume, abort, reset, stop, kover, with_mission, load_mission,
  handle_mission_load, wait_loop, wait_for_mission_before_start, mission_ready, accept_start,
  started, start_mission, obey, log_change, perform, handle_cmd, handle_get_state, component_of,
  handlers, handle, paused_from, resumed_from, kover_from,
}
use https_gitflic_ru_project.Agro.Autopilot.WellFormed.{turn-Keeps}
use https_gitflic_ru_project.Agro.Autopilot.Fits.{
  Fits, IsWellFormed, calm_lem, without_mission, truthy-length,
}
use https_gitflic_ru_project.Agro.Autopilot.Control.{turn}

-- `__init__`
abbrev pub initial : Autopilot
initial = record {
  running = false;
  mission = none;
  state = idle;
  current_step_index = none;
  last_error = none;
  last_nav_state = none;
  sprayer_on = false;
  kover_active = false;
  landing_active = false;
  landing_port_confirmed = false;
  last_landing_port_request_ts = of_nat 0;
  last_nav_poll_ts = of_nat 0;
}

loaded_Fits : (m : Fields) (s : Autopilot) → IsWellFormed (with_mission m s)
loaded_Fits m s = elim (Bool-cases (truthy (get m "steps"))) [
  | inl some_steps ↦ record {
    unfinished = λ h. ground arith;
    prepared = λ h. refl;
    indexed = λ m' i n e ix l.
        let mine : m ≡ m' = cc in
        let at_first : some 0 ≡ some i = (rw some_steps at ix) in
        let here : 0 ≡ i = cc at_first in
        let longer : 0 < n = truthy-length (get m "steps") n some_steps (rw mine l) in ground arith;
  }
  | inr no_steps ↦ record {
    unfinished = λ h. ground arith;
    prepared = λ h. refl;
    indexed = λ m' i n e ix l. let nowhere : none ≡ some i = (rw no_steps at ix) in ground arith;
  }
]

paused_Fits :
    (m : Option Fields) (f : FlightState) (i : Option ℕ) → Fits m f i → Fits m (paused_from f) i
paused_Fits m executing i q = calm_lem _ _ paused _ refl q
paused_Fits m f i q = q

resumed_Fits :
    (m : Option Fields) (f : FlightState) (i : Option ℕ) → Fits m f i → Fits m (resumed_from f) i
resumed_Fits m paused i q = calm_lem _ _ executing _ refl q
resumed_Fits m f i q = q

kover_Fits :
    (m : Option Fields) (f : FlightState) (i : Option ℕ) → Fits m f i → Fits m (kover_from f) i
kover_Fits m paused i q = q
kover_Fits m f i q = calm_lem _ _ executing _ refl q

module _ (rt : Runtime) (formats : Formats) (c : Settings) where
  abbrev Keeps : {A : Type 0} → Act Autopilot A → Autopilot → Type 0
  Keeps act s = Always AnyCall AnyCall (Ends IsWellFormed) (act s)

  any : Unit {0}
  any = tt

  log-Keeps :
      (event : String) (details : List (String × Value)) (s : Autopilot)
      → IsWellFormed s
      → Keeps (log_to_journal c event details) s
  unfolding log_to_journal
  log-Keeps event details s q = search (calls, any)

  load-Keeps : (v : Value) (s : Autopilot) → IsWellFormed s → Keeps (load_mission rt formats c v) s
  unfolding load_mission
  load-Keeps (dict m) s q = search (calls, Always-seq, log-Keeps, loaded_Fits) depth 9
  load-Keeps v s q = at_ret q

  mission_load-Keeps :
      (message : Fields) (s : Autopilot)
      → IsWellFormed s
      → Keeps (handle_mission_load rt formats c message) s
  unfolding handle_mission_load
  mission_load-Keeps message s q = search (calls, Always-lift, load-Keeps) depth 9

  -- A wait that succeeds has a mission.
  abbrev Ready : Result Bool × Autopilot → Type 0
  Ready r = IsWellFormed r.1 × (r.0 ≡ ok true → has_mission r.1 ≡ true)

  wait-Ready :
      (ms : List Fields) (s : Autopilot)
      → IsWellFormed s
      → Always AnyCall AnyCall Ready (wait_loop rt formats c ms s)
  wait-Ready [] s q = at_ret (q, λ e. ground arith)
  wait-Ready (m ∷ ms) s q =
      Always-if (has_mission s) _ _ (λ e. at_ret (q, λ _. e))
        (λ e. Always-bind _ (mission_load-Keeps m s q) (λ r p. wait-Ready ms r.1 p))

  mission_ready-Ready :
      (ms : List Fields) (s : Autopilot)
      → IsWellFormed s
      → Always AnyCall AnyCall Ready (mission_ready rt formats c ms s)
  unfolding wait_for_mission_before_start
  mission_ready-Ready ms s q =
      Always-if (has_mission s) _ _ (λ e. at_ret (q, λ _. e))
        (λ e.
          Always-if_act (float_ge (of_nat 0) c.start_mission_wait_s) _ _ s
            (λ w. at_ret (q, λ x. ground arith)) (λ w. wait-Ready ms s q))

  accept-Keeps :
      (s : Autopilot)
      → IsWellFormed s
      → has_mission s ≡ true
      → Keeps (accept_start rt formats c s) s
  accept-Keeps s q h =
      let prepared : Fits s.mission pre_flight s.current_step_index = record {
        unfinished = λ e. ground arith;
        prepared = λ e. h;
        indexed = q.indexed;
      } in
      search (calls, Always-lift, Always-seq, log-Keeps) depth 12

  started-Keeps :
      (r : Result Bool × Autopilot)
      → Ready r
      → Always AnyCall AnyCall (Ends IsWellFormed) (go_on (started rt formats c) r)
  started-Keeps (ok true, s) (q, h) = accept-Keeps s q (h refl)
  started-Keeps (ok false, s) (q, h) = at_ret q
  started-Keeps (raised e, s) (q, h) = at_ret q

  start-Keeps :
      (ms : List Fields) (s : Autopilot) → IsWellFormed s → Keeps (start_mission rt formats c ms) s
  unfolding start_mission
  start-Keeps ms s q = Always-bind _ (mission_ready-Ready ms s q) (λ r p. started-Keeps r p)

  obey-Keeps :
      (command : Command) (s : Autopilot) → IsWellFormed s → Keeps (obey rt formats c command) s
  unfolding obey
  obey-Keeps start s q = at_ret q
  obey-Keeps pause s q = at_ret (paused_Fits s.mission s.state s.current_step_index q)
  obey-Keeps resume s q = at_ret (resumed_Fits s.mission s.state s.current_step_index q)
  obey-Keeps abort s q = at_ret (calm_lem _ _ aborted _ refl q)
  obey-Keeps reset s q = at_ret (without_mission idle refl)
  obey-Keeps stop s q =
      let stopped = calm_lem s.mission s.state emergency_stop s.current_step_index refl q in
      search (calls, Always-seq, log-Keeps) depth 12
  obey-Keeps kover s q =
      let spotted = kover_Fits s.mission s.state s.current_step_index q in
      search (calls, any) depth 12

  change-Keeps :
      (old : FlightState) (command : String) (s : Autopilot)
      → IsWellFormed s
      → Keeps (log_change rt formats c old command) s
  unfolding log_change
  change-Keeps old command s q = search (calls, Always-seq, log-Keeps) depth 12

  perform-Keeps :
      (ms : List Fields) (command : String) (k : Option Command) (s : Autopilot)
      → IsWellFormed s
      → Keeps (perform rt formats c ms command k) s
  unfolding perform
  perform-Keeps ms command none s q = at_ret q
  perform-Keeps ms command (some start) s q = start-Keeps ms s q
  perform-Keeps ms command (some k) s q =
      Always-seq (obey rt formats c k) _ s (obey-Keeps k s q)
        (λ _ t r. change-Keeps s.state command t r)

  cmd-Keeps :
      (ms : List Fields) (message : Fields) (s : Autopilot)
      → IsWellFormed s
      → Keeps (handle_cmd rt formats c ms message) s
  unfolding handle_cmd
  cmd-Keeps ms message s q = search (calls, Always-lift, perform-Keeps) depth 9

  handle-Keeps :
      (ms : List Fields) (message : Fields) (s : Autopilot)
      → IsWellFormed s
      → Keeps (handle rt formats c ms message) s
  unfolding handle handlers handle_ping handle_get_status handle_get_state
  handle-Keeps ms message s q =
      handle_message-Keeps rt (component_of rt formats c) AnyCall AnyCall IsWellFormed message
        (λ s' q' topic body h. tt) (handlers rt formats c ms) s q
        (
          at_ret q,
          (at_ret q, (mission_load-Keeps message s q, (cmd-Keeps ms message s q, (at_ret q, tt)))),
        )

-- What the autopilot gets into: by messages, with those that other threads handle during a wait,
-- and by turns of the loop, in any order and with any answers.
pub data Reachable (rt : Runtime) (formats : Formats) (maths : Maths) (c : Settings)
    : Autopilot → Type 0 where
  begins : Reachable rt formats maths c initial
  runs :
      {s : Autopilot} (b : Bool)
      → Reachable rt formats maths c s
      → Reachable rt formats maths c (record s { running = b })
  handles :
      {s : Autopilot} (env : Env) (arrivals : List Fields) (message : Fields)
      → Reachable rt formats maths c s
      → Reachable rt formats maths c (run env (handle rt formats c arrivals message s)).0.1
  turns :
      {s : Autopilot} (env : Env)
      → Reachable rt formats maths c s
      → Reachable rt formats maths c (run env (turn rt maths c s)).0.1

module _ (rt : Runtime) (formats : Formats) (maths : Maths) (c : Settings) where
  -- However messages and turns of the control loop follow one another, and whatever is answered,
  -- the autopilot is never in the state COMPLETED, is in PRE_FLIGHT with a mission only, and its
  -- current step is one of the mission's.
  pub Reachable-IsWellFormed : (s : Autopilot) → Reachable rt formats maths c s → IsWellFormed s
  Reachable-IsWellFormed _ begins = without_mission idle refl
  Reachable-IsWellFormed _ (runs {s} b r) = Reachable-IsWellFormed s r
  Reachable-IsWellFormed _ (handles {s} env arrivals message r) =
      (Always-run env _
        (handle-Keeps rt formats c arrivals message s (Reachable-IsWellFormed s r))).1
  Reachable-IsWellFormed _ (turns {s} env r) =
      (Always-run env _ (turn-Keeps rt maths c s (Reachable-IsWellFormed s r))).1
