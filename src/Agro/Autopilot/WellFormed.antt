-- ===== src/Agro/Autopilot/WellFormed.antt =====
-- The control loop of the autopilot and its invariant.
use https_gitflic_ru_project.Base.{
  ℕ, suc, ◌<◌, Bool, true, false, not, leb, Option, none, some, ◌≡◌, refl, arith,
}
use https_gitflic_ru_project.Py.Value.{Value, Fields, end, field, Runtime, truthy, get}
use https_gitflic_ru_project.Py.Act.{
  ok, Act, Always, at_ret, calls, AnyCall, Ends, Always-lift, Always-seq, Always-attempt,
  Always-if_act, ◌>>◌,
}
use https_gitflic_ru_project.Py.Maths.{Maths}
use https_gitflic_ru_project.Agro.Autopilot.{idle, landing, Settings, Autopilot}
use https_gitflic_ru_project.Agro.Autopilot.Emits.{Emits, Emitting, emitting, or_return-Emitting}
use https_gitflic_ru_project.Agro.Autopilot.Steering.{
  steps_length, index_or_first, fly_to, reached, fly_step, follow, fly_mission,
}
use https_gitflic_ru_project.Agro.Autopilot.Geometry.{Position}
use https_gitflic_ru_project.Agro.Autopilot.Landing.{
  start_mission_landing, finish_landing, descend, handle_mission_landing,
}
use https_gitflic_ru_project.Agro.Autopilot.Targets.{fly_to-Emitting}
use https_gitflic_ru_project.Agro.Autopilot.Control.{
  on_released, on_cleared, preflight, land_on_spot, fly_if_loaded, step_with, step_if_known,
  step_control, poll_navigation_if_due, turn,
}
use https_gitflic_ru_project.Agro.Autopilot.Fits.{
  Fits, IsWellFormed, calm_lem, without_mission, next_Fits, first_Fits,
}

module _ (rt : Runtime) (maths : Maths) (c : Settings) where
  abbrev Keeps : Act Autopilot (Unit {0}) → Autopilot → Type 0
  Keeps act s = Emitting rt c (Unit {0}) IsWellFormed act s

  start-Keeps :
      (id : Value) (s : Autopilot) → IsWellFormed s → Keeps (start_mission_landing rt maths c id) s
  unfolding start_mission_landing
  start-Keeps id s q =
      let landed : Fits s.mission landing s.current_step_index = calm_lem _ _ landing _ refl q in
      search (emitting) depth 14

  finish-Keeps :
      (nav : Fields) (p : Position) (s : Autopilot)
      → IsWellFormed s
      → Keeps (finish_landing rt maths c nav p) s
  unfolding finish_landing
  finish-Keeps nav p s q = let over = without_mission idle refl in search (emitting) depth 14

  descend-Keeps :
      (nav : Fields) (p : Position) (s : Autopilot)
      → IsWellFormed s
      → Keeps (descend rt maths c nav p) s
  unfolding descend
  descend-Keeps nav p s q = search (emitting, finish-Keeps) depth 14

  landing-Keeps :
      (nav : Option Fields) (s : Autopilot)
      → IsWellFormed s
      → Keeps (handle_mission_landing rt maths c nav) s
  unfolding handle_mission_landing
  landing-Keeps none s q = at_ret q
  landing-Keeps (some end) s q = at_ret q
  landing-Keeps (some (field k v nav)) s q = search (or_return-Emitting, descend-Keeps)

  released-Keeps :
      (id : Value) (b : Bool) (s : Autopilot)
      → IsWellFormed s
      → Keeps (on_released rt maths c id b) s
  released-Keeps id true s q = search (emitting, calm_lem) depth 12
  released-Keeps id false s q = search (emitting, calm_lem)

  cleared-Keeps :
      (id : Value) (b : Bool) (s : Autopilot)
      → IsWellFormed s
      → Keeps (on_cleared rt maths c id b) s
  cleared-Keeps id true s q = search (emitting, released-Keeps) depth 12
  cleared-Keeps id false s q = search (emitting, calm_lem)

  preflight-Keeps : (s : Autopilot) → IsWellFormed s → Keeps (preflight rt maths c) s
  unfolding preflight
  preflight-Keeps s q = search (emitting, cleared-Keeps) depth 14

  spot-Keeps :
      (nav : Fields) (p : Position) (s : Autopilot)
      → IsWellFormed s
      → Keeps (land_on_spot rt maths c nav p) s
  unfolding land_on_spot
  spot-Keeps nav p s q = search (emitting, calm_lem) depth 14

  fly_to-Keeps :
      (nav : Fields) (p : Position) (t : Fields × Position) (s : Autopilot)
      → IsWellFormed s
      → Keeps (fly_to rt maths c nav p t) s
  fly_to-Keeps nav p t s q =
      fly_to-Emitting rt maths c (Unit {0}) IsWellFormed s (λ b. q) nav p t (λ e. tt) q

  reached-Keeps :
      (nav : Fields) (p : Position) (steps : Value) (i n : ℕ) (s : Autopilot)
      → IsWellFormed s
      → (leb (suc (suc i)) n ≡ true → Fits s.mission s.state (some (suc i)))
      → Keeps (reached rt maths c nav p steps i n) s
  unfolding reached
  reached-Keeps nav p steps i n s q r = search (emitting, fly_to-Keeps, start-Keeps) depth 14

  fly_step-Keeps :
      (nav : Fields) (steps : Value) (i n : ℕ) (t : Position × (Fields × Position)) (s : Autopilot)
      → IsWellFormed s
      → (leb (suc (suc i)) n ≡ true → Fits s.mission s.state (some (suc i)))
      → Keeps (fly_step rt maths c nav steps i n t) s
  unfolding fly_step
  fly_step-Keeps nav steps i n (p, t) s q r =
      search (emitting, reached-Keeps, fly_to-Keeps) depth 14

  -- The index of a mission that is followed is that of a step, so the branch that would complete
  -- the flight is never taken.
  follow-Keeps :
      (nav m : Fields) (i n : ℕ) (s : Autopilot)
      → s.mission ≡ some m
      → s.current_step_index ≡ some i
      → steps_length (get m "steps") ≡ ok n
      → IsWellFormed s
      → Keeps (follow rt maths c nav (get m "steps") i n) s
  unfolding follow
  follow-Keeps nav m i n s e ix l q =
      let below : i < n = q.indexed m i n e ix l in
      Always-if_act (leb n i) _ _ s (λ b. absurd (ground arith))
        (λ b.
          let next = next_Fits m i n s.mission s.state s.current_step_index e l q in
          search (emitting, or_return-Emitting, fly_step-Keeps) depth 14)

  fly_mission-Keeps :
      (nav m : Fields) (s : Autopilot)
      → s.mission ≡ some m
      → IsWellFormed s
      → Keeps (fly_mission rt maths c nav m) s
  unfolding fly_mission
  fly_mission-Keeps nav m s e q =
      Always-if_act (not (truthy (get m "steps"))) _ _ s (λ b. at_ret q)
        (λ b.
          let first = first_Fits m s.mission s.state s.current_step_index e b q in
          Always-lift (steps_length (get m "steps")) _ _ (λ x. first)
            (λ n l. follow-Keeps nav m (index_or_first s.current_step_index) n _ e refl l first))

  fly-Keeps :
      (nav : Fields) (m : Option Fields) (s : Autopilot)
      → s.mission ≡ m
      → IsWellFormed s
      → Keeps (fly_if_loaded rt maths c nav m s.state) s
  fly-Keeps nav none s e q = at_ret q
  fly-Keeps nav (some m) s e q = search (calls, fly_mission-Keeps)

  step_with-Keeps :
      (nav : Fields) (s : Autopilot) → IsWellFormed s → Keeps (step_with rt maths c nav) s
  unfolding step_with
  step_with-Keeps nav s q =
      search (calls, preflight-Keeps, landing-Keeps, or_return-Emitting, spot-Keeps, fly-Keeps)
        depth 9

  known-Keeps :
      (nav : Option Fields) (s : Autopilot)
      → IsWellFormed s
      → Keeps (step_if_known rt maths c nav) s
  known-Keeps none s q = at_ret q
  known-Keeps (some nav) s q = step_with-Keeps nav s q

  poll-Keeps : (s : Autopilot) → IsWellFormed s → Keeps (poll_navigation_if_due rt maths c) s
  unfolding poll_navigation_if_due
  poll-Keeps s q = search (emitting) depth 9

  -- Whatever it is answered, a turn of the control loop keeps the state well formed.
  pub turn-Keeps :
      (s : Autopilot)
      → IsWellFormed s
      → Always AnyCall (Emits c (Unit {0})) (Ends IsWellFormed) (turn rt maths c s)
  unfolding turn step_control
  turn-Keeps s q =
      Always-attempt IsWellFormed (poll_navigation_if_due rt maths c >> step_control rt maths c) s (
        Always-seq (poll_navigation_if_due rt maths c) _ s (poll-Keeps s q)
          (λ _ t r. known-Keeps t.last_nav_state t r))
