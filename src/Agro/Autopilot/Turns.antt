-- ===== src/Agro/Autopilot/Turns.antt =====
-- What a turn of the control loop publishes, and when the sprayer may be open.
use https_gitflic_ru_project.Base.{
  ℕ, Bool, true, false, not, Option, none, some, ◌≡◌, refl, arith, sym, ◌∙◌,
}
use https_gitflic_ru_project.Py.Value.{Value, Fields, end, field, Runtime}
use https_gitflic_ru_project.Py.Act.{
  Act, Always, at_ret, calls, AnyCall, Ends, Always-if_act, Always-then, Always-attempt,
  Always-weaken, ◌>>◌,
}
use https_gitflic_ru_project.Py.Maths.{Maths}
use https_gitflic_ru_project.Agro.Autopilot.{FlightState, executing, Settings, Autopilot}
use https_gitflic_ru_project.Agro.Autopilot.Geometry.{Position, landing_position}
use https_gitflic_ru_project.Agro.Autopilot.Landing.{
  start_mission_landing, finish_landing, descend, handle_mission_landing,
}
use https_gitflic_ru_project.Agro.Autopilot.Steering.{
  is_paused, is_flying, fly_to, reached, fly_step, follow, fly_mission,
}
use https_gitflic_ru_project.Agro.Autopilot.Control.{
  on_released, on_cleared, preflight, land_on_spot, step_with, step_control, fly_if_loaded,
  step_if_known, is_pre_flight, poll_navigation_if_due, turn,
}
use https_gitflic_ru_project.Agro.Autopilot.Emits.{
  Emits, steers, sprays, journals, notifies, Emitting, emitting, or_return-Emitting,
}
use https_gitflic_ru_project.Agro.Autopilot.Targets.{fly_to-Emitting}

module _ (rt : Runtime) (maths : Maths) (c : Settings) (spraying : Type 0) where
  abbrev Turn : {A : Type 0} → Act Autopilot A → Autopilot → Type 0
  Turn act s = Emitting rt c spraying (λ t. Unit {0}) act s

  any : Unit {0}
  any = tt

  released-Turn : (id : Value) (b : Bool) (s : Autopilot) → Turn (on_released rt maths c id b) s
  released-Turn id true s = search (emitting, any) depth 12
  released-Turn id false s = at_ret tt

  cleared-Turn : (id : Value) (b : Bool) (s : Autopilot) → Turn (on_cleared rt maths c id b) s
  cleared-Turn id true s = search (emitting, any, released-Turn) depth 12
  cleared-Turn id false s = at_ret tt

  preflight-Turn : (s : Autopilot) → Turn (preflight rt maths c) s
  unfolding preflight
  preflight-Turn s = search (emitting, any, cleared-Turn) depth 14

  start-Turn : (id : Value) (s : Autopilot) → Turn (start_mission_landing rt maths c id) s
  unfolding start_mission_landing
  start-Turn id s = search (emitting, any) depth 14

  finish-Turn :
      (nav : Fields) (p : Position) (s : Autopilot) → Turn (finish_landing rt maths c nav p) s
  unfolding finish_landing
  finish-Turn nav p s = search (emitting, any) depth 14

  descend-Turn : (nav : Fields) (p : Position) (s : Autopilot) → Turn (descend rt maths c nav p) s
  unfolding descend
  descend-Turn nav p s = search (emitting, any, finish-Turn) depth 14

  landing-Turn :
      (nav : Option Fields) (s : Autopilot) → Turn (handle_mission_landing rt maths c nav) s
  unfolding handle_mission_landing
  landing-Turn none s = at_ret tt
  landing-Turn (some end) s = at_ret tt
  landing-Turn (some (field k v nav)) s = search (or_return-Emitting, descend-Turn)

  spot-Turn : (nav : Fields) (p : Position) (s : Autopilot) → Turn (land_on_spot rt maths c nav p) s
  unfolding land_on_spot
  spot-Turn nav p s = search (emitting, any) depth 14

  fly_to-Turn :
      (nav : Fields) (p : Position) (t : Fields × Position) (s : Autopilot)
      → (is_paused s.state ≡ false → spraying)
      → Turn (fly_to rt maths c nav p t) s
  fly_to-Turn nav p t s h =
      fly_to-Emitting rt maths c spraying (λ _. Unit {0}) s (λ b. tt) nav p t h tt

  reached-Turn :
      (nav : Fields) (p : Position) (steps : Value) (i n : ℕ) (s : Autopilot)
      → (is_paused s.state ≡ false → spraying)
      → Turn (reached rt maths c nav p steps i n) s
  unfolding reached
  reached-Turn nav p steps i n s h =
      search (emitting, any, or_return-Emitting, fly_to-Turn, start-Turn) depth 14

  fly_step-Turn :
      (nav : Fields) (steps : Value) (i n : ℕ) (t : Position × (Fields × Position)) (s : Autopilot)
      → (is_paused s.state ≡ false → spraying)
      → Turn (fly_step rt maths c nav steps i n t) s
  unfolding fly_step
  fly_step-Turn nav steps i n (p, t) s h =
      search (emitting, any, reached-Turn, fly_to-Turn) depth 14

  follow-Turn :
      (nav : Fields) (steps : Value) (i n : ℕ) (s : Autopilot)
      → (is_paused s.state ≡ false → spraying)
      → Turn (follow rt maths c nav steps i n) s
  unfolding follow
  follow-Turn nav steps i n s h = search (emitting, any, or_return-Emitting, fly_step-Turn) depth 14

  fly_mission-Turn :
      (nav m : Fields) (s : Autopilot)
      → (is_paused s.state ≡ false → spraying)
      → Turn (fly_mission rt maths c nav m) s
  unfolding fly_mission
  fly_mission-Turn nav m s h = search (emitting, any, follow-Turn) depth 14

-- Where the sprayer may be open.
abbrev pub MaySpray : Autopilot → Type 0
MaySpray s = (s.state ≡ executing) × (s.landing_active ≡ false) × (s.kover_active ≡ false)

executing_lem : (f : FlightState) → not (is_flying f) ≡ false → is_paused f ≡ false → f ≡ executing
executing_lem f a b = ground arith

-- The fields that decide what a turn does, in both states.
abbrev pub SameMode : Autopilot → Autopilot → Type 0
SameMode s t =
    (t.state ≡ s.state) × (t.landing_active ≡ s.landing_active) × (t.kover_active ≡ s.kover_active)

module _ (rt : Runtime) (maths : Maths) (c : Settings) where
  abbrev Lawful : Act Autopilot (Unit {0}) → Autopilot → Type 0
  Lawful act s = Always AnyCall (Emits c (MaySpray s)) (Ends (λ t. Unit {0})) (act s)

  fly-Emits :
      (nav : Fields) (m : Option Fields) (s : Autopilot)
      → s.landing_active ≡ false
      → s.kover_active ≡ false
      → Lawful (fly_if_loaded rt maths c nav m s.state) s
  fly-Emits nav none s l k = at_ret tt
  fly-Emits nav (some m) s l k =
      Always-if_act (not (is_flying s.state)) _ _ s (λ e. at_ret tt)
        (λ e.
          fly_mission-Turn rt maths c (MaySpray s) nav m s (λ p. (executing_lem s.state e p, l, k)))

  step_with-Emits : (nav : Fields) (s : Autopilot) → Lawful (step_with rt maths c nav) s
  unfolding step_with
  step_with-Emits nav s =
      Always-if_act (is_pre_flight s.state) _ _ s (λ e. preflight-Turn rt maths c (MaySpray s) s)
        (λ e.
          Always-if_act s.landing_active _ _ s
            (λ l. landing-Turn rt maths c (MaySpray s) (some nav) s)
            (λ l.
              Always-if_act s.kover_active _ _ s
                (λ k.
                  or_return-Emitting rt c (MaySpray s) (λ t. Unit {0}) (landing_position rt nav) _ s
                    tt (λ p q. spot-Turn rt maths c (MaySpray s) nav p s))
                (λ k. fly-Emits nav s.mission s l k)))

  known-Emits : (nav : Option Fields) (s : Autopilot) → Lawful (step_if_known rt maths c nav) s
  known-Emits none s = at_ret tt
  known-Emits (some nav) s = step_with-Emits nav s

  step_control-Emits : (s : Autopilot) → Lawful (step_control rt maths c) s
  unfolding step_control
  step_control-Emits s = known-Emits s.last_nav_state s

  same : (s : Autopilot) → SameMode s s
  same s = (refl, refl, refl)

  poll-SameMode :
      {Pub : Value → Fields → Type 0} (s : Autopilot)
      → Always AnyCall Pub (Ends (SameMode s)) (poll_navigation_if_due rt maths c s)
  unfolding poll_navigation_if_due
  poll-SameMode {Pub} s = search (calls, same s) depth 9

  Emits-kept :
      (s t : Autopilot)
      → SameMode s t
      → (topic : Value) (m : Fields) → Emits c (MaySpray t) topic m
      → Emits c (MaySpray s) topic m
  Emits-kept s t (a, l, k) _ _ (steers target w h) =
      steers target w (λ d. (sym a ∙ (h d).0, sym l ∙ (h d).1, sym k ∙ (h d).2))
  Emits-kept s t (a, l, k) _ _ (sprays b h) =
      sprays b (λ d. (sym a ∙ (h d).0, sym l ∙ (h d).1, sym k ∙ (h d).2))
  Emits-kept s t q _ _ (journals event details) = journals event details
  Emits-kept s t q _ _ (notifies event details) = notifies event details

  -- However the other components answer, a turn of the control loop publishes nothing but entries
  -- for the journal, events for the ground station, targets for the motors whose vertical speed is
  -- at most 3 m/s either way, and orders to the sprayer; and a target drops or an order opens the
  -- sprayer only where the turn began in the state EXECUTING, with no landing and no KOVER active.
  pub turn-Emits : (s : Autopilot) → Lawful (turn rt maths c) s
  unfolding turn
  turn-Emits s =
      Always-attempt (λ t. Unit {0}) (poll_navigation_if_due rt maths c >> step_control rt maths c)
        s
        (Always-then (poll_navigation_if_due rt maths c) _ s (λ t q. tt) (poll-SameMode s)
          (λ _ t q. Always-weaken (Emits-kept s t q) (step_control-Emits t)))
