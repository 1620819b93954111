-- ===== src/Agro/Autopilot/Stopped.antt =====
-- What the autopilot does after the command EMERGENCY_STOP.
use https_gitflic_ru_project.Base.{
  String, Bool, true, false, not, Option, none, some, List, [], ◌∷◌, ◌≡◌, refl, arith,
}
use https_gitflic_ru_project.Py.Value.{Value, text, Fields, Runtime}
use https_gitflic_ru_project.Py.Act.{
  Result, ok, Act, Always, at_ret, calls, AnyCall, Ends, Always-seq, Always-if_act, Always-attempt,
  Always-result, ◌>>◌,
}
use https_gitflic_ru_project.Py.Maths.{Maths}
use https_gitflic_ru_project.Py.Read.{as_dict}
use https_gitflic_ru_project.Agro.Place.{proxied, entry, is_trusted_sender, payload_or_empty}
use https_gitflic_ru_project.Agro.Missions.Wpl.{Formats}
use https_gitflic_ru_project.Agro.Autopilot.{emergency_stop, Settings, Autopilot, log_to_journal}
use https_gitflic_ru_project.Agro.Autopilot.Commands.{
  Command, stop, command_of, command_text, obey, log_change, perform, handle_cmd,
}
use https_gitflic_ru_project.Agro.Autopilot.Steering.{is_flying}
use https_gitflic_ru_project.Agro.Autopilot.Control.{
  is_pre_flight, fly_if_loaded, step_with, step_if_known, step_control, poll_navigation_if_due,
  turn, control_loop,
}

-- Stopped, with nothing that goes on in spite of it.
abbrev pub IsStopped : Autopilot → Type 0
IsStopped s = (s.state ≡ emergency_stop) × (s.landing_active ≡ false) × (s.kover_active ≡ false)

-- An entry for the journal.
pub data IsEntry (c : Settings) : Value → Fields → Type 0 where
  journals :
      (event : String) (details : Fields)
      → IsEntry c (text c.place.monitor_topic) (
          proxied "proxy_publish" c.place c.journal_topic "log_event"
            (entry event "autopilot" details))

module _ (rt : Runtime) (maths : Maths) (c : Settings) where
  abbrev Silent : Act Autopilot (Unit {0}) → Autopilot → Type 0
  Silent act s = Always AnyCall (λ topic m. ⊥) (Ends IsStopped) (act s)

  any : Unit {0}
  any = tt

  fly-Silent :
      (nav : Fields) (m : Option Fields) (s : Autopilot)
      → IsStopped s
      → Silent (fly_if_loaded rt maths c nav m s.state) s
  fly-Silent nav none s q = at_ret q
  fly-Silent nav (some m) s q =
      Always-if_act (not (is_flying s.state)) _ _ s (λ e. at_ret q) (λ e. absurd (ground arith))

  step-Silent :
      (nav : Option Fields) (s : Autopilot) → IsStopped s → Silent (step_if_known rt maths c nav) s
  unfolding step_with
  step-Silent none s q = at_ret q
  step-Silent (some nav) s q =
      Always-if_act (is_pre_flight s.state) _ _ s (λ e. absurd (ground arith))
        (λ e.
          Always-if_act s.landing_active _ _ s (λ l. absurd (ground arith))
            (λ l.
              Always-if_act s.kover_active _ _ s (λ k. absurd (ground arith))
                (λ k. fly-Silent nav s.mission s q)))

  poll-Silent : (s : Autopilot) → IsStopped s → Silent (poll_navigation_if_due rt maths c) s
  unfolding poll_navigation_if_due
  poll-Silent s q = search (calls, any) depth 9

  turn-Silent : (s : Autopilot) → IsStopped s → Silent (turn rt maths c) s
  unfolding turn step_control
  turn-Silent s q =
      Always-attempt IsStopped (poll_navigation_if_due rt maths c >> step_control rt maths c) s (
        Always-seq (poll_navigation_if_due rt maths c) _ s (poll-Silent s q)
          (λ _ t r. step-Silent t.last_nav_state t r))

  loop-Silent :
      (turns : List Bool) (s : Autopilot) → IsStopped s → Silent (control_loop rt maths c turns) s
  unfolding control_loop
  loop-Silent [] s q = at_ret q
  loop-Silent (false ∷ turns) s q = at_ret q
  loop-Silent (true ∷ turns) s q =
      Always-seq (turn rt maths c) _ s (turn-Silent s q) (λ _ t r. loop-Silent turns t r)

-- The command has left the autopilot stopped, and then a control loop of these turns, whatever it is
-- answered, publishes nothing at all and leaves it stopped.
abbrev pub StaysSilent :
    {A : Type 0} → Runtime → Maths → Settings → List Bool → Result A × Autopilot → Type 0
StaysSilent rt maths c turns r =
    IsStopped r.1
    × Always AnyCall (λ topic m. ⊥) (Ends IsStopped) (control_loop rt maths c turns r.1)

module _ (rt : Runtime) (formats : Formats) (maths : Maths) (c : Settings) where
  log-IsStopped :
      (event : String) (details : List (String × Value)) (s : Autopilot)
      → IsStopped s
      → Always AnyCall (IsEntry c) (Ends IsStopped) (log_to_journal c event details s)
  unfolding log_to_journal
  log-IsStopped event details s q = search (calls, journals)

  stop-IsStopped :
      (arrivals : List Fields) (command : String) (k : Option Command) (s : Autopilot)
      → k ≡ some stop
      → s.landing_active ≡ false
      → s.kover_active ≡ false
      → Always AnyCall (IsEntry c) (Ends IsStopped) (perform rt formats c arrivals command k s)
  unfolding perform obey log_change
  stop-IsStopped arrivals command k s e l a =
      rw e (search (calls, journals, Always-seq, log-IsStopped, refl) depth 14)

  cmd-IsStopped :
      (arrivals : List Fields) (message payload : Fields) (s : Autopilot)
      → is_trusted_sender c.place message ≡ true
      → as_dict (payload_or_empty message) ≡ ok payload
      → command_of (command_text rt formats c payload) ≡ some stop
      → s.landing_active ≡ false
      → s.kover_active ≡ false
      → Always AnyCall (IsEntry c) (Ends IsStopped) (handle_cmd rt formats c arrivals message s)
  unfolding handle_cmd
  cmd-IsStopped arrivals message payload s trusted read_in stops l k =
      rw (trusted, read_in)
        (stop-IsStopped arrivals (command_text rt formats c payload) _ s stops l k)

  -- A trusted EMERGENCY_STOP in a flight that neither lands nor carries out KOVER publishes only
  -- entries for the journal and enters the state EMERGENCY_STOP; however many turns of the control
  -- loop follow, and whatever they are answered, these publish nothing at all, not even an entry,
  -- and leave the state EMERGENCY_STOP.
  pub stop_silences :
      (arrivals : List Fields) (message payload : Fields) (turns : List Bool) (s : Autopilot)
      → is_trusted_sender c.place message ≡ true
      → as_dict (payload_or_empty message) ≡ ok payload
      → command_of (command_text rt formats c payload) ≡ some stop
      → s.landing_active ≡ false
      → s.kover_active ≡ false
      → Always AnyCall
          (IsEntry c)
          (StaysSilent rt maths c turns)
          (handle_cmd rt formats c arrivals message s)
  stop_silences arrivals message payload turns s trusted read_in stops l k =
      Always-result (λ r q. (q, loop-Silent rt maths c turns r.1 q))
        (cmd-IsStopped arrivals message payload s trusted read_in stops l k)
