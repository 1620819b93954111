-- ===== src/Tests/LimiterRuns.antt =====
-- The limiter of the drone on concrete inputs.
use https_gitflic_ru_project.Base.{◌≡◌, refl, none, some, [], ◌∷◌}
use https_gitflic_ru_project.Py.Float.{of_nat}
use https_gitflic_ru_project.Py.Text.{strip}
use https_gitflic_ru_project.Py.Value.{
  float, list, dict, nil, cons, Fields, end, fields_of, find, get,
}
use https_gitflic_ru_project.Py.Act.{ok}
use https_gitflic_ru_project.Py.Run.{run, run_all, bodies}
use https_gitflic_ru_project.Monitor.Policy.{PolicyKey, is_allowed}
use https_gitflic_ru_project.Monitor.State.{Monitor, topic_for, load_emergency_policies}
use https_gitflic_ru_project.Monitor.Table.{handle}
use https_gitflic_ru_project.Agro.Emergensy.{handle_limiter_event}
use https_gitflic_ru_project.Agro.Emergency.Protocol.{delivered, forwarded_to}
use https_gitflic_ru_project.Agro.Limiter.State.{Limiter, normal, event_message}
use https_gitflic_ru_project.Agro.Limiter.Judge.{recalculate, recalculate_for}
use https_gitflic_ru_project.Agro.Limiter.Steps.{Judged, recalculate-Judged}
use https_gitflic_ru_project.Agro.Limiter.Alarm.{IsConnected, event_of, alarm_lands}
use https_gitflic_ru_project.Agro.Limiter.LastStep.{recalculate_last}
use https_gitflic_ru_project.Tests.Samples.{rt, monitor}
use https_gitflic_ru_project.Tests.AgroRuns.{maths, env, place_of, emergensy}

abbrev at : Fields
at =
    fields_of
      (("lat", float (of_nat 1)) ∷ ("lon", float (of_nat 2)) ∷ ("alt_m", float (of_nat 3)) ∷ [])

abbrev mission : Fields
mission = fields_of (("steps", list (cons (dict at) nil)) ∷ [])

abbrev longer : Fields
longer = fields_of (("steps", list (cons (dict end) (cons (dict at) nil))) ∷ [])

abbrev limiter : Limiter
limiter = record {
  place = place_of "components.Agro.limiter";
  journal_topic = "components.Agro.journal";
  navigation_action = "get_state";
  telemetry_action = "get_state";
  mission = some mission;
  last_nav = some at;
  last_telemetry = none;
  state = normal;
  max_distance = of_nat 10;
  max_alt_deviation = of_nat 3;
  nav_poll_interval = of_nat 1;
  telemetry_poll_interval = of_nat 1;
  last_nav_poll = of_nat 0;
  last_telemetry_poll = of_nat 0;
}

recalculate-Judged_example :
    Judged rt maths limiter
      (run env (recalculate rt maths limiter)).0.1
      (run env (recalculate rt maths limiter)).1
recalculate-Judged_example = recalculate-Judged rt maths env limiter

steps_of : get mission "steps" ≡ list (cons (dict at) nil)
unfolding get find
steps_of = refl

longer_steps : get longer "steps" ≡ list (cons (dict end) (cons (dict at) nil))
unfolding get find
longer_steps = refl

recalculate_last_example :
    recalculate_for rt maths (some (mission, at)) limiter
    ≡ recalculate_for rt maths (some (longer, at)) limiter
recalculate_last_example =
    recalculate_last rt maths mission longer at (dict at) (dict end) nil (cons (dict at) nil)
      limiter steps_of longer_steps refl

abbrev reporting : PolicyKey
reporting = record {
  sender = "components.Agro.limiter";
  topic = "components.Agro.emergensy";
  action = "limiter_event";
}

abbrev watched_monitor : Monitor
watched_monitor = record monitor { policies = reporting ∷ [] }

connected : IsConnected watched_monitor emergensy limiter
unfolding topic_for is_allowed strip
connected = record {
  wired = record {
    prefix = refl;
    named = refl;
    emergensy = (refl, refl);
    sprayer = (refl, refl);
    motors = (refl, refl);
    journal = (refl, refl);
    quiet = refl;
  };
  prefix = refl;
  named = refl;
  limiter = (refl, refl);
  trusts = refl;
  allowed = refl;
}

alarm_lands_example :
    (run env (handle rt (event_message limiter at) watched_monitor) ≡ (
      (ok tt, watched_monitor),
      forwarded_to watched_monitor "emergensy" "limiter_event" (event_of at) ∷ [],
    ))
    × (run_all env (handle rt) watched_monitor (
          bodies
            (run env (
              handle_limiter_event rt
                (forwarded_to watched_monitor "emergensy" "limiter_event" (event_of at)).1
                emergensy)).1)
        ≡ (load_emergency_policies watched_monitor, delivered watched_monitor (event_of at)))
alarm_lands_example = alarm_lands rt env watched_monitor emergensy limiter connected at
