-- ===== src/Agro/Limiter/Alarm.antt =====
-- The alarm of the limiter, on its way through the monitor to the emergency component and back.
use https_gitflic_ru_project.Base.{String, ◌≡◌, refl, true, [], ◌∷◌, eq_refl}
use https_gitflic_ru_project.Py.Text.{strip}
use https_gitflic_ru_project.Py.Value.{text, dict, Fields, fields_of, Runtime, get, or_else, str}
use https_gitflic_ru_project.Py.Act.{ok}
use https_gitflic_ru_project.Py.Run.{Env, run, run_all, bodies}
use https_gitflic_ru_project.Monitor.Policy.{is_allowed}
use https_gitflic_ru_project.Monitor.State.{Monitor, topic_for, load_emergency_policies}
use https_gitflic_ru_project.Monitor.Proxy.{handle_proxy_publish}
use https_gitflic_ru_project.Monitor.Table.{handle}
use https_gitflic_ru_project.Agro.Place.{place_topic, is_trusted_sender, payload_or_empty}
use https_gitflic_ru_project.Agro.Emergensy.{Emergensy, handle_limiter_event}
use https_gitflic_ru_project.Agro.Emergency.Protocol.{
  IsTopic, IsWired, delivered, forwarded_to, emergency_protocol,
}
use https_gitflic_ru_project.Agro.Limiter.State.{Limiter, event_message}

-- The limiter and the monitor are of one drone, the monitor lets the limiter report to the emergency
-- component, and this trusts the monitor.
pub record IsConnected (m : Monitor) (e : Emergensy) (s : Limiter) : Type 0 where
  pub wired : IsWired m e
  pub prefix : s.place.prefix ≡ m.prefix
  pub named : s.place.component.topic ≡ topic_for m "limiter"
  pub limiter : IsTopic (topic_for m "limiter")
  pub trusts : e.place.monitor_topic ≡ m.component.topic
  pub allowed :
      is_allowed m.policies (topic_for m "limiter") (topic_for m "emergensy") "limiter_event" ≡ true

-- What the event carries.
abbrev pub event_of : Fields → Fields
event_of details =
    fields_of (("event", text "EMERGENCY_LAND_REQUIRED") ∷ ("details", dict details) ∷ [])

module _ (rt : Runtime) (env : Env) (m : Monitor) (e : Emergensy) (s : Limiter)
    (c : IsConnected m e s) where
  same_topic : (suffix : String) → place_topic s.place suffix ≡ topic_for m suffix
  unfolding place_topic topic_for
  same_topic suffix = rw c.prefix

  monitor_forwards :
      (details : Fields)
      → run env (handle rt (event_message s details) m)
        ≡ ((ok tt, m), forwarded_to m "emergensy" "limiter_event" (event_of details) ∷ [])
  unfolding handle handle_proxy_publish
  monitor_forwards details =
      rw
        (
          same_topic "emergensy",
          c.named,
          c.limiter.1,
          c.wired.emergensy.0,
          c.wired.emergensy.1,
          c.allowed,
          c.wired.quiet,
        )
        (unfold strip in refl)

  is_trusted :
      (details : Fields)
      → is_trusted_sender e.place (forwarded_to m "emergensy" "limiter_event" (event_of details)).1
        ≡ true
  unfolding is_trusted_sender get
  is_trusted details = rw (c.trusts, eq_refl m.component.topic)

  asks_landing :
      (details : Fields)
      → str rt (or_else (get (event_of details) "event") (text "")) ≡ "EMERGENCY_LAND_REQUIRED"
  unfolding str get
  asks_landing details = refl

  carried :
      (details : Fields)
      → payload_or_empty (forwarded_to m "emergensy" "limiter_event" (event_of details)).1
        ≡ dict (event_of details)
  unfolding get
  carried details = refl

  -- When the limiter reports deviations, the monitor sends the report on to the emergency component
  -- and stays as it is; and when the monitor has handled what the emergency component sends on this
  -- report, it is isolated and has sent the closing of the sprayer, the landing to the motors and
  -- the entry to the journal.
  pub alarm_lands :
      (details : Fields)
      → (run env (handle rt (event_message s details) m)
          ≡ ((ok tt, m), forwarded_to m "emergensy" "limiter_event" (event_of details) ∷ []))
        × (run_all env (handle rt) m (
              bodies
                (run env (
                  handle_limiter_event rt
                    (forwarded_to m "emergensy" "limiter_event" (event_of details)).1
                    e)).1)
            ≡ (load_emergency_policies m, delivered m (event_of details)))
  alarm_lands details = (
    monitor_forwards details,
    (emergency_protocol rt env m e c.wired
        (forwarded_to m "emergensy" "limiter_event" (event_of details)).1
        (record {
          trusted = is_trusted details;
          payload = event_of details;
          carries = carried details;
          event = asks_landing details;
        })).1,
  )
