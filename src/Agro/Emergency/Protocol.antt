-- ===== src/Agro/Emergency/Protocol.antt =====
-- The messages of the emergency component as the security monitor handles them.
use https_gitflic_ru_project.Base.{
  String, ◌≡◌, refl, true, false, List, [], ◌∷◌, inl, inr, eq_refl, ◌==◌, ap,
}
use https_gitflic_ru_project.Py.Text.{nonempty, strip}
use https_gitflic_ru_project.Py.Value.{
  Value, text, bool, dict, Fields, end, fields_of, Runtime, get, or_else, str,
}
use https_gitflic_ru_project.Py.Act.{ok}
use https_gitflic_ru_project.Py.Run.{Env, Messages, run, run_all, bodies}
use https_gitflic_ru_project.Monitor.Policy.{is_allowed}
use https_gitflic_ru_project.Monitor.State.{
  Monitor, topic_for, isolated, mode_text, load_emergency_policies, own_event,
}
use https_gitflic_ru_project.Monitor.State.Lockdown.{lockdown_exact}
use https_gitflic_ru_project.Monitor.Handlers.{handle_isolation_start}
use https_gitflic_ru_project.Monitor.Proxy.{handle_proxy_publish}
use https_gitflic_ru_project.Monitor.Table.{handle}
use https_gitflic_ru_project.Agro.Place.{place_topic, is_trusted_sender, payload_or_empty, reply}
use https_gitflic_ru_project.Agro.Emergensy.{
  Emergensy, isolation_msg, spray_data, land_data, journal_data, command, start_protocol,
  handle_limiter_event,
}

-- A text that is not empty and has no spaces around it.
abbrev pub IsTopic : String → Type 0
IsTopic s = (strip s ≡ s) × (nonempty s ≡ true)

-- The emergency component and the monitor are of one drone: they have one prefix, the component has
-- the topic of its name, no topic has spaces around it, and automatic entries of the base class
-- are off.
pub record IsWired (m : Monitor) (e : Emergensy) : Type 0 where
  pub prefix : e.place.prefix ≡ m.prefix
  pub named : e.place.component.topic ≡ topic_for m "emergensy"
  pub emergensy : IsTopic (topic_for m "emergensy")
  pub sprayer : IsTopic (topic_for m "sprayer")
  pub motors : IsTopic (topic_for m "motors")
  pub journal : IsTopic (topic_for m "journal")
  pub quiet : nonempty m.component.journal_topic ≡ false

module _ (m : Monitor) where
  -- The entry that the monitor writes of the isolation.
  abbrev pub activated : Value × Fields
  activated = (
    text (topic_for m "journal"),
    own_event (load_emergency_policies m) "SECURITY_MONITOR_ISOLATION_ACTIVATED"
        (("mode", text (mode_text isolated)) ∷ []),
  )

  -- What the monitor sends on.
  abbrev pub forwarded_to : String → String → Fields → Value × Fields
  forwarded_to suffix action forwarded = (
    text (topic_for m suffix),
    fields_of (
        ("action", text action)
        ∷ ("sender", text m.component.topic)
        ∷ ("payload", dict forwarded)
        ∷ []),
  )

  -- The commands that reach their components, with the entry of the isolation.
  abbrev pub delivered : Fields → Messages
  delivered payload =
      activated
      ∷ forwarded_to "sprayer" "set_spray" spray_data
      ∷ forwarded_to "motors" "land" land_data
      ∷ forwarded_to "journal" "log_event"
          (journal_data (get payload "mission_id") (or_else (get payload "details") (dict end)))
      ∷ []

module _ (e : Emergensy) where
  -- What the emergency component publishes, all of it for the monitor.
  abbrev pub alarm_messages : Fields → List Fields
  alarm_messages payload =
      let mission_id = get payload "mission_id" in
      isolation_msg e mission_id
      ∷ command e "sprayer" "set_spray" spray_data
      ∷ command e "motors" "land" land_data
      ∷ command e "journal" "log_event"
          (journal_data mission_id (or_else (get payload "details") (dict end)))
      ∷ []

  abbrev addressed : List Fields → Messages
  addressed [] = []
  addressed (x ∷ l) = (text e.security_monitor_topic, x) ∷ addressed l

module _ (rt : Runtime) (e : Emergensy) where
  -- A message of the limiter that asks for an emergency landing.
  pub record IsAlarm (message : Fields) : Type 0 where
    pub trusted : is_trusted_sender e.place message ≡ true
    pub payload : Fields
    pub carries : payload_or_empty message ≡ dict payload
    pub event : str rt (or_else (get payload "event") (text "")) ≡ "EMERGENCY_LAND_REQUIRED"

module _ (rt : Runtime) (env : Env) (m : Monitor) (e : Emergensy) (wired : IsWired m e) where
  isolates :
      (mission_id : Value)
      → run env (handle rt (isolation_msg e mission_id) m)
        ≡ ((ok tt, load_emergency_policies m), activated m ∷ [])
  unfolding handle handle_isolation_start
  isolates mission_id =
      rw (wired.named, wired.emergensy.0, eq_refl (topic_for m "emergensy"), wired.quiet)
        (unfold load_emergency_policies in unfold topic_for in refl)

  same_topic : (suffix : String) → place_topic e.place suffix ≡ topic_for m suffix
  unfolding place_topic topic_for
  same_topic suffix = rw wired.prefix

  same_component : (load_emergency_policies m).component ≡ m.component
  unfolding load_emergency_policies
  same_component = refl

  forwards :
      (suffix action : String) (forwarded : Fields)
      → IsTopic (topic_for m suffix)
      → IsTopic action
      → (action == "__raw__") ≡ false
      → or_else (dict forwarded) (dict end) ≡ dict forwarded
      → is_allowed
          (load_emergency_policies m).policies
          (topic_for m "emergensy")
          (topic_for m suffix)
          action
        ≡ true
      → run env (handle rt (command e suffix action forwarded) (load_emergency_policies m))
        ≡ ((ok tt, load_emergency_policies m), forwarded_to m suffix action forwarded ∷ [])
  unfolding handle handle_proxy_publish
  forwards suffix action forwarded t a plain full allowed = rw (
    same_topic suffix,
    wired.named,
    wired.emergensy.1,
    t.0,
    t.1,
    a.0,
    a.1,
    full,
    allowed,
    plain,
    same_component,
    wired.quiet,
  )

  pub alarm_lem :
      (message : Fields) (alarm : IsAlarm rt e message)
      → run env (handle_limiter_event rt message e) ≡ (
        (ok (reply (("ok", bool true) ∷ [])), record e { active = true }),
        addressed e (alarm_messages e alarm.payload),
      )
  unfolding handle_limiter_event start_protocol
  alarm_lem message alarm = rw (alarm.trusted, alarm.carries, alarm.event)

  monitor_delivers :
      (payload : Fields)
      → run_all env (handle rt) m (alarm_messages e payload)
        ≡ (load_emergency_policies m, delivered m payload)
  monitor_delivers payload =
      let land : is_allowed (load_emergency_policies m).policies (topic_for m "emergensy")
            (topic_for m "motors") "land"
          ≡ true =
        (lockdown_exact m _ _ _).1 (refl, inr (inl (refl, refl))) in
      let spray : is_allowed (load_emergency_policies m).policies (topic_for m "emergensy")
            (topic_for m "sprayer") "set_spray"
          ≡ true =
        (lockdown_exact m _ _ _).1 (refl, inr (inr (inl (refl, refl)))) in
      let log : is_allowed (load_emergency_policies m).policies (topic_for m "emergensy")
            (topic_for m "journal") "log_event"
          ≡ true =
        (lockdown_exact m _ _ _).1 (refl, inr (inr (inr (inl (refl, refl))))) in
      rw (
        isolates (get payload "mission_id"),
        forwards "sprayer" "set_spray" spray_data wired.sprayer (unfold strip in refl, refl) refl
            refl spray,
        forwards "motors" "land" land_data wired.motors (unfold strip in refl, refl) refl refl land,
        forwards "journal" "log_event"
            (journal_data (get payload "mission_id") (or_else (get payload "details") (dict end)))
            wired.journal (unfold strip in refl, refl) refl refl log,
      )

  -- On an alarm the emergency component becomes active and sends four messages to the monitor; when
  -- the monitor has handled them, in their order and whatever its policies were, it is isolated and
  -- has sent the closing of the sprayer, the landing to the motors and the entry to the journal.
  pub emergency_protocol :
      (message : Fields) (alarm : IsAlarm rt e message)
      → ((run env (handle_limiter_event rt message e)).0
          ≡ (ok (reply (("ok", bool true) ∷ [])), record e { active = true }))
        × (run_all env (handle rt) m (bodies (run env (handle_limiter_event rt message e)).1)
            ≡ (load_emergency_policies m, delivered m alarm.payload))
  emergency_protocol message alarm = (
    ap (λ r. r.0) (alarm_lem message alarm),
    rw (alarm_lem message alarm) (monitor_delivers alarm.payload),
  )
