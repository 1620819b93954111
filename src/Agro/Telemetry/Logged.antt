-- ===== src/Agro/Telemetry/Logged.antt =====
-- How often the telemetry writes to the journal.
use https_gitflic_ru_project.Base.{
  String, ◌==◌, ◌≡◌, refl, ◌∙◌, ◌⊎◌, inl, inr, Bool, true, false, not, ◌&&◌, ◌||◌, Option, List, [],
  ◌∷◌, ◌≤◌, length, Bool-cases, arith,
}
use https_gitflic_ru_project.Py.Text.{is_some}
use https_gitflic_ru_project.Py.Maths.{Maths}
use https_gitflic_ru_project.Py.Value.{Value, bool, text, Fields, end, fields_of, Runtime}
use https_gitflic_ru_project.Py.Act.{attempt, ◌>>◌}
use https_gitflic_ru_project.Py.Run.{Env, Messages, run}
use https_gitflic_ru_project.Agro.Place.{place_topic, proxied, entry, publish_journal_event}
use https_gitflic_ru_project.Agro.ProxyReply.{unwrap_proxy_target_response}
use https_gitflic_ru_project.Agro.Telemetry.{
  Telemetry, proxy_get_state, log_first, poll_once, poll_loop, collect, state_in,
}

contradicts : (x b : Bool) → b ≡ true → (x && not b) ≡ true → ⊥
contradicts x b h k = ground arith

module _ (rt : Runtime) (maths : Maths) (env : Env) where
  abbrev sent_by : List Bool → Telemetry → Messages
  sent_by runs s = (run env (poll_loop rt maths runs s)).1

  -- The messages of a turn that has found these states, and of the turns after it.
  abbrev sent_after :
      Option Fields → Option Fields → Option Fields → List Bool → Telemetry → Messages
  sent_after motors sprayer navigation runs s =
      (run env
        ((attempt (log_first rt maths motors sprayer navigation) >> poll_loop rt maths runs) s)).1

  module _ (motors sprayer navigation : Option Fields) (runs : List Bool) (s : Telemetry) where
    abbrev first_found : Bool
    first_found = (is_some motors || is_some sprayer || is_some navigation) && not s.logged

    abbrev first_entry : Value × Fields
    first_entry = (
      text (place_topic s.place "security_monitor"),
      proxied "proxy_publish" s.place (place_topic s.place "journal") "log_event" (
          entry "TELEMETRY_AGGREGATE_FIRST_OK" "telemetry" (
            fields_of (
              ("motors_ok", bool (is_some motors))
              ∷ ("sprayer_ok", bool (is_some sprayer))
              ∷ ("navigation_ok", bool (is_some navigation))
              ∷ []))),
    )

    one_or_none :
        (first_found ≡ false × (sent_after motors sprayer navigation runs s ≡ sent_by runs s))
        ⊎ (first_found ≡ true
            × (sent_after motors sprayer navigation runs s
                ≡ first_entry ∷ sent_by runs (record s { logged = true })))
    unfolding log_first publish_journal_event
    one_or_none = elim (Bool-cases first_found) [
      | inl e ↦ inr (e, rw (sent_after, run, e) refl)
      | inr e ↦ inl (e, rw (sent_after, run, e) refl)
    ]

  -- What a turn finds of a component, and the fields after it.
  abbrev found : String → String → Telemetry → Option Fields
  found target_topic target_action s = state_in (target_topic == s.navigation_topic) (
      unwrap_proxy_target_response (
        env.answer (text s.place.monitor_topic)
          (proxied "proxy_request" s.place target_topic target_action end)))

  abbrev motors_of : Telemetry → Option Fields
  motors_of s = found s.motors_topic s.motors_action s

  abbrev sprayer_of : Telemetry → Option Fields
  sprayer_of s = found s.sprayer_topic s.sprayer_action s

  abbrev navigation_of : Telemetry → Option Fields
  navigation_of s = found s.navigation_topic "get_state" s

  abbrev polled : Telemetry → Telemetry
  polled s = collect rt maths (motors_of s) (sprayer_of s) (navigation_of s) env.clock s

  sent_after_none :
      (motors sprayer navigation : Option Fields) (runs : List Bool) (s : Telemetry)
      → s.logged ≡ true
      → sent_by runs s ≡ []
      → sent_after motors sprayer navigation runs s ≡ []
  sent_after_none motors sprayer navigation runs s h rest =
      elim (one_or_none motors sprayer navigation runs s) [
        | inl none ↦ none.1 ∙ rest
        | inr one ↦ elim (contradicts _ s.logged h one.0) [ ]
      ]

  -- Nothing more is written once the entry is.
  sent_by_none : (runs : List Bool) (s : Telemetry) → s.logged ≡ true → sent_by runs s ≡ []
  unfolding poll_loop poll_once proxy_get_state
  sent_by_none [] s h = refl
  sent_by_none (false ∷ runs) s h = refl
  sent_by_none (true ∷ runs) s h =
      sent_after_none (motors_of s) (sprayer_of s) (navigation_of s) runs (polled s) h
        (sent_by_none runs (polled s) h)

  sent_after_one :
      (motors sprayer navigation : Option Fields) (runs : List Bool) (s : Telemetry)
      → length (sent_by runs s) ≤ 1
      → length (sent_after motors sprayer navigation runs s) ≤ 1
  sent_after_one motors sprayer navigation runs s rest =
      elim (one_or_none motors sprayer navigation runs s) [
        | inl none ↦ rw none.1 rest
        | inr one ↦ rw (one.1, sent_by_none runs (record s { logged = true }) refl) (omega arith)
      ]

  -- However many turns the loop makes and whatever is answered, it publishes at most one message,
  -- the entry for the first poll that found a state.
  pub poll_loop_logs_once :
      (runs : List Bool) (s : Telemetry) → length (run env (poll_loop rt maths runs s)).1 ≤ 1
  unfolding poll_loop poll_once proxy_get_state
  poll_loop_logs_once [] s = omega arith
  poll_loop_logs_once (false ∷ runs) s = omega arith
  poll_loop_logs_once (true ∷ runs) s =
      sent_after_one (motors_of s) (sprayer_of s) (navigation_of s) runs (polled s)
        (poll_loop_logs_once runs (polled s))
