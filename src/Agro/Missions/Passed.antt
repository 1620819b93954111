-- ===== src/Agro/Missions/Passed.antt =====
-- What the mission handler passes on, and what it keeps.
use https_gitflic_ru_project.Base.{String, ◌≡◌, refl, Option, none, some, List, [], ◌∷◌}
use https_gitflic_ru_project.Py.Text.{nonempty}
use https_gitflic_ru_project.Py.Value.{Value, text, Items, nil, cons, Fields, Runtime, get}
use https_gitflic_ru_project.Py.Act.{
  Always, at_ret, at_ask, calls, Ends, Always-lift, Always-seq, Always-if_act,
}
use https_gitflic_ru_project.Sdk.Component.{handle_ping, handle_get_status}
use https_gitflic_ru_project.Sdk.Component.Calls.{handle_message-Keeps}
use https_gitflic_ru_project.Agro.Missions.Wpl.{
  Formats, Parsed, parsed, failed, parse_wpl, parse_text, with_waypoints,
}
use https_gitflic_ru_project.Agro.Missions.{
  MissionHandler, component_of, log_to_journal, mission_request, send_mission, load_valid,
  load_parsed, load, handle_load_mission, checked_only, check_only, answer_check, pass_on,
  handle_validate_only, handle_get_state, handlers, handle, actions, required, prefix_of,
}
use https_gitflic_ru_project.Agro.Missions.Check.{validate_mission}
use https_gitflic_ru_project.Agro.Missions.Valid.{IsMission, validate_mission_iff}
use https_gitflic_ru_project.Agro.Missions.Reports.{
  LastIsMission, Kept, PassesMission, Reports, Keeps, log-Keeps, same_but_error, invalid-Keeps,
  ok_or_not-Keeps, services,
}

module _ (rt : Runtime) (formats : Formats) (message : Fields) (h : MissionHandler) where
  -- The request, in terms of the fields that do not change.
  passes :
      (s : MissionHandler) (mission : Fields)
      → Kept h s
      → IsMission mission
      → PassesMission h (text s.place.monitor_topic) (mission_request s mission)
  passes s mission q valid = record {
    to = rw q.place;
    mission = mission;
    valid = valid;
    carries = rw (q.place, q.autopilot);
  }

  remembers :
      (s : MissionHandler) (mission : Fields)
      → Kept h s
      → IsMission mission
      → Kept h (record s { last_mission = some mission; last_error = none })
  remembers s mission q valid = record {
    place = q.place;
    autopilot = q.autopilot;
    journal = q.journal;
    last = valid;
  }

  pass_on-Keeps :
      (mission : Fields) (s : MissionHandler)
      → Kept h s
      → IsMission mission
      → Keeps rt formats message h (pass_on rt formats mission) s
  unfolding pass_on
  pass_on-Keeps mission s q valid =
      at_ask (passes s mission q valid)
        (λ response. ok_or_not-Keeps rt formats message h (get mission "mission_id") response s q)

  send_mission-Keeps :
      (mission : Fields) (s : MissionHandler)
      → Kept h s
      → IsMission mission
      → Keeps rt formats message h (send_mission rt formats mission) s
  unfolding send_mission
  send_mission-Keeps mission s q valid =
      Always-seq
        (log_to_journal "MISSION_HANDLER_MISSION_RECEIVED"
          (("mission_id", get mission "mission_id") ∷ []))
        (λ _. pass_on rt formats mission)
        (record s { last_mission = some mission; last_error = none })
        (log-Keeps rt formats message h "MISSION_HANDLER_MISSION_RECEIVED"
          (("mission_id", get mission "mission_id") ∷ []) _ (remembers s mission q valid))
        (λ a t r. pass_on-Keeps mission t r valid)

  load_valid-Keeps :
      (mission : Fields) (error : Option String) (s : MissionHandler)
      → Kept h s
      → validate_mission formats mission ≡ error
      → Keeps rt formats message h (load_valid rt formats mission error) s
  unfolding load_valid
  load_valid-Keeps mission (some error) s q e =
      invalid-Keeps rt formats message h error
        (("error", text error) ∷ ("mission_id", get mission "mission_id") ∷ []) s q
  load_valid-Keeps mission none s q e =
      send_mission-Keeps mission s q ((validate_mission_iff formats mission).0 e)

  load_parsed-Keeps :
      (wpl : String) (p : Parsed Fields) (s : MissionHandler)
      → Kept h s
      → Keeps rt formats message h (load_parsed rt formats wpl p) s
  unfolding load_parsed
  load_parsed-Keeps wpl (failed error) s q =
      invalid-Keeps rt formats message h error
        (("error", text error) ∷ ("wpl_preview", text (prefix_of 200 wpl)) ∷ []) s q
  load_parsed-Keeps wpl (parsed mission) s q = load_valid-Keeps mission _ s q refl

  answer_check-Keeps :
      (error : Option String) (s : MissionHandler)
      → Kept h s
      → Keeps rt formats message h (answer_check error) s
  answer_check-Keeps none s q = at_ret (same_but_error rt formats message h s none q)
  answer_check-Keeps (some error) s q =
      invalid-Keeps rt formats message h error (("error", text error) ∷ []) s q

  checked_only-Keeps :
      (p : Parsed Fields) (s : MissionHandler)
      → Kept h s
      → Keeps rt formats message h (checked_only rt formats p) s
  unfolding checked_only
  checked_only-Keeps (failed error) s q =
      invalid-Keeps rt formats message h error (("error", text error) ∷ []) s q
  checked_only-Keeps (parsed mission) s q =
      answer_check-Keeps (validate_mission formats mission) s q

  -- The parser reads no field and at most the clock.
  with_waypoints-Keeps :
      (mission_id : Value) (p : Parsed (Items × Value)) (s : MissionHandler)
      → Kept h s
      → Keeps rt formats message h (with_waypoints rt formats mission_id p) s
  unfolding with_waypoints
  with_waypoints-Keeps mission_id (failed error) s q = at_ret q
  with_waypoints-Keeps mission_id (parsed (nil, home)) s q = at_ret q
  with_waypoints-Keeps mission_id (parsed (cons v vs, home)) s q =
      search (calls, Always-seq) depth 9

  parse_text-Keeps :
      (mission_id : Value) (lines : List String) (s : MissionHandler)
      → Kept h s
      → Keeps rt formats message h (parse_text rt formats mission_id lines) s
  unfolding parse_text
  parse_text-Keeps mission_id [] s q = at_ret q
  parse_text-Keeps mission_id (header ∷ lines) s q =
      search (calls, Always-lift, with_waypoints-Keeps) depth 9

  parse_wpl-Keeps :
      (wpl : String) (mission_id : Value) (s : MissionHandler)
      → Kept h s
      → Keeps rt formats message h (parse_wpl rt formats wpl mission_id) s
  unfolding parse_wpl
  parse_wpl-Keeps wpl mission_id s q = search (calls, parse_text-Keeps) depth 9

  load-Keeps :
      (mission_id wpl : Value) (s : MissionHandler)
      → Kept h s
      → Keeps rt formats message h (load rt formats mission_id wpl) s
  unfolding load
  load-Keeps mission_id (text wpl) s q =
      Always-if_act (nonempty wpl) _ _ s
        (λ b.
          Always-seq (parse_wpl rt formats wpl mission_id) (load_parsed rt formats wpl) s
            (parse_wpl-Keeps wpl mission_id s q) (λ p t r. load_parsed-Keeps wpl p t r))
        (λ b. invalid-Keeps rt formats message h required (("error", text required) ∷ []) s q)
  load-Keeps mission_id v s q =
      invalid-Keeps rt formats message h required (("error", text required) ∷ []) s q

  check_only-Keeps :
      (mission_id wpl : Value) (s : MissionHandler)
      → Kept h s
      → Keeps rt formats message h (check_only rt formats mission_id wpl) s
  unfolding check_only
  check_only-Keeps mission_id (text wpl) s q =
      Always-if_act (nonempty wpl) _ _ s
        (λ b.
          Always-seq (parse_wpl rt formats wpl mission_id) (checked_only rt formats) s
            (parse_wpl-Keeps wpl mission_id s q) (λ p t r. checked_only-Keeps p t r))
        (λ b. invalid-Keeps rt formats message h required (("error", text required) ∷ []) s q)
  check_only-Keeps mission_id v s q =
      invalid-Keeps rt formats message h required (("error", text required) ∷ []) s q

  handle_load_mission-Keeps :
      (s : MissionHandler)
      → Kept h s
      → Keeps rt formats message h (handle_load_mission rt formats message) s
  unfolding handle_load_mission
  handle_load_mission-Keeps s q = search (calls, load-Keeps) depth 9

  handle_validate_only-Keeps :
      (s : MissionHandler)
      → Kept h s
      → Keeps rt formats message h (handle_validate_only rt formats message) s
  unfolding handle_validate_only
  handle_validate_only-Keeps s q = search (calls, check_only-Keeps) depth 9

  handle_get_state-Keeps :
      (s : MissionHandler)
      → Kept h s
      → Keeps rt formats message h (handle_get_state rt formats message) s
  unfolding handle_get_state
  handle_get_state-Keeps s q = at_ret q

  ping-Keeps :
      (s : MissionHandler)
      → Kept h s
      → Keeps rt formats message h (handle_ping component_of message) s
  unfolding handle_ping
  ping-Keeps s q = at_ret q

  status-Keeps :
      (s : MissionHandler)
      → Kept h s
      → Keeps rt formats message h (handle_get_status component_of (actions rt formats) message) s
  unfolding handle_get_status
  status-Keeps s q = at_ret q

  -- Whatever a message is, and whatever is answered: only valid missions are passed on to the
  -- autopilot, what else is sent are entries for the journal, answers and dead letters, and the
  -- mission that is kept stays a valid one.
  pub handle_passes_missions :
      LastIsMission h.last_mission
      → Always (PassesMission h) (Reports h message) (Ends (Kept h)) (handle rt formats message h)
  unfolding handle handlers
  handle_passes_missions last =
      let q : Kept h h = record { place = refl; autopilot = refl; journal = refl; last = last } in
      handle_message-Keeps rt component_of (PassesMission h) (Reports h message) (Kept h) message
        (λ s r topic body service. services s topic body r service) (handlers rt formats) h q
        (
          ping-Keeps h q,
          (
            status-Keeps h q,
            (
              handle_load_mission-Keeps h q,
              (handle_validate_only-Keeps h q, (handle_get_state-Keeps h q, tt)),
            ),
          ),
        )
