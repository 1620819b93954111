-- ===== src/Agro/Autopilot/Commands.antt =====
-- The handlers of the autopilot: the mission, the commands of the station and the state.
use https_gitflic_ru_project.Base.{
  ℕ, String, Bool, true, false, not, Option, none, some, List, [], ◌∷◌, ◌==◌, if◌then◌else◌,
}
use https_gitflic_ru_project.Py.Float.{of_nat, float_ge}
use https_gitflic_ru_project.Py.Value.{
  Value, null, bool, int, pos, float, text, list, dict, Fields, Runtime, get, or_else, truthy, str,
}
use https_gitflic_ru_project.Py.Act.{Act, bind, pure, lift, read, write, ◌>>=◌, ◌>>◌}
use https_gitflic_ru_project.Py.Read.{as_dict, items_count}
use https_gitflic_ru_project.Sdk.Component.{
  Component, Handler, Handlers, register_handler, handle_ping, handle_get_status, handle_message,
}
use https_gitflic_ru_project.Agro.Place.{is_trusted_sender, payload_or_empty, reply}
use https_gitflic_ru_project.Agro.Missions.Wpl.{Formats}
use https_gitflic_ru_project.Agro.Autopilot.{
  FlightState, idle, mission_loaded, pre_flight, executing, paused, aborted, emergency_stop,
  state_text, Settings, Autopilot, has_mission, mission_field, mission_id_or_none, log_to_journal,
}

-- The commands, as `command` compares them.
pub data Command : Type 0 where
  start pause resume abort reset stop kover : Command

abbrev pub command_of : String → Option Command
command_of command =
    if command == "START"
    then some start
    else if command == "PAUSE"
    then some pause
    else if command == "RESUME"
    then some resume
    else if command == "ABORT"
    then some abort
    else if command == "RESET"
    then some reset
    else if command == "EMERGENCY_STOP"
    then some stop
    else if command == "KOVER"
    then some kover
    else none

-- `self._state not in ("MISSION_LOADED", "IDLE")` fails.
abbrev pub may_start : FlightState → Bool
may_start mission_loaded = true
may_start idle = true
may_start _ = false

abbrev pub text_or_null : Option String → Value
text_or_null none = null
text_or_null (some e) = text e

abbrev pub dict_or_null : Option Fields → Value
dict_or_null none = null
dict_or_null (some d) = dict d

abbrev pub index_or_null : Option ℕ → Value
index_or_null none = null
index_or_null (some i) = int (pos i)

-- `len(steps) if isinstance(steps, list) else 0`
abbrev pub list_length : Value → ℕ
list_length (list steps) = items_count steps
list_length _ = 0

abbrev pub total_steps : Option Fields → ℕ
total_steps none = 0
total_steps (some m) = list_length (get m "steps")

-- What PAUSE, RESUME and KOVER make of the state.
abbrev pub paused_from : FlightState → FlightState
paused_from executing = paused
paused_from f = f

abbrev pub resumed_from : FlightState → FlightState
resumed_from paused = executing
resumed_from f = f

abbrev pub kover_from : FlightState → FlightState
kover_from paused = paused
kover_from _ = executing

-- The fields that a mission sets.
abbrev pub with_mission : Fields → Autopilot → Autopilot
with_mission m s = record s {
  mission = some m;
  current_step_index = if truthy (get m "steps") then some 0 else none;
  state = mission_loaded;
}

module _ (rt : Runtime) (formats : Formats) (c : Settings) where
  abbrev pub component_of : Autopilot → Component
  component_of s = record c.place.component { running = s.running }

  unfoldable pub load_mission : Value → Act Autopilot (Option Fields)
  unfolding get log_to_journal
  load_mission (dict m) = do
    write (with_mission m)
    log_to_journal c "AUTOPILOT_MISSION_LOADED"
        (("mission_id", get m "mission_id") ∷ ("state", text (state_text mission_loaded)) ∷ [])
    pure (reply (("ok", bool true) ∷ ("state", text (state_text mission_loaded)) ∷ []))
  load_mission _ = pure (reply (("ok", bool false) ∷ ("error", text "invalid_mission") ∷ []))

  unfoldable pub handle_mission_load : Handler Autopilot
  unfolding is_trusted_sender get load_mission
  handle_mission_load message = if not (is_trusted_sender c.place message) then pure none else (do
    payload ← lift (as_dict (payload_or_empty message))
    load_mission (get payload "mission"))

  -- The wait of START: the messages of a mission that another thread handles before the deadline.
  abbrev pub wait_loop : List Fields → Act Autopilot Bool
  wait_loop [] s = read has_mission s
  wait_loop (m ∷ ms) s =
      if has_mission s then pure true s else bind (handle_mission_load m s) (λ r. wait_loop ms r.1)

  unfoldable pub wait_for_mission_before_start : List Fields → Act Autopilot Bool
  unfolding float_ge handle_mission_load
  wait_for_mission_before_start arrivals =
      if float_ge (of_nat 0) c.start_mission_wait_s then read has_mission else wait_loop arrivals

  -- `self._mission is None and not self._wait_for_mission_before_start()` fails.
  abbrev pub mission_ready : List Fields → Act Autopilot Bool
  mission_ready arrivals s =
      if has_mission s then pure true s else wait_for_mission_before_start arrivals s

  abbrev pub accept_start : Autopilot → Act Autopilot (Option Fields)
  accept_start s =
      if not (may_start s.state)
      then pure (
          reply (
            ("ok", bool false)
            ∷ ("error", text "invalid_state_for_start")
            ∷ ("state", text (state_text s.state))
            ∷ []))
      else (do
        write (λ s. record s { state = pre_flight })
        mission_id ← lift (mission_field s.mission "mission_id")
        log_to_journal c "AUTOPILOT_START_ACCEPTED"
            (("mission_id", mission_id) ∷ ("state", text (state_text pre_flight)) ∷ [])
        pure (reply (("ok", bool true) ∷ ("state", text (state_text pre_flight)) ∷ [])))

  -- What follows the wait.
  abbrev pub started : Bool → Act Autopilot (Option Fields)
  started false = pure (
      reply (
        ("ok", bool false)
        ∷ ("error", text "no_mission")
        ∷ ("waited_s", float c.start_mission_wait_s)
        ∷ []))
  started true = read (λ s. s) >>= accept_start

  unfoldable pub start_mission : List Fields → Act Autopilot (Option Fields)
  unfolding wait_for_mission_before_start log_to_journal get
  start_mission arrivals = mission_ready arrivals >>= started

  -- What the other commands do to the fields.
  unfoldable pub obey : Command → Act Autopilot (Unit {0})
  unfolding log_to_journal
  obey start = pure tt
  obey pause = write (λ s. record s { state = paused_from s.state })
  obey resume = write (λ s. record s { state = resumed_from s.state })
  obey abort = write (λ s. record s { state = aborted })
  obey reset = write (λ s. record s { mission = none; current_step_index = none; state = idle })
  obey stop = do
    old ← read (λ s. s.state)
    write (λ s. record s { state = emergency_stop })
    log_to_journal c "AUTOPILOT_EMERGENCY_STOP" (("old_state", text (state_text old)) ∷ [])
  obey kover = do
    write (λ s. record s { kover_active = true })
    log_to_journal c "AUTOPILOT_KOVER_ACTIVE" []
    write (λ s. record s { state = kover_from s.state })

  unfoldable pub log_change : FlightState → String → Act Autopilot (Option Fields)
  unfolding log_to_journal
  log_change old command = do
    s ← read (λ s. s)
    if state_text old == state_text s.state
        then pure tt
        else log_to_journal c "AUTOPILOT_STATE_CHANGE" (
            ("old_state", text (state_text old))
            ∷ ("new_state", text (state_text s.state))
            ∷ ("command", text command)
            ∷ [])
    pure (reply (("ok", bool true) ∷ ("state", text (state_text s.state)) ∷ []))

  unfoldable pub perform : List Fields → String → Option Command → Act Autopilot (Option Fields)
  unfolding start_mission obey log_change
  perform arrivals command none =
      pure (reply (("ok", bool false) ∷ ("error", text "unknown_command") ∷ []))
  perform arrivals command (some start) = start_mission arrivals
  perform arrivals command (some other) = do
    s ← read (λ s. s)
    obey other
    log_change s.state command

  -- `str(payload.get("command") or "").upper()`
  abbrev pub command_text : Fields → String
  command_text payload = formats.upper (str rt (or_else (get payload "command") (text "")))

  unfoldable pub handle_cmd : List Fields → Handler Autopilot
  unfolding is_trusted_sender get str perform
  handle_cmd arrivals message = if not (is_trusted_sender c.place message) then pure none else (do
    payload ← lift (as_dict (payload_or_empty message))
    perform arrivals (command_text payload) (command_of (command_text payload)))

  unfoldable pub handle_get_state : Handler Autopilot
  unfolding get
  handle_get_state message = do
    s ← read (λ s. s)
    pure (
        reply (
          ("state", text (state_text s.state))
          ∷ ("last_error", text_or_null s.last_error)
          ∷ ("mission_id", mission_id_or_none s.mission)
          ∷ ("current_step_index", index_or_null s.current_step_index)
          ∷ ("total_steps", int (pos (total_steps s.mission)))
          ∷ ("sprayer_state", text (if s.sprayer_on then "ON" else "OFF"))
          ∷ ("last_nav_state", dict_or_null s.last_nav_state)
          ∷ []))

  abbrev pub actions : List String
  actions = "ping" ∷ "get_status" ∷ "mission_load" ∷ "cmd" ∷ "get_state" ∷ []

  unfoldable pub handlers : List Fields → Handlers Autopilot
  unfolding register_handler
  handlers arrivals = register_handler "get_state" handle_get_state (
      register_handler "cmd" (handle_cmd arrivals) (
        register_handler "mission_load" handle_mission_load (
          register_handler "get_status" (handle_get_status component_of actions)
            (register_handler "ping" (handle_ping component_of) []))))

  unfoldable pub handle : List Fields → Fields → Act Autopilot (Unit {0})
  unfolding handle_message handlers
  handle arrivals message = handle_message rt component_of (handlers arrivals) message
