-- ===== src/Agro/Limiter/Table.antt =====
-- The polling of the control loop, the handlers and their table.
use https_gitflic_ru_project.Base.{
  String, Bool, true, false, not, ◌||◌, Option, none, some, List, [], ◌∷◌, if◌then◌else◌,
}
use https_gitflic_ru_project.Py.Text.{after, is_some}
use https_gitflic_ru_project.Py.Float.{Float, float_lt}
use https_gitflic_ru_project.Py.Maths.{Maths}
use https_gitflic_ru_project.Py.Value.{
  Value, bool, float, text, list, dict, Items, nil, cons, Fields, end, Runtime, type_error, find,
  get, is_text,
}
use https_gitflic_ru_project.Py.Act.{
  Result, ok, raised, Act, pure, attempt, lift, read, write, request, now, ◌>>=◌, ◌>>◌,
}
use https_gitflic_ru_project.Py.Read.{as_dict, item, to_float, then_check}
use https_gitflic_ru_project.Sdk.Component.{
  Handler, Handlers, register_handler, handle_ping, handle_get_status, handle_message,
}
use https_gitflic_ru_project.Agro.Place.{
  place_topic, is_trusted_sender, proxied, payload_or_empty, reply,
}
use https_gitflic_ru_project.Agro.ProxyReply.{
  dict_only, unwrap_proxy_target_response, extract_navigation_nav_state,
}
use https_gitflic_ru_project.Agro.Limiter.State.{Limiter, component_of, state_text}
use https_gitflic_ru_project.Agro.Limiter.Judge.{recalculate}

-- `key in value`
abbrev pub has_text : String → String → Bool
has_text key String.[] = is_some (after key "")
has_text key (String.◌∷◌ c s) = is_some (after key (String.◌∷◌ c s)) || has_text key s

abbrev pub has_item : String → Items → Bool
has_item key nil = false
has_item key (cons v vs) = is_text v key || has_item key vs

unfoldable pub is_in : String → Value → Result Bool
unfolding find after
is_in key (dict d) = ok (is_some (find d key))
is_in key (text s) = ok (has_text key s)
is_in key (list vs) = ok (has_item key vs)
is_in key _ = raised type_error

-- `value[key]`
unfoldable pub subscript : Value → String → Result Value
unfolding item
subscript (dict d) key = item d key
subscript _ key = raised type_error

module _ (rt : Runtime) (maths : Maths) where
  abbrev pub state_request : Limiter → String → String → Fields
  state_request s suffix action =
      proxied "proxy_request" s.place (place_topic s.place suffix) action end

  abbrev pub or_old : Option Fields → Option Fields → Option Fields
  or_old none old = old
  or_old (some new) old = some new

  unfoldable pub poll_navigation_if_due : Act Limiter (Unit {0})
  unfolding float_lt place_topic unwrap_proxy_target_response extract_navigation_nav_state
  poll_navigation_if_due = do
    t ← now
    s ← read (λ s. s)
    if float_lt (maths.minus (maths.seconds t) s.last_nav_poll) s.nav_poll_interval
        then pure tt
        else (do
          write (λ s. record s { last_nav_poll = maths.seconds t })
          response ←
              request (text s.place.monitor_topic)
                (state_request s "navigation" s.navigation_action)
          let nav = extract_navigation_nav_state (unwrap_proxy_target_response response)
          write (λ s. record s { last_nav = or_old nav s.last_nav }))

  abbrev pub payload_dict : Option Fields → Option Fields
  payload_dict none = none
  payload_dict (some target_response) = dict_only (get target_response "payload")

  unfoldable pub poll_telemetry_if_due : Act Limiter (Unit {0})
  unfolding get float_lt place_topic unwrap_proxy_target_response
  poll_telemetry_if_due = do
    t ← now
    s ← read (λ s. s)
    if float_lt (maths.minus (maths.seconds t) s.last_telemetry_poll) s.telemetry_poll_interval
        then pure tt
        else (do
          write (λ s. record s { last_telemetry_poll = maths.seconds t })
          response ←
              request (text s.place.monitor_topic) (state_request s "telemetry" s.telemetry_action)
          let telemetry = payload_dict (unwrap_proxy_target_response response)
          write (λ s. record s { last_telemetry = or_old telemetry s.last_telemetry }))

  -- The turns of the loop, each with what it reads of `self._running`.
  unfoldable pub control_loop : List Bool → Act Limiter (Unit {0})
  unfolding poll_navigation_if_due poll_telemetry_if_due recalculate
  control_loop [] = pure tt
  control_loop (false ∷ runs) = pure tt
  control_loop (true ∷ runs) = do
    turn ← attempt (poll_navigation_if_due >> poll_telemetry_if_due >> recalculate rt maths)
    control_loop runs

  abbrev pub store_mission : Value → Act Limiter (Option Fields)
  store_mission (dict mission) = do
    write (λ s. record s { mission = some mission })
    pure (reply (("ok", bool true) ∷ []))
  store_mission _ = pure (reply (("ok", bool false) ∷ ("error", text "invalid_mission") ∷ []))

  unfoldable pub handle_mission_load : Handler Limiter
  unfolding is_trusted_sender get
  handle_mission_load message = do
    s ← read (λ s. s)
    if not (is_trusted_sender s.place message) then pure none else (do
      payload ← lift (as_dict (payload_or_empty message))
      store_mission (get payload "mission"))

  abbrev pub take_position : Value → Act Limiter (Unit {0})
  take_position (dict payload) = do
    write (λ s. record s { last_nav = some payload })
    recalculate rt maths
  take_position _ = pure tt

  unfoldable pub handle_nav_state : Handler Limiter
  unfolding is_trusted_sender recalculate
  handle_nav_state message = do
    s ← read (λ s. s)
    if not (is_trusted_sender s.place message) then pure none else (do
      done ← take_position (payload_or_empty message)
      pure (reply (("ok", bool true) ∷ [])))

  -- `if key in payload: ... = float(payload[key])`
  unfoldable pub configure : String → Value → (Float → Limiter → Limiter) → Act Limiter (Unit {0})
  unfolding is_in subscript to_float
  configure key payload set = do
    there ← lift (is_in key payload)
    if there
        then (do x ← lift (then_check (subscript payload key) (to_float rt)); write (set x))
        else pure tt

  unfoldable pub handle_update_config : Handler Limiter
  unfolding is_trusted_sender configure
  handle_update_config message = do
    s ← read (λ s. s)
    let payload = payload_or_empty message
    if not (is_trusted_sender s.place message) then pure none else (do
      distance ← configure "max_distance_from_path_m" payload (λ x s. record s { max_distance = x })
      altitude ← configure "max_alt_deviation_m" payload (λ x s. record s { max_alt_deviation = x })
      s ← read (λ s. s)
      pure (
          reply (
            ("ok", bool true)
            ∷ ("max_distance_from_path_m", float s.max_distance)
            ∷ ("max_alt_deviation_m", float s.max_alt_deviation)
            ∷ [])))

  unfoldable pub handle_get_state : Handler Limiter
  handle_get_state message = do
    s ← read (λ s. s)
    pure (
        reply (
          ("state", text (state_text s.state))
          ∷ ("max_distance_from_path_m", float s.max_distance)
          ∷ ("max_alt_deviation_m", float s.max_alt_deviation)
          ∷ []))

  abbrev pub actions : List String
  actions =
      "ping" ∷ "get_status" ∷ "mission_load" ∷ "nav_state" ∷ "update_config" ∷ "get_state" ∷ []

  unfoldable pub handlers : Handlers Limiter
  unfolding register_handler
  handlers = register_handler "get_state" handle_get_state (
      register_handler "update_config" handle_update_config (
        register_handler "nav_state" handle_nav_state (
          register_handler "mission_load" handle_mission_load (
            register_handler "get_status" (handle_get_status component_of actions)
              (register_handler "ping" (handle_ping component_of) [])))))

  unfoldable pub handle : Fields → Act Limiter (Unit {0})
  unfolding handle_message handlers
  handle message = handle_message rt component_of handlers message
