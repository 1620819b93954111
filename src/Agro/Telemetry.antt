-- ===== src/Agro/Telemetry.antt =====
-- systems/agrodron/src/telemetry/src/telemetry.py: collects the states of the other components.
pub mod Logged
use https_gitflic_ru_project.Base.{
  String, Bool, true, false, not, ◌&&◌, ◌||◌, Option, none, some, List, [], ◌∷◌, ◌==◌,
  if◌then◌else◌,
}
use https_gitflic_ru_project.Py.Text.{is_some}
use https_gitflic_ru_project.Py.Float.{Float, of_nat}
use https_gitflic_ru_project.Py.Maths.{Maths}
use https_gitflic_ru_project.Py.Value.{
  Value, null, bool, float, text, dict, Fields, end, fields_of, Runtime, get,
}
use https_gitflic_ru_project.Py.Act.{Act, pure, read, write, request, now, attempt, ◌>>=◌, ◌>>◌}
use https_gitflic_ru_project.Sdk.Component.{
  Component, Handler, Handlers, register_handler, handle_ping, handle_get_status, handle_message,
}
use https_gitflic_ru_project.Agro.Place.{
  Place, is_trusted_sender, proxied, publish_journal_event, reply,
}
use https_gitflic_ru_project.Agro.ProxyReply.{
  unwrap_proxy_target_response, extract_navigation_nav_state,
}

-- The topics and actions are the configured ones; `logged` is
-- `_journal_logged_first_aggregate`.
pub record Telemetry : Type 0 where
  pub place : Place
  pub motors_topic : String
  pub motors_action : String
  pub sprayer_topic : String
  pub sprayer_action : String
  pub navigation_topic : String
  pub last_motors : Option Fields
  pub last_sprayer : Option Fields
  pub last_navigation : Option Fields
  pub last_poll : Float
  pub logged : Bool

abbrev pub component_of : Telemetry → Component
component_of s = s.place.component

abbrev pub or_inner : Option Fields → Fields → Fields
or_inner none inner = inner
or_inner (some nav) inner = nav

-- What a target's answer has of its state.
abbrev pub inner_of : Bool → Value → Fields → Fields
inner_of is_navigation (dict inner) target_response =
    if is_navigation
    then or_inner (extract_navigation_nav_state (some target_response)) inner
    else inner
inner_of is_navigation _ target_response = target_response

abbrev pub state_in : Bool → Option Fields → Option Fields
state_in is_navigation none = none
state_in is_navigation (some target_response) =
    some (inner_of is_navigation (get target_response "payload") target_response)

unfoldable pub proxy_get_state : String → String → Act Telemetry (Option Fields)
unfolding get unwrap_proxy_target_response extract_navigation_nav_state
proxy_get_state target_topic target_action = do
  s ← read (λ s. s)
  response ←
      request (text s.place.monitor_topic)
        (proxied "proxy_request" s.place target_topic target_action end)
  pure (state_in (target_topic == s.navigation_topic) (unwrap_proxy_target_response response))

abbrev pub or_last : Option Fields → Option Fields → Option Fields
or_last none last = last
or_last (some state) last = some state

abbrev pub or_null : Option Fields → Value
or_null none = null
or_null (some d) = dict d

module _ (rt : Runtime) (maths : Maths) where
  -- What is kept of the three states.
  abbrev pub collect :
      Option Fields → Option Fields → Option Fields → String → Telemetry → Telemetry
  collect motors sprayer navigation time s = record s {
    last_motors = or_last motors s.last_motors;
    last_sprayer = or_last sprayer s.last_sprayer;
    last_navigation = or_last navigation s.last_navigation;
    last_poll = maths.seconds time;
  }

  -- The entry for the first poll that finds a state.
  unfoldable pub log_first :
      Option Fields → Option Fields → Option Fields → Act Telemetry (Unit {0})
  unfolding publish_journal_event
  log_first motors sprayer navigation = do
    s ← read (λ s. s)
    if (is_some motors || is_some sprayer || is_some navigation) && not s.logged
        then (do
          write (λ s. record s { logged = true })
          publish_journal_event s.place "TELEMETRY_AGGREGATE_FIRST_OK" "telemetry" (
              fields_of (
                ("motors_ok", bool (is_some motors))
                ∷ ("sprayer_ok", bool (is_some sprayer))
                ∷ ("navigation_ok", bool (is_some navigation))
                ∷ [])))
        else pure tt

  unfoldable pub poll_once : Act Telemetry (Unit {0})
  unfolding proxy_get_state log_first
  poll_once = do
    s ← read (λ s. s)
    motors ← proxy_get_state s.motors_topic s.motors_action
    sprayer ← proxy_get_state s.sprayer_topic s.sprayer_action
    navigation ← proxy_get_state s.navigation_topic "get_state"
    t ← now
    write (collect motors sprayer navigation t)
    log_first motors sprayer navigation

  -- The turns of the loop, each with what it reads of `self._running`.
  unfoldable pub poll_loop : List Bool → Act Telemetry (Unit {0})
  unfolding poll_once
  poll_loop [] = pure tt
  poll_loop (false ∷ runs) = pure tt
  poll_loop (true ∷ runs) = attempt poll_once >> poll_loop runs

  unfoldable pub handle_get_state : Handler Telemetry
  unfolding is_trusted_sender get
  handle_get_state message = do
    s ← read (λ s. s)
    pure (
        if not (is_trusted_sender s.place message)
        then reply (
            ("motors", null)
            ∷ ("sprayer", null)
            ∷ ("navigation", null)
            ∷ ("last_poll_ts", float (of_nat 0))
            ∷ ("telemetry_trust_error", bool true)
            ∷ ("sender_expected", text s.place.monitor_topic)
            ∷ ("sender_received", get message "sender")
            ∷ [])
        else reply (
            ("motors", or_null s.last_motors)
            ∷ ("sprayer", or_null s.last_sprayer)
            ∷ ("navigation", or_null s.last_navigation)
            ∷ ("last_poll_ts", float s.last_poll)
            ∷ []))

  abbrev pub actions : List String
  actions = "ping" ∷ "get_status" ∷ "get_state" ∷ []

  unfoldable pub handlers : Handlers Telemetry
  unfolding register_handler
  handlers = register_handler "get_state" handle_get_state (
      register_handler "get_status" (handle_get_status component_of actions)
        (register_handler "ping" (handle_ping component_of) []))

  unfoldable pub handle : Fields → Act Telemetry (Unit {0})
  unfolding handle_message handlers
  handle message = handle_message rt component_of handlers message
