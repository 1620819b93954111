-- ===== src/Agro/Sprayer.antt =====
-- systems/agrodron/src/sprayer/src/sprayer.py: opens and closes the sprayer.
use Prim.Native.String.{◌++◌ as append}
use https_gitflic_ru_project.Base.{
  String, Bool, true, false, not, Option, none, List, [], ◌∷◌, ◌==◌, if◌then◌else◌,
}
use https_gitflic_ru_project.Py.Float.{Float}
use https_gitflic_ru_project.Py.Value.{
  Value, bool, float, text, dict, Fields, fields_of, Runtime, get, truthy,
}
use https_gitflic_ru_project.Py.Act.{Act, pure, read, write, publish, now, ◌>>=◌, ◌>>◌}
use https_gitflic_ru_project.Py.Maths.{Maths}
use https_gitflic_ru_project.Sdk.Component.{
  Component, Handler, Handlers, register_handler, handle_ping, handle_get_status, handle_message,
}
use https_gitflic_ru_project.Agro.Place.{
  Place, is_trusted_sender, proxied, entry, publish_journal_event, payload_or_empty, reply,
}

pub data SprayerState : Type 0 where
  off on : SprayerState

abbrev pub state_text : SprayerState → String
state_text off = "OFF"
state_text on = "ON"

abbrev pub state_of : Bool → SprayerState
state_of spray_flag = if spray_flag then on else off

abbrev pub same_state : SprayerState → SprayerState → Bool
same_state off off = true
same_state on on = true
same_state _ _ = false

-- `sitl_mode`, `sitl_topic` and `journal_topic` are those of the configuration.
pub record Sprayer : Type 0 where
  pub place : Place
  pub state : SprayerState
  pub last_change_ts : Float
  pub temperature_c : Float
  pub tank_level_pct : Float
  pub sitl_mode : String
  pub sitl_topic : String
  pub journal_topic : String

abbrev pub component_of : Sprayer → Component
component_of s = s.place.component

abbrev pub spray_command : Bool → Fields
spray_command spray_flag = fields_of (("cmd", text "SET_SPRAY") ∷ ("spray", bool spray_flag) ∷ [])

abbrev pub sitl_message : String → Fields → Fields
sitl_message mode command =
    if mode == "mock"
    then fields_of (("source", text "sprayer") ∷ ("command", dict command) ∷ [])
    else fields_of (
        ("source", text "sprayer")
        ∷ ("command", dict command)
        ∷ ("note", text (append "sitl_mode=" (append mode " not implemented, emitted as mock")))
        ∷ [])

unfoldable pub emit_command : Fields → Act Sprayer (Unit {0})
unfolding publish_journal_event
emit_command command = do
  s ← read (λ s. s)
  publish_journal_event s.place "SPRAYER_SITL_OUT" "sprayer" (
      fields_of (
        ("sitl_mode", text s.sitl_mode)
        ∷ ("sitl_topic", text s.sitl_topic)
        ∷ ("command", dict command)
        ∷ []))
  sent ← publish (text s.sitl_topic) (sitl_message s.sitl_mode command)
  pure tt

unfoldable pub log_state_change : SprayerState → SprayerState → Act Sprayer (Unit {0})
log_state_change old_state new_state = do
  s ← read (λ s. s)
  sent ← publish (text s.place.monitor_topic) (
      proxied "proxy_publish" s.place s.journal_topic "log_event" (
        entry "SPRAYER_STATE_CHANGED" "sprayer" (
          fields_of (
            ("old_state", text (state_text old_state))
            ∷ ("new_state", text (state_text new_state))
            ∷ []))))
  pure tt

unfoldable pub handle_spray_state : Handler Sprayer
handle_spray_state message = do
  s ← read (λ s. s)
  pure (
      reply (
        ("state", text (state_text s.state))
        ∷ ("last_change_ts", float s.last_change_ts)
        ∷ ("temperature_c", float s.temperature_c)
        ∷ ("tank_level_pct", float s.tank_level_pct)
        ∷ ("sitl_mode", text s.sitl_mode)
        ∷ []))

-- The keys of the table, in the order in which they are registered.
abbrev pub actions : List String
actions = "ping" ∷ "get_status" ∷ "set_spray" ∷ "get_state" ∷ []

module _ (rt : Runtime) (maths : Maths) where
  -- What follows where the state changes.
  unfoldable pub change_state : Bool → SprayerState → Act Sprayer (Unit {0})
  unfolding emit_command log_state_change
  change_state spray_flag old_state = do
    write (λ s. record s { state = state_of spray_flag })
    t ← now
    write (λ s. record s { last_change_ts = maths.seconds t })
    emit_command (spray_command spray_flag)
    log_state_change old_state (state_of spray_flag)

  unfoldable pub set_spray : Value → Act Sprayer (Option Fields)
  unfolding get change_state
  set_spray (dict payload) = do
    let spray_flag = truthy (get payload "spray")
    old_state ← read (λ s. s.state)
    if same_state (state_of spray_flag) old_state
        then pure tt
        else change_state spray_flag old_state
    s ← read (λ s. s)
    pure (reply (("ok", bool true) ∷ ("state", text (state_text s.state)) ∷ []))
  set_spray _ = pure (reply (("ok", bool false) ∷ ("error", text "invalid_payload") ∷ []))

  unfoldable pub handle_set_spray : Handler Sprayer
  unfolding is_trusted_sender get set_spray
  handle_set_spray message = do
    s ← read (λ s. s)
    if not (is_trusted_sender s.place message)
        then pure none
        else set_spray (payload_or_empty message)

  unfoldable pub handlers : Handlers Sprayer
  unfolding register_handler
  handlers = register_handler "get_state" handle_spray_state (
      register_handler "set_spray" handle_set_spray (
        register_handler "get_status" (handle_get_status component_of actions)
          (register_handler "ping" (handle_ping component_of) [])))

  unfoldable pub handle : Fields → Act Sprayer (Unit {0})
  unfolding handle_message handlers
  handle message = handle_message rt component_of handlers message
