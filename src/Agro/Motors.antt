-- ===== src/Agro/Motors.antt =====
-- systems/agrodron/src/motors/src/motors.py: turns targets into commands for the simulator.
pub mod Command
pub mod Calls
pub mod Bounds
use https_gitflic_ru_project.Base.{
  String, Bool, true, false, not, Option, none, some, List, [], ◌∷◌, ◌==◌, ◌&&◌, ◌||◌,
  if◌then◌else◌,
}
use https_gitflic_ru_project.Py.Float.{Float, of_nat, float_lt}
use https_gitflic_ru_project.Py.Value.{
  Value, null, bool, float, text, dict, Fields, end, fields_of, Runtime, get, get_or, or_else,
  truthy,
}
use https_gitflic_ru_project.Py.Act.{
  Result, Act, pure, lift, read, write, publish, now, ◌>>=◌, ◌>>◌,
}
use https_gitflic_ru_project.Py.Maths.{Maths, of_neg}
use https_gitflic_ru_project.Sdk.Component.{
  Component, Handler, Handlers, register_handler, handle_ping, handle_get_status, handle_message,
}
use https_gitflic_ru_project.Agro.Place.{
  Place, is_trusted_sender, proxied, publish_journal_event, payload_or_empty, reply,
}
use https_gitflic_ru_project.Agro.Motors.Command.{Velocity, velocity, build_sitl_command}

pub data MotorsMode : Type 0 where
  idle tracking landing : MotorsMode

abbrev pub mode_text : MotorsMode → String
mode_text idle = "IDLE"
mode_text tracking = "TRACKING"
mode_text landing = "LANDING"

-- `sitl_mode`, `sitl_commands_topic` and `sitl_drone_id` are those of the configuration.
pub record Motors : Type 0 where
  pub place : Place
  pub mode : MotorsMode
  pub last_target : Option Fields
  pub last_cmd_ts : Float
  pub temperature_c : Float
  pub last_sitl_journal_ts : Float
  pub sitl_mode : String
  pub sitl_commands_topic : String
  pub sitl_drone_id : String

abbrev pub component_of : Motors → Component
component_of m = m.place.component

abbrev pub target_or_null : Option Fields → Value
target_or_null none = null
target_or_null (some d) = dict d

-- `self._last_target or {}`
abbrev pub target_or_empty : Option Fields → Fields
target_or_empty none = end
target_or_empty (some d) = d

abbrev pub journal_details : Motors → String → Bool → Fields → Fields
journal_details m reason emergency sitl_msg = fields_of (
    ("reason", text reason)
    ∷ ("sitl_commands_topic", text m.sitl_commands_topic)
    ∷ ("drone_id", get sitl_msg "drone_id")
    ∷ ("vx", get sitl_msg "vx")
    ∷ ("vy", get sitl_msg "vy")
    ∷ ("vz", get sitl_msg "vz")
    ∷ ("mag_heading", get sitl_msg "mag_heading")
    ∷ ("emergency", bool emergency)
    ∷ [])

-- The command of an emergency landing.
abbrev pub landing_command : Fields → Fields
landing_command last = fields_of (
    ("vx", float (of_nat 0))
    ∷ ("vy", float (of_nat 0))
    ∷ ("vz", float (of_neg 2))
    ∷ ("alt_m", get_or last "alt_m" (float (of_nat 0)))
    ∷ ("lat", get_or last "lat" (float (of_nat 0)))
    ∷ ("lon", get_or last "lon" (float (of_nat 0)))
    ∷ ("heading_deg", get_or last "heading_deg" (float (of_nat 0)))
    ∷ ("drop", bool false)
    ∷ ("emergency_landing", bool true)
    ∷ [])

abbrev pub target_of : Fields → Velocity → Fields
target_of payload v = fields_of (
    ("vx", float v.vx)
    ∷ ("vy", float v.vy)
    ∷ ("vz", float v.vz)
    ∷ ("alt_m", get payload "alt_m")
    ∷ ("lat", get payload "lat")
    ∷ ("lon", get payload "lon")
    ∷ ("heading_deg", get payload "heading_deg")
    ∷ ("drop", get_or payload "drop" (bool false))
    ∷ [])

unfoldable pub handle_motors_state : Handler Motors
handle_motors_state message = do
  m ← read (λ m. m)
  pure (
      reply (
        ("mode", text (mode_text m.mode))
        ∷ ("last_target", target_or_null m.last_target)
        ∷ ("last_cmd_ts", float m.last_cmd_ts)
        ∷ ("temperature_c", float m.temperature_c)
        ∷ ("sitl_mode", text m.sitl_mode)
        ∷ []))

-- The keys of the table, in the order in which they are registered.
abbrev pub actions : List String
actions = "ping" ∷ "get_status" ∷ "set_target" ∷ "land" ∷ "get_state" ∷ []

module _ (rt : Runtime) (maths : Maths) where
  -- Whether an ordinary command comes too soon after the last entry.
  abbrev pub too_soon : Motors → Float → Bool
  too_soon m t = float_lt (maths.minus t m.last_sitl_journal_ts) (of_nat 2)

  unfoldable pub journal_sitl_command : Fields → String → Bool → Act Motors (Unit {0})
  unfolding get float_lt publish_journal_event
  journal_sitl_command sitl_msg reason emergency = do
    t ← now
    m ← read (λ m. m)
    let force = emergency || reason == "land"
    let moment = maths.seconds t
    if not force && too_soon m moment then pure tt else (do
      if force then pure tt else write (λ m. record m { last_sitl_journal_ts = moment })
      publish_journal_event m.place (if force then "SITL_MOTORS_LAND_CMD" else "SITL_MOTORS_OUT")
          "motors" (journal_details m reason emergency sitl_msg))

  unfoldable pub emit_sitl_command : Fields → String → Act Motors (Unit {0})
  unfolding get build_sitl_command journal_sitl_command
  emit_sitl_command command reason = do
    m ← read (λ m. m)
    sitl_msg ← lift (build_sitl_command rt maths m.sitl_drone_id command)
    sent ←
        publish (text m.place.monitor_topic)
          (proxied "proxy_publish" m.place m.sitl_commands_topic "__raw__" sitl_msg)
    journal_sitl_command sitl_msg reason (truthy (get command "emergency_landing"))

  unfoldable pub set_target : Value → Act Motors (Option Fields)
  unfolding velocity get get_or emit_sitl_command
  set_target (dict payload) = do
    v ← lift (velocity rt maths payload)
    let target = target_of payload v
    write (λ m. record m { last_target = some target; mode = tracking })
    t ← now
    write (λ m. record m { last_cmd_ts = maths.seconds t })
    emit_sitl_command target "set_target"
    m ← read (λ m. m)
    pure (reply (("ok", bool true) ∷ ("mode", text (mode_text m.mode)) ∷ []))
  set_target _ = pure (reply (("ok", bool false) ∷ ("error", text "invalid_payload") ∷ []))

  unfoldable pub handle_set_target : Handler Motors
  unfolding is_trusted_sender get set_target
  handle_set_target message = do
    m ← read (λ m. m)
    if not (is_trusted_sender m.place message)
        then pure none
        else set_target (payload_or_empty message)

  unfoldable pub land : Act Motors (Option Fields)
  unfolding get_or emit_sitl_command
  land = do
    write (λ m. record m { mode = landing })
    t ← now
    write (λ m. record m { last_cmd_ts = maths.seconds t })
    m ← read (λ m. m)
    emit_sitl_command (landing_command (target_or_empty m.last_target)) "land"
    n ← read (λ m. m)
    pure (reply (("ok", bool true) ∷ ("mode", text (mode_text n.mode)) ∷ []))

  unfoldable pub handle_land : Handler Motors
  unfolding is_trusted_sender land
  handle_land message = do
    m ← read (λ m. m)
    if not (is_trusted_sender m.place message) then pure none else land

  unfoldable pub handlers : Handlers Motors
  unfolding register_handler
  handlers = register_handler "get_state" handle_motors_state (
      register_handler "land" handle_land (
        register_handler "set_target" handle_set_target (
          register_handler "get_status" (handle_get_status component_of actions)
            (register_handler "ping" (handle_ping component_of) []))))

  unfoldable pub handle : Fields → Act Motors (Unit {0})
  unfolding handle_message handlers
  handle message = handle_message rt component_of handlers message
