-- ===== src/Agro/Autopilot.antt =====
-- systems/agrodron/src/autopilot/src/autopilot.py: the fields of the autopilot, its settings
-- (autopilot/config.py) and the messages that it sends through the security monitor.
pub mod Fits
pub mod Targets
pub mod Commands
pub mod External
pub mod Geometry
pub mod Steering
pub mod Landing
pub mod Control
pub mod Emits
pub mod Turns
pub mod WellFormed
pub mod Reachable
pub mod Stopped
pub mod Landed
pub mod Cleared
use https_gitflic_ru_project.Base.{ℕ, String, Bool, true, false, Option, none, some, List, [], ◌∷◌}
use https_gitflic_ru_project.Py.Float.{Float}
use https_gitflic_ru_project.Py.Value.{
  Value, null, bool, float, text, dict, Fields, fields_of, attribute_error, get,
}
use https_gitflic_ru_project.Py.Act.{Result, ok, raised, Act, pure, publish, write, ◌>>=◌, ◌>>◌}
use https_gitflic_ru_project.Agro.Place.{Place, place_topic, proxied, entry}

pub data FlightState : Type 0 where
  idle mission_loaded pre_flight executing paused landing completed aborted emergency_stop :
      FlightState

abbrev pub state_text : FlightState → String
state_text idle = "IDLE"
state_text mission_loaded = "MISSION_LOADED"
state_text pre_flight = "PRE_FLIGHT"
state_text executing = "EXECUTING"
state_text paused = "PAUSED"
state_text landing = "LANDING"
state_text completed = "COMPLETED"
state_text aborted = "ABORTED"
state_text emergency_stop = "EMERGENCY_STOP"

-- The configuration, as the functions of config.py return it: `journal_topic()`,
-- `navigation_get_state_action()` and so on.
pub record Settings : Type 0 where
  pub place : Place
  pub journal_topic : String
  pub navigation_action : String
  pub orvd_topic : String
  pub orvd_mock_success : Bool
  pub drone_id : String
  pub nus_topic : String
  pub droneport_topic : String
  pub droneport_mock_success : Bool
  pub drone_model : String
  pub landing_battery_default : Float
  pub charging_battery_default : Float
  pub nav_poll_interval_s : Float
  pub start_mission_wait_s : Float

-- The fields that change. `_preflight_passed` is never used.
pub record Autopilot : Type 0 where
  pub running : Bool
  pub mission : Option Fields
  pub state : FlightState
  pub current_step_index : Option ℕ
  pub last_error : Option String
  pub last_nav_state : Option Fields
  pub sprayer_on : Bool
  pub kover_active : Bool
  pub landing_active : Bool
  pub landing_port_confirmed : Bool
  pub last_landing_port_request_ts : Float
  pub last_nav_poll_ts : Float

abbrev pub has_mission : Autopilot → Bool
has_mission s = elim s.mission [ none ↦ false | some m ↦ true ]

-- `self._mission.get(key)`
abbrev pub mission_field : Option Fields → String → Result Value
mission_field none key = raised attribute_error
mission_field (some m) key = ok (get m key)

-- `self._mission.get("mission_id") if self._mission else None`
abbrev pub mission_id_or_none : Option Fields → Value
mission_id_or_none none = null
mission_id_or_none (some m) = get m "mission_id"

-- A target for the motors.
pub record Target : Type 0 where
  pub vx : Float
  pub vy : Float
  pub vz : Float
  pub alt_m : Float
  pub lat : Float
  pub lon : Float
  pub heading_deg : Value
  pub drop : Bool

abbrev pub target_fields : Target → Fields
target_fields t = fields_of (
    ("vx", float t.vx)
    ∷ ("vy", float t.vy)
    ∷ ("vz", float t.vz)
    ∷ ("alt_m", float t.alt_m)
    ∷ ("lat", float t.lat)
    ∷ ("lon", float t.lon)
    ∷ ("heading_deg", t.heading_deg)
    ∷ ("drop", bool t.drop)
    ∷ [])

module _ (c : Settings) where
  unfoldable pub send_motors_target : Target → Act Autopilot (Unit {0})
  unfolding place_topic
  send_motors_target t = do
    sent ← publish (text c.place.monitor_topic) (
        proxied "proxy_publish" c.place (place_topic c.place "motors") "set_target"
          (target_fields t))
    pure tt

  unfoldable pub send_sprayer : Bool → Act Autopilot (Unit {0})
  unfolding place_topic
  send_sprayer spray = do
    write (λ s. record s { sprayer_on = spray })
    sent ← publish (text c.place.monitor_topic) (
        proxied "proxy_publish" c.place (place_topic c.place "sprayer") "set_spray"
          (fields_of (("spray", bool spray) ∷ [])))
    pure tt

  unfoldable pub log_to_journal : String → List (String × Value) → Act Autopilot (Unit {0})
  log_to_journal event details = do
    sent ← publish (text c.place.monitor_topic) (
        proxied "proxy_publish" c.place c.journal_topic "log_event"
          (entry event "autopilot" (fields_of details)))
    pure tt
