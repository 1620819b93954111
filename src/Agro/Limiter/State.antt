-- ===== src/Agro/Limiter/State.antt =====
-- The fields of the limiter and what it publishes.
use https_gitflic_ru_project.Base.{String, Bool, true, false, Option, [], ◌∷◌}
use https_gitflic_ru_project.Py.Float.{Float}
use https_gitflic_ru_project.Py.Value.{float, text, dict, Fields, fields_of}
use https_gitflic_ru_project.Py.Act.{Act, pure, read, write, publish, ◌>>=◌}
use https_gitflic_ru_project.Sdk.Component.{Component}
use https_gitflic_ru_project.Agro.Place.{Place, place_topic, proxied, entry}

pub data LimiterState : Type 0 where
  normal warning emergency : LimiterState

abbrev pub state_text : LimiterState → String
state_text normal = "NORMAL"
state_text warning = "WARNING"
state_text emergency = "EMERGENCY"

-- The topics and actions are the configured ones.
pub record Limiter : Type 0 where
  pub place : Place
  pub journal_topic : String
  pub navigation_action : String
  pub telemetry_action : String
  pub mission : Option Fields
  pub last_nav : Option Fields
  pub last_telemetry : Option Fields
  pub state : LimiterState
  pub max_distance : Float
  pub max_alt_deviation : Float
  pub nav_poll_interval : Float
  pub telemetry_poll_interval : Float
  pub last_nav_poll : Float
  pub last_telemetry_poll : Float

abbrev pub component_of : Limiter → Component
component_of s = s.place.component

-- The deviations that go into a report.
abbrev pub deviations : Limiter → Float → Float → Fields
deviations s distance alt_dev = fields_of (
    ("distance_from_path_m", float distance)
    ∷ ("max_distance_from_path_m", float s.max_distance)
    ∷ ("alt_deviation_m", float alt_dev)
    ∷ ("max_alt_deviation_m", float s.max_alt_deviation)
    ∷ [])

abbrev pub warning_details : Float → Float → Fields
warning_details distance alt_dev =
    fields_of (("distance_m", float distance) ∷ ("alt_deviation_m", float alt_dev) ∷ [])

-- The messages to the monitor: an entry for the journal, and the event for `emergensy`.
abbrev pub log_message : Limiter → String → Fields → Fields
log_message s event details =
    proxied "proxy_publish" s.place s.journal_topic "log_event" (entry event "limiter" details)

abbrev pub event_message : Limiter → Fields → Fields
event_message s details =
    proxied "proxy_publish" s.place (place_topic s.place "emergensy") "limiter_event"
      (fields_of (("event", text "EMERGENCY_LAND_REQUIRED") ∷ ("details", dict details) ∷ []))

unfoldable pub log_to_journal : String → Fields → Act Limiter (Unit {0})
log_to_journal event details = do
  s ← read (λ s. s)
  sent ← publish (text s.place.monitor_topic) (log_message s event details)
  pure tt

unfoldable pub publish_emergency : Float → Float → Act Limiter (Unit {0})
unfolding log_to_journal place_topic
publish_emergency distance alt_dev = do
  s ← read (λ s. s)
  logged ← log_to_journal "LIMITER_EMERGENCY_LAND_REQUIRED" (deviations s distance alt_dev)
  sent ← publish (text s.place.monitor_topic) (event_message s (deviations s distance alt_dev))
  pure tt

abbrev pub is_emergency : LimiterState → Bool
is_emergency emergency = true
is_emergency _ = false

abbrev pub is_warning : LimiterState → Bool
is_warning warning = true
is_warning _ = false

abbrev pub set_state : LimiterState → Act Limiter (Unit {0})
set_state state = write (λ s. record s { state = state })
