-- ===== src/Orvd/State.antt =====
-- The fields of `OrvdComponent`, its history, and how it reads a message.
use https_gitflic_ru_project.Base.{String, List, [], ◌∷◌, ◌++◌, Option, some}
use https_gitflic_ru_project.Py.Value.{Value, text, dict, Fields, end, field, fields_of, get_or}
use https_gitflic_ru_project.Py.Act.{Result, Act, now, write, ◌>>=◌}
use https_gitflic_ru_project.Py.Read.{as_dict}
use https_gitflic_ru_project.Py.Dict.{Key, Dict}
use https_gitflic_ru_project.Sdk.Component.{Component}

pub record Orvd : Type 0 where
  pub component : Component
  pub regulator_topic : String
  pub drones : Dict Fields
  pub missions : Dict Fields
  pub authorized : List Key
  pub active_flights : Dict Value
  pub telemetry : Dict Fields
  pub history : List Fields
  pub no_fly_zones : Dict Fields

-- A component that has just been built.
unfoldable pub new : Component → String → Orvd
new component regulator_topic = record {
  component = component;
  regulator_topic = regulator_topic;
  drones = [];
  missions = [];
  authorized = [];
  active_flights = [];
  telemetry = [];
  history = [];
  no_fly_zones = [];
}

-- `_log(event, **kwargs)`
unfoldable pub log : String → List (String × Value) → Act Orvd (Unit {0})
log event kwargs = do
  t ← now
  write (λ o. record o {
    history =
        o.history
        ++ field "event" (text event) (field "timestamp" (text t) (fields_of kwargs)) ∷ [];
  })

-- `message.get("payload", {})`, of which the handlers call `get` next.
unfoldable pub payload_of : Fields → Result Fields
unfolding get_or
payload_of message = as_dict (get_or message "payload" (dict end))

abbrev pub reply : List (String × Value) → Option Fields
reply l = some (fields_of l)

-- `{"status": "error", "message": reason}`
abbrev pub refusal : String → Option Fields
refusal reason = reply (("status", text "error") ∷ ("message", text reason) ∷ [])

abbrev pub denial : String → Option Fields
denial reason = reply (("status", text "takeoff_denied") ∷ ("reason", text reason) ∷ [])
