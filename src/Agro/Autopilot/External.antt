-- ===== src/Agro/Autopilot/External.antt =====
-- What the autopilot asks of the systems outside of the drone: air traffic control, the drone port
-- and the ground station.
use https_gitflic_ru_project.Base.{
  ℕ, zero, suc, String, Bool, true, false, not, Option, none, some, List, [], ◌∷◌, ◌&&◌, ◌||◌,
  if◌then◌else◌,
}
use https_gitflic_ru_project.Py.Text.{nonempty, replace}
use https_gitflic_ru_project.Py.Float.{Float}
use https_gitflic_ru_project.Py.Value.{
  Value, null, bool, float, text, dict, Fields, end, fields_of, Runtime, type_error, value_error,
  find, get, truthy, is_text,
}
use https_gitflic_ru_project.Py.Act.{
  Result, ok, raised, Act, pure, lift, read, request, publish, now, ◌>>=◌, ◌>>◌,
}
use https_gitflic_ru_project.Py.Read.{to_float}
use https_gitflic_ru_project.Agro.Place.{proxied}
use https_gitflic_ru_project.Agro.ProxyReply.{dict_only, has_key, unwrap_proxy_target_response}
use https_gitflic_ru_project.Agro.Autopilot.{Settings, Autopilot, log_to_journal}

abbrev pub response_or_null : Option Fields → Value
response_or_null none = null
response_or_null (some d) = dict d

abbrev pub payload_or_self : Value → Fields → Fields
payload_or_self (dict payload) target_response = payload
payload_or_self _ target_response = target_response

abbrev pub inner_or : Fields → Option Fields → Fields
inner_or response none = response
inner_or response (some target_response) =
    payload_or_self (get target_response "payload") target_response

-- `self._unwrap_proxy_target_response(response)`, where the response is a dict.
unfoldable pub unwrap_target_response : Fields → Fields
unfolding get unwrap_proxy_target_response
unwrap_target_response response = inner_or response (unwrap_proxy_target_response (some response))

abbrev pub is_null : Value → Bool
is_null null = true
is_null _ = false

-- `d.get("error") is not None or "port_id" in d`
abbrev pub has_outcome : Fields → Bool
has_outcome d = not (is_null (get d "error")) || has_key d "port_id"

abbrev pub payload_with_outcome : Value → Option Fields
payload_with_outcome (dict payload) = if has_outcome payload then some payload else none
payload_with_outcome _ = none

abbrev pub nested_in_payload : Value → Option Fields
nested_in_payload (dict payload) = dict_only (get payload "target_response")
nested_in_payload _ = none

abbrev pub or_option : Option Fields → Option Fields → Option Fields
or_option none other = other
or_option (some d) other = some d

-- Where a round goes on: the answer inside, in the order in which it is looked for.
unfoldable pub next_response : Fields → Option Fields
unfolding get unwrap_proxy_target_response
next_response current = or_option (unwrap_proxy_target_response (some current)) (
    or_option (dict_only (get current "target_response"))
      (nested_in_payload (get current "payload")))

-- `for _ in range(rounds)`, on a dict.
unfoldable pub unwrap_rounds : ℕ → Fields → Fields
unfolding get find next_response
unwrap_rounds zero current = current
unwrap_rounds (suc rounds) current =
    if has_outcome current then current else elim (payload_with_outcome (get current "payload")) [
      | some payload ↦ payload
      | none ↦ elim (next_response current) [
        | none ↦ current
        | some next ↦ unwrap_rounds rounds next
      ]
    ]

abbrev pub unwrap_droneport_response : Fields → Fields
unwrap_droneport_response raw = unwrap_rounds 6 raw

-- `body.get("error")` is no refusal.
abbrev pub no_error : Fields → Bool
no_error body = not (truthy (get body "error"))

unfoldable pub droneport_takeoff_ok : Option Fields → Bool
unfolding get find unwrap_rounds
droneport_takeoff_ok none = false
droneport_takeoff_ok (some response) =
    let body = unwrap_droneport_response response in
    no_error body && (has_key body "port_id" || has_key body "battery")

unfoldable pub droneport_landing_ok : Option Fields → Bool
unfolding get unwrap_rounds
droneport_landing_ok none = false
droneport_landing_ok (some response) =
    let body = unwrap_droneport_response response in no_error body && truthy (get body "port_id")

-- `resp and resp.get("status") == "takeoff_authorized"`
unfoldable pub takeoff_authorized : Option Fields → Bool
unfolding get
takeoff_authorized none = false
takeoff_authorized (some response) = is_text (get response "status") "takeoff_authorized"

abbrev pub first_found : Option Value → Option Value → Option Value
first_found none other = other
first_found (some v) other = some v

-- The `try` around `float(nav[key])`, whose `break` leads to the default.
abbrev pub number_or : Float → Result Float → Result Float
number_or default (ok x) = ok x
number_or default (raised type_error) = ok default
number_or default (raised value_error) = ok default
number_or default (raised e) = raised e

abbrev pub battery_value : Runtime → Float → Option Value → Result Float
battery_value rt default none = ok default
battery_value rt default (some v) = number_or default (to_float rt v)

abbrev pub nav_or_empty : Option Fields → Fields
nav_or_empty none = end
nav_or_empty (some nav) = nav

unfoldable pub droneport_battery_pct : Runtime → Float → Option Fields → Result Float
unfolding find to_float
droneport_battery_pct rt default last_nav_state =
    let nav = nav_or_empty last_nav_state in
    battery_value rt default
      (first_found (find nav "battery_pct") (first_found (find nav "battery") (find nav "bat_pct")))

abbrev pub unwrapped : Option Fields → Option Fields
unwrapped none = none
unwrapped (some response) = some (unwrap_target_response response)

module _ (c : Settings) where
  -- The topic is not empty where it is called.
  unfoldable pub proxy_request_external :
      String → String → List (String × Value) → Act Autopilot (Option Fields)
  unfolding unwrap_target_response
  proxy_request_external topic action sent_data = if not (nonempty topic) then pure none else (do
    response ←
        request (text c.place.monitor_topic)
          (proxied "proxy_request" c.place topic action (fields_of sent_data))
    pure (unwrapped response))

  unfoldable pub request_departure_orvd : Value → Act Autopilot Bool
  unfolding log_to_journal replace proxy_request_external takeoff_authorized
  request_departure_orvd mission_id =
      if not (nonempty c.orvd_topic)
      then pure true
      else if c.orvd_mock_success
      then log_to_journal c "ORVD_TAKEOFF_APPROVED" (
          ("mission_id", mission_id)
          ∷ ("stub", bool true)
          ∷ ("reason", text "AUTOPILOT_ORVD_MOCK_SUCCESS")
          ∷ [])
        >> pure true
      else (do
        t ← now
        response ← proxy_request_external c.orvd_topic "request_takeoff" (
            ("drone_id", text c.drone_id)
            ∷ ("mission_id", mission_id)
            ∷ ("time", text (replace "+00:00" "Z" t))
            ∷ [])
        if takeoff_authorized response
            then log_to_journal c "ORVD_TAKEOFF_APPROVED" (("mission_id", mission_id) ∷ [])
              >> pure true
            else log_to_journal c "ORVD_TAKEOFF_DENIED"
                (("mission_id", mission_id) ∷ ("response", response_or_null response) ∷ [])
              >> pure false)

  unfoldable pub request_takeoff_droneport : Value → Act Autopilot Bool
  unfolding log_to_journal proxy_request_external droneport_takeoff_ok
  request_takeoff_droneport mission_id =
      if not (nonempty c.droneport_topic)
      then pure true
      else if c.droneport_mock_success
      then log_to_journal c "DRONEPORT_TAKEOFF_APPROVED" (
          ("mission_id", mission_id)
          ∷ ("stub", bool true)
          ∷ ("reason", text "AUTOPILOT_DRONEPORT_MOCK_SUCCESS")
          ∷ [])
        >> pure true
      else (do
        response ←
            proxy_request_external c.droneport_topic "request_takeoff"
              (("drone_id", text c.drone_id) ∷ [])
        if droneport_takeoff_ok response
            then log_to_journal c "DRONEPORT_TAKEOFF_APPROVED" (("mission_id", mission_id) ∷ [])
              >> pure true
            else log_to_journal c "DRONEPORT_TAKEOFF_DENIED"
                (("mission_id", mission_id) ∷ ("response", response_or_null response) ∷ [])
              >> pure false)

  unfoldable pub notify_nus : String → List (String × Value) → Act Autopilot (Unit {0})
  notify_nus event details = if not (nonempty c.nus_topic) then pure tt else (do
    sent ← publish (text c.place.monitor_topic) (
        proxied "proxy_publish" c.place c.nus_topic "mission_status"
          (fields_of (("event", text event) ∷ details)))
    pure tt)

module _ (rt : Runtime) (c : Settings) where
  unfoldable pub request_landing_droneport : Act Autopilot Bool
  unfolding log_to_journal proxy_request_external droneport_landing_ok droneport_battery_pct
  request_landing_droneport =
      if not (nonempty c.droneport_topic)
      then pure true
      else if c.droneport_mock_success
      then pure true
      else (do
        s ← read (λ s. s)
        battery ← lift (droneport_battery_pct rt c.landing_battery_default s.last_nav_state)
        response ← proxy_request_external c c.droneport_topic "request_landing" (
            ("drone_id", text c.drone_id)
            ∷ ("model", text c.drone_model)
            ∷ ("battery", float battery)
            ∷ [])
        if droneport_landing_ok response
            then log_to_journal c "DRONEPORT_LANDING_APPROVED"
                (("response", response_or_null response) ∷ [])
              >> pure true
            else log_to_journal c "DRONEPORT_LANDING_DENIED"
                (("response", response_or_null response) ∷ [])
              >> pure false)

  unfoldable pub request_charging_droneport : Act Autopilot (Unit {0})
  unfolding log_to_journal proxy_request_external droneport_battery_pct get
  request_charging_droneport =
      if not (nonempty c.droneport_topic)
      then pure tt
      else if c.droneport_mock_success
      then pure tt
      else (do
        s ← read (λ s. s)
        battery ← lift (droneport_battery_pct rt c.charging_battery_default s.last_nav_state)
        response ←
            proxy_request_external c c.droneport_topic "request_charging"
              (("drone_id", text c.drone_id) ∷ ("battery", float battery) ∷ [])
        log_to_journal c
            (elim response [
              | none ↦ "DRONEPORT_CHARGING_REQUEST_FAILED"
              | some r ↦
                  if no_error r
                  then "DRONEPORT_CHARGING_REQUESTED"
                  else "DRONEPORT_CHARGING_REQUEST_FAILED"
            ])
            (("response", response_or_null response) ∷ []))
