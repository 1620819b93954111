-- ===== src/Orvd/Flights.antt =====
-- The handlers that register drones and missions, authorize missions, and grant and revoke flights.
pub mod Cleared
pub mod Takeoff
use https_gitflic_ru_project.Base.{
  String, Bool, true, false, not, Option, none, some, List, [], ◌∷◌, ◌||◌, if◌then◌else◌,
}
use https_gitflic_ru_project.Py.Text.{nonempty, strip}
use https_gitflic_ru_project.Py.Value.{
  Value, text, list, dict, Items, nil, Fields, end, fields_of, Runtime, get, get_or, or_else, str,
  truthy,
}
use https_gitflic_ru_project.Py.Act.{
  Result, ok, raised, Act, pure, lift, read, write, request, ◌>>=◌, ◌>>◌,
}
use https_gitflic_ru_project.Py.Read.{as_dict, then_check, iterated}
use https_gitflic_ru_project.Py.Dict.{Key, Dict, hashed, lookup, insert, remove, holds, include}
use https_gitflic_ru_project.Sdk.Component.{Handler}
use https_gitflic_ru_project.Orvd.State.{Orvd, log, payload_of, reply, refusal, denial}
use https_gitflic_ru_project.Orvd.Zones.{route_violates_zone}

-- `"from": self.component_id`
abbrev pub from_self : Orvd → String × Value
from_self o = ("from", text o.component.component_id)

-- `v and v.get("success") and (v.get("payload") or {}).get("valid")`, as a test.
abbrev pub valid_in : Value → Result Bool
valid_in payload =
    then_check (as_dict (or_else payload (dict end))) (λ d. ok (truthy (get d "valid")))

unfoldable pub certificate_valid : Option Fields → Result Bool
unfolding get
certificate_valid none = ok false
certificate_valid (some end) = ok false
certificate_valid (some v) =
    if truthy (get v "success") then valid_in (get v "payload") else ok false

unfoldable pub enter_drone : Fields → Value → Act Orvd (Option Fields)
unfolding hashed insert log
enter_drone payload drone_id = do
  k ← lift (hashed drone_id)
  write (λ o. record o { drones = insert o.drones k payload })
  log "drone_registered" (("drone_id", drone_id) ∷ [])
  from ← read from_self
  pure (reply (("status", text "registered") ∷ ("drone_id", drone_id) ∷ from ∷ []))

abbrev pub verify_drone_cert : Orvd → Value → String → Fields
verify_drone_cert o drone_id cert_id = fields_of (
    ("action", text "verify_drone_cert")
    ∷ ("sender", text o.component.component_id)
    ∷ ("payload", dict (fields_of (("drone_id", drone_id) ∷ ("certificate_id", text cert_id) ∷ [])))
    ∷ [])

unfoldable pub check_certificate : Fields → Value → String → Act Orvd (Option Fields)
unfolding certificate_valid enter_drone
check_certificate payload drone_id cert_id =
    if nonempty cert_id
    then (do
      o ← read (λ o. o)
      v ← request (text o.regulator_topic) (verify_drone_cert o drone_id cert_id)
      valid ← lift (certificate_valid v)
      if valid
          then enter_drone payload drone_id
          else pure (refusal "regulator rejected drone certificate"))
    else enter_drone payload drone_id

module _ (rt : Runtime) where
  unfoldable pub handle_register_drone : Handler Orvd
  unfolding payload_of get get_or str strip check_certificate
  handle_register_drone message = do
    payload ← lift (payload_of message)
    let drone_id = get payload "drone_id"
    if not (truthy drone_id)
        then pure (refusal "drone_id required")
        else check_certificate payload drone_id
            (strip (str rt (get_or payload "certificate_id" (text ""))))

  -- The end of `_handle_register_mission`, after the route was checked.
  unfoldable pub enter_mission : Fields → Value → Value → Bool → Act Orvd (Option Fields)
  unfolding hashed insert log
  enter_mission payload mission_id drone_id true = do
    log "mission_rejected" (("mission_id", mission_id) ∷ ("drone_id", drone_id) ∷ [])
    from ← read from_self
    pure (
        reply (
          ("status", text "rejected")
          ∷ ("reason", text "route intersects no_fly_zone")
          ∷ from
          ∷ []))
  enter_mission payload mission_id drone_id false = do
    k ← lift (hashed mission_id)
    write (λ o. record o { missions = insert o.missions k payload })
    log "mission_registered" (("mission_id", mission_id) ∷ ("drone_id", drone_id) ∷ [])
    from ← read from_self
    pure (reply (("status", text "mission_registered") ∷ ("mission_id", mission_id) ∷ from ∷ []))

  -- Its middle, after the drone was looked up.
  unfoldable pub plan_mission : Fields → Value → Value → Option Fields → Act Orvd (Option Fields)
  unfolding get_or route_violates_zone enter_mission
  plan_mission payload mission_id drone_id none = pure (refusal "drone not registered")
  plan_mission payload mission_id drone_id (some drone) = do
    o ← read (λ o. o)
    violates ← lift (route_violates_zone rt o.no_fly_zones (get_or payload "route" (list nil)))
    enter_mission payload mission_id drone_id violates

  unfoldable pub handle_register_mission : Handler Orvd
  unfolding payload_of get hashed lookup plan_mission
  handle_register_mission message = do
    payload ← lift (payload_of message)
    let mission_id = get payload "mission_id"
    let drone_id = get payload "drone_id"
    if not (truthy mission_id) || not (truthy drone_id)
        then pure (refusal "mission_id and drone_id required")
        else do
          k ← lift (hashed drone_id)
          drone ← read (λ o. lookup o.drones k)
          plan_mission payload mission_id drone_id drone

unfoldable pub authorize_found : Value → Key → Option Fields → Act Orvd (Option Fields)
unfolding include log
authorize_found mission_id k none = pure (refusal "mission not found")
authorize_found mission_id k (some mission) = do
  write (λ o. record o { authorized = include o.authorized k })
  log "mission_authorized" (("mission_id", mission_id) ∷ [])
  from ← read from_self
  pure (reply (("status", text "authorized") ∷ ("mission_id", mission_id) ∷ from ∷ []))

unfoldable pub handle_authorize_mission : Handler Orvd
unfolding payload_of get hashed lookup authorize_found
handle_authorize_mission message = do
  payload ← lift (payload_of message)
  k ← lift (hashed (get payload "mission_id"))
  mission ← read (λ o. lookup o.missions k)
  authorize_found (get payload "mission_id") k mission

abbrev pub present : {A : Type 0} → Option A → Bool
present none = false
present (some a) = true

-- The end of `_handle_request_takeoff`, for a drone that the mission names.
unfoldable pub launch : Value → Value → Key → Act Orvd (Option Fields)
unfolding lookup insert log
launch mission_id drone_id k = do
  o ← read (λ o. o)
  if not (present (lookup o.drones k))
      then pure (denial "drone not registered")
      else (if present (lookup o.active_flights k)
          then pure (denial "drone already flying")
          else (do
            write (λ o. record o { active_flights = insert o.active_flights k mission_id })
            log "takeoff_authorized" (("drone_id", drone_id) ∷ ("mission_id", mission_id) ∷ [])
            from ← read from_self
            pure (
                reply (
                  ("status", text "takeoff_authorized")
                  ∷ ("drone_id", drone_id)
                  ∷ ("mission_id", mission_id)
                  ∷ from
                  ∷ []))))

unfoldable pub takeoff_mission : Value → Key → Option Fields → Act Orvd (Option Fields)
unfolding get hashed holds launch
takeoff_mission mission_id k none = pure (denial "mission not found")
takeoff_mission mission_id k (some mission) = do
  o ← read (λ o. o)
  if not (holds o.authorized k)
      then pure (denial "mission not authorized")
      else (if not (truthy (get mission "drone_id"))
          then pure (denial "drone not assigned")
          else (do
            d ← lift (hashed (get mission "drone_id"))
            launch mission_id (get mission "drone_id") d))

unfoldable pub handle_request_takeoff : Handler Orvd
unfolding payload_of get hashed lookup takeoff_mission
handle_request_takeoff message = do
  payload ← lift (payload_of message)
  let mission_id = get payload "mission_id"
  if not (truthy mission_id) then pure (refusal "mission_id required") else do
    k ← lift (hashed mission_id)
    mission ← read (λ o. lookup o.missions k)
    takeoff_mission mission_id k mission

unfoldable pub revoke_active : Value → Key → Option Value → Act Orvd (Option Fields)
unfolding remove log
revoke_active drone_id k none = pure (refusal "drone not active")
revoke_active drone_id k (some mission_id) = do
  write (λ o. record o { active_flights = remove o.active_flights k })
  log "takeoff_revoked" (("drone_id", drone_id) ∷ ("mission_id", mission_id) ∷ [])
  from ← read from_self
  pure (reply (("status", text "landing_required") ∷ ("drone_id", drone_id) ∷ from ∷ []))

unfoldable pub handle_revoke_takeoff : Handler Orvd
unfolding payload_of get hashed lookup revoke_active
handle_revoke_takeoff message = do
  payload ← lift (payload_of message)
  k ← lift (hashed (get payload "drone_id"))
  flight ← read (λ o. lookup o.active_flights k)
  revoke_active (get payload "drone_id") k flight
