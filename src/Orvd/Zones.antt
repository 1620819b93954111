-- ===== src/Orvd/Zones.antt =====
-- The no-fly zones: whether a point or a route meets one, and the two handlers that change them.
pub mod Clear
use Prim.Native.Char.{Char}
use https_gitflic_ru_project.Base.{
  String, Bool, true, false, not, Option, none, some, List, [], ◌∷◌, ◌||◌, if◌then◌else◌,
}
use https_gitflic_ru_project.Py.Value.{
  Value, null, bool, int, float, text, list, dict, Items, nil, cons, Fields, end, field, Exc,
  type_error, Runtime, get, get_or, truthy,
}
use https_gitflic_ru_project.Py.Act.{Result, ok, raised, Act, pure, lift, read, write, ◌>>=◌, ◌>>◌}
use https_gitflic_ru_project.Py.Read.{as_dict, then_check, iterated}
use https_gitflic_ru_project.Py.Dict.{Dict, hashed, less_eq, insert, remove, values}
use https_gitflic_ru_project.Sdk.Component.{Handler}
use https_gitflic_ru_project.Orvd.State.{Orvd, log, payload_of, reply, refusal}

-- `a and b`, where `b` is not computed after a false `a`.
abbrev pub and_then : Result Bool → Result Bool → Result Bool
and_then (ok true) b = b
and_then (ok false) b = ok false
and_then (raised e) b = raised e

abbrev pub is_null : Value → Bool
is_null null = true
is_null _ = false

module _ (rt : Runtime) where
  -- `low <= x <= high`
  abbrev pub between : Value → Value → Value → Result Bool
  between low x high = and_then (less_eq rt low x) (less_eq rt x high)

  -- One zone that is active, with its bounds; a zone with a bound missing is passed over.
  unfoldable pub in_bounds : Value → Value → Fields → Result Bool
  unfolding get less_eq
  in_bounds lat lon bounds =
      let min_lat = get bounds "min_lat" in
      let max_lat = get bounds "max_lat" in
      let min_lon = get bounds "min_lon" in
      let max_lon = get bounds "max_lon" in
      if is_null min_lat || is_null max_lat || is_null min_lon || is_null max_lon
      then ok false
      else and_then (between min_lat lat max_lat) (between min_lon lon max_lon)

  unfoldable pub in_zone : Value → Value → Fields → Result Bool
  unfolding get_or in_bounds
  in_zone lat lon zone =
      if not (truthy (get_or zone "active" (bool true)))
      then ok false
      else then_check (as_dict (get_or zone "bounds" (dict end))) (in_bounds lat lon)

  -- `return True` at the first zone that holds the point.
  abbrev pub or_later : Result Bool → Result Bool → Result Bool
  or_later (ok true) later = ok true
  or_later (ok false) later = later
  or_later (raised e) later = raised e

  unfoldable pub in_some_zone : Value → Value → List Fields → Result Bool
  unfolding in_zone
  in_some_zone lat lon [] = ok false
  in_some_zone lat lon (zone ∷ zones) = or_later (in_zone lat lon zone) (in_some_zone lat lon zones)

  unfoldable pub point_in_no_fly_zone : Dict Fields → Fields → Result Bool
  unfolding get in_some_zone
  point_in_no_fly_zone zones coords =
      let lat = get coords "lat" in
      let lon = get coords "lon" in
      if is_null lat || is_null lon then ok false else in_some_zone lat lon (values zones)

  -- `coords.get` first, on whatever stands there.
  unfoldable pub value_in_zone : Dict Fields → Value → Result Bool
  unfolding point_in_no_fly_zone
  value_in_zone zones coords = then_check (as_dict coords) (point_in_no_fly_zone zones)

  unfoldable pub points_violate : Dict Fields → Items → Result Bool
  unfolding value_in_zone
  points_violate zones nil = ok false
  points_violate zones (cons point points) =
      or_later (value_in_zone zones point) (points_violate zones points)

  unfoldable pub route_violates_zone : Dict Fields → Value → Result Bool
  unfolding iterated points_violate
  route_violates_zone zones route = then_check (iterated route) (points_violate zones)

unfoldable pub handle_add_zone : Handler Orvd
unfolding payload_of get hashed insert log
handle_add_zone message = do
  payload ← lift (payload_of message)
  let zone_id = get payload "zone_id"
  if not (truthy zone_id) then pure (refusal "zone_id required") else do
    k ← lift (hashed zone_id)
    write (λ o. record o { no_fly_zones = insert o.no_fly_zones k payload })
    log "zone_added" (("zone_id", zone_id) ∷ [])
    pure (reply (("status", text "zone_added") ∷ ("zone_id", zone_id) ∷ []))

-- `zones.pop(zone_id, None)`, which does not look at the key where there are no zones.
unfoldable pub without : Dict Fields → Value → Result (Dict Fields)
unfolding hashed remove
without [] zone_id = ok []
without (z ∷ zones) zone_id = then_check (hashed zone_id) (λ k. ok (remove (z ∷ zones) k))

unfoldable pub handle_remove_zone : Handler Orvd
unfolding payload_of get without log
handle_remove_zone message = do
  payload ← lift (payload_of message)
  let zone_id = get payload "zone_id"
  zones ← read (λ o. o.no_fly_zones)
  left ← lift (without zones zone_id)
  write (λ o. record o { no_fly_zones = left })
  log "zone_removed" (("zone_id", zone_id) ∷ [])
  pure (reply (("status", text "zone_removed") ∷ ("zone_id", zone_id) ∷ []))
