-- ===== src/Orvd/Zones/Clear.antt =====
-- What a route that passes the check is clear of.
use https_gitflic_ru_project.Base.{
  ◌≡◌, refl, ◌⊎◌, inl, inr, ◌↔◌, Bool, true, false, List, [], ◌∷◌, ◌||◌, All, arith, Bool-cases,
}
use https_gitflic_ru_project.Py.Value.{
  Value, null, bool, int, float, text, list, Items, nil, cons, dict, Fields, end, Runtime, get,
  get_or, truthy,
}
use https_gitflic_ru_project.Py.Act.{Result, ok, raised}
use https_gitflic_ru_project.Py.Read.{as_dict, then_check}
use https_gitflic_ru_project.Py.Dict.{Dict, values, less_eq}
use https_gitflic_ru_project.Orvd.Zones.{
  and_then, between, or_later, is_null, in_bounds, in_zone, in_some_zone, point_in_no_fly_zone,
  value_in_zone, points_violate,
}

-- One of the four bounds is missing.
abbrev pub LacksBound : Fields → Type 0
LacksBound bounds =
    (get bounds "min_lat" ≡ null)
    ⊎ (get bounds "max_lat" ≡ null)
    ⊎ (get bounds "min_lon" ≡ null)
    ⊎ (get bounds "max_lon" ≡ null)

abbrev lacks_bound : Fields → Bool
lacks_bound bounds =
    is_null (get bounds "min_lat")
    || is_null (get bounds "max_lat")
    || is_null (get bounds "min_lon")
    || is_null (get bounds "max_lon")

is_null_lem : (v : Value) → is_null v ≡ true → v ≡ null
is_null_lem null h = refl
is_null_lem (bool b) h = cc
is_null_lem (int n) h = cc
is_null_lem (float x) h = cc
is_null_lem (text t) h = cc
is_null_lem (list vs) h = cc
is_null_lem (dict d) h = cc

one_null :
    (a b c d : Value)
    → (is_null a || is_null b || is_null c || is_null d ≡ true)
      ↔ ((a ≡ null) ⊎ (b ≡ null) ⊎ (c ≡ null) ⊎ (d ≡ null))
one_null a b c d = (
  λ h. ground (arith, is_null_lem a, is_null_lem b, is_null_lem c, is_null_lem d),
  λ h. ground arith,
)

lacks_bound_lem : (b : Fields) → (lacks_bound b ≡ true) ↔ LacksBound b
lacks_bound_lem b = one_null (get b "min_lat") (get b "max_lat") (get b "min_lon") (get b "max_lon")

as_dict_lem : (v : Value) (d : Fields) → as_dict v ≡ ok d → v ≡ dict d
as_dict_lem (dict e) d h = cc
as_dict_lem null d h = cc
as_dict_lem (bool b) d h = cc
as_dict_lem (int n) d h = cc
as_dict_lem (float x) d h = cc
as_dict_lem (text t) d h = cc
as_dict_lem (list vs) d h = cc

-- What a conjunction that is false has found.
and_then_lem :
    (a b : Result Bool)
    → (and_then a b ≡ ok false) ↔ ((a ≡ ok false) ⊎ ((a ≡ ok true) × (b ≡ ok false)))
and_then_lem (ok true) b = ground arith
and_then_lem (ok false) b = ground arith
and_then_lem (raised e) b = ground arith

and_then_both : (a b : Result Bool) → (and_then a b ≡ ok true) ↔ ((a ≡ ok true) × (b ≡ ok true))
and_then_both (ok true) b = ground arith
and_then_both (ok false) b = ground arith
and_then_both (raised e) b = ground arith

module _ (rt : Runtime) where
  -- A value between two bounds, and one below or above them, as `<=` compares them.
  abbrev pub IsInside : Value → Value → Value → Type 0
  IsInside low high x = (less_eq rt low x ≡ ok true) × (less_eq rt x high ≡ ok true)

  abbrev pub IsBeside : Value → Value → Value → Type 0
  IsBeside low high x =
      (less_eq rt low x ≡ ok false)
      ⊎ ((less_eq rt low x ≡ ok true) × (less_eq rt x high ≡ ok false))

  -- A place that a zone does not hold: the zone is not active, or it lacks a bound, or the latitude
  -- is beside its latitudes, or the longitude beside its longitudes.
  pub data IsOff (lat lon : Value) (zone : Fields) : Type 0 where
    inactive : truthy (get_or zone "active" (bool true)) ≡ false → IsOff lat lon zone
    unbounded :
        (bounds : Fields)
        → get_or zone "bounds" (dict end) ≡ dict bounds
        → LacksBound bounds
        → IsOff lat lon zone
    off_latitude :
        (bounds : Fields)
        → get_or zone "bounds" (dict end) ≡ dict bounds
        → IsBeside (get bounds "min_lat") (get bounds "max_lat") lat
        → IsOff lat lon zone
    off_longitude :
        (bounds : Fields)
        → get_or zone "bounds" (dict end) ≡ dict bounds
        → IsInside (get bounds "min_lat") (get bounds "max_lat") lat
        → IsBeside (get bounds "min_lon") (get bounds "max_lon") lon
        → IsOff lat lon zone

  module _ (lat lon : Value) where
    -- The same of the bounds of a zone.
    abbrev OffSides : Fields → Type 0
    OffSides b =
        LacksBound b
        ⊎ IsBeside (get b "min_lat") (get b "max_lat") lat
        ⊎ (IsInside (get b "min_lat") (get b "max_lat") lat
            × IsBeside (get b "min_lon") (get b "max_lon") lon)

    -- The comparisons alone.
    off_sides :
        (b : Fields)
        → (and_then
              (between rt (get b "min_lat") lat (get b "max_lat"))
              (between rt (get b "min_lon") lon (get b "max_lon"))
            ≡ ok false)
          ↔ (IsBeside (get b "min_lat") (get b "max_lat") lat
              ⊎ (IsInside (get b "min_lat") (get b "max_lat") lat
                  × IsBeside (get b "min_lon") (get b "max_lon") lon))
    off_sides b = ground (
      arith,
      and_then_lem (between rt (get b "min_lat") lat (get b "max_lat"))
          (between rt (get b "min_lon") lon (get b "max_lon")),
      and_then_lem (less_eq rt (get b "min_lat") lat) (less_eq rt lat (get b "max_lat")),
      and_then_both (less_eq rt (get b "min_lat") lat) (less_eq rt lat (get b "max_lat")),
      and_then_lem (less_eq rt (get b "min_lon") lon) (less_eq rt lon (get b "max_lon")),
    )

    to_off_bounds : (b : Fields) → in_bounds rt lat lon b ≡ ok false → OffSides b
    unfolding in_bounds
    to_off_bounds b h = elim (Bool-cases (lacks_bound b)) [
      | inl l ↦ inl ((lacks_bound_lem b).0 l)
      | inr f ↦ inr ((off_sides b).0 (rw f at h))
    ]

    from_off_bounds : (b : Fields) → OffSides b → in_bounds rt lat lon b ≡ ok false
    unfolding in_bounds
    from_off_bounds b (inl l) = rw ((lacks_bound_lem b).1 l)
    from_off_bounds b (inr o) = elim (Bool-cases (lacks_bound b)) [
      | inl l ↦ rw l
      | inr f ↦ rw f ((off_sides b).1 o)
    ]

    with_bounds :
        (zone b : Fields)
        → get_or zone "bounds" (dict end) ≡ dict b
        → OffSides b
        → IsOff lat lon zone
    with_bounds zone b e (inl l) = unbounded b e l
    with_bounds zone b e (inr (inl o)) = off_latitude b e o
    with_bounds zone b e (inr (inr o)) = off_longitude b e o.0 o.1

    checked-IsOff :
        (zone : Fields) (r : Result Fields)
        → as_dict (get_or zone "bounds" (dict end)) ≡ r
        → then_check r (in_bounds rt lat lon) ≡ ok false
        → IsOff lat lon zone
    checked-IsOff zone (ok b) e h = with_bounds zone b (as_dict_lem _ b e) (to_off_bounds b h)
    checked-IsOff zone (raised x) e h = cc

    to_off : (zone : Fields) → in_zone rt lat lon zone ≡ ok false → IsOff lat lon zone
    unfolding in_zone
    to_off zone h = elim (Bool-cases (truthy (get_or zone "active" (bool true)))) [
      | inl t ↦ checked-IsOff zone _ refl (rw t at h)
      | inr f ↦ inactive f
    ]

    bounded-in_zone :
        (zone b : Fields)
        → get_or zone "bounds" (dict end) ≡ dict b
        → OffSides b
        → in_zone rt lat lon zone ≡ ok false
    unfolding in_zone
    bounded-in_zone zone b e o = elim (Bool-cases (truthy (get_or zone "active" (bool true)))) [
      | inl t ↦ rw (t, e) (from_off_bounds b o)
      | inr f ↦ rw f
    ]

    from_off : (zone : Fields) → IsOff lat lon zone → in_zone rt lat lon zone ≡ ok false
    unfolding in_zone
    from_off zone (inactive n) = rw n
    from_off zone (unbounded b e l) = bounded-in_zone zone b e (inl l)
    from_off zone (off_latitude b e o) = bounded-in_zone zone b e (inr (inl o))
    from_off zone (off_longitude b e i o) = bounded-in_zone zone b e (inr (inr (i, o)))

module _ (rt : Runtime) (zones : Dict Fields) where
  -- A place without a latitude or a longitude, or one that no zone holds.
  pub data IsOutside (coords : Fields) : Type 0 where
    unplaced : (get coords "lat" ≡ null) ⊎ (get coords "lon" ≡ null) → IsOutside coords
    placed : All (IsOff rt (get coords "lat") (get coords "lon")) (values zones) → IsOutside coords

  -- Every point of a route is a dict whose place is outside.
  pub data IsClearRoute : Items → Type 0 where
    arrived : IsClearRoute nil
    passes :
        {coords : Fields} {route : Items}
        → IsOutside coords
        → IsClearRoute route
        → IsClearRoute (cons (dict coords) route)

  or_later_lem :
      (a b : Result Bool) → (or_later rt a b ≡ ok false) ↔ ((a ≡ ok false) × (b ≡ ok false))
  or_later_lem (ok true) b = ground arith
  or_later_lem (ok false) b = ground arith
  or_later_lem (raised e) b = ground arith

  some_false :
      (lat lon : Value) (l : List Fields)
      → (in_some_zone rt lat lon l ≡ ok false) ↔ All (IsOff rt lat lon) l
  unfolding in_some_zone
  some_false lat lon [] = (λ _. tt, λ _. refl)
  some_false lat lon (z ∷ l) =
      let both = or_later_lem (in_zone rt lat lon z) (in_some_zone rt lat lon l) in
      let rest = some_false lat lon l in
      (
        λ h. (to_off rt lat lon z (both.0 h).0, rest.0 (both.0 h).1),
        λ h. both.1 (from_off rt lat lon z h.0, rest.1 h.1),
      )

  from_outside :
      (coords : Fields) → IsOutside coords → point_in_no_fly_zone rt zones coords ≡ ok false
  unfolding point_in_no_fly_zone
  from_outside coords (unplaced u) = ground arith
  from_outside coords (placed h) =
      elim (Bool-cases (is_null (get coords "lat") || is_null (get coords "lon"))) [
        | inl u ↦ rw u
        | inr p ↦ rw p ((some_false (get coords "lat") (get coords "lon") (values zones)).1 h)
      ]

  to_outside :
      (coords : Fields) → point_in_no_fly_zone rt zones coords ≡ ok false → IsOutside coords
  unfolding point_in_no_fly_zone
  to_outside coords h =
      elim (Bool-cases (is_null (get coords "lat") || is_null (get coords "lon"))) [
        | inl u ↦
            unplaced
              (ground (arith, is_null_lem (get coords "lat"), is_null_lem (get coords "lon")))
        | inr p ↦
            placed ((some_false (get coords "lat") (get coords "lon") (values zones)).0 (rw p at h))
      ]

  from_clear : (route : Items) → IsClearRoute route → points_violate rt zones route ≡ ok false
  unfolding points_violate value_in_zone
  from_clear _ arrived = refl
  from_clear _ (passes {coords} {route} o c) =
      (or_later_lem (point_in_no_fly_zone rt zones coords) (points_violate rt zones route)).1
        (from_outside coords o, from_clear route c)

  to_clear : (route : Items) → points_violate rt zones route ≡ ok false → IsClearRoute route
  unfolding points_violate value_in_zone
  to_clear nil h = arrived
  to_clear (cons (dict coords) route) h =
      let both =
        (or_later_lem (point_in_no_fly_zone rt zones coords) (points_violate rt zones route)).0 h in
      passes (to_outside coords both.0) (to_clear route both.1)
  to_clear (cons _ route) h = ground arith

  -- The check passes a route, without an exception, exactly when every point of it is a dict that
  -- lacks a coordinate or that no zone holds: each zone is not active, or lacks a bound, or has the
  -- latitude below its least or above its greatest latitude, or, with the latitude between them, the
  -- longitude below its least or above its greatest longitude.
  pub points_violate_iff :
      (route : Items) → (points_violate rt zones route ≡ ok false) ↔ IsClearRoute route
  points_violate_iff route = (to_clear route, from_clear route)
