-- ===== src/Gcs/Route.antt =====
-- sdk/wpl_generator.py: the points of a route, their checks, and the way there and back between two
-- points.
pub mod Snake
pub mod Rows
use https_gitflic_ru_project.Base.{
  ℕ, zero, suc, String, Bool, true, false, ◌||◌, ◌&&◌, nat_eq, Option, none, some, List, [], ◌∷◌,
  ◌++◌, if◌then◌else◌,
}
use https_gitflic_ru_project.Py.Float.{Float, of_nat, float_lt}
use https_gitflic_ru_project.Py.Value.{
  Value, float, Fields, fields_of, Runtime, type_error, value_error, find, get_or,
}
use https_gitflic_ru_project.Py.Act.{Result, ok, raised}
use https_gitflic_ru_project.Py.Read.{then_check, to_float, float_eq}
use https_gitflic_ru_project.Py.Maths.{Maths, of_neg}

-- A point of a route; `param4` is always 0.0.
pub record PathPoint : Type 0 where
  pub lat : Float
  pub lon : Float
  pub alt_m : Float
  pub param1 : Float
  pub param2 : Float
  pub param3 : Float

abbrev pub point_fields : PathPoint → Fields
point_fields p = fields_of (
    ("lat", float p.lat)
    ∷ ("lon", float p.lon)
    ∷ ("alt_m", float p.alt_m)
    ∷ ("param1", float p.param1)
    ∷ ("param2", float p.param2)
    ∷ ("param3", float p.param3)
    ∷ ("param4", float (of_nat 0))
    ∷ [])

abbrev pub required : Option Value → Result Value
required none = raised value_error
required (some v) = ok v

unfoldable pub get_required : Fields → String → Result Value
unfolding find
get_required point name = required (find point name)

-- `except (TypeError, ValueError): raise ValueError`
abbrev pub as_value_error : {A : Type 0} → Result A → Result A
as_value_error (ok a) = ok a
as_value_error (raised type_error) = raised value_error
as_value_error (raised e) = raised e

unfoldable pub validate_lat_lon : Float → Float → Result (Unit {0})
unfolding float_lt
validate_lat_lon lat lon =
    if float_lt lat (of_neg 90)
      || float_lt (of_nat 90) lat
      || (float_lt lon (of_neg 180) || float_lt (of_nat 180) lon)
    then raised value_error
    else ok tt

-- The coordinates of an end of a route.
pub record Place3 : Type 0 where
  pub lat : Float
  pub lon : Float
  pub alt_m : Float

abbrev pub first_items : {A : Type 0} → List A → List A
first_items [] = []
first_items (x ∷ []) = []
first_items (x ∷ y ∷ l) = x ∷ first_items (y ∷ l)

abbrev pub onto : {A : Type 0} → List A → List A → List A
onto [] m = m
onto (x ∷ l) m = onto l (x ∷ m)

-- `reversed(items)`
abbrev pub reversed : {A : Type 0} → List A → List A
reversed l = onto l []

-- The three parameters of an end.
abbrev pub Params : Type 0
Params = Float × Float × Float

module _ (rt : Runtime) where
  -- `to_float(value, name)`
  unfoldable pub number_of_field : Value → Result Float
  unfolding to_float
  number_of_field v = as_value_error (to_float rt v)

  abbrev pub required_number : Fields → String → Result Float
  required_number point name = then_check (get_required point name) number_of_field

  -- `to_float(point.get(name, 0.0), name)`
  abbrev pub param : Fields → String → Result Float
  param point name = number_of_field (get_or point name (float (of_nat 0)))

  abbrev pub not_below_ground : Float → Result (Unit {0})
  not_below_ground alt = if float_lt alt (of_nat 0) then raised value_error else ok tt

  -- The checked coordinates of a point.
  unfoldable pub read_point : Fields → Result Place3
  unfolding get_required number_of_field validate_lat_lon float_lt
  read_point point = then_check (required_number point "lat") (λ lat.
      then_check (required_number point "lon") (λ lon.
        then_check (required_number point "alt_m") (λ alt.
          then_check (validate_lat_lon lat lon) (λ _.
            then_check (not_below_ground alt)
              (λ _. ok (record { lat = lat; lon = lon; alt_m = alt }))))))

  unfoldable pub read_params : Fields → Result Params
  unfolding number_of_field get_or
  read_params point = then_check (param point "param1") (λ a.
      then_check (param point "param2")
        (λ b. then_check (param point "param3") (λ c. ok (a, b, c))))

  abbrev pub different : Place3 → Place3 → Result (Unit {0})
  different p q = if float_eq p.lat q.lat && float_eq p.lon q.lon then raised value_error else ok tt

-- `range(i, i + n)`
abbrev pub range_from : ℕ → ℕ → List ℕ
range_from i zero = []
range_from i (suc n) = i ∷ range_from (suc i) n

abbrev pub mapped : {A B : Type 0} → (A → B) → List A → List B
mapped f [] = []
mapped f (x ∷ l) = f x ∷ mapped f l

module _ (rt : Runtime) (maths : Maths) where
  -- The parameters of point `i` of 5 segments.
  abbrev pub params_at : ℕ → Params → Params → Params
  params_at i s e = if nat_eq i 0 then s else if nat_eq i 5 then e else (of_nat 0, s.1, of_nat 0)

  abbrev pub between : Float → Float → Float → Float
  between t a b = maths.plus a (maths.times t (maths.minus b a))

  abbrev pub path_point : Place3 → Place3 → Params → Params → ℕ → PathPoint
  path_point p q s e i =
      let t = maths.over (of_nat i) (of_nat 5) in
      let params = params_at i s e in
      record {
        lat = between t p.lat q.lat;
        lon = between t p.lon q.lon;
        alt_m = between t p.alt_m q.alt_m;
        param1 = params.0;
        param2 = params.1;
        param3 = params.2;
      }

  -- `path + list(reversed(path[:-1]))`
  abbrev pub cycle_path : List PathPoint → List PathPoint
  cycle_path path = path ++ reversed (first_items path)

  -- `expand_two_points_to_path([start, end])`, with the default of `segments`.
  unfoldable pub expand_two_points_to_path : Fields → Fields → Result (List PathPoint)
  unfolding read_point read_params
  expand_two_points_to_path start finish = then_check (read_point rt start) (λ p.
      then_check (read_params rt start) (λ s. then_check (read_point rt finish) (λ q.
        then_check (different rt p q) (λ _.
          then_check (read_params rt finish)
            (λ e. ok (cycle_path (mapped (path_point p q s e) (range_from 0 6))))))))
