-- ===== src/Gcs/Route/Snake.antt =====
-- sdk/wpl_generator_2.py: a route over a rectangle, in columns that go up and down by turns.
use https_gitflic_ru_project.Base.{
  ℕ, suc, ◌-◌, ◌%◌, String, Bool, true, false, ◌||◌, ◌&&◌, not, nat_eq, ltb, List, [], ◌∷◌, ◌++◌,
  length, if◌then◌else◌,
}
use https_gitflic_ru_project.Py.Float.{Float, of_nat, float_lt, float_ge}
use https_gitflic_ru_project.Py.Value.{Fields, Runtime, value_error}
use https_gitflic_ru_project.Py.Act.{Result, ok, raised}
use https_gitflic_ru_project.Py.Read.{then_check}
use https_gitflic_ru_project.Py.Maths.{Maths}
use https_gitflic_ru_project.Gcs.Route.{
  PathPoint, Place3, read_point, validate_lat_lon, range_from, reversed, mapped,
}

-- East and north of a corner, in metres.
abbrev pub Xy : Type 0
Xy = Float × Float

abbrev pub rest_of : {A : Type 0} → List A → List A
rest_of [] = []
rest_of (x ∷ l) = l

-- `items[0] = a` and `items[-1] = b`, on a list that is not empty.
abbrev pub with_first : {A : Type 0} → A → List A → List A
with_first a [] = []
with_first a (x ∷ l) = a ∷ l

abbrev pub with_last : {A : Type 0} → A → List A → List A
with_last b [] = []
with_last b (x ∷ []) = b ∷ []
with_last b (x ∷ y ∷ l) = x ∷ with_last b (y ∷ l)

-- `_point(lat, lon, alt_m)`
abbrev pub plain_point : Float → Float → Float → PathPoint
plain_point lat lon alt_m = record {
  lat = lat;
  lon = lon;
  alt_m = alt_m;
  param1 = of_nat 0;
  param2 = of_nat 0;
  param3 = of_nat 0;
}

abbrev pub point_of : Place3 → PathPoint
point_of p = plain_point p.lat p.lon p.alt_m

module _ (rt : Runtime) (maths : Maths) where
  abbrev pub earth_radius_m : Float
  earth_radius_m = of_nat 6371000

  abbrev pub deg_to_rad : Float → Float
  deg_to_rad d = maths.over (maths.times d maths.pi) (of_nat 180)

  abbrev pub rad_to_deg : Float → Float
  rad_to_deg r = maths.over (maths.times r (of_nat 180)) maths.pi

  -- `_ll_to_local_xy_m(lat, lon, lat0, lon0)`
  unfoldable pub ll_to_local_xy_m : Place3 → Place3 → Result Xy
  ll_to_local_xy_m p o = then_check (maths.cos (deg_to_rad o.lat)) (λ cosine. ok (
    maths.times (maths.times (maths.minus (deg_to_rad p.lon) (deg_to_rad o.lon)) cosine)
        earth_radius_m,
    maths.times (maths.minus (deg_to_rad p.lat) (deg_to_rad o.lat)) earth_radius_m,
  ))

  -- `_local_xy_to_ll(x_m, y_m, lat0, lon0)`: the latitude and the longitude. The cosine of a
  -- latitude that passed the checks is not 0.0.
  unfoldable pub local_xy_to_ll : Xy → Place3 → Result Xy
  local_xy_to_ll xy o = then_check (maths.cos (deg_to_rad o.lat)) (λ cosine. ok (
    rad_to_deg (maths.plus (deg_to_rad o.lat) (maths.over xy.1 earth_radius_m)),
    rad_to_deg
        (maths.plus (deg_to_rad o.lon) (maths.over xy.0 (maths.times cosine earth_radius_m))),
  ))

  abbrev pub lerp : Float → Float → Float → Float
  lerp a b t = maths.plus a (maths.times (maths.minus b a) t)

  abbrev pub line_point : Place3 → Place3 → ℕ → PathPoint
  line_point p q i =
      let t = maths.over (of_nat i) (of_nat 5) in
      plain_point (lerp p.lat q.lat t) (lerp p.lon q.lon t) (lerp p.alt_m q.alt_m t)

  -- `_interpolate_line(p, q, segments=5)`
  unfoldable pub interpolate_line : Place3 → Place3 → List PathPoint
  interpolate_line p q = mapped (line_point p q) (range_from 0 6)

  abbrev pub within : String → Float → Float → Bool
  within tolerance a b = float_lt (maths.absolute (maths.minus a b)) (maths.literal tolerance)

  -- The point is the last one again.
  abbrev pub repeats : List Xy → Float → Float → Bool
  repeats [] x y = false
  repeats (last ∷ seen) x y = within "1e-9" last.0 x && within "1e-9" last.1 y

  -- The points so far, the last one first, and whether the far corner is reached.
  abbrev pub Walk : Type 0
  Walk = List Xy × Bool

  unfoldable pub walk_column : Xy → Float → List Float → List Xy → Walk
  unfolding float_lt
  walk_column corner x [] seen = (seen, false)
  walk_column corner x (y ∷ ys) seen =
      let skipped = walk_column corner x ys seen in
      let further = walk_column corner x ys ((x, y) ∷ seen) in
      if repeats seen x y
      then skipped
      else if within "1e-6" x corner.0 && within "1e-6" y corner.1
      then ((x, y) ∷ seen, true)
      else further

  -- A column goes up if its number is even.
  abbrev pub column_ys : Float → ℕ → List Float
  column_ys k_step col =
      let up = mapped (λ j. maths.times (of_nat j) k_step) (range_from 0 6) in
      if nat_eq (col % 2) 0 then up else reversed up

  unfoldable pub walk_columns : Xy → Float → Float → List ℕ → List Xy → Walk
  unfolding walk_column
  walk_columns corner t_step k_step [] seen = (seen, false)
  walk_columns corner t_step k_step (col ∷ cols) seen =
      let walk = walk_column corner (maths.times (of_nat col) t_step) (column_ys k_step col) seen in
      let further = walk_columns corner t_step k_step cols walk.0 in
      if walk.1 then walk else further

  abbrev pub snake_point : Place3 → Place3 → ℕ → ℕ → Xy → Result PathPoint
  snake_point p2 p3 total n xy =
      let progress = maths.over (of_nat n) (of_nat (total - 1)) in
      then_check (local_xy_to_ll xy p2) (λ ll.
        then_check (validate_lat_lon ll.0 ll.1)
          (λ _. ok (plain_point ll.0 ll.1 (lerp p2.alt_m p3.alt_m progress))))

  unfoldable pub snake_points : Place3 → Place3 → ℕ → ℕ → List Xy → Result (List PathPoint)
  unfolding local_xy_to_ll validate_lat_lon
  snake_points p2 p3 total n [] = ok []
  snake_points p2 p3 total n (xy ∷ l) =
      then_check (snake_point p2 p3 total n xy)
        (λ p. then_check (snake_points p2 p3 total (suc n) l) (λ rest. ok (p ∷ rest)))

  -- The points over the rectangle, in metres.
  unfoldable pub snake_xy : Xy → Walk → Result (List Xy)
  snake_xy corner walk =
      let path = with_last corner (with_first (of_nat 0, of_nat 0) (reversed walk.0)) in
      if not walk.1
      then raised value_error
      else if ltb (length path) 2
      then raised value_error
      else ok path

  abbrev pub in_order : Xy → Result (Unit {0})
  in_order corner =
      if float_ge (of_nat 0) corner.0 || float_ge (of_nat 0) corner.1
      then raised value_error
      else ok tt

  abbrev pub joined : Place3 → Place3 → Place3 → List PathPoint → List PathPoint
  joined p1 p2 p3 points =
      interpolate_line p1 p2
      ++ (rest_of (with_last (point_of p3) (with_first (point_of p2) points))
          ++ rest_of (interpolate_line p3 p1))

  -- The route over the points of the rectangle.
  abbrev pub over_points : Place3 → Place3 → Place3 → List Xy → Result (List PathPoint)
  over_points p1 p2 p3 path =
      then_check (snake_points p2 p3 (length path) 0 path) (λ points. ok (joined p1 p2 p3 points))

  abbrev pub walk_over : Xy → Walk
  walk_over corner =
      walk_columns corner (maths.over corner.0 (of_nat 4)) (maths.over corner.1 (of_nat 5))
        (range_from 0 5) []

  abbrev pub snake_over : Place3 → Place3 → Place3 → Xy → Result (List PathPoint)
  snake_over p1 p2 p3 corner =
      then_check (in_order corner)
        (λ _. then_check (snake_xy corner (walk_over corner)) (over_points p1 p2 p3))

  -- `expand_three_points_to_snake_path([a, b, c])`, with the defaults of its segments.
  unfoldable pub expand_three_points_to_snake_path :
      Fields → Fields → Fields → Result (List PathPoint)
  unfolding read_point ll_to_local_xy_m walk_columns snake_xy snake_points interpolate_line float_ge
  expand_three_points_to_snake_path a b c = then_check (read_point rt a) (λ p1.
      then_check (read_point rt b) (λ p2.
        then_check (read_point rt c)
          (λ p3. then_check (ll_to_local_xy_m p3 p2) (snake_over p1 p2 p3))))
