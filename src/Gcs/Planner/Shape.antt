-- ===== src/Gcs/Planner/Shape.antt =====
-- The routes that the planner makes of the points of a task, point by point.
use https_gitflic_ru_project.Base.{
  ℕ, String, ◌≡◌, refl, subst, List, [], ◌∷◌, ◌++◌, All, Option, some, none, ap, ◌∙◌, sym,
}
use https_gitflic_ru_project.Py.Value.{
  Value, null, bool, int, float, text, list, dict, Items, nil, cons, Fields, fields_of, Runtime,
  find, get_or,
}
use https_gitflic_ru_project.Py.Act.{ok}
use https_gitflic_ru_project.Py.Float.{Float, of_nat}
use https_gitflic_ru_project.Py.Maths.{Maths}
use https_gitflic_ru_project.Py.Read.{item, found, to_float}
use https_gitflic_ru_project.Py.Read.Outcome.{IfOk, then_check-IfOk, then_check-ok, ok_injective}
use https_gitflic_ru_project.Gcs.Route.{
  PathPoint, Place3, read_point, validate_lat_lon, not_below_ground, number_of_field, get_required,
}
use https_gitflic_ru_project.Gcs.Route.Snake.{plain_point, point_of}
use https_gitflic_ru_project.Gcs.Planner.{seed_point, seed_points}

found_lem : (o : Option Value) (v : Value) → found o ≡ ok v → o ≡ some v
found_lem none v h = cc
found_lem (some w) v h = cc

item-find : (d : Fields) (k : String) (v : Value) → item d k ≡ ok v → find d k ≡ some v
unfolding item
item-find d k v h = found_lem (find d k) v h

module _ (rt : Runtime) (maths : Maths) where
  -- The place of a point of a task; its altitude is 0.0 if it has none.
  pub record IsPlace (v : Value) (p : Place3) : Type 0 where
    pub point : Fields
    pub stands : v ≡ dict point
    pub lat : Value
    pub lon : Value
    pub has_lat : find point "lat" ≡ some lat
    pub has_lon : find point "lon" ≡ some lon
    pub lat_reads : to_float rt lat ≡ ok p.lat
    pub lon_reads : to_float rt lon ≡ ok p.lon
    pub alt_reads : to_float rt (get_or point "alt_m" (float (of_nat 0))) ≡ ok p.alt_m

  -- Point `n` of the five segments from one place to another.
  abbrev pub way_point : Place3 → Place3 → ℕ → PathPoint
  way_point p q n =
      let part = λ (a b : Float).
        maths.plus a (maths.times (maths.over (of_nat n) (of_nat 5)) (maths.minus b a)) in
      plain_point (part p.lat q.lat) (part p.lon q.lon) (part p.alt_m q.alt_m)

  -- The way there and back: eleven points.
  abbrev pub there_and_back : Place3 → Place3 → List PathPoint
  there_and_back p q =
      way_point p q 0
      ∷ way_point p q 1
      ∷ way_point p q 2
      ∷ way_point p q 3
      ∷ way_point p q 4
      ∷ way_point p q 5
      ∷ way_point p q 4
      ∷ way_point p q 3
      ∷ way_point p q 2
      ∷ way_point p q 1
      ∷ way_point p q 0
      ∷ []

  -- Point `n` of the five segments of a leg, which the second generator computes.
  abbrev pub leg_point : Place3 → Place3 → ℕ → PathPoint
  leg_point p q n =
      let part = λ (a b : Float).
        maths.plus a (maths.times (maths.minus b a) (maths.over (of_nat n) (of_nat 5))) in
      plain_point (part p.lat q.lat) (part p.lon q.lon) (part p.alt_m q.alt_m)

  -- The points of a leg after its first.
  abbrev pub leg : Place3 → Place3 → List PathPoint
  leg p q =
      leg_point p q 1 ∷ leg_point p q 2 ∷ leg_point p q 3 ∷ leg_point p q 4 ∷ leg_point p q 5 ∷ []

  -- A latitude and a longitude within their ranges.
  abbrev pub IsOnEarth : PathPoint → Type 0
  IsOnEarth p = validate_lat_lon p.lat p.lon ≡ ok tt

  -- The route of the points of a task: there and back between two; for three, from the first to the
  -- second, over points that are on the earth to the third, and back to the first.
  pub data IsRouteOf : Items → List PathPoint → Type 0 where
    between_two :
        {v w : Value} {route : List PathPoint} (p q : Place3)
        → IsPlace v p
        → IsPlace w q
        → route ≡ there_and_back p q
        → IsRouteOf (cons v (cons w nil)) route
    over_three :
        {u v w : Value} {route : List PathPoint} (p q r : Place3) (inner : List PathPoint)
        → IsPlace u p
        → IsPlace v q
        → IsPlace w r
        → All IsOnEarth inner
        → route ≡ (leg_point p q 0 ∷ leg p q) ++ (inner ++ point_of r ∷ leg r p)
        → IsRouteOf (cons u (cons v (cons w nil))) route

  -- What the planner hands to the generators for a place.
  abbrev pub seed_of : Place3 → Fields
  seed_of p =
      fields_of (("lat", float p.lat) ∷ ("lon", float p.lon) ∷ ("alt_m", float p.alt_m) ∷ [])

  seed_point-IsPlace :
      (v : Value) (s : Fields)
      → seed_point rt maths v ≡ ok s
      → (p : Place3) × IsPlace v p × (s ≡ seed_of p)
  unfolding seed_point
  seed_point-IsPlace (dict d) s h =
      let x = then_check-ok (item d "lat") _ s h in
      let lat = then_check-ok (to_float rt x.0) _ s x.2 in
      let y = then_check-ok (item d "lon") _ s lat.2 in
      let lon = then_check-ok (to_float rt y.0) _ s y.2 in
      let alt = then_check-ok (to_float rt (get_or d "alt_m" (float (of_nat 0)))) _ s lon.2 in
      (
        record { lat = lat.0; lon = lon.0; alt_m = alt.0 },
        record {
          point = d;
          stands = refl;
          lat = x.0;
          lon = y.0;
          has_lat = item-find d "lat" x.0 x.1;
          has_lon = item-find d "lon" y.0 y.1;
          lat_reads = lat.1;
          lon_reads = lon.1;
          alt_reads = alt.1;
        },
        sym (ok_injective alt.2),
      )
  seed_point-IsPlace null s h = cc
  seed_point-IsPlace (bool b) s h = cc
  seed_point-IsPlace (int n) s h = cc
  seed_point-IsPlace (float x) s h = cc
  seed_point-IsPlace (text t) s h = cc
  seed_point-IsPlace (list vs) s h = cc

  -- The places of the points, one by one.
  pub data Seeded : Items → List Fields → Type 0 where
    no_seed : Seeded nil []
    seed :
        {v : Value} {vs : Items} {l : List Fields} (p : Place3)
        → IsPlace v p
        → Seeded vs l
        → Seeded (cons v vs) (seed_of p ∷ l)

  pub seed_points-Seeded :
      (vs : Items) (l : List Fields) → seed_points rt maths vs ≡ ok l → Seeded vs l
  unfolding seed_points
  seed_points-Seeded nil l h = subst (Seeded nil) (ok_injective h) no_seed
  seed_points-Seeded (cons v vs) l h =
      let x = then_check-ok (seed_point rt maths v) _ l h in
      let rest = then_check-ok (seed_points rt maths vs) _ l x.2 in
      let place = seed_point-IsPlace v x.0 x.1 in
      subst (Seeded (cons v vs))
        (ap (λ (y : Fields). y ∷ rest.0) (sym place.2) ∙ ok_injective rest.2)
        (seed place.0 place.1 (seed_points-Seeded vs rest.0 rest.1))

  -- A generator reads the place that it is given.
  pub read_seed : (p : Place3) → IfOk (λ q. q ≡ p) (read_point rt (seed_of p))
  unfolding read_point get_required number_of_field to_float
  read_seed p =
      then_check-IfOk (λ q. q ≡ p) (validate_lat_lon p.lat p.lon) _
        (λ _. then_check-IfOk (λ q. q ≡ p) (not_below_ground rt p.alt_m) _ (λ _. refl))
