-- ===== src/Gcs/Planner/Routes.antt =====
-- The routes of the generators are those of the points that they are given.
use https_gitflic_ru_project.Base.{
  ℕ, suc, ◌≤◌, Bool, ◌≡◌, refl, arith, List, [], ◌∷◌, ◌++◌, length, ltb, not, Bool-cases, inl, inr,
  All, ap, ◌∙◌,
}
use https_gitflic_ru_project.Py.Value.{
  Items, Fields, Runtime, type_error, value_error, attribute_error, key_error, index_error,
  overflow_error,
}
use https_gitflic_ru_project.Py.Act.{Result, ok, raised}
use https_gitflic_ru_project.Py.Float.{of_nat}
use https_gitflic_ru_project.Py.Maths.{Maths}
use https_gitflic_ru_project.Py.Read.{to_float, then_check}
use https_gitflic_ru_project.Py.Read.Outcome.{
  IfOk, IfOk-map, IfOk-ok, then_check-IfOk, then_check-IfOk_both,
}
use https_gitflic_ru_project.Gcs.Route.{
  PathPoint, Place3, read_point, read_params, number_of_field, different, reversed, first_items,
  validate_lat_lon, expand_two_points_to_path,
}
use https_gitflic_ru_project.Gcs.Route.Snake.{
  Xy, rest_of, with_first, with_last, interpolate_line, point_of, snake_points, snake_point,
  snake_xy, local_xy_to_ll, joined, snake_over, ll_to_local_xy_m, in_order,
  expand_three_points_to_snake_path, over_points, walk_over,
}
use https_gitflic_ru_project.Gcs.Planner.{seed_points, as_bad_points, route_of, build_route}
use https_gitflic_ru_project.Gcs.Planner.Shape.{
  there_and_back, leg_point, leg, IsOnEarth, IsRouteOf, between_two, over_three, seed_of, Seeded,
  no_seed, seed, read_seed, seed_points-Seeded,
}

IfOk-itself : (r : Result (Unit {0})) → IfOk (λ _. r ≡ ok tt) r
IfOk-itself (ok a) = refl
IfOk-itself (raised e) = tt

module _ {A : Type 0} (P : A → Type 0) where
  All-first_items : (l : List A) → All P l → All P (first_items l)
  All-first_items [] h = tt
  All-first_items (x ∷ []) h = tt
  All-first_items (x ∷ y ∷ l) h = (h.0, All-first_items (y ∷ l) h.1)

-- The last item is put in place of the last one.
with_last_lem :
    {A : Type 0} (b x : A) (l : List A) → with_last b (x ∷ l) ≡ first_items (x ∷ l) ++ b ∷ []
with_last_lem b x [] = refl
with_last_lem b x (y ∷ l) = ap (λ (t : List _). x ∷ t) (with_last_lem b y l)

-- A list with its ends replaced, without its first: the inner items of the list and the new last one.
inner_lem :
    {A : Type 0} (P : A → Type 0) (a b : A) (l : List A)
    → 2 ≤ length l
    → All P l
    → (inner : List A) × All P inner × (rest_of (with_last b (with_first a l)) ≡ inner ++ b ∷ [])
inner_lem P a b [] n h = absurd (ground arith)
inner_lem P a b (x ∷ []) n h = absurd (ground arith)
inner_lem P a b (x ∷ y ∷ l) n h =
    (first_items (y ∷ l), All-first_items P (y ∷ l) h.1, with_last_lem b y l)

append-snoc : {A : Type 0} (l : List A) (b : A) (m : List A) → (l ++ b ∷ []) ++ m ≡ l ++ b ∷ m
append-snoc [] b m = refl
append-snoc (x ∷ l) b m = ap (λ (t : List _). x ∷ t) (append-snoc l b m)

module _ (rt : Runtime) (maths : Maths) where
  -- The generator of a way there and back, of the places of its ends.
  two-IsRoute :
      (p q : Place3)
      → IfOk
          (λ route. route ≡ there_and_back rt maths p q)
          (expand_two_points_to_path rt maths (seed_of rt maths p) (seed_of rt maths q))
  unfolding expand_two_points_to_path read_params number_of_field to_float
  two-IsRoute p q =
      let Way = λ (route : List PathPoint). route ≡ there_and_back rt maths p q in
      then_check-IfOk_both (λ x. x ≡ p) Way (read_point rt (seed_of rt maths p)) _
        (read_seed rt maths p)
        (λ x e.
          then_check-IfOk_both (λ y. y ≡ q) Way (read_point rt (seed_of rt maths q)) _
            (read_seed rt maths q)
            (λ y k. then_check-IfOk Way (different rt x y) _ (λ _. rw (e, k) refl)))

  -- A route over three places.
  abbrev IsOver : Place3 → Place3 → Place3 → List PathPoint → Type 0
  IsOver p q r route =
      (inner : List PathPoint) × All (IsOnEarth rt maths) inner
      × (route
          ≡ (leg_point rt maths p q 0 ∷ leg rt maths p q)
            ++ (inner ++ point_of r ∷ leg rt maths r p))

  -- Points on the earth, as many as a list has.
  abbrev AreOnEarth : ℕ → List PathPoint → Type 0
  AreOnEarth n points = (length points ≡ n) × All (IsOnEarth rt maths) points

  snake_point-IsOnEarth :
      (p2 p3 : Place3) (total n : ℕ) (xy : Xy)
      → IfOk (IsOnEarth rt maths) (snake_point rt maths p2 p3 total n xy)
  snake_point-IsOnEarth p2 p3 total n xy =
      then_check-IfOk (IsOnEarth rt maths) (local_xy_to_ll rt maths xy p2) _ (λ ll.
        then_check-IfOk_both (λ _. validate_lat_lon ll.0 ll.1 ≡ ok tt) (IsOnEarth rt maths)
          (validate_lat_lon ll.0 ll.1) _ (IfOk-itself (validate_lat_lon ll.0 ll.1)) (λ _ e. e))

  snake_points-AreOnEarth :
      (p2 p3 : Place3) (total n : ℕ) (l : List Xy)
      → IfOk (AreOnEarth (length l)) (snake_points rt maths p2 p3 total n l)
  unfolding snake_points
  snake_points-AreOnEarth p2 p3 total n [] = (refl, tt)
  snake_points-AreOnEarth p2 p3 total n (xy ∷ l) =
      then_check-IfOk_both (IsOnEarth rt maths) (AreOnEarth (suc (length l)))
        (snake_point rt maths p2 p3 total n xy) _ (snake_point-IsOnEarth p2 p3 total n xy)
        (λ p e.
          then_check-IfOk_both (AreOnEarth (length l)) (AreOnEarth (suc (length l)))
            (snake_points rt maths p2 p3 total (suc n) l) _
            (snake_points-AreOnEarth p2 p3 total (suc n) l) (λ rest h. (ap suc h.0, (e, h.1))))

  snake_xy-Two :
      (corner : Xy) (walk : List Xy × Bool)
      → IfOk (λ path. 2 ≤ length path) (snake_xy rt maths corner walk)
  unfolding snake_xy
  snake_xy-Two corner walk =
      let path = with_last corner (with_first (of_nat 0, of_nat 0) (reversed walk.0)) in
      elim (Bool-cases (not walk.1)) [
        | inl lost ↦ rw lost tt
        | inr done ↦ elim (Bool-cases (ltb (length path) 2)) [
          | inl short ↦ rw (done, short) tt
          | inr long ↦ rw (done, long) (ground arith)
        ]
      ]

  joined-IsOver :
      (p q r : Place3) (n : ℕ) (points : List PathPoint)
      → 2 ≤ n
      → AreOnEarth n points
      → IsOver p q r (joined rt maths p q r points)
  unfolding interpolate_line
  joined-IsOver p q r n points two h =
      let found =
        inner_lem (IsOnEarth rt maths) (point_of q) (point_of r) points (omega (arith, two, h.0))
          h.1 in
      (
        found.0,
        found.1,
        ap (λ (l : List PathPoint). (leg_point rt maths p q 0 ∷ leg rt maths p q) ++ l)
            (ap (λ (l : List PathPoint). l ++ leg rt maths r p) found.2
              ∙ append-snoc found.0 (point_of r) (leg rt maths r p)),
      )

  over_points-IsOver :
      (p q r : Place3) (path : List Xy)
      → 2 ≤ length path
      → IfOk (IsOver p q r) (over_points rt maths p q r path)
  over_points-IsOver p q r path two =
      then_check-IfOk_both (AreOnEarth (length path)) (IsOver p q r)
        (snake_points rt maths q r (length path) 0 path) _
        (snake_points-AreOnEarth q r (length path) 0 path)
        (λ points h. joined-IsOver p q r (length path) points two h)

  snake-IsOver :
      (p q r : Place3) (corner : Xy) → IfOk (IsOver p q r) (snake_over rt maths p q r corner)
  snake-IsOver p q r corner = then_check-IfOk (IsOver p q r) (in_order rt maths corner) _ (λ _.
      then_check-IfOk_both (λ path. 2 ≤ length path) (IsOver p q r)
        (snake_xy rt maths corner (walk_over rt maths corner)) (over_points rt maths p q r)
        (snake_xy-Two corner (walk_over rt maths corner)) (over_points-IsOver p q r))

  three-IsOver :
      (p q r : Place3)
      → IfOk (IsOver p q r) (
          expand_three_points_to_snake_path rt maths
            (seed_of rt maths p)
            (seed_of rt maths q)
            (seed_of rt maths r))
  unfolding expand_three_points_to_snake_path
  three-IsOver p q r =
      then_check-IfOk_both (λ x. x ≡ p) (IsOver p q r) (read_point rt (seed_of rt maths p)) _
        (read_seed rt maths p)
        (λ x e.
          then_check-IfOk_both (λ y. y ≡ q) (IsOver p q r) (read_point rt (seed_of rt maths q)) _
            (read_seed rt maths q)
            (λ y f.
              then_check-IfOk_both (λ z. z ≡ r) (IsOver p q r) (read_point rt (seed_of rt maths r))
                _ (read_seed rt maths r)
                (λ z g.
                  rw (e, f, g)
                    (then_check-IfOk (IsOver p q r) (ll_to_local_xy_m rt maths r q) _
                      (snake-IsOver p q r)))))

  route_of-IsRouteOf :
      (vs : Items) (seeds : List Fields)
      → Seeded rt maths vs seeds
      → IfOk (IsRouteOf rt maths vs) (route_of rt maths seeds)
  unfolding route_of
  route_of-IsRouteOf _ _ no_seed = tt
  route_of-IsRouteOf _ _ (seed p _ no_seed) = tt
  route_of-IsRouteOf _ _ (seed p a (seed q b no_seed)) =
      IfOk-map _ (IsRouteOf rt maths _) (λ route e. between_two p q a b e)
        (expand_two_points_to_path rt maths (seed_of rt maths p) (seed_of rt maths q))
        (two-IsRoute p q)
  route_of-IsRouteOf _ _ (seed p a (seed q b (seed r c no_seed))) =
      IfOk-map (IsOver p q r) (IsRouteOf rt maths _) (λ route h. over_three p q r h.0 a b c h.1 h.2)
        (expand_three_points_to_snake_path rt maths (seed_of rt maths p) (seed_of rt maths q)
          (seed_of rt maths r))
        (three-IsOver p q r)
  route_of-IsRouteOf _ _ (seed p a (seed q b (seed r c (seed t d l)))) = tt

  built-IsRouteOf :
      (vs : Items) (r : Result (List Fields)) (route : List PathPoint)
      → seed_points rt maths vs ≡ r
      → then_check (as_bad_points r) (route_of rt maths) ≡ ok route
      → IsRouteOf rt maths vs route
  built-IsRouteOf vs (ok seeds) route e h =
      IfOk-ok (IsRouteOf rt maths vs) (route_of rt maths seeds) route
        (route_of-IsRouteOf vs seeds (seed_points-Seeded rt maths vs seeds e)) h
  built-IsRouteOf vs (raised type_error) route e h = cc
  built-IsRouteOf vs (raised value_error) route e h = cc
  built-IsRouteOf vs (raised attribute_error) route e h = cc
  built-IsRouteOf vs (raised key_error) route e h = cc
  built-IsRouteOf vs (raised index_error) route e h = cc
  built-IsRouteOf vs (raised overflow_error) route e h = cc

  -- What is built of the points of a task is a route of them.
  pub build_route-IsRouteOf :
      (vs : Items) (route : List PathPoint)
      → build_route rt maths vs ≡ ok route
      → IsRouteOf rt maths vs route
  unfolding build_route
  build_route-IsRouteOf vs route h = built-IsRouteOf vs (seed_points rt maths vs) route refl h
