-- ===== src/Agro/Autopilot/Geometry.antt =====
-- The numbers of autopilot.py: positions, distances and velocities.
use https_gitflic_ru_project.Base.{not, ◌||◌, if◌then◌else◌}
use https_gitflic_ru_project.Py.Float.{Float, of_nat, float_lt}
use https_gitflic_ru_project.Py.Value.{float, Fields, Runtime, type_error, value_error, get, get_or}
use https_gitflic_ru_project.Py.Act.{Result, ok, raised, Act, pure, raise}
use https_gitflic_ru_project.Py.Read.{then_check, to_float, float_eq}
use https_gitflic_ru_project.Py.Maths.{Maths, of_neg, clamp}

pub record Position : Type 0 where
  pub lat : Float
  pub lon : Float
  pub alt : Float

pub record Velocity3 : Type 0 where
  pub vx : Float
  pub vy : Float
  pub vz : Float

-- `try: ... except (TypeError, ValueError): return` around a computation, and what follows it.
abbrev pub or_return : {S A : Type 0} → Result A → (A → Act S (Unit {0})) → Act S (Unit {0})
or_return (ok a) f = f a
or_return (raised type_error) f = pure tt
or_return (raised value_error) f = pure tt
or_return (raised e) f = raise e

module _ (rt : Runtime) where
  -- `lat`, `lon` and `alt_m` of a state of the navigation or of a step.
  unfoldable pub position : Fields → Result Position
  unfolding get to_float
  position d = then_check (to_float rt (get d "lat")) (λ lat.
      then_check (to_float rt (get d "lon")) (λ lon.
        then_check (to_float rt (get d "alt_m"))
          (λ alt. ok (record { lat = lat; lon = lon; alt = alt }))))

  -- The same in a landing: the altitude first, and zeros for missing coordinates.
  unfoldable pub landing_position : Fields → Result Position
  unfolding get get_or to_float
  landing_position d = then_check (to_float rt (get d "alt_m")) (λ alt.
      then_check (to_float rt (get_or d "lat" (float (of_nat 0)))) (λ lat.
        then_check (to_float rt (get_or d "lon" (float (of_nat 0))))
          (λ lon. ok (record { lat = lat; lon = lon; alt = alt }))))

module _ (maths : Maths) where
  abbrev pub horizontal_distance : Position → Position → Float
  horizontal_distance p t =
      maths.times (maths.hypot (maths.minus t.lat p.lat) (maths.minus t.lon p.lon)) (of_nat 111000)

  -- The distance in metres to a target.
  unfoldable pub distance : Position → Position → Result Float
  distance p t = then_check (maths.power (horizontal_distance p t) (of_nat 2)) (λ flat.
      then_check (maths.power (maths.minus t.alt p.alt) (of_nat 2))
        (λ height. maths.sqrt (maths.plus flat height)))

  -- The course to a target.
  unfoldable pub heading_to : Position → Position → Float
  heading_to p t =
      let d_lat = maths.minus t.lat p.lat in
      let d_lon = maths.minus t.lon p.lon in
      let heading_rad =
        if not (float_eq d_lat (of_nat 0)) || not (float_eq d_lon (of_nat 0))
        then maths.atan2 d_lon d_lat
        else of_nat 0 in
      maths.modulo (maths.plus (maths.degrees heading_rad) (of_nat 360)) (of_nat 360)

  abbrev pub climb_rate : Float → Float
  climb_rate alt_diff =
      if float_lt (maths.absolute alt_diff) (maths.literal "0.2")
      then of_nat 0
      else clamp (of_neg 3) (of_nat 3) (maths.times alt_diff (of_nat 2))

  -- With the default of `max_climb_rate_mps`, which no call overrides.
  unfoldable pub compute_velocity_vectors : Float → Float → Float → Float → Result Velocity3
  unfolding float_lt clamp
  compute_velocity_vectors heading_deg ground_speed_mps current_alt target_alt =
      let heading_rad = maths.radians heading_deg in
      then_check (maths.sin heading_rad) (λ sine. then_check (maths.cos heading_rad) (λ cosine.
        ok (record {
          vx = maths.times ground_speed_mps sine;
          vy = maths.times ground_speed_mps cosine;
          vz = climb_rate (maths.minus target_alt current_alt);
        })))
