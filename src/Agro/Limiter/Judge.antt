-- ===== src/Agro/Limiter/Judge.antt =====
-- The judgement of a position, `_recalculate`.
use https_gitflic_ru_project.Base.{not, ◌||◌, Option, none, some, if◌then◌else◌}
use https_gitflic_ru_project.Py.Float.{Float, of_nat, float_lt}
use https_gitflic_ru_project.Py.Maths.{Maths}
use https_gitflic_ru_project.Py.Value.{
  Value, text, list, dict, Items, nil, cons, Fields, Runtime, type_error, value_error, key_error,
  get, or_else, truthy,
}
use https_gitflic_ru_project.Py.Act.{Result, ok, raised, Act, pure, lift, read, ◌>>=◌, ◌>>◌}
use https_gitflic_ru_project.Py.Read.{as_dict, to_float, then_check}
use https_gitflic_ru_project.Agro.Limiter.State.{
  Limiter, is_emergency, is_warning, log_to_journal, publish_emergency, set_state, warning_details,
  normal, warning, emergency,
}

-- `value[-1]`, of a value that is not empty; any text does for that of a text.
abbrev pub last_item : Value → Items → Value
last_item v nil = v
last_item v (cons w vs) = last_item w vs

unfoldable pub last_of : Value → Result Value
last_of (list (cons v vs)) = ok (last_item v vs)
last_of (text s) = ok (text s)
last_of (dict d) = raised key_error
last_of _ = raised type_error

pub record Position : Type 0 where
  pub lat : Float
  pub lon : Float
  pub alt : Float

-- `except (TypeError, ValueError): return`
abbrev pub readable : {A : Type 0} → Result A → Result (Option A)
readable (ok a) = ok (some a)
readable (raised type_error) = ok none
readable (raised value_error) = ok none
readable (raised e) = raised e

-- The mission and the last position, if there are both and they are not empty.
abbrev pub watched : Option Fields → Option Fields → Option (Fields × Fields)
watched (some mission) (some nav) =
    if truthy (dict mission)
    then (if truthy (dict nav) then some (mission, nav) else none)
    else none
watched _ _ = none

module _ (rt : Runtime) (maths : Maths) where
  -- The position that a dict has.
  abbrev pub position_in : Value → Result Position
  position_in v = then_check (then_check (as_dict v) (λ d. to_float rt (get d "lat"))) (λ lat.
      then_check (then_check (as_dict v) (λ d. to_float rt (get d "lon"))) (λ lon.
        then_check (then_check (as_dict v) (λ d. to_float rt (get d "alt_m")))
          (λ alt. ok (record { lat = lat; lon = lon; alt = alt }))))

  -- The position of the drone and that of the last step.
  unfoldable pub positions : Fields → Value → Result (Position × Position)
  unfolding get to_float
  positions nav target =
      then_check (position_in (dict nav)) (λ p. then_check (position_in target) (λ q. ok (p, q)))

  -- `((d_lat**2 + d_lon**2) ** 0.5) * 111_000.0`
  unfoldable pub distance_of : Position → Position → Result Float
  distance_of p q = then_check (maths.power (maths.minus p.lat q.lat) (of_nat 2)) (λ a.
      then_check (maths.power (maths.minus p.lon q.lon) (of_nat 2)) (λ b.
        then_check (maths.power (maths.plus a b) (maths.literal "0.5"))
          (λ c. ok (maths.times c (of_nat 111000)))))

  unfoldable pub alt_deviation : Position → Position → Float
  alt_deviation p q = maths.absolute (maths.minus p.alt q.alt)

  -- What follows the deviations.
  unfoldable pub judge : Float → Float → Act Limiter (Unit {0})
  unfolding float_lt log_to_journal publish_emergency
  judge distance alt_dev = do
    s ← read (λ s. s)
    let half = λ (x : Float). maths.times (maths.literal "0.5") x
    if float_lt s.max_distance distance || float_lt s.max_alt_deviation alt_dev
        then (if not (is_emergency s.state)
            then (set_state emergency >> publish_emergency distance alt_dev)
            else pure tt)
        else if float_lt (half s.max_distance) distance
            || float_lt (half s.max_alt_deviation) alt_dev
        then (do
          logged ←
              if not (is_warning s.state)
              then log_to_journal "LIMITER_DEVIATION_WARNING" (warning_details distance alt_dev)
              else pure tt
          set_state warning)
        else set_state normal

  unfoldable pub judge_positions : Option (Position × Position) → Act Limiter (Unit {0})
  unfolding distance_of alt_deviation judge
  judge_positions none = pure tt
  judge_positions (some (p, q)) = do
    distance ← lift (distance_of p q)
    judge distance (alt_deviation p q)

  unfoldable pub measure : Fields → Value → Act Limiter (Unit {0})
  unfolding last_of positions judge_positions
  measure nav steps = if not (truthy steps) then pure tt else (do
    target ← lift (last_of steps)
    found ← lift (readable (positions nav target))
    judge_positions found)

  unfoldable pub recalculate_for : Option (Fields × Fields) → Act Limiter (Unit {0})
  unfolding get measure
  recalculate_for none = pure tt
  recalculate_for (some (mission, nav)) = measure nav (or_else (get mission "steps") (list nil))

  unfoldable pub recalculate : Act Limiter (Unit {0})
  unfolding recalculate_for
  recalculate = do s ← read (λ s. s); recalculate_for (watched s.mission s.last_nav)
