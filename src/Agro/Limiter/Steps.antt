-- ===== src/Agro/Limiter/Steps.antt =====
-- The states of the limiter as a step relation.
use https_gitflic_ru_project.Base.{
  ◌≡◌, refl, Bool, true, false, ◌||◌, Option, none, some, [], ◌∷◌, Bool-cases, inl, inr, arith,
}
use https_gitflic_ru_project.Py.Float.{Float, float_lt}
use https_gitflic_ru_project.Py.Maths.{Maths}
use https_gitflic_ru_project.Py.Value.{
  Value, text, list, nil, Fields, Runtime, get, or_else, truthy,
}
use https_gitflic_ru_project.Py.Act.{Tree, Result, ok, raised, lift, go_on, ◌>>=◌}
use https_gitflic_ru_project.Py.Run.{Env, Messages, run}
use https_gitflic_ru_project.Agro.Limiter.Measured.{
  Measures, Computed, Measures-Computed, Computed-Measures,
}
use https_gitflic_ru_project.Agro.Limiter.State.{
  Limiter, LimiterState, normal, warning, emergency, is_emergency, is_warning, deviations,
  warning_details, log_message, event_message, log_to_journal, publish_emergency,
}
use https_gitflic_ru_project.Agro.Limiter.Judge.{
  Position, readable, positions, distance_of, alt_deviation, judge, judge_positions, measure,
  last_of, watched, recalculate_for, recalculate,
}

-- More than the limits, and more than half of them.
abbrev pub exceeds : Limiter → Float → Float → Bool
exceeds s distance alt_dev =
    float_lt s.max_distance distance || float_lt s.max_alt_deviation alt_dev

abbrev pub strays : Maths → Limiter → Float → Float → Bool
strays maths s distance alt_dev =
    float_lt (maths.times (maths.literal "0.5") s.max_distance) distance
    || float_lt (maths.times (maths.literal "0.5") s.max_alt_deviation) alt_dev

abbrev pub to_monitor : Limiter → Fields → Value × Fields
to_monitor s m = (text s.place.monitor_topic, m)

module _ (rt : Runtime) (maths : Maths) (s : Limiter) where
  -- What a recalculation does with the deviations that are measured: it sends the alarm if they
  -- exceed the limits and the state was not EMERGENCY, a warning if they do not, but exceed half of
  -- the limits, and the state was not WARNING, and nothing else; without a measurement, nothing.
  pub data Judged : Limiter → Messages → Type 0 where
    unjudged : ((d a : Float) → ¬ Measures rt maths s d a) → Judged s []
    alarmed :
        (d a : Float)
        → Measures rt maths s d a
        → exceeds s d a ≡ true
        → is_emergency s.state ≡ false
        → Judged
            (record s { state = emergency })
            (to_monitor s (log_message s "LIMITER_EMERGENCY_LAND_REQUIRED" (deviations s d a))
              ∷ to_monitor s (event_message s (deviations s d a))
              ∷ [])
    still_exceeds :
        (d a : Float)
        → Measures rt maths s d a
        → exceeds s d a ≡ true
        → s.state ≡ emergency
        → Judged s []
    warned :
        (d a : Float)
        → Measures rt maths s d a
        → exceeds s d a ≡ false
        → strays maths s d a ≡ true
        → is_warning s.state ≡ false
        → Judged
            (record s { state = warning })
            (to_monitor s (log_message s "LIMITER_DEVIATION_WARNING" (warning_details d a)) ∷ [])
    still_strays :
        (d a : Float)
        → Measures rt maths s d a
        → exceeds s d a ≡ false
        → strays maths s d a ≡ true
        → s.state ≡ warning
        → Judged (record s { state = warning }) []
    calmed :
        (d a : Float)
        → Measures rt maths s d a
        → exceeds s d a ≡ false
        → strays maths s d a ≡ false
        → Judged (record s { state = normal }) []

is_emergency_lem : (x : LimiterState) → is_emergency x ≡ true → x ≡ emergency
is_emergency_lem x h = ground arith

is_warning_lem : (x : LimiterState) → is_warning x ≡ true → x ≡ warning
is_warning_lem x h = ground arith

module _ (rt : Runtime) (maths : Maths) (env : Env) (s : Limiter) where
  abbrev Ran : Tree (Result (Unit {0}) × Limiter) → Type 0
  Ran t = Judged rt maths s (run env t).0.1 (run env t).1

  judge-Judged : (d a : Float) → Measures rt maths s d a → Ran (judge rt maths d a s)
  unfolding judge log_to_journal publish_emergency
  judge-Judged d a m = elim (Bool-cases (exceeds s d a)) [
    | inl e ↦ elim (Bool-cases (is_emergency s.state)) [
      | inl f ↦ rw (run, e, f) (still_exceeds d a m e (is_emergency_lem s.state f))
      | inr f ↦ rw (run, e, f) (alarmed d a m e f)
    ]
    | inr e ↦ elim (Bool-cases (strays maths s d a)) [
      | inl g ↦ elim (Bool-cases (is_warning s.state)) [
        | inl f ↦ rw (run, e, g, f) (still_strays d a m e g (is_warning_lem s.state f))
        | inr f ↦ rw (run, e, g, f) (warned d a m e g f)
      ]
      | inr g ↦ rw (run, e, g) (calmed d a m e g)
    ]
  ]

  -- Nothing happens if something that a measurement needs is not there.
  unmeasured : ((d a : Float) → ¬ Computed rt maths s d a) → Judged rt maths s s []
  unmeasured h = unjudged (λ d a m. h d a (Measures-Computed rt maths s d a m))

  -- The steps of the code, each with what the steps before it have found.
  module _ (mission nav : Fields)
      (watches : watched s.mission s.last_nav ≡ some (mission, nav)) where
    abbrev steps : Value
    steps = or_else (get mission "steps") (list nil)

    module _ (filled : truthy steps ≡ true) (target : Value)
        (ends_there : last_of steps ≡ ok target) where
      distance-Judged :
          (p q : Position) (r : Result Float)
          → readable (positions rt maths nav target) ≡ ok (some (p, q))
          → distance_of rt maths p q ≡ r
          → Ran (go_on (λ distance. judge rt maths distance (alt_deviation rt maths p q)) (r, s))
      distance-Judged p q (ok d) found apart = judge-Judged d (alt_deviation rt maths p q) (
          Computed-Measures rt maths s d (alt_deviation rt maths p q) (record {
            mission = mission;
            nav = nav;
            watches = watches;
            filled = filled;
            target = target;
            ends_there = ends_there;
            here = p;
            there = q;
            found = found;
            apart = apart;
            above = refl;
          }))
      distance-Judged p q (raised e) found apart = unmeasured (λ d a c. cc)

      found-Judged :
          (r : Result (Option (Position × Position)))
          → readable (positions rt maths nav target) ≡ r
          → Ran (go_on (judge_positions rt maths) (r, s))
      unfolding judge_positions
      found-Judged (ok none) found = unmeasured (λ d a c. cc)
      found-Judged (ok (some (p, q))) found =
          distance-Judged p q (distance_of rt maths p q) found refl
      found-Judged (raised e) found = unmeasured (λ d a c. cc)

    target-Judged :
        (r : Result Value)
        → truthy steps ≡ true
        → last_of steps ≡ r
        → Ran (
            go_on
              (λ target.
                lift (readable (positions rt maths nav target)) >>= judge_positions rt maths)
              (r, s))
    target-Judged (ok target) filled ends = found-Judged filled target ends _ refl
    target-Judged (raised e) filled ends = unmeasured (λ d a c. cc)

    measure-Judged : Ran (measure rt maths nav steps s)
    unfolding measure
    measure-Judged = elim (Bool-cases (truthy steps)) [
      | inl e ↦ rw (run, e) (target-Judged (last_of steps) e refl)
      | inr e ↦ rw (run, e) (unmeasured (λ d a c. cc))
    ]

  watched-Judged :
      (w : Option (Fields × Fields))
      → watched s.mission s.last_nav ≡ w
      → Ran (recalculate_for rt maths w s)
  unfolding recalculate_for
  watched-Judged none e = unmeasured (λ d a c. cc)
  watched-Judged (some (mission, nav)) e = measure-Judged mission nav e

  -- A recalculation sends the alarm, and enters the state EMERGENCY, exactly when it measures a
  -- distance from the last step of the mission or a difference in altitude above the limits and the
  -- state was not EMERGENCY; the warning, and enters WARNING, exactly when they are not above the
  -- limits but above half of them and the state was not WARNING; below that the state is NORMAL, and
  -- where nothing can be measured it stays. Nothing else is sent, and no other field changes.
  pub recalculate-Judged :
      Judged rt maths s (run env (recalculate rt maths s)).0.1 (run env (recalculate rt maths s)).1
  unfolding recalculate
  recalculate-Judged = watched-Judged (watched s.mission s.last_nav) refl
