-- ===== src/Agro/Missions/Valid.antt =====
-- Which missions reach the autopilot.
use https_gitflic_ru_project.Base.{
  ℕ, suc, String, ◌≡◌, ◌↔◌, refl, Bool, true, false, Option, none, some, [], ◌∷◌, arith,
  if◌then◌else◌,
}
use https_gitflic_ru_project.Py.Text.{nonempty, is_some}
use https_gitflic_ru_project.Py.Value.{Value, text, list, dict, Items, nil, cons, Fields, find, get}
use https_gitflic_ru_project.Agro.Missions.Wpl.{Formats}
use https_gitflic_ru_project.Agro.Missions.Check.{
  or_later, step_error, steps_error, named_error, validate_mission,
}

-- A step has the coordinates of a point.
abbrev pub IsStep : Fields → Type 0
IsStep step =
    (is_some (find step "lat") ≡ true)
    × (is_some (find step "lon") ≡ true)
    × (is_some (find step "alt_m") ≡ true)

abbrev pub AllSteps : Items → Type 0
AllSteps nil = Unit
AllSteps (cons (dict step) steps) = IsStep step × AllSteps steps
AllSteps (cons v steps) = ⊥

-- A mission that can be flown: it has an id, and at least one step, all of them points.
pub record IsMission (mission : Fields) : Type 0 where
  pub mission_id : String
  pub named : get mission "mission_id" ≡ text mission_id
  pub not_empty : nonempty mission_id ≡ true
  pub first : Value
  pub rest : Items
  pub has_steps : get mission "steps" ≡ list (cons first rest)
  pub points : AllSteps (cons first rest)

or_later-none : (a b : Option String) → or_later a b ≡ none → (a ≡ none) × (b ≡ none)
or_later-none none b h = (refl, h)
or_later-none (some e) b h = ground arith

of_if :
    (b : Bool) (x : Option String) (error : String)
    → (if b then x else some error) ≡ none
    → (b ≡ true) × (x ≡ none)
of_if true x error h = (refl, h)
of_if false x error h = ground arith

module _ (formats : Formats) where
  step_error-IsStep :
      (idx : ℕ) (step : Fields)
      → step_error formats idx step ("lat" ∷ "lon" ∷ "alt_m" ∷ []) ≡ none
      → IsStep step
  step_error-IsStep idx step h = ground arith

  steps_error-AllSteps :
      (idx : ℕ) (steps : Items) → steps_error formats idx steps ≡ none → AllSteps steps
  unfolding steps_error
  steps_error-AllSteps idx nil h = tt
  steps_error-AllSteps idx (cons (dict step) steps) h =
      let parts = or_later-none (step_error formats idx step ("lat" ∷ "lon" ∷ "alt_m" ∷ [])) _ h in
      (step_error-IsStep idx step parts.0, steps_error-AllSteps (suc idx) steps parts.1)
  steps_error-AllSteps idx (cons v steps) h = ground arith

  none_later : (a b : Option String) → a ≡ none → b ≡ none → or_later a b ≡ none
  none_later a b p q = rw (p, q) refl

  IsStep-none :
      (idx : ℕ) (step : Fields)
      → IsStep step
      → step_error formats idx step ("lat" ∷ "lon" ∷ "alt_m" ∷ []) ≡ none
  IsStep-none idx step h = ground (arith, h.0, h.1, h.2)

  AllSteps-none : (idx : ℕ) (steps : Items) → AllSteps steps → steps_error formats idx steps ≡ none
  unfolding steps_error
  AllSteps-none idx nil h = refl
  AllSteps-none idx (cons (dict step) steps) h =
      none_later _ _ (IsStep-none idx step h.0) (AllSteps-none (suc idx) steps h.1)
  AllSteps-none idx (cons v steps) h = ground arith

  from_parts :
      (mission : Fields) (mission_id steps : Value)
      → get mission "mission_id" ≡ mission_id
      → get mission "steps" ≡ steps
      → named_error formats mission_id steps ≡ none
      → IsMission mission
  from_parts mission (text mission_id) (list (cons v vs)) p q h =
      let valid = of_if (nonempty mission_id) (steps_error formats 0 (cons v vs)) _ h in
      record {
        mission_id = mission_id;
        named = p;
        not_empty = valid.0;
        first = v;
        rest = vs;
        has_steps = q;
        points = steps_error-AllSteps 0 (cons v vs) valid.1;
      }
  from_parts mission mission_id steps p q h = ground arith

  -- The check finds nothing wrong with exactly the missions that have an id, a text that is not
  -- empty, and a list of at least one step, all of them points.
  pub validate_mission_iff :
      (mission : Fields) → (validate_mission formats mission ≡ none) ↔ IsMission mission
  unfolding validate_mission
  validate_mission_iff mission = (
    from_parts mission _ _ refl refl,
    λ valid.
        rw (valid.named, valid.not_empty, valid.has_steps)
          (AllSteps-none 0 (cons valid.first valid.rest) valid.points),
  )
