-- ===== src/Agro/Missions/Check.antt =====
-- `_validate_mission` of the mission handler.
use Prim.Native.String.{◌++◌ as append}
use https_gitflic_ru_project.Base.{ℕ, suc, String, Option, none, some, List, [], ◌∷◌, if◌then◌else◌}
use https_gitflic_ru_project.Py.Text.{nonempty}
use https_gitflic_ru_project.Py.Value.{Value, text, list, dict, Items, nil, cons, Fields, find, get}
use https_gitflic_ru_project.Agro.Missions.Wpl.{Formats}

-- The fields of a step, of which the first that is missing is named.
abbrev pub step_error : Formats → ℕ → Fields → List String → Option String
step_error formats idx step [] = none
step_error formats idx step (key ∷ keys) = elim (find step key) [
  | none ↦ some (append "missing_" (append key (append "_in_step_" (formats.number idx))))
  | some v ↦ step_error formats idx step keys
]

abbrev pub or_later : Option String → Option String → Option String
or_later none later = later
or_later (some error) later = some error

-- The loop over the steps, none when nothing is wrong.
unfoldable pub steps_error : Formats → ℕ → Items → Option String
unfolding find
steps_error formats idx nil = none
steps_error formats idx (cons (dict step) steps) =
    or_later (step_error formats idx step ("lat" ∷ "lon" ∷ "alt_m" ∷ []))
      (steps_error formats (suc idx) steps)
steps_error formats idx (cons v steps) = some (append "invalid_step_" (formats.number idx))

abbrev pub all_steps_error : Formats → Value → Option String
all_steps_error formats (list (cons v vs)) = steps_error formats 0 (cons v vs)
all_steps_error formats _ = some "empty_steps"

abbrev pub named_error : Formats → Value → Value → Option String
named_error formats (text mission_id) steps =
    if nonempty mission_id then all_steps_error formats steps else some "invalid_mission_id"
named_error formats _ steps = some "invalid_mission_id"

-- `_validate_mission(mission)`: the error, none for a mission that is valid.
unfoldable pub validate_mission : Formats → Fields → Option String
unfolding get steps_error
validate_mission formats mission =
    named_error formats (get mission "mission_id") (get mission "steps")
