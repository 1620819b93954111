-- ===== src/Agro/Missions/Parsing.antt =====
-- What the parser makes of a text.
use https_gitflic_ru_project.Base.{
  ℕ, suc, String, ◌≡◌, refl, true, not, List, [], ◌∷◌, Bool-cases, inl, inr, arith,
}
use https_gitflic_ru_project.Py.Text.{nonempty, is_some, after}
use https_gitflic_ru_project.Py.Value.{
  Value, null, text, dict, Items, nil, cons, Fields, Runtime, find, get,
}
use https_gitflic_ru_project.Py.Act.{Result, Always, at_ret, AnyCall, Always-lift, Always-if_act}
use https_gitflic_ru_project.Py.Read.{append_item}
use https_gitflic_ru_project.Py.Read.Outcome.{IfOk, then_check-IfOk, IfOk-ok}
use https_gitflic_ru_project.Agro.Missions.Wpl.{
  Formats, Row, Parsed, parsed, failed, step, added, unless_failed, parse_line, parse_lines,
  with_waypoints, parse_text, parse_wpl,
}
use https_gitflic_ru_project.Agro.Missions.Valid.{IsStep, AllSteps, IsMission}

abbrev pub IfParsed : {A : Type 0} → (A → Type 0) → Parsed A → Type 0
IfParsed P (parsed a) = P a
IfParsed P (failed error) = Unit

append-AllSteps :
    (steps : Items) (d : Fields) → AllSteps steps → IsStep d → AllSteps (append_item steps (dict d))
append-AllSteps nil d h k = (k, tt)
append-AllSteps (cons (dict step) steps) d h k = (h.0, append-AllSteps steps d h.1 k)
append-AllSteps (cons v steps) d h k = ground arith

module _ (rt : Runtime) (formats : Formats) where
  added-AllSteps :
      (steps : Items) (home : Value) (row : Row)
      → AllSteps steps
      → AllSteps (added rt formats steps home row).0
  unfolding find
  added-AllSteps steps home row h = elim (Bool-cases row.is_home) [
    | inl e ↦ rw e h
    | inr e ↦ elim (Bool-cases row.is_waypoint) [
      | inl f ↦ rw (e, f) (append-AllSteps steps _ h (refl, refl, refl))
      | inr f ↦ rw (e, f) h
    ]
  ]

  abbrev Steps : Parsed (Items × Value) → Type 0
  Steps p = IfParsed (λ x. AllSteps x.0) p

  unless_failed-Steps :
      (r : Parsed Row) (f : Row → Result (Parsed (Items × Value)))
      → ((row : Row) → IfOk Steps (f row))
      → IfOk Steps (unless_failed r f)
  unless_failed-Steps (parsed row) f h = h row
  unless_failed-Steps (failed error) f h = tt

  parse_lines-AllSteps :
      (i : ℕ) (lines : List String) (steps : Items) (home : Value)
      → AllSteps steps
      → IfOk Steps (parse_lines rt formats i lines steps home)
  unfolding parse_lines
  parse_lines-AllSteps i [] steps home h = h
  parse_lines-AllSteps i (line ∷ lines) steps home h =
      then_check-IfOk Steps (parse_line rt formats i line) _ (λ r.
        unless_failed-Steps r _
          (λ row. parse_lines-AllSteps (suc i) lines _ _ (added-AllSteps steps home row h)))

  module _ {S : Type 0} (wpl mission_id : String) (named : nonempty mission_id ≡ true) where
    abbrev Good : Result (Parsed Fields) × S → Type 0
    Good r = IfOk (IfParsed IsMission) r.0

    with_waypoints-Good :
        (p : Parsed (Items × Value)) (s : S)
        → Steps p
        → Always AnyCall AnyCall Good (with_waypoints rt formats (text mission_id) p s)
    unfolding with_waypoints get find
    with_waypoints-Good (failed error) s h = at_ret tt
    with_waypoints-Good (parsed (nil, home)) s h = at_ret tt
    with_waypoints-Good (parsed (cons v vs, home)) s h = rw named (
        at_ret (record {
          mission_id = mission_id;
          named = refl;
          not_empty = named;
          first = v;
          rest = vs;
          has_steps = refl;
          points = h;
        }))

    parse_text-Good :
        (lines : List String) (s : S)
        → Always AnyCall AnyCall Good (parse_text rt formats (text mission_id) lines s)
    unfolding parse_text
    parse_text-Good [] s = at_ret tt
    parse_text-Good (header ∷ lines) s =
        Always-if_act (not (is_some (after "QGC WPL" (formats.upper header)))) _ _ s
          (λ h. at_ret tt)
          (λ h.
            Always-lift (parse_lines rt formats 1 lines nil null) _ s (λ e. tt)
              (λ p e.
                with_waypoints-Good p s
                  (IfOk-ok Steps _ p (parse_lines-AllSteps 1 lines nil null tt) e)))

    -- Whatever the text is, a mission that the parser makes of it for an id that is not empty is
    -- one that the check of missions accepts: it has this id and steps that are points.
    pub parse_wpl-IsMission :
        (s : S)
        → Always AnyCall AnyCall
            (λ r. IfOk (IfParsed IsMission) r.0)
            (parse_wpl rt formats wpl (text mission_id) s)
    unfolding parse_wpl
    parse_wpl-IsMission s =
        Always-if_act (nonempty wpl) _ _ s (λ h. parse_text-Good _ s) (λ h. at_ret tt)
