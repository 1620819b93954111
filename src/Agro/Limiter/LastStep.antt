-- ===== src/Agro/Limiter/LastStep.antt =====
-- What the limiter reads of a mission.
use https_gitflic_ru_project.Base.{◌≡◌, some}
use https_gitflic_ru_project.Py.Maths.{Maths}
use https_gitflic_ru_project.Py.Value.{Value, list, Items, cons, Fields, Runtime, get}
use https_gitflic_ru_project.Agro.Limiter.State.{Limiter}
use https_gitflic_ru_project.Agro.Limiter.Judge.{last_item, last_of, measure, recalculate_for}

-- Two missions with the same last step are judged alike at every position: the steps before the
-- last one, so the route, do not count.
pub recalculate_last :
    (rt : Runtime) (maths : Maths) (mission other nav : Fields) (v w : Value) (vs ws : Items)
    (s : Limiter)
    → get mission "steps" ≡ list (cons v vs)
    → get other "steps" ≡ list (cons w ws)
    → last_item v vs ≡ last_item w ws
    → recalculate_for rt maths (some (mission, nav)) s
      ≡ recalculate_for rt maths (some (other, nav)) s
unfolding recalculate_for measure last_of
recalculate_last rt maths mission other nav v w vs ws s p q h = rw (p, q, h)
