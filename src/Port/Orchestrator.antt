-- ===== src/Port/Orchestrator.antt =====
-- systems/drone_port/src/orchestrator/src/orchestrator.py: passes the list of ready drones on.
use https_gitflic_ru_project.Base.{Option, none, some, [], ◌∷◌, if◌then◌else◌}
use https_gitflic_ru_project.Py.Value.{
  Value, text, list, Items, nil, Fields, get, get_or, dict_or_empty,
}
use https_gitflic_ru_project.Py.Act.{pure, read, request, ◌>>=◌}
use https_gitflic_ru_project.Sdk.Component.{Handler}
use https_gitflic_ru_project.Port.Place.{Place, topic, call, reply}
use https_gitflic_ru_project.Port.Drones.{failure, succeeds}

-- `drones if isinstance(drones, list) else []`
abbrev pub list_or_empty : Value → Items
list_or_empty (list vs) = vs
list_or_empty _ = nil

abbrev pub drones_in : Option Fields → Items
drones_in none = nil
drones_in (some response) =
    list_or_empty (get_or (dict_or_empty (get response "payload")) "drones" (list nil))

unfoldable pub handle_available_drones : Handler Place
unfolding get get_or
handle_available_drones message = do
  p ← read (λ p. p)
  response ← request (topic p "registry") (call "get_available_drones" [])
  if succeeds response
      then pure (
          reply
            (("drones", list (drones_in response)) ∷ ("from", text p.component.component_id) ∷ []))
      else failure "Failed to get available drones"
