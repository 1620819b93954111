-- ===== src/Tests/RouteRuns.antt =====
-- The planner and the converter of the ground station on concrete tasks.
use https_gitflic_ru_project.Base.{◌≡◌, refl, [], ◌∷◌}
use https_gitflic_ru_project.Py.Float.{of_nat}
use https_gitflic_ru_project.Py.Value.{
  text, float, list, dict, Items, nil, cons, Fields, fields_of, find,
}
use https_gitflic_ru_project.Py.Read.{to_float}
use https_gitflic_ru_project.Gcs.Route.{read_point, get_required, number_of_field}
use https_gitflic_ru_project.Gcs.Route.Rows.{points_to_wpl, rows_from, row_of}
use https_gitflic_ru_project.Gcs.Converter.{wpl_of}
use https_gitflic_ru_project.Gcs.Converter.Prepares.{at_altitude, altitude_lost}
use https_gitflic_ru_project.Tests.Samples.{rt}

abbrev near : Fields
near = fields_of (("lat", float (of_nat 60)) ∷ ("lon", float (of_nat 30)) ∷ [])

abbrev far : Fields
far = fields_of (("lat", float (of_nat 61)) ∷ ("lon", float (of_nat 30)) ∷ [])

abbrev task : Fields
task = fields_of (("waypoints", list (cons (dict near) (cons (dict far) nil))) ∷ [])

abbrev payload : Fields
payload = fields_of (("mission_id", text "m1") ∷ ("task", dict task) ∷ [])

abbrev message : Fields
message = fields_of (("payload", dict payload) ∷ [])

-- A point without a longitude.
abbrev incomplete : Items
incomplete =
    cons (dict (fields_of (("lat", float (of_nat 60)) ∷ ("alt_m", float (of_nat 5)) ∷ []))) nil

altitude_lost_example : wpl_of rt (at_altitude (float (of_nat 7)) incomplete) ≡ wpl_of rt incomplete
unfolding points_to_wpl rows_from row_of read_point get_required number_of_field to_float find
altitude_lost_example = altitude_lost rt (float (of_nat 7)) incomplete refl refl
