-- ===== src/Gcs/Converter/Prepares.antt =====
-- What the converter makes of points that do not pass the checks.
use https_gitflic_ru_project.Base.{ℕ, suc, ◌≡◌, refl, sym, ◌∙◌}
use https_gitflic_ru_project.Py.Value.{
  Value, null, bool, int, float, text, list, dict, Items, nil, cons, Fields, field, Runtime,
  value_error, find, get_or,
}
use https_gitflic_ru_project.Py.Act.{raised}
use https_gitflic_ru_project.Gcs.Route.Rows.{points_to_wpl}
use https_gitflic_ru_project.Gcs.Converter.{loose_row, loose_rows, to_wpl, wpl_of}

-- The points with an altitude of theirs, whatever they had.
abbrev pub at_altitude : Value → Items → Items
at_altitude v nil = nil
at_altitude v (cons (dict d) l) = cons (dict (field "alt_m" v d)) (at_altitude v l)
at_altitude v (cons w l) = cons w (at_altitude v l)

module _ (rt : Runtime) (v : Value) where
  row_ignores : (i : ℕ) (d : Fields) → loose_row rt i (field "alt_m" v d) ≡ loose_row rt i d
  unfolding loose_row get_or find
  row_ignores i d = refl

  rows_ignore : (i : ℕ) (l : Items) → loose_rows rt i (at_altitude v l) ≡ loose_rows rt i l
  unfolding loose_rows
  rows_ignore i nil = refl
  rows_ignore i (cons (dict d) l) = rw (row_ignores i d, rows_ignore (suc i) l) refl
  rows_ignore i (cons null l) = rows_ignore (suc i) l
  rows_ignore i (cons (bool b) l) = rows_ignore (suc i) l
  rows_ignore i (cons (int n) l) = rows_ignore (suc i) l
  rows_ignore i (cons (float x) l) = rows_ignore (suc i) l
  rows_ignore i (cons (text t) l) = rows_ignore (suc i) l
  rows_ignore i (cons (list vs) l) = rows_ignore (suc i) l

  text_ignores : (l : Items) → to_wpl rt (at_altitude v l) ≡ to_wpl rt l
  unfolding to_wpl
  text_ignores l = rw (rows_ignore 0 l) refl

  loosened : (l : Items) → points_to_wpl rt l ≡ raised value_error → wpl_of rt l ≡ to_wpl rt l
  unfolding wpl_of
  loosened nil e = refl
  loosened (cons w l) e = rw e refl

  -- Points that fail the checks of the generator, and fail them with the altitude `v` too, are
  -- converted to the same text at both altitudes: `alt_m` is not read.
  pub altitude_lost :
      (l : Items)
      → points_to_wpl rt l ≡ raised value_error
      → points_to_wpl rt (at_altitude v l) ≡ raised value_error
      → wpl_of rt (at_altitude v l) ≡ wpl_of rt l
  altitude_lost l e f = loosened (at_altitude v l) f ∙ text_ignores l ∙ sym (loosened l e)
