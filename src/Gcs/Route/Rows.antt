-- ===== src/Gcs/Route/Rows.antt =====
-- sdk/wpl_generator_2.py: the text of waypoints.
use Prim.Native.String.{◌++◌ as append}
use https_gitflic_ru_project.Base.{ℕ, suc, String, nat_eq, List, [], ◌∷◌, if◌then◌else◌}
use https_gitflic_ru_project.Py.Float.{Float}
use https_gitflic_ru_project.Py.Value.{
  Value, int, pos, float, dict, Items, nil, cons, Runtime, value_error, str,
}
use https_gitflic_ru_project.Py.Act.{Result, ok, raised}
use https_gitflic_ru_project.Py.Read.{then_check}
use https_gitflic_ru_project.Gcs.Route.{Place3, Params, read_point, read_params, param}

-- `separator.join(texts)`
abbrev pub join : String → List String → String
join separator [] = ""
join separator (s ∷ []) = s
join separator (s ∷ t ∷ l) = append s (append separator (join separator (t ∷ l)))

abbrev pub wpl_header : String
wpl_header = "QGC WPL 110"

module _ (rt : Runtime) where
  abbrev pub float_text : Float → String
  float_text x = str rt (float x)

  abbrev pub number_text : ℕ → String
  number_text n = str rt (int (pos n))

  -- A row, with the defaults of the frame, the command and `autocontinue`.
  unfoldable pub wpl_row : ℕ → Place3 → Params → Float → String
  unfolding str
  wpl_row i p params param4 = join "\t" (
      number_text i
      ∷ number_text (if nat_eq i 0 then 1 else 0)
      ∷ number_text 3
      ∷ number_text 16
      ∷ float_text params.0
      ∷ float_text params.1
      ∷ float_text params.2
      ∷ float_text param4
      ∷ float_text p.lat
      ∷ float_text p.lon
      ∷ float_text p.alt_m
      ∷ number_text 1
      ∷ [])

  -- The row of a point that passes the checks.
  unfoldable pub row_of : ℕ → Value → Result String
  unfolding read_point read_params wpl_row
  row_of i (dict d) = then_check (read_point rt d) (λ p.
      then_check (read_params rt d)
        (λ params. then_check (param rt d "param4") (λ param4. ok (wpl_row i p params param4))))
  row_of i _ = raised value_error

  unfoldable pub rows_from : ℕ → Items → Result (List String)
  unfolding row_of
  rows_from i nil = ok []
  rows_from i (cons v vs) =
      then_check (row_of i v) (λ row. then_check (rows_from (suc i) vs) (λ rows. ok (row ∷ rows)))

  unfoldable pub points_to_wpl : Items → Result String
  unfolding rows_from
  points_to_wpl nil = raised value_error
  points_to_wpl (cons v vs) =
      then_check (rows_from 0 (cons v vs))
        (λ rows. ok (append (join "\n" (wpl_header ∷ rows)) "\n"))
