-- ===== src/Agro/Missions/Wpl.antt =====
-- systems/agrodron/src/mission_handler/src/wpl_parser.py: waypoints from a text.
use Prim.Native.Char.{Char, code}
use Prim.Native.String.{◌++◌ as append}
use https_gitflic_ru_project.Base.{
  ℕ, zero, suc, ◌/◌, String, Bool, false, not, ◌||◌, ◌&&◌, List, [], ◌∷◌, leb, ltb, nat_eq, length,
  if◌then◌else◌,
}
use https_gitflic_ru_project.Py.Text.{nonempty, strip, split, push_char, is_space, after, is_some}
use https_gitflic_ru_project.Py.Float.{
  Float, positive, negative, infinity, neg_infinity, nan, unit, of_nat,
}
use https_gitflic_ru_project.Py.Value.{
  Value, null, bool, float, text, list, dict, Items, nil, cons, Fields, fields_of, Runtime,
  value_error, index_error, overflow_error, get, truthy,
}
use https_gitflic_ru_project.Py.Act.{Result, ok, raised, Act, pure, lift, now, ◌>>=◌}
use https_gitflic_ru_project.Py.Read.{then_check, to_float, items_count, append_item}

-- How the interpreter writes: `text.upper()`, `str(n)`, `f"{n:03d}"`, and `int(t * 1000)` of the
-- time that the clock shows.
pub record Formats : Type 0 where
  pub upper : String → String
  pub number : ℕ → String
  pub three_digits : ℕ → String
  pub millis : String → String

-- The characters at which `splitlines` ends a line.
unfoldable pub is_break : Char → Bool
is_break c =
    let n = code c in
    leb 10 n && leb n 13 || leb 28 n && leb n 30 || nat_eq n 133 || leb 8232 n && leb n 8233

-- `text.splitlines()`; a carriage return with a line feed ends two lines here, the second empty.
unfoldable pub splitlines : String → List String
unfolding is_break push_char
splitlines String.[] = []
splitlines (String.◌∷◌ c s) =
    let rest = splitlines s in if is_break c then "" ∷ rest else push_char c rest

-- `[line.strip() for line in lines if line.strip()]`
unfoldable pub stripped_lines : List String → List String
unfolding strip
stripped_lines [] = []
stripped_lines (line ∷ lines) =
    let s = strip line in let rest = stripped_lines lines in if nonempty s then s ∷ rest else rest

-- `line.split()`: the pieces between spaces that are not empty.
unfoldable pub pieces : String → List String
unfolding is_space push_char
pieces String.[] = "" ∷ []
pieces (String.◌∷◌ c s) = let rest = pieces s in if is_space c then "" ∷ rest else push_char c rest

abbrev pub nonempty_only : List String → List String
nonempty_only [] = []
nonempty_only (s ∷ l) = if nonempty s then s ∷ nonempty_only l else nonempty_only l

unfoldable pub columns : String → List String
unfolding split pieces
columns line =
    let parts = split 9 line in if ltb (length parts) 12 then nonempty_only (pieces line) else parts

-- `parts[i]`
unfoldable pub column : ℕ → List String → Result String
column i [] = raised index_error
column zero (s ∷ l) = ok s
column (suc i) (s ∷ l) = column i l

pub record Row : Type 0 where
  pub is_home : Bool
  pub is_waypoint : Bool
  pub lat : Float
  pub lon : Float
  pub alt : Float

-- `int(x) == -1`, where `int` truncates.
unfoldable pub truncates_to_home : Float → Result Bool
unfolding unit
truncates_to_home (positive n) = ok false
truncates_to_home (negative n) = ok (nat_eq (n / unit) 1)
truncates_to_home nan = raised value_error
truncates_to_home infinity = raised overflow_error
truncates_to_home neg_infinity = raised overflow_error

-- `int(x) == MAV_CMD_NAV_WAYPOINT`
unfoldable pub truncates_to_waypoint : Float → Result Bool
unfolding unit
truncates_to_waypoint (positive n) = ok (nat_eq (n / unit) 16)
truncates_to_waypoint (negative n) = ok false
truncates_to_waypoint nan = raised value_error
truncates_to_waypoint infinity = raised overflow_error
truncates_to_waypoint neg_infinity = raised overflow_error

-- A mission, or what the parser says is wrong.
pub data Parsed (A : Type 0) : Type 0 where
  parsed : A → Parsed A
  failed : String → Parsed A

abbrev pub unless_failed : {A B : Type 0} → Parsed A → (A → Result (Parsed B)) → Result (Parsed B)
unless_failed (parsed a) f = f a
unless_failed (failed error) f = ok (failed error)

-- `except (ValueError, IndexError)`
abbrev pub caught : String → Result Row → Result (Parsed Row)
caught error (ok r) = ok (parsed r)
caught error (raised value_error) = ok (failed error)
caught error (raised index_error) = ok (failed error)
caught error (raised e) = raised e

-- `{"lat": lat, "lon": lon, "alt_m": alt}`
abbrev pub point : Float → Float → Float → Value
point lat lon alt =
    dict (fields_of (("lat", float lat) ∷ ("lon", float lon) ∷ ("alt_m", float alt) ∷ []))

-- The home of the first step, without its altitude.
abbrev pub home_of : Value → Value
home_of (dict first) = dict (
    fields_of
      (("lat", get first "lat") ∷ ("lon", get first "lon") ∷ ("alt_m", float (of_nat 0)) ∷ []))
home_of v = null

abbrev pub home_or_first : Value → Items → Value
home_or_first null (cons first steps) = home_of first
home_or_first home steps = home

module _ (rt : Runtime) (formats : Formats) where
  abbrev pub number_at : ℕ → List String → Result Float
  number_at i parts = then_check (column i parts) (λ s. to_float rt (text s))

  unfoldable pub read_row : List String → Result Row
  unfolding column to_float truncates_to_home truncates_to_waypoint
  read_row parts = then_check (then_check (number_at 0 parts) truncates_to_home) (λ is_home.
      then_check (then_check (number_at 3 parts) truncates_to_waypoint) (λ is_waypoint.
        then_check (number_at 8 parts) (λ lat. then_check (number_at 9 parts) (λ lon.
          then_check (number_at 10 parts) (λ alt. ok (record {
            is_home = is_home;
            is_waypoint = is_waypoint;
            lat = lat;
            lon = lon;
            alt = alt;
          }))))))

  abbrev pub step : ℕ → Row → Value
  step n row = dict (
      fields_of (
        ("id", text (append "wp-" (formats.three_digits n)))
        ∷ ("lat", float row.lat)
        ∷ ("lon", float row.lon)
        ∷ ("alt_m", float row.alt)
        ∷ ("speed_mps", float (of_nat 5))
        ∷ ("spray", bool false)
        ∷ []))

  abbrev pub error_at : ℕ → String → String
  error_at i what = append "invalid_wpl_line_" (append (formats.number i) what)

  unfoldable pub parse_line : ℕ → String → Result (Parsed Row)
  unfolding columns read_row
  parse_line i line =
      let parts = columns line in
      if ltb (length parts) 12
      then ok (failed (error_at i "_too_few_columns"))
      else caught (error_at i "_parse_error") (read_row parts)

  -- The waypoints and the home after a line.
  abbrev pub added : Items → Value → Row → Items × Value
  added waypoints home row =
      if row.is_home
      then (waypoints, point row.lat row.lon row.alt)
      else if row.is_waypoint
      then (append_item waypoints (step (items_count waypoints) row), home)
      else (waypoints, home)

  -- The loop over the lines, which have the numbers from `i` on.
  unfoldable pub parse_lines : ℕ → List String → Items → Value → Result (Parsed (Items × Value))
  unfolding parse_line
  parse_lines i [] waypoints home = ok (parsed (waypoints, home))
  parse_lines i (line ∷ lines) waypoints home = then_check (parse_line i line) (λ r.
      unless_failed r
        (λ row. let acc = added waypoints home row in parse_lines (suc i) lines acc.0 acc.1))

  module _ {S : Type 0} where
    unfoldable pub with_waypoints : Value → Parsed (Items × Value) → Act S (Parsed Fields)
    with_waypoints mission_id (failed error) = pure (failed error)
    with_waypoints mission_id (parsed (nil, home)) = pure (failed "no_waypoints_in_wpl")
    with_waypoints mission_id (parsed (cons v vs, home)) = do
      mid ←
          if truthy mission_id
          then pure mission_id
          else (do t ← now; pure (text (append "wpl-" (formats.millis t))))
      pure (
          parsed (
            fields_of (
              ("mission_id", mid)
              ∷ ("home", home_or_first home (cons v vs))
              ∷ ("steps", list (cons v vs))
              ∷ [])))

    unfoldable pub parse_text : Value → List String → Act S (Parsed Fields)
    unfolding after parse_lines with_waypoints
    parse_text mission_id [] = pure (failed "empty_wpl")
    parse_text mission_id (header ∷ lines) =
        if not (is_some (after "QGC WPL" (formats.upper header)))
        then pure (failed "invalid_wpl_header")
        else (lift (parse_lines 1 lines nil null) >>= with_waypoints mission_id)

    -- `parse_wpl(wpl_content, mission_id=mission_id)`, of a text.
    unfoldable pub parse_wpl : String → Value → Act S (Parsed Fields)
    unfolding strip splitlines stripped_lines parse_text
    parse_wpl wpl_content mission_id =
        if nonempty wpl_content
        then parse_text mission_id (stripped_lines (splitlines (strip wpl_content)))
        else pure (failed "empty_or_invalid_wpl")
