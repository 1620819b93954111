-- ===== src/Monitor/Parse.antt =====
-- `_parse_policies`: the policies that a text gives, as JSON or as `sender,topic,action;...`.
pub mod Validity
use https_gitflic_ru_project.Base.{String, Option, none, some, List, [], ◌∷◌, map, if◌then◌else◌}
use https_gitflic_ru_project.Py.Text.{nonempty, strip, split}
use https_gitflic_ru_project.Py.Value.{Value, dict, list, Items, nil, cons, Runtime, str}
use https_gitflic_ru_project.Monitor.Policy.{PolicyKey, Policies, add, key_of, extract_policy}

abbrev pub add_some : Option PolicyKey → Policies → Policies
add_some none l = l
add_some (some p) l = add p l

-- The parts of one chunk, if they are three.
unfoldable pub policy_of_parts : List String → Option PolicyKey
policy_of_parts (sender ∷ topic ∷ action ∷ []) = key_of sender topic action
policy_of_parts _ = none

-- The loop over `raw.split(";")`. An empty chunk has one part, so the test for it changes nothing.
unfoldable pub parse_chunks : List String → Policies → Policies
unfolding strip split policy_of_parts add
parse_chunks [] parsed = parsed
parse_chunks (chunk ∷ chunks) parsed =
    let c = strip chunk in
    parse_chunks chunks
      (if nonempty c then add_some (policy_of_parts (map strip (split b',' c))) parsed else parsed)

module _ (rt : Runtime) where
  -- One item of a JSON list: a dict, or a list of three.
  unfoldable pub policy_of_item : Value → Option PolicyKey
  unfolding extract_policy str strip
  policy_of_item (dict item) = extract_policy rt item
  policy_of_item (list (cons s (cons t (cons a nil)))) =
      key_of (strip (str rt s)) (strip (str rt t)) (strip (str rt a))
  policy_of_item _ = none

  unfoldable pub parse_items : Items → Policies → Policies
  unfolding policy_of_item add
  parse_items nil parsed = parsed
  parse_items (cons item items) parsed = parse_items items (add_some (policy_of_item item) parsed)

  -- A JSON list is read as one; anything else, valid or not, as text.
  abbrev pub parse_loaded : String → Option Value → Policies
  parse_loaded raw (some (list items)) = parse_items items []
  parse_loaded raw _ = parse_chunks (split b';' raw) []

  unfoldable pub parse_policies : String → Policies
  unfolding strip parse_items parse_chunks split
  parse_policies raw = if nonempty raw then parse_loaded (strip raw) (rt.loads (strip raw)) else []
