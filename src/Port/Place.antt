-- ===== src/Port/Place.antt =====
-- What the components of the port share: their topics (sdk/topic_naming.py) and how they read a
-- message and an answer.
use Prim.Native.String.{◌++◌ as append}
use https_gitflic_ru_project.Base.{
  String, Bool, not, ◌||◌, Option, none, some, List, [], ◌∷◌, if◌then◌else◌,
}
use https_gitflic_ru_project.Py.Text.{nonempty, strip}
use https_gitflic_ru_project.Py.Value.{
  Value, null, text, dict, Fields, end, field, fields_of, Runtime, get, str, truthy,
}
use https_gitflic_ru_project.Sdk.Component.{Component}

-- `SYSTEM_NAMESPACE` and `SYSTEM_NAME` of the environment, read when the topics are built.
pub record Place : Type 0 where
  pub component : Component
  pub namespace : String
  pub system : String

unfoldable pub build_component_topic : String → String → String → String
build_component_topic namespace system suffix =
    append (if nonempty namespace then append namespace "." else "")
      (append "components." (append system (append "." suffix)))

-- `ComponentTopics.X` and `RegistryTopics.X`
abbrev pub topic : Place → String → Value
topic p suffix = text (build_component_topic p.namespace p.system suffix)

-- `_extract_payload(response)`
unfoldable pub payload_or_response : Value → Fields → Fields
payload_or_response (dict payload) response = payload
payload_or_response _ response = response

unfoldable pub extract_payload : Option Fields → Fields
unfolding get payload_or_response
extract_payload none = end
extract_payload (some end) = end
extract_payload (some (field k v d)) =
    payload_or_response (get (field k v d) "payload") (field k v d)

-- `not drone_id or not str(drone_id).strip()`
unfoldable pub is_blank : Runtime → Value → Bool
unfolding str strip
is_blank rt v = not (truthy v) || not (nonempty (strip (str rt v)))

-- `{"action": action, "payload": payload}`
abbrev pub call : String → List (String × Value) → Fields
call action payload =
    fields_of (("action", text action) ∷ ("payload", dict (fields_of payload)) ∷ [])

-- The same with `"sender": self.component_id` behind.
abbrev pub call_from : Place → String → List (String × Value) → Fields
call_from p action payload = fields_of (
    ("action", text action)
    ∷ ("payload", dict (fields_of payload))
    ∷ ("sender", text p.component.component_id)
    ∷ [])

abbrev pub reply : List (String × Value) → Option Fields
reply l = some (fields_of l)

-- The payload, with None for an empty one; none for what is no dict.
abbrev pub dict_or_none : Value → Option Fields
dict_or_none null = some end
dict_or_none (dict d) = some d
dict_or_none _ = none

-- The payload where it is a dict.
abbrev pub only_dict : Value → Option Fields
only_dict (dict d) = some d
only_dict _ = none
