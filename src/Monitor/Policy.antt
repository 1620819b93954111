-- ===== src/Monitor/Policy.antt =====
-- The policies of the security monitor: a set of (sender, topic, action), what is allowed by one,
-- and how one is read from a payload.
pub mod Rights
pub mod Validity
use https_gitflic_ru_project.Base.{
  String, Bool, true, false, not, Option, none, some, List, [], ◌∷◌, ◌==◌, ◌&&◌, ◌||◌,
  if◌then◌else◌,
}
use https_gitflic_ru_project.Py.Text.{nonempty, strip, text_lt}
use https_gitflic_ru_project.Py.Value.{
  Value, text, dict, Fields, end, fields_of, attribute_error, Runtime, get, get_or, or_else, str,
  dict_or_empty,
}
use https_gitflic_ru_project.Py.Act.{Result, ok, raised}

-- `PolicyKey = Tuple[str, str, str]`
pub record PolicyKey : Type 0 where
  pub sender : String
  pub topic : String
  pub action : String

abbrev pub key_eq : PolicyKey → PolicyKey → Bool
key_eq p q = p.sender == q.sender && p.topic == q.topic && p.action == q.action

-- A Python set of policies: a list with no key twice, whose order means nothing.
abbrev pub Policies : Type 0
Policies = List PolicyKey

unfoldable pub contains : PolicyKey → Policies → Bool
contains p [] = false
contains p (q ∷ l) = key_eq q p || contains p l

-- `policies.add(p)`
unfoldable pub add : PolicyKey → Policies → Policies
unfolding contains
add p l = if contains p l then l else p ∷ l

-- `policies.discard(p)`
unfoldable pub discard : PolicyKey → Policies → Policies
discard p [] = []
discard p (q ∷ l) = let rest = discard p l in if key_eq q p then rest else q ∷ rest

abbrev pub star : String
star = "*"

-- One round of the loop of `_is_allowed`.
abbrev pub admits : String → String → String → PolicyKey → Bool
admits sender_id target_topic target_action p =
    p.sender == sender_id
    && (p.topic == star || p.topic == target_topic)
    && (p.action == star || p.action == target_action)

unfoldable pub any_admits : String → String → String → Policies → Bool
any_admits sender_id target_topic target_action [] = false
any_admits sender_id target_topic target_action (p ∷ l) =
    admits sender_id target_topic target_action p
    || any_admits sender_id target_topic target_action l

unfoldable pub is_allowed : Policies → String → String → String → Bool
unfolding contains any_admits
is_allowed policies sender_id target_topic target_action =
    let key : PolicyKey = record {
      sender = sender_id;
      topic = target_topic;
      action = target_action;
    } in
    if contains key policies then true else any_admits sender_id target_topic target_action policies

-- `value.get(...)` is an AttributeError on what is no dict.
abbrev pub as_dict : Value → Result Fields
as_dict (dict d) = ok d
as_dict _ = raised attribute_error

-- A key of three texts, none of them empty.
abbrev pub key_of : String → String → String → Option PolicyKey
key_of sender topic action =
    if not (nonempty sender) || not (nonempty topic) || not (nonempty action)
    then none
    else some (record { sender = sender; topic = topic; action = action })

unfoldable pub policy_to_dict : PolicyKey → Fields
policy_to_dict p =
    fields_of (("sender", text p.sender) ∷ ("topic", text p.topic) ∷ ("action", text p.action) ∷ [])

-- Tuples of texts compare from the left.
abbrev pub key_lt : PolicyKey → PolicyKey → Bool
key_lt p q =
    if p.sender == q.sender
    then if p.topic == q.topic then text_lt p.action q.action else text_lt p.topic q.topic
    else text_lt p.sender q.sender

unfoldable pub insert_sorted : PolicyKey → Policies → Policies
insert_sorted p [] = p ∷ []
insert_sorted p (q ∷ l) = if key_lt q p then q ∷ insert_sorted p l else p ∷ q ∷ l

-- `sorted(policies)`
unfoldable pub sorted : Policies → Policies
unfolding insert_sorted
sorted [] = []
sorted (p ∷ l) = insert_sorted p (sorted l)

-- What a proxied message is to be sent to, and with which data.
pub record Target : Type 0 where
  pub target_topic : String
  pub target_action : String
  pub target_payload : Fields

module _ (rt : Runtime) where
  -- `str(fields.get(key, "")).strip()`
  unfoldable pub stripped : Fields → String → String
  unfolding strip str get_or
  stripped d k = strip (str rt (get_or d k (text "")))

  unfoldable pub extract_policy : Fields → Option PolicyKey
  unfolding stripped
  extract_policy payload =
      key_of (stripped payload "sender") (stripped payload "topic") (stripped payload "action")

  abbrev pub target_in : Fields → Fields → Option Target
  target_in payload target =
      if not (nonempty (stripped target "topic")) || not (nonempty (stripped target "action"))
      then none
      else some (record {
        target_topic = stripped target "topic";
        target_action = stripped target "action";
        target_payload = dict_or_empty (or_else (get_or payload "data" (dict end)) (dict end));
      })

  abbrev pub target_of : Fields → Result Fields → Result (Option Target)
  target_of payload (ok target) = ok (target_in payload target)
  target_of payload (raised e) = raised e

  unfoldable pub extract_target : Fields → Result (Option Target)
  unfolding get stripped get_or
  extract_target payload = target_of payload (as_dict (or_else (get payload "target") (dict end)))
