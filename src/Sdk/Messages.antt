-- ===== src/Sdk/Messages.antt =====
-- sdk/messages.py: the message protocol. A timestamp is an argument, read from the clock by the
-- caller.
use https_gitflic_ru_project.Base.{String, Bool, Option, none, some, [], ◌∷◌, if◌then◌else◌}
use https_gitflic_ru_project.Py.Text.{nonempty}
use https_gitflic_ru_project.Py.Value.{
  Value, null, bool, text, dict, Fields, end, field, fields_of, get, get_or, put,
}

-- A dataclass does not check its fields, so each is any value; None is `null`.
pub record Message : Type 0 where
  pub action : Value
  pub payload : Value
  pub sender : Value
  pub correlation_id : Value
  pub reply_to : Value
  pub timestamp : Value

-- `{k: v for k, v in ... if v is not None}`, one key at a time.
abbrev pub unless_null : String → Value → Fields → Fields
unless_null k null rest = rest
unless_null k v rest = field k v rest

unfoldable pub to_dict : Message → Fields
to_dict m = unless_null "action" m.action (
    unless_null "payload" m.payload (
      unless_null "sender" m.sender (
        unless_null "correlation_id" m.correlation_id
          (unless_null "reply_to" m.reply_to (unless_null "timestamp" m.timestamp end)))))

unfoldable pub from_dict : String → Fields → Message
unfolding get get_or
from_dict timestamp d = record {
  action = get_or d "action" (text "");
  payload = get_or d "payload" (dict end);
  sender = get_or d "sender" (text "");
  correlation_id = get d "correlation_id";
  reply_to = get d "reply_to";
  timestamp = get_or d "timestamp" (text timestamp);
}

abbrev pub dead_letter_topic : String
dead_letter_topic = "errors.dead_letters"

-- `error: Optional[str]`; a text that is empty adds no key.
abbrev pub with_error : Option String → Fields → Fields
with_error none d = d
with_error (some e) d = if nonempty e then put d "error" (text e) else d

unfoldable pub create_response : Value → Fields → String → Bool → Option String → String → Fields
unfolding put
create_response correlation_id payload sender success error timestamp = with_error error (
    fields_of (
      ("action", text "response")
      ∷ ("payload", dict payload)
      ∷ ("sender", text sender)
      ∷ ("correlation_id", correlation_id)
      ∷ ("success", bool success)
      ∷ ("timestamp", text timestamp)
      ∷ []))

unfoldable pub create_dead_letter : Fields → String → String → String → Fields
unfolding get
create_dead_letter original_message sender error timestamp = fields_of (
    ("action", text "dead_letter")
    ∷ ("sender", text sender)
    ∷ ("error", text error)
    ∷ ("original_action", get original_message "action")
    ∷ ("original_sender", get original_message "sender")
    ∷ ("original_payload", get original_message "payload")
    ∷ ("timestamp", text timestamp)
    ∷ [])
