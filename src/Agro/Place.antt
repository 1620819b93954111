-- ===== src/Agro/Place.antt =====
-- What the components of the drone share: their topics (topic_utils.py), the check of the sender, and
-- the messages that ask the security monitor to forward (journal_log.py).
use Prim.Native.String.{◌++◌ as append}
use https_gitflic_ru_project.Base.{String, Bool, Option, some, List, [], ◌∷◌}
use https_gitflic_ru_project.Py.Value.{
  Value, text, dict, Fields, end, fields_of, get, is_text, or_else,
}
use https_gitflic_ru_project.Py.Act.{Act, publish, pure, ◌>>=◌}
use https_gitflic_ru_project.Sdk.Component.{Component}

-- `prefix` is `topic_prefix()`, and `monitor_topic` the configured `security_monitor_topic()`.
pub record Place : Type 0 where
  pub component : Component
  pub prefix : String
  pub monitor_topic : String

-- `topic_for(suffix)`
unfoldable pub place_topic : Place → String → String
place_topic p suffix = append p.prefix (append "." suffix)

-- `_is_trusted_sender(message)`
unfoldable pub is_trusted_sender : Place → Fields → Bool
unfolding get
is_trusted_sender p message = is_text (get message "sender") p.monitor_topic

-- A message that asks the monitor to forward `data`.
abbrev pub proxied : String → Place → String → String → Fields → Fields
proxied how p target_topic target_action forwarded = fields_of (
    ("action", text how)
    ∷ ("sender", text p.component.topic)
    ∷ (
      "payload",
      dict (
          fields_of (
            (
              "target",
              dict (fields_of (("topic", text target_topic) ∷ ("action", text target_action) ∷ [])),
            )
            ∷ ("data", dict forwarded)
            ∷ [])),
    )
    ∷ [])

-- An entry for the journal.
abbrev pub entry : String → String → Fields → Fields
entry event source details =
    fields_of (("event", text event) ∷ ("source", text source) ∷ ("details", dict details) ∷ [])

-- `publish_journal_event(bus, sender_topic, event, source=..., details=...)`
unfoldable pub publish_journal_event :
    {S : Type 0} → Place → String → String → Fields → Act S (Unit {0})
unfolding place_topic
publish_journal_event p event source details = do
  sent ←
      publish (text (place_topic p "security_monitor")) (
        proxied "proxy_publish" p (place_topic p "journal") "log_event"
          (entry event source details))
  pure tt

-- `message.get("payload") or {}`
abbrev pub payload_or_empty : Fields → Value
payload_or_empty message = or_else (get message "payload") (dict end)

abbrev pub reply : List (String × Value) → Option Fields
reply l = some (fields_of l)
