-- ===== src/Sdk/SafeBus.antt =====
-- sdk/safe_bus.py: a bus that lets messages pass only when a monitor approves them, and
-- sdk/security_monitor.py: the monitor that it asks.
pub mod Decides
use https_gitflic_ru_project.Base.{
  String, Bool, true, false, not, ◌||◌, Option, none, some, [], ◌∷◌, if◌then◌else◌,
}
use https_gitflic_ru_project.Py.Value.{
  Value, bool, text, list, dict, Fields, end, fields_of, type_error, get, get_or, or_else, truthy,
  is_text,
}
use https_gitflic_ru_project.Py.Act.{
  Result, ok, raised, Act, pure, lift, now, request, publish, ◌>>=◌,
}
use https_gitflic_ru_project.Py.Read.{as_dict, then_check}
use https_gitflic_ru_project.Sdk.Messages.{dead_letter_topic}
use https_gitflic_ru_project.Sdk.Component.{Handler}

-- `action in _SKIP_ACTIONS`: a list or a dict is not hashable.
unfoldable pub is_exempt_action : Value → Result Bool
is_exempt_action (text a) = ok (
    is_text (text a) "response"
    || is_text (text a) "dead_letter"
    || is_text (text a) "security_blocked")
is_exempt_action (list vs) = raised type_error
is_exempt_action (dict d) = raised type_error
is_exempt_action _ = ok false

-- A decision: whether to let the message pass, and why not.
abbrev pub denied : Value → Value × Value
denied reason = (bool false, reason)

abbrev pub decided : Fields → Value × Value
decided payload = (get_or payload "approved" (bool false), get_or payload "reason" (text ""))

-- The dead letter of a message that is not let through.
abbrev pub blocked_message : Value → Fields → Value → String → Fields
blocked_message topic message reason timestamp = fields_of (
    ("action", text "security_blocked")
    ∷ ("sender", text "safe_bus")
    ∷ ("error", reason)
    ∷ ("target_topic", topic)
    ∷ ("original_action", get message "action")
    ∷ ("original_sender", get message "sender")
    ∷ ("timestamp", text timestamp)
    ∷ [])

module _ (monitor_topic : String) where
  unfoldable pub should_skip : Value → Fields → Result Bool
  unfolding get_or is_exempt_action
  should_skip topic message =
      if is_text topic monitor_topic || is_text topic dead_letter_topic
      then ok true
      else is_exempt_action (get_or message "action" (text ""))

  -- The message that asks the monitor.
  abbrev pub check_message_of : Value → Fields → String → Fields
  check_message_of target_topic message timestamp = fields_of (
      ("action", text "security_check")
      ∷ ("sender", text "safe_bus")
      ∷ (
        "payload",
        dict (
            fields_of (
              ("target_topic", target_topic)
              ∷ ("action", get message "action")
              ∷ ("sender", get message "sender")
              ∷ ("payload", get message "payload")
              ∷ [])),
      )
      ∷ ("timestamp", text timestamp)
      ∷ [])

  -- What the monitor's answer says.
  unfoldable pub decision : Option Fields → Result (Value × Value)
  unfolding get get_or
  decision none = ok (denied (text "security monitor unavailable"))
  decision (some response) =
      if truthy (get response "success")
      then then_check (as_dict (get_or response "payload" (dict end)))
          (λ payload. ok (decided payload))
      else ok (denied (get_or response "error" (text "monitor error")))

  module _ {S : Type 0} where
    unfoldable pub check : Value → Fields → Act S (Value × Value)
    unfolding get decision
    check target_topic message = do
      t ← now
      response ← request (text monitor_topic) (check_message_of target_topic message t)
      lift (decision response)

    -- `publish` of the guarded bus, in terms of that of the inner bus.
    unfoldable pub safe_publish : Value → Fields → Act S Bool
    unfolding get should_skip check
    safe_publish topic message = do
      skip ← lift (should_skip topic message)
      if skip then publish topic message else (do
        answer ← check topic message
        if not (truthy answer.0)
            then (do
              t ← now
              sent ← publish (text dead_letter_topic) (blocked_message topic message answer.1 t)
              pure false)
            else publish topic message)

    unfoldable pub safe_request : Value → Fields → Act S (Option Fields)
    unfolding should_skip check
    safe_request topic message = do
      skip ← lift (should_skip topic message)
      if skip then request topic message else (do
        answer ← check topic message
        if not (truthy answer.0) then pure none else request topic message)

-- `check_message` of the base class approves everything.
abbrev pub approve_all : Value → Value → Value → Value → Result (Value × Value)
approve_all target_topic action sender payload = ok (bool true, text "")

-- `BaseSecurityMonitor`, with its policy `check_message` as an argument: from the topic, the action,
-- the sender and the payload to whether the message may pass, and the reason.
module _ {S : Type 0} (policy : Value → Value → Value → Value → Result (Value × Value)) where
  unfoldable pub handle_security_check : Handler S
  unfolding get get_or
  handle_security_check message = do
    payload ← lift (as_dict (get_or message "payload" (dict end)))
    answer ← lift (
        policy (get_or payload "target_topic" (text "")) (get_or payload "action" (text ""))
          (get_or payload "sender" (text "")) (or_else (get payload "payload") (dict end)))
    pure (some (fields_of (("approved", answer.0) ∷ ("reason", answer.1) ∷ [])))
