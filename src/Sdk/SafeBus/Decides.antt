-- ===== src/Sdk/SafeBus/Decides.antt =====
-- The guarded bus and the monitor together.
use https_gitflic_ru_project.Base.{
  String, ◌≡◌, refl, Bool-cases, inl, inr, true, false, none, some, [], ◌∷◌, if◌then◌else◌,
}
use https_gitflic_ru_project.Py.Value.{
  Value, text, dict, Fields, end, fields_of, find, get, get_or, or_else, truthy,
}
use https_gitflic_ru_project.Py.Act.{Result, ok, ret}
use https_gitflic_ru_project.Py.Run.{Env, run}
use https_gitflic_ru_project.Sdk.Messages.{dead_letter_topic}
use https_gitflic_ru_project.Sdk.SafeBus.{
  should_skip, check_message_of, blocked_message, check, decision, safe_publish, safe_request,
  handle_security_check,
}

module _ (monitor_topic : String) (policy : Value → Value → Value → Value → Result (Value × Value))
    (env : Env) where
  -- The monitor answers the check of the message, and what it answers is a success with what its
  -- handler returns.
  pub record IsMonitored {T : Type 0} (monitor : T) (topic : Value) (message : Fields)
      : Type 0 where
    pub response : Fields
    pub answers :
        env.answer (text monitor_topic) (check_message_of monitor_topic topic message env.clock)
        ≡ some response
    pub success : truthy (get response "success") ≡ true
    pub carries :
        (payload : Fields)
        → handle_security_check policy
            (check_message_of monitor_topic topic message env.clock)
            monitor
          ≡ ret (ok (some payload), monitor)
        → get_or response "payload" (dict end) ≡ dict payload

  -- What the policy says of the message.
  abbrev pub judged : Value → Fields → Result (Value × Value)
  judged topic message =
      policy topic (get message "action") (get message "sender")
        (or_else (get message "payload") (dict end))

  module _ {S T : Type 0} (monitor : T) (topic : Value) (message : Fields) (approved reason : Value)
      (s : S) (monitored : IsMonitored monitor topic message)
      (guarded : should_skip monitor_topic topic message ≡ ok false)
      (says : judged topic message ≡ ok (approved, reason)) where
    abbrev answered : Fields
    answered = fields_of (("approved", approved) ∷ ("reason", reason) ∷ [])

    answer_lem :
        handle_security_check policy
          (check_message_of monitor_topic topic message env.clock)
          monitor
        ≡ ret (ok (some answered), monitor)
    unfolding handle_security_check get_or find
    answer_lem = rw says refl

    decides : decision monitor_topic (some monitored.response) ≡ ok (approved, reason)
    unfolding decision find
    decides = rw (monitored.success, monitored.carries answered answer_lem) refl

    checks : run env (check monitor_topic topic message s) ≡ ((ok (approved, reason), s), [])
    unfolding check
    checks = rw (run, monitored.answers, decides) refl

    -- Where the monitor answers and the message is not exempt, the guarded bus publishes it, or
    -- passes its request on, exactly when the policy approves it; else it publishes a dead letter
    -- with the reason and returns False, or returns None.
    pub safe_bus_decides :
        (run env (safe_publish monitor_topic topic message s) ≡ (
          if truthy approved then ((ok (env.sent topic message), s), (topic, message) ∷ []) else (
            (ok false, s),
            (text dead_letter_topic, blocked_message topic message reason env.clock) ∷ [],
          )))
        × (run env (safe_request monitor_topic topic message s) ≡ (
            if truthy approved
            then ((ok (env.answer topic message), s), [])
            else ((ok none, s), [])))
    unfolding safe_publish safe_request check
    safe_bus_decides = elim (Bool-cases (truthy approved)) [
      | inl e ↦ (
        rw (guarded, run, monitored.answers, decides, e) refl,
        rw (guarded, run, monitored.answers, decides, e) refl,
      )
      | inr e ↦ (
        rw (guarded, run, monitored.answers, decides, e) refl,
        rw (guarded, run, monitored.answers, decides, e) refl,
      )
    ]
