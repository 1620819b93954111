-- ===== src/Sdk/Component.antt =====
-- sdk/base_component.py: the table of handlers and the dispatch of a message by its action; and
-- `respond` of broker/src/system_bus.py, through which an unknown action is refused.
pub mod Calls
pub mod Outcome
use Prim.Native.String.{◌++◌ as append}
use https_gitflic_ru_project.Base.{
  String, Bool, true, false, not, Option, none, some, List, [], ◌∷◌, ◌==◌, ◌||◌, if◌then◌else◌,
}
use https_gitflic_ru_project.Py.Text.{nonempty}
use https_gitflic_ru_project.Py.Value.{
  Value, bool, text, list, dict, Items, nil, cons, Fields, end, fields_of, Exc, type_error, Runtime,
  get, get_or, truthy, str, is_text,
}
use https_gitflic_ru_project.Py.Act.{
  Tree, ret, Result, ok, raised, Act, bind, pure, lift, publish, now, ◌>>=◌, ◌>>◌,
}
use https_gitflic_ru_project.Sdk.Messages.{create_response, create_dead_letter, dead_letter_topic}

-- The fields of `BaseComponent` other than the bus and the handlers.
pub record Component : Type 0 where
  pub component_id : String
  pub component_type : String
  pub topic : String
  pub running : Bool
  pub journal_topic : String

-- `Callable[[Dict[str, Any]], Optional[Dict[str, Any]]]`, a method of an object with fields `S`.
abbrev pub Handler : Type 0 → Type 0
Handler S = Fields → Act S (Option Fields)

abbrev pub Handlers : Type 0 → Type 0
Handlers S = List (String × Handler S)

-- `self._handlers[action] = handler`
unfoldable pub register_handler : {S : Type 0} → String → Handler S → Handlers S → Handlers S
register_handler action h [] = (action, h) ∷ []
register_handler action h ((a, g) ∷ l) =
    if a == action then (a, h) ∷ l else (a, g) ∷ register_handler action h l

unfoldable pub lookup : {S : Type 0} → String → Handlers S → Option (Handler S)
lookup action [] = none
lookup action ((a, g) ∷ l) = if a == action then some g else lookup action l

-- `self._handlers.get(action)`: a list or a dict is not hashable, and no other value that is not a
-- text equals a key.
unfoldable pub find_handler : {S : Type 0} → Handlers S → Value → Result (Option (Handler S))
unfolding lookup
find_handler hs (text a) = ok (lookup a hs)
find_handler hs (list vs) = raised type_error
find_handler hs (dict d) = raised type_error
find_handler hs _ = ok none

abbrev pub texts : List String → Items
texts [] = nil
texts (s ∷ l) = cons (text s) (texts l)

module _ (rt : Runtime) {S : Type 0} (base : S → Component) where
  -- `self.bus.respond(message, payload, action)`
  unfoldable pub respond : Fields → Fields → String → Act S Bool
  unfolding get
  respond original_message response_payload action =
      let reply_to = get original_message "reply_to" in
      if not (truthy reply_to)
      then pure false
      else publish reply_to (
          fields_of (
            ("action", text action)
            ∷ ("correlation_id", get original_message "correlation_id")
            ∷ ("payload", dict response_payload)
            ∷ []))

  -- The message that `_emit_journal` publishes.
  abbrev pub journal_event : Component → Value → Value → Bool → String → Fields
  journal_event c action sender success error = fields_of (
      ("action", text "log_event")
      ∷ ("sender", text c.topic)
      ∷ (
        "payload",
        dict (
            fields_of (
              ("event", action)
              ∷ ("sender", sender)
              ∷ ("success", bool success)
              ∷ ("error", text error)
              ∷ ("component_id", text c.component_id)
              ∷ [])),
      )
      ∷ [])

  unfoldable pub emit_journal : Value → Value → Bool → String → Act S (Unit {0})
  emit_journal action sender success error s =
      let c = base s in
      if not (nonempty c.journal_topic) || is_text action "log_event"
      then pure tt s
      else (publish (text c.journal_topic) (journal_event c action sender success error) >> pure tt)
          s

  -- What follows a handler that returned.
  unfoldable pub on_result : Fields → Value → Option Fields → Act S (Unit {0})
  unfolding get get_or create_response
  on_result message reply_to none s = pure tt s
  on_result message reply_to (some result) s =
      if truthy reply_to
      then (now >>= λ t.
            publish reply_to (
              create_response (get message "correlation_id") result (base s).component_id true none
                t)
            >> pure tt)
          s
      else pure tt s

  -- The `except Exception as e` of the dispatch.
  unfoldable pub on_error : Fields → Value → Exc → Act S (Unit {0})
  unfolding get create_response create_dead_letter
  on_error message reply_to e s =
      let error = rt.message_of e in
      let id = (base s).component_id in
      if truthy reply_to
      then (now >>= λ t.
            publish reply_to
              (create_response (get message "correlation_id") end id false (some error) t)
            >> pure tt)
          s
      else (now >>= λ t.
            publish (text dead_letter_topic) (create_dead_letter message id error t) >> pure tt)
          s

  -- The `try` around a handler, for each outcome that it has.
  abbrev pub settle :
      Fields → Value → Value → Result (Option Fields) × S → Tree (Result (Unit {0}) × S)
  settle message action sender (ok result, s) =
      (on_result message (get message "reply_to") result >> emit_journal action sender true "") s
  settle message action sender (raised e, s) =
      (on_error message (get message "reply_to") e
          >> emit_journal action sender false (rt.message_of e))
        s

  unfoldable pub unknown_action : Fields → Value → Act S (Unit {0})
  unfolding get str respond create_dead_letter
  unknown_action message action s =
      let error = append "Unknown action: " (str rt action) in
      if truthy (get message "reply_to")
      then (respond message (fields_of (("error", text error) ∷ [])) "error" >> pure tt) s
      else (now >>= λ t.
            publish (text dead_letter_topic)
              (create_dead_letter message (base s).component_id error t)
            >> pure tt)
          s

  unfoldable pub dispatch : Fields → Value → Option (Handler S) → Act S (Unit {0})
  unfolding get_or on_result on_error emit_journal unknown_action
  dispatch message action none s = unknown_action message action s
  dispatch message action (some handler) s =
      bind (handler message s) (settle message action (get_or message "sender" (text "")))

  unfoldable pub handle_message : Handlers S → Fields → Act S (Unit {0})
  unfolding get find_handler dispatch
  handle_message handlers message =
      let action = get message "action" in
      if not (truthy action)
      then pure tt
      else (lift (find_handler handlers action) >>= dispatch message action)

module _ {S : Type 0} (base : S → Component) where
  unfoldable pub handle_ping : Handler S
  handle_ping message s = ret (
    ok (some (fields_of (("pong", bool true) ∷ ("component_id", text (base s).component_id) ∷ []))),
    s,
  )

  unfoldable pub handle_get_status : List String → Handler S
  handle_get_status actions message s =
      let c = base s in
      ret (
        ok (
            some (
              fields_of (
                ("component_id", text c.component_id)
                ∷ ("component_type", text c.component_type)
                ∷ ("topic", text c.topic)
                ∷ ("running", bool c.running)
                ∷ ("handlers", list (texts actions))
                ∷ []))),
        s,
      )
