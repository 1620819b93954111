-- ===== src/Sdk/Component/Outcome.antt =====
-- How a dispatch ends: no exception of a handler gets out of it.
use https_gitflic_ru_project.Base.{
  String, ◌≡◌, refl, Bool, true, false, Option, none, some, Bool-cases, inl, inr, if◌then◌else◌,
}
use https_gitflic_ru_project.Py.Value.{
  Value, null, bool, int, float, text, list, dict, Fields, Exc, type_error, Runtime, get, truthy,
}
use https_gitflic_ru_project.Py.Act.{
  Tree, Result, ok, raised, Act, lift, go_on, ◌>>=◌, Always, at_ret, calls, Always-bind, Always-any,
  AnyCall,
}
use https_gitflic_ru_project.Sdk.Component.{
  Component, Handler, Handlers, lookup, find_handler, respond, emit_journal, on_result, on_error,
  settle, unknown_action, dispatch, handle_message,
}

-- An action that Python cannot look up: a list or a dict that is not empty.
abbrev pub is_unhashable : Value → Bool
is_unhashable (list vs) = true
is_unhashable (dict d) = true
is_unhashable _ = false

abbrev any : Unit {0}
any = tt

abbrev pub looked_up : Value → Result (Unit {0})
looked_up action = if is_unhashable action then raised type_error else ok tt

abbrev pub outcome : Value → Result (Unit {0})
outcome action = if truthy action then looked_up action else ok tt

module _ (rt : Runtime) {S : Type 0} (base : S → Component) where
  abbrev Returns : Tree (Result (Unit {0}) × S) → Type 0
  Returns t = Always AnyCall AnyCall (λ r. r.0 ≡ ok tt) t

  returned :
      (n : Act S (Unit {0})) (r : Result (Unit {0}) × S)
      → r.0 ≡ ok tt
      → ((t : S) → Returns (n t))
      → Returns (go_on (λ _. n) r)
  returned n (ok u, s) e k = k s
  returned n (raised x, s) e k = cc

  -- A part that returns is followed by the rest.
  Returns-seq :
      (m n : Act S (Unit {0})) (s : S)
      → Returns (m s)
      → ((t : S) → Returns (n t))
      → Returns ((m >>= λ _. n) s)
  Returns-seq m n s h k = Always-bind _ h (λ r e. returned n r e k)

  emit_journal-Returns :
      (action sender : Value) (success : Bool) (error : String) (s : S)
      → Returns (emit_journal rt base action sender success error s)
  unfolding emit_journal
  emit_journal-Returns action sender success error s = search (calls, any)

  on_result-Returns :
      (message : Fields) (to : Value) (r : Option Fields) (s : S)
      → Returns (on_result rt base message to r s)
  unfolding on_result
  on_result-Returns message to none s = at_ret refl
  on_result-Returns message to (some d) s = search (calls, any)

  on_error-Returns :
      (message : Fields) (to : Value) (e : Exc) (s : S) → Returns (on_error rt base message to e s)
  unfolding on_error
  on_error-Returns message to e s = search (calls, any)

  settle-Returns :
      (message : Fields) (action sender : Value) (r : Result (Option Fields) × S)
      → Returns (settle rt base message action sender r)
  settle-Returns message action sender (ok d, s) =
      Returns-seq (on_result rt base message (get message "reply_to") d) _ s
        (on_result-Returns message _ d s) (λ t. emit_journal-Returns action sender true "" t)
  settle-Returns message action sender (raised e, s) =
      Returns-seq (on_error rt base message (get message "reply_to") e) _ s
        (on_error-Returns message _ e s)
        (λ t. emit_journal-Returns action sender false (rt.message_of e) t)

  unknown_action-Returns :
      (message : Fields) (action : Value) (s : S)
      → Returns (unknown_action rt base message action s)
  unfolding unknown_action respond
  unknown_action-Returns message action s = elim (Bool-cases (truthy (get message "reply_to"))) [
    | inl full ↦ rw full (search (calls, any))
    | inr empty ↦ rw empty (search (calls, any))
  ]

  dispatch-Returns :
      (message : Fields) (action : Value) (h : Option (Handler S)) (s : S)
      → Returns (dispatch rt base message action h s)
  unfolding dispatch
  dispatch-Returns message action none s = unknown_action-Returns message action s
  dispatch-Returns message action (some f) s =
      Always-bind _ (Always-any (f message s)) (λ r _. settle-Returns message action _ r)

  routed-outcome :
      (table : Handlers S) (message : Fields) (action : Value) (s : S)
      → Always AnyCall AnyCall
          (λ r. r.0 ≡ looked_up action)
          ((lift (find_handler table action) >>= dispatch rt base message action) s)
  unfolding find_handler
  routed-outcome table message (text a) s = dispatch-Returns message (text a) (lookup a table) s
  routed-outcome table message (list vs) s = at_ret refl
  routed-outcome table message (dict d) s = at_ret refl
  routed-outcome table message null s = dispatch-Returns message null none s
  routed-outcome table message (bool b) s = dispatch-Returns message (bool b) none s
  routed-outcome table message (int n) s = dispatch-Returns message (int n) none s
  routed-outcome table message (float x) s = dispatch-Returns message (float x) none s

  -- Whatever the handlers do and raise, a dispatch returns, with one exception: an action that is
  -- a list or a dict, and not empty, ends in a TypeError.
  pub handle_message-outcome :
      (table : Handlers S) (message : Fields) (s : S)
      → Always AnyCall AnyCall
          (λ r. r.0 ≡ outcome (get message "action"))
          (handle_message rt base table message s)
  unfolding handle_message
  handle_message-outcome table message s = elim (Bool-cases (truthy (get message "action"))) [
    | inl full ↦ rw full (routed-outcome table message (get message "action") s)
    | inr empty ↦ rw empty (at_ret refl)
  ]
