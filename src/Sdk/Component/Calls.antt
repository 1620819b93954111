-- ===== src/Sdk/Component/Calls.antt =====
-- The calls and the final fields of a dispatch, from those of the handlers in the table.
use https_gitflic_ru_project.Base.{
  String, ◌≡◌, refl, ◌⊎◌, inl, inr, Bool, true, false, Option, none, some, [], ◌∷◌, subst, All,
  Bool-cases, ◌==◌,
}
use https_gitflic_ru_project.Py.Value.{
  Value, null, bool, int, float, text, list, dict, Fields, Exc, Runtime, get,
}
use https_gitflic_ru_project.Py.Act.{
  Tree, Result, ok, raised, lift, ◌>>=◌, Always, at_ret, calls, Always-bind, Ends, Always-seq,
}
use https_gitflic_ru_project.Sdk.Messages.{dead_letter_topic}
use https_gitflic_ru_project.Sdk.Component.{
  Component, Handler, Handlers, lookup, find_handler, respond, emit_journal, on_result, on_error,
  settle, unknown_action, dispatch, handle_message,
}

-- The topics that the base class itself publishes to for a message.
abbrev pub IsService : Fields → Component → Value → Type 0
IsService message c topic =
    (topic ≡ get message "reply_to")
    ⊎ (topic ≡ text dead_letter_topic)
    ⊎ (topic ≡ text c.journal_topic)

module _ (rt : Runtime) {S : Type 0} (base : S → Component) (Req Pub : Value → Fields → Type 0)
    (Q : S → Type 0) (message : Fields)
    (service : (s : S)
      → Q s
      → (topic : Value) (m : Fields) → IsService message (base s) topic
      → Pub topic m) where
  -- Such calls only, and fields at the end that satisfy `Q`.
  abbrev Keeps : {A : Type 0} → Tree (Result A × S) → Type 0
  Keeps t = Always Req Pub (Ends Q) t

  emit_journal-Keeps :
      (action sender : Value) (success : Bool) (error : String) (s : S)
      → Q s
      → Keeps (emit_journal rt base action sender success error s)
  unfolding emit_journal
  emit_journal-Keeps action sender success error s q =
      search (calls, service s q _ _ (inr (inr refl)))

  on_result-Keeps :
      (r : Option Fields) (s : S)
      → Q s
      → Keeps (on_result rt base message (get message "reply_to") r s)
  unfolding on_result
  on_result-Keeps none s q = at_ret q
  on_result-Keeps (some result) s q = search (calls, service s q _ _ (inl refl))

  on_error-Keeps :
      (e : Exc) (s : S) → Q s → Keeps (on_error rt base message (get message "reply_to") e s)
  unfolding on_error
  on_error-Keeps e s q =
      search (calls, service s q _ _ (inl refl), service s q _ _ (inr (inl refl)))

  settle-Keeps :
      (action sender : Value) (r : Result (Option Fields) × S)
      → Ends Q r
      → Keeps (settle rt base message action sender r)
  settle-Keeps action sender (ok result, s) q =
      Always-seq (on_result rt base message (get message "reply_to") result) _ s
        (on_result-Keeps result s q) (λ _ t q'. emit_journal-Keeps action sender true "" t q')
  settle-Keeps action sender (raised e, s) q =
      Always-seq (on_error rt base message (get message "reply_to") e) _ s (on_error-Keeps e s q)
        (λ _ t q'. emit_journal-Keeps action sender false (rt.message_of e) t q')

  respond-Keeps :
      (payload : Fields) (action : String) (s : S)
      → Q s
      → Keeps (respond rt base message payload action s)
  unfolding respond
  respond-Keeps payload action s q = search (calls, service s q _ _ (inl refl))

  unknown_action-Keeps :
      (action : Value) (s : S) → Q s → Keeps (unknown_action rt base message action s)
  unfolding unknown_action
  unknown_action-Keeps action s q =
      search (calls, Always-seq, respond-Keeps, service s q _ _ (inr (inl refl)))

  dispatch-Keeps :
      (action : Value) (h : Option (Handler S)) (s : S)
      → Q s
      → ((f : Handler S) → h ≡ some f → Keeps (f message s))
      → Keeps (dispatch rt base message action h s)
  unfolding dispatch
  dispatch-Keeps action none s q k = unknown_action-Keeps action s q
  dispatch-Keeps action (some f) s q k =
      Always-bind _ (k f refl) (λ r q'. settle-Keeps action _ r q')

  lookup-Keeps :
      (a : String) (table : Handlers S) (s : S) (f : Handler S)
      → All (λ e. Keeps (e.1 message s)) table
      → lookup a table ≡ some f
      → Keeps (f message s)
  unfolding lookup
  lookup-Keeps a [] s f hs e = cc
  lookup-Keeps a ((b, g) ∷ table) s f hs e = elim (Bool-cases (b == a)) [
    | inl here ↦
        let e' : some g ≡ some f = (rw here at e) in
        let same : g ≡ f = cc e' in subst (λ h. Keeps (h message s)) same hs.0
    | inr there ↦ lookup-Keeps a table s f hs.1 (rw there at e)
  ]

  routed-Keeps :
      (table : Handlers S) (action : Value) (s : S)
      → Q s
      → All (λ e. Keeps (e.1 message s)) table
      → Keeps ((lift (find_handler table action) >>= dispatch rt base message action) s)
  unfolding find_handler
  routed-Keeps table (text a) s q hs =
      dispatch-Keeps (text a) (lookup a table) s q (λ f e. lookup-Keeps a table s f hs e)
  routed-Keeps table (list vs) s q hs = at_ret q
  routed-Keeps table (dict d) s q hs = at_ret q
  routed-Keeps table null s q hs = dispatch-Keeps null none s q (λ f e. cc)
  routed-Keeps table (bool b) s q hs = dispatch-Keeps (bool b) none s q (λ f e. cc)
  routed-Keeps table (int n) s q hs = dispatch-Keeps (int n) none s q (λ f e. cc)
  routed-Keeps table (float x) s q hs = dispatch-Keeps (float x) none s q (λ f e. cc)

  -- A dispatch makes the calls of its handlers and those of the base class, and keeps what the
  -- handlers keep.
  pub handle_message-Keeps :
      (table : Handlers S) (s : S)
      → Q s
      → All (λ e. Keeps (e.1 message s)) table
      → Keeps (handle_message rt base table message s)
  unfolding handle_message
  handle_message-Keeps table s q hs = search (calls, routed-Keeps)
