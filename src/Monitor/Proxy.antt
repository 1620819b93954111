-- ===== src/Monitor/Proxy.antt =====
-- The two handlers that forward a message: `_handle_proxy_request` and `_handle_proxy_publish`.
pub mod Asks
use https_gitflic_ru_project.Base.{
  String, false, not, Option, none, some, List, [], ◌∷◌, ◌==◌, if◌then◌else◌,
}
use https_gitflic_ru_project.Py.Value.{
  Value, bool, text, dict, Fields, fields_of, Runtime, get, get_or, put, or_else, str,
}
use https_gitflic_ru_project.Py.Act.{pure, lift, read, request, publish, ◌>>=◌}
use https_gitflic_ru_project.Sdk.Component.{Handler}
use https_gitflic_ru_project.Monitor.Policy.{Target, is_allowed, as_dict, extract_target}
use https_gitflic_ru_project.Monitor.State.{Monitor, reply, payload_of}

-- What the two proxies send on: the data as it is for the action `__raw__`, or a new message.
abbrev pub forwarded : Monitor → Target → Fields
forwarded m t =
    if t.target_action == "__raw__"
    then t.target_payload
    else fields_of (
        ("action", text t.target_action)
        ∷ ("sender", text m.component.topic)
        ∷ ("payload", dict t.target_payload)
        ∷ [])

abbrev pub target_failed : String → List (String × Value) → Target → Option Fields
target_failed error sender t = some (
    put
      (put (fields_of (("ok", bool false) ∷ ("error", text error) ∷ sender)) "target_topic"
        (text t.target_topic))
      "target_action" (text t.target_action))

abbrev pub proxy_answer : Target → Option Fields → Option Fields
proxy_answer t (some (Fields.field k v d)) = reply (
    ("target_topic", text t.target_topic)
    ∷ ("target_action", text t.target_action)
    ∷ ("target_response", dict (Fields.field k v d))
    ∷ [])
proxy_answer t _ = target_failed "target_timeout" [] t

unfoldable pub request_target : String → Option Target → Handler Monitor
unfolding is_allowed put
request_target sender_id none message =
    pure (reply (("ok", bool false) ∷ ("error", text "no_target_in_payload") ∷ []))
request_target sender_id (some t) message = do
  m ← read (λ m. m)
  if not (is_allowed m.policies sender_id t.target_topic t.target_action)
      then pure (target_failed "policy_denied" (("sender", text sender_id) ∷ []) t)
      else do
        response ← request (text t.target_topic) (forwarded m t)
        pure (proxy_answer t response)

unfoldable pub publish_target : String → Option Target → Handler Monitor
unfolding is_allowed
publish_target sender_id none message = pure none
publish_target sender_id (some t) message = do
  m ← read (λ m. m)
  if not (is_allowed m.policies sender_id t.target_topic t.target_action) then pure none else do
    published ← publish (text t.target_topic) (forwarded m t)
    pure (reply (("published", bool published) ∷ []))

module _ (rt : Runtime) where
  -- `str(message.get("sender") or "unknown")`
  unfoldable pub sender_id_of : Fields → String
  unfolding str get
  sender_id_of message = str rt (or_else (get message "sender") (text "unknown"))

  unfoldable pub handle_proxy_request : Handler Monitor
  unfolding get_or extract_target sender_id_of request_target
  handle_proxy_request message = do
    payload ← lift (as_dict (payload_of message))
    target ← lift (extract_target rt payload)
    request_target (sender_id_of message) target message

  unfoldable pub handle_proxy_publish : Handler Monitor
  unfolding get_or extract_target sender_id_of publish_target
  handle_proxy_publish message = do
    payload ← lift (as_dict (payload_of message))
    target ← lift (extract_target rt payload)
    publish_target (sender_id_of message) target message
