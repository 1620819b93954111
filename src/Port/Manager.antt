-- ===== src/Port/Manager.antt =====
-- systems/drone_port/src/port_manager/src/port_manager.py: gives places to drones and frees them.
pub mod Landing
use https_gitflic_ru_project.Base.{String, not, Option, none, some, List, [], ◌∷◌, if◌then◌else◌}
use https_gitflic_ru_project.Py.Value.{
  Value, null, text, list, dict, Items, nil, cons, Fields, end, fields_of, Runtime, get, get_or,
  truthy,
}
use https_gitflic_ru_project.Py.Act.{Act, pure, lift, read, request, publish, ◌>>=◌, ◌>>◌}
use https_gitflic_ru_project.Py.Read.{as_dict, item, iterated}
use https_gitflic_ru_project.Sdk.Component.{
  Handler, Handlers, register_handler, handle_ping, handle_get_status, handle_message,
}
use https_gitflic_ru_project.Port.Place.{
  Place, topic, extract_payload, is_blank, call, reply, dict_or_none,
}

-- `{"action": "update_port", "payload": {...}}`
abbrev pub update_port : Value → Value → String → Fields
update_port port_id drone_id status =
    call "update_port"
      (("port_id", port_id) ∷ ("drone_id", drone_id) ∷ ("status", text status) ∷ [])

-- The ports that the state store answers with.
unfoldable pub ask_ports : Act Place Value
unfolding extract_payload get_or
ask_ports = do
  p ← read (λ p. p)
  response ← request (topic p "state_store") (call "get_all_ports" [])
  pure (get_or (extract_payload response) "ports" (list nil))

unfoldable pub reserve_port : Value → Fields → Act Place (Option Fields)
unfolding item
reserve_port drone_id port = do
  port_id ← lift (item port "port_id")
  p ← read (λ p. p)
  sent ← publish (topic p "state_store") (update_port port_id drone_id "reserved")
  pure (reply (("port_id", port_id) ∷ []))

-- The loop of `_handle_request_landing`.
unfoldable pub reserve_first : Value → Items → Act Place (Option Fields)
unfolding get reserve_port
reserve_first drone_id nil = pure (reply (("error", text "No free ports") ∷ []))
reserve_first drone_id (cons v ports) = do
  port ← lift (as_dict v)
  if not (truthy (get port "drone_id"))
      then reserve_port drone_id port
      else reserve_first drone_id ports

module _ (rt : Runtime) where
  unfoldable pub landing : Option Fields → Act Place (Option Fields)
  unfolding get is_blank ask_ports iterated reserve_first
  landing none = pure (reply (("error", text "Invalid payload") ∷ []))
  landing (some payload) =
      let drone_id = get payload "drone_id" in
      if is_blank rt drone_id
      then pure (reply (("error", text "drone_id required") ∷ []))
      else (do ports ← ask_ports; items ← lift (iterated ports); reserve_first drone_id items)

  unfoldable pub handle_request_landing : Handler Place
  unfolding get landing
  handle_request_landing message = landing (dict_or_none (get message "payload"))

  unfoldable pub free : Option Fields → Act Place (Option Fields)
  unfolding get is_blank
  free none = pure none
  free (some payload) =
      let port_id = get payload "port_id" in
      if is_blank rt port_id then pure none else (do
        p ← read (λ p. p)
        sent ← publish (topic p "state_store") (update_port port_id null "free")
        pure none)

  unfoldable pub handle_free_slot : Handler Place
  unfolding get free
  handle_free_slot message = free (dict_or_none (get message "payload"))

unfoldable pub handle_get_port_status : Handler Place
unfolding ask_ports
handle_get_port_status message = do ports ← ask_ports; pure (reply (("ports", ports) ∷ []))

-- The keys of the table, in the order in which they are registered.
abbrev pub actions : List String
actions = "ping" ∷ "get_status" ∷ "request_landing" ∷ "free_slot" ∷ "get_port_status" ∷ []

module _ (rt : Runtime) where
  unfoldable pub handlers : Handlers Place
  unfolding register_handler
  handlers = register_handler "get_port_status" handle_get_port_status (
      register_handler "free_slot" (handle_free_slot rt) (
        register_handler "request_landing" (handle_request_landing rt) (
          register_handler "get_status" (handle_get_status Place.component actions)
            (register_handler "ping" (handle_ping Place.component) []))))

  unfoldable pub handle : Fields → Act Place (Unit {0})
  unfolding handle_message handlers
  handle message = handle_message rt Place.component handlers message
