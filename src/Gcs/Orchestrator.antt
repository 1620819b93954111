-- ===== src/Gcs/Orchestrator.antt =====
-- systems/gcs/src/orchestrator/src/orchestrator.py: the entry point for the operator's commands.
pub mod Prepared
use Prim.Native.String.{◌++◌ as append}
use https_gitflic_ru_project.Base.{
  ℕ, zero, suc, String, Bool, true, false, leb, Option, some, List, [], ◌∷◌, if◌then◌else◌,
}
use https_gitflic_ru_project.Py.Value.{
  Value, bool, text, list, dict, Items, nil, cons, Fields, end, Runtime, get, get_or, or_else,
  truthy,
}
use https_gitflic_ru_project.Py.Act.{Act, pure, lift, read, request, publish, ◌>>=◌}
use https_gitflic_ru_project.Py.Read.{as_dict, items_count}
use https_gitflic_ru_project.Sdk.Component.{
  Component, Handler, Handlers, register_handler, handle_ping, handle_get_status, handle_message,
}
use https_gitflic_ru_project.Gcs.Station.{
  Station, station_topic, message_from, id_of, correlated, succeeded, payload_in, measured, reply,
}

-- `isinstance(waypoints, list) and len(waypoints) >= 4`
unfoldable pub is_route : Value → Bool
is_route (list vs) = leb 4 (items_count vs)
is_route _ = false

abbrev pub no_route : Station → Option Fields
no_route s = reply (("from", id_of s) ∷ ("error", text "failed to build route") ∷ [])

-- The messages to the planner, to the converter and to the drone manager.
abbrev pub plan_message : Station → String → Fields → Value → Fields
plan_message s mission_id task correlation_id = correlated correlation_id (
    message_from (id_of s) "path.plan" (("mission_id", text mission_id) ∷ ("task", dict task) ∷ []))

abbrev pub prepare_message : Station → Value → Value → Fields
prepare_message s mission_id correlation_id =
    correlated correlation_id
      (message_from (id_of s) "mission.prepare" (("mission_id", mission_id) ∷ []))

abbrev pub upload_message : Station → Value → Value → Value → Value → Fields
upload_message s mission_id drone_id wpl correlation_id = correlated correlation_id (
    message_from (id_of s) "mission.upload"
      (("mission_id", mission_id) ∷ ("drone_id", drone_id) ∷ ("wpl", wpl) ∷ []))

abbrev pub start_message : Station → Value → Value → Value → Fields
start_message s mission_id drone_id correlation_id = correlated correlation_id (
    message_from (id_of s) "mission.start"
      (("mission_id", mission_id) ∷ ("drone_id", drone_id) ∷ []))

abbrev pub forwarded_reply : Value → Value → String → Option Fields
forwarded_reply mission_id drone_id action = reply (
    ("ok", bool true)
    ∷ ("mission_id", mission_id)
    ∷ ("drone_id", drone_id)
    ∷ ("forwarded_action", text action)
    ∷ [])

abbrev pub not_prepared : Value → Value → Option Fields
not_prepared mission_id drone_id = reply (
    ("ok", bool false)
    ∷ ("mission_id", mission_id)
    ∷ ("drone_id", drone_id)
    ∷ ("error", text "mission_prepare_failed")
    ∷ [])

-- `hex` is `uuid4().hex[:12]`, drawn for this message.
unfoldable pub handle_task_submit : String → Handler Station
unfolding get get_or is_route
handle_task_submit hex message = do
  let mission_id = append "m-" hex
  task ← lift (as_dict (get_or message "payload" (dict end)))
  logged ← lift (measured (or_else (get task "waypoints") (list nil)))
  s ← read (λ s. s)
  planned ←
      request (station_topic s "path_planner")
        (plan_message s mission_id task (get message "correlation_id"))
  if succeeded planned
      then (do
        payload ← lift (as_dict (payload_in planned))
        let waypoints = get_or payload "waypoints" (list nil)
        pure (
            if is_route waypoints
            then reply (
                ("from", id_of s) ∷ ("mission_id", text mission_id) ∷ ("waypoints", waypoints) ∷ [])
            else no_route s))
      else pure (no_route s)

-- What follows the converter's answer.
unfoldable pub upload : Value → Value → Value → Option Fields → Act Station (Option Fields)
unfolding get get_or
upload mission_id drone_id correlation_id prepared =
    if succeeded prepared
    then (do
      payload ← lift (as_dict (payload_in prepared))
      mission ← lift (as_dict (get_or payload "mission" (dict end)))
      let wpl = get mission "wpl"
      s ← read (λ s. s)
      if truthy wpl
          then (do
            sent ←
                publish (station_topic s "drone_manager")
                  (upload_message s mission_id drone_id wpl correlation_id)
            pure (forwarded_reply mission_id drone_id "mission.upload"))
          else pure (not_prepared mission_id drone_id))
    else pure (not_prepared mission_id drone_id)

unfoldable pub handle_task_assign : Handler Station
unfolding get get_or upload
handle_task_assign message = do
  payload ← lift (as_dict (get_or message "payload" (dict end)))
  s ← read (λ s. s)
  let correlation_id = get message "correlation_id"
  let mission_id = get payload "mission_id"
  prepared ←
      request (station_topic s "mission_converter") (prepare_message s mission_id correlation_id)
  upload mission_id (get payload "drone_id") correlation_id prepared

unfoldable pub handle_task_start : Handler Station
unfolding get get_or
handle_task_start message = do
  payload ← lift (as_dict (get_or message "payload" (dict end)))
  s ← read (λ s. s)
  let mission_id = get payload "mission_id"
  let drone_id = get payload "drone_id"
  sent ←
      publish (station_topic s "drone_manager")
        (start_message s mission_id drone_id (get message "correlation_id"))
  pure (forwarded_reply mission_id drone_id "mission.start")

abbrev pub actions : List String
actions = "ping" ∷ "get_status" ∷ "task.submit" ∷ "task.assign" ∷ "task.start" ∷ []

module _ (rt : Runtime) (hex : String) where
  unfoldable pub handlers : Handlers Station
  unfolding register_handler
  handlers = register_handler "task.start" handle_task_start (
      register_handler "task.assign" handle_task_assign (
        register_handler "task.submit" (handle_task_submit hex) (
          register_handler "get_status" (handle_get_status Station.component actions)
            (register_handler "ping" (handle_ping Station.component) []))))

  unfoldable pub handle : Fields → Act Station (Unit {0})
  unfolding handle_message handlers
  handle message = handle_message rt Station.component handlers message
