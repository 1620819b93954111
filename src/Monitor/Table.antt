-- ===== src/Monitor/Table.antt =====
-- The table of the monitor's handlers, and what it does with a message from its topic.
pub mod Calls
pub mod Safety
use https_gitflic_ru_project.Base.{String, Option, none, some, List, [], ◌∷◌}
use https_gitflic_ru_project.Py.Value.{bool, text, Fields, Runtime, put}
use https_gitflic_ru_project.Py.Act.{Act, pure, read, ◌>>=◌}
use https_gitflic_ru_project.Sdk.Component.{
  Handler, Handlers, register_handler, handle_ping, handle_get_status, handle_message,
}
use https_gitflic_ru_project.Monitor.State.{mode_text, Monitor, size}
use https_gitflic_ru_project.Monitor.Proxy.{handle_proxy_request, handle_proxy_publish}
use https_gitflic_ru_project.Monitor.Handlers.{
  handle_set_policy, handle_remove_policy, handle_clear_policies, handle_list_policies,
  handle_isolation_start, handle_isolation_status,
}

-- The keys of the table of handlers, in the order in which they are registered.
abbrev pub actions : List String
actions =
    "ping" ∷ "get_status" ∷ "proxy_request" ∷ "proxy_publish" ∷ "set_policy" ∷ "remove_policy"
    ∷ "clear_policies" ∷ "list_policies" ∷ "isolation_start" ∷ "isolation_status" ∷ []

abbrev pub with_monitor_status : Monitor → Option Fields → Option Fields
with_monitor_status m none = none
with_monitor_status m (some status) = some (
    put (put (put status "ready" (bool m.ready)) "mode" (text (mode_text m.mode))) "policies_count"
      (size m.policies))

module _ (rt : Runtime) where
  -- The override of `_handle_get_status`.
  unfoldable pub handle_status : Handler Monitor
  unfolding handle_get_status put
  handle_status message = do
    m ← read (λ m. m)
    status ← handle_get_status Monitor.component actions message
    pure (with_monitor_status m status)

  unfoldable pub handlers : Handlers Monitor
  unfolding register_handler
  handlers = register_handler "isolation_status" (handle_isolation_status rt) (
      register_handler "isolation_start" (handle_isolation_start rt) (
        register_handler "list_policies" (handle_list_policies rt) (
          register_handler "clear_policies" (handle_clear_policies rt) (
            register_handler "remove_policy" (handle_remove_policy rt) (
              register_handler "set_policy" (handle_set_policy rt) (
                register_handler "proxy_publish" (handle_proxy_publish rt) (
                  register_handler "proxy_request" (handle_proxy_request rt) (
                    register_handler "get_status" handle_status
                      (register_handler "ping" (handle_ping Monitor.component) [])))))))))

  -- What the monitor does with a message from its topic.
  unfoldable pub handle : Fields → Act Monitor (Unit {0})
  unfolding handle_message handlers
  handle message = handle_message rt Monitor.component handlers message
