-- ===== src/Orvd/Table.antt =====
-- The table of the handlers, and what the component does with a message from its topic.
pub mod Safety
use https_gitflic_ru_project.Base.{String, List, [], ◌∷◌}
use https_gitflic_ru_project.Py.Value.{Fields, Runtime}
use https_gitflic_ru_project.Py.Act.{Act}
use https_gitflic_ru_project.Sdk.Component.{
  Handlers, register_handler, handle_ping, handle_get_status, handle_message,
}
use https_gitflic_ru_project.Orvd.State.{Orvd}
use https_gitflic_ru_project.Orvd.Zones.{handle_add_zone, handle_remove_zone}
use https_gitflic_ru_project.Orvd.Flights.{
  handle_register_drone, handle_register_mission, handle_authorize_mission, handle_request_takeoff,
  handle_revoke_takeoff,
}
use https_gitflic_ru_project.Orvd.Watch.{
  handle_send_telemetry, handle_request_telemetry, handle_get_history,
}

-- The keys of the table, in the order in which they are registered.
abbrev pub actions : List String
actions =
    "ping" ∷ "get_status" ∷ "register_drone" ∷ "register_mission" ∷ "authorize_mission"
    ∷ "request_takeoff" ∷ "revoke_takeoff" ∷ "send_telemetry" ∷ "request_telemetry" ∷ "get_history"
    ∷ "add_no_fly_zone" ∷ "remove_no_fly_zone" ∷ []

module _ (rt : Runtime) where
  unfoldable pub handlers : Handlers Orvd
  unfolding register_handler
  handlers = register_handler "remove_no_fly_zone" handle_remove_zone (
      register_handler "add_no_fly_zone" handle_add_zone (
        register_handler "get_history" handle_get_history (
          register_handler "request_telemetry" (handle_request_telemetry rt) (
            register_handler "send_telemetry" (handle_send_telemetry rt) (
              register_handler "revoke_takeoff" handle_revoke_takeoff (
                register_handler "request_takeoff" handle_request_takeoff (
                  register_handler "authorize_mission" handle_authorize_mission (
                    register_handler "register_mission" (handle_register_mission rt) (
                      register_handler "register_drone" (handle_register_drone rt) (
                        register_handler "get_status" (handle_get_status Orvd.component actions)
                          (register_handler "ping" (handle_ping Orvd.component) [])))))))))))

  unfoldable pub handle : Fields → Act Orvd (Unit {0})
  unfolding handle_message handlers
  handle message = handle_message rt Orvd.component handlers message
