-- ===== src/Port/Tables.antt =====
-- The tables of the registry, the drone manager and the orchestrator of the port, and what each
-- does with a message from its topic.
use https_gitflic_ru_project.Base.{String, List, [], ◌∷◌}
use https_gitflic_ru_project.Py.Value.{Fields, Runtime}
use https_gitflic_ru_project.Py.Act.{Act}
use https_gitflic_ru_project.Sdk.Component.{
  Handlers, register_handler, handle_ping, handle_get_status, handle_message,
}
use https_gitflic_ru_project.Port.Redis.{Redis}
use https_gitflic_ru_project.Port.Place.{Place}
use https_gitflic_ru_project.Port.Registry.{
  Registry, handle_register, handle_get_drone, handle_get_available_drones, handle_delete_drone,
  handle_charging_started, handle_update_battery,
}
use https_gitflic_ru_project.Port.Drones.{handle_landing, handle_takeoff}
use https_gitflic_ru_project.Port.Orchestrator.{handle_available_drones}

-- The keys of the tables, in the order in which they are registered.
abbrev pub registry_actions : List String
registry_actions =
    "ping" ∷ "get_status" ∷ "register_drone" ∷ "get_drone" ∷ "get_available_drones" ∷ "delete_drone"
    ∷ "charging_started" ∷ "update_battery" ∷ []

abbrev pub manager_actions : List String
manager_actions = "ping" ∷ "get_status" ∷ "request_landing" ∷ "request_takeoff" ∷ []

abbrev pub orchestrator_actions : List String
orchestrator_actions = "ping" ∷ "get_status" ∷ "get_available_drones" ∷ []

unfoldable pub orchestrator_handlers : Handlers Place
unfolding register_handler
orchestrator_handlers = register_handler "get_available_drones" handle_available_drones (
    register_handler "get_status" (handle_get_status Place.component orchestrator_actions)
      (register_handler "ping" (handle_ping Place.component) []))

module _ (rt : Runtime) where
  unfoldable pub registry_handlers : (redis : Redis) → Handlers (Registry redis)
  unfolding register_handler
  registry_handlers redis = register_handler "update_battery" (handle_update_battery redis rt) (
      register_handler "charging_started" (handle_charging_started redis rt) (
        register_handler "delete_drone" (handle_delete_drone redis rt) (
          register_handler "get_available_drones" (handle_get_available_drones redis) (
            register_handler "get_drone" (handle_get_drone redis rt) (
              register_handler "register_drone" (handle_register redis rt) (
                register_handler "get_status"
                  (handle_get_status Registry.component registry_actions)
                  (register_handler "ping" (handle_ping Registry.component) [])))))))

  -- `sitl_home` is `ExternalTopics.SITL_HOME`, read from the environment.
  unfoldable pub manager_handlers : String → Handlers Place
  unfolding register_handler
  manager_handlers sitl_home = register_handler "request_takeoff" (handle_takeoff rt sitl_home) (
      register_handler "request_landing" (handle_landing rt) (
        register_handler "get_status" (handle_get_status Place.component manager_actions)
          (register_handler "ping" (handle_ping Place.component) [])))

  unfoldable pub handle_registry : (redis : Redis) → Fields → Act (Registry redis) (Unit {0})
  unfolding handle_message registry_handlers
  handle_registry redis message =
      handle_message rt Registry.component (registry_handlers redis) message

  unfoldable pub handle_manager : String → Fields → Act Place (Unit {0})
  unfolding handle_message manager_handlers
  handle_manager sitl_home message =
      handle_message rt Place.component (manager_handlers sitl_home) message

  unfoldable pub handle_orchestrator : Fields → Act Place (Unit {0})
  unfolding handle_message orchestrator_handlers
  handle_orchestrator message = handle_message rt Place.component orchestrator_handlers message
