-- ===== src/Agro/Gateway/Routes.antt =====
-- What the gateway can reach.
use https_gitflic_ru_project.Base.{String, ◌≡◌, refl, All}
use https_gitflic_ru_project.Py.Text.{strip}
use https_gitflic_ru_project.Py.Value.{Value, text, Fields, end, Runtime, get, or_else, str}
use https_gitflic_ru_project.Py.Act.{Act, Always, at_ret, at_ask, Always-lift, Ends}
use https_gitflic_ru_project.Py.Read.{as_dict}
use https_gitflic_ru_project.Agro.Place.{payload_or_empty}
use https_gitflic_ru_project.Agro.Gateway.{
  Gateway, sender_or, proxy_message, extract_sender, proxy_request, proxy, handle_load_mission,
  handle_validate_only, handle_cmd, handle_get_state, handlers,
}

-- The targets of the gateway, with their actions.
pub data Route (g : Gateway) : String → String → Type 0 where
  load_route : Route g g.mission_handler "load_mission"
  validate_route : Route g g.mission_handler "validate_only"
  cmd_route : Route g g.autopilot "cmd"
  state_route : Route g g.telemetry "get_state"

-- A request that the monitor gets, for a target of the gateway and in the name of the sender of the
-- message, or of the default one where it names none.
pub record IsRouted (rt : Runtime) (message : Fields) (g : Gateway) (topic : Value) (body : Fields)
    : Type 0 where
  pub to : topic ≡ text g.security_monitor
  pub target_topic : String
  pub target_action : String
  pub route : Route g target_topic target_action
  pub forwarded : Fields
  pub carries :
      body
      ≡ proxy_message
          (sender_or (strip (str rt (or_else (get message "sender") (text "")))) g.default_sender)
          target_topic
          target_action
          forwarded

module _ (rt : Runtime) (message : Fields) (g : Gateway) where
  abbrev Routes : {A : Type 0} → Act Gateway A → Type 0
  Routes act = Always (IsRouted rt message g) (λ topic body. ⊥) (Ends (λ s. s ≡ g)) (act g)

  proxy-Routes :
      (target : Gateway → String) (action : String) (forwarded : Fields)
      → Route g (target g) action
      → Routes (proxy rt target action forwarded message)
  unfolding proxy extract_sender proxy_request
  proxy-Routes target action forwarded route =
      at_ask
        (record {
          to = refl;
          target_topic = target g;
          target_action = action;
          route = route;
          forwarded = forwarded;
          carries = refl;
        })
        (λ r. at_ret refl)

  load_mission-Routes : Routes (handle_load_mission rt message)
  unfolding handle_load_mission
  load_mission-Routes =
      Always-lift (as_dict (payload_or_empty message)) _ g (λ e. refl)
        (λ payload h. proxy-Routes Gateway.mission_handler "load_mission" _ load_route)

  validate_only-Routes : Routes (handle_validate_only rt message)
  unfolding handle_validate_only
  validate_only-Routes =
      Always-lift (as_dict (payload_or_empty message)) _ g (λ e. refl)
        (λ payload h. proxy-Routes Gateway.mission_handler "validate_only" _ validate_route)

  cmd-Routes : Routes (handle_cmd rt message)
  unfolding handle_cmd
  cmd-Routes =
      Always-lift (as_dict (payload_or_empty message)) _ g (λ e. refl)
        (λ payload h. proxy-Routes Gateway.autopilot "cmd" _ cmd_route)

  get_state-Routes : Routes (handle_get_state rt message)
  unfolding handle_get_state
  get_state-Routes = proxy-Routes Gateway.telemetry "get_state" end state_route

  -- Every handler of the gateway, whatever the message is: all that it asks for is that the monitor
  -- passes one of the four actions on to its component, in the name of the sender that the message
  -- gives; it publishes nothing and changes nothing.
  pub handlers-Routes :
      All
        (λ e. Always (IsRouted rt message g) (λ topic body. ⊥) (Ends (λ s. s ≡ g)) (e.1 message g))
        (handlers rt)
  unfolding handlers
  handlers-Routes =
      (load_mission-Routes, (validate_only-Routes, (cmd-Routes, (get_state-Routes, tt))))
