-- ===== src/Tests/GatewayRuns.antt =====
-- The gateway of the drone on a command.
use https_gitflic_ru_project.Base.{◌≡◌, [], ◌∷◌, All}
use https_gitflic_ru_project.Py.Value.{text, Fields}
use https_gitflic_ru_project.Py.Act.{Always, Ends}
use https_gitflic_ru_project.Agro.Gateway.{Gateway, handlers}
use https_gitflic_ru_project.Agro.Gateway.Routes.{IsRouted, handlers-Routes}
use https_gitflic_ru_project.Tests.Samples.{rt, message_of}

abbrev gateway : Gateway
gateway = record {
  default_sender = "gateway";
  security_monitor = "components.Agro.security_monitor";
  mission_handler = "components.Agro.mission_handler";
  autopilot = "components.Agro.autopilot";
  telemetry = "components.Agro.telemetry";
}

abbrev start : Fields
start = message_of "station" "cmd" (("command", text "START") ∷ [])

handlers-Routes_example :
    All
      (λ e.
        Always
          (IsRouted rt start gateway)
          (λ topic body. ⊥)
          (Ends (λ s. s ≡ gateway))
          (e.1 start gateway))
      (handlers rt)
handlers-Routes_example = handlers-Routes rt start gateway
