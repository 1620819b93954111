-- ===== src/Tests/BusRuns.antt =====
-- The guarded bus with a monitor that denies everything.
use https_gitflic_ru_project.Base.{
  ◌≡◌, refl, ap, true, false, Option, none, some, [], ◌∷◌, if◌then◌else◌,
}
use https_gitflic_ru_project.Py.Value.{
  Value, null, bool, text, dict, Fields, fields_of, find, get, get_or, truthy,
}
use https_gitflic_ru_project.Py.Act.{Tree, ret, Result, ok}
use https_gitflic_ru_project.Py.Run.{Env, run}
use https_gitflic_ru_project.Sdk.Messages.{dead_letter_topic}
use https_gitflic_ru_project.Sdk.Component.{Component}
use https_gitflic_ru_project.Sdk.SafeBus.{
  should_skip, is_exempt_action, blocked_message, safe_publish, safe_request, handle_security_check,
}
use https_gitflic_ru_project.Sdk.SafeBus.Decides.{IsMonitored, safe_bus_decides}
use https_gitflic_ru_project.Tests.Samples.{component, steer}

abbrev deny : Value → Value → Value → Value → Result (Value × Value)
deny target_topic action sender payload = ok (bool false, text "denied")

abbrev denial : Fields
denial = fields_of (("approved", bool false) ∷ ("reason", text "denied") ∷ [])

abbrev denying : Env
denying = record {
  answer = λ topic m. some (fields_of (("success", bool true) ∷ ("payload", dict denial) ∷ []));
  sent = λ topic m. true;
  clock = "noon";
}

abbrev motors : Value
motors = text "components.Agro.motors"

-- The reply in a handler's result.
abbrev reply_in : Tree (Result (Option Fields) × Component) → Value
reply_in (ret (ok (some payload), c)) = dict payload
reply_in t = null

is_monitored : IsMonitored "security.monitor" deny denying component motors steer
unfolding get get_or find handle_security_check
is_monitored = record {
  response = fields_of (("success", bool true) ∷ ("payload", dict denial) ∷ []);
  answers = refl;
  success = refl;
  carries = λ payload h. ap reply_in h;
}

is_guarded : should_skip "security.monitor" motors steer ≡ ok false
unfolding should_skip is_exempt_action get_or find
is_guarded = refl

safe_bus_decides_example :
    (run denying (safe_publish "security.monitor" motors steer component) ≡ (
      if truthy (bool false)
      then ((ok (denying.sent motors steer), component), (motors, steer) ∷ [])
      else (
        (ok false, component),
        (text dead_letter_topic, blocked_message motors steer (text "denied") denying.clock) ∷ [],
      )))
    × (run denying (safe_request "security.monitor" motors steer component) ≡ (
        if truthy (bool false)
        then ((ok (denying.answer motors steer), component), [])
        else ((ok none, component), [])))
safe_bus_decides_example =
    safe_bus_decides "security.monitor" deny denying component motors steer (bool false)
      (text "denied") component is_monitored is_guarded refl
