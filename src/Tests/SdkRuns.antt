-- ===== src/Tests/SdkRuns.antt =====
-- The base class of components on concrete messages.
use https_gitflic_ru_project.Base.{◌≡◌}
use https_gitflic_ru_project.Py.Value.{get}
use https_gitflic_ru_project.Py.Act.{Always, AnyCall}
use https_gitflic_ru_project.Sdk.Component.{handle_message}
use https_gitflic_ru_project.Sdk.Component.Outcome.{outcome, handle_message-outcome}
use https_gitflic_ru_project.Monitor.State.{Monitor}
use https_gitflic_ru_project.Monitor.Table.{handlers}
use https_gitflic_ru_project.Tests.Samples.{rt, monitor, steer}

handle_message-outcome_example :
    Always AnyCall AnyCall
      (λ r. r.0 ≡ outcome (get steer "action"))
      (handle_message rt Monitor.component (handlers rt) steer monitor)
handle_message-outcome_example =
    handle_message-outcome rt Monitor.component (handlers rt) steer monitor
