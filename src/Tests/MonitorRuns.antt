-- ===== src/Tests/MonitorRuns.antt =====
-- The security monitor on concrete messages.
use https_gitflic_ru_project.Base.{
  String, ◌≡◌, refl, ◌≢◌, ◌↔◌, ◌⊎◌, true, false, some, [], ◌∷◌, arith, eq_iff, map,
}
use https_gitflic_ru_project.Py.Value.{bool, text, dict, Fields, end, fields_of, get_or}
use https_gitflic_ru_project.Py.Act.{ret, sends, ok, Always, Ends, AnyCall}
use https_gitflic_ru_project.Sdk.Component.Calls.{IsService}
use https_gitflic_ru_project.Monitor.Policy.{
  PolicyKey, contains, is_allowed, policy_to_dict, extract_policy, stripped,
}
use https_gitflic_ru_project.Monitor.Policy.Rights.{Covers, Granted, is_allowed_iff}
use https_gitflic_ru_project.Monitor.Policy.Validity.{IsWellFormed}
use https_gitflic_ru_project.Monitor.Parse.{parse_policies}
use https_gitflic_ru_project.Monitor.State.{
  Monitor, reply, isolated, topic_for, can_manage_policies, load_emergency_policies, payload_of,
  with_system_name,
}
use https_gitflic_ru_project.Monitor.State.Lockdown.{IsEmergencyAccess, lockdown_exact}
use https_gitflic_ru_project.Monitor.Handlers.{handle_set_policy}
use https_gitflic_ru_project.Monitor.Handlers.Effects.{set_policy_effect}
use https_gitflic_ru_project.Monitor.Proxy.{sender_id_of, handle_proxy_publish}
use https_gitflic_ru_project.Monitor.Table.{actions, handlers, handle}
use https_gitflic_ru_project.Monitor.Table.Calls.{Allowed}
use https_gitflic_ru_project.Monitor.Table.Safety.{
  MayPublish, handle_mediates, handle_unprivileged, handle_stays_isolated, handle-IsWellFormed,
  handle_locked_out,
}
use https_gitflic_ru_project.Tests.Samples.{rt, monitor, isolated_monitor, steer, set_policy}

-- The keys of the table are the actions that `get_status` lists.
table_keys : map (λ e. e.0) (handlers rt) ≡ actions
unfolding handlers
table_keys = refl

parsed : parse_policies rt " a , b,c; ;x,y; d,*,e ;a,b,c" ≡ (
    record { sender = "d"; topic = "*"; action = "e" }
    ∷ record { sender = "a"; topic = "b"; action = "c" }
    ∷ [])
unfolding parse_policies
parsed = refl

system_name :
    with_system_name "v1.X" "a,${SYSTEM_NAME}.b,$${SYSTEM_NAME};$SYSTEM_NAME" ≡ "a,v1.X.b,v1.X;v1.X"
unfolding with_system_name
system_name = refl

-- A command of the autopilot is sent on to the motors in the monitor's own name.
steered :
    handle rt steer monitor
    ≡ sends
        (text "components.Agro.motors")
        (fields_of (
          ("action", text "set_target")
          ∷ ("sender", text "components.Agro.security_monitor")
          ∷ ("payload", dict end)
          ∷ []))
        (λ r. ret (ok tt, monitor))
unfolding handle handle_proxy_publish
steered = refl

is_allowed_iff_example :
    (is_allowed monitor.policies "components.Agro.telemetry" "any" "get_state" ≡ true)
    ↔ Granted monitor.policies "components.Agro.telemetry" "any" "get_state"
is_allowed_iff_example =
    is_allowed_iff monitor.policies "components.Agro.telemetry" "any" "get_state"

lockdown_exact_example :
    (is_allowed
        (load_emergency_policies monitor).policies
        "components.Agro.emergensy"
        "components.Agro.motors"
        "land"
      ≡ true)
    ↔ ((◌≡◌ {A = String} "components.Agro.emergensy" (topic_for monitor "emergensy"))
        × IsEmergencyAccess monitor "components.Agro.motors" "land")
lockdown_exact_example =
    lockdown_exact monitor "components.Agro.emergensy" "components.Agro.motors" "land"

handle_mediates_example :
    Always
      (Allowed rt steer monitor)
      (MayPublish rt steer monitor)
      (Ends (λ s. s.component ≡ monitor.component))
      (handle rt steer monitor)
handle_mediates_example = handle_mediates rt steer monitor

no_admin : can_manage_policies monitor (stripped rt steer "sender") ≡ false
unfolding can_manage_policies stripped
no_admin = refl

no_emergency : stripped rt steer "sender" ≢ topic_for monitor "emergensy"
unfolding topic_for stripped
no_emergency = ground (arith, eq_iff "components.Agro.autopilot" "components.Agro.emergensy")

handle_unprivileged_example :
    Always AnyCall AnyCall (Ends (λ s. s ≡ monitor)) (handle rt steer monitor)
handle_unprivileged_example = handle_unprivileged rt steer monitor no_admin no_emergency

handle_stays_isolated_example :
    Always AnyCall AnyCall (Ends (λ s. s.mode ≡ isolated)) (handle rt set_policy isolated_monitor)
handle_stays_isolated_example = handle_stays_isolated rt set_policy isolated_monitor refl

monitor-IsWellFormed : IsWellFormed monitor.policies
unfolding contains
monitor-IsWellFormed = record {
  distinct = (refl, (refl, tt));
  filled = ((refl, refl, refl), ((refl, refl, refl), tt));
}

handle-IsWellFormed_example :
    Always AnyCall AnyCall (Ends (λ s. IsWellFormed s.policies)) (handle rt set_policy monitor)
handle-IsWellFormed_example = handle-IsWellFormed rt set_policy monitor monitor-IsWellFormed

other_sender : sender_id_of rt steer ≢ topic_for monitor "emergensy"
unfolding sender_id_of topic_for
other_sender = ground (arith, eq_iff "components.Agro.autopilot" "components.Agro.emergensy")

handle_locked_out_example :
    Always
      (λ topic body. ⊥)
      (λ topic body.
        IsService steer monitor.component topic ⊎ (topic ≡ text (topic_for monitor "journal")))
      (Ends (λ s. s.component ≡ monitor.component))
      (handle rt steer (load_emergency_policies monitor))
handle_locked_out_example = handle_locked_out rt steer monitor other_sender

abbrev logging : PolicyKey
logging = record { sender = "mission"; topic = "journal"; action = "log_event" }

abbrev logging_payload : Fields
logging_payload =
    fields_of
      (("sender", text "mission") ∷ ("topic", text " journal ") ∷ ("action", text "log_event") ∷ [])

admin : can_manage_policies monitor (stripped rt set_policy "sender") ≡ true
unfolding can_manage_policies stripped
admin = refl

payload_read : payload_of set_policy ≡ dict logging_payload
unfolding get_or
payload_read = refl

policy_read : extract_policy rt logging_payload ≡ some logging
unfolding extract_policy
policy_read = refl

set_policy_effect_example :
    (m' : Monitor) × (handle_set_policy rt set_policy monitor
      ≡ ret (
        ok (reply (("updated", bool true) ∷ ("policy", dict (policy_to_dict logging)) ∷ [])),
        m',
      ))
    × ((s t a : String)
        → (is_allowed m'.policies s t a ≡ true)
          ↔ (Covers logging s t a ⊎ Granted monitor.policies s t a))
set_policy_effect_example =
    set_policy_effect rt set_policy monitor logging_payload logging admin payload_read policy_read
