-- ===== src/Monitor/Handlers.antt =====
-- The handlers that read and change the policies, and those of the isolation.
pub mod Effects
use https_gitflic_ru_project.Base.{
  String, true, false, not, Option, none, some, [], ◌∷◌, ◌==◌, ◌||◌, if◌then◌else◌,
}
use https_gitflic_ru_project.Py.Value.{bool, text, list, dict, Fields, Runtime, get_or}
use https_gitflic_ru_project.Py.Act.{Act, pure, lift, read, write, ◌>>=◌, ◌>>◌}
use https_gitflic_ru_project.Sdk.Component.{Handler}
use https_gitflic_ru_project.Monitor.Policy.{
  PolicyKey, contains, add, discard, as_dict, sorted, policy_to_dict, stripped, extract_policy,
}
use https_gitflic_ru_project.Monitor.State.{
  mode_text, Monitor, topic_for, reply, size, dicts, can_manage_policies, load_emergency_policies,
  payload_of, log_isolation_activated,
}

unfoldable pub set_extracted : Option PolicyKey → Act Monitor (Option Fields)
unfolding add policy_to_dict
set_extracted none = pure (reply (("updated", bool false) ∷ ("error", text "invalid_policy") ∷ []))
set_extracted (some p) = do
  write (λ m. record m { policies = add p m.policies })
  pure (reply (("updated", bool true) ∷ ("policy", dict (policy_to_dict p)) ∷ []))

unfoldable pub remove_extracted : Option PolicyKey → Act Monitor (Option Fields)
unfolding contains discard policy_to_dict
remove_extracted none =
    pure (reply (("removed", bool false) ∷ ("error", text "invalid_policy") ∷ []))
remove_extracted (some p) = do
  existed ← read (λ m. contains p m.policies)
  write (λ m. record m { policies = discard p m.policies })
  pure (reply (("removed", bool existed) ∷ ("policy", dict (policy_to_dict p)) ∷ []))

module _ (rt : Runtime) where
  -- Only the administrator goes on.
  abbrev pub as_admin : String → Act Monitor (Option Fields) → Handler Monitor
  as_admin refused action message = do
    m ← read (λ m. m)
    if not (can_manage_policies m (stripped rt message "sender"))
        then pure (reply ((refused, bool false) ∷ ("error", text "forbidden") ∷ []))
        else action

  unfoldable pub handle_set_policy : Handler Monitor
  unfolding stripped can_manage_policies get_or extract_policy set_extracted
  handle_set_policy message =
      as_admin "updated"
        (do
          payload ← lift (as_dict (payload_of message))
          set_extracted (extract_policy rt payload))
        message

  unfoldable pub handle_remove_policy : Handler Monitor
  unfolding stripped can_manage_policies get_or extract_policy remove_extracted
  handle_remove_policy message =
      as_admin "removed"
        (do
          payload ← lift (as_dict (payload_of message))
          remove_extracted (extract_policy rt payload))
        message

  unfoldable pub handle_clear_policies : Handler Monitor
  unfolding stripped can_manage_policies
  handle_clear_policies message =
      as_admin "cleared"
        (do
          removed ← read (λ m. size m.policies)
          write (λ m. record m { policies = [] })
          pure (reply (("cleared", bool true) ∷ ("removed_count", removed) ∷ [])))
        message

  unfoldable pub handle_list_policies : Handler Monitor
  unfolding sorted policy_to_dict
  handle_list_policies message = do
    m ← read (λ m. m)
    pure (
        reply (
          ("policy_admin_sender", text m.policy_admin_sender)
          ∷ ("count", size (sorted m.policies))
          ∷ ("policies", list (dicts (sorted m.policies)))
          ∷ []))

  unfoldable pub handle_isolation_start : Handler Monitor
  unfolding stripped can_manage_policies topic_for load_emergency_policies log_isolation_activated
  handle_isolation_start message = do
    m ← read (λ m. m)
    let sender = stripped rt message "sender"
    if not (sender == topic_for m "emergensy" || can_manage_policies m sender)
        then pure (reply (("activated", bool false) ∷ ("error", text "forbidden") ∷ []))
        else do
          write load_emergency_policies
          log_isolation_activated
          mode ← read (λ m. m.mode)
          pure (reply (("activated", bool true) ∷ ("mode", text (mode_text mode)) ∷ []))

  unfoldable pub handle_isolation_status : Handler Monitor
  handle_isolation_status message = do
    mode ← read (λ m. m.mode)
    pure (reply (("mode", text (mode_text mode)) ∷ []))
