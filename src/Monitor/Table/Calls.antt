-- ===== src/Monitor/Table/Calls.antt =====
-- The calls and the final fields of the monitor for one message, from what may happen to its
-- fields: one rule for all properties of the dispatch.
use https_gitflic_ru_project.Base.{
  String, ◌≡◌, refl, Bool, true, false, not, Option, none, some, arith, ◌==◌, ◌||◌, [],
}
use https_gitflic_ru_project.Py.Value.{Value, text, Fields, Runtime}
use https_gitflic_ru_project.Py.Act.{
  Tree, Result, ok, raised, Act, lift, ◌>>=◌, Always, at_ret, calls, Ends,
}
use https_gitflic_ru_project.Sdk.Component.{handle_ping}
use https_gitflic_ru_project.Sdk.Component.Calls.{IsService, handle_message-Keeps}
use https_gitflic_ru_project.Monitor.Policy.{
  PolicyKey, Target, add, discard, is_allowed, as_dict, stripped, extract_policy, extract_target,
}
use https_gitflic_ru_project.Monitor.State.{
  Monitor, topic_for, can_manage_policies, load_emergency_policies, payload_of,
}
use https_gitflic_ru_project.Monitor.Proxy.{
  request_target, publish_target, sender_id_of, handle_proxy_request, handle_proxy_publish,
}
use https_gitflic_ru_project.Monitor.Proxy.Asks.{
  Asks, Carries, forwarded-Carries, extract_target-Asks,
}
use https_gitflic_ru_project.Monitor.Handlers.{
  set_extracted, remove_extracted, as_admin, handle_set_policy, handle_remove_policy,
  handle_clear_policies, handle_list_policies, handle_isolation_start, handle_isolation_status,
}
use https_gitflic_ru_project.Monitor.Table.{handle_status, handlers, handle}

pub of_not : {b : Bool} → not b ≡ false → b ≡ true
of_not h = ground arith

-- A call that a message asks for, and that the policies of the monitor allow to its sender.
pub record Allowed (rt : Runtime) (message : Fields) (m : Monitor) (topic : Value) (body : Fields)
    : Type 0 where
  pub target : Target
  pub asks : Asks rt message target
  pub to : topic ≡ text target.target_topic
  pub carries : Carries m target body
  pub allowed :
      is_allowed m.policies (sender_id_of rt message) target.target_topic target.target_action
      ≡ true

-- What a message can do to the fields `m`, and what it lets the monitor call.
pub record Covered (rt : Runtime) (message : Fields) (m : Monitor)
    (Req Pub : Value → Fields → Type 0) (Q : Monitor → Type 0) : Type 0 where
  pub asked : (topic : Value) (body : Fields) → Allowed rt message m topic body → Req topic body
  pub sent : (topic : Value) (body : Fields) → Allowed rt message m topic body → Pub topic body
  pub journal : (body : Fields) → Pub (text (topic_for m "journal")) body
  pub service :
      (s : Monitor)
      → Q s
      → (topic : Value) (body : Fields) → IsService message s.component topic
      → Pub topic body
  pub same : Q m
  pub added :
      (d : Fields) (p : PolicyKey)
      → can_manage_policies m (stripped rt message "sender") ≡ true
      → extract_policy rt d ≡ some p
      → Q (record m { policies = add p m.policies })
  pub discarded :
      (p : PolicyKey)
      → can_manage_policies m (stripped rt message "sender") ≡ true
      → Q (record m { policies = discard p m.policies })
  pub cleared :
      can_manage_policies m (stripped rt message "sender") ≡ true → Q (record m { policies = [] })
  pub isolated :
      (stripped rt message "sender" == topic_for m "emergensy"
          || can_manage_policies m (stripped rt message "sender"))
        ≡ true
      → Q (load_emergency_policies m)

module _ (rt : Runtime) (message : Fields) (m : Monitor) (Req Pub : Value → Fields → Type 0)
    (Q : Monitor → Type 0) (c : Covered rt message m Req Pub Q) where
  abbrev Keeps : {A : Type 0} → Tree (Result A × Monitor) → Type 0
  Keeps t = Always Req Pub (Ends Q) t

  request_target-Keeps :
      (t : Option Target)
      → ((u : Target) → t ≡ some u → Asks rt message u)
      → Keeps (request_target (sender_id_of rt message) t message m)
  unfolding request_target
  request_target-Keeps none asks = at_ret c.same
  request_target-Keeps (some t) asks = search (
    calls,
    c.same,
    of_not,
    λ (h : is_allowed m.policies (sender_id_of rt message) t.target_topic t.target_action ≡ true).
        c.asked _ _ (record {
          target = t;
          asks = asks t refl;
          to = refl;
          carries = forwarded-Carries m t;
          allowed = h;
        }),
  )

  publish_target-Keeps :
      (t : Option Target)
      → ((u : Target) → t ≡ some u → Asks rt message u)
      → Keeps (publish_target (sender_id_of rt message) t message m)
  unfolding publish_target
  publish_target-Keeps none asks = at_ret c.same
  publish_target-Keeps (some t) asks = search (
    calls,
    c.same,
    of_not,
    λ (h : is_allowed m.policies (sender_id_of rt message) t.target_topic t.target_action ≡ true).
        c.sent _ _ (record {
          target = t;
          asks = asks t refl;
          to = refl;
          carries = forwarded-Carries m t;
          allowed = h;
        }),
  )

  as_admin-Keeps :
      (refused : String) (action : Act Monitor (Option Fields))
      → (can_manage_policies m (stripped rt message "sender") ≡ true → Keeps (action m))
      → Keeps (as_admin rt refused action message m)
  as_admin-Keeps refused action k = search (calls, c.same, of_not, k)

  -- A part of a handler that reads the payload first.
  lift-Keeps :
      {A : Type 0} (r : Result A) (f : A → Act Monitor (Option Fields))
      → ((a : A) → r ≡ ok a → Keeps (f a m))
      → Keeps ((lift r >>= f) m)
  lift-Keeps (ok a) f k = k a refl
  lift-Keeps (raised e) f k = at_ret c.same

  proxy_request-Keeps : Keeps (handle_proxy_request rt message m)
  unfolding handle_proxy_request
  proxy_request-Keeps = lift-Keeps (as_dict (payload_of message)) _ (λ payload carried.
      lift-Keeps (extract_target rt payload) _ (λ t e.
        request_target-Keeps t (λ u h. extract_target-Asks rt message payload carried u (cc))))

  proxy_publish-Keeps : Keeps (handle_proxy_publish rt message m)
  unfolding handle_proxy_publish
  proxy_publish-Keeps = lift-Keeps (as_dict (payload_of message)) _ (λ payload carried.
      lift-Keeps (extract_target rt payload) _ (λ t e.
        publish_target-Keeps t (λ u h. extract_target-Asks rt message payload carried u (cc))))

  set_extracted-Keeps :
      (d : Fields) (p : Option PolicyKey)
      → can_manage_policies m (stripped rt message "sender") ≡ true
      → extract_policy rt d ≡ p
      → Keeps (set_extracted p m)
  unfolding set_extracted
  set_extracted-Keeps d none h e = at_ret c.same
  set_extracted-Keeps d (some p) h e = at_ret (c.added d p h e)

  remove_extracted-Keeps :
      (p : Option PolicyKey)
      → can_manage_policies m (stripped rt message "sender") ≡ true
      → Keeps (remove_extracted p m)
  unfolding remove_extracted
  remove_extracted-Keeps none h = at_ret c.same
  remove_extracted-Keeps (some p) h = at_ret (c.discarded p h)

  set_policy-Keeps : Keeps (handle_set_policy rt message m)
  unfolding handle_set_policy
  set_policy-Keeps =
      as_admin-Keeps "updated" _
        (λ h. lift-Keeps (as_dict (payload_of message)) _ (λ d _. set_extracted-Keeps d _ h refl))

  remove_policy-Keeps : Keeps (handle_remove_policy rt message m)
  unfolding handle_remove_policy
  remove_policy-Keeps =
      as_admin-Keeps "removed" _
        (λ h. lift-Keeps (as_dict (payload_of message)) _ (λ d _. remove_extracted-Keeps _ h))

  clear_policies-Keeps : Keeps (handle_clear_policies rt message m)
  unfolding handle_clear_policies
  clear_policies-Keeps = as_admin-Keeps "cleared" _ (λ h. at_ret (c.cleared h))

  list_policies-Keeps : Keeps (handle_list_policies rt message m)
  unfolding handle_list_policies
  list_policies-Keeps = at_ret c.same

  isolation_start-Keeps : Keeps (handle_isolation_start rt message m)
  unfolding handle_isolation_start
  isolation_start-Keeps = search (calls, c.same, of_not, c.isolated, c.journal)

  isolation_status-Keeps : Keeps (handle_isolation_status rt message m)
  unfolding handle_isolation_status
  isolation_status-Keeps = at_ret c.same

  status-Keeps : Keeps (handle_status rt message m)
  unfolding handle_status
  status-Keeps = at_ret c.same

  ping-Keeps : Keeps (handle_ping Monitor.component message m)
  unfolding handle_ping
  ping-Keeps = at_ret c.same

  -- One message, whatever it is: only such calls, and fields that satisfy `Q`.
  pub handle-Keeps : Keeps (handle rt message m)
  unfolding handle handlers
  handle-Keeps =
      handle_message-Keeps rt Monitor.component Req Pub Q message c.service (handlers rt) m c.same (
        ping-Keeps,
        (
          status-Keeps,
          (
            proxy_request-Keeps,
            (
              proxy_publish-Keeps,
              (
                set_policy-Keeps,
                (
                  remove_policy-Keeps,
                  (
                    clear_policies-Keeps,
                    (list_policies-Keeps, (isolation_start-Keeps, (isolation_status-Keeps, tt))),
                  ),
                ),
              ),
            ),
          ),
        ),
      )
