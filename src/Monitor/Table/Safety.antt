-- ===== src/Monitor/Table/Safety.antt =====
-- What the security monitor guarantees of one message, whatever it is and whatever it is answered.
use https_gitflic_ru_project.Base.{◌≡◌, refl, ◌≢◌, ◌⊎◌, subst, inl, inr, false, arith, eq_iff}
use https_gitflic_ru_project.Py.Value.{Value, text, Fields, Runtime}
use https_gitflic_ru_project.Py.Act.{Always, Ends, AnyCall}
use https_gitflic_ru_project.Sdk.Component.{Component}
use https_gitflic_ru_project.Sdk.Component.Calls.{IsService}
use https_gitflic_ru_project.Monitor.Policy.{stripped}
use https_gitflic_ru_project.Monitor.Policy.Validity.{
  IsWellFormed, extract_policy-IsFilled, add-IsWellFormed, discard-IsWellFormed, nil-IsWellFormed,
}
use https_gitflic_ru_project.Monitor.State.Validity.{emergency_policies-IsWellFormed}
use https_gitflic_ru_project.Monitor.State.Lockdown.{lockdown_exact}
use https_gitflic_ru_project.Monitor.State.{
  Monitor, isolated, topic_for, can_manage_policies, load_emergency_policies,
}
use https_gitflic_ru_project.Monitor.Proxy.{sender_id_of}
use https_gitflic_ru_project.Monitor.Table.{handle}
use https_gitflic_ru_project.Monitor.Table.Calls.{Allowed, handle-Keeps}

module _ (rt : Runtime) (message : Fields) (m : Monitor) where
  -- The publishes that need no policy: those of the base class and those to the journal.
  abbrev pub MayPublish : Value → Fields → Type 0
  MayPublish topic body =
      Allowed rt message m topic body
      ⊎ IsService message m.component topic
      ⊎ (topic ≡ text (topic_for m "journal"))

  -- For every message: each request that the monitor makes while it handles it, and each publish
  -- other than a reply, a dead letter or a journal entry, goes to the topic that the target of the
  -- message names, with an action that it names and that the policies allow to its sender there,
  -- and carries the data of the message: alone for the action `__raw__`, as the payload of a new
  -- message else.
  pub handle_mediates :
      Always
        (Allowed rt message m)
        MayPublish
        (Ends (λ s. s.component ≡ m.component))
        (handle rt message m)
  unfolding load_emergency_policies
  handle_mediates = handle-Keeps rt message m _ _ _ (record {
    asked = λ topic body a. a;
    sent = λ topic body a. inl a;
    journal = λ body. inr (inr refl);
    service =
        λ s q topic body h. inr (inl (subst (λ (x : Component). IsService message x topic) q h));
    same = refl;
    added = λ d p h e. refl;
    discarded = λ p h. refl;
    cleared = λ h. refl;
    isolated = λ h. refl;
  })

  -- A message whose sender is neither the administrator of the policies nor the emergency
  -- component leaves every field of the monitor as it was.
  pub handle_unprivileged :
      can_manage_policies m (stripped rt message "sender") ≡ false
      → stripped rt message "sender" ≢ topic_for m "emergensy"
      → Always AnyCall AnyCall (Ends (λ s. s ≡ m)) (handle rt message m)
  handle_unprivileged no_admin no_emergency = handle-Keeps rt message m _ _ _ (record {
    asked = λ topic body a. tt;
    sent = λ topic body a. tt;
    journal = λ body. tt;
    service = λ s q topic body h. tt;
    same = refl;
    added = λ d p h e. cc;
    discarded = λ p h. cc;
    cleared = λ h. cc;
    isolated = λ h. ground (arith, eq_iff (stripped rt message "sender") (topic_for m "emergensy"));
  })

  -- No message ends the isolation.
  pub handle_stays_isolated :
      m.mode ≡ isolated
      → Always AnyCall AnyCall (Ends (λ s. s.mode ≡ isolated)) (handle rt message m)
  unfolding load_emergency_policies
  handle_stays_isolated h = handle-Keeps rt message m _ _ _ (record {
    asked = λ topic body a. tt;
    sent = λ topic body a. tt;
    journal = λ body. tt;
    service = λ s q topic body h. tt;
    same = h;
    added = λ d p x e. h;
    discarded = λ p x. h;
    cleared = λ x. h;
    isolated = λ x. refl;
  })

  -- From a well-formed set of policies every message leads to a well-formed set.
  pub handle-IsWellFormed :
      IsWellFormed m.policies
      → Always AnyCall AnyCall (Ends (λ s. IsWellFormed s.policies)) (handle rt message m)
  unfolding load_emergency_policies
  handle-IsWellFormed w = handle-Keeps rt message m _ _ _ (record {
    asked = λ topic body a. tt;
    sent = λ topic body a. tt;
    journal = λ body. tt;
    service = λ s q topic body h. tt;
    same = w;
    added = λ d p x e. add-IsWellFormed p m.policies (extract_policy-IsFilled rt d p e) w;
    discarded = λ p x. discard-IsWellFormed p m.policies w;
    cleared = λ x. nil-IsWellFormed;
    isolated = λ x. emergency_policies-IsWellFormed m;
  })

  -- While the emergency policies are in force, a message of any sender but the emergency component
  -- makes the monitor request nothing, and publish nothing but replies, dead letters and journal
  -- entries.
  pub handle_locked_out :
      sender_id_of rt message ≢ topic_for m "emergensy"
      → Always
          (λ topic body. ⊥)
          (λ topic body.
            IsService message m.component topic ⊎ (topic ≡ text (topic_for m "journal")))
          (Ends (λ s. s.component ≡ m.component))
          (handle rt message (load_emergency_policies m))
  unfolding load_emergency_policies topic_for
  handle_locked_out other = handle-Keeps rt message (load_emergency_policies m) _ _ _ (record {
    asked = λ topic body a. other ((lockdown_exact m _ _ _).0 a.allowed).0;
    sent = λ topic body a. absurd (other ((lockdown_exact m _ _ _).0 a.allowed).0);
    journal = λ body. inr refl;
    service = λ s q topic body h. inl (subst (λ (x : Component). IsService message x topic) q h);
    same = refl;
    added = λ d p h e. refl;
    discarded = λ p h. refl;
    cleared = λ h. refl;
    isolated = λ h. refl;
  })
