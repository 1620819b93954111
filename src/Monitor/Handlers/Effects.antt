-- ===== src/Monitor/Handlers/Effects.antt =====
-- What an administrator's messages do to the accesses that are allowed.
use https_gitflic_ru_project.Base.{
  String, ◌≡◌, ◌≢◌, ◌↔◌, ◌⊎◌, inl, inr, true, some, [], ◌∷◌, arith, Bool-cases, sym, subst,
}
use https_gitflic_ru_project.Py.Value.{bool, dict, Fields, Runtime}
use https_gitflic_ru_project.Py.Act.{ret, ok}
use https_gitflic_ru_project.Monitor.Policy.{
  PolicyKey, Policies, key_eq, contains, add, discard, is_allowed, policy_to_dict, stripped,
  extract_policy,
}
use https_gitflic_ru_project.Monitor.Policy.Rights.{
  Covers, Granted, key_eq_iff, contains-add, contains-discard, is_allowed_iff,
}
use https_gitflic_ru_project.Monitor.State.{Monitor, reply, can_manage_policies, payload_of}
use https_gitflic_ru_project.Monitor.Handlers.{
  set_extracted, remove_extracted, handle_set_policy, handle_remove_policy,
}

module _ (p : PolicyKey) (l : Policies) (s t a : String) where
  Granted-add : Granted (add p l) s t a ↔ (Covers p s t a ⊎ Granted l s t a)
  Granted-add = (
    λ g. elim (Bool-cases (key_eq p g.0)) [
      | inl same ↦
          inl (subst (λ (q : PolicyKey). Covers q s t a) (sym ((key_eq_iff p g.0).0 same)) g.2)
      | inr other ↦ inr (g.0, ground (arith, contains-add p g.0 l, g.1), g.2)
    ],
    λ h. elim h [
      | inl c ↦ (p, ground (arith, contains-add p p l, key_eq_iff p p), c)
      | inr g ↦ (g.0, ground (arith, contains-add p g.0 l, g.1), g.2)
    ],
  )

  Granted-discard :
      Granted (discard p l) s t a
      ↔ ((q : PolicyKey) × (q ≢ p) × (contains q l ≡ true) × Covers q s t a)
  Granted-discard = (
    λ g. (
      g.0,
      λ e. ground (arith, contains-discard p g.0 l, g.1, key_eq_iff p g.0, sym e),
      ground (arith, contains-discard p g.0 l, g.1),
      g.2,
    ),
    λ h. (h.0, ground (arith, contains-discard p h.0 l, h.2, key_eq_iff p h.0, h.1), h.3),
  )

module _ (rt : Runtime) (message : Fields) (m : Monitor) (d : Fields) (p : PolicyKey)
    (admin : can_manage_policies m (stripped rt message "sender") ≡ true)
    (payload : payload_of message ≡ dict d) (named : extract_policy rt d ≡ some p) where
  -- `set_policy` from the administrator, with a policy in the payload: the reply confirms the
  -- policy, and from then on exactly what was allowed before and what the policy covers is allowed.
  pub set_policy_effect :
      (m' : Monitor) × (handle_set_policy rt message m
        ≡ ret (ok (reply (("updated", bool true) ∷ ("policy", dict (policy_to_dict p)) ∷ [])), m'))
      × ((s t a : String)
          → (is_allowed m'.policies s t a ≡ true) ↔ (Covers p s t a ⊎ Granted m.policies s t a))
  unfolding handle_set_policy set_extracted
  set_policy_effect = (
    record m { policies = add p m.policies },
    rw (admin, payload, named),
    λ s t a. (
      λ h. (Granted-add p m.policies s t a).0 ((is_allowed_iff _ s t a).0 h),
      λ h. (is_allowed_iff _ s t a).1 ((Granted-add p m.policies s t a).1 h),
    ),
  )

  -- `remove_policy` from the administrator: the reply says whether the policy was there, and from
  -- then on exactly what another policy covers is allowed.
  pub remove_policy_effect :
      (m' : Monitor) × (handle_remove_policy rt message m
        ≡ ret (
          ok (
              reply (
                ("removed", bool (contains p m.policies))
                ∷ ("policy", dict (policy_to_dict p))
                ∷ [])),
          m',
        ))
      × ((s t a : String)
          → (is_allowed m'.policies s t a ≡ true)
            ↔ ((q : PolicyKey) × (q ≢ p) × (contains q m.policies ≡ true) × Covers q s t a))
  unfolding handle_remove_policy remove_extracted
  remove_policy_effect = (
    record m { policies = discard p m.policies },
    rw (admin, payload, named),
    λ s t a. (
      λ h. (Granted-discard p m.policies s t a).0 ((is_allowed_iff _ s t a).0 h),
      λ h. (is_allowed_iff _ s t a).1 ((Granted-discard p m.policies s t a).1 h),
    ),
  )
