-- ===== src/Monitor/State/Lockdown.antt =====
-- What is left allowed once the emergency policies are loaded.
use Prim.Native.String.{◌++◌ as append, count}
use text.Mathlib.TextLemmas.{length-append}
use https_gitflic_ru_project.Base.{
  All, ◌<◌, String, ◌≡◌, refl, sym, ap, ◌≢◌, ◌↔◌, ◌⊎◌, inl, inr, true, false, arith, [], eq_iff,
  ◌==◌,
}
use https_gitflic_ru_project.Monitor.Policy.{PolicyKey, star, contains, is_allowed}
use https_gitflic_ru_project.Monitor.Policy.Rights.{
  contains-is_allowed, contains-cons, any_admits-contains, IsExact, is_allowed-eq-any_admits,
}
use https_gitflic_ru_project.Monitor.State.{
  Monitor, topic_for, emergency_policies, load_emergency_policies,
}

-- No topic of the system is the wildcard.
topic-ne-star : (prefix rest : String) → 1 < count rest → append prefix rest ≢ star
topic-ne-star prefix rest h e = omega (arith, ap count e, length-append prefix rest)

word-ne-star : (w : String) → (w == star) ≡ false → w ≢ star
word-ne-star w h e = ground (arith, eq_iff w star)

emergency_policies-IsExact : (m : Monitor) → All IsExact (emergency_policies m)
unfolding emergency_policies
emergency_policies-IsExact m =
    let exact = λ (rest : String) (h : 1 < count rest). topic-ne-star m.prefix rest h in
    (
      (exact ".navigation" (omega arith), word-ne-star "get_state" refl),
      (
        (exact ".motors" (omega arith), word-ne-star "land" refl),
        (
          (exact ".sprayer" (omega arith), word-ne-star "set_spray" refl),
          (
            (exact ".journal" (omega arith), word-ne-star "log_event" refl),
            ((exact ".security_monitor" (omega arith), word-ne-star "isolation_status" refl), tt),
          ),
        ),
      ),
    )

-- The five accesses of the emergency protocol.
abbrev pub IsEmergencyAccess : Monitor → String → String → Type 0
IsEmergencyAccess m t a =
    (t ≡ topic_for m "navigation") × (a ≡ "get_state")
    ⊎ (t ≡ topic_for m "motors") × (a ≡ "land")
    ⊎ (t ≡ topic_for m "sprayer") × (a ≡ "set_spray")
    ⊎ (t ≡ topic_for m "journal") × (a ≡ "log_event")
    ⊎ (t ≡ topic_for m "security_monitor") × (a ≡ "isolation_status")

module _ (m : Monitor) (s t a : String) where
  abbrev key : PolicyKey
  key = record { sender = s; topic = t; action = a }

  emergency-key :
      contains key (emergency_policies m) ≡ true
      → (s ≡ topic_for m "emergensy") × IsEmergencyAccess m t a
  unfolding emergency_policies
  emergency-key h = elim (contains-cons key _ _ h) [
    | inl e ↦ (ap PolicyKey.sender (sym e), inl (parts e))
    | inr h ↦ elim (contains-cons key _ _ h) [
      | inl e ↦ (ap PolicyKey.sender (sym e), inr (inl (parts e)))
      | inr h ↦ elim (contains-cons key _ _ h) [
        | inl e ↦ (ap PolicyKey.sender (sym e), inr (inr (inl (parts e))))
        | inr h ↦ elim (contains-cons key _ _ h) [
          | inl e ↦ (ap PolicyKey.sender (sym e), inr (inr (inr (inl (parts e)))))
          | inr h ↦ elim (contains-cons key _ _ h) [
            | inl e ↦ (ap PolicyKey.sender (sym e), inr (inr (inr (inr (parts e)))))
            | inr h ↦ absurd (nothing h)
          ]
        ]
      ]
    ]
  ]
    where
      parts : {p : PolicyKey} → p ≡ key → (t ≡ p.topic) × (a ≡ p.action)
      parts e = (ap PolicyKey.topic (sym e), ap PolicyKey.action (sym e))

      nothing : contains key [] ≡ true → ⊥
      nothing h = unfold contains in cc

  key-emergency :
      (s ≡ topic_for m "emergensy")
      → IsEmergencyAccess m t a
      → contains key (emergency_policies m) ≡ true
  unfolding contains emergency_policies
  key-emergency e access = ground (
    arith,
    eq_iff (topic_for m "emergensy") s,
    eq_iff (topic_for m "navigation") t,
    eq_iff (topic_for m "motors") t,
    eq_iff (topic_for m "sprayer") t,
    eq_iff (topic_for m "journal") t,
    eq_iff (topic_for m "security_monitor") t,
    eq_iff "get_state" a,
    eq_iff "land" a,
    eq_iff "set_spray" a,
    eq_iff "log_event" a,
    eq_iff "isolation_status" a,
  )

  -- With the emergency policies loaded, an access is allowed exactly when its sender is the
  -- emergency component and it is one of the five accesses of the emergency protocol.
  pub lockdown_exact :
      (is_allowed (load_emergency_policies m).policies s t a ≡ true)
      ↔ ((s ≡ topic_for m "emergensy") × IsEmergencyAccess m t a)
  unfolding load_emergency_policies
  lockdown_exact = (
    λ h. emergency-key (
        any_admits-contains (emergency_policies m) s t a (emergency_policies-IsExact m)
          (rw (← is_allowed-eq-any_admits (emergency_policies m) s t a) h)),
    λ h. contains-is_allowed (emergency_policies m) s t a (key-emergency h.0 h.1),
  )
