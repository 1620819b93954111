-- ===== src/Monitor/Policy/Rights.antt =====
-- What the operations on policies mean: the laws of the set, and when an access is allowed.
use https_gitflic_ru_project.Base.{
  String, ◌≡◌, refl, ◌≢◌, ◌↔◌, ◌⊎◌, inl, inr, true, false, [], ◌∷◌, ◌||◌, All, arith, eq_iff,
  Bool-cases, if◌then◌else◌,
}
use https_gitflic_ru_project.Monitor.Policy.{
  PolicyKey, Policies, key_eq, contains, add, discard, star, admits, any_admits, is_allowed,
}

-- Two keys pass the comparison of tuples exactly when they are one.
pub key_eq_iff : (p q : PolicyKey) → (key_eq p q ≡ true) ↔ (p ≡ q)
key_eq_iff p q =
    ground (arith, eq_iff p.sender q.sender, eq_iff p.topic q.topic, eq_iff p.action q.action)

pub contains-add :
    (p q : PolicyKey) (l : Policies) → contains q (add p l) ≡ (key_eq p q || contains q l)
unfolding add contains
contains-add p q l = ground (arith, key_eq_iff p q)

pub contains-discard :
    (p q : PolicyKey) (l : Policies)
    → contains q (discard p l) ≡ (if key_eq p q then false else contains q l)
unfolding contains discard
contains-discard p q [] = ground arith
contains-discard p q (r ∷ l) =
    ground (arith, contains-discard p q l, key_eq_iff r p, key_eq_iff r q, key_eq_iff p q)

-- What a policy covers: its sender, and its topic and action unless they are `*`.
pub record Covers (p : PolicyKey) (s t a : String) : Type 0 where
  pub sender : p.sender ≡ s
  pub topic : (p.topic ≡ star) ⊎ (p.topic ≡ t)
  pub action : (p.action ≡ star) ⊎ (p.action ≡ a)

pub admits-Covers : (p : PolicyKey) (s t a : String) → admits s t a p ≡ true → Covers p s t a
admits-Covers p s t a h = ground (
  arith,
  eq_iff p.sender s,
  eq_iff p.topic star,
  eq_iff p.topic t,
  eq_iff p.action star,
  eq_iff p.action a,
)

pub Covers-admits : (p : PolicyKey) (s t a : String) → Covers p s t a → admits s t a p ≡ true
Covers-admits p s t a h = ground (
  arith,
  eq_iff p.sender s,
  eq_iff p.topic star,
  eq_iff p.topic t,
  eq_iff p.action star,
  eq_iff p.action a,
)

-- Some policy of the set covers the access.
abbrev pub Granted : Policies → String → String → String → Type 0
Granted l s t a = (p : PolicyKey) × (contains p l ≡ true) × Covers p s t a

contains-head : (p : PolicyKey) (l : Policies) → contains p (p ∷ l) ≡ true
unfolding contains
contains-head p l = ground (arith, key_eq_iff p p)

contains-tail : (p q : PolicyKey) (l : Policies) → contains p l ≡ true → contains p (q ∷ l) ≡ true
unfolding contains
contains-tail p q l h = ground arith

any_admits-Granted : (l : Policies) (s t a : String) → any_admits s t a l ≡ true → Granted l s t a
unfolding any_admits
any_admits-Granted [] s t a h = cc
any_admits-Granted (p ∷ l) s t a h = elim (Bool-cases (admits s t a p)) [
  | inl here ↦ (p, contains-head p l, admits-Covers p s t a here)
  | inr not_here ↦
      let (q, q_in, covers) = any_admits-Granted l s t a (ground arith) in
      (q, contains-tail q p l q_in, covers)
]

Granted-any_admits :
    (p : PolicyKey) (l : Policies) (s t a : String)
    → contains p l ≡ true
    → Covers p s t a
    → any_admits s t a l ≡ true
unfolding contains any_admits
Granted-any_admits p [] s t a h c = cc
Granted-any_admits p (q ∷ l) s t a h c = elim (Bool-cases (key_eq q p)) [
  | inl here ↦ ground (arith, Covers-admits p s t a c, key_eq_iff q p)
  | inr there ↦ ground (arith, Granted-any_admits p l s t a (ground arith) c)
]

pub is_allowed-eq-any_admits :
    (l : Policies) (s t a : String) → is_allowed l s t a ≡ any_admits s t a l
unfolding is_allowed
is_allowed-eq-any_admits l s t a =
    let key : PolicyKey = record { sender = s; topic = t; action = a } in
    let covers : Covers key s t a = record { sender = refl; topic = inr refl; action = inr refl } in
    ground (arith, λ (h : contains key l ≡ true). Granted-any_admits key l s t a h covers)

-- An access is allowed exactly when some policy of the set covers it.
pub is_allowed_iff : (l : Policies) (s t a : String) → (is_allowed l s t a ≡ true) ↔ Granted l s t a
is_allowed_iff l s t a =
    rw is_allowed-eq-any_admits
      (any_admits-Granted l s t a, λ g. Granted-any_admits g.0 l s t a g.1 g.2)

-- A policy with no wildcard.
abbrev pub IsExact : PolicyKey → Type 0
IsExact p = (p.topic ≢ star) × (p.action ≢ star)

-- Where no policy has a wildcard, what is allowed is the set itself.
pub any_admits-contains :
    (l : Policies) (s t a : String)
    → All IsExact l
    → any_admits s t a l ≡ true
    → contains (record { sender = s; topic = t; action = a }) l ≡ true
unfolding any_admits contains
any_admits-contains [] s t a exact h = cc
any_admits-contains (p ∷ l) s t a exact h = ground (
  arith,
  any_admits-contains l s t a exact.1,
  admits-Covers p s t a,
  key_eq_iff p (record { sender = s; topic = t; action = a }),
  exact.0,
)

pub contains-is_allowed :
    (l : Policies) (s t a : String)
    → contains (record { sender = s; topic = t; action = a }) l ≡ true
    → is_allowed l s t a ≡ true
unfolding is_allowed
contains-is_allowed l s t a h = rw h

pub contains-cons :
    (q p : PolicyKey) (l : Policies) → contains q (p ∷ l) ≡ true → (p ≡ q) ⊎ (contains q l ≡ true)
unfolding contains
contains-cons q p l h = ground (arith, key_eq_iff p q)
