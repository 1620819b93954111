-- ===== src/Monitor/Policy/Validity.antt =====
-- A set of policies is well formed when no key is in it twice and no key has an empty part; the
-- operations keep it so.
use https_gitflic_ru_project.Base.{
  String, ◌≡◌, inl, inr, true, false, some, [], ◌∷◌, All, arith, Bool-cases,
}
use https_gitflic_ru_project.Py.Text.{nonempty}
use https_gitflic_ru_project.Py.Value.{Fields, Runtime}
use https_gitflic_ru_project.Monitor.Policy.{
  PolicyKey, Policies, key_eq, contains, add, discard, key_of, extract_policy,
}
use https_gitflic_ru_project.Monitor.Policy.Rights.{contains-discard}

abbrev pub IsFilled : PolicyKey → Type 0
IsFilled p = (nonempty p.sender ≡ true) × (nonempty p.topic ≡ true) × (nonempty p.action ≡ true)

abbrev pub Distinct : Policies → Type 0
Distinct [] = Unit
Distinct (p ∷ l) = (contains p l ≡ false) × Distinct l

pub record IsWellFormed (l : Policies) : Type 0 where
  pub distinct : Distinct l
  pub filled : All IsFilled l

pub key_of-IsFilled :
    (sender topic action : String) (p : PolicyKey)
    → key_of sender topic action ≡ some p
    → IsFilled p
key_of-IsFilled sender topic action p h = ground arith

pub extract_policy-IsFilled :
    (rt : Runtime) (d : Fields) (p : PolicyKey) → extract_policy rt d ≡ some p → IsFilled p
unfolding extract_policy
extract_policy-IsFilled rt d p h = key_of-IsFilled _ _ _ p h

pub add-IsWellFormed :
    (p : PolicyKey) (l : Policies) → IsFilled p → IsWellFormed l → IsWellFormed (add p l)
unfolding add
add-IsWellFormed p l f w = elim (Bool-cases (contains p l)) [
  | inl old ↦ rw old w
  | inr new ↦ rw new (record { distinct = (new, w.distinct); filled = (f, w.filled) })
]

discard-IsFilled : (p : PolicyKey) (l : Policies) → All IsFilled l → All IsFilled (discard p l)
unfolding discard
discard-IsFilled p [] h = tt
discard-IsFilled p (q ∷ l) h = elim (Bool-cases (key_eq q p)) [
  | inl same ↦ rw same (discard-IsFilled p l h.1)
  | inr other ↦ rw other (h.0, discard-IsFilled p l h.1)
]

discard-Distinct : (p : PolicyKey) (l : Policies) → Distinct l → Distinct (discard p l)
unfolding discard
discard-Distinct p [] h = tt
discard-Distinct p (q ∷ l) h = elim (Bool-cases (key_eq q p)) [
  | inl same ↦ rw same (discard-Distinct p l h.1)
  | inr other ↦ rw other (ground (arith, contains-discard p q l, h.0), discard-Distinct p l h.1)
]

pub discard-IsWellFormed :
    (p : PolicyKey) (l : Policies) → IsWellFormed l → IsWellFormed (discard p l)
discard-IsWellFormed p l w = record {
  distinct = discard-Distinct p l w.distinct;
  filled = discard-IsFilled p l w.filled;
}

pub nil-IsWellFormed : IsWellFormed []
nil-IsWellFormed = record { distinct = tt; filled = tt }
