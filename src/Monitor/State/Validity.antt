-- ===== src/Monitor/State/Validity.antt =====
-- The emergency policies are a well-formed set.
use Prim.Native.String.{◌++◌ as append}
use text.Mathlib.TextLemmas.{nil-append, cons-append}
use https_gitflic_ru_project.Base.{String, ◌≡◌, true, arith, All}
use https_gitflic_ru_project.Py.Text.{nonempty}
use https_gitflic_ru_project.Monitor.Policy.{contains}
use https_gitflic_ru_project.Monitor.Policy.Validity.{IsFilled, Distinct, IsWellFormed}
use https_gitflic_ru_project.Monitor.State.{Monitor, topic_for, emergency_policies}

nonempty-append : (s t : String) → nonempty t ≡ true → nonempty (append s t) ≡ true
nonempty-append String.[] t h = rw nil-append h
nonempty-append (String.◌∷◌ c s) t h = rw cons-append

emergency-IsFilled : (m : Monitor) → All IsFilled (emergency_policies m)
unfolding emergency_policies topic_for
emergency-IsFilled m = ground (
  arith,
  nonempty-append m.prefix ".emergensy",
  nonempty-append m.prefix ".navigation",
  nonempty-append m.prefix ".motors",
  nonempty-append m.prefix ".sprayer",
  nonempty-append m.prefix ".journal",
  nonempty-append m.prefix ".security_monitor",
)

emergency-Distinct : (m : Monitor) → Distinct (emergency_policies m)
unfolding emergency_policies contains
emergency-Distinct m = ground arith

pub emergency_policies-IsWellFormed : (m : Monitor) → IsWellFormed (emergency_policies m)
emergency_policies-IsWellFormed m = record {
  distinct = emergency-Distinct m;
  filled = emergency-IsFilled m;
}
