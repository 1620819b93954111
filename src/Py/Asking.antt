-- ===== src/Py/Asking.antt =====
-- What is published only after an answer.
use https_gitflic_ru_project.Base.{Bool, true, false, Option, if◌then◌else◌}
use https_gitflic_ru_project.Py.Value.{Value, Fields}
use https_gitflic_ru_project.Py.Act.{
  Tree, ret, asks, Result, ok, raised, Act, go_on, Always, AnyCall,
}

-- Nothing is published before a request to `t`, and after it only what `G` has of the answer.
pub data AfterAsking {A : Type 0} (t : Value) (G : Option Fields → Value → Fields → Type 0)
    : Tree A → Type 0 where
  at_end : {a : A} → AfterAsking t G (ret a)
  at_other :
      {u : Value} {m : Fields} {k : Option Fields → Tree A}
      → ((r : Option Fields) → AfterAsking t G (k r))
      → AfterAsking t G (asks u m k)
  at_answer :
      {m : Fields} {k : Option Fields → Tree A}
      → ((r : Option Fields) → Always AnyCall (G r) (λ a. Unit {0}) (k r))
      → AfterAsking t G (asks t m k)

pub AfterAsking-lift :
    {S A B : Type 0} {t : Value} {G : Option Fields → Value → Fields → Type 0} (r : Result A)
    (f : A → Act S B) (s : S)
    → ((a : A) → AfterAsking t G (f a s))
    → AfterAsking t G (go_on f (r, s))
AfterAsking-lift (ok a) f s h = h a
AfterAsking-lift (raised e) f s h = at_end

pub AfterAsking-if :
    {S A : Type 0} {t : Value} {G : Option Fields → Value → Fields → Type 0} (b : Bool)
    (m n : Act S A) (s : S)
    → AfterAsking t G (m s)
    → AfterAsking t G (n s)
    → AfterAsking t G ((if b then m else n) s)
AfterAsking-if true m n s h k = h
AfterAsking-if false m n s h k = k
