-- ===== src/Py/Read/Outcome.antt =====
-- What holds of a result unless it is an exception.
use https_gitflic_ru_project.Base.{◌≡◌, refl, ap, subst}
use https_gitflic_ru_project.Py.Act.{Result, ok, raised}
use https_gitflic_ru_project.Py.Read.{then_check}

abbrev pub IfOk : {A : Type 0} → (A → Type 0) → Result A → Type 0
IfOk P (ok a) = P a
IfOk P (raised e) = Unit

module _ {A B : Type 0} (P : B → Type 0) where
  pub then_check-IfOk :
      (r : Result A) (f : A → Result B) → ((a : A) → IfOk P (f a)) → IfOk P (then_check r f)
  then_check-IfOk (ok a) f h = h a
  then_check-IfOk (raised e) f h = tt

module _ {A B : Type 0} (P : A → Type 0) (Q : B → Type 0) where
  -- The same, from what holds of the first.
  pub then_check-IfOk_both :
      (r : Result A) (f : A → Result B)
      → IfOk P r
      → ((a : A) → P a → IfOk Q (f a))
      → IfOk Q (then_check r f)
  then_check-IfOk_both (ok a) f p h = h a p
  then_check-IfOk_both (raised e) f p h = tt

pub IfOk-ok : {A : Type 0} (P : A → Type 0) (r : Result A) (a : A) → IfOk P r → r ≡ ok a → P a
IfOk-ok P r a h e = subst (IfOk P) e h

module _ {A : Type 0} (P Q : A → Type 0) where
  pub IfOk-map : ((a : A) → P a → Q a) → (r : Result A) → IfOk P r → IfOk Q r
  IfOk-map f (ok a) h = f a h
  IfOk-map f (raised e) h = tt

pub IfOk-any : {A : Type 0} (r : Result A) → IfOk (λ a. Unit {0}) r
IfOk-any (ok a) = tt
IfOk-any (raised e) = tt

-- What a sequence that returns has gone through.
pub then_check-ok :
    {A B : Type 0} (r : Result A) (f : A → Result B) (b : B)
    → then_check r f ≡ ok b
    → (a : A) × (r ≡ ok a) × (f a ≡ ok b)
then_check-ok (ok a) f b h = (a, refl, h)
then_check-ok (raised e) f b h = cc

abbrev value_or : {A : Type 0} → A → Result A → A
value_or a (ok b) = b
value_or a (raised e) = a

pub ok_injective : {A : Type 0} {a b : A} → ◌≡◌ {A = Result A} (ok a) (ok b) → a ≡ b
ok_injective {A} {a} h = ap (value_or a) h
