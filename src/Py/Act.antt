-- ===== src/Py/Act.antt =====
-- A handler as the message bus sees it: a tree of the calls that it makes, each with what it goes
-- on with for every answer. A topic is a value, since `reply_to` of a message may be any.
-- `request` answers None on a timeout; the answers are the environment's.
-- A tree is finite, so a handler that has one ends whatever it is answered.
use https_gitflic_ru_project.Base.{String, Bool, true, false, Option, ◌≡◌, refl, if◌then◌else◌}
use https_gitflic_ru_project.Py.Value.{Value, Fields, Exc}

pub data Tree (A : Type 0) : Type 0 where
  ret : A → Tree A
  asks : Value → Fields → (Option Fields → Tree A) → Tree A
  sends : Value → Fields → (Bool → Tree A) → Tree A
  reads_clock : (String → Tree A) → Tree A

abbrev pub bind : {A B : Type 0} → Tree A → (A → Tree B) → Tree B
bind (ret a) f = f a
bind (asks topic m k) f = asks topic m (λ r. bind (k r) f)
bind (sends topic m k) f = sends topic m (λ r. bind (k r) f)
bind (reads_clock k) f = reads_clock (λ r. bind (k r) f)

pub data Result (A : Type 0) : Type 0 where
  ok : A → Result A
  raised : Exc → Result A

-- A method: the object's fields come back beside the value or the exception.
abbrev pub Act : Type 0 → Type 0 → Type 0
Act S A = S → Tree (Result A × S)

abbrev pub pure : {S A : Type 0} → A → Act S A
pure a s = ret (ok a, s)

abbrev pub raise : {S A : Type 0} → Exc → Act S A
raise e s = ret (raised e, s)

-- A computation that uses no field and no bus.
abbrev pub lift : {S A : Type 0} → Result A → Act S A
lift r s = ret (r, s)

abbrev pub read : {S A : Type 0} → (S → A) → Act S A
read f s = ret (ok (f s), s)

abbrev pub write : {S : Type 0} → (S → S) → Act S (Unit {0})
write f s = ret (ok tt, f s)

-- `self.bus.request(topic, message)`
abbrev pub request : {S : Type 0} → Value → Fields → Act S (Option Fields)
request topic m s = asks topic m (λ r. ret (ok r, s))

-- `self.bus.publish(topic, message)`
abbrev pub publish : {S : Type 0} → Value → Fields → Act S Bool
publish topic m s = sends topic m (λ r. ret (ok r, s))

-- `datetime.now(timezone.utc).isoformat()`
abbrev pub now : {S : Type 0} → Act S String
now s = reads_clock (λ t. ret (ok t, s))

abbrev pub go_on : {S A B : Type 0} → (A → Act S B) → Result A × S → Tree (Result B × S)
go_on f (ok a, s) = f a s
go_on f (raised e, s) = ret (raised e, s)

infixl 5 ◌>>=◌ ◌>>◌
abbrev pub ◌>>=◌ : {S A B : Type 0} → Act S A → (A → Act S B) → Act S B
◌>>=◌ m f s = bind (m s) (go_on f)

abbrev pub ◌>>◌ : {S A B : Type 0} → Act S A → Act S B → Act S B
m >> n = m >>= λ _. n

-- `try` with `except Exception`, after which nothing but a print follows.
abbrev pub attempt : {S : Type 0} → Act S (Unit {0}) → Act S (Unit {0})
attempt act s = bind (act s) (λ r. ret (ok tt, r.1))

-- Every request that a tree makes, whatever it is answered, satisfies the first predicate, every
-- publish the second, and every result the third.
pub data Always {A : Type 0} (Req Pub : Value → Fields → Type 0) (R : A → Type 0)
    : Tree A → Type 0 where
  at_ret : {a : A} → R a → Always Req Pub R (ret a)
  at_ask :
      {topic : Value} {m : Fields} {k : Option Fields → Tree A}
      → Req topic m
      → ((r : Option Fields) → Always Req Pub R (k r))
      → Always Req Pub R (asks topic m k)
  at_send :
      {topic : Value} {m : Fields} {k : Bool → Tree A}
      → Pub topic m
      → ((r : Bool) → Always Req Pub R (k r))
      → Always Req Pub R (sends topic m k)
  at_clock :
      {k : String → Tree A}
      → ((t : String) → Always Req Pub R (k t))
      → Always Req Pub R (reads_clock k)

module _ {A B : Type 0} {Req Pub : Value → Fields → Type 0} {R : A → Type 0} {Q : B → Type 0} where
  -- The calls of a sequence are those of its parts.
  pub Always-bind :
      {m : Tree A} (f : A → Tree B)
      → Always Req Pub R m
      → ((a : A) → R a → Always Req Pub Q (f a))
      → Always Req Pub Q (bind m f)
  Always-bind f (at_ret h) k = k _ h
  Always-bind f (at_ask h g) k = at_ask h (λ r. Always-bind f (g r) k)
  Always-bind f (at_send h g) k = at_send h (λ r. Always-bind f (g r) k)
  Always-bind f (at_clock g) k = at_clock (λ t. Always-bind f (g t) k)

module _ {A : Type 0} {Req Pub : Value → Fields → Type 0} {R : A → Type 0} where
  pub Always-if :
      (b : Bool) (t u : Tree A)
      → (b ≡ true → Always Req Pub R t)
      → (b ≡ false → Always Req Pub R u)
      → Always Req Pub R (if b then t else u)
  Always-if true t u h k = h refl
  Always-if false t u h k = k refl

module _ {S A : Type 0} {Req Pub : Value → Fields → Type 0} {R : Result A × S → Type 0} where
  -- The same for methods.
  pub Always-if_act :
      (b : Bool) (m n : Act S A) (s : S)
      → (b ≡ true → Always Req Pub R (m s))
      → (b ≡ false → Always Req Pub R (n s))
      → Always Req Pub R ((if b then m else n) s)
  Always-if_act true m n s h k = h refl
  Always-if_act false m n s h k = k refl

-- The fields that a method ends with satisfy `Q`, exception or not.
abbrev pub Ends : {S A : Type 0} → (S → Type 0) → Result A × S → Type 0
Ends Q r = Q r.1

module _ {S A B : Type 0} {Req Pub : Value → Fields → Type 0} {Q : S → Type 0} where
  go_on-Ends :
      (f : A → Act S B) (r : Result A × S)
      → Ends Q r
      → ((a : A) (s : S) → Q s → Always Req Pub (Ends Q) (f a s))
      → Always Req Pub (Ends Q) (go_on f r)
  go_on-Ends f (ok a, s) q k = k a s q
  go_on-Ends f (raised e, s) q k = at_ret q

  pub Always-seq :
      (m : Act S A) (f : A → Act S B) (s : S)
      → Always Req Pub (Ends Q) (m s)
      → ((a : A) (t : S) → Q t → Always Req Pub (Ends Q) (f a t))
      → Always Req Pub (Ends Q) ((m >>= f) s)
  Always-seq m f s h k = Always-bind (go_on f) h (λ r q. go_on-Ends f r q k)

module _ {S A B : Type 0} {Req Pub : Value → Fields → Type 0} {Q Q' : S → Type 0} where
  weaker-Ends :
      (f : A → Act S B) (r : Result A × S)
      → ((t : S) → Q t → Q' t)
      → Ends Q r
      → ((a : A) (t : S) → Q t → Always Req Pub (Ends Q') (f a t))
      → Always Req Pub (Ends Q') (go_on f r)
  weaker-Ends f (ok a, s) w q k = k a s q
  weaker-Ends f (raised e, s) w q k = at_ret (w s q)

  -- The same where the parts end differently.
  pub Always-then :
      (m : Act S A) (f : A → Act S B) (s : S)
      → ((t : S) → Q t → Q' t)
      → Always Req Pub (Ends Q) (m s)
      → ((a : A) (t : S) → Q t → Always Req Pub (Ends Q') (f a t))
      → Always Req Pub (Ends Q') ((m >>= f) s)
  Always-then m f s w h k = Always-bind (go_on f) h (λ r q. weaker-Ends f r w q k)

module _ {S : Type 0} {Req Pub : Value → Fields → Type 0} where
  pub Always-attempt :
      (Q : S → Type 0) (m : Act S (Unit {0})) (s : S)
      → Always Req Pub (Ends Q) (m s)
      → Always Req Pub (Ends Q) (attempt m s)
  Always-attempt Q m s h = Always-bind _ h (λ r q. at_ret q)

module _ {S A B : Type 0} {Req Pub : Value → Fields → Type 0} {R : Result B × S → Type 0} where
  -- What follows a computation that may raise.
  pub Always-lift :
      (r : Result A) (f : A → Act S B) (s : S)
      → ((e : Exc) → R (raised e, s))
      → ((a : A) → r ≡ ok a → Always Req Pub R (f a s))
      → Always Req Pub R (go_on f (r, s))
  Always-lift (ok a) f s q k = k a refl
  Always-lift (raised e) f s q k = at_ret (q e)

pub ruleset calls = (at_ret, at_ask, at_send, at_clock, Always-if, Always-if_act)

-- Any call at all.
abbrev pub AnyCall : Value → Fields → Type 0
AnyCall topic body = Unit

module _ {A : Type 0} where
  pub Always-any : (t : Tree A) → Always AnyCall AnyCall (λ _. Unit {0}) t
  Always-any (ret a) = at_ret tt
  Always-any (asks topic m k) = at_ask tt (λ r. Always-any (k r))
  Always-any (sends topic m k) = at_send tt (λ r. Always-any (k r))
  Always-any (reads_clock k) = at_clock (λ t. Always-any (k t))

module _ {Req Pub Pub' : Value → Fields → Type 0}
    (weaker : (topic : Value) (m : Fields) → Pub topic m → Pub' topic m) where
  pub Always-weaken :
      {A : Type 0} {R : A → Type 0} {t : Tree A} → Always Req Pub R t → Always Req Pub' R t
  Always-weaken (at_ret h) = at_ret h
  Always-weaken (at_ask q k) = at_ask q (λ r. Always-weaken (k r))
  Always-weaken (at_send p k) = at_send (weaker _ _ p) (λ r. Always-weaken (k r))
  Always-weaken (at_clock k) = at_clock (λ t. Always-weaken (k t))

module _ {A : Type 0} {Req Pub : Value → Fields → Type 0} {R R' : A → Type 0}
    (weaker : (a : A) → R a → R' a) where
  -- The same of the results.
  pub Always-result : {t : Tree A} → Always Req Pub R t → Always Req Pub R' t
  Always-result (at_ret h) = at_ret (weaker _ h)
  Always-result (at_ask q k) = at_ask q (λ r. Always-result (k r))
  Always-result (at_send p k) = at_send p (λ r. Always-result (k r))
  Always-result (at_clock k) = at_clock (λ t. Always-result (k t))
