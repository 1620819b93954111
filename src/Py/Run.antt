-- ===== src/Py/Run.antt =====
-- A handler run in a given environment, with the messages that it publishes.
use https_gitflic_ru_project.Base.{
  String, Bool, ◌≡◌, ◌∙◌, ap, refl, Option, List, [], ◌∷◌, ◌++◌, All,
}
use https_gitflic_ru_project.Py.Value.{Value, Fields}
use https_gitflic_ru_project.Py.Act.{
  Tree, ret, asks, sends, reads_clock, bind, ok, go_on, ◌>>=◌, Act, Always, at_ret, at_ask, at_send,
  at_clock,
}

-- How the bus and the clock answer.
pub record Env : Type 0 where
  pub answer : Value → Fields → Option Fields
  pub sent : Value → Fields → Bool
  pub clock : String

-- The messages on the bus, each with its topic.
abbrev pub Messages : Type 0
Messages = List (Value × Fields)

-- The messages without their topics.
abbrev pub bodies : Messages → List Fields
bodies [] = []
bodies (x ∷ l) = x.1 ∷ bodies l

abbrev pub prefixed : {A : Type 0} → Messages → A × Messages → A × Messages
prefixed l (a, more) = (a, l ++ more)

module _ (env : Env) where
  abbrev pub run : {A : Type 0} → Tree A → A × Messages
  run (ret a) = (a, [])
  run (asks topic m k) = run (k (env.answer topic m))
  run (sends topic m k) = prefixed ((topic, m) ∷ []) (run (k (env.sent topic m)))
  run (reads_clock k) = run (k env.clock)

  -- A component that handles messages one after the other: its fields at the end, and what it
  -- published.
  abbrev pub run_all : {S A : Type 0} → (Fields → Act S A) → S → List Fields → S × Messages
  run_all handle s [] = (s, [])
  run_all handle s (m ∷ ms) = let r = run (handle m s) in prefixed r.1 (run_all handle r.0.1 ms)

module _ (env : Env) {A B : Type 0} where
  -- How a sequence ends.
  pub run-bind :
      (m : Tree A) (f : A → Tree B) → (run env (bind m f)).0 ≡ (run env (f (run env m).0)).0
  run-bind (ret a) f = refl
  run-bind (asks topic m k) f = run-bind (k (env.answer topic m)) f
  run-bind (sends topic m k) f = run-bind (k (env.sent topic m)) f
  run-bind (reads_clock k) f = run-bind (k env.clock) f

module _ (env : Env) {S A B : Type 0} where
  -- How a method ends whose first part returns.
  pub run-seq :
      (m : Act S A) (f : A → Act S B) (s : S) (a : A) (t : S)
      → (run env (m s)).0 ≡ (ok a, t)
      → (run env ((m >>= f) s)).0 ≡ (run env (f a t)).0
  run-seq m f s a t e = run-bind env (m s) (go_on f) ∙ ap (λ r. (run env (go_on f r)).0) e

module _ (env : Env) {Req Pub : Value → Fields → Type 0} where
  -- What is always so is so in the environment.
  pub Always-run :
      {A : Type 0} {R : A → Type 0} (t : Tree A)
      → Always Req Pub R t
      → All (λ e. Pub e.0 e.1) (run env t).1 × R (run env t).0
  Always-run (ret a) (at_ret h) = (tt, h)
  Always-run (asks topic m k) (at_ask q h) =
      Always-run (k (env.answer topic m)) (h (env.answer topic m))
  Always-run (sends topic m k) (at_send p h) =
      let rest = Always-run (k (env.sent topic m)) (h (env.sent topic m)) in ((p, rest.0), rest.1)
  Always-run (reads_clock k) (at_clock h) = Always-run (k env.clock) (h env.clock)
