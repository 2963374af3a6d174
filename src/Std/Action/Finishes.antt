-- ===== src/Std/Action/Finishes.antt =====
-- Rules for where an action ends, from the states that a predicate holds of: it may be kept for a
-- while and lost at a last step.
use fixer.Std.Result.{Result, ok, err}
use fixer.Std.Action.{Action, then_run, ◌>>=◌, ◌>>◌}
use fixer.Std.Action.Ensures.{Ensures, Yields}

module _ {S E : Type 0} (P Q : S → Type 0) where
  pub record Finishes {A : Type 0} (m : Action S E A) : Type 0 where
    pub finish : (s : S) → P s → Q (m s).1

  run_finishes :
      {A B : Type 0} {R : A → Type 0} (f : A → Action S E B) (x : Result E A × S)
      → P x.1 × Yields x.0 R
      → ((s : S) → P s → Q s)
      → ((a : A) → R a → Finishes (f a))
      → Q (then_run f x).1
  run_finishes f (ok a, s) h weaker go_on = (go_on a h.1).finish s h.0
  run_finishes f (err e, s) h weaker go_on = weaker s h.0

  pub then-Finishes :
      {A B : Type 0} {R : A → Type 0} {m : Action S E A} {f : A → Action S E B}
      → Ensures P m R
      → ((s : S) → P s → Q s)
      → ((a : A) → R a → Finishes (f a))
      → Finishes (m >>= f)
  unfolding ◌>>=◌
  then-Finishes {m} {f} h weaker go_on = record {
    finish = λ s k. run_finishes f (m s) (h.run s k) weaker go_on;
  }

  pub seq-Finishes :
      {B : Type 0} {K : Type 0} {m : Action S E (Unit {0})} {k : Action S E B}
      → Ensures P m (λ _. K)
      → ((s : S) → P s → Q s)
      → (K → Finishes k)
      → Finishes (m >> k)
  unfolding ◌>>◌
  seq-Finishes h weaker go_on = then-Finishes h weaker (λ a k. go_on k)
