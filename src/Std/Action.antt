-- ===== src/Std/Action.antt =====
-- A fallible action on a state: what it has changed stays changed where it fails.
pub mod Ensures
pub mod Achieves
pub mod Finishes
pub mod Fails
use fixer.Common.{Bool, true, false, List}
use fixer.Std.Result.{Result, ok, err}

abbrev pub Action : Type 0 → Type 0 → Type 0 → Type 0
Action S E A = S → Result E A × S

module _ {S : Type 0} {E : Type 0} where
  infixl 5 ◌>>=◌ ◌>>◌
  abbrev pub then_run : {A B : Type 0} → (A → Action S E B) → Result E A × S → Result E B × S
  then_run f (ok a, s) = f a s
  then_run f (err e, s) = (err e, s)

  unfoldable pub ◌>>=◌ : {A B : Type 0} → Action S E A → (A → Action S E B) → Action S E B
  m >>= f = λ s. then_run f (m s)

  unfoldable pub ◌>>◌ : {B : Type 0} → Action S E (Unit {0}) → Action S E B → Action S E B
  unfolding ◌>>=◌
  m >> k = m >>= λ _. k

  unfoldable pub pure : {A : Type 0} → A → Action S E A
  pure a s = (ok a, s)

  unfoldable pub fail : {A : Type 0} → E → Action S E A
  fail e s = (err e, s)

  unfoldable pub require : Bool → E → Action S E (Unit {0})
  unfolding pure fail
  require true e = pure tt
  require false e = fail e

  -- `?` on a result.
  unfoldable pub from_result : {A : Type 0} → Result E A → Action S E A
  from_result (ok a) s = (ok a, s)
  from_result (err e) s = (err e, s)

module _ {S : Type 0} {E F A : Type 0} where
  abbrev pub with_error : (E → F) → Result E A × S → Result F A × S
  with_error f (ok a, s) = (ok a, s)
  with_error f (err e, s) = (err (f e), s)

  -- Result::map_err of what an action returns.
  unfoldable pub map_error : (E → F) → Action S E A → Action S F A
  map_error f m = λ s. with_error f (m s)

  abbrev pub succeed : Result E A × S → Result F (Result E A) × S
  succeed (r, s) = (ok r, s)

  -- The result as a value, to look at or to throw away.
  unfoldable pub attempt : Action S E A → Action S F (Result E A)
  attempt m = λ s. succeed (m s)
