-- ===== src/Std/Action/Fails.antt =====
-- Rules for the errors that an action may end with, from any state.
use fixer.Common.{Bool, true, false}
use fixer.Std.Result.{Result, ok, err}
use fixer.Std.Action.{
  Action, then_run, ◌>>=◌, ◌>>◌, pure, fail, require, from_result, attempt, succeed,
}

module _ {E : Type 0} (P : E → Type 0) where
  abbrev pub ErrorIs : {A : Type 0} → Result E A → Type 0
  ErrorIs (ok a) = Unit {0}
  ErrorIs (err e) = P e

  module _ {S : Type 0} where
    pub record Fails {A : Type 0} (m : Action S E A) : Type 0 where
      pub error : (s : S) → ErrorIs (m s).0

    run_error :
        {A B : Type 0} (f : A → Action S E B) (x : Result E A × S)
        → ErrorIs x.0
        → ((a : A) → Fails (f a))
        → ErrorIs (then_run f x).0
    run_error f (ok a, s) h k = (k a).error s
    run_error f (err e, s) h k = h

    pub then-Fails :
        {A B : Type 0} {m : Action S E A} {f : A → Action S E B}
        → Fails m
        → ((a : A) → Fails (f a))
        → Fails (m >>= f)
    unfolding ◌>>=◌
    then-Fails {m} {f} h k = record { error = λ s. run_error f (m s) (h.error s) k }

    pub seq-Fails :
        {B : Type 0} {m : Action S E (Unit {0})} {k : Action S E B}
        → Fails m
        → Fails k
        → Fails (m >> k)
    unfolding ◌>>◌
    seq-Fails h k = then-Fails h (λ _. k)

    pub pure-Fails : {A : Type 0} (a : A) → Fails (pure a)
    unfolding pure
    pure-Fails a = record { error = λ s. tt }

    pub fail-Fails : {A : Type 0} (e : E) → P e → Fails (fail {A = A} e)
    unfolding fail
    fail-Fails e h = record { error = λ s. h }

    pub require-Fails : (b : Bool) (e : E) → P e → Fails (require b e)
    unfolding require
    require-Fails true e h = pure-Fails tt
    require-Fails false e h = fail-Fails e h

    pub from_result-Fails : {A : Type 0} (r : Result E A) → ErrorIs r → Fails (from_result r)
    unfolding from_result
    from_result-Fails (ok a) h = record { error = λ s. tt }
    from_result-Fails (err e) h = record { error = λ s. h }

    -- What an attempt gives has such an error, if it has one.
    attempted :
        {A B : Type 0} (f : Result E A → Action S E B) (x : Result E A × S)
        → ErrorIs x.0
        → ((r : Result E A) → ErrorIs r → Fails (f r))
        → ErrorIs (then_run f (succeed x)).0
    attempted f (r, s) h k = (k r h).error s

    pub attempt-Fails :
        {A B : Type 0} {m : Action S E A} {f : Result E A → Action S E B}
        → Fails m
        → ((r : Result E A) → ErrorIs r → Fails (f r))
        → Fails (attempt m >>= f)
    unfolding ◌>>=◌ attempt
    attempt-Fails {m} {f} h k = record { error = λ s. attempted f (m s) (h.error s) k }
