-- ===== src/Std/Action/Ensures.antt =====
-- A rule for each way to put actions together: what holds of the state before holds after, also
-- where the action fails, and what it returns satisfies a predicate.
use fixer.Common.{Bool, true, false, ◌≡◌, refl}
use fixer.Std.Result.{Result, ok, err}
use fixer.Std.Action.{
  Action, then_run, ◌>>=◌, ◌>>◌, pure, fail, require, from_result, map_error, with_error, attempt,
  succeed,
}

-- What a successful result satisfies.
abbrev pub Yields : {E A : Type 0} → Result E A → (A → Type 0) → Type 0
Yields (ok a) Q = Q a
Yields (err e) Q = Unit {0}

abbrev pub Any : {A : Type 0} → A → Type 0
Any a = Unit {0}

module _ {S : Type 0} (I : S → Type 0) where
  abbrev After : {E A : Type 0} → (A → Type 0) → Result E A × S → Type 0
  After Q (r, s) = I s × Yields r Q

  pub record Ensures {E A : Type 0} (m : Action S E A) (Q : A → Type 0) : Type 0 where
    pub run : (s : S) → I s → I (m s).1 × Yields (m s).0 Q

  After-then :
      {E A B : Type 0} (Q : A → Type 0) (R : B → Type 0) (f : A → Action S E B) (x : Result E A × S)
      → After Q x
      → ((a : A) → Q a → Ensures (f a) R)
      → After R (then_run f x)
  After-then Q R f (ok a, s) h k = (k a h.1).run s h.0
  After-then Q R f (err e, s) h k = (h.0, tt)

  pub then_ensures :
      {E A B : Type 0} {Q : A → Type 0} {R : B → Type 0} {m : Action S E A} {f : A → Action S E B}
      → Ensures m Q
      → ((a : A) → Q a → Ensures (f a) R)
      → Ensures (m >>= f) R
  unfolding ◌>>=◌
  then_ensures {Q} {R} {m} {f} h k = record { run = λ s i. After-then Q R f (m s) (h.run s i) k }

  pub seq_knowing :
      {E B : Type 0} {P : Type 0} {R : B → Type 0} {m : Action S E (Unit {0})} {k : Action S E B}
      → Ensures m (λ _. P)
      → (P → Ensures k R)
      → Ensures (m >> k) R
  unfolding ◌>>◌
  seq_knowing h j = then_ensures h (λ a p. j p)

  pub seq_ensures :
      {E B : Type 0} {R : B → Type 0} {m : Action S E (Unit {0})} {k : Action S E B}
      → Ensures m Any
      → Ensures k R
      → Ensures (m >> k) R
  unfolding ◌>>◌
  seq_ensures {R} {m} {k} h j = then_ensures h (λ a q. j)

  After-pure :
      (E : Type 0) {A : Type 0} (Q : A → Type 0) (a : A) (s : S)
      → Q a
      → I s
      → After Q (pure {E = E} a s)
  unfolding pure
  After-pure E Q a s q i = (i, q)

  pub pure_ensures : {E A : Type 0} {Q : A → Type 0} (a : A) → Q a → Ensures (pure {E = E} a) Q
  pure_ensures {E} {Q} a q = record { run = λ s. After-pure E Q a s q }

  After-fail : {E A : Type 0} (Q : A → Type 0) (e : E) (s : S) → I s → After Q (fail {A = A} e s)
  unfolding fail
  After-fail Q e s i = (i, tt)

  pub fail_ensures : {E A : Type 0} {Q : A → Type 0} (e : E) → Ensures (fail {A = A} e) Q
  fail_ensures {Q} e = record { run = After-fail Q e }

  After-require :
      {E : Type 0} (b : Bool) (e : E) (s : S) → I s → After (λ _. b ≡ true) (require b e s)
  unfolding require
  After-require true e s i = (i, refl)
  After-require false e s i = (i, tt)

  pub require_ensures : {E : Type 0} {b : Bool} (e : E) → Ensures (require b e) (λ _. b ≡ true)
  require_ensures {b} e = record { run = After-require b e }

  After-result :
      {E A : Type 0} (r : Result E A) (s : S) → I s → After (λ a. r ≡ ok a) (from_result r s)
  unfolding from_result
  After-result (ok a) s i = (i, refl)
  After-result (err e) s i = (i, tt)

  pub from_result_ensures :
      {E A : Type 0} {r : Result E A} → Ensures (from_result r) (λ a. r ≡ ok a)
  from_result_ensures {r} = record { run = After-result r }

  After-map :
      {E F A : Type 0} (Q : A → Type 0) (f : E → F) (x : Result E A × S)
      → After Q x
      → After Q (with_error f x)
  After-map Q f (ok a, s) h = h
  After-map Q f (err e, s) h = h

  After-map_error :
      {E F A : Type 0} (Q : A → Type 0) (f : E → F) (m : Action S E A) (s : S)
      → After Q (m s)
      → After Q (map_error f m s)
  unfolding map_error
  After-map_error Q f m s h = After-map Q f (m s) h

  pub map_error_ensures :
      {E F A : Type 0} {Q : A → Type 0} {m : Action S E A} (f : E → F)
      → Ensures m Q
      → Ensures (map_error f m) Q
  map_error_ensures {Q} {m} f h = record { run = λ s i. After-map_error Q f m s (h.run s i) }

  After-succeed :
      {E A : Type 0} (F : Type 0) (Q : A → Type 0) (x : Result E A × S)
      → After Q x
      → After {E = F} (λ r. Yields r Q) (succeed x)
  After-succeed F Q (ok a, s) h = h
  After-succeed F Q (err e, s) h = h

  pub attempt_ensures :
      {E F A : Type 0} {Q : A → Type 0} {m : Action S E A}
      → Ensures m Q
      → Ensures (attempt {F = F} m) (λ r. Yields r Q)
  unfolding attempt
  attempt_ensures {F} {Q} {m} h = record { run = λ s i. After-succeed F Q (m s) (h.run s i) }

  -- A weaker promise.
  weaker :
      {E A : Type 0} (r : Result E A) {Q R : A → Type 0}
      → Yields r Q
      → ((a : A) → Q a → R a)
      → Yields r R
  weaker (ok a) y h = h a y
  weaker (err e) y h = tt

  pub ensures_weaker :
      {E A : Type 0} {Q R : A → Type 0} {m : Action S E A}
      → Ensures m Q
      → ((a : A) → Q a → R a)
      → Ensures m R
  ensures_weaker {m} h k = record { run = λ s i. ((h.run s i).0, weaker (m s).0 (h.run s i).1 k) }
