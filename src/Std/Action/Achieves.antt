-- ===== src/Std/Action/Achieves.antt =====
-- Rules for what an action that succeeds has achieved, from the state in which it began.
use fixer.Common.{◌≡◌, refl, subst, arith}
use fixer.Std.Result.{Result, ok, err}
use fixer.Std.Action.{
  Action, then_run, ◌>>=◌, ◌>>◌, pure, fail, map_error, with_error, attempt, succeed,
}

module _ {S : Type 0} where
  -- What holds of a result, if it is one, and of the state.
  abbrev pub Settled : {E A : Type 0} → (A → S → Type 0) → Result E A → S → Type 0
  Settled Q (ok a) s = Q a s
  Settled Q (err e) s = Unit {0}

  abbrev pub Nothing : {A : Type 0} → A → S → Type 0
  Nothing a s = Unit {0}

  pub record Achieves {E A : Type 0} (m : Action S E A) (s : S) (Q : A → S → Type 0) : Type 0 where
    pub done : Settled Q (m s).0 (m s).1

  nothing : {E A : Type 0} (r : Result E A) (s : S) → Settled Nothing r s
  nothing (ok a) s = tt
  nothing (err e) s = tt

  pub achieves-Nothing : {E A : Type 0} (m : Action S E A) (s : S) → Achieves m s Nothing
  achieves-Nothing m s = record { done = nothing (m s).0 (m s).1 }

  Settled-then :
      {E A B : Type 0} (P : A → S → Type 0) (Q : B → S → Type 0) (f : A → Action S E B)
      (x : Result E A × S)
      → Settled P x.0 x.1
      → ((a : A) (t : S) → P a t → Achieves (f a) t Q)
      → Settled Q (then_run f x).0 (then_run f x).1
  Settled-then P Q f (ok a, t) h k = (k a t h).done
  Settled-then P Q f (err e, t) h k = tt

  pub then_achieves :
      {E A B : Type 0} {P : A → S → Type 0} {Q : B → S → Type 0} {m : Action S E A}
      {f : A → Action S E B} {s : S}
      → Achieves m s P
      → ((a : A) (t : S) → P a t → Achieves (f a) t Q)
      → Achieves (m >>= f) s Q
  unfolding ◌>>=◌
  then_achieves {P} {Q} {m} {f} {s} h k = record { done = Settled-then P Q f (m s) h.done k }

  pub seq_achieves :
      {E B : Type 0} {P : Unit {0} → S → Type 0} {Q : B → S → Type 0} {m : Action S E (Unit {0})}
      {k : Action S E B} {s : S}
      → Achieves m s P
      → ((t : S) → P tt t → Achieves k t Q)
      → Achieves (m >> k) s Q
  unfolding ◌>>◌
  seq_achieves h k = then_achieves h (λ a t p. k t p)

  pub pure_achieves :
      {E A : Type 0} {Q : A → S → Type 0} (a : A) {s : S} → Q a s → Achieves (pure {E = E} a) s Q
  unfolding pure
  pure_achieves a q = record { done = q }

  pub fail_achieves :
      {E A : Type 0} {Q : A → S → Type 0} (e : E) {s : S} → Achieves (fail {A = A} e) s Q
  unfolding fail
  fail_achieves e = record { done = tt }

  Settled-map :
      {E F A : Type 0} (Q : A → S → Type 0) (f : E → F) (x : Result E A × S)
      → Settled Q x.0 x.1
      → Settled Q (with_error f x).0 (with_error f x).1
  Settled-map Q f (ok a, t) h = h
  Settled-map Q f (err e, t) h = tt

  pub map_error_achieves :
      {E F A : Type 0} {Q : A → S → Type 0} (f : E → F) {m : Action S E A} {s : S}
      → Achieves m s Q
      → Achieves (map_error f m) s Q
  unfolding map_error
  map_error_achieves {Q} f {m} {s} h = record { done = Settled-map Q f (m s) h.done }

  Settled-succeed :
      {E A : Type 0} (F : Type 0) (Q : A → S → Type 0) (x : Result E A × S)
      → Settled Q x.0 x.1
      → Settled (Settled Q) (succeed {F = F} x).0 (succeed {F = F} x).1
  Settled-succeed F Q (r, t) h = h

  pub attempt_achieves :
      {E A F : Type 0} {Q : A → S → Type 0} {m : Action S E A} {s : S}
      → Achieves m s Q
      → Achieves (attempt {F = F} m) s (Settled Q)
  unfolding attempt
  attempt_achieves {F} {Q} {m} {s} h = record { done = Settled-succeed F Q (m s) h.done }

  Settled-of :
      {E A : Type 0} {Q : A → S → Type 0} (x : Result E A × S)
      → ((a : A) (t : S) → x ≡ (ok a, t) → Q a t)
      → Settled Q x.0 x.1
  Settled-of (ok a, t) h = h a t refl
  Settled-of (err e, t) h = tt

  pub achieves_of :
      {E A : Type 0} {Q : A → S → Type 0} (m : Action S E A) (s : S)
      → ((a : A) (t : S) → m s ≡ (ok a, t) → Q a t)
      → Achieves m s Q
  achieves_of m s h = record { done = Settled-of (m s) h }

  of_Settled :
      {E A : Type 0} (Q : A → S → Type 0) (x : Result E A × S) {a : A} {t : S}
      → Settled Q x.0 x.1
      → x ≡ (ok a, t)
      → Q a t
  of_Settled {A} Q (ok b, u) h e = subst (λ (y : A × S). Q y.0 y.1) (ground arith) h
  of_Settled Q (err x, u) h e = absurd (ground arith)

  pub achieved :
      {E A : Type 0} (Q : A → S → Type 0) (m : Action S E A) {s : S} {a : A} {t : S}
      → Achieves m s Q
      → m s ≡ (ok a, t)
      → Q a t
  achieved Q m {s} h e = of_Settled Q (m s) h.done e
