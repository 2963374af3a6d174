-- ===== src/Std/Result.antt =====
-- Rust's `Result<A, E>` with the `?` operator as bind.
use mathlib.Core.Path.{◌≡◌, refl, ap, ◌∙◌}
use mathlib.Core.Bool.{Bool, true, false}

pub data Result {ℓ κ} (E : Type ℓ) (A : Type κ) : Type (ℓ ⊔ κ) where
  ok : A → Result E A
  err : E → Result E A

infixl 5 ◌>>=◌ ◌>>◌
abbrev pub ◌>>=◌ {ℓ κ μ} :
    {E : Type ℓ} {A : Type κ} {B : Type μ} → Result E A → (A → Result E B) → Result E B
ok a >>= f = f a
err e >>= f = err e

abbrev pub ◌>>◌ {ℓ κ} : {E : Type ℓ} {B : Type κ} → Result E (Unit {0}) → Result E B → Result E B
m >> k = m >>= λ _. k

-- A chain succeeds only if its first part does; the value of that part comes first.
pub >>=-eq-ok {κ μ ν} :
    {B : Type μ} {A : Type κ} {E : Type ν} (m : Result E A) (f : A → Result E B) {b : B}
    → m >>= f ≡ ok b
    → (a : A) × (m ≡ ok a) × (f a ≡ ok b)
>>=-eq-ok (err e) f h = absurd (cc h)
>>=-eq-ok (ok a) f h = (a, refl, h)

-- Two chains that go on alike from what the first part gives are alike.
pub >>=-cong {κ μ ν} :
    {B : Type μ} {A : Type κ} {E : Type ν} (m : Result E A) {f g : A → Result E B}
    → ((a : A) → m ≡ ok a → f a ≡ g a)
    → (m >>= f) ≡ (m >>= g)
>>=-cong (err e) h = refl
>>=-cong (ok a) h = h a refl

-- A chain succeeds when both of its parts do.
pub >>=-ok {κ μ ν} :
    {B : Type μ} {A : Type κ} {E : Type ν} (m : Result E A) (f : A → Result E B) {a : A} {b : B}
    → m ≡ ok a
    → f a ≡ ok b
    → m >>= f ≡ ok b
>>=-ok (err e) f h k = absurd (cc h)
>>=-ok (ok a) f h k = ap f (cc h) ∙ k

pub ok-injective {κ ν} :
    {A : Type κ} {E : Type ν} {a b : A} → ◌≡◌ {A = Result E A} (ok a) (ok b) → a ≡ b
ok-injective h = cc h

-- `if !condition { return Err(e) }`
abbrev pub ensure {ℓ} : {E : Type ℓ} → Bool → E → Result E (Unit {0})
ensure true e = ok tt
ensure false e = err e

-- Result::map_err
abbrev pub map_err {ℓ κ μ} :
    {E : Type ℓ} {F : Type κ} {A : Type μ} → (E → F) → Result E A → Result F A
map_err f (ok a) = ok a
map_err f (err e) = err (f e)

-- Result::is_err
abbrev pub is_err {ℓ κ} : {E : Type ℓ} {A : Type κ} → Result E A → Bool
is_err (ok a) = false
is_err (err e) = true
