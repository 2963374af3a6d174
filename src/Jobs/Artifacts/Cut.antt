-- ===== src/Jobs/Artifacts/Cut.antt =====
-- Lists that are cut and numbered, for the views of crates/fixer-server/src/jobs/artifacts.rs.
use fixer.Common.{
  ℕ, zero, suc, ◌+◌, ◌<◌, ◌≤◌, ◌≡◌, refl, ap, List, [], ◌∷◌, map, take, length, ltb, arith, All,
  if◌then◌else◌,
}
use fixer.Std.Result.{Result, ok}
use fixer.Jobs.Artifacts.{JobFlowError, collect_from, number_from}

-- How many of a list are left where it is cut.
abbrev pub cut : {A : Type 0} → ℕ → List A → ℕ
cut most xs = if ltb most (length xs) then most else length xs

module _ {A : Type 0} where
  pub length-take : (n : ℕ) (xs : List A) → length (take n xs) ≡ cut n xs
  length-take zero [] = refl
  length-take zero (x ∷ xs) = ground arith
  length-take (suc n) [] = ground arith
  length-take (suc n) (x ∷ xs) = ground (arith, length-take n xs)

  pub take_short : (n : ℕ) (xs : List A) → length (take n xs) ≤ n
  take_short n xs = ground (arith, length-take n xs)

  pub All-take : (P : A → Type 0) (n : ℕ) (xs : List A) → All P xs → All P (take n xs)
  All-take P zero xs h = tt
  All-take P (suc n) [] h = tt
  All-take P (suc n) (x ∷ xs) (h, k) = (h, All-take P n xs k)

  pub everything : (xs : List A) → All (λ _. Unit {0}) xs
  everything [] = tt
  everything (x ∷ xs) = (tt, everything xs)

  -- Each element has the property at its place, counted from an index on.
  abbrev pub AllFrom : (ℕ → A → Type 0) → ℕ → List A → Type 0
  AllFrom P index [] = Unit
  AllFrom P index (x ∷ xs) = P index x × AllFrom P (suc index) xs

module _ {A B : Type 0} where
  pub All-map : (P : B → Type 0) (f : A → B) (xs : List A) → ((x : A) → P (f x)) → All P (map f xs)
  All-map P f [] h = tt
  All-map P f (x ∷ xs) h = (h x, All-map P f xs h)

  pub length-map : (f : A → B) (xs : List A) → length (map f xs) ≡ length xs
  length-map f [] = refl
  length-map f (x ∷ xs) = ap suc (length-map f xs)

  pub number_from-AllFrom :
      (P : ℕ → B → Type 0) (f : ℕ → A → B) (limit index : ℕ) (xs : List A)
      → index + length xs ≤ limit
      → ((i : ℕ) (x : A) → i < limit → P i (f i x))
      → AllFrom P index (number_from f index xs)
  number_from-AllFrom P f limit index [] few h = tt
  number_from-AllFrom P f limit index (x ∷ xs) few h =
      (h index x (omega arith), number_from-AllFrom P f limit (suc index) xs (omega arith) h)

  pub length-number_from :
      (f : ℕ → A → B) (index : ℕ) (xs : List A) → length (number_from f index xs) ≡ length xs
  length-number_from f index [] = refl
  length-number_from f index (x ∷ xs) = ap suc (length-number_from f (suc index) xs)

  pub collect_from-AllFrom :
      (P : ℕ → B → Type 0) (Q : A → Type 0) (f : ℕ → A → Result JobFlowError B) (limit index : ℕ)
      (xs : List A)
      → index + length xs ≤ limit
      → All Q xs
      → ((i : ℕ) (x : A) → i < limit → Q x → (y : B) × (f i x ≡ ok y) × P i y)
      → (ys : List B) × (collect_from f index xs ≡ ok ys)
        × (length ys ≡ length xs)
        × AllFrom P index ys
  collect_from-AllFrom P Q f limit index [] few each h = ([], refl, refl, tt)
  collect_from-AllFrom P Q f limit index (x ∷ xs) few (q, each) h =
      let (y, made, p) = h index x (omega arith) q in
      let (ys, rest, long, ps) =
        collect_from-AllFrom P Q f limit (suc index) xs (omega arith) each h in
      (y ∷ ys, rw (made, rest) refl, ap suc long, (p, ps))
