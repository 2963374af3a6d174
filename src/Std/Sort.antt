-- ===== src/Std/Sort.antt =====
-- slice::sort_by and slice::sort_by_key: a stable sort. `gt x y` says that the comparison of `x`
-- with `y` is `Greater`.
pub mod Reordered
use mathlib.Core.List.{Perm}
use mathlib.Core.List.Perm
use fixer.Common.{
  ℕ, ◌≡◌, refl, Bool, true, false, List, [], ◌∷◌, arith, ltb, filter, All, All-imp, Bool-cases, inl,
  inr, if◌then◌else◌, length, suc, ap, ◌∙◌, ◌++◌, first, All-append, none, some, Option-cases, sym,
  subst,
}

module _ {ℓ} {A : Type ℓ} (gt : A → A → Bool) where
  unfoldable pub insert : A → List A → List A
  insert x [] = x ∷ []
  insert x (y ∷ ys) = if gt x y then y ∷ insert x ys else x ∷ y ∷ ys

  unfoldable pub sort_by : List A → List A
  unfolding insert
  sort_by [] = []
  sort_by (x ∷ xs) = insert x (sort_by xs)

  -- Each element stands before no element that is less.
  abbrev pub IsSorted : List A → Type 0
  IsSorted [] = Unit
  IsSorted (x ∷ xs) = All (λ y. gt x y ≡ false) xs × IsSorted xs

  -- Where an element stands in a list as the first of its greatest ones.
  abbrev pub IsFirstBest : A → List A → Type ℓ
  IsFirstBest best xs =
      (before : List A) × (after : List A) × (xs ≡ before ++ best ∷ after)
      × All (λ x. gt x best ≡ true) before
      × All (λ x. gt best x ≡ false) after

  insert-perm : (x : A) (xs : List A) → Perm (insert x xs) (x ∷ xs)
  unfolding insert
  insert-perm x [] = Perm.refl (x ∷ [])
  insert-perm x (y ∷ ys) = elim (Bool-cases (gt x y)) [
    | inl g ↦ rw g (Perm.trans (Perm.cons y (insert-perm x ys)) (Perm.swap x y ys))
    | inr n ↦ rw n (Perm.refl (x ∷ y ∷ ys))
  ]

  -- Sorting loses and invents no element.
  pub sort_by-perm : (xs : List A) → Perm (sort_by xs) xs
  unfolding sort_by
  sort_by-perm [] = Perm.refl []
  sort_by-perm (x ∷ xs) = Perm.trans (insert-perm x (sort_by xs)) (Perm.cons x (sort_by-perm xs))

  filter-insert :
      (p : A → Bool) (x : A) (xs : List A)
      → ((y z : A) → p y ≡ true → p z ≡ true → gt y z ≡ false)
      → filter p (insert x xs) ≡ filter p (x ∷ xs)
  unfolding insert
  filter-insert p x [] h = refl
  filter-insert p x (y ∷ ys) h = ground (arith, filter-insert p x ys h, h x y)

  -- Stability: elements that compare equal to one another keep their order.
  pub filter-sort_by :
      (p : A → Bool) (xs : List A)
      → ((y z : A) → p y ≡ true → p z ≡ true → gt y z ≡ false)
      → filter p (sort_by xs) ≡ filter p xs
  unfolding sort_by
  filter-sort_by p [] h = refl
  filter-sort_by p (x ∷ xs) h =
      rw (filter-insert p x (sort_by xs) h) (ground (arith, filter-sort_by p xs h))

  pub length-insert : (x : A) (xs : List A) → length (insert x xs) ≡ suc (length xs)
  unfolding insert
  length-insert x [] = refl
  length-insert x (y ∷ ys) = ground (arith, length-insert x ys)

  pub length-sort_by : (xs : List A) → length (sort_by xs) ≡ length xs
  unfolding sort_by
  length-sort_by [] = refl
  length-sort_by (x ∷ xs) = length-insert x (sort_by xs) ∙ ap suc (length-sort_by xs)

  All-insert {κ} : (P : A → Type κ) (x : A) (xs : List A) → P x → All P xs → All P (insert x xs)
  unfolding insert
  All-insert P x [] px h = (px, tt)
  All-insert P x (y ∷ ys) px h = elim (Bool-cases (gt x y)) [
    | inl g ↦ rw g (h.0, All-insert P x ys px h.1)
    | inr n ↦ rw n (px, (h.0, h.1))
  ]

  pub All-sort_by {κ} : (P : A → Type κ) (xs : List A) → All P xs → All P (sort_by xs)
  unfolding sort_by
  All-sort_by P [] h = tt
  All-sort_by P (x ∷ xs) (p, h) = All-insert P x (sort_by xs) p (All-sort_by P xs h)

-- The comparison is a total preorder.
pub record IsOrder {ℓ} {A : Type ℓ} (gt : A → A → Bool) : Type ℓ where
  pub asym : (x y : A) → gt x y ≡ true → gt y x ≡ false
  pub trans : (x y z : A) → gt x y ≡ false → gt y z ≡ false → gt x z ≡ false

module _ {ℓ} {A : Type ℓ} (gt : A → A → Bool) (o : IsOrder gt) where
  insert-IsSorted : (x : A) (xs : List A) → IsSorted gt xs → IsSorted gt (insert gt x xs)
  unfolding insert
  insert-IsSorted x [] s = (tt, tt)
  insert-IsSorted x (y ∷ ys) s = elim (Bool-cases (gt x y)) [
    | inl g ↦
        rw g (All-insert gt (λ z. gt y z ≡ false) x ys (o.asym x y g) s.0, insert-IsSorted x ys s.1)
    | inr n ↦ rw n (
      (n, All-imp (λ z. gt y z ≡ false) (λ z. gt x z ≡ false) ys (λ z h. o.trans x y z n h) s.0),
      (s.0, s.1),
    )
  ]

  pub sort_by-IsSorted : (xs : List A) → IsSorted gt (sort_by gt xs)
  unfolding sort_by
  sort_by-IsSorted [] = tt
  sort_by-IsSorted (x ∷ xs) = insert-IsSorted x (sort_by gt xs) (sort_by-IsSorted xs)

module _ {ℓ} {A : Type ℓ} (gt : A → A → Bool) (o : IsOrder gt) where
  first-insert :
      (x : A) (ys : List A)
      → first (insert gt x ys)
        ≡ some (elim (first ys) [ none ↦ x | some y ↦ if gt x y then y else x ])
  unfolding insert
  first-insert x [] = refl
  first-insert x (y ∷ ys) = ground arith

  beats :
      (x best : A) (xs : List A)
      → gt x best ≡ false
      → IsFirstBest gt best xs
      → All (λ z. gt x z ≡ false) xs
  beats x best xs n (before, after, e, above, below) = subst (All (λ z. gt x z ≡ false)) (sym e) (
      All-append (λ z. gt x z ≡ false) before (best ∷ after)
        (All-imp (λ z. gt z best ≡ true) (λ z. gt x z ≡ false) before
          (λ z g. o.trans x best z n (o.asym z best g)) above)
        (
          n,
          All-imp (λ z. gt best z ≡ false) (λ z. gt x z ≡ false) after (λ z h. o.trans x best z n h)
              below,
        ))

  sort_by-empty : (xs : List A) → first (sort_by gt xs) ≡ none → xs ≡ []
  unfolding sort_by
  sort_by-empty [] h = refl
  sort_by-empty (x ∷ xs) h = absurd (cc (h, first-insert x (sort_by gt xs)))

  -- The first element of the sorted list is the first of the greatest ones of the list.
  pub sort_by-first :
      (xs : List A) {best : A} → first (sort_by gt xs) ≡ some best → IsFirstBest gt best xs
  unfolding sort_by
  sort_by-first [] h = absurd (cc h)
  sort_by-first (x ∷ xs) {best} h = elim (Option-cases (first (sort_by gt xs))) [
    | inl empty ↦
        let no_rest = sort_by-empty xs empty in
        let same : best ≡ x = cc (h, empty, first-insert x (sort_by gt xs)) in
        ([], xs, cc same, tt, subst (All (λ z. gt best z ≡ false)) (sym no_rest) tt)
    | inr found ↦
        let (y, at) = found in
        let best_of : best ≡ (if gt x y then y else x) =
          cc (h, at, first-insert x (sort_by gt xs)) in
        let rest = sort_by-first xs at in
        elim (Bool-cases (gt x y)) [
          | inl g ↦
              let (before, after, split, above, below) = rest in
              let same : y ≡ best = cc (best_of, g) in
              (
                x ∷ before,
                after,
                cc (split, same),
                subst (λ z. All (λ w. gt w z ≡ true) (x ∷ before)) same (g, above),
                subst (λ z. All (λ w. gt z w ≡ false) after) same below,
              )
          | inr n ↦ (
            [],
            xs,
            cc (best_of, n),
            tt,
            subst (λ z. All (λ w. gt z w ≡ false) xs) (sym (cc (best_of, n))) (beats x y xs n rest),
          )
        ]
  ]

-- sort_by_key: compare the keys.
abbrev pub by_key {ℓ} : {A : Type ℓ} → (A → ℕ) → A → A → Bool
by_key key x y = ltb (key y) (key x)

pub by_key-IsOrder {ℓ} : {A : Type ℓ} (key : A → ℕ) → IsOrder (by_key key)
by_key-IsOrder key = record { asym = λ x y h. ground arith; trans = λ x y z h k. ground arith }

abbrev pub sort_by_key {ℓ} : {A : Type ℓ} → (A → ℕ) → List A → List A
sort_by_key key = sort_by (by_key key)
