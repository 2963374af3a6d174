-- ===== src/Std/Sort/Reordered.antt =====
-- Sorting by a key, where the elements come in another order.
use fixer.Common.{
  ℕ, ◌≡◌, ◌≢◌, refl, sym, ap, ◌∙◌, subst, List, [], ◌∷◌, arith, All, nat_beq, nat_beq_iff,
  Bool-cases, inl, inr, is_empty,
}
use mathlib.Core.List.{Permᴰ}
use fixer.Std.Sort.{insert, sort_by, by_key, sort_by_key}

module _ {ℓ} {A : Type ℓ} (key : A → ℕ) where
  -- Elements with one key are the same.
  abbrev pub IsDecided : List A → Type ℓ
  IsDecided [] = Unit
  IsDecided (x ∷ xs) = All (λ y. key x ≡ key y → x ≡ y) xs × IsDecided xs

  insert-insert :
      (x y : A) (zs : List A)
      → key x ≢ key y
      → insert (by_key key) x (insert (by_key key) y zs)
        ≡ insert (by_key key) y (insert (by_key key) x zs)
  unfolding insert
  insert-insert x y [] n = ground arith
  insert-insert x y (z ∷ zs) n = ground (arith, insert-insert x y zs n)

  insert_decided :
      (x y : A) (zs : List A)
      → (key x ≡ key y → x ≡ y)
      → insert (by_key key) x (insert (by_key key) y zs)
        ≡ insert (by_key key) y (insert (by_key key) x zs)
  insert_decided x y zs h = elim (Bool-cases (nat_beq (key x) (key y))) [
    | inl equal ↦ let e = h ((nat_beq_iff (key x) (key y)).0 equal) in rw e refl
    | inr other ↦ insert-insert x y zs (λ e. cc ((nat_beq_iff (key x) (key y)).1 e, other))
  ]

  All-reordered {κ} : (P : A → Type κ) {xs ys : List A} → Permᴰ xs ys → All P xs → All P ys
  All-reordered P Permᴰ.nil h = h
  All-reordered P (Permᴰ.cons e r) (h, k) = (subst P e h, All-reordered P r k)
  All-reordered P (Permᴰ.swap e d) (h, (k, l)) = (subst P d k, (subst P e h, l))
  All-reordered P (Permᴰ.trans r r') h = All-reordered P r' (All-reordered P r h)

  reordered-IsDecided : {xs ys : List A} → Permᴰ xs ys → IsDecided xs → IsDecided ys
  reordered-IsDecided Permᴰ.nil h = h
  reordered-IsDecided (Permᴰ.cons {b = b} {l₁ = xs} {l₂ = ys} e r) h =
      let (k, l) = subst (λ z. IsDecided (z ∷ xs)) e h in
      (All-reordered (λ y. key b ≡ key y → b ≡ y) r k, reordered-IsDecided r l)
  reordered-IsDecided (Permᴰ.swap {a = a} {a' = a'} {l = zs} e d) h =
      let ((k, l), (m, n)) =
        subst (λ z. IsDecided (z ∷ a' ∷ zs)) e (subst (λ z. IsDecided (a ∷ z ∷ zs)) d h) in
      ((λ p. sym (k (sym p)), m), (l, n))
  reordered-IsDecided (Permᴰ.trans r r') h = reordered-IsDecided r' (reordered-IsDecided r h)

  -- The order in which elements come is of no consequence where elements with one key are the same.
  pub sort_by_key-reordered :
      {xs ys : List A} → Permᴰ xs ys → IsDecided xs → sort_by_key key xs ≡ sort_by_key key ys
  unfolding sort_by
  sort_by_key-reordered Permᴰ.nil h = refl
  sort_by_key-reordered (Permᴰ.cons {a = a} {l₂ = ys} e r) (h, k) =
      ap (insert (by_key key) a) (sort_by_key-reordered r k)
      ∙ ap (λ z. insert (by_key key) z (sort_by_key key ys)) e
  sort_by_key-reordered (Permᴰ.swap {a = a} {b = b} {a' = a'} {l = zs} e d) ((h, k), l) =
      insert_decided a b (sort_by_key key zs) h
      ∙ ap (λ z. insert (by_key key) z (insert (by_key key) a (sort_by_key key zs))) d
      ∙ ap (λ z. insert (by_key key) a' (insert (by_key key) z (sort_by_key key zs))) e
  sort_by_key-reordered (Permᴰ.trans r r') h =
      sort_by_key-reordered r h ∙ sort_by_key-reordered r' (reordered-IsDecided r h)

pub reordered-is_empty {ℓ} : {A : Type ℓ} {xs ys : List A} → Permᴰ xs ys → is_empty xs ≡ is_empty ys
reordered-is_empty Permᴰ.nil = refl
reordered-is_empty (Permᴰ.cons e r) = refl
reordered-is_empty (Permᴰ.swap e d) = refl
reordered-is_empty (Permᴰ.trans r r') = reordered-is_empty r ∙ reordered-is_empty r'
