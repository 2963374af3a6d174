-- ===== src/Core/Media/CheckDigit.antt =====
-- What the check digit of crates/fixer-core/src/media/book.rs detects.
use fixer.Common.{
  ℕ, suc, ◌+◌, ◌-◌, ◌*◌, ◌%◌, ◌≤◌, ◌<◌, ◌≡◌, ap, true, nat_eq, some, List, [], ◌∷◌, ◌++◌, length,
  arith, Option-cases, inl, inr, ◌⊎◌, sym, subst,
}
use fixer.Std.Text.{Text, is_ascii_digit}
use fixer.Std.Result.{ok}
use fixer.Core.Media.Isbn.{compact, to_digits, weight13, sum13, new_isbn13}

-- The sum as one of numbers, where every character is a digit.
abbrev text_sum : ℕ → Text → ℕ
text_sum i [] = 0
text_sum i (ch ∷ s) = (ch - 48) * weight13 i + text_sum (i + 1) s

to_digits_sum :
    (s : Text) (i : ℕ) {digits : List ℕ} → to_digits s ≡ some digits → sum13 i digits ≡ text_sum i s
unfolding to_digits sum13
to_digits_sum [] i h = ground arith
to_digits_sum (ch ∷ s) i h = elim (Option-cases (to_digits s)) [
  | inl absent ↦ ground (arith, absent, h)
  | inr present ↦ ground (arith, present.1, h, to_digits_sum s (i + 1) present.1)
]

is_digit_at :
    (s t : Text) (a : ℕ) {digits : List ℕ}
    → to_digits (s ++ a ∷ t) ≡ some digits
    → is_ascii_digit a ≡ true
unfolding to_digits
is_digit_at [] t a h = ground (arith, h)
is_digit_at (c ∷ s) t a h = elim (Option-cases (to_digits (s ++ a ∷ t))) [
  | inl absent ↦ absurd (ground (arith, absent, h))
  | inr present ↦ is_digit_at s t a present.1
]

weight_next : (i n : ℕ) → weight13 (i + suc n) ≡ weight13 ((i + 1) + n)
weight_next i n = ap weight13 (omega arith)

weight_here : (i : ℕ) → weight13 (i + 0) ≡ weight13 i
weight_here i = ap weight13 (omega arith)

three : (x y z : ℕ) → (x + y) + z ≡ (z + y) + x
three x y z = omega arith

swap_sum : (x y z w : ℕ) → x + z ≡ y + w → (c : ℕ) → (c + x) + z ≡ (c + y) + w
swap_sum x y z w h c = omega (arith, h)

-- Two sums that differ at one place agree up to the weight of that place.
sum_at :
    (s t : Text) (a b i : ℕ)
    → text_sum i (s ++ a ∷ t) + (b - 48) * weight13 (i + length s)
      ≡ text_sum i (s ++ b ∷ t) + (a - 48) * weight13 (i + length s)
sum_at [] t a b i =
    let e = weight_here i in
    subst
      (λ w.
        ((a - 48) * weight13 i + text_sum (i + 1) t) + (b - 48) * w
        ≡ ((b - 48) * weight13 i + text_sum (i + 1) t) + (a - 48) * w)
      (sym e) (three ((a - 48) * weight13 i) (text_sum (i + 1) t) ((b - 48) * weight13 i))
sum_at (c ∷ s) t a b i =
    let e = weight_next i (length s) in
    subst
      (λ w.
        ((c - 48) * weight13 i + text_sum (i + 1) (s ++ a ∷ t)) + (b - 48) * w
        ≡ ((c - 48) * weight13 i + text_sum (i + 1) (s ++ b ∷ t)) + (a - 48) * w)
      (sym e)
      (swap_sum (text_sum (i + 1) (s ++ a ∷ t)) (text_sum (i + 1) (s ++ b ∷ t))
        ((b - 48) * weight13 ((i + 1) + length s)) ((a - 48) * weight13 ((i + 1) + length s))
        (sum_at s t a b (i + 1)) ((c - 48) * weight13 i))

weight_is : (i : ℕ) → (weight13 i ≡ 1) ⊎ (weight13 i ≡ 3)
weight_is i = ground arith

-- The weights 1 and 3 have no factor in common with 10.
same_digit :
    (x y a b w : ℕ)
    → (w ≡ 1) ⊎ (w ≡ 3)
    → x + b * w ≡ y + a * w
    → x % 10 ≡ 0
    → y % 10 ≡ 0
    → a < 10
    → b < 10
    → a ≡ b
same_digit x y a b w (inl e) h hx hy la lb = omega (arith, subst (λ w. x + b * w ≡ y + a * w) e h)
same_digit x y a b w (inr e) h hx hy la lb = omega (arith, subst (λ w. x + b * w ≡ y + a * w) e h)

digit_lt : (a : ℕ) → is_ascii_digit a ≡ true → (48 ≤ a) × (a - 48 < 10)
digit_lt a h = ground arith

isbn13_inv :
    (value compacted : Text)
    → compact value ≡ compacted
    → new_isbn13 value ≡ ok (record { as_str = compacted })
    → (digits : List ℕ) × (to_digits compacted ≡ some digits) × (text_sum 0 compacted % 10 ≡ 0)
unfolding new_isbn13
isbn13_inv value compacted e h = elim (Option-cases (to_digits compacted)) [
  | inl absent ↦ absurd (ground (arith, e, h, absent))
  | inr present ↦
      let sum = to_digits_sum compacted 0 present.1 in
      (present.0, present.1, ground (arith, e, h, present.1, sum))
]

-- The check digit of an ISBN-13 detects every single wrong digit: two accepted numbers that differ
-- in at most one place are equal.
pub new_isbn13_injective :
    (value other before after : Text) (a b : ℕ)
    → compact value ≡ before ++ a ∷ after
    → compact other ≡ before ++ b ∷ after
    → new_isbn13 value ≡ ok (record { as_str = before ++ a ∷ after })
    → new_isbn13 other ≡ ok (record { as_str = before ++ b ∷ after })
    → a ≡ b
new_isbn13_injective value other before after a b e e' h h' =
    let (digits, is_number, sum) = isbn13_inv value (before ++ a ∷ after) e h in
    let (digits', is_number', sum') = isbn13_inv other (before ++ b ∷ after) e' h' in
    let (low, small) = digit_lt a (is_digit_at before after a is_number) in
    let (low', small') = digit_lt b (is_digit_at before after b is_number') in
    let same =
      same_digit (text_sum 0 (before ++ a ∷ after)) (text_sum 0 (before ++ b ∷ after)) (a - 48)
        (b - 48) (weight13 (0 + length before)) (weight_is (0 + length before))
        (sum_at before after a b 0) sum sum' small small' in
    omega (arith, same, low, low')
