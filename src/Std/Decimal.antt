-- ===== src/Std/Decimal.antt =====
-- Decimal text of unsigned 64-bit numbers: `to_string` and `parse::<u64>`.
use native.Mathlib.Nat.{pow-suc}
use fixer.Common.{
  some_injective, sym, ◌∙◌, ap, ltb→lt, ℕ, zero, suc, ◌+◌, ◌-◌, ◌*◌, ◌/◌, ◌%◌, ◌^◌, ◌<◌, ◌≤◌, ◌≡◌,
  refl, true, Option, none, some, [], ◌∷◌, ◌++◌, arith, ltb, leb, ◌==◌, nat_eq, if◌then◌else◌,
  Bool-cases, Option-cases, inl, inr,
}
use fixer.Std.Text.{Text, is_ascii_digit}

abbrev pub u64_max : ℕ
u64_max = 2 ^ 64 - 1

-- The digits of a number below 10 ^ fuel, the most significant first.
unfoldable pub digits : ℕ → ℕ → Text
digits zero n = []
digits (suc fuel) n =
    let more = digits fuel (n / 10) in
    if ltb n 10 then (b'0' + n) ∷ [] else more ++ (b'0' + n % 10) ∷ []

-- 2 ^ 64 has 20 digits.
unfoldable pub to_decimal : ℕ → Text
unfolding digits
to_decimal n = digits 20 n

-- One digit of `parse`: `checked_mul(10)` and `checked_add`.
unfoldable pub push_digit : ℕ → ℕ → Option ℕ
push_digit value c =
    if is_ascii_digit c
    then (if leb (value * 10 + (c - b'0')) u64_max then some (value * 10 + (c - b'0')) else none)
    else none

unfoldable pub parse_digits : ℕ → Text → Option ℕ
unfolding push_digit
parse_digits value [] = some value
parse_digits value (c ∷ s) = elim (push_digit value c) [
  | none ↦ none
  | some value' ↦ parse_digits value' s
]

-- `str::parse::<u64>`: one leading plus sign is allowed, and a digit is required.
unfoldable pub parse_u64 : Text → Option ℕ
unfolding parse_digits
parse_u64 [] = none
parse_u64 (c ∷ []) = parse_digits 0 (c ∷ [])
parse_u64 (c ∷ d ∷ s) = if c == b'+' then parse_digits 0 (d ∷ s) else parse_digits 0 (c ∷ d ∷ s)

push_digit_fits :
    (value d : ℕ)
    → d < 10
    → value * 10 + d ≤ u64_max
    → push_digit value (b'0' + d) ≡ some (value * 10 + d)
unfolding push_digit
push_digit_fits value d h b = ground arith

parse_step :
    (value c : ℕ) (s : Text) {v : ℕ}
    → push_digit value c ≡ some v
    → parse_digits value (c ∷ s) ≡ parse_digits v s
unfolding parse_digits
parse_step value c s h = rw (h, parse_digits)

parse_step_fails :
    (value c : ℕ) (s : Text) → push_digit value c ≡ none → parse_digits value (c ∷ s) ≡ none
unfolding parse_digits
parse_step_fails value c s h = rw (h, parse_digits)

parse_end : (value : ℕ) → parse_digits value [] ≡ some value
unfolding parse_digits
parse_end value = refl

parse_digits-append :
    (value : ℕ) (s : Text) (c v w : ℕ)
    → parse_digits value s ≡ some v
    → push_digit v c ≡ some w
    → parse_digits value (s ++ c ∷ []) ≡ some w
parse_digits-append value [] c v w h p =
    let e : value ≡ v = some_injective (sym (parse_end value) ∙ h) in
    parse_step value c [] (rw e p) ∙ parse_end w
parse_digits-append value (d ∷ s) c v w h p = elim (Option-cases (push_digit value d)) [
  | inl bad ↦ absurd (cc (parse_step_fails value d s bad, h))
  | inr good ↦
      parse_step value d (s ++ c ∷ []) good.1
      ∙ parse_digits-append good.0 s c v w (sym (parse_step value d s good.1) ∙ h) p
]

div_bound : (fuel n : ℕ) → n < 10 ^ suc fuel → n / 10 < 10 ^ fuel
div_bound fuel n h = omega (arith, pow-suc 10 fuel)

parse-digits : (fuel n : ℕ) → n < 10 ^ fuel → n ≤ u64_max → parse_digits 0 (digits fuel n) ≡ some n
unfolding digits
parse-digits zero n h b = parse_end 0 ∙ ap some (omega arith)
parse-digits (suc fuel) n h b = elim (Bool-cases (ltb n 10)) [
  | inl small ↦ rw small (
      parse_step 0 (b'0' + n) [] (push_digit_fits 0 n (ltb→lt n 10 small) (omega arith))
      ∙ parse_end (0 * 10 + n)
      ∙ ap some (omega arith))
  | inr large ↦ rw large (
      parse_digits-append 0 (digits fuel (n / 10)) (b'0' + n % 10) (n / 10) n
        (parse-digits fuel (n / 10) (div_bound fuel n h) (omega arith))
        (push_digit_fits (n / 10) (n % 10) (omega arith) (omega arith) ∙ ap some (omega arith)))
]

-- A digit text starts with a digit, so `parse` takes no sign off it.
parse_u64_unsigned :
    (c : ℕ) (s : Text) → is_ascii_digit c ≡ true → parse_u64 (c ∷ s) ≡ parse_digits 0 (c ∷ s)
unfolding parse_u64
parse_u64_unsigned c [] h = refl
parse_u64_unsigned c (d ∷ s) h = elim (Bool-cases (c == b'+')) [
  | inl plus ↦ absurd (ground arith)
  | inr no_sign ↦ rw no_sign
]

-- The first character of a nonempty digit text.
first_digit :
    (fuel n : ℕ) → (c : ℕ) × (s : Text) × (digits (suc fuel) n ≡ c ∷ s) × (is_ascii_digit c ≡ true)
unfolding digits
first_digit zero n = elim (Bool-cases (ltb n 10)) [
  | inl small ↦ (b'0' + n, [], rw small, ground arith)
  | inr large ↦ (b'0' + n % 10, [], rw large, ground arith)
]
first_digit (suc fuel) n = elim (Bool-cases (ltb n 10)) [
  | inl small ↦ (b'0' + n, [], rw small, ground arith)
  | inr large ↦
      let (c, s, e, d) = first_digit fuel (n / 10) in
      (c, s ++ (b'0' + n % 10) ∷ [], rw large (ap (λ (w : Text). w ++ (b'0' + n % 10) ∷ []) e), d)
]

-- Every 64-bit number is read back from its decimal text.
pub parse_u64-to_decimal : (n : ℕ) → n < 2 ^ 64 → parse_u64 (to_decimal n) ≡ some n
unfolding to_decimal
parse_u64-to_decimal n h =
    let (c, s, e, d) = first_digit 19 n in
    rw e (parse_u64_unsigned c s d ∙ rw e at (parse-digits 20 n (omega arith) (omega arith)))
