-- ===== src/Core/Media/Isbn.antt =====
-- crates/fixer-core/src/media/book.rs: ISBN-10 and ISBN-13.
use fixer.Common.{
  ℕ, zero, suc, ◌+◌, ◌-◌, ◌*◌, ◌%◌, Bool, true, false, not, ◌&&◌, ◌||◌, ◌==◌, nat_eq, Option, none,
  some, List, [], ◌∷◌, if◌then◌else◌, filter, length,
}
use fixer.Std.Text.{Text, len, is_ascii_digit, to_ascii_uppercase}
use fixer.Std.Result.{Result, ok, err}
use fixer.Core.Error.{CoreError, invalid_domain_value}

unfoldable pub compact : Text → Text
unfolding to_ascii_uppercase
compact value = to_ascii_uppercase (filter (λ ch. not (ch == b'-' || ch == b' ')) value)

-- char::to_digit(10)
abbrev pub to_digit : ℕ → Option ℕ
to_digit ch = if is_ascii_digit ch then some (ch - 48) else none

-- `collect::<Option<Vec<_>>>()`
unfoldable pub to_digits : Text → Option (List ℕ)
to_digits [] = some []
to_digits (ch ∷ s) = elim (to_digit ch) [
  | none ↦ none
  | some digit ↦ elim (to_digits s) [ none ↦ none | some digits ↦ some (digit ∷ digits) ]
]

abbrev pub weight13 : ℕ → ℕ
weight13 i = if i % 2 == 0 then 1 else 3

-- The weighted sum from index `i`.
unfoldable pub sum13 : ℕ → List ℕ → ℕ
sum13 i [] = 0
sum13 i (digit ∷ digits) = digit * weight13 i + sum13 (i + 1) digits

abbrev pub valid13 : Option (List ℕ) → Bool
valid13 none = false
valid13 (some digits) = length digits == 13 && sum13 0 digits % 10 == 0

-- `Isbn10(String)` and `Isbn13(String)`
pub record Isbn : Type 0 where
  pub as_str : Text

unfoldable pub new_isbn13 : Text → Result CoreError Isbn
unfolding compact to_digits sum13
new_isbn13 value =
    let compacted = compact value in
    if valid13 (to_digits compacted)
    then ok (record { as_str = compacted })
    else err (invalid_domain_value "isbn_13" compacted)

abbrev pub digit_or_ten : ℕ → ℕ
digit_or_ten ch = if is_ascii_digit ch then ch - 48 else 10

-- The characters with the weights down from the given one; the zip stops at the shorter list.
unfoldable pub sum10 : ℕ → Text → ℕ
sum10 zero s = 0
sum10 (suc weight) [] = 0
sum10 (suc weight) (ch ∷ s) = digit_or_ten ch * suc weight + sum10 weight s

unfoldable pub shape10 : ℕ → Text → Bool
shape10 i [] = true
shape10 i (ch ∷ s) = (is_ascii_digit ch || (i == 9 && ch == b'X')) && shape10 (i + 1) s

unfoldable pub new_isbn10 : Text → Result CoreError Isbn
unfolding compact sum10 shape10
new_isbn10 value =
    let compacted = compact value in
    if len compacted == 10 && shape10 0 compacted && sum10 10 compacted % 11 == 0
    then ok (record { as_str = compacted })
    else err (invalid_domain_value "isbn_10" compacted)
