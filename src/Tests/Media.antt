-- ===== src/Tests/Media.antt =====
-- Dates and ISBNs of crates/fixer-core/src/media at concrete values, and instances of their
-- theorems.
use fixer.Common.{ℕ, ◌≡◌, refl, [], ◌∷◌, ◌++◌}
use fixer.Std.Text.{Text, text, to_ascii_uppercase, ascii_upper}
use fixer.Std.Result.{ok, err}
use fixer.Core.Error.{invalid_domain_value}
use fixer.Core.Media.Isbn.{compact, to_digits, sum13, new_isbn13, sum10, shape10, new_isbn10}

abbrev printed : Text
printed = text "978-0-306-40615-7"

abbrev start : Text
start = text "978030640615"

compacts : compact printed ≡ start ++ b'7' ∷ []
unfolding compact to_ascii_uppercase ascii_upper
compacts = refl

accepts : new_isbn13 printed ≡ ok (record { as_str = start ++ b'7' ∷ [] })
unfolding new_isbn13 compact to_ascii_uppercase ascii_upper to_digits sum13
accepts = refl

abbrev check : ℕ
check = b'7'

rejects :
    new_isbn13 (text "978-0-306-40615-8")
    ≡ err (invalid_domain_value "isbn_13" (text "9780306406158"))
unfolding new_isbn13 compact to_ascii_uppercase ascii_upper to_digits sum13
rejects = refl

accepts_x : new_isbn10 (text "0-8044-2957-x") ≡ ok (record { as_str = text "080442957X" })
unfolding new_isbn10 compact to_ascii_uppercase ascii_upper sum10 shape10
accepts_x = refl
