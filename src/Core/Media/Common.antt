-- ===== src/Core/Media/Common.antt =====
-- crates/fixer-core/src/media/common.rs: identifiers and dates.
use fixer.Common.{
  ℕ, String, Bool, true, false, not, ◌&&◌, ◌||◌, ◌%◌, ◌==◌, nat_eq, Option, none, some, ltb, leb,
  if◌then◌else◌, any, is_empty, [],
}
use fixer.Std.Text.{Text, len, is_control}
use fixer.Std.Result.{Result, ok, err, ◌>>◌}
use fixer.Core.Error.{CoreError, invalid_domain_value}

unfoldable pub validate_media_text : String → Text → ℕ → Result CoreError (Unit {0})
validate_media_text field value maximum =
    if is_empty value || ltb maximum (len value) || any is_control value
    then err (invalid_domain_value field value)
    else ok tt

-- `string_id!`: WorkId, ReleaseId, AssetId and PersonId, by their field.
pub record StringId : Type 0 where
  pub as_str : Text

unfoldable pub new_string_id : String → Text → Result CoreError StringId
unfolding validate_media_text
new_string_id field value = do validate_media_text field value 256; ok (record { as_str = value })

pub record ReleaseDate : Type 0 where
  pub year : ℕ
  pub month : Option ℕ
  pub day : Option ℕ

abbrev pub is_leap : ℕ → Bool
is_leap year = year % 400 == 0 || (year % 4 == 0 && not (year % 100 == 0))

unfoldable pub days_in_month : ℕ → ℕ → ℕ
days_in_month year month =
    if month == 4 || month == 6 || month == 9 || month == 11
    then 30
    else if month == 2 && is_leap year
    then 29
    else if month == 2
    then 28
    else 31

abbrev is_month : Option ℕ → Bool
is_month none = true
is_month (some month) = leb 1 month && leb month 12

abbrev is_day : ℕ → Option ℕ → Option ℕ → Bool
is_day year none none = true
is_day year none (some day) = false
is_day year (some month) none = false
is_day year (some month) (some day) = ltb 0 day && leb day (days_in_month year month)

-- The text of the error, a formatted date, is left out.
unfoldable pub validate_date : ℕ → Option ℕ → Option ℕ → Result CoreError ReleaseDate
validate_date year month day =
    if ltb 0 year && is_month month && is_day year month day
    then ok (record { year = year; month = month; day = day })
    else err (invalid_domain_value "release_date" [])

unfoldable pub new_year : ℕ → Result CoreError ReleaseDate
unfolding validate_date
new_year year = validate_date year none none

unfoldable pub new_ymd : ℕ → ℕ → ℕ → Result CoreError ReleaseDate
unfolding validate_date
new_ymd year month day = validate_date year (some month) (some day)
