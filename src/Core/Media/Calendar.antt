-- ===== src/Core/Media/Calendar.antt =====
-- The calendar of crates/fixer-core/src/media/common.rs.
use fixer.Common.{
  ℕ, zero, suc, ◌+◌, ◌≤◌, ◌<◌, ◌≡◌, nat_eq, some, if◌then◌else◌, arith, ◌↔◌, inl, inr, Bool-cases,
}
use fixer.Std.Result.{ok}
use fixer.Core.Media.Common.{is_leap, days_in_month, new_ymd}

-- The days of the first months of a year.
abbrev pub days_until : ℕ → ℕ → ℕ
days_until year zero = 0
days_until year (suc month) = days_until year month + days_in_month year (month + 1)

-- A year of accepted dates has 365 days, and a leap year, one that four divides and hundred does
-- not, or that four hundred divides, has 366.
pub days_until_lem : (year : ℕ) → days_until year 12 ≡ (if is_leap year then 366 else 365)
unfolding days_in_month
days_until_lem year = elim (Bool-cases (is_leap year)) [
  | inl leap ↦ rw leap (omega arith)
  | inr common ↦ rw common (omega arith)
]

-- A full date is accepted exactly for a positive year, a month from 1 to 12 and a day from 1 to
-- the length of that month.
pub new_ymd_iff :
    (year month day : ℕ)
    → (new_ymd year month day ≡ ok (record { year = year; month = some month; day = some day }))
      ↔ ((0 < year) × (0 < month) × (month ≤ 12) × (0 < day) × (day ≤ days_in_month year month))
unfolding new_ymd
new_ymd_iff year month day = ground arith
