-- ===== src/Writer/PathTemplate/Filters.antt =====
-- The filters of an accepted expression are known, and known filters never fail.
use fixer.Common.{
  ◌≡◌, refl, Bool, true, false, not, ◌||◌, Bool-cases, subst, inl, inr, some, List, [], ◌∷◌, All,
  arith, ◌==◌, nat_eq, list_eq, find, if◌then◌else◌,
}
use fixer.Std.Text.{Text, text}
use fixer.Std.Result.{ok, err, ◌>>=◌, ensure, >>=-eq-ok, >>=-ok}
use fixer.Writer.PathTemplate.{
  CaseTable, Expression, TemplateError, unsupported_variable, unsupported_filter, sanitize_segment,
  apply_filter, apply_filters, value, is_variable, is_filter, supported, expression_of,
}

-- Every filter is one of the three.
abbrev pub AreFilters : List Text → Type 0
AreFilters filters = All (λ filter. is_filter filter ≡ true) filters

supported-AreFilters :
    (filters : List Text)
    → supported (find (λ filter. not (is_filter filter)) filters) ≡ ok tt
    → AreFilters filters
supported-AreFilters [] h = tt
supported-AreFilters (filter ∷ filters) h = elim (Bool-cases (is_filter filter)) [
  | inl known ↦ (
    known,
    supported-AreFilters filters (
        subst
          (λ b.
            supported
              (if not b then some filter else find (λ filter. not (is_filter filter)) filters)
            ≡ ok tt)
          known h),
  )
  | inr unknown ↦ absurd (
      cc (
        subst
          (λ b.
            supported
              (if not b then some filter else find (λ filter. not (is_filter filter)) filters)
            ≡ ok tt)
          unknown h))
]

pub expression_of-AreFilters :
    (parts : List Text) {expression : Expression}
    → expression_of parts ≡ ok expression
    → AreFilters expression.filters
expression_of-AreFilters [] h = absurd (cc h)
expression_of-AreFilters (variable ∷ filters) {expression} h =
    let (_, _, more) =
      >>=-eq-ok (ensure (is_variable variable) (unsupported_variable variable))
        (λ _. supported (find (λ filter. not (is_filter filter)) filters) >>= λ _.
          ok (record { variable = variable; filters = filters }))
        h in
    let (_, known, last) =
      >>=-eq-ok (supported (find (λ filter. not (is_filter filter)) filters))
        (λ _. ok (record { variable = variable; filters = filters })) more in
    let same : expression.filters ≡ filters = ground arith in
    rw same (supported-AreFilters filters known)

one_succeeds :
    (a b c : Bool) (x y z : Text) (e : TemplateError)
    → (a || b || c) ≡ true
    → (filtered : Text) × ((if a then ok x else if b then ok y else if c then ok z else err e)
        ≡ ok filtered)
one_succeeds true b c x y z e h = (x, refl)
one_succeeds false true c x y z e h = (y, refl)
one_succeeds false false true x y z e h = (z, refl)
one_succeeds false false false x y z e h = absurd (cc h)

apply_filter-ok :
    (table : CaseTable) (filter value : Text)
    → is_filter filter ≡ true
    → (filtered : Text) × (apply_filter table filter value ≡ ok filtered)
apply_filter-ok table filter value h =
    one_succeeds (filter == text "sanitize") (filter == text "lower") (filter == text "upper")
      (sanitize_segment value) (table.lower value) (table.upper value) (unsupported_filter filter) h

pub apply_filters-ok :
    (table : CaseTable) (filters : List Text) (value : Text)
    → AreFilters filters
    → (filtered : Text) × (apply_filters table filters value ≡ ok filtered)
unfolding apply_filters
apply_filters-ok table [] value known = (value, refl)
apply_filters-ok table (filter ∷ filters) value (first, known) =
    let (value', e) = apply_filter-ok table filter value first in
    let (filtered, e') = apply_filters-ok table filters value' known in
    (filtered, >>=-ok (apply_filter table filter value) (apply_filters table filters) e e')
