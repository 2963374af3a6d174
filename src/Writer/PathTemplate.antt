-- ===== src/Writer/PathTemplate.antt =====
-- crates/fixer-writer-local/src/path_template.rs: templates of output paths. The Unicode tables of
-- lower and upper case are parameters.
pub mod Parsed
pub mod Filters
pub mod Rendered
pub mod Safe
pub mod Sanitized
pub mod Projected
use fixer.Common.{
  ℕ, zero, suc, ◌≡◌, Bool, true, false, not, ◌&&◌, ◌||◌, Option, none, some, List, [], ◌∷◌, ◌++◌,
  map, any, find, is_empty, length, ◌==◌, nat_eq, list_eq, if◌then◌else◌,
}
use fixer.Std.Text.{
  before, trim, Text, text, is_control, is_whitespace, split, split_whitespace, join,
}
use fixer.Std.Decimal.{to_decimal}
use fixer.Std.Map.{Map, get, put}
use fixer.Std.Path.{Component, root_dir, cur_dir, parent_dir, normal, is_absolute, components}
use fixer.Core.Output.{escapes}
use fixer.Std.Result.{Result, ok, err, ◌>>=◌, ◌>>◌, ensure}

-- `locale` has the text of a CoreError, which is derived, hence a parameter of the projection.
pub data TemplateError : Type 0 where
  invalid_syntax unsupported_variable unsupported_filter missing_variable unsafe_path locale :
      Text → TemplateError

pub record Expression : Type 0 where
  pub variable : Text
  pub filters : List Text

pub record TemplateContext : Type 0 where
  pub values : Map Text Text

-- str::to_lowercase and str::to_uppercase
pub record CaseTable : Type 0 where
  pub lower : Text → Text
  pub upper : Text → Text

abbrev pub with_value : Text → Option Text → Map Text Text → Map Text Text
with_value name none values = values
with_value name (some value) values = put name value values

abbrev pub year_text : Option ℕ → Option Text
year_text none = none
year_text (some year) = some (to_decimal year)

unfoldable pub preview_context :
    Text → Text → Option ℕ → Option Text → Result TemplateError TemplateContext
unfolding to_decimal
preview_context title id year edition = do
  ensure (not (is_empty title)) (missing_variable (text "title"))
  ensure (not (is_empty id)) (missing_variable (text "id"))
  let required = put (text "id") id (put (text "title") title [])
  let dated = with_value (text "year") (year_text year) required
  ok (record { values = with_value (text "edition") edition dated })

abbrev value_or_missing : Text → Option Text → Result TemplateError Text
value_or_missing variable none = err (missing_variable variable)
value_or_missing variable (some value) = ok value

unfoldable pub value : TemplateContext → Text → Result TemplateError Text
value context variable = value_or_missing variable (get variable context.values)

-- str::find of a doubled character: what stands before and behind its first occurrence.
unfoldable pub find_pair : ℕ → Text → Option (Text × Text)
find_pair mark [] = none
find_pair mark (c ∷ []) = none
find_pair mark (c ∷ d ∷ rest) =
    let later = before c (find_pair mark (d ∷ rest)) in
    if c == mark && d == mark then some ([], rest) else later

abbrev pub is_variable : Text → Bool
is_variable name =
    name == text "title" || name == text "year" || name == text "edition" || name == text "id"

abbrev pub is_filter : Text → Bool
is_filter name = name == text "sanitize" || name == text "lower" || name == text "upper"

abbrev supported : Option Text → Result TemplateError (Unit {0})
supported none = ok tt
supported (some filter) = err (unsupported_filter filter)

abbrev expression_of : List Text → Result TemplateError Expression
expression_of [] = err (unsupported_variable [])
expression_of (variable ∷ filters) = do
  ensure (is_variable variable) (unsupported_variable variable)
  supported (find (λ filter. not (is_filter filter)) filters)
  ok (record { variable = variable; filters = filters })

-- What stands between the braces.
unfoldable pub parse_expression : Text → Result TemplateError Expression
unfolding split
parse_expression raw = expression_of (map trim (split b'|' (trim raw)))

abbrev pub brace : ℕ
brace = b'{'

abbrev pub end_brace : ℕ
end_brace = b'}'

abbrev expression_end : Text → Option (Text × Text) → Result TemplateError (Text × Text)
expression_end source none = err (invalid_syntax source)
expression_end source (some parts) = ok parts

abbrev no_end : Text → Option (Text × Text) → Result TemplateError (List Expression)
no_end source none = ok []
no_end source (some parts) = err (invalid_syntax source)

-- The expression behind a brace and what follows its end.
abbrev pub expression_at : Text → Text → Result TemplateError (Expression × Text)
expression_at source after = do
  (raw, tail) ← expression_end source (find_pair end_brace after)
  expression ← parse_expression raw
  ok (expression, tail)

-- What the loop ends with, or none where its rounds ran out.
abbrev pub Ending : Type 0
Ending = Option (Result TemplateError (List Expression))

abbrev pub prepend : Expression → Ending → Ending
prepend expression none = none
prepend expression (some (err e)) = some (err e)
prepend expression (some (ok expressions)) = some (ok (expression ∷ expressions))

abbrev pub go_on_behind : Result TemplateError (Expression × Text) → (Text → Ending) → Ending
go_on_behind (err e) go_on = some (err e)
go_on_behind (ok (expression, tail)) go_on = prepend expression (go_on tail)

-- A round of the loop; `go_on` has the rounds after it.
abbrev pub parse_round : Text → Text → (Text → Ending) → Option (Text × Text) → Ending
parse_round source rest go_on none = some (no_end source (find_pair end_brace rest))
parse_round source rest go_on (some (head, after)) = go_on_behind (expression_at source after) go_on

-- The loop, with the rounds that are left; every round takes four characters at least.
unfoldable pub parse_from : ℕ → Text → Text → Ending
unfolding find_pair parse_expression
parse_from zero source rest = none
parse_from (suc rounds) source rest =
    parse_round source rest (λ tail. parse_from rounds source tail) (find_pair brace rest)

-- The rounds never run out (Parsed).
abbrev pub ended : Text → Ending → Result TemplateError (List Expression)
ended source none = err (invalid_syntax source)
ended source (some parsed) = parsed

unfoldable pub parse_expressions : Text → Result TemplateError (List Expression)
unfolding parse_from
parse_expressions source =
    if any (λ c. c == 0) source
    then err (unsafe_path source)
    else ended source (parse_from (suc (length source)) source source)

abbrev pub is_reserved : ℕ → Bool
is_reserved c =
    c == b'<' || c == b'>' || c == b':' || c == b'"' || c == b'|' || c == b'?' || c == b'*'

abbrev replaced : ℕ → ℕ
replaced c = if is_control c || (c == b'/' || (c == b'\\' || is_reserved c)) then b' ' else c

unfoldable pub sanitize_segment : Text → Text
unfolding split_whitespace join
sanitize_segment value = join (text " ") (split_whitespace (map replaced value))

abbrev pub apply_filter : CaseTable → Text → Text → Result TemplateError Text
apply_filter table filter value =
    if filter == text "sanitize"
    then ok (sanitize_segment value)
    else if filter == text "lower"
    then ok (table.lower value)
    else if filter == text "upper"
    then ok (table.upper value)
    else err (unsupported_filter filter)

unfoldable pub apply_filters : CaseTable → List Text → Text → Result TemplateError Text
unfolding sanitize_segment
apply_filters table [] value = ok value
apply_filters table (filter ∷ filters) value = do
  value' ← apply_filter table filter value
  apply_filters table filters value'

-- What is rendered of `rest`.
unfoldable pub render_from :
    CaseTable → Text → Text → List Expression → TemplateContext → Result TemplateError Text
unfolding find_pair value apply_filters
render_from table source rest [] context = ok rest
render_from table source rest (expression ∷ expressions) context = do
  (head, after) ← expression_end source (find_pair brace rest)
  (raw, tail) ← expression_end source (find_pair end_brace after)
  plain ← value context expression.variable
  filtered ← apply_filters table expression.filters plain
  rendered ← render_from table source tail expressions context
  ok (head ++ (filtered ++ rendered))

unfoldable pub render_source :
    CaseTable → Text → List Expression → TemplateContext → Result TemplateError Text
unfolding render_from
render_source table source expressions context = render_from table source source expressions context

-- `ends_with([' ', '.'])`
unfoldable pub ends_badly : Text → Bool
ends_badly [] = false
ends_badly (c ∷ []) = c == b' ' || c == b'.'
ends_badly (c ∷ d ∷ s) = ends_badly (d ∷ s)

abbrev pub is_unclean : Component → Bool
is_unclean (normal segment) =
    is_empty segment || ends_badly segment || any (λ c. is_control c || is_reserved c) segment
is_unclean _ = false

unfoldable pub validate_relative_path : Text → Result TemplateError Text
unfolding components ends_badly
validate_relative_path value = do
  ensure
      (not (
        is_empty value
        || is_absolute value
        || any (λ c. c == 0) value
        || any escapes (components value)))
      (unsafe_path value)
  ensure (not (any is_unclean (components value))) (unsafe_path value)
  ok value

pub record PathTemplate : Type 0 where
  pub source : Text
  pub expressions : List Expression

unfoldable pub new_template : Text → Result TemplateError PathTemplate
unfolding parse_expressions
new_template source = do
  expressions ← parse_expressions source
  ok (record { source = source; expressions = expressions })

unfoldable pub render : CaseTable → PathTemplate → TemplateContext → Result TemplateError Text
unfolding render_source validate_relative_path
render table template context = do
  rendered ← render_source table template.source template.expressions context
  validate_relative_path rendered
