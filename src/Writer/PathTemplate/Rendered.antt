-- ===== src/Writer/PathTemplate/Rendered.antt =====
-- What the parser of templates accepts renders wherever the variables have values.
use fixer.Common.{
  ℕ, zero, suc, ◌≡◌, refl, sym, ◌∙◌, ap, Bool, true, false, Option-cases, subst, inl, inr, Option,
  none, some, List, [], ◌∷◌, ◌++◌, map, any, All, arith, ◌==◌, nat_eq, list_eq, length,
  if◌then◌else◌,
}
use fixer.Std.Text.{trim, Text, split}
use fixer.Std.Result.{Result, ok, err, >>=-eq-ok}
use fixer.Writer.PathTemplate.{
  CaseTable, Expression, PathTemplate, TemplateContext, TemplateError, unsafe_path, apply_filters,
  value, brace, end_brace, find_pair, expression_end, no_end, parse_expression, expression_at,
  Ending, prepend, go_on_behind, parse_round, parse_from, ended, parse_expressions, new_template,
  render_from, render_source,
}
use fixer.Writer.PathTemplate.Parsed.{expression_at-ok, parse_from-ends, ended-some}
use fixer.Writer.PathTemplate.Filters.{expression_of-AreFilters, apply_filters-ok}

go_on_behind-some :
    (m : Result TemplateError (Expression × Text)) (f : Text → Ending)
    {expressions : List Expression}
    → go_on_behind m f ≡ some (ok expressions)
    → (expression : Expression) × (tail : Text) × (expressions' : List Expression) × (m
        ≡ ok (expression, tail))
      × (f tail ≡ some (ok expressions'))
      × (expressions ≡ expression ∷ expressions')
go_on_behind-some (err e) f h = absurd (cc h)
go_on_behind-some (ok (expression, tail)) f {expressions} h = prepended (f tail) refl h
  where
    prepended :
        (ending : Ending)
        → f tail ≡ ending
        → prepend expression ending ≡ some (ok expressions)
        → (expression' : Expression) × (tail' : Text) × (expressions' : List Expression) × (◌≡◌
            {A = Result TemplateError (Expression × Text)}
            (ok (expression, tail))
            (ok (expression', tail')))
          × (f tail' ≡ some (ok expressions'))
          × (expressions ≡ expression' ∷ expressions')
    prepended none e k = absurd (cc k)
    prepended (some (err error)) e k = absurd (cc k)
    prepended (some (ok expressions')) e k = (expression, tail, expressions', refl, e, cc k)

-- What a round that finds an expression parsed.
record Round (source after : Text) (f : Text → Ending) (expressions : List Expression)
    : Type 0 where
  raw : Text
  tail : Text
  expression : Expression
  expressions' : List Expression
  behind : expression_end source (find_pair end_brace after) ≡ ok (raw, tail)
  parsed : parse_expression raw ≡ ok expression
  went_on : f tail ≡ some (ok expressions')
  same : expressions ≡ expression ∷ expressions'

parse_round-Round :
    (source rest head after : Text) (f : Text → Ending) {expressions : List Expression}
    → parse_round source rest f (some (head, after)) ≡ some (ok expressions)
    → Round source after f expressions
parse_round-Round source rest head after f h =
    let (expression, tail, expressions', at, went_on, same) =
      go_on_behind-some (expression_at source after) f h in
    let (raw, behind, parsed) = expression_at-ok source after at in
    record {
      raw = raw;
      tail = tail;
      expression = expression;
      expressions' = expressions';
      behind = behind;
      parsed = parsed;
      went_on = went_on;
      same = same;
    }

abbrev pub HasValue : TemplateContext → Expression → Type 0
HasValue context expression = (text : Text) × (value context expression.variable ≡ ok text)

no_end-empty :
    (source : Text) (m : Option (Text × Text)) {expressions : List Expression}
    → ◌≡◌ {A = Ending} (some (no_end source m)) (some (ok expressions))
    → expressions ≡ []
no_end-empty source none h = sym (cc h)
no_end-empty source (some parts) h = absurd (cc h)

render_step :
    (table : CaseTable) (source rest : Text) (expression : Expression)
    (expressions : List Expression) (context : TemplateContext)
    {head after raw tail plain filtered rendered : Text}
    → find_pair brace rest ≡ some (head, after)
    → expression_end source (find_pair end_brace after) ≡ ok (raw, tail)
    → value context expression.variable ≡ ok plain
    → apply_filters table expression.filters plain ≡ ok filtered
    → render_from table source tail expressions context ≡ ok rendered
    → render_from table source rest (expression ∷ expressions) context
      ≡ ok (head ++ (filtered ++ rendered))
unfolding render_from
render_step table source rest expression expressions context a b c d e =
    rw a (rw b (rw c (rw d (rw e refl))))

-- What is parsed of `rest` renders.
render_from-ok :
    (table : CaseTable) (rounds : ℕ) (source rest : Text) (expressions : List Expression)
    (context : TemplateContext)
    → parse_from rounds source rest ≡ some (ok expressions)
    → All (HasValue context) expressions
    → (path : Text) × (render_from table source rest expressions context ≡ ok path)
unfolding parse_from render_from parse_expression
render_from-ok table zero source rest expressions context parsed has = absurd (cc parsed)
render_from-ok table (suc rounds) source rest [] context parsed has = (rest, refl)
render_from-ok table (suc rounds) source rest (expression ∷ expressions) context parsed
      (has, more) =
    elim (Option-cases (find_pair brace rest)) [
      | inl absent ↦ absurd (
          cc (
            no_end-empty source (find_pair end_brace rest) (
              subst
                (λ m.
                  parse_round source rest (λ tail. parse_from rounds source tail) m
                  ≡ some (ok (expression ∷ expressions)))
                absent parsed)))
      | inr ((head, after), found) ↦
          let round =
            parse_round-Round source rest head after (λ tail. parse_from rounds source tail)
              (subst
                (λ m.
                  parse_round source rest (λ tail. parse_from rounds source tail) m
                  ≡ some (ok (expression ∷ expressions)))
                found parsed) in
          let read : parse_expression round.raw ≡ ok expression =
            round.parsed ∙ ap ok (cc (sym (round.same))) in
          let went_on : parse_from rounds source round.tail ≡ some (ok expressions) =
            round.went_on ∙ ap (λ es. some (ok es)) (cc (sym (round.same))) in
          let known = expression_of-AreFilters (map trim (split b'|' (trim round.raw))) read in
          let (filtered, e) = apply_filters-ok table expression.filters (has.0) known in
          let (rendered, e') =
            render_from-ok table rounds source round.tail expressions context went_on more in
          (
            head ++ (filtered ++ rendered),
            render_step table source rest expression expressions context found (round.behind)
                (has.1) e e',
          )
    ]

else_of :
    (refused : Bool) (e : TemplateError) (m : Result TemplateError (List Expression))
    {expressions : List Expression}
    → (if refused then err e else m) ≡ ok expressions
    → m ≡ ok expressions
else_of true e m h = absurd (cc h)
else_of false e m h = h

parse_expressions-rounds :
    (source : Text) {expressions : List Expression}
    → parse_expressions source ≡ ok expressions
    → parse_from (suc (length source)) source source ≡ some (ok expressions)
unfolding parse_expressions
parse_expressions-rounds source {expressions} h =
    let whole = parse_from (suc (length source)) source source in
    let (parsed, ends) = parse_from-ends (suc (length source)) source source (omega arith) in
    ended-some source whole ends
    ∙ ap some (else_of (any (λ c. c == 0) source) (unsafe_path source) (ended source whole) h)

-- A template that was accepted renders in every context that has its variables: neither its syntax
-- nor one of its filters is found wanting only then.
pub new_template-render_source :
    (table : CaseTable) (source : Text) (template : PathTemplate) (context : TemplateContext)
    → new_template source ≡ ok template
    → All (HasValue context) template.expressions
    → (path : Text) × (render_source table template.source template.expressions context ≡ ok path)
unfolding new_template render_source parse_expressions
new_template-render_source table source template context accepted has =
    let (expressions, parsed, made) =
      >>=-eq-ok (parse_expressions source)
        (λ expressions. ok (record { source = source; expressions = expressions })) accepted in
    let same_source : template.source ≡ source = ground arith in
    let same : template.expressions ≡ expressions = ground arith in
    let parsed' = parse_expressions-rounds source parsed in
    rw same_source (
      render_from-ok table (suc (length source)) source source template.expressions context
        (rw same parsed') has)
