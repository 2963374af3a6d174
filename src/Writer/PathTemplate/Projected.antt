-- ===== src/Writer/PathTemplate/Projected.antt =====
-- crates/fixer-writer-local/src/path_template.rs: the context of a resolved movie. The text of an
-- error of the core (a derived Display) is a parameter.
use fixer.Common.{
  ℕ, ◌≡◌, refl, ap, ◌∙◌, Bool, true, false, ◌&&◌, ◌||◌, Option, none, some, List, [], ◌∷◌, ◌==◌,
  nat_eq, list_eq, if◌then◌else◌, arith, All, ◌⊎◌, inl, inr, All-imp,
}
use fixer.Std.Text.{Text, text}
use fixer.Std.Map.{Map, get, put, get-put}
use fixer.Std.Decimal.{to_decimal}
use fixer.Std.Result.{Result, ok, err, ◌>>=◌, ensure, map_err, >>=-eq-ok}
use fixer.Core.Error.{CoreError}
use fixer.Core.Locale.{TagParser, new_policy, select}
use fixer.Core.Media.Movie.{Movie, MovieRelease, release_year}
use fixer.Core.Merge.Movie.{Resolved}
use fixer.Writer.PathTemplate.{
  TemplateError, missing_variable, locale, Expression, TemplateContext, PathTemplate, with_value,
  year_text, CaseTable, new_template, render_source, render, validate_relative_path, unsafe_path,
  value,
}
use fixer.Writer.PathTemplate.Rendered.{HasValue, new_template-render_source}

abbrev pub first_edition : List MovieRelease → Option Text
first_edition [] = none
first_edition (release ∷ releases) = elim release.edition [
  | none ↦ first_edition releases
  | some edition ↦ some edition
]

abbrev pub title_or_missing : Option Text → Result TemplateError Text
title_or_missing none = err (missing_variable (text "title"))
title_or_missing (some title) = ok title

abbrev pub projected : {F : Type 0} → Movie F → Text → TemplateContext
projected movie title =
    let required = put (text "id") movie.id.as_str (put (text "title") title []) in
    let dated = with_value (text "year") (year_text (release_year movie)) required in
    record { values = with_value (text "edition") (first_edition movie.releases) dated }

unfoldable pub movie_context :
    {F : Type 0}
    → (CoreError → Text)
    → TagParser
    → Resolved (Movie F)
    → List Text
    → Result TemplateError TemplateContext
unfolding new_policy select release_year to_decimal
movie_context describe parser resolved languages = do
  policy ← map_err (λ e. locale (describe e)) (new_policy parser languages)
  title ← title_or_missing (select policy resolved.value.titles)
  ok (projected resolved.value title)

abbrev is_there : {A : Type 0} → Option A → Bool
is_there none = false
is_there (some a) = true

-- The variables that a movie has values of.
abbrev pub offers : {F : Type 0} → Movie F → Text → Bool
offers movie variable =
    text "title" == variable
    || text "id" == variable
    || (text "year" == variable && is_there (release_year movie))
    || (text "edition" == variable && is_there (first_edition movie.releases))

get-with_value :
    (name key : Text) (v : Option Text) (values : Map Text Text)
    → get key (with_value name v values) ≡ (if name == key && is_there v then v else get key values)
get-with_value name key none values = ground arith
get-with_value name key (some v) values = rw (get-put name key v values) (ground arith)

there-HasValue :
    (context : TemplateContext) (expression : Expression) (v : Option Text)
    → get expression.variable context.values ≡ v
    → is_there v ≡ true
    → HasValue context expression
unfolding value
there-HasValue context expression none found h = absurd (cc h)
there-HasValue context expression (some v) found h = (v, rw found refl)

is_there-else :
    {A : Type 0} (b : Bool) (v w : Option A)
    → is_there (if b && is_there v then v else w) ≡ ((b && is_there v) || is_there w)
is_there-else false v w = refl
is_there-else true none w = refl
is_there-else true (some a) w = refl

is_there-either :
    {A : Type 0} (i t : Bool) (v w : A)
    → is_there (if i then some v else (if t then some w else none)) ≡ (i || t)
is_there-either true t v w = refl
is_there-either false true v w = refl
is_there-either false false v w = refl

is_there-year_text : (year : Option ℕ) → is_there (year_text year) ≡ is_there year
is_there-year_text none = refl
is_there-year_text (some year) = refl

-- The four variables in the order in which they are put, the last one first.
offered_lem : (t i y e : Bool) → (e || (y || (i || t))) ≡ (t || i || y || e)
offered_lem t i y e = ground arith

projected-offers :
    {F : Type 0} (movie : Movie F) (title key : Text)
    → is_there (get key (projected movie title).values) ≡ offers movie key
projected-offers movie title key =
    let id = movie.id.as_str in
    let year = release_year movie in
    let edition = first_edition movie.releases in
    let named = put (text "id") id (put (text "title") title []) in
    ap is_there (
      get-with_value (text "edition") key edition (with_value (text "year") (year_text year) named))
    ∙ is_there-else (text "edition" == key) edition
        (get key (with_value (text "year") (year_text year) named))
    ∙ ap (λ z. text "edition" == key && is_there edition || z)
        (ap is_there (get-with_value (text "year") key (year_text year) named)
          ∙ is_there-else (text "year" == key) (year_text year) (get key named)
          ∙ ap (λ z. text "year" == key && z || is_there (get key named)) (is_there-year_text year)
          ∙ ap (λ z. text "year" == key && is_there year || z)
              (ap is_there (get-put (text "id") key id (put (text "title") title []))
                ∙ is_there-either (text "id" == key) (text "title" == key) id title))
    ∙ offered_lem (text "title" == key) (text "id" == key) (text "year" == key && is_there year)
        (text "edition" == key && is_there edition)

judged_by :
    {A : Type 0} (refused unclean : Bool) (e : TemplateError) (path : A)
    → (◌≡◌ {A = Result TemplateError A}
        (ensure refused e >>= λ _. ensure unclean e >>= λ _. ok path)
        (ok path))
      ⊎ (◌≡◌ {A = Result TemplateError A}
          (ensure refused e >>= λ _. ensure unclean e >>= λ _. ok path)
          (err e))
judged_by true true e path = inl refl
judged_by true false e path = inr refl
judged_by false unclean e path = inr refl

-- The check of a path answers the path itself or that it is unsafe.
validate_relative_path-judged :
    (path : Text)
    → (validate_relative_path path ≡ ok path)
      ⊎ (validate_relative_path path ≡ err (unsafe_path path))
unfolding validate_relative_path
validate_relative_path-judged path = judged_by _ _ (unsafe_path path) path

rendered-judged :
    (table : CaseTable) (template : PathTemplate) (context : TemplateContext) {path : Text}
    → render_source table template.source template.expressions context ≡ ok path
    → (render table template context ≡ ok path)
      ⊎ (render table template context ≡ err (unsafe_path path))
unfolding render
rendered-judged table template context {path} h = rw h (validate_relative_path-judged path)

-- For an accepted template whose variables the movie has values of (the title and the id always,
-- the year where a release has one, the edition where a release has one), a movie's context fills
-- in the whole template, and `render` answers the text it gets, or that this text is an unsafe
-- path: there is no other error.
pub movie_context-render :
    {F : Type 0} (table : CaseTable) (describe : CoreError → Text) (parser : TagParser)
    (resolved : Resolved (Movie F)) (languages : List Text) (source : Text)
    (template : PathTemplate) (context : TemplateContext)
    → movie_context describe parser resolved languages ≡ ok context
    → new_template source ≡ ok template
    → All (λ (e : Expression). offers resolved.value e.variable ≡ true) template.expressions
    → (path : Text) × (render_source table template.source template.expressions context ≡ ok path)
      × ((render table template context ≡ ok path)
          ⊎ (render table template context ≡ err (unsafe_path path)))
unfolding movie_context
movie_context-render table describe parser resolved languages source template context made accepted
      offered =
    let (policy, parsed, selected) =
      >>=-eq-ok (map_err (λ e. locale (describe e)) (new_policy parser languages)) _ made in
    let (title, found, same) =
      >>=-eq-ok (title_or_missing (select policy resolved.value.titles)) _ selected in
    let same_context : context ≡ projected resolved.value title = ground arith in
    let (path, filled) = new_template-render_source table source template context accepted (
      All-imp (λ (e : Expression). offers resolved.value e.variable ≡ true) (HasValue context)
        template.expressions
        (λ e h. there-HasValue context e (get e.variable context.values) refl (
          ap (λ (c : TemplateContext). is_there (get e.variable c.values)) same_context
          ∙ projected-offers resolved.value title e.variable
          ∙ h))
        offered) in
    (path, filled, rendered-judged table template context filled)
