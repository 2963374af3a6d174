-- ===== src/Writer/PathTemplate/Parsed.antt =====
-- What the parser of templates takes of a template, and that it always ends.
use fixer.Common.{
  ℕ, zero, suc, ◌+◌, ◌<◌, ◌≤◌, ◌≡◌, refl, ◌∙◌, ap, false, ◌&&◌, Bool-cases, subst, inl, inr, Option,
  none, some, List, [], ◌∷◌, any, arith, ◌==◌, nat_eq, list_eq, length, if◌then◌else◌,
}
use fixer.Std.Text.{before, Text}
use fixer.Std.Result.{Result, ok, err, ◌>>=◌, ok-injective, >>=-eq-ok}
use fixer.Writer.PathTemplate.{
  Expression, TemplateError, brace, end_brace, find_pair, expression_end, no_end, parse_expression,
  expression_at, Ending, prepend, go_on_behind, parse_round, parse_from, ended, parse_expressions,
}

before-some :
    (c : ℕ) (m : Option (Text × Text)) {head tail : Text}
    → before c m ≡ some (head, tail)
    → (head' : Text) × (m ≡ some (head', tail))
before-some c none h = absurd (cc h)
before-some c (some (head', tail')) h = (head', grind arith)

-- What follows a pair is shorter by the pair at least.
find_pair-shorter :
    (mark : ℕ) (s : Text) {head tail : Text}
    → find_pair mark s ≡ some (head, tail)
    → length tail + 2 ≤ length s
unfolding find_pair
find_pair-shorter mark [] h = absurd (cc h)
find_pair-shorter mark (c ∷ []) h = absurd (cc h)
find_pair-shorter mark (c ∷ d ∷ rest) {head} {tail} h = elim (Bool-cases (c == mark && d == mark)) [
  | inl here ↦ let same : rest ≡ tail = ground arith in rw (← same) (omega arith)
  | inr later ↦
      let found : before c (find_pair mark (d ∷ rest)) ≡ some (head, tail) =
        subst
          (λ b.
            (if b then some ([], rest) else before c (find_pair mark (d ∷ rest)))
            ≡ some (head, tail))
          later h in
      let (head', e) = before-some c (find_pair mark (d ∷ rest)) found in
      let shorter = find_pair-shorter mark (d ∷ rest) e in omega arith
]

expression_end-some :
    (source : Text) (m : Option (Text × Text)) {parts : Text × Text}
    → expression_end source m ≡ ok parts
    → m ≡ some parts
expression_end-some source none h = absurd (cc h)
expression_end-some source (some parts) h = grind arith

-- What a round leaves is shorter.
tail-shorter :
    (source rest head after : Text) {raw tail : Text}
    → find_pair brace rest ≡ some (head, after)
    → expression_end source (find_pair end_brace after) ≡ ok (raw, tail)
    → (n : ℕ) → length rest < suc n
    → length tail < n
tail-shorter source rest head after found ended n short =
    let one = find_pair-shorter brace rest found in
    let two =
      find_pair-shorter end_brace after
        (expression_end-some source (find_pair end_brace after) ended) in
    omega arith

-- What is behind a brace, in its parts.
pub expression_at-ok :
    (source after : Text) {expression : Expression} {tail : Text}
    → expression_at source after ≡ ok (expression, tail)
    → (raw : Text) × (expression_end source (find_pair end_brace after) ≡ ok (raw, tail))
      × (parse_expression raw ≡ ok expression)
expression_at-ok source after {expression} {tail} h =
    let ((raw, tail'), behind, more) =
      >>=-eq-ok (expression_end source (find_pair end_brace after))
        (λ (raw, tail). parse_expression raw >>= λ expression. ok (expression, tail)) h in
    let (expression', parsed, last) =
      >>=-eq-ok (parse_expression raw) (λ expression. ok (expression, tail')) more in
    let same : (expression', tail') ≡ (expression, tail) = ok-injective last in
    (
      raw,
      behind ∙ ap (λ (pair : Expression × Text). ok (raw, pair.1)) same,
      parsed ∙ ap (λ (pair : Expression × Text). ok (pair.0)) same,
    )

-- Two ways to go on that agree behind what was found.
go_on_behind-cong :
    (m : Result TemplateError (Expression × Text)) (f g : Text → Ending)
    → ((expression : Expression) (tail : Text) → m ≡ ok (expression, tail) → f tail ≡ g tail)
    → go_on_behind m f ≡ go_on_behind m g
go_on_behind-cong (err e) f g h = refl
go_on_behind-cong (ok (expression, tail)) f g h = ap (prepend expression) (h expression tail refl)

-- A way to go on that ends behind what was found.
go_on_behind-ends :
    (m : Result TemplateError (Expression × Text)) (f : Text → Ending)
    → ((expression : Expression) (tail : Text)
        → m ≡ ok (expression, tail)
        → (parsed : Result TemplateError (List Expression)) × (f tail ≡ some parsed))
    → (parsed : Result TemplateError (List Expression)) × (go_on_behind m f ≡ some parsed)
go_on_behind-ends (err e) f h = (err e, refl)
go_on_behind-ends (ok (expression, tail)) f h =
    let (parsed, ends) = h expression tail refl in prepended parsed (f tail) ends
  where
    prepended :
        (parsed : Result TemplateError (List Expression)) (ending : Ending)
        → ending ≡ some parsed
        → (parsed' : Result TemplateError (List Expression)) × (prepend expression ending
            ≡ some parsed')
    prepended parsed none ends = absurd (cc ends)
    prepended parsed (some (err e)) ends = (err e, refl)
    prepended parsed (some (ok expressions)) ends = (ok (expression ∷ expressions), refl)

behind-shorter :
    (source rest head after : Text) {expression : Expression} {tail : Text}
    → find_pair brace rest ≡ some (head, after)
    → expression_at source after ≡ ok (expression, tail)
    → (n : ℕ) → length rest < suc n
    → length tail < n
behind-shorter source rest head after found at n short =
    let (raw, behind, _) = expression_at-ok source after at in
    tail-shorter source rest head after found behind n short

parse_round-cong :
    (source rest : Text) (f g : Text → Ending) (m : Option (Text × Text))
    → find_pair brace rest ≡ m
    → ((tail : Text) → length tail < length rest → f tail ≡ g tail)
    → parse_round source rest f m ≡ parse_round source rest g m
parse_round-cong source rest f g none found h = refl
parse_round-cong source rest f g (some (head, after)) found h =
    go_on_behind-cong (expression_at source after) f g (λ expression tail at.
      h tail (behind-shorter source rest head after found at (length rest) (omega arith)))

parse_round-ends :
    (source rest : Text) (f : Text → Ending) (m : Option (Text × Text))
    → find_pair brace rest ≡ m
    → ((tail : Text)
        → length tail < length rest
        → (parsed : Result TemplateError (List Expression)) × (f tail ≡ some parsed))
    → (parsed : Result TemplateError (List Expression)) × (parse_round source rest f m
        ≡ some parsed)
parse_round-ends source rest f none found h = (no_end source (find_pair end_brace rest), refl)
parse_round-ends source rest f (some (head, after)) found h =
    go_on_behind-ends (expression_at source after) f (λ expression tail at.
      h tail (behind-shorter source rest head after found at (length rest) (omega arith)))

-- The rounds of the parser do not matter once there is one more than there are characters.
parse_from-enough :
    (r s : ℕ) (source rest : Text)
    → length rest < r
    → length rest < s
    → parse_from r source rest ≡ parse_from s source rest
unfolding parse_from
parse_from-enough zero s source rest h k = absurd (omega arith)
parse_from-enough (suc r) zero source rest h k = absurd (omega arith)
parse_from-enough (suc r) (suc s) source rest h k =
    parse_round-cong source rest (λ tail. parse_from r source tail)
      (λ tail. parse_from s source tail) (find_pair brace rest) refl
      (λ tail shorter. parse_from-enough r s source tail (omega arith) (omega arith))

pub parse_from-ends :
    (rounds : ℕ) (source rest : Text)
    → length rest < rounds
    → (parsed : Result TemplateError (List Expression)) × (parse_from rounds source rest
        ≡ some parsed)
unfolding parse_from
parse_from-ends zero source rest h = absurd (omega arith)
parse_from-ends (suc rounds) source rest h =
    parse_round-ends source rest (λ tail. parse_from rounds source tail) (find_pair brace rest) refl
      (λ tail shorter. parse_from-ends rounds source tail (omega arith))

pub ended-some :
    (source : Text) (ending : Ending) {parsed : Result TemplateError (List Expression)}
    → ending ≡ some parsed
    → ending ≡ some (ended source ending)
ended-some source none h = absurd (cc h)
ended-some source (some parsed) h = refl

-- The parser ends: with any number of rounds beyond the characters of a template without NUL, the
-- loop does not run out of them, and what it ends with, an error of the template or the
-- expressions, is what the parser answers.
pub parse_from-parse_expressions :
    (source : Text) (rounds : ℕ)
    → any (λ c. c == 0) source ≡ false
    → length source < rounds
    → parse_from rounds source source ≡ some (parse_expressions source)
unfolding parse_expressions
parse_from-parse_expressions source rounds clean more =
    let whole = suc (length source) in
    let (parsed, ends) = parse_from-ends whole source source (omega arith) in
    parse_from-enough rounds whole source source more (omega arith)
    ∙ ended-some source (parse_from whole source source) ends
    ∙ rw clean refl
