-- ===== src/Writer/PathTemplate/Sanitized.antt =====
-- What is sanitized adds no directory to a path.
use fixer.Common.{
  ℕ, ◌+◌, ◌≡◌, refl, sym, ◌∙◌, ap, Bool, false, ◌||◌, Bool-cases, inl, inr, List, [], ◌∷◌, ◌++◌,
  map, All, All-append, arith, ◌==◌, nat_eq, list_eq, filter, length,
}
use fixer.Std.Text.{Text, text, is_control, is_whitespace, split_whitespace, words_from, join}
use fixer.Std.Result.{ok, >>=-eq-ok, ok-injective}
use fixer.Writer.PathTemplate.{
  CaseTable, Expression, TemplateContext, replaced, is_reserved, sanitize_segment, apply_filter,
  apply_filters, value, brace, end_brace, expression_end, find_pair, render_from, render_source,
}

-- Fit for a name of a file on every system.
abbrev pub IsPlain : ℕ → Type 0
IsPlain c =
    (is_control c ≡ false)
    × ((c == b'/') ≡ false)
    × ((c == b'\\') ≡ false)
    × (is_reserved c ≡ false)

space-IsPlain : IsPlain b' '
space-IsPlain = (refl, refl, refl, refl)

replaced-IsPlain : (c : ℕ) → IsPlain (replaced c)
replaced-IsPlain c =
    elim (Bool-cases (is_control c || (c == b'/' || (c == b'\\' || is_reserved c)))) [
      | inl bad ↦ rw bad space-IsPlain
      | inr good ↦ rw good (plain (is_control c) (c == b'/') (c == b'\\') (is_reserved c) good)
    ]
  where
    plain :
        (a b d e : Bool)
        → (a || (b || (d || e))) ≡ false
        → (a ≡ false) × (b ≡ false) × (d ≡ false) × (e ≡ false)
    plain a b d e h = ground arith

map-replaced-IsPlain : (s : Text) → All IsPlain (map replaced s)
map-replaced-IsPlain [] = tt
map-replaced-IsPlain (c ∷ s) = (replaced-IsPlain c, map-replaced-IsPlain s)

module _ (P : ℕ → Type 0) where
  words_from-All : (w s : Text) → All P w → All P s → All (All P) (words_from w s)
  unfolding words_from
  words_from-All [] [] h k = tt
  words_from-All (d ∷ w) [] h k = (h, tt)
  words_from-All [] (c ∷ s) h k = elim (Bool-cases (is_whitespace c)) [
    | inl space ↦ rw space (words_from-All [] s tt k.1)
    | inr letter ↦ rw letter (words_from-All (c ∷ []) s (k.0, tt) k.1)
  ]
  words_from-All (d ∷ w) (c ∷ s) h k = elim (Bool-cases (is_whitespace c)) [
    | inl space ↦ rw space (h, words_from-All [] s tt k.1)
    | inr letter ↦
        rw letter
          (words_from-All (d ∷ w ++ c ∷ []) s (All-append P (d ∷ w) (c ∷ []) h (k.0, tt)) k.1)
  ]

  join-All : (sep : Text) (ws : List Text) → All P sep → All (All P) ws → All P (join sep ws)
  unfolding join
  join-All sep [] h k = tt
  join-All sep (w ∷ []) h k = k.0
  join-All sep (w ∷ v ∷ ws) h k =
      All-append P w (sep ++ join sep (v ∷ ws)) k.0
        (All-append P sep (join sep (v ∷ ws)) h (join-All sep (v ∷ ws) h k.1))

-- A sanitized value has no separator, no control character and none that a file system reserves.
pub sanitize_segment-IsPlain : (value : Text) → All IsPlain (sanitize_segment value)
unfolding sanitize_segment split_whitespace
sanitize_segment-IsPlain value =
    join-All IsPlain (text " ") (words_from [] (map replaced value)) (space-IsPlain, tt)
      (words_from-All IsPlain [] (map replaced value) tt (map-replaced-IsPlain value))

-- The number of separators of a path.
abbrev pub depth : Text → ℕ
depth path = length (filter (λ c. c == b'/') path)

depth-append : (s t : Text) → depth (s ++ t) ≡ depth s + depth t
depth-append [] t = omega arith
depth-append (c ∷ s) t = ground (arith, depth-append s t)

plain-depth : (s : Text) → All IsPlain s → depth s ≡ 0
plain-depth [] h = refl
plain-depth (c ∷ s) ((control, slash, back, reserved), rest) = rw slash (plain-depth s rest)

-- The last filter is `sanitize`.
abbrev pub EndsSanitized : List Text → Type 0
EndsSanitized [] = ⊥
EndsSanitized (filter ∷ []) = filter ≡ text "sanitize"
EndsSanitized (filter ∷ next ∷ filters) = EndsSanitized (next ∷ filters)

apply_filters-depth :
    (table : CaseTable) (filters : List Text) (value : Text) {filtered : Text}
    → EndsSanitized filters
    → apply_filters table filters value ≡ ok filtered
    → depth filtered ≡ 0
unfolding apply_filters
apply_filters-depth table [] value ends h = absurd ends
apply_filters-depth table (filter ∷ []) value {filtered} ends h =
    let e : filtered ≡ sanitize_segment value = ground arith in
    rw e (plain-depth (sanitize_segment value) (sanitize_segment-IsPlain value))
apply_filters-depth table (filter ∷ next ∷ filters) value ends h =
    let (value', first, rest) =
      >>=-eq-ok (apply_filter table filter value) (apply_filters table (next ∷ filters)) h in
    apply_filters-depth table (next ∷ filters) value' ends rest

-- Every expression of a template ends in `sanitize`.
abbrev pub AreSanitized : List Expression → Type 0
AreSanitized expressions = All (λ expression. EndsSanitized expression.filters) expressions

-- What a round that renders an expression found and put out.
record Round (table : CaseTable) (source rest : Text) (expression : Expression)
    (expressions : List Expression) (context : TemplateContext) (path : Text) : Type 0 where
  parts : Text × Text
  pieces : Text × Text
  plain : Text
  filtered : Text
  rendered : Text
  found : expression_end source (find_pair brace rest) ≡ ok parts
  ended : expression_end source (find_pair end_brace (parts.1)) ≡ ok pieces
  replaced_by : apply_filters table expression.filters plain ≡ ok filtered
  went_on : render_from table source (pieces.1) expressions context ≡ ok rendered
  same : path ≡ parts.0 ++ (filtered ++ rendered)

render_from-Round :
    (table : CaseTable) (source rest : Text) (expression : Expression)
    (expressions : List Expression) (context : TemplateContext) {path : Text}
    → render_from table source rest (expression ∷ expressions) context ≡ ok path
    → Round table source rest expression expressions context path
unfolding render_from
render_from-Round table source rest expression expressions context {path} h =
    let ((head, after), found, h1) = >>=-eq-ok (expression_end source (find_pair brace rest)) _ h in
    let ((raw, tail), ended, h2) =
      >>=-eq-ok (expression_end source (find_pair end_brace after)) _ h1 in
    let (plain, given, h3) = >>=-eq-ok (value context expression.variable) _ h2 in
    let (filtered, replaced_by, h4) =
      >>=-eq-ok (apply_filters table expression.filters plain) _ h3 in
    let (rendered, went_on, last) =
      >>=-eq-ok (render_from table source tail expressions context) _ h4 in
    record {
      parts = (head, after);
      pieces = (raw, tail);
      plain = plain;
      filtered = filtered;
      rendered = rendered;
      found = found;
      ended = ended;
      replaced_by = replaced_by;
      went_on = went_on;
      same = ok-injective (sym last);
    }

Round-depth :
    (table : CaseTable) (source rest : Text) (expression : Expression)
    (expressions : List Expression) (context : TemplateContext) {path : Text}
    → EndsSanitized expression.filters
    → (round : Round table source rest expression expressions context path)
    → depth path ≡ depth (round.parts.0) + depth (round.rendered)
Round-depth table source rest expression expressions context {path} ends round =
    let flat =
      apply_filters-depth table expression.filters (round.plain) ends (round.replaced_by) in
    let none_more : 0 + depth (round.rendered) ≡ depth (round.rendered) = omega arith in
    let inner = depth-append (round.filtered) (round.rendered) in
    ap depth (round.same)
    ∙ depth-append (round.parts.0) (round.filtered ++ round.rendered)
    ∙ ap (λ n. depth (round.parts.0) + n)
        (inner ∙ (ap (λ n. n + depth (round.rendered)) flat ∙ none_more))

render_from-depth :
    (table : CaseTable) (source rest : Text) (expressions : List Expression)
    (context context' : TemplateContext) {path path' : Text}
    → AreSanitized expressions
    → render_from table source rest expressions context ≡ ok path
    → render_from table source rest expressions context' ≡ ok path'
    → depth path ≡ depth path'
unfolding render_from
render_from-depth table source rest [] context context' ends h k =
    ap depth (ok-injective (sym h ∙ k))
render_from-depth table source rest (expression ∷ expressions) context context' (ends, more) h k =
    let a = render_from-Round table source rest expression expressions context h in
    let b = render_from-Round table source rest expression expressions context' k in
    let same_parts : a.parts ≡ b.parts = ok-injective (sym (a.found) ∙ b.found) in
    let same_pieces : a.pieces ≡ b.pieces = ok-injective (
      sym (a.ended)
      ∙ ap (λ parts. expression_end source (find_pair end_brace (parts.1))) same_parts
      ∙ b.ended) in
    let deeper =
      render_from-depth table source (a.pieces.1) expressions context context' more (a.went_on) (
        ap (λ pieces. render_from table source (pieces.1) expressions context') same_pieces
        ∙ b.went_on) in
    let same_head = ap (λ parts. depth (parts.0)) same_parts in
    let one = Round-depth table source rest expression expressions context ends a in
    let two = Round-depth table source rest expression expressions context' ends b in
    one
    ∙ (ap (λ n. n + depth (a.rendered)) same_head ∙ ap (λ n. depth (b.parts.0) + n) deeper)
    ∙ sym two

-- If every expression of a template ends in `sanitize`, all that it renders to has the same number
-- of separators, whatever the values are: a value adds no directory.
pub render_source-depth :
    (table : CaseTable) (source : Text) (expressions : List Expression)
    (context context' : TemplateContext) {path path' : Text}
    → AreSanitized expressions
    → render_source table source expressions context ≡ ok path
    → render_source table source expressions context' ≡ ok path'
    → depth path ≡ depth path'
unfolding render_source
render_source-depth table source expressions context context' ends h k =
    render_from-depth table source source expressions context context' ends h k
