-- ===== src/Tests/Writer.antt =====
-- Templates that are parsed and rendered, and instances of the theorems of Writer.
use fixer.Common.{some, ◌≡◌, refl, [], ◌∷◌, arith}
use fixer.Std.Text.{Text, text, split, split_whitespace, words_from, join}
use fixer.Std.Path.{components}
use fixer.Std.Result.{ok, err}
use fixer.Core.Output.{safe_target}
use fixer.Sdk.Targets.{validate_relative_target}
use fixer.Writer.PathTemplate.{
  CaseTable, TemplateContext, PathTemplate, invalid_syntax, unsupported_filter, unsafe_path, value,
  find_pair, sanitize_segment, apply_filters, parse_expression, parse_from, parse_expressions,
  new_template, render_from, render_source, render, ends_badly, validate_relative_path,
}
use fixer.Writer.PathTemplate.Parsed.{parse_from-parse_expressions}
use fixer.Writer.PathTemplate.Safe.{render-safe_target}
use fixer.Writer.PathTemplate.Sanitized.{depth, render_source-depth}

abbrev unchanged_case : CaseTable
unchanged_case = record { lower = λ t. t; upper = λ t. t }

abbrev pattern_text : Text
pattern_text = text "{{ title | sanitize }}/{{id|lower|sanitize}}.mkv"

abbrev film : TemplateContext
film = record { values = (text "title", text "A/B: C") ∷ (text "id", text "tt1") ∷ [] }

abbrev other_film : TemplateContext
other_film = record { values = (text "title", text "D") ∷ (text "id", text "a/b/c") ∷ [] }

abbrev film_template : PathTemplate
film_template = record {
  source = pattern_text;
  expressions =
      record { variable = text "title"; filters = text "sanitize" ∷ [] }
      ∷ record { variable = text "id"; filters = text "lower" ∷ text "sanitize" ∷ [] }
      ∷ [];
}

film_template_lem : new_template pattern_text ≡ ok film_template
unfolding new_template parse_expressions parse_from find_pair parse_expression split
film_template_lem = refl

unknown_filter : new_template (text "{{title|reverse}}") ≡ err (unsupported_filter (text "reverse"))
unfolding new_template parse_expressions parse_from find_pair parse_expression split
unknown_filter = refl

open_braces : new_template (text "a{{title") ≡ err (invalid_syntax (text "a{{title"))
unfolding new_template parse_expressions parse_from find_pair
open_braces = refl

film_path : render unchanged_case film_template film ≡ ok (text "A B C/tt1.mkv")
unfolding render render_source render_from value find_pair apply_filters sanitize_segment
    split_whitespace words_from join validate_relative_path components split ends_badly
film_path = refl

climbing :
    render unchanged_case (record { source = text "a/../b"; expressions = [] }) film
    ≡ err (unsafe_path (text "a/../b"))
unfolding render render_source render_from validate_relative_path components split
climbing = refl

film_rendered :
    render_source unchanged_case pattern_text film_template.expressions film
    ≡ ok (text "A B C/tt1.mkv")
unfolding render_source render_from value find_pair apply_filters sanitize_segment split_whitespace
    words_from join
film_rendered = refl

other_rendered :
    render_source unchanged_case pattern_text film_template.expressions other_film
    ≡ ok (text "D/a b c.mkv")
unfolding render_source render_from value find_pair apply_filters sanitize_segment split_whitespace
    words_from join
other_rendered = refl

film_value : value film (text "title") ≡ ok (text "A/B: C")
unfolding value
film_value = refl

film_id : value film (text "id") ≡ ok (text "tt1")
unfolding value
film_id = refl

render-safe_target_example :
    (safe_target (text "A B C/tt1.mkv") ≡ ok (text "A B C/tt1.mkv"))
    × (validate_relative_target (text "A B C/tt1.mkv") ≡ ok tt)
render-safe_target_example = render-safe_target unchanged_case film_template film film_path

render_source-depth_example : depth (text "A B C/tt1.mkv") ≡ depth (text "D/a b c.mkv")
render_source-depth_example =
    render_source-depth unchanged_case pattern_text film_template.expressions film other_film
      (refl, (refl, tt)) film_rendered other_rendered

parse_from-parse_expressions_example :
    parse_from 60 pattern_text pattern_text ≡ some (parse_expressions pattern_text)
parse_from-parse_expressions_example =
    parse_from-parse_expressions pattern_text 60 refl (omega arith)
