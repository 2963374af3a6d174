-- ===== src/Tests/Movies.antt =====
-- Two movie documents of two providers that are merged, shown and named, and instances of the
-- theorems of Core/Merge/Movie, Jobs/Artifacts and Writer/PathTemplate/Projected.
use mathlib.Core.List.{Sublist}
use mathlib.Core.List.Permᴰ
use fixer.Common.{
  ℕ, String, ◌≡◌, refl, false, none, some, List, [], ◌∷◌, ◌++◌, arith, ◌==◌, nat_eq, list_eq,
  length, ltb, IsDistinct, All, ◌⊎◌,
}
use fixer.Std.Text.{
  Text, text, split, push_first, to_ascii_lowercase, ascii_lower, split_whitespace, words_from,
  join,
}
use fixer.Std.Decimal.{to_decimal, digits}
use fixer.Std.Sort.{sort_by, insert}
use fixer.Std.Sort.Reordered.{IsDecided}
use fixer.Std.Result.{ok, err}
use fixer.Core.Error.{movie, CoreError, media_kind_eq}
use fixer.Core.Identity.{ProviderId, provider_eq}
use fixer.Core.Locale.{LanguageTag, tagged, TagParser, parse_tag, insert_tagged, insert_untagged}
use fixer.Core.Matching.{normalize}
use fixer.Core.Media.Parts.{Credit, actor}
use fixer.Core.Media.Movie.{Movie}
use fixer.Core.Merge.Policy.{MergePolicy, order_for, provider_rank, position, new_field_path}
use fixer.Core.Merge.Provenance.{SourceRef, ProvenanceMap, sources_for, add_source}
use fixer.Core.Merge.Unique.{
  Sourced, source_rank, ordered_documents, merge_unique, keep, keep_values, keep_documents,
}
use fixer.Core.Merge.Localized.{
  merge_localized, merge_languages, merge_entries, merge_entry, insert_new, insert_entry,
  compare_entry,
}
use fixer.Core.Merge.Movie.{
  Resolved, Documents, merge_movies, merge_fields, merge_field, merge_credits, keep_credit,
  keep_credits, keep_all_credits, completeness, warnings_of,
}
use fixer.Core.Merge.Movie.{credit_id, credit_identity}
use fixer.Core.Merge.Kept.{values_of, keys_of, sources_of, all_values}
use fixer.Core.Merge.Movie.People.{Covered}
use fixer.Core.Merge.Movie.Credits.{merge_credits-kept}
use fixer.Core.Matching.{Candidate}
use fixer.Core.Output.{OutputPlan, create_directory, write_bytes}
use fixer.Core.Locale.{new_policy, select, exact}
use fixer.Core.Media.Movie.{release_year}
use fixer.Jobs.Artifacts.{
  CandidateArtifact, candidates, max_candidates, max_warnings, max_conflicts, max_operations,
  WarningArtifact, PlanArtifacts, diagnostics, plan_artifacts,
}
use fixer.Jobs.Artifacts.Cut.{cut, AllFrom}
use fixer.Jobs.Artifacts.Bounds.{
  IsBoundedCandidate, candidates-IsBounded, IsShort, IsBoundedConflict, IsBoundedOperation,
  diagnostics-IsBounded, plan_artifacts-IsBounded,
}
use fixer.Jobs.Artifacts.Unsourced.{HasNoSources, diagnostics-HasNoSources}
use fixer.Writer.PathTemplate.{
  CaseTable, PathTemplate, new_template, parse_expressions, parse_from, parse_expression, find_pair,
  render_source, render, unsafe_path,
}
use fixer.Writer.PathTemplate.Projected.{movie_context, projected, movie_context-render}
use fixer.Core.Merge.Movie.Fields.{by_rank, IsMerged, IsRead}
use fixer.Core.Merge.Movie.Total.{merge_movies-IsMerged}
use fixer.Core.Merge.Movie.Order.{base_path, merge_movies-reordered}

abbrev provider : String → ProviderId
provider s = record { as_str = text s }

abbrev policy : MergePolicy
policy = record {
  global_order = provider "tmdb" ∷ provider "local" ∷ [];
  media_order = [];
  field_order = [];
}

abbrev source : String → SourceRef
source s = record {
  provider = provider s;
  external_id = none;
  locale = none;
  observed_at_unix_ms = 0;
}

abbrev language : String → LanguageTag
language s = record { original = text s; normalized = text s; primary_language = text s }

-- A parser that accepts every text.
abbrev parser : TagParser
parser input = some (input, input)

abbrev plays : String → String → Credit
plays id name = record {
  person = record { id = record { as_str = text id }; name = text name };
  role = actor;
  character = none;
}

abbrev film : String → String → List Credit → Movie ℕ
film id title credits = record {
  id = record { as_str = text id };
  titles = record { entries = tagged (language "en") (text title) ∷ [] };
  summaries = record { entries = [] };
  releases = [];
  credits = credits;
  genres = [];
  artwork = [];
  ratings = [];
  content_ratings = [];
}

abbrev remote : Sourced (Movie ℕ)
remote = record {
  value = film "tmdb-949" "Heat" (plays "p1" "Al Pacino" ∷ []);
  source = source "tmdb";
}

abbrev local : Sourced (Movie ℕ)
local = record {
  value =
      film "file-1" "The Heat"
        (plays "l7" "AL  PACINO" ∷ plays "p1" "A. Pacino" ∷ plays "l8" "Val Kilmer" ∷ []);
  source = source "local";
}

-- The identity of the preferred provider, its title and its spelling of a name; one conflict.
abbrev result : Resolved (Movie ℕ)
result = record {
  value = film "tmdb-949" "Heat" (plays "p1" "Al Pacino" ∷ plays "l8" "Val Kilmer" ∷ []);
  provenance =
      (text "movie.titles", source "tmdb" ∷ [])
      ∷ (text "movie.credits", source "tmdb" ∷ source "local" ∷ [])
      ∷ [];
  conflicts =
      record {
        field_path = text "movie.titles.en";
        providers = provider "tmdb" ∷ provider "local" ∷ [];
        message = text "providers supplied different localized values";
      }
      ∷ [];
  present = 2;
  warnings =
      record { code = text "incomplete_metadata"; message = text "movie metadata is 33% complete" }
      ∷ [];
}

merged : merge_movies to_ascii_lowercase parser policy (local ∷ remote ∷ []) ≡ ok result
unfolding merge_movies merge_fields merge_field merge_credits keep_credit keep_credits
    keep_all_credits completeness warnings_of merge_localized merge_languages merge_entries
    merge_entry insert_new insert_entry compare_entry ordered_documents merge_unique keep
    keep_values keep_documents new_field_path split push_first sort_by insert provider_rank
    order_for position add_source sources_for insert_tagged insert_untagged parse_tag normalize
    to_ascii_lowercase ascii_lower split_whitespace words_from join to_decimal digits
merged = refl

decided : IsDecided (source_rank policy movie base_path) (local ∷ remote ∷ [])
unfolding provider_rank order_for position
decided = ((λ e. absurd (omega (arith, e)), tt), (tt, tt))

merge_movies-reordered_example :
    merge_movies to_ascii_lowercase parser policy (local ∷ remote ∷ [])
    ≡ merge_movies to_ascii_lowercase parser policy (remote ∷ local ∷ [])
merge_movies-reordered_example =
    merge_movies-reordered to_ascii_lowercase parser policy (local ∷ remote ∷ [])
      (remote ∷ local ∷ []) (Permᴰ.swap refl refl) decided

abbrev credits_of : Movie ℕ → List Credit
credits_of value = value.credits

merge_credits-kept_example :
    (kept : List (Credit × SourceRef)) × (after : ProvenanceMap) × (merge_credits to_ascii_lowercase
        credits_of
        (remote ∷ local ∷ [])
        []
      ≡ ok (values_of credit_id kept, after))
    × Sublist kept (all_values credit_id credits_of (remote ∷ local ∷ []))
    × IsDistinct (keys_of credit_id kept)
    × IsDistinct (keys_of (credit_identity to_ascii_lowercase) kept)
    × All
        (Covered to_ascii_lowercase [] [] kept)
        (all_values credit_id credits_of (remote ∷ local ∷ []))
    × (sources_for (text "movie.credits") after
        ≡ sources_for (text "movie.credits") [] ++ sources_of credit_id kept)
    × ((other : Text)
        → (text "movie.credits" == other) ≡ false
        → sources_for other after ≡ sources_for other [])
merge_credits-kept_example =
    merge_credits-kept to_ascii_lowercase credits_of (remote ∷ local ∷ []) []

diagnostics-HasNoSources_example : All HasNoSources (diagnostics result).conflicts
diagnostics-HasNoSources_example =
    diagnostics-HasNoSources to_ascii_lowercase parser policy (local ∷ remote ∷ []) result merged

diagnostics-IsBounded_example :
    (length (diagnostics result).warnings ≡ cut max_warnings result.warnings)
    × ((diagnostics result).warnings_truncated ≡ ltb max_warnings (length result.warnings))
    × All
        (λ (view : WarningArtifact). IsShort view.code × IsShort view.message)
        (diagnostics result).warnings
    × (length (diagnostics result).conflicts ≡ cut max_conflicts result.conflicts)
    × ((diagnostics result).conflicts_truncated ≡ ltb max_conflicts (length result.conflicts))
    × AllFrom IsBoundedConflict 0 (diagnostics result).conflicts
diagnostics-IsBounded_example = diagnostics-IsBounded result

abbrev candidate : String → String → Candidate
candidate id title = record {
  media_kind = movie;
  provider = provider "tmdb";
  external_id = record { namespace = text "tmdb"; value = text id };
  title = text title;
  year = some 1995;
  sequence = none;
}

abbrev found : List Candidate
found = candidate "949" "Heat" ∷ candidate "950" "The Heat" ∷ []

abbrev plan : OutputPlan
plan = record {
  output_root = text "/media";
  operations =
      create_directory (text "Heat")
      ∷ write_bytes (text "Heat/movie.nfo") (record { bytes = 60 ∷ 62 ∷ [] })
      ∷ [];
}

plan_artifacts-IsBounded_example :
    (view : PlanArtifacts) × (plan_artifacts plan ≡ ok view)
    × (view.operations_truncated ≡ ltb max_operations (length plan.operations))
    × (length view.operations ≡ cut max_operations plan.operations)
    × IsShort view.output_root
    × AllFrom IsBoundedOperation 0 view.operations
plan_artifacts-IsBounded_example = plan_artifacts-IsBounded plan (tt, (omega arith, tt))

abbrev nameless : CoreError → Text
nameless e = []

abbrev pattern_text : Text
pattern_text = text "{{title}}/{{id}}"

abbrev template : PathTemplate
template = record {
  source = pattern_text;
  expressions =
      record { variable = text "title"; filters = [] }
      ∷ record { variable = text "id"; filters = [] }
      ∷ [];
}

abbrev unchanged_case : CaseTable
unchanged_case = record { lower = λ t. t; upper = λ t. t }

template_lem : new_template pattern_text ≡ ok template
unfolding new_template parse_expressions parse_from parse_expression find_pair split
template_lem = refl

context_lem :
    movie_context nameless parser result (text "en" ∷ [])
    ≡ ok (projected result.value (text "Heat"))
unfolding movie_context new_policy select parse_tag exact release_year to_ascii_lowercase
context_lem = refl

movie_context-render_example :
    (path : Text) × (render_source unchanged_case pattern_text template.expressions
        (projected result.value (text "Heat"))
      ≡ ok path)
    × ((render unchanged_case template (projected result.value (text "Heat")) ≡ ok path)
        ⊎ (render unchanged_case template (projected result.value (text "Heat"))
            ≡ err (unsafe_path path)))
movie_context-render_example =
    movie_context-render unchanged_case nameless parser result (text "en" ∷ []) pattern_text
      template (projected result.value (text "Heat")) context_lem template_lem (refl, (refl, tt))

read : All (IsRead parser) (local ∷ remote ∷ [])
unfolding parse_tag to_ascii_lowercase ascii_lower
read = (((refl, tt), tt), (((refl, tt), tt), tt))

merge_movies-IsMerged_example :
    (first : Sourced (Movie ℕ)) × (rest : Documents ℕ) × (by_rank policy
        (text "movie")
        (local ∷ remote ∷ [])
      ≡ first ∷ rest)
    × (resolved : Resolved (Movie ℕ)) × (merge_movies to_ascii_lowercase parser policy
          (local ∷ remote ∷ [])
        ≡ ok resolved)
    × IsMerged to_ascii_lowercase policy first.value (first ∷ rest) resolved.value
merge_movies-IsMerged_example =
    merge_movies-IsMerged to_ascii_lowercase parser policy (local ∷ remote ∷ []) refl read

candidates-IsBounded_example :
    (views : List CandidateArtifact) × (candidates found
      ≡ ok (views, ltb max_candidates (length found)))
    × (length views ≡ cut max_candidates found)
    × AllFrom IsBoundedCandidate 0 views
candidates-IsBounded_example = candidates-IsBounded found
