-- ===== src/Tests/Metadata.antt =====
-- The selection of localized values, the matcher and the merge helpers of crates/fixer-core at
-- small sizes, and instances of their theorems. Text is lowered for ASCII only, and the tag parser
-- accepts every text and takes what stands before the first hyphen as the primary language.
use fixer.Common.{ℕ, String, ◌≡◌, refl, true, none, some, List, [], ◌∷◌, nat_eq, list_eq}
use fixer.Std.Text.{text, split_whitespace, words_from, join, to_ascii_lowercase, ascii_lower}
use fixer.Std.Sort.{sort_by, insert, IsFirstBest}
use fixer.Std.Result.{ok}
use fixer.Core.Error.{movie, media_kind_eq}
use fixer.Core.Identity.{provider_eq, external_id_eq}
use fixer.Core.Locale.{
  LanguageTag, tagged, untagged, LocalizedValue, LocalePolicy, parent_normalized_tags, parents_from,
  rsplit_once, exact, select, empty_value,
}
use fixer.Core.Matching.{
  MatchQuery, Candidate, rank, select_candidate, with_keys, match_key, key_of, match_class,
  exact_title, normalize, key_lt,
}
use fixer.Core.Matching.Rank.{is_worse}
use fixer.Core.Matching.Order.{select_candidate-IsFirstBest}

abbrev tag : String → LanguageTag
tag s = record { original = text s; normalized = text s; primary_language = text "zh" }

parents_of : parent_normalized_tags (tag "zh-hant-tw") ≡ text "zh-hant" ∷ text "zh" ∷ []
unfolding parent_normalized_tags parents_from rsplit_once
parents_of = refl

abbrev titles : LocalizedValue ℕ
titles = record { entries = untagged 0 ∷ tagged (tag "en") 1 ∷ tagged (tag "zh") 2 ∷ [] }

abbrev policy : LocalePolicy
policy = record {
  preferred = tag "ja" ∷ tag "zh-hant" ∷ [];
  parent_language_fallback = true;
  undefined_language_fallback = true;
  untagged_fallback = true;
}

selects_parent : select policy titles ≡ some 2
unfolding select parent_normalized_tags parents_from rsplit_once exact
selects_parent = refl

abbrev query : MatchQuery
query = record {
  media_kind = movie;
  title = text "The  Matrix";
  localized_titles = empty_value;
  aliases = [];
  external_ids = record { namespace = text "tmdb"; value = text "603" } ∷ [];
  year = some 1999;
  sequence = none;
}

abbrev candidate : String → String → ℕ → Candidate
candidate id title year = record {
  media_kind = movie;
  provider = record { as_str = text "tmdb" };
  external_id = record { namespace = text "tmdb"; value = text id };
  title = text title;
  year = some year;
  sequence = none;
}

abbrev sequel : Candidate
sequel = candidate "604" "The Matrix Reloaded" 2003

abbrev namesake : Candidate
namesake = candidate "1" "the matrix" 1999

abbrev original : Candidate
original = candidate "603" "Matrix" 1999

abbrev candidates : List Candidate
candidates = sequel ∷ namesake ∷ original ∷ []

abbrev ranked : List Candidate
ranked = original ∷ namesake ∷ sequel ∷ []

ranks : rank to_ascii_lowercase query candidates ≡ ok ranked
unfolding rank with_keys match_key key_of match_class exact_title normalize key_lt
    to_ascii_lowercase ascii_lower split_whitespace words_from join sort_by insert
ranks = refl

selects : select_candidate to_ascii_lowercase query candidates ≡ ok ranked
unfolding select_candidate
selects = rw ranks refl

select_candidate-IsFirstBest_example :
    IsFirstBest (is_worse to_ascii_lowercase query) original candidates
select_candidate-IsFirstBest_example =
    select_candidate-IsFirstBest to_ascii_lowercase query candidates selects refl
