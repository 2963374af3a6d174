-- ===== src/Tests/Merging.antt =====
-- The provider precedence and the merge helpers of crates/fixer-core at small sizes, and instances
-- of their theorems.
use fixer.Common.{
  String, ◌<◌, ◌≡◌, refl, true, none, some, List, [], ◌∷◌, arith, nat_eq, list_eq, contains, length,
}
use fixer.Std.Text.{Text, text, split, push_first}
use fixer.Std.Result.{ok}
use fixer.Core.Error.{movie, media_kind_eq}
use fixer.Core.Identity.{ProviderId, provider_eq}
use fixer.Core.Merge.Policy.{
  FieldPath, field_path_eq, is_field_path, new_field_path, MergePolicy, order_for, provider_rank,
  usize_max,
}
use fixer.Core.Merge.Provenance.{SourceRef}
use fixer.Core.Merge.Unique.{Sourced}
use fixer.Core.Locale.{LanguageTag, LocalizedValue, tagged, untagged, TagParser, parse_tag}
use fixer.Core.Merge.Localized.Fields.{AreParsed}
use fixer.Core.Merge.Policy.{position}
use fixer.Core.Merge.Unique.{ordered_documents}
use fixer.Std.Sort.{sort_by, insert}
use fixer.Std.Text.{to_ascii_lowercase, ascii_lower}

abbrev provider : String → ProviderId
provider s = record { as_str = text s }

abbrev order : List ProviderId
order = provider "tmdb" ∷ provider "local" ∷ provider "tmdb" ∷ []

abbrev policy : MergePolicy
policy = record {
  global_order = provider "tmdb" ∷ provider "local" ∷ [];
  media_order = [];
  field_order = [];
}

abbrev titles : FieldPath
titles = record { as_str = text "movie.titles" }

short : length (order_for policy movie titles) < usize_max
unfolding order_for
short = omega arith

names_local : contains (order_for policy movie titles) (provider "local") ≡ true
unfolding order_for
names_local = refl

abbrev source : String → SourceRef
source s = record {
  provider = provider s;
  external_id = none;
  locale = none;
  observed_at_unix_ms = 0;
}

genres_path : is_field_path (text "movie.genres") ≡ true
unfolding split push_first
genres_path = refl

abbrev documents : List (Sourced (List Text))
documents =
    record { value = text "drama" ∷ text "crime" ∷ []; source = source "tmdb" }
    ∷ record { value = text "crime" ∷ text "noir" ∷ []; source = source "local" }
    ∷ []

abbrev same_text : Text → Text
same_text value = value

abbrev values : List Text → List Text
values value = value

abbrev language : String → LanguageTag
language s = record { original = text s; normalized = text s; primary_language = text s }

-- A parser that accepts every text.
abbrev parser : TagParser
parser input = some (input, input)

abbrev localized : List (Sourced (LocalizedValue Text))
localized =
    record {
      value = record {
        entries = tagged (language "en") (text "Heat") ∷ untagged (text "Heat") ∷ [];
      };
      source = source "tmdb";
    }
    ∷ record {
      value = record {
        entries =
            tagged (language "en") (text "The Heat") ∷ tagged (language "de") (text "Heat") ∷ [];
      };
      source = source "local";
    }
    ∷ []

abbrev same_value : LocalizedValue Text → LocalizedValue Text
same_value value = value

titles_path : is_field_path (text "movie.titles") ≡ true
unfolding split push_first
titles_path = refl

orders : ordered_documents policy movie (text "movie.titles") localized ≡ ok localized
unfolding ordered_documents new_field_path split push_first sort_by insert provider_rank order_for
    position
orders = refl

parsed : AreParsed to_ascii_lowercase parser (text "movie.titles") same_value localized
unfolding parse_tag to_ascii_lowercase ascii_lower
parsed = ((refl, (tt, tt)), ((refl, (refl, tt)), tt))
