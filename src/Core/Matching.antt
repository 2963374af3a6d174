-- ===== src/Core/Matching.antt =====
-- crates/fixer-core/src/matching/mod.rs: deterministic candidate matching. The Unicode table of
-- str::to_lowercase is a parameter.
pub mod Rank
pub mod Order
use fixer.Common.{
  ℕ, ◌≡◌, Bool, true, false, not, ◌&&◌, ◌||◌, Option, none, some, List, [], ◌∷◌, ◌++◌, ltb, ◌==◌,
  nat_eq, list_eq, option_eq, if◌then◌else◌, any, contains, is_empty, String,
}
use fixer.Std.Text.{Text, text, split_whitespace, join, is_blank, is_control}
use fixer.Std.Sort.{sort_by}
use fixer.Std.Result.{Result, ok, err, ◌>>=◌, ◌>>◌, ensure}
use fixer.Core.Error.{CoreError, MediaKind, media_kind_eq, invalid_domain_value}
use fixer.Core.Identity.{ProviderId, ExternalId, external_id_eq}
use fixer.Core.Locale.{
  LocalizedValue, LocalizedEntry, TagParser, value_of, insert_tagged, empty_value,
}

pub record MatchQuery : Type 0 where
  pub media_kind : MediaKind
  pub title : Text
  pub localized_titles : LocalizedValue Text
  pub aliases : List Text
  pub external_ids : List ExternalId
  pub year : Option ℕ
  pub sequence : Option Text

-- The five candidate types have the same fields; the constructor of the source is `media_kind`.
pub record Candidate : Type 0 where
  pub media_kind : MediaKind
  pub provider : ProviderId
  pub external_id : ExternalId
  pub title : Text
  pub year : Option ℕ
  pub sequence : Option Text

unfoldable pub validate_query_title : Text → Result CoreError (Unit {0})
unfolding is_blank
validate_query_title title =
    if is_blank title || any is_control title
    then err (invalid_domain_value "search.title" title)
    else ok tt

unfoldable pub new_candidate :
    MediaKind → ProviderId → ExternalId → Text → Option ℕ → Result CoreError Candidate
unfolding validate_query_title
new_candidate media_kind provider external_id title year = do
  validate_query_title title
  ok (record {
    media_kind = media_kind;
    provider = provider;
    external_id = external_id;
    title = title;
    year = year;
    sequence = none;
  })

unfoldable pub with_candidate_sequence : Text → Candidate → Result CoreError Candidate
unfolding validate_query_title
with_candidate_sequence sequence candidate = do
  validate_query_title sequence
  ok (record candidate { sequence = some sequence })

unfoldable pub validate_text : String → Text → Result CoreError (Unit {0})
unfolding is_blank
validate_text field value =
    if is_blank value || any is_control value then err (invalid_domain_value field value) else ok tt

unfoldable pub new_query : MediaKind → Text → Result CoreError MatchQuery
unfolding validate_text
new_query media_kind title = do
  validate_text "match.title" title
  ok (record {
    media_kind = media_kind;
    title = title;
    localized_titles = empty_value;
    aliases = [];
    external_ids = [];
    year = none;
    sequence = none;
  })

unfoldable pub add_localized_title :
    TagParser → Text → Text → MatchQuery → Result CoreError MatchQuery
unfolding validate_text insert_tagged
add_localized_title parser language title query = do
  validate_text "match.localized_title" title
  titles ← insert_tagged parser language title query.localized_titles
  ok (record query { localized_titles = titles })

unfoldable pub with_alias : Text → MatchQuery → Result CoreError MatchQuery
unfolding validate_text
with_alias alias query = do
  validate_text "match.alias" alias
  ok (record query { aliases = query.aliases ++ alias ∷ [] })

unfoldable pub with_external_id : ExternalId → MatchQuery → MatchQuery
with_external_id external_id query =
    if contains query.external_ids external_id
    then query
    else record query { external_ids = query.external_ids ++ external_id ∷ [] }

unfoldable pub with_year : ℕ → MatchQuery → MatchQuery
with_year year query = record query { year = some year }

unfoldable pub with_sequence : Text → MatchQuery → Result CoreError MatchQuery
unfolding validate_text
with_sequence sequence query = do
  validate_text "match.sequence" sequence
  ok (record query { sequence = some sequence })

pub data MatchingError : Type 0 where
  media_kind_mismatch : MediaKind → MediaKind → MatchingError
  no_candidates : MatchingError

pub data MatchClass : Type 0 where
  provider_native exact_title_class exact_title_year exact_external_id : MatchClass

pub data SequenceClass : Type 0 where
  other same_sequence : SequenceClass

-- Option::is_some
abbrev is_some {ℓ} : {A : Type ℓ} → Option A → Bool
is_some none = false
is_some (some a) = true

-- The derived order is the order of the constructors.
abbrev pub class_order : MatchClass → ℕ
class_order provider_native = 0
class_order exact_title_class = 1
class_order exact_title_year = 2
class_order exact_external_id = 3

abbrev pub sequence_order : SequenceClass → ℕ
sequence_order other = 0
sequence_order same_sequence = 1

pub record MatchKey : Type 0 where
  pub class : MatchClass
  pub sequence : SequenceClass

-- The derived order compares the fields in turn.
unfoldable pub key_lt : MatchKey → MatchKey → Bool
key_lt left right =
    ltb (class_order left.class) (class_order right.class)
    || (class_order left.class == class_order right.class
        && ltb (sequence_order left.sequence) (sequence_order right.sequence))

module _ (to_lowercase : Text → Text) where
  unfoldable pub normalize : Text → Text
  normalize value = to_lowercase (join (text " ") (split_whitespace value))

  unfoldable pub exact_title : MatchQuery → Text → Bool
  exact_title query candidate_title =
      let candidate = normalize candidate_title in
      normalize query.title == candidate
      || any (λ entry. normalize (value_of entry) == candidate) query.localized_titles.entries
      || any (λ alias. normalize alias == candidate) query.aliases

  unfoldable pub match_class : MatchQuery → Candidate → MatchClass
  match_class query candidate =
      let exact_title = exact_title query candidate.title in
      if any (λ id. id == candidate.external_id) query.external_ids
      then exact_external_id
      else if exact_title && is_some query.year && query.year == candidate.year
      then exact_title_year
      else if exact_title
      then exact_title_class
      else provider_native

  abbrev sequence_class : Option Text → Option Text → SequenceClass
  sequence_class none actual = other
  sequence_class (some expected) none = other
  sequence_class (some expected) (some actual) =
      if normalize expected == normalize actual then same_sequence else other

  unfoldable pub key_of : MatchQuery → Candidate → MatchKey
  unfolding match_class
  key_of query candidate = record {
    class = match_class query candidate;
    sequence = sequence_class query.sequence candidate.sequence;
  }

  unfoldable pub match_key : MatchQuery → Candidate → Result MatchingError MatchKey
  unfolding key_of
  match_key query candidate = do
    ensure (query.media_kind == candidate.media_kind)
        (media_kind_mismatch query.media_kind candidate.media_kind)
    ok (key_of query candidate)

  -- The candidates with their keys, or the first error.
  unfoldable pub with_keys :
      MatchQuery → List Candidate → Result MatchingError (List (Candidate × MatchKey))
  unfolding match_key
  with_keys query [] = ok []
  with_keys query (candidate ∷ candidates) = do
    key ← match_key query candidate
    rest ← with_keys query candidates
    ok ((candidate, key) ∷ rest)

  -- `right.cmp(left)` is `Greater`: the greater key comes first.
  abbrev pub comes_after : Candidate × MatchKey → Candidate × MatchKey → Bool
  comes_after left right = key_lt left.1 right.1

  abbrev candidates_of : List (Candidate × MatchKey) → List Candidate
  candidates_of [] = []
  candidates_of (keyed ∷ rest) = keyed.0 ∷ candidates_of rest

  unfoldable pub rank : MatchQuery → List Candidate → Result MatchingError (List Candidate)
  rank query candidates = do
    keyed ← with_keys query candidates
    ok (candidates_of (sort_by comes_after keyed))

  -- The ordered candidates; `MatchSelection::selected` is the first one.
  unfoldable pub select_candidate :
      MatchQuery → List Candidate → Result MatchingError (List Candidate)
  select_candidate query candidates = do
    ranked ← rank query candidates
    ensure (not (is_empty ranked)) no_candidates
    ok ranked
