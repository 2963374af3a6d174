-- ===== src/Core/Merge/Movie.antt =====
-- crates/fixer-core/src/merge/mod.rs: the movie merger. The completeness is the number of the six
-- listed fields that are there.
pub mod Order
pub mod People
pub mod Credits
pub mod Fields
pub mod Unsourced
pub mod Total
use fixer.Common.{
  ℕ, ◌+◌, ◌*◌, ◌/◌, Bool, true, false, not, ◌||◌, ◌==◌, list_eq, nat_eq, Option, none, some, List,
  [], ◌∷◌, ◌++◌, contains, is_empty, filter, length, ltb, if◌then◌else◌,
}
use fixer.Std.Text.{Text, text}
use fixer.Std.Decimal.{to_decimal}
use fixer.Std.Sort.{sort_by_key}
use fixer.Std.Result.{Result, ok, err, ◌>>=◌, ◌>>◌, ensure, map_err}
use fixer.Core.Error.{CoreError, MediaKind, movie, media_kind_eq}
use fixer.Core.Locale.{TagParser, LocalizedValue}
use fixer.Core.Matching.{normalize}
use fixer.Core.Media.Parts.{
  Credit, Genre, ArtworkReference, Rating, ContentRating, role_debug, artwork_debug,
}
use fixer.Core.Media.Movie.{Movie, MovieRelease}
use fixer.Core.Merge.Policy.{MergePolicy, new_field_path}
use fixer.Core.Merge.Provenance.{SourceRef, ProvenanceMap, add_source}
use fixer.Core.Merge.Unique.{
  MergeError, invalid, no_documents, missing_source, unsupported_document, Sourced, source_rank,
  ordered_documents, merge_unique,
}
use fixer.Core.Merge.Localized.{MergeConflict, merge_localized}

pub record ResolutionWarning : Type 0 where
  pub code : Text
  pub message : Text

-- A resolved value and its diagnostics. The completeness is the number of listed fields present.
pub record Resolved (A : Type 0) : Type 0 where
  pub value : A
  pub provenance : ProvenanceMap
  pub conflicts : List MergeConflict
  pub present : ℕ
  pub warnings : List ResolutionWarning

-- The state of the loop over credits.
pub record CreditsKept : Type 0 where
  pub ids : List Text
  pub identities : List Text
  pub result : List Credit
  pub provenance : ProvenanceMap

abbrev pub credit_id : Credit → Text
credit_id credit = credit.person.id.as_str

module _ (to_lowercase : Text → Text) where
  abbrev pub credit_identity : Credit → Text
  credit_identity credit =
      normalize to_lowercase credit.person.name ++ b':' ∷ role_debug credit.role

  abbrev pub is_known : Credit → CreditsKept → Bool
  is_known credit state =
      contains state.ids (credit_id credit) || contains state.identities (credit_identity credit)

  unfoldable pub keep_credit : SourceRef → Credit → CreditsKept → Result MergeError CreditsKept
  keep_credit source credit state =
      if is_known credit state
      then ok state
      else (map_err invalid (add_source (text "movie.credits") source state.provenance)
          >>= λ provenance. ok (record {
            ids = credit_id credit ∷ state.ids;
            identities = credit_identity credit ∷ state.identities;
            result = state.result ++ credit ∷ [];
            provenance = provenance;
          }))

  unfoldable pub keep_credits :
      SourceRef → List Credit → CreditsKept → Result MergeError CreditsKept
  unfolding keep_credit
  keep_credits source [] state = ok state
  keep_credits source (credit ∷ credits) state = do
    state' ← keep_credit source credit state
    keep_credits source credits state'

  unfoldable pub keep_all_credits {ℓ} :
      {A : Type ℓ}
      → (A → List Credit)
      → List (Sourced A)
      → CreditsKept
      → Result MergeError CreditsKept
  unfolding keep_credits
  keep_all_credits credits [] state = ok state
  keep_all_credits credits (document ∷ documents) state = do
    state' ← keep_credits document.source (credits document.value) state
    keep_all_credits credits documents state'

  unfoldable pub merge_credits {ℓ} :
      {A : Type ℓ}
      → (A → List Credit)
      → List (Sourced A)
      → ProvenanceMap
      → Result MergeError (List Credit × ProvenanceMap)
  merge_credits credits documents provenance = do
    state ←
        keep_all_credits credits documents
          (record { ids = []; identities = []; result = []; provenance = provenance })
    ok (state.result, state.provenance)

  unfoldable pub artwork_key : ArtworkReference → Text
  artwork_key artwork = elim artwork.external_id [
    | none ↦
        text "identity:"
        ++ artwork_debug artwork.kind
        ++ b':' ∷ normalize to_lowercase artwork.location
    | some id ↦ text "id:" ++ id.namespace ++ b':' ∷ id.value
  ]

  abbrev pub rating_key : {F : Type 0} → Rating F → Text
  rating_key rating = normalize to_lowercase rating.system

  abbrev pub content_rating_key : ContentRating → Text
  content_rating_key rating =
      normalize to_lowercase rating.system ++ b':' ∷ normalize to_lowercase rating.value

  abbrev pub genre_key : Genre → Text
  genre_key genre = normalize to_lowercase genre.as_str

abbrev pub release_key : MovieRelease → Text
release_key release = release.id.as_str

unfoldable pub completeness : {F : Type 0} → Movie F → ℕ
completeness value = length (
    filter (λ (present : Bool). present)
      (not (is_empty value.titles.entries)
        ∷ not (is_empty value.summaries.entries)
        ∷ not (is_empty value.releases)
        ∷ not (is_empty value.credits)
        ∷ not (is_empty value.genres)
        ∷ not (is_empty value.artwork)
        ∷ []))

-- `{:.0}` of present / 6 * 100, which rounds to the nearest number.
abbrev pub percent : ℕ → ℕ
percent present = (present * 100 + 3) / 6

unfoldable pub warnings_of : ℕ → List ResolutionWarning
unfolding to_decimal
warnings_of present =
    if ltb present 6
    then record {
      code = text "incomplete_metadata";
      message = text "movie metadata is " ++ to_decimal (percent present) ++ text "% complete";
    }
      ∷ []
    else []

abbrev pub Documents : Type 0 → Type 0
Documents F = List (Sourced (Movie F))

module _ {F : Type 0} (to_lowercase : Text → Text) (parser : TagParser) (policy : MergePolicy) where
  -- One field of unique values, in the field's own order of precedence.
  unfoldable pub merge_field :
      {T : Type 0}
      → Text
      → (T → Text)
      → (Movie F → List T)
      → Documents F
      → ProvenanceMap
      → Result MergeError (List T × ProvenanceMap)
  unfolding ordered_documents merge_unique
  merge_field path key select documents provenance = do
    ordered ← ordered_documents policy movie path documents
    merge_unique path key select ordered provenance

  -- The fields, one after the other, over the documents by the precedence of the movie.
  unfoldable pub merge_fields : Movie F → Documents F → Result MergeError (Resolved (Movie F))
  unfolding merge_field merge_localized merge_credits completeness warnings_of ordered_documents
  merge_fields base documents = do
    titles ←
        merge_localized to_lowercase parser (text "movie.titles") policy movie
          (λ (value : Movie F). value.titles) documents [] []
    summaries ←
        merge_localized to_lowercase parser (text "movie.summaries") policy movie
          (λ (value : Movie F). value.summaries) documents titles.conflicts titles.provenance
    (releases, provenance1) ←
        merge_field (text "movie.releases") release_key (λ value. value.releases) documents
          summaries.provenance
    by_credits ← ordered_documents policy movie (text "movie.credits") documents
    (credits, provenance2) ←
        merge_credits to_lowercase (λ (value : Movie F). value.credits) by_credits provenance1
    (genres, provenance3) ←
        merge_field (text "movie.genres") (genre_key to_lowercase) (λ value. value.genres) documents
          provenance2
    (artwork, provenance4) ←
        merge_field (text "movie.artwork") (artwork_key to_lowercase) (λ value. value.artwork)
          documents provenance3
    (ratings, provenance5) ←
        merge_field (text "movie.ratings") (rating_key to_lowercase) (λ value. value.ratings)
          documents provenance4
    (content_ratings, provenance6) ←
        merge_field (text "movie.content_ratings") (content_rating_key to_lowercase)
          (λ value. value.content_ratings) documents provenance5
    let merged : Movie F = record {
      id = base.id;
      titles = titles.result;
      summaries = summaries.result;
      releases = releases;
      credits = credits;
      genres = genres;
      artwork = artwork;
      ratings = ratings;
      content_ratings = content_ratings;
    }
    ok (record {
      value = merged;
      provenance = provenance6;
      conflicts = summaries.conflicts;
      present = completeness merged;
      warnings = warnings_of (completeness merged);
    })

  -- `documents[0]`: there is one, since the documents are not empty.
  abbrev pub merge_sorted : Documents F → Result MergeError (Resolved (Movie F))
  merge_sorted [] = err no_documents
  merge_sorted (document ∷ documents) = merge_fields document.value (document ∷ documents)

  unfoldable pub merge_movies : Documents F → Result MergeError (Resolved (Movie F))
  merge_movies documents = do
    ensure (not (is_empty documents)) no_documents
    base_path ← map_err invalid (new_field_path (text "movie"))
    merge_sorted (sort_by_key (source_rank policy movie base_path) documents)

-- Documents without sources, by their kinds.
unfoldable pub merge_documents : Bool → List MediaKind → MergeError
merge_documents saw_movie [] = if saw_movie then missing_source else no_documents
merge_documents saw_movie (kind ∷ kinds) =
    let rest = merge_documents true kinds in
    if kind == movie then rest else unsupported_document kind
