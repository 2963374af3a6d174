-- ===== src/Core/Media/Movie.antt =====
-- crates/fixer-core/src/media/movie.rs: movies and their releases.
use fixer.Common.{ℕ, Option, none, some, List, [], ◌∷◌, ltb, if◌then◌else◌, map}
use fixer.Std.Text.{Text}
use fixer.Core.Locale.{LocalizedValue, empty_value}
use fixer.Core.Media.Common.{StringId, ReleaseDate}
use fixer.Core.Media.Parts.{Credit, Genre, ArtworkReference, Rating, ContentRating}

-- The runtime is a number of seconds.
pub record MovieRelease : Type 0 where
  pub id : StringId
  pub release_date : ReleaseDate
  pub edition : Option Text
  pub runtime : Option ℕ

abbrev pub new_release : StringId → ReleaseDate → MovieRelease
new_release id release_date = record {
  id = id;
  release_date = release_date;
  edition = none;
  runtime = none;
}

-- Iterator::min
abbrev pub least : List ℕ → Option ℕ
least [] = none
least (year ∷ years) = elim (least years) [
  | none ↦ some year
  | some other ↦ some (if ltb other year then other else year)
]

pub record Movie (F : Type 0) : Type 0 where
  pub id : StringId
  pub titles : LocalizedValue Text
  pub summaries : LocalizedValue Text
  pub releases : List MovieRelease
  pub credits : List Credit
  pub genres : List Genre
  pub artwork : List ArtworkReference
  pub ratings : List (Rating F)
  pub content_ratings : List ContentRating

abbrev pub new_movie : {F : Type 0} → StringId → LocalizedValue Text → Movie F
new_movie id titles = record {
  id = id;
  titles = titles;
  summaries = empty_value;
  releases = [];
  credits = [];
  genres = [];
  artwork = [];
  ratings = [];
  content_ratings = [];
}

-- The least year of the releases.
unfoldable pub release_year : {F : Type 0} → Movie F → Option ℕ
release_year movie =
    least (map (λ (release : MovieRelease). release.release_date.year) movie.releases)
