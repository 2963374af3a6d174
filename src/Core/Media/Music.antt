-- ===== src/Core/Media/Music.antt =====
-- crates/fixer-core/src/media/music.rs and the editions and works of media/book.rs. Positions are
-- u32, a duration is its number of seconds.
use fixer.Common.{ℕ, not, ◌||◌, ◌==◌, nat_eq, List, []}
use fixer.Std.Text.{Text}
use fixer.Std.Result.{Result, ok, ◌>>◌, ensure}
use fixer.Core.Error.{CoreError, invalid_domain_value}
use fixer.Core.Locale.{LocalizedValue}
use fixer.Core.Media.Common.{StringId, validate_media_text}
use fixer.Core.Media.Parts.{Credit}
use fixer.Core.Media.Isbn.{Isbn}
use fixer.Core.Media.Assets.{Asset}

pub record MusicArtist : Type 0 where
  pub id : StringId
  pub name : Text

unfoldable pub new_artist : StringId → Text → Result CoreError MusicArtist
new_artist id name = do
  validate_media_text "artist.name" name 512
  ok (record { id = id; name = name })

pub record TrackSequence : Type 0 where
  pub disc : ℕ
  pub track : ℕ

unfoldable pub new_track_sequence : ℕ → ℕ → Result CoreError TrackSequence
new_track_sequence disc track = do
  ensure (not (disc == 0 || track == 0)) (invalid_domain_value "track_sequence" [])
  ok (record { disc = disc; track = track })

pub record Track : Type 0 where
  pub id : StringId
  pub titles : LocalizedValue Text
  pub sequence : TrackSequence
  pub duration : ℕ

pub record Disc : Type 0 where
  pub number : ℕ
  pub tracks : List Track

unfoldable pub new_disc : ℕ → List Track → Result CoreError Disc
new_disc number tracks = do
  ensure (not (number == 0)) (invalid_domain_value "disc.number" [])
  ok (record { number = number; tracks = tracks })

pub record MusicRelease : Type 0 where
  pub id : StringId
  pub discs : List Disc

pub record MusicReleaseGroup : Type 0 where
  pub id : StringId
  pub titles : LocalizedValue Text
  pub artist : MusicArtist
  pub releases : List MusicRelease

pub record BookEdition : Type 0 where
  pub id : StringId
  pub isbn_10 : Isbn
  pub isbn_13 : Isbn
  pub publisher : Text
  pub assets : List Asset

unfoldable pub new_edition :
    StringId → Isbn → Isbn → Text → List Asset → Result CoreError BookEdition
new_edition id isbn_10 isbn_13 publisher assets = do
  validate_media_text "book.publisher" publisher 512
  ok (record {
    id = id;
    isbn_10 = isbn_10;
    isbn_13 = isbn_13;
    publisher = publisher;
    assets = assets;
  })

pub record BookWork : Type 0 where
  pub id : StringId
  pub titles : LocalizedValue Text
  pub contributors : List Credit
  pub editions : List BookEdition
