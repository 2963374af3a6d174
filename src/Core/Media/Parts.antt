-- ===== src/Core/Media/Parts.antt =====
-- crates/fixer-core/src/media/common.rs: people, credits, genres, artwork and ratings. The numbers
-- of a rating (f32) are of a type F, which is only passed on.
use fixer.Common.{Bool, not, ◌||◌, [], Option, none, some}
use fixer.Std.Text.{Text, text}
use fixer.Std.Result.{Result, ok, ◌>>◌, ensure}
use fixer.Core.Error.{CoreError, invalid_domain_value}
use fixer.Core.Identity.{ExternalId}
use fixer.Core.Media.Common.{StringId, validate_media_text}

pub record Person : Type 0 where
  pub id : StringId
  pub name : Text

unfoldable pub new_person : StringId → Text → Result CoreError Person
new_person id name = do
  validate_media_text "person.name" name 512
  ok (record { id = id; name = name })

pub data CreditRole : Type 0 where
  director writer actor author editor translator performer composer producer : CreditRole

-- `{:?}`
abbrev pub role_debug : CreditRole → Text
role_debug director = text "Director"
role_debug writer = text "Writer"
role_debug actor = text "Actor"
role_debug author = text "Author"
role_debug editor = text "Editor"
role_debug translator = text "Translator"
role_debug performer = text "Performer"
role_debug composer = text "Composer"
role_debug producer = text "Producer"

pub record Credit : Type 0 where
  pub person : Person
  pub role : CreditRole
  pub character : Option Text

abbrev pub new_credit : Person → CreditRole → Credit
new_credit person role = record { person = person; role = role; character = none }

unfoldable pub with_character : Text → Credit → Result CoreError Credit
with_character character credit = do
  validate_media_text "credit.character" character 512
  ok (record credit { character = some character })

pub record Genre : Type 0 where
  pub as_str : Text

unfoldable pub new_genre : Text → Result CoreError Genre
new_genre value = do validate_media_text "genre" value 128; ok (record { as_str = value })

pub data ArtworkKind : Type 0 where
  poster backdrop banner logo cover profile : ArtworkKind

-- `{:?}`
abbrev pub artwork_debug : ArtworkKind → Text
artwork_debug poster = text "Poster"
artwork_debug backdrop = text "Backdrop"
artwork_debug banner = text "Banner"
artwork_debug logo = text "Logo"
artwork_debug cover = text "Cover"
artwork_debug profile = text "Profile"

pub record ArtworkReference : Type 0 where
  pub kind : ArtworkKind
  pub location : Text
  pub external_id : Option ExternalId

unfoldable pub new_artwork : ArtworkKind → Text → Result CoreError ArtworkReference
new_artwork kind location = do
  validate_media_text "artwork.location" location 4096
  ok (record { kind = kind; location = location; external_id = none })

abbrev pub with_artwork_id : ExternalId → ArtworkReference → ArtworkReference
with_artwork_id external_id artwork = record artwork { external_id = some external_id }

pub record Rating (F : Type 0) : Type 0 where
  pub system : Text
  pub value : F
  pub maximum : F

-- What f32 has.
pub record Floats (F : Type 0) : Type 0 where
  pub zero : F
  pub is_finite : F → Bool
  pub is_less : F → F → Bool
  pub is_at_most : F → F → Bool

-- The text of the error, two formatted numbers, is left out.
unfoldable pub new_rating : {F : Type 0} → Floats F → Text → F → F → Result CoreError (Rating F)
new_rating floats system value maximum = do
  validate_media_text "rating.system" system 128
  ensure
      (not (
        not (floats.is_finite value)
        || not (floats.is_finite maximum)
        || floats.is_at_most maximum floats.zero
        || floats.is_less value floats.zero
        || floats.is_less maximum value))
      (invalid_domain_value "rating.value" [])
  ok (record { system = system; value = value; maximum = maximum })

pub record ContentRating : Type 0 where
  pub system : Text
  pub value : Text

unfoldable pub new_content_rating : Text → Text → Result CoreError ContentRating
new_content_rating system value = do
  validate_media_text "content_rating.system" system 128
  validate_media_text "content_rating.value" value 128
  ok (record { system = system; value = value })
