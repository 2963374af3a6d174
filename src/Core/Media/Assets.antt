-- ===== src/Core/Media/Assets.antt =====
-- crates/fixer-core/src/media/common.rs: local files and the assets they are. A duration is its
-- number of seconds.
use fixer.Common.{ℕ, String, ◌||◌, ◌==◌, nat_eq, Option, none, ltb, is_empty, any, if◌then◌else◌}
use fixer.Std.Text.{Text, len}
use fixer.Std.Result.{Result, ok, err, ◌>>◌}
use fixer.Core.Error.{CoreError, invalid_domain_value}
use fixer.Core.Media.Common.{StringId}

unfoldable pub validate_path : String → Text → Result CoreError (Unit {0})
validate_path field value =
    if is_empty value || ltb 16384 (len value) || any (λ ch. ch == 0) value
    then err (invalid_domain_value field value)
    else ok tt

-- SourcePath and AssetPath, by their field.
pub record MediaPath : Type 0 where
  pub as_str : Text

unfoldable pub new_media_path : String → Text → Result CoreError MediaPath
unfolding validate_path
new_media_path field value = do validate_path field value; ok (record { as_str = value })

pub data AssetKind : Type 0 where
  video audio book_file subtitle artwork sidecar : AssetKind

pub record LocalFileFacts : Type 0 where
  pub size_bytes : Option ℕ
  pub extension : Option Text
  pub media_type : Option Text

pub record Asset : Type 0 where
  pub id : StringId
  pub source_path : MediaPath
  pub kind : AssetKind
  pub facts : LocalFileFacts

abbrev pub new_asset : StringId → MediaPath → AssetKind → Asset
new_asset id source_path kind = record {
  id = id;
  source_path = source_path;
  kind = kind;
  facts = record { size_bytes = none; extension = none; media_type = none };
}
