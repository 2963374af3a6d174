-- ===== src/Core/Merge/Movie/Order.antt =====
-- The movie merger of crates/fixer-core/src/merge/mod.rs, where documents come in another order.
use mathlib.Core.List.{Permᴰ}
use fixer.Common.{◌≡◌, refl}
use fixer.Std.Text.{Text, text, split, push_first}
use fixer.Std.Sort.Reordered.{IsDecided, sort_by_key-reordered, reordered-is_empty}
use fixer.Std.Result.{ok}
use fixer.Core.Error.{movie}
use fixer.Core.Locale.{TagParser}
use fixer.Core.Merge.Policy.{MergePolicy, FieldPath, new_field_path}
use fixer.Core.Merge.Unique.{source_rank}
use fixer.Core.Merge.Movie.{Documents, merge_movies}

abbrev pub base_path : FieldPath
base_path = record { as_str = text "movie" }

pub base-new_field_path : new_field_path (text "movie") ≡ ok base_path
unfolding new_field_path split push_first
base-new_field_path = refl

-- Movies are merged to one result in whatever order their documents come, where documents whose
-- providers have one rank for movies are the same: with its conflicts in their order, its
-- provenance, its warnings, or its error.
pub merge_movies-reordered :
    {F : Type 0} (to_lowercase : Text → Text) (parser : TagParser) (policy : MergePolicy)
    (documents documents' : Documents F)
    → Permᴰ documents documents'
    → IsDecided (source_rank policy movie base_path) documents
    → merge_movies to_lowercase parser policy documents
      ≡ merge_movies to_lowercase parser policy documents'
unfolding merge_movies
merge_movies-reordered to_lowercase parser policy documents documents' r h =
    rw
      (
        base-new_field_path,
        reordered-is_empty r,
        sort_by_key-reordered (source_rank policy movie base_path) r h,
      )
      refl
