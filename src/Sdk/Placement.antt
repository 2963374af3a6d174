-- ===== src/Sdk/Placement.antt =====
-- crates/fixer-sdk/src/output/executor.rs: how a media file is placed below an output root.
pub mod Relative
use fixer.Common.{Bool, true, false, not, Option, none, some, [], ◌∷◌, ◌==◌, if◌then◌else◌}
use fixer.Std.Text.{Text}
use fixer.Std.Path.{root_dir, parent_dir, normal, components}
use fixer.Std.FilePath.{FilePath, component_eq, join_path, parent_path, show_path}
use fixer.Std.Result.{Result, ok, err}
use fixer.Std.Result.{map_err}
use fixer.Std.Action.{◌>>=◌, ◌>>◌, pure, from_result, map_error}
use fixer.Std.Fs.{canonicalize}
use fixer.Core.Error.{CoreError}
use fixer.Core.Output.{OutputOperation, OutputPlan, new_transfer, new_plan, push_operation}
use fixer.Sdk.Report.{ExecutionError, relative_symlink_unavailable, Exec, io_error}
use fixer.Sdk.Targets.{Host, validate_relative_target}
use fixer.Sdk.Temp.{parent_of}
use fixer.Sdk.Audit.{core_error}
use fixer.Sdk.Prepare.{absolute_path}

pub data PlacementMode : Type 0 where
  in_place relative_symlink absolute_symlink hardlink copy reflink : PlacementMode

-- A root is the only prefix on Unix.
abbrev pub prefixed : FilePath → Bool
prefixed (root_dir ∷ rest) = true
prefixed _ = false

abbrev pub agree : Bool → Bool → Bool
agree true b = b
agree false b = not b

-- `..` for each named component.
abbrev pub climb : FilePath → FilePath
climb [] = []
climb (normal segment ∷ rest) = parent_dir ∷ climb rest
climb (_ ∷ rest) = climb rest

-- The parts behind those that both begin with.
unfoldable pub after_common : FilePath → FilePath → FilePath × FilePath
after_common [] to = ([], to)
after_common (a ∷ from) [] = (a ∷ from, [])
after_common (a ∷ from) (b ∷ to) =
    let rest = after_common from to in if a == b then rest else (a ∷ from, b ∷ to)

-- PathBuf::push of each component: a root starts anew.
unfoldable pub push_all : FilePath → FilePath → FilePath
push_all result [] = result
push_all result (c ∷ rest) = push_all (join_path result (c ∷ [])) rest

abbrev pub relative_parts : FilePath × FilePath → FilePath
relative_parts (from, to) = push_all (climb from) to

unfoldable pub relative_path : FilePath → FilePath → Option FilePath
unfolding after_common push_all
relative_path from to =
    if agree (prefixed from) (prefixed to)
    then some (relative_parts (after_common from to))
    else none

abbrev relative_or_unavailable :
    FilePath → FilePath → Option FilePath → Result ExecutionError FilePath
relative_or_unavailable from to none = err (relative_symlink_unavailable from to)
relative_or_unavailable from to (some path) = ok path

abbrev placement :
    Host → FilePath → Text → Text → PlacementMode → Exec (Result CoreError OutputOperation)
placement host source output_root target relative_symlink = do
  from_result (validate_relative_target target)
  root ← absolute_path host output_root
  parent ←
      from_result (parent_of (components target) (parent_path (join_path root (components target))))
  relative ← from_result (relative_or_unavailable parent source (relative_path parent source))
  pure (new_transfer OutputOperation.symlink (show_path relative) target)
placement host source output_root target absolute_symlink =
    pure (new_transfer OutputOperation.symlink (show_path source) target)
placement host source output_root target hardlink =
    pure (new_transfer OutputOperation.hardlink (show_path source) target)
placement host source output_root target reflink =
    pure (new_transfer OutputOperation.reflink (show_path source) target)
placement host source output_root target _ =
    pure (new_transfer OutputOperation.copy (show_path source) target)

abbrev place_media : Host → Text → Text → Text → PlacementMode → Exec OutputPlan
place_media host source output_root target mode = do
  canonical_source ←
      map_error (io_error "canonicalize" (components source)) (canonicalize (components source))
  made ← placement host canonical_source output_root target mode
  operation ← from_result (map_err core_error made)
  pure (push_operation operation (new_plan output_root))

unfoldable pub plan_media_placement : Host → Text → Text → Text → PlacementMode → Exec OutputPlan
unfolding canonicalize validate_relative_target absolute_path relative_path new_transfer core_error
    push_operation new_plan components parent_path show_path io_error
plan_media_placement host source output_root target in_place = pure (new_plan output_root)
plan_media_placement host source output_root target mode =
    place_media host source output_root target mode
