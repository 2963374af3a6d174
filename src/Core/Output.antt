-- ===== src/Core/Output.antt =====
-- crates/fixer-core/src/output/plan.rs: output plans, whose targets stay below the output root.
pub mod Inside
use fixer.Common.{
  ℕ, String, Bool, true, false, ◌&&◌, ◌||◌, Option, none, some, List, [], ◌∷◌, ◌++◌, ◌==◌, nat_eq,
  list_eq, if◌then◌else◌, any, is_empty,
}
use fixer.Std.Text.{Text}
use fixer.Std.Path.{Component, root_dir, cur_dir, parent_dir, normal, is_absolute, components}
use fixer.Std.Result.{Result, ok, err, ◌>>=◌}
use fixer.Core.Error.{CoreError, invalid_domain_value}

pub record PlannedContent : Type 0 where
  pub bytes : List ℕ

pub data OutputOperation : Type 0 where
  create_directory : Text → OutputOperation
  write_bytes : Text → PlannedContent → OutputOperation
  copy move symlink hardlink reflink : Text → Text → OutputOperation

unfoldable pub non_empty_path : Text → String → Result CoreError Text
non_empty_path value field =
    if is_empty value then err (invalid_domain_value field []) else ok value

abbrev pub escapes : Component → Bool
escapes root_dir = true
escapes cur_dir = false
escapes parent_dir = true
escapes (normal segment) = false

unfoldable pub safe_target : Text → Result CoreError Text
unfolding non_empty_path
safe_target value = do
  path ← non_empty_path value "output.target"
  if is_absolute path || any escapes (components path)
      then err (invalid_domain_value "output.target" path)
      else ok path

unfoldable pub absolute_source : Text → Result CoreError Text
unfolding non_empty_path
absolute_source value = do
  path ← non_empty_path value "output.source"
  if is_absolute path then ok path else err (invalid_domain_value "output.source" path)

unfoldable pub new_create_directory : Text → Result CoreError OutputOperation
new_create_directory target = do target' ← safe_target target; ok (create_directory target')

unfoldable pub new_write_bytes : Text → PlannedContent → Result CoreError OutputOperation
new_write_bytes target content = do target' ← safe_target target; ok (write_bytes target' content)

-- `copy`, `symlink`, `hardlink` and `reflink`, which differ in the operation that they build.
unfoldable pub new_transfer :
    (Text → Text → OutputOperation) → Text → Text → Result CoreError OutputOperation
new_transfer operation source target = do
  source' ← non_empty_path source "output.source"
  target' ← safe_target target
  ok (operation source' target')

unfoldable pub new_move : Text → Text → Result CoreError OutputOperation
new_move source target = do
  source' ← absolute_source source
  target' ← safe_target target
  ok (move source' target')

unfoldable pub source_of : OutputOperation → Option Text
source_of (create_directory target) = none
source_of (write_bytes target content) = none
source_of (copy source target) = some source
source_of (move source target) = some source
source_of (symlink source target) = some source
source_of (hardlink source target) = some source
source_of (reflink source target) = some source

unfoldable pub target_of : OutputOperation → Text
target_of (create_directory target) = target
target_of (write_bytes target content) = target
target_of (copy source target) = target
target_of (move source target) = target
target_of (symlink source target) = target
target_of (hardlink source target) = target
target_of (reflink source target) = target

pub record OutputPlan : Type 0 where
  pub output_root : Text
  pub operations : List OutputOperation

unfoldable pub new_plan : Text → OutputPlan
new_plan output_root = record { output_root = output_root; operations = [] }

unfoldable pub push_operation : OutputOperation → OutputPlan → OutputPlan
push_operation operation plan = record plan { operations = plan.operations ++ operation ∷ [] }
