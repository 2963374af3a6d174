-- ===== src/Sdk/Operations.antt =====
-- crates/fixer-sdk/src/output/executor.rs: one operation of a plan.
pub mod Kept
pub mod Written
use fixer.Common.{String, some, not}
use fixer.Std.Path.{components}
use fixer.Std.FilePath.{FilePath}
use fixer.Std.Result.{Result, ok, err}
use fixer.Std.Action.{◌>>=◌, ◌>>◌, pure, fail, require, from_result, map_error, attempt}
use fixer.Std.Fs.{
  Entry, Io, IoKind, not_found, already_exists, permission_denied, symlink_metadata, create_dir_all,
  make_symlink, hard_link, remove_file, is_directory,
}
use fixer.Core.Output.{
  OutputOperation, create_directory, write_bytes, copy, move, symlink, hardlink, reflink,
}
use fixer.Sdk.Report.{
  OverwritePolicy, no_overwrite, replace, target_exists, source_unavailable, reflink_unsupported,
  ExecutionPolicy, is_required, OperationStatus, completed, reflinked, copied_fallback, Exec,
  io_error, map_target_io,
}
use fixer.Sdk.Targets.{Host, required_source, absolute_target}
use fixer.Sdk.Temp.{
  ensure_parent, ensure_target_available, ensure_source_file, unique_temp_path, write_temp,
  copy_temp, publish_temp, publish_replacement,
}
use fixer.Sdk.Move.{execute_move}

-- `let _ = fs::remove_file(..)`
abbrev pub discard : FilePath → Exec (Unit {0})
discard temp = do _ ← attempt {E = IoKind} (remove_file temp); pure tt

-- A reflink that failed for a reason of the file system.
abbrev fall_back : Host → FilePath → FilePath → ExecutionPolicy → IoKind → Exec OperationStatus
fall_back host source target policy kind = do
  require (not (is_required policy.reflink)) (reflink_unsupported source target kind)
  temp ← copy_temp host source target
  publish_temp temp target policy.overwrite
  pure copied_fallback

abbrev reflink_failed :
    Host → FilePath → FilePath → FilePath → ExecutionPolicy → IoKind → Exec OperationStatus
reflink_failed host source target temp policy already_exists =
    fail (io_error "reserve reflink temporary file" temp already_exists)
reflink_failed host source target temp policy not_found = do
  discard temp
  fail (source_unavailable source)
reflink_failed host source target temp policy permission_denied = do
  discard temp
  fail (io_error "reflink" target permission_denied)
reflink_failed host source target temp policy kind = do
  discard temp
  fall_back host source target policy kind

abbrev after_reflink :
    Host
    → FilePath
    → FilePath
    → FilePath
    → ExecutionPolicy
    → Result IoKind (Unit {0})
    → Exec OperationStatus
after_reflink host source target temp policy (ok done) = do
  publish_temp temp target policy.overwrite
  pure reflinked
after_reflink host source target temp policy (err kind) =
    reflink_failed host source target temp policy kind

unfoldable pub execute_reflink :
    Host → OutputOperation → FilePath → FilePath → ExecutionPolicy → Exec OperationStatus
unfolding required_source ensure_source_file ensure_parent ensure_target_available unique_temp_path
    publish_temp copy_temp remove_file io_error
execute_reflink host operation root target policy = do
  source ← from_result (required_source host root operation)
  ensure_source_file source
  ensure_parent target
  ensure_target_available target policy.overwrite
  temp ← unique_temp_path host target
  cloned ← attempt (host.clone_file source temp)
  after_reflink host source target temp policy cloned

abbrev make_directory_at : FilePath → Result IoKind Entry → Exec OperationStatus
make_directory_at target (ok metadata) = do
  require (is_directory (some metadata)) (target_exists target)
  pure completed
make_directory_at target (err kind) = do
  map_error (io_error "create directory" target) (create_dir_all target)
  pure completed

-- `make` is the call that makes a link at a path.
abbrev link_by :
    Host
    → OverwritePolicy
    → String
    → String
    → (FilePath → Io (Unit {0}))
    → FilePath
    → Exec (Unit {0})
link_by host no_overwrite action temporary make target =
    map_error (map_target_io action target) (make target)
link_by host replace action temporary make target = do
  temp ← unique_temp_path host target
  map_error (map_target_io temporary temp) (make temp)
  publish_replacement temp target

unfoldable pub execute_operation :
    Host → OutputOperation → FilePath → ExecutionPolicy → Exec OperationStatus
unfolding absolute_target symlink_metadata create_dir_all io_error map_target_io
    ensure_target_available write_temp publish_temp required_source ensure_source_file copy_temp
    execute_move ensure_parent unique_temp_path make_symlink hard_link publish_replacement
    execute_reflink components
execute_operation host (create_directory target) root policy = do
  let path = absolute_target root (create_directory target)
  found ← attempt (symlink_metadata path)
  make_directory_at path found
execute_operation host (write_bytes target content) root policy = do
  let path = absolute_target root (write_bytes target content)
  ensure_target_available path policy.overwrite
  temp ← write_temp host path content.bytes
  publish_temp temp path policy.overwrite
  pure completed
execute_operation host (copy source target) root policy = do
  let path = absolute_target root (copy source target)
  from ← from_result (required_source host root (copy source target))
  ensure_source_file from
  ensure_target_available path policy.overwrite
  temp ← copy_temp host from path
  publish_temp temp path policy.overwrite
  pure completed
execute_operation host (move source target) root policy =
    execute_move host (move source target) root (absolute_target root (move source target))
      policy.overwrite
execute_operation host (symlink source target) root policy = do
  let path = absolute_target root (symlink source target)
  resolved ← from_result (required_source host root (symlink source target))
  ensure_source_file resolved
  ensure_parent path
  ensure_target_available path policy.overwrite
  link_by host policy.overwrite "create symlink" "create temporary symlink"
      (make_symlink (components source)) path
  pure completed
execute_operation host (hardlink source target) root policy = do
  let path = absolute_target root (hardlink source target)
  from ← from_result (required_source host root (hardlink source target))
  ensure_source_file from
  ensure_parent path
  ensure_target_available path policy.overwrite
  link_by host policy.overwrite "create hardlink" "create temporary hardlink" (hard_link from) path
  pure completed
execute_operation host (reflink source target) root policy =
    execute_reflink host (reflink source target) root (absolute_target root (reflink source target))
      policy
