-- ===== src/Sdk/Move.antt =====
-- crates/fixer-sdk/src/output/executor.rs: moving a file, by a rename or across devices, on Unix.
pub mod Kept
use fixer.Common.{Bool, false, ◌==◌, list_eq, if◌then◌else◌}
use fixer.Std.FilePath.{FilePath, component_eq}
use fixer.Std.Result.{Result, ok, err}
use fixer.Std.Action.{◌>>=◌, ◌>>◌, pure, fail, require, from_result, map_error, attempt}
use fixer.Std.Fs.{
  Io, IoKind, already_exists, crosses_devices, symlink_metadata, canonicalize, create_new, rename,
  remove_file,
}
use fixer.Core.Output.{OutputOperation}
use fixer.Sdk.Report.{
  OverwritePolicy, no_overwrite, replace, source_unavailable, stale_plan, OperationStatus,
  completed, Exec, io_error, map_target_io,
}
use fixer.Sdk.Fingerprint.{
  PathFingerprint, missing, capture, from_metadata, fingerprint_eq, same_file_identity,
}
use fixer.Sdk.Targets.{Host, required_source}
use fixer.Sdk.Temp.{
  ensure_parent, ensure_target_available, ensure_source_file, copy_temp, publish_replacement,
  or_remove,
}

unfoldable pub capture_move_source : FilePath → Exec PathFingerprint
unfolding capture io_error
capture_move_source source = do
  fingerprint ← map_error (io_error "fingerprint move source" source) (capture source)
  if fingerprint == missing then fail (source_unavailable source) else pure fingerprint

unfoldable pub ensure_source_fresh : FilePath → PathFingerprint → Exec (Unit {0})
unfolding capture io_error
ensure_source_fresh source expected = do
  current ← map_error (io_error "fingerprint move source" source) (capture source)
  require (current == expected) (stale_plan source)

unfoldable pub remove_moved_source : FilePath → Exec (Unit {0})
unfolding remove_file io_error
remove_moved_source source = map_error (io_error "remove moved source" source) (remove_file source)

-- The open file's metadata is that of the entry just made.
unfoldable pub reserve_move_target : FilePath → Io PathFingerprint
unfolding create_new symlink_metadata from_metadata
reserve_move_target target = do
  create_new target
  metadata ← symlink_metadata target
  pure (from_metadata metadata)

abbrev pub clear_reservation :
    (FilePath → Io (Unit {0})) → FilePath → PathFingerprint → PathFingerprint → Io (Unit {0})
clear_reservation cleanup target reservation current =
    if current == reservation
    then cleanup target
    else if current == missing
    then pure tt
    else fail already_exists

abbrev pub after_rename :
    (FilePath → Io (Unit {0}))
    → FilePath
    → PathFingerprint
    → Result IoKind (Unit {0})
    → Io (Unit {0})
after_rename cleanup target reservation (ok done) = pure tt
after_rename cleanup target reservation (err rename_error) = do
  current ← capture target
  clear_reservation cleanup target reservation current
  fail rename_error

unfoldable pub publish_move_no_overwrite_with :
    FilePath
    → FilePath
    → (FilePath → Io PathFingerprint)
    → (FilePath → FilePath → Io (Unit {0}))
    → (FilePath → Io (Unit {0}))
    → Io (Unit {0})
unfolding capture
publish_move_no_overwrite_with source target reserve rename' cleanup = do
  reservation ← reserve target
  current ← capture target
  require (current == reservation) already_exists
  renamed ← attempt (rename' source target)
  after_rename cleanup target reservation renamed

unfoldable pub publish_move_no_overwrite : FilePath → FilePath → Io (Unit {0})
unfolding publish_move_no_overwrite_with reserve_move_target rename remove_file
publish_move_no_overwrite source target =
    publish_move_no_overwrite_with source target reserve_move_target rename remove_file

unfoldable pub publish_move_direct : FilePath → FilePath → OverwritePolicy → Io (Unit {0})
unfolding publish_move_no_overwrite rename
publish_move_direct source target no_overwrite = publish_move_no_overwrite source target
publish_move_direct source target replace = rename source target

abbrev publish_copy_by : OverwritePolicy → FilePath → FilePath → Exec (Unit {0})
publish_copy_by no_overwrite temp target =
    map_error (map_target_io "publish copied move" target) (publish_move_no_overwrite temp target)
publish_copy_by replace temp target = publish_replacement temp target

unfoldable pub publish_copied_move : FilePath → FilePath → OverwritePolicy → Exec (Unit {0})
unfolding publish_move_no_overwrite publish_replacement remove_file map_target_io
publish_copied_move temp target overwrite = do
  result ← attempt (publish_copy_by overwrite temp target)
  or_remove temp result

abbrev same_place : Result IoKind FilePath → Result IoKind FilePath → Bool
same_place (ok source) (ok target) = source == target
same_place _ _ = false

abbrev finish_apart : FilePath → FilePath → PathFingerprint → Exec (Unit {0})
finish_apart source target source_fingerprint = do
  current ← map_error (io_error "fingerprint moved source" source) (capture source)
  if current == missing then pure tt else (do
    published ← map_error (io_error "fingerprint moved target" target) (capture target)
    require (current == source_fingerprint) (stale_plan source)
    require (same_file_identity current published) (stale_plan source)
    remove_moved_source source)

unfoldable pub finish_direct_move : FilePath → FilePath → PathFingerprint → Exec (Unit {0})
unfolding canonicalize capture io_error same_file_identity remove_moved_source
finish_direct_move source target source_fingerprint = if source == target then pure tt else (do
  real_source ← attempt {E = IoKind} (canonicalize source)
  real_target ← attempt {E = IoKind} (canonicalize target)
  if same_place real_source real_target
      then pure tt
      else finish_apart source target source_fingerprint)

abbrev pub copy_across :
    (FilePath → FilePath → Exec FilePath)
    → (FilePath → FilePath → OverwritePolicy → Exec (Unit {0}))
    → FilePath
    → FilePath
    → OverwritePolicy
    → PathFingerprint
    → Exec (Unit {0})
copy_across copy_to_temp publish_copy source target overwrite source_fingerprint = do
  ensure_source_fresh source source_fingerprint
  temp ← copy_to_temp source target
  still_fresh ← attempt (ensure_source_fresh source source_fingerprint)
  or_remove temp still_fresh
  published ← attempt (publish_copy temp target overwrite)
  or_remove temp published
  ensure_source_fresh source source_fingerprint
  remove_moved_source source

abbrev pub after_direct :
    FilePath
    → FilePath
    → PathFingerprint
    → Exec (Unit {0})
    → Result IoKind (Unit {0})
    → Exec (Unit {0})
after_direct source target source_fingerprint across (ok done) =
    finish_direct_move source target source_fingerprint
after_direct source target source_fingerprint across (err crosses_devices) = across
after_direct source target source_fingerprint across (err kind) =
    fail (map_target_io "move file" target kind)

unfoldable pub execute_move_after_validation_with :
    FilePath
    → FilePath
    → OverwritePolicy
    → (FilePath → FilePath → OverwritePolicy → Io (Unit {0}))
    → (FilePath → FilePath → Exec FilePath)
    → (FilePath → FilePath → OverwritePolicy → Exec (Unit {0}))
    → Exec (Unit {0})
unfolding capture_move_source ensure_source_fresh remove_moved_source remove_file finish_direct_move
    map_target_io
execute_move_after_validation_with source target overwrite direct_move copy_to_temp publish_copy =
    do
      source_fingerprint ← capture_move_source source
      moved ← attempt (direct_move source target overwrite)
      after_direct source target source_fingerprint
          (copy_across copy_to_temp publish_copy source target overwrite source_fingerprint) moved

unfoldable pub execute_move_after_validation :
    Host
    → FilePath
    → FilePath
    → OverwritePolicy
    → (FilePath → FilePath → OverwritePolicy → Io (Unit {0}))
    → Exec (Unit {0})
unfolding execute_move_after_validation_with copy_temp publish_copied_move
execute_move_after_validation host source target overwrite direct_move =
    execute_move_after_validation_with source target overwrite direct_move (copy_temp host)
      publish_copied_move

unfoldable pub execute_move :
    Host → OutputOperation → FilePath → FilePath → OverwritePolicy → Exec OperationStatus
unfolding required_source ensure_source_file ensure_parent ensure_target_available
    execute_move_after_validation publish_move_direct
execute_move host operation root target overwrite = do
  source ← from_result (required_source host root operation)
  ensure_source_file source
  ensure_parent target
  ensure_target_available target overwrite
  execute_move_after_validation host source target overwrite publish_move_direct
  pure completed
