-- ===== src/Sdk/Temp.antt =====
-- crates/fixer-sdk/src/output/executor.rs: files are written beside their target under a name of
-- their own, and published at once.
pub mod Kept
pub mod Written
use fixer.Common.{ℕ, zero, suc, ◌+◌, ◌%◌, ◌^◌, Bool, false, Option, none, some, List, [], ◌∷◌, ◌++◌}
use fixer.Std.Text.{Text, text}
use fixer.Std.Decimal.{to_decimal}
use fixer.Std.Path.{normal}
use fixer.Std.FilePath.{FilePath, join_path, parent_path, file_name}
use fixer.Std.Result.{Result, ok, err}
use fixer.Std.Action.{◌>>=◌, ◌>>◌, pure, fail, require, from_result, map_error, attempt}
use fixer.Std.Fs.{
  Entry, IoKind, not_found, symlink_metadata, create_new, write_all, sync_all, copy_file, hard_link,
  rename, remove_file, create_dir_all, metadata, is_file,
}
use fixer.Sdk.Report.{
  OverwritePolicy, no_overwrite, replace, ExecutionError, unsafe_target, target_exists,
  source_unavailable, invalid_plan, described, Exec, io_error, map_target_io,
}
use fixer.Sdk.Targets.{Host}

-- `target.parent().ok_or_else(..)`
abbrev pub parent_of : FilePath → Option FilePath → Result ExecutionError FilePath
parent_of target none = err (unsafe_target target)
parent_of target (some parent) = ok parent

unfoldable pub ensure_parent : FilePath → Exec (Unit {0})
unfolding parent_path create_dir_all io_error
ensure_parent target = do
  parent ← from_result (parent_of target (parent_path target))
  map_error (io_error "create parent directory" parent) (create_dir_all parent)

abbrev pub available : FilePath → Result IoKind Entry → Exec (Unit {0})
available target (ok entry) = fail (target_exists target)
available target (err kind) = pure tt

unfoldable pub ensure_target_available : FilePath → OverwritePolicy → Exec (Unit {0})
unfolding symlink_metadata
ensure_target_available target replace = pure tt
ensure_target_available target no_overwrite = do
  found ← attempt (symlink_metadata target)
  available target found

abbrev pub is_source_file : Result IoKind Entry → Bool
is_source_file (ok entry) = is_file entry.node
is_source_file (err kind) = false

unfoldable pub ensure_source_file : FilePath → Exec (Unit {0})
unfolding metadata
ensure_source_file source = do
  found ← attempt (metadata source)
  require (is_source_file found) (source_unavailable source)

-- AtomicU64::fetch_add, which wraps.
unfoldable pub next_sequence : Exec ℕ
next_sequence world = (ok world.sequence, record world { sequence = (world.sequence + 1) % 2 ^ 64 })

abbrev pub temp_name : Host → Text → ℕ → Text
temp_name host name sequence =
    b'.'
    ∷ (name ++ (text ".fixer-tmp-" ++ (to_decimal host.process_id ++ (b'-' ∷ to_decimal sequence))))

abbrev pub temp_inspected : FilePath → Result IoKind Entry → Exec FilePath → Exec FilePath
temp_inspected path (err not_found) again = pure path
temp_inspected path (ok entry) again = again
temp_inspected path (err kind) again = fail (io_error "inspect temporary path" path kind)

-- The tries that are left.
unfoldable pub find_temp_path : Host → FilePath → Text → ℕ → Exec FilePath
unfolding next_sequence symlink_metadata io_error to_decimal
find_temp_path host parent name zero =
    fail (invalid_plan (described "could not reserve a temporary output path"))
find_temp_path host parent name (suc tries) = do
  sequence ← next_sequence
  let path = join_path parent (normal (temp_name host name sequence) ∷ [])
  found ← attempt (symlink_metadata path)
  temp_inspected path found (find_temp_path host parent name tries)

unfoldable pub unique_temp_path : Host → FilePath → Exec FilePath
unfolding parent_path file_name find_temp_path
unique_temp_path host target = do
  parent ← from_result (parent_of target (parent_path target))
  find_temp_path host parent (file_name target) 100

-- `if let Err(error) = result { let _ = fs::remove_file(&temp); return Err(error) }`
abbrev pub or_remove : {A : Type 0} → FilePath → Result ExecutionError A → Exec A
or_remove temp (ok a) = pure a
or_remove temp (err e) = do _ ← attempt {E = IoKind} (remove_file temp); fail e

unfoldable pub write_temp : Host → FilePath → List ℕ → Exec FilePath
unfolding ensure_parent unique_temp_path create_new write_all sync_all remove_file
write_temp host target content = do
  ensure_parent target
  temp ← unique_temp_path host target
  map_error (io_error "create temporary file" temp) (create_new temp)
  result ← attempt (do
    map_error (io_error "write temporary file" temp) (write_all temp content)
    map_error (io_error "sync temporary file" temp) sync_all)
  or_remove temp result
  pure temp

unfoldable pub copy_temp : Host → FilePath → FilePath → Exec FilePath
unfolding ensure_parent unique_temp_path create_new copy_file remove_file
copy_temp host source target = do
  ensure_parent target
  temp ← unique_temp_path host target
  map_error (io_error "reserve temporary file" temp) (create_new temp)
  result ← attempt (map_error (io_error "copy to temporary file" source) (copy_file source temp))
  or_remove temp result
  pure temp

unfoldable pub publish_replacement : FilePath → FilePath → Exec (Unit {0})
unfolding rename remove_file io_error
publish_replacement temp target = do
  result ← attempt (map_error (io_error "replace target" target) (rename temp target))
  or_remove temp result

abbrev publish_by : OverwritePolicy → FilePath → FilePath → Exec (Unit {0})
publish_by no_overwrite temp target = do
  map_error (map_target_io "publish temporary file" target) (hard_link temp target)
  map_error (io_error "remove temporary file" temp) (remove_file temp)
publish_by replace temp target = publish_replacement temp target

unfoldable pub publish_temp : FilePath → FilePath → OverwritePolicy → Exec (Unit {0})
unfolding publish_replacement hard_link remove_file map_target_io io_error
publish_temp temp target overwrite = do
  result ← attempt (publish_by overwrite temp target)
  or_remove temp result
