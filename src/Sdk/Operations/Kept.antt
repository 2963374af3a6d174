-- ===== src/Sdk/Operations/Kept.antt =====
-- An operation changes its target, where it may, and a move's source.
use fixer.Common.{◌≡◌, ◌≢◌, ap, String, Bool, true, arith, list_eq}
use fixer.Std.Map.{get}
use fixer.Std.Path.{components}
use fixer.Std.FilePath.{FilePath, component_eq}
use fixer.Std.Result.{Result, ok, err}
use fixer.Std.Action.{attempt}
use fixer.Std.Action.Ensures.{
  Ensures, Any, then_ensures, seq_ensures, pure_ensures, fail_ensures, require_ensures,
  from_result_ensures, map_error_ensures, attempt_ensures, ensures_weaker,
}
use fixer.Std.Fs.{
  World, Entry, Entries, Io, IoKind, not_found, already_exists, permission_denied, crosses_devices,
  other_kind, make_symlink, hard_link,
}
use fixer.Std.Fs.Kept.{
  Since, Free, absent, open_to, Call, symlink_metadata_Call, make_symlink_Call, hard_link_Call,
  remove_file_Call, create_dir_all_Call,
}
use fixer.Core.Output.{
  OutputOperation, create_directory, write_bytes, copy, move, symlink, hardlink, reflink,
}
use fixer.Sdk.Report.{OverwritePolicy, no_overwrite, replace, ExecutionPolicy, ExecutionError}
use fixer.Sdk.Targets.{Host, absolute_target, required_source}
use fixer.Sdk.Temp.Kept.{
  Writable, Step, ensure_parent_Step, ensure_target_available_Step, ensure_source_file_Step,
  unique_temp_path_Step, write_temp_Step, copy_temp_Step, publish_temp_Step,
  publish_replacement_Step,
}
use fixer.Sdk.Move.Kept.{execute_move_Step}
use fixer.Sdk.Operations.{
  discard, fall_back, reflink_failed, after_reflink, execute_reflink, make_directory_at, link_by,
  execute_operation,
}

-- What is documented of a reflink: it makes a file at its second path and changes nothing else.
pub record ClonesAside (host : Host) : Type 0 where
  pub elsewhere :
      (world : World) (source path p : FilePath)
      → p ≢ path
      → get p (host.clone_file source path world).1.entries ≡ get p world.entries

-- The source of a move may change.
abbrev pub MayMove : (FilePath → Bool) → Host → FilePath → OutputOperation → Type 0
MayMove changeable host root (move source target) =
    (path : FilePath)
    → required_source host root (move source target) ≡ ok path
    → changeable path ≡ true
MayMove changeable host root _ = Unit {0}

module _ (start : Entries) (changeable : FilePath → Bool) (host : Host)
    (aside : ClonesAside host) where
  clone_Since :
      (world : World) (source path : FilePath)
      → Free start changeable path
      → Since start changeable world
      → Since start changeable (host.clone_file source path world).1
  clone_Since world source path gap since p e there unchanging =
      rw (aside.elsewhere world source path p (differs gap)) (since p e there unchanging)
    where
      differs : Free start changeable path → p ≢ path
      differs (absent h) same = absurd (ground (arith, ap (λ (q : FilePath). get q start) same))
      differs (open_to h) same = absurd (ground (arith, ap changeable same))

  clone_Step :
      (source path : FilePath)
      → Free start changeable path
      → Ensures
          (Since start changeable)
          (attempt {F = ExecutionError} (host.clone_file source path))
          Any
  unfolding attempt
  clone_Step source path gap = record {
    run = λ world since. (clone_Since world source path gap since, tt);
  }

  discard_Step :
      {temp : FilePath} → Free start changeable temp → Step start changeable (discard temp) Any
  unfolding discard
  discard_Step gap =
      then_ensures _ (attempt_ensures _ (remove_file_Call start changeable gap))
        (λ r q. pure_ensures _ _ tt)

  fall_back_Step :
      (source target : FilePath) (policy : ExecutionPolicy) (kind : IoKind)
      → Writable changeable policy.overwrite target
      → Step start changeable (fall_back host source target policy kind) Any
  fall_back_Step source target policy kind w =
      seq_ensures _ (ensures_weaker _ (require_ensures _ _) (λ a h. tt)) (
        then_ensures _ (copy_temp_Step start changeable host source target) (λ temp gap.
          seq_ensures _ (publish_temp_Step start changeable temp target policy.overwrite gap w)
            (pure_ensures _ _ tt)))

  reflink_failed_Step :
      (source target temp : FilePath) (policy : ExecutionPolicy) (kind : IoKind)
      → Free start changeable temp
      → Writable changeable policy.overwrite target
      → Step start changeable (reflink_failed host source target temp policy kind) Any
  reflink_failed_Step source target temp policy already_exists gap w = fail_ensures _ _
  reflink_failed_Step source target temp policy not_found gap w =
      seq_ensures _ (discard_Step gap) (fail_ensures _ _)
  reflink_failed_Step source target temp policy permission_denied gap w =
      seq_ensures _ (discard_Step gap) (fail_ensures _ _)
  reflink_failed_Step source target temp policy crosses_devices gap w =
      seq_ensures _ (discard_Step gap) (fall_back_Step source target policy _ w)
  reflink_failed_Step source target temp policy other_kind gap w =
      seq_ensures _ (discard_Step gap) (fall_back_Step source target policy _ w)

  after_reflink_Step :
      (source target temp : FilePath) (policy : ExecutionPolicy) (r : Result IoKind (Unit {0}))
      → Free start changeable temp
      → Writable changeable policy.overwrite target
      → Step start changeable (after_reflink host source target temp policy r) Any
  after_reflink_Step source target temp policy (ok done) gap w =
      seq_ensures _ (publish_temp_Step start changeable temp target policy.overwrite gap w)
        (pure_ensures _ _ tt)
  after_reflink_Step source target temp policy (err kind) gap w =
      reflink_failed_Step source target temp policy kind gap w

  execute_reflink_Step :
      (operation : OutputOperation) (root target : FilePath) (policy : ExecutionPolicy)
      → Writable changeable policy.overwrite target
      → Step start changeable (execute_reflink host operation root target policy) Any
  unfolding execute_reflink
  execute_reflink_Step operation root target policy w =
      then_ensures _ (from_result_ensures _) (λ source e.
        seq_ensures _ (ensure_source_file_Step start changeable source) (
          seq_ensures _ (ensure_parent_Step start changeable target) (
            seq_ensures _ (ensure_target_available_Step start changeable target policy.overwrite) (
              then_ensures _ (unique_temp_path_Step start changeable host target) (λ temp gap.
                then_ensures _ (clone_Step source temp gap)
                  (λ r q. after_reflink_Step source target temp policy r gap w))))))

  make_directory_at_Step :
      (target : FilePath) (r : Result IoKind Entry)
      → Step start changeable (make_directory_at target r) Any
  make_directory_at_Step target (ok entry) =
      seq_ensures _ (ensures_weaker _ (require_ensures _ _) (λ a h. tt)) (pure_ensures _ _ tt)
  make_directory_at_Step target (err kind) =
      seq_ensures _ (map_error_ensures _ _ (create_dir_all_Call start changeable target))
        (pure_ensures _ _ tt)

  link_by_Step :
      (overwrite : OverwritePolicy) (action temporary : String) (make : FilePath → Io (Unit {0}))
      (target : FilePath)
      → ((path : FilePath) → Call start changeable (make path) (λ _. Free start changeable path))
      → Writable changeable overwrite target
      → Step start changeable (link_by host overwrite action temporary make target) Any
  link_by_Step no_overwrite action temporary make target makes w =
      ensures_weaker _ (map_error_ensures _ _ (makes target)) (λ a q. tt)
  link_by_Step replace action temporary make target makes w =
      then_ensures _ (unique_temp_path_Step start changeable host target) (λ temp gap.
        seq_ensures _ (ensures_weaker _ (map_error_ensures _ _ (makes temp)) (λ a q. tt))
          (publish_replacement_Step start changeable temp target gap (open_to w)))

  pub execute_operation_Step :
      (operation : OutputOperation) (root : FilePath) (policy : ExecutionPolicy)
      → MayMove changeable host root operation
      → Writable changeable policy.overwrite (absolute_target root operation)
      → Step start changeable (execute_operation host operation root policy) Any
  unfolding execute_operation
  execute_operation_Step (create_directory target) root policy mine w =
      then_ensures _ (attempt_ensures _ (symlink_metadata_Call start changeable _))
        (λ r q. make_directory_at_Step _ r)
  execute_operation_Step (write_bytes target content) root policy mine w =
      seq_ensures _ (ensure_target_available_Step start changeable _ policy.overwrite) (
        then_ensures _
          (write_temp_Step start changeable host (absolute_target root (write_bytes target content))
            content.bytes)
          (λ temp gap.
            seq_ensures _ (publish_temp_Step start changeable temp _ policy.overwrite gap w)
              (pure_ensures _ _ tt)))
  execute_operation_Step (copy source target) root policy mine w =
      then_ensures _ (from_result_ensures _) (λ from e.
        seq_ensures _ (ensure_source_file_Step start changeable from) (
          seq_ensures _ (ensure_target_available_Step start changeable _ policy.overwrite) (
            then_ensures _
              (copy_temp_Step start changeable host from
                (absolute_target root (copy source target)))
              (λ temp gap.
                seq_ensures _ (publish_temp_Step start changeable temp _ policy.overwrite gap w)
                  (pure_ensures _ _ tt)))))
  execute_operation_Step (move source target) root policy mine w =
      execute_move_Step start changeable host (move source target) root _ policy.overwrite mine w
  execute_operation_Step (symlink source target) root policy mine w =
      then_ensures _ (from_result_ensures _) (λ from e.
        seq_ensures _ (ensure_source_file_Step start changeable from) (
          seq_ensures _
            (ensure_parent_Step start changeable (absolute_target root (symlink source target)))
            (seq_ensures _ (ensure_target_available_Step start changeable _ policy.overwrite) (
              seq_ensures _
                (link_by_Step policy.overwrite _ _ (make_symlink (components source)) _
                  (make_symlink_Call start changeable (components source)) w)
                (pure_ensures _ _ tt)))))
  execute_operation_Step (hardlink source target) root policy mine w =
      then_ensures _ (from_result_ensures _) (λ from e.
        seq_ensures _ (ensure_source_file_Step start changeable from) (
          seq_ensures _
            (ensure_parent_Step start changeable (absolute_target root (hardlink source target)))
            (seq_ensures _ (ensure_target_available_Step start changeable _ policy.overwrite) (
              seq_ensures _
                (link_by_Step policy.overwrite _ _ (hard_link from) _
                  (hard_link_Call start changeable from) w)
                (pure_ensures _ _ tt)))))
  execute_operation_Step (reflink source target) root policy mine w =
      execute_reflink_Step (reflink source target) root _ policy w
