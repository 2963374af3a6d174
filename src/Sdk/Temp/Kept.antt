-- ===== src/Sdk/Temp/Kept.antt =====
-- Temporary files take no path that was there, and are published only where that is allowed.
use fixer.Common.{ℕ, zero, suc, ◌≡◌, refl, Bool, true, List, [], ◌∷◌}
use fixer.Std.Text.{Text}
use fixer.Std.Path.{normal}
use fixer.Std.FilePath.{FilePath, join_path, file_name}
use fixer.Std.Result.{Result, ok, err}
use fixer.Std.Action.Ensures.{
  Ensures, Any, then_ensures, seq_ensures, pure_ensures, fail_ensures, require_ensures,
  from_result_ensures, map_error_ensures, attempt_ensures, ensures_weaker,
}
use fixer.Std.Fs.{
  Entry, Entries, IoKind, not_found, already_exists, permission_denied, crosses_devices, other_kind,
}
use fixer.Std.Fs.Kept.{
  Since, Free, open_to, symlink_metadata_Call, metadata_Call, look_Call, create_new_Call,
  write_all_Call, sync_all_Call, copy_file_Call, hard_link_Call, rename_Call, remove_file_Call,
  create_dir_all_Call,
}
use fixer.Sdk.Report.{OverwritePolicy, no_overwrite, replace, ExecutionError, Exec}
use fixer.Sdk.Targets.{Host}
use fixer.Sdk.Temp.{
  ensure_parent, available, ensure_target_available, ensure_source_file, next_sequence,
  temp_inspected, temp_name, find_temp_path, unique_temp_path, or_remove, write_temp, copy_temp,
  publish_replacement, publish_by, publish_temp,
}

-- A target that the policy lets the code take.
abbrev pub Writable : (FilePath → Bool) → OverwritePolicy → FilePath → Type 0
Writable changeable no_overwrite target = Unit {0}
Writable changeable replace target = changeable target ≡ true

module _ (start : Entries) (changeable : FilePath → Bool) where
  abbrev pub Step : {A : Type 0} → Exec A → (A → Type 0) → Type 0
  Step m Q = Ensures (Since start changeable) m Q

  pub ensure_parent_Step : (target : FilePath) → Step (ensure_parent target) Any
  unfolding ensure_parent
  ensure_parent_Step target =
      then_ensures _ (from_result_ensures _)
        (λ parent q. map_error_ensures _ _ (create_dir_all_Call start changeable parent))

  available_Step : (target : FilePath) (r : Result IoKind Entry) → Step (available target r) Any
  available_Step target (ok entry) = fail_ensures _ _
  available_Step target (err kind) = pure_ensures _ _ tt

  pub ensure_target_available_Step :
      (target : FilePath) (overwrite : OverwritePolicy)
      → Step (ensure_target_available target overwrite) Any
  unfolding ensure_target_available
  ensure_target_available_Step target replace = pure_ensures _ _ tt
  ensure_target_available_Step target no_overwrite =
      then_ensures _ (attempt_ensures _ (symlink_metadata_Call start changeable target))
        (λ r q. available_Step target r)

  pub ensure_source_file_Step : (source : FilePath) → Step (ensure_source_file source) Any
  unfolding ensure_source_file
  ensure_source_file_Step source =
      then_ensures _ (attempt_ensures _ (metadata_Call start changeable source))
        (λ r q. ensures_weaker _ (require_ensures _ _) (λ a h. tt))

  next_sequence_Step : Step next_sequence Any
  unfolding next_sequence
  next_sequence_Step = record { run = λ world since. (since, tt) }

  temp_inspected_Step :
      (path : FilePath) (r : Result IoKind Entry) (again : Exec FilePath)
      → (r ≡ err not_found → Free start changeable path)
      → Step again (Free start changeable)
      → Step (temp_inspected path r again) (Free start changeable)
  temp_inspected_Step path (ok entry) again h k = k
  temp_inspected_Step path (err not_found) again h k = pure_ensures _ _ (h refl)
  temp_inspected_Step path (err already_exists) again h k = fail_ensures _ _
  temp_inspected_Step path (err permission_denied) again h k = fail_ensures _ _
  temp_inspected_Step path (err crosses_devices) again h k = fail_ensures _ _
  temp_inspected_Step path (err other_kind) again h k = fail_ensures _ _

  find_temp_path_Step :
      (host : Host) (parent : FilePath) (name : Text) (tries : ℕ)
      → Step (find_temp_path host parent name tries) (Free start changeable)
  unfolding find_temp_path
  find_temp_path_Step host parent name zero = fail_ensures _ _
  find_temp_path_Step host parent name (suc tries) =
      then_ensures _ next_sequence_Step (λ sequence q.
        then_ensures _
          (look_Call start changeable
            (join_path parent (normal (temp_name host name sequence) ∷ [])))
          (λ r h. temp_inspected_Step _ r _ h (find_temp_path_Step host parent name tries)))

  pub unique_temp_path_Step :
      (host : Host) (target : FilePath)
      → Step (unique_temp_path host target) (Free start changeable)
  unfolding unique_temp_path
  unique_temp_path_Step host target =
      then_ensures _ (from_result_ensures _)
        (λ parent q. find_temp_path_Step host parent (file_name target) 100)

  pub or_remove_Step :
      {A : Type 0} {temp : FilePath} (r : Result ExecutionError A)
      → Free start changeable temp
      → Step (or_remove temp r) Any
  or_remove_Step (ok a) gap = pure_ensures _ _ tt
  or_remove_Step (err e) gap =
      then_ensures _ (attempt_ensures _ (remove_file_Call start changeable gap))
        (λ r q. fail_ensures _ _)

  pub write_temp_Step :
      (host : Host) (target : FilePath) (content : List ℕ)
      → Step (write_temp host target content) (Free start changeable)
  unfolding write_temp
  write_temp_Step host target content = seq_ensures _ (ensure_parent_Step target) (
      then_ensures _ (unique_temp_path_Step host target) (λ temp gap.
        seq_ensures _
          (ensures_weaker _ (map_error_ensures _ _ (create_new_Call start changeable temp))
            (λ a q. tt))
          (then_ensures _
            (attempt_ensures _ (
              seq_ensures _ (map_error_ensures _ _ (write_all_Call start changeable content gap))
                (map_error_ensures _ _ (sync_all_Call start changeable))))
            (λ r q. seq_ensures _ (or_remove_Step r gap) (pure_ensures _ _ gap)))))

  pub copy_temp_Step :
      (host : Host) (source target : FilePath)
      → Step (copy_temp host source target) (Free start changeable)
  unfolding copy_temp
  copy_temp_Step host source target = seq_ensures _ (ensure_parent_Step target) (
      then_ensures _ (unique_temp_path_Step host target) (λ temp gap.
        seq_ensures _
          (ensures_weaker _ (map_error_ensures _ _ (create_new_Call start changeable temp))
            (λ a q. tt))
          (then_ensures _
            (attempt_ensures _ (map_error_ensures _ _ (copy_file_Call start changeable source gap)))
            (λ r q. seq_ensures _ (or_remove_Step r gap) (pure_ensures _ _ gap)))))

  pub publish_replacement_Step :
      (temp target : FilePath)
      → Free start changeable temp
      → Free start changeable target
      → Step (publish_replacement temp target) Any
  unfolding publish_replacement
  publish_replacement_Step temp target gap place =
      then_ensures _
        (attempt_ensures _ (map_error_ensures _ _ (rename_Call start changeable gap place)))
        (λ r q. or_remove_Step r gap)

  publish_by_Step :
      (overwrite : OverwritePolicy) (temp target : FilePath)
      → Free start changeable temp
      → Writable changeable overwrite target
      → Step (publish_by overwrite temp target) Any
  publish_by_Step no_overwrite temp target gap w =
      seq_ensures _
        (ensures_weaker _ (map_error_ensures _ _ (hard_link_Call start changeable temp target))
          (λ a q. tt))
        (map_error_ensures _ _ (remove_file_Call start changeable gap))
  publish_by_Step replace temp target gap w = publish_replacement_Step temp target gap (open_to w)

  pub publish_temp_Step :
      (temp target : FilePath) (overwrite : OverwritePolicy)
      → Free start changeable temp
      → Writable changeable overwrite target
      → Step (publish_temp temp target overwrite) Any
  unfolding publish_temp
  publish_temp_Step temp target overwrite gap w =
      then_ensures _ (attempt_ensures _ (publish_by_Step overwrite temp target gap w))
        (λ r q. or_remove_Step r gap)
