-- ===== src/Sdk/Preflight/Quiet.antt =====
-- Looking at the paths of a plan changes no entry.
use fixer.Common.{ℕ, suc, Bool, List, [], ◌∷◌}
use fixer.Std.Text.{Text}
use fixer.Std.Path.{components, root_dir, cur_dir, parent_dir, normal}
use fixer.Std.FilePath.{FilePath, join_path, parent_path}
use fixer.Std.Result.{Result, ok, err}
use fixer.Std.Action.{Action, require}
use fixer.Std.Action.Ensures.{
  Ensures, Any, then_ensures, seq_ensures, pure_ensures, fail_ensures, require_ensures,
  from_result_ensures, map_error_ensures, attempt_ensures, ensures_weaker,
}
use fixer.Std.Fs.{
  World, Entry, Entries, IoKind, not_found, already_exists, permission_denied, crosses_devices,
  other_kind, symlink_metadata, is_symlink, is_file,
}
use fixer.Std.Fs.Quiet.{
  Same, any, if_Quiet, symlink_metadata_Quiet, metadata_Quiet, read_file_Quiet,
}
use fixer.Core.Error.{CoreError}
use fixer.Core.Output.{
  OutputOperation, create_directory, write_bytes, copy, move, symlink, hardlink, reflink,
}
use fixer.Core.Scrape.{OutputFingerprint, new_fingerprint}
use fixer.Sdk.Report.{OverwritePolicy, no_overwrite, replace, ExecutionPolicy, ExecutionError, Exec}
use fixer.Sdk.Fingerprint.{capture, captured, fingerprint_eq}
use fixer.Sdk.Targets.{Host, absolute_target, relative_target}
use fixer.Sdk.Temp.{available, ensure_target_available, ensure_source_file}
use fixer.Sdk.Audit.{hashed, output_fingerprint}
use fixer.Sdk.Preflight.{
  ObservedPath, ancestors_of, ancestor_inspected, inspect_ancestors, ensure_safe_ancestors,
  directory_available, preflight_source, preflight_operation, preflight_check, preflight,
  ensure_fresh,
}

module _ (start : Entries) where
  abbrev pub Looks : {E A : Type 0} → Action World E A → Type 0
  Looks m = Ensures (Same start) m Any

  seen_Same : (r : Result IoKind Entry × World) → Same start r.1 → Same start (captured r).1
  seen_Same (ok entry, w) h = h
  seen_Same (err not_found, w) h = h
  seen_Same (err already_exists, w) h = h
  seen_Same (err permission_denied, w) h = h
  seen_Same (err crosses_devices, w) h = h
  seen_Same (err other_kind, w) h = h

  pub capture_Quiet : (path : FilePath) → Looks (capture path)
  unfolding capture
  capture_Quiet path = record {
    run = λ world h. (
      seen_Same (symlink_metadata path world) ((symlink_metadata_Quiet start path).run world h).0,
      any start (captured (symlink_metadata path world)).0,
    );
  }

  require_Quiet : (b : Bool) (e : ExecutionError) → Looks (require b e)
  require_Quiet b e = ensures_weaker _ (require_ensures _ e) (λ a h. tt)

  available_Quiet : (target : FilePath) (r : Result IoKind Entry) → Looks (available target r)
  available_Quiet target (ok entry) = fail_ensures _ _
  available_Quiet target (err kind) = pure_ensures _ _ tt

  pub ensure_target_available_Quiet :
      (target : FilePath) (overwrite : OverwritePolicy)
      → Looks (ensure_target_available target overwrite)
  unfolding ensure_target_available
  ensure_target_available_Quiet target replace = pure_ensures _ _ tt
  ensure_target_available_Quiet target no_overwrite =
      then_ensures _ (attempt_ensures _ (symlink_metadata_Quiet start target))
        (λ r q. available_Quiet target r)

  ensure_source_file_Quiet : (source : FilePath) → Looks (ensure_source_file source)
  unfolding ensure_source_file
  ensure_source_file_Quiet source =
      then_ensures _ (attempt_ensures _ (metadata_Quiet start source)) (λ r q. require_Quiet _ _)

  ancestor_inspected_Quiet :
      (current : FilePath) (r : Result IoKind Entry) (rest : Exec (Unit {0}))
      → Looks rest
      → Looks (ancestor_inspected current r rest)
  ancestor_inspected_Quiet current (ok entry) rest h =
      if_Quiet start (is_symlink entry.node) (fail_ensures _ _) h
  ancestor_inspected_Quiet current (err not_found) rest h = pure_ensures _ _ tt
  ancestor_inspected_Quiet current (err already_exists) rest h = fail_ensures _ _
  ancestor_inspected_Quiet current (err permission_denied) rest h = fail_ensures _ _
  ancestor_inspected_Quiet current (err crosses_devices) rest h = fail_ensures _ _
  ancestor_inspected_Quiet current (err other_kind) rest h = fail_ensures _ _

  inspect_ancestors_Quiet : (current rest : FilePath) → Looks (inspect_ancestors current rest)
  unfolding inspect_ancestors
  inspect_ancestors_Quiet current [] = pure_ensures _ _ tt
  inspect_ancestors_Quiet current (normal segment ∷ rest) =
      then_ensures _
        (attempt_ensures _ (symlink_metadata_Quiet start (join_path current (normal segment ∷ []))))
        (λ r q. ancestor_inspected_Quiet _ r _ (inspect_ancestors_Quiet _ rest))
  inspect_ancestors_Quiet current (root_dir ∷ rest) = inspect_ancestors_Quiet current rest
  inspect_ancestors_Quiet current (cur_dir ∷ rest) = inspect_ancestors_Quiet current rest
  inspect_ancestors_Quiet current (parent_dir ∷ rest) = inspect_ancestors_Quiet current rest

  pub ensure_safe_ancestors_Quiet :
      (root : FilePath) (target : Text) → Looks (ensure_safe_ancestors root target)
  unfolding ensure_safe_ancestors
  ensure_safe_ancestors_Quiet root target =
      seq_ensures _ (ensures_weaker _ (from_result_ensures _) (λ a h. tt)) (
        then_ensures _ (attempt_ensures _ (symlink_metadata_Quiet start root)) (λ r q.
          seq_ensures _ (require_Quiet _ _)
            (inspect_ancestors_Quiet root (ancestors_of (parent_path (components target))))))

  directory_available_Quiet :
      (target : FilePath) (r : Result IoKind Entry) → Looks (directory_available target r)
  directory_available_Quiet target (ok entry) = require_Quiet _ _
  directory_available_Quiet target (err kind) = pure_ensures _ _ tt

  preflight_source_Quiet :
      (host : Host) (operation : OutputOperation) (root target : FilePath)
      (policy : ExecutionPolicy)
      → Looks (preflight_source host operation root target policy)
  preflight_source_Quiet host operation root target policy =
      then_ensures _ (from_result_ensures _) (λ source e.
        seq_ensures _ (ensure_source_file_Quiet source)
          (ensure_target_available_Quiet target policy.overwrite))

  preflight_operation_Quiet :
      (host : Host) (operation : OutputOperation) (root target : FilePath)
      (policy : ExecutionPolicy)
      → Looks (preflight_operation host operation root target policy)
  preflight_operation_Quiet host (create_directory t) root target policy =
      then_ensures _ (attempt_ensures _ (symlink_metadata_Quiet start target))
        (λ r q. directory_available_Quiet target r)
  preflight_operation_Quiet host (write_bytes t content) root target policy =
      ensure_target_available_Quiet target policy.overwrite
  preflight_operation_Quiet host (copy s t) root target policy =
      preflight_source_Quiet host _ root target policy
  preflight_operation_Quiet host (move s t) root target policy =
      preflight_source_Quiet host _ root target policy
  preflight_operation_Quiet host (symlink s t) root target policy =
      preflight_source_Quiet host _ root target policy
  preflight_operation_Quiet host (hardlink s t) root target policy =
      preflight_source_Quiet host _ root target policy
  preflight_operation_Quiet host (reflink s t) root target policy =
      preflight_source_Quiet host _ root target policy

  preflight_check_Quiet :
      (host : Host) (operation : OutputOperation) (root : FilePath) (policy : ExecutionPolicy)
      → Looks (preflight_check host operation root policy)
  unfolding preflight_check
  preflight_check_Quiet host operation root policy =
      seq_ensures _ (ensure_safe_ancestors_Quiet root (relative_target operation))
        (preflight_operation_Quiet host operation root (absolute_target root operation) policy)

  pub preflight_Quiet :
      (host : Host) (root : FilePath) (policy : ExecutionPolicy) (index : ℕ)
      (operations : List OutputOperation)
      → Looks (preflight host root policy index operations)
  unfolding preflight
  preflight_Quiet host root policy index [] = pure_ensures _ _ tt
  preflight_Quiet host root policy index (operation ∷ operations) =
      seq_ensures _ (map_error_ensures _ _ (preflight_check_Quiet host operation root policy))
        (preflight_Quiet host root policy (suc index) operations)

  pub ensure_fresh_Quiet : (observed : List ObservedPath) → Looks (ensure_fresh observed)
  unfolding ensure_fresh
  ensure_fresh_Quiet [] = pure_ensures _ _ tt
  ensure_fresh_Quiet (o ∷ rest) =
      then_ensures _ (map_error_ensures _ _ (capture_Quiet o.path))
        (λ current q. seq_ensures _ (require_Quiet _ _) (ensure_fresh_Quiet rest))

  hashed_Quiet : (r : Result CoreError OutputFingerprint) → Looks (hashed r)
  hashed_Quiet (ok fingerprint) = pure_ensures _ _ tt
  hashed_Quiet (err e) = fail_ensures _ _

  pub output_fingerprint_Quiet :
      (host : Host) (target : FilePath) → Looks (output_fingerprint host target)
  unfolding output_fingerprint
  output_fingerprint_Quiet host target =
      then_ensures _ (map_error_ensures _ _ (metadata_Quiet start target)) (λ entry q.
        if_Quiet start (is_file entry.node)
          (then_ensures _ (map_error_ensures _ _ (read_file_Quiet start target))
            (λ content p. hashed_Quiet (new_fingerprint (host.sha256 content))))
          (pure_ensures _ _ tt))
