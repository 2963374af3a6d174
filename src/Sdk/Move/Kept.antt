-- ===== src/Sdk/Move/Kept.antt =====
-- A move changes its source and a target that it may take.
use fixer.Common.{◌≡◌, Bool, true, false, ◌==◌, list_eq, if◌then◌else◌}
use fixer.Std.FilePath.{FilePath, component_eq}
use fixer.Std.Result.{Result, ok, err}
use fixer.Std.Action.{Action}
use fixer.Std.Action.Ensures.{
  Ensures, Yields, Any, then_ensures, seq_ensures, seq_knowing, pure_ensures, fail_ensures,
  require_ensures, from_result_ensures, map_error_ensures, attempt_ensures, ensures_weaker,
}
use fixer.Std.Fs.{
  World, Entry, Entries, IoKind, not_found, already_exists, permission_denied, crosses_devices,
  other_kind, symlink_metadata, remove_file,
}
use fixer.Std.Fs.Kept.{
  Since, Free, open_to, Call, symlink_metadata_Call, canonicalize_Call, create_new_Call,
  rename_Call, remove_file_Call,
}
use fixer.Core.Output.{OutputOperation}
use fixer.Sdk.Report.{OverwritePolicy, no_overwrite, replace, Exec}
use fixer.Sdk.Fingerprint.{PathFingerprint, missing, capture, captured, fingerprint_eq}
use fixer.Sdk.Targets.{Host, required_source}
use fixer.Sdk.Temp.{copy_temp}
use fixer.Sdk.Temp.Kept.{
  Writable, Step, ensure_parent_Step, ensure_target_available_Step, ensure_source_file_Step,
  or_remove_Step, copy_temp_Step, publish_replacement_Step,
}
use fixer.Sdk.Move.{
  capture_move_source, ensure_source_fresh, remove_moved_source, reserve_move_target,
  clear_reservation, after_rename, publish_move_no_overwrite_with, publish_move_no_overwrite,
  publish_move_direct, publish_copy_by, publish_copied_move, finish_apart, finish_direct_move,
  same_place, copy_across, after_direct, execute_move_after_validation_with,
  execute_move_after_validation, execute_move,
}

module _ (start : Entries) (changeable : FilePath → Bool) where
  -- Either branch of a test.
  pub if_Step :
      {E A : Type 0} {Q : A → Type 0} (b : Bool) {m k : Action World E A}
      → Ensures (Since start changeable) m Q
      → Ensures (Since start changeable) k Q
      → Ensures (Since start changeable) (if b then m else k) Q
  if_Step true h j = h
  if_Step false h j = j

  pub capture_Call : (path : FilePath) → Call start changeable (capture path) Any
  unfolding capture
  capture_Call path = record {
    run = λ world since.
        seen (symlink_metadata path world)
          ((symlink_metadata_Call start changeable path).run world since).0;
  }
    where
      seen :
          (r : Result IoKind Entry × World)
          → Since start changeable r.1
          → Since start changeable (captured r).1
            × Yields (captured r).0 (Any {A = PathFingerprint})
      seen (ok entry, w) since = (since, tt)
      seen (err not_found, w) since = (since, tt)
      seen (err already_exists, w) since = (since, tt)
      seen (err permission_denied, w) since = (since, tt)
      seen (err crosses_devices, w) since = (since, tt)
      seen (err other_kind, w) since = (since, tt)

  capture_move_source_Step :
      (source : FilePath) → Step start changeable (capture_move_source source) Any
  unfolding capture_move_source
  capture_move_source_Step source =
      then_ensures _ (map_error_ensures _ _ (capture_Call source))
        (λ fingerprint q. if_Step (fingerprint == missing) (fail_ensures _ _) (pure_ensures _ _ tt))

  ensure_source_fresh_Step :
      (source : FilePath) (expected : PathFingerprint)
      → Step start changeable (ensure_source_fresh source expected) Any
  unfolding ensure_source_fresh
  ensure_source_fresh_Step source expected =
      then_ensures _ (map_error_ensures _ _ (capture_Call source))
        (λ current q. ensures_weaker _ (require_ensures _ _) (λ a h. tt))

  remove_moved_source_Step :
      (source : FilePath)
      → Free start changeable source
      → Step start changeable (remove_moved_source source) Any
  unfolding remove_moved_source
  remove_moved_source_Step source mine =
      map_error_ensures _ _ (remove_file_Call start changeable mine)

  reserve_move_target_Call :
      (target : FilePath)
      → Call start changeable (reserve_move_target target) (λ _. Free start changeable target)
  unfolding reserve_move_target
  reserve_move_target_Call target = seq_knowing _ (create_new_Call start changeable target) (λ gap.
      then_ensures _ (symlink_metadata_Call start changeable target)
        (λ metadata q. pure_ensures _ _ gap))

  clear_reservation_Call :
      (target : FilePath) (reservation current : PathFingerprint)
      → Free start changeable target
      → Call start changeable (clear_reservation remove_file target reservation current) Any
  clear_reservation_Call target reservation current gap =
      if_Step (current == reservation) (remove_file_Call start changeable gap)
        (if_Step (current == missing) (pure_ensures _ _ tt) (fail_ensures _ _))

  after_rename_Call :
      (target : FilePath) (reservation : PathFingerprint) (r : Result IoKind (Unit {0}))
      → Free start changeable target
      → Call start changeable (after_rename remove_file target reservation r) Any
  after_rename_Call target reservation (ok done) gap = pure_ensures _ _ tt
  after_rename_Call target reservation (err kind) gap =
      then_ensures _ (capture_Call target) (λ current q.
        seq_ensures _ (clear_reservation_Call target reservation current gap) (fail_ensures _ _))

  publish_move_no_overwrite_Call :
      (source target : FilePath)
      → Free start changeable source
      → Call start changeable (publish_move_no_overwrite source target) Any
  unfolding publish_move_no_overwrite publish_move_no_overwrite_with
  publish_move_no_overwrite_Call source target mine =
      then_ensures _ (reserve_move_target_Call target) (λ reservation gap.
        then_ensures _ (capture_Call target) (λ current q.
          seq_ensures _ (ensures_weaker _ (require_ensures _ _) (λ a h. tt)) (
            then_ensures _ (attempt_ensures _ (rename_Call start changeable mine gap))
              (λ r h. after_rename_Call target reservation r gap))))

  publish_move_direct_Call :
      (source target : FilePath) (overwrite : OverwritePolicy)
      → Free start changeable source
      → Writable changeable overwrite target
      → Call start changeable (publish_move_direct source target overwrite) Any
  unfolding publish_move_direct
  publish_move_direct_Call source target no_overwrite mine w =
      publish_move_no_overwrite_Call source target mine
  publish_move_direct_Call source target replace mine w =
      rename_Call start changeable mine (open_to w)

  publish_copy_by_Step :
      (overwrite : OverwritePolicy) (temp target : FilePath)
      → Free start changeable temp
      → Writable changeable overwrite target
      → Step start changeable (publish_copy_by overwrite temp target) Any
  publish_copy_by_Step no_overwrite temp target gap w =
      map_error_ensures _ _ (publish_move_no_overwrite_Call temp target gap)
  publish_copy_by_Step replace temp target gap w =
      publish_replacement_Step start changeable temp target gap (open_to w)

  publish_copied_move_Step :
      (temp target : FilePath) (overwrite : OverwritePolicy)
      → Free start changeable temp
      → Writable changeable overwrite target
      → Step start changeable (publish_copied_move temp target overwrite) Any
  unfolding publish_copied_move
  publish_copied_move_Step temp target overwrite gap w =
      then_ensures _ (attempt_ensures _ (publish_copy_by_Step overwrite temp target gap w))
        (λ r q. or_remove_Step start changeable r gap)

  finish_apart_Step :
      (source target : FilePath) (source_fingerprint : PathFingerprint)
      → Free start changeable source
      → Step start changeable (finish_apart source target source_fingerprint) Any
  finish_apart_Step source target source_fingerprint mine =
      then_ensures _ (map_error_ensures _ _ (capture_Call source)) (λ current q.
        if_Step (current == missing) (pure_ensures _ _ tt) (
          then_ensures _ (map_error_ensures _ _ (capture_Call target)) (λ published p.
            seq_ensures _ (ensures_weaker _ (require_ensures _ _) (λ a h. tt)) (
              seq_ensures _ (ensures_weaker _ (require_ensures _ _) (λ a h. tt))
                (remove_moved_source_Step source mine)))))

  finish_direct_move_Step :
      (source target : FilePath) (source_fingerprint : PathFingerprint)
      → Free start changeable source
      → Step start changeable (finish_direct_move source target source_fingerprint) Any
  unfolding finish_direct_move
  finish_direct_move_Step source target source_fingerprint mine =
      if_Step (source == target) (pure_ensures _ _ tt) (
        then_ensures _ (attempt_ensures _ (canonicalize_Call start changeable source)) (λ a p.
          then_ensures _ (attempt_ensures _ (canonicalize_Call start changeable target)) (λ b q.
            if_Step (same_place a b) (pure_ensures _ _ tt)
              (finish_apart_Step source target source_fingerprint mine))))

  copy_across_Step :
      (host : Host) (source target : FilePath) (overwrite : OverwritePolicy)
      (source_fingerprint : PathFingerprint)
      → Free start changeable source
      → Writable changeable overwrite target
      → Step start changeable
          (copy_across
            (copy_temp host)
            publish_copied_move
            source
            target
            overwrite
            source_fingerprint)
          Any
  copy_across_Step host source target overwrite source_fingerprint mine w =
      seq_ensures _ (ensure_source_fresh_Step source source_fingerprint) (
        then_ensures _ (copy_temp_Step start changeable host source target) (λ temp gap.
          then_ensures _ (attempt_ensures _ (ensure_source_fresh_Step source source_fingerprint))
            (λ r p. seq_ensures _ (or_remove_Step start changeable r gap) (
              then_ensures _
                (attempt_ensures _ (publish_copied_move_Step temp target overwrite gap w))
                (λ s q. seq_ensures _ (or_remove_Step start changeable s gap) (
                  seq_ensures _ (ensure_source_fresh_Step source source_fingerprint)
                    (remove_moved_source_Step source mine)))))))

  after_direct_Step :
      (source target : FilePath) (source_fingerprint : PathFingerprint) (across : Exec (Unit {0}))
      (r : Result IoKind (Unit {0}))
      → Free start changeable source
      → Step start changeable across Any
      → Step start changeable (after_direct source target source_fingerprint across r) Any
  after_direct_Step source target source_fingerprint across (ok done) mine h =
      finish_direct_move_Step source target source_fingerprint mine
  after_direct_Step source target source_fingerprint across (err crosses_devices) mine h = h
  after_direct_Step source target source_fingerprint across (err not_found) mine h =
      fail_ensures _ _
  after_direct_Step source target source_fingerprint across (err already_exists) mine h =
      fail_ensures _ _
  after_direct_Step source target source_fingerprint across (err permission_denied) mine h =
      fail_ensures _ _
  after_direct_Step source target source_fingerprint across (err other_kind) mine h =
      fail_ensures _ _

  execute_move_after_validation_Step :
      (host : Host) (source target : FilePath) (overwrite : OverwritePolicy)
      → Free start changeable source
      → Writable changeable overwrite target
      → Step start changeable
          (execute_move_after_validation host source target overwrite publish_move_direct)
          Any
  unfolding execute_move_after_validation execute_move_after_validation_with
  execute_move_after_validation_Step host source target overwrite mine w =
      then_ensures _ (capture_move_source_Step source) (λ source_fingerprint q.
        then_ensures _ (attempt_ensures _ (publish_move_direct_Call source target overwrite mine w))
          (λ r p.
            after_direct_Step source target source_fingerprint _ r mine
              (copy_across_Step host source target overwrite source_fingerprint mine w)))

  pub execute_move_Step :
      (host : Host) (operation : OutputOperation) (root target : FilePath)
      (overwrite : OverwritePolicy)
      → ((source : FilePath)
          → required_source host root operation ≡ ok source
          → changeable source ≡ true)
      → Writable changeable overwrite target
      → Step start changeable (execute_move host operation root target overwrite) Any
  unfolding execute_move
  execute_move_Step host operation root target overwrite mine w =
      then_ensures _ (from_result_ensures _) (λ source e.
        seq_ensures _ (ensure_source_file_Step start changeable source) (
          seq_ensures _ (ensure_parent_Step start changeable target) (
            seq_ensures _ (ensure_target_available_Step start changeable target overwrite) (
              seq_ensures _
                (execute_move_after_validation_Step host source target overwrite
                  (open_to (mine source e)) w)
                (pure_ensures _ _ tt)))))
