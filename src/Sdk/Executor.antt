-- ===== src/Sdk/Executor.antt =====
-- crates/fixer-sdk/src/output/executor.rs: a prepared plan is run if what was observed still holds.
pub mod Kept
pub mod Refused
pub mod Replaced
pub mod Reported
use fixer.Common.{ℕ, suc, Bool, true, false, Option, none, some, List, [], ◌∷◌, if◌then◌else◌}
use fixer.Std.FilePath.{FilePath, show_path}
use fixer.Std.Result.{Result, ok, err}
use fixer.Std.Action.{◌>>=◌, ◌>>◌, pure, fail, map_error, attempt}
use fixer.Std.Fs.{Entry, IoKind, not_found, symlink_metadata, metadata}
use fixer.Core.Scrape.{OutputFingerprint, ReplacementManifest, allows, failed, succeeded}
use fixer.Core.Scrape.OperationOutcome.{dry_run as dry_run_outcome}
use fixer.Core.Output.{OutputOperation, create_directory}
use fixer.Sdk.Report.{
  replace, ExecutionError, replacement_not_allowed, ExecutionPolicy, default_policy, with_overwrite,
  ExecutionReport, empty_report, io_error,
}
use fixer.Sdk.Fingerprint.{fingerprint_eq}
use fixer.Sdk.Targets.{Host, relative_target, absolute_target}
use fixer.Sdk.Operations.{execute_operation}
use fixer.Sdk.Audit.{Run, failing, push_operation_report, output_fingerprint}
use fixer.Sdk.Preflight.{PreparedOutputPlan, ensure_safe_ancestors, preflight, ensure_fresh}

-- `let _ = push_operation_report(.., Failed, None)`
abbrev pub kept_report : ExecutionReport → Result ExecutionError ExecutionReport → ExecutionReport
kept_report report (ok report') = report'
kept_report report (err e) = report

abbrev pub fail_operation :
    {A : Type 0} → Host → ExecutionReport → FilePath → OutputOperation → ℕ → ExecutionError → Run A
fail_operation host report root operation index error = fail (
    failing
      (kept_report report (push_operation_report host report root operation index failed none))
      error)

-- A report that cannot be pushed ends the run.
abbrev pub pushed : ExecutionReport → Result ExecutionError ExecutionReport → Run ExecutionReport
pushed report (ok report') = pure report'
pushed report (err e) = fail (failing report e)

abbrev pub or_fail :
    {A : Type 0}
    → Host
    → ExecutionReport
    → FilePath
    → OutputOperation
    → ℕ
    → Result ExecutionError A
    → Run A
or_fail host report root operation index (ok a) = pure a
or_fail host report root operation index (err e) = fail_operation host report root operation index e

-- One round of the loop of a real run.
unfoldable pub run_operation :
    Host → FilePath → ExecutionPolicy → ExecutionReport → ℕ → OutputOperation → Run ExecutionReport
unfolding ensure_safe_ancestors relative_target execute_operation output_fingerprint absolute_target
    push_operation_report
run_operation host root policy report index operation = do
  safe ← attempt (ensure_safe_ancestors root (relative_target operation))
  or_fail host report root operation index safe
  done ← attempt (execute_operation host operation root policy)
  _ ← or_fail host report root operation index done
  found ← attempt (output_fingerprint host (absolute_target root operation))
  fingerprint ← or_fail host report root operation index found
  pushed report (push_operation_report host report root operation index succeeded fingerprint)

unfoldable pub run_operations :
    Host
    → FilePath
    → ExecutionPolicy
    → ExecutionReport
    → ℕ
    → List OutputOperation
    → Run ExecutionReport
unfolding run_operation
run_operations host root policy report index [] = pure report
run_operations host root policy report index (operation ∷ operations) = do
  report' ← run_operation host root policy report index operation
  run_operations host root policy report' (suc index) operations

-- The loop of a dry run.
unfoldable pub report_operations :
    Host → FilePath → ExecutionReport → ℕ → List OutputOperation → Run ExecutionReport
unfolding push_operation_report
report_operations host root report index [] = pure report
report_operations host root report index (operation ∷ operations) = do
  report' ←
      pushed report (push_operation_report host report root operation index dry_run_outcome none)
  report_operations host root report' (suc index) operations

abbrev pub preflight_failure :
    {A : Type 0} → Host → FilePath → ℕ × OutputOperation × ExecutionError → Run A
preflight_failure host root (index, operation, error) = do
  report ←
      pushed empty_report (push_operation_report host empty_report root operation index failed none)
  fail (failing report error)

abbrev pub or_preflight_failure :
    Host → FilePath → Result (ℕ × OutputOperation × ExecutionError) (Unit {0}) → Run (Unit {0})
or_preflight_failure host root (ok done) = pure tt
or_preflight_failure host root (err e) = preflight_failure host root e

abbrev pub run_plan : Host → PreparedOutputPlan → ExecutionPolicy → Bool → Run ExecutionReport
run_plan host prepared policy true =
    report_operations host prepared.root empty_report 0 prepared.plan.operations
run_plan host prepared policy false = do
  checked ← attempt (preflight host prepared.root policy 0 prepared.plan.operations)
  or_preflight_failure host prepared.root checked
  run_operations host prepared.root policy empty_report 0 prepared.plan.operations

unfoldable pub execute : Host → PreparedOutputPlan → ExecutionPolicy → Run ExecutionReport
unfolding ensure_fresh report_operations preflight run_operations
execute host prepared policy = do
  map_error (failing empty_report) (ensure_fresh prepared.observed)
  run_plan host prepared policy policy.is_dry_run

abbrev pub is_create_directory : OutputOperation → Bool
is_create_directory (create_directory target) = true
is_create_directory _ = false

-- `.ok().flatten().is_some_and(..)`
abbrev pub allowed :
    ReplacementManifest → FilePath → Result ExecutionError (Option OutputFingerprint) → Bool
allowed manifest target (ok (some fingerprint)) = allows manifest (show_path target) fingerprint
allowed manifest target _ = false

abbrev pub target_found :
    Host
    → ReplacementManifest
    → FilePath
    → OutputOperation
    → ℕ
    → Result IoKind Entry
    → Run (Unit {0})
target_found host manifest root operation index (err not_found) = pure tt
target_found host manifest root operation index (err kind) = fail (
    failing empty_report
      (io_error "inspect replacement target" (absolute_target root operation) kind))
target_found host manifest root operation index (ok metadata) = do
  found ← attempt (output_fingerprint host (absolute_target root operation))
  if allowed manifest (absolute_target root operation) found
      then pure tt
      else fail_operation host empty_report root operation index
          (replacement_not_allowed (absolute_target root operation))

-- One round of the loop over the targets that are there.
unfoldable pub check_replacement :
    Host → ReplacementManifest → FilePath → ℕ → OutputOperation → Run (Unit {0})
unfolding absolute_target symlink_metadata output_fingerprint allows push_operation_report io_error
    show_path
check_replacement host manifest root index operation =
    if is_create_directory operation then pure tt else (do
      found ← attempt (symlink_metadata (absolute_target root operation))
      target_found host manifest root operation index found)

unfoldable pub check_replacements :
    Host → ReplacementManifest → FilePath → ℕ → List OutputOperation → Run (Unit {0})
unfolding check_replacement
check_replacements host manifest root index [] = pure tt
check_replacements host manifest root index (operation ∷ operations) = do
  check_replacement host manifest root index operation
  check_replacements host manifest root (suc index) operations

unfoldable pub execute_replacing :
    Host → PreparedOutputPlan → ReplacementManifest → Run ExecutionReport
unfolding ensure_fresh check_replacements execute with_overwrite default_policy
execute_replacing host prepared manifest = do
  map_error (failing empty_report) (ensure_fresh prepared.observed)
  check_replacements host manifest prepared.root 0 prepared.plan.operations
  execute host prepared (with_overwrite replace default_policy)
