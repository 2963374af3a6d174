-- ===== src/Sdk/Report.antt =====
-- crates/fixer-sdk/src/output/executor.rs: policies, errors and what a run reports.
use fixer.Common.{String, Bool, true, false, List, []}
use fixer.Std.Text.{Text}
use fixer.Std.FilePath.{FilePath}
use fixer.Std.Fs.{World, IoKind, already_exists}
use fixer.Std.Action.{Action}
use fixer.Core.Error.{CoreError}
use fixer.Core.Scrape.{OperationReport}

pub data OverwritePolicy : Type 0 where
  no_overwrite replace : OverwritePolicy

abbrev pub is_no_overwrite : OverwritePolicy → Bool
is_no_overwrite no_overwrite = true
is_no_overwrite replace = false

pub data ReflinkPolicy : Type 0 where
  required fallback_to_copy : ReflinkPolicy

abbrev pub is_required : ReflinkPolicy → Bool
is_required required = true
is_required fallback_to_copy = false

pub record ExecutionPolicy : Type 0 where
  pub is_dry_run : Bool
  pub overwrite : OverwritePolicy
  pub reflink : ReflinkPolicy

-- `ExecutionPolicy::default()`
unfoldable pub default_policy : ExecutionPolicy
default_policy = record { is_dry_run = false; overwrite = no_overwrite; reflink = required }

unfoldable pub dry_run : ExecutionPolicy
dry_run = record { is_dry_run = true; overwrite = no_overwrite; reflink = required }

unfoldable pub with_overwrite : OverwritePolicy → ExecutionPolicy → ExecutionPolicy
with_overwrite overwrite policy = record policy { overwrite = overwrite }

unfoldable pub with_reflink : ReflinkPolicy → ExecutionPolicy → ExecutionPolicy
with_reflink reflink policy = record policy { reflink = reflink }

pub data OperationStatus : Type 0 where
  completed reflinked copied_fallback : OperationStatus

pub record ExecutionReport : Type 0 where
  pub operations : List OperationReport

abbrev pub empty_report : ExecutionReport
empty_report = record { operations = [] }

-- The texts of an invalid plan that are not an error of the core.
pub data PlanProblem : Type 0 where
  core_problem : CoreError → PlanProblem
  relative_move_source : Text → PlanProblem
  described : String → PlanProblem

pub data ExecutionError : Type 0 where
  unsafe_target target_exists stale_plan replacement_not_allowed source_unavailable :
      FilePath → ExecutionError
  relative_symlink_unavailable : FilePath → FilePath → ExecutionError
  reflink_unsupported : FilePath → FilePath → IoKind → ExecutionError
  invalid_plan : PlanProblem → ExecutionError
  io : String → FilePath → IoKind → ExecutionError

pub record ExecutionFailure : Type 0 where
  pub error : ExecutionError
  pub report : ExecutionReport

-- Actions of the executor.
abbrev pub Exec : Type 0 → Type 0
Exec A = Action World ExecutionError A

unfoldable pub io_error : String → FilePath → IoKind → ExecutionError
io_error action path kind = io action path kind

unfoldable pub map_target_io : String → FilePath → IoKind → ExecutionError
unfolding io_error
map_target_io action path already_exists = target_exists path
map_target_io action path kind = io_error action path kind
