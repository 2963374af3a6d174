-- ===== src/Jobs/Runtime/Review.antt =====
-- The reviews and executions in crates/fixer-server/src/jobs/mod.rs. The task of an execution begins
-- after its `writing` is published; a panic inside it is left out.
use fixer.Common.{
  ℕ, zero, suc, Bool, true, false, not, ◌&&◌, Option, none, some, List, [], filter, find, length,
  ◌==◌, nat_eq, list_eq, string_eq, option_eq, if◌then◌else◌, String,
}
use fixer.Std.Result.{Result, ok, err, map_err}
use fixer.Std.Action.{◌>>=◌, ◌>>◌, pure, fail, require, from_result, attempt}
use fixer.Core.Scrape.{OperationReport, ReplacementManifest, is_failed, from_reports}
use fixer.Core.Output.{OutputPlan}
use fixer.Sdk.Report.{
  ExecutionError, unsafe_target, target_exists, replacement_not_allowed, source_unavailable,
  relative_symlink_unavailable, reflink_unsupported, invalid_plan, io, ExecutionFailure,
}
use fixer.Jobs.State.{
  JobState, awaiting_confirmation, planning, writing, completed, failed, state_eq,
}
use fixer.Jobs.Model.{
  JobInputDto, new_progress, ReviewDecisionDto, PlanSummary, ExecutionSummary,
  ExecutionFailureSummary,
}
use fixer.Jobs.Store.{
  JobRecord, JobUpdate, Tables, StoreError, not_found, state_conflict, ExecutionReservation,
  reserved, existing, transition, reserve_execution,
}
use fixer.Jobs.Events.{publish_completion}
use fixer.Jobs.Artifacts.{invalid_input}
use fixer.Jobs.Runtime.{
  JobRuntime, RuntimeError, store, flow, review_conflict, artifact_conflict, execution_conflict,
  approval_not_enabled, worker_flow_unavailable, stale_plan, execution_shutting_down,
  reached_unreachable, Answer, sent_to, publish_transition, moved, get,
}
use fixer.Jobs.Runtime.Course.{
  Task, PlanOutcome, reported, not_executed, stopped, look, atomically, next_scan, run_plan,
  registry_closing, flow_is_ready,
}
use fixer.Jobs.Runtime.Flow.{Reconstructed, reconstruct_plan, check_plan}

abbrev with_details : Option ℕ → String → String → ExecutionFailureSummary
with_details operation_index code message = record {
  operation_index = operation_index;
  code = code;
  message = message;
  phase = none;
}

abbrev failed_index : Option OperationReport → Option ℕ
failed_index none = none
failed_index (some operation) = some operation.operation_index

abbrev error_summary : Option ℕ → ExecutionError → ExecutionFailureSummary
error_summary index (unsafe_target path) =
    with_details index "unsafe_target" "An output target is outside the permitted destination"
error_summary index (target_exists path) =
    with_details index "target_exists"
      "An output target already exists; choose another destination or resolve the collision"
error_summary index (ExecutionError.stale_plan path) =
    with_details index "stale_plan"
      "Files changed after planning; rebuild the output plan before retrying"
error_summary index (replacement_not_allowed path) =
    with_details index "replacement_not_allowed"
      "A correction target changed after the prior scrape and was left untouched"
error_summary index (source_unavailable path) =
    with_details index "source_unavailable"
      "A source file is no longer available; restore it and retry"
error_summary index (relative_symlink_unavailable source target) =
    with_details index "relative_symlink_unavailable"
      "A relative link cannot be created for this source and destination"
error_summary index (reflink_unsupported source target kind) =
    with_details index "reflink_unsupported"
      "This filesystem does not support copy-on-write clones for the selected files"
error_summary index (invalid_plan problem) =
    with_details index "invalid_plan" "The output plan is invalid; rebuild it before retrying"
error_summary index (io action path kind) =
    with_details index "filesystem_error"
      "A filesystem operation failed; check permissions and available space"

unfoldable pub execution_failure_summary : ExecutionFailure → ExecutionFailureSummary
execution_failure_summary failure =
    error_summary
      (failed_index (find (λ operation. is_failed operation.outcome) failure.report.operations))
      failure.error

-- `self.store.transition(..)`, and the event of its success, whose own failure is ignored.
abbrev pub written : Result StoreError (JobRecord × Tables) → JobRuntime → Answer JobRecord
written (err e) runtime = (err (store e), runtime)
written (ok (job, tables)) runtime =
    (ok job, (publish_transition job (record runtime { tables = tables })).1)

unfoldable pub try_transition : ℕ → JobState → JobState → JobUpdate → Task JobRecord
try_transition id expected next' update =
    atomically
      (λ time runtime. written (transition time id expected next' update runtime.tables) runtime)

-- The errors that no further attempt is made after.
abbrev pub is_final : RuntimeError → Bool
is_final (store (not_found id)) = true
is_final (store (state_conflict id expected actual)) = true
is_final _ = false

abbrev pub or_again : Task JobRecord → Result RuntimeError JobRecord → Task JobRecord
or_again again (ok job) = pure job
or_again again (err e) = if is_final e then fail e else again

-- The attempts that are left after this one.
unfoldable pub transition_attempts : ℕ → ℕ → JobState → JobState → JobUpdate → Task JobRecord
transition_attempts zero id expected next' update = try_transition id expected next' update
transition_attempts (suc left) id expected next' update =
    attempt (try_transition id expected next' update)
    >>= or_again (transition_attempts left id expected next' update)

-- One attempt, and one after each of RETRY_DELAYS.
unfoldable pub transition_with_retry : ℕ → JobState → JobState → JobUpdate → Task JobRecord
transition_with_retry id expected next' update = transition_attempts 3 id expected next' update

unfoldable pub reconstruct : ℕ → JobInputDto → ReviewDecisionDto → Bool → Task Reconstructed
reconstruct id input decision automatic = do
  ready ← flow_is_ready
  require ready worker_flow_unavailable
  scan ← next_scan
  from_result (reconstruct_plan scan input decision automatic)

abbrev pub reviewed_update : ReviewDecisionDto → ℕ → String → JobUpdate
reviewed_update decision operation_count fingerprint = record {
  progress = some (new_progress "planning" 1 (some 1));
  review = none;
  review_decision = some decision;
  plan = some (record {
    operation_count = operation_count;
    requires_confirmation = true;
    fingerprint = some fingerprint;
  });
  execution = none;
}

unfoldable pub review_with_auto_guard : ℕ → ReviewDecisionDto → Bool → Task JobRecord
review_with_auto_guard id decision automatic = do
  job ← look (get id)
  require (job.state == awaiting_confirmation) (review_conflict job.state)
  reconstructed ← reconstruct id job.input decision automatic
  from_result (check_plan reconstructed.checks.fs_policy reconstructed.plan)
  let update =
      reviewed_update decision (length reconstructed.plan.operations) reconstructed.fingerprint
  atomically (λ time runtime.
      moved (transition time id awaiting_confirmation planning update runtime.tables) runtime)

unfoldable pub review : ℕ → ReviewDecisionDto → Task JobRecord
review id decision = review_with_auto_guard id decision false

-- `or_else` over the two parents of a job
abbrev pub parent_of : JobInputDto → Option ℕ
parent_of input = elim input.retry_of [ none ↦ input.correction_of | some id ↦ some id ]

abbrev pub operations_of : JobRecord → Result RuntimeError (List OperationReport)
operations_of parent = elim parent.execution [
  | none ↦ err (artifact_conflict parent.state)
  | some execution ↦ ok execution.operations
]

abbrev pub invalid_reports : {E A : Type 0} → Result E A → Result RuntimeError A
invalid_reports result = map_err (λ _. flow invalid_input) result

unfoldable pub parent_manifest : ℕ → Task (Option ReplacementManifest)
parent_manifest id = do
  parent ← look (get id)
  operations ← from_result (operations_of parent)
  manifest ← from_result (invalid_reports (from_reports operations))
  pure (some manifest)

unfoldable pub replacement_manifest : ℕ → Task (Option ReplacementManifest)
replacement_manifest id = do
  run ← look (get id)
  elim (parent_of run.input) [ none ↦ pure none | some parent ↦ parent_manifest parent ]

abbrev summary_of : ℕ → ℕ → Option ExecutionFailureSummary → List OperationReport → ExecutionSummary
summary_of completed_operations failed_operations failure operations = record {
  completed_operations = completed_operations;
  failed_operations = failed_operations;
  failure = failure;
  operations = operations;
}

-- The state that an execution ends in, and its summary.
unfoldable pub execution_end : PlanOutcome → JobState × ExecutionSummary
execution_end (reported report) =
    (completed, summary_of (length report.operations) 0 none report.operations)
execution_end (not_executed failure) =
    let operations = failure.report.operations in
    (
      failed,
      summary_of (length (filter (λ operation. not (is_failed operation.outcome)) operations))
          (length (filter (λ operation. is_failed operation.outcome) operations))
          (some (execution_failure_summary failure)) operations,
    )
execution_end stopped = (
  failed,
  summary_of 0 0
      (some (
        with_details none "execution_task_failed"
          "The output task stopped before it could report an operation"))
      [],
)

abbrev stage_of : JobState → String
stage_of next' = if next' == completed then "completed" else "failed"

abbrev pub executed_update : JobState → ExecutionSummary → ℕ → JobUpdate
executed_update next' summary operations = record {
  progress = some (new_progress (stage_of next') summary.completed_operations (some operations));
  review = none;
  review_decision = none;
  plan = none;
  execution = some summary;
}

-- What is written of the outcome.
unfoldable pub finish_execution : ℕ → ℕ → PlanOutcome → Task JobRecord
finish_execution id operations outcome = do
  job ←
      transition_with_retry id writing (execution_end outcome).0
        (executed_update (execution_end outcome).0 (execution_end outcome).1 operations)
  atomically (λ time runtime.
      sent_to (publish_completion id (execution_end outcome).1 runtime.hub) runtime)
  pure job

unfoldable pub run_reserved_execution : ℕ → OutputPlan → ℕ → Task JobRecord
run_reserved_execution id plan operations = replacement_manifest id >>= λ replacing.
    run_plan id plan replacing >>= finish_execution id operations

abbrev pub execution_fingerprint : String
execution_fingerprint = "approved-v1"

abbrev pub auto_execution_key : String
auto_execution_key = "ingestion-auto-v1"

-- What a reservation of a job that was not planning answers.
abbrev pub existing_only :
    Result StoreError (ExecutionReservation × Tables) → JobRuntime → Answer JobRecord
existing_only (err e) runtime = (err (store e), runtime)
existing_only (ok (existing job, tables)) runtime = (ok job, record runtime { tables = tables })
existing_only (ok (reserved job, tables)) runtime =
    (err reached_unreachable, record runtime { tables = tables })

-- A reservation, and the event of a new one.
abbrev pub reservation_answer :
    Result StoreError (ExecutionReservation × Tables) → JobRuntime → Answer ExecutionReservation
reservation_answer (err e) runtime = (err (store e), runtime)
reservation_answer (ok (existing job, tables)) runtime =
    (ok (existing job), record runtime { tables = tables })
reservation_answer (ok (reserved job, tables)) runtime =
    (ok (reserved job), (publish_transition job (record runtime { tables = tables })).1)

abbrev pub given : {A : Type 0} → RuntimeError → Option A → Result RuntimeError A
given e none = err e
given e (some a) = ok a

-- The reviewed plan is the one that was reconstructed.
abbrev pub is_reviewed : PlanSummary → ℕ → String → Bool
is_reviewed reviewed operations fingerprint =
    (operations == reviewed.operation_count) && (reviewed.fingerprint == some fingerprint)

abbrev pub if_reserved : ℕ → OutputPlan → ExecutionReservation → Task JobRecord
if_reserved id plan (existing job) = pure job
if_reserved id plan (reserved job) = run_reserved_execution id plan (length plan.operations)

unfoldable pub run_if_reserved : ℕ → String → OutputPlan → Task JobRecord
run_if_reserved id idempotency_key plan =
    atomically (λ time runtime.
      reservation_answer
        (reserve_execution time id idempotency_key execution_fingerprint runtime.tables) runtime)
    >>= if_reserved id plan

unfoldable pub execute_planned : ℕ → String → JobRecord → ReviewDecisionDto → Task JobRecord
execute_planned id idempotency_key job decision = do
  require job.input.apply approval_not_enabled
  reconstructed ← reconstruct id job.input decision (idempotency_key == auto_execution_key)
  reviewed ← from_result (given (execution_conflict job.state) job.plan)
  require (is_reviewed reviewed (length reconstructed.plan.operations) reconstructed.fingerprint)
      stale_plan
  from_result (check_plan reconstructed.checks.fs_policy reconstructed.plan)
  closing ← registry_closing
  require (not closing) execution_shutting_down
  run_if_reserved id idempotency_key reconstructed.plan

abbrev pub execute_by : ℕ → String → JobRecord → ReviewDecisionDto → Bool → Task JobRecord
execute_by id idempotency_key job decision true = execute_planned id idempotency_key job decision
execute_by id idempotency_key job decision false = atomically (λ time runtime.
    existing_only (reserve_execution time id idempotency_key execution_fingerprint runtime.tables)
      runtime)

unfoldable pub execute : ℕ → String → Task JobRecord
execute id idempotency_key = do
  job ← look (get id)
  decision ← from_result (given (execution_conflict job.state) job.review_decision)
  execute_by id idempotency_key job decision (job.state == planning)
