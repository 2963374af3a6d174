-- ===== src/Jobs/Runtime/Course.antt =====
-- The parts of crates/fixer-server/src/jobs/mod.rs that take several steps, and what they meet on
-- their way: before each step other requests and workers may have moved the runtime, and the clock,
-- the scans of media, the runs of plans and the wish to stop are read from what is to come.
use fixer.Common.{ℕ, Bool, false, Option, none, List, [], ◌∷◌, ◌++◌}
use fixer.Std.Result.{Result, ok, err}
use fixer.Std.Action.{Action}
use fixer.Core.Scrape.{ProviderTarget, ReplacementManifest}
use fixer.Core.Output.{OutputPlan, OutputOperation}
use fixer.Sdk.Report.{ExecutionReport, ExecutionFailure}
use fixer.Jobs.Artifacts.{CandidateArtifact, ReviewArtifacts, JobFlowError}
use fixer.Jobs.Model.{ReviewDecisionDto}
use fixer.Jobs.Runtime.{JobRuntime, RuntimeError, Answer}
use fixer.Common.{String}

-- What the path policy and the file system say of a plan, and of the targets of its operations.
-- Without a policy there is no check.
pub record PlanChecks : Type 0 where
  pub fs_policy : Option (OutputPlan → Bool)
  pub exists : OutputPlan → OutputOperation → Bool
  pub is_dir : OutputPlan → OutputOperation → Bool

-- The interfaces of the artifacts in jobs/worker.rs that a scan leads to: the answers to what the
-- runtime asks of them.
pub record ResolvedArtifact : Type 0 where
  pub conflict_count : Result JobFlowError ℕ
  pub diagnostics : ReviewArtifacts
  pub plan : Result JobFlowError OutputPlan
  pub fingerprint : ReviewDecisionDto → OutputPlan → Result JobFlowError String

pub record SearchArtifact : Type 0 where
  pub candidate_count : ℕ
  pub candidates : Result JobFlowError (List CandidateArtifact × Bool)
  pub target : CandidateArtifact → Result JobFlowError ProviderTarget
  pub resolve_selected : ℕ → Result JobFlowError ResolvedArtifact
  pub checks : PlanChecks

-- A scan, and the search after it.
abbrev pub Scan : Type 0
Scan = Result JobFlowError (Result JobFlowError SearchArtifact)

-- How the task that executes a plan ends.
pub data PlanOutcome : Type 0 where
  reported : ExecutionReport → PlanOutcome
  not_executed : ExecutionFailure → PlanOutcome
  stopped : PlanOutcome

-- A plan that was handed to the executor.
pub record PlanRun : Type 0 where
  pub job_id : ℕ
  pub plan : OutputPlan
  pub replacing : Option ReplacementManifest

-- `executed` is every plan that was handed to the executor, oldest first; `closing` is the state of
-- the registry of executions. The last five lists are what is to come.
pub record Course : Type 0 where
  pub runtime : JobRuntime
  pub executed : List PlanRun
  pub closing : Bool
  pub flow_ready : Bool
  pub moves : List (JobRuntime → JobRuntime)
  pub times : List (Option ℕ)
  pub scans : List Scan
  pub outcomes : List PlanOutcome
  pub stops : List Bool

abbrev pub Task : Type 0 → Type 0
Task A = Action Course RuntimeError A

abbrev pub moved_by : List (JobRuntime → JobRuntime) → Course → Course
moved_by [] course = course
moved_by (move ∷ moves) course = record course { runtime = move course.runtime; moves = moves }

-- What others did in the meantime.
abbrev pub after_others : Course → Course
after_others course = moved_by course.moves course

-- A look at the runtime.
unfoldable pub look : {A : Type 0} → (JobRuntime → Result RuntimeError A) → Task A
look question course = let course' = after_others course in (question course'.runtime, course')

abbrev pub time_of : List (Option ℕ) → Option ℕ
time_of [] = none
time_of (time ∷ times) = time

abbrev pub rest_of {ℓ} : {A : Type ℓ} → List A → List A
rest_of [] = []
rest_of (x ∷ xs) = xs

abbrev pub stepped : {A : Type 0} → Answer A → Course → Result RuntimeError A × Course
stepped (answer, runtime) course = (answer, record course { runtime = runtime })

-- A step under the lock `operations`, or one statement, at the clock's next time.
unfoldable pub atomically : {A : Type 0} → (Option ℕ → JobRuntime → Answer A) → Task A
atomically step course =
    let course' = after_others course in
    stepped (step (time_of course'.times) course'.runtime)
      (record course' { times = rest_of course'.times })

abbrev pub scan_of : List Scan → Scan
scan_of [] = err JobFlowError.local
scan_of (scan ∷ scans) = scan

unfoldable pub next_scan : Task Scan
next_scan course = (ok (scan_of course.scans), record course { scans = rest_of course.scans })

abbrev outcome_of : List PlanOutcome → PlanOutcome
outcome_of [] = stopped
outcome_of (outcome ∷ outcomes) = outcome

-- `plan.execute_replacing(&manifest)` or `plan.execute(ExecutionPolicy::default())`
unfoldable pub run_plan : ℕ → OutputPlan → Option ReplacementManifest → Task PlanOutcome
run_plan id plan replacing course = (
  ok (outcome_of course.outcomes),
  record course {
    executed = course.executed ++ record { job_id = id; plan = plan; replacing = replacing } ∷ [];
    outcomes = rest_of course.outcomes;
  },
)

abbrev stop_of : List Bool → Bool
stop_of [] = false
stop_of (stop ∷ stops) = stop

-- `*shutdown.borrow()`
unfoldable pub shutdown_requested : Task Bool
shutdown_requested course =
    (ok (stop_of course.stops), record course { stops = rest_of course.stops })

unfoldable pub registry_closing : Task Bool
registry_closing course = (ok course.closing, course)

unfoldable pub flow_is_ready : Task Bool
flow_is_ready course = (ok course.flow_ready, course)
