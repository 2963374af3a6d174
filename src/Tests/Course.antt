-- ===== src/Tests/Course.antt =====
-- Reviews, executions and the worker of crates/fixer-server/src/jobs/mod.rs at small courses, and
-- instances of the theorems of Jobs/Runtime.
use fixer.Common.{ℕ, ◌≡◌, refl, true, false, none, some, Option, List, [], ◌∷◌, ◌⊎◌, All, arith}
use fixer.Std.Text.{text}
use fixer.Std.Result.{Result, ok, err}
use fixer.Std.Action.{◌>>=◌, ◌>>◌, pure, fail, require, from_result, attempt}
use fixer.Core.Output.{OutputPlan, create_directory}
use fixer.Jobs.State.{
  JobState, queued, searching, awaiting_confirmation, planning, writing, completed, interrupted,
  can_transition_to,
}
use fixer.Jobs.Model.{JobInputDto, JobMediaKind, ReviewDecisionDto, new_input}
use fixer.Jobs.Automation.{auto_decision}
use fixer.Jobs.Store.{
  JobRecord, get_job, find_job, set_job, find_execution, transition, has_execution_reservation,
  reserve_execution, claim_oldest_queued, oldest_queued, timestamp_ms,
}
use fixer.Jobs.Events.{
  publish, publish_state, publish_progress, publish_review, publish_completion, new_hub, trim,
}
use fixer.Jobs.Events.Log.{IsLog, new_hub-IsLog}
use fixer.Jobs.Runtime.{
  JobRuntime, RuntimeError, reached_unreachable, open_queue, moved, get, publish_transition,
}
use fixer.Jobs.Runtime.Course.{
  Course, PlanRun, ResolvedArtifact, SearchArtifact, Scan, reported, look, atomically, next_scan,
  run_plan, shutdown_requested, registry_closing, flow_is_ready,
}
use fixer.Jobs.Runtime.Flow.{automatic_agrees, reconstruct_plan, auto_plan_decision, prepare_review}
use fixer.Jobs.Runtime.Review.{
  try_transition, transition_attempts, transition_with_retry, reconstruct, review_with_auto_guard,
  review, reviewed_update, parent_manifest, replacement_manifest, execution_end, finish_execution,
  run_reserved_execution, run_if_reserved, execute_planned, execute,
}
use fixer.Jobs.Runtime.Worker.{
  ignore, try_claim, claim_attempts, claim_with_retry, transition_stage_with_retry,
  interrupt_active, fail_active, stop_requested, process_prepared, resolve_stage, process_claimed,
  worker_round,
}
use fixer.Jobs.Runtime.Interleaved.{IsLawful}
use fixer.Jobs.Runtime.Requests.{serve, serve-IsLawful, stream_request, cancel_request, run_request}
use fixer.Jobs.Runtime.Worked.{Work, reviewing, executing, working, do_all}
use fixer.Jobs.Runtime.Once.{IsOrderly, do_all-IsOrderly}
use fixer.Jobs.Runtime.Outcome.{IsApproved}
use fixer.Jobs.Runtime.Approved.{execute-IsApproved}
use fixer.Jobs.Runtime.Raced.{IsRaced, execute-IsRaced}
use fixer.Jobs.Runtime.Left.{alone, failing, interrupt_active-ends}

abbrev input : JobInputDto
input = new_input JobMediaKind.movie "/in" true

abbrev job : ℕ → JobState → JobRecord
job i state = record {
  id = i;
  input = input;
  state = state;
  progress = none;
  review = none;
  review_decision = none;
  plan = none;
  execution = none;
  created_at_ms = 5;
  updated_at_ms = 5;
}

abbrev with_jobs : List JobRecord → JobRuntime
with_jobs jobs = record {
  tables = record { jobs = jobs; executions = []; last_id = 2 };
  hub = record { capacity = 8; epoch = text "e1"; next_sequence = 0; retained = [] };
  sent = [];
  dispatch = open_queue [];
}

abbrev decision : ReviewDecisionDto
decision = record { candidate_index = 0; accepted_conflict_indexes = [] }

abbrev output_plan : OutputPlan
output_plan = record {
  output_root = text "/out";
  operations = create_directory (text "Movies") ∷ [];
}

abbrev resolved : ResolvedArtifact
resolved = record {
  conflict_count = ok 0;
  diagnostics = record {
    candidates = [];
    candidates_truncated = false;
    warnings = [];
    warnings_truncated = false;
    conflicts = [];
    conflicts_truncated = false;
  };
  plan = ok output_plan;
  fingerprint = λ _ _. ok "f1";
}

abbrev search : SearchArtifact
search = record {
  candidate_count = 1;
  candidates = ok ([], false);
  target = λ _. err fixer.Jobs.Artifacts.JobFlowError.local;
  resolve_selected = λ _. ok resolved;
  checks = record { fs_policy = none; exists = λ _ _. false; is_dir = λ _ _. false };
}

abbrev scan : Scan
scan = ok (ok search)

abbrev course : JobRuntime → Course
course runtime = record {
  runtime = runtime;
  executed = [];
  closing = false;
  flow_ready = true;
  moves = [];
  times =
      some 10 ∷ some 11 ∷ some 12 ∷ some 13 ∷ some 14 ∷ some 15 ∷ some 16 ∷ some 17 ∷ some 18 ∷ [];
  scans = scan ∷ scan ∷ scan ∷ scan ∷ [];
  outcomes = reported (record { operations = [] }) ∷ [];
  stops = [];
}

-- A job is reviewed, and its plan executed.
reviewed_run : Course
unfolding ◌>>=◌ ◌>>◌ pure fail require from_result attempt look atomically next_scan run_plan
    registry_closing flow_is_ready automatic_agrees reconstruct_plan reconstruct
    review_with_auto_guard review transition can_transition_to has_execution_reservation
    timestamp_ms find_job set_job find_execution get get_job publish_transition publish_state
    publish_progress publish publish_completion trim try_transition transition_attempts
    transition_with_retry parent_manifest replacement_manifest execution_end finish_execution
    run_reserved_execution run_if_reserved execute_planned execute reserve_execution
reviewed_run =
    do_all 2 (reviewing 1 decision ∷ executing 1 "k" ∷ executing 1 "k" ∷ [])
      (course (with_jobs (job 1 awaiting_confirmation ∷ [])))

abbrev state_of : ℕ → Course → Option JobState
state_of i result = elim (find_job i result.runtime.tables.jobs) [
  | none ↦ none
  | some found ↦ some found.state
]

reviewed_end :
    (state_of 1 reviewed_run ≡ some completed)
    × (reviewed_run.executed ≡ record { job_id = 1; plan = output_plan; replacing = none } ∷ [])
unfolding reviewed_run find_job
reviewed_end = (refl, refl)

abbrev stay : JobRuntime → JobRuntime
stay runtime = runtime

-- The review of another request.
abbrev other_review : JobRuntime → JobRuntime
other_review runtime =
    (moved
      (transition (some 9) 1 awaiting_confirmation planning (reviewed_update decision 1 "f1")
        runtime.tables)
      runtime).1

-- The job was reviewed before it was interrupted, and waits for a review again.
abbrev waiting_again : JobRecord
waiting_again = record (job 1 awaiting_confirmation) { review_decision = some decision }

abbrev raced_course : Course
raced_course = record (course (with_jobs (waiting_again ∷ []))) { moves = stay ∷ other_review ∷ [] }

-- An execution reads the job while it waits; then it is reviewed, and the reservation is made.
raced : Result RuntimeError JobRecord × Course
unfolding ◌>>=◌ ◌>>◌ pure fail require from_result attempt look atomically execute transition
    can_transition_to has_execution_reservation timestamp_ms find_job set_job find_execution get
    get_job publish_transition publish_state publish_progress publish trim reserve_execution
raced = execute 1 "k" raced_course

race_ends :
    (raced.0 ≡ err reached_unreachable)
    × (state_of 1 raced.1 ≡ some writing)
    × (raced.1.executed ≡ [])
unfolding raced find_job
race_ends = (refl, refl, refl)

-- A job that follows a run without an execution: the reservation is made, and the job stays there.
abbrev following : JobRecord
following = record (job 1 awaiting_confirmation) { input = record input { retry_of = some 2 } }

left_behind : Course
unfolding ◌>>=◌ ◌>>◌ pure fail require from_result attempt look atomically next_scan run_plan
    registry_closing flow_is_ready automatic_agrees reconstruct_plan reconstruct
    review_with_auto_guard review transition can_transition_to has_execution_reservation
    timestamp_ms find_job set_job find_execution get get_job publish_transition publish_state
    publish_progress publish publish_completion trim try_transition transition_attempts
    transition_with_retry parent_manifest replacement_manifest execution_end finish_execution
    run_reserved_execution run_if_reserved execute_planned execute reserve_execution
left_behind =
    do_all 2 (reviewing 1 decision ∷ executing 1 "k" ∷ [])
      (course (with_jobs (following ∷ job 2 interrupted ∷ [])))

left_behind_end : (state_of 1 left_behind ≡ some writing) × (left_behind.executed ≡ [])
unfolding left_behind find_job
left_behind_end = (refl, refl)

-- The worker takes a job as far as its review.
worked : Course
unfolding ◌>>=◌ ◌>>◌ pure fail require from_result attempt look atomically next_scan
    shutdown_requested auto_decision auto_plan_decision prepare_review transition can_transition_to
    has_execution_reservation timestamp_ms find_job set_job find_execution get get_job
    publish_transition publish_state publish_progress publish publish_review trim try_transition
    transition_attempts transition_with_retry ignore try_claim claim_attempts claim_with_retry
    transition_stage_with_retry interrupt_active fail_active stop_requested process_prepared
    resolve_stage process_claimed worker_round claim_oldest_queued oldest_queued
worked = do_all 2 (working ∷ []) (course (with_jobs (job 1 queued ∷ job 2 queued ∷ [])))

worked_end : (state_of 1 worked ≡ some awaiting_confirmation) × (state_of 2 worked ≡ some queued)
unfolding worked find_job
worked_end = (refl, refl)

abbrev accept : JobInputDto → Result RuntimeError JobInputDto
accept value = ok value

-- What others request.
abbrev others : List (JobRuntime → JobRuntime)
others =
    serve accept (stream_request 1 none)
    ∷ serve accept (cancel_request (some 9) 2)
    ∷ serve accept (run_request none input)
    ∷ []

others-IsLawful : All IsLawful others
others-IsLawful = (
  serve-IsLawful accept (stream_request 1 none),
  (
    serve-IsLawful accept (cancel_request (some 9) 2),
    (serve-IsLawful accept (run_request none input), tt),
  ),
)

abbrev busy : Course
busy = record (course (with_jobs (job 1 queued ∷ job 2 queued ∷ []))) { moves = others }

abbrev works : List Work
works = working ∷ reviewing 1 decision ∷ executing 1 "k" ∷ executing 1 "k" ∷ []

busy-IsLog : IsLog busy.runtime.hub [] busy.runtime.sent
unfolding new_hub
busy-IsLog = new_hub-IsLog 8 (text "e1") (omega arith)

do_all-IsOrderly_example : IsOrderly (do_all 2 works busy)
do_all-IsOrderly_example =
    do_all-IsOrderly 2 works busy (record { lawful = others-IsLawful; held = tt; once = tt })

abbrev approved_course : Course
approved_course =
    record (course (
      with_jobs (
        record (job 1 planning) {
          review_decision = some decision;
          plan = some (record {
            operation_count = 1;
            requires_confirmation = true;
            fingerprint = some "f1";
          });
        }
        ∷ job 2 queued
        ∷ []))) { moves = others }

execute-IsApproved_example :
    ((execute 1 "k" approved_course).1.executed ≡ [])
    ⊎ ((run : PlanRun) × ((execute 1 "k" approved_course).1.executed ≡ run ∷ [])
        × IsApproved approved_course 1 "k" run)
execute-IsApproved_example = execute-IsApproved 1 "k" approved_course others-IsLawful

interrupt_active-ends_example :
    let (answer, left) =
      interrupt_active 2 1
        (alone (course (with_jobs (job 1 searching ∷ []))) (failing 5 (some 10 ∷ []))) in
    (answer ≡ ok true)
    × ((job' : JobRecord) × (get 1 left.runtime ≡ ok job')
        × (job'.state ≡ interrupted)
        × (job'.input ≡ input))
unfolding get get_job find_job
interrupt_active-ends_example =
    interrupt_active-ends 1 10 (course (with_jobs (job 1 searching ∷ []))) refl refl (omega arith)
      (omega arith) 2 5 [] (omega arith)

panics : (execute 1 "k" raced_course).0 ≡ err reached_unreachable
unfolding raced
panics = race_ends.0

execute-IsRaced_example : IsRaced 1 raced_course
execute-IsRaced_example = execute-IsRaced 1 "k" raced_course panics
