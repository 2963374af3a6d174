-- ===== src/Jobs/Runtime/Worker.antt =====
-- The worker in crates/fixer-server/src/jobs/mod.rs: how it claims a job, takes it through its stages
-- and leaves it. The delays between attempts are left out. `rounds` bounds the rounds of
-- `interrupt_active`, which has no bound in the code: false is the answer of a loop that has not
-- ended by then.
use fixer.Common.{
  ℕ, zero, suc, Bool, true, false, not, ◌&&◌, Option, none, some, [], nat_eq, if◌then◌else◌, String,
}
use fixer.Std.Result.{Result, ok, err, is_err}
use fixer.Std.Action.{◌>>=◌, ◌>>◌, pure, attempt}
use fixer.Jobs.State.{
  JobState, queued, scanning, searching, resolving, awaiting_confirmation, failed, interrupted,
  can_transition_to, state_eq,
}
use fixer.Jobs.Model.{JobInputDto, new_progress, ReviewSummary, AutoReviewReason}
use fixer.Jobs.Store.{
  JobRecord, JobUpdate, with_progress, Tables, StoreError, not_found, claim_oldest_queued,
}
use fixer.Jobs.Automation.{AutoDecision, execute, needs_review, automatic_execution}
use fixer.Jobs.Events.{publish_review}
use fixer.Jobs.Artifacts.{JobFlowError}
use fixer.Jobs.Runtime.{
  JobRuntime, RuntimeError, store, reached_unreachable, Answer, sent_to, publish_transition, get,
}
use fixer.Jobs.Runtime.Course.{
  Task, look, atomically, next_scan, shutdown_requested, SearchArtifact, Scan,
}
use fixer.Jobs.Runtime.Flow.{PreparedReview, prepare_review, below}
use fixer.Jobs.Runtime.Review.{transition_with_retry, review_with_auto_guard, auto_execution_key}
use fixer.Jobs.Runtime.Review as Reviews

-- An action whose failure the caller does not look at.
unfoldable pub ignore : {A : Type 0} → Task A → Task (Unit {0})
ignore task = do _ ← attempt task; pure tt

abbrev pub claimed :
    Result StoreError (Option JobRecord × Tables) → JobRuntime → Answer (Option JobRecord)
claimed (err e) runtime = (err (store e), runtime)
claimed (ok (none, tables)) runtime = (ok none, record runtime { tables = tables })
claimed (ok (some job, tables)) runtime =
    (ok (some job), (publish_transition job (record runtime { tables = tables })).1)

unfoldable pub try_claim : Task (Option JobRecord)
try_claim = atomically (λ time runtime.
    claimed (claim_oldest_queued time (new_progress "scanning" 0 none) runtime.tables) runtime)

abbrev pub or_claim :
    Task (Option JobRecord) → Result RuntimeError (Option JobRecord) → Task (Option JobRecord)
or_claim again (ok job) = pure job
or_claim again (err e) = again

unfoldable pub claim_attempts : ℕ → Task (Option JobRecord)
claim_attempts zero = try_claim
claim_attempts (suc left) = attempt try_claim >>= or_claim (claim_attempts left)

unfoldable pub claim_with_retry : Task (Option JobRecord)
claim_with_retry = claim_attempts 3

unfoldable pub transition_stage_with_retry : ℕ → JobState → JobState → String → Task JobRecord
transition_stage_with_retry id expected next' stage =
    transition_with_retry id expected next' (with_progress (new_progress stage 0 none))

-- The states that `interrupt_active` ends.
abbrev pub is_working : JobState → Bool
is_working scanning = true
is_working searching = true
is_working resolving = true
is_working _ = false

abbrev pub is_missing : RuntimeError → Bool
is_missing (store (not_found id)) = true
is_missing _ = false

-- A panic ends `process_claimed`, and the worker goes on after it.
abbrev pub is_panic : RuntimeError → Bool
is_panic reached_unreachable = true
is_panic _ = false

-- One round goes on as `again` where the job has not been left.
abbrev pub after_interrupting : Task Bool → Result RuntimeError JobRecord → Task Bool
after_interrupting again (ok job) = pure true
after_interrupting again (err e) = if is_missing e then pure true else again

abbrev pub interrupt_found : Task Bool → ℕ → Result RuntimeError JobRecord → Task Bool
interrupt_found again id (err e) = if is_missing e then pure true else again
interrupt_found again id (ok job) =
    if not (is_working job.state)
    then pure true
    else attempt (transition_stage_with_retry id job.state interrupted "interrupted")
      >>= after_interrupting again

unfoldable pub interrupt_active : ℕ → ℕ → Task Bool
interrupt_active zero id = pure false
interrupt_active (suc rounds) id = do
  answer ← attempt (look (get id))
  interrupt_found (interrupt_active rounds id) id answer

abbrev failure_update : String → String → String → Option ReviewSummary → JobUpdate
failure_update phase code message review = record {
  progress = some (new_progress "failed" 0 none);
  review = review;
  review_decision = none;
  plan = none;
  execution = some (record {
    completed_operations = 0;
    failed_operations = 0;
    failure =
        some
          (record { operation_index = none; code = code; message = message; phase = some phase });
    operations = [];
  });
}

module _ (rounds : ℕ) where
  abbrev pub interrupt_if : ℕ → Bool → Task (Unit {0})
  interrupt_if id true = ignore (interrupt_active rounds id)
  interrupt_if id false = pure tt

  abbrev pub fail_found : ℕ → JobUpdate → Result RuntimeError JobRecord → Task (Unit {0})
  fail_found id update (err e) = ignore (interrupt_active rounds id)
  fail_found id update (ok job) =
      if not (can_transition_to job.state failed)
      then pure tt
      else attempt (transition_with_retry id job.state failed update) >>= λ answer.
          interrupt_if id (is_err answer)

  unfoldable pub fail_active : ℕ → String → String → String → Option ReviewSummary → Task (Unit {0})
  fail_active id phase code message review = do
    answer ← attempt (look (get id))
    fail_found id (failure_update phase code message review) answer

  -- True where the worker has stopped and left the job.
  unfoldable pub stop_requested : ℕ → Task Bool
  stop_requested id = do stop ← shutdown_requested; interrupt_if id stop; pure stop

  abbrev is_needs_review : AutoDecision → Bool
  is_needs_review (needs_review reason) = true
  is_needs_review (execute index) = false

  abbrev reason_of : AutoDecision → Option AutoReviewReason
  reason_of (needs_review reason) = some reason
  reason_of (execute index) = none

  abbrev review_summary : PreparedReview → ReviewSummary
  review_summary prepared = record {
    candidate_count = prepared.candidate_count;
    conflict_count = prepared.conflict_count;
    automation_reason = reason_of prepared.automatic;
    selected_target = prepared.selected_target;
  }

  abbrev pub after_execution : ℕ → Result RuntimeError JobRecord → Task (Unit {0})
  after_execution id (ok job) = pure tt
  after_execution id (err e) =
      if is_panic e
      then pure tt
      else fail_active id "writing" "execution_failed"
          "Fixer could not execute the automatic output plan" none

  abbrev pub after_review : ℕ → Result RuntimeError JobRecord → Task (Unit {0})
  after_review id (ok job) = attempt (Reviews.execute id auto_execution_key) >>= after_execution id
  after_review id (err e) =
      fail_active id "planning" "planning_failed"
        "Fixer could not prepare the automatic output plan" none

  abbrev pub approve : ℕ → PreparedReview → AutoDecision → Task (Unit {0})
  approve id prepared (needs_review reason) = pure tt
  approve id prepared (execute index) =
      attempt (
        review_with_auto_guard id
          (record {
            candidate_index = index;
            accepted_conflict_indexes = below prepared.conflict_count;
          })
          true)
      >>= after_review id

  abbrev awaiting_update : PreparedReview → JobUpdate
  awaiting_update prepared = record {
    progress = some (new_progress "awaiting_confirmation" 1 (some 1));
    review = some (review_summary prepared);
    review_decision = none;
    plan = none;
    execution = none;
  }

  abbrev pub announce : ℕ → PreparedReview → Result RuntimeError JobRecord → Task (Unit {0})
  announce id prepared (err e) = pure tt
  announce id prepared (ok job) =
      ignore (
        atomically (λ time runtime.
          sent_to (publish_review id prepared.candidate_count prepared.conflict_count runtime.hub)
            runtime))
      >> approve id prepared prepared.automatic

  unfoldable pub process_prepared : ℕ → JobInputDto → PreparedReview → Task (Unit {0})
  process_prepared id input prepared =
      if automatic_execution input && is_needs_review prepared.automatic
      then fail_active id "resolving" "automatic_scrape_blocked"
          "The scrape could not produce a safe automatic output plan"
          (some (review_summary prepared))
      else attempt
          (transition_with_retry id resolving awaiting_confirmation (awaiting_update prepared))
        >>= announce id prepared

  -- A stage goes on unless the worker has stopped.
  abbrev pub unless_stopped : Task (Unit {0}) → Bool → Task (Unit {0})
  unless_stopped go_on true = pure tt
  unless_stopped go_on false = go_on

  -- A stage goes on where its transition was made.
  abbrev pub if_moved : Task (Unit {0}) → Result RuntimeError JobRecord → Task (Unit {0})
  if_moved go_on (err e) = pure tt
  if_moved go_on (ok job) = go_on

  unfoldable pub resolve_stage : JobRecord → SearchArtifact → Task (Unit {0})
  resolve_stage job search = elim (prepare_review job.input search) [
    | err e ↦
        fail_active job.id "resolving" "resolution_failed"
          "Fixer could not resolve metadata or build a safe output plan" none
    | ok prepared ↦
        stop_requested job.id >>= unless_stopped (process_prepared job.id job.input prepared)
  ]

  abbrev pub search_stage : JobRecord → Result JobFlowError SearchArtifact → Task (Unit {0})
  search_stage job (err e) =
      fail_active job.id "searching" "search_failed"
        "Fixer could not retrieve metadata from the selected provider" none
  search_stage job (ok search) =
      stop_requested job.id
      >>= unless_stopped (
          attempt (transition_stage_with_retry job.id searching resolving "resolving")
          >>= if_moved (resolve_stage job search))

  abbrev pub scan_stage : JobRecord → Scan → Task (Unit {0})
  scan_stage job (err e) =
      fail_active job.id "scanning" "scan_failed" "Fixer could not read local media metadata" none
  scan_stage job (ok scanned) =
      stop_requested job.id
      >>= unless_stopped (
          attempt (transition_stage_with_retry job.id scanning searching "searching")
          >>= if_moved (search_stage job scanned))

  unfoldable pub process_claimed : JobRecord → Task (Unit {0})
  process_claimed job = stop_requested job.id >>= unless_stopped (next_scan >>= scan_stage job)

  abbrev requeue_update : JobUpdate
  requeue_update = with_progress (new_progress "queued" 0 none)

  -- What the worker does with a job that it has claimed. True where it goes on with the next.
  abbrev pub work_on : JobRecord → Bool → Task Bool
  work_on job true =
      attempt (transition_with_retry job.id scanning queued requeue_update) >>= λ answer.
      interrupt_if job.id (is_err answer) >> pure false
  work_on job false = process_claimed job >> (ignore (interrupt_active rounds job.id) >> pure true)

  -- One round of `worker_loop`, after an id has come from the queue: it claims until a claim is
  -- answered, `tries` times at most, or it is to stop. False where the worker ends.
  abbrev pub claim_or_stop : Task Bool → Bool → Task Bool
  claim_or_stop again true = pure false
  claim_or_stop again false = again

  abbrev pub claimed_round : Task Bool → Result RuntimeError (Option JobRecord) → Task Bool
  claimed_round again (err e) = shutdown_requested >>= claim_or_stop again
  claimed_round again (ok none) = pure true
  claimed_round again (ok (some job)) = shutdown_requested >>= work_on job

  unfoldable pub worker_round : ℕ → Task Bool
  worker_round zero = pure false
  worker_round (suc tries) = attempt claim_with_retry >>= claimed_round (worker_round tries)
