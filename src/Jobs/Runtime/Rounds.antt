-- ===== src/Jobs/Runtime/Rounds.antt =====
-- The worker of jobs/mod.rs keeps to statements and events.
use fixer.Common.{
  ℕ, zero, suc, String, ◌≡◌, refl, Bool, true, false, not, Option, none, some, nat_eq,
}
use fixer.Std.Result.{Result, ok, err, is_err}
use fixer.Std.Action.Ensures.{Ensures, Any}
use fixer.Std.Action.{◌>>=◌}
use fixer.Jobs.State.{
  JobState, state_eq, scanning, searching, resolving, awaiting_confirmation, interrupted, queued,
  failed, can_transition_to,
}
use fixer.Jobs.Model.{JobInputDto, ReviewSummary, new_progress}
use fixer.Jobs.Store.{Tables, StoreError, JobRecord, JobUpdate, claim_oldest_queued}
use fixer.Jobs.Store.Steps.{Step}
use fixer.Jobs.Automation.{AutoDecision, execute, needs_review}
use fixer.Jobs.Events.{publish_review, EventData}
use fixer.Jobs.Artifacts.{JobFlowError}
use fixer.Jobs.Runtime.{JobRuntime, RuntimeError, get}
use fixer.Jobs.Runtime.Course.{Course, Task, Scan, SearchArtifact}
use fixer.Jobs.Runtime.Flow.{PreparedReview, prepare_review}
use fixer.Jobs.Runtime.Review.{review, review_with_auto_guard, auto_execution_key}
use fixer.Jobs.Runtime.Review as Reviews
use fixer.Jobs.Runtime.Worker.{
  ignore, claimed, try_claim, or_claim, claim_attempts, claim_with_retry,
  transition_stage_with_retry, is_working, is_missing, is_panic, after_interrupting,
  interrupt_found, interrupt_active, interrupt_if, fail_found, fail_active, stop_requested,
  after_execution, after_review, approve, announce, process_prepared, unless_stopped, if_moved,
  resolve_stage, search_stage, scan_stage, process_claimed, work_on, claim_or_stop, claimed_round,
  worker_round,
}
use fixer.Jobs.Runtime.Interleaved.{
  IsKept, Progresses, Progresses-same, sent_to-Progresses, published-Progresses, only_tables,
}
use fixer.Jobs.Runtime.Stages.{
  then-Behaves, seq-Behaves, pure-Behaves, attempt-Behaves, if_Behaves,
  transition_with_retry-Behaves, review_with_auto_guard-Behaves,
}

claimed-Progresses :
    (time : Option ℕ) (runtime : JobRuntime)
    (result : Result StoreError (Option JobRecord × Tables))
    → claim_oldest_queued time (new_progress "scanning" 0 none) runtime.tables ≡ result
    → Progresses runtime (claimed result runtime).1
claimed-Progresses time runtime (err e) h = Progresses-same runtime
claimed-Progresses time runtime (ok (none, tables)) h =
    only_tables runtime tables (Step.claim time _ none h)
claimed-Progresses time runtime (ok (some job, tables)) h =
    published-Progresses runtime tables job (Step.claim time _ (some job) h)

module _ (I : Course → Type 0) (kept : IsKept I)
    (executes : (id : ℕ) (key : String) → Ensures I (Reviews.execute id key) Any) where
  abbrev Does : {A : Type 0} → Task A → Type 0
  Does task = Ensures I task Any

  ignore-Behaves : {A : Type 0} {task : Task A} → Does task → Does (ignore task)
  unfolding ignore
  ignore-Behaves h = then-Behaves I kept (attempt-Behaves I kept h) (λ _. pure-Behaves I kept tt)

  try_claim-Behaves : Does try_claim
  unfolding try_claim
  try_claim-Behaves = kept.steps _ (λ time runtime. claimed-Progresses time runtime _ refl)

  or_claim-Behaves :
      {again : Task (Option JobRecord)} (answer : Result RuntimeError (Option JobRecord))
      → Does again
      → Does (or_claim again answer)
  or_claim-Behaves (ok job) h = pure-Behaves I kept job
  or_claim-Behaves (err e) h = h

  claim_attempts-Behaves : (left : ℕ) → Does (claim_attempts left)
  unfolding claim_attempts
  claim_attempts-Behaves zero = try_claim-Behaves
  claim_attempts-Behaves (suc left) =
      then-Behaves I kept (attempt-Behaves I kept try_claim-Behaves)
        (λ answer. or_claim-Behaves answer (claim_attempts-Behaves left))

  stage-Behaves :
      (id : ℕ) (expected next' : JobState) (stage : String)
      → Does (transition_stage_with_retry id expected next' stage)
  unfolding transition_stage_with_retry
  stage-Behaves id expected next' stage = transition_with_retry-Behaves I kept id expected next' _

  after_interrupting-Behaves :
      {again : Task Bool} (answer : Result RuntimeError JobRecord)
      → Does again
      → Does (after_interrupting again answer)
  after_interrupting-Behaves (ok job) h = pure-Behaves I kept true
  after_interrupting-Behaves (err e) h =
      if_Behaves I kept (is_missing e) (pure-Behaves I kept true) h

  interrupt_found-Behaves :
      {again : Task Bool} (id : ℕ) (answer : Result RuntimeError JobRecord)
      → Does again
      → Does (interrupt_found again id answer)
  interrupt_found-Behaves id (err e) h =
      if_Behaves I kept (is_missing e) (pure-Behaves I kept true) h
  interrupt_found-Behaves id (ok job) h =
      if_Behaves I kept (not (is_working job.state)) (pure-Behaves I kept true) (
        then-Behaves I kept
          (attempt-Behaves I kept (stage-Behaves id job.state interrupted "interrupted"))
          (λ answer. after_interrupting-Behaves answer h))

  interrupt_active-Behaves : (rounds id : ℕ) → Does (interrupt_active rounds id)
  unfolding interrupt_active
  interrupt_active-Behaves zero id = pure-Behaves I kept false
  interrupt_active-Behaves (suc rounds) id =
      then-Behaves I kept (attempt-Behaves I kept (kept.looks (get id)))
        (λ answer. interrupt_found-Behaves id answer (interrupt_active-Behaves rounds id))

  module _ (rounds : ℕ) where
    interrupt_if-Behaves : (id : ℕ) (stop : Bool) → Does (interrupt_if rounds id stop)
    interrupt_if-Behaves id true = ignore-Behaves (interrupt_active-Behaves rounds id)
    interrupt_if-Behaves id false = pure-Behaves I kept tt

    fail_found-Behaves :
        (id : ℕ) (update : JobUpdate) (answer : Result RuntimeError JobRecord)
        → Does (fail_found rounds id update answer)
    fail_found-Behaves id update (err e) = ignore-Behaves (interrupt_active-Behaves rounds id)
    fail_found-Behaves id update (ok job) =
        if_Behaves I kept (not (can_transition_to job.state failed)) (pure-Behaves I kept tt) (
          then-Behaves I kept
            (attempt-Behaves I kept
              (transition_with_retry-Behaves I kept id job.state failed update))
            (λ answer. interrupt_if-Behaves id (is_err answer)))

    fail_active-Behaves :
        (id : ℕ) (phase code message : String) (review : Option ReviewSummary)
        → Does (fail_active rounds id phase code message review)
    unfolding fail_active
    fail_active-Behaves id phase code message review =
        then-Behaves I kept (attempt-Behaves I kept (kept.looks (get id)))
          (λ answer. fail_found-Behaves id _ answer)

    stop_requested-Behaves : (id : ℕ) → Does (stop_requested rounds id)
    unfolding stop_requested
    stop_requested-Behaves id =
        then-Behaves I kept (kept.stops)
          (λ stop. seq-Behaves I kept (interrupt_if-Behaves id stop) (pure-Behaves I kept stop))

    after_execution-Behaves :
        (id : ℕ) (answer : Result RuntimeError JobRecord) → Does (after_execution rounds id answer)
    after_execution-Behaves id (ok job) = pure-Behaves I kept tt
    after_execution-Behaves id (err e) =
        if_Behaves I kept (is_panic e) (pure-Behaves I kept tt) (fail_active-Behaves id _ _ _ none)

    after_review-Behaves :
        (id : ℕ) (answer : Result RuntimeError JobRecord) → Does (after_review rounds id answer)
    after_review-Behaves id (ok job) =
        then-Behaves I kept (attempt-Behaves I kept (executes id auto_execution_key))
          (after_execution-Behaves id)
    after_review-Behaves id (err e) = fail_active-Behaves id _ _ _ none

    approve-Behaves :
        (id : ℕ) (prepared : PreparedReview) (decision : AutoDecision)
        → Does (approve rounds id prepared decision)
    approve-Behaves id prepared (needs_review reason) = pure-Behaves I kept tt
    approve-Behaves id prepared (execute index) =
        then-Behaves I kept
          (attempt-Behaves I kept (review_with_auto_guard-Behaves I kept id _ true))
          (after_review-Behaves id)

    announce-Behaves :
        (id : ℕ) (prepared : PreparedReview) (answer : Result RuntimeError JobRecord)
        → Does (announce rounds id prepared answer)
    unfolding publish_review
    announce-Behaves id prepared (err e) = pure-Behaves I kept tt
    announce-Behaves id prepared (ok job) =
        seq-Behaves I kept
          (ignore-Behaves (
            kept.steps _ (λ time runtime.
              sent_to-Progresses id
                (EventData.review prepared.candidate_count prepared.conflict_count) runtime)))
          (approve-Behaves id prepared prepared.automatic)

    process_prepared-Behaves :
        (id : ℕ) (input : JobInputDto) (prepared : PreparedReview)
        → Does (process_prepared rounds id input prepared)
    unfolding process_prepared
    process_prepared-Behaves id input prepared =
        if_Behaves I kept _ (fail_active-Behaves id _ _ _ _) (
          then-Behaves I kept
            (attempt-Behaves I kept
              (transition_with_retry-Behaves I kept id resolving awaiting_confirmation _))
            (announce-Behaves id prepared))

    unless_stopped-Behaves :
        {go_on : Task (Unit {0})} (stop : Bool)
        → Does go_on
        → Does (unless_stopped rounds go_on stop)
    unless_stopped-Behaves true h = pure-Behaves I kept tt
    unless_stopped-Behaves false h = h

    if_moved-Behaves :
        {go_on : Task (Unit {0})} (answer : Result RuntimeError JobRecord)
        → Does go_on
        → Does (if_moved rounds go_on answer)
    if_moved-Behaves (err e) h = pure-Behaves I kept tt
    if_moved-Behaves (ok job) h = h

    resolve_stage-Behaves :
        (job : JobRecord) (search : SearchArtifact) → Does (resolve_stage rounds job search)
    unfolding resolve_stage
    resolve_stage-Behaves job search = of_review (prepare_review job.input search)
      where
        of_review :
            (prepared : Result JobFlowError PreparedReview)
            → Does {A = Unit {0}} (elim prepared [
              | err e ↦
                  fail_active rounds job.id "resolving" "resolution_failed"
                    "Fixer could not resolve metadata or build a safe output plan" none
              | ok review ↦
                  stop_requested rounds job.id
                  >>= unless_stopped rounds (process_prepared rounds job.id job.input review)
            ])
        of_review (err e) = fail_active-Behaves job.id _ _ _ none
        of_review (ok review) =
            then-Behaves I kept (stop_requested-Behaves job.id) (λ stop.
              unless_stopped-Behaves stop (process_prepared-Behaves job.id job.input review))

    search_stage-Behaves :
        (job : JobRecord) (answer : Result JobFlowError SearchArtifact)
        → Does (search_stage rounds job answer)
    search_stage-Behaves job (err e) = fail_active-Behaves job.id _ _ _ none
    search_stage-Behaves job (ok search) =
        then-Behaves I kept (stop_requested-Behaves job.id) (λ stop. unless_stopped-Behaves stop (
          then-Behaves I kept
            (attempt-Behaves I kept (stage-Behaves job.id searching resolving "resolving"))
            (λ answer. if_moved-Behaves answer (resolve_stage-Behaves job search))))

    scan_stage-Behaves : (job : JobRecord) (scan : Scan) → Does (scan_stage rounds job scan)
    scan_stage-Behaves job (err e) = fail_active-Behaves job.id _ _ _ none
    scan_stage-Behaves job (ok scanned) =
        then-Behaves I kept (stop_requested-Behaves job.id) (λ stop. unless_stopped-Behaves stop (
          then-Behaves I kept
            (attempt-Behaves I kept (stage-Behaves job.id scanning searching "searching"))
            (λ answer. if_moved-Behaves answer (search_stage-Behaves job scanned))))

    process_claimed-Behaves : (job : JobRecord) → Does (process_claimed rounds job)
    unfolding process_claimed
    process_claimed-Behaves job = then-Behaves I kept (stop_requested-Behaves job.id) (λ stop.
        unless_stopped-Behaves stop (then-Behaves I kept (kept.scans) (scan_stage-Behaves job)))

    work_on-Behaves : (job : JobRecord) (stop : Bool) → Does (work_on rounds job stop)
    work_on-Behaves job true =
        then-Behaves I kept
          (attempt-Behaves I kept (transition_with_retry-Behaves I kept job.id scanning queued _))
          (λ answer.
            seq-Behaves I kept (interrupt_if-Behaves job.id (is_err answer))
              (pure-Behaves I kept false))
    work_on-Behaves job false = seq-Behaves I kept (process_claimed-Behaves job) (
        seq-Behaves I kept (ignore-Behaves (interrupt_active-Behaves rounds job.id))
          (pure-Behaves I kept true))

    claim_or_stop-Behaves :
        {again : Task Bool} (stop : Bool) → Does again → Does (claim_or_stop rounds again stop)
    claim_or_stop-Behaves true h = pure-Behaves I kept false
    claim_or_stop-Behaves false h = h

    claimed_round-Behaves :
        {again : Task Bool} (answer : Result RuntimeError (Option JobRecord))
        → Does again
        → Does (claimed_round rounds again answer)
    claimed_round-Behaves (err e) h =
        then-Behaves I kept (kept.stops) (λ stop. claim_or_stop-Behaves stop h)
    claimed_round-Behaves (ok none) h = pure-Behaves I kept true
    claimed_round-Behaves (ok (some job)) h = then-Behaves I kept (kept.stops) (work_on-Behaves job)

    pub worker_round-Behaves : (tries : ℕ) → Does (worker_round rounds tries)
    unfolding worker_round claim_with_retry
    worker_round-Behaves zero = pure-Behaves I kept false
    worker_round-Behaves (suc tries) =
        then-Behaves I kept (attempt-Behaves I kept (claim_attempts-Behaves 3))
          (λ answer. claimed_round-Behaves answer (worker_round-Behaves tries))
