-- ===== src/Jobs/Runtime/Stages.antt =====
-- The tasks of reviews, executions and the worker keep to statements and events.
use fixer.Common.{
  ℕ, zero, suc, String, Bool, true, false, Option, none, some, nat_eq, if◌then◌else◌,
}
use fixer.Std.Result.{Result, ok, err}
use fixer.Std.Action.{◌>>=◌, ◌>>◌, pure, fail, require, from_result, attempt}
use fixer.Std.Action.Ensures.{
  Ensures, Any, then_ensures, seq_ensures, pure_ensures, fail_ensures, require_ensures,
  from_result_ensures, attempt_ensures, ensures_weaker,
}
use fixer.Core.Output.{OutputPlan}
use fixer.Core.Scrape.{ReplacementManifest}
use fixer.Jobs.State.{JobState, state_eq, awaiting_confirmation, planning, writing}
use fixer.Jobs.Model.{JobInputDto, ReviewDecisionDto}
use fixer.Jobs.Store.{JobRecord, JobUpdate, ExecutionReservation, reserved, existing}
use fixer.Jobs.Events.{publish_completion, EventData}
use fixer.Jobs.Runtime.{RuntimeError, get}
use fixer.Jobs.Runtime.Course.{Course, Task, PlanOutcome, run_plan}
use fixer.Jobs.Runtime.Review.{
  try_transition, is_final, or_again, transition_attempts, transition_with_retry, reconstruct,
  review_with_auto_guard, reviewed_update, parent_of, parent_manifest, replacement_manifest,
  execution_end, executed_update, finish_execution, run_reserved_execution, if_reserved,
  run_if_reserved, execute_planned, execute_by,
}
use fixer.Jobs.Runtime.Review as Reviews
use fixer.Jobs.Runtime.Interleaved.{
  IsKept, sent_to-Progresses, moved-Progresses, written-Progresses, existing_only-Progresses,
  reservation_answer-Progresses,
}

module _ (I : Course → Type 0) (kept : IsKept I) where
  -- A task that keeps the predicate, and promises nothing of its result.
  abbrev pub Behaves : {A : Type 0} → Task A → Type 0
  Behaves task = Ensures I task Any

  -- The rules of Std/Action/Ensures for tasks that promise nothing of their result.
  pub then-Behaves :
      {A B : Type 0} {task : Task A} {f : A → Task B}
      → Behaves task
      → ((a : A) → Behaves (f a))
      → Behaves (task >>= f)
  then-Behaves h k = then_ensures I h (λ a _. k a)

  pub seq-Behaves :
      {B : Type 0} {task : Task (Unit {0})} {k : Task B}
      → Behaves task
      → Behaves k
      → Behaves (task >> k)
  seq-Behaves h k = seq_ensures I h k

  pub pure-Behaves : {A : Type 0} (a : A) → Behaves (pure a)
  pure-Behaves a = pure_ensures I a tt

  pub fail-Behaves : {A : Type 0} (e : RuntimeError) → Behaves (fail {A = A} e)
  fail-Behaves e = fail_ensures I e

  pub attempt-Behaves : {A : Type 0} {task : Task A} → Behaves task → Behaves (attempt task)
  attempt-Behaves h = ensures_weaker I (attempt_ensures I h) (λ _ _. tt)

  require-Behaves : (b : Bool) (e : RuntimeError) → Behaves (require b e)
  require-Behaves b e = ensures_weaker I (require_ensures I e) (λ _ _. tt)

  result-Behaves : {A : Type 0} (r : Result RuntimeError A) → Behaves (from_result r)
  result-Behaves r = ensures_weaker I (from_result_ensures I) (λ _ _. tt)

  pub if_Behaves :
      {A : Type 0} {task other : Task A} (b : Bool)
      → Behaves task
      → Behaves other
      → Behaves (if b then task else other)
  if_Behaves true h k = h
  if_Behaves false h k = k

  try_transition-Behaves :
      (id : ℕ) (expected next' : JobState) (update : JobUpdate)
      → Behaves (try_transition id expected next' update)
  unfolding try_transition
  try_transition-Behaves id expected next' update =
      kept.steps _ (λ time runtime. written-Progresses time id expected next' update runtime)

  or_again-Behaves :
      {again : Task JobRecord} (answer : Result RuntimeError JobRecord)
      → Behaves again
      → Behaves (or_again again answer)
  or_again-Behaves (ok job) h = pure-Behaves job
  or_again-Behaves (err e) h = if_Behaves (is_final e) (fail-Behaves e) h

  transition_attempts-Behaves :
      (left id : ℕ) (expected next' : JobState) (update : JobUpdate)
      → Behaves (transition_attempts left id expected next' update)
  unfolding transition_attempts
  transition_attempts-Behaves zero id expected next' update =
      try_transition-Behaves id expected next' update
  transition_attempts-Behaves (suc left) id expected next' update =
      then-Behaves (attempt-Behaves (try_transition-Behaves id expected next' update)) (λ answer.
        or_again-Behaves answer (transition_attempts-Behaves left id expected next' update))

  pub transition_with_retry-Behaves :
      (id : ℕ) (expected next' : JobState) (update : JobUpdate)
      → Behaves (transition_with_retry id expected next' update)
  unfolding transition_with_retry
  transition_with_retry-Behaves id expected next' update =
      transition_attempts-Behaves 3 id expected next' update

  reconstruct-Behaves :
      (id : ℕ) (input : JobInputDto) (decision : ReviewDecisionDto) (automatic : Bool)
      → Behaves (reconstruct id input decision automatic)
  unfolding reconstruct
  reconstruct-Behaves id input decision automatic = then-Behaves (kept.ready) (λ ready.
      seq-Behaves (require-Behaves ready _) (then-Behaves (kept.scans) (λ scan. result-Behaves _)))

  pub review_with_auto_guard-Behaves :
      (id : ℕ) (decision : ReviewDecisionDto) (automatic : Bool)
      → Behaves (review_with_auto_guard id decision automatic)
  unfolding review_with_auto_guard
  review_with_auto_guard-Behaves id decision automatic = then-Behaves (kept.looks (get id)) (λ job.
      seq-Behaves (require-Behaves _ _) (
        then-Behaves (reconstruct-Behaves id job.input decision automatic) (λ reconstructed.
          seq-Behaves (result-Behaves _) (
            kept.steps _ (λ time runtime.
              moved-Progresses time id awaiting_confirmation planning _ runtime)))))

  parent_manifest-Behaves : (id : ℕ) → Behaves (parent_manifest id)
  unfolding parent_manifest
  parent_manifest-Behaves id = then-Behaves (kept.looks (get id)) (λ parent.
      then-Behaves (result-Behaves _)
        (λ operations. then-Behaves (result-Behaves _) (λ manifest. pure-Behaves (some manifest))))

  pub replacement_manifest-Behaves : (id : ℕ) → Behaves (replacement_manifest id)
  unfolding replacement_manifest
  replacement_manifest-Behaves id =
      then-Behaves (kept.looks (get id)) (λ run. of_parent (parent_of run.input))
    where
      of_parent :
          (parent : Option ℕ)
          → Behaves {A = Option ReplacementManifest}
              (elim parent [ none ↦ pure none | some i ↦ parent_manifest i ])
      of_parent none = pure-Behaves none
      of_parent (some i) = parent_manifest-Behaves i

  -- The end of an execution.
  pub finish_execution-Behaves :
      (id : ℕ) (operations : ℕ) (outcome : PlanOutcome)
      → Behaves (finish_execution id operations outcome)
  unfolding finish_execution publish_completion
  finish_execution-Behaves id operations outcome =
      then-Behaves (transition_with_retry-Behaves id writing _ _) (λ job.
        seq-Behaves
          (kept.steps _ (λ time runtime.
            sent_to-Progresses id (EventData.completion (execution_end outcome).1) runtime))
          (pure-Behaves job))

  -- A reservation whose execution keeps the predicate.
  pub run_if_reserved-Behaves :
      ((id : ℕ) (plan : OutputPlan) (replacing : Option ReplacementManifest)
        → Behaves (run_plan id plan replacing))
      → (id : ℕ) (key : String) (plan : OutputPlan) → Behaves (run_if_reserved id key plan)
  unfolding run_if_reserved run_reserved_execution
  run_if_reserved-Behaves runs id key plan =
      then-Behaves
        (kept.steps _ (λ time runtime. reservation_answer-Progresses time id key _ runtime)) go_on
    where
      go_on : (reservation : ExecutionReservation) → Behaves (if_reserved id plan reservation)
      go_on (existing job) = pure-Behaves job
      go_on (reserved job) =
          then-Behaves (replacement_manifest-Behaves id)
            (λ replacing. then-Behaves (runs id plan replacing) (finish_execution-Behaves id _))

  module _
      (guarded : (id : ℕ) (key : String) (plan : OutputPlan)
        → Behaves (run_if_reserved id key plan)) where
    execute_planned-Behaves :
        (id : ℕ) (key : String) (job : JobRecord) (decision : ReviewDecisionDto)
        → Behaves (execute_planned id key job decision)
    unfolding execute_planned
    execute_planned-Behaves id key job decision = seq-Behaves (require-Behaves _ _) (
        then-Behaves (reconstruct-Behaves id job.input decision _) (λ reconstructed.
          then-Behaves (result-Behaves _) (λ reviewed. seq-Behaves (require-Behaves _ _) (
            seq-Behaves (result-Behaves _) (
              then-Behaves kept.closes (λ closing.
                seq-Behaves (require-Behaves _ _) (guarded id key reconstructed.plan)))))))

    execute_by-Behaves :
        (id : ℕ) (key : String) (job : JobRecord) (decision : ReviewDecisionDto) (planned : Bool)
        → Behaves (execute_by id key job decision planned)
    execute_by-Behaves id key job decision true = execute_planned-Behaves id key job decision
    execute_by-Behaves id key job decision false =
        kept.steps _ (λ time runtime. existing_only-Progresses time id key _ runtime)

    pub execute-Behaves : (id : ℕ) (key : String) → Behaves (Reviews.execute id key)
    unfolding Reviews.execute
    execute-Behaves id key = then-Behaves (kept.looks (get id)) (λ job.
        then-Behaves (result-Behaves _) (λ decision. execute_by-Behaves id key job decision _))
