-- ===== src/Jobs/Runtime/Outcome.antt =====
-- What an execution of jobs/mod.rs leads to, as far as plans are executed.
use fixer.Common.{
  ℕ, String, ◌≡◌, ap, true, Option, some, List, [], ◌∷◌, ◌++◌, length, ◌==◌, nat_eq, option_eq,
  string_eq, All, inl, inr, ◌⊎◌,
}
use fixer.Std.Result.{ok}
use fixer.Std.Action.{◌>>=◌, pure}
use fixer.Core.Output.{OutputPlan}
use fixer.Core.Scrape.{ReplacementManifest}
use fixer.Jobs.State.{planning, state_eq}
use fixer.Jobs.Model.{ReviewDecisionDto, PlanSummary}
use fixer.Jobs.Store.{JobRecord, ExecutionReservation, reserved, existing, reserve_execution}
use fixer.Jobs.Runtime.{JobRuntime, get}
use fixer.Jobs.Runtime.Course.{Course, PlanRun, run_plan, scan_of, rest_of}
use fixer.Jobs.Runtime.Flow.{Reconstructed, reconstruct_plan, check_plan}
use fixer.Jobs.Runtime.Review.{
  finish_execution, run_reserved_execution, if_reserved, run_if_reserved, auto_execution_key,
  reservation_answer, execution_fingerprint,
}
use fixer.Jobs.Runtime.Interleaved.{
  Progresses, Progresses-then, IsLawful, IsKept, kept_by_progress, reservation_answer-Progresses,
}
use fixer.Jobs.Runtime.Stages.{replacement_manifest-Behaves, finish_execution-Behaves}
use fixer.Std.Action.Finishes.{Finishes, then-Finishes}

-- What an execution of the plan of a run was asked for, and has checked: the job as it was read
-- while it was planning, and the plan that the next scan leads to by the decision of its review.
pub record IsApproved (from : Course) (id : ℕ) (key : String) (run : PlanRun) : Type 0 where
  pub runtime : JobRuntime
  pub job : JobRecord
  pub decision : ReviewDecisionDto
  pub reviewed : PlanSummary
  pub again : Reconstructed
  pub progress : Progresses from.runtime runtime
  pub found : get id runtime ≡ ok job
  pub planned : job.state ≡ planning
  pub applies : job.input.apply ≡ true
  pub decided : job.review_decision ≡ some decision
  pub summarised : job.plan ≡ some reviewed
  pub reconstructed :
      reconstruct_plan (scan_of from.scans) job.input decision (key == auto_execution_key)
      ≡ ok again
  pub count : length again.plan.operations ≡ reviewed.operation_count
  pub fingerprint : reviewed.fingerprint ≡ some again.fingerprint
  pub permitted : check_plan again.checks.fs_policy again.plan ≡ ok tt
  pub its_job : run.job_id ≡ id
  pub its_plan : run.plan ≡ again.plan

-- What was executed is `runs`.
pub record IsExecuted (from : Course) (runs : List PlanRun) (course : Course) : Type 0 where
  pub progress : Progresses from.runtime course.runtime
  pub lawful : All IsLawful course.moves
  pub same : course.executed ≡ runs

pub IsExecuted-kept : (from : Course) (runs : List PlanRun) → IsKept (IsExecuted from runs)
IsExecuted-kept from runs =
    kept_by_progress (IsExecuted from runs) (λ course h. h.lawful)
      (λ course runtime moves times scans stops h k lawful. record {
        progress = Progresses-then h.progress k;
        lawful = lawful;
        same = h.same;
      })

-- The outcome of an execution, as far as plans are executed.
abbrev pub Outcome : Course → ℕ → String → Course → Type 0
Outcome from id key course =
    (course.executed ≡ from.executed)
    ⊎ ((run : PlanRun) × (course.executed ≡ from.executed ++ run ∷ []) × IsApproved from id key run)

module _ (from : Course) (id : ℕ) (key : String) where
  abbrev pub Untouched : Course → Type 0
  Untouched = IsExecuted from from.executed

  pub untouched : (course : Course) → Untouched course → Outcome from id key course
  untouched course h = inl h.same

  run_plan-Outcome :
      (plan : OutputPlan) (operations : ℕ) (replacing : Option ReplacementManifest)
      → IsApproved from id key (record { job_id = id; plan = plan; replacing = replacing })
      → Finishes Untouched
          (Outcome from id key)
          (run_plan id plan replacing >>= finish_execution id operations)
  unfolding run_plan ◌>>=◌
  run_plan-Outcome plan operations replacing approved = record {
    finish = λ course h.
        let runs =
          from.executed ++ record { job_id = id; plan = plan; replacing = replacing } ∷ [] in
        let ran = record course {
          executed =
              course.executed ++ record { job_id = id; plan = plan; replacing = replacing } ∷ [];
          outcomes = rest_of course.outcomes;
        } in
        inr (
          record { job_id = id; plan = plan; replacing = replacing },
          ((finish_execution-Behaves (IsExecuted from runs) (IsExecuted-kept from runs) id
                operations _).run
              ran
              (record {
                progress = h.progress;
                lawful = h.lawful;
                same =
                    ap
                      (λ executed.
                        executed ++ record { job_id = id; plan = plan; replacing = replacing } ∷ [])
                      h.same;
              })).0.same,
          approved,
        );
  }

  pub run_if_reserved-Outcome :
      (plan : OutputPlan)
      → ((replacing : Option ReplacementManifest)
          → IsApproved from id key (record { job_id = id; plan = plan; replacing = replacing }))
      → Finishes Untouched (Outcome from id key) (run_if_reserved id key plan)
  unfolding run_if_reserved run_reserved_execution pure
  run_if_reserved-Outcome plan approved =
      then-Finishes Untouched (Outcome from id key)
        ((IsExecuted-kept from from.executed).steps
          (λ time runtime.
            reservation_answer (reserve_execution time id key execution_fingerprint runtime.tables)
              runtime)
          (λ time runtime. reservation_answer-Progresses time id key execution_fingerprint runtime))
        untouched of_reservation
    where
      of_reservation :
          (answer : ExecutionReservation)
          → Unit {0}
          → Finishes Untouched (Outcome from id key) (if_reserved id plan answer)
      of_reservation (existing job) _ = record { finish = λ course h. inl h.same }
      of_reservation (reserved job) _ =
          then-Finishes Untouched (Outcome from id key)
            (replacement_manifest-Behaves Untouched (IsExecuted-kept from from.executed) id)
            untouched (λ replacing _. run_plan-Outcome plan _ replacing (approved replacing))
