-- ===== src/Jobs/Runtime/Approved.antt =====
-- What has been reviewed and checked of a plan that an execution in jobs/mod.rs hands on.
use fixer.Common.{
  ℕ, String, ◌≡◌, refl, sym, ap, Bool, true, false, Option, none, some, List, [], ◌∷◌, ◌++◌, ◌∙◌,
  ◌==◌, nat_eq, option_eq, string_eq, All, inl, ◌⊎◌, arith,
}
use fixer.Std.Result.{Result, ok, err}
use fixer.Std.Action.{then_run, ◌>>=◌, ◌>>◌, pure, fail, require, from_result}
use fixer.Std.Action.Ensures.{Ensures, Yields, require_ensures, from_result_ensures, ensures_weaker}
use fixer.Jobs.State.{planning, state_eq, state_beq_iff}
use fixer.Jobs.Model.{JobInputDto, ReviewDecisionDto, PlanSummary}
use fixer.Jobs.Store.{JobRecord, reserve_execution}
use fixer.Jobs.Runtime.{JobRuntime, RuntimeError, worker_flow_unavailable, execution_conflict, get}
use fixer.Jobs.Runtime.Course.{
  Course, Task, PlanRun, look, next_scan, flow_is_ready, after_others, moved_by, scan_of, rest_of,
}
use fixer.Jobs.Runtime.Flow.{Reconstructed, reconstruct_plan, check_plan}
use fixer.Jobs.Runtime.Review.{
  reconstruct, replacement_manifest, finish_execution, run_reserved_execution, if_reserved,
  run_if_reserved, execute_planned, execute_by, given, is_reviewed, auto_execution_key,
  reservation_answer, existing_only, execution_fingerprint,
}
use fixer.Jobs.Runtime.Review as Reviews
use fixer.Jobs.Runtime.Interleaved.{Progresses, Progresses-same, IsLawful, existing_only-Progresses}
use fixer.Std.Action.Finishes.{Finishes, then-Finishes, seq-Finishes}
use fixer.Jobs.Runtime.Outcome.{
  IsApproved, IsExecuted-kept, Outcome, Untouched, untouched, run_if_reserved-Outcome,
}

given-some :
    {A : Type 0} (e : RuntimeError) (value : Option A) {a : A}
    → given e value ≡ ok a
    → value ≡ some a
given-some e none h = absurd (ground arith)
given-some e (some value) h = ground arith

module _ (from : Course) (id : ℕ) (key : String) where
  -- No plan was executed, and nothing was scanned.
  record IsFresh (course : Course) : Type 0 where
    untouched_yet : (Untouched from id key) course
    unscanned : course.scans ≡ from.scans

  fresh-Outcome : (course : Course) → IsFresh course → Outcome from id key course
  fresh-Outcome course h = inl h.untouched_yet.same

  moved_by-scans :
      (course : Course) (moves : List (JobRuntime → JobRuntime))
      → (moved_by moves course).scans ≡ course.scans
  moved_by-scans course [] = refl
  moved_by-scans course (move ∷ moves) = refl

  looks-IsFresh :
      {A : Type 0} (question : JobRuntime → Result RuntimeError A)
      → Ensures IsFresh (look question) (λ a.
        (runtime : JobRuntime) × (Progresses from.runtime runtime) × (question runtime ≡ ok a))
  unfolding look
  looks-IsFresh {A} question = record {
    run = λ course h.
        let after' =
          (((IsExecuted-kept from from.executed).looks question).run course h.untouched_yet).0 in
        (
          record {
            untouched_yet = after';
            unscanned = moved_by-scans course course.moves ∙ h.unscanned;
          },
          answered (after_others course).runtime after'.progress
              (question (after_others course).runtime) refl,
        );
  }
    where
      answered :
          (runtime : JobRuntime)
          → Progresses from.runtime runtime
          → (answer : Result RuntimeError A) → question runtime ≡ answer
          → Yields answer (λ a.
            (runtime : JobRuntime) × (Progresses from.runtime runtime) × (question runtime ≡ ok a))
      answered runtime h (ok a) e = (runtime, h, e)
      answered runtime h (err e') e = tt

  -- A reconstruction looks at the next scan.
  reconstruct-Finishes :
      {B : Type 0} (input : JobInputDto) (decision : ReviewDecisionDto) (automatic : Bool)
      {f : Reconstructed → Task B}
      → ((again : Reconstructed)
          → reconstruct_plan (scan_of from.scans) input decision automatic ≡ ok again
          → Finishes (Untouched from id key) (Outcome from id key) (f again))
      → Finishes IsFresh (Outcome from id key) (reconstruct id input decision automatic >>= f)
  unfolding reconstruct ◌>>=◌ ◌>>◌ flow_is_ready next_scan require from_result pure fail
  reconstruct-Finishes input decision automatic {f} go_on = record {
    finish = λ course h. of_ready course h course.flow_ready;
  }
    where
      of_scan :
          (answer : Result RuntimeError Reconstructed) (course' : Course)
          → reconstruct_plan (scan_of from.scans) input decision automatic ≡ answer
          → (Untouched from id key) course'
          → Outcome from id key (then_run f (from_result answer course')).1
      of_scan (ok again) course' e k = (go_on again e).finish course' k
      of_scan (err e') course' e k = inl k.same

      of_ready :
          (course : Course)
          → IsFresh course
          → (ready : Bool)
          → Outcome from id key
              (then_run f (
                then_run
                  (λ _. next_scan >>= λ scan.
                    from_result (reconstruct_plan scan input decision automatic))
                  (require ready worker_flow_unavailable course))).1
      of_ready course h true =
          of_scan (reconstruct_plan (scan_of course.scans) input decision automatic)
            (record course { scans = rest_of course.scans })
            (ap (λ scans. reconstruct_plan (scan_of scans) input decision automatic)
              (sym h.unscanned))
            (record {
              progress = h.untouched_yet.progress;
              lawful = h.untouched_yet.lawful;
              same = h.untouched_yet.same;
            })
      of_ready course h false = inl h.untouched_yet.same

  check_ensures :
      (again : Reconstructed)
      → Ensures
          (Untouched from id key)
          (from_result (check_plan again.checks.fs_policy again.plan))
          (λ _. check_plan again.checks.fs_policy again.plan ≡ ok tt)
  check_ensures again =
      ensures_weaker (Untouched from id key) (from_result_ensures (Untouched from id key))
        (λ done h. h)

  execute_planned-Outcome :
      (runtime : JobRuntime) (job : JobRecord) (decision : ReviewDecisionDto)
      → Progresses from.runtime runtime
      → get id runtime ≡ ok job
      → job.state ≡ planning
      → job.review_decision ≡ some decision
      → Finishes IsFresh (Outcome from id key) (execute_planned id key job decision)
  unfolding execute_planned
  execute_planned-Outcome runtime job decision progress found planned decides =
      seq-Finishes IsFresh (Outcome from id key) (require_ensures IsFresh _) fresh-Outcome
        (λ applies. reconstruct-Finishes job.input decision (key == auto_execution_key) (λ again e.
          then-Finishes (Untouched from id key) (Outcome from id key)
            (from_result_ensures (Untouched from id key)) (untouched from id key)
            (λ reviewed had.
              seq-Finishes (Untouched from id key) (Outcome from id key)
                (require_ensures (Untouched from id key) _) (untouched from id key)
                (λ same.
                  seq-Finishes (Untouched from id key) (Outcome from id key) (check_ensures again)
                    (untouched from id key)
                    (λ permitted.
                      then-Finishes (Untouched from id key) (Outcome from id key)
                        (IsExecuted-kept from from.executed).closes (untouched from id key)
                        (λ closing _.
                          seq-Finishes (Untouched from id key) (Outcome from id key)
                            (require_ensures (Untouched from id key) _) (untouched from id key)
                            (λ _. run_if_reserved-Outcome from id key again.plan (λ replacing.
                              record {
                                runtime = runtime;
                                job = job;
                                decision = decision;
                                reviewed = reviewed;
                                again = again;
                                progress = progress;
                                found = found;
                                planned = planned;
                                applies = applies;
                                decided = decides;
                                summarised = given-some (execution_conflict job.state) job.plan had;
                                reconstructed = e;
                                count = sym ((reviewed_of reviewed _ again.fingerprint same).0);
                                fingerprint = (reviewed_of reviewed _ again.fingerprint same).1;
                                permitted = permitted;
                                its_job = refl;
                                its_plan = refl;
                              }))))))))
    where
      reviewed_of :
          (reviewed : PlanSummary) (operations : ℕ) (fingerprint : String)
          → is_reviewed reviewed operations fingerprint ≡ true
          → (reviewed.operation_count ≡ operations) × (reviewed.fingerprint ≡ some fingerprint)
      reviewed_of reviewed operations fingerprint h = (
        ground arith,
        (option_eq.same_iff reviewed.fingerprint (some fingerprint)).0 (ground arith),
      )

  execute_by-Outcome :
      (runtime : JobRuntime) (job : JobRecord) (decision : ReviewDecisionDto) (is_planned : Bool)
      → Progresses from.runtime runtime
      → get id runtime ≡ ok job
      → (job.state == planning) ≡ is_planned
      → job.review_decision ≡ some decision
      → Finishes IsFresh (Outcome from id key) (execute_by id key job decision is_planned)
  execute_by-Outcome runtime job decision true progress found planned decides =
      execute_planned-Outcome runtime job decision progress found
        ((state_beq_iff job.state planning).0 planned) decides
  execute_by-Outcome runtime job decision false progress found planned decides = record {
    finish = λ course h. inl (
        (((IsExecuted-kept from from.executed).steps
            (λ time runtime.
              existing_only (reserve_execution time id key execution_fingerprint runtime.tables)
                runtime)
            (λ time runtime.
              existing_only-Progresses time id key execution_fingerprint runtime)).run
          course h.untouched_yet).0.same);
  }

-- An execution hands the executor no plan, or one plan, whatever others do between its steps, if
-- it is made of statements and events. The one plan is what the next scan leads to by the decision
-- of the job's review; the job was planning when it was read, asks for its plan to be applied, and
-- its review kept the number of operations and the fingerprint of this plan; and the path policy
-- permits it.
pub execute-IsApproved :
    (id : ℕ) (key : String) (course : Course)
    → All IsLawful course.moves
    → ((Reviews.execute id key course).1.executed ≡ course.executed)
      ⊎ ((run : PlanRun) × ((Reviews.execute id key course).1.executed
            ≡ course.executed ++ run ∷ [])
          × IsApproved course id key run)
unfolding Reviews.execute
execute-IsApproved id key course lawful =
    (then-Finishes (IsFresh course id key) (Outcome course id key)
        (looks-IsFresh course id key (get id)) (fresh-Outcome course id key)
        (λ job (runtime, progress, found).
          then-Finishes (IsFresh course id key) (Outcome course id key)
            (from_result_ensures (IsFresh course id key)) (fresh-Outcome course id key)
            (λ decision decides.
              execute_by-Outcome course id key runtime job decision _ progress found refl
                (given-some (execution_conflict job.state) job.review_decision decides)))).finish
      course
      (record {
        untouched_yet = record {
          progress = Progresses-same course.runtime;
          lawful = lawful;
          same = refl;
        };
        unscanned = refl;
      })
