-- ===== src/Jobs/Runtime/Once.antt =====
-- How often the plan of a job is executed by the tasks of jobs/mod.rs.
use fixer.Common.{
  ℕ, String, ◌≡◌, ◌≢◌, refl, sym, subst, false, Option, none, some, List, [], ◌∷◌, ◌++◌, All,
  All-append,
}
use fixer.Std.Result.{Result, ok, err}
use fixer.Std.Action.{then_run, ◌>>=◌, pure}
use fixer.Std.Action.Ensures.{Ensures, Any}
use fixer.Core.Output.{OutputPlan}
use fixer.Core.Scrape.{ReplacementManifest}
use fixer.Jobs.Store.{
  Tables, ExecutionRow, ExecutionReservation, reserved, existing, find_execution, reserve_execution,
  StoreError,
}
use fixer.Jobs.Store.Inversion.{reservation_row, reserved_inv}
use fixer.Jobs.Store.Reservations.{History-reservation, reserved_row}
use fixer.Jobs.Runtime.{JobRuntime, RuntimeError}
use fixer.Jobs.Runtime.Served.{publish_transition-Keeps}
use fixer.Jobs.Runtime.Course.{
  Course, Task, PlanRun, look, atomically, run_plan, after_others, time_of, rest_of, stepped,
}
use fixer.Jobs.Runtime.Review.{
  review, finish_execution, replacement_manifest, run_reserved_execution, if_reserved,
  run_if_reserved, reservation_answer, execution_fingerprint,
}
use fixer.Jobs.Runtime.Review as Reviews
use fixer.Jobs.Runtime.Interleaved.{
  Progresses, IsLawful, IsKept, kept_by_progress, yields_any, reservation_answer-Progresses,
}
use fixer.Jobs.Runtime.Stages.{
  replacement_manifest-Behaves, finish_execution-Behaves, review_with_auto_guard-Behaves,
  execute-Behaves,
}
use fixer.Jobs.Runtime.Rounds.{worker_round-Behaves}
use fixer.Jobs.Runtime.Worked.{Work, reviewing, executing, working, do_work, do_all}

-- A reservation for a job is in the tables.
abbrev pub IsHeld : Tables → ℕ → Type 0
IsHeld t id = (row : ExecutionRow) × (find_execution id t.executions ≡ some row)

abbrev pub IsOther : ℕ → PlanRun → Type 0
IsOther id run = run.job_id ≢ id

-- No two runs are of one job.
abbrev pub IsOnce : List PlanRun → Type 0
IsOnce [] = Unit
IsOnce (run ∷ runs) = All (IsOther run.job_id) runs × IsOnce runs

-- The plans that were executed are of jobs that are reserved, and of different ones.
pub record IsOrderly (course : Course) : Type 0 where
  pub lawful : All IsLawful course.moves
  pub held : All (λ run. IsHeld course.runtime.tables run.job_id) course.executed
  pub once : IsOnce course.executed

held_on :
    {before after : JobRuntime} (id : ℕ)
    → Progresses before after
    → IsHeld before.tables id
    → IsHeld after.tables id
held_on id h (row, found) = (row, History-reservation id row h.history found)

all_held :
    {before after : JobRuntime} (runs : List PlanRun)
    → Progresses before after
    → All (λ run. IsHeld before.tables run.job_id) runs
    → All (λ run. IsHeld after.tables run.job_id) runs
all_held [] h k = tt
all_held (run ∷ runs) h (first', rest) = (held_on run.job_id h first', all_held runs h rest)

IsOrderly-kept : IsKept IsOrderly
IsOrderly-kept =
    kept_by_progress IsOrderly (λ course h. h.lawful)
      (λ course runtime moves times scans stops h k lawful. record {
        lawful = lawful;
        held = all_held course.executed k h.held;
        once = h.once;
      })

-- A job that is reserved, and whose plan was not executed yet.
record IsGranted (id : ℕ) (course : Course) : Type 0 where
  orderly : IsOrderly course
  its : IsHeld course.runtime.tables id
  unexecuted : All (IsOther id) course.executed

IsGranted-kept : (id : ℕ) → IsKept (IsGranted id)
IsGranted-kept id =
    kept_by_progress (IsGranted id) (λ course h. h.orderly.lawful)
      (λ course runtime moves times scans stops h k lawful. record {
        orderly = record {
          lawful = lawful;
          held = all_held course.executed k h.orderly.held;
          once = h.orderly.once;
        };
        its = held_on id k h.its;
        unexecuted = h.unexecuted;
      })

-- The course that a chain ends in, by the course of its first part.
then_ends :
    {A B : Type 0} (P Q : Course → Type 0) (f : A → Task B) (x : Result RuntimeError A × Course)
    → P x.1
    → ((course : Course) → P course → Q course)
    → ((a : A) (course : Course) → P course → Q (f a course).1)
    → Q (then_run f x).1
then_ends P Q f (ok a, course) h weaker go_on = go_on a course h
then_ends P Q f (err e, course) h weaker go_on = weaker course h

append-IsOnce :
    (runs : List PlanRun) (run : PlanRun)
    → IsOnce runs
    → All (IsOther run.job_id) runs
    → IsOnce (runs ++ run ∷ [])
append-IsOnce [] run h k = (tt, tt)
append-IsOnce (first' ∷ runs) run (others, h) (other, k) = (
  All-append (IsOther first'.job_id) runs (run ∷ []) others ((λ e. other (sym e)), tt),
  append-IsOnce runs run h k,
)

run_plan-IsOrderly :
    (id : ℕ) (plan : OutputPlan) (replacing : Option ReplacementManifest) (course : Course)
    → IsGranted id course
    → IsOrderly (run_plan id plan replacing course).1
unfolding run_plan
run_plan-IsOrderly id plan replacing course h = record {
  lawful = h.orderly.lawful;
  held =
      All-append (λ run. IsHeld course.runtime.tables run.job_id) course.executed _ h.orderly.held
        (h.its, tt);
  once = append-IsOnce course.executed _ h.orderly.once h.unexecuted;
}

run_reserved-IsOrderly :
    (id : ℕ) (plan : OutputPlan) (operations : ℕ) (course : Course)
    → IsGranted id course
    → IsOrderly (run_reserved_execution id plan operations course).1
unfolding run_reserved_execution ◌>>=◌
run_reserved-IsOrderly id plan operations course h =
    then_ends (IsGranted id) IsOrderly
      (λ replacing. run_plan id plan replacing >>= finish_execution id operations)
      (replacement_manifest id course)
      ((replacement_manifest-Behaves (IsGranted id) (IsGranted-kept id) id).run course h).0
      (λ course' k. k.orderly)
      (λ replacing course' k.
        then_ends IsOrderly IsOrderly (finish_execution id operations)
          (run_plan id plan replacing course') (run_plan-IsOrderly id plan replacing course' k)
          (λ course'' j. j)
          (λ outcome course'' j.
            ((finish_execution-Behaves IsOrderly IsOrderly-kept id operations outcome).run course''
              j).0))

-- Nothing was executed for a job that has no reservation.
none_executed :
    (id : ℕ) (t : Tables) (runs : List PlanRun)
    → find_execution id t.executions ≡ none
    → All (λ run. IsHeld t run.job_id) runs
    → All (IsOther id) runs
none_executed id t [] free h = tt
none_executed id t (run ∷ runs) free ((row, found), h) = (
  (λ same. absurd (cc (subst (λ i. find_execution i t.executions ≡ some row) same found, free))),
  none_executed id t runs free h,
)

module _ (id : ℕ) (key : String) (plan : OutputPlan) (time : Option ℕ) where
  -- What follows an answer to the request for a reservation.
  reservation_ends :
      (course : Course) (times : List (Option ℕ))
      (result : Result StoreError (ExecutionReservation × Tables))
      → reserve_execution time id key execution_fingerprint course.runtime.tables ≡ result
      → IsOrderly course
      → IsOrderly
          (stepped (reservation_answer result course.runtime) (record course { times = times })).1
      → IsOrderly
          (then_run (if_reserved id plan) (
            stepped (reservation_answer result course.runtime) (record course { times = times }))).1
  unfolding pure
  reservation_ends course times (err e) h before' after' = after'
  reservation_ends course times (ok (existing job, tables)) h before' after' = after'
  reservation_ends course times (ok (reserved job, tables)) h before' after' =
      let runtime' : JobRuntime = record course.runtime { tables = tables } in
      let published = (publish_transition-Keeps job runtime').0 in
      let (now, held) = reserved_row time id key execution_fingerprint course.runtime.tables h in
      let (now', old, found, in_state, fresh, timed, e, e') =
        reserved_inv time id key execution_fingerprint course.runtime.tables h in
      run_reserved-IsOrderly id plan _ _ (record {
        orderly = after';
        its = (
          reservation_row now id key execution_fingerprint,
          subst
              (λ (t : Tables).
                find_execution id t.executions
                ≡ some (reservation_row now id key execution_fingerprint))
              (sym published) held,
        );
        unexecuted = none_executed id course.runtime.tables course.executed fresh before'.held;
      })

run_if_reserved-IsOrderly :
    (id : ℕ) (key : String) (plan : OutputPlan)
    → Ensures IsOrderly (run_if_reserved id key plan) Any
unfolding run_if_reserved ◌>>=◌ atomically look
run_if_reserved-IsOrderly id key plan = record {
  run = λ course h.
      let course' = after_others course in
      let time = time_of course'.times in
      let before' = ((IsOrderly-kept.looks {A = Unit {0}} (λ _. ok tt)).run course h).0 in
      let after' =
        ((IsOrderly-kept.steps {A = ExecutionReservation}
            (λ time runtime.
              reservation_answer
                (reserve_execution time id key execution_fingerprint runtime.tables) runtime)
            (λ time runtime.
              reservation_answer-Progresses time id key execution_fingerprint runtime)).run
          course h).0 in
      (
        reservation_ends id key plan time course' (rest_of course'.times) _ refl before' after',
        yields_any _,
      );
}

executes-IsOrderly : (id : ℕ) (key : String) → Ensures IsOrderly (Reviews.execute id key) Any
executes-IsOrderly id key =
    execute-Behaves IsOrderly IsOrderly-kept run_if_reserved-IsOrderly id key

module _ (rounds : ℕ) where
  do_work-IsOrderly :
      (work : Work) (course : Course) → IsOrderly course → IsOrderly (do_work rounds work course)
  unfolding review
  do_work-IsOrderly (reviewing id decision) course h =
      ((review_with_auto_guard-Behaves IsOrderly IsOrderly-kept id decision false).run course h).0
  do_work-IsOrderly (executing id key) course h = ((executes-IsOrderly id key).run course h).0
  do_work-IsOrderly working course h =
      ((worker_round-Behaves IsOrderly IsOrderly-kept executes-IsOrderly rounds rounds).run course
        h).0

  -- Whatever reviews, executions and rounds of the worker run, with any moves of others between
  -- their steps that are made of statements and events: no job's plan is handed to the executor
  -- twice, and a job whose plan was handed to it has a reservation, if this is so at the start.
  pub do_all-IsOrderly :
      (works : List Work) (course : Course)
      → IsOrderly course
      → IsOrderly (do_all rounds works course)
  do_all-IsOrderly [] course h = h
  do_all-IsOrderly (work ∷ works) course h =
      do_all-IsOrderly works (do_work rounds work course) (do_work-IsOrderly work course h)
