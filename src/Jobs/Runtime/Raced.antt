-- ===== src/Jobs/Runtime/Raced.antt =====
-- When `execute` of jobs/mod.rs reaches its `unreachable!`.
use fixer.Common.{
  ℕ, String, ◌≡◌, ◌≢◌, refl, sym, ap, subst, ◌∙◌, Bool, true, false, Option, none, some, ◌==◌,
  arith,
}
use fixer.Std.Result.{Result, ok, err, map_err}
use fixer.Std.Action.{then_run, ◌>>=◌, from_result}
use fixer.Jobs.State.{planning, state_eq, state_beq_iff}
use fixer.Jobs.Model.{ReviewDecisionDto}
use fixer.Jobs.Store.{
  JobRecord, Tables, StoreError, ExecutionReservation, reserved, existing, reserve_execution,
  get_job, find_job, find_execution,
}
use fixer.Jobs.Store.Inversion.{reserved_inv}
use fixer.Jobs.Runtime.{
  JobRuntime, RuntimeError, reached_unreachable, execution_conflict, Answer, get,
}
use fixer.Jobs.Runtime.Course.{Course, look, atomically, after_others, time_of, rest_of, stepped}
use fixer.Jobs.Runtime.Review.{
  execute_planned, execute_by, existing_only, given, execution_fingerprint,
}
use fixer.Jobs.Runtime.Review as Reviews
use fixer.Jobs.Runtime.Calm.{Calm, get-Calm, execute_planned-Calm}

-- The job was not planning where it was read, and had a decision; at the reservation, after what
-- others did, it is planning and has no reservation.
pub record IsRaced (id : ℕ) (course : Course) : Type 0 where
  pub job : JobRecord
  pub job' : JobRecord
  pub decision : ReviewDecisionDto
  pub read : get id (after_others course).runtime ≡ ok job
  pub waited : job.state ≢ planning
  pub decided : job.review_decision ≡ some decision
  pub met : get id (after_others (after_others course)).runtime ≡ ok job'
  pub planned : job'.state ≡ planning
  pub unreserved :
      find_execution id (after_others (after_others course)).runtime.tables.executions ≡ none

no_panic : {A : Type 0} (r : Result RuntimeError A) → Calm r → r ≢ err reached_unreachable
no_panic (ok a) h = λ e. cc e
no_panic (err e) h = λ same. ground (arith, h, same)

reached_reserved :
    (result : Result StoreError (ExecutionReservation × Tables)) (runtime : JobRuntime)
    → (existing_only result runtime).0 ≡ err reached_unreachable
    → (job : JobRecord) × (tables : Tables) × (result ≡ ok (reserved job, tables))
reached_reserved (err e) runtime h = absurd (cc h)
reached_reserved (ok (existing job, tables)) runtime h = absurd (cc h)
reached_reserved (ok (reserved job, tables)) runtime h = (job, tables, refl)

of_stepped :
    {A : Type 0} (answer : Answer A) (course : Course) → (stepped answer course).0 ≡ answer.0
of_stepped (answer, runtime) course = refl

get_found :
    (id : ℕ) (runtime : JobRuntime) (job : JobRecord)
    → find_job id runtime.tables.jobs ≡ some job
    → get id runtime ≡ ok job
unfolding get get_job
get_found id runtime job found =
    ap
      (λ (row : Option JobRecord).
        map_err RuntimeError.store
          (elim row [ none ↦ err (StoreError.not_found id) | some job' ↦ ok job' ]))
      found

module _ (id : ℕ) (key : String) (course : Course) where
  -- The reservation of a job that was read outside planning.
  by_reservation :
      (job : JobRecord) (decision : ReviewDecisionDto)
      → get id (after_others course).runtime ≡ ok job
      → job.review_decision ≡ some decision
      → job.state ≢ planning
      → (execute_by id key job decision false (after_others course)).0 ≡ err reached_unreachable
      → IsRaced id course
  unfolding atomically
  by_reservation job decision read decided waited h =
      let met = after_others (after_others course) in
      let time = time_of met.times in
      let (job'', tables, e) =
        reached_reserved (reserve_execution time id key execution_fingerprint met.runtime.tables)
          met.runtime
          (sym (
              of_stepped
                (existing_only
                  (reserve_execution time id key execution_fingerprint met.runtime.tables)
                  met.runtime)
                (record met { times = rest_of met.times }))
            ∙ h) in
      let (now, old, found, in_state, fresh, timed, made, changed) =
        reserved_inv time id key execution_fingerprint met.runtime.tables e in
      record {
        job = job;
        job' = old;
        decision = decision;
        read = read;
        waited = waited;
        decided = decided;
        met = get_found id met.runtime old found;
        planned = in_state;
        unreserved = fresh;
      }

  by_state :
      (job : JobRecord) (decision : ReviewDecisionDto) (is_planned : Bool)
      → (job.state == planning) ≡ is_planned
      → get id (after_others course).runtime ≡ ok job
      → job.review_decision ≡ some decision
      → (execute_by id key job decision is_planned (after_others course)).0
        ≡ err reached_unreachable
      → IsRaced id course
  by_state job decision true planned read decided h =
      absurd (no_panic _ ((execute_planned-Calm id key job decision).error (after_others course)) h)
  by_state job decision false planned read decided h =
      by_reservation job decision read decided
        (λ same. cc ((state_beq_iff job.state planning).1 same, planned)) h

  by_decision :
      (job : JobRecord) (given_decision : Option ReviewDecisionDto)
      → job.review_decision ≡ given_decision
      → get id (after_others course).runtime ≡ ok job
      → (then_run
          (λ decision. execute_by id key job decision (job.state == planning))
          (from_result
            (given (execution_conflict job.state) given_decision)
            (after_others course))).0
        ≡ err reached_unreachable
      → IsRaced id course
  unfolding from_result
  by_decision job none e read h = absurd (cc h)
  by_decision job (some decision) e read h =
      by_state job decision (job.state == planning) refl read e h

  by_job :
      (answer : Result RuntimeError JobRecord)
      → get id (after_others course).runtime ≡ answer
      → (then_run
          (λ job.
            from_result (given (execution_conflict job.state) job.review_decision) >>= λ decision.
            execute_by id key job decision (job.state == planning))
          (answer, after_others course)).0
        ≡ err reached_unreachable
      → IsRaced id course
  unfolding ◌>>=◌
  by_job (ok job) e h = by_decision job job.review_decision refl e h
  by_job (err e') e h = absurd (
      no_panic {A = JobRecord} (err e')
        (subst (λ (r : Result RuntimeError JobRecord). Calm r) e
          (get-Calm id (after_others course).runtime))
        h)

-- An execution reaches its `unreachable!` only in a race: the job that it read was not planning and
-- had the decision of an earlier review, and others made it planning, without a reservation, before
-- the lock was taken.
pub execute-IsRaced :
    (id : ℕ) (key : String) (course : Course)
    → (Reviews.execute id key course).0 ≡ err reached_unreachable
    → IsRaced id course
unfolding Reviews.execute look ◌>>=◌
execute-IsRaced id key course h = by_job id key course (get id (after_others course).runtime) refl h
