-- ===== src/Tests/Jobs.antt =====
-- A job of crates/fixer-server from creation to completion, and instances of the theorems of Jobs.
use fixer.Common.{
  ℕ, ◌≡◌, refl, true, Option, none, some, arith, ◌&&◌, ◌==◌, string_eq, if◌then◌else◌, String,
}
use fixer.Std.Result.{Result, ok, err}
use fixer.Jobs.State.{
  JobState, queued, scanning, searching, resolving, awaiting_confirmation, planning, writing,
  completed, cancelled, interrupted, can_transition_to, is_terminal,
}
use fixer.Jobs.State.Paths.{Run, done, step, Visits, completed_run, final_run}
use fixer.Jobs.Model.{JobInputDto, movie, new_input, new_progress}
use fixer.Jobs.Store.{
  JobRecord, Tables, StoreError, with_progress, find_job, set_job, find_execution, create_job,
  claim_oldest_queued, transition, reserve_execution, ExecutionReservation, reserved, existing,
  interrupt_active_jobs, idempotency_conflict, reserved_execution_retry,
}
use fixer.Jobs.Store.Inversion.{is_reserved}
use fixer.Jobs.Store.Invariant.{IsValid, agrees}
use fixer.Jobs.Store.Growth.{empty_tables, empty-IsValid}
use fixer.Jobs.Store.Steps.{Step, History, start, next, History-IsValid}
use fixer.Jobs.Store.Steps
use fixer.Jobs.Store.Continuity.{Continues, History-Continues}
use fixer.Jobs.Store.Reservations.{reserve_once, reserve_again, History-agrees}

full_run : Run queued completed
unfolding can_transition_to
full_run = step {t = scanning} refl (
    step {t = searching} refl (
      step {t = resolving} refl (
        step {t = awaiting_confirmation} refl (
          step {t = planning} refl
            (step {t = writing} refl (step {t = completed} refl (done completed)))))))

full_run-Visits : Visits completed full_run
unfolding full_run
full_run-Visits = ground arith

completed_run_example :
    Visits awaiting_confirmation full_run × Visits planning full_run × Visits writing full_run
completed_run_example = completed_run full_run full_run-Visits

is_terminal_cancelled : is_terminal cancelled ≡ true
unfolding is_terminal
is_terminal_cancelled = refl

final_run_example : cancelled ≡ cancelled
final_run_example = final_run is_terminal_cancelled (ground arith) (done cancelled)

abbrev after {ℓ} : {A : Type ℓ} → Result StoreError (A × Tables) → Tables
after (ok r) = r.1
after (err e) = empty_tables

abbrev input : JobInputDto
input = new_input movie "/media/Arrival.mkv" true

abbrev move_to : ℕ → JobState → JobState → Tables → Result StoreError (JobRecord × Tables)
move_to now from to t =
    transition (some now) 1 from to (with_progress (new_progress "step" 0 none)) t

created : Tables
unfolding create_job find_job
created = after (create_job (some 10) input empty_tables)

planned : Tables
unfolding created claim_oldest_queued transition can_transition_to find_job set_job find_execution
planned =
    let t1 = after (claim_oldest_queued (some 11) (new_progress "scanning" 0 none) created) in
    let t2 = after (move_to 12 scanning searching t1) in
    let t3 = after (move_to 13 searching resolving t2) in
    let t4 = after (move_to 14 resolving awaiting_confirmation t3) in
    after (move_to 15 awaiting_confirmation planning t4)

held : Tables
unfolding planned reserve_execution
held = after (reserve_execution (some 16) 1 "key" "approved-v1" planned)

finished : Tables
unfolding held
finished = after (move_to 17 writing completed held)

finished_state : Option JobRecord
unfolding finished
finished_state = find_job 1 finished.jobs

-- The tables after each statement, by the unfolding of `planned`.
to_planned : History created planned
unfolding planned
to_planned =
    next
      (next
        (next
          (next (next start (Steps.claim (some 11) (new_progress "scanning" 0 none) (some _) refl))
            (Steps.move (some 12) 1 scanning searching (with_progress (new_progress "step" 0 none))
              _ refl))
          (Steps.move (some 13) 1 searching resolving (with_progress (new_progress "step" 0 none)) _
            refl))
        (Steps.move (some 14) 1 resolving awaiting_confirmation
          (with_progress (new_progress "step" 0 none)) _ refl))
      (Steps.move (some 15) 1 awaiting_confirmation planning
        (with_progress (new_progress "step" 0 none)) _ refl)

to_created : Step empty_tables created
unfolding created
to_created = Steps.create (some 10) input _ refl

created-IsValid : IsValid created
created-IsValid = History-IsValid empty-IsValid (next start to_created)

History-IsValid_example : IsValid planned
History-IsValid_example = History-IsValid created-IsValid to_planned

abbrev answer : Result StoreError (ExecutionReservation × Tables) → Option JobRecord
answer (ok (reserved job, t)) = some job
answer (ok (existing job, t)) = none
answer (err e) = none

reserved_job : JobRecord
unfolding planned reserve_execution
reserved_job = elim (answer (reserve_execution (some 16) 1 "key" "approved-v1" planned)) [
  | none ↦ record {
    id = 0;
    input = input;
    state = queued;
    progress = none;
    review = none;
    review_decision = none;
    plan = none;
    execution = none;
    created_at_ms = 0;
    updated_at_ms = 0;
  }
  | some job ↦ job
]

holds : reserve_execution (some 16) 1 "key" "approved-v1" planned ≡ ok (reserved reserved_job, held)
unfolding held reserved_job
holds = refl

to_held : Step planned held
to_held = Steps.reserve (some 16) 1 "key" "approved-v1" (reserved reserved_job) holds

to_finished : History held finished
unfolding finished
to_finished =
    next start
      (Steps.move (some 17) 1 writing completed (with_progress (new_progress "step" 0 none)) _ refl)

created_job : JobRecord
unfolding created
created_job = elim (find_job 1 created.jobs) [ none ↦ reserved_job | some job ↦ job ]

finds_created : find_job 1 created.jobs ≡ some created_job
unfolding created_job
finds_created = refl

History-Continues_example :
    (job' : JobRecord) × (find_job 1 planned.jobs ≡ some job') × Continues created_job job'
History-Continues_example = History-Continues 1 created-IsValid to_planned finds_created

finished_job : JobRecord
unfolding finished
finished_job = elim (find_job 1 finished.jobs) [ none ↦ reserved_job | some job ↦ job ]

finds_finished : find_job 1 finished.jobs ≡ some finished_job
unfolding finished_job
finds_finished = refl

join-History : {s t u : Tables} → History s t → History t u → History s u
join-History h start = h
join-History h (next k st) = next (join-History h k) st

whole-History : History empty_tables finished
whole-History =
    join-History (next (join-History (next start to_created) to_planned) to_held) to_finished

History-agrees_example : agrees finished_job.state (is_reserved 1 finished.executions) ≡ true
History-agrees_example = History-agrees 1 whole-History finds_finished

-- The second request finds the reservation of the first.
asks_again :
    reserve_execution (some 20) 1 "key" "approved-v1" finished
    ≡ ok (existing finished_job, finished)
unfolding finished_job reserve_execution
asks_again = refl

reserve_once_example :
    (job' : JobRecord) × (existing finished_job ≡ existing job')
    × (find_job 1 finished.jobs ≡ some job')
    × (◌≡◌ {A = String} "key" "key")
    × (◌≡◌ {A = String} "approved-v1" "approved-v1")
    × (finished ≡ finished)
reserve_once_example =
    reserve_once (some 16) (some 20) 1 "key" "key" "approved-v1" "approved-v1"
      (existing finished_job) planned holds to_finished asks_again

reserve_again_example :
    (job' : JobRecord) × (find_job 1 finished.jobs ≡ some job')
    × (reserve_execution (some 20) 1 "other" "approved-v1" finished ≡ (
        if ◌==◌ {A = String} "key" "other" && ◌==◌ {A = String} "approved-v1" "approved-v1"
        then ok (existing job', finished)
        else err (idempotency_conflict 1)))
reserve_again_example =
    reserve_again (some 16) 20 1 "key" "other" "approved-v1" "approved-v1" planned finished
      History-IsValid_example (omega arith) holds to_finished

-- A reserved job that was interrupted is not queued again.
restarted : Tables
unfolding held interrupt_active_jobs is_terminal
restarted = elim (interrupt_active_jobs (some 18) held) [ ok t ↦ t | err e ↦ empty_tables ]

not_queued_again :
    transition
      (some 19)
      1
      interrupted
      queued
      (with_progress (new_progress "queued" 0 none))
      restarted
    ≡ err (reserved_execution_retry 1)
unfolding restarted transition
not_queued_again = refl
