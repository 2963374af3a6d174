-- ===== src/Jobs/Runtime/Left.antt =====
-- How `interrupt_active` of jobs/mod.rs leaves a job while the clock fails.
use fixer.Common.{
  ℕ, zero, suc, ◌*◌, ◌≤◌, ◌<◌, ◌≡◌, refl, ap, ◌∙◌, true, false, Option, none, some, List, [], ◌∷◌,
  arith, nat_eq, ◌==◌,
}
use fixer.Std.Result.{ok, err, map_err}
use fixer.Std.Action.{◌>>=◌, pure, attempt}
use fixer.Jobs.State.{
  JobState, interrupted, planning, scanning, searching, resolving, can_transition_to, state_eq,
  state_beq_iff,
}
use fixer.Jobs.Model.{new_progress}
use fixer.Jobs.Store.{
  JobRecord, JobUpdate, with_progress, Tables, not_found, clock_before_epoch, i64_max, timestamp_ms,
  transition, apply_update, find_job, set_job, get_job,
}
use fixer.Jobs.Store.Selection.{id-find_job, find_job-set_job}
use fixer.Jobs.Runtime.{JobRuntime, store, publish_transition, get}
use fixer.Jobs.Runtime.Served.{publish_transition-Keeps}
use fixer.Jobs.Runtime.Course.{Course, look, atomically}
use fixer.Jobs.Runtime.Review.{try_transition, transition_attempts, transition_with_retry}
use fixer.Jobs.Runtime.Worker.{
  is_working, interrupt_active, after_interrupting, transition_stage_with_retry,
}

-- A clock that fails `n` times before it goes on.
abbrev pub failing : ℕ → List (Option ℕ) → List (Option ℕ)
failing zero times = times
failing (suc n) times = none ∷ failing n times

-- Nobody else moves, and these are the clock's next times.
abbrev pub alone : Course → List (Option ℕ) → Course
alone course times = record course { moves = []; times = times }

abbrev alone_with : JobRuntime → Course → List (Option ℕ) → Course
alone_with runtime course times = record course { runtime = runtime; moves = []; times = times }

module _ (id : ℕ) (expected target : JobState) (update : JobUpdate) (course : Course) where
  module _
      (clockless : transition none id expected target update course.runtime.tables
        ≡ err clock_before_epoch) where
    try_fails :
        (times : List (Option ℕ))
        → try_transition id expected target update (alone course (none ∷ times))
          ≡ (err (store clock_before_epoch), alone course times)
    unfolding try_transition atomically
    try_fails times = rw clockless refl

    attempts_fail :
        (left : ℕ) (times : List (Option ℕ))
        → transition_attempts left id expected target update
            (alone course (failing (suc left) times))
          ≡ (err (store clock_before_epoch), alone course times)
    unfolding transition_attempts attempt ◌>>=◌
    attempts_fail zero times = try_fails times
    attempts_fail (suc left) times =
        rw (try_fails (failing (suc left) times)) (attempts_fail left times)

    module _ (now : ℕ) {job : JobRecord} {tables : Tables}
        (done : transition (some now) id expected target update course.runtime.tables
          ≡ ok (job, tables)) where
      abbrev published : JobRuntime
      published = (publish_transition job (record course.runtime { tables = tables })).1

      try_succeeds :
          (times : List (Option ℕ))
          → try_transition id expected target update (alone course (some now ∷ times))
            ≡ (ok job, alone_with published course times)
      unfolding try_transition atomically
      try_succeeds times = rw done refl

      attempts_succeed :
          (n left : ℕ) (times : List (Option ℕ))
          → n ≤ left
          → transition_attempts left id expected target update
              (alone course (failing n (some now ∷ times)))
            ≡ (ok job, alone_with published course times)
      unfolding transition_attempts attempt ◌>>=◌ pure
      attempts_succeed zero zero times few = try_succeeds times
      attempts_succeed zero (suc left) times few = rw (try_succeeds times) refl
      attempts_succeed (suc n) zero times few = absurd (ground arith)
      attempts_succeed (suc n) (suc left) times few =
          rw (try_fails (failing n (some now ∷ times)))
            (attempts_succeed n left times (ground arith))

-- The guards of an interruption.
working_guards :
    (state : JobState)
    → is_working state ≡ true
    → (can_transition_to state interrupted ≡ true)
      × ((state == planning) ≡ false)
      × ((state == interrupted) ≡ false)
unfolding can_transition_to
working_guards scanning h = (refl, refl, refl)
working_guards searching h = (refl, refl, refl)
working_guards resolving h = (refl, refl, refl)
working_guards state h = absurd (ground arith)

timeless :
    (id : ℕ) (tables : Tables) (state : JobState) (update : JobUpdate)
    → is_working state ≡ true
    → transition none id state interrupted update tables ≡ err clock_before_epoch
unfolding transition timestamp_ms
timeless id tables state update working =
    let (allowed, planned, was) = working_guards state working in rw (allowed, planned, was) refl

interrupts :
    (id now : ℕ) (tables : Tables) {job : JobRecord} (update : JobUpdate)
    → find_job id tables.jobs ≡ some job
    → is_working job.state ≡ true
    → job.created_at_ms ≤ now
    → now ≤ i64_max
    → let job' : JobRecord = record (apply_update interrupted update job) { updated_at_ms = now } in
      transition (some now) id job.state interrupted update tables
      ≡ ok (job', record tables { jobs = set_job job.id job' tables.jobs })
unfolding transition timestamp_ms
interrupts id now tables {job} update found working recent small =
    let (allowed, planned, was) = working_guards job.state working in
    ground (arith, allowed, planned, was, found, state_beq_iff job.state job.state)

abbrev pub interrupted_update : JobUpdate
interrupted_update = with_progress (new_progress "interrupted" 0 none)

module _ (id now : ℕ) (course : Course) {job : JobRecord} (found : get id course.runtime ≡ ok job)
    (working : is_working job.state ≡ true) (recent : job.created_at_ms ≤ now)
    (small : now ≤ i64_max) where
  -- A round, as far as the attempts at its transition.
  round_begins :
      (rounds : ℕ) (times : List (Option ℕ))
      → interrupt_active (suc rounds) id (alone course times)
        ≡ (attempt (transition_stage_with_retry id job.state interrupted "interrupted")
              >>= after_interrupting (interrupt_active rounds id))
            (alone course times)
  unfolding interrupt_active look attempt ◌>>=◌
  round_begins rounds times = rw (found, working) refl

  round_fails :
      (rounds : ℕ) (times : List (Option ℕ))
      → interrupt_active (suc rounds) id (alone course (failing 4 times))
        ≡ interrupt_active rounds id (alone course times)
  unfolding attempt ◌>>=◌ transition_stage_with_retry transition_with_retry
  round_fails rounds times =
      round_begins rounds (failing 4 times)
      ∙ rw
          (attempts_fail id job.state interrupted interrupted_update course
            (timeless id course.runtime.tables job.state interrupted_update working) 3 times)
          refl

  abbrev interrupted_job : JobRecord
  interrupted_job = record (apply_update interrupted interrupted_update job) { updated_at_ms = now }

  abbrev after_interrupt : JobRuntime
  after_interrupt =
      (publish_transition interrupted_job (record course.runtime {
        tables = record course.runtime.tables {
          jobs = set_job job.id interrupted_job course.runtime.tables.jobs;
        };
      })).1

  found_row : find_job id course.runtime.tables.jobs ≡ some job
  unfolding get get_job
  found_row = ground (arith, found)

  round_succeeds :
      (rounds n : ℕ) (times : List (Option ℕ))
      → n ≤ 3
      → interrupt_active (suc rounds) id (alone course (failing n (some now ∷ times)))
        ≡ (ok true, alone_with after_interrupt course times)
  unfolding attempt ◌>>=◌ transition_stage_with_retry transition_with_retry pure
  round_succeeds rounds n times few =
      round_begins rounds (failing n (some now ∷ times))
      ∙ rw
          (attempts_succeed id job.state interrupted interrupted_update course
            (timeless id course.runtime.tables job.state interrupted_update working) now
            (interrupts id now course.runtime.tables interrupted_update found_row working recent
              small)
            n 3 times few)
          refl

  rounds_succeed :
      (rounds n : ℕ) (times : List (Option ℕ))
      → n < 4 * rounds
      → interrupt_active rounds id (alone course (failing n (some now ∷ times)))
        ≡ (ok true, alone_with after_interrupt course times)
  rounds_succeed zero n times few = absurd (ground arith)
  rounds_succeed (suc rounds) zero times few = round_succeeds rounds 0 times (ground arith)
  rounds_succeed (suc rounds) (suc zero) times few = round_succeeds rounds 1 times (ground arith)
  rounds_succeed (suc rounds) (suc (suc zero)) times few =
      round_succeeds rounds 2 times (ground arith)
  rounds_succeed (suc rounds) (suc (suc (suc zero))) times few =
      round_succeeds rounds 3 times (ground arith)
  rounds_succeed (suc rounds) (suc (suc (suc (suc n)))) times few =
      round_fails rounds (failing n (some now ∷ times))
      ∙ rounds_succeed rounds n times (ground arith)

  set_row :
      find_job id (set_job job.id interrupted_job course.runtime.tables.jobs) ≡ some interrupted_job
  set_row = ground (
    arith,
    find_job-set_job job.id id interrupted_job course.runtime.tables.jobs refl,
    found_row,
    id-find_job id course.runtime.tables.jobs found_row,
  )

  left_row : get id after_interrupt ≡ ok interrupted_job
  unfolding get get_job
  left_row =
      ap (λ tables. map_err store (get_job id tables))
        (publish_transition-Keeps interrupted_job (record course.runtime {
          tables = record course.runtime.tables {
            jobs = set_job job.id interrupted_job course.runtime.tables.jobs;
          };
        })).0
      ∙ ap
          (λ (row : Option JobRecord).
            map_err store (elim row [ none ↦ err (not_found id) | some job' ↦ ok job' ]))
          set_row

  -- Where nobody else moves, `interrupt_active` leaves a job that is in a worker's stage as
  -- interrupted, however often the clock fails before it goes on: a round takes up to four of its
  -- failures, and a loop of so many rounds ends. The clock's time is not before the job was
  -- created, and within the range of the column.
  pub interrupt_active-ends :
      (rounds failures : ℕ) (times : List (Option ℕ))
      → failures < 4 * rounds
      → let (answer, left) =
          interrupt_active rounds id (alone course (failing failures (some now ∷ times))) in
        (answer ≡ ok true)
        × ((job' : JobRecord) × (get id left.runtime ≡ ok job')
            × (job'.state ≡ interrupted)
            × (job'.input ≡ job.input))
  interrupt_active-ends rounds failures times few =
      rw (rounds_succeed rounds failures times few) (refl, (interrupted_job, left_row, refl, refl))
