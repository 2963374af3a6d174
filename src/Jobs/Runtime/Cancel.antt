-- ===== src/Jobs/Runtime/Cancel.antt =====
-- The cancellation of a job in crates/fixer-server/src/jobs/mod.rs.
use fixer.Common.{
  ℕ, ◌≡◌, ◌≢◌, refl, sym, ap, ◌∙◌, true, false, not, ◌||◌, Option, none, some, ◌==◌, inl, inr,
  arith, Bool-cases, Option-cases,
}
use fixer.Std.Result.{ok, err}
use fixer.Jobs.State.{JobState, writing, cancelled, can_transition_to, state_eq, state_beq_iff}
use fixer.Jobs.Model.{new_progress}
use fixer.Jobs.Store.{JobRecord, Tables, get_job, find_job, set_job, transition, with_progress}
use fixer.Jobs.Store.Inversion.{transition_inv}
use fixer.Jobs.Runtime.{
  JobRuntime, Answer, publish_transition, moved, answer_job, cancel_job, cancel,
}
use fixer.Jobs.Runtime.Served.{Result-cases, publish_transition-Keeps}

answer_job-eq-ok :
    (job : JobRecord) (answer : Answer (Unit {0})) {job' : JobRecord} {runtime' : JobRuntime}
    → answer_job job answer ≡ (ok job', runtime')
    → (job ≡ job') × (answer.1 ≡ runtime')
answer_job-eq-ok job (err e, runtime) h = absurd (ground (arith, h))
answer_job-eq-ok job (ok done, runtime) h = (ground (arith, h), ground (arith, h))

-- What a cancellation that reaches the store and succeeds has done.
moved_inv :
    (time : Option ℕ) (i : ℕ) (expected : JobState) (runtime : JobRuntime) {job' : JobRecord}
    {runtime' : JobRuntime}
    → moved
        (transition time i expected cancelled
          (with_progress (new_progress "cancelled" 0 none))
          runtime.tables)
        runtime
      ≡ (ok job', runtime')
    → transition time i expected cancelled
        (with_progress (new_progress "cancelled" 0 none))
        runtime.tables
      ≡ ok (job', runtime'.tables)
moved_inv time i expected runtime {job'} {runtime'} h =
    elim (Result-cases (
      transition time i expected cancelled (with_progress (new_progress "cancelled" 0 none))
        runtime.tables)) [
          | inl failed ↦ absurd (ground (arith, h, failed.1))
          | inr done ↦
              let ((job, tables), e) = done in
              let next : JobRuntime = record runtime { tables = tables } in
              let h' : answer_job job (publish_transition job next) ≡ (ok job', runtime') =
                sym (ap (λ r. moved r runtime) e) ∙ h in
              let (same, after) = answer_job-eq-ok job (publish_transition job next) h' in
              let kept =
                sym (publish_transition-Keeps job next).0
                ∙ ap (λ (r : JobRuntime). r.tables) after in
              e ∙ cc (same, kept)
        ]

get_job_found :
    (i : ℕ) (t : Tables) (job : JobRecord) → find_job i t.jobs ≡ some job → get_job i t ≡ ok job
unfolding get_job
get_job_found i t job at = ground (arith, at)

cancel_allowed :
    (time : Option ℕ) (i : ℕ) (runtime : JobRuntime) (job : JobRecord)
    → (job.state == writing || not (can_transition_to job.state cancelled)) ≡ false
    → moved
        (transition time i job.state cancelled
          (with_progress (new_progress "cancelled" 0 none))
          runtime.tables)
        runtime
      ≡ cancel_job time i (ok job) runtime
cancel_allowed time i runtime job allowed = rw allowed refl

cancel_at :
    (time : Option ℕ) (i : ℕ) (runtime : JobRuntime) (job : JobRecord)
    → find_job i runtime.tables.jobs ≡ some job
    → (job.state == writing || not (can_transition_to job.state cancelled)) ≡ false
    → moved
        (transition time i job.state cancelled
          (with_progress (new_progress "cancelled" 0 none))
          runtime.tables)
        runtime
      ≡ cancel time i runtime
unfolding cancel
cancel_at time i runtime job at allowed =
    cancel_allowed time i runtime job allowed
    ∙ ap (λ g. cancel_job time i g runtime) (sym (get_job_found i runtime.tables job at))

-- A cancellation succeeds only for a job in a state that can be cancelled, which is not that of
-- writing; the job is then stored as cancelled under its id.
pub cancel_inv :
    (time : Option ℕ) (i : ℕ) (runtime : JobRuntime) {job' : JobRecord} {runtime' : JobRuntime}
    → cancel time i runtime ≡ (ok job', runtime')
    → (job : JobRecord) × (find_job i runtime.tables.jobs ≡ some job)
      × (can_transition_to job.state cancelled ≡ true)
      × (job.state ≢ writing)
      × (job'.state ≡ cancelled)
      × (job'.input ≡ job.input)
      × (runtime'.tables ≡ record runtime.tables { jobs = set_job job.id job' runtime.tables.jobs })
unfolding cancel get_job
cancel_inv time i runtime {job'} {runtime'} h =
    elim (Option-cases (find_job i runtime.tables.jobs)) [
      | inl missing ↦ absurd (ground (arith, h, missing))
      | inr found ↦
          let (job, at) = found in
          elim (Bool-cases (job.state == writing || not (can_transition_to job.state cancelled))) [
            | inl refused ↦ absurd (ground (arith, h, at, refused))
            | inr allowed ↦
                let done =
                  moved_inv time i job.state runtime
                    (cancel_at time i runtime job at allowed ∙ h) in
                let (now, row, at', of, goes, guarded, free, later, wrote, stored) =
                  transition_inv time i job.state cancelled
                    (with_progress (new_progress "cancelled" 0 none)) runtime.tables done in
                let same : row ≡ job = cc (at, at') in
                (
                  job,
                  at,
                  goes,
                  λ w. ground (arith, w, allowed, state_beq_iff job.state writing),
                  ap (λ (r : JobRecord). r.state) wrote,
                  ap (λ (r : JobRecord). r.input) wrote ∙ ap (λ (r : JobRecord). r.input) same,
                  stored
                      ∙ ap
                          (λ (r : JobRecord). record runtime.tables {
                            jobs = set_job r.id job' runtime.tables.jobs;
                          })
                          same,
                )
          ]
    ]
