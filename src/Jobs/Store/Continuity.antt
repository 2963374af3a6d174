-- ===== src/Jobs/Store/Continuity.antt =====
-- What a history of the statements of store/sqlite.rs does to one job.
use fixer.Common.{
  ℕ, ◌+◌, ◌<◌, ◌≡◌, refl, sym, ◌∙◌, true, none, some, List, [], ◌∷◌, arith, ◌==◌, nat_eq,
  Bool-cases, nat_beq_iff, inl, inr, map, subst, some_injective,
}
use fixer.Jobs.State.{
  JobState, queued, scanning, planning, writing, interrupted, can_transition_to, is_active,
  state_beq_iff,
}
use fixer.Jobs.State.Paths.{Run, done, one, join}
use fixer.Jobs.Store.{
  JobRecord, Tables, find_job, set_job, new_row, oldest_queued, reserved, existing, interrupt_row,
}
use fixer.Jobs.Store.Selection.{IsAscending, id-find_job, find_job-set_job, find_job-append}
use fixer.Jobs.Store.Inversion.{transition_inv, claim_inv, claim_none, reserved_inv, existing_inv}
use fixer.Jobs.Store.Invariant.{IsValid}
use fixer.Jobs.Store.Growth.{create_inv, interrupt_inv}
use fixer.Jobs.Store.Steps.{
  Step, create, claim, move, reserve, restart, History, start, next, History-IsValid,
}

-- A job goes on as the same job: the same id, input and time of creation, in a state that a run of
-- the state machine leads to.
pub record Continues (job job' : JobRecord) : Type 0 where
  pub same_id : job'.id ≡ job.id
  pub same_input : job'.input ≡ job.input
  pub same_created : job'.created_at_ms ≡ job.created_at_ms
  pub run : Run job.state job'.state

Continues-refl : (job : JobRecord) → Continues job job
Continues-refl job = record {
  same_id = refl;
  same_input = refl;
  same_created = refl;
  run = done job.state;
}

Continues-trans : {a b c : JobRecord} → Continues a b → Continues b c → Continues a c
Continues-trans p q = record {
  same_id = q.same_id ∙ p.same_id;
  same_input = q.same_input ∙ p.same_input;
  same_created = q.same_created ∙ p.same_created;
  run = join p.run q.run;
}

abbrev Goes : ℕ → JobRecord → List JobRecord → Type 0
Goes i job jobs = (job' : JobRecord) × (find_job i jobs ≡ some job') × Continues job job'

-- The statement replaced the row of `old`, found under its id.
replace_Goes :
    (i k : ℕ) (jobs : List JobRecord) (old new job : JobRecord)
    → find_job k jobs ≡ some old
    → Continues old new
    → find_job i jobs ≡ some job
    → Goes i job (set_job old.id new jobs)
replace_Goes i k jobs old new job at_k c at_i = elim (Bool-cases (old.id == i)) [
  | inl same ↦
      let e : k ≡ i = sym (id-find_job k jobs at_k) ∙ (nat_beq_iff old.id i).0 same in
      let j : job ≡ old = some_injective (sym at_i ∙ rw (← e) at_k) in
      (
        new,
        rw (find_job-set_job old.id i new jobs c.same_id, same, at_i),
        subst (λ x. Continues x new) (sym j) c,
      )
  | inr other ↦
      (job, rw (find_job-set_job old.id i new jobs c.same_id, other) at_i, Continues-refl job)
]

find_job-oldest :
    (lo : ℕ) (jobs : List JobRecord) {job : JobRecord}
    → IsAscending lo jobs
    → oldest_queued jobs ≡ some job
    → (lo < job.id) × (find_job job.id jobs ≡ some job) × (job.state ≡ queued)
unfolding oldest_queued find_job
find_job-oldest lo [] a h = absurd (cc h)
find_job-oldest lo (x ∷ jobs) {job} a h =
    ground (arith, find_job-oldest x.id jobs {job = job} a.1, state_beq_iff x.state queued)

interrupts : (s : JobState) → is_active s ≡ true → can_transition_to s interrupted ≡ true
unfolding is_active can_transition_to
interrupts s h = ground arith

interrupt_Continues : (now : ℕ) (job : JobRecord) → Continues job (interrupt_row now job)
interrupt_Continues now job = elim (Bool-cases (is_active job.state)) [
  | inl act ↦ rw act (record {
    same_id = refl;
    same_input = refl;
    same_created = refl;
    run = one (interrupts job.state act);
  })
  | inr idle ↦ rw idle (Continues-refl job)
]

id-interrupt_row : (now : ℕ) (job : JobRecord) → (interrupt_row now job).id ≡ job.id
id-interrupt_row now job = ground arith

interrupt_Goes :
    (now i : ℕ) (jobs : List JobRecord) {job : JobRecord}
    → find_job i jobs ≡ some job
    → find_job i (map (interrupt_row now) jobs) ≡ some (interrupt_row now job)
unfolding find_job
interrupt_Goes now i [] h = absurd (cc h)
interrupt_Goes now i (x ∷ jobs) {job} h = elim (Bool-cases (x.id == i)) [
  | inl same ↦
      let e : x ≡ job = some_injective (rw same at h) in rw (id-interrupt_row now x, same) (rw e)
  | inr other ↦ rw (id-interrupt_row now x, other) (interrupt_Goes now i jobs (rw other at h))
]

claims : can_transition_to queued scanning ≡ true
unfolding can_transition_to
claims = refl

reserves : can_transition_to planning writing ≡ true
unfolding can_transition_to
reserves = refl

Step-Goes :
    {t t' : Tables} (i : ℕ) {job : JobRecord}
    → IsValid t
    → Step t t'
    → find_job i t.jobs ≡ some job
    → Goes i job t'.jobs
Step-Goes {t} {t'} i {job} v (create time input new h) f =
    let (now, e, found) = create_inv time input t h in
    rw e (
      job,
      rw (find_job-append i t.jobs (new_row (t.last_id + 1) input now), f),
      Continues-refl job,
    )
Step-Goes {t} {t'} i {job} v (claim time progress none h) f =
    rw (claim_none time progress t h) (job, f, Continues-refl job)
Step-Goes {t} {t'} i {job} v (claim time progress (some new) h) f =
    let (now, old, found, timed, e, e') = claim_inv time progress t h in
    let found' = find_job-oldest 0 t.jobs v.ascending found in
    rw e' (
      replace_Goes i old.id t.jobs old new job found'.1
        (rw e (record {
          same_id = refl;
          same_input = refl;
          same_created = refl;
          run = one (rw found'.2 claims);
        }))
        f)
Step-Goes {t} {t'} i {job} v (move time k expected to update new h) f =
    let (now, old, found, in_state, can, no_write, no_retry, timed, e, e') =
      transition_inv time k expected to update t h in
    rw e' (
      replace_Goes i k t.jobs old new job found
        (rw e (record {
          same_id = refl;
          same_input = refl;
          same_created = refl;
          run = one (rw in_state can);
        }))
        f)
Step-Goes {t} {t'} i {job} v (reserve time k key fingerprint (reserved new) h) f =
    let (now, old, found, in_state, fresh, timed, e, e') =
      reserved_inv time k key fingerprint t h in
    rw e' (
      replace_Goes i k t.jobs old new job found
        (rw e (record {
          same_id = refl;
          same_input = refl;
          same_created = refl;
          run = one (rw in_state reserves);
        }))
        f)
Step-Goes {t} {t'} i {job} v (reserve time k key fingerprint (existing new) h) f =
    rw ((existing_inv time k key fingerprint t h).5) (job, f, Continues-refl job)
Step-Goes {t} {t'} i {job} v (restart time h) f =
    let (now, timed, e) = interrupt_inv time t h in
    rw e (interrupt_row now job, interrupt_Goes now i t.jobs f, interrupt_Continues now job)

-- From valid tables, a job that a history finds under an id stays under that id, with its input
-- and its time of creation, and its state changes only along the state machine.
pub History-Continues :
    {s t : Tables} (i : ℕ) {job : JobRecord}
    → IsValid s
    → History s t
    → find_job i s.jobs ≡ some job
    → (job' : JobRecord) × (find_job i t.jobs ≡ some job') × Continues job job'
History-Continues i {job} v start f = (job, f, Continues-refl job)
History-Continues i {job} v (next h st) f =
    let (mid, at, c) = History-Continues i v h f in
    let (end, at', c') = Step-Goes i (History-IsValid v h) st at in (end, at', Continues-trans c c')
