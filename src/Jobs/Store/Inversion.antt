-- ===== src/Jobs/Store/Inversion.antt =====
-- What each statement of store/sqlite.rs has checked where it succeeds, and what it wrote.
use fixer.Common.{
  ℕ, ◌≤◌, ◌≡◌, ◌≢◌, Bool, true, false, Option, none, some, List, [], ◌∷◌, arith, nat_eq, All,
  string_eq, subst, some_injective, Bool-cases, Option-cases, inl, inr, String,
}
use fixer.Std.Result.{ok}
use fixer.Jobs.State.{
  JobState, queued, scanning, planning, writing, interrupted, can_transition_to, state_beq,
  state_beq_iff,
}
use fixer.Jobs.Model.{ProgressSummary, new_progress}
use fixer.Jobs.Store.{
  JobRecord, JobUpdate, ExecutionRow, Tables, find_job, set_job, find_execution,
  claim_oldest_queued, oldest_queued, transition, reserve_execution, reserved, existing,
  apply_update,
}

abbrev pub is_reserved : ℕ → List ExecutionRow → Bool
is_reserved i rows = elim (find_execution i rows) [ none ↦ false | some _ ↦ true ]

-- What a successful `transition` has checked, and what it wrote.
pub transition_inv :
    (time : Option ℕ) (i : ℕ) (expected next : JobState) (update : JobUpdate) (t : Tables)
    {job' : JobRecord} {t' : Tables}
    → transition time i expected next update t ≡ ok (job', t')
    → (now : ℕ) × (job : JobRecord) × (find_job i t.jobs ≡ some job)
      × (job.state ≡ expected)
      × (can_transition_to expected next ≡ true)
      × (expected ≡ planning → next ≢ writing)
      × (expected ≡ interrupted → next ≡ queued → is_reserved i t.executions ≡ false)
      × (job.created_at_ms ≤ now)
      × (job' ≡ record (apply_update next update job) { updated_at_ms = now })
      × (t' ≡ record t { jobs = set_job job.id job' t.jobs })
unfolding transition
transition_inv none i expected next update t h = absurd (ground arith)
transition_inv (some now) i expected next update t {job'} {t'} h =
    elim (Option-cases (find_job i t.jobs)) [
      | inl missing ↦ absurd (ground arith)
      | inr found ↦ (
        now,
        found.0,
        found.1,
        ground (arith, state_beq_iff found.0.state expected),
        ground arith,
        λ e n. ground (arith, h),
        λ e n. ground (arith, h),
        ground arith,
        ground arith,
        ground arith,
      )
    ]

pub All-found {κ} :
    (P : JobRecord → Type κ) (jobs : List JobRecord) {job : JobRecord}
    → All P jobs
    → oldest_queued jobs ≡ some job
    → P job × (job.state ≡ queued)
unfolding oldest_queued
All-found P [] a h = absurd (cc h)
All-found P (x ∷ jobs) {job} a h = elim (Bool-cases (state_beq x.state queued)) [
  | inl e ↦
      subst (λ y. P y × (y.state ≡ queued)) (some_injective (rw e at h))
        (a.0, (state_beq_iff x.state queued).0 e)
  | inr n ↦ All-found P jobs a.1 (rw n at h)
]

pub claim_inv :
    (time : Option ℕ) (progress : ProgressSummary) (t : Tables) {job' : JobRecord} {t' : Tables}
    → claim_oldest_queued time progress t ≡ ok (some job', t')
    → (now : ℕ) × (job : JobRecord) × (oldest_queued t.jobs ≡ some job)
      × (job.created_at_ms ≤ now)
      × (job' ≡ record job { state = scanning; progress = some progress; updated_at_ms = now })
      × (t' ≡ record t { jobs = set_job job.id job' t.jobs })
unfolding claim_oldest_queued
claim_inv none progress t h = absurd (ground arith)
claim_inv (some now) progress t {job'} {t'} h = elim (Option-cases (oldest_queued t.jobs)) [
  | inl missing ↦ absurd (ground arith)
  | inr found ↦ (now, found.0, found.1, ground arith, ground arith, ground arith)
]

pub claim_none :
    (time : Option ℕ) (progress : ProgressSummary) (t : Tables) {t' : Tables}
    → claim_oldest_queued time progress t ≡ ok (none, t')
    → t' ≡ t
unfolding claim_oldest_queued
claim_none none progress t h = absurd (ground arith)
claim_none (some now) progress t h = ground arith

abbrev pub reservation_row : ℕ → ℕ → String → String → ExecutionRow
reservation_row now i key fingerprint = record {
  job_id = i;
  idempotency_key = key;
  request_fingerprint = fingerprint;
  created_at_ms = now;
}

-- What a new reservation has checked, and what it wrote.
pub reserved_inv :
    (time : Option ℕ) (i : ℕ) (key fingerprint : String) (t : Tables) {job' : JobRecord}
    {t' : Tables}
    → reserve_execution time i key fingerprint t ≡ ok (reserved job', t')
    → (now : ℕ) × (job : JobRecord) × (find_job i t.jobs ≡ some job)
      × (job.state ≡ planning)
      × (find_execution i t.executions ≡ none)
      × (job.created_at_ms ≤ now)
      × (job' ≡ record job {
        state = writing;
        progress = some (new_progress "writing" 0 none);
        updated_at_ms = now;
      })
      × (t' ≡ record t {
        jobs = set_job job.id job' t.jobs;
        executions = reservation_row now i key fingerprint ∷ t.executions;
      })
unfolding reserve_execution
reserved_inv none i key fingerprint t h = absurd (ground arith)
reserved_inv (some now) i key fingerprint t {job'} {t'} h =
    elim (Option-cases (find_job i t.jobs)) [
      | inl missing ↦ absurd (ground arith)
      | inr found ↦ (
        now,
        found.0,
        found.1,
        ground (arith, state_beq_iff found.0.state planning),
        ground arith,
        ground arith,
        ground arith,
        ground arith,
      )
    ]

-- What the answer `existing` says: the tables are unchanged, and the reservation that is there was
-- made with the same key and fingerprint.
pub existing_inv :
    (time : Option ℕ) (i : ℕ) (key fingerprint : String) (t : Tables) {job' : JobRecord}
    {t' : Tables}
    → reserve_execution time i key fingerprint t ≡ ok (existing job', t')
    → (row : ExecutionRow) × (find_execution i t.executions ≡ some row)
      × (row.idempotency_key ≡ key)
      × (row.request_fingerprint ≡ fingerprint)
      × (find_job i t.jobs ≡ some job')
      × (t' ≡ t)
unfolding reserve_execution
existing_inv none i key fingerprint t h = absurd (ground arith)
existing_inv (some now) i key fingerprint t {job'} {t'} h =
    elim (Option-cases (find_execution i t.executions)) [
      | inl missing ↦ absurd (ground arith)
      | inr found ↦ (
        found.0,
        found.1,
        ground (arith, string_eq.same_iff found.0.idempotency_key key),
        ground (arith, string_eq.same_iff found.0.request_fingerprint fingerprint),
        ground arith,
        ground arith,
      )
    ]
