-- ===== src/Jobs/Store.antt =====
-- crates/fixer-server/src/store: the tables `jobs` and `job_executions` and the statements over
-- them. A statement or transaction that fails leaves the tables as they were, so an operation
-- returns an error, or its result with the new tables.
mod Rows
pub mod Selection
pub mod Inversion
pub mod Invariant
pub mod Growth
pub mod Steps
pub mod Continuity
pub mod Reservations
pub use Rows.{JobRecord, JobUpdate, with_progress, ExecutionRow, Tables, coalesce}
unfoldable pub use Rows.{find_job, set_job, find_execution}
use Prim.Native.String.{count}
use mathlib.Core.List.{reverse}
use fixer.Common.{
  ℕ, suc, ◌+◌, ◌-◌, ◌^◌, String, Bool, true, false, not, ◌&&◌, ◌||◌, Option, none, some, List, [],
  ◌∷◌, ◌++◌, ltb, leb, ◌==◌, nat_eq, string_eq, if◌then◌else◌, map, filter, take, all,
}
use fixer.Std.Result.{Result, ok, err, ◌>>=◌, ◌>>◌, ensure}
use fixer.Jobs.State.{
  JobState, queued, scanning, planning, writing, interrupted, can_transition_to, is_active,
  state_eq,
}
use fixer.Jobs.Model.{
  JobInputDto, ProgressSummary, ReviewSummary, ReviewDecisionDto, PlanSummary, ExecutionSummary,
  new_progress,
}

pub data PasswordError : Type 0 where
  invalid_password_length invalid_hash hashing_failed : PasswordError

-- The errors that the operations of the store return. `secret` is the lack of randomness, and
-- `database` is a violated constraint of the schema.
pub data StoreError : Type 0 where
  invalid_transition : JobState → JobState → StoreError
  not_found : ℕ → StoreError
  state_conflict : ℕ → JobState → JobState → StoreError
  execution_reservation_required : ℕ → StoreError
  reserved_execution_retry : ℕ → StoreError
  idempotency_conflict : ℕ → StoreError
  corrupt_record : String → StoreError
  password : PasswordError → StoreError
  clock_before_epoch timestamp_overflow database secret : StoreError

pub data ExecutionReservation : Type 0 where
  reserved : JobRecord → ExecutionReservation
  existing : JobRecord → ExecutionReservation

abbrev pub i64_max : ℕ
i64_max = 2 ^ 63 - 1

-- The system time in milliseconds since the Unix epoch; `none` if it is before the epoch.
unfoldable pub timestamp_ms : Option ℕ → Result StoreError ℕ
timestamp_ms none = err clock_before_epoch
timestamp_ms (some millis) = do ensure (leb millis i64_max) timestamp_overflow; ok millis

unfoldable pub get_job : ℕ → Tables → Result StoreError JobRecord
get_job i t = elim (find_job i t.jobs) [ none ↦ err (not_found i) | some job ↦ ok job ]

abbrev pub new_row : ℕ → JobInputDto → ℕ → JobRecord
new_row i input now = record {
  id = i;
  input = input;
  state = queued;
  progress = none;
  review = none;
  review_decision = none;
  plan = none;
  execution = none;
  created_at_ms = now;
  updated_at_ms = now;
}

-- INSERT INTO jobs. AUTOINCREMENT gives the next id, and fails after the greatest.
unfoldable pub create_job : Option ℕ → JobInputDto → Tables → Result StoreError (JobRecord × Tables)
unfolding timestamp_ms get_job
create_job time input t = do
  now ← timestamp_ms time
  ensure (ltb t.last_id i64_max) database
  let i = t.last_id + 1
  let t' : Tables = record t { jobs = t.jobs ++ new_row i input now ∷ []; last_id = i }
  job ← get_job i t'
  ok (job, t')

unfoldable pub queued_job_ids : Tables → List ℕ
queued_job_ids t = map (λ (job : JobRecord). job.id) (filter (λ job. job.state == queued) t.jobs)

-- SELECT id FROM jobs WHERE state = 'queued' ORDER BY id LIMIT 1
unfoldable pub oldest_queued : List JobRecord → Option JobRecord
oldest_queued [] = none
oldest_queued (job ∷ jobs) = if job.state == queued then some job else oldest_queued jobs

-- The CHECK on `updated_at_ms`, then the write.
abbrev write_row : ℕ → JobRecord → Tables → Result StoreError (JobRecord × Tables)
write_row now job t = do
  ensure (leb job.created_at_ms now) database
  let job' : JobRecord = record job { updated_at_ms = now }
  ok (job', record t { jobs = set_job job.id job' t.jobs })

unfoldable pub claim_oldest_queued :
    Option ℕ → ProgressSummary → Tables → Result StoreError (Option JobRecord × Tables)
unfolding timestamp_ms oldest_queued
claim_oldest_queued time progress t = do
  now ← timestamp_ms time
  elim (oldest_queued t.jobs) [
    | none ↦ ok (none, t)
    | some job ↦ do
      (job', t') ← write_row now (record job { state = scanning; progress = some progress }) t
      ok (some job', t')
  ]

unfoldable pub list_jobs : ℕ → Option JobState → Tables → Result StoreError (List JobRecord)
list_jobs limit none t = do
  ensure (leb limit i64_max) (corrupt_record "job list limit exceeds SQLite range")
  ok (take limit (reverse t.jobs))
list_jobs limit (some state) t = do
  ensure (leb limit i64_max) (corrupt_record "job list limit exceeds SQLite range")
  ok (take limit (reverse (filter (λ job. job.state == state) t.jobs)))

unfoldable pub has_execution_reservation : ℕ → Tables → Bool
has_execution_reservation i t = elim (find_execution i t.executions) [
  | none ↦ false
  | some row ↦ true
]

unfoldable pub transition_conflict : ℕ → JobState → Tables → StoreError
transition_conflict i expected t = elim (find_job i t.jobs) [
  | none ↦ not_found i
  | some job ↦ state_conflict i expected job.state
]

abbrev pub apply_update : JobState → JobUpdate → JobRecord → JobRecord
apply_update next update job = record job {
  state = next;
  progress = coalesce update.progress job.progress;
  review = coalesce update.review job.review;
  review_decision = coalesce update.review_decision job.review_decision;
  plan = coalesce update.plan job.plan;
  execution = coalesce update.execution job.execution;
}

-- UPDATE jobs SET … WHERE id = ? AND state = ? RETURNING …
abbrev update_in_state :
    ℕ → ℕ → JobState → (JobRecord → JobRecord) → Tables → Result StoreError (JobRecord × Tables)
update_in_state now i expected f t = elim (find_job i t.jobs) [
  | none ↦ err (transition_conflict i expected t)
  | some job ↦
      if job.state == expected
      then write_row now (f job) t
      else err (transition_conflict i expected t)
]

unfoldable pub transition :
    Option ℕ → ℕ → JobState → JobState → JobUpdate → Tables → Result StoreError (JobRecord × Tables)
unfolding timestamp_ms has_execution_reservation transition_conflict
transition time i expected next update t = do
  ensure (can_transition_to expected next) (invalid_transition expected next)
  ensure (not (expected == planning && next == writing)) (execution_reservation_required i)
  ensure (not (expected == interrupted && next == queued && has_execution_reservation i t))
      (reserved_execution_retry i)
  now ← timestamp_ms time
  update_in_state now i expected (apply_update next update) t

abbrev key_fits : String → Bool
key_fits key = leb 1 (count key) && leb (count key) 256

-- INSERT INTO job_executions … WHERE EXISTS (planning) ON CONFLICT(job_id) DO NOTHING, then the
-- update to `writing`, or the comparison with the reservation that exists.
abbrev compare_reservation :
    ℕ → String → String → ExecutionRow → Tables → Result StoreError (ExecutionReservation × Tables)
compare_reservation i key fingerprint row t = do
  ensure (row.idempotency_key == key && row.request_fingerprint == fingerprint)
      (idempotency_conflict i)
  job ← get_job i t
  ok (existing job, t)

abbrev existing_reservation :
    ℕ → String → String → Tables → Result StoreError (ExecutionReservation × Tables)
existing_reservation i key fingerprint t = elim (find_execution i t.executions) [
  | none ↦ err (transition_conflict i planning t)
  | some row ↦ compare_reservation i key fingerprint row t
]

abbrev insert_reservation :
    ℕ → ℕ → String → String → JobRecord → Tables → Result StoreError (ExecutionReservation × Tables)
insert_reservation now i key fingerprint job t = do
  ensure (key_fits key && key_fits fingerprint) database
  elim (find_execution i t.executions) [
    | some row ↦ compare_reservation i key fingerprint row t
    | none ↦ do
      let row : ExecutionRow = record {
        job_id = i;
        idempotency_key = key;
        request_fingerprint = fingerprint;
        created_at_ms = now;
      }
      let progress = new_progress "writing" 0 none
      (job', t') ←
          write_row now (record job { state = writing; progress = some progress })
            (record t { executions = row ∷ t.executions })
      ok (reserved job', t')
  ]

unfoldable pub reserve_execution :
    Option ℕ → ℕ → String → String → Tables → Result StoreError (ExecutionReservation × Tables)
unfolding timestamp_ms get_job transition_conflict
reserve_execution time i key fingerprint t = do
  now ← timestamp_ms time
  elim (find_job i t.jobs) [
    | none ↦ existing_reservation i key fingerprint t
    | some job ↦
        if job.state == planning
        then insert_reservation now i key fingerprint job t
        else existing_reservation i key fingerprint t
  ]

-- UPDATE jobs SET state = 'interrupted' WHERE state IN ACTIVE_STATES. A violated CHECK on one row
-- undoes the statement.
abbrev pub interrupt_row : ℕ → JobRecord → JobRecord
interrupt_row now job =
    if is_active job.state then record job { state = interrupted; updated_at_ms = now } else job

unfoldable pub interrupt_active_jobs : Option ℕ → Tables → Result StoreError Tables
unfolding timestamp_ms is_active
interrupt_active_jobs time t = do
  now ← timestamp_ms time
  ensure (all (λ job. not (is_active job.state) || leb job.created_at_ms now) t.jobs) database
  ok (record t { jobs = map (interrupt_row now) t.jobs })
