-- ===== src/Jobs/Store/Rows.antt =====
-- The rows of `jobs` and `job_executions` (crates/fixer-server/migrations), and the parts of the
-- SQL statements of store/sqlite.rs: selection by id, update of the matching row, COALESCE.
use fixer.Common.{ℕ, String, Option, none, some, List, [], ◌∷◌, ◌==◌, nat_eq, if◌then◌else◌}
use fixer.Jobs.State.{JobState}
use fixer.Jobs.Model.{
  JobInputDto, ProgressSummary, ReviewSummary, ReviewDecisionDto, PlanSummary, ExecutionSummary,
}

pub record JobRecord : Type 0 where
  pub id : ℕ
  pub input : JobInputDto
  pub state : JobState
  pub progress : Option ProgressSummary
  pub review : Option ReviewSummary
  pub review_decision : Option ReviewDecisionDto
  pub plan : Option PlanSummary
  pub execution : Option ExecutionSummary
  pub created_at_ms : ℕ
  pub updated_at_ms : ℕ

pub record JobUpdate : Type 0 where
  pub progress : Option ProgressSummary
  pub review : Option ReviewSummary
  pub review_decision : Option ReviewDecisionDto
  pub plan : Option PlanSummary
  pub execution : Option ExecutionSummary

-- `JobUpdate::default().with_progress(progress)`
abbrev pub with_progress : ProgressSummary → JobUpdate
with_progress progress = record {
  progress = some progress;
  review = none;
  review_decision = none;
  plan = none;
  execution = none;
}

-- A row of `job_executions`.
pub record ExecutionRow : Type 0 where
  pub job_id : ℕ
  pub idempotency_key : String
  pub request_fingerprint : String
  pub created_at_ms : ℕ

-- The rows in the order of their ids, and the last id that AUTOINCREMENT gave out.
pub record Tables : Type 0 where
  pub jobs : List JobRecord
  pub executions : List ExecutionRow
  pub last_id : ℕ

-- SELECT … FROM jobs WHERE id = ?
unfoldable pub find_job : ℕ → List JobRecord → Option JobRecord
find_job i [] = none
find_job i (job ∷ jobs) = if job.id == i then some job else find_job i jobs

-- UPDATE jobs SET … WHERE id = ?
unfoldable pub set_job : ℕ → JobRecord → List JobRecord → List JobRecord
set_job i new [] = []
set_job i new (job ∷ jobs) =
    if job.id == i then new ∷ set_job i new jobs else job ∷ set_job i new jobs

-- SELECT … FROM job_executions WHERE job_id = ?
unfoldable pub find_execution : ℕ → List ExecutionRow → Option ExecutionRow
find_execution i [] = none
find_execution i (row ∷ rows) = if row.job_id == i then some row else find_execution i rows

-- COALESCE(new, old)
abbrev pub coalesce {ℓ} : {A : Type ℓ} → Option A → Option A → Option A
coalesce none old = old
coalesce (some new) old = some new
