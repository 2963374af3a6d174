-- ===== src/Jobs/Store/Steps.antt =====
-- Histories of the job tables: every sequence of the statements of store/sqlite.rs, in any order
-- and with any clock, and what such a history does to one job.
use fixer.Common.{ℕ, ◌≡◌, Option, nat_eq, String}
use fixer.Std.Result.{ok}
use fixer.Jobs.State.{JobState}
use fixer.Jobs.Model.{JobInputDto, ProgressSummary}
use fixer.Jobs.Store.{
  JobRecord, JobUpdate, Tables, create_job, claim_oldest_queued, transition, reserve_execution,
  ExecutionReservation, interrupt_active_jobs,
}
use fixer.Jobs.Store.Invariant.{IsValid, transition-IsValid, claim-IsValid, reserve-IsValid}
use fixer.Jobs.Store.Growth.{create-IsValid, interrupt-IsValid}

-- One successful statement.
pub data Step (t : Tables) (t' : Tables) : Type 0 where
  create :
      (time : Option ℕ) (input : JobInputDto) (job : JobRecord)
      → create_job time input t ≡ ok (job, t')
      → Step t t'
  claim :
      (time : Option ℕ) (progress : ProgressSummary) (job : Option JobRecord)
      → claim_oldest_queued time progress t ≡ ok (job, t')
      → Step t t'
  move :
      (time : Option ℕ) (i : ℕ) (expected next : JobState) (update : JobUpdate) (job : JobRecord)
      → transition time i expected next update t ≡ ok (job, t')
      → Step t t'
  reserve :
      (time : Option ℕ) (i : ℕ) (key fingerprint : String) (r : ExecutionReservation)
      → reserve_execution time i key fingerprint t ≡ ok (r, t')
      → Step t t'
  restart : (time : Option ℕ) → interrupt_active_jobs time t ≡ ok t' → Step t t'

pub data History (s : Tables) : Tables → Type 0 where
  start : History s s
  next : {t u : Tables} → History s t → Step t u → History s u

Step-IsValid : {t t' : Tables} → Step t t' → IsValid t → IsValid t'
Step-IsValid {t} (create time input job h) v = create-IsValid time input t v h
Step-IsValid {t} (claim time progress r h) v = claim-IsValid time progress t r v h
Step-IsValid {t} (move time i s n update job h) v = transition-IsValid time i s n update t v h
Step-IsValid {t} (reserve time i key fingerprint r h) v =
    reserve-IsValid time i key fingerprint t r v h
Step-IsValid {t} (restart time h) v = interrupt-IsValid time t v h

-- Every history keeps the invariant of the tables.
pub History-IsValid : {s t : Tables} → IsValid s → History s t → IsValid t
History-IsValid v start = v
History-IsValid v (next h st) = Step-IsValid st (History-IsValid v h)
