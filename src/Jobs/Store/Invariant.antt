-- ===== src/Jobs/Store/Invariant.antt =====
-- The invariant of the job tables of store/sqlite.rs: ids ascend, timestamps are in order, and
-- execution reservations agree with the states of their jobs.
use fixer.Common.{
  ℕ, ◌≤◌, ◌≡◌, ◌≢◌, refl, sym, Bool, true, false, not, Option, none, some, List, ◌∷◌, arith, ◌==◌,
  nat_eq, All, All-imp, string_eq, subst, Bool-cases, nat_beq_iff, inl, inr, String,
}
use fixer.Std.Result.{ok}
use fixer.Jobs.State.{
  JobState, queued, scanning, searching, resolving, awaiting_confirmation, planning, writing,
  completed, failed, cancelled, interrupted, can_transition_to,
}
use fixer.Jobs.Model.{ProgressSummary}
use fixer.Jobs.Store.{
  JobRecord, JobUpdate, ExecutionRow, Tables, set_job, find_execution, claim_oldest_queued,
  transition, reserve_execution, ExecutionReservation, reserved, existing,
}
use fixer.Jobs.Store.Selection.{
  IsAscending, id-find_job, All-find_job, set_job-IsAscending, All-set_job,
}
use fixer.Jobs.Store.Inversion.{
  is_reserved, transition_inv, claim_inv, claim_none, All-found, reservation_row, reserved_inv,
  existing_inv,
}

-- Which states a job without a reservation, and a job with one, can be in.
abbrev pub agrees : JobState → Bool → Bool
agrees writing r = r
agrees completed r = r
agrees failed r = true
agrees interrupted r = true
agrees queued r = not r
agrees scanning r = not r
agrees searching r = not r
agrees resolving r = not r
agrees awaiting_confirmation r = not r
agrees planning r = not r
agrees cancelled r = not r

pub record RowIsValid (rows : List ExecutionRow) (last : ℕ) (job : JobRecord) : Type 0 where
  pub numbered : job.id ≤ last
  pub timed : job.created_at_ms ≤ job.updated_at_ms
  pub agreed : agrees job.state (is_reserved job.id rows) ≡ true

pub record IsValid (t : Tables) : Type 0 where
  pub ascending : IsAscending 0 t.jobs
  pub rows : All (RowIsValid t.executions t.last_id) t.jobs
  pub reserved : (i : ℕ) → is_reserved i t.executions ≡ true → i ≤ t.last_id

-- A transition of the state machine keeps the agreement, but for the two that the store guards.
agrees-step :
    (s u : JobState) (r : Bool)
    → can_transition_to s u ≡ true
    → agrees s r ≡ true
    → (s ≡ planning → u ≢ writing)
    → (s ≡ interrupted → u ≡ queued → r ≡ false)
    → agrees u r ≡ true
unfolding can_transition_to
agrees-step s u r h a p q = ground arith

replace-IsValid :
    (t : Tables) (i : ℕ) (new : JobRecord)
    → IsValid t
    → new.id ≡ i
    → RowIsValid t.executions t.last_id new
    → IsValid (record t { jobs = set_job i new t.jobs })
replace-IsValid t i new v e p = record {
  ascending = set_job-IsAscending 0 i new t.jobs e v.ascending;
  rows = All-set_job (RowIsValid t.executions t.last_id) i new t.jobs p (
      All-imp (RowIsValid t.executions t.last_id)
        (λ job. job.id ≢ i → RowIsValid t.executions t.last_id job) t.jobs (λ job r _. r) v.rows);
  reserved = v.reserved;
}

pub transition-IsValid :
    (time : Option ℕ) (i : ℕ) (expected next : JobState) (update : JobUpdate) (t : Tables)
    {job' : JobRecord} {t' : Tables}
    → IsValid t
    → transition time i expected next update t ≡ ok (job', t')
    → IsValid t'
transition-IsValid time i expected next update t {job'} {t'} v h =
    let (now, job, found, in_state, can, no_write, no_retry, timed, e, e') =
      transition_inv time i expected next update t h in
    let old = All-find_job (RowIsValid t.executions t.last_id) i t.jobs v.rows found in
    let numbered = id-find_job i t.jobs found in
    rw e' (
      replace-IsValid t job.id job' v (rw e) (
        rw e (record {
          numbered = old.numbered;
          timed = timed;
          agreed =
              agrees-step expected next (is_reserved job.id t.executions) can
                (rw (← in_state) old.agreed) no_write (rw numbered no_retry);
        })))

pub claim-IsValid :
    (time : Option ℕ) (progress : ProgressSummary) (t : Tables) (r : Option JobRecord) {t' : Tables}
    → IsValid t
    → claim_oldest_queued time progress t ≡ ok (r, t')
    → IsValid t'
claim-IsValid time progress t none {t'} v h =
    let e : t' ≡ t = claim_none time progress t h in rw e v
claim-IsValid time progress t (some job') {t'} v h =
    let (now, job, found, timed, e, e') = claim_inv time progress t h in
    let old = All-found (RowIsValid t.executions t.last_id) t.jobs v.rows found in
    rw e' (
      replace-IsValid t job.id job' v (rw e) (
        rw e (record {
          numbered = old.0.numbered;
          timed = timed;
          agreed =
              subst (λ s. agrees s (is_reserved job.id t.executions) ≡ true) old.1 old.0.agreed;
        })))

reserve_fresh :
    (i j : ℕ) (row : ExecutionRow) (rows : List ExecutionRow)
    → row.job_id ≡ i
    → i ≢ j
    → is_reserved j (row ∷ rows) ≡ is_reserved j rows
unfolding find_execution
reserve_fresh i j row rows e n = ground arith

reserve_same :
    (i : ℕ) (row : ExecutionRow) (rows : List ExecutionRow)
    → row.job_id ≡ i
    → is_reserved i (row ∷ rows) ≡ true
unfolding find_execution
reserve_same i row rows e = ground arith

-- A new reservation changes the row validity of its own job only.
reserve-RowIsValid :
    (i last : ℕ) (row : ExecutionRow) (rows : List ExecutionRow) (job : JobRecord)
    → row.job_id ≡ i
    → job.id ≢ i
    → RowIsValid rows last job
    → RowIsValid (row ∷ rows) last job
reserve-RowIsValid i last row rows job e n r = record {
  numbered = r.numbered;
  timed = r.timed;
  agreed = rw (reserve_fresh i job.id row rows e (λ p. n (sym p))) r.agreed;
}

pub reserve-IsValid :
    (time : Option ℕ) (i : ℕ) (key fingerprint : String) (t : Tables) (r : ExecutionReservation)
    {t' : Tables}
    → IsValid t
    → reserve_execution time i key fingerprint t ≡ ok (r, t')
    → IsValid t'
reserve-IsValid time i key fingerprint t (existing job') v h =
    rw ((existing_inv time i key fingerprint t h).5) v
reserve-IsValid time i key fingerprint t (reserved job') {t'} v h =
    let (now, job, found, in_state, fresh, timed, e, e') =
      reserved_inv time i key fingerprint t h in
    let row = reservation_row now i key fingerprint in
    let old = All-find_job (RowIsValid t.executions t.last_id) i t.jobs v.rows found in
    let numbered = id-find_job i t.jobs found in
    let rows = row ∷ t.executions in
    rw (e', e)
      (record {
        ascending = set_job-IsAscending 0 job.id _ t.jobs refl v.ascending;
        rows =
            All-set_job (RowIsValid rows t.last_id) job.id _ t.jobs
              (record {
                numbered = old.numbered;
                timed = timed;
                agreed = reserve_same job.id row t.executions (sym numbered);
              })
              (All-imp (RowIsValid t.executions t.last_id)
                (λ x. x.id ≢ job.id → RowIsValid rows t.last_id x) t.jobs
                (λ x p n. reserve-RowIsValid job.id t.last_id row t.executions x (sym numbered) n p)
                v.rows);
        reserved = λ j q. elim (Bool-cases (i == j)) [
          | inl same ↦ omega (arith, old.numbered, numbered, (nat_beq_iff i j).0 same)
          | inr other ↦ v.reserved j (
              rw (reserve_fresh i j row t.executions refl (λ p. cc ((nat_beq_iff i j).1 p, other)))
                at q)
        ];
      })
