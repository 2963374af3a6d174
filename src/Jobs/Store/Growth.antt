-- ===== src/Jobs/Store/Growth.antt =====
-- `create_job` and the start-up statement `interrupt_active_jobs` of store/sqlite.rs keep the
-- invariant, and the empty tables have it.
use fixer.Common.{
  ℕ, ◌+◌, ◌≤◌, ◌<◌, ◌≡◌, refl, true, false, not, Option, none, some, List, [], ◌∷◌, ◌++◌, arith,
  nat_eq, All, All-imp, All-append, Bool-cases, inl, inr, map, all, leb, ◌||◌,
}
use fixer.Std.Result.{ok}
use fixer.Jobs.State.{is_active}
use fixer.Jobs.Model.{JobInputDto}
use fixer.Jobs.Store.{
  JobRecord, ExecutionRow, Tables, find_job, find_execution, create_job, new_row,
  interrupt_active_jobs, interrupt_row,
}
use fixer.Jobs.Store.Selection.{IsAscending, append-IsAscending}
use fixer.Jobs.Store.Inversion.{is_reserved}
use fixer.Jobs.Store.Invariant.{RowIsValid, IsValid}

abbrev pub empty_tables : Tables
empty_tables = record { jobs = []; executions = []; last_id = 0 }

pub empty-IsValid : IsValid empty_tables
unfolding find_execution
empty-IsValid = record { ascending = tt; rows = tt; reserved = λ i h. absurd (cc h) }

pub create_inv :
    (time : Option ℕ) (input : JobInputDto) (t : Tables) {job' : JobRecord} {t' : Tables}
    → create_job time input t ≡ ok (job', t')
    → (now : ℕ) × (t' ≡ record t {
      jobs = t.jobs ++ new_row (t.last_id + 1) input now ∷ [];
      last_id = t.last_id + 1;
    })
      × (find_job (t.last_id + 1) t'.jobs ≡ some job')
unfolding create_job
create_inv none input t h = absurd (ground arith)
create_inv (some now) input t h = (now, ground arith, ground arith)

unreserved : (i : ℕ) (t : Tables) → IsValid t → t.last_id < i → is_reserved i t.executions ≡ false
unreserved i t v h = elim (Bool-cases (is_reserved i t.executions)) [
  | inl r ↦ absurd (omega (arith, v.reserved i r))
  | inr n ↦ n
]

RowIsValid-mono :
    (rows : List ExecutionRow) (last more : ℕ) (job : JobRecord)
    → last ≤ more
    → RowIsValid rows last job
    → RowIsValid rows more job
RowIsValid-mono rows last more job h r = record {
  numbered = omega (arith, r.numbered);
  timed = r.timed;
  agreed = r.agreed;
}

pub create-IsValid :
    (time : Option ℕ) (input : JobInputDto) (t : Tables) {job' : JobRecord} {t' : Tables}
    → IsValid t
    → create_job time input t ≡ ok (job', t')
    → IsValid t'
create-IsValid time input t v h =
    let (now, e, found) = create_inv time input t h in
    let i = t.last_id + 1 in
    let free = unreserved i t v (omega arith) in
    let P = RowIsValid t.executions i in
    rw e (record {
      ascending =
          append-IsAscending 0 t.last_id (new_row i input now) t.jobs (omega arith) (omega arith)
            (All-imp (RowIsValid t.executions t.last_id) (λ job. job.id ≤ t.last_id) t.jobs
              (λ job r. r.numbered) v.rows)
            v.ascending;
      rows =
          All-append P t.jobs (new_row i input now ∷ [])
            (All-imp (RowIsValid t.executions t.last_id) P t.jobs
              (λ job r. RowIsValid-mono t.executions t.last_id i job (omega arith) r) v.rows)
            (record { numbered = omega arith; timed = omega arith; agreed = rw free }, tt);
      reserved = λ j r. omega (arith, v.reserved j r);
    })

interrupt_rows :
    (now : ℕ) (rows : List ExecutionRow) (last : ℕ) (jobs : List JobRecord)
    → all (λ job. not (is_active job.state) || leb job.created_at_ms now) jobs ≡ true
    → All (RowIsValid rows last) jobs
    → All (RowIsValid rows last) (map (interrupt_row now) jobs)
interrupt_rows now rows last [] h a = tt
interrupt_rows now rows last (job ∷ jobs) h a = elim (Bool-cases (is_active job.state)) [
  | inl act ↦ rw act (
    record { numbered = a.0.numbered; timed = ground (arith, act); agreed = refl },
    interrupt_rows now rows last jobs (ground arith) a.1,
  )
  | inr idle ↦ rw idle (a.0, interrupt_rows now rows last jobs (ground arith) a.1)
]

interrupt-IsAscending :
    (now lo : ℕ) (jobs : List JobRecord)
    → IsAscending lo jobs
    → IsAscending lo (map (interrupt_row now) jobs)
interrupt-IsAscending now lo [] a = tt
interrupt-IsAscending now lo (job ∷ jobs) a = elim (Bool-cases (is_active job.state)) [
  | inl act ↦ rw act (a.0, interrupt-IsAscending now job.id jobs a.1)
  | inr idle ↦ rw idle (a.0, interrupt-IsAscending now job.id jobs a.1)
]

pub interrupt_inv :
    (time : Option ℕ) (t : Tables) {t' : Tables}
    → interrupt_active_jobs time t ≡ ok t'
    → (now : ℕ) × (all (λ job. not (is_active job.state) || leb job.created_at_ms now) t.jobs
        ≡ true)
      × (t' ≡ record t { jobs = map (interrupt_row now) t.jobs })
unfolding interrupt_active_jobs
interrupt_inv none t h = absurd (ground arith)
interrupt_inv (some now) t h = (now, ground arith, ground arith)

pub interrupt-IsValid :
    (time : Option ℕ) (t : Tables) {t' : Tables}
    → IsValid t
    → interrupt_active_jobs time t ≡ ok t'
    → IsValid t'
interrupt-IsValid time t v h =
    let (now, timed, e) = interrupt_inv time t h in
    rw e (record {
      ascending = interrupt-IsAscending now 0 t.jobs v.ascending;
      rows = interrupt_rows now t.executions t.last_id t.jobs timed v.rows;
      reserved = v.reserved;
    })
