-- ===== src/Jobs/Store/Reservations.antt =====
-- Execution reservations over histories of store/sqlite.rs: a job is reserved at most once, and a
-- repeated request is answered from the reservation.
use fixer.Common.{
  ℕ, ◌<◌, ◌^◌, ◌&&◌, string_eq, ◌≡◌, refl, sym, ◌∙◌, true, false, Option, none, some, List, ◌∷◌,
  arith, ◌==◌, nat_eq, if◌then◌else◌, Bool-cases, nat_beq_iff, inl, inr, String, subst, ap,
  some_injective,
}
use fixer.Std.Result.{ok, err}
use fixer.Jobs.State.{JobState, planning, state_beq}
use fixer.Jobs.Store.{
  JobRecord, ExecutionRow, Tables, find_job, find_execution, reserve_execution,
  ExecutionReservation, idempotency_conflict, reserved, existing,
}
use fixer.Jobs.Store.Selection.{All-find_job, id-find_job, find_job-set_job}
use fixer.Jobs.Store.Inversion.{
  reservation_row, is_reserved, transition_inv, claim_inv, claim_none, reserved_inv, existing_inv,
}
use fixer.Jobs.Store.Invariant.{agrees, RowIsValid, IsValid, reserve-IsValid}
use fixer.Jobs.Store.Growth.{empty_tables, empty-IsValid, create_inv, interrupt_inv}
use fixer.Jobs.Store.Steps.{
  Step, create, claim, move, reserve, restart, History, start, next, History-IsValid,
}
use fixer.Jobs.Store.Continuity.{History-Continues}

find_execution_behind :
    (i k : ℕ) (new row : ExecutionRow) (rows : List ExecutionRow)
    → new.job_id ≡ k
    → find_execution k rows ≡ none
    → find_execution i rows ≡ some row
    → find_execution i (new ∷ rows) ≡ some row
unfolding find_execution
find_execution_behind i k new row rows e fresh f = elim (Bool-cases (new.job_id == i)) [
  | inl same ↦ absurd (cc (fresh, f, sym e ∙ (nat_beq_iff new.job_id i).0 same))
  | inr other ↦ rw other f
]

Step-reservation :
    {t t' : Tables} (i : ℕ) (row : ExecutionRow)
    → Step t t'
    → find_execution i t.executions ≡ some row
    → find_execution i t'.executions ≡ some row
Step-reservation {t} i row (create time input new h) f = rw ((create_inv time input t h).1) f
Step-reservation {t} i row (claim time progress none h) f = rw (claim_none time progress t h) f
Step-reservation {t} i row (claim time progress (some new) h) f =
    rw ((claim_inv time progress t h).5) f
Step-reservation {t} i row (move time k expected to update new h) f =
    rw ((transition_inv time k expected to update t h).9) f
Step-reservation {t} i row (reserve time k key fingerprint (reserved new) h) f =
    let (now, old, found, in_state, fresh, timed, e, e') =
      reserved_inv time k key fingerprint t h in
    rw e' (
      find_execution_behind i k (reservation_row now k key fingerprint) row t.executions refl fresh
        f)
Step-reservation {t} i row (reserve time k key fingerprint (existing new) h) f =
    rw ((existing_inv time k key fingerprint t h).5) f
Step-reservation {t} i row (restart time h) f = rw ((interrupt_inv time t h).2) f

-- A reservation is never changed or removed.
pub History-reservation :
    {s t : Tables} (i : ℕ) (row : ExecutionRow)
    → History s t
    → find_execution i s.executions ≡ some row
    → find_execution i t.executions ≡ some row
History-reservation i row start f = f
History-reservation i row (next h st) f = Step-reservation i row st (History-reservation i row h f)

pub reserved_row :
    (time : Option ℕ) (i : ℕ) (key fingerprint : String) (s : Tables) {job : JobRecord} {t : Tables}
    → reserve_execution time i key fingerprint s ≡ ok (reserved job, t)
    → (now : ℕ) × (find_execution i t.executions ≡ some (reservation_row now i key fingerprint))
unfolding find_execution
reserved_row time i key fingerprint s {job} {t} h =
    let (now, old, found, in_state, fresh, timed, e, e') =
      reserved_inv time i key fingerprint s h in
    (now, rw e' (ground arith))

-- In every history after a successful reservation of a job, an answer to any further request for
-- that job is `existing`, was asked with the same key and fingerprint, and changes nothing.
pub reserve_once :
    (time time' : Option ℕ) (i : ℕ) (key key' fingerprint fingerprint' : String)
    (answer : ExecutionReservation) (s : Tables) {t u v : Tables} {job : JobRecord}
    → reserve_execution time i key fingerprint s ≡ ok (reserved job, t)
    → History t u
    → reserve_execution time' i key' fingerprint' u ≡ ok (answer, v)
    → (job' : JobRecord) × (answer ≡ existing job')
      × (find_job i u.jobs ≡ some job')
      × (key' ≡ key)
      × (fingerprint' ≡ fingerprint)
      × (v ≡ u)
reserve_once time time' i key key' fingerprint fingerprint' (reserved job') s {t} {u} {v} {job} h
      after h' =
    let (now, at) = reserved_row time i key fingerprint s h in
    let at' = History-reservation i (reservation_row now i key fingerprint) after at in
    let (now', old, found, in_state, fresh, timed, e, e') =
      reserved_inv time' i key' fingerprint' u h' in
    absurd (cc (at', fresh))
reserve_once time time' i key key' fingerprint fingerprint' (existing job') s {t} {u} {v} {job} h
      after h' =
    let (now, at) = reserved_row time i key fingerprint s h in
    let at' = History-reservation i (reservation_row now i key fingerprint) after at in
    let (row, f, k, p, found, same) = existing_inv time' i key' fingerprint' u h' in
    let e : row ≡ reservation_row now i key fingerprint = some_injective (sym f ∙ at') in
    (
      job',
      refl,
      found,
      sym k ∙ ap (λ (r : ExecutionRow). r.idempotency_key) e,
      sym p ∙ ap (λ (r : ExecutionRow). r.request_fingerprint) e,
      same,
    )

-- In every history from the empty tables: a job that is writing or completed has a reservation; a
-- job with a reservation is writing, completed, failed or interrupted.
pub History-agrees :
    {t : Tables} (i : ℕ) {job : JobRecord}
    → History empty_tables t
    → find_job i t.jobs ≡ some job
    → agrees job.state (is_reserved i t.executions) ≡ true
History-agrees {t} i {job} h f =
    let v = History-IsValid empty-IsValid h in
    let r = All-find_job (RowIsValid t.executions t.last_id) i t.jobs v.rows f in
    rw (id-find_job i t.jobs f) at r.agreed

reserved_found :
    (time : Option ℕ) (i : ℕ) (key fingerprint : String) (s : Tables) {job : JobRecord} {t : Tables}
    → reserve_execution time i key fingerprint s ≡ ok (reserved job, t)
    → find_job i t.jobs ≡ some job
reserved_found time i key fingerprint s {job} {t} h =
    let (now, old, found, in_state, fresh, timed, e, e') =
      reserved_inv time i key fingerprint s h in
    let same = (nat_beq_iff old.id i).1 (id-find_job i s.jobs found) in
    rw e' (rw (find_job-set_job old.id i job s.jobs (rw e), same, found))

answer_reserved :
    (now i : ℕ) (key fingerprint : String) (u : Tables) (job : JobRecord) (row : ExecutionRow)
    → now < 2 ^ 63
    → find_job i u.jobs ≡ some job
    → state_beq job.state planning ≡ false
    → find_execution i u.executions ≡ some row
    → reserve_execution (some now) i key fingerprint u ≡ (
        if row.idempotency_key == key && row.request_fingerprint == fingerprint
        then ok (existing job, u)
        else err (idempotency_conflict i))
unfolding reserve_execution
answer_reserved now i key fingerprint u job row fits found other held = ground arith

is_reserved_found :
    (i : ℕ) (row : ExecutionRow) (rows : List ExecutionRow)
    → find_execution i rows ≡ some row
    → is_reserved i rows ≡ true
is_reserved_found i row rows f = ground arith

not_planning : (s : JobState) → agrees s true ≡ true → state_beq s planning ≡ false
not_planning s h = ground arith

-- After a successful reservation, a repeated request is decided by its key and fingerprint alone:
-- the same ones give the current job and change nothing, others give `idempotency_conflict`. The
-- clock reads a time that fits.
pub reserve_again :
    (time : Option ℕ) (now i : ℕ) (key key' fingerprint fingerprint' : String) (s u : Tables)
    {t : Tables} {job : JobRecord}
    → IsValid s
    → now < 2 ^ 63
    → reserve_execution time i key fingerprint s ≡ ok (reserved job, t)
    → History t u
    → (job' : JobRecord) × (find_job i u.jobs ≡ some job')
      × (reserve_execution (some now) i key' fingerprint' u ≡ (
          if key == key' && fingerprint == fingerprint'
          then ok (existing job', u)
          else err (idempotency_conflict i)))
reserve_again time now i key key' fingerprint fingerprint' s u {t} {job} v fits h after =
    let (at_time, held) = reserved_row time i key fingerprint s h in
    let row = reservation_row at_time i key fingerprint in
    let held' = History-reservation i row after held in
    let v' = reserve-IsValid time i key fingerprint s (reserved job) v h in
    let (job', found, c) =
      History-Continues i v' after (reserved_found time i key fingerprint s h) in
    let valid =
      All-find_job (RowIsValid u.executions u.last_id) i u.jobs (History-IsValid v' after).rows
        found in
    let held_job =
      is_reserved_found job'.id row u.executions (rw (id-find_job i u.jobs found) held') in
    let agreed = subst (λ r. agrees job'.state r ≡ true) held_job valid.agreed in
    (
      job',
      found,
      answer_reserved now i key' fingerprint' u job' row fits found (not_planning job'.state agreed)
          held',
    )
