-- ===== src/Jobs/Runtime/Found.antt =====
-- Requests of jobs/mod.rs for a run that was asked for before.
use fixer.Common.{
  ℕ, ◌+◌, ◌≡◌, ◌≢◌, refl, sym, ap, subst, ◌∙◌, Bool, true, false, Option, none, some,
  some_injective, List, [], ◌∷◌, find, take, All, arith, nat_eq, inl, inr,
}
use mathlib.Core.List.{reverse, reverse-append}
use fixer.Std.Result.{Result, ok, err, ◌>>◌}
use fixer.Jobs.State.{is_terminal}
use fixer.Jobs.Model.{JobInputDto}
use fixer.Jobs.Model.Same.{input_eq, input_beq_iff}
use fixer.Jobs.Store.{JobRecord, Tables, StoreError, list_jobs, create_job, find_job, new_row}
use fixer.Jobs.Store.Selection.{find_job-append}
use fixer.Jobs.Store.Growth.{create_inv}
use fixer.Jobs.Store.Invariant.{IsValid, RowIsValid}
use fixer.Jobs.Runtime.{
  JobRuntime, RuntimeError, Dispatch, no_workers, closed, open_queue, Answer, reserve_dispatch,
  dispatch, finish, created, publish_created,
}
use fixer.Jobs.Events.{publish_state}
use fixer.Jobs.Runtime.Served.{Result-cases, publish_created-Keeps, dispatch-Keeps}
use fixer.Jobs.Runtime.Queued.{sent_to-dispatch}
use fixer.Jobs.Runtime.Runs.{create_run, is_same_run, as_new, unless_found}

list_newest : (t : Tables) → list_jobs 10000 none t ≡ ok (take 10000 (reverse t.jobs))
unfolding list_jobs
list_newest t = refl

-- Whether the workers have not ended.
reserved_ready :
    (runtime : JobRuntime) (permit : Bool)
    → reserve_dispatch runtime ≡ ok permit
    → runtime.dispatch ≢ closed
unfolding reserve_dispatch
reserved_ready runtime permit h = λ e. cc (
    subst
      (λ d.
        elim d as (λ _. Result RuntimeError Bool) [
          | no_workers ↦ ok false
          | closed ↦ err RuntimeError.queue_unavailable
          | open_queue waiting ↦ ok true
        ]
        ≡ ok permit)
      e h)

ready_reserves :
    (runtime : JobRuntime)
    → runtime.dispatch ≢ closed
    → (permit : Bool) × (reserve_dispatch runtime ≡ ok permit)
unfolding reserve_dispatch
ready_reserves runtime h = of_dispatch runtime.dispatch h
  where
    of_dispatch :
        (d : Dispatch)
        → d ≢ closed
        → (permit : Bool) × (elim d as (λ _. Result RuntimeError Bool) [
          | no_workers ↦ ok false
          | closed ↦ err RuntimeError.queue_unavailable
          | open_queue waiting ↦ ok true
        ]
            ≡ ok permit)
    of_dispatch no_workers h = (false, refl)
    of_dispatch closed h = absurd (h refl)
    of_dispatch (open_queue waiting) h = (true, refl)

dispatch_ready :
    (permit : Bool) (i : ℕ) (runtime : JobRuntime)
    → runtime.dispatch ≢ closed
    → (dispatch permit i runtime).1.dispatch ≢ closed
unfolding dispatch
dispatch_ready permit i runtime h = of_dispatch runtime.dispatch refl
  where
    of_dispatch :
        (d : Dispatch) → runtime.dispatch ≡ d → (dispatch permit i runtime).1.dispatch ≢ closed
    of_dispatch no_workers e = rw e (λ same. cc same)
    of_dispatch closed e = absurd (h e)
    of_dispatch (open_queue waiting) e = rw e (λ same. cc same)

finish_settled :
    (permit : Bool) (job : JobRecord) (answer : Answer (Unit {0})) {job' : JobRecord}
    {after : JobRuntime}
    → answer.1.dispatch ≢ closed
    → finish permit job answer ≡ (ok job', after)
    → (job' ≡ job) × (after.tables ≡ answer.1.tables) × (after.dispatch ≢ closed)
finish_settled permit job (published, runtime) {job'} {after} ready h =
    let e : (dispatch permit job.id runtime).1 ≡ after = ap (λ (x : Answer JobRecord). x.1) h in
    (
      of_answers published (dispatch permit job.id runtime).0
          (ap (λ (x : Answer JobRecord). x.0) h),
      subst (λ (x : JobRuntime). x.tables ≡ runtime.tables) e
          (dispatch-Keeps permit job.id runtime).0,
      subst (λ (x : JobRuntime). x.dispatch ≢ closed) e
          (dispatch_ready permit job.id runtime ready),
    )
  where
    of_answers :
        (published dispatched : Result RuntimeError (Unit {0}))
        → (published >> dispatched >> ok job) ≡ ok job'
        → job' ≡ job
    of_answers (err e) dispatched k = absurd (cc k)
    of_answers (ok done) (err e) k = absurd (cc k)
    of_answers (ok done) (ok done') k = ground arith

-- A created run, in the tables and in front of the queue.
created_settled :
    (permit : Bool) (job : JobRecord) (tables : Tables) (runtime : JobRuntime) {job' : JobRecord}
    {after : JobRuntime}
    → runtime.dispatch ≢ closed
    → created permit (ok (job, tables)) runtime ≡ (ok job', after)
    → (job' ≡ job) × (after.tables ≡ tables) × (after.dispatch ≢ closed)
unfolding publish_created
created_settled permit job tables runtime ready h =
    let runtime' : JobRuntime = record runtime { tables = tables } in
    let (same, kept, open_still) =
      finish_settled permit job (publish_created job runtime')
        (subst (λ d. d ≢ closed)
          (sym (sent_to-dispatch (publish_state job.id job.state runtime'.hub) runtime')) ready)
        h in
    (same, kept ∙ (publish_created-Keeps job runtime').0, open_still)

unnumbered :
    (rows : List _) (last : ℕ) (jobs : List JobRecord)
    → All (RowIsValid rows last) jobs
    → find_job (last + 1) jobs ≡ none
unfolding find_job
unnumbered rows last [] h = refl
unnumbered rows last (job ∷ jobs) h = ground (arith, h.0.numbered, unnumbered rows last jobs h.1)

-- A run that the store creates is the newest, and the one that a request for it finds.
created_found :
    (time : Option ℕ) (input : JobInputDto) (t : Tables) {job : JobRecord} {t' : Tables}
    → IsValid t
    → create_job time input t ≡ ok (job, t')
    → find (is_same_run input) (take 10000 (reverse t'.jobs)) ≡ some job
unfolding is_terminal
created_found time input t {job} {t'} v h =
    let (now, e, found) = create_inv time input t h in
    let row = new_row (t.last_id + 1) input now in
    let same : row ≡ job = some_injective (
      sym (
        rw
          (
            find_job-append (t.last_id + 1) t.jobs row,
            unnumbered t.executions t.last_id t.jobs v.rows,
          )
          (ground arith))
      ∙ subst (λ (x : Tables). find_job (t.last_id + 1) x.jobs ≡ some job) e found) in
    rw (e, reverse-append t.jobs (row ∷ []), (input_beq_iff input input).1 refl) (ap some same)

module _ (validate_input : JobInputDto → Result RuntimeError JobInputDto) (again : Option ℕ)
    (input input' : JobInputDto) (valid : validate_input input ≡ ok input') where
  -- A request finds a run among the newest jobs.
  finds :
      (runtime : JobRuntime) {job : JobRecord}
      → runtime.dispatch ≢ closed
      → find (is_same_run input') (take 10000 (reverse runtime.tables.jobs)) ≡ some job
      → create_run validate_input again input runtime ≡ (ok (job, false), runtime)
  unfolding create_run
  finds runtime ready found =
      let (permit, reserves) = ready_reserves runtime ready in
      rw (valid, reserves, list_newest runtime.tables, found) refl

  module _ (runtime : JobRuntime) (v : IsValid runtime.tables)
      (ready : runtime.dispatch ≢ closed) where
    new_found :
        (time : Option ℕ) (permit : Bool) (result : Result StoreError (JobRecord × Tables))
        {job : JobRecord} {fresh : Bool} {after : JobRuntime}
        → create_job time input' runtime.tables ≡ result
        → as_new (created permit result runtime) ≡ (ok (job, fresh), after)
        → create_run validate_input again input after ≡ (ok (job, false), after)
    new_found time permit (err e) made h = absurd (cc h)
    new_found time permit (ok (job', tables)) {job} {after} made h =
        let (same, kept, open_still) =
          created_settled permit job' tables runtime ready
            (answer_of (created permit (ok (job', tables)) runtime) h) in
        finds after open_still
          (rw (kept, created_found time input' runtime.tables v made) (ap some (sym same)))
      where
        answer_of :
            (answer : Answer JobRecord) {fresh : Bool}
            → as_new answer ≡ (ok (job, fresh), after)
            → answer ≡ (ok job, after)
        answer_of (err e, runtime') k = absurd (cc k)
        answer_of (ok job'', runtime') k = ground arith

    run_found :
        (time : Option ℕ) (permit : Bool) (found : Option JobRecord) {job : JobRecord}
        {fresh : Bool} {after : JobRuntime}
        → find (is_same_run input') (take 10000 (reverse runtime.tables.jobs)) ≡ found
        → unless_found time input' permit found runtime ≡ (ok (job, fresh), after)
        → create_run validate_input again input after ≡ (ok (job, false), after)
    run_found time permit (some existing) {job} {fresh} {after} e h =
        let same : existing ≡ job = ground (arith, h) in
        subst (λ (x : JobRuntime). create_run validate_input again input x ≡ (ok (job, false), x))
          (ap (λ (x : Answer (JobRecord × Bool)). x.1) h) (finds runtime ready (e ∙ ap some same))
    run_found time permit none e h =
        new_found time permit (create_job time input' runtime.tables) refl h

-- A request for a run that was answered is answered with the same job when it is made again, at any
-- time: no job is created, and nothing changes. The tables satisfied the invariant, and nobody
-- else moved in between.
pub create_run_again :
    (validate_input : JobInputDto → Result RuntimeError JobInputDto) (time again : Option ℕ)
    (input : JobInputDto) (runtime : JobRuntime) {job : JobRecord} {fresh : Bool}
    {after : JobRuntime}
    → IsValid runtime.tables
    → create_run validate_input time input runtime ≡ (ok (job, fresh), after)
    → create_run validate_input again input after ≡ (ok (job, false), after)
unfolding create_run
create_run_again validate_input time again input runtime {job} {fresh} {after} v h =
    elim (Result-cases (validate_input input)) [
      | inl refused ↦ absurd (cc (rw refused.1 at h))
      | inr valid ↦ elim (Result-cases (reserve_dispatch runtime)) [
        | inl unavailable ↦ absurd (cc (rw (valid.1, unavailable.1) at h))
        | inr permit ↦
            run_found validate_input again input valid.0 valid.1 runtime v
              (reserved_ready runtime permit.0 permit.1) time permit.0 _ refl
              (rw (valid.1, permit.1, list_newest runtime.tables) at h)
      ]
    ]
