-- ===== src/Jobs/Runtime/Served.antt =====
-- What any requests of crates/fixer-server/src/jobs/mod.rs do to the tables and to the events.
use fixer.Common.{
  ℕ, ◌≡◌, refl, sym, ◌∙◌, Bool, Option, none, some, List, ◌⊎◌, inl, inr, subst, not, ◌||◌, ◌==◌,
  Bool-cases,
}
use fixer.Std.Result.{Result, ok, err}
use fixer.Jobs.State.{
  JobState, queued, interrupted, writing, cancelled, can_transition_to, state_eq,
}
use fixer.Jobs.Model.{JobInputDto, ProgressSummary, new_progress}
use fixer.Jobs.Store.{JobRecord, JobUpdate, Tables, create_job, transition, get_job, with_progress}
use fixer.Jobs.Store.Steps.{Step}
use fixer.Jobs.Events.{JobEvent, EventData, publish, publish_state, publish_progress}
use fixer.Jobs.Events.Log.{IsLog, publish-IsLog}
use fixer.Jobs.Runtime.{
  JobRuntime, RuntimeError, Answer, Dispatch, no_workers, closed, open_queue, sent_to,
  publish_created, publish_transition, publish_stage, reserve_dispatch, dispatch, finish,
  dispatch_to, created, create, retried, retry, moved, cancel,
}

pub Result-cases {ℓ κ} :
    {E : Type ℓ} {A : Type κ} (r : Result E A) → ((e : E) × (r ≡ err e)) ⊎ ((a : A) × (r ≡ ok a))
Result-cases (err e) = inl (e, refl)
Result-cases (ok a) = inr (a, refl)

-- The hub's history stays the end of what was sent.
abbrev pub KeepsLog : JobRuntime → JobRuntime → Type 0
KeepsLog before after =
    (dropped : List JobEvent)
    → IsLog before.hub dropped before.sent
    → (dropped' : List JobEvent) × IsLog after.hub dropped' after.sent

-- The tables are the same and the log is kept.
abbrev pub Keeps : JobRuntime → JobRuntime → Type 0
Keeps before after = (after.tables ≡ before.tables) × KeepsLog before after

pub Keeps-same : (a : JobRuntime) → Keeps a a
Keeps-same a = (refl, λ dropped l. (dropped, l))

Keeps-trans : (a b c : JobRuntime) → Keeps a b → Keeps b c → Keeps a c
Keeps-trans a b c h k =
    (k.0 ∙ h.0, λ dropped l. let (dropped', l') = h.1 dropped l in k.1 dropped' l')

pub sent_to-Keeps :
    (i : ℕ) (body : EventData) (runtime : JobRuntime)
    → Keeps runtime (sent_to (publish i body runtime.hub) runtime).1
sent_to-Keeps i body runtime = elim (Result-cases (publish i body runtime.hub)) [
  | inl failed ↦ rw failed.1 (Keeps-same runtime)
  | inr sent ↦
      rw sent.1 (refl, λ dropped l. publish-IsLog i body runtime.hub dropped runtime.sent l sent.1)
]

publish_stage-Keeps :
    (i : ℕ) (progress : Option ProgressSummary) (a : JobRuntime) (answer : Answer (Unit {0}))
    → Keeps a answer.1
    → Keeps a (publish_stage i progress answer).1
unfolding publish_progress
publish_stage-Keeps i progress a (err e, runtime) k = k
publish_stage-Keeps i none a (ok done, runtime) k = k
publish_stage-Keeps i (some progress) a (ok done, runtime) k =
    Keeps-trans a runtime (sent_to (publish_progress i progress runtime.hub) runtime).1 k
      (sent_to-Keeps i (EventData.progress progress) runtime)

pub publish_transition-Keeps :
    (job : JobRecord) (runtime : JobRuntime) → Keeps runtime (publish_transition job runtime).1
unfolding publish_transition publish_state
publish_transition-Keeps job runtime =
    publish_stage-Keeps job.id job.progress runtime
      (sent_to (publish_state job.id job.state runtime.hub) runtime)
      (sent_to-Keeps job.id (EventData.state job.state) runtime)

pub publish_created-Keeps :
    (job : JobRecord) (runtime : JobRuntime) → Keeps runtime (publish_created job runtime).1
unfolding publish_created publish_state
publish_created-Keeps job runtime = sent_to-Keeps job.id (EventData.state job.state) runtime

dispatch_to-Keeps :
    (channel : Dispatch) (permit : Bool) (i : ℕ) (runtime : JobRuntime)
    → Keeps runtime (dispatch_to channel permit i runtime).1
dispatch_to-Keeps no_workers permit i runtime = Keeps-same runtime
dispatch_to-Keeps closed permit i runtime = Keeps-same runtime
dispatch_to-Keeps (open_queue waiting) permit i runtime = (refl, λ dropped l. (dropped, l))

pub dispatch-Keeps :
    (permit : Bool) (i : ℕ) (runtime : JobRuntime) → Keeps runtime (dispatch permit i runtime).1
unfolding dispatch
dispatch-Keeps permit i runtime = dispatch_to-Keeps runtime.dispatch permit i runtime

finish-Keeps :
    (permit : Bool) (job : JobRecord) (a : JobRuntime) (answer : Answer (Unit {0}))
    → Keeps a answer.1
    → Keeps a (finish permit job answer).1
finish-Keeps permit job a (published, runtime) k =
    Keeps-trans a runtime (dispatch permit job.id runtime).1 k
      (dispatch-Keeps permit job.id runtime)

-- One request: the tables are as before or one statement further, and the log is kept.
pub record Serves (before after : JobRuntime) : Type 0 where
  pub steps : (after.tables ≡ before.tables) ⊎ Step before.tables after.tables
  pub logged : KeepsLog before after

pub Serves-same : (a : JobRuntime) → Serves a a
Serves-same a = record { steps = inl refl; logged = λ dropped l. (dropped, l) }

pub Serves-step :
    (before after : JobRuntime) (tables : Tables)
    → Step before.tables tables
    → Keeps (record before { tables = tables }) after
    → Serves before after
Serves-step before after tables step k = record {
  steps = inr (subst (λ t. Step before.tables t) (sym k.0) step);
  logged = k.1;
}

pub created-Serves :
    (time : Option ℕ) (input : JobInputDto) (permit : Bool) (runtime : JobRuntime)
    → Serves runtime (created permit (create_job time input runtime.tables) runtime).1
created-Serves time input permit runtime =
    elim (Result-cases (create_job time input runtime.tables)) [
      | inl failed ↦ rw failed.1 (Serves-same runtime)
      | inr done ↦
          let ((job, tables), e) = done in
          let runtime' : JobRuntime = record runtime { tables = tables } in
          rw e (
            Serves-step runtime (finish permit job (publish_created job runtime')).1 tables
              (Step.create time input job e)
              (finish-Keeps permit job runtime' (publish_created job runtime')
                (publish_created-Keeps job runtime')))
    ]

pub create-Serves :
    (validate_input : JobInputDto → Result RuntimeError JobInputDto) (time : Option ℕ)
    (input : JobInputDto) (runtime : JobRuntime)
    → Serves runtime (create validate_input time input runtime).1
unfolding create
create-Serves validate_input time input runtime = elim (Result-cases (validate_input input)) [
  | inl refused ↦ rw refused.1 (Serves-same runtime)
  | inr valid ↦ elim (Result-cases (reserve_dispatch runtime)) [
    | inl unavailable ↦ rw (valid.1, unavailable.1) (Serves-same runtime)
    | inr permit ↦ rw (valid.1, permit.1) (created-Serves time valid.0 permit.0 runtime)
  ]
]

pub transition-Serves :
    (time : Option ℕ) (i : ℕ) (expected target : JobState) (update : JobUpdate)
    (runtime : JobRuntime)
    → Serves runtime (moved (transition time i expected target update runtime.tables) runtime).1
transition-Serves time i expected target update runtime =
    elim (Result-cases (transition time i expected target update runtime.tables)) [
      | inl failed ↦ rw failed.1 (Serves-same runtime)
      | inr done ↦
          let ((job, tables), e) = done in
          let runtime' : JobRuntime = record runtime { tables = tables } in
          rw e (
            Serves-step runtime (publish_transition job runtime').1 tables
              (Step.move time i expected target update job e)
              (publish_transition-Keeps job runtime'))
    ]

retried-Serves :
    (time : Option ℕ) (i : ℕ) (expected target : JobState) (update : JobUpdate) (permit : Bool)
    (runtime : JobRuntime)
    → Serves runtime
        (retried permit (transition time i expected target update runtime.tables) runtime).1
retried-Serves time i expected target update permit runtime =
    elim (Result-cases (transition time i expected target update runtime.tables)) [
      | inl failed ↦ rw failed.1 (Serves-same runtime)
      | inr done ↦
          let ((job, tables), e) = done in
          let runtime' : JobRuntime = record runtime { tables = tables } in
          rw e (
            Serves-step runtime (finish permit job (publish_transition job runtime')).1 tables
              (Step.move time i expected target update job e)
              (finish-Keeps permit job runtime' (publish_transition job runtime')
                (publish_transition-Keeps job runtime')))
    ]

pub retry-Serves :
    (time : Option ℕ) (i : ℕ) (runtime : JobRuntime) → Serves runtime (retry time i runtime).1
unfolding retry
retry-Serves time i runtime = elim (Result-cases (reserve_dispatch runtime)) [
  | inl unavailable ↦ rw unavailable.1 (Serves-same runtime)
  | inr permit ↦ rw permit.1 (
      retried-Serves time i interrupted queued (with_progress (new_progress "queued" 0 none))
        permit.0 runtime)
]

pub cancel-Serves :
    (time : Option ℕ) (i : ℕ) (runtime : JobRuntime) → Serves runtime (cancel time i runtime).1
unfolding cancel
cancel-Serves time i runtime = elim (Result-cases (get_job i runtime.tables)) [
  | inl failed ↦ rw failed.1 (Serves-same runtime)
  | inr found ↦
      let (job, e) = found in
      elim (Bool-cases (job.state == writing || not (can_transition_to job.state cancelled))) [
        | inl refused ↦ rw (e, refused) (Serves-same runtime)
        | inr allowed ↦
            rw (e, allowed)
              (transition-Serves time i job.state cancelled
                (with_progress (new_progress "cancelled" 0 none)) runtime)
      ]
]
