-- ===== src/Jobs/Runtime/RunsServed.antt =====
-- What the requests of jobs/mod.rs for a run and for events do to the tables and to the events.
use fixer.Common.{
  ℕ, ◌≡◌, refl, sym, subst, Bool, Option, none, some, any, find, ◌==◌, nat_eq, Bool-cases, inl, inr,
}
use fixer.Std.Text.{Text}
use fixer.Std.Result.{Result, ok, err}
use fixer.Jobs.State.{JobState}
use fixer.Jobs.Model.{JobInputDto}
use fixer.Jobs.Store.{JobRecord, create_job, list_jobs, get_job}
use fixer.Jobs.Events.{JobEvent, EventData, publish, ensure_state}
use fixer.Jobs.Runtime.{JobRuntime, RuntimeError, Answer, reserve_dispatch, sent_to, created}
use fixer.Jobs.Runtime.Served.{
  Serves, Serves-same, Keeps, Keeps-same, Result-cases, created-Serves, sent_to-Keeps,
}
use fixer.Jobs.Runtime.Runs.{
  create_run, as_new, unless_found, is_same_run, event_stream, subscribed, ensured,
}

as_new-runtime : (answer : Answer JobRecord) → (as_new answer).1 ≡ answer.1
as_new-runtime (err e, runtime) = refl
as_new-runtime (ok job, runtime) = refl

unless_found-Serves :
    (time : Option ℕ) (input : JobInputDto) (permit : Bool) (found : Option JobRecord)
    (runtime : JobRuntime)
    → Serves runtime (unless_found time input permit found runtime).1
unless_found-Serves time input permit (some existing) runtime = Serves-same runtime
unless_found-Serves time input permit none runtime =
    subst (λ (x : JobRuntime). Serves runtime x)
      (sym (as_new-runtime (created permit (create_job time input runtime.tables) runtime)))
      (created-Serves time input permit runtime)

pub create_run-Serves :
    (validate_input : JobInputDto → Result RuntimeError JobInputDto) (time : Option ℕ)
    (input : JobInputDto) (runtime : JobRuntime)
    → Serves runtime (create_run validate_input time input runtime).1
unfolding create_run
create_run-Serves validate_input time input runtime = elim (Result-cases (validate_input input)) [
  | inl refused ↦ rw refused.1 (Serves-same runtime)
  | inr valid ↦ elim (Result-cases (reserve_dispatch runtime)) [
    | inl unavailable ↦ rw (valid.1, unavailable.1) (Serves-same runtime)
    | inr permit ↦ elim (Result-cases (list_jobs 10000 none runtime.tables)) [
      | inl failed ↦ rw (valid.1, permit.1, failed.1) (Serves-same runtime)
      | inr jobs ↦
          rw (valid.1, permit.1, jobs.1)
            (unless_found-Serves time valid.0 permit.0 (find (is_same_run valid.0) jobs.0) runtime)
    ]
  ]
]

Keeps-Serves : {a b : JobRuntime} → Keeps a b → Serves a b
Keeps-Serves h = record { steps = inl h.0; logged = h.1 }

ensured-Keeps :
    (i : ℕ) (state : JobState) (runtime : JobRuntime)
    → Keeps runtime (ensured (ensure_state i state runtime.hub) runtime).1
unfolding ensure_state
ensured-Keeps i state runtime =
    elim (Bool-cases (any (λ (event : JobEvent). event.job_id == i) runtime.hub.retained)) [
      | inl there ↦ rw there (Keeps-same runtime)
      | inr absent ↦ elim (Result-cases (publish i (EventData.state state) runtime.hub)) [
        | inl failed ↦ rw (absent, failed.1) (Keeps-same runtime)
        | inr sent ↦
            rw (absent, sent.1)
              (subst (λ r. Keeps runtime (sent_to r runtime).1) sent.1
                (sent_to-Keeps i (EventData.state state) runtime))
      ]
    ]

subscribed-Keeps :
    (i : ℕ) (cursor : Option Text) (before : JobRuntime) (answer : Answer (Unit {0}))
    → Keeps before answer.1
    → Keeps before (subscribed i cursor answer).1
subscribed-Keeps i cursor before (err e, runtime) h = h
subscribed-Keeps i cursor before (ok done, runtime) h = h

pub event_stream-Serves :
    (i : ℕ) (cursor : Option Text) (runtime : JobRuntime)
    → Serves runtime (event_stream i cursor runtime).1
unfolding event_stream
event_stream-Serves i cursor runtime = elim (Result-cases (get_job i runtime.tables)) [
  | inl missing ↦ rw missing.1 (Serves-same runtime)
  | inr found ↦
      rw found.1
        (Keeps-Serves (subscribed-Keeps i cursor runtime _ (ensured-Keeps i found.0.state runtime)))
]
