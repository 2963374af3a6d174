-- ===== src/Jobs/Runtime/Runs.antt =====
-- The requests in crates/fixer-server/src/jobs/mod.rs for a run and for the events of a job.
use fixer.Common.{
  ℕ, Bool, true, false, not, ◌&&◌, Option, none, some, List, [], ◌∷◌, ◌++◌, find, ◌==◌,
}
use fixer.Std.Result.{Result, ok, err, map_err}
use fixer.Std.Text.{Text}
use fixer.Jobs.State.{is_terminal}
use fixer.Jobs.Model.{JobInputDto}
use fixer.Jobs.Model.Same.{input_eq}
use fixer.Jobs.Store.{JobRecord, StoreError, list_jobs, create_job, get_job}
use fixer.Jobs.Events.{JobEvent, JobEventHub, SubscribeError, Subscription, ensure_state, subscribe}
use fixer.Jobs.Runtime.{JobRuntime, RuntimeError, event, store, Answer, reserve_dispatch, created}

-- The run that is there: the newest that has not ended and has the same input.
abbrev pub is_same_run : JobInputDto → JobRecord → Bool
is_same_run input job = not (is_terminal job.state) && job.input == input

abbrev pub as_new : Answer JobRecord → Answer (JobRecord × Bool)
as_new (err e, runtime) = (err e, runtime)
as_new (ok job, runtime) = (ok (job, true), runtime)

abbrev pub unless_found :
    Option ℕ → JobInputDto → Bool → Option JobRecord → JobRuntime → Answer (JobRecord × Bool)
unless_found time input permit (some existing) runtime = (ok (existing, false), runtime)
unless_found time input permit none runtime =
    as_new (created permit (create_job time input runtime.tables) runtime)

abbrev pub among :
    Option ℕ
    → JobInputDto
    → Bool
    → Result StoreError (List JobRecord)
    → JobRuntime
    → Answer (JobRecord × Bool)
among time input permit (err e) runtime = (err (store e), runtime)
among time input permit (ok jobs) runtime =
    unless_found time input permit (find (is_same_run input) jobs) runtime

abbrev pub create_run_with :
    Option ℕ
    → Result RuntimeError JobInputDto
    → Result RuntimeError Bool
    → JobRuntime
    → Answer (JobRecord × Bool)
create_run_with time (err e) permit runtime = (err e, runtime)
create_run_with time (ok input) (err e) runtime = (err e, runtime)
create_run_with time (ok input) (ok permit) runtime =
    among time input permit (list_jobs 10000 none runtime.tables) runtime

-- The answer says whether the run is new.
unfoldable pub create_run :
    (JobInputDto → Result RuntimeError JobInputDto)
    → Option ℕ
    → JobInputDto
    → JobRuntime
    → Answer (JobRecord × Bool)
create_run validate_input time input runtime =
    create_run_with time (validate_input input) (reserve_dispatch runtime) runtime

abbrev pub ensured :
    Result SubscribeError (JobEventHub × Option JobEvent) → JobRuntime → Answer (Unit {0})
ensured (err e) runtime = (err (event e), runtime)
ensured (ok (hub, none)) runtime = (ok tt, record runtime { hub = hub })
ensured (ok (hub, some published)) runtime =
    (ok tt, record runtime { hub = hub; sent = runtime.sent ++ published ∷ [] })

abbrev pub subscribed : ℕ → Option Text → Answer (Unit {0}) → Answer Subscription
subscribed i cursor (err e, runtime) = (err e, runtime)
subscribed i cursor (ok done, runtime) = (map_err event (subscribe i cursor runtime.hub), runtime)

abbrev pub stream_of :
    ℕ → Option Text → Result StoreError JobRecord → JobRuntime → Answer Subscription
stream_of i cursor (err e) runtime = (err (store e), runtime)
stream_of i cursor (ok job) runtime =
    subscribed i cursor (ensured (ensure_state i job.state runtime.hub) runtime)

unfoldable pub event_stream : ℕ → Option Text → JobRuntime → Answer Subscription
event_stream i cursor runtime = stream_of i cursor (get_job i runtime.tables) runtime
