-- ===== src/Jobs/Runtime/Queued.antt =====
-- The dispatch of a created job in crates/fixer-server/src/jobs/mod.rs.
use fixer.Common.{ℕ, ◌≡◌, refl, ◌∙◌, true, Option, List, [], ◌∷◌, ◌++◌}
use fixer.Std.Result.{Result, ok, err}
use fixer.Jobs.Model.{JobInputDto}
use fixer.Jobs.Store.{JobRecord, Tables, create_job}
use fixer.Jobs.Events.{JobEvent, JobEventHub, SubscribeError, publish_state}
use fixer.Jobs.Runtime.{
  JobRuntime, RuntimeError, Answer, open_queue, sent_to, publish_created, reserve_dispatch,
  dispatch, finish, created, create,
}
use fixer.Jobs.Runtime.Served.{publish_created-Keeps, dispatch-Keeps}

pub sent_to-dispatch :
    (r : Result SubscribeError (JobEventHub × JobEvent)) (runtime : JobRuntime)
    → (sent_to r runtime).1.dispatch ≡ runtime.dispatch
sent_to-dispatch (err e) runtime = refl
sent_to-dispatch (ok (hub, published)) runtime = refl

finish-dispatch :
    (job : JobRecord) (answer : Answer (Unit {0})) (waiting : List ℕ)
    → answer.1.dispatch ≡ open_queue waiting
    → (finish true job answer).1.dispatch ≡ open_queue (waiting ++ job.id ∷ [])
unfolding dispatch
finish-dispatch job (published, runtime) waiting h = rw h refl

finish-tables :
    (job : JobRecord) (answer : Answer (Unit {0}))
    → (finish true job answer).1.tables ≡ answer.1.tables
finish-tables job (published, runtime) = (dispatch-Keeps true job.id runtime).0

created_lem :
    (job : JobRecord) (tables : Tables) (runtime : JobRuntime) (waiting : List ℕ)
    → runtime.dispatch ≡ open_queue waiting
    → ((created true (ok (job, tables)) runtime).1.tables ≡ tables)
      × ((created true (ok (job, tables)) runtime).1.dispatch ≡ open_queue (waiting ++ job.id ∷ []))
unfolding publish_created
created_lem job tables runtime waiting opened =
    let runtime' : JobRuntime = record runtime { tables = tables } in
    (
      finish-tables job (publish_created job runtime') ∙ (publish_created-Keeps job runtime').0,
      finish-dispatch job (publish_created job runtime') waiting
          (sent_to-dispatch (publish_state job.id job.state runtime'.hub) runtime' ∙ opened),
    )

reserve_open :
    (runtime : JobRuntime) (waiting : List ℕ)
    → runtime.dispatch ≡ open_queue waiting
    → reserve_dispatch runtime ≡ ok true
unfolding reserve_dispatch
reserve_open runtime waiting h = rw h refl

-- A job that the store creates is queued for the workers, whether or not its event could be
-- published.
pub create_queued :
    (validate_input : JobInputDto → Result RuntimeError JobInputDto) (time : Option ℕ)
    (input input' : JobInputDto) (runtime : JobRuntime) (waiting : List ℕ) {job : JobRecord}
    {tables : Tables}
    → validate_input input ≡ ok input'
    → runtime.dispatch ≡ open_queue waiting
    → create_job time input' runtime.tables ≡ ok (job, tables)
    → ((create validate_input time input runtime).1.tables ≡ tables)
      × ((create validate_input time input runtime).1.dispatch
          ≡ open_queue (waiting ++ job.id ∷ []))
unfolding create
create_queued validate_input time input input' runtime waiting {job} {tables} valid opened h =
    rw (valid, reserve_open runtime waiting opened, h)
      (created_lem job tables runtime waiting opened)
