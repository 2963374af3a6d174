-- ===== src/Jobs/Runtime.antt =====
-- The job runtime in crates/fixer-server/src/jobs/mod.rs: create, cancel, retry, get and list, over the
-- job tables, the event hub and the queue of the workers. The lock `operations` makes a request one
-- step; the child modules have what takes several. The policy on input paths is a parameter, and
-- the configuration that a worker holds for a job is left out.
pub mod Served
pub mod Requests
pub mod Queued
pub mod Cancel
pub mod Course
pub mod Flow
pub mod Review
pub mod Worker
pub mod Interleaved
pub mod Stages
pub mod Rounds
pub mod Worked
pub mod Once
pub mod Outcome
pub mod Approved
pub mod Calm
pub mod Raced
pub mod Left
pub mod Runs
pub mod RunsServed
pub mod Found
pub mod Unattended
use fixer.Common.{
  ℕ, Bool, true, false, not, ◌&&◌, ◌||◌, Option, none, some, List, [], ◌∷◌, ◌++◌, ◌==◌,
  if◌then◌else◌,
}
use fixer.Std.Result.{Result, ok, err, ◌>>=◌, ◌>>◌, map_err}
use fixer.Jobs.State.{
  JobState, queued, writing, cancelled, interrupted, can_transition_to, state_eq,
}
use fixer.Jobs.Model.{JobInputDto, ProgressSummary, new_progress}
use fixer.Jobs.Store.{
  JobRecord, JobUpdate, with_progress, Tables, StoreError, get_job, create_job, list_jobs,
  transition,
}
use fixer.Jobs.Artifacts.{JobFlowError}
use fixer.Jobs.Events.{JobEvent, JobEventHub, SubscribeError, publish_state, publish_progress}

-- `dispatch`: no workers yet, a channel with the ids that wait in it, or one whose workers ended.
pub data Dispatch : Type 0 where
  no_workers closed : Dispatch
  open_queue : List ℕ → Dispatch

-- `sent` is everything that was sent to the event channel.
pub record JobRuntime : Type 0 where
  pub tables : Tables
  pub hub : JobEventHub
  pub sent : List JobEvent
  pub dispatch : Dispatch

-- The path policy's own error is left out. `reached_unreachable` is the panic of `unreachable!`.
pub data RuntimeError : Type 0 where
  store : StoreError → RuntimeError
  event : SubscribeError → RuntimeError
  flow : JobFlowError → RuntimeError
  cancellation_conflict review_conflict artifact_conflict execution_conflict :
      JobState → RuntimeError
  conflict_acknowledgement_mismatch : ℕ → RuntimeError
  filesystem_policy queue_unavailable approval_not_enabled worker_flow_unavailable : RuntimeError
  stale_plan execution_shutting_down reached_unreachable : RuntimeError

-- A request answers and changes the runtime, also where it answers with an error.
abbrev pub Answer : Type 0 → Type 0
Answer A = Result RuntimeError A × JobRuntime

abbrev pub sent_to : Result SubscribeError (JobEventHub × JobEvent) → JobRuntime → Answer (Unit {0})
sent_to (err e) runtime = (err (event e), runtime)
sent_to (ok (hub, published)) runtime =
    (ok tt, record runtime { hub = hub; sent = runtime.sent ++ published ∷ [] })

unfoldable pub publish_created : JobRecord → JobRuntime → Answer (Unit {0})
publish_created job runtime = sent_to (publish_state job.id job.state runtime.hub) runtime

abbrev pub publish_stage : ℕ → Option ProgressSummary → Answer (Unit {0}) → Answer (Unit {0})
publish_stage i progress (err e, runtime) = (err e, runtime)
publish_stage i none (ok done, runtime) = (ok tt, runtime)
publish_stage i (some progress) (ok done, runtime) =
    sent_to (publish_progress i progress runtime.hub) runtime

unfoldable pub publish_transition : JobRecord → JobRuntime → Answer (Unit {0})
publish_transition job runtime =
    publish_stage job.id job.progress (sent_to (publish_state job.id job.state runtime.hub) runtime)

-- Whether a permit was reserved.
unfoldable pub reserve_dispatch : JobRuntime → Result RuntimeError Bool
reserve_dispatch runtime = elim runtime.dispatch [
  | no_workers ↦ ok false
  | closed ↦ err queue_unavailable
  | open_queue waiting ↦ ok true
]

-- With a permit the id goes to the queue; without, the workers may have started since.
abbrev pub dispatch_to : Dispatch → Bool → ℕ → JobRuntime → Answer (Unit {0})
dispatch_to no_workers permit i runtime = (ok tt, runtime)
dispatch_to closed permit i runtime = (if permit then ok tt else err queue_unavailable, runtime)
dispatch_to (open_queue waiting) permit i runtime =
    (ok tt, record runtime { dispatch = open_queue (waiting ++ i ∷ []) })

unfoldable pub dispatch : Bool → ℕ → JobRuntime → Answer (Unit {0})
dispatch permit i runtime = dispatch_to runtime.dispatch permit i runtime

-- `let dispatched = self.dispatch(..); published?; dispatched?; Ok(job)`
abbrev pub finish : Bool → JobRecord → Answer (Unit {0}) → Answer JobRecord
finish permit job (published, runtime) =
    let (dispatched, runtime') = dispatch permit job.id runtime in
    (published >> dispatched >> ok job, runtime')

abbrev pub created : Bool → Result StoreError (JobRecord × Tables) → JobRuntime → Answer JobRecord
created permit (err e) runtime = (err (store e), runtime)
created permit (ok (job, tables)) runtime =
    finish permit job (publish_created job (record runtime { tables = tables }))

abbrev pub create_with :
    Option ℕ
    → Result RuntimeError JobInputDto
    → Result RuntimeError Bool
    → JobRuntime
    → Answer JobRecord
create_with time (err e) permit runtime = (err e, runtime)
create_with time (ok input) (err e) runtime = (err e, runtime)
create_with time (ok input) (ok permit) runtime =
    created permit (create_job time input runtime.tables) runtime

unfoldable pub create :
    (JobInputDto → Result RuntimeError JobInputDto)
    → Option ℕ
    → JobInputDto
    → JobRuntime
    → Answer JobRecord
create validate_input time input runtime =
    create_with time (validate_input input) (reserve_dispatch runtime) runtime

unfoldable pub get : ℕ → JobRuntime → Result RuntimeError JobRecord
get i runtime = map_err store (get_job i runtime.tables)

unfoldable pub list : ℕ → Option JobState → JobRuntime → Result RuntimeError (List JobRecord)
list limit state runtime = map_err store (list_jobs limit state runtime.tables)

abbrev pub retried : Bool → Result StoreError (JobRecord × Tables) → JobRuntime → Answer JobRecord
retried permit (err e) runtime = (err (store e), runtime)
retried permit (ok (job, tables)) runtime =
    finish permit job (publish_transition job (record runtime { tables = tables }))

abbrev pub retry_with : Option ℕ → ℕ → Result RuntimeError Bool → JobRuntime → Answer JobRecord
retry_with time i (err e) runtime = (err e, runtime)
retry_with time i (ok permit) runtime =
    retried permit
      (transition time i interrupted queued (with_progress (new_progress "queued" 0 none))
        runtime.tables)
      runtime

unfoldable pub retry : Option ℕ → ℕ → JobRuntime → Answer JobRecord
retry time i runtime = retry_with time i (reserve_dispatch runtime) runtime

abbrev pub answer_job : JobRecord → Answer (Unit {0}) → Answer JobRecord
answer_job job (published, runtime) = (published >> ok job, runtime)

abbrev pub moved : Result StoreError (JobRecord × Tables) → JobRuntime → Answer JobRecord
moved (err e) runtime = (err (store e), runtime)
moved (ok (job, tables)) runtime =
    answer_job job (publish_transition job (record runtime { tables = tables }))

abbrev pub cancel_job : Option ℕ → ℕ → Result StoreError JobRecord → JobRuntime → Answer JobRecord
cancel_job time i (err e) runtime = (err (store e), runtime)
cancel_job time i (ok job) runtime =
    if job.state == writing || not (can_transition_to job.state cancelled)
    then (err (cancellation_conflict job.state), runtime)
    else moved
        (transition time i job.state cancelled (with_progress (new_progress "cancelled" 0 none))
          runtime.tables)
        runtime

unfoldable pub cancel : Option ℕ → ℕ → JobRuntime → Answer JobRecord
cancel time i runtime = cancel_job time i (get_job i runtime.tables) runtime
