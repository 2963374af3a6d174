-- ===== src/Tests/Runtime.antt =====
-- Requests to the job runtime of crates/fixer-server, and instances of the theorems of
-- Jobs/Runtime.
use fixer.Common.{◌≡◌, refl, Bool, false, none, some, List, [], ◌∷◌, arith}
use fixer.Std.Text.{text}
use fixer.Std.Result.{Result, ok, err}
use fixer.Jobs.State.{cancelled, can_transition_to, is_terminal}
use fixer.Jobs.Model.{JobInputDto, JobMediaKind, new_input}
use fixer.Jobs.Store.{
  JobRecord, Tables, create_job, timestamp_ms, list_jobs, get_job, find_job, set_job, transition,
}
use fixer.Jobs.Events.{publish, publish_state, publish_progress, new_hub, trim}
use fixer.Jobs.Events.Log.{IsLog, new_hub-IsLog}
use fixer.Jobs.Runtime.{
  JobRuntime, RuntimeError, open_queue, create, cancel, publish_created, publish_transition,
  reserve_dispatch, dispatch,
}
use fixer.Jobs.Runtime.Requests.{Request, create_request, cancel_request, retry_request}
use fixer.Jobs.Runtime.Runs.{create_run}
use fixer.Jobs.Runtime.Found.{create_run_again}
use fixer.Jobs.Store.Growth.{empty-IsValid}

abbrev runtime : JobRuntime
runtime = record {
  tables = record { jobs = []; executions = []; last_id = 0 };
  hub = record { capacity = 8; epoch = text "e1"; next_sequence = 0; retained = [] };
  sent = [];
  dispatch = open_queue [];
}

abbrev input : JobInputDto
input = new_input JobMediaKind.movie "/in" false

abbrev accept : JobInputDto → Result RuntimeError JobInputDto
accept value = ok value

abbrev requests : List Request
requests =
    create_request (some 10) input
    ∷ cancel_request (some 11) 1
    ∷ retry_request (some 12) 1
    ∷ create_request none input
    ∷ []

runtime-IsLog : IsLog runtime.hub [] runtime.sent
unfolding new_hub
runtime-IsLog = new_hub-IsLog 8 (text "e1") (omega arith)

abbrev no_job : JobRecord
no_job = record {
  id = 0;
  input = input;
  state = cancelled;
  progress = none;
  review = none;
  review_decision = none;
  plan = none;
  execution = none;
  created_at_ms = 0;
  updated_at_ms = 0;
}

abbrev job_of : {E : Type 0} → Result E JobRecord → JobRecord
job_of (ok job) = job
job_of (err e) = no_job

abbrev row_of : {E : Type 0} → Result E (JobRecord × Tables) → JobRecord × Tables
row_of (ok row) = row
row_of (err e) = (no_job, runtime.tables)

first_row : JobRecord × Tables
unfolding create_job timestamp_ms get_job find_job
first_row = row_of (create_job (some 10) input runtime.tables)

creates : create_job (some 10) input runtime.tables ≡ ok (first_row.0, first_row.1)
unfolding first_row
creates = refl

after_create : JobRuntime
unfolding create create_job timestamp_ms get_job find_job publish_created publish_state publish trim
    reserve_dispatch dispatch
after_create = (create accept (some 10) input runtime).1

answer : Result RuntimeError JobRecord × JobRuntime
unfolding after_create cancel transition timestamp_ms get_job find_job set_job can_transition_to
    publish_transition publish_state publish_progress publish trim
answer = cancel (some 11) 1 after_create

cancels : cancel (some 11) 1 after_create ≡ (ok (job_of answer.0), answer.1)
unfolding answer
cancels = refl

first_run : Result RuntimeError (JobRecord × Bool) × JobRuntime
unfolding create_run create_job timestamp_ms get_job find_job list_jobs is_terminal publish_created
    publish_state publish trim reserve_dispatch dispatch
first_run = create_run accept (some 10) input runtime

abbrev run_of : Result RuntimeError (JobRecord × Bool) → JobRecord × Bool
run_of (ok run) = run
run_of (err e) = (no_job, false)

runs : create_run accept (some 10) input runtime ≡ (ok (run_of first_run.0), first_run.1)
unfolding first_run
runs = refl

create_run_again_example :
    create_run accept none input first_run.1 ≡ (ok ((run_of first_run.0).0, false), first_run.1)
create_run_again_example = create_run_again accept (some 10) none input runtime empty-IsValid runs
