-- ===== src/Jobs/Runtime/Requests.antt =====
-- Any requests of crates/fixer-server/src/jobs/mod.rs, one after the other.
use fixer.Common.{ℕ, ◌≡◌, Option, List, [], ◌∷◌, ◌⊎◌, inl, inr, subst, sym}
use fixer.Std.Result.{Result}
use fixer.Jobs.Model.{JobInputDto}
use fixer.Jobs.Store.{Tables}
use fixer.Jobs.Store.Steps.{Step, History, start, next}
use fixer.Jobs.Events.{JobEvent}
use fixer.Jobs.Events.Log.{IsLog}
use fixer.Jobs.Runtime.{JobRuntime, RuntimeError, create, retry, cancel}
use fixer.Jobs.Runtime.Runs.{create_run, event_stream}
use fixer.Jobs.Runtime.RunsServed.{create_run-Serves, event_stream-Serves}
use fixer.Jobs.Runtime.Interleaved.{IsLawful, Serves-Progresses}
use fixer.Std.Text.{Text}
use fixer.Jobs.Runtime.Served.{Serves, create-Serves, retry-Serves, cancel-Serves}

-- A request with the time at which it is served.
pub data Request : Type 0 where
  create_request run_request : Option ℕ → JobInputDto → Request
  retry_request cancel_request : Option ℕ → ℕ → Request
  stream_request : ℕ → Option Text → Request

module _ (validate_input : JobInputDto → Result RuntimeError JobInputDto) where
  abbrev pub serve : Request → JobRuntime → JobRuntime
  serve (create_request time input) runtime = (create validate_input time input runtime).1
  serve (run_request time input) runtime = (create_run validate_input time input runtime).1
  serve (stream_request i cursor) runtime = (event_stream i cursor runtime).1
  serve (retry_request time i) runtime = (retry time i runtime).1
  serve (cancel_request time i) runtime = (cancel time i runtime).1

  abbrev pub serve_all : List Request → JobRuntime → JobRuntime
  serve_all [] runtime = runtime
  serve_all (request ∷ requests) runtime = serve_all requests (serve request runtime)

  serve-Serves : (request : Request) (runtime : JobRuntime) → Serves runtime (serve request runtime)
  serve-Serves (create_request time input) runtime = create-Serves validate_input time input runtime
  serve-Serves (run_request time input) runtime =
      create_run-Serves validate_input time input runtime
  serve-Serves (stream_request i cursor) runtime = event_stream-Serves i cursor runtime
  serve-Serves (retry_request time i) runtime = retry-Serves time i runtime
  serve-Serves (cancel_request time i) runtime = cancel-Serves time i runtime

  -- Every request is a move that the tasks of others may meet.
  pub serve-IsLawful : (request : Request) → IsLawful (serve request)
  serve-IsLawful request runtime = Serves-Progresses (serve-Serves request runtime)

  steps-History : {s t u : Tables} → History s t → (u ≡ t) ⊎ Step t u → History s u
  steps-History {s} h (inl same) = subst (λ z. History s z) (sym same) h
  steps-History h (inr step) = next h step

  requests-History :
      (requests : List Request) (runtime : JobRuntime) (s : Tables) (dropped : List JobEvent)
      → History s runtime.tables
      → IsLog runtime.hub dropped runtime.sent
      → History s (serve_all requests runtime).tables
        × ((dropped' : List JobEvent) × IsLog
              (serve_all requests runtime).hub
              dropped'
              (serve_all requests runtime).sent)
  requests-History [] runtime s dropped h l = (h, (dropped, l))
  requests-History (request ∷ requests) runtime s dropped h l =
      let served = serve-Serves request runtime in
      let (dropped', l') = served.logged dropped l in
      requests-History requests (serve request runtime) s dropped' (steps-History h served.steps) l'

  -- Whatever requests are served, failed ones among them, the tables are reached by a history of
  -- the store's statements, and the retained events stay the end of everything that was sent.
  pub serve_all-History :
      (requests : List Request) (runtime : JobRuntime) (dropped : List JobEvent)
      → IsLog runtime.hub dropped runtime.sent
      → History runtime.tables (serve_all requests runtime).tables
        × ((dropped' : List JobEvent) × IsLog
              (serve_all requests runtime).hub
              dropped'
              (serve_all requests runtime).sent)
  serve_all-History requests runtime dropped l =
      requests-History requests runtime runtime.tables dropped start l
