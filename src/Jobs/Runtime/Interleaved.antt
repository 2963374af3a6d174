-- ===== src/Jobs/Runtime/Interleaved.antt =====
-- What every task of the runtime keeps, whatever others do between its steps.
use fixer.Common.{String, ℕ, ◌≡◌, refl, sym, subst, Bool, Option, List, [], ◌∷◌, All, inl, inr, ◌⊎◌}
use fixer.Std.Result.{Result, ok, err}
use fixer.Std.Action.Ensures.{Ensures, Any, Yields}
use fixer.Core.Scrape.{ReplacementManifest}
use fixer.Core.Output.{OutputPlan}
use fixer.Jobs.State.{JobState}
use fixer.Jobs.Store.{
  Tables, StoreError, JobRecord, JobUpdate, ExecutionReservation, transition, reserve_execution,
  reserved, existing,
}
use fixer.Jobs.Store.Steps.{Step, History, start, next}
use fixer.Jobs.Events.{EventData, publish}
use fixer.Jobs.Runtime.{JobRuntime, RuntimeError, Answer, moved, sent_to, publish_transition}
use fixer.Jobs.Runtime.Served.{
  Serves, Keeps, KeepsLog, Result-cases, Serves-step, publish_transition-Keeps, sent_to-Keeps,
  transition-Serves,
}
use fixer.Jobs.Runtime.Course.{
  Course, Scan, look, atomically, next_scan, run_plan, shutdown_requested, registry_closing,
  flow_is_ready, after_others, moved_by, stepped, time_of, rest_of,
}
use fixer.Jobs.Runtime.Review.{written, existing_only, reservation_answer}

-- Any statements and events, one after the other.
pub record Progresses (before after : JobRuntime) : Type 0 where
  pub history : History before.tables after.tables
  pub logged : KeepsLog before after

History-join : {s t u : Tables} → History s t → History t u → History s u
History-join h start = h
History-join h (next k step) = next (History-join h k) step

pub Progresses-same : (a : JobRuntime) → Progresses a a
Progresses-same a = record { history = start; logged = λ dropped l. (dropped, l) }

pub Progresses-then : {a b c : JobRuntime} → Progresses a b → Progresses b c → Progresses a c
Progresses-then h k = record {
  history = History-join h.history k.history;
  logged = λ dropped l. let (dropped', l') = h.logged dropped l in k.logged dropped' l';
}

progressed : {s t : Tables} → (t ≡ s) ⊎ Step s t → History s t
progressed {s} (inl same) = subst (λ z. History s z) (sym same) start
progressed (inr step) = next start step

pub Serves-Progresses : {a b : JobRuntime} → Serves a b → Progresses a b
Serves-Progresses h = record { history = progressed h.steps; logged = h.logged }

-- A move of others that is made of statements and events.
abbrev pub IsLawful : (JobRuntime → JobRuntime) → Type 0
IsLawful move = (runtime : JobRuntime) → Progresses runtime (move runtime)

-- What has happened since `from`; what others will do is lawful.
pub record Since (from course : Course) : Type 0 where
  pub progress : Progresses from.runtime course.runtime
  pub lawful : All IsLawful course.moves

pub Since-same : (course : Course) → All IsLawful course.moves → Since course course
Since-same course lawful = record { progress = Progresses-same course.runtime; lawful = lawful }

-- What every step of a task keeps, but for the run of a plan.
pub record IsKept (I : Course → Type 0) : Type 1 where
  pub looks :
      {A : Type 0} (question : JobRuntime → Result RuntimeError A) → Ensures I (look question) Any
  pub steps :
      {A : Type 0} (step : Option ℕ → JobRuntime → Answer A)
      → ((time : Option ℕ) (runtime : JobRuntime) → Progresses runtime (step time runtime).1)
      → Ensures I (atomically step) Any
  pub scans : Ensures I next_scan Any
  pub stops : Ensures I shutdown_requested Any
  pub closes : Ensures I registry_closing Any
  pub ready : Ensures I flow_is_ready Any

pub yields_any : {E A : Type 0} (r : Result E A) → Yields r Any
yields_any (ok a) = tt
yields_any (err e) = tt

-- A course with another runtime, other moves to come, and other times, scans and stops.
abbrev pub later :
    Course
    → JobRuntime
    → List (JobRuntime → JobRuntime)
    → List (Option ℕ)
    → List Scan
    → List Bool
    → Course
later course runtime moves times scans stops = record course {
  runtime = runtime;
  moves = moves;
  times = times;
  scans = scans;
  stops = stops;
}

-- A predicate is kept by the steps if it is kept by lawful progress.
module _ (I : Course → Type 0)
    (lawful_of : (course : Course) → I course → All IsLawful course.moves)
    (carry : (course : Course) (runtime : JobRuntime) (moves : List (JobRuntime → JobRuntime))
        (times : List (Option ℕ)) (scans : List Scan) (stops : List Bool)
      → I course
      → Progresses course.runtime runtime
      → All IsLawful moves
      → I (later course runtime moves times scans stops)) where
  moved_by-kept :
      (course : Course) (moves : List (JobRuntime → JobRuntime))
      → All IsLawful moves
      → I course
      → I (moved_by moves course)
  moved_by-kept course [] lawful h = h
  moved_by-kept course (move ∷ moves) (first', rest) h =
      carry course (move course.runtime) moves course.times course.scans course.stops h
        (first' course.runtime) rest

  after_others-kept : (course : Course) → I course → I (after_others course)
  after_others-kept course h = moved_by-kept course course.moves (lawful_of course h) h

  stepped-kept :
      {A : Type 0} (answer : Answer A) (course : Course) (times : List (Option ℕ))
      → I course
      → Progresses course.runtime answer.1
      → I (stepped answer (record course { times = times })).1
        × Yields (stepped answer (record course { times = times })).0 Any
  stepped-kept (answer, runtime) course times h k = (
    carry course runtime course.moves times course.scans course.stops h k (lawful_of course h),
    yields_any answer,
  )

  pub kept_by_progress : IsKept I
  unfolding look atomically next_scan shutdown_requested registry_closing flow_is_ready
  kept_by_progress = record {
    looks = λ question. record {
      run = λ course h.
          (after_others-kept course h, yields_any (question (after_others course).runtime));
    };
    steps = λ step progress. record {
      run = λ course h.
          let course' = after_others course in
          stepped-kept (step (time_of course'.times) course'.runtime) course'
            (rest_of course'.times) (after_others-kept course h)
            (progress (time_of course'.times) course'.runtime);
    };
    scans = record {
      run = λ course h. (
        carry course course.runtime course.moves course.times (rest_of course.scans) course.stops h
            (Progresses-same course.runtime) (lawful_of course h),
        tt,
      );
    };
    stops = record {
      run = λ course h. (
        carry course course.runtime course.moves course.times course.scans (rest_of course.stops) h
            (Progresses-same course.runtime) (lawful_of course h),
        tt,
      );
    };
    closes = record { run = λ course h. (h, tt) };
    ready = record { run = λ course h. (h, tt) };
  }

pub Since-kept : (from : Course) → IsKept (Since from)
Since-kept from =
    kept_by_progress (Since from) (λ course h. h.lawful)
      (λ course runtime moves times scans stops h k lawful. record {
        progress = Progresses-then h.progress k;
        lawful = lawful;
      })

pub run_plan-Since :
    (from : Course) (id : ℕ) (plan : OutputPlan) (replacing : Option ReplacementManifest)
    → Ensures (Since from) (run_plan id plan replacing) Any
unfolding run_plan
run_plan-Since from id plan replacing = record {
  run = λ course h. (record { progress = h.progress; lawful = h.lawful }, tt);
}

Keeps-Progresses : {a b : JobRuntime} → Keeps a b → Progresses a b
Keeps-Progresses {a} h = record {
  history = subst (λ t. History a.tables t) (sym h.0) start;
  logged = h.1;
}

pub sent_to-Progresses :
    (i : ℕ) (body : EventData) (runtime : JobRuntime)
    → Progresses runtime (sent_to (publish i body runtime.hub) runtime).1
sent_to-Progresses i body runtime = Keeps-Progresses (sent_to-Keeps i body runtime)

pub moved-Progresses :
    (time : Option ℕ) (i : ℕ) (expected target : JobState) (update : JobUpdate)
    (runtime : JobRuntime)
    → Progresses runtime (moved (transition time i expected target update runtime.tables) runtime).1
moved-Progresses time i expected target update runtime =
    Serves-Progresses (transition-Serves time i expected target update runtime)

-- A statement, and the events of the job that it gives.
pub published-Progresses :
    (runtime : JobRuntime) (tables : Tables) (job : JobRecord)
    → Step runtime.tables tables
    → Progresses runtime (publish_transition job (record runtime { tables = tables })).1
published-Progresses runtime tables job step = Serves-Progresses (
    Serves-step runtime (publish_transition job (record runtime { tables = tables })).1 tables step
      (publish_transition-Keeps job (record runtime { tables = tables })))

pub only_tables :
    (runtime : JobRuntime) (tables : Tables)
    → Step runtime.tables tables
    → Progresses runtime (record runtime { tables = tables })
only_tables runtime tables step = record {
  history = next start step;
  logged = λ dropped l. (dropped, l);
}

pub written-Progresses :
    (time : Option ℕ) (i : ℕ) (expected target : JobState) (update : JobUpdate)
    (runtime : JobRuntime)
    → Progresses runtime
        (written (transition time i expected target update runtime.tables) runtime).1
written-Progresses time i expected target update runtime =
    elim (Result-cases (transition time i expected target update runtime.tables)) [
      | inl failed ↦ rw failed.1 (Progresses-same runtime)
      | inr done ↦
          let ((job, tables), e) = done in
          rw e (
            published-Progresses runtime tables job (Step.move time i expected target update job e))
    ]

existing_result :
    (time : Option ℕ) (i : ℕ) (key fingerprint : String) (runtime : JobRuntime)
    (result : Result StoreError (ExecutionReservation × Tables))
    → reserve_execution time i key fingerprint runtime.tables ≡ result
    → Progresses runtime (existing_only result runtime).1
existing_result time i key fingerprint runtime (err e) h = Progresses-same runtime
existing_result time i key fingerprint runtime (ok (existing job, tables)) h =
    only_tables runtime tables (Step.reserve time i key fingerprint (existing job) h)
existing_result time i key fingerprint runtime (ok (reserved job, tables)) h =
    only_tables runtime tables (Step.reserve time i key fingerprint (reserved job) h)

pub existing_only-Progresses :
    (time : Option ℕ) (i : ℕ) (key fingerprint : String) (runtime : JobRuntime)
    → Progresses runtime
        (existing_only (reserve_execution time i key fingerprint runtime.tables) runtime).1
existing_only-Progresses time i key fingerprint runtime =
    existing_result time i key fingerprint runtime
      (reserve_execution time i key fingerprint runtime.tables) refl

reservation_result :
    (time : Option ℕ) (i : ℕ) (key fingerprint : String) (runtime : JobRuntime)
    (result : Result StoreError (ExecutionReservation × Tables))
    → reserve_execution time i key fingerprint runtime.tables ≡ result
    → Progresses runtime (reservation_answer result runtime).1
reservation_result time i key fingerprint runtime (err e) h = Progresses-same runtime
reservation_result time i key fingerprint runtime (ok (existing job, tables)) h =
    only_tables runtime tables (Step.reserve time i key fingerprint (existing job) h)
reservation_result time i key fingerprint runtime (ok (reserved job, tables)) h =
    published-Progresses runtime tables job (Step.reserve time i key fingerprint (reserved job) h)

pub reservation_answer-Progresses :
    (time : Option ℕ) (i : ℕ) (key fingerprint : String) (runtime : JobRuntime)
    → Progresses runtime
        (reservation_answer (reserve_execution time i key fingerprint runtime.tables) runtime).1
reservation_answer-Progresses time i key fingerprint runtime =
    reservation_result time i key fingerprint runtime
      (reserve_execution time i key fingerprint runtime.tables) refl
