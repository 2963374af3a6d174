-- ===== src/Jobs/Runtime/Calm.antt =====
-- The errors of a planned execution in jobs/mod.rs, and whether one of them is a panic.
use fixer.Common.{
  ℕ, zero, suc, String, ◌≡◌, refl, Bool, true, false, Option, none, some, ◌==◌, nat_eq, list_eq,
  string_eq, arith, if◌then◌else◌,
}
use fixer.Std.Result.{Result, ok, err, ◌>>=◌, ◌>>◌, ensure, map_err}
use fixer.Std.Action as Actions
use fixer.Std.Action.Fails.{
  ErrorIs, Fails, then-Fails, seq-Fails, pure-Fails, fail-Fails, require-Fails, from_result-Fails,
  attempt-Fails,
}
use fixer.Core.Output.{OutputPlan}
use fixer.Core.Scrape.{ReplacementManifest, from_reports}
use fixer.Jobs.State.{JobState, writing}
use fixer.Jobs.Model.{JobInputDto, ReviewDecisionDto}
use fixer.Jobs.Store.{
  JobRecord, JobUpdate, Tables, StoreError, ExecutionReservation, reserved, existing, transition,
  reserve_execution, get_job,
}
use fixer.Jobs.Events.{JobEvent, JobEventHub, SubscribeError}
use fixer.Jobs.Artifacts.{JobFlowError}
use fixer.Jobs.Runtime.{
  JobRuntime, RuntimeError, stale_plan, conflict_acknowledgement_mismatch, Answer, get, sent_to,
}
use fixer.Jobs.Runtime.Course.{
  Course, Task, Scan, PlanOutcome, look, atomically, next_scan, run_plan, registry_closing,
  flow_is_ready, after_others, time_of, rest_of, stepped,
}
use fixer.Jobs.Runtime.Flow.{of_flow, below, automatic_agrees, reconstruct_plan, check_plan}
use fixer.Jobs.Runtime.Review.{
  written, try_transition, transition_attempts, transition_with_retry, or_again, is_final,
  reconstruct, operations_of, invalid_reports, parent_of, parent_manifest, replacement_manifest,
  finish_execution, run_reserved_execution, if_reserved, run_if_reserved, reservation_answer, given,
  execute_planned, execution_fingerprint,
}
use fixer.Jobs.Runtime.Worker.{is_panic}

abbrev pub IsCalm : RuntimeError → Type 0
IsCalm e = is_panic e ≡ false

-- An answer that is no panic, and a task with such answers only.
abbrev pub Calm : {A : Type 0} → Result RuntimeError A → Type 0
Calm r = ErrorIs IsCalm r

abbrev pub StaysCalm : {A : Type 0} → Task A → Type 0
StaysCalm task = Fails IsCalm task

-- The same, as a record that the rules below are inferred by.
record Tame {A : Type 0} (r : Result RuntimeError A) : Type 0 where
  calm : Calm r

of_flow-Tame : {A : Type 0} (r : Result JobFlowError A) → Tame (of_flow r)
of_flow-Tame (ok a) = record { calm = tt }
of_flow-Tame (err e) = record { calm = refl }

then-Tame :
    {A B : Type 0} {r : Result RuntimeError A} {f : A → Result RuntimeError B}
    → Tame r
    → ((a : A) → Tame (f a))
    → Tame (r >>= f)
then-Tame {A} {r} {f} h k = record { calm = of_result r h.calm }
  where
    of_result : (r : Result RuntimeError A) → Calm r → Calm (r >>= f)
    of_result (ok a) c = (k a).calm
    of_result (err e) c = c

ensure-Tame :
    {B : Type 0} (b : Bool) (e : RuntimeError) {r : Result RuntimeError B}
    → IsCalm e
    → Tame r
    → Tame (ensure b e >> r)
ensure-Tame b e {r} h k = record { calm = of_test b }
  where
    of_test : (b : Bool) → Calm (ensure b e >> r)
    of_test true = k.calm
    of_test false = h

reconstruct_plan-Calm :
    (scan : Scan) (input : JobInputDto) (decision : ReviewDecisionDto) (automatic : Bool)
    → Calm (reconstruct_plan scan input decision automatic)
unfolding reconstruct_plan
reconstruct_plan-Calm scan input decision automatic =
    (then-Tame (of_flow-Tame scan) (λ scanned. then-Tame (of_flow-Tame scanned) (λ search.
      then-Tame (of_flow-Tame search.candidates) (λ candidates.
        then-Tame (of_flow-Tame (search.resolve_selected decision.candidate_index)) (λ resolved.
          then-Tame (of_flow-Tame resolved.conflict_count) (λ conflict_count.
            ensure-Tame
              (automatic_agrees input
                (record resolved.diagnostics {
                  candidates = candidates.0;
                  candidates_truncated = candidates.1;
                })
                conflict_count decision automatic)
              stale_plan refl
              (ensure-Tame (decision.accepted_conflict_indexes == below conflict_count)
                (conflict_acknowledgement_mismatch conflict_count) refl
                (then-Tame (of_flow-Tame resolved.plan) (λ plan.
                  then-Tame (of_flow-Tame (resolved.fingerprint decision plan))
                    (λ fingerprint. record { calm = tt })))))))))).calm

check_plan-Calm :
    (fs_policy : Option (OutputPlan → Bool)) (plan : OutputPlan) → Calm (check_plan fs_policy plan)
check_plan-Calm none plan = tt
check_plan-Calm (some validate_plan) plan = ground arith

pub get-Calm : (id : ℕ) (runtime : JobRuntime) → Calm (get id runtime)
unfolding get
get-Calm id runtime = of_store (get_job id runtime.tables)
  where
    of_store : (r : Result StoreError JobRecord) → Calm (map_err RuntimeError.store r)
    of_store (ok job) = tt
    of_store (err e) = refl

pub given-Calm :
    {A : Type 0} (e : RuntimeError) (value : Option A) → IsCalm e → Calm (given e value)
given-Calm e none h = h
given-Calm e (some a) h = tt

look-Calm :
    {A : Type 0} (question : JobRuntime → Result RuntimeError A)
    → ((runtime : JobRuntime) → Calm (question runtime))
    → StaysCalm (look question)
unfolding look
look-Calm question h = record { error = λ course. h (after_others course).runtime }

stepped-Calm :
    {A : Type 0} (answer : Answer A) (course : Course)
    → Calm answer.0
    → Calm (stepped answer course).0
stepped-Calm (answer, runtime) course h = h

atomically-Calm :
    {A : Type 0} (step : Option ℕ → JobRuntime → Answer A)
    → ((time : Option ℕ) (runtime : JobRuntime) → Calm (step time runtime).0)
    → StaysCalm (atomically step)
unfolding atomically
atomically-Calm step h = record {
  error = λ course.
      let course' = after_others course in
      stepped-Calm (step (time_of course'.times) course'.runtime)
        (record course' { times = rest_of course'.times })
        (h (time_of course'.times) course'.runtime);
}

always : {A : Type 0} (task : Task A) → ((course : Course) → Calm (task course).0) → StaysCalm task
always task h = record { error = h }

reconstruct-Calm :
    (id : ℕ) (input : JobInputDto) (decision : ReviewDecisionDto) (automatic : Bool)
    → StaysCalm (reconstruct id input decision automatic)
unfolding reconstruct flow_is_ready next_scan
reconstruct-Calm id input decision automatic =
    then-Fails IsCalm (always flow_is_ready (λ course. tt)) (λ ready.
      seq-Fails IsCalm (require-Fails IsCalm ready RuntimeError.worker_flow_unavailable refl) (
        then-Fails IsCalm (always next_scan (λ course. tt)) (λ scan.
          from_result-Fails IsCalm (reconstruct_plan scan input decision automatic)
            (reconstruct_plan-Calm scan input decision automatic))))

written-Calm :
    (result : Result StoreError (JobRecord × Tables)) (runtime : JobRuntime)
    → Calm (written result runtime).0
written-Calm (err e) runtime = refl
written-Calm (ok (job, tables)) runtime = tt

try_transition-Calm :
    (id : ℕ) (expected target : JobState) (update : JobUpdate)
    → StaysCalm (try_transition id expected target update)
unfolding try_transition
try_transition-Calm id expected target update = atomically-Calm _ (λ time runtime.
    written-Calm (transition time id expected target update runtime.tables) runtime)

or_again-Calm :
    {again : Task JobRecord} (answer : Result RuntimeError JobRecord)
    → Calm answer
    → StaysCalm again
    → StaysCalm (or_again again answer)
or_again-Calm (ok job) h k = pure-Fails IsCalm job
or_again-Calm {again} (err e) h k = of_test (is_final e)
  where
    of_test : (b : Bool) → StaysCalm (if b then Actions.fail e else again)
    of_test true = fail-Fails IsCalm e h
    of_test false = k

attempts-Calm :
    (left id : ℕ) (expected target : JobState) (update : JobUpdate)
    → StaysCalm (transition_attempts left id expected target update)
unfolding transition_attempts
attempts-Calm zero id expected target update = try_transition-Calm id expected target update
attempts-Calm (suc left) id expected target update =
    attempt-Fails IsCalm (try_transition-Calm id expected target update)
      (λ answer h. or_again-Calm answer h (attempts-Calm left id expected target update))

sent_to-Calm :
    (r : Result SubscribeError (JobEventHub × JobEvent)) (runtime : JobRuntime)
    → Calm (sent_to r runtime).0
sent_to-Calm (err e) runtime = refl
sent_to-Calm (ok (hub, published)) runtime = tt

finish_execution-Calm :
    (id operations : ℕ) (outcome : PlanOutcome) → StaysCalm (finish_execution id operations outcome)
unfolding finish_execution transition_with_retry
finish_execution-Calm id operations outcome =
    then-Fails IsCalm (attempts-Calm 3 id writing _ _) (λ job.
      seq-Fails IsCalm (atomically-Calm _ (λ time runtime. sent_to-Calm _ runtime))
        (pure-Fails IsCalm job))

invalid_reports-Calm : {E A : Type 0} (r : Result E A) → Calm (invalid_reports r)
invalid_reports-Calm (ok a) = tt
invalid_reports-Calm (err e) = refl

operations_of-Calm : (parent : JobRecord) → Calm (operations_of parent)
operations_of-Calm parent = ground arith

parent_manifest-Calm : (id : ℕ) → StaysCalm (parent_manifest id)
unfolding parent_manifest
parent_manifest-Calm id = then-Fails IsCalm (look-Calm (get id) (get-Calm id)) (λ parent.
    then-Fails IsCalm (from_result-Fails IsCalm (operations_of parent) (operations_of-Calm parent))
      (λ operations.
        then-Fails IsCalm
          (from_result-Fails IsCalm (invalid_reports (from_reports operations))
            (invalid_reports-Calm _))
          (λ manifest. pure-Fails IsCalm (some manifest))))

replacement_manifest-Calm : (id : ℕ) → StaysCalm (replacement_manifest id)
unfolding replacement_manifest
replacement_manifest-Calm id =
    then-Fails IsCalm (look-Calm (get id) (get-Calm id)) (λ run. of_parent (parent_of run.input))
  where
    of_parent :
        (parent : Option ℕ)
        → StaysCalm {A = Option ReplacementManifest}
            (elim parent [ none ↦ Actions.pure none | some parent ↦ parent_manifest parent ])
    of_parent none = pure-Fails IsCalm none
    of_parent (some parent) = parent_manifest-Calm parent

reservation_answer-Calm :
    (result : Result StoreError (ExecutionReservation × Tables)) (runtime : JobRuntime)
    → Calm (reservation_answer result runtime).0
reservation_answer-Calm (err e) runtime = refl
reservation_answer-Calm (ok (existing job, tables)) runtime = tt
reservation_answer-Calm (ok (reserved job, tables)) runtime = tt

run_if_reserved-Calm :
    (id : ℕ) (key : String) (plan : OutputPlan) → StaysCalm (run_if_reserved id key plan)
unfolding run_if_reserved run_reserved_execution run_plan
run_if_reserved-Calm id key plan =
    then-Fails IsCalm
      (atomically-Calm _ (λ time runtime.
        reservation_answer-Calm (reserve_execution time id key execution_fingerprint runtime.tables)
          runtime))
      of_reservation
  where
    of_reservation : (answer : ExecutionReservation) → StaysCalm (if_reserved id plan answer)
    of_reservation (existing job) = pure-Fails IsCalm job
    of_reservation (reserved job) = then-Fails IsCalm (replacement_manifest-Calm id) (λ replacing.
        then-Fails IsCalm (always (run_plan id plan replacing) (λ course. tt))
          (finish_execution-Calm id _))

-- An execution of a job that was read while it was planning ends with no panic of its own.
pub execute_planned-Calm :
    (id : ℕ) (key : String) (job : JobRecord) (decision : ReviewDecisionDto)
    → StaysCalm (execute_planned id key job decision)
unfolding execute_planned registry_closing
execute_planned-Calm id key job decision =
    seq-Fails IsCalm (require-Fails IsCalm _ RuntimeError.approval_not_enabled refl) (
      then-Fails IsCalm (reconstruct-Calm id job.input decision _) (λ again.
        then-Fails IsCalm
          (from_result-Fails IsCalm _
            (given-Calm (RuntimeError.execution_conflict job.state) job.plan refl))
          (λ reviewed. seq-Fails IsCalm (require-Fails IsCalm _ stale_plan refl) (
            seq-Fails IsCalm
              (from_result-Fails IsCalm _ (check_plan-Calm again.checks.fs_policy again.plan))
              (then-Fails IsCalm (always registry_closing (λ course. tt)) (λ closing.
                seq-Fails IsCalm (require-Fails IsCalm _ RuntimeError.execution_shutting_down refl)
                  (run_if_reserved-Calm id key again.plan)))))))
