-- ===== src/Sdk/Executor/Reported.antt =====
-- A run that succeeds reports each operation of its plan, in order.
use mathlib.Core.List.{append_assoc, append-nil}
use fixer.Common.{
  ℕ, suc, ◌≡◌, refl, sym, subst, ◌∙◌, ap, Bool, true, false, Option, none, some, List, [], ◌∷◌,
  ◌++◌, arith,
}
use fixer.Std.Text.{Text}
use fixer.Std.FilePath.{FilePath, show_path}
use fixer.Std.Result.{Result, ok, err}
use fixer.Std.Action.{Action}
use fixer.Std.Action.Ensures.{
  Ensures, Yields, Any, then_ensures, seq_ensures, pure_ensures, fail_ensures, ensures_weaker,
}
use fixer.Std.Fs.{World}
use fixer.Core.Error.{CoreError}
use fixer.Core.Output.{OutputOperation}
use fixer.Core.Scrape.{
  OutputOperationKind, OperationOutcome, OperationReport, OutputFingerprint, new_report, succeeded,
}
use fixer.Core.Scrape.OperationOutcome.{dry_run as dry_run_outcome}
use fixer.Sdk.Report.{ExecutionPolicy, ExecutionError, ExecutionReport, empty_report}
use fixer.Sdk.Targets.{Host, absolute_target, resolved_source}
use fixer.Sdk.Audit.{shown, appended, operation_kind, push_operation_report}
use fixer.Sdk.Preflight.{PreparedOutputPlan}
use fixer.Sdk.Executor.{pushed, run_operation, run_operations, report_operations, run_plan, execute}

-- A report of an operation.
pub record ReportOf (host : Host) (root : FilePath) (outcome : OperationOutcome) (index : ℕ)
    (operation : OutputOperation) (report : OperationReport) : Type 0 where
  pub at_index : report.operation_index ≡ index
  pub of_kind : report.kind ≡ operation_kind operation
  pub from_source : report.source ≡ shown (resolved_source host root operation)
  pub to_destination : report.destination ≡ show_path (absolute_target root operation)
  pub with_outcome : report.outcome ≡ outcome

-- The reports of the operations from an index on.
abbrev pub Reports :
    Host → FilePath → OperationOutcome → ℕ → List OutputOperation → List OperationReport → Type 0
Reports host root outcome index [] [] = Unit {0}
Reports host root outcome index (operation ∷ operations) (report ∷ reports) =
    ReportOf host root outcome index operation report
    × Reports host root outcome (suc index) operations reports
Reports host root outcome index _ _ = ⊥

new_report_fields :
    (index : ℕ) (kind : OutputOperationKind) (source : Option Text) (destination : Text)
    (outcome : OperationOutcome) (fingerprint : Option OutputFingerprint) {report : OperationReport}
    → new_report index kind source destination outcome fingerprint ≡ ok report
    → (report.operation_index ≡ index)
      × (report.kind ≡ kind)
      × (report.source ≡ source)
      × (report.destination ≡ destination)
      × (report.outcome ≡ outcome)
unfolding new_report
new_report_fields index kind none destination outcome fingerprint h = ground arith
new_report_fields index kind (some source) destination outcome fingerprint h = ground arith

-- One report is added.
abbrev Adds :
    Host
    → FilePath
    → OperationOutcome
    → ExecutionReport
    → ℕ
    → OutputOperation
    → ExecutionReport
    → Type 0
Adds host root outcome before index operation after =
    (report : OperationReport) × ReportOf host root outcome index operation report
    × (after.operations ≡ before.operations ++ report ∷ [])

-- The reports of the operations from an index on are added.
abbrev AddsAll :
    Host
    → FilePath
    → OperationOutcome
    → ExecutionReport
    → ℕ
    → List OutputOperation
    → ExecutionReport
    → Type 0
AddsAll host root outcome before index operations after =
    (reports : List OperationReport) × Reports host root outcome index operations reports
    × (after.operations ≡ before.operations ++ reports)

module _ (host : Host) (root : FilePath) (outcome : OperationOutcome) where
  appended_lem :
      (before : ExecutionReport) (index : ℕ) (operation : OutputOperation) {after : ExecutionReport}
      (r : Result CoreError OperationReport)
      → ((report : OperationReport)
          → r ≡ ok report
          → ReportOf host root outcome index operation report)
      → appended before r ≡ ok after
      → Adds host root outcome before index operation after
  appended_lem before index operation (err e) h made = absurd (ground arith)
  appended_lem before index operation (ok report) h made = (report, h report refl, ground arith)

  push_lem :
      (before : ExecutionReport) (index : ℕ) (operation : OutputOperation)
      (fingerprint : Option OutputFingerprint) {after : ExecutionReport}
      → push_operation_report host before root operation index outcome fingerprint ≡ ok after
      → Adds host root outcome before index operation after
  unfolding push_operation_report
  push_lem before index operation fingerprint made =
      appended_lem before index operation
        (new_report index (operation_kind operation) (shown (resolved_source host root operation))
          (show_path (absolute_target root operation)) outcome fingerprint)
        (λ report e.
          let (at, kind, source, destination, result) =
            new_report_fields index (operation_kind operation)
              (shown (resolved_source host root operation))
              (show_path (absolute_target root operation)) outcome fingerprint e in
          record {
            at_index = at;
            of_kind = kind;
            from_source = source;
            to_destination = destination;
            with_outcome = result;
          })
        made

  Adds-then :
      (before middle after : ExecutionReport) (index : ℕ) (operation : OutputOperation)
      (operations : List OutputOperation)
      → Adds host root outcome before index operation middle
      → AddsAll host root outcome middle (suc index) operations after
      → AddsAll host root outcome before index (operation ∷ operations) after
  Adds-then before middle after index operation operations (report, fits, e) (reports, rest, f) = (
    report ∷ reports,
    (fits, rest),
    f
        ∙ ap (λ (l : List OperationReport). l ++ reports) e
        ∙ append_assoc before.operations (report ∷ []) reports,
  )

abbrev Anywhere : World → Type 0
Anywhere world = Unit {0}

module _ (host : Host) (root : FilePath) where
  pushed_exact :
      (report : ExecutionReport) (r : Result ExecutionError ExecutionReport)
      → Ensures Anywhere (pushed report r) (λ after. r ≡ ok after)
  pushed_exact report (ok after) = pure_ensures _ _ refl
  pushed_exact report (err e) = fail_ensures _ _

  report_operations_exact :
      (before : ExecutionReport) (index : ℕ) (operations : List OutputOperation)
      → Ensures Anywhere
          (report_operations host root before index operations)
          (AddsAll host root dry_run_outcome before index operations)
  unfolding report_operations
  report_operations_exact before index [] =
      pure_ensures _ _ ([], tt, sym (append-nil before.operations))
  report_operations_exact before index (operation ∷ operations) =
      then_ensures _ (pushed_exact before _) (λ middle made.
        ensures_weaker _ (report_operations_exact middle (suc index) operations) (λ after rest.
          Adds-then host root dry_run_outcome before middle after index operation operations
            (push_lem host root dry_run_outcome before index operation none made) rest))

  anything : {E A : Type 0} (r : Result E A) → Yields r Any
  anything (ok a) = tt
  anything (err e) = tt

  -- Nothing is known of what an action returns.
  unknown : {E A : Type 0} (m : Action World E A) → Ensures Anywhere m Any
  unknown m = record { run = λ world h. (tt, anything (m world).0) }

  run_operation_exact :
      (policy : ExecutionPolicy) (before : ExecutionReport) (index : ℕ)
      (operation : OutputOperation)
      → Ensures Anywhere
          (run_operation host root policy before index operation)
          (Adds host root succeeded before index operation)
  unfolding run_operation
  run_operation_exact policy before index operation = then_ensures _ (unknown _) (λ safe p.
      seq_ensures _ (unknown _) (
        then_ensures _ (unknown _) (λ done q. then_ensures _ (unknown _) (λ status s.
          then_ensures _ (unknown _) (λ found u. then_ensures _ (unknown _) (λ fingerprint v.
            ensures_weaker _ (pushed_exact before _) (λ after made.
              push_lem host root succeeded before index operation fingerprint made)))))))

  run_operations_exact :
      (policy : ExecutionPolicy) (before : ExecutionReport) (index : ℕ)
      (operations : List OutputOperation)
      → Ensures Anywhere
          (run_operations host root policy before index operations)
          (AddsAll host root succeeded before index operations)
  unfolding run_operations
  run_operations_exact policy before index [] =
      pure_ensures _ _ ([], tt, sym (append-nil before.operations))
  run_operations_exact policy before index (operation ∷ operations) =
      then_ensures _ (run_operation_exact policy before index operation) (λ middle one.
        ensures_weaker _ (run_operations_exact policy middle (suc index) operations) (λ after rest.
          Adds-then host root succeeded before middle after index operation operations one rest))

-- What a run that succeeds has done with each operation.
abbrev pub outcome_of : Bool → OperationOutcome
outcome_of true = dry_run_outcome
outcome_of false = succeeded

AddsAll-to_empty :
    (host : Host) (root : FilePath) (outcome : OperationOutcome) (operations : List OutputOperation)
    (after : ExecutionReport)
    → AddsAll host root outcome empty_report 0 operations after
    → Reports host root outcome 0 operations after.operations
AddsAll-to_empty host root outcome operations after (reports, rest, e) = rw e rest

run_plan_exact :
    (host : Host) (prepared : PreparedOutputPlan) (policy : ExecutionPolicy) (dry : Bool)
    → Ensures Anywhere (run_plan host prepared policy dry) (λ after.
      Reports host prepared.root (outcome_of dry) 0 prepared.plan.operations after.operations)
run_plan_exact host prepared policy true =
    ensures_weaker _
      (report_operations_exact host prepared.root empty_report 0 prepared.plan.operations)
      (AddsAll-to_empty host prepared.root dry_run_outcome prepared.plan.operations)
run_plan_exact host prepared policy false =
    then_ensures _ (unknown host prepared.root _) (λ checked p.
      seq_ensures _ (unknown host prepared.root _) (
        ensures_weaker _
          (run_operations_exact host prepared.root policy empty_report 0 prepared.plan.operations)
          (AddsAll-to_empty host prepared.root succeeded prepared.plan.operations)))

-- Of a result that is known.
known : {E A : Type 0} (Q : A → Type 0) (r : Result E A) {a : A} → Yields r Q → r ≡ ok a → Q a
known Q (ok b) y e = subst Q (ground arith) y
known Q (err x) y e = absurd (ground arith)

-- A run that succeeds has reported every operation of its plan, each once and in the plan's order:
-- its index from zero, its kind, its source and target paths, and as its outcome that it succeeded
-- or, of a dry run, that it was one.
pub execute-Reports :
    (host : Host) (prepared : PreparedOutputPlan) (policy : ExecutionPolicy) (world : World)
    {report : ExecutionReport}
    → (execute host prepared policy world).0 ≡ ok report
    → Reports host prepared.root
        (outcome_of policy.is_dry_run)
        0
        prepared.plan.operations
        report.operations
unfolding execute
execute-Reports host prepared policy world {report} e =
    known
      (λ (after : ExecutionReport).
        Reports host prepared.root (outcome_of policy.is_dry_run) 0 prepared.plan.operations
          after.operations)
      _
      ((seq_ensures Anywhere (unknown host prepared.root _)
          (run_plan_exact host prepared policy policy.is_dry_run)).run
        world tt).1
      e
