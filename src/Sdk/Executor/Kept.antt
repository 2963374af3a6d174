-- ===== src/Sdk/Executor/Kept.antt =====
-- What a run leaves of the entries that were there.
use fixer.Common.{
  ℕ, suc, ◌≡◌, refl, Bool, true, false, ◌&&◌, ◌||◌, Option, some, List, [], ◌∷◌, arith, ◌==◌,
  list_eq, ==_refl, option_eq,
}
use fixer.Std.Map.{get}
use fixer.Std.FilePath.{FilePath, component_eq}
use fixer.Std.Result.{Result, ok, err}
use fixer.Std.Action.Ensures.{
  Ensures, Any, then_ensures, seq_ensures, pure_ensures, fail_ensures, map_error_ensures,
  attempt_ensures,
}
use fixer.Std.Fs.{World, Entry, Entries}
use fixer.Std.Fs.Kept.{Since}
use fixer.Std.Fs.Quiet.{Quiet-Kept, Same}
use fixer.Core.Output.{
  OutputOperation, create_directory, write_bytes, copy, move, symlink, hardlink, reflink,
}
use fixer.Sdk.Report.{
  OverwritePolicy, no_overwrite, replace, ExecutionPolicy, ExecutionError, ExecutionReport,
  empty_report,
}
use fixer.Sdk.Targets.{
  Host, absolute_target, relative_target, required_source-eq-ok, resolved_source,
}
use fixer.Sdk.Temp.Kept.{Writable}
use fixer.Sdk.Operations.Kept.{ClonesAside, MayMove, execute_operation_Step}
use fixer.Sdk.Audit.{Run, failing}
use fixer.Sdk.Preflight.{PreparedOutputPlan}
use fixer.Sdk.Preflight.Quiet.{
  ensure_safe_ancestors_Quiet, preflight_Quiet, ensure_fresh_Quiet, output_fingerprint_Quiet,
}
use fixer.Sdk.Executor.{
  pushed, or_fail, run_operation, run_operations, report_operations, or_preflight_failure, run_plan,
  execute,
}

-- Whether a run may change a path: the source of a move, and where it replaces the targets.
abbrev moves_from : Option FilePath → OutputOperation → FilePath → Bool
moves_from source (move s t) path = source == some path
moves_from source _ path = false

abbrev pub replaces : OverwritePolicy → Bool
replaces no_overwrite = false
replaces replace = true

unfoldable pub may_change :
    Host → FilePath → OverwritePolicy → List OutputOperation → FilePath → Bool
unfolding resolved_source absolute_target
may_change host root mode [] path = false
may_change host root mode (operation ∷ operations) path =
    (replaces mode && absolute_target root operation == path)
    || (moves_from (resolved_source host root operation) operation path
        || may_change host root mode operations path)

-- The operations of a plan whose paths may change.
abbrev pub Covers :
    Host → FilePath → OverwritePolicy → (FilePath → Bool) → List OutputOperation → Type 0
Covers host root mode changeable [] = Unit {0}
Covers host root mode changeable (operation ∷ operations) =
    MayMove changeable host root operation
    × Writable changeable mode (absolute_target root operation)
    × Covers host root mode changeable operations

moves_from_lem :
    (host : Host) (root : FilePath) (changeable : FilePath → Bool) (operation : OutputOperation)
    → ((path : FilePath)
        → moves_from (resolved_source host root operation) operation path ≡ true
        → changeable path ≡ true)
    → MayMove changeable host root operation
moves_from_lem host root changeable (move s t) h =
    λ path e. h path (rw (required_source-eq-ok host root (move s t) e) (==_refl path))
moves_from_lem host root changeable (create_directory t) h = tt
moves_from_lem host root changeable (write_bytes t content) h = tt
moves_from_lem host root changeable (copy s t) h = tt
moves_from_lem host root changeable (symlink s t) h = tt
moves_from_lem host root changeable (hardlink s t) h = tt
moves_from_lem host root changeable (reflink s t) h = tt

replaces_lem :
    (changeable : FilePath → Bool) (target : FilePath) (mode : OverwritePolicy)
    → ((path : FilePath) → (replaces mode && target == path) ≡ true → changeable path ≡ true)
    → Writable changeable mode target
replaces_lem changeable target no_overwrite h = tt
replaces_lem changeable target replace h = h target (==_refl target)

-- Fewer paths than may change are covered.
Covers-of_may_change :
    (host : Host) (root : FilePath) (mode : OverwritePolicy) (operations : List OutputOperation)
    (changeable : FilePath → Bool)
    → ((path : FilePath)
        → may_change host root mode operations path ≡ true
        → changeable path ≡ true)
    → Covers host root mode changeable operations
unfolding may_change
Covers-of_may_change host root mode [] changeable h = tt
Covers-of_may_change host root mode (operation ∷ operations) changeable h = (
  moves_from_lem host root changeable operation (λ path e. h path (ground arith)),
  replaces_lem changeable (absolute_target root operation) mode (λ path e. h path (ground arith)),
  Covers-of_may_change host root mode operations changeable (λ path e. h path (ground arith)),
)

module _ (I : World → Type 0) (host : Host) (root : FilePath) where
  pub pushed_lem :
      (report : ExecutionReport) (r : Result ExecutionError ExecutionReport)
      → Ensures I (pushed report r) Any
  pushed_lem report (ok report') = pure_ensures _ _ tt
  pushed_lem report (err e) = fail_ensures _ _

  pub report_operations_lem :
      (report : ExecutionReport) (index : ℕ) (operations : List OutputOperation)
      → Ensures I (report_operations host root report index operations) Any
  unfolding report_operations
  report_operations_lem report index [] = pure_ensures _ _ tt
  report_operations_lem report index (operation ∷ operations) =
      then_ensures _ (pushed_lem report _)
        (λ report' p. report_operations_lem report' (suc index) operations)

  pub or_preflight_failure_lem :
      (r : Result (ℕ × OutputOperation × ExecutionError) (Unit {0}))
      → Ensures I (or_preflight_failure host root r) Any
  or_preflight_failure_lem (ok done) = pure_ensures _ _ tt
  or_preflight_failure_lem (err (index, operation, error)) =
      then_ensures _ (pushed_lem empty_report _) (λ report p. fail_ensures _ _)

module _ (start : Entries) (changeable : FilePath → Bool) (host : Host)
    (aside : ClonesAside host) where
  abbrev RunStep : {A : Type 0} → Run A → Type 0
  RunStep m = Ensures (Since start changeable) m Any

  or_fail_Step :
      {A : Type 0} (report : ExecutionReport) (root : FilePath) (operation : OutputOperation)
      (index : ℕ) (r : Result ExecutionError A)
      → RunStep (or_fail host report root operation index r)
  or_fail_Step report root operation index (ok a) = pure_ensures _ _ tt
  or_fail_Step report root operation index (err e) = fail_ensures _ _

  run_operation_Step :
      (root : FilePath) (policy : ExecutionPolicy) (report : ExecutionReport) (index : ℕ)
      (operation : OutputOperation)
      → MayMove changeable host root operation
      → Writable changeable policy.overwrite (absolute_target root operation)
      → RunStep (run_operation host root policy report index operation)
  unfolding run_operation
  run_operation_Step root policy report index operation mine w =
      then_ensures _
        (attempt_ensures _ (
          Quiet-Kept start changeable _
            (λ s. ensure_safe_ancestors_Quiet s root (relative_target operation))))
        (λ safe p. seq_ensures _ (or_fail_Step report root operation index safe) (
          then_ensures _
            (attempt_ensures _
              (execute_operation_Step start changeable host aside operation root policy mine w))
            (λ done q. then_ensures _ (or_fail_Step report root operation index done) (λ status s.
              then_ensures _
                (attempt_ensures _ (
                  Quiet-Kept start changeable _
                    (λ s. output_fingerprint_Quiet s host (absolute_target root operation))))
                (λ found u.
                  then_ensures _ (or_fail_Step report root operation index found)
                    (λ fingerprint v. pushed_lem (Since start changeable) host root report _))))))

  run_operations_Step :
      (root : FilePath) (policy : ExecutionPolicy) (report : ExecutionReport) (index : ℕ)
      (operations : List OutputOperation)
      → Covers host root policy.overwrite changeable operations
      → RunStep (run_operations host root policy report index operations)
  unfolding run_operations
  run_operations_Step root policy report index [] covers = pure_ensures _ _ tt
  run_operations_Step root policy report index (operation ∷ operations) (mine, w, covers) =
      then_ensures _ (run_operation_Step root policy report index operation mine w)
        (λ report' p. run_operations_Step root policy report' (suc index) operations covers)

  run_plan_Step :
      (prepared : PreparedOutputPlan) (policy : ExecutionPolicy) (dry : Bool)
      → Covers host prepared.root policy.overwrite changeable prepared.plan.operations
      → RunStep (run_plan host prepared policy dry)
  run_plan_Step prepared policy true covers =
      report_operations_lem (Since start changeable) host prepared.root empty_report 0
        prepared.plan.operations
  run_plan_Step prepared policy false covers =
      then_ensures _
        (attempt_ensures _ (
          Quiet-Kept start changeable _
            (λ s. preflight_Quiet s host prepared.root policy 0 prepared.plan.operations)))
        (λ checked p.
          seq_ensures _
            (or_preflight_failure_lem (Since start changeable) host prepared.root checked)
            (run_operations_Step prepared.root policy empty_report 0 prepared.plan.operations
              covers))

  pub execute_Step :
      (prepared : PreparedOutputPlan) (policy : ExecutionPolicy)
      → Covers host prepared.root policy.overwrite changeable prepared.plan.operations
      → RunStep (execute host prepared policy)
  unfolding execute
  execute_Step prepared policy covers =
      seq_ensures _
        (map_error_ensures _ _
          (Quiet-Kept start changeable _ (λ s. ensure_fresh_Quiet s prepared.observed)))
        (run_plan_Step prepared policy policy.is_dry_run covers)

-- Whatever the calls of the file system answer, and however far a run gets: an entry that was there
-- is there after it as it was, unless its path is the source of a move of the plan or, where the
-- policy replaces, a target of the plan. What is assumed is that a reflink changes no other path.
pub execute_keeps :
    (host : Host) (prepared : PreparedOutputPlan) (policy : ExecutionPolicy) (world : World)
    (path : FilePath) (entry : Entry)
    → ClonesAside host
    → get path world.entries ≡ some entry
    → may_change host prepared.root policy.overwrite prepared.plan.operations path ≡ false
    → get path (execute host prepared policy world).1.entries ≡ some entry
execute_keeps host prepared policy world path entry aside there unchanging =
    ((execute_Step world.entries
          (may_change host prepared.root policy.overwrite prepared.plan.operations) host aside
          prepared policy
          (Covers-of_may_change host prepared.root policy.overwrite prepared.plan.operations _
            (λ p e. e))).run
        world (λ p e h u. h)).0
      path entry there unchanging

-- A dry run leaves every entry as it is.
pub execute_dry :
    (host : Host) (prepared : PreparedOutputPlan) (policy : ExecutionPolicy) (world : World)
    → policy.is_dry_run ≡ true
    → (execute host prepared policy world).1.entries ≡ world.entries
unfolding execute
execute_dry host prepared policy world dry =
    rw dry
      ((seq_ensures (Same world.entries)
          (map_error_ensures _ (failing empty_report)
            (ensure_fresh_Quiet world.entries prepared.observed))
          (report_operations_lem (Same world.entries) host prepared.root empty_report 0
            prepared.plan.operations)).run
        world refl).0
