-- ===== src/Sdk/Prepare.antt =====
-- crates/fixer-sdk/src/output/executor.rs: a plan is prepared by looking at its paths.
pub mod Ancestor
use fixer.Common.{
  ℕ, zero, suc, Option, none, some, List, [], ◌∷◌, list_eq, if◌then◌else◌, is_empty, map,
}
use fixer.Std.Map.{Map, put}
use fixer.Std.Text.{Text}
use fixer.Std.Path.{Component, normal, components}
use fixer.Std.FilePath.{FilePath, component_eq, join_path, is_absolute_path, last_component, pop}
use fixer.Std.Result.{Result, ok, err}
use fixer.Std.Action.{◌>>=◌, ◌>>◌, pure, fail, from_result, map_error, attempt}
use fixer.Std.Fs.{IoKind, not_found, canonicalize}
use fixer.Core.Scrape.{ReplacementManifest}
use fixer.Core.Output.{OutputOperation, OutputPlan}
use fixer.Sdk.Report.{
  ExecutionError, unsafe_target, ExecutionPolicy, ExecutionReport, empty_report, Exec, io_error,
}
use fixer.Sdk.Fingerprint.{PathFingerprint, capture}
use fixer.Sdk.Targets.{
  Host, relative_target, absolute_target, resolved_source, validate_relative_target,
  validate_operation,
}
use fixer.Sdk.Audit.{Run, failing}
use fixer.Sdk.Preflight.{ObservedPath, PreparedOutputPlan, ensure_safe_ancestors}
use fixer.Sdk.Executor

-- The search goes on without the path's name, if it has one, which is kept in `missing`.
abbrev pub without_name :
    FilePath → Option Component → FilePath → (FilePath → Exec FilePath) → Exec FilePath
without_name path (some (normal segment)) missing search = search (normal segment ∷ missing)
without_name path _ missing search = fail (io_error "canonicalize output root" path not_found)

-- What a path is by its real path, with `missing` behind it.
abbrev pub ancestor_found :
    FilePath → FilePath → Exec FilePath → Result IoKind FilePath → Exec FilePath
ancestor_found path missing next (ok canonical) = pure (join_path canonical missing)
ancestor_found path missing next (err not_found) = next
ancestor_found path missing next (err kind) = fail (io_error "canonicalize output root" path kind)

-- The loop, with the rounds that are left: every round shortens the path.
unfoldable pub existing_ancestor : ℕ → FilePath → FilePath → FilePath → Exec FilePath
unfolding canonicalize io_error last_component pop
existing_ancestor zero path existing missing =
    fail (io_error "canonicalize output root" path not_found)
existing_ancestor (suc fuel) path existing missing = do
  found ← attempt {E = IoKind} (canonicalize existing)
  ancestor_found path missing
      (without_name path (last_component existing) missing
        (existing_ancestor fuel path (pop existing)))
      found

abbrev pub rounds : FilePath → ℕ
rounds [] = 1
rounds (c ∷ path) = suc (rounds path)

unfoldable pub canonicalize_existing_ancestor : FilePath → Exec FilePath
unfolding existing_ancestor
canonicalize_existing_ancestor path = existing_ancestor (rounds path) path path []

abbrev pub absolute_from : FilePath → Result IoKind FilePath → Result ExecutionError FilePath
absolute_from path (ok directory) = ok (join_path directory path)
absolute_from path (err kind) = err (io_error "resolve path" path kind)

unfoldable pub absolute_path : Host → Text → Exec FilePath
unfolding canonicalize_existing_ancestor components io_error
absolute_path host path = if is_empty path then fail (unsafe_target []) else (do
  absolute ← from_result (
      if is_absolute_path (components path)
      then ok (components path)
      else absolute_from (components path) host.current_dir)
  canonicalize_existing_ancestor absolute)

unfoldable pub validate_operations : List OutputOperation → Result ExecutionError (Unit {0})
unfolding validate_operation
validate_operations [] = ok tt
validate_operations (operation ∷ operations) = elim (validate_operation operation) [
  | err e ↦ err e
  | ok done ↦ validate_operations operations
]

-- `paths`, a BTreeMap.
abbrev pub Observations : Type 0
Observations = Map FilePath PathFingerprint

unfoldable pub observe : FilePath → Observations → Exec Observations
unfolding capture io_error
observe path paths = do
  fingerprint ← map_error (io_error "fingerprint" path) (capture path)
  pure (put path fingerprint paths)

abbrev pub observe_source : Option FilePath → Observations → Exec Observations
observe_source none paths = pure paths
observe_source (some source) paths = observe source paths

-- One round of the loop.
unfoldable pub observe_operation :
    Host → FilePath → OutputOperation → Observations → Exec Observations
unfolding observe relative_target absolute_target validate_relative_target ensure_safe_ancestors
    resolved_source
observe_operation host root operation paths = do
  from_result (validate_relative_target (relative_target operation))
  ensure_safe_ancestors root (relative_target operation)
  with_target ← observe (absolute_target root operation) paths
  observe_source (resolved_source host root operation) with_target

unfoldable pub observe_operations :
    Host → FilePath → List OutputOperation → Observations → Exec Observations
unfolding observe_operation
observe_operations host root [] paths = pure paths
observe_operations host root (operation ∷ operations) paths = do
  paths' ← observe_operation host root operation paths
  observe_operations host root operations paths'

abbrev pub observed_path : FilePath × PathFingerprint → ObservedPath
observed_path (path, fingerprint) = record { path = path; fingerprint = fingerprint }

unfoldable pub prepare : Host → OutputPlan → Exec PreparedOutputPlan
unfolding validate_operations absolute_path observe_operations
prepare host plan = do
  from_result (validate_operations plan.operations)
  root ← absolute_path host plan.output_root
  paths ← observe_operations host root plan.operations []
  pure (record { plan = plan; root = root; observed = map observed_path paths })

unfoldable pub preview_plan : Host → OutputPlan → Exec OutputPlan
unfolding prepare
preview_plan host plan = do _ ← prepare host plan; pure plan

-- `OutputPlanExt::execute`
unfoldable pub execute_plan : Host → OutputPlan → ExecutionPolicy → Run ExecutionReport
unfolding prepare Executor.execute
execute_plan host plan policy = do
  prepared ← map_error (failing empty_report) (prepare host plan)
  Executor.execute host prepared policy

-- `OutputPlanExt::execute_replacing`
unfoldable pub execute_plan_replacing :
    Host → OutputPlan → ReplacementManifest → Run ExecutionReport
unfolding prepare Executor.execute_replacing
execute_plan_replacing host plan manifest = do
  prepared ← map_error (failing empty_report) (prepare host plan)
  Executor.execute_replacing host prepared manifest
