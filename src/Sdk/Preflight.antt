-- ===== src/Sdk/Preflight.antt =====
-- crates/fixer-sdk/src/output/executor.rs: what is looked at before a plan is run.
pub mod Quiet
pub mod Ancestors
use fixer.Common.{ℕ, suc, Bool, false, not, Option, none, some, List, [], ◌∷◌, ◌==◌, if◌then◌else◌}
use fixer.Std.Text.{Text}
use fixer.Std.Path.{normal, components}
use fixer.Std.FilePath.{FilePath, join_path, parent_path}
use fixer.Std.Result.{Result, ok, err}
use fixer.Std.Action.{Action, ◌>>=◌, ◌>>◌, pure, fail, require, from_result, map_error, attempt}
use fixer.Std.Fs.{
  World, Entry, IoKind, not_found, symlink_metadata, metadata, is_symlink, is_directory,
}
use fixer.Core.Output.{OutputOperation, create_directory, write_bytes, OutputPlan}
use fixer.Sdk.Report.{
  ExecutionError, unsafe_target, target_exists, stale_plan, ExecutionPolicy, Exec, io_error,
}
use fixer.Sdk.Fingerprint.{PathFingerprint, capture, fingerprint_eq}
use fixer.Sdk.Targets.{
  Host, relative_target, absolute_target, required_source, validate_relative_target,
}
use fixer.Sdk.Temp.{ensure_target_available, ensure_source_file}

pub record ObservedPath : Type 0 where
  pub path : FilePath
  pub fingerprint : PathFingerprint

pub record PreparedOutputPlan : Type 0 where
  pub plan : OutputPlan
  pub root : FilePath
  pub observed : List ObservedPath

abbrev pub ancestor_inspected : FilePath → Result IoKind Entry → Exec (Unit {0}) → Exec (Unit {0})
ancestor_inspected current (ok metadata) rest =
    if is_symlink metadata.node then fail (unsafe_target current) else rest
ancestor_inspected current (err not_found) rest = pure tt
ancestor_inspected current (err kind) rest = fail (io_error "inspect output ancestor" current kind)

-- The components of the target's parent, below `current`.
unfoldable pub inspect_ancestors : FilePath → FilePath → Exec (Unit {0})
unfolding symlink_metadata io_error
inspect_ancestors current [] = pure tt
inspect_ancestors current (normal segment ∷ rest) = do
  let current' = join_path current (normal segment ∷ [])
  found ← attempt (symlink_metadata current')
  ancestor_inspected current' found (inspect_ancestors current' rest)
inspect_ancestors current (_ ∷ rest) = inspect_ancestors current rest

abbrev pub is_link : Result IoKind Entry → Bool
is_link (ok metadata) = is_symlink metadata.node
is_link (err kind) = false

abbrev pub ancestors_of : Option FilePath → FilePath
ancestors_of none = []
ancestors_of (some parent) = parent

unfoldable pub ensure_safe_ancestors : FilePath → Text → Exec (Unit {0})
unfolding validate_relative_target symlink_metadata inspect_ancestors parent_path components
ensure_safe_ancestors root target = do
  from_result (validate_relative_target target)
  found ← attempt (symlink_metadata root)
  require (not (is_link found)) (unsafe_target root)
  inspect_ancestors root (ancestors_of (parent_path (components target)))

abbrev pub directory_available : FilePath → Result IoKind Entry → Exec (Unit {0})
directory_available target (ok metadata) =
    require (is_directory (some metadata)) (target_exists target)
directory_available target (err kind) = pure tt

abbrev pub preflight_source :
    Host → OutputOperation → FilePath → FilePath → ExecutionPolicy → Exec (Unit {0})
preflight_source host operation root target policy = do
  source ← from_result (required_source host root operation)
  ensure_source_file source
  ensure_target_available target policy.overwrite

abbrev pub preflight_operation :
    Host → OutputOperation → FilePath → FilePath → ExecutionPolicy → Exec (Unit {0})
preflight_operation host (create_directory t) root target policy = do
  found ← attempt (symlink_metadata target)
  directory_available target found
preflight_operation host (write_bytes t content) root target policy =
    ensure_target_available target policy.overwrite
preflight_operation host operation root target policy =
    preflight_source host operation root target policy

-- The check of one operation.
unfoldable pub preflight_check :
    Host → OutputOperation → FilePath → ExecutionPolicy → Exec (Unit {0})
unfolding ensure_safe_ancestors absolute_target relative_target symlink_metadata
    ensure_target_available required_source ensure_source_file
preflight_check host operation root policy = do
  ensure_safe_ancestors root (relative_target operation)
  preflight_operation host operation root (absolute_target root operation) policy

-- The operations from `index` on; an error comes with its operation and that operation's index.
unfoldable pub preflight :
    Host
    → FilePath
    → ExecutionPolicy
    → ℕ
    → List OutputOperation
    → Action World (ℕ × OutputOperation × ExecutionError) (Unit {0})
unfolding preflight_check
preflight host root policy index [] = pure tt
preflight host root policy index (operation ∷ operations) = do
  map_error (λ error. (index, operation, error)) (preflight_check host operation root policy)
  preflight host root policy (suc index) operations

unfoldable pub ensure_fresh : List ObservedPath → Exec (Unit {0})
unfolding capture io_error
ensure_fresh [] = pure tt
ensure_fresh (observed ∷ rest) = do
  current ← map_error (io_error "fingerprint" observed.path) (capture observed.path)
  require (current == observed.fingerprint) (stale_plan observed.path)
  ensure_fresh rest
