-- ===== src/Server/FsPolicy.antt =====
-- crates/fixer-server/src/fs_policy.rs: the roots below which the server may read and write, over
-- the file system of Std/Fs. The process's directory is a parameter.
pub mod Allowed
pub mod Ancestor
pub mod Pair
use fixer.Common.{
  ℕ, zero, suc, ◌≡◌, Bool, true, false, not, ◌&&◌, ◌||◌, Option, none, some, List, [], ◌∷◌, any,
  is_empty, ◌==◌, list_eq, if◌then◌else◌,
}
use fixer.Std.Text.{Text}
use fixer.Std.Sort.{sort_by}
use fixer.Std.Path.{Component, is_absolute, components}
use fixer.Std.FilePath.{
  FilePath, component_eq, join_path, parent_path, is_absolute_path, starts_with, path_gt,
}
use fixer.Std.Result.{Result, ok, err}
use fixer.Std.Action.{Action, ◌>>=◌, ◌>>◌, pure, fail, require, from_result, map_error, attempt}
use fixer.Std.Fs.{
  World, Entry, Io, IoKind, not_found, inspect_path, metadata, canonicalize, is_directory,
}
use fixer.Core.Output.{
  OutputOperation, OutputPlan, create_directory, write_bytes, copy, move, symlink, hardlink,
  reflink, source_of, target_of,
}

-- `roots` are canonical.
pub record FsPolicy : Type 0 where
  pub roots : List FilePath

pub data FsPolicyError : Type 0 where
  no_roots overlapping_directories : FsPolicyError
  root_not_directory no_existing_ancestor destructive_source_not_absolute path_not_directory
        outside_allowed_roots :
      FilePath → FsPolicyError
  current_directory : IoKind → FsPolicyError
  inspect canonicalize_failed : FilePath → IoKind → FsPolicyError

abbrev pub Check : Type 0 → Type 0
Check A = Action World FsPolicyError A

-- Path::is_dir
abbrev pub is_dir_metadata : Result IoKind Entry → Bool
is_dir_metadata (ok entry) = is_directory (some entry)
is_dir_metadata (err kind) = false

unfoldable pub is_dir : FilePath → Check Bool
unfolding metadata
is_dir path = do found ← attempt (metadata path); pure (is_dir_metadata found)

unfoldable pub canonical_of : FilePath → FilePath → Check FilePath
unfolding canonicalize
canonical_of requested path = map_error (canonicalize_failed requested) (canonicalize path)

unfoldable pub canonical_directory : FilePath → Check FilePath
unfolding canonical_of is_dir
canonical_directory path = do
  canonical ← canonical_of path path
  directory ← is_dir canonical
  require directory (root_not_directory path)
  pure canonical

unfoldable pub canonical_directories : List FilePath → Check (List FilePath)
unfolding canonical_directory
canonical_directories [] = pure []
canonical_directories (root ∷ roots) = do
  canonical ← canonical_directory root
  rest ← canonical_directories roots
  pure (canonical ∷ rest)

-- Vec::dedup
unfoldable pub dedup : List FilePath → List FilePath
dedup [] = []
dedup (a ∷ []) = a ∷ []
dedup (a ∷ b ∷ rest) = let kept = dedup (b ∷ rest) in if a == b then kept else a ∷ kept

unfoldable pub new_policy : List FilePath → Check FsPolicy
unfolding canonical_directories sort_by dedup
new_policy roots = do
  canonical ← canonical_directories roots
  let distinct = dedup (sort_by path_gt canonical)
  require (not (is_empty distinct)) no_roots
  pure (record { roots = distinct })

abbrev pub within : FsPolicy → FilePath → Bool
within policy path = any (λ root. starts_with path root) policy.roots

unfoldable pub require_allowed : FsPolicy → FilePath → FilePath → Check (Unit {0})
require_allowed policy requested canonical =
    require (within policy canonical) (outside_allowed_roots requested)

unfoldable pub validate_read : FsPolicy → FilePath → Check FilePath
unfolding canonical_of require_allowed
validate_read policy path = do
  canonical ← canonical_of path path
  require_allowed policy path canonical
  pure canonical

unfoldable pub validate_directory : FsPolicy → FilePath → Check FilePath
unfolding validate_read is_dir
validate_directory policy path = do
  canonical ← validate_read policy path
  directory ← is_dir canonical
  require directory (path_not_directory path)
  pure canonical

unfoldable pub validate_directory_pair :
    FsPolicy → FilePath → FilePath → Check (FilePath × FilePath)
unfolding validate_directory
validate_directory_pair policy source destination = do
  source' ← validate_directory policy source
  destination' ← validate_directory policy destination
  require (not (starts_with source' destination' || starts_with destination' source'))
      overlapping_directories
  pure (source', destination')

abbrev pub from_current : FilePath → Result IoKind FilePath → Result FsPolicyError FilePath
from_current path (ok current) = ok (join_path current path)
from_current path (err kind) = err (current_directory kind)

unfoldable pub absolute : Result IoKind FilePath → FilePath → Result FsPolicyError FilePath
absolute current path = if is_absolute_path path then ok path else from_current path current

-- The search goes on from the parent, if there is one.
abbrev pub to_parent : FilePath → Option FilePath → (FilePath → Check FilePath) → Check FilePath
to_parent path none search = fail (no_existing_ancestor path)
to_parent path (some parent) search = search parent

abbrev pub ancestor_inspected : FilePath → Result IoKind Entry → Check FilePath → Check FilePath
ancestor_inspected candidate (ok metadata) next = pure candidate
ancestor_inspected candidate (err not_found) next = next
ancestor_inspected candidate (err kind) next = fail (inspect candidate kind)

-- The loop, with the rounds that are left.
unfoldable pub existing_from : ℕ → FilePath → FilePath → Check FilePath
unfolding inspect_path parent_path
existing_from zero path candidate = fail (no_existing_ancestor path)
existing_from (suc rounds) path candidate = do
  found ← attempt (inspect_path candidate)
  ancestor_inspected candidate found
      (to_parent path (parent_path candidate) (existing_from rounds path))

abbrev pub rounds_of : FilePath → ℕ
rounds_of [] = 1
rounds_of (c ∷ path) = suc (rounds_of path)

unfoldable pub nearest_existing_ancestor : FilePath → Check FilePath
unfolding existing_from
nearest_existing_ancestor path = existing_from (rounds_of path) path path

unfoldable pub validate_write : FsPolicy → Result IoKind FilePath → FilePath → Check FilePath
unfolding absolute nearest_existing_ancestor canonical_of require_allowed
validate_write policy current requested = do
  path ← from_result (absolute current requested)
  ancestor ← nearest_existing_ancestor path
  canonical ← canonical_of ancestor ancestor
  require_allowed policy path canonical
  pure path

abbrev pub parent_or_fail : FilePath → Option FilePath → Result FsPolicyError FilePath
parent_or_fail source none = err (no_existing_ancestor source)
parent_or_fail source (some parent) = ok parent

unfoldable pub validate_destructive_source : FsPolicy → FilePath → Check FilePath
unfolding parent_path nearest_existing_ancestor canonical_of require_allowed validate_read
validate_destructive_source policy source = do
  require (is_absolute_path source) (destructive_source_not_absolute source)
  parent ← from_result (parent_or_fail source (parent_path source))
  require (within policy parent) (outside_allowed_roots source)
  ancestor ← nearest_existing_ancestor parent
  canonical_parent ← canonical_of ancestor ancestor
  require_allowed policy source canonical_parent
  validate_read policy source

abbrev pub parent_or : FilePath → Option FilePath → FilePath
parent_or root none = root
parent_or root (some parent) = parent

abbrev pub is_symlink_operation : OutputOperation → Bool
is_symlink_operation (symlink source target) = true
is_symlink_operation _ = false

unfoldable pub resolve_source : OutputOperation → FilePath → FilePath → FilePath
unfolding target_of components parent_path
resolve_source operation root source =
    if is_absolute_path source
    then source
    else if is_symlink_operation operation
    then join_path
        (parent_or root (parent_path (join_path root (components (target_of operation))))) source
    else join_path root source

abbrev pub read_source : FsPolicy → OutputOperation → FilePath → Option Text → Check (Unit {0})
read_source policy operation root none = pure tt
read_source policy operation root (some source) = do
  _ ← validate_read policy (resolve_source operation root (components source))
  pure tt

-- The source of one operation.
unfoldable pub validate_source : FsPolicy → OutputOperation → FilePath → Check (Unit {0})
unfolding validate_destructive_source validate_read resolve_source source_of components
validate_source policy (move source target) root = do
  _ ← validate_destructive_source policy (components source)
  pure tt
validate_source policy operation root = read_source policy operation root (source_of operation)

-- `root.join(target)`, which is `target` where that is absolute.
unfoldable pub plan_target : FilePath → OutputOperation → FilePath
unfolding target_of components
plan_target root operation = join_path root (components (target_of operation))

unfoldable pub validate_operations :
    FsPolicy → Result IoKind FilePath → FilePath → List OutputOperation → Check (Unit {0})
unfolding validate_write plan_target validate_source
validate_operations policy current root [] = pure tt
validate_operations policy current root (operation ∷ operations) = do
  _ ← validate_write policy current (plan_target root operation)
  validate_source policy operation root
  validate_operations policy current root operations

unfoldable pub validate_plan : FsPolicy → Result IoKind FilePath → OutputPlan → Check (Unit {0})
unfolding validate_write validate_operations components
validate_plan policy current plan = do
  root ← validate_write policy current (components plan.output_root)
  validate_operations policy current root plan.operations
