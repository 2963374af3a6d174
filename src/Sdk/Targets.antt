-- ===== src/Sdk/Targets.antt =====
-- crates/fixer-sdk/src/output/executor.rs: the paths of an operation. What the process takes from
-- outside is a parameter: its directory and number, the digest of a content and the call that
-- makes a reflink.
use fixer.Common.{
  ℕ, ◌≡◌, arith, Bool, false, not, ◌||◌, Option, none, some, List, [], any, is_empty, ◌==◌, nat_eq,
  if◌then◌else◌,
}
use fixer.Std.Text.{Text}
use fixer.Std.Path.{is_absolute, components}
use fixer.Std.FilePath.{FilePath, join_path, parent_path}
use fixer.Std.Result.{Result, ok, err, ◌>>◌, ensure}
use fixer.Std.Fs.{Io, IoKind, normalize_from}
use fixer.Core.Output.{escapes, OutputOperation, move, symlink, source_of, target_of}
use fixer.Sdk.Report.{ExecutionError, unsafe_target, invalid_plan, relative_move_source, described}

pub record Host : Type 0 where
  pub current_dir : Result IoKind FilePath
  pub process_id : ℕ
  -- Sha256 of a content, in hexadecimal digits.
  pub sha256 : List ℕ → Text
  -- reflink_copy::reflink
  pub clone_file : FilePath → FilePath → Io (Unit {0})

unfoldable pub normalize_path : FilePath → FilePath
unfolding normalize_from
normalize_path path = normalize_from [] path

unfoldable pub relative_target : OutputOperation → Text
unfolding target_of
relative_target operation = target_of operation

unfoldable pub absolute_target : FilePath → OutputOperation → FilePath
unfolding relative_target components
absolute_target root operation = join_path root (components (relative_target operation))

abbrev is_relative_symlink : OutputOperation → Bool
is_relative_symlink (symlink source target) = not (is_absolute source)
is_relative_symlink _ = false

abbrev beside : FilePath → Option FilePath → Option FilePath
beside source none = none
beside source (some parent) = some (normalize_path (join_path parent source))

abbrev in_directory : FilePath → Result IoKind FilePath → Option FilePath
in_directory source (err kind) = none
in_directory source (ok directory) = some (join_path directory source)

abbrev resolve : Host → FilePath → OutputOperation → Option Text → Option FilePath
resolve host root operation none = none
resolve host root operation (some source) =
    if is_relative_symlink operation
    then beside (components source) (parent_path (absolute_target root operation))
    else if is_absolute source
    then some (components source)
    else in_directory (components source) host.current_dir

unfoldable pub resolved_source : Host → FilePath → OutputOperation → Option FilePath
unfolding source_of absolute_target normalize_path parent_path
resolved_source host root operation = resolve host root operation (source_of operation)

abbrev source_or_invalid : Option FilePath → Result ExecutionError FilePath
source_or_invalid none = err (invalid_plan (described "operation has no source"))
source_or_invalid (some source) = ok source

unfoldable pub required_source : Host → FilePath → OutputOperation → Result ExecutionError FilePath
unfolding resolved_source
required_source host root operation = source_or_invalid (resolved_source host root operation)

source_or_invalid-eq-ok :
    (source : Option FilePath) {path : FilePath}
    → source_or_invalid source ≡ ok path
    → source ≡ some path
source_or_invalid-eq-ok none h = absurd (ground arith)
source_or_invalid-eq-ok (some source) h = ground arith

pub required_source-eq-ok :
    (host : Host) (root : FilePath) (operation : OutputOperation) {path : FilePath}
    → required_source host root operation ≡ ok path
    → resolved_source host root operation ≡ some path
required_source-eq-ok host root operation h =
    source_or_invalid-eq-ok (resolved_source host root operation) (unfold required_source in h)

unfoldable pub validate_relative_target : Text → Result ExecutionError (Unit {0})
unfolding components
validate_relative_target target =
    ensure
      (not (
        is_empty target
        || is_absolute target
        || any escapes (components target)
        || any (λ byte. byte == 0) target))
      (unsafe_target (components target))

abbrev valid_move : OutputOperation → Result ExecutionError (Unit {0})
valid_move (move source target) =
    ensure (is_absolute source) (invalid_plan (relative_move_source source))
valid_move _ = ok tt

unfoldable pub validate_operation : OutputOperation → Result ExecutionError (Unit {0})
unfolding validate_relative_target relative_target
validate_operation operation = do
  validate_relative_target (relative_target operation)
  valid_move operation
