-- ===== src/Sdk/Audit.antt =====
-- crates/fixer-sdk/src/output/executor.rs: what is reported of an operation.
use fixer.Common.{ℕ, Option, none, some, [], ◌∷◌, ◌++◌, if◌then◌else◌}
use fixer.Std.Text.{Text}
use fixer.Std.FilePath.{FilePath, show_path}
use fixer.Std.Result.{Result, ok, err}
use fixer.Std.Action.{Action, ◌>>=◌, pure, fail, map_error}
use fixer.Std.Fs.{World, metadata, read_file, is_file}
use fixer.Core.Error.{CoreError}
use fixer.Core.Scrape.{
  OutputOperationKind, OperationOutcome, OperationReport, OutputFingerprint, new_fingerprint,
  new_report,
}
use fixer.Core.Output.{
  OutputOperation, create_directory, write_bytes, copy, move, symlink, hardlink, reflink,
}
use fixer.Sdk.Report.{
  ExecutionError, invalid_plan, core_problem, ExecutionReport, ExecutionFailure, Exec, io_error,
}
use fixer.Sdk.Fingerprint.{fingerprint_eq}
use fixer.Sdk.Targets.{Host, absolute_target, resolved_source}

-- Actions that fail with the report of what was done.
abbrev pub Run : Type 0 → Type 0
Run A = Action World ExecutionFailure A

abbrev pub failing : ExecutionReport → ExecutionError → ExecutionFailure
failing report error = record { error = error; report = report }

unfoldable pub core_error : CoreError → ExecutionError
core_error error = invalid_plan (core_problem error)

unfoldable pub operation_kind : OutputOperation → OutputOperationKind
operation_kind (create_directory target) = OutputOperationKind.create_directory
operation_kind (write_bytes target content) = OutputOperationKind.write_bytes
operation_kind (copy source target) = OutputOperationKind.copy
operation_kind (move source target) = OutputOperationKind.move
operation_kind (symlink source target) = OutputOperationKind.symlink
operation_kind (hardlink source target) = OutputOperationKind.hardlink
operation_kind (reflink source target) = OutputOperationKind.reflink

abbrev pub shown : Option FilePath → Option Text
shown none = none
shown (some path) = some (show_path path)

abbrev pub appended :
    ExecutionReport → Result CoreError OperationReport → Result ExecutionError ExecutionReport
appended report (err e) = err (core_error e)
appended report (ok operation) = ok (record { operations = report.operations ++ operation ∷ [] })

-- `usize` is at most 64 bits wide, so an index is always a `u64`.
unfoldable pub push_operation_report :
    Host
    → ExecutionReport
    → FilePath
    → OutputOperation
    → ℕ
    → OperationOutcome
    → Option OutputFingerprint
    → Result ExecutionError ExecutionReport
unfolding operation_kind resolved_source absolute_target new_report core_error show_path
push_operation_report host report root operation index outcome fingerprint = appended report (
    new_report index (operation_kind operation) (shown (resolved_source host root operation))
      (show_path (absolute_target root operation)) outcome fingerprint)

abbrev pub hashed : Result CoreError OutputFingerprint → Exec (Option OutputFingerprint)
hashed (err e) = fail (core_error e)
hashed (ok fingerprint) = pure (some fingerprint)

-- The file is read to its end and hashed piece by piece; the digest is that of the whole.
abbrev pub hash_file : Host → FilePath → Exec (Option OutputFingerprint)
hash_file host target = do
  content ← map_error (io_error "fingerprint completed output" target) (read_file target)
  hashed (new_fingerprint (host.sha256 content))

unfoldable pub output_fingerprint : Host → FilePath → Exec (Option OutputFingerprint)
unfolding metadata read_file new_fingerprint io_error core_error
output_fingerprint host target = do
  found ← map_error (io_error "inspect completed output" target) (metadata target)
  if is_file found.node then hash_file host target else pure none
