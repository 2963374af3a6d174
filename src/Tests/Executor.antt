-- ===== src/Tests/Executor.antt =====
-- Runs of output plans over a small tree, and instances of the theorems of Sdk.
use fixer.Common.{
  ℕ, ◌≡◌, ◌≢◌, ◌⊎◌, refl, true, false, Option, none, some, [], ◌∷◌, arith, list_eq, list_beq_iff,
}
use fixer.Std.Map.{get, get-put}
use fixer.Std.Text.{Text, text, split, to_ascii_lowercase}
use fixer.Std.Path.{root_dir, normal, components}
use fixer.Std.FilePath.{FilePath, component_eq, parent_path, join_path}
use fixer.Std.Result.{ok, err, is_err}
use fixer.Std.Action.{◌>>=◌, ◌>>◌, pure, fail, require, from_result, map_error, attempt}
use fixer.Std.Fs.{
  World, Entry, Node, Io, already_exists, not_found, store, fresh, follow, has_parent,
}
use fixer.Std.Fs.Done.{HoldsFile}
use fixer.Core.Output.{OutputOperation, write_bytes}
use fixer.Core.Scrape.{ReplacementManifest, OutputOperationKind, succeeded, failed}
use fixer.Sdk.Report.{
  ExecutionReport, empty_report, completed, default_policy, target_exists, no_overwrite,
}
use fixer.Sdk.Fingerprint.{missing}
use fixer.Sdk.Targets.{Host, absolute_target, normalize_path, relative_target}
use fixer.Sdk.Operations.{execute_operation}
use fixer.Sdk.Operations.Kept.{ClonesAside}
use fixer.Sdk.Operations.Written.{execute_operation_written}
use fixer.Sdk.Audit.{failing}
use fixer.Sdk.Preflight.{PreparedOutputPlan, ancestors_of}
use fixer.Sdk.Preflight.Ancestors.{NoLinks}
use fixer.Sdk.Executor.{run_operation, execute, execute_replacing}
use fixer.Sdk.Executor.Kept.{may_change, execute_keeps}
use fixer.Sdk.Executor.Refused.{AllFresh, execute_fresh, run_operation_guarded}
use fixer.Sdk.Executor.Replaced.{AllAllowed, execute_replacing_allowed}
use fixer.Sdk.Executor.Reported.{Reports, execute-Reports}
use fixer.Sdk.Placement.{relative_path}
use fixer.Sdk.Placement.Relative.{relative_path-normalize_path}

abbrev at : Text → FilePath
at name = root_dir ∷ normal (text "out") ∷ normal name ∷ []

abbrev place : ℕ → Node → Entry
place number node = record { inode = number; modified = number; node = node }

abbrev world : World
world = record {
  entries =
      (root_dir ∷ [], place 0 Node.directory)
      ∷ (root_dir ∷ normal (text "out") ∷ [], place 1 Node.directory)
      ∷ (at (text "old"), place 2 (Node.file (7 ∷ [])))
      ∷ [];
  stamp = 3;
  sequence = 0;
  faults = [];
}

abbrev ap_node : Option Entry → Option Node
ap_node none = none
ap_node (some entry) = some entry.node

-- A copy that shares its content, where the target is free.
abbrev clone_entry : Option Entry → Option Entry → FilePath → Io (Unit {0})
clone_entry none target path w = (err not_found, w)
clone_entry (some source) (some target) path w = (err already_exists, w)
clone_entry (some source) none path w = (ok tt, store path (fresh source.node w) w)

abbrev clone : FilePath → FilePath → Io (Unit {0})
clone source path w = clone_entry (get source w.entries) (get path w.entries) path w

abbrev host : Host
host = record {
  current_dir = ok (root_dir ∷ []);
  process_id = 1;
  sha256 = λ content. text "0123456789abcdef0123456789abcdef0123456789abcdef0123456789abcdef";
  clone_file = clone;
}

clone_entry-elsewhere :
    (source target : Option Entry) (path p : FilePath) (w : World)
    → p ≢ path
    → get p (clone_entry source target path w).1.entries ≡ get p w.entries
clone_entry-elsewhere none target path p w h = refl
clone_entry-elsewhere (some source) (some target) path p w h = refl
clone_entry-elsewhere (some source) none path p w h =
    ground (arith, get-put path p (fresh source.node w) w.entries, list_beq_iff path p)

host-ClonesAside : ClonesAside host
host-ClonesAside = record {
  elsewhere = λ w source path p h.
      clone_entry-elsewhere (get source w.entries) (get path w.entries) path p w h;
}

abbrev operation : OutputOperation
operation = write_bytes (text "new") (record { bytes = 1 ∷ 2 ∷ [] })

abbrev prepared : PreparedOutputPlan
prepared = record {
  plan = record { output_root = text "/out"; operations = operation ∷ [] };
  root = root_dir ∷ normal (text "out") ∷ [];
  observed = record { path = at (text "new"); fingerprint = missing } ∷ [];
}

abbrev refusal : ExecutionReport
refusal = record {
  operations =
      record {
        operation_index = 0;
        kind = OutputOperationKind.write_bytes;
        source = none;
        destination = text "/out/old";
        outcome = failed;
        fingerprint = none;
      }
      ∷ [];
}

abbrev report : ExecutionReport
report = record {
  operations =
      record {
        operation_index = 0;
        kind = OutputOperationKind.write_bytes;
        source = none;
        destination = text "/out/new";
        outcome = succeeded;
        fingerprint = some (record { as_str = host.sha256 [] });
      }
      ∷ [];
}

-- The run writes its file under another name first, and takes that name away.
written :
    ((execute host prepared default_policy world).0 ≡ ok report)
    × (ap_node (get (at (text "new")) (execute host prepared default_policy world).1.entries)
        ≡ some (Node.file (1 ∷ 2 ∷ [])))
    × (get (at (text ".new.fixer-tmp-1-0")) (execute host prepared default_policy world).1.entries
        ≡ none)
unfolding execute default_policy ◌>>=◌ ◌>>◌ pure fail require from_result map_error attempt split
    follow has_parent to_ascii_lowercase
written = (refl, refl, refl)

-- A target that is there is refused before anything is done.
abbrev taken : PreparedOutputPlan
taken = record prepared {
  plan = record {
    output_root = text "/out";
    operations = write_bytes (text "old") (record { bytes = [] }) ∷ [];
  };
  observed = [];
}

refused :
    ((execute host taken default_policy world).0
      ≡ err (failing refusal (target_exists (at (text "old")))))
    × ((execute host taken default_policy world).1 ≡ world)
unfolding execute default_policy ◌>>=◌ ◌>>◌ pure fail require from_result map_error attempt split
    follow has_parent
refused = (refl, refl)

old_unchanging :
    may_change host prepared.root no_overwrite prepared.plan.operations (at (text "old")) ≡ false
unfolding may_change
old_unchanging = refl

execute_keeps_example :
    get (at (text "old")) (execute host prepared default_policy world).1.entries
    ≡ some (place 2 (Node.file (7 ∷ [])))
unfolding default_policy
execute_keeps_example =
    execute_keeps host prepared default_policy world (at (text "old"))
      (place 2 (Node.file (7 ∷ []))) host-ClonesAside refl old_unchanging

execute_fresh_example :
    AllFresh world.entries prepared.observed
    ⊎ ((is_err (execute host prepared default_policy world).0 ≡ true)
        × ((execute host prepared default_policy world).1.entries ≡ world.entries))
execute_fresh_example = execute_fresh host prepared default_policy world

run_operation_guarded_example :
    NoLinks world.entries prepared.root
      (ancestors_of (parent_path (components (relative_target operation))))
    ⊎ ((is_err (run_operation host prepared.root default_policy empty_report 0 operation world).0
          ≡ true)
        × ((run_operation host prepared.root default_policy empty_report 0 operation
              world).1.entries
            ≡ world.entries))
run_operation_guarded_example =
    run_operation_guarded host prepared.root default_policy empty_report 0 operation world

abbrev manifest : ReplacementManifest
manifest = record { outputs = (text "/out/old", record { as_str = host.sha256 [] }) ∷ [] }

execute_replacing_allowed_example :
    AllAllowed host manifest world.entries prepared.root prepared.plan.operations
    ⊎ ((is_err (execute_replacing host prepared manifest world).0 ≡ true)
        × ((execute_replacing host prepared manifest world).1.entries ≡ world.entries))
execute_replacing_allowed_example = execute_replacing_allowed host prepared manifest world

run_succeeds : (execute host prepared default_policy world).0 ≡ ok report
run_succeeds = written.0

execute-Reports_example :
    Reports host prepared.root succeeded 0 prepared.plan.operations report.operations
unfolding default_policy
execute-Reports_example = execute-Reports host prepared default_policy world run_succeeds

abbrev after : World
after = (execute_operation host operation prepared.root default_policy world).1

operation_succeeds :
    execute_operation host operation prepared.root default_policy world ≡ (ok completed, after)
unfolding execute_operation default_policy ◌>>=◌ ◌>>◌ pure fail require from_result map_error
    attempt split follow has_parent
operation_succeeds = refl

execute_operation_written_example :
    HoldsFile (1 ∷ 2 ∷ []) (absolute_target prepared.root operation) after
unfolding default_policy
execute_operation_written_example =
    execute_operation_written host (text "new") (record { bytes = 1 ∷ 2 ∷ [] }) prepared.root
      default_policy world after refl operation_succeeds

relative_path-normalize_path_example :
    (path : FilePath) × (relative_path
        (components (text "/out/films"))
        (components (text "/src/a.mkv"))
      ≡ some path)
    × (normalize_path (join_path (components (text "/out/films")) path)
        ≡ components (text "/src/a.mkv"))
unfolding components split
relative_path-normalize_path_example =
    relative_path-normalize_path (text "out" ∷ text "films" ∷ []) (text "src" ∷ text "a.mkv" ∷ [])
