-- ===== src/Tests/Policy.antt =====
-- The path policy on a small tree, and instances of the theorems of Server/FsPolicy.
use fixer.Common.{ℕ, ◌≡◌, refl, [], ◌∷◌, ◌++◌}
use fixer.Std.Text.{Text, text, split, push_first}
use fixer.Std.Path.{root_dir, parent_dir, normal, components, segment_components}
use fixer.Std.FilePath.{FilePath, init, last_component, pop, parent_path, is_absolute_path}
use fixer.Std.Result.{Result, ok, err}
use fixer.Std.Action.{◌>>=◌, ◌>>◌, pure, fail, require, from_result, map_error, attempt}
use fixer.Std.Action.Ensures.{Yields}
use fixer.Std.Fs.{
  World, Entry, Node, IoKind, canonicalize, inspect_path, lookup, walk, steps, metadata, follow,
}
use fixer.Core.Output.{OutputPlan, write_bytes, copy}
use fixer.Server.FsPolicy.{FsPolicy, outside_allowed_roots, validate_plan, validate_read}
use fixer.Server.FsPolicy.Allowed.{PlanAllowed, validate_plan_allowed}

abbrev below : Text → FilePath
below name = root_dir ∷ normal name ∷ []

abbrev place : ℕ → Node → Entry
place number node = record { inode = number; modified = number; node = node }

abbrev away : FilePath
away = root_dir ∷ normal (text "in") ∷ normal (text "away") ∷ []

abbrev world : World
world = record {
  entries =
      (root_dir ∷ [], place 0 Node.directory)
      ∷ (below (text "in"), place 1 Node.directory)
      ∷ (below (text "out"), place 2 Node.directory)
      ∷ (below (text "etc"), place 3 Node.directory)
      ∷ (away, place 4 (Node.symlink (below (text "etc"))))
      ∷ [];
  stamp = 5;
  sequence = 0;
  faults = [];
}

abbrev policy : FsPolicy
policy = record { roots = below (text "in") ∷ below (text "out") ∷ [] }

abbrev current : Result IoKind FilePath
current = ok (root_dir ∷ [])

abbrev plan : OutputPlan
plan = record {
  output_root = text "/out";
  operations =
      write_bytes (text "films/a.nfo") (record { bytes = 1 ∷ [] })
      ∷ copy (text "/in") (text "films/a.mkv")
      ∷ [];
}

-- A link below a root that leads away from the roots is refused.
link_refused : (validate_read policy away world).0 ≡ err (outside_allowed_roots away)
unfolding validate_read ◌>>=◌ ◌>>◌ pure fail require from_result map_error attempt canonicalize
    inspect_path lookup walk steps init last_component pop metadata follow
link_refused = refl

-- A path that climbs out of a root is refused, although it stands below the root as it is spelled.
climbing_refused :
    (validate_plan policy current (record plan { output_root = text "/in/../etc" }) world).0
    ≡ err (
        outside_allowed_roots
          (root_dir ∷ normal (text "in") ∷ parent_dir ∷ normal (text "etc") ∷ []))
unfolding validate_plan ◌>>=◌ ◌>>◌ pure fail require from_result map_error attempt canonicalize
    inspect_path lookup walk steps init last_component pop metadata follow split
climbing_refused = refl

-- So is a file behind a link that leads away, which is not there yet.
behind_link_refused :
    (validate_plan policy current (record plan { output_root = text "/in/away/new" }) world).0
    ≡ err (outside_allowed_roots (away ++ normal (text "new") ∷ []))
unfolding validate_plan ◌>>=◌ ◌>>◌ pure fail require from_result map_error attempt canonicalize
    inspect_path lookup walk steps init last_component pop metadata follow split
behind_link_refused = refl

plan_accepted : (validate_plan policy current plan world).0 ≡ ok tt
unfolding validate_plan ◌>>=◌ ◌>>◌ pure fail require from_result map_error attempt canonicalize
    inspect_path lookup walk steps init last_component pop metadata follow split parent_path
    components segment_components push_first is_absolute_path
plan_accepted = refl

validate_plan_allowed_example :
    ((validate_plan policy current plan world).1.entries ≡ world.entries)
    × Yields
        (validate_plan policy current plan world).0
        (λ _. PlanAllowed policy world.entries current plan)
validate_plan_allowed_example = validate_plan_allowed policy current plan world
