-- ===== src/Server/FsPolicy/Allowed.antt =====
-- What the policy accepts lies below its roots.
use fixer.Common.{ℕ, zero, suc, ◌≡◌, refl, true, Option, none, some, List, [], ◌∷◌, arith, list_eq}
use fixer.Std.Text.{Text}
use fixer.Std.Path.{components}
use fixer.Std.FilePath.{FilePath, component_eq, parent_path}
use fixer.Std.Result.{Result, ok, err}
use fixer.Std.Action.Ensures.{
  Ensures, Yields, then_ensures, seq_knowing, pure_ensures, fail_ensures, require_ensures,
  from_result_ensures, map_error_ensures, ensures_weaker,
}
use fixer.Std.Fs.{
  World, Entry, Entries, IoKind, lookup, not_found, already_exists, permission_denied,
  crosses_devices, other_kind,
}
use fixer.Std.Fs.Quiet.{Same, Shows, inspect_path-Shows, canonicalize_exact}
use fixer.Std.Fs.Resolved.{LeadsTo}
use fixer.Core.Output.{
  OutputOperation, OutputPlan, create_directory, write_bytes, copy, move, symlink, hardlink,
  reflink, source_of,
}
use fixer.Server.FsPolicy.{
  FsPolicy, Check, canonical_of, within, require_allowed, validate_read, absolute, to_parent,
  ancestor_inspected, existing_from, nearest_existing_ancestor, rounds_of, parent_or_fail,
  validate_write, validate_destructive_source, resolve_source, read_source, validate_source,
  plan_target, validate_operations, validate_plan,
}

-- The nearest path to the root that is there, by a look that resolves `..` and links on the way.
pub data Nearest (entries : Entries) : FilePath → FilePath → Type 0 where
  here :
      (path : FilePath) (entry : Entry) → lookup entries path ≡ ok entry → Nearest entries path path
  above :
      (path parent : FilePath) {ancestor : FilePath}
      → lookup entries path ≡ err not_found
      → parent_path path ≡ some parent
      → Nearest entries parent ancestor
      → Nearest entries path ancestor

-- A path leads below a root.
abbrev pub MayRead : FsPolicy → Entries → FilePath → Type 0
MayRead policy entries path =
    (real : FilePath) × LeadsTo entries path real × (within policy real ≡ true)

-- What is there of a path leads below a root.
abbrev pub MayWrite : FsPolicy → Entries → FilePath → Type 0
MayWrite policy entries path =
    (ancestor : FilePath) × Nearest entries path ancestor × MayRead policy entries ancestor

module _ (start : Entries) (policy : FsPolicy) where
  abbrev Finds : {A : Type 0} → Check A → (A → Type 0) → Type 0
  Finds m Q = Ensures (Same start) m Q

  canonical_of_exact :
      (requested path : FilePath) → Finds (canonical_of requested path) (LeadsTo start path)
  unfolding canonical_of
  canonical_of_exact requested path = map_error_ensures _ _ (canonicalize_exact start path)

  require_allowed_exact :
      (requested canonical : FilePath)
      → Finds (require_allowed policy requested canonical) (λ _. within policy canonical ≡ true)
  unfolding require_allowed
  require_allowed_exact requested canonical = require_ensures _ _

  pub validate_read_exact :
      (path : FilePath)
      → Finds
          (validate_read policy path)
          (λ real. LeadsTo start path real × (within policy real ≡ true))
  unfolding validate_read
  validate_read_exact path = then_ensures _ (canonical_of_exact path path) (λ real leads.
      seq_knowing _ (require_allowed_exact path real)
        (λ allowed. pure_ensures _ _ (leads, allowed)))

  inspected_exact :
      (candidate : FilePath) (r : Result IoKind Entry) (next' : Check FilePath)
      → Shows (lookup start candidate) r
      → (lookup start candidate ≡ err not_found → Finds next' (Nearest start candidate))
      → Finds (ancestor_inspected candidate r next') (Nearest start candidate)
  inspected_exact candidate (ok entry) next' there h = pure_ensures _ _ (here candidate entry there)
  inspected_exact candidate (err not_found) next' gone h = h gone
  inspected_exact candidate (err already_exists) next' t h = fail_ensures _ _
  inspected_exact candidate (err permission_denied) next' t h = fail_ensures _ _
  inspected_exact candidate (err crosses_devices) next' t h = fail_ensures _ _
  inspected_exact candidate (err other_kind) next' t h = fail_ensures _ _

  to_parent_exact :
      (path candidate : FilePath) (parent : Option FilePath) (search' : FilePath → Check FilePath)
      → parent_path candidate ≡ parent
      → lookup start candidate ≡ err not_found
      → ((p : FilePath) → Finds (search' p) (Nearest start p))
      → Finds (to_parent path parent search') (Nearest start candidate)
  to_parent_exact path candidate none search' e gone h = fail_ensures _ _
  to_parent_exact path candidate (some parent) search' e gone h =
      ensures_weaker _ (h parent) (λ ancestor near. above candidate parent gone e near)

  existing_from_exact :
      (rounds : ℕ) (path candidate : FilePath)
      → Finds (existing_from rounds path candidate) (Nearest start candidate)
  unfolding existing_from
  existing_from_exact zero path candidate = fail_ensures _ _
  existing_from_exact (suc rounds) path candidate =
      then_ensures _ (inspect_path-Shows start candidate) (λ r shows.
        inspected_exact candidate r _ shows (λ gone.
          to_parent_exact path candidate (parent_path candidate) _ refl gone
            (existing_from_exact rounds path)))

  Nearest-exact : (path : FilePath) → Finds (nearest_existing_ancestor path) (Nearest start path)
  unfolding nearest_existing_ancestor
  Nearest-exact path = existing_from_exact (rounds_of path) path path

  pub validate_write_exact :
      (current : Result IoKind FilePath) (requested : FilePath)
      → Finds
          (validate_write policy current requested)
          (λ path. (absolute current requested ≡ ok path) × MayWrite policy start path)
  unfolding validate_write
  validate_write_exact current requested = then_ensures _ (from_result_ensures _) (λ path e.
      then_ensures _ (Nearest-exact path) (λ ancestor near.
        then_ensures _ (canonical_of_exact ancestor ancestor) (λ real leads.
          seq_knowing _ (require_allowed_exact path real)
            (λ allowed. pure_ensures _ _ (e, (ancestor, near, (real, leads, allowed)))))))

-- A file that is moved away stands below a root by its path and by its real path.
abbrev pub MayMoveAway : FsPolicy → Entries → FilePath → Type 0
MayMoveAway policy entries source =
    ((parent : FilePath) × (parent_path source ≡ some parent)
      × (within policy parent ≡ true)
      × MayWrite policy entries parent)
    × MayRead policy entries source

abbrev SourceText : FsPolicy → Entries → FilePath → OutputOperation → Option Text → Type 0
SourceText policy entries root operation none = Unit {0}
SourceText policy entries root operation (some source) =
    MayRead policy entries (resolve_source operation root (components source))

abbrev pub SourceAllowed : FsPolicy → Entries → FilePath → OutputOperation → Type 0
SourceAllowed policy entries root (move source target) =
    MayMoveAway policy entries (components source)
SourceAllowed policy entries root operation =
    SourceText policy entries root operation (source_of operation)

abbrev pub TargetAllowed : FsPolicy → Entries → Result IoKind FilePath → FilePath → Type 0
TargetAllowed policy entries current requested =
    (path : FilePath) × (absolute current requested ≡ ok path) × MayWrite policy entries path

abbrev pub OperationsAllowed :
    FsPolicy → Entries → Result IoKind FilePath → FilePath → List OutputOperation → Type 0
OperationsAllowed policy entries current root [] = Unit {0}
OperationsAllowed policy entries current root (operation ∷ operations) =
    TargetAllowed policy entries current (plan_target root operation)
    × SourceAllowed policy entries root operation
    × OperationsAllowed policy entries current root operations

abbrev pub PlanAllowed : FsPolicy → Entries → Result IoKind FilePath → OutputPlan → Type 0
PlanAllowed policy entries current plan =
    (root : FilePath) × (absolute current (components plan.output_root) ≡ ok root)
    × MayWrite policy entries root
    × OperationsAllowed policy entries current root plan.operations

module _ (start : Entries) (policy : FsPolicy) where
  destructive_exact :
      (source : FilePath)
      → Finds start policy
          (validate_destructive_source policy source)
          (λ _. MayMoveAway policy start source)
  unfolding validate_destructive_source
  destructive_exact source = seq_knowing _ (require_ensures _ _) (λ from_root.
      then_ensures _ (from_result_ensures _) (λ parent e.
        seq_knowing _ (require_ensures _ _) (λ inside.
          then_ensures _ (Nearest-exact start policy parent) (λ ancestor near.
            then_ensures _ (canonical_of_exact start policy ancestor ancestor) (λ real leads.
              seq_knowing _ (require_allowed_exact start policy source real) (λ allowed.
                ensures_weaker _ (validate_read_exact start policy source) (λ found (goes, fits). (
                  (
                    parent,
                    parent_of source (parent_path source) e,
                    inside,
                    (ancestor, near, (real, leads, allowed)),
                  ),
                  (found, goes, fits),
                ))))))))
    where
      parent_of :
          (source : FilePath) (r : Option FilePath) {parent : FilePath}
          → parent_or_fail source r ≡ ok parent
          → r ≡ some parent
      parent_of source none h = absurd (ground arith)
      parent_of source (some p) h = ground arith

  read_source_exact :
      (operation : OutputOperation) (root : FilePath) (source : Option Text)
      → Finds start policy
          (read_source policy operation root source)
          (λ _. SourceText policy start root operation source)
  read_source_exact operation root none = pure_ensures _ _ tt
  read_source_exact operation root (some source) =
      then_ensures _
        (validate_read_exact start policy (resolve_source operation root (components source)))
        (λ real leads. pure_ensures _ _ (real, leads.0, leads.1))

  validate_source_exact :
      (operation : OutputOperation) (root : FilePath)
      → Finds start policy
          (validate_source policy operation root)
          (λ _. SourceAllowed policy start root operation)
  unfolding validate_source source_of
  validate_source_exact (move source target) root =
      then_ensures _ (destructive_exact (components source))
        (λ real allowed. pure_ensures _ _ allowed)
  validate_source_exact (create_directory target) root =
      read_source_exact (create_directory target) root none
  validate_source_exact (write_bytes target content) root =
      read_source_exact (write_bytes target content) root none
  validate_source_exact (copy source target) root =
      read_source_exact (copy source target) root (some source)
  validate_source_exact (symlink source target) root =
      read_source_exact (symlink source target) root (some source)
  validate_source_exact (hardlink source target) root =
      read_source_exact (hardlink source target) root (some source)
  validate_source_exact (reflink source target) root =
      read_source_exact (reflink source target) root (some source)

  validate_operations_exact :
      (current : Result IoKind FilePath) (root : FilePath) (operations : List OutputOperation)
      → Finds start policy
          (validate_operations policy current root operations)
          (λ _. OperationsAllowed policy start current root operations)
  unfolding validate_operations
  validate_operations_exact current root [] = pure_ensures _ _ tt
  validate_operations_exact current root (operation ∷ operations) =
      then_ensures _ (validate_write_exact start policy current (plan_target root operation))
        (λ path (e, may). seq_knowing _ (validate_source_exact operation root) (λ allowed.
          ensures_weaker _ (validate_operations_exact current root operations)
            (λ a rest. ((path, e, may), allowed, rest))))

  pub validate_plan_exact :
      (current : Result IoKind FilePath) (plan : OutputPlan)
      → Finds start policy
          (validate_plan policy current plan)
          (λ _. PlanAllowed policy start current plan)
  unfolding validate_plan
  validate_plan_exact current plan =
      then_ensures _ (validate_write_exact start policy current (components plan.output_root))
        (λ root (e, may).
          ensures_weaker _ (validate_operations_exact current root plan.operations)
            (λ a rest. (root, e, may, rest)))

-- An accepted plan stays below the policy's roots, through every link and every `..`: of its output
-- root and of every target what is there leads below a root, and so does every source; the source
-- of a move also stands below a root by its path. The check changes no entry, whether it accepts or
-- not.
pub validate_plan_allowed :
    (policy : FsPolicy) (current : Result IoKind FilePath) (plan : OutputPlan) (world : World)
    → ((validate_plan policy current plan world).1.entries ≡ world.entries)
      × Yields
          (validate_plan policy current plan world).0
          (λ _. PlanAllowed policy world.entries current plan)
validate_plan_allowed policy current plan world =
    (validate_plan_exact world.entries policy current plan).run world refl
