-- ===== src/Std/Fs/Tree.antt =====
-- The state of the file system and the ways a call ends.
use fixer.Common.{ℕ, Option, none, some, List, [], ◌∷◌, nat_eq, list_eq}
use fixer.Std.Map.{Map}
use fixer.Std.FilePath.{FilePath, component_eq}
use fixer.Std.Result.{err}
use fixer.Std.Action.{Action}

-- io::ErrorKind
pub data IoKind : Type 0 where
  not_found already_exists permission_denied crosses_devices other_kind : IoKind

-- Why a call fails that the tree would allow.
pub data Fault : Type 0 where
  denied crossed failing : Fault

abbrev pub fault_kind : Fault → IoKind
fault_kind denied = permission_denied
fault_kind crossed = crosses_devices
fault_kind failing = other_kind

-- An inode's number and time of change, and what it holds.
pub data Node : Type 0 where
  file : List ℕ → Node
  directory : Node
  symlink : FilePath → Node

pub record Entry : Type 0 where
  pub inode : ℕ
  pub modified : ℕ
  pub node : Node

abbrev pub Entries : Type 0
Entries = Map FilePath Entry

-- `stamp` is above every inode and time; `sequence` is the code's TEMP_SEQUENCE.
pub record World : Type 0 where
  pub entries : Entries
  pub stamp : ℕ
  pub sequence : ℕ
  pub faults : List (Option Fault)

abbrev pub Io : Type 0 → Type 0
Io A = Action World IoKind A

abbrev pub run_faulty : {A : Type 0} → List (Option Fault) → Io A → Io A
run_faulty [] call world = call world
run_faulty (none ∷ faults) call world = call (record world { faults = faults })
run_faulty (some fault ∷ faults) call world =
    (err (fault_kind fault), record world { faults = faults })

-- A call that the outside can make fail.
abbrev pub faulty : {A : Type 0} → Io A → Io A
faulty call world = run_faulty world.faults call world
