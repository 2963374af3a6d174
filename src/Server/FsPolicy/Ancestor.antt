-- ===== src/Server/FsPolicy/Ancestor.antt =====
-- The search for what is there of a path ends: its rounds are enough.
use fixer.Common.{ℕ, zero, suc, ◌<◌, ◌≤◌, ◌≡◌, refl, ap, Option, none, some, [], ◌∷◌, arith}
use fixer.Std.Path.{Component, root_dir, cur_dir, parent_dir, normal}
use fixer.Std.FilePath.{FilePath, init, last_component, parent_path}
use fixer.Std.Action.{◌>>=◌, attempt}
use fixer.Std.Fs.{inspect_path}
use fixer.Server.FsPolicy.{
  Check, to_parent, ancestor_inspected, existing_from, rounds_of, nearest_existing_ancestor,
}

rounds_of-init :
    (c : Component) (path : FilePath) → suc (rounds_of (init (c ∷ path))) ≡ rounds_of (c ∷ path)
unfolding init
rounds_of-init c [] = refl
rounds_of-init c (d ∷ path) = ap suc (rounds_of-init d path)

-- A parent is shorter.
shorter :
    (path : FilePath) {parent : FilePath}
    → parent_path path ≡ some parent
    → suc (rounds_of parent) ≡ rounds_of path
unfolding parent_path
shorter [] h = absurd (ground arith)
shorter (c ∷ path) {parent} h = at (last_component (c ∷ path)) h
  where
    at :
        (last : Option Component)
        → (elim last [
          | none ↦ none
          | some d ↦ elim d [ root_dir ↦ none | _ ↦ some (init (c ∷ path)) ]
        ])
          ≡ some parent
        → suc (rounds_of parent) ≡ rounds_of (c ∷ path)
    at none e = absurd (ground arith)
    at (some root_dir) e = absurd (ground arith)
    at (some cur_dir) e = ground (arith, rounds_of-init c path)
    at (some parent_dir) e = ground (arith, rounds_of-init c path)
    at (some (normal s)) e = ground (arith, rounds_of-init c path)

to_parent_same :
    (path : FilePath) (parent : Option FilePath) (f g : FilePath → Check FilePath)
    → ((p : FilePath) → parent ≡ some p → f p ≡ g p)
    → to_parent path parent f ≡ to_parent path parent g
to_parent_same path none f g h = refl
to_parent_same path (some p) f g h = h p refl

rounds_of_pos : (path : FilePath) → 0 < rounds_of path
rounds_of_pos [] = omega arith
rounds_of_pos (c ∷ path) = omega arith

existing_from_enough :
    (r s : ℕ) (path candidate : FilePath)
    → rounds_of candidate ≤ r
    → rounds_of candidate ≤ s
    → existing_from r path candidate ≡ existing_from s path candidate
unfolding existing_from
existing_from_enough zero s path candidate h k = absurd (omega (arith, rounds_of_pos candidate))
existing_from_enough (suc r) zero path candidate h k =
    absurd (omega (arith, rounds_of_pos candidate))
existing_from_enough (suc r) (suc s) path candidate h k =
    ap
      (λ (next' : Check FilePath).
        attempt (inspect_path candidate) >>= λ found. ancestor_inspected candidate found next')
      (to_parent_same path (parent_path candidate) (existing_from r path) (existing_from s path)
        (λ p e.
          existing_from_enough r s path p (omega (arith, shorter candidate e))
            (omega (arith, shorter candidate e))))

-- The search for what is there of a path has rounds enough: with any greater number of rounds it
-- does the same from every file system, so that it never ends for want of them.
pub nearest_existing_ancestor_enough :
    (path : FilePath) (rounds : ℕ)
    → rounds_of path ≤ rounds
    → nearest_existing_ancestor path ≡ existing_from rounds path path
unfolding nearest_existing_ancestor
nearest_existing_ancestor_enough path rounds h =
    existing_from_enough (rounds_of path) rounds path path (omega arith) h
