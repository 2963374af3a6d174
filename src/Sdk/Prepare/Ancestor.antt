-- ===== src/Sdk/Prepare/Ancestor.antt =====
-- The search for an existing ancestor of an output root ends: its rounds are enough.
use fixer.Common.{ℕ, zero, suc, ◌<◌, ◌≤◌, ◌≡◌, refl, ap, Option, none, some, [], ◌∷◌, arith}
use fixer.Std.Text.{Text}
use fixer.Std.Path.{Component, root_dir, cur_dir, parent_dir, normal}
use fixer.Std.FilePath.{FilePath, init, last_component, parent_path, pop}
use fixer.Std.Action.{◌>>=◌, attempt}
use fixer.Std.Fs.{IoKind, canonicalize}
use fixer.Sdk.Report.{Exec}
use fixer.Sdk.Prepare.{
  ancestor_found, without_name, existing_ancestor, rounds, canonicalize_existing_ancestor,
}

rounds-init : (c : Component) (path : FilePath) → suc (rounds (init (c ∷ path))) ≡ rounds (c ∷ path)
unfolding init
rounds-init c [] = refl
rounds-init c (d ∷ path) = ap suc (rounds-init d path)

-- Without its name a path is shorter.
shorter :
    (path : FilePath) {segment : Text}
    → last_component path ≡ some (normal segment)
    → suc (rounds (pop path)) ≡ rounds path
unfolding pop parent_path
shorter [] h = absurd (ground arith)
shorter (c ∷ path) h = rw (h, pop, parent_path) (rounds-init c path)

rounds_pos : (path : FilePath) → 0 < rounds path
rounds_pos [] = omega arith
rounds_pos (c ∷ path) = omega arith

-- Only behind a name does the search go on.
without_name_same :
    (path : FilePath) (last : Option Component) (missing : FilePath)
    (f g : FilePath → Exec FilePath)
    → ((segment : Text) (m : FilePath) → last ≡ some (normal segment) → f m ≡ g m)
    → without_name path last missing f ≡ without_name path last missing g
without_name_same path none missing f g h = refl
without_name_same path (some root_dir) missing f g h = refl
without_name_same path (some cur_dir) missing f g h = refl
without_name_same path (some parent_dir) missing f g h = refl
without_name_same path (some (normal segment)) missing f g h =
    h segment (normal segment ∷ missing) refl

existing_ancestor_enough :
    (r s : ℕ) (path existing missing : FilePath)
    → rounds existing ≤ r
    → rounds existing ≤ s
    → existing_ancestor r path existing missing ≡ existing_ancestor s path existing missing
unfolding existing_ancestor
existing_ancestor_enough zero s path existing missing h k =
    absurd (omega (arith, rounds_pos existing))
existing_ancestor_enough (suc r) zero path existing missing h k =
    absurd (omega (arith, rounds_pos existing))
existing_ancestor_enough (suc r) (suc s) path existing missing h k =
    ap
      (λ (next' : Exec FilePath). attempt {E = IoKind} (canonicalize existing) >>= λ found.
        ancestor_found path missing next' found)
      (without_name_same path (last_component existing) missing
        (existing_ancestor r path (pop existing)) (existing_ancestor s path (pop existing))
        (λ segment m e.
          existing_ancestor_enough r s path (pop existing) m (omega (arith, shorter existing e))
            (omega (arith, shorter existing e))))

-- The search for an existing ancestor of an output root has rounds enough: with any greater number
-- of rounds it does the same from every file system.
pub canonicalize_existing_ancestor_enough :
    (path : FilePath) (number : ℕ)
    → rounds path ≤ number
    → canonicalize_existing_ancestor path ≡ existing_ancestor number path path []
unfolding canonicalize_existing_ancestor
canonicalize_existing_ancestor_enough path number h =
    existing_ancestor_enough (rounds path) number path path [] (omega arith) h
