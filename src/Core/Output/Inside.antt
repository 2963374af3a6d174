-- ===== src/Core/Output/Inside.antt =====
-- Why the targets of crates/fixer-core/src/output/plan.rs stay below the output root.
use fixer.Common.{
  ◌≡◌, refl, ap, true, false, List, [], ◌∷◌, ◌++◌, nat_eq, list_eq, any, arith, sym, subst, ◌∙◌,
}
use mathlib.Core.List.{append_assoc, append-nil}
use fixer.Std.Text.{Text}
use fixer.Std.Path.{Component, root_dir, cur_dir, parent_dir, normal, is_absolute, components}
use fixer.Std.Result.{ok, ◌>>=◌, >>=-eq-ok}
use fixer.Core.Output.{
  OutputOperation, create_directory, write_bytes, copy, move, symlink, hardlink, reflink,
  PlannedContent, safe_target, non_empty_path, absolute_source, new_create_directory,
  new_write_bytes, new_transfer, new_move, target_of, escapes,
}

-- The last name of a directory goes away; the root has no parent but itself.
abbrev pub parent_of : List Text → List Text
parent_of [] = []
parent_of (name ∷ []) = []
parent_of (name ∷ next ∷ names) = name ∷ parent_of (next ∷ names)

-- The directory that a path names from the directory `base`, as the names below the root.
abbrev pub resolve : List Text → List Component → List Text
resolve base [] = base
resolve base (root_dir ∷ parts) = resolve [] parts
resolve base (cur_dir ∷ parts) = resolve base parts
resolve base (parent_dir ∷ parts) = resolve (parent_of base) parts
resolve base (normal segment ∷ parts) = resolve (base ++ segment ∷ []) parts

resolve_below :
    (base : List Text) (parts : List Component)
    → any escapes parts ≡ false
    → (names : List Text) × (resolve base parts ≡ base ++ names)
resolve_below base [] h = ([], sym (append-nil base))
resolve_below base (root_dir ∷ parts) h = absurd (cc h)
resolve_below base (cur_dir ∷ parts) h = resolve_below base parts h
resolve_below base (parent_dir ∷ parts) h = absurd (cc h)
resolve_below base (normal segment ∷ parts) h =
    let (names, e) = resolve_below (base ++ segment ∷ []) parts h in
    (segment ∷ names, e ∙ append_assoc base (segment ∷ []) names)

-- An accepted target names, from every output root, a place at or below that root.
pub safe_target_lem :
    (value : Text) {target : Text}
    → safe_target value ≡ ok target
    → (target ≡ value)
      × ((root : List Text)
          → (names : List Text) × (resolve root (components target) ≡ root ++ names))
unfolding safe_target non_empty_path
safe_target_lem value {target} h =
    let same : value ≡ target = ground arith in
    let safe : any escapes (components target) ≡ false = ground (arith, same) in
    (sym same, λ root. resolve_below root (components target) safe)

absolute_source-is_absolute :
    (value : Text) {source : Text} → absolute_source value ≡ ok source → is_absolute source ≡ true
unfolding absolute_source non_empty_path
absolute_source-is_absolute value h = ground arith

-- The operation's target stays below every output root.
abbrev pub IsInside : OutputOperation → Type 0
IsInside operation =
    (root : List Text)
    → (names : List Text) × (resolve root (components (target_of operation)) ≡ root ++ names)

-- A source that is moved is absolute.
abbrev pub MovesAbsolute : OutputOperation → Type 0
MovesAbsolute (move source target) = is_absolute source ≡ true
MovesAbsolute operation = Unit

-- The operation is what one of the builders returns.
pub data IsBuilt (operation : OutputOperation) : Type 0 where
  of_directory : (target : Text) → new_create_directory target ≡ ok operation → IsBuilt operation
  of_bytes :
      (target : Text) (content : PlannedContent)
      → new_write_bytes target content ≡ ok operation
      → IsBuilt operation
  of_copy :
      (source target : Text) → new_transfer copy source target ≡ ok operation → IsBuilt operation
  of_symlink :
      (source target : Text) → new_transfer symlink source target ≡ ok operation → IsBuilt operation
  of_hardlink :
      (source target : Text)
      → new_transfer hardlink source target ≡ ok operation
      → IsBuilt operation
  of_reflink :
      (source target : Text) → new_transfer reflink source target ≡ ok operation → IsBuilt operation
  of_move : (source target : Text) → new_move source target ≡ ok operation → IsBuilt operation

target-IsInside :
    (operation : OutputOperation) (value target : Text)
    → safe_target value ≡ ok target
    → target_of operation ≡ target
    → IsInside operation
target-IsInside operation value target accepted named root =
    subst (λ t. (names : List Text) × (resolve root (components t) ≡ root ++ names)) (sym named)
      ((safe_target_lem value accepted).1 root)

transfer-IsInside :
    (transfer : Text → Text → OutputOperation) (source target : Text) {operation : OutputOperation}
    → ((s t : Text) → target_of (transfer s t) ≡ t)
    → new_transfer transfer source target ≡ ok operation
    → IsInside operation × ((s : Text) × (t : Text) × (operation ≡ transfer s t))
unfolding new_transfer
transfer-IsInside transfer source target {operation} names h =
    let (s, given, rest) =
      >>=-eq-ok (non_empty_path source "output.source")
        (λ s. safe_target target >>= λ t. ok (transfer s t)) h in
    let (t, accepted, built) = >>=-eq-ok (safe_target target) (λ t. ok (transfer s t)) rest in
    let same : operation ≡ transfer s t = ground (arith, built) in
    (target-IsInside operation target t accepted (ap target_of same ∙ names s t), (s, t, same))

-- What a builder returns has its target below every output root, and moves an absolute source only.
pub built-IsInside :
    (operation : OutputOperation) → IsBuilt operation → IsInside operation × MovesAbsolute operation
unfolding new_create_directory new_write_bytes new_move absolute_source target_of
built-IsInside operation (of_directory target h) =
    let (t, accepted, built) = >>=-eq-ok (safe_target target) (λ t. ok (create_directory t)) h in
    let same : operation ≡ create_directory t = ground (arith, built) in
    (
      target-IsInside operation target t accepted (ap target_of same),
      subst MovesAbsolute (sym same) tt,
    )
built-IsInside operation (of_bytes target content h) =
    let (t, accepted, built) = >>=-eq-ok (safe_target target) (λ t. ok (write_bytes t content)) h in
    let same : operation ≡ write_bytes t content = ground (arith, built) in
    (
      target-IsInside operation target t accepted (ap target_of same),
      subst MovesAbsolute (sym same) tt,
    )
built-IsInside operation (of_copy source target h) =
    let (inside, shape) = transfer-IsInside copy source target (λ s t. refl) h in
    (inside, subst MovesAbsolute (sym shape.2) tt)
built-IsInside operation (of_symlink source target h) =
    let (inside, shape) = transfer-IsInside symlink source target (λ s t. refl) h in
    (inside, subst MovesAbsolute (sym shape.2) tt)
built-IsInside operation (of_hardlink source target h) =
    let (inside, shape) = transfer-IsInside hardlink source target (λ s t. refl) h in
    (inside, subst MovesAbsolute (sym shape.2) tt)
built-IsInside operation (of_reflink source target h) =
    let (inside, shape) = transfer-IsInside reflink source target (λ s t. refl) h in
    (inside, subst MovesAbsolute (sym shape.2) tt)
built-IsInside operation (of_move source target h) =
    let (s, given, rest) =
      >>=-eq-ok (absolute_source source) (λ s. safe_target target >>= λ t. ok (move s t)) h in
    let (t, accepted, built) = >>=-eq-ok (safe_target target) (λ t. ok (move s t)) rest in
    let same : operation ≡ move s t = ground (arith, built) in
    (
      target-IsInside operation target t accepted (ap target_of same),
      subst MovesAbsolute (sym same) (absolute_source-is_absolute source given),
    )
