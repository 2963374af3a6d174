-- ===== src/Sdk/Preflight/Ancestors.antt =====
-- No link stands between the output root and a target that is taken for safe.
use fixer.Common.{◌≡◌, ◌⊎◌, inl, inr, false, Bool-cases, none, some, [], ◌∷◌, list_eq}
use fixer.Std.Map.{get}
use fixer.Std.Text.{Text}
use fixer.Std.Path.{root_dir, cur_dir, parent_dir, normal, components}
use fixer.Std.FilePath.{FilePath, component_eq, join_path, parent_path}
use fixer.Std.Result.{Result, ok, err}
use fixer.Std.Action.Ensures.{
  Ensures, then_ensures, seq_ensures, pure_ensures, fail_ensures, require_ensures,
  from_result_ensures, ensures_weaker,
}
use fixer.Std.Fs.{
  Entry, Entries, IoKind, not_found, already_exists, permission_denied, crosses_devices, other_kind,
  is_symlink,
}
use fixer.Std.Fs.Quiet.{Same, Tells, look-Tells}
use fixer.Sdk.Report.{Exec}
use fixer.Sdk.Preflight.{ancestor_inspected, inspect_ancestors, ancestors_of, ensure_safe_ancestors}

-- Of the directories named behind `current`, none that is there is a link, up to the first that is
-- not there.
abbrev pub NoLinks : Entries → FilePath → FilePath → Type 0
NoLinks entries current [] = Unit {0}
NoLinks entries current (normal segment ∷ rest) =
    (get (join_path current (normal segment ∷ [])) entries ≡ none)
    ⊎ ((entry : Entry) × (get (join_path current (normal segment ∷ [])) entries ≡ some entry)
        × (is_symlink entry.node ≡ false)
        × NoLinks entries (join_path current (normal segment ∷ [])) rest)
NoLinks entries current (root_dir ∷ rest) = NoLinks entries current rest
NoLinks entries current (cur_dir ∷ rest) = NoLinks entries current rest
NoLinks entries current (parent_dir ∷ rest) = NoLinks entries current rest

module _ (start : Entries) where
  ancestor_exact :
      (current rest : FilePath) (r : Result IoKind Entry) (deeper : Exec (Unit {0}))
      → Tells (get current start) r
      → Ensures (Same start) deeper (λ _. NoLinks start current rest)
      → Ensures (Same start) (ancestor_inspected current r deeper) (λ _.
        (get current start ≡ none)
        ⊎ ((entry : Entry) × (get current start ≡ some entry)
            × (is_symlink entry.node ≡ false)
            × NoLinks start current rest))
  ancestor_exact current rest (ok entry) deeper there h =
      elim (Bool-cases (is_symlink entry.node)) [
        | inl link ↦ rw link (fail_ensures _ _)
        | inr plain ↦ rw plain (ensures_weaker _ h (λ a below. inr (entry, there, plain, below)))
      ]
  ancestor_exact current rest (err not_found) deeper gone h = pure_ensures _ _ (inl gone)
  ancestor_exact current rest (err already_exists) deeper t h = fail_ensures _ _
  ancestor_exact current rest (err permission_denied) deeper t h = fail_ensures _ _
  ancestor_exact current rest (err crosses_devices) deeper t h = fail_ensures _ _
  ancestor_exact current rest (err other_kind) deeper t h = fail_ensures _ _

  inspect_ancestors_exact :
      (current rest : FilePath)
      → Ensures (Same start) (inspect_ancestors current rest) (λ _. NoLinks start current rest)
  unfolding inspect_ancestors
  inspect_ancestors_exact current [] = pure_ensures _ _ tt
  inspect_ancestors_exact current (normal segment ∷ rest) =
      then_ensures _ (look-Tells start (join_path current (normal segment ∷ []))) (λ r tells.
        ancestor_exact _ rest r _ tells
          (inspect_ancestors_exact (join_path current (normal segment ∷ [])) rest))
  inspect_ancestors_exact current (root_dir ∷ rest) = inspect_ancestors_exact current rest
  inspect_ancestors_exact current (cur_dir ∷ rest) = inspect_ancestors_exact current rest
  inspect_ancestors_exact current (parent_dir ∷ rest) = inspect_ancestors_exact current rest

  pub ensure_safe_ancestors_exact :
      (root : FilePath) (target : Text)
      → Ensures
          (Same start)
          (ensure_safe_ancestors root target)
          (λ _. NoLinks start root (ancestors_of (parent_path (components target))))
  unfolding ensure_safe_ancestors
  ensure_safe_ancestors_exact root target =
      seq_ensures _ (ensures_weaker _ (from_result_ensures _) (λ a h. tt)) (
        then_ensures _ (look-Tells start root) (λ r tells.
          seq_ensures _ (ensures_weaker _ (require_ensures _ _) (λ a h. tt))
            (inspect_ancestors_exact root (ancestors_of (parent_path (components target))))))
