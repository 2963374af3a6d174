-- ===== src/Sdk/Executor/Replaced.antt =====
-- A replacing run starts only where the manifest of the prior scrape allows each target.
use fixer.Common.{
  ℕ, suc, ◌≡◌, refl, ◌⊎◌, inl, inr, true, false, Bool-cases, Option, none, some, List, [], ◌∷◌,
  list_eq, if◌then◌else◌,
}
use fixer.Std.Map.{get}
use fixer.Std.Text.{Text}
use fixer.Std.FilePath.{FilePath, component_eq, show_path}
use fixer.Std.Result.{Result, ok, err, is_err}
use fixer.Std.Action.{pure}
use fixer.Std.Action.Ensures.{
  Ensures, Yields, Any, then_ensures, seq_ensures, seq_knowing, pure_ensures, fail_ensures,
  map_error_ensures, attempt_ensures, ensures_weaker,
}
use fixer.Std.Fs.{
  World, Entry, Entries, IoKind, not_found, already_exists, permission_denied, crosses_devices,
  other_kind, is_file, read_entry, follow, max_links,
}
use fixer.Std.Fs.Quiet.{Same, if_Quiet, metadata_Quiet, read_file_exact, look_exact}
use fixer.Core.Error.{CoreError}
use fixer.Core.Output.{
  OutputOperation, create_directory, write_bytes, copy, move, symlink, hardlink, reflink,
}
use fixer.Core.Scrape.{OutputFingerprint, new_fingerprint, ReplacementManifest, allows}
use fixer.Sdk.Report.{ExecutionError, empty_report, replace, default_policy, with_overwrite}
use fixer.Sdk.Targets.{Host, absolute_target}
use fixer.Sdk.Audit.{Run, failing, hashed, output_fingerprint}
use fixer.Sdk.Preflight.{PreparedOutputPlan}
use fixer.Sdk.Preflight.Quiet.{ensure_fresh_Quiet}
use fixer.Sdk.Executor.{
  is_create_directory, allowed, target_found, check_replacement, check_replacements, execute,
  execute_replacing,
}
use fixer.Sdk.Executor.Refused.{check_both}

-- The digest of the file at a path.
abbrev pub DigestOf : Host → Entries → FilePath → OutputFingerprint → Type 0
DigestOf host entries path fingerprint =
    (content : List ℕ) × (read_entry (follow max_links entries path) ≡ ok content)
    × (new_fingerprint (host.sha256 content) ≡ ok fingerprint)

-- Nothing is at the path, or a file that the manifest allows.
abbrev pub AllowedAt : Host → ReplacementManifest → Entries → FilePath → Type 0
AllowedAt host manifest entries path =
    (get path entries ≡ none)
    ⊎ ((fingerprint : OutputFingerprint) × DigestOf host entries path fingerprint
        × (allows manifest (show_path path) fingerprint ≡ true))

abbrev pub AllAllowed :
    Host → ReplacementManifest → Entries → FilePath → List OutputOperation → Type 0
AllAllowed host manifest entries root [] = Unit {0}
AllAllowed host manifest entries root (create_directory target ∷ operations) =
    AllAllowed host manifest entries root operations
AllAllowed host manifest entries root (operation ∷ operations) =
    AllowedAt host manifest entries (absolute_target root operation)
    × AllAllowed host manifest entries root operations

module _ (start : Entries) (host : Host) where
  abbrev Digested : FilePath → Option OutputFingerprint → Type 0
  Digested path none = Unit {0}
  Digested path (some fingerprint) = DigestOf host start path fingerprint

  hashed_exact :
      (path : FilePath) (content : List ℕ) (r : Result CoreError OutputFingerprint)
      → read_entry (follow max_links start path) ≡ ok content
      → new_fingerprint (host.sha256 content) ≡ r
      → Ensures (Same start) (hashed r) (Digested path)
  hashed_exact path content (ok fingerprint) read made = pure_ensures _ _ (content, read, made)
  hashed_exact path content (err e) read made = fail_ensures _ _

  output_fingerprint_exact :
      (path : FilePath) → Ensures (Same start) (output_fingerprint host path) (Digested path)
  unfolding output_fingerprint
  output_fingerprint_exact path =
      then_ensures _ (map_error_ensures _ _ (metadata_Quiet start path)) (λ entry q.
        if_Quiet start (is_file entry.node)
          (then_ensures _ (map_error_ensures _ _ (read_file_exact start path)) (λ content read.
            hashed_exact path content (new_fingerprint (host.sha256 content)) read refl))
          (pure_ensures _ _ tt))

  module _ (manifest : ReplacementManifest) (root : FilePath) where
    checked_exact :
        (path : FilePath) (r : Result ExecutionError (Option OutputFingerprint))
        (e : Run (Unit {0}))
        → Yields r (Digested path)
        → Ensures (Same start) e (λ _. AllowedAt host manifest start path)
        → Ensures
            (Same start)
            (if allowed manifest path r then pure tt else e)
            (λ _. AllowedAt host manifest start path)
    checked_exact path (ok none) e h k = k
    checked_exact path (err x) e h k = k
    checked_exact path (ok (some fingerprint)) e h k =
        elim (Bool-cases (allows manifest (show_path path) fingerprint)) [
          | inl fits ↦ rw fits (pure_ensures _ _ (inr (fingerprint, h, fits)))
          | inr differs ↦ rw differs k
        ]

    target_found_exact :
        (operation : OutputOperation) (index : ℕ) (r : Result IoKind Entry)
        → (r ≡ err not_found → get (absolute_target root operation) start ≡ none)
        → Ensures
            (Same start)
            (target_found host manifest root operation index r)
            (λ _. AllowedAt host manifest start (absolute_target root operation))
    target_found_exact operation index (err not_found) h = pure_ensures _ _ (inl (h refl))
    target_found_exact operation index (err already_exists) h = fail_ensures _ _
    target_found_exact operation index (err permission_denied) h = fail_ensures _ _
    target_found_exact operation index (err crosses_devices) h = fail_ensures _ _
    target_found_exact operation index (err other_kind) h = fail_ensures _ _
    target_found_exact operation index (ok entry) h =
        then_ensures _
          (attempt_ensures _ (output_fingerprint_exact (absolute_target root operation)))
          (λ r d. checked_exact (absolute_target root operation) r _ d (fail_ensures _ _))

    check_replacement_exact :
        (index : ℕ) (operation : OutputOperation)
        → is_create_directory operation ≡ false
        → Ensures
            (Same start)
            (check_replacement host manifest root index operation)
            (λ _. AllowedAt host manifest start (absolute_target root operation))
    unfolding check_replacement
    check_replacement_exact index operation h = rw h (
        then_ensures _ (look_exact start (absolute_target root operation))
          (λ r e. target_found_exact operation index r e))

    one_allowed :
        (index : ℕ) (operation : OutputOperation) (operations : List OutputOperation)
        → is_create_directory operation ≡ false
        → Ensures
            (Same start)
            (check_replacements host manifest root (suc index) operations)
            (λ _. AllAllowed host manifest start root operations)
        → Ensures
            (Same start)
            (check_replacements host manifest root index (operation ∷ operations))
            (λ _.
              AllowedAt host manifest start (absolute_target root operation)
              × AllAllowed host manifest start root operations)
    unfolding check_replacements
    one_allowed index operation operations h rest =
        seq_knowing _ (check_replacement_exact index operation h)
          (λ fits. ensures_weaker _ rest (λ a others. (fits, others)))

    directory_Same :
        (index : ℕ) (target : Text)
        → Ensures
            (Same start)
            (check_replacement host manifest root index (create_directory target))
            Any
    unfolding check_replacement
    directory_Same index target = pure_ensures _ _ tt

    directory_first :
        (index : ℕ) (target : Text) (operations : List OutputOperation)
        → Ensures
            (Same start)
            (check_replacements host manifest root (suc index) operations)
            (λ _. AllAllowed host manifest start root operations)
        → Ensures
            (Same start)
            (check_replacements host manifest root index (create_directory target ∷ operations))
            (λ _. AllAllowed host manifest start root operations)
    unfolding check_replacements
    directory_first index target operations rest = seq_ensures _ (directory_Same index target) rest

    check_replacements_exact :
        (index : ℕ) (operations : List OutputOperation)
        → Ensures
            (Same start)
            (check_replacements host manifest root index operations)
            (λ _. AllAllowed host manifest start root operations)
    unfolding check_replacements
    check_replacements_exact index [] = pure_ensures _ _ tt
    check_replacements_exact index (create_directory target ∷ operations) =
        directory_first index target operations (check_replacements_exact (suc index) operations)
    check_replacements_exact index (write_bytes t content ∷ operations) =
        one_allowed index (write_bytes t content) operations refl
          (check_replacements_exact (suc index) operations)
    check_replacements_exact index (copy s t ∷ operations) =
        one_allowed index (copy s t) operations refl
          (check_replacements_exact (suc index) operations)
    check_replacements_exact index (move s t ∷ operations) =
        one_allowed index (move s t) operations refl
          (check_replacements_exact (suc index) operations)
    check_replacements_exact index (symlink s t ∷ operations) =
        one_allowed index (symlink s t) operations refl
          (check_replacements_exact (suc index) operations)
    check_replacements_exact index (hardlink s t ∷ operations) =
        one_allowed index (hardlink s t) operations refl
          (check_replacements_exact (suc index) operations)
    check_replacements_exact index (reflink s t ∷ operations) =
        one_allowed index (reflink s t) operations refl
          (check_replacements_exact (suc index) operations)

-- A replacing run either finds, at the target of each operation but the directories, nothing or a
-- file whose digest the manifest has for that target, or it fails and changes no entry.
pub execute_replacing_allowed :
    (host : Host) (prepared : PreparedOutputPlan) (manifest : ReplacementManifest) (world : World)
    → AllAllowed host manifest world.entries prepared.root prepared.plan.operations
      ⊎ ((is_err (execute_replacing host prepared manifest world).0 ≡ true)
          × ((execute_replacing host prepared manifest world).1.entries ≡ world.entries))
unfolding execute_replacing
execute_replacing_allowed host prepared manifest world =
    check_both (execute host prepared (with_overwrite replace default_policy))
      (AllAllowed host manifest world.entries prepared.root prepared.plan.operations) _ _ world
      (map_error_ensures _ (failing empty_report)
        (ensure_fresh_Quiet world.entries prepared.observed))
      (check_replacements_exact world.entries host manifest prepared.root 0
        prepared.plan.operations)
