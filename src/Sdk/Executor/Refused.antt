-- ===== src/Sdk/Executor/Refused.antt =====
-- A plan is run only on the paths it was prepared for, and replaces only what the manifest allows.
use fixer.Common.{
  ℕ, ◌≡◌, refl, sym, ◌∙◌, ◌⊎◌, inl, inr, true, Option, none, some, List, [], ◌∷◌, list_eq,
}
use fixer.Std.Map.{get}
use fixer.Std.Path.{components}
use fixer.Std.FilePath.{FilePath, component_eq, parent_path}
use fixer.Std.Result.{Result, ok, err, is_err}
use fixer.Std.Action.{Action, ◌>>=◌, ◌>>◌, fail, then_run, succeed, attempt}
use fixer.Std.Action.Ensures.{
  Ensures, Yields, Any, then_ensures, seq_knowing, pure_ensures, require_ensures, map_error_ensures,
  ensures_weaker,
}
use fixer.Std.Fs.{World, Entry, Entries, Fault, run_faulty, found, symlink_metadata}
use fixer.Std.Fs.Quiet.{Same}
use fixer.Sdk.Report.{ExecutionPolicy, ExecutionError, ExecutionReport, empty_report}
use fixer.Sdk.Fingerprint.{
  PathFingerprint, missing, from_metadata, capture, captured, fingerprint_eq, fingerprint_beq_iff,
}
use fixer.Sdk.Targets.{Host, relative_target}
use fixer.Sdk.Audit.{Run, failing}
use fixer.Sdk.Preflight.{
  ObservedPath, PreparedOutputPlan, ensure_fresh, ancestors_of, ensure_safe_ancestors,
}
use fixer.Sdk.Preflight.Ancestors.{NoLinks, ensure_safe_ancestors_exact}
use fixer.Core.Output.{OutputOperation}
use fixer.Sdk.Executor.{or_fail, run_operation, run_plan, execute}

-- What is there at a path.
abbrev entry_fingerprint : Option Entry → PathFingerprint
entry_fingerprint none = missing
entry_fingerprint (some entry) = from_metadata entry

abbrev pub fingerprint_at : FilePath → Entries → PathFingerprint
fingerprint_at path entries = entry_fingerprint (get path entries)

-- Every observed path is as it was observed.
abbrev pub AllFresh : Entries → List ObservedPath → Type 0
AllFresh entries [] = Unit {0}
AllFresh entries (o ∷ rest) =
    (fingerprint_at o.path entries ≡ o.fingerprint) × AllFresh entries rest

module _ (start : Entries) where
  captured-found :
      (there : Option Entry) (world : World)
      → Same start world
      → Same start (captured (found there, world)).1
        × Yields (captured (found there, world)).0 (λ f. f ≡ entry_fingerprint there)
  captured-found none world h = (h, refl)
  captured-found (some entry) world h = (h, refl)

  captured_run :
      (path : FilePath) (faults : List (Option Fault)) (world : World)
      → Same start world
      → Same start (captured (run_faulty faults (λ w. (found (get path w.entries), w)) world)).1
        × Yields
            (captured (run_faulty faults (λ w. (found (get path w.entries), w)) world)).0
            (λ f. f ≡ fingerprint_at path world.entries)
  captured_run path [] world h = captured-found (get path world.entries) world h
  captured_run path (none ∷ faults) world h = captured-found (get path world.entries) _ h
  captured_run path (some Fault.denied ∷ faults) world h = (h, tt)
  captured_run path (some Fault.crossed ∷ faults) world h = (h, tt)
  captured_run path (some Fault.failing ∷ faults) world h = (h, tt)

module _ (start : Entries) where
  capture_exact :
      (path : FilePath) → Ensures (Same start) (capture path) (λ f. f ≡ fingerprint_at path start)
  unfolding capture symlink_metadata
  capture_exact path = record {
    run = λ world h. rw (← h) (captured_run world.entries path world.faults world refl);
  }

  ensure_fresh_exact :
      (observed : List ObservedPath)
      → Ensures (Same start) (ensure_fresh observed) (λ _. AllFresh start observed)
  unfolding ensure_fresh
  ensure_fresh_exact [] = pure_ensures _ _ tt
  ensure_fresh_exact (o ∷ rest) =
      then_ensures _ (map_error_ensures _ _ (capture_exact o.path)) (λ current e.
        seq_knowing _ (require_ensures _ _) (λ h.
          ensures_weaker _ (ensure_fresh_exact rest)
            (λ a fresh. (sym e ∙ (fingerprint_beq_iff current o.fingerprint).0 h, fresh))))

-- An action behind a check: the check passes, or the whole fails where it failed.
module _ {E : Type 0} {A : Type 0} (k : Action World E A) where
  abbrev pub Stopped : Result E A × World → Entries → Type 0
  Stopped (r, world) entries = (is_err r ≡ true) × (world.entries ≡ entries)

  after_check :
      (P : Type 0) (start : Entries) (x : Result E (Unit {0}) × World)
      → (x.1.entries ≡ start) × Yields x.0 (λ _. P)
      → P ⊎ Stopped (then_run (λ _. k) x) start
  after_check P start (ok done, world) h = inl h.1
  after_check P start (err e, world) h = inr (refl, h.0)

  check_from :
      (P : Type 0) (m : Action World E (Unit {0})) {start : Entries} (world : World)
      → Same start world
      → Ensures (Same start) m (λ _. P)
      → P ⊎ Stopped ((m >> k) world) start
  unfolding ◌>>◌ ◌>>=◌
  check_from P m world same h = after_check P _ (m world) (h.run world same)

  pub check_first :
      (P : Type 0) (m : Action World E (Unit {0})) (world : World)
      → Ensures (Same world.entries) m (λ _. P)
      → P ⊎ Stopped ((m >> k) world) world.entries
  check_first P m world h = check_from P m world refl h

  after_first :
      (P : Type 0) (start : Entries) (m : Action World E (Unit {0}))
      (x : Result E (Unit {0}) × World)
      → (x.1.entries ≡ start) × Yields x.0 Any
      → Ensures (Same start) m (λ _. P)
      → P ⊎ Stopped (then_run (λ _. m >> k) x) start
  after_first P start m (ok done, world) h j = check_from P m world h.0 j
  after_first P start m (err e, world) h j = inr (refl, h.0)

  -- The same for the second of two checks.
  pub check_both :
      (P : Type 0) (m n : Action World E (Unit {0})) (world : World)
      → Ensures (Same world.entries) m Any
      → Ensures (Same world.entries) n (λ _. P)
      → P ⊎ Stopped ((m >> (n >> k)) world) world.entries
  unfolding ◌>>◌ ◌>>=◌
  check_both P m n world h j = after_first P world.entries n (m world) (h.run world refl) j

-- A plan is stale where a path is not as it was observed: then a run fails and changes nothing.
pub execute_fresh :
    (host : Host) (prepared : PreparedOutputPlan) (policy : ExecutionPolicy) (world : World)
    → AllFresh world.entries prepared.observed
      ⊎ ((is_err (execute host prepared policy world).0 ≡ true)
          × ((execute host prepared policy world).1.entries ≡ world.entries))
unfolding execute
execute_fresh host prepared policy world =
    check_first (run_plan host prepared policy policy.is_dry_run)
      (AllFresh world.entries prepared.observed) _ world
      (map_error_ensures _ (failing empty_report)
        (ensure_fresh_exact world.entries prepared.observed))

after_safe :
    (P : Type 0) (start : Entries) (host : Host) (report : ExecutionReport) (root : FilePath)
    (operation : OutputOperation) (index : ℕ) (k : Run ExecutionReport)
    (x : Result ExecutionError (Unit {0}) × World)
    → (x.1.entries ≡ start) × Yields x.0 (λ _. P)
    → P
      ⊎ Stopped k
          (then_run (λ safe. or_fail host report root operation index safe >> k) (succeed x))
          start
unfolding ◌>>◌ ◌>>=◌ fail
after_safe P start host report root operation index k (ok done, world) h = inl h.1
after_safe P start host report root operation index k (err e, world) h = inr (refl, h.0)

-- A round of a run either finds no link among the directories between the root and its target, or
-- it fails and changes no entry.
pub run_operation_guarded :
    (host : Host) (root : FilePath) (policy : ExecutionPolicy) (report : ExecutionReport)
    (index : ℕ) (operation : OutputOperation) (world : World)
    → NoLinks world.entries root
        (ancestors_of (parent_path (components (relative_target operation))))
      ⊎ ((is_err (run_operation host root policy report index operation world).0 ≡ true)
          × ((run_operation host root policy report index operation world).1.entries
              ≡ world.entries))
unfolding run_operation ◌>>=◌ attempt
run_operation_guarded host root policy report index operation world =
    after_safe _ world.entries host report root operation index _
      (ensure_safe_ancestors root (relative_target operation) world)
      ((ensure_safe_ancestors_exact world.entries root (relative_target operation)).run world refl)
