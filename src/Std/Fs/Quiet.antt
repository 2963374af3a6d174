-- ===== src/Std/Fs/Quiet.antt =====
-- Actions that leave every entry as it is.
use fixer.Common.{
  ◌≡◌, refl, Bool, true, false, Option, none, some, List, [], ◌∷◌, if◌then◌else◌, arith, list_eq,
}
use fixer.Std.Map.{get}
use fixer.Std.FilePath.{FilePath, component_eq}
use fixer.Std.Result.{Result, ok, err}
use fixer.Std.Action.{Action, attempt}
use fixer.Std.Action.Ensures.{Ensures, Yields, Any, ensures_weaker}
use fixer.Std.Fs.Tree.{Entry, Entries, World, IoKind, not_found, Fault, faulty, run_faulty}
use fixer.Std.Fs.Reads.{symlink_metadata, metadata, read_file, read_entry, follow, max_links, found}
use fixer.Std.Fs.Walk.{canonicalize, real_path, lookup, inspect_path}
use fixer.Std.Fs.Resolved.{LeadsTo, walk-Goes}
use fixer.Std.Fs.Kept.{Since}

abbrev pub Same : Entries → World → Type 0
Same start world = world.entries ≡ start

module _ (start : Entries) where
  run_Same :
      {A : Type 0} (faults : List (Option Fault)) (f : World → Result IoKind A) (world : World)
      → Same start world
      → Same start (run_faulty faults (λ w. (f w, w)) world).1
  run_Same [] f world h = h
  run_Same (none ∷ faults) f world h = h
  run_Same (some fault ∷ faults) f world h = h

  pub any : {E A : Type 0} (r : Result E A) → Yields r Any
  any (ok a) = tt
  any (err e) = tt

  read_Quiet :
      {A : Type 0} (f : World → Result IoKind A)
      → Ensures (Same start) (faulty (λ world. (f world, world))) Any
  read_Quiet f = record { run = λ world h. (run_Same world.faults f world h, any _) }

  pub symlink_metadata_Quiet : (path : FilePath) → Ensures (Same start) (symlink_metadata path) Any
  unfolding symlink_metadata
  symlink_metadata_Quiet path = read_Quiet _

  pub metadata_Quiet : (path : FilePath) → Ensures (Same start) (metadata path) Any
  unfolding metadata
  metadata_Quiet path = read_Quiet _

  pub canonicalize_Quiet : (path : FilePath) → Ensures (Same start) (canonicalize path) Any
  unfolding canonicalize
  canonicalize_Quiet path = read_Quiet _

  pub inspect_path_Quiet : (path : FilePath) → Ensures (Same start) (inspect_path path) Any
  unfolding inspect_path
  inspect_path_Quiet path = read_Quiet _

  pub read_file_Quiet : (path : FilePath) → Ensures (Same start) (read_file path) Any
  unfolding read_file
  read_file_Quiet path = read_Quiet _

  pub if_Quiet :
      {E A : Type 0} {Q : A → Type 0} (b : Bool) {m k : Action World E A}
      → Ensures (Same start) m Q
      → Ensures (Same start) k Q
      → Ensures (Same start) (if b then m else k) Q
  if_Quiet true h j = h
  if_Quiet false h j = j

itself : {E A : Type 0} (r : Result E A) → Yields r (λ a. r ≡ ok a)
itself (ok a) = refl
itself (err e) = tt

-- A read answers by the tree, or fails for a reason outside it.
answered :
    {A : Type 0} (faults : List (Option Fault)) (f : Entries → Result IoKind A) (world : World)
    → Same world.entries (run_faulty faults (λ w. (f w.entries, w)) world).1
      × Yields (run_faulty faults (λ w. (f w.entries, w)) world).0 (λ a. f world.entries ≡ ok a)
answered [] f world = (refl, itself (f world.entries))
answered (none ∷ faults) f world = (refl, itself (f world.entries))
answered (some fault ∷ faults) f world = (refl, tt)

not_there :
    (path : FilePath) (faults : List (Option Fault)) (world : World)
    → (run_faulty faults (λ w. (found (get path w.entries), w)) world).0 ≡ err not_found
    → get path world.entries ≡ none
not_there path [] world h = ground arith
not_there path (none ∷ faults) world h = ground arith
not_there path (some Fault.denied ∷ faults) world h = absurd (ground arith)
not_there path (some Fault.crossed ∷ faults) world h = absurd (ground arith)
not_there path (some Fault.failing ∷ faults) world h = absurd (ground arith)

module _ (start : Entries) where
  pub read_file_exact :
      (path : FilePath)
      → Ensures
          (Same start)
          (read_file path)
          (λ content. read_entry (follow max_links start path) ≡ ok content)
  unfolding read_file
  read_file_exact path = record {
    run = λ world h.
        rw (← h)
          (answered world.faults (λ entries. read_entry (follow max_links entries path)) world);
  }

  pub look_exact :
      {E : Type 0} (path : FilePath)
      → Ensures
          (Same start)
          (attempt {F = E} (symlink_metadata path))
          (λ r. r ≡ err not_found → get path start ≡ none)
  unfolding symlink_metadata attempt
  look_exact path = record {
    run = λ world h. (
      ((symlink_metadata_Quiet start path).run world h).0,
      λ e. rw (← h) (not_there path world.faults world e),
    );
  }

canonicalize_answer :
    (start : Entries) (path : FilePath)
    → Ensures (Same start) (canonicalize path) (λ p. real_path start path ≡ ok p)
unfolding canonicalize
canonicalize_answer start path = record {
  run = λ world h. rw (← h) (answered world.faults (λ entries. real_path entries path) world);
}

-- A canonical path is where the path leads.
pub canonicalize_exact :
    (start : Entries) (path : FilePath)
    → Ensures (Same start) (canonicalize path) (LeadsTo start path)
canonicalize_exact start path =
    ensures_weaker _ (canonicalize_answer start path)
      (λ real e. walk-Goes start max_links [] path real e)

-- What a look at a path says of it.
abbrev pub Tells : Option Entry → Result IoKind Entry → Type 0
Tells there (ok entry) = there ≡ some entry
Tells there (err not_found) = there ≡ none
Tells there (err kind) = Unit {0}

told : (there : Option Entry) → Tells there (found there)
told none = refl
told (some entry) = refl

told_by :
    (path : FilePath) (faults : List (Option Fault)) (world : World)
    → Tells
        (get path world.entries)
        (run_faulty faults (λ w. (found (get path w.entries), w)) world).0
told_by path [] world = told (get path world.entries)
told_by path (none ∷ faults) world = told (get path world.entries)
told_by path (some Fault.denied ∷ faults) world = tt
told_by path (some Fault.crossed ∷ faults) world = tt
told_by path (some Fault.failing ∷ faults) world = tt

pub look-Tells :
    {E : Type 0} (start : Entries) (path : FilePath)
    → Ensures (Same start) (attempt {F = E} (symlink_metadata path)) (Tells (get path start))
unfolding symlink_metadata attempt
look-Tells start path = record {
  run = λ world h. (
    ((symlink_metadata_Quiet start path).run world h).0,
    rw (← h) (told_by path world.faults world),
  );
}

-- What an inspection of a path says of what is there.
abbrev pub Shows : Result IoKind Entry → Result IoKind Entry → Type 0
Shows there (ok entry) = there ≡ ok entry
Shows there (err not_found) = there ≡ err not_found
Shows there (err kind) = Unit {0}

shown : (there : Result IoKind Entry) → Shows there there
shown (ok entry) = refl
shown (err not_found) = refl
shown (err IoKind.already_exists) = tt
shown (err IoKind.permission_denied) = tt
shown (err IoKind.crosses_devices) = tt
shown (err IoKind.other_kind) = tt

shown_by :
    (path : FilePath) (faults : List (Option Fault)) (world : World)
    → Shows
        (lookup world.entries path)
        (run_faulty faults (λ w. (lookup w.entries path, w)) world).0
shown_by path [] world = shown (lookup world.entries path)
shown_by path (none ∷ faults) world = shown (lookup world.entries path)
shown_by path (some Fault.denied ∷ faults) world = tt
shown_by path (some Fault.crossed ∷ faults) world = tt
shown_by path (some Fault.failing ∷ faults) world = tt

pub inspect_path-Shows :
    {E : Type 0} (start : Entries) (path : FilePath)
    → Ensures (Same start) (attempt {F = E} (inspect_path path)) (Shows (lookup start path))
unfolding inspect_path attempt
inspect_path-Shows start path = record {
  run = λ world h. (
    ((inspect_path_Quiet start path).run world h).0,
    rw (← h) (shown_by path world.faults world),
  );
}

-- What leaves every entry leaves those that must stay.
pub Quiet-Kept :
    {E A : Type 0} (start : Entries) (changeable : FilePath → Bool) (m : Action World E A)
    → ((s : Entries) → Ensures (Same s) m Any)
    → Ensures (Since start changeable) m Any
Quiet-Kept start changeable m quiet = record {
  run = λ world since. (
    λ p e there unchanging.
        rw ((quiet world.entries).run world refl).0 (since p e there unchanging),
    any start (m world).0,
  );
}
