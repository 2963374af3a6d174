-- ===== src/Std/Fs/Kept.antt =====
-- What calls leave of the entries that were there at a start, but for paths that may change.
use fixer.Common.{
  ℕ, ◌≡◌, refl, Bool-cases, inl, inr, Bool, true, false, Option, none, some, List, [], ◌∷◌, ◌++◌,
  arith, list_eq, list_beq_iff, if◌then◌else◌,
}
use fixer.Std.Map.{get, put, erase, get-put, get-erase}
use fixer.Std.FilePath.{FilePath, component_eq}
use fixer.Std.Result.{Result, ok, err}
use fixer.Std.Action.{attempt}
use fixer.Std.Action.Ensures.{Ensures, Yields, Any, attempt_ensures}
use fixer.Std.Fs.Tree.{
  IoKind, not_found, already_exists, Node, Entry, Entries, World, Io, Fault, faulty, run_faulty,
}
use fixer.Std.Fs.Reads.{
  symlink_metadata, metadata, read_file, follow, max_links, is_directory, has_parent, read_entry,
  found, followed,
}
use fixer.Std.Fs.Walk.{canonicalize, real_path}
use fixer.Std.Fs.Writes.{
  store, fresh, new_entry, create_entry, create_new, make_symlink, write_entry, write_all, sync_all,
  copy_read, copy_file, link_entry, hard_link, same_inode, rename_entry, rename, remove_entry,
  remove_file, make_directory, create_dir, then_in, create_dirs, create_dir_all,
}

module _ (start : Entries) (changeable : FilePath → Bool) where
  -- Every entry at the start is there, but for those that may change.
  abbrev pub Since : World → Type 0
  Since world =
      (p : FilePath) (e : Entry)
      → get p start ≡ some e
      → changeable p ≡ false
      → get p world.entries ≡ some e

  -- A path that was not there or may change.
  pub data Free (p : FilePath) : Type 0 where
    absent : get p start ≡ none → Free p
    open_to : changeable p ≡ true → Free p

  abbrev pub Call : {A : Type 0} → Io A → (A → Type 0) → Type 0
  Call m Q = Ensures Since m Q

  Free-of_none : {p : FilePath} (world : World) → Since world → get p world.entries ≡ none → Free p
  Free-of_none {p} world since h = at (get p start) (changeable p) refl refl
    where
      at : (r : Option Entry) (c : Bool) → get p start ≡ r → changeable p ≡ c → Free p
      at none c e d = absent e
      at (some x) true e d = open_to d
      at (some x) false e d = absurd (ground (arith, since p x e d))

  store-Since :
      {p : FilePath} (e : Entry) (world : World) → Free p → Since world → Since (store p e world)
  store-Since {p} e world (absent h) since q x there unchanging =
      ground (arith, get-put p q e world.entries, list_beq_iff p q, since q x there unchanging)
  store-Since {p} e world (open_to h) since q x there unchanging =
      ground (arith, get-put p q e world.entries, list_beq_iff p q, since q x there unchanging)

  erase-Since :
      {p : FilePath} (entries : Entries) (world : World)
      → Free p
      → Since (record world { entries = entries })
      → Since (record world { entries = erase p entries })
  erase-Since {p} entries world (absent h) since q x there unchanging =
      ground (arith, get-erase p q entries, list_beq_iff p q, since q x there unchanging)
  erase-Since {p} entries world (open_to h) since q x there unchanging =
      ground (arith, get-erase p q entries, list_beq_iff p q, since q x there unchanging)

  abbrev Kept : {A : Type 0} → (A → Type 0) → Result IoKind A × World → Type 0
  Kept Q (r, world) = Since world × Yields r Q

  kept_faulty :
      {A : Type 0} (Q : A → Type 0) (call : Io A) (faults : List (Option Fault)) (world : World)
      → Call call Q
      → Since world
      → Kept Q (run_faulty faults call world)
  kept_faulty Q call [] world h since = h.run world since
  kept_faulty Q call (none ∷ faults) world h since = h.run (record world { faults = faults }) since
  kept_faulty Q call (some fault ∷ faults) world h since = (since, tt)

  faulty_Call : {A : Type 0} {Q : A → Type 0} {call : Io A} → Call call Q → Call (faulty call) Q
  faulty_Call {Q} {call} h = record {
    run = λ world since. kept_faulty Q call world.faults world h since;
  }

  read_Call :
      {A : Type 0} {Q : A → Type 0} {f : World → Result IoKind A}
      → ((world : World) → Since world → Yields (f world) Q)
      → Call (λ world. (f world, world)) Q
  read_Call h = record { run = λ world since. (since, h world since) }

  any : {A : Type 0} (r : Result IoKind A) → Yields r Any
  any (ok a) = tt
  any (err e) = tt

  pub symlink_metadata_Call : (path : FilePath) → Call (symlink_metadata path) Any
  unfolding symlink_metadata
  symlink_metadata_Call path =
      faulty_Call (read_Call (λ world since. any (found (get path world.entries))))

  pub metadata_Call : (path : FilePath) → Call (metadata path) Any
  unfolding metadata
  metadata_Call path =
      faulty_Call (read_Call (λ world since. any (followed (follow max_links world.entries path))))

  pub canonicalize_Call : (path : FilePath) → Call (canonicalize path) Any
  unfolding canonicalize
  canonicalize_Call path =
      faulty_Call (read_Call (λ world since. any (real_path world.entries path)))

  pub read_file_Call : (path : FilePath) → Call (read_file path) Any
  unfolding read_file
  read_file_Call path =
      faulty_Call
        (read_Call (λ world since. any (read_entry (follow max_links world.entries path))))

  -- A look at a path that says it is not there.
  looked :
      (path : FilePath) (faults : List (Option Fault)) (world : World)
      → Since world
      → (run_faulty faults (λ w. (found (get path w.entries), w)) world).0 ≡ err not_found
      → Free path
  looked path [] world since h = Free-of_none world since (ground arith)
  looked path (none ∷ faults) world since h = Free-of_none world since (ground arith)
  looked path (some Fault.denied ∷ faults) world since h = absurd (ground arith)
  looked path (some Fault.crossed ∷ faults) world since h = absurd (ground arith)
  looked path (some Fault.failing ∷ faults) world since h = absurd (ground arith)

  pub look_Call :
      {E : Type 0} (path : FilePath)
      → Ensures Since (attempt {F = E} (symlink_metadata path)) (λ r. r ≡ err not_found → Free path)
  unfolding symlink_metadata attempt
  look_Call {E} path = record {
    run = λ world since. (
      ((attempt_ensures Since {F = E} (symlink_metadata_Call path)).run world since).0,
      looked path world.faults world since,
    );
  }

  new_kept :
      (there : Option Entry) (parent : Bool) (path : FilePath) (node : Node) (world : World)
      → get path world.entries ≡ there
      → Since world
      → Kept (λ _. Free path) (new_entry there parent path node world)
  new_kept (some entry) parent path node world h since = (since, tt)
  new_kept none false path node world h since = (since, tt)
  new_kept none true path node world h since =
      let gap = Free-of_none world since h in (store-Since (fresh node world) world gap since, gap)

  pub create_entry_Call :
      (path : FilePath) (node : Node) → Call (create_entry path node) (λ _. Free path)
  unfolding create_entry
  create_entry_Call path node = faulty_Call (record {
    run = λ world.
        new_kept (get path world.entries) (has_parent path world.entries) path node world refl;
  })

  pub create_new_Call : (path : FilePath) → Call (create_new path) (λ _. Free path)
  unfolding create_new
  create_new_Call path = create_entry_Call path (Node.file [])

  pub make_symlink_Call : (to path : FilePath) → Call (make_symlink to path) (λ _. Free path)
  unfolding make_symlink
  make_symlink_Call to path = create_entry_Call path (Node.symlink to)

  write_kept :
      (there : Option Entry) (path : FilePath) (content : List ℕ) (world : World)
      → Free path
      → Since world
      → Kept Any (write_entry there path content world)
  write_kept none path content world gap since = (since, tt)
  write_kept (some entry) path content world gap since = (store-Since _ world gap since, tt)

  pub write_all_Call :
      {path : FilePath} (content : List ℕ) → Free path → Call (write_all path content) Any
  unfolding write_all
  write_all_Call {path} content gap =
      faulty_Call
        (record { run = λ world. write_kept (get path world.entries) path content world gap })

  pub sync_all_Call : Call sync_all Any
  unfolding sync_all
  sync_all_Call = faulty_Call (read_Call (λ world since. tt))

  copy_kept :
      (content : Result IoKind (List ℕ)) (path : FilePath) (world : World)
      → Free path
      → Since world
      → Kept Any (copy_read content path world)
  copy_kept (err kind) path world gap since = (since, tt)
  copy_kept (ok content) path world gap since =
      write_kept (get path world.entries) path content world gap since

  pub copy_file_Call :
      {path : FilePath} (from : FilePath) → Free path → Call (copy_file from path) Any
  unfolding copy_file
  copy_file_Call {path} from gap = faulty_Call (record {
    run = λ world. copy_kept (read_entry (follow max_links world.entries from)) path world gap;
  })

  link_kept :
      (source there : Option Entry) (parent : Bool) (path : FilePath) (world : World)
      → get path world.entries ≡ there
      → Since world
      → Kept (λ _. Free path) (link_entry source there parent path world)
  link_kept none there parent path world h since = (since, tt)
  link_kept (some source) (some entry) parent path world h since = (since, tt)
  link_kept (some source) none false path world h since = (since, tt)
  link_kept (some source) none true path world h since =
      let gap = Free-of_none world since h in (store-Since source world gap since, gap)

  pub hard_link_Call : (from path : FilePath) → Call (hard_link from path) (λ _. Free path)
  unfolding hard_link
  hard_link_Call from path = faulty_Call (record {
    run = λ world.
        link_kept (get from world.entries) (get path world.entries) (has_parent path world.entries)
          path world refl;
  })

  rename_kept :
      (source there : Option Entry) (parent : Bool) (from path : FilePath) (world : World)
      → Free from
      → Free path
      → Since world
      → Kept Any (rename_entry source there parent from path world)
  rename_kept none there parent from path world f p since = (since, tt)
  rename_kept (some source) there false from path world f p since = (since, tt)
  rename_kept (some source) there true from path world f p since =
      elim (Bool-cases (same_inode source there)) [
        | inl same ↦ rw same (since, tt)
        | inr differ ↦ rw differ (elim (Bool-cases (is_directory there)) [
          | inl folder ↦ rw folder (since, tt)
          | inr file ↦ rw file (
            erase-Since (put path source world.entries) world f (store-Since source world p since),
            tt,
          )
        ])
      ]

  pub rename_Call : {from path : FilePath} → Free from → Free path → Call (rename from path) Any
  unfolding rename
  rename_Call {from} {path} f p = faulty_Call (record {
    run = λ world.
        rename_kept (get from world.entries) (get path world.entries)
          (has_parent path world.entries) from path world f p;
  })

  remove_kept :
      (there : Option Entry) (path : FilePath) (world : World)
      → Free path
      → Since world
      → Kept Any (remove_entry there path world)
  remove_kept none path world gap since = (since, tt)
  remove_kept (some entry) path world gap since = elim (Bool-cases (is_directory (some entry))) [
    | inl folder ↦ rw folder (since, tt)
    | inr file ↦ rw file (erase-Since world.entries world gap since, tt)
  ]

  pub remove_file_Call : {path : FilePath} → Free path → Call (remove_file path) Any
  unfolding remove_file
  remove_file_Call {path} gap =
      faulty_Call (record { run = λ world. remove_kept (get path world.entries) path world gap })

  made_kept :
      (behind : Option (FilePath × Entry)) (there : Option Entry) (path : FilePath) (world : World)
      → get path world.entries ≡ there
      → Since world
      → Kept Any (make_directory behind there path world)
  made_kept (some (place, entry)) there path world h since =
      (since, any (if is_directory (some entry) then ok tt else err already_exists))
  made_kept none (some entry) path world h since = (since, tt)
  made_kept none none path world h since =
      (store-Since (fresh Node.directory world) world (Free-of_none world since h) since, tt)

  create_dir_Call : (path : FilePath) → Call (create_dir path) Any
  unfolding create_dir
  create_dir_Call path = faulty_Call (record {
    run = λ world.
        made_kept (follow max_links world.entries path) (get path world.entries) path world refl;
  })

  then_kept :
      (path : FilePath) (next' : FilePath → Io (Unit {0})) (r : Result IoKind (Unit {0}) × World)
      → Kept Any r
      → Call (next' path) Any
      → Kept Any (then_in path next' r)
  then_kept path next' (ok done, world) h k = k.run world h.0
  then_kept path next' (err kind, world) h k = (h.0, tt)

  create_dirs_Call : (done rest : FilePath) → Call (create_dirs done rest) Any
  unfolding create_dirs
  create_dirs_Call done [] = record { run = λ world since. (since, tt) }
  create_dirs_Call done (c ∷ rest) = record {
    run = λ world since.
        then_kept (done ++ c ∷ []) (λ p. create_dirs p rest) (create_dir (done ++ c ∷ []) world)
          ((create_dir_Call (done ++ c ∷ [])).run world since)
          (create_dirs_Call (done ++ c ∷ []) rest);
  }

  pub create_dir_all_Call : (path : FilePath) → Call (create_dir_all path) Any
  unfolding create_dir_all
  create_dir_all_Call path = create_dirs_Call [] path
