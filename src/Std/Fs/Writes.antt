-- ===== src/Std/Fs/Writes.antt =====
-- Calls that change the tree.
use fixer.Common.{
  ℕ, ◌+◌, Bool, true, false, Option, none, some, List, [], ◌∷◌, ◌++◌, ◌==◌, nat_eq, list_eq,
  if◌then◌else◌,
}
use fixer.Std.Map.{get, put, erase}
use fixer.Std.FilePath.{FilePath, component_eq}
use fixer.Std.Result.{Result, ok, err}
use fixer.Std.Fs.Tree.{
  IoKind, not_found, already_exists, other_kind, Node, file, directory, symlink, Entry, World, Io,
  faulty,
}
use fixer.Std.Fs.Reads.{follow, max_links, is_directory, has_parent, read_entry}

-- Writes an entry with a new time.
abbrev pub store : FilePath → Entry → World → World
store path entry world = record world {
  entries = put path entry world.entries;
  stamp = world.stamp + 1;
}

abbrev pub fresh : Node → World → Entry
fresh node world = record { inode = world.stamp; modified = world.stamp; node = node }

abbrev pub new_entry : Option Entry → Bool → FilePath → Node → Io (Unit {0})
new_entry (some entry) parent path node world = (err already_exists, world)
new_entry none false path node world = (err not_found, world)
new_entry none true path node world = (ok tt, store path (fresh node world) world)

-- Makes an entry that is not there.
unfoldable pub create_entry : FilePath → Node → Io (Unit {0})
create_entry path node =
    faulty
      (λ world. new_entry (get path world.entries) (has_parent path world.entries) path node world)

-- `OpenOptions::new().write(true).create_new(true).open(..)`
unfoldable pub create_new : FilePath → Io (Unit {0})
unfolding create_entry
create_new path = create_entry path (file [])

-- std::os::unix::fs::symlink
unfoldable pub make_symlink : FilePath → FilePath → Io (Unit {0})
unfolding create_entry
make_symlink to path = create_entry path (symlink to)

abbrev pub write_entry : Option Entry → FilePath → List ℕ → Io (Unit {0})
write_entry none path content world = (err not_found, world)
write_entry (some entry) path content world = (
  ok tt,
  store path (record { inode = entry.inode; modified = world.stamp; node = file content }) world,
)

-- Write::write_all of the whole content.
unfoldable pub write_all : FilePath → List ℕ → Io (Unit {0})
write_all path content = faulty (λ world. write_entry (get path world.entries) path content world)

-- File::sync_all
unfoldable pub sync_all : Io (Unit {0})
sync_all = faulty (λ world. (ok tt, world))

abbrev pub copy_read : Result IoKind (List ℕ) → FilePath → Io (Unit {0})
copy_read (err kind) path world = (err kind, world)
copy_read (ok content) path world = write_entry (get path world.entries) path content world

-- fs::copy to a file that is there.
unfoldable pub copy_file : FilePath → FilePath → Io (Unit {0})
copy_file from path =
    faulty (λ world. copy_read (read_entry (follow max_links world.entries from)) path world)

abbrev pub link_entry : Option Entry → Option Entry → Bool → FilePath → Io (Unit {0})
link_entry none target parent path world = (err not_found, world)
link_entry (some source) (some entry) parent path world = (err already_exists, world)
link_entry (some source) none false path world = (err not_found, world)
link_entry (some source) none true path world = (ok tt, store path source world)

-- fs::hard_link
unfoldable pub hard_link : FilePath → FilePath → Io (Unit {0})
hard_link from path = faulty (λ world.
    link_entry (get from world.entries) (get path world.entries) (has_parent path world.entries)
      path world)

-- Two links to one inode.
abbrev pub same_inode : Entry → Option Entry → Bool
same_inode entry none = false
same_inode entry (some target) = entry.inode == target.inode

abbrev pub rename_entry : Option Entry → Option Entry → Bool → FilePath → FilePath → Io (Unit {0})
rename_entry none target parent from path world = (err not_found, world)
rename_entry (some source) target false from path world = (err not_found, world)
rename_entry (some source) target true from path world =
    if same_inode source target
    then (ok tt, world)
    else if is_directory target
    then (err other_kind, world)
    else (
      ok tt,
      record world {
        entries = erase from (put path source world.entries);
        stamp = world.stamp + 1;
      },
    )

-- fs::rename of a file. POSIX leaves two links to one inode as they are.
unfoldable pub rename : FilePath → FilePath → Io (Unit {0})
rename from path = faulty (λ world.
    rename_entry (get from world.entries) (get path world.entries) (has_parent path world.entries)
      from path world)

abbrev pub remove_entry : Option Entry → FilePath → Io (Unit {0})
remove_entry none path world = (err not_found, world)
remove_entry (some entry) path world =
    if is_directory (some entry)
    then (err other_kind, world)
    else (ok tt, record world { entries = erase path world.entries; stamp = world.stamp + 1 })

-- fs::remove_file
unfoldable pub remove_file : FilePath → Io (Unit {0})
remove_file path = faulty (λ world. remove_entry (get path world.entries) path world)

-- One directory of `create_dir_all`: it is there, behind links, or it is made.
abbrev pub make_directory : Option (FilePath × Entry) → Option Entry → FilePath → Io (Unit {0})
make_directory (some (place, entry)) present path world =
    (if is_directory (some entry) then ok tt else err already_exists, world)
make_directory none (some entry) path world = (err already_exists, world)
make_directory none none path world = (ok tt, store path (fresh directory world) world)

unfoldable pub create_dir : FilePath → Io (Unit {0})
create_dir path = faulty (λ world.
    make_directory (follow max_links world.entries path) (get path world.entries) path world)

abbrev pub then_in :
    FilePath
    → (FilePath → Io (Unit {0}))
    → Result IoKind (Unit {0}) × World
    → Result IoKind (Unit {0}) × World
then_in path next (err kind, world) = (err kind, world)
then_in path next (ok done, world) = next path world

-- The directories of `rest` below `done`, from the outermost.
unfoldable pub create_dirs : FilePath → FilePath → Io (Unit {0})
unfolding create_dir
create_dirs done [] world = (ok tt, world)
create_dirs done (c ∷ rest) world =
    let path = done ++ c ∷ [] in then_in path (λ p. create_dirs p rest) (create_dir path world)

-- fs::create_dir_all
unfoldable pub create_dir_all : FilePath → Io (Unit {0})
unfolding create_dirs
create_dir_all path = create_dirs [] path
