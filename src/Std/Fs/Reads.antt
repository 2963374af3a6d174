-- ===== src/Std/Fs/Reads.antt =====
-- Calls that change nothing.
use fixer.Common.{
  ℕ, zero, suc, Bool, true, false, Option, none, some, List, [], ◌∷◌, ◌++◌, nat_eq, list_eq, length,
}
use fixer.Std.Map.{get}
use fixer.Std.FilePath.{FilePath, component_eq, parent_path, join_path, pop, show_path}
use fixer.Std.Path.{root_dir, cur_dir, parent_dir, normal}
use fixer.Std.Result.{Result, ok, err}
use fixer.Std.Fs.Tree.{
  IoKind, not_found, other_kind, Node, file, directory, symlink, Entry, Entries, Io, faulty,
}

abbrev pub found : {A : Type 0} → Option A → Result IoKind A
found none = err not_found
found (some a) = ok a

-- fs::symlink_metadata, of a path that has neither `..` nor a link on the way.
unfoldable pub symlink_metadata : FilePath → Io Entry
symlink_metadata path = faulty (λ world. (found (get path world.entries), world))

-- `..` and `.` taken away.
unfoldable pub normalize_from : FilePath → FilePath → FilePath
normalize_from done [] = done
normalize_from done (cur_dir ∷ rest) = normalize_from done rest
normalize_from done (parent_dir ∷ rest) = normalize_from (pop done) rest
normalize_from done (root_dir ∷ rest) = normalize_from (root_dir ∷ []) rest
normalize_from done (normal segment ∷ rest) = normalize_from (done ++ normal segment ∷ []) rest

-- Where a link at `path` leads.
abbrev pub link_target : FilePath → FilePath → FilePath
link_target path to = normalize_from [] (join_path (pop path) to)

-- The path behind at most `fuel` links; Linux follows 40.
unfoldable pub follow : ℕ → Entries → FilePath → Option (FilePath × Entry)
follow zero entries path = none
follow (suc fuel) entries path = elim (get path entries) [
  | none ↦ none
  | some entry ↦ elim entry.node [
    | symlink to ↦ follow fuel entries (link_target path to)
    | _ ↦ some (path, entry)
  ]
]

abbrev pub max_links : ℕ
max_links = 40

abbrev pub followed : Option (FilePath × Entry) → Result IoKind Entry
followed none = err not_found
followed (some (path, entry)) = ok entry

-- fs::metadata
unfoldable pub metadata : FilePath → Io Entry
metadata path = faulty (λ world. (followed (follow max_links world.entries path), world))

-- Metadata::len. A directory's is not modelled.
abbrev pub metadata_len : Node → ℕ
metadata_len (file content) = length content
metadata_len directory = 0
metadata_len (symlink to) = length (show_path to)

-- MetadataExt::dev. There is one device; a move can still cross devices, as a fault.
abbrev pub device_number : ℕ
device_number = 0

-- FileType::is_file and FileType::is_symlink
abbrev pub is_file : Node → Bool
is_file (file content) = true
is_file _ = false

abbrev pub is_symlink : Node → Bool
is_symlink (symlink to) = true
is_symlink _ = false

abbrev pub is_directory : Option Entry → Bool
is_directory none = false
is_directory (some entry) = elim entry.node [ directory ↦ true | _ ↦ false ]

abbrev pub followed_entry : Option (FilePath × Entry) → Option Entry
followed_entry none = none
followed_entry (some (path, entry)) = some entry

abbrev pub parent_there : Option FilePath → Entries → Bool
parent_there none entries = true
parent_there (some parent) entries = is_directory (followed_entry (follow max_links entries parent))

-- Whether a path's directory is there.
unfoldable pub has_parent : FilePath → Entries → Bool
has_parent path entries = parent_there (parent_path path) entries

abbrev pub content_of : Node → Option (List ℕ)
content_of (file content) = some content
content_of directory = none
content_of (symlink to) = none

abbrev pub read_entry : Option (FilePath × Entry) → Result IoKind (List ℕ)
read_entry none = err not_found
read_entry (some (path, entry)) = elim (content_of entry.node) [
  | none ↦ err other_kind
  | some content ↦ ok content
]

-- fs::File::open and the reads to its end.
unfoldable pub read_file : FilePath → Io (List ℕ)
read_file path = faulty (λ world. (read_entry (follow max_links world.entries path), world))
