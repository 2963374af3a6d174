-- ===== src/Std/Fs/Walk.antt =====
-- Paths that are walked component by component, as Linux resolves them: `..` leads to the parent of
-- the directory that was reached, and a link in any place is followed, 40 of them at most. A path
-- that is not absolute is looked up as it is spelled.
use fixer.Common.{ℕ, zero, suc, Option, none, some, [], ◌∷◌, ◌++◌, nat_eq, list_eq}
use fixer.Std.Map.{get}
use fixer.Std.FilePath.{FilePath, component_eq, init, last_component, pop}
use fixer.Std.Path.{root_dir, cur_dir, parent_dir, normal}
use fixer.Std.Result.{Result, ok, err, ◌>>=◌}
use fixer.Std.Fs.Tree.{
  IoKind, not_found, other_kind, file, directory, symlink, Entry, Entries, Io, faulty,
}
use fixer.Std.Fs.Reads.{found, max_links}

abbrev pub at_end : FilePath → Result IoKind FilePath
at_end [] = err not_found
at_end (c ∷ done) = ok (c ∷ done)

abbrev pub parent_of : FilePath → FilePath
parent_of (root_dir ∷ []) = root_dir ∷ []
parent_of done = pop done

-- What is left to walk behind a file.
abbrev pub behind_file : FilePath → FilePath → Result IoKind FilePath
behind_file path [] = ok path
behind_file path (c ∷ rest) = err other_kind

-- A name on the way: nothing, a file, a directory or a link.
abbrev pub at_name :
    Option Entry
    → Result IoKind FilePath
    → Result IoKind FilePath
    → (FilePath → Result IoKind FilePath)
    → Result IoKind FilePath
at_name none behind inside through = err not_found
at_name (some entry) behind inside through = elim entry.node [
  | file content ↦ behind
  | directory ↦ inside
  | symlink to ↦ through to
]

-- From a real directory on; `through` goes on where a link leads.
unfoldable pub steps :
    Entries
    → (FilePath → FilePath → Result IoKind FilePath)
    → FilePath
    → FilePath
    → Result IoKind FilePath
steps entries through done [] = at_end done
steps entries through done (root_dir ∷ rest) = steps entries through (root_dir ∷ []) rest
steps entries through done (cur_dir ∷ rest) = steps entries through done rest
steps entries through done (parent_dir ∷ rest) = steps entries through (parent_of done) rest
steps entries through done (normal s ∷ rest) =
    at_name (get (done ++ normal s ∷ []) entries) (behind_file (done ++ normal s ∷ []) rest)
      (steps entries through (done ++ normal s ∷ []) rest) (λ to. through done (to ++ rest))

unfoldable pub walk : ℕ → Entries → FilePath → FilePath → Result IoKind FilePath
unfolding steps
walk zero entries done rest = steps entries (λ _ _. err other_kind) done rest
walk (suc links) entries done rest = steps entries (walk links entries) done rest

abbrev pub real_path : Entries → FilePath → Result IoKind FilePath
real_path entries path = walk max_links entries [] path

-- Path::canonicalize
unfoldable pub canonicalize : FilePath → Io FilePath
unfolding walk
canonicalize path = faulty (λ world. (real_path world.entries path, world))

abbrev pub in_directory : Option Entry → Result IoKind (Option Entry) → Result IoKind (Option Entry)
in_directory none child = err other_kind
in_directory (some entry) child = elim entry.node [ directory ↦ child | _ ↦ err other_kind ]

-- What is at a path, where the last component is not followed.
unfoldable pub lookup : Entries → FilePath → Result IoKind Entry
unfolding walk init last_component
lookup entries path = elim (last_component path) [
  | none ↦ err not_found
  | some c ↦ elim c [
    | normal s ↦ do
      parent ← real_path entries (init path)
      child ← in_directory (get parent entries) (ok (get (parent ++ normal s ∷ []) entries))
      found child
    | _ ↦ do real ← real_path entries path; found (get real entries)
  ]
]

-- fs::symlink_metadata, of any path.
unfoldable pub inspect_path : FilePath → Io Entry
unfolding lookup
inspect_path path = faulty (λ world. (lookup world.entries path, world))
