-- ===== src/Std/Fs/Resolved.antt =====
-- Where a path leads, as a relation, and that a canonical path is where its path leads.
use fixer.Common.{ℕ, zero, suc, ◌≡◌, refl, subst, Option, none, some, List, [], ◌∷◌, ◌++◌, list_eq}
use fixer.Std.Map.{get}
use fixer.Std.Text.{Text}
use fixer.Std.FilePath.{FilePath, component_eq}
use fixer.Std.Path.{Component, root_dir, cur_dir, parent_dir, normal}
use fixer.Std.Result.{Result, ok, err, ok-injective}
use fixer.Std.Fs.Tree.{IoKind, other_kind, Node, file, directory, symlink, Entry, Entries}
use fixer.Std.Fs.Walk.{parent_of, at_end, behind_file, at_name, steps, walk}

-- `Goes done rest real`: from the directory `done`, the components `rest` lead to `real`. A name
-- goes on in the directory that has it, or, where it names a link, with the link's own path.
pub data Goes (entries : Entries) : FilePath → FilePath → FilePath → Type 0 where
  ends : {c : Component} {done : FilePath} → Goes entries (c ∷ done) [] (c ∷ done)
  at_root :
      {done rest real : FilePath}
      → Goes entries (root_dir ∷ []) rest real
      → Goes entries done (root_dir ∷ rest) real
  stays :
      {done rest real : FilePath}
      → Goes entries done rest real
      → Goes entries done (cur_dir ∷ rest) real
  climbs :
      {done rest real : FilePath}
      → Goes entries (parent_of done) rest real
      → Goes entries done (parent_dir ∷ rest) real
  enters :
      {done rest real : FilePath} (s : Text) (entry : Entry)
      → get (done ++ normal s ∷ []) entries ≡ some entry
      → entry.node ≡ directory
      → Goes entries (done ++ normal s ∷ []) rest real
      → Goes entries done (normal s ∷ rest) real
  reaches :
      {done : FilePath} (s : Text) (entry : Entry) (content : List ℕ)
      → get (done ++ normal s ∷ []) entries ≡ some entry
      → entry.node ≡ file content
      → Goes entries done (normal s ∷ []) (done ++ normal s ∷ [])
  follows :
      {done rest real : FilePath} (s : Text) (entry : Entry) (to : FilePath)
      → get (done ++ normal s ∷ []) entries ≡ some entry
      → entry.node ≡ symlink to
      → Goes entries done (to ++ rest) real
      → Goes entries done (normal s ∷ rest) real

-- A real path is where a path leads.
abbrev pub LeadsTo : Entries → FilePath → FilePath → Type 0
LeadsTo entries path real = Goes entries [] path real

module _ (entries : Entries) where
  -- A walk that goes only where the relation says.
  abbrev Right : (FilePath → FilePath → Result IoKind FilePath) → Type 0
  Right through =
      (done rest real : FilePath) → through done rest ≡ ok real → Goes entries done rest real

  ended-Goes : (done real : FilePath) → at_end done ≡ ok real → Goes entries done [] real
  ended-Goes [] real h = absurd (cc h)
  ended-Goes (c ∷ done) real h = subst (Goes entries (c ∷ done) []) (ok-injective h) ends

  reached-Goes :
      (done : FilePath) (s : Text) (entry : Entry) (content : List ℕ) (rest real : FilePath)
      → get (done ++ normal s ∷ []) entries ≡ some entry
      → entry.node ≡ file content
      → behind_file (done ++ normal s ∷ []) rest ≡ ok real
      → Goes entries done (normal s ∷ rest) real
  reached-Goes done s entry content [] real there is h =
      subst (Goes entries done (normal s ∷ [])) (ok-injective h) (reaches s entry content there is)
  reached-Goes done s entry content (c ∷ rest) real there is h = absurd (cc h)

  named-Goes :
      (through : FilePath → FilePath → Result IoKind FilePath) (done : FilePath) (s : Text)
      (rest real : FilePath) (there : Option Entry)
      → get (done ++ normal s ∷ []) entries ≡ there
      → Right through
      → (steps entries through (done ++ normal s ∷ []) rest ≡ ok real
          → Goes entries (done ++ normal s ∷ []) rest real)
      → at_name there
          (behind_file (done ++ normal s ∷ []) rest)
          (steps entries through (done ++ normal s ∷ []) rest)
          (λ to. through done (to ++ rest))
        ≡ ok real
      → Goes entries done (normal s ∷ rest) real
  named-Goes through done s rest real none e right inside h = absurd (cc h)
  named-Goes through done s rest real (some entry) e right inside h = by_node entry.node refl h
    where
      by_node :
          (node : Node)
          → entry.node ≡ node
          → at_name
              (some (record entry { node = node }))
              (behind_file (done ++ normal s ∷ []) rest)
              (steps entries through (done ++ normal s ∷ []) rest)
              (λ to. through done (to ++ rest))
            ≡ ok real
          → Goes entries done (normal s ∷ rest) real
      by_node (file content) is k = reached-Goes done s entry content rest real e is k
      by_node directory is k = enters s entry e is (inside k)
      by_node (symlink to) is k = follows s entry to e is (right done (to ++ rest) real k)

  steps-Goes :
      (through : FilePath → FilePath → Result IoKind FilePath) (right : Right through)
      (rest done real : FilePath)
      → steps entries through done rest ≡ ok real
      → Goes entries done rest real
  unfolding steps
  steps-Goes through right [] done real h = ended-Goes done real h
  steps-Goes through right (root_dir ∷ rest) done real h =
      at_root (steps-Goes through right rest (root_dir ∷ []) real h)
  steps-Goes through right (cur_dir ∷ rest) done real h =
      stays (steps-Goes through right rest done real h)
  steps-Goes through right (parent_dir ∷ rest) done real h =
      climbs (steps-Goes through right rest (parent_of done) real h)
  steps-Goes through right (normal s ∷ rest) done real h =
      named-Goes through done s rest real (get (done ++ normal s ∷ []) entries) refl right
        (steps-Goes through right rest (done ++ normal s ∷ []) real) h

  -- Where the walk ends, the path leads.
  pub walk-Goes :
      (links : ℕ) (done rest real : FilePath)
      → walk links entries done rest ≡ ok real
      → Goes entries done rest real
  unfolding walk
  walk-Goes zero done rest real h =
      steps-Goes (λ _ _. err other_kind) (λ done rest real e. absurd (cc e)) rest done real h
  walk-Goes (suc links) done rest real h =
      steps-Goes (walk links entries) (walk-Goes links) rest done real h
