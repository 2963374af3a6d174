-- ===== src/Std/Fs/Done.antt =====
-- What a call that succeeds has done to the tree.
use fixer.Common.{
  ℕ, ◌≡◌, ◌≢◌, refl, sym, ◌∙◌, ap, inl, inr, Bool, true, false, Bool-cases, Option, none, some,
  List, [], ◌∷◌, arith, list_eq, list_beq_iff, ==_refl,
}
use fixer.Std.Map.{get, put, erase, get-put, get-erase}
use fixer.Std.FilePath.{FilePath, component_eq}
use fixer.Std.Result.{Result, ok}
use fixer.Std.Fs.Tree.{IoKind, Node, Entry, Entries, World, Io, Fault, run_faulty}
use fixer.Std.Fs.Reads.{has_parent, is_directory}
use fixer.Std.Fs.Writes.{
  write_entry, write_all, sync_all, link_entry, hard_link, remove_entry, remove_file,
}

-- A call that succeeds does so on the tree as it was.
ran :
    {A : Type 0} (faults : List (Option Fault)) (call : Io A) (world : World) {a : A}
    {after : World}
    → run_faulty faults call world ≡ (ok a, after)
    → (w : World) × (w.entries ≡ world.entries) × (call w ≡ (ok a, after))
ran [] call world h = (world, refl, h)
ran (none ∷ faults) call world h = (record world { faults = faults }, refl, h)
ran (some fault ∷ faults) call world h = absurd (ground arith)

get-put_self : (p : FilePath) (e : Entry) (m : Entries) → get p (put p e m) ≡ some e
get-put_self p e m = get-put p p e m ∙ rw (==_refl p)

-- A path holds a file.
abbrev pub HoldsFile : List ℕ → FilePath → World → Type 0
HoldsFile content path world =
    (entry : Entry) × (get path world.entries ≡ some entry) × (entry.node ≡ Node.file content)

wrote :
    (there : Option Entry) (path : FilePath) (content : List ℕ) (world : World) {after : World}
    → write_entry there path content world ≡ (ok tt, after)
    → HoldsFile content path after
wrote none path content world h = absurd (ground arith)
wrote (some entry) path content world {after} h =
    let e : after.entries
        ≡ put path
            (record { inode = entry.inode; modified = world.stamp; node = Node.file content })
            world.entries =
      ground arith in
    (
      record { inode = entry.inode; modified = world.stamp; node = Node.file content },
      rw e (get-put_self path _ world.entries),
      refl,
    )

pub write_all_done :
    (path : FilePath) (content : List ℕ) (world : World) {after : World}
    → write_all path content world ≡ (ok tt, after)
    → HoldsFile content path after
unfolding write_all
write_all_done path content world h =
    let (w, e, done) =
      ran world.faults (λ v. write_entry (get path v.entries) path content v) world h in
    wrote (get path w.entries) path content w done

pub sync_all_done :
    (world : World) {after : World}
    → sync_all world ≡ (ok tt, after)
    → after.entries ≡ world.entries
unfolding sync_all
sync_all_done world h =
    let (w, e, done) = ran world.faults (λ v. (ok tt, v)) world h in
    ap (λ (x : Result IoKind (Unit {0}) × World). x.1.entries) (sym done) ∙ e

linked :
    (source there : Option Entry) (parent : Bool) (path : FilePath) (world : World) {after : World}
    → get path world.entries ≡ there
    → link_entry source there parent path world ≡ (ok tt, after)
    → (get path world.entries ≡ none) × (get path after.entries ≡ source)
linked none there parent path world at h = absurd (ground arith)
linked (some source) (some entry) parent path world at h = absurd (ground arith)
linked (some source) none false path world at h = absurd (ground arith)
linked (some source) none true path world {after} at h =
    let e : after.entries ≡ put path source world.entries = ground arith in
    (at, rw e (get-put_self path source world.entries))

-- The new link holds what was at the first path, and was not there.
pub hard_link_done :
    (from path : FilePath) (world : World) {after : World}
    → hard_link from path world ≡ (ok tt, after)
    → (get path world.entries ≡ none) × (get path after.entries ≡ get from world.entries)
unfolding hard_link
hard_link_done from path world h =
    let (w, e, done) =
      ran world.faults
        (λ v.
          link_entry (get from v.entries) (get path v.entries) (has_parent path v.entries) path v)
        world h in
    let (gap, at) =
      linked (get from w.entries) (get path w.entries) (has_parent path w.entries) path w refl
        done in
    (ap (get path) (sym e) ∙ gap, at ∙ ap (get from) e)

removed :
    (there : Option Entry) (path p : FilePath) (world : World) {after : World}
    → p ≢ path
    → remove_entry there path world ≡ (ok tt, after)
    → get p after.entries ≡ get p world.entries
removed none path p world other h = absurd (ground arith)
removed (some entry) path p world {after} other h = elim (Bool-cases (is_directory (some entry))) [
  | inl folder ↦ absurd (ground arith)
  | inr file ↦
      let e : after.entries ≡ erase path world.entries = ground arith in
      rw e (ground (arith, get-erase path p world.entries, list_beq_iff path p))
]

-- A removal leaves the other paths.
pub remove_file_done :
    (path p : FilePath) (world : World) {after : World}
    → p ≢ path
    → remove_file path world ≡ (ok tt, after)
    → get p after.entries ≡ get p world.entries
unfolding remove_file
remove_file_done path p world other h =
    let (w, e, done) = ran world.faults (λ v. remove_entry (get path v.entries) path v) world h in
    removed (get path w.entries) path p w other done ∙ ap (get p) e
