-- ===== src/Std/Fs.antt =====
-- std::fs on Unix, as the code uses it: a tree of files, directories and links by their paths, in
-- which every call can fail for a reason outside the program. `faults` says which of the next
-- calls do; a call that fails changes nothing. `canonicalize` and `inspect_path` (Walk) resolve
-- `..` and the links in every component; the other calls look a path up as it is spelled and follow
-- its last component only. The time of a change is its place among the changes.
mod Tree
mod Reads
mod Walk
mod Writes
pub mod Resolved
pub mod Kept
pub mod Quiet
pub mod Done
unfoldable pub use Tree.*
unfoldable pub use Reads.*
unfoldable pub use Walk.*
unfoldable pub use Writes.*
