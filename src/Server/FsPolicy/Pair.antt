-- ===== src/Server/FsPolicy/Pair.antt =====
-- A source and a destination that the policy takes as a pair.
use fixer.Common.{◌≡◌, refl, Bool, true, false, not, ◌||◌, arith}
use fixer.Std.FilePath.{FilePath, starts_with}
use fixer.Std.Action.Ensures.{
  Ensures, Yields, Any, then_ensures, seq_knowing, pure_ensures, require_ensures, attempt_ensures,
}
use fixer.Std.Fs.{World, Entries}
use fixer.Std.Fs.Quiet.{Same, metadata_Quiet}
use fixer.Std.Fs.Resolved.{LeadsTo}
use fixer.Server.FsPolicy.{FsPolicy, within, is_dir, validate_directory, validate_directory_pair}
use fixer.Server.FsPolicy.Allowed.{validate_read_exact}

-- The real path of a path, below a root.
abbrev pub RealPath : FsPolicy → Entries → FilePath → FilePath → Type 0
RealPath policy entries path real = LeadsTo entries path real × (within policy real ≡ true)

module _ (start : Entries) (policy : FsPolicy) where
  is_dir-Same : (path : FilePath) → Ensures (Same start) (is_dir path) Any
  unfolding is_dir
  is_dir-Same path =
      then_ensures _ (attempt_ensures _ (metadata_Quiet start path)) (λ r q. pure_ensures _ _ tt)

  validate_directory_exact :
      (path : FilePath)
      → Ensures (Same start) (validate_directory policy path) (RealPath policy start path)
  unfolding validate_directory
  validate_directory_exact path =
      then_ensures _ (validate_read_exact start policy path) (λ real leads.
        then_ensures _ (is_dir-Same real)
          (λ directory q. seq_knowing _ (require_ensures _ _) (λ h. pure_ensures _ _ leads)))

  apart : (a b : Bool) → not (a || b) ≡ true → (a ≡ false) × (b ≡ false)
  apart a b h = ground arith

  pair_exact :
      (source destination : FilePath)
      → Ensures (Same start) (validate_directory_pair policy source destination) (λ (s, d).
        RealPath policy start source s
        × RealPath policy start destination d
        × (starts_with s d ≡ false)
        × (starts_with d s ≡ false))
  unfolding validate_directory_pair
  pair_exact source destination = then_ensures _ (validate_directory_exact source) (λ s from.
      then_ensures _ (validate_directory_exact destination) (λ d to.
        seq_knowing _ (require_ensures _ _) (λ h. pure_ensures _ _ (
          let (one, other) = apart (starts_with s d) (starts_with d s) h in
          (from, to, one, other)))))

-- The directories of an accepted pair are the real paths of those that were asked for, each is
-- below a root, and neither is, or lies below, the other.
pub validate_directory_pair_apart :
    (policy : FsPolicy) (source destination : FilePath) (world : World)
    → Yields (validate_directory_pair policy source destination world).0 (λ (s, d).
      RealPath policy world.entries source s
      × RealPath policy world.entries destination d
      × (starts_with s d ≡ false)
      × (starts_with d s ≡ false))
validate_directory_pair_apart policy source destination world =
    ((pair_exact world.entries policy source destination).run world refl).1
