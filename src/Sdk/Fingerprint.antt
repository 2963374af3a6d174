-- ===== src/Sdk/Fingerprint.antt =====
-- crates/fixer-sdk/src/output/fingerprint.rs: what is observed of a path, on Unix.
use fixer.Common.{
  ℕ, ◌≡◌, ◌↔◌, Bool, true, false, ◌&&◌, Option, some, arith, ◌==◌, nat_eq, option_eq, PartialEq,
  nat_beq_iff, option_beq_iff,
}
use fixer.Std.FilePath.{FilePath}
use fixer.Std.Result.{Result, ok, err}
use fixer.Std.Fs.{
  Node, Entry, World, Io, IoKind, not_found, symlink_metadata, metadata_len, device_number,
}

pub data FileKind : Type 0 where
  file directory symlink other : FileKind

pub record FileIdentity : Type 0 where
  pub device : ℕ
  pub inode : ℕ

pub data PathFingerprint : Type 0 where
  missing : PathFingerprint
  present : FileKind → ℕ → Option ℕ → Option FileIdentity → PathFingerprint

abbrev kind_of : Node → FileKind
kind_of (Node.file content) = file
kind_of Node.directory = directory
kind_of (Node.symlink to) = symlink

unfoldable pub from_metadata : Entry → PathFingerprint
from_metadata metadata =
    present (kind_of metadata.node) (metadata_len metadata.node) (some metadata.modified)
      (some (record { device = device_number; inode = metadata.inode }))

abbrev pub captured : Result IoKind Entry × World → Result IoKind PathFingerprint × World
captured (ok metadata, world) = (ok (from_metadata metadata), world)
captured (err not_found, world) = (ok missing, world)
captured (err kind, world) = (err kind, world)

unfoldable pub capture : FilePath → Io PathFingerprint
unfolding symlink_metadata
capture path world = captured (symlink_metadata path world)

abbrev file_kind_beq : FileKind → FileKind → Bool
file_kind_beq file file = true
file_kind_beq directory directory = true
file_kind_beq symlink symlink = true
file_kind_beq other other = true
file_kind_beq _ _ = false

file_kind_beq_iff : (a b : FileKind) → (file_kind_beq a b ≡ true) ↔ (a ≡ b)
file_kind_beq_iff file b = ground arith
file_kind_beq_iff directory b = ground arith
file_kind_beq_iff symlink b = ground arith
file_kind_beq_iff other b = ground arith

abbrev identity_beq : FileIdentity → FileIdentity → Bool
identity_beq a b = a.device == b.device && a.inode == b.inode

pub identity_beq_iff : (a b : FileIdentity) → (identity_beq a b ≡ true) ↔ (a ≡ b)
identity_beq_iff a b = ground (arith, nat_beq_iff a.device b.device, nat_beq_iff a.inode b.inode)

instance abbrev pub identity_eq : PartialEq FileIdentity
identity_eq = record { same = identity_beq; same_iff = identity_beq_iff }

abbrev pub fingerprint_beq : PathFingerprint → PathFingerprint → Bool
fingerprint_beq missing missing = true
fingerprint_beq (present kind length modified identity)
      (present kind' length' modified' identity') =
    file_kind_beq kind kind'
    && (length == length' && (modified == modified' && identity == identity'))
fingerprint_beq _ _ = false

pub fingerprint_beq_iff : (a b : PathFingerprint) → (fingerprint_beq a b ≡ true) ↔ (a ≡ b)
fingerprint_beq_iff missing missing = ground arith
fingerprint_beq_iff missing (present kind length modified identity) = ground arith
fingerprint_beq_iff (present kind length modified identity) missing = ground arith
fingerprint_beq_iff (present kind length modified identity)
      (present kind' length' modified' identity') =
    ground (
      arith,
      file_kind_beq_iff kind kind',
      nat_beq_iff length length',
      option_beq_iff modified modified',
      option_beq_iff identity identity',
    )

instance abbrev pub fingerprint_eq : PartialEq PathFingerprint
fingerprint_eq = record { same = fingerprint_beq; same_iff = fingerprint_beq_iff }

unfoldable pub same_file_identity : PathFingerprint → PathFingerprint → Bool
same_file_identity (present k n m (some left)) (present k' n' m' (some right)) = left == right
same_file_identity _ _ = false
