-- ===== src/Files.antt =====
-- pkg/files/files.go: what the file handler makes of the disk, and the store of backups. Paths
-- stand for what they lead to, so symbolic links are left out; the spans and log lines are left out
-- too.
pub mod Handler
pub mod Bucket
use nodemanager.Common.{Dict, Error, Option, Result, String, ℕ}

-- Nanoseconds and owners of an entry; `perm` is below 512.
pub record Attributes : Type 0 where
  pub perm : ℕ
  pub uid : ℕ
  pub gid : ℕ

pub data Entry : Type 0 where
  file : (content : String) → Attributes → Entry
  directory : Attributes → Entry

abbrev pub Disk : Type 0
Disk = Dict Entry

-- A call that the system may refuse.
pub data Call : Type 0 where
  read chown_path chmod create remove_path make_directories write_blob : String → Call

-- The handler's configuration, the users of the system, and what the system refuses. `parse_uint`
-- is `strconv.ParseUint` with the base of the text's prefix, in 32 bits, and `hash` is SHA-256 in
-- hexadecimal. `torn` is what a write that was refused leaves behind.
pub record System : Type 0 where
  pub default_owner : String
  pub default_group : String
  pub lookup_uid : String → Result ℕ
  pub lookup_gid : String → Result ℕ
  pub parse_uint : String → Result ℕ
  pub hash : String → String
  pub refuses : Call → Option Error
  pub torn : Call → Option String

abbrev pub attributes : Entry → Attributes
attributes (file content a) = a
attributes (directory a) = a

abbrev pub with_attributes : Entry → Attributes → Entry
with_attributes (file content b) a = file content a
with_attributes (directory b) a = directory a
