-- ===== src/Files/Handler.antt =====
-- The methods of `FileHandlerCommon` and `GetFileModeFromString`. Each gives whether something
-- changed.
pub mod Settled
use nodemanager.Common.{Bool, Error, Option, Result, String, erase, err, false, if◌then◌else◌}
use nodemanager.Common.{insert, lookup, nat_eq, new_error, none, not_found, ok, some, true}
use nodemanager.Common.{wrap, ℕ, ◌%◌, ◌&&◌, ◌==◌}
use nodemanager.Files.{
  Attributes, Call, Disk, Entry, System, attributes, chmod, chown_path, create, directory, file,
  read, remove_path, with_attributes,
}

abbrev or_default : String → String → String
or_default s d = if s == "" then d else s

-- A call that leads to the disk `after` unless it is refused.
abbrev pub unless_refused : Option Error → Disk → Disk → Result Bool × Disk
unless_refused none before after = (ok true, after)
unless_refused (some e) before after = (err e, before)

abbrev pub file_mode_perm : ℕ → ℕ
file_mode_perm mode = mode % 512

module _ (s : System) where
  abbrev pub missing_file : Error
  missing_file = record { kind = not_found; text = "failed to stat file" }

  abbrev pub chown_entry : String → ℕ → ℕ → Option Entry → Disk → Result Bool × Disk
  chown_entry path uid gid none disk = (err missing_file, disk)
  chown_entry path uid gid (some entry) disk =
      if nat_eq (attributes entry).gid gid && nat_eq (attributes entry).uid uid
      then (ok false, disk)
      else unless_refused (s.refuses (chown_path path)) disk (
          insert path
            (with_attributes entry
              (record { perm = (attributes entry).perm; uid = uid; gid = gid }))
            disk)

  abbrev pub chown_ids : String → Result ℕ → Result ℕ → Disk → Result Bool × Disk
  chown_ids path (err e) gid disk = (err (wrap "failed to lookup user" e), disk)
  chown_ids path (ok uid) (err e) disk = (err (wrap "failed to lookup group" e), disk)
  chown_ids path (ok uid) (ok gid) disk = chown_entry path uid gid (lookup path disk) disk

  unfoldable pub chown : (path owner group : String) → Disk → Result Bool × Disk
  chown path owner group disk =
      chown_ids path (s.lookup_uid (or_default owner s.default_owner))
        (s.lookup_gid (or_default group s.default_group)) disk

  unfoldable pub get_file_mode_from_string : String → Result ℕ
  get_file_mode_from_string mode = s.parse_uint mode

  abbrev pub chmod_entry : String → ℕ → Entry → Disk → Result Bool × Disk
  chmod_entry path mode entry disk =
      if nat_eq (file_mode_perm mode) (attributes entry).perm
      then (ok false, disk)
      else unless_refused (s.refuses (chmod path)) disk (
          insert path
            (with_attributes entry (record {
              perm = file_mode_perm mode;
              uid = (attributes entry).uid;
              gid = (attributes entry).gid;
            }))
            disk)

  abbrev pub set_mode_on : String → Result ℕ → Option Entry → Disk → Result Bool × Disk
  set_mode_on path mode none disk = (err missing_file, disk)
  set_mode_on path (err e) (some entry) disk = (err e, disk)
  set_mode_on path (ok mode) (some entry) disk = chmod_entry path mode entry disk

  unfoldable pub set_mode : (path mode : String) → Disk → Result Bool × Disk
  set_mode path mode disk =
      set_mode_on path (get_file_mode_from_string mode) (lookup path disk) disk

  abbrev new_file : Attributes
  new_file = record { perm = 420; uid = 0; gid = 0 }

  -- What is read of an entry: a missing one has no bytes, and a directory cannot be read.
  abbrev pub content_of : Option Entry → Result String
  content_of none = ok ""
  content_of (some (file content a)) = ok content
  content_of (some (directory a)) = err (new_error "is a directory")

  abbrev pub kept_attributes : Option Entry → Attributes
  kept_attributes none = new_file
  kept_attributes (some entry) = attributes entry

  abbrev pub write_over :
      (path bytes : String) → Result String → Option Entry → Disk → Result Bool × Disk
  write_over path bytes (err e) entry disk = (err e, disk)
  write_over path bytes (ok current) entry disk =
      if s.hash current == s.hash bytes
      then (ok false, disk)
      else unless_refused (s.refuses (create path)) disk
          (insert path (file bytes (kept_attributes entry)) disk)

  abbrev pub read_of : Option Error → Option Entry → Result String
  read_of (some e) entry = err e
  read_of none entry = content_of entry

  -- A write after a create that succeeded is taken to succeed.
  unfoldable pub write_content_file : (path bytes : String) → Disk → Result Bool × Disk
  write_content_file path bytes disk =
      write_over path bytes (read_of (s.refuses (read path)) (lookup path disk)) (lookup path disk)
        disk

  abbrev pub remove_entry : String → Option Entry → Disk → Result Bool × Disk
  remove_entry path none disk = (ok false, disk)
  remove_entry path (some entry) disk =
      unless_refused (s.refuses (remove_path path)) disk (erase path disk)

  unfoldable pub remove : String → Disk → Result Bool × Disk
  remove path disk = remove_entry path (lookup path disk) disk
