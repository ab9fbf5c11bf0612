-- ===== src/Files/Handler/Settled.antt =====
-- A call of the file handler that succeeds is done: the same call again changes nothing.
use nodemanager.Common.{Bool, Bool-cases, Option-cases, Result, Result-cases, String, arith}
use nodemanager.Common.{eq_iff, eq_refl, err, false, inl, inr, insert, lookup, lookup-insert}
use nodemanager.Common.{nat_eq, none, ok, refl, some, true, ℕ, ◌&&◌, ◌==◌, ◌≡◌, ◌≢◌, ◌⊎◌}
use nodemanager.Files.{
  Attributes, Disk, Entry, System, attributes, chmod, chown_path, create, directory, file, read,
  with_attributes,
}
use nodemanager.Files.Handler.{
  chown, chown_entry, chown_ids, content_of, file_mode_perm, kept_attributes, set_mode, set_mode_on,
  write_content_file,
}

-- The code on its own result, and all other paths.
abbrev pub IsSettled : (Disk → Result Bool × Disk) → String → Disk → Type 0
IsSettled run path disk =
    (run (run disk).1 ≡ (ok false, (run disk).1))
    × ((place : String) → path ≢ place → lookup place (run disk).1 ≡ lookup place disk)

lookup_new : (path : String) (e : Entry) (disk : Disk) → lookup path (insert path e disk) ≡ some e
lookup_new path e disk = rw (lookup-insert path path e disk, eq_refl path) refl

elsewhere :
    (path place : String) (e : Entry) (disk : Disk)
    → path ≢ place
    → lookup place (insert path e disk) ≡ lookup place disk
elsewhere path place e disk differ =
    rw (lookup-insert path place e disk) (ground (arith, eq_iff path place))

module _ (s : System) where
  -- What a write that is not refused leads to.
  written_to :
      (path bytes : String) (disk : Disk) (b : Bool) (c : String)
      → s.refuses (read path) ≡ none
      → content_of s (lookup path disk) ≡ ok c
      → (write_content_file s path bytes disk).0 ≡ ok b
      → ((write_content_file s path bytes disk ≡ (ok false, disk)) × (s.hash c ≡ s.hash bytes))
        ⊎ ((a : Attributes) × (write_content_file s path bytes disk
              ≡ (ok true, insert path (file bytes a) disk)))
  unfolding write_content_file
  written_to path bytes disk b c readable holds p = elim (Bool-cases (s.hash c == s.hash bytes)) [
    | inl same ↦ inl (rw (readable, holds, same) refl, (eq_iff _ _).0 same)
    | inr differ ↦ elim (Option-cases (s.refuses (create path))) [
      | inl free ↦
          inr (kept_attributes s (lookup path disk), rw (readable, holds, differ, free) refl)
      | inr (e, refused) ↦ cc (rw (readable, holds, differ, refused) at p)
    ]
  ]

  rewritten :
      (path bytes : String) (disk : Disk) (a : Attributes)
      → s.refuses (read path) ≡ none
      → write_content_file s path bytes (insert path (file bytes a) disk)
        ≡ (ok false, insert path (file bytes a) disk)
  unfolding write_content_file
  rewritten path bytes disk a readable =
      rw (readable, lookup_new path (file bytes a) disk, eq_refl (s.hash bytes)) refl

  -- If the path can be read, as a file or as nothing, and WriteContentFile succeeds, then what can
  -- be read of the path afterwards has the hash of the bytes, a second call changes nothing and
  -- says so, and other paths are as they were.
  pub write-IsSettled :
      (path bytes : String) (disk : Disk) (b : Bool) (c : String)
      → s.refuses (read path) ≡ none
      → content_of s (lookup path disk) ≡ ok c
      → (write_content_file s path bytes disk).0 ≡ ok b
      → IsSettled (write_content_file s path bytes) path disk
        × ((d : String) × (content_of s (lookup path (write_content_file s path bytes disk).1)
              ≡ ok d)
            × (s.hash d ≡ s.hash bytes))
  write-IsSettled path bytes disk b c readable holds p =
      elim (written_to path bytes disk b c readable holds p) [
        | inl (unchanged, same) ↦
            rw (unchanged, unchanged) ((refl, λ place differ. refl), (c, holds, same))
        | inr (a, changed) ↦ rw (changed) (
          (
            rewritten path bytes disk a readable,
            λ place differ. elsewhere path place (file bytes a) disk differ,
          ),
          (bytes, rw (lookup_new path (file bytes a) disk) refl, refl),
        )
      ]

  -- A run that changes nothing, or puts an entry that the same run leaves as it is.
  entry-IsSettled :
      (run : Disk → Result Bool × Disk) (path : String) (disk : Disk)
      → (run disk ≡ (ok false, disk))
        ⊎ ((e : Entry) × (run disk ≡ (ok true, insert path e disk))
            × (run (insert path e disk) ≡ (ok false, insert path e disk)))
      → IsSettled run path disk
  entry-IsSettled run path disk (inl unchanged) =
      rw (unchanged, unchanged) (refl, λ place differ. refl)
  entry-IsSettled run path disk (inr (e, put, same)) =
      rw put (same, λ place differ. elsewhere path place e disk differ)

  attributes-with : (e : Entry) (a : Attributes) → attributes (with_attributes e a) ≡ a
  attributes-with (file content b) a = refl
  attributes-with (directory b) a = refl

  same_number : (n : ℕ) → nat_eq n n ≡ true
  same_number n = ground arith

  chown_again :
      (path : String) (uid gid : ℕ) (e : Entry) (disk : Disk)
      → (attributes e).uid ≡ uid
      → (attributes e).gid ≡ gid
      → chown_entry s path uid gid (some e) disk ≡ (ok false, disk)
  chown_again path uid gid e disk u g = rw (u, g, same_number uid, same_number gid) refl

  chown_outcome :
      (path : String) (u g : Result ℕ) (disk : Disk) (b : Bool)
      → (chown_ids s path u g disk).0 ≡ ok b
      → IsSettled (chown_ids s path u g) path disk
  chown_outcome path (err e) g disk b p = cc
  chown_outcome path (ok uid) (err e) disk b p = cc
  chown_outcome path (ok uid) (ok gid) disk b p = elim (Option-cases (lookup path disk)) [
    | inl missing ↦ cc (rw missing at p)
    | inr (entry, there) ↦
        elim (Bool-cases (nat_eq (attributes entry).gid gid && nat_eq (attributes entry).uid uid)) [
          | inl same ↦
              entry-IsSettled (chown_ids s path (ok uid) (ok gid)) path disk
                (inl (rw (there, same) refl))
          | inr differ ↦ elim (Option-cases (s.refuses (chown_path path))) [
            | inr (e, refused) ↦ cc (rw (there, differ, refused) at p)
            | inl free ↦
                let a : Attributes = record {
                  perm = (attributes entry).perm;
                  uid = uid;
                  gid = gid;
                } in
                let new : Entry = with_attributes entry a in
                entry-IsSettled (chown_ids s path (ok uid) (ok gid)) path disk (
                  inr (
                    new,
                    rw (there, differ, free) refl,
                    rw (lookup_new path new disk) (
                        chown_again path uid gid new (insert path new disk)
                          (rw (attributes-with entry a) refl) (rw (attributes-with entry a) refl)),
                  ))
          ]
        ]
  ]

  chmod_outcome :
      (path : String) (m : Result ℕ) (disk : Disk) (b : Bool)
      → (set_mode_on s path m (lookup path disk) disk).0 ≡ ok b
      → IsSettled (λ d. set_mode_on s path m (lookup path d) d) path disk
  chmod_outcome path m disk b p = elim (Option-cases (lookup path disk)) [
    | inl missing ↦ cc (rw missing at p)
    | inr (entry, there) ↦ elim (Result-cases m) [
      | inr (e, failed) ↦ cc (rw (there, failed) at p)
      | inl (mode, parsed) ↦
          elim (Bool-cases (nat_eq (file_mode_perm mode) (attributes entry).perm)) [
            | inl same ↦
                entry-IsSettled (λ d. set_mode_on s path m (lookup path d) d) path disk
                  (inl (rw (there, parsed, same) refl))
            | inr differ ↦ elim (Option-cases (s.refuses (chmod path))) [
              | inr (e, refused) ↦ cc (rw (there, parsed, differ, refused) at p)
              | inl free ↦
                  let a : Attributes = record {
                    perm = file_mode_perm mode;
                    uid = (attributes entry).uid;
                    gid = (attributes entry).gid;
                  } in
                  let new : Entry = with_attributes entry a in
                  entry-IsSettled (λ d. set_mode_on s path m (lookup path d) d) path disk
                    (inr (
                      new,
                      rw (there, parsed, differ, free) refl,
                      rw
                          (
                            lookup_new path new disk,
                            parsed,
                            attributes-with entry a,
                            same_number (file_mode_perm mode),
                          )
                          refl,
                    ))
            ]
          ]
    ]
  ]

  -- A Chown that succeeds and a SetMode that succeeds change nothing when they run again, and say
  -- so, and leave the other paths as they were.
  pub owner_and_mode_settle :
      (path owner group mode : String) (disk : Disk)
      → ((b : Bool)
          → (chown s path owner group disk).0 ≡ ok b
          → IsSettled (chown s path owner group) path disk)
        × ((b : Bool)
            → (set_mode s path mode disk).0 ≡ ok b
            → IsSettled (set_mode s path mode) path disk)
  unfolding chown set_mode
  owner_and_mode_settle path owner group mode disk =
      ((λ b p. chown_outcome path _ _ disk b p), (λ b p. chmod_outcome path _ disk b p))
