-- ===== src/Tests/Files.antt =====
-- A disk with one file, and a store with two backups.
use nodemanager.Common.{String, [], arith, eq_iff, insert, lookup, none, ok, pos}
use nodemanager.Common.{refl, some, true, ◌∷◌, ◌≡◌}
use nodemanager.Files.{Attributes, Disk, System, file}
use nodemanager.Files.Bucket.{Blob, Bucket, gc_file_bucket, save_to_file_bucket}
use nodemanager.Files.Bucket.Kept.{Expired, IsAddressed, lookup-gc_file_bucket, save_round_trip}
use nodemanager.Files.Handler.{content_of, write_content_file}
use nodemanager.Files.Handler.Settled.{IsSettled, write-IsSettled}

abbrev plain : Attributes
plain = record { perm = 420; uid = 0; gid = 0 }

abbrev disk : Disk
disk = ("/etc/motd", file "old" plain) ∷ []

abbrev system : System
system = record {
  default_owner = "root";
  default_group = "wheel";
  lookup_uid = λ name. ok 0;
  lookup_gid = λ name. ok 0;
  parse_uint = λ text. ok 420;
  hash = λ text. text;
  refuses = λ call. none;
  torn = λ call. none;
}

write-IsSettled_example :
    IsSettled (write_content_file system "/etc/motd" "new") "/etc/motd" disk
    × ((d : String) × (content_of system
            (lookup "/etc/motd" (write_content_file system "/etc/motd" "new" disk).1)
          ≡ ok d)
        × (system.hash d ≡ system.hash "new"))
unfolding write_content_file lookup insert
write-IsSettled_example = write-IsSettled system "/etc/motd" "new" disk true "old" refl refl refl

abbrev first : Blob
first = record { content = "a"; modified = 10; meta = none }

abbrev store : Bucket
store = ("a", first) ∷ ("b", record { content = "b"; modified = 50; meta = none }) ∷ []

addressed : IsAddressed system store
unfolding lookup
addressed key blob there = ground (arith, eq_iff "a" key, eq_iff "b" key)

save_round_trip_example :
    let after : Bucket = (save_to_file_bucket system "/etc/motd" "c" plain 70 store).1 in
    ((blob : Blob) × (lookup "c" after ≡ some blob) × (blob.content ≡ "c"))
    × IsAddressed system after
    × ((place : String) (found : Blob)
        → lookup place store ≡ some found
        → lookup place after ≡ some found)
unfolding save_to_file_bucket lookup insert
save_round_trip_example =
    save_round_trip system "/etc/motd" "c" "c" plain 70 store (λ other same. same) addressed refl

lookup-gc_file_bucket_example :
    Expired 60 30 (lookup "a" store) (lookup "a" (gc_file_bucket system 60 (pos 30) store))
unfolding lookup
lookup-gc_file_bucket_example =
    lookup-gc_file_bucket system 60 30 "a" store (refl, (refl, tt)) (λ name. refl)
