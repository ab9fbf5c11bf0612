-- ===== src/Files/Bucket.antt =====
-- `SaveToFileBucket` and `GCFileBucket`. A blob is named by the hash of its data, which stands for
-- its path, and its sidecar stands with it.
pub mod Kept
use nodemanager.Common.{Bool, Dict, Duration, Error, Option, Result, String, [], err, false}
use nodemanager.Common.{if◌then◌else◌, insert, lookup, none, ok, since_lt, some, true, wrap, ℕ}
use nodemanager.Common.{◌||◌, ◌∷◌}
use nodemanager.Files.{Attributes, System, make_directories, remove_path, write_blob}

pub record FileBucketMeta : Type 0 where
  pub path : String
  pub backed_up_at : ℕ
  pub mode : ℕ
  pub uid : ℕ
  pub gid : ℕ

pub record Blob : Type 0 where
  pub content : String
  pub modified : ℕ
  pub meta : Option FileBucketMeta

abbrev pub Bucket : Type 0
Bucket = Dict Blob

module _ (s : System) where
  -- What a write that failed leaves under the name, if anything.
  abbrev pub leave : Option String → String → Blob → Bucket → Bucket
  leave none key blob bucket = bucket
  leave (some part) key blob bucket =
      insert key (record blob { content = part; meta = none }) bucket

  abbrev pub add_blob : Option Error → String → Blob → Bucket → Result String × Bucket
  add_blob (some e) key blob bucket =
      (err (wrap "filebucket: write blob" e), leave (s.torn (write_blob key)) key blob bucket)
  add_blob none key blob bucket = (ok key, insert key blob bucket)

  -- A blob that is there is left as it is.
  abbrev pub put_blob : Option Blob → String → Blob → Bucket → Result String × Bucket
  put_blob (some there) key blob bucket = (ok key, bucket)
  put_blob none key blob bucket = add_blob (s.refuses (write_blob key)) key blob bucket

  abbrev pub in_directory : Option Error → String → Blob → Bucket → Result String × Bucket
  in_directory (some e) key blob bucket = (err (wrap "filebucket: create dir" e), bucket)
  in_directory none key blob bucket = put_blob (lookup key bucket) key blob bucket

  unfoldable pub save_to_file_bucket :
      (file_path content : String) → Attributes → ℕ → Bucket → Result String × Bucket
  save_to_file_bucket file_path content info now bucket =
      in_directory (s.refuses (make_directories (s.hash content))) (s.hash content)
        (record {
          content = content;
          modified = now;
          meta = some (record {
            path = file_path;
            backed_up_at = now;
            mode = info.perm;
            uid = info.uid;
            gid = info.gid;
          });
        })
        bucket

  abbrev is_refused : Option Error → Bool
  is_refused none = false
  is_refused (some e) = true

  -- The walk over the blobs, all at the instant `now`. An old blob that cannot be removed stays.
  unfoldable pub gc_file_bucket : ℕ → Duration → Bucket → Bucket
  gc_file_bucket now max_age [] = []
  gc_file_bucket now max_age ((key, blob) ∷ bucket) =
      let rest = gc_file_bucket now max_age bucket in
      if since_lt now blob.modified max_age || is_refused (s.refuses (remove_path key))
      then (key, blob) ∷ rest
      else rest
