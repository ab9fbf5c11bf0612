-- ===== src/Files/Bucket/Kept.antt =====
-- What the store of backups keeps, and for how long.
use nodemanager.Common.{Bool-cases, NodupKeys, Option, Option-cases, Result, String, [], ap}
use nodemanager.Common.{arith, eq_iff, eq_refl, false, found, inl, inr, insert, lookup}
use nodemanager.Common.{lookup-insert, none, ok, pos, refl, since_lt, some, sym, true, ℕ}
use nodemanager.Common.{◌+◌, ◌<◌, ◌==◌, ◌∙◌, ◌∷◌, ◌≡◌, ◌≤◌, ◌⊎◌}
use nodemanager.Files.{Attributes, System, make_directories, remove_path, write_blob}
use nodemanager.Files.Bucket.{Blob, Bucket, gc_file_bucket, in_directory, save_to_file_bucket}

-- Each blob is named by the hash of its data.
abbrev pub IsAddressed : System → Bucket → Type 0
IsAddressed s bucket =
    (key : String) (blob : Blob) → lookup key bucket ≡ some blob → s.hash blob.content ≡ key

module _ (s : System) where
  -- A save that succeeds: the blob is there, or it is put there.
  abbrev Saved : String → Blob → Bucket → Result String × Bucket → Type 0
  Saved key blob bucket run =
      ((there : Blob) × (lookup key bucket ≡ some there) × (run ≡ (ok key, bucket)))
      ⊎ ((lookup key bucket ≡ none) × (run ≡ (ok key, insert key blob bucket)))

  saved :
      (key name : String) (blob : Blob) (bucket : Bucket)
      → (in_directory s (s.refuses (make_directories key)) key blob bucket).0 ≡ ok name
      → Saved key blob bucket (in_directory s (s.refuses (make_directories key)) key blob bucket)
  saved key name blob bucket p = elim (Option-cases (s.refuses (make_directories key))) [
    | inr (e, refused) ↦ cc (rw refused at p)
    | inl made ↦ elim (Option-cases (lookup key bucket)) [
      | inr (there, found) ↦ inl (there, found, rw (made, found) refl)
      | inl absent ↦ elim (Option-cases (s.refuses (write_blob key))) [
        | inr (e, refused) ↦ cc (rw (made, absent, refused) at p)
        | inl free ↦ inr (absent, rw (made, absent, free) refl)
      ]
    ]
  ]

  ok_same : (a b : String) → Path (Result String) (ok a) (ok b) → a ≡ b
  ok_same a b p = cc

  put_keeps :
      (key place : String) (blob found : Blob) (bucket : Bucket)
      → lookup key bucket ≡ none
      → lookup place bucket ≡ some found
      → lookup place (insert key blob bucket) ≡ some found
  put_keeps key place blob found bucket absent there = elim (Bool-cases (key == place)) [
    | inr differ ↦ rw (lookup-insert key place blob bucket, differ) there
    | inl same ↦ cc (absent, there, (eq_iff key place).0 same)
  ]

  named_found :
      {name : String} (blob found : Blob)
      → Path (Option Blob) (some blob) (some found)
      → s.hash blob.content ≡ name
      → s.hash found.content ≡ name
  named_found blob found same named = cc

  put-IsAddressed :
      (key : String) (blob : Blob) (bucket : Bucket)
      → s.hash blob.content ≡ key
      → IsAddressed s bucket
      → IsAddressed s (insert key blob bucket)
  put-IsAddressed key blob bucket named addressed place found there =
      elim (Bool-cases (key == place)) [
        | inr differ ↦
            addressed place found (rw (lookup-insert key place blob bucket, differ) at there)
        | inl same ↦
            named_found blob found (rw (lookup-insert key place blob bucket, same) at there)
              (named ∙ (eq_iff key place).0 same)
      ]

  abbrev IsKept : (content key : String) → Bucket → Bucket → Type 0
  IsKept content key before after =
      ((blob : Blob) × (lookup key after ≡ some blob) × (blob.content ≡ content))
      × IsAddressed s after
      × ((place : String) (found : Blob)
          → lookup place before ≡ some found
          → lookup place after ≡ some found)

  Saved-IsKept :
      (content key : String) (blob : Blob) (bucket : Bucket) (run : Result String × Bucket)
      → blob.content ≡ content
      → ((d : String) → s.hash d ≡ s.hash content → d ≡ content)
      → IsAddressed s bucket
      → Saved (s.hash content) blob bucket run
      → run.0 ≡ ok key
      → IsKept content key bucket run.1
  Saved-IsKept content key blob bucket run is unique addressed (inl (there, found, e)) p =
      let name : s.hash content ≡ key = ok_same _ _ (rw e at p) in
      rw (e, sym name)
        (
          (there, found, unique there.content (addressed (s.hash content) there found)),
          addressed,
          λ place b q. q,
        )
  Saved-IsKept content key blob bucket run is unique addressed (inr (absent, e)) p =
      let name : s.hash content ≡ key = ok_same _ _ (rw e at p) in
      rw (e, sym name)
        (
          (
            blob,
            rw
                (
                  lookup-insert (s.hash content) (s.hash content) blob bucket,
                  eq_refl (s.hash content),
                )
                refl,
            is,
          ),
          put-IsAddressed (s.hash content) blob bucket (ap s.hash is) addressed,
          λ place b q. put_keeps (s.hash content) place blob b bucket absent q,
        )

  -- If the store names each blob by the hash of its data and no other data has the hash of the
  -- content, then after a save that succeeds the blob of the returned name holds the content, the
  -- store still names each blob by its hash, and every blob of before is there unchanged.
  pub save_round_trip :
      (file_path content key : String) (info : Attributes) (now : ℕ) (bucket : Bucket)
      → ((other : String) → s.hash other ≡ s.hash content → other ≡ content)
      → IsAddressed s bucket
      → (save_to_file_bucket s file_path content info now bucket).0 ≡ ok key
      → let after : Bucket = (save_to_file_bucket s file_path content info now bucket).1 in
        IsKept content key bucket after
  unfolding save_to_file_bucket
  save_round_trip file_path content key info now bucket unique addressed p =
      let named : Blob = record {
        content = content;
        modified = now;
        meta = some (record {
          path = file_path;
          backed_up_at = now;
          mode = info.perm;
          uid = info.uid;
          gid = info.gid;
        });
      } in
      Saved-IsKept content key named bucket _ refl unique addressed
        (saved (s.hash content) key named bucket p) p

-- Whether an age has passed, or not.
abbrev pub Expired : ℕ → ℕ → Option Blob → Option Blob → Type 0
Expired now age none after = after ≡ none
Expired now age (some blob) after =
    (now < blob.modified + age → after ≡ some blob) × (blob.modified + age ≤ now → after ≡ none)

fresh_or_old :
    (now t d : ℕ)
    → ((now < t + d) × (since_lt now t (pos d) ≡ true))
      ⊎ ((t + d ≤ now) × (since_lt now t (pos d) ≡ false))
fresh_or_old now t d = ground arith

less_not : {a b : ℕ} → a < b → b ≤ a → ⊥
less_not less more = omega arith

gone :
    (s : System) (now age : ℕ) (key : String) (bucket : Bucket)
    → lookup key bucket ≡ none
    → lookup key (gc_file_bucket s now (pos age) bucket) ≡ none
unfolding gc_file_bucket lookup
gone s now age key [] absent = refl
gone s now age key ((name, blob) ∷ bucket) absent = ground (arith, gone s now age key bucket)

-- If each name is there once and no removal is refused, then after a collection the store has
-- exactly the blobs of before that were written less than the age ago, unchanged.
pub lookup-gc_file_bucket :
    (s : System) (now age : ℕ) (key : String) (bucket : Bucket)
    → NodupKeys bucket
    → ((name : String) → s.refuses (remove_path name) ≡ none)
    → Expired now age (lookup key bucket) (lookup key (gc_file_bucket s now (pos age) bucket))
unfolding gc_file_bucket lookup
lookup-gc_file_bucket s now age key [] once free = refl
lookup-gc_file_bucket s now age key ((name, blob) ∷ bucket) (fresh, once) free =
    elim (Bool-cases (name == key)) [
      | inr differ ↦ elim (fresh_or_old now blob.modified age) [
        | inl (young, test) ↦
            rw (differ, test, differ) (lookup-gc_file_bucket s now age key bucket once free)
        | inr (aged, test) ↦
            rw (differ, test, free name) (lookup-gc_file_bucket s now age key bucket once free)
      ]
      | inl same ↦ elim (fresh_or_old now blob.modified age) [
        | inl (young, test) ↦
            rw (same, test, same) ((λ less. refl), (λ more. absurd (less_not young more)))
        | inr (aged, test) ↦
            rw (same, test, free name)
              (
                (λ less. absurd (less_not less aged)),
                (λ more. gone s now age key bucket (rw (sym ((eq_iff name key).0 same)) fresh)),
              )
      ]
    ]
