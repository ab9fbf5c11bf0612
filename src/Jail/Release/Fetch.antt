-- ===== src/Jail/Release/Fetch.antt =====
-- What a release went through when `Ensure` reports success, and that no temporary file is left.
use nodemanager.Common.{List, Result-cases, String, [], arith, if◌then◌else◌, inl, inr, is_ok}
use nodemanager.Common.{ok, suc, true, ℕ, ◌+◌, ◌∷◌, ◌≡◌}
use nodemanager.Jail.Release.{
  Op, Outside, close_body, close_temp, copy_body, create_temp, download, ensure,
  ensure_release_dataset, extract, make_release_root, release_url, remove_temp, send_request,
  stat_version_file, unpack,
}

-- The temporary files that were created, and those that were removed.
abbrev pub created : Outside → List Op → ℕ
created o [] = 0
created o (create_temp ∷ h) = (if is_ok (o.temp_answer h) then 1 else 0) + created o h
created o (_ ∷ h) = created o h

abbrev pub removed : List Op → ℕ
removed [] = 0
removed (remove_temp temp ∷ h) = suc (removed h)
removed (_ ∷ h) = removed h

-- How a log ends that has the release in place: its version file was there; or a body that came
-- with the status 200 was copied without an error to a temporary file, which was closed, then
-- extracted into the root that was made for it, and removed.
abbrev pub EndsExtracted : Outside → String → List Op → Type 0
EndsExtracted o version (stat_version_file v ∷ h) = (v ≡ version) × (o.is_there h ≡ true)
EndsExtracted o version
      (remove_temp t
        ∷ extract t1 v1
        ∷ make_release_root v2
        ∷ close_temp t2
        ∷ close_body
        ∷ copy_body t3
        ∷ send_request url
        ∷ create_temp
        ∷ h) =
    (o.temp_answer h ≡ ok t)
    × (o.status_answer (create_temp ∷ h) ≡ ok 200)
    × (o.done_answer (send_request url ∷ create_temp ∷ h) ≡ ok tt)
    × (o.done_answer
          (close_temp t2 ∷ close_body ∷ copy_body t3 ∷ send_request url ∷ create_temp ∷ h)
        ≡ ok tt)
    × (o.done_answer (
          make_release_root v2
          ∷ close_temp t2
          ∷ close_body
          ∷ copy_body t3
          ∷ send_request url
          ∷ create_temp
          ∷ h)
        ≡ ok tt)
    × (t1 ≡ t)
    × (t3 ≡ t)
    × (url ≡ release_url o version)
    × (v1 ≡ version)
    × (v2 ≡ version)
EndsExtracted o version _ = ⊥

module _ (o : Outside) (version : String) where
  -- After the temporary file was created.
  unpack_lem :
      (temp : String) (h : List Op)
      → o.temp_answer h ≡ ok temp
      → let run = unpack o version temp (create_temp ∷ h) in
        (created o run.1 ≡ suc (created o h))
        × (removed run.1 ≡ removed h)
        × (run.0 ≡ ok tt → EndsExtracted o version (remove_temp temp ∷ run.1))
  unfolding unpack download
  unpack_lem temp h made = ground arith

  -- Whatever its calls answer, `Ensure` removes each temporary file that it has created; and if it
  -- succeeds, then the version file of the release was there, or the archive came with the status
  -- 200, was copied to the temporary file without an error, and was extracted into the root of the
  -- release.
  pub ensure-EndsExtracted :
      (h : List Op)
      → (created o (ensure o version h).1 + removed h
          ≡ created o h + removed (ensure o version h).1)
        × ((ensure o version h).0 ≡ ok tt → EndsExtracted o version (ensure o version h).1)
  unfolding ensure
  ensure-EndsExtracted h =
      elim (Result-cases
        (o.temp_answer (stat_version_file version ∷ ensure_release_dataset version ∷ h))) [
          | inr (e, failed) ↦ ground arith
          | inl (temp, made) ↦ ground (
            arith,
            unpack_lem temp (stat_version_file version ∷ ensure_release_dataset version ∷ h) made,
          )
        ]
