-- ===== src/ConfigSet/Files/Content.antt =====
-- `writeFileContent`, and the regular files of `handleFileSet`. What `collectData` and
-- `buildTemplate` give is the outside's, as are the calls of the file system.
use nodemanager.Common.{Bool, Gather, Io, List, Result, String, [], err, false, if◌then◌else◌}
use nodemanager.Common.{ltb, not, nothing, ok, on_error, perform, pure, quote, sprint, true}
use nodemanager.Common.{wrap, ◌&&◌, ◌++◌, ◌==◌, ◌>>=◌, ◌||◌, ◌∷◌}
use nodemanager.Api.{File}
use nodemanager.ConfigSet.{
  Op, Outside, Stat, build_template, chown, collect_data, missing, present, read_file,
  save_to_file_bucket, set_mode, stat, unreadable, write_content,
}
use nodemanager.ConfigSet.Files.Notes.{Note, backed_up, changed, failed, fails}

module _ (o : Outside) where
  abbrev hash_of : Result String → String
  hash_of (ok hash) = hash
  hash_of (err e) = ""

  abbrev save : String → Result String → List Op → String × List Op
  save path (ok current) h = (hash_of (o.text_answer h), save_to_file_bucket path ∷ h)
  save path (err e) h = ("", h)

  abbrev backup_present : String → Stat → List Op → String × List Op
  backup_present path (present is_dir size) h =
      if is_dir || (ltb 0 o.max_file_size && ltb o.max_file_size size)
      then ("", h)
      else save path (o.text_answer h) (read_file path ∷ h)
  backup_present path missing h = ("", h)
  backup_present path unreadable h = ("", h)

  -- The hash of the copy in the file bucket, or no text if there is none.
  unfoldable pub backup : String → List Op → String × List Op
  backup path h =
      if o.file_bucket_enabled
      then backup_present path (o.stat_answer h) (stat path ∷ h)
      else ("", h)

  unfoldable pub write_content_owner_mode : File → Io Op Bool
  write_content_owner_mode file = do
    content_changed ←
        on_error (wrap "failed to write content to file")
          (perform (write_content file.path file.content) o.changed_answer)
    owner_changed ←
        on_error (wrap "failed to chown file")
          (perform (chown file.path file.owner file.group) o.changed_answer)
    mode_changed ←
        (if not (file.mode == "")
          then on_error (wrap "failed to set file mode")
              (perform (set_mode file.path file.mode) o.changed_answer)
          else pure false)
    pure (content_changed || owner_changed || mode_changed)

  unfoldable pub write_file_content : File → List Op → (Result Bool × String) × List Op
  write_file_content file h =
      let (hash, h1) = backup file.path h in
      let (r, h2) = write_content_owner_mode file h1 in ((r, hash), h2)

  abbrev written_notes : String → Result Bool → String → List Note
  written_notes path (err e) hash = failed e ∷ []
  written_notes path (ok was_changed) hash =
      (if was_changed then changed path ∷ [] else [])
      ++ (if not (hash == "") then backed_up path hash ∷ [] else [])

  abbrev write_out : File → Gather Op Note
  write_out file h =
      let ((r, hash), h') = write_file_content file h in (written_notes file.path r hash, h')

  abbrev is_present : Stat → Bool
  is_present (present is_dir size) = true
  is_present _ = false

  -- A file that is only to be created stays if it exists.
  abbrev write_guarded : File → Gather Op Note
  write_guarded file h =
      if file.create_only
      then (if is_present (o.stat_answer h) then nothing else write_out file) (stat file.path ∷ h)
      else write_out file h

  unfoldable pub ensure_file : File → Gather Op Note
  ensure_file file =
      if not (file.content == "") && not (file.ensure == "absent")
      then write_guarded file
      else nothing

  abbrev with_content : File → Result String → Gather Op Note
  with_content file (ok content) =
      ensure_file (if not (content == "") then record file { content = content } else file)
  with_content file (err e) = fails (
      wrap
        (sprint
          ("failed to build template for file " ∷ quote file.path ∷ ": " ∷ file.template ∷ []))
        e)

  abbrev with_data : File → Result String → Gather Op Note
  with_data file (ok data') h =
      with_content file (o.text_answer h) (build_template file.template ∷ h)
  with_data file (err e) h = fails e h

  unfoldable pub ensure_regular : File → Gather Op Note
  ensure_regular file h =
      if not (file.template == "")
      then with_data file (o.text_answer h) (collect_data file ∷ h)
      else ensure_file file h
