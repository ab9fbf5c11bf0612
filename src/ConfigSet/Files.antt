-- ===== src/ConfigSet/Files.antt =====
-- `handleFileSet`, and `FileEnsureFromString` of pkg/files/files.go. The calls of the file system
-- are the outside's.
mod Notes
pub mod Managed
mod Content
pub mod Purge
use nodemanager.Common.{Bool, Dict, Gather, List, Result, String, [], err, for_each, found}
use nodemanager.Common.{if◌then◌else◌, join, new_error, not, nothing, ok, quote, sprint}
use nodemanager.Common.{to_result, wrap, ◌==◌, ◌also◌, ◌||◌, ◌∷◌}
use nodemanager.Api.{ConfigSet, File, ManagedNode}
use nodemanager.ConfigSet.{
  Entry, Op, Outside, Stat, build_template, chown, collect_data, list_config_sets, missing, mkdir,
  os_remove, present, read_dir, read_file, read_link, remove_file, save_to_file_bucket, set_mode,
  stat, symlink, unreadable, write_content,
}
use nodemanager.ConfigSet.Files.Content.{ensure_regular}
use nodemanager.ConfigSet.Files.Managed.{purge_directory}
use nodemanager.ConfigSet.Files.Notes.{
  Note, backed_up, backups_in, changed, changed_in, errors_in, failed, fails, marks,
}
use nodemanager.Labels.{match_all_labels}

pub data FileEnsure : Type 0 where
  unhandled_file regular directory link absent_file : FileEnsure

unfoldable pub file_ensure_from_string : String → FileEnsure
file_ensure_from_string ensure =
    if (ensure == "file") || (ensure == "")
    then regular
    else if ensure == "directory"
    then directory
    else if ensure == "symlink"
    then link
    else if ensure == "absent"
    then absent_file
    else unhandled_file

module _ (o : Outside) where
  -- Each of the two ends in the text of the mode or an error, and goes on to `rest` if it succeeds.
  abbrev made : File → Result (Unit {0}) → Gather Op Note → Gather Op Note
  made file (ok u) rest = found (changed file.path) also rest
  made file (err e) rest = fails e

  abbrev make : File → String → Gather Op Note → Gather Op Note
  make file mode rest h = made file (o.done_answer h) rest (mkdir file.path mode ∷ h)

  abbrev make_parsed : File → Result (Unit {0}) → Gather Op Note → Gather Op Note
  make_parsed file (ok u) rest = make file file.mode rest
  make_parsed file (err e) rest = fails (wrap "failed to get file mode from string" e)

  abbrev mode_set : File → Result Bool → Gather Op Note → Gather Op Note
  mode_set file (ok was_changed) rest = marks was_changed file.path also rest
  mode_set file (err e) rest = fails (wrap "failed to set file mode" e)

  abbrev create_or_set : File → Stat → Gather Op Note → Gather Op Note
  create_or_set file missing rest h =
      if file.mode == ""
      then make file "0660" rest h
      else make_parsed file (o.is_mode file.mode) rest h
  create_or_set file _ rest h =
      if not (file.mode == "")
      then mode_set file (o.changed_answer h) rest (set_mode file.path file.mode ∷ h)
      else rest h

  unfoldable pub ensure_directory : String → ManagedNode → File → Gather Op Note
  ensure_directory namespace node file h =
      create_or_set file (o.stat_answer h)
        (if file.purge then purge_directory o namespace node file.path else nothing)
        (stat file.path ∷ h)

  abbrev linked : File → Result (Unit {0}) → List Note
  linked file (ok u) = []
  linked file (err e) =
      failed (
        wrap
          (sprint ("failed to create symlink " ∷ quote file.path ∷ " -> " ∷ quote file.target ∷ []))
          e)
      ∷ []

  abbrev link_to : File → Gather Op Note
  link_to file h = (linked file (o.done_answer h), symlink file.target file.path ∷ h)

  abbrev relink : File → Bool × Result (Unit {0}) → Gather Op Note
  relink file (was_changed, ok u) = marks was_changed file.path also link_to file
  relink file (was_changed, err e) = fails e

  abbrev retarget : File → Result String → Gather Op Note
  retarget file (ok target) h =
      if not (target == file.target)
      then relink file (o.remove_answer h) (remove_file file.path ∷ h)
      else nothing h
  retarget file (err e) h =
      fails (wrap (sprint ("failed to read symlink " ∷ quote file.path ∷ [])) e) h

  unfoldable pub ensure_symlink : File → Gather Op Note
  ensure_symlink file h = retarget file (o.text_answer h) (read_link file.path ∷ h)

  abbrev gone : File → Bool × Result (Unit {0}) → Gather Op Note
  gone file (was_changed, ok u) = marks was_changed file.path
  gone file (was_changed, err e) = fails e also marks was_changed file.path

  unfoldable pub ensure_absent : File → Gather Op Note
  ensure_absent file h = gone file (o.remove_answer h) (remove_file file.path ∷ h)

  abbrev ensure_by : FileEnsure → String → ManagedNode → File → Gather Op Note
  ensure_by regular namespace node file = ensure_regular o file
  ensure_by directory namespace node file = ensure_directory namespace node file
  ensure_by link namespace node file = ensure_symlink file
  ensure_by absent_file namespace node file = ensure_absent file
  ensure_by unhandled_file namespace node file =
      fails (new_error (sprint ("unhandled file ensure " ∷ quote file.ensure ∷ [])))

  unfoldable pub file_step : String → ManagedNode → File → Gather Op Note
  file_step namespace node file =
      ensure_by (file_ensure_from_string file.ensure) namespace node file

pub record FileSetResult : Type 0 where
  pub changed_files : List String
  pub backups : Dict String
  pub result : Result (Unit {0})

unfoldable pub handle_file_set :
    Outside → String → List File → ManagedNode → List Op → FileSetResult × List Op
handle_file_set o namespace file_set node h =
    let (notes, h') = for_each (file_step o namespace node) file_set h in
    (
      record {
        changed_files = changed_in notes;
        backups = backups_in notes [];
        result = to_result (join (errors_in notes));
      },
      h',
    )
