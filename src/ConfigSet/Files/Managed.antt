-- ===== src/ConfigSet/Files/Managed.antt =====
-- `managedPathsUnder`, and the purge of a directory in `handleFileSet`.
use nodemanager.Common.{Bool, Dict, Gather, List, Option, Result, String, [], err, false}
use nodemanager.Common.{for_each, if◌then◌else◌, insert, len, lookup, none, not, nothing, ok}
use nodemanager.Common.{quote, slice, some, sprint, starts_with, true, wrap, ◌+++◌, ◌-◌, ◌==◌}
use nodemanager.Common.{◌||◌, ◌∷◌}
use nodemanager.Api.{ConfigSet, File, ManagedNode}
use nodemanager.ConfigSet.{Entry, Op, Outside, list_config_sets, os_remove, read_dir}
use nodemanager.ConfigSet.Files.Notes.{Note, changed, failed, fails}
use nodemanager.Labels.{match_all_labels}

abbrev ends_in_slash : String → Bool
ends_in_slash s = (slice s 0 (len s - 1) +++ "/") == s

-- An empty path does not come here: no directory has it.
abbrev pub prefix_of : String → String
prefix_of dir = if not (ends_in_slash dir) then dir +++ "/" else dir

unfoldable pub add_paths : String → List File → Dict (Unit {0}) → Dict (Unit {0})
add_paths dir [] m = m
add_paths dir (f ∷ files) m =
    add_paths dir files
      (if (f.path == dir) || starts_with f.path (prefix_of dir) then insert f.path tt m else m)

unfoldable pub add_sets : String → ManagedNode → List ConfigSet → Dict (Unit {0}) → Dict (Unit {0})
add_sets dir node [] m = m
add_sets dir node (cs ∷ all) m =
    add_sets dir node all
      (if match_all_labels node.labels cs.labels then add_paths dir cs.spec.files m else m)

abbrev is_found : Option (Unit {0}) → Bool
is_found none = false
is_found (some u) = true

abbrev pub is_managed : Dict (Unit {0}) → String → Bool
is_managed managed path = is_found (lookup path managed)

module _ (o : Outside) where
  abbrev removed_note : String → Result (Unit {0}) → List Note
  removed_note path (ok u) = changed path ∷ []
  removed_note path (err e) =
      failed (wrap (sprint ("purge: failed to remove " ∷ quote path ∷ [])) e) ∷ []

  unfoldable pub purge_entry : String → Dict (Unit {0}) → Entry → Gather Op Note
  purge_entry dir managed entry h =
      let path = dir +++ "/" +++ entry.name in
      if entry.is_dir || is_managed managed path
      then nothing h
      else (removed_note path (o.done_answer h), os_remove path ∷ h)

  abbrev managed_from : String → ManagedNode → Result (List ConfigSet) → Dict (Unit {0})
  managed_from dir node (ok all) = add_sets dir node all []
  managed_from dir node (err e) = []

  unfoldable pub managed_paths_under :
      String → ManagedNode → String → List Op → Dict (Unit {0}) × List Op
  managed_paths_under namespace node dir h =
      (managed_from dir node (o.config_sets h), list_config_sets namespace ∷ h)

  abbrev purge_all : String → Dict (Unit {0}) → Result (List Entry) → Gather Op Note
  purge_all dir managed (ok entries) = for_each (purge_entry dir managed) entries
  purge_all dir managed (err e) =
      fails (wrap (sprint ("purge: failed to read directory " ∷ quote dir ∷ [])) e)

  unfoldable pub purge_directory : String → ManagedNode → String → Gather Op Note
  purge_directory namespace node dir h =
      let (managed, h1) = managed_paths_under namespace node dir h in
      purge_all dir managed (o.entries_answer h1) (read_dir dir ∷ h1)
