-- ===== src/ConfigSet/Files/Notes.antt =====
-- What the loop of `handleFileSet` gathers.
use nodemanager.Common.{Bool, Dict, Error, Gather, List, String, [], false, found, insert}
use nodemanager.Common.{nothing, true, ◌∷◌}
use nodemanager.ConfigSet.{Op}

-- What a round of the loop adds to `changedFiles`, `fileBackupUpdates` and `errs`.
pub data Note : Type 0 where
  changed : String → Note
  backed_up : (path hash : String) → Note
  failed : Error → Note

abbrev pub fails : Error → Gather Op Note
fails e = found (failed e)

abbrev pub marks : Bool → String → Gather Op Note
marks true path = found (changed path)
marks false path = nothing

abbrev pub changed_in : List Note → List String
changed_in [] = []
changed_in (changed path ∷ notes) = path ∷ changed_in notes
changed_in (_ ∷ notes) = changed_in notes

abbrev pub backups_in : List Note → Dict String → Dict String
backups_in [] m = m
backups_in (backed_up path hash ∷ notes) m = backups_in notes (insert path hash m)
backups_in (_ ∷ notes) m = backups_in notes m

abbrev pub errors_in : List Note → List Error
errors_in [] = []
errors_in (failed e ∷ notes) = e ∷ errors_in notes
errors_in (_ ∷ notes) = errors_in notes
