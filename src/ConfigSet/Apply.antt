-- ===== src/ConfigSet/Apply.antt =====
-- The four phases in which `Reconcile` applies a ConfigSet, and what it makes of their errors.
pub mod Outcome
use nodemanager.Common.{Dict, Duration, Error, Io, List, Option, String, [], attempt, errors_of}
use nodemanager.Common.{if◌then◌else◌, ignored, is_empty, join, none, ok, pos, pure, second}
use nodemanager.Common.{some, suc, ◌*◌, ◌++◌, ◌>>=◌, ◌>>◌}
use nodemanager.Api.{ConfigSet, ManagedNode, NamespacedName}
use nodemanager.ConfigSet.{Op, Outside}
use nodemanager.ConfigSet.Executions.{handle_executions}
use nodemanager.ConfigSet.Files.{FileSetResult, handle_file_set}
use nodemanager.ConfigSet.Notify.{notify_resources}
use nodemanager.ConfigSet.Packages.{handle_package_set}
use nodemanager.ConfigSet.Records.{update_config_set_status, update_file_backups}
use nodemanager.ConfigSet.Services.{handle_service_set}

-- What the phases leave: their errors in order, and the backups of files.
pub record Applied : Type 0 where
  pub errors : List Error
  pub backups : Dict String

-- The `RequeueAfter` of a `ctrl.Result`.
abbrev pub Requeue : Type 0
Requeue = Option Duration

abbrev pub node_key : ManagedNode → NamespacedName
node_key node = record { namespace = node.namespace; name = node.name }

module _ (o : Outside) (namespace : String) (cs : ConfigSet) (node : ManagedNode) where
  abbrev pub files_phase : Io Op FileSetResult
  files_phase h = let (r, h') = handle_file_set o namespace cs.spec.files node h in (ok r, h')

  -- Every phase runs, whatever the others end in.
  unfoldable pub apply_phases : Io Op Applied
  apply_phases = do
    pkg ← attempt (handle_package_set o cs.spec.packages)
    files ← files_phase
    svc ←
        attempt (handle_service_set o namespace cs.spec.services cs.spec.files files.changed_files)
    exec ← attempt (handle_executions o cs.spec.executions files.changed_files)
    pure (record {
      errors = errors_of pkg ++ errors_of files.result ++ errors_of svc ++ errors_of exec;
      backups = files.backups;
    })

  abbrev pub record_backups : Dict String → Io Op (Unit {0})
  record_backups backups =
      if is_empty backups then pure tt else ignored (update_file_backups o (node_key node) backups)

  abbrev pub record_outcome : Option Error → Io Op (Unit {0})
  record_outcome e =
      ignored (update_config_set_status o (node_key node) cs.name cs.resource_version e [])

  abbrev pub period : Requeue
  period = elim o.reconcile_period [ pos (suc d) ↦ some (pos (suc d)) | _ ↦ none ]

  abbrev pub conclude : Option Error → Io Op Requeue
  conclude (some e) = pure (some (pos (30 * second)))
  conclude none = do notify_resources o cs; pure period

  -- From the packages to the notifications.
  unfoldable pub apply : Io Op Requeue
  apply = do
    applied ← apply_phases
    record_backups applied.backups
    record_outcome (join applied.errors)
    conclude (join applied.errors)
