-- ===== src/Jail/Remove.antt =====
-- `DeleteJail` of pkg/jail/manager.go, with `removeJailRCService`, `removeJailConf`, `removeFstab`,
-- and the start, stop and restart of a jail.
pub mod Teardown
use nodemanager.Common.{Error, Io, List, Result, String, [], ask, attempt, err, false}
use nodemanager.Common.{if◌then◌else◌, is_not_found, ok, on_error, perform, pure, raise, sprint}
use nodemanager.Common.{wrap, ◌==◌, ◌>>=◌, ◌>>◌, ◌∷◌}
use nodemanager.Jail.{
  HostFile, Jail, JailMount, Op, Outside, conf, fstab, jail_dataset, jail_root, rc_script,
  read_rcvar, release_snapshot, remove_host_file, set_rcvar, start_jail, stop_jail, umount,
  umount_rest, zfs_destroy, zfs_destroy_recursive, zfs_umount,
}
use nodemanager.Jail.Network.{remove_ip_aliases}
use nodemanager.Jail.Provision.{flush, jail_anchor_name}
use nodemanager.Jail.Zfs.{exists}

abbrev pub about : String → String → Error → Error
about what name = wrap (sprint (what ∷ name ∷ []))

-- A file that is not there is as good as removed.
abbrev pub settle_missing : Result (Unit {0}) → Io Op (Unit {0})
settle_missing (ok u) = pure tt
settle_missing (err e) = if is_not_found e then pure tt else raise e

module _ (o : Outside) where
  unfoldable pub start : String → Io Op (Unit {0})
  start name = perform (start_jail name) o.done_answer

  unfoldable pub stop : String → Io Op (Unit {0})
  stop name = perform (stop_jail name) o.done_answer

  unfoldable pub restart : String → Io Op (Unit {0})
  restart name = do stop name; start name

  abbrev ignore : Io Op (Unit {0}) → Io Op (Unit {0})
  ignore m = do attempt m; pure tt

  unfoldable pub remove_file : HostFile → Io Op (Unit {0})
  remove_file file = do
    r ← attempt (perform (remove_host_file file) o.remove_answer)
    settle_missing r

  unfoldable pub remove_jail_rc_service : String → Io Op (Unit {0})
  remove_jail_rc_service name = do
    enabled ← ask (read_rcvar name) o.is_enabled
    (if enabled then ignore (perform (set_rcvar name false) o.done_answer) else pure tt)
    on_error (about "removing rc.d script for jail " name) (remove_file (rc_script name))

  unfoldable pub unmount_each : String → List JailMount → Io Op (Unit {0})
  unmount_each name [] = pure tt
  unmount_each name (m ∷ mounts) = do
    ignore (perform (umount name m.jail_path) o.done_answer)
    unmount_each name mounts

  unfoldable pub destroy_jail_dataset : String → Io Op (Unit {0})
  destroy_jail_dataset name = do
    there ← on_error (wrap "checking jail dataset") (exists o (jail_dataset name))
    if there
        then on_error (about "destroying jail dataset of " name)
            (perform (zfs_destroy_recursive (jail_dataset name)) o.done_answer)
        else pure tt

  unfoldable pub destroy_snapshot : Jail → Io Op (Unit {0})
  destroy_snapshot j = if j.spec.release == "" then pure tt else do
    there ←
        on_error (about "checking release snapshot of " j.name)
          (exists o (release_snapshot j.spec.release j.name))
    if there
        then on_error (about "destroying release snapshot of " j.name)
            (perform (zfs_destroy (release_snapshot j.spec.release j.name)) o.done_answer)
        else pure tt

  unfoldable pub delete_jail : Jail → Io Op (Unit {0})
  delete_jail j = do
    ignore (stop j.name)
    remove_ip_aliases o j
    ignore (flush o (jail_anchor_name j.name j.spec.pf))
    on_error (about "deregistering rc.d service for jail " j.name) (remove_jail_rc_service j.name)
    on_error (about "removing jail.conf for " j.name) (remove_file (conf j.name))
    on_error (about "removing fstab of " j.name) (remove_file (fstab j.name))
    ignore (perform (umount j.name "dev") o.done_answer)
    unmount_each j.name j.spec.mounts
    ignore (perform (umount_rest j.name) o.done_answer)
    ignore (perform (zfs_umount (jail_root j.name)) o.done_answer)
    destroy_jail_dataset j.name
    destroy_snapshot j
