-- ===== src/Jail/Provision.antt =====
-- `EnsureJail` of pkg/jail/manager.go, with `writeFstab`, `writeJailConf` and
-- `ensureJailRCService`. The texts of the files are parameters: templates of Go render them.
pub mod Spares
use nodemanager.Common.{Bool, Error, Io, List, Option, Result, String, [], ask, attempt, err}
use nodemanager.Common.{false, if◌then◌else◌, is_empty, none, not, ok, on_error, perform, pure}
use nodemanager.Common.{some, sprint, true, wrap, ◌==◌, ◌>>=◌, ◌>>◌, ◌||◌, ◌∷◌}
use nodemanager.Jail.{
  Dataset, HostFile, Jail, JailMount, JailPf, Op, Outside, conf, copy_host_files, ensure_release,
  flush_anchor, fstab, jail_dataset, jail_root, load_anchor, make_mountpoint, make_parent,
  rc_script, read_host_file, read_rcvar, release_snapshot, set_rcvar, stop_jail, write_host_file,
  zfs_clone, zfs_destroy, zfs_destroy_recursive, zfs_get_origin, zfs_snapshot,
}
use nodemanager.Jail.Network.{cycle_jail_if_network_changed}
use nodemanager.Jail.Zfs.{ensure_dataset, exists}

unfoldable pub jail_anchor_name : String → Option JailPf → String
jail_anchor_name name none = sprint ("jails/" ∷ name ∷ [])
jail_anchor_name name (some pf) =
    if not (pf.anchor_name == "") then pf.anchor_name else sprint ("jails/" ∷ name ∷ [])

abbrev pub about : String → String → Error → Error
about what name = wrap (sprint (what ∷ name ∷ []))

abbrev differs : Result String → String → Bool
differs (ok existing) text = not (existing == text)
differs (err e) text = false

abbrev is_current : Result String → String → Bool
is_current (ok existing) text = existing == text
is_current (err e) text = false

module _ (o : Outside) where
  -- Whether the file was there with another text; it is written in any case.
  unfoldable pub write_rendered : HostFile → String → Io Op Bool
  write_rendered file text = do
    perform (make_parent file) o.done_answer
    existing ← attempt (perform (read_host_file file) o.file_answer)
    perform (write_host_file file text) o.done_answer
    pure (differs existing text)

  unfoldable pub ensure_jail_rc_service : String → Io Op (Unit {0})
  ensure_jail_rc_service name = do
    perform (make_parent (rc_script name)) o.done_answer
    existing ← attempt (perform (read_host_file (rc_script name)) o.file_answer)
    (if is_current existing (o.rc_text name)
        then pure tt
        else perform (write_host_file (rc_script name) (o.rc_text name)) o.done_answer)
    enabled ← ask (read_rcvar name) o.is_enabled
    if enabled then pure tt else perform (set_rcvar name true) o.done_answer

  unfoldable pub flush : String → Io Op (Unit {0})
  flush anchor = perform (flush_anchor anchor) o.done_answer

  unfoldable pub ensure_anchor : String → List String → Io Op (Unit {0})
  ensure_anchor anchor rules =
      if is_empty rules then flush anchor else perform (load_anchor anchor rules) o.done_answer

  -- Whether the root is still there: one that was cloned from another release goes.
  abbrev keep_or_destroy : Jail → Option (String × Dataset) → Io Op Bool
  keep_or_destroy j none = pure true
  keep_or_destroy j (some (release, origin)) = if release == j.spec.release then pure true else do
    attempt (perform (stop_jail j.name) o.done_answer)
    on_error (about "destroying stale jail root for " j.name)
        (perform (zfs_destroy_recursive (jail_root j.name)) o.done_answer)
    attempt (perform (zfs_destroy origin) o.done_answer)
    pure false

  unfoldable pub drop_stale_root : Jail → Bool → Io Op Bool
  drop_stale_root j there =
      if there
      then (do
        origin ←
            on_error (about "checking jail root origin for " j.name)
              (perform (zfs_get_origin (jail_root j.name)) o.origin_answer)
        keep_or_destroy j origin)
      else pure false

  unfoldable pub clone_root : Jail → Bool → Io Op (Unit {0})
  clone_root j there = if there then pure tt else do
    known ←
        on_error (about "checking release snapshot for " j.name)
          (exists o (release_snapshot j.spec.release j.name))
    (if known
        then pure tt
        else on_error (about "snapshotting release for " j.name)
            (perform (zfs_snapshot (release_snapshot j.spec.release j.name)) o.done_answer))
    on_error (about "cloning jail root for " j.name) (
        perform (zfs_clone (release_snapshot j.spec.release j.name) (jail_root j.name))
          o.done_answer)

  unfoldable pub make_mountpoints : String → List JailMount → Io Op (Unit {0})
  make_mountpoints name [] = pure tt
  make_mountpoints name (m ∷ mounts) = do
    on_error (about "creating mountpoint for jail " name)
        (perform (make_mountpoint name m.jail_path) o.done_answer)
    make_mountpoints name mounts

  unfoldable pub write_mounts : Jail → Io Op Bool
  write_mounts j = if is_empty j.spec.mounts then pure false else do
    changed ←
        on_error (about "writing fstab for " j.name)
          (write_rendered (fstab j.name) (o.fstab_text j))
    make_mountpoints j.name j.spec.mounts
    pure changed

  abbrev sync_anchor : String → Option JailPf → Io Op (Unit {0})
  sync_anchor name none = pure tt
  sync_anchor name (some pf) =
      on_error (about "syncing PF anchor for jail " name)
        (ensure_anchor (jail_anchor_name name (some pf)) pf.rules)

  abbrev stop_if : Bool → String → Io Op (Unit {0})
  stop_if true name = do attempt (perform (stop_jail name) o.done_answer); pure tt
  stop_if false name = pure tt

  -- The steps 4 to 8, on a root that is there.
  unfoldable pub configure_jail : Jail → Io Op (Unit {0})
  configure_jail j = do
    on_error (about "copying host files into jail " j.name)
        (perform (copy_host_files j.name) o.done_answer)
    fstab_changed ← write_mounts j
    conf_changed ←
        on_error (about "writing jail.conf for " j.name)
          (write_rendered (conf j.name) (o.conf_text j))
    sync_anchor j.name j.spec.pf
    on_error (about "registering rc.d service for jail " j.name) (ensure_jail_rc_service j.name)
    stop_if (conf_changed || fstab_changed) j.name
    on_error (about "checking network change for " j.name) (cycle_jail_if_network_changed o j)

  unfoldable pub ensure_jail : Jail → Io Op (Unit {0})
  ensure_jail j = do
    on_error (about "ensuring release " j.spec.release)
        (perform (ensure_release j.spec.release) o.done_answer)
    on_error (about "ensuring jail dataset of " j.name) (ensure_dataset o (jail_dataset j.name))
    there ← on_error (wrap "checking jail root dataset") (exists o (jail_root j.name))
    kept ← drop_stale_root j there
    clone_root j kept
    configure_jail j
