-- ===== src/Jail/Provision/Spares.antt =====
-- What `EnsureJail` destroys with all that is below it.
use nodemanager.Common.{Bool, List, Option, Preserves, Result, String, [], attempt, false}
use nodemanager.Common.{is_empty, none, not, of_attempt, of_bind, of_call, of_error, of_if}
use nodemanager.Common.{of_pure, of_then, of_tried, ok, perform, pure, refl, some, true, wrap}
use nodemanager.Common.{◌&&◌, ◌==◌, ◌>>◌, ◌||◌, ◌∷◌, ◌≡◌}
use nodemanager.Jail.{
  Dataset, HostFile, Jail, JailMount, JailPf, Op, Outside, RunningJail, conf, copy_host_files,
  ensure_release, flush_anchor, fstab, jail_dataset, jail_root, list_running, load_anchor,
  make_mountpoint, make_parent, rc_script, read_host_file, read_rcvar, release_snapshot,
  remove_alias, set_rcvar, stop_jail, write_host_file, zfs_clone, zfs_create, zfs_destroy,
  zfs_destroy_recursive, zfs_get_origin, zfs_list, zfs_snapshot,
}
use nodemanager.Jail.Network.{
  cycle, cycle_jail_if_network_changed, find_running, has_address, remove_ip_aliases,
  remove_ip_aliases-Preserves,
}
use nodemanager.Jail.Provision.{
  about, clone_root, configure_jail, differs, drop_stale_root, ensure_anchor, ensure_jail,
  ensure_jail_rc_service, flush, is_current, jail_anchor_name, keep_or_destroy, make_mountpoints,
  stop_if, sync_anchor, write_mounts, write_rendered,
}
use nodemanager.Jail.Zfs.{ensure_dataset, exists}

abbrev pub IsOwnRoot : String → Op → Type 0
IsOwnRoot name (zfs_destroy_recursive d) = d ≡ jail_root name
IsOwnRoot name _ = Unit

module _ (o : Outside) (j : Jail) (Q : List Op → Type 0)
    (closed : (op : Op) (h : List Op) → IsOwnRoot j.name op → Q h → Q (op ∷ h)) where
  abbrev call :
      {A : Type 0} (op : Op) (answer : List Op → Result A)
      → IsOwnRoot j.name op
      → Preserves Q (perform op answer)
  call op answer own = of_call op answer (λ h q. closed op h own q)

  abbrev tried :
      (op : Op) (answer : List Op → Result (Unit {0}))
      → IsOwnRoot j.name op
      → Preserves Q (attempt (perform op answer) >> pure (tt {0}))
  tried op answer own = of_tried op answer (λ h q. closed op h own q)

  write_rendered-Preserves :
      (file : HostFile) (text : String) → Preserves Q (write_rendered o file text)
  unfolding write_rendered
  write_rendered-Preserves file text = of_then (call (make_parent file) o.done_answer tt) (
      of_bind (of_attempt (call (read_host_file file) o.file_answer tt)) (λ existing.
        of_then (call (write_host_file file text) o.done_answer tt)
          (of_pure {r = ok (differs existing text)})))

  ensure_jail_rc_service-Preserves : (name : String) → Preserves Q (ensure_jail_rc_service o name)
  unfolding ensure_jail_rc_service
  ensure_jail_rc_service-Preserves name =
      let file : HostFile = rc_script name in
      of_then (call (make_parent file) o.done_answer tt) (
        of_bind (of_attempt (call (read_host_file file) o.file_answer tt)) (λ existing.
          of_then
            (of_if (is_current existing (o.rc_text name)) (of_pure {r = ok tt})
              (call (write_host_file file (o.rc_text name)) o.done_answer tt))
            (of_bind (call (read_rcvar name) (λ h. ok (o.is_enabled h)) tt) (λ enabled.
              of_if enabled (of_pure {r = ok tt}) (call (set_rcvar name true) o.done_answer tt)))))

  aliases-Preserves : Preserves Q (remove_ip_aliases o j)
  aliases-Preserves =
      remove_ip_aliases-Preserves o Q (λ i f a h q. closed (remove_alias i f a) h tt q) j

  cycle-Preserves : (now : Option RunningJail) → Preserves Q (cycle o j now)
  cycle-Preserves none = aliases-Preserves
  cycle-Preserves (some now) =
      of_if (has_address j now) of_pure
        (of_then (of_attempt (call (stop_jail j.name) o.done_answer tt)) aliases-Preserves)

  cycle_jail-Preserves : Preserves Q (cycle_jail_if_network_changed o j)
  unfolding cycle_jail_if_network_changed
  cycle_jail-Preserves = of_if ((j.spec.inet == "") && (j.spec.inet6 == "")) of_pure (
      of_bind (of_error (wrap "listing running jails") (call list_running o.running_answer tt))
        (λ jails. cycle-Preserves (find_running j.name jails)))

  keep_or_destroy-Preserves :
      (origin : Option (String × Dataset)) → Preserves Q (keep_or_destroy o j origin)
  keep_or_destroy-Preserves none = of_pure
  keep_or_destroy-Preserves (some (release, origin)) = of_if (release == j.spec.release) of_pure (
      of_then (of_attempt (call (stop_jail j.name) o.done_answer tt)) (
        of_then
          (of_error (about "destroying stale jail root for " j.name)
            (call (zfs_destroy_recursive (jail_root j.name)) o.done_answer refl))
          (of_then (of_attempt (call (zfs_destroy origin) o.done_answer tt))
            (of_pure {r = ok false}))))

  drop_stale_root-Preserves : (there : Bool) → Preserves Q (drop_stale_root o j there)
  unfolding drop_stale_root
  drop_stale_root-Preserves there =
      of_if there
        (of_bind
          (of_error (about "checking jail root origin for " j.name)
            (call (zfs_get_origin (jail_root j.name)) o.origin_answer tt))
          keep_or_destroy-Preserves)
        of_pure

  clone_root-Preserves : (there : Bool) → Preserves Q (clone_root o j there)
  unfolding clone_root exists
  clone_root-Preserves there =
      let snapshot : Dataset = release_snapshot j.spec.release j.name in
      of_if there of_pure (
        of_bind
          (of_error (about "checking release snapshot for " j.name)
            (call (zfs_list snapshot) o.listing tt))
          (λ known.
            of_then
              (of_if known (of_pure {r = ok tt}) (
                of_error (about "snapshotting release for " j.name)
                  (call (zfs_snapshot snapshot) o.done_answer tt)))
              (of_error (about "cloning jail root for " j.name)
                (call (zfs_clone snapshot (jail_root j.name)) o.done_answer tt))))

  make_mountpoints-Preserves :
      (name : String) (mounts : List JailMount) → Preserves Q (make_mountpoints o name mounts)
  unfolding make_mountpoints
  make_mountpoints-Preserves name [] = of_pure
  make_mountpoints-Preserves name (m ∷ mounts) =
      of_then
        (of_error (about "creating mountpoint for jail " name)
          (call (make_mountpoint name m.jail_path) o.done_answer tt))
        (make_mountpoints-Preserves name mounts)

  write_mounts-Preserves : Preserves Q (write_mounts o j)
  unfolding write_mounts
  write_mounts-Preserves = of_if (is_empty j.spec.mounts) of_pure (
      of_bind
        (of_error (about "writing fstab for " j.name)
          (write_rendered-Preserves (fstab j.name) (o.fstab_text j)))
        (λ changed.
          of_then (make_mountpoints-Preserves j.name j.spec.mounts) (of_pure {r = ok changed})))

  sync_anchor-Preserves : (pf : Option JailPf) → Preserves Q (sync_anchor o j.name pf)
  unfolding ensure_anchor flush
  sync_anchor-Preserves none = of_pure
  sync_anchor-Preserves (some pf) =
      let anchor : String = jail_anchor_name j.name (some pf) in
      of_error (about "syncing PF anchor for jail " j.name) (
        of_if (is_empty pf.rules) (call (flush_anchor anchor) o.done_answer tt)
          (call (load_anchor anchor pf.rules) o.done_answer tt))

  stop_if-Preserves : (b : Bool) → Preserves Q (stop_if o b j.name)
  stop_if-Preserves true = tried (stop_jail j.name) o.done_answer tt
  stop_if-Preserves false = of_pure

  configure_jail-Preserves : Preserves Q (configure_jail o j)
  unfolding configure_jail
  configure_jail-Preserves =
      of_then
        (of_error (about "copying host files into jail " j.name)
          (call (copy_host_files j.name) o.done_answer tt))
        (of_bind write_mounts-Preserves (λ fstab_changed.
          of_bind
            (of_error (about "writing jail.conf for " j.name)
              (write_rendered-Preserves (conf j.name) (o.conf_text j)))
            (λ conf_changed. of_then (sync_anchor-Preserves j.spec.pf) (
              of_then
                (of_error (about "registering rc.d service for jail " j.name)
                  (ensure_jail_rc_service-Preserves j.name))
                (of_then (stop_if-Preserves (conf_changed || fstab_changed))
                  (of_error (about "checking network change for " j.name) cycle_jail-Preserves))))))

  ensure_jail-Preserves : Preserves Q (ensure_jail o j)
  unfolding ensure_jail ensure_dataset exists
  ensure_jail-Preserves =
      let d : Dataset = jail_dataset j.name in
      of_then
        (of_error (about "ensuring release " j.spec.release)
          (call (ensure_release j.spec.release) o.done_answer tt))
        (of_then
          (of_error (about "ensuring jail dataset of " j.name) (
            of_bind (call (zfs_list d) o.listing tt) (λ there.
              of_if (not there) (call (zfs_create d) o.done_answer tt) (of_pure {r = ok tt}))))
          (of_bind
            (of_error (wrap "checking jail root dataset")
              (call (zfs_list (jail_root j.name)) o.listing tt))
            (λ there.
              of_bind (drop_stale_root-Preserves there)
                (λ kept. of_then (clone_root-Preserves kept) configure_jail-Preserves))))

abbrev pub AllOwnRoots : String → List Op → Type 0
AllOwnRoots name [] = Unit
AllOwnRoots name (op ∷ h) = IsOwnRoot name op × AllOwnRoots name h

-- The only dataset that `EnsureJail` destroys with all below it is the root of the jail, whatever
-- its calls answer.
pub ensure_jail-AllOwnRoots :
    (o : Outside) (j : Jail) (h : List Op)
    → AllOwnRoots j.name h
    → AllOwnRoots j.name (ensure_jail o j h).1
ensure_jail-AllOwnRoots o j h own =
    (ensure_jail-Preserves o j (AllOwnRoots j.name) (λ op h' one q. (one, q))).preserves h own
