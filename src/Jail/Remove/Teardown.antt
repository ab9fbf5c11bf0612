-- ===== src/Jail/Remove/Teardown.antt =====
-- What `DeleteJail` and `EnsureJail` destroy, and in which order a jail is torn down.
use nodemanager.Common.{Bool, Bool-cases, Ensures, List, Preserves, Result, Result-cases}
use nodemanager.Common.{Sometime, String, [], ap, attempt, err, error_ends, false, inl, inr}
use nodemanager.Common.{is_not_found, kept_ends, nothing_yet, of_attempt, of_bind, of_call}
use nodemanager.Common.{of_error, of_if, of_pure, of_then, of_tried, ok, on_error, perform}
use nodemanager.Common.{pure, refl, then_ends, true, ◌==◌, ◌>>◌, ◌∙◌, ◌∷◌, ◌≡◌}
use nodemanager.Jail.{
  Dataset, HostFile, Jail, JailMount, Op, Outside, conf, flush_anchor, fstab, jail_dataset,
  jail_root, rc_script, read_rcvar, release_snapshot, remove_alias, remove_host_file, set_rcvar,
  stop_jail, umount, umount_rest, zfs_destroy, zfs_destroy_recursive, zfs_list, zfs_umount,
}
use nodemanager.Jail.Network.{remove_ip_aliases, remove_ip_aliases-Preserves}
use nodemanager.Jail.Provision.{flush, jail_anchor_name}
use nodemanager.Jail.Remove.{
  about, delete_jail, destroy_jail_dataset, destroy_snapshot, remove_file, remove_jail_rc_service,
  settle_missing, stop, unmount_each,
}
use nodemanager.Jail.Zfs.{exists}

abbrev is_gone : Result (Unit {0}) → Bool
is_gone (ok u) = true
is_gone (err e) = is_not_found e

-- A dataset or a snapshot that was made for the jail.
abbrev pub Own : String → Dataset → Type 0
Own name (jail_dataset jail) = jail ≡ name
Own name (jail_root jail) = jail ≡ name
Own name (release_snapshot release jail) = jail ≡ name
Own name _ = ⊥

abbrev pub SparesOthers : String → Op → Type 0
SparesOthers name (zfs_destroy d) = Own name d
SparesOthers name (zfs_destroy_recursive d) = Own name d
SparesOthers name _ = Unit

module _ (o : Outside) (name : String) (Q : List Op → Type 0)
    (closed : (op : Op) (h : List Op) → SparesOthers name op → Q h → Q (op ∷ h)) where
  abbrev harmless : (op : Op) → SparesOthers name op → (h : List Op) → Q h → Q (op ∷ h)
  harmless op own h q = closed op h own q

  abbrev tried :
      (op : Op) (answer : List Op → Result (Unit {0}))
      → SparesOthers name op
      → Preserves Q (attempt (perform op answer) >> pure (tt {0}))
  tried op answer own = of_tried op answer (harmless op own)

  settle_missing-Preserves : (r : Result (Unit {0})) → Preserves Q (settle_missing r)
  settle_missing-Preserves (ok u) = of_pure
  settle_missing-Preserves (err e) = of_if (is_not_found e) of_pure of_pure

  remove_file-Preserves : (file : HostFile) → Preserves Q (remove_file o file)
  unfolding remove_file
  remove_file-Preserves file =
      of_bind
        (of_attempt
          (of_call (remove_host_file file) o.remove_answer (harmless (remove_host_file file) tt)))
        settle_missing-Preserves

  remove_jail_rc_service-Preserves : (jail : String) → Preserves Q (remove_jail_rc_service o jail)
  unfolding remove_jail_rc_service
  remove_jail_rc_service-Preserves jail =
      of_bind (of_call (read_rcvar jail) (λ h. ok (o.is_enabled h)) (harmless (read_rcvar jail) tt))
        (λ enabled.
          of_then
            (of_if enabled (tried (set_rcvar jail false) o.done_answer tt) (of_pure {r = ok tt}))
            (of_error (about "removing rc.d script for jail " jail)
              (remove_file-Preserves (rc_script jail))))

  unmount_each-Preserves :
      (jail : String) (mounts : List JailMount) → Preserves Q (unmount_each o jail mounts)
  unfolding unmount_each
  unmount_each-Preserves jail [] = of_pure
  unmount_each-Preserves jail (m ∷ mounts) =
      of_then (tried (umount jail m.jail_path) o.done_answer tt)
        (unmount_each-Preserves jail mounts)

  destroy_jail_dataset-Preserves : Preserves Q (destroy_jail_dataset o name)
  unfolding destroy_jail_dataset exists
  destroy_jail_dataset-Preserves =
      of_bind
        (of_error _ (
          of_call (zfs_list (jail_dataset name)) o.listing
            (harmless (zfs_list (jail_dataset name)) tt)))
        (λ there.
          of_if there
            (of_error _ (
              of_call (zfs_destroy_recursive (jail_dataset name)) o.done_answer
                (harmless (zfs_destroy_recursive (jail_dataset name)) refl)))
            of_pure)

  destroy_snapshot-Preserves : (j : Jail) → j.name ≡ name → Preserves Q (destroy_snapshot o j)
  unfolding destroy_snapshot exists
  destroy_snapshot-Preserves j same =
      let d : Dataset = release_snapshot j.spec.release j.name in
      of_if (j.spec.release == "") of_pure (
        of_bind (of_error _ (of_call (zfs_list d) o.listing (harmless (zfs_list d) tt))) (λ there.
          of_if there
            (of_error _ (of_call (zfs_destroy d) o.done_answer (harmless (zfs_destroy d) same)))
            of_pure))

module _ (o : Outside) (j : Jail) (Q : List Op → Type 0)
    (closed : (op : Op) (h : List Op) → SparesOthers j.name op → Q h → Q (op ∷ h)) where
  delete_jail-Preserves : Preserves Q (delete_jail o j)
  unfolding delete_jail stop flush
  delete_jail-Preserves = of_then (tried o j.name Q closed (stop_jail j.name) o.done_answer tt) (
      of_then (remove_ip_aliases-Preserves o Q (λ i f a h q. closed (remove_alias i f a) h tt q) j)
        (of_then
          (tried o j.name Q closed (flush_anchor (jail_anchor_name j.name j.spec.pf)) o.done_answer
            tt)
          (of_then
            (of_error (about "deregistering rc.d service for jail " j.name)
              (remove_jail_rc_service-Preserves o j.name Q closed j.name))
            (of_then
              (of_error (about "removing jail.conf for " j.name)
                (remove_file-Preserves o j.name Q closed (conf j.name)))
              (of_then
                (of_error (about "removing fstab of " j.name)
                  (remove_file-Preserves o j.name Q closed (fstab j.name)))
                (of_then (tried o j.name Q closed (umount j.name "dev") o.done_answer tt) (
                  of_then (unmount_each-Preserves o j.name Q closed j.name j.spec.mounts) (
                    of_then (tried o j.name Q closed (umount_rest j.name) o.done_answer tt) (
                      of_then
                        (tried o j.name Q closed (zfs_umount (jail_root j.name)) o.done_answer tt)
                        (of_then (destroy_jail_dataset-Preserves o j.name Q closed)
                          (destroy_snapshot-Preserves o j.name Q closed j refl)))))))))))

abbrev pub AllSpare : String → List Op → Type 0
AllSpare name [] = Unit
AllSpare name (op ∷ h) = SparesOthers name op × AllSpare name h

-- `DeleteJail` destroys no dataset and no snapshot but those that were made for the jail, whatever
-- its calls answer.
pub delete_jail-AllSpare :
    (o : Outside) (j : Jail) (h : List Op)
    → AllSpare j.name h
    → AllSpare j.name (delete_jail o j h).1
delete_jail-AllSpare o j h spared =
    (delete_jail-Preserves o j (AllSpare j.name) (λ op h' own q. (own, q))).preserves h spared

-- `jail.conf` is gone, so that the jail cannot be started.
abbrev pub IsUnconfigured : Outside → String → Op → List Op → Type 0
IsUnconfigured o name (remove_host_file (conf jail)) h =
    (jail ≡ name) × (is_gone (o.remove_answer h) ≡ true)
IsUnconfigured o name _ h = ⊥

-- The dataset of the jail is gone, after its `jail.conf`.
abbrev pub IsDestroyed : Outside → String → Op → List Op → Type 0
IsDestroyed o name (zfs_list (jail_dataset jail)) h =
    (jail ≡ name) × (o.listing h ≡ ok false) × Sometime (IsUnconfigured o name) h
IsDestroyed o name (zfs_destroy_recursive (jail_dataset jail)) h =
    (jail ≡ name) × (o.done_answer h ≡ ok tt) × Sometime (IsUnconfigured o name) h
IsDestroyed o name _ h = ⊥

module _ (o : Outside) where
  remove_conf_ends :
      (name : String)
      → Ensures (λ h. Unit {0}) (remove_file o (conf name)) (Sometime (IsUnconfigured o name))
  unfolding remove_file
  remove_conf_ends name = record {
    ends = λ h q a p. elim (Result-cases (o.remove_answer h)) [
      | inl (u, done) ↦ rw done (inl (refl, rw done refl))
      | inr (e, failed) ↦ elim (Bool-cases (is_not_found e)) [
        | inl missing ↦ rw (failed, missing) (inl (refl, rw failed missing))
        | inr stays ↦ cc (rw (failed, stays) at p)
      ]
    ];
  }

  destroy_ends :
      (name : String)
      → Ensures
          (Sometime (IsUnconfigured o name))
          (destroy_jail_dataset o name)
          (Sometime (IsDestroyed o name))
  unfolding destroy_jail_dataset exists
  destroy_ends name = record {
    ends = λ h q a p. elim (Result-cases (o.listing h)) [
      | inr (e, failed) ↦ cc (rw failed at p)
      | inl (there, known) ↦ elim (Bool-cases there) [
        | inr f ↦ rw (known, f) (inl (refl, known ∙ ap ok f, q))
        | inl t ↦ elim (Result-cases (o.done_answer (zfs_list (jail_dataset name) ∷ h))) [
          | inl (u, done) ↦ rw (known, t, done) (inl (refl, refl, inr q))
          | inr (e, failed) ↦ cc (rw (known, t, failed) at p)
        ]
      ]
    ];
  }

  delete_ends :
      (j : Jail) → Ensures (λ h. Unit {0}) (delete_jail o j) (Sometime (IsDestroyed o j.name))
  unfolding delete_jail
  delete_ends j =
      let unset : List Op → Type 0 = Sometime (IsUnconfigured o j.name) in
      let later : (op : Op) (h : List Op) → SparesOthers j.name op → unset h → unset (op ∷ h) =
        λ op h own q. inr q in
      let last : (op : Op) (h : List Op)
          → SparesOthers j.name op
          → Sometime (IsDestroyed o j.name) h
          → Sometime (IsDestroyed o j.name) (op ∷ h) =
        λ op h own q. inr q in
      then_ends (nothing_yet (attempt (stop o j.name) >> pure (tt {0}))) (
        then_ends (nothing_yet (remove_ip_aliases o j)) (
          then_ends
            (nothing_yet (attempt (flush o (jail_anchor_name j.name j.spec.pf)) >> pure (tt {0})))
            (then_ends
              (nothing_yet (
                on_error (about "deregistering rc.d service for jail " j.name)
                  (remove_jail_rc_service o j.name)))
              (then_ends
                (error_ends (about "removing jail.conf for " j.name) (remove_conf_ends j.name))
                (then_ends
                  (kept_ends (
                    of_error (about "removing fstab of " j.name)
                      (remove_file-Preserves o j.name unset later (fstab j.name))))
                  (then_ends
                    (kept_ends (tried o j.name unset later (umount j.name "dev") o.done_answer tt))
                    (then_ends
                      (kept_ends (unmount_each-Preserves o j.name unset later j.name j.spec.mounts))
                      (then_ends
                        (kept_ends
                          (tried o j.name unset later (umount_rest j.name) o.done_answer tt))
                        (then_ends
                          (kept_ends (
                            tried o j.name unset later (zfs_umount (jail_root j.name)) o.done_answer
                              tt))
                          (then_ends (destroy_ends j.name) (
                            kept_ends (destroy_snapshot-Preserves o j.name _ last j refl))))))))))))

  -- If `DeleteJail` succeeds, then zfs-list denied the dataset of the jail or its destruction
  -- succeeded, and before that its `jail.conf` was removed or was missing.
  pub delete_jail-IsDestroyed :
      (j : Jail) (h : List Op)
      → (delete_jail o j h).0 ≡ ok tt
      → Sometime (IsDestroyed o j.name) (delete_jail o j h).1
  delete_jail-IsDestroyed j h done = (delete_ends j).ends h tt tt done
