-- ===== src/JailController/Safety.antt =====
-- When the Jail reconciler lets a jail go.
use nodemanager.Common.{Bool, Bool-cases, IsRetry, List, Option, Preserves, Result, Sometime}
use nodemanager.Common.{String, [], arith, eq_iff, eq_refl, err, false, inl, inr, is_not_found}
use nodemanager.Common.{none, of_attempt, of_bind, of_call, of_error, of_if, of_ignored}
use nodemanager.Common.{of_pure, of_then, ok, refl, some, true, wrap, ℕ, ◌++◌, ◌==◌, ◌∷◌, ◌≡◌}
use nodemanager.Common.{◌≢◌, ◌⊎◌}
use nodemanager.Api.{NamespacedName}
use nodemanager.Jail.{Jail}
use nodemanager.JailController.{
  JailResource, Op, Outside, Requeue, add_finalizer, contains, delete_jail, get_jail,
  jail_finalizer, start_jail, stop_jail, update_jail, update_root,
}
use nodemanager.JailController.Phases.{fail-Preserves, maintain-Preserves, note-Preserves}
use nodemanager.JailController.Reconcile.{
  deleted, ensure_finalizer, fetched, finalize, reconcile, reconcile_own, unless_protected,
}
use nodemanager.JailController.Steps.{IsClosed, recorded-Preserves}
use nodemanager.JailController.Update.{Next, run_update}

-- A jail is to go: a read of its resource found it on this host, deleted and not protected.
abbrev pub IsCondemned : Outside → Jail → Op → List Op → Type 0
IsCondemned o j (get_jail key) h =
    (x : JailResource) × (o.jail_answer h ≡ ok x)
    × (x.jail ≡ j)
    × (x.node_name ≡ o.hostname)
    × (x.deletion_timestamp ≢ none)
    × (x.deletion_protection ≡ false)
IsCondemned o j _ h = ⊥

-- The manager has deleted the jail.
abbrev pub IsDeletion : Outside → Jail → Op → List Op → Type 0
IsDeletion o j (delete_jail j') h = (j' ≡ j) × (o.manager_answer h ≡ ok tt)
IsDeletion o j _ h = ⊥

-- Only condemned jails are deleted, and a resource is written without the finalizer only after the
-- deletion of its jail.
abbrev pub IsGuarded : Outside → List Op → Type 0
IsGuarded o [] = Unit
IsGuarded o (delete_jail j ∷ h) = Sometime (IsCondemned o j) h × IsGuarded o h
IsGuarded o (update_jail x ∷ h) =
    ((contains jail_finalizer x.finalizers ≡ true) ⊎ Sometime (IsDeletion o x.jail) h)
    × IsGuarded o h
IsGuarded o (_ ∷ h) = IsGuarded o h

guard_closed : (o : Outside) → IsClosed (IsGuarded o)
guard_closed o op h harmless q = ground arith

contains_last : (s : String) (ts : List String) → contains s (ts ++ s ∷ []) ≡ true
contains_last s [] = rw (eq_refl s) refl
contains_last s (t ∷ ts) = rw (contains_last s ts) (ground arith)

module _ (o : Outside) (is : IsRetry o.retry_on_conflict) (key : NamespacedName) where
  run_update-Guarded :
      (j : JailResource) (next : Next) → Preserves (IsGuarded o) (run_update o j next)
  unfolding run_update
  run_update-Guarded j next =
      of_then
        (of_error (wrap "stopping jail for update")
          (of_call (stop_jail j.jail.name) o.manager_answer (λ h q. q)))
        (of_bind (of_attempt (of_call (update_root j.jail.name) o.manager_answer (λ h q. q)))
          (λ updated.
            of_then (of_ignored (of_call (start_jail j.jail.name) o.manager_answer (λ h q. q)))
              (recorded-Preserves o (IsGuarded o) (guard_closed o) is j next updated)))

  ensure_finalizer-Guarded : (j : JailResource) → Preserves (IsGuarded o) (ensure_finalizer o key j)
  unfolding ensure_finalizer
  ensure_finalizer-Guarded j = of_if (contains jail_finalizer j.finalizers) (of_pure {r = ok j}) (
      of_then
        (of_call (update_jail (add_finalizer j)) o.write_answer
          (λ h q. (inl (contains_last jail_finalizer j.finalizers), q)))
        (of_pure {r = ok (add_finalizer j)}))

  deleted-Guarded :
      (j : JailResource) (r : Result (Unit {0})) (h : List Op)
      → o.manager_answer h ≡ r
      → IsGuarded o (delete_jail j.jail ∷ h)
      → IsGuarded o (deleted o key j r (delete_jail j.jail ∷ h)).1
  deleted-Guarded j (err e) h answered q =
      (fail-Preserves o (IsGuarded o) (guard_closed o) is key {A = Requeue} _ e).preserves _ q
  deleted-Guarded j (ok a) h answered q = ground arith

  unless_protected-Guarded :
      (b : Bool) (j : JailResource) (h : List Op)
      → (b ≡ false → Sometime (IsCondemned o j.jail) h)
      → IsGuarded o h
      → IsGuarded o (unless_protected o key b j h).1
  unless_protected-Guarded true j h condemned q =
      (of_ignored (note-Preserves o (IsGuarded o) (guard_closed o) is key _)).preserves h q
  unless_protected-Guarded false j h condemned q =
      deleted-Guarded j (o.manager_answer h) h refl (condemned refl, q)

  finalize-Guarded :
      (j : JailResource) (h : List Op)
      → (j.deletion_protection ≡ false → Sometime (IsCondemned o j.jail) h)
      → IsGuarded o h
      → IsGuarded o (finalize o key j h).1
  unfolding finalize
  finalize-Guarded j h condemned q = elim (Bool-cases (contains jail_finalizer j.finalizers)) [
    | inr absent ↦ rw absent q
    | inl present ↦ rw present (unless_protected-Guarded j.deletion_protection j h condemned q)
  ]

  reconcile_own-Guarded :
      (t : Option ℕ) (j : JailResource) (h : List Op)
      → (t ≢ none → j.deletion_protection ≡ false → Sometime (IsCondemned o j.jail) h)
      → IsGuarded o h
      → IsGuarded o (reconcile_own o key t j h).1
  reconcile_own-Guarded (some t) j h condemned q = finalize-Guarded j h (condemned (λ absent. cc)) q
  reconcile_own-Guarded none j h condemned q =
      (of_bind (ensure_finalizer-Guarded j) (λ j'.
          maintain-Preserves o (IsGuarded o) (guard_closed o) is key j'
            (run_update-Guarded j'))).preserves
        h q

  fetched-Guarded :
      (r : Result JailResource) (h : List Op)
      → o.jail_answer h ≡ r
      → IsGuarded o h
      → IsGuarded o (fetched o key r (get_jail key ∷ h)).1
  fetched-Guarded (err e) h answered q = elim (Bool-cases (is_not_found e)) [
    | inl gone ↦ rw gone q
    | inr failed ↦ rw failed q
  ]
  fetched-Guarded (ok j) h answered q = elim (Bool-cases (j.node_name == o.hostname)) [
    | inr foreign ↦ rw foreign q
    | inl own ↦ rw own (
        reconcile_own-Guarded j.deletion_timestamp j (get_jail key ∷ h)
          (λ dying free.
            inl (j, answered, refl, (eq_iff j.node_name o.hostname).0 own, dying, free))
          q)
  ]

  -- If conflicts are retried the way client-go documents, then whatever the calls of Reconcile
  -- answer, it deletes a jail only after it has read the jail's resource and found it on this host,
  -- with a deletion timestamp and no deletion protection, and it writes a resource without the
  -- finalizer only after DeleteJail has succeeded for its jail.
  pub reconcile-IsGuarded : (h : List Op) → IsGuarded o h → IsGuarded o (reconcile o key h).1
  unfolding reconcile
  reconcile-IsGuarded h q = fetched-Guarded (o.jail_answer h) h refl q
