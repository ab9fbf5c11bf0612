-- ===== src/JailController/Phases.antt =====
-- What the phases of `Reconcile` keep true of the log.
use nodemanager.Common.{Bool, Error, Io, IsRetry, List, Option, Preserves, Result, String, []}
use nodemanager.Common.{attempt, err, none, of_attempt, of_bind, of_if, of_ignored, of_pure}
use nodemanager.Common.{of_then, ok, perform, some, until, ℕ, ◌==◌, ◌>>=◌, ◌∷◌}
use nodemanager.Api.{NamespacedName}
use nodemanager.Jail.{Jail}
use nodemanager.JailController.{
  JailResource, Op, Outside, PostCreateCommand, bootstrap_pkg, ensure_jail, exec_in_jail,
  get_template, installed_release, is_running, read_clock, start_jail,
}
use nodemanager.JailController.Reconcile.{
  booted, bootstrap, checked, ensure_running, fail, hooked, maintain, merged, note, outcome,
  provision, provisioned, read_release, requeue, resolve, run_hooks, run_post_create, started,
}
use nodemanager.JailController.Steps.{
  IsClosed, IsHarmless, asked, call, contend-Preserves, handle_update-Preserves,
  update_status_with_retry-Preserves,
}
use nodemanager.JailController.Update.{Next, run_update}

module _ (o : Outside) (Q : List Op → Type 0) (closed : IsClosed Q)
    (is : IsRetry o.retry_on_conflict) (key : NamespacedName) where
  pub note-Preserves : (change : JailResource → JailResource) → Preserves Q (note o key change)
  note-Preserves change = update_status_with_retry-Preserves o Q closed is key change

  pub fail-Preserves :
      {A : Type 0} (change : JailResource → JailResource) (e : Error)
      → Preserves Q (fail o key {A = A} change e)
  fail-Preserves change e = of_then (of_ignored (note-Preserves change)) (of_pure {r = err e})

  -- A call whose error fails the run.
  or_fail-Preserves :
      {A B : Type 0} (op : Op) (answer : List Op → Result A) (f : Result A → Io Op B)
      → IsHarmless op
      → ((a : A) → Preserves Q (f (ok a)))
      → ((e : Error) → Preserves Q (f (err e)))
      → Preserves Q (attempt (perform op answer) >>= f)
  or_fail-Preserves op answer f harmless good bad =
      of_bind (of_attempt (call o Q closed is op answer harmless)) split
    where
      split : (r : Result _) → Preserves Q (f r)
      split (ok a) = good a
      split (err e) = bad e

  resolve-Preserves : (j : JailResource) → Preserves Q (resolve o key j)
  unfolding resolve
  resolve-Preserves j = of_if (j.template_ref == "") (of_pure {r = ok (j.jail.spec, [])}) (
      or_fail-Preserves (get_template (record { namespace = j.namespace; name = j.template_ref }))
        o.template_answer (merged o key j) tt (λ tmpl. of_pure) (λ e. fail-Preserves _ e))

  provision-Preserves : (j : Jail) → Preserves Q (provision o key j)
  unfolding provision
  provision-Preserves j = of_then (note-Preserves _) (
      or_fail-Preserves (ensure_jail j) o.manager_answer (provisioned o key) tt (λ u. of_pure)
        (λ e. fail-Preserves _ e))

  ensure_running-Preserves : (name : String) → Preserves Q (ensure_running o key name)
  unfolding ensure_running
  ensure_running-Preserves name =
      of_bind
        (or_fail-Preserves (is_running name) o.running_answer (checked o key) tt (λ b. of_pure)
          (λ e. fail-Preserves _ e))
        (λ running.
          of_then
            (of_if running (of_pure {r = ok tt}) (
              or_fail-Preserves (start_jail name) o.manager_answer (started o key) tt (λ u. of_pure)
                (λ e. fail-Preserves _ e)))
            (call o Q closed is (is_running name) o.running_answer tt))

  bootstrap-Preserves :
      (name : String) (running : Bool) → Preserves Q (bootstrap o key name running)
  unfolding bootstrap
  bootstrap-Preserves name running =
      of_if running
        (or_fail-Preserves (bootstrap_pkg name) o.manager_answer (booted o key) tt (λ u. of_pure)
          (λ e. fail-Preserves _ e))
        (of_pure {r = ok tt})

  run_hooks-Preserves :
      (name : String) (cmds : List PostCreateCommand) → Preserves Q (run_hooks o key name cmds)
  unfolding run_hooks
  run_hooks-Preserves name [] = of_pure
  run_hooks-Preserves name (cmd ∷ cmds) =
      of_bind
        (of_attempt
          (call o Q closed is (exec_in_jail name cmd.command cmd.args) o.manager_answer tt))
        (λ r. of_then (hooked-Preserves r) (run_hooks-Preserves name cmds))
    where
      hooked-Preserves : (r : Result (Unit {0})) → Preserves Q (hooked o key cmd.name r)
      hooked-Preserves (ok u) = of_pure
      hooked-Preserves (err e) = fail-Preserves _ e

  run_post_create-Preserves :
      (j : JailResource) (cmds : List PostCreateCommand) (running : Bool)
      → Preserves Q (run_post_create o key j cmds running)
  unfolding run_post_create
  run_post_create-Preserves j cmds running =
      of_if _
        (of_then (run_hooks-Preserves j.jail.name cmds) (
          of_bind (asked o Q closed is read_clock o.clock tt) (λ now. note-Preserves (λ fresh.
            record fresh { status = record fresh.status { post_create_done = some now } }))))
        (of_pure {r = ok tt})

  requeue-Preserves : (j : JailResource) (next : Option ℕ) → Preserves Q (requeue o key j next)
  requeue-Preserves j (some t) =
      of_bind (asked o Q closed is read_clock o.clock tt)
        (λ now. of_pure {r = ok (some (until now t))})
  requeue-Preserves j none = of_pure

  pub maintain-Preserves :
      (j : JailResource)
      → ((next : Next) → Preserves Q (run_update o j next))
      → Preserves Q (maintain o key j)
  unfolding maintain
  maintain-Preserves j run = of_bind (resolve-Preserves j) (λ (spec, cmds).
      of_then (provision-Preserves (record j.jail { spec = spec })) (
        of_bind (ensure_running-Preserves j.jail.name) (λ running.
          of_then (bootstrap-Preserves j.jail.name running) (
            of_then (run_post_create-Preserves j cmds running) (
              of_bind
                (of_attempt
                  (call o Q closed is (installed_release j.jail.name) o.release_answer tt))
                (λ release.
                  of_then (note-Preserves (outcome o key running (read_release o key release))) (
                    of_bind
                      (handle_update-Preserves o Q closed is j
                        (contend-Preserves o Q closed is j run))
                      (λ next. requeue-Preserves j next))))))))
