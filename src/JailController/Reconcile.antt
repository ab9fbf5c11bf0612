-- ===== src/JailController/Reconcile.antt =====
-- `Reconcile` of the Jail reconciler, in its phases: the finalizer, deletion, the template,
-- provision and start, the hooks of the template, the status and the update.
use nodemanager.Common.{Bool, Duration, Error, Io, List, Option, Result, String, [], ask}
use nodemanager.Common.{attempt, err, false, if◌then◌else◌, ignored, is_empty, is_not_found}
use nodemanager.Common.{none, not, ok, perform, pos, pure, quote, raise, some, sprint, suc}
use nodemanager.Common.{true, until, ℕ, ◌&&◌, ◌==◌, ◌>>=◌, ◌>>◌, ◌∷◌}
use nodemanager.Api.{NamespacedName}
use nodemanager.Jail.{Jail, JailSpec}
use nodemanager.Jail.Merge.{merge_template_defaults}
use nodemanager.JailController.{
  JailResource, JailTemplate, Op, Outside, PostCreateCommand, Requeue, add_finalizer, bootstrap_pkg,
  cond_available, cond_degraded, cond_progressing, contains, delete_jail, ensure_jail, exec_in_jail,
  get_jail, get_template, installed_release, is_running, jail_finalizer, list_jails, read_clock,
  remove_finalizer, set_condition, start_jail, update_jail, update_status_with_retry,
}
use nodemanager.JailController.Update.{handle_update}

module _ (o : Outside) (key : NamespacedName) where
  abbrev pub note : (JailResource → JailResource) → Io Op (Unit {0})
  note change = update_status_with_retry o key change

  -- A failure is noted, as far as this can be done, and ends the run.
  abbrev pub fail : {A : Type 0} → (JailResource → JailResource) → Error → Io Op A
  fail change e = do ignored (note change); raise e

  abbrev pub deleted : JailResource → Result (Unit {0}) → Io Op Requeue
  deleted j (err e) = fail (set_condition o cond_degraded true "DeleteFailed" e.text) e
  deleted j (ok a) = do perform (update_jail (remove_finalizer j)) o.write_answer; pure none

  abbrev pub unless_protected : Bool → JailResource → Io Op Requeue
  unless_protected true j = do
    ignored (
        note (
          set_condition o cond_degraded true "DeletionProtected"
            "deletion blocked: set spec.deletionProtection=false to allow removal"))
    pure none
  unless_protected false j = do
    r ← attempt (perform (delete_jail j.jail) o.manager_answer)
    deleted j r

  unfoldable pub finalize : JailResource → Io Op Requeue
  finalize j =
      if contains jail_finalizer j.finalizers
      then unless_protected j.deletion_protection j
      else pure none

  -- The jail as it is after `AddFinalizer`.
  unfoldable pub ensure_finalizer : JailResource → Io Op JailResource
  ensure_finalizer j =
      if contains jail_finalizer j.finalizers
      then pure j
      else do perform (update_jail (add_finalizer j)) o.write_answer; pure (add_finalizer j)

  abbrev pub merged : JailResource → Result JailTemplate → Io Op (JailSpec × List PostCreateCommand)
  merged j (ok tmpl) = pure (merge_template_defaults j.jail.spec tmpl.defaults, tmpl.post_create)
  merged j (err e) =
      fail
        (set_condition o cond_degraded true "TemplateNotFound"
          (sprint ("JailTemplate " ∷ quote j.template_ref ∷ " not found: " ∷ e.text ∷ [])))
        e

  unfoldable pub resolve : JailResource → Io Op (JailSpec × List PostCreateCommand)
  resolve j = if j.template_ref == "" then pure (j.jail.spec, []) else do
    r ← attempt (
        perform (get_template (record { namespace = j.namespace; name = j.template_ref }))
          o.template_answer)
    merged j r

  abbrev pub provisioned : Result (Unit {0}) → Io Op (Unit {0})
  provisioned (ok a) = pure tt
  provisioned (err e) =
      fail
        (λ fresh.
          set_condition o cond_progressing false "EnsureFailed" "provisioning failed"
            (set_condition o cond_degraded true "EnsureFailed" e.text fresh))
        e

  unfoldable pub provision : Jail → Io Op (Unit {0})
  provision j = do
    note (set_condition o cond_progressing true "Provisioning" "jail is being provisioned")
    r ← attempt (perform (ensure_jail j) o.manager_answer)
    provisioned r

  abbrev pub checked : Result Bool → Io Op Bool
  checked (ok running) = pure running
  checked (err e) = fail (set_condition o cond_degraded true "StatusCheckFailed" e.text) e

  abbrev pub started : Result (Unit {0}) → Io Op (Unit {0})
  started (ok a) = pure tt
  started (err e) =
      fail
        (λ fresh.
          set_condition o cond_progressing false "StartFailed" "jail failed to start"
            (set_condition o cond_degraded true "StartFailed" e.text fresh))
        e

  -- Whether the jail runs, after an attempt to start it.
  unfoldable pub ensure_running : String → Io Op Bool
  ensure_running name = do
    r ← attempt (perform (is_running name) o.running_answer)
    running ← checked r
    (if running
        then pure tt
        else do s ← attempt (perform (start_jail name) o.manager_answer); started s)
    perform (is_running name) o.running_answer

  abbrev pub booted : Result (Unit {0}) → Io Op (Unit {0})
  booted (ok a) = pure tt
  booted (err e) = fail (set_condition o cond_degraded true "PkgBootstrapFailed" e.text) e

  unfoldable pub bootstrap : String → Bool → Io Op (Unit {0})
  bootstrap name running =
      if running
      then (do r ← attempt (perform (bootstrap_pkg name) o.manager_answer); booted r)
      else pure tt

  abbrev pub hooked : String → Result (Unit {0}) → Io Op (Unit {0})
  hooked hook (ok a) = pure tt
  hooked hook (err e) =
      fail
        (set_condition o cond_degraded true "PostCreateFailed"
          (sprint ("postCreate hook " ∷ quote hook ∷ " failed: " ∷ e.text ∷ [])))
        e

  unfoldable pub run_hooks : String → List PostCreateCommand → Io Op (Unit {0})
  run_hooks name [] = pure tt
  run_hooks name (cmd ∷ cmds) = do
    r ← attempt (perform (exec_in_jail name cmd.command cmd.args) o.manager_answer)
    hooked cmd.name r
    run_hooks name cmds

  abbrev pub is_set : Option ℕ → Bool
  is_set none = false
  is_set (some t) = true

  unfoldable pub run_post_create : JailResource → List PostCreateCommand → Bool → Io Op (Unit {0})
  run_post_create j cmds running =
      if (not (is_empty cmds) && running) && not (is_set j.status.post_create_done)
      then (do
        run_hooks j.jail.name cmds
        now ← ask read_clock o.clock
        note (λ fresh. record fresh {
          status = record fresh.status { post_create_done = some now };
        }))
      else pure tt

  abbrev pub read_release : Result String → String
  read_release (ok release) = release
  read_release (err e) = ""

  -- The conditions of a run that came so far.
  abbrev pub outcome : Bool → String → JailResource → JailResource
  outcome running release fresh =
      let progressed =
        set_condition o cond_progressing false "Provisioned" "jail provisioned successfully"
          fresh in
      let noted =
        if running
        then set_condition o cond_degraded false "Running" ""
            (set_condition o cond_available true "Running" "jail is running" progressed)
        else set_condition o cond_degraded true "NotRunning"
            "jail is not running after start attempt"
            (set_condition o cond_available false "NotRunning" "jail is not running after start"
              progressed) in
      if release == ""
      then noted
      else record noted { status = record noted.status { release = release } }

  abbrev pub periodic : Result Duration → Requeue
  periodic (ok (pos (suc d))) = some (pos (suc d))
  periodic (ok d) = none
  periodic (err e) = none

  abbrev pub requeue : JailResource → Option ℕ → Io Op Requeue
  requeue j (some next) = do now ← ask read_clock o.clock; pure (some (until now next))
  requeue j none =
      pure
        (if j.reconcile_period == "" then none else periodic (o.parse_duration j.reconcile_period))

  unfoldable pub maintain : JailResource → Io Op Requeue
  maintain j = do
    (spec, cmds) ← resolve j
    provision (record j.jail { spec = spec })
    running ← ensure_running j.jail.name
    bootstrap j.jail.name running
    run_post_create j cmds running
    release ← attempt (perform (installed_release j.jail.name) o.release_answer)
    note (outcome running (read_release release))
    next ← handle_update o j
    requeue j next

  abbrev pub reconcile_own : Option ℕ → JailResource → Io Op Requeue
  reconcile_own (some deletion) j = finalize j
  reconcile_own none j = do j' ← ensure_finalizer j; maintain j'

  abbrev pub fetched : Result JailResource → Io Op Requeue
  fetched (err e) = if is_not_found e then pure none else raise e
  fetched (ok j) =
      if j.node_name == o.hostname then reconcile_own j.deletion_timestamp j else pure none

  unfoldable pub reconcile : Io Op Requeue
  reconcile = do r ← attempt (perform (get_jail key) o.jail_answer); fetched r

abbrev pub requests_of : String → List JailResource → List NamespacedName
requests_of name [] = []
requests_of name (j ∷ js) =
    let rest = requests_of name js in
    if j.template_ref == name
    then record { namespace = j.namespace; name = j.jail.name } ∷ rest
    else rest

abbrev pub listed : String → Result (List JailResource) → List NamespacedName
listed name (ok js) = requests_of name js
listed name (err e) = []

-- `jailsReferencingTemplate`, for the template of this key.
unfoldable pub jails_referencing_template : Outside → NamespacedName → Io Op (List NamespacedName)
jails_referencing_template o tmpl = do
  r ← attempt (perform (list_jails tmpl.namespace) o.jails_answer)
  pure (listed tmpl.name r)
