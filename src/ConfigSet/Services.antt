-- ===== src/ConfigSet/Services.antt =====
-- `handleServiceSet`, `serviceContext` and pkg/services/services.go. The user of a service, which
-- the context carries to systemd, is an argument of each call.
use nodemanager.Common.{Bool, Bool-cases, Dict, Error, Gather, Io, List, String, [], any, arith}
use nodemanager.Common.{attempt, false, for_each, for_each-rel, gather, if◌then◌else◌, inl, inr}
use nodemanager.Common.{insert, is_ok, join, lift, not, nothing, on_error, perform, quote, refl}
use nodemanager.Common.{sprint, suc, to_result, true, wrap, ℕ, ◌&&◌, ◌+◌, ◌==◌, ◌>>=◌, ◌>>◌}
use nodemanager.Common.{◌also◌, ◌∷◌, ◌≡◌}
use nodemanager.Api.{File, NamespacedName, Service}
use nodemanager.ConfigSet.{
  Op, Outside, ServiceStatus, disable, enable, lock, restart, running, set_arguments, start, status,
  stop, stopped, unknown, unlock,
}

unfoldable pub service_status_from_string : String → ServiceStatus
service_status_from_string text =
    if text == "running" then running else if text == "stopped" then stopped else unknown

abbrev is_running : ServiceStatus → Bool
is_running running = true
is_running _ = false

abbrev is_stopped : ServiceStatus → Bool
is_stopped stopped = true
is_stopped _ = false

-- The service is recorded once for each subscription to the changed file.
unfoldable pub note_subscriptions : String → Service → List String → Dict Service → Dict Service
note_subscriptions changed svc [] m = m
note_subscriptions changed svc (sub ∷ subs) m =
    note_subscriptions changed svc subs (if sub == changed then insert svc.name svc m else m)

unfoldable pub note_services : String → List Service → Dict Service → Dict Service
note_services changed [] m = m
note_services changed (svc ∷ svcs) m =
    note_services changed svcs
      (if svc.ensure == "running" then note_subscriptions changed svc svc.subscribe_files m else m)

-- The services to restart, by their names.
unfoldable pub restart_services : List String → List Service → Dict Service → Dict Service
restart_services [] svcs m = m
restart_services (changed ∷ files) svcs m =
    restart_services files svcs (note_services changed svcs m)

abbrev pub rc_conf_path : Service → String
rc_conf_path svc = sprint ("/etc/rc.conf.d/" ∷ svc.name ∷ [])

abbrev service_error : String → Service → Error → Error
service_error what svc = wrap (sprint (what ∷ quote svc.name ∷ []))

module _ (o : Outside) where
  abbrev enablement : Service → Gather Op Error
  enablement svc =
      if svc.enable
      then gather (service_error "failed to enable service " svc)
          (perform (enable svc.user svc.name) o.service_answer)
      else gather (service_error "failed to disable service " svc)
          (perform (disable svc.user svc.name) o.service_answer)

  abbrev arguments : Service → Gather Op Error
  arguments svc =
      if not (svc.arguments == "")
      then gather (service_error "failed to set service arguments for " svc)
          (perform (set_arguments svc.user svc.name svc.arguments) o.service_answer)
      else nothing

  -- The `switch` on the wanted status, with the current one.
  abbrev towards : ServiceStatus → ServiceStatus → Service → Gather Op Error
  towards running current svc =
      if not (is_running current)
      then gather (service_error "failed to start service " svc)
          (perform (start svc.user svc.name) o.service_answer)
      else nothing
  towards stopped current svc =
      if not (is_stopped current)
      then gather (service_error "failed to stop service " svc)
          (perform (stop svc.user svc.name) o.service_answer)
      else nothing
  towards unknown current svc = nothing

  abbrev adjust : Service → Gather Op Error
  adjust svc h =
      towards (service_status_from_string svc.ensure) (o.service_status h) svc
        (status svc.user svc.name ∷ h)

  abbrev configure : Bool → Service → Gather Op Error
  configure true svc = nothing
  configure false svc = enablement svc also arguments svc

  unfoldable pub service_step : List File → Service → Gather Op Error
  service_step file_set svc =
      configure (any (λ (f : File). f.path == rc_conf_path svc) file_set) svc also adjust svc

  abbrev restart_call : Service → Io Op (Unit {0})
  restart_call svc =
      on_error (service_error "failed to restart service " svc)
        (perform (restart svc.user svc.name) o.service_answer)

  abbrev lock_key : String → Service → NamespacedName
  lock_key namespace svc = record { namespace = namespace; name = svc.lock_group }

  -- `restartF`: the deferred `Unlock` runs however the restart ends, and its error is logged.
  unfoldable pub restart_locked : String → Service → Io Op (Unit {0})
  restart_locked namespace svc = do
    on_error (wrap "failed to acquire lock") (perform (lock (lock_key namespace svc)) o.lock_answer)
    r ← attempt (restart_call svc)
    attempt (perform (unlock (lock_key namespace svc)) o.unlock_answer)
    lift r

  unfoldable pub restart_step : String → String × Service → Gather Op Error
  restart_step namespace (name, svc) =
      gather (λ e. e)
        (if not (svc.lock_group == "") then restart_locked namespace svc else restart_call svc)

  unfoldable pub handle_service_set :
      String → List Service → List File → List String → Io Op (Unit {0})
  handle_service_set namespace service_set file_set changed_files h =
      let (errs, h') =
        (for_each (service_step file_set) service_set
            also for_each (restart_step namespace) (restart_services changed_files service_set []))
          h in
      (to_result (join errs), h')

abbrev same_key : NamespacedName → NamespacedName → Bool
same_key a b = (a.namespace == b.namespace) && (a.name == b.name)

-- How often the lock of the key was granted, and how often `Unlock` was called for it.
abbrev pub granted : Outside → NamespacedName → List Op → ℕ
granted o key [] = 0
granted o key (lock k ∷ h) =
    let n = granted o key h in if same_key k key && is_ok (o.lock_answer h) then suc n else n
granted o key (_ ∷ h) = granted o key h

abbrev pub given_up : NamespacedName → List Op → ℕ
given_up key [] = 0
given_up key (unlock k ∷ h) = let n = given_up key h in if same_key k key then suc n else n
given_up key (_ ∷ h) = given_up key h

-- `Unlock` was called for each key as often as its lock was granted, on the way from `h` to `h'`.
abbrev pub Balanced : Outside → List Op → List Op → Type 0
Balanced o h h' =
    (key : NamespacedName) → granted o key h' + given_up key h ≡ granted o key h + given_up key h'

module _ (o : Outside) where
  restart_locked-Balanced :
      (namespace : String) (svc : Service) (h : List Op)
      → Balanced o h (restart_locked o namespace svc h).1
  unfolding restart_locked
  restart_locked-Balanced namespace svc h key = ground arith

  restart_step-Balanced :
      (namespace : String) (r : String × Service) (h : List Op)
      → Balanced o h (restart_step o namespace r h).1
  unfolding restart_step
  restart_step-Balanced namespace (name, svc) h key = elim (Bool-cases (svc.lock_group == "")) [
    | inl alone ↦ rw alone (omega arith)
    | inr grouped ↦ rw grouped (restart_locked-Balanced namespace svc h key)
  ]

  towards-Balanced :
      (wanted current : ServiceStatus) (svc : Service) (h : List Op)
      → Balanced o h (towards o wanted current svc h).1
  towards-Balanced running current svc h key = elim (Bool-cases (is_running current)) [
    | inl same ↦ rw same (omega arith)
    | inr differ ↦ rw differ (omega arith)
  ]
  towards-Balanced stopped current svc h key = elim (Bool-cases (is_stopped current)) [
    | inl same ↦ rw same (omega arith)
    | inr differ ↦ rw differ (omega arith)
  ]
  towards-Balanced unknown current svc h key = omega arith

  configure-Balanced :
      (managed : Bool) (svc : Service) (h : List Op) → Balanced o h (configure o managed svc h).1
  configure-Balanced true svc h key = omega arith
  configure-Balanced false svc h key = elim (Bool-cases svc.enable) [
    | inl on ↦ elim (Bool-cases (svc.arguments == "")) [
      | inl plain ↦ rw (on, plain) (omega arith)
      | inr given ↦ rw (on, given) (omega arith)
    ]
    | inr off ↦ elim (Bool-cases (svc.arguments == "")) [
      | inl plain ↦ rw (off, plain) (omega arith)
      | inr given ↦ rw (off, given) (omega arith)
    ]
  ]

  service_step-Balanced :
      (file_set : List File) (svc : Service) (h : List Op)
      → Balanced o h (service_step o file_set svc h).1
  unfolding service_step
  service_step-Balanced file_set svc h key =
      let managed : Bool = any (λ (f : File). f.path == rc_conf_path svc) file_set in
      let h1 : List Op = (configure o managed svc h).1 in
      let before = configure-Balanced managed svc h key in
      let after =
        towards-Balanced (service_status_from_string svc.ensure) (o.service_status h1) svc
          (status svc.user svc.name ∷ h1) key in
      omega arith

  -- For each lock, `handleServiceSet` calls `Unlock` as often as it was granted the lock, whichever
  -- calls fail.
  pub handle_service_set-Balanced :
      (namespace : String) (service_set : List Service) (file_set : List File)
      (changed_files : List String) (h : List Op)
      → Balanced o h (handle_service_set o namespace service_set file_set changed_files h).1
  unfolding handle_service_set
  handle_service_set-Balanced namespace service_set file_set changed_files h =
      let trans : (a b c : List Op) → Balanced o a b → Balanced o b c → Balanced o a c =
        λ a b c p q key. omega (arith, p key, q key) in
      let h1 : List Op = (for_each (service_step o file_set) service_set h).1 in
      let h2 : List Op =
        (for_each (restart_step o namespace) (restart_services changed_files service_set [])
          h1).1 in
      trans h h1 h2
        (for_each-rel (Balanced o) (λ h' key. refl) trans (service_step o file_set)
          (service_step-Balanced file_set) service_set h)
        (for_each-rel (Balanced o) (λ h' key. refl) trans (restart_step o namespace)
          (restart_step-Balanced namespace) (restart_services changed_files service_set []) h1)
