-- ===== src/ConfigSet/Apply/Outcome.antt =====
-- What the success of an application says of its phases, and what an error leads to.
use nodemanager.Common.{All, Bool-cases, Dict, Error, IsRetry, List, Option, Preserves, Result}
use nodemanager.Common.{String, [], ap, append_nil, copy, err, errors_of, inl, inr, is_empty}
use nodemanager.Common.{join, join-none, none, of_bind, of_call, of_if, of_ignored, of_pure}
use nodemanager.Common.{of_retry, ok, pos, refl, second, some, suc, ℕ, ◌*◌, ◌++◌, ◌∙◌, ◌∷◌, ◌≡◌}
use nodemanager.Api.{ConfigSet, ConfigSetApplyStatus, Exec, ManagedNode}
use nodemanager.ConfigSet.{Op, Outside, get_node, read_clock, update_status, update_target}
use nodemanager.ConfigSet.Apply.{
  Applied, apply, apply_phases, handle_executions, handle_file_set, node_key, record_backups,
  record_outcome,
}
use nodemanager.ConfigSet.Executions.{AllSucceed, AreWanted, handle_executions_all}
use nodemanager.ConfigSet.Files.{FileSetResult}
use nodemanager.ConfigSet.Packages.{IsDone, handle_package_set, packages_without_error}
use nodemanager.ConfigSet.Records.{
  entry_of, put_status, update_config_set_status, update_file_backups, upsert,
}
use nodemanager.ConfigSet.Services.{handle_service_set}

-- How many calls touched a resource that is to be notified.
abbrev pub notified : List Op → ℕ
notified [] = 0
notified (update_target version kind target ∷ h) = suc (notified h)
notified (_ ∷ h) = notified h

module _ (o : Outside) (namespace : String) (cs : ConfigSet) (node : ManagedNode) where
  -- The logs after the packages, the files and the services, and what the files gave.
  abbrev pub after_packages : List Op → List Op
  after_packages h = (handle_package_set o cs.spec.packages h).1

  abbrev pub files_run : List Op → FileSetResult × List Op
  files_run h = handle_file_set o namespace cs.spec.files node (after_packages h)

  abbrev pub services_run : List Op → Result (Unit {0}) × List Op
  services_run h =
      handle_service_set o namespace cs.spec.services cs.spec.files (files_run h).0.changed_files
        (files_run h).1

  -- Each package was listed as asked for or the call for it succeeded, files and services ended
  -- without an error, and just the commands that subscribe to a changed file ran, with success.
  abbrev pub AllApplied : Dict String → List Op → Type 0
  AllApplied pkgs h =
      All (λ pkg. IsDone o pkgs pkg (after_packages h)) cs.spec.packages
      × ((files_run h).0.result ≡ ok tt)
      × ((services_run h).0 ≡ ok tt)
      × ((exes : List Exec) × AreWanted (files_run h).0.changed_files cs.spec.executions exes
          × AllSucceed o exes (services_run h).1)

  no_error : (r : Result (Unit {0})) → errors_of r ≡ [] → r ≡ ok tt
  no_error (ok u) p = refl
  no_error (err e) p = cc

  four :
      (p f s x : Result (Unit {0}))
      → errors_of p ++ errors_of f ++ errors_of s ++ errors_of x ≡ []
      → (p ≡ ok tt) × (f ≡ ok tt) × (s ≡ ok tt) × (x ≡ ok tt)
  four p f s x none_left =
      let (three, d) =
        append_nil (errors_of p ++ errors_of f ++ errors_of s) (errors_of x) none_left in
      let (two, c) = append_nil (errors_of p ++ errors_of f) (errors_of s) three in
      let (a, b) = append_nil (errors_of p) (errors_of f) two in
      (no_error p a, no_error f b, no_error s c, no_error x d)

  ok_eq : (a b : Applied) → Path (Result Applied) (ok a) (ok b) → a ≡ b
  ok_eq a b p = cc

  all_applied :
      (pkgs : Dict String) (applied : Applied) (h : List Op)
      → o.packages_answer h ≡ ok pkgs
      → (apply_phases o namespace cs node h).0 ≡ ok applied
      → join applied.errors ≡ none
      → AllApplied pkgs h
  unfolding apply_phases
  all_applied pkgs applied h listed ran clean =
      let (p, f, s, x) =
        four (handle_package_set o cs.spec.packages h).0 (files_run h).0.result (services_run h).0
          (handle_executions o cs.spec.executions (files_run h).0.changed_files
            (services_run h).1).0
          (ap (λ (a : Applied). a.errors) (ok_eq _ applied ran) ∙ join-none applied.errors clean) in
      let (exes, wanted, log, succeeds) =
        handle_executions_all o cs.spec.executions (files_run h).0.changed_files
          (services_run h).1 in
      (
        packages_without_error o pkgs cs.spec.packages h listed p,
        f,
        s,
        (exes, wanted, succeeds.0 x),
      )

  module _ (is : IsRetry o.retry_on_conflict) (n : ℕ) where
    abbrev Q : List Op → Type 0
    Q h = notified h ≡ n

    outcome-Preserves : (e : Option Error) → Preserves Q (record_outcome o namespace cs node e)
    unfolding update_config_set_status
    outcome-Preserves e = of_ignored (
        of_bind (of_call read_clock (λ h. ok (o.clock h)) (λ h q. q)) (λ now. of_retry is (
          of_bind (of_call (get_node (node_key node)) o.node_answer (λ h q. q)) (λ fresh.
            put_status-Preserves fresh (
              upsert (entry_of o cs.name cs.resource_version e [] now) fresh.status.config_sets)))))
      where
        put_status-Preserves :
            (fresh : ManagedNode) (sets : Option (List ConfigSetApplyStatus))
            → Preserves Q (put_status o fresh sets)
        put_status-Preserves fresh none = of_pure
        put_status-Preserves fresh (some sets) =
            of_call
              (update_status (record fresh { status = record fresh.status { config_sets = sets } }))
              o.update_answer (λ h q. q)

    backups-Preserves : (m : Dict String) → Preserves Q (record_backups o namespace cs node m)
    unfolding update_file_backups
    backups-Preserves m = of_if (is_empty m) (of_pure {r = ok tt}) (
        of_ignored (
          of_retry is (
            of_bind (of_call (get_node (node_key node)) o.node_answer (λ h q. q)) (λ fresh.
              of_call
                (update_status (record fresh {
                  status = record fresh.status { file_backups = copy fresh.status.file_backups m };
                }))
                o.update_answer (λ h q. q)))))

    backups_ok :
        (m : Dict String) (h : List Op) → (record_backups o namespace cs node m h).0 ≡ ok tt
    backups_ok m h = elim (Bool-cases (is_empty m)) [
      | inl empty ↦ rw empty refl
      | inr some' ↦ rw some' refl
    ]

  failed_apply :
      (is : IsRetry o.retry_on_conflict) (applied : Applied) (e : Error) (h : List Op)
      → (apply_phases o namespace cs node h).0 ≡ ok applied
      → join applied.errors ≡ some e
      → ((apply o namespace cs node h).0 ≡ ok (some (pos (30 * second))))
        × (notified (apply o namespace cs node h).1
            ≡ notified (apply_phases o namespace cs node h).1)
  unfolding apply
  failed_apply is applied e h ran failed =
      let n : ℕ = notified (apply_phases o namespace cs node h).1 in
      let h1 : List Op = (apply_phases o namespace cs node h).1 in
      let kept : notified (record_backups o namespace cs node applied.backups h1).1 ≡ n =
        (backups-Preserves is n applied.backups).preserves h1 refl in
      rw (ran, backups_ok is n applied.backups h1, failed)
        (refl, (outcome-Preserves is n (some e)).preserves _ kept)

  phases_end :
      (h : List Op) → (applied : Applied) × ((apply_phases o namespace cs node h).0 ≡ ok applied)
  unfolding apply_phases
  phases_end h =
      let pkg : Result (Unit {0}) = (handle_package_set o cs.spec.packages h).0 in
      let files : FileSetResult = (files_run h).0 in
      let svc : Result (Unit {0}) × List Op = services_run h in
      let exec : Result (Unit {0}) =
        (handle_executions o cs.spec.executions files.changed_files svc.1).0 in
      (
        record {
          errors = errors_of pkg ++ errors_of files.result ++ errors_of svc.0 ++ errors_of exec;
          backups = files.backups;
        },
        refl,
      )

-- If conflicts are retried the way client-go documents and the packages were listed, then the four
-- phases of an application come to their end with their errors gathered. Where there is none, each
-- package was listed as asked for or the call for it succeeded, files and services ended without an
-- error, and each command that subscribes to a changed file succeeded. Where there is one, the
-- reconcile asks for a retry after 30 seconds and touches no resource that is to be notified.
pub apply-AllApplied :
    (o : Outside) (namespace : String) (cs : ConfigSet) (node : ManagedNode) (pkgs : Dict String)
    (h : List Op)
    → IsRetry o.retry_on_conflict
    → o.packages_answer h ≡ ok pkgs
    → (applied : Applied) × ((apply_phases o namespace cs node h).0 ≡ ok applied)
      × (join applied.errors ≡ none → AllApplied o namespace cs node pkgs h)
      × ((e : Error)
          → join applied.errors ≡ some e
          → ((apply o namespace cs node h).0 ≡ ok (some (pos (30 * second))))
            × (notified (apply o namespace cs node h).1
                ≡ notified (apply_phases o namespace cs node h).1))
apply-AllApplied o namespace cs node pkgs h is listed =
    let (applied, ran) = phases_end o namespace cs node h in
    (
      applied,
      ran,
      all_applied o namespace cs node pkgs applied h listed ran,
      λ e failed. failed_apply o namespace cs node is applied e h ran failed,
    )
