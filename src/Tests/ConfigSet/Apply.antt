-- ===== src/Tests/ConfigSet/Apply.antt =====
-- One reconcile of a ConfigSet.
use nodemanager.Common.{Error, IsRetry, [], join, none, ok, pos, refl, second, some, tries, ◌*◌}
use nodemanager.Common.{◌∷◌, ◌≡◌, ◌⊎◌}
use nodemanager.Api.{ConfigSet, NamespacedName}
use nodemanager.ConfigSet.Apply.{Applied, apply, apply_phases}
use nodemanager.ConfigSet.Apply.Outcome.{AllApplied, apply-AllApplied, notified}
use nodemanager.ConfigSet.Reconcile.{reconcile}
use nodemanager.ConfigSet.Reconcile.Safety.{MayApply, changes, reconcile-MayApply}
use nodemanager.Tests.ConfigSet.{base, machine, node, reload, vim}

retries : IsRetry machine.retry_on_conflict
unfolding tries
retries m h = (0, refl)

abbrev key : NamespacedName
key = record { namespace = "nodemanager"; name = "base" }

reconcile-MayApply_example :
    (changes (reconcile machine key []).1 ≡ 0) ⊎ MayApply machine key 0 (reconcile machine key [])
reconcile-MayApply_example = reconcile-MayApply machine key retries

-- No file is asked for, and nothing fails.
abbrev small : ConfigSet
small = record base {
  spec = record {
    files = [];
    packages = vim ∷ [];
    services = [];
    executions = reload ∷ [];
    notifies = [];
  };
}

apply-AllApplied_example :
    (applied : Applied) × ((apply_phases machine "nodemanager" small node []).0 ≡ ok applied)
    × (join applied.errors ≡ none
        → AllApplied machine "nodemanager" small node (("vim", "9") ∷ []) [])
    × ((e : Error)
        → join applied.errors ≡ some e
        → ((apply machine "nodemanager" small node []).0 ≡ ok (some (pos (30 * second))))
          × (notified (apply machine "nodemanager" small node []).1
              ≡ notified (apply_phases machine "nodemanager" small node []).1))
apply-AllApplied_example =
    apply-AllApplied machine "nodemanager" small node (("vim", "9") ∷ []) [] retries refl
