-- ===== src/Tests/Node/Reconcile.antt =====
-- One reconcile of a ManagedNode on hold, and its parts.
use nodemanager.Common.{All, IsRetry, List, Result, String, [], false, lookup}
use nodemanager.Common.{none, ok, or_else, refl, sym, tries, ◌↔◌, ◌∷◌, ◌≡◌}
use Prim.Native.Char.{Char}
use nodemanager.Api.{ManagedNode}
use nodemanager.Labels.{Has}
use nodemanager.Node.{Outside}
use nodemanager.Node.Labels.{merge_labels}
use nodemanager.Node.Labels.Merge.{merge_labels_iff}
use nodemanager.Node.Migrate.{annotation, drop_annotation, needed, of_last_upgrade, set_status}
use nodemanager.Node.Migrate.Same.{migration_keeps_time}
use nodemanager.Node.Reconcile.{reconcile}
use nodemanager.Node.Reconcile.Hold.{AlwaysHeld, held_node_stays}
use nodemanager.Node.Status.Facts.Dump.{Line}
use nodemanager.Node.Upgrade.{annotation_last_upgrade, annotation_upgrade_hold, last_upgrade_time}
use nodemanager.Node.Upgrade.Safety.{touches}
use nodemanager.Tests.Node.{cluster, node}
use text.Mathlib.TextBridge.{of_list}

abbrev held : ManagedNode
held = record node {
  annotations = (annotation_upgrade_hold, "") ∷ (annotation_last_upgrade, "0") ∷ [];
}

abbrev calm : Outside
calm = record cluster { node_answer = λ h. ok held }

retries : IsRetry calm.retry_on_conflict
unfolding tries
retries m h = (0, refl)

same_node : (a b : ManagedNode) → Path (Result ManagedNode) (ok a) (ok b) → a ≡ b
same_node a b p = cc

always : AlwaysHeld calm
unfolding lookup
always h m read = ("", rw (sym (same_node held m read)) refl)

held_node_stays_example :
    touches (reconcile calm (record { namespace = "nodemanager"; name = "n1" }) 3 []).1 ≡ touches []
held_node_stays_example =
    held_node_stays calm retries always (record { namespace = "nodemanager"; name = "n1" }) 3 []

merge_labels_iff_example :
    ((place : String)
      → lookup place
          (merge_labels (("kubernetes.io/os", "linux") ∷ []) false (("role", "web") ∷ [])).1
        ≡ or_else
            (lookup place (("kubernetes.io/os", "linux") ∷ []))
            (lookup place (("role", "web") ∷ [])))
    × (((merge_labels (("kubernetes.io/os", "linux") ∷ []) false (("role", "web") ∷ [])).0 ≡ false)
        ↔ All (Has (("role", "web") ∷ [])) (("kubernetes.io/os", "linux") ∷ []))
unfolding lookup
merge_labels_iff_example =
    merge_labels_iff (("kubernetes.io/os", "linux") ∷ []) (("role", "web") ∷ []) (refl, tt)

migration_keeps_time_example :
    let migrated : ManagedNode =
      drop_annotation of_last_upgrade (set_status of_last_upgrade 0 held) in
    (last_upgrade_time calm migrated ≡ last_upgrade_time calm held)
    × (lookup (annotation of_last_upgrade) migrated.annotations ≡ none)
    × (needed of_last_upgrade migrated ≡ false)
unfolding lookup needed
migration_keeps_time_example = migration_keeps_time calm held "0" 0 refl refl refl

abbrev one : List Char
one = "1" ∷ []

-- An interface and a peer.
abbrev lines : List Line
lines =
    (of_list one, of_list one ∷ of_list one ∷ of_list one ∷ of_list one ∷ [])
    ∷ (of_list one, of_list one ∷ [])
    ∷ []
