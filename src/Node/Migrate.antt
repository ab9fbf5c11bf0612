-- ===== src/Node/Migrate.antt =====
-- `migrateUpgradeAnnotation`: annotations of old releases move into the status.
pub mod Same
use nodemanager.Common.{Bool, Io, Option, String, [], erase, false, if◌then◌else◌, lift, lookup}
use nodemanager.Common.{none, on_error, perform, pure, some, sprint, true, wrap, ℕ, ◌>>=◌, ◌>>◌}
use nodemanager.Common.{◌||◌, ◌∷◌}
use nodemanager.Api.{ManagedNode}
use nodemanager.Node.{Op, Outside, get_node, update_node, update_status}
use nodemanager.Node.Cordon.{key_of}
use nodemanager.Node.Upgrade.{annotation_last_upgrade}

abbrev pub annotation_cordoned : String
annotation_cordoned = "upgrade.nodemanager/k8s-cordoned"

pub data Migration : Type 0 where
  of_last_upgrade of_cordoned : Migration

abbrev pub annotation : Migration → String
annotation of_last_upgrade = annotation_last_upgrade
annotation of_cordoned = annotation_cordoned

-- `set`
unfoldable pub set_status : Migration → ℕ → ManagedNode → ManagedNode
set_status of_last_upgrade t node = record node {
  status = record node.status { last_upgrade = some t };
}
set_status of_cordoned t node = record node {
  status = record node.status { kubernetes_node_cordoned = some t };
}

abbrev pub is_none : Option ℕ → Bool
is_none none = true
is_none (some t) = false

-- `needed`
unfoldable pub needed : Migration → ManagedNode → Bool
needed of_last_upgrade node = is_none node.status.last_upgrade
needed of_cordoned node = is_none node.status.kubernetes_node_cordoned

unfoldable pub drop_annotation : Migration → ManagedNode → ManagedNode
drop_annotation m node = record node { annotations = erase (annotation m) node.annotations }

module _ (o : Outside) (node : ManagedNode) where
  abbrev pub get_fresh : Io Op ManagedNode
  get_fresh = perform (get_node (key_of node)) o.node_answer

  abbrev pub move_to_status : Migration → ℕ → Io Op Bool
  move_to_status m t = do
    on_error (wrap (sprint ("failed to migrate " ∷ annotation m ∷ " to status" ∷ []))) (
        o.retry_on_conflict
          (do fresh ← get_fresh; perform (update_status (set_status m t fresh)) o.update_answer))
    on_error (wrap (sprint ("failed to remove legacy annotation " ∷ annotation m ∷ []))) (
        o.retry_on_conflict
          (do fresh ← get_fresh; perform (update_node (drop_annotation m fresh)) o.update_answer))
    pure true

  abbrev pub if_present : Migration → Option String → Io Op Bool
  if_present m none = pure false
  if_present m (some v) = do
    t ←
        on_error (wrap (sprint ("failed to parse legacy annotation " ∷ annotation m ∷ [])))
          (lift (o.parse_time v))
    move_to_status m t

  -- One round of the loop, and whether something moved.
  unfoldable pub migrate_one : Migration → Io Op Bool
  migrate_one m =
      if needed m node then if_present m (lookup (annotation m) node.annotations) else pure false

  -- The node as the rest of the reconcile sees it.
  unfoldable pub migrate_upgrade_annotation : Io Op ManagedNode
  migrate_upgrade_annotation = do
    a ← migrate_one of_last_upgrade
    b ← migrate_one of_cordoned
    if a || b then get_fresh else pure node
