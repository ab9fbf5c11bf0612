-- ===== src/Node/Reconcile.antt =====
-- `Reconcile` of the ManagedNode reconciler, with `GetNode` of pkg/util and the filter of events.
-- Spans and log lines are left out.
mod Steps
pub mod Hold
use nodemanager.Common.{Bool, Duration, Error, Io, Option, Result, String, ask, attempt, err}
use nodemanager.Common.{if◌then◌else◌, is_not_found, none, not, ok, perform, pos, pure, raise}
use nodemanager.Common.{some, suc, until, ℕ, ◌==◌, ◌>>=◌, ◌>>◌}
use nodemanager.Api.{ManagedNode, NamespacedName}
use nodemanager.Node.{Op, Outside, get_node, hostname, read_clock}
use nodemanager.Node.Cordon.{maybe_uncordon}
use nodemanager.Node.Labels.{update_node_labels}
use nodemanager.Node.Migrate.{migrate_upgrade_annotation}
use nodemanager.Node.Prune.{prune_stale_config_set_status}
use nodemanager.Node.Status.{update_node_status}
use nodemanager.Node.Upgrade.{Next, handle_upgrade}

-- `client.IgnoreNotFound`, for a result that is absent then.
abbrev pub ignore_not_found : {A : Type 0} → Error → Io Op (Option A)
ignore_not_found e = if is_not_found e then pure none else raise e

-- The `RequeueAfter` of a `ctrl.Result`.
abbrev pub Requeue : Type 0
Requeue = Option Duration

-- `newNameFilterPredicate`: the events of every kind that pass.
abbrev pub passes_filter : (target name : String) → Bool
passes_filter target name = name == target

module _ (o : Outside) (key : NamespacedName) where
  abbrev pub read : Result ManagedNode → Io Op (Option ManagedNode)
  read (ok node) = pure (some node)
  read (err e) = ignore_not_found e

  abbrev pub if_named : Result String → Io Op (Option ManagedNode)
  if_named (err e) = ignore_not_found e
  if_named (ok name) =
      if not (name == key.name)
      then pure none
      else do r ← attempt (perform (get_node key) o.node_answer); read r

  -- `GetNode`; a nil node is `none`.
  unfoldable pub get_own_node : Io Op (Option ManagedNode)
  get_own_node = do r ← attempt (perform hostname o.hostname_answer); if_named r

  abbrev pub periodic : Result Duration → Requeue
  periodic (ok (pos (suc d))) = some (pos (suc d))
  periodic (ok d) = none
  periodic (err e) = none

  abbrev pub requeue : ManagedNode → Next → Io Op Requeue
  requeue node (some next) = do now ← ask read_clock o.clock; pure (some (until now next))
  requeue node none = pure (
      if node.reconcile_period == ""
      then none
      else periodic (o.parse_duration node.reconcile_period))

  abbrev pub migrate_and_upgrade : ℕ → ManagedNode → Io Op Requeue
  migrate_and_upgrade fuel node = do
    migrated ← migrate_upgrade_annotation o node
    next ← handle_upgrade o migrated fuel
    requeue migrated next

  -- The labels of the node in memory are the updated ones from the update of the labels on.
  abbrev pub maintain : ℕ → ManagedNode → Io Op Requeue
  maintain fuel node = do
    maybe_uncordon o node
    labels ← update_node_labels o node
    update_node_status o (record node { labels = labels })
    prune_stale_config_set_status o (record node { labels = labels })
    migrate_and_upgrade fuel (record node { labels = labels })

  abbrev pub if_found : ℕ → Option ManagedNode → Io Op Requeue
  if_found fuel none = pure none
  if_found fuel (some node) = maintain fuel node

  -- `fuel` bounds the rounds of the drain.
  unfoldable pub reconcile : ℕ → Io Op Requeue
  reconcile fuel = do node ← get_own_node; if_found fuel node
