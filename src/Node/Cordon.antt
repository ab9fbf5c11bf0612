-- ===== src/Node/Cordon.antt =====
-- Cordoning: `getKubernetesNode`, `cordonNode`, `uncordonNode` and `maybeUncordon`. A merge patch
-- sets `spec.unschedulable`, and the cordon is recorded in the status of the ManagedNode.
use nodemanager.Common.{Io, Option, Result, String, ask, attempt, err, false, if◌then◌else◌}
use nodemanager.Common.{is_not_found, none, ok, on_error, perform, pure, raise, some, true}
use nodemanager.Common.{wrap, ℕ, ◌>>=◌, ◌>>◌}
use nodemanager.Api.{ManagedNode, ManagedNodeStatus, NamespacedName}
use nodemanager.Node.{
  Op, Outside, get_kubernetes_node, get_node, patch_unschedulable, read_clock, update_status,
}

abbrev pub key_of : ManagedNode → NamespacedName
key_of node = record { namespace = node.namespace; name = node.name }

module _ (o : Outside) where
  -- A get of the ManagedNode, a change of its status and an update, retried on conflicts.
  unfoldable pub update_status_by :
      NamespacedName → (ManagedNodeStatus → ManagedNodeStatus) → Io Op (Unit {0})
  update_status_by key change = o.retry_on_conflict (do
    fresh ← perform (get_node key) o.node_answer
    perform (update_status (record fresh { status = change fresh.status })) o.update_answer)

  abbrev pub found_node : Result (Unit {0}) → Io Op (Option (Unit {0}))
  found_node (ok a) = pure (some tt)
  found_node (err e) =
      if is_not_found e then pure none else raise (wrap "failed to get kubernetes node" e)

  -- `none` if the cluster has no node of this name.
  unfoldable pub get_kubernetes_node_or_none : String → Io Op (Option (Unit {0}))
  get_kubernetes_node_or_none hostname = do
    r ← attempt (perform (get_kubernetes_node hostname) o.kubernetes_node)
    found_node r

  unfoldable pub cordon_node : ManagedNode → Io Op (Unit {0})
  cordon_node node = do
    on_error (wrap "failed to cordon kubernetes node")
        (perform (patch_unschedulable node.name true) o.patch_answer)
    cordon_time ← ask read_clock o.clock
    on_error (wrap "failed to set cordon status on ManagedNode") (
        update_status_by (key_of node)
          (λ s. record s { kubernetes_node_cordoned = some cordon_time }))

  abbrev pub unpatch : Option (Unit {0}) → ManagedNode → Io Op (Unit {0})
  unpatch none node = pure tt
  unpatch (some present) node =
      on_error (wrap "failed to uncordon kubernetes node")
        (perform (patch_unschedulable node.name false) o.patch_answer)

  unfoldable pub uncordon_node : ManagedNode → Io Op (Unit {0})
  uncordon_node node = do
    present ← get_kubernetes_node_or_none node.name
    unpatch present node
    on_error (wrap "failed to clear cordon status on ManagedNode")
        (update_status_by (key_of node) (λ s. record s { kubernetes_node_cordoned = none }))

  abbrev pub if_cordoned : Option ℕ → ManagedNode → Io Op (Unit {0})
  if_cordoned none node = pure tt
  if_cordoned (some t) node = uncordon_node node

  unfoldable pub maybe_uncordon : ManagedNode → Io Op (Unit {0})
  maybe_uncordon node = if_cordoned node.status.kubernetes_node_cordoned node
