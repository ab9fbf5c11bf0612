-- ===== src/ConfigSet/Reconcile.antt =====
-- `Reconcile` of the ConfigSet reconciler, with `createOrGetNode` of common.go. Spans, metrics and
-- log lines are left out; the context is asked once, at the start.
pub mod Safety
use nodemanager.Common.{Io, List, Result, String, [], ask, attempt, err, false, if◌then◌else◌}
use nodemanager.Common.{ignored, is_not_found, none, ok, on_error, perform, pos, pure, raise}
use nodemanager.Common.{second, some, wrap, ℕ, ◌*◌, ◌>>=◌, ◌>>◌, ◌∷◌}
use nodemanager.Api.{ConfigSet, ManagedNode, NamespacedName, no_facts}
use nodemanager.ConfigSet.{
  Op, Outside, create_node, get_config_set, get_node, hostname, read_context,
}
use nodemanager.ConfigSet.Apply.{Requeue, apply, node_key}
use nodemanager.ConfigSet.Conditions.{update_config_set_condition}
use nodemanager.ConfigSet.Conflicts.{detect_conflicts}
use nodemanager.ConfigSet.Records.{remove_config_set_status, update_config_set_status}
use nodemanager.Labels.{match_all_labels}

-- The node that is created when none is found.
abbrev pub initial_node : NamespacedName → ManagedNode
initial_node key = record {
  name = key.name;
  namespace = key.namespace;
  labels = [];
  annotations = [];
  upgrade = record { group = ""; schedule = ""; delay = "" };
  wire_guard = record { enabled = false; interface = "" };
  reconcile_period = "";
  status = record {
    config_sets = [];
    file_backups = [];
    last_file_bucket_gc = none;
    last_upgrade = none;
    kubernetes_node_cordoned = none;
    facts = no_facts;
  };
}

abbrev pub after_seconds : ℕ → Requeue
after_seconds n = some (pos (n * second))

module _ (o : Outside) where
  abbrev pub create_initial_node : ManagedNode → Io Op (Unit {0})
  create_initial_node node =
      on_error (wrap "failed to craete initial node") (perform (create_node node) o.create_answer)

  abbrev pub found_or_created : NamespacedName → Result ManagedNode → Io Op ManagedNode
  found_or_created key (ok node) = pure node
  found_or_created key (err e) = do create_initial_node (initial_node key); pure (initial_node key)

  -- Any error of the read leads to a creation.
  unfoldable pub create_or_get_node : String → Io Op ManagedNode
  create_or_get_node namespace = do
    name ← perform hostname o.hostname_answer
    let key : NamespacedName = record { namespace = namespace; name = name }
    r ← attempt (perform (get_node key) o.node_answer)
    found_or_created key r

  module _ (key : NamespacedName) where
    abbrev pub on_conflicts : ConfigSet → ManagedNode → Result (List String) → Io Op Requeue
    on_conflicts cs node (err e) = pure (after_seconds 30)
    on_conflicts cs node (ok []) = do
      ignored (update_config_set_condition o key [])
      apply o key.namespace cs node
    on_conflicts cs node (ok (c ∷ conflicts)) = do
      ignored (
          update_config_set_status o (node_key node) cs.name cs.resource_version none
            (c ∷ conflicts))
      ignored (update_config_set_condition o key (c ∷ conflicts))
      pure (after_seconds 60)

    abbrev pub on_node : ConfigSet → Result ManagedNode → Io Op Requeue
    on_node cs (err e) = pure (after_seconds 30)
    on_node cs (ok node) =
        if match_all_labels node.labels cs.labels
        then (do r ← attempt (detect_conflicts o cs node); on_conflicts cs node r)
        else (do remove_config_set_status o o.namespace cs.name; pure (after_seconds 120))

    abbrev pub on_config_set : Result ConfigSet → Io Op Requeue
    on_config_set (err e) =
        if is_not_found e
        then (do remove_config_set_status o o.namespace key.name; pure none)
        else raise e
    on_config_set (ok cs) = do r ← attempt (create_or_get_node key.namespace); on_node cs r

    unfoldable pub reconcile : Io Op Requeue
    reconcile = do
      cancelled ← ask read_context o.is_cancelled
      if cancelled
          then pure none
          else do r ← attempt (perform (get_config_set key) o.config_set_answer); on_config_set r
