-- ===== src/Node/Reconcile/Steps.antt =====
-- What the steps of a reconcile before the upgrade keep: they upgrade and reboot nothing.
use nodemanager.Common.{Bool, Dict, IsRetry, List, Option, Preserves, Result, String, [], copy}
use nodemanager.Common.{err, false, is_empty, is_not_found, lookup, none, not, of_attempt}
use nodemanager.Common.{of_bind, of_call, of_error, of_if, of_pure, of_retry, of_then, ok}
use nodemanager.Common.{perform, some, sprint, true, wrap, ℕ, ◌==◌, ◌>>=◌, ◌∷◌, ◌≡◌}
use nodemanager.Api.{ManagedNode, NamespacedName}
use nodemanager.Node.{
  Op, Outside, create_secret, generate_key_pair, get_kubernetes_node, get_node, get_secret,
  list_config_sets, net_interfaces, node_info, patch_unschedulable, run_command, update_node,
  update_status,
}
use nodemanager.Node.Cordon.{
  found_node, get_kubernetes_node_or_none, if_cordoned, key_of, uncordon_node, unpatch,
  update_status_by,
}
use nodemanager.Node.Labels.{
  default_labels, in_memory, merge_labels, update_node_labels, write_labels,
}
use nodemanager.Node.Migrate.{
  Migration, annotation, drop_annotation, if_present, migrate_one, move_to_status, needed,
  set_status,
}
use nodemanager.Node.Prune.{kept, matching, prune_stale_config_set_status, pruned}
use nodemanager.Node.Status.{
  collect_network_interfaces, collect_ssh_host_keys, collect_wire_guard_interfaces,
  ensure_wire_guard_key_secret, facts_from, gather_facts, interface_name, is_jailed, output,
  secret_key, text_of, update_node_status, wire_guard_status, with_key, with_secret,
}
use nodemanager.Node.Status.Facts.{
  interfaces_of, is_jail_text, same_facts, ssh_keys_of, wire_guard_of,
}
use nodemanager.Node.Upgrade.Safety.{touches}

module _ (o : Outside) (is : IsRetry o.retry_on_conflict) (n : ℕ) where
  abbrev pub Q : List Op → Type 0
  Q h = touches h ≡ n

  fetch_and_put :
      (key : NamespacedName) (put : ManagedNode → Op)
      → ((node : ManagedNode) (h : List Op) → Q h → Q (put node ∷ h))
      → Preserves Q (
          o.retry_on_conflict
            (do fresh ← perform (get_node key) o.node_answer; perform (put fresh) o.update_answer))
  fetch_and_put key put one = of_retry is (
      of_bind (of_call (get_node key) o.node_answer (λ h q. q))
        (λ fresh. of_call (put fresh) o.update_answer (one fresh)))

  pub found_node-Preserves : (r : Result (Unit {0})) → Preserves Q (found_node o r)
  found_node-Preserves (ok a) = of_pure
  found_node-Preserves (err e) = of_if (is_not_found e) (of_pure {r = ok none}) of_pure

  pub unpatch-Preserves :
      (present : Option (Unit {0})) (node : ManagedNode) → Preserves Q (unpatch o present node)
  unpatch-Preserves none node = of_pure
  unpatch-Preserves (some present) node =
      of_error (wrap "failed to uncordon kubernetes node")
        (of_call (patch_unschedulable node.name false) o.patch_answer (λ h q. q))

  pub uncordon_node-Preserves : (node : ManagedNode) → Preserves Q (uncordon_node o node)
  unfolding uncordon_node get_kubernetes_node_or_none update_status_by
  uncordon_node-Preserves node =
      of_bind
        (of_bind (of_attempt (of_call (get_kubernetes_node node.name) o.kubernetes_node (λ h q. q)))
          (λ r. found_node-Preserves r))
        (λ present. of_then (unpatch-Preserves present node) (
          of_error (wrap "failed to clear cordon status on ManagedNode") (
            fetch_and_put (key_of node)
              (λ fresh.
                update_status (record fresh {
                  status = record fresh.status { kubernetes_node_cordoned = none };
                }))
              (λ fresh h q. q))))

  pub if_cordoned-Preserves :
      (t : Option ℕ) (node : ManagedNode) → Preserves Q (if_cordoned o t node)
  if_cordoned-Preserves none node = of_pure
  if_cordoned-Preserves (some t) node = uncordon_node-Preserves node

  pub labels-Preserves : (node : ManagedNode) → Preserves Q (update_node_labels o node)
  unfolding update_node_labels
  labels-Preserves node =
      of_bind (of_call node_info (λ h. ok (o.info_answer h)) (λ h q. q)) (λ info.
        of_bind (written (merge_labels (default_labels info) false node.labels))
          (λ labels. of_pure {r = ok (in_memory o node labels)}))
    where
      written : (m : Bool × Dict String) → Preserves Q (write_labels o node m)
      written (false, labels) = of_pure
      written (true, labels) =
          of_then
            (of_error (wrap "failed to update ManagedNode") (
              fetch_and_put (key_of node)
                (λ fresh. update_node (record fresh { labels = copy fresh.labels labels }))
                (λ fresh h q. q)))
            (of_pure {r = ok labels})

  pub output-Preserves :
      (command : String) (args : List String) → Preserves Q (output o command args)
  output-Preserves command args =
      of_bind (of_attempt (of_call (run_command command args) o.command_answer (λ h q. q)))
        (λ r. of_pure {r = ok (text_of r)})

  pub with_secret-Preserves :
      (key : NamespacedName) (r : Result (Dict String)) → Preserves Q (with_secret o key r)
  with_secret-Preserves key (ok secret) = of_pure
  with_secret-Preserves key (err e) = of_if (not (is_not_found e)) of_pure (
      of_bind
        (of_error (wrap "failed to generate WireGuard keypair")
          (of_call generate_key_pair o.key_pair (λ h q. q)))
        (λ (private_key, public_key).
          of_then
            (of_error (wrap (sprint ("failed to create WireGuard key secret " ∷ key.name ∷ [])))
              (of_call (create_secret key private_key public_key) o.create_answer (λ h q. q)))
            (of_pure {r = ok public_key})))

  pub wire_guard-Preserves : (node : ManagedNode) → Preserves Q (wire_guard_status o node)
  unfolding wire_guard_status collect_wire_guard_interfaces ensure_wire_guard_key_secret
  wire_guard-Preserves node =
      of_bind
        (of_bind (output-Preserves "wg" ("show" ∷ "all" ∷ "dump" ∷ []))
          (λ out. of_pure {r = ok (wire_guard_of out)}))
        (λ live.
          of_if node.wire_guard.enabled
            (of_bind
              (of_attempt (
                of_bind
                  (of_attempt (
                    of_call
                      (get_secret (secret_key o node.namespace node.name (interface_name o node)))
                      o.secret_answer (λ h q. q)))
                  (λ r.
                    with_secret-Preserves
                      (secret_key o node.namespace node.name (interface_name o node)) r)))
              (λ r. of_pure {r = ok (with_key o node live r)}))
            (of_pure {r = ok live}))

  pub facts-Preserves : (node : ManagedNode) → Preserves Q (gather_facts o node)
  unfolding gather_facts collect_network_interfaces collect_ssh_host_keys is_jailed
  facts-Preserves node = of_bind (of_call node_info (λ h. ok (o.info_answer h)) (λ h q. q)) (λ info.
      of_bind
        (of_bind (of_attempt (of_call net_interfaces o.interfaces_answer (λ h q. q)))
          (λ r. of_pure {r = ok (interfaces_of r)}))
        (λ interfaces.
          of_bind
            (of_bind (output-Preserves "ssh-keygen" ("-r" ∷ node.name ∷ []))
              (λ out. of_pure {r = ok (ssh_keys_of out)}))
            (λ keys. of_bind (wire_guard-Preserves node) (λ live.
              of_bind
                (of_if (info.os_id == "freebsd")
                  (of_bind (output-Preserves "sysctl" ("-n" ∷ "security.jail.jailed" ∷ []))
                    (λ out. of_pure {r = ok (is_jail_text out)}))
                  (of_pure {r = ok false}))
                (λ jailed.
                  of_pure {r = ok (facts_from o node info interfaces keys live jailed)})))))

  pub status-Preserves : (node : ManagedNode) → Preserves Q (update_node_status o node)
  unfolding update_node_status
  status-Preserves node = of_bind (facts-Preserves node) (λ facts.
      of_if (same_facts node.status.facts facts) (of_pure {r = ok tt}) (
        of_error (wrap "failed to update ManagedNode status") (
          fetch_and_put (key_of node)
            (λ fresh.
              update_status (record fresh { status = record fresh.status { facts = facts } }))
            (λ fresh h q. q))))

  pub prune-Preserves : (node : ManagedNode) → Preserves Q (prune_stale_config_set_status o node)
  unfolding prune_stale_config_set_status
  prune-Preserves node = of_if (is_empty node.status.config_sets) (of_pure {r = ok tt}) (
      of_bind
        (of_error (wrap "failed to list configsets for status pruning")
          (of_call (list_config_sets node.namespace) o.config_sets (λ h q. q)))
        (λ sets.
          of_if (is_empty (pruned (matching node.labels sets) node.status.config_sets))
            (of_pure {r = ok tt})
            (fetch_and_put (key_of node)
              (λ fresh. update_status (record fresh {
                status = record fresh.status {
                  config_sets = kept (matching node.labels sets) fresh.status.config_sets;
                };
              }))
              (λ fresh h q. q))))

  pub move-Preserves :
      (node : ManagedNode) (m : Migration) (t : ℕ) → Preserves Q (move_to_status o node m t)
  move-Preserves node m t =
      of_then
        (of_error (wrap (sprint ("failed to migrate " ∷ annotation m ∷ " to status" ∷ []))) (
          fetch_and_put (key_of node) (λ fresh. update_status (set_status m t fresh))
            (λ fresh h q. q)))
        (of_then
          (of_error (wrap (sprint ("failed to remove legacy annotation " ∷ annotation m ∷ []))) (
            fetch_and_put (key_of node) (λ fresh. update_node (drop_annotation m fresh))
              (λ fresh h q. q)))
          (of_pure {r = ok true}))

  pub if_present-Preserves :
      (node : ManagedNode) (m : Migration) (v : Option String) → Preserves Q (if_present o node m v)
  if_present-Preserves node m none = of_pure
  if_present-Preserves node m (some v) =
      of_bind
        (of_error (wrap (sprint ("failed to parse legacy annotation " ∷ annotation m ∷ [])))
          (of_pure {r = o.parse_time v}))
        (λ t. move-Preserves node m t)

  pub migrate_one-Preserves :
      (node : ManagedNode) (m : Migration) → Preserves Q (migrate_one o node m)
  unfolding migrate_one
  migrate_one-Preserves node m =
      of_if (needed m node) (if_present-Preserves node m (lookup (annotation m) node.annotations))
        (of_pure {r = ok false})
