-- ===== src/Tests/Poudriere.antt =====
-- A node that is to build, and one that is not.
use nodemanager.Common.{[], err, inl, inr, length, new_error, ok, refl, ◌∷◌, ◌≡◌}
use nodemanager.Api.{ManagedNode}
use nodemanager.Labels.{gate_dest, gate_labels, label_gate}
use nodemanager.Poudriere.{Outside, get_node, read_hostname}
use nodemanager.Poudriere.Reconcile.{ensure_all_trees, poudriere_build, reconcile}
use nodemanager.Poudriere.Reconcile.Gate.{HasEntry, enabled_node_idles}
use nodemanager.Tests.Node.{node}

abbrev builder : ManagedNode
builder = record node {
  labels = (poudriere_build, "enabled") ∷ ("kubernetes.io/os", "freebsd") ∷ [];
}

abbrev outside : ManagedNode → Outside
outside node = record {
  hostname_answer = λ h. ok "n1";
  node_answer = λ h. ok node;
  ports_answer = λ h. ok (record { name = "default"; fetch_method = "git"; branch = "" } ∷ []);
  jails_answer = λ h. ok [];
  bulks_answer = λ h. ok [];
  run_answer = λ h. ok tt;
  output_answer = λ h. err (new_error "exit status 1");
  parse_date_time = λ text. ok 0;
}

not_disabled : ¬ HasEntry poudriere_build "disabled" builder.labels
not_disabled (inl (a, b)) = cc
not_disabled (inr (inl (a, b))) = cc
not_disabled (inr (inr rest)) = rest

enabled_node_idles_example :
    reconcile (outside builder) "nodemanager" []
    ≡ (ok tt, get_node (record { namespace = "nodemanager"; name = "n1" }) ∷ read_hostname ∷ [])
enabled_node_idles_example =
    enabled_node_idles (outside builder) "nodemanager" "n1" builder [] refl refl not_disabled

-- On a node that is labelled as disabled the trees are listed and asked for.
abbrev disabled : ManagedNode
disabled = record node { labels = (poudriere_build, "disabled") ∷ [] }

disabled_builds : length (reconcile (outside disabled) "nodemanager" []).1 ≡ 4
unfolding reconcile label_gate gate_dest gate_labels ensure_all_trees
disabled_builds = refl
