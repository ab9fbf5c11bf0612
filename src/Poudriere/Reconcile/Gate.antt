-- ===== src/Poudriere/Reconcile/Gate.antt =====
-- On which nodes the reconciler builds.
use nodemanager.Common.{Dict, List, String, [], arith, eq_iff, inr, ok, refl, true, ◌∷◌, ◌≡◌}
use nodemanager.Common.{◌⊎◌}
use nodemanager.Labels.{counted, gate_dest, gate_labels, label_gate, none_match}
use nodemanager.Poudriere.{ManagedNode, Op, Outside, get_node, read_hostname}
use nodemanager.Poudriere.Reconcile.{poudriere_build, reconcile}

-- The dictionary has the entry.
abbrev pub HasEntry : String → String → Dict String → Type 0
HasEntry key value [] = ⊥
HasEntry key value ((k, v) ∷ labels) = ((k ≡ key) × (v ≡ value)) ⊎ HasEntry key value labels

no_round :
    (key value : String) (labels : Dict String)
    → ¬ HasEntry key value labels
    → gate_labels none_match key value labels 0 ≡ counted 0
unfolding gate_labels
no_round key value [] absent = refl
no_round key value ((k, v) ∷ labels) absent =
    ground
      (arith, eq_iff k key, eq_iff v value, no_round key value labels (λ there. absent (inr there)))

gate_none_match :
    (key value : String) (labels : Dict String)
    → ¬ HasEntry key value labels
    → label_gate none_match labels ((key, value) ∷ []) ≡ true
unfolding label_gate gate_dest
gate_none_match key value labels absent = rw (no_round key value labels absent) refl

-- A reconcile on a node that is not labelled as disabled for builds reads its name and the node,
-- and ends without an error and without any command, whatever else the node's labels say.
pub enabled_node_idles :
    (o : Outside) (namespace name : String) (node : ManagedNode) (h : List Op)
    → o.hostname_answer h ≡ ok name
    → o.node_answer (read_hostname ∷ h) ≡ ok node
    → ¬ HasEntry poudriere_build "disabled" node.labels
    → reconcile o namespace h
      ≡ (ok tt, get_node (record { namespace = namespace; name = name }) ∷ read_hostname ∷ h)
unfolding reconcile
enabled_node_idles o namespace name node h named read enabled =
    rw (named, read) (rw (gate_none_match poudriere_build "disabled" node.labels enabled) refl)
