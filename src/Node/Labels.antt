-- ===== src/Node/Labels.antt =====
-- `updateNodeLabels`, with `DefaultLabels` of pkg/common/labels.
pub mod Merge
use nodemanager.Common.{Bool, Dict, Io, Option, String, [], ask, copy, false, if◌then◌else◌}
use nodemanager.Common.{insert, is_empty, lookup, none, not, on_error, perform, pure, some}
use nodemanager.Common.{true, wrap, ◌==◌, ◌>>=◌, ◌>>◌, ◌∷◌}
use nodemanager.Api.{ManagedNode}
use nodemanager.Node.{NodeInfo, Op, Outside, get_node, node_info, update_node}
use nodemanager.Node.Cordon.{key_of}

abbrev pub label_os : String
label_os = "kubernetes.io/os"

abbrev pub label_arch : String
label_arch = "kubernetes.io/arch"

abbrev pub label_hostname : String
label_hostname = "kubernetes.io/hostname"

unfoldable pub default_labels : NodeInfo → Dict String
default_labels info =
    (label_os, info.os_id) ∷ (label_arch, info.machine) ∷ (label_hostname, info.name) ∷ []

abbrev pub differs : Option String → String → Bool
differs none v = true
differs (some w) v = not (w == v)

-- The loop over the defaults: whether a label is to be updated, and the labels with the defaults
-- in. The map that the loop reads is the one that it writes.
unfoldable pub merge_labels : Dict String → Bool → Dict String → Bool × Dict String
merge_labels [] update labels = (update, labels)
merge_labels ((k, v) ∷ defaults) update labels =
    let written = merge_labels defaults true (insert k v labels) in
    let left = merge_labels defaults update labels in
    if differs (lookup k labels) v then written else left

module _ (o : Outside) (node : ManagedNode) where
  abbrev pub write_labels : Bool × Dict String → Io Op (Dict String)
  write_labels (false, labels) = pure labels
  write_labels (true, labels) = do
    on_error (wrap "failed to update ManagedNode") (
        o.retry_on_conflict (do
          fresh ← perform (get_node (key_of node)) o.node_answer
          perform (update_node (record fresh { labels = copy fresh.labels labels }))
              o.update_answer))
    pure labels

  -- A nil map is replaced by one that the node in memory does not have.
  abbrev pub in_memory : Dict String → Dict String
  in_memory labels = if is_empty node.labels then [] else labels

  -- The labels that the node in memory has afterwards.
  unfoldable pub update_node_labels : Io Op (Dict String)
  update_node_labels = do
    info ← ask node_info o.info_answer
    labels ← write_labels (merge_labels (default_labels info) false node.labels)
    pure (in_memory labels)
