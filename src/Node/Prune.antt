-- ===== src/Node/Prune.antt =====
-- `pruneStaleConfigSetStatus`: entries of ConfigSets that are gone or no longer meant for the node.
pub mod Stable
use nodemanager.Common.{Bool, Dict, Io, List, String, [], any, if◌then◌else◌, is_empty}
use nodemanager.Common.{on_error, perform, pure, wrap, ◌==◌, ◌>>=◌, ◌∷◌}
use nodemanager.Api.{ConfigSet, ConfigSetApplyStatus, ManagedNode}
use nodemanager.Labels.{match_all_labels}
use nodemanager.Node.{Op, Outside, get_node, list_config_sets, update_status}
use nodemanager.Node.Cordon.{key_of}

-- The names of the ConfigSets that match the node.
unfoldable pub matching : Dict String → List ConfigSet → List String
matching labels [] = []
matching labels (cs ∷ sets) =
    let rest = matching labels sets in
    if match_all_labels labels cs.labels then cs.name ∷ rest else rest

abbrev pub is_in : String → List String → Bool
is_in name = any (λ s. s == name)

unfoldable pub kept : List String → List ConfigSetApplyStatus → List ConfigSetApplyStatus
kept names [] = []
kept names (cs ∷ sets) =
    let rest = kept names sets in if is_in cs.name names then cs ∷ rest else rest

unfoldable pub pruned : List String → List ConfigSetApplyStatus → List String
pruned names [] = []
pruned names (cs ∷ sets) =
    let rest = pruned names sets in if is_in cs.name names then rest else cs.name ∷ rest

module _ (o : Outside) (node : ManagedNode) where
  abbrev pub write_kept : List String → Io Op (Unit {0})
  write_kept names = o.retry_on_conflict (do
    n ← perform (get_node (key_of node)) o.node_answer
    perform
        (update_status
          (record n { status = record n.status { config_sets = kept names n.status.config_sets } }))
        o.update_answer)

  unfoldable pub prune_stale_config_set_status : Io Op (Unit {0})
  prune_stale_config_set_status = if is_empty node.status.config_sets then pure tt else do
    sets ←
        on_error (wrap "failed to list configsets for status pruning")
          (perform (list_config_sets node.namespace) o.config_sets)
    if is_empty (pruned (matching node.labels sets) node.status.config_sets)
        then pure tt
        else write_kept (matching node.labels sets)
