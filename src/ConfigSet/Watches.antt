-- ===== src/ConfigSet/Watches.antt =====
-- Which ConfigSets are reconciled after a change: `configSetsOnNodeChange`,
-- `configSetsReferencingSecret` and `configSetsReferencingConfigMap`.
use nodemanager.Common.{Bool, Io, List, Result, String, [], any, attempt, err, if◌then◌else◌}
use nodemanager.Common.{ok, perform, pure, ◌==◌, ◌>>=◌, ◌∷◌}
use nodemanager.Api.{ConfigSet, File, NamespacedName}
use nodemanager.ConfigSet.{Op, Outside, list_config_sets}

abbrev pub key_of : ConfigSet → NamespacedName
key_of cs = record { namespace = cs.namespace; name = cs.name }

unfoldable pub keys : List ConfigSet → List NamespacedName
keys [] = []
keys (cs ∷ sets) = key_of cs ∷ keys sets

abbrev pub names : (File → List String) → String → ConfigSet → Bool
names refs name cs = any (λ f. any (λ s. s == name) (refs f)) cs.spec.files

-- One key for each ConfigSet with a file that refers to the name.
unfoldable pub referencing : (File → List String) → String → List ConfigSet → List NamespacedName
referencing refs name [] = []
referencing refs name (cs ∷ sets) =
    let rest = referencing refs name sets in if names refs name cs then key_of cs ∷ rest else rest

module _ (o : Outside) where
  abbrev listed :
      (List ConfigSet → List NamespacedName) → Result (List ConfigSet) → List NamespacedName
  listed f (err e) = []
  listed f (ok sets) = f sets

  abbrev requests : String → (List ConfigSet → List NamespacedName) → Io Op (List NamespacedName)
  requests namespace f = do
    r ← attempt (perform (list_config_sets namespace) o.config_sets)
    pure (listed f r)

  unfoldable pub config_sets_on_node_change : (hostname name : String) → Io Op (List NamespacedName)
  config_sets_on_node_change hostname name =
      if name == hostname then requests o.namespace keys else pure []

  unfoldable pub config_sets_referencing_secret :
      (namespace name : String) → Io Op (List NamespacedName)
  config_sets_referencing_secret namespace name =
      requests namespace (referencing (λ f. f.secret_refs) name)

  unfoldable pub config_sets_referencing_config_map :
      (namespace name : String) → Io Op (List NamespacedName)
  config_sets_referencing_config_map namespace name =
      requests namespace (referencing (λ f. f.config_map_refs) name)
