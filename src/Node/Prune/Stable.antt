-- ===== src/Node/Prune/Stable.antt =====
-- What is left of the status after stale entries are pruned.
use nodemanager.Common.{Bool-cases, List, String, [], inl, inr, refl, ◌∷◌, ◌≡◌}
use nodemanager.Api.{ConfigSetApplyStatus}
use nodemanager.Node.Prune.{is_in, kept, pruned}

kept_twice :
    (names : List String) (sets : List ConfigSetApplyStatus)
    → kept names (kept names sets) ≡ kept names sets
unfolding kept
kept_twice names [] = refl
kept_twice names (cs ∷ sets) = elim (Bool-cases (is_in cs.name names)) [
  | inl wanted ↦ rw (wanted, wanted, kept_twice names sets) refl
  | inr stale ↦ rw stale (kept_twice names sets)
]

pruned-kept :
    (names : List String) (sets : List ConfigSetApplyStatus) → pruned names (kept names sets) ≡ []
unfolding kept pruned
pruned-kept names [] = refl
pruned-kept names (cs ∷ sets) = elim (Bool-cases (is_in cs.name names)) [
  | inl wanted ↦ rw (wanted, wanted) (pruned-kept names sets)
  | inr stale ↦ rw stale (pruned-kept names sets)
]

kept_all :
    (names : List String) (sets : List ConfigSetApplyStatus)
    → pruned names sets ≡ []
    → kept names sets ≡ sets
unfolding kept pruned
kept_all names [] p = refl
kept_all names (cs ∷ sets) p = elim (Bool-cases (is_in cs.name names)) [
  | inl wanted ↦ rw (wanted, kept_all names sets (rw wanted at p)) refl
  | inr stale ↦ cc (rw stale at p)
]

-- Pruning is done after one time: the entries that are kept are kept again and none of them is
-- stale, and where no entry is stale, so that nothing is written, all are kept.
pub prune_settles :
    (names : List String) (sets : List ConfigSetApplyStatus)
    → (kept names (kept names sets) ≡ kept names sets)
      × (pruned names (kept names sets) ≡ [])
      × (pruned names sets ≡ [] → kept names sets ≡ sets)
prune_settles names sets = (kept_twice names sets, pruned-kept names sets, kept_all names sets)
