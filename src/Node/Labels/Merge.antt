-- ===== src/Node/Labels/Merge.antt =====
-- What the merge of the default labels gives.
use nodemanager.Common.{All, Bool, Bool-cases, Dict, NodupKeys, Option, String, [], ap, arith}
use nodemanager.Common.{eq_iff, eq_refl, false, inl, inr, insert, lookup, lookup-insert, none}
use nodemanager.Common.{or_else, refl, some, sym, true, ◌==◌, ◌↔◌, ◌∷◌, ◌≡◌}
use nodemanager.Labels.{Has}
use nodemanager.Node.Labels.{differs, merge_labels}

same_of : (w : Option String) (v : String) → differs w v ≡ false → w ≡ some v
same_of none v same = cc
same_of (some w) v same = ap some ((eq_iff w v).0 (ground arith))

flag_stays : (defaults labels : Dict String) → (merge_labels defaults true labels).0 ≡ true
unfolding merge_labels
flag_stays [] labels = refl
flag_stays ((k, v) ∷ defaults) labels = elim (Bool-cases (differs (lookup k labels) v)) [
  | inl differ ↦ rw differ (flag_stays defaults (insert k v labels))
  | inr same ↦ rw same (flag_stays defaults labels)
]

-- With the defaults once each, a label has the default's value after the merge, and its old one
-- where there is no default.
lookup-merge :
    (place : String) (defaults labels : Dict String) (update : Bool)
    → NodupKeys defaults
    → lookup place (merge_labels defaults update labels).1
      ≡ or_else (lookup place defaults) (lookup place labels)
unfolding merge_labels lookup
lookup-merge place [] labels update once = refl
lookup-merge place ((k, v) ∷ defaults) labels update (fresh, once) =
    elim (Bool-cases (differs (lookup k labels) v)) [
      | inl differ ↦
          rw
            (
              differ,
              lookup-merge place defaults (insert k v labels) true once,
              lookup-insert k place v labels,
            )
            (elim (Bool-cases (k == place)) [
              | inl here ↦ rw (here, sym ((eq_iff k place).0 here), fresh) refl
              | inr there ↦ rw there refl
            ])
      | inr same ↦
          rw (same, lookup-merge place defaults labels update once)
            (elim (Bool-cases (k == place)) [
              | inl here ↦
                  rw (here, sym ((eq_iff k place).0 here), fresh, same_of (lookup k labels) v same)
                    refl
              | inr there ↦ rw there refl
            ])
    ]

unchanged-Has :
    (defaults labels : Dict String)
    → (merge_labels defaults false labels).0 ≡ false
    → All (Has labels) defaults
unfolding merge_labels
unchanged-Has [] labels p = tt
unchanged-Has ((k, v) ∷ defaults) labels p = elim (Bool-cases (differs (lookup k labels) v)) [
  | inl differ ↦ cc (rw (differ, flag_stays defaults (insert k v labels)) at p)
  | inr same ↦ (same_of (lookup k labels) v same, unchanged-Has defaults labels (rw same at p))
]

Has-unchanged :
    (defaults labels : Dict String)
    → All (Has labels) defaults
    → merge_labels defaults false labels ≡ (false, labels)
unfolding merge_labels
Has-unchanged [] labels has = refl
Has-unchanged ((k, v) ∷ defaults) labels (present, has) =
    rw (present, eq_refl v) (Has-unchanged defaults labels has)

-- With each default label once, a merged label has the default's value, and the node's where there
-- is no default; and the labels are written exactly if the node lacks one of the defaults.
pub merge_labels_iff :
    (defaults labels : Dict String)
    → NodupKeys defaults
    → ((place : String)
        → lookup place (merge_labels defaults false labels).1
          ≡ or_else (lookup place defaults) (lookup place labels))
      × (((merge_labels defaults false labels).0 ≡ false) ↔ All (Has labels) defaults)
merge_labels_iff defaults labels once = (
  λ place. lookup-merge place defaults labels false once,
  (unchanged-Has defaults labels, λ has. rw (Has-unchanged defaults labels has) refl),
)
