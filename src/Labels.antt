-- ===== src/Labels.antt =====
-- internal/controller/common/common.go and pkg/common/labels/labels.go: which labels of a node a
-- resource asks for.
use nodemanager.Common.{All, Bool, Bool-cases, Dict, Option, Option-cases, String, [], ap}
use nodemanager.Common.{eq_iff, eq_refl, false, found, if◌then◌else◌, inl, inr, is_empty}
use nodemanager.Common.{length, lookup, nat_eq, none, not, refl, some, suc, true, zero, ℕ, ◌==◌}
use nodemanager.Common.{◌↔◌, ◌∙◌, ◌∷◌, ◌≡◌}

abbrev if_has : Option String → String → Bool → Bool
if_has none v rest = false
if_has (some found) v rest = if found == v then rest else false

unfoldable pub match_each : Dict String → Dict String → Bool
match_each labels [] = true
match_each labels ((k, v) ∷ matchers) = if_has (lookup k labels) v (match_each labels matchers)

-- `matchAllLabels`; `nodeLabelMatch` is an error where this is false.
unfoldable pub match_all_labels : Dict String → Dict String → Bool
match_all_labels labels matchers = if is_empty matchers then false else match_each labels matchers

abbrev pub Has : Dict String → String × String → Type 0
Has labels (k, v) = lookup k labels ≡ some v

to_each :
    (labels matchers : Dict String) → match_each labels matchers ≡ true → All (Has labels) matchers
unfolding match_each
to_each labels [] fits = tt
to_each labels ((k, v) ∷ matchers) fits = elim (Option-cases (lookup k labels)) [
  | inl missing ↦ cc (rw missing at fits)
  | inr (w, present) ↦ elim (Bool-cases (w == v)) [
    | inr differ ↦ cc (rw (present, differ) at fits)
    | inl same ↦ (
      present ∙ ap some ((eq_iff w v).0 same),
      to_each labels matchers (rw (present, same) at fits),
    )
  ]
]

from_each :
    (labels matchers : Dict String) → All (Has labels) matchers → match_each labels matchers ≡ true
unfolding match_each
from_each labels [] fits = refl
from_each labels ((k, v) ∷ matchers) (present, fits) =
    rw (present, eq_refl v) (from_each labels matchers fits)

-- A node matches if there are matchers and it has every one of them; an unlabelled resource matches
-- no node.
pub match_all_labels_iff :
    (labels matchers : Dict String)
    → (match_all_labels labels matchers ≡ true)
      ↔ ((is_empty matchers ≡ false) × All (Has labels) matchers)
unfolding match_all_labels
match_all_labels_iff labels [] = ((λ p. cc), (λ p. cc))
match_all_labels_iff labels (m ∷ matchers) =
    ((λ p. (refl, to_each labels (m ∷ matchers) p)), (λ (a, b). from_each labels (m ∷ matchers) b))

pub data Logic : Type 0 where
  any_of all_of any_key none_match : Logic

-- What a round of the loops ends in: a return, or the count of matches so far.
pub data Round : Type 0 where
  returned : Bool → Round
  counted : ℕ → Round

abbrev pair_match : Logic → ℕ → Round
pair_match any_of n = returned true
pair_match none_match n = returned false
pair_match _ n = counted (suc n)

abbrev next_pair : Round → (ℕ → Round) → Round
next_pair (returned b) rest = returned b
next_pair (counted n) rest = rest n

abbrev on_key : Logic → Bool → ℕ → Round
on_key any_key same n = returned true
on_key logic same n = if same then pair_match logic n else counted n

-- The loop over `labels`, for one entry of `dest`.
unfoldable pub gate_labels : Logic → String → String → Dict String → ℕ → Round
gate_labels logic key value [] n = counted n
gate_labels logic key value ((k, v) ∷ labels) n =
    let rest = gate_labels logic key value labels in
    if k == key then next_pair (on_key logic (v == value) n) rest else rest n

unfoldable pub gate_dest : Logic → Dict String → Dict String → ℕ → Round
gate_dest logic labels [] n = counted n
gate_dest logic labels ((key, value) ∷ dest) n =
    next_pair (gate_labels logic key value labels n) (gate_dest logic labels dest)

abbrev gate_end : Logic → ℕ → ℕ → Bool
gate_end all_of matches size = nat_eq matches size
gate_end none_match matches size = nat_eq matches 0
gate_end _ matches size = false

abbrev end_gate : Logic → ℕ → Round → Bool
end_gate logic size (returned b) = b
end_gate logic size (counted n) = gate_end logic n size

unfoldable pub label_gate : Logic → Dict String → Dict String → Bool
label_gate logic labels dest = end_gate logic (length labels) (gate_dest logic labels dest 0)

-- `returned` under one logic, and no match so far under both.
abbrev Opposite : Round → Round → Type 0
Opposite (returned true) (returned false) = Unit
Opposite (counted zero) (counted zero) = Unit
Opposite _ _ = ⊥

gate_labels-Opposite :
    (key value : String) (labels : Dict String)
    → Opposite (gate_labels any_of key value labels 0) (gate_labels none_match key value labels 0)
unfolding gate_labels
gate_labels-Opposite key value [] = tt
gate_labels-Opposite key value ((k, v) ∷ labels) = elim (Bool-cases (k == key)) [
  | inr differ ↦ rw differ (gate_labels-Opposite key value labels)
  | inl same ↦ elim (Bool-cases (v == value)) [
    | inl same' ↦ rw (same, same') tt
    | inr differ ↦ rw (same, differ) (gate_labels-Opposite key value labels)
  ]
]

next_round :
    (a b : Round) (f g : ℕ → Round)
    → Opposite a b
    → Opposite (f 0) (g 0)
    → Opposite (next_pair a f) (next_pair b g)
next_round (returned true) (returned false) f g now later = tt
next_round (counted zero) (counted zero) f g now later = later
next_round (returned false) b f g now later = elim now [ ]
next_round (returned true) (returned true) f g now later = elim now [ ]
next_round (returned true) (counted n) f g now later = elim now [ ]
next_round (counted zero) (returned x) f g now later = elim now [ ]
next_round (counted zero) (counted (suc n)) f g now later = elim now [ ]
next_round (counted (suc n)) b f g now later = elim now [ ]

gate_dest-Opposite :
    (labels dest : Dict String)
    → Opposite (gate_dest any_of labels dest 0) (gate_dest none_match labels dest 0)
unfolding gate_dest
gate_dest-Opposite labels [] = tt
gate_dest-Opposite labels ((key, value) ∷ dest) =
    next_round (gate_labels any_of key value labels 0) (gate_labels none_match key value labels 0)
      (gate_dest any_of labels dest) (gate_dest none_match labels dest)
      (gate_labels-Opposite key value labels) (gate_dest-Opposite labels dest)

end_gate_lem :
    (a b : Round) (size : ℕ)
    → Opposite a b
    → end_gate none_match size b ≡ not (end_gate any_of size a)
end_gate_lem (returned true) (returned false) size o = refl
end_gate_lem (counted zero) (counted zero) size o = refl
end_gate_lem (returned false) b size o = elim o [ ]
end_gate_lem (returned true) (returned true) size o = elim o [ ]
end_gate_lem (returned true) (counted n) size o = elim o [ ]
end_gate_lem (counted zero) (returned x) size o = elim o [ ]
end_gate_lem (counted zero) (counted (suc n)) size o = elim o [ ]
end_gate_lem (counted (suc n)) b size o = elim o [ ]

-- `NoneMatch` answers the opposite of `Or`, for all labels in all orders.
label_gate_opposite :
    (labels dest : Dict String)
    → label_gate none_match labels dest ≡ not (label_gate any_of labels dest)
unfolding label_gate
label_gate_opposite labels dest =
    end_gate_lem (gate_dest any_of labels dest 0) (gate_dest none_match labels dest 0)
      (length labels) (gate_dest-Opposite labels dest)
