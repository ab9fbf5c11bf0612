-- ===== src/Common/Texts.antt =====
-- What the code uses of Go's packages strings, strconv, sort and reflect.
use Prim.Native.Char.{Char, code}
use Prim.Native.Nat.{Ordering, ℕ, ◌*◌, ◌+◌, ◌-◌}
use Prim.Native.String.{String, compare}
use mathlib.Core.Bool.{Bool, false, true, ◌&&◌, ◌||◌}
use mathlib.Core.List.{List, [], ◌∷◌}
use mathlib.Core.Option.{Option, none, some}
use nodemanager.Common.Dicts.{Dict, lookup}
use nodemanager.Common.Tests.{if◌then◌else◌, is_empty, leb, length, nat_eq}
use text.Mathlib.TextBridge.{of_list, to_list}

-- The parts of a list between the elements that are separators.
abbrev part_of : {A : Type 0} → Bool → A → List (List A) → List (List A)
part_of true c parts = [] ∷ parts
part_of false c [] = (c ∷ []) ∷ []
part_of false c (part ∷ parts) = (c ∷ part) ∷ parts

unfoldable pub parts_between : {A : Type 0} → (A → Bool) → List A → List (List A)
parts_between is_separator [] = [] ∷ []
parts_between is_separator (c ∷ cs) = part_of (is_separator c) c (parts_between is_separator cs)

abbrev pub texts : List (List Char) → List String
texts [] = []
texts (cs ∷ parts) = of_list cs ∷ texts parts

-- `strings.Split` at one character, given by its number.
unfoldable pub split : ℕ → String → List String
split separator s = texts (parts_between (λ c. nat_eq (code c) separator) (to_list s))

abbrev pub is_space : Char → Bool
is_space c = nat_eq (code c) 32 || (leb 9 (code c) && leb (code c) 13)

abbrev nonempty : List (List Char) → List (List Char)
nonempty [] = []
nonempty (part ∷ parts) = if is_empty part then nonempty parts else part ∷ nonempty parts

-- `strings.Fields`, for texts with the white space of ASCII.
unfoldable pub fields : String → List String
fields s = texts (nonempty (parts_between is_space (to_list s)))

abbrev digits : List Char → ℕ → Option ℕ
digits [] n = some n
digits (c ∷ cs) n =
    if leb 48 (code c) && leb (code c) 57 then digits cs (n * 10 + (code c - 48)) else none

-- `strconv.Atoi` of a text without a sign that stays in the range of int.
unfoldable pub atoi : String → Option ℕ
atoi s = let cs = to_list s in if is_empty cs then none else digits cs 0

module _ {A : Type 0} where
  abbrev pub put_sorted : (A → A → Bool) → A → List A → List A
  put_sorted le x [] = x ∷ []
  put_sorted le x (y ∷ ys) = if le x y then x ∷ y ∷ ys else y ∷ put_sorted le x ys

  -- `slices.SortFunc`, stable.
  unfoldable pub sort_by : (A → A → Bool) → List A → List A
  sort_by le [] = []
  sort_by le (x ∷ xs) = put_sorted le x (sort_by le xs)

  abbrev pub list_eq : (A → A → Bool) → List A → List A → Bool
  list_eq eq [] [] = true
  list_eq eq [] (y ∷ ys) = false
  list_eq eq (x ∷ xs) [] = false
  list_eq eq (x ∷ xs) (y ∷ ys) = eq x y && list_eq eq xs ys

abbrev pub text_le : String → String → Bool
text_le s t = elim (compare s t) [ Ordering.gt ↦ false | _ ↦ true ]

abbrev fits : {V : Type 0} → (V → V → Bool) → V → Option V → Bool
fits eq v none = false
fits eq v (some w) = eq v w

abbrev all_in : {V : Type 0} → (V → V → Bool) → Dict V → Dict V → Bool
all_in eq [] m = true
all_in eq ((k, v) ∷ entries) m = fits eq v (lookup k m) && all_in eq entries m

-- `reflect.DeepEqual` of two maps.
abbrev pub dict_eq : {V : Type 0} → (V → V → Bool) → Dict V → Dict V → Bool
dict_eq eq m n = nat_eq (length m) (length n) && all_in eq m n
