-- ===== src/Common/Errors.antt =====
-- Go's `error` values: a kind that `apierrors.IsConflict` and its kin read, and the text. Wrapping
-- by `%w` puts a text in front and keeps the kind.
use Prim.Native.String.{String, ◌++◌}
use mathlib.Core.Bool.{Bool, false, true}
use mathlib.Core.List.{List, [], ◌∷◌}
use mathlib.Core.Logic.{inl, inr, ◌⊎◌}
use mathlib.Core.Option.{Option, none, some}
use mathlib.Core.Path.{refl, ◌≡◌}

pub data Kind : Type 0 where
  conflict not_found already_exists too_many_requests other : Kind

pub record Error : Type 0 where
  pub kind : Kind
  pub text : String

abbrev pub new_error : String → Error
new_error text = record { kind = other; text = text }

-- `fmt.Errorf("message: %w", err)`
abbrev pub wrap : String → Error → Error
wrap message e = record e { text = message ++ ": " ++ e.text }

abbrev pub is_conflict : Error → Bool
is_conflict e = elim e.kind [ conflict ↦ true | _ ↦ false ]

abbrev pub is_not_found : Error → Bool
is_not_found e = elim e.kind [ not_found ↦ true | _ ↦ false ]

abbrev pub is_already_exists : Error → Bool
is_already_exists e = elim e.kind [ already_exists ↦ true | _ ↦ false ]

pub data Result {ℓ} (A : Type ℓ) : Type ℓ where
  ok : A → Result A
  err : Error → Result A

-- `errors.Join`: nothing for no error, and the texts on lines of their own otherwise.
abbrev join_texts : Error → List Error → String
join_texts e [] = e.text
join_texts e (f ∷ errs) = e.text ++ "\n" ++ join_texts f errs

abbrev pub join : List Error → Option Error
join [] = none
join (e ∷ []) = some e
join (e ∷ errs) = some (new_error (join_texts e errs))

abbrev pub is_ok {ℓ} : {A : Type ℓ} → Result A → Bool
is_ok (ok a) = true
is_ok (err e) = false

pub Result-cases {ℓ} :
    {A : Type ℓ} (r : Result A) → ((a : A) × (r ≡ ok a)) ⊎ ((e : Error) × (r ≡ err e))
Result-cases (ok a) = inl (a, refl)
Result-cases (err e) = inr (e, refl)

-- `%q` of a text that has no quotes, backslashes or control characters in it.
abbrev pub quote : String → String
quote s = "\"" ++ s ++ "\""

pub join-none : (errs : List Error) → join errs ≡ none → errs ≡ []
join-none [] p = refl
join-none (e ∷ []) p = cc
join-none (e ∷ f ∷ errs) p = cc

-- `fmt.Sprintf` with `%s`, by its parts in order.
abbrev pub sprint : List String → String
sprint [] = ""
sprint (s ∷ parts) = s ++ sprint parts

-- `+` on strings, beside `◌++◌` on lists.
infixr 20 ◌+++◌
abbrev pub ◌+++◌ : String → String → String
s +++ t = s ++ t
