-- ===== src/Common/Effects.antt =====
-- Effects. Code that calls the outside (the cluster's API, commands, files, clocks) extends a log
-- of its calls, newest first, and what a call answers is any function of the calls before it. So
-- a theorem for all answers is a theorem for every outside, other actors between the calls
-- included.
use mathlib.Core.List.{List, [], ◌++◌, ◌∷◌}
use mathlib.Core.Logic.{◌⊎◌}
use mathlib.Core.Option.{Option, none, some}
use mathlib.Core.Path.{refl, ◌≡◌}
use nodemanager.Common.Errors.{Error, Result, err, ok}
use nodemanager.Common.Tests.{All}

abbrev pub Io : Type 0 → Type 0 → Type 0
Io Op A = List Op → Result A × List Op

module _ {Op A : Type 0} where
  abbrev pub pure : A → Io Op A
  pure a h = (ok a, h)

  abbrev pub raise : Error → Io Op A
  raise e h = (err e, h)

  -- One call: it is logged, whether it succeeds or not.
  abbrev pub perform : Op → (List Op → Result A) → Io Op A
  perform op answer h = (answer h, op ∷ h)

  -- A call that cannot fail.
  abbrev pub ask : Op → (List Op → A) → Io Op A
  ask op answer h = (ok (answer h), op ∷ h)

  -- The error of `m` as a value, for code that goes on after it.
  abbrev pub attempt : Io Op A → Io Op (Result A)
  attempt m h = let (r, h') = m h in (ok r, h')

module _ {Op A B : Type 0} where
  abbrev pub continue : Result A → (A → Io Op B) → Io Op B
  continue (ok a) f h = f a h
  continue (err e) f h = (err e, h)

  infixl 10 ◌>>=◌ ◌>>◌
  abbrev pub ◌>>=◌ : Io Op A → (A → Io Op B) → Io Op B
  ◌>>=◌ m f h = let (r, h') = m h in continue r f h'

  abbrev pub ◌>>◌ : Io Op A → Io Op B → Io Op B
  m >> n = m >>= λ _. n

abbrev pub relabel : {A : Type 0} → (Error → Error) → Result A → Result A
relabel f (ok a) = ok a
relabel f (err e) = err (f e)

module _ {Op A : Type 0} where
  -- The error of `m` goes on as another one, such as one with a text in front.
  abbrev pub on_error : (Error → Error) → Io Op A → Io Op A
  on_error f m h = let (r, h') = m h in (relabel f r, h')

  -- A value that was computed with no call.
  abbrev pub lift : Result A → Io Op A
  lift r h = (r, h)

-- Code whose error is dropped.
abbrev pub ignored : {Op A : Type 0} → Io Op A → Io Op (Unit {0})
ignored m = do attempt m; pure tt

-- Some call of the log meets `P`, which sees the calls before it too.
abbrev pub Sometime : {Op : Type 0} → (Op → List Op → Type 0) → List Op → Type 0
Sometime P [] = ⊥
Sometime P (op ∷ h) = P op h ⊎ Sometime P h

-- The error of a result, for code that gathers errors and goes on.
abbrev pub errors_of {ℓ} : {A : Type ℓ} → Result A → List Error
errors_of (ok a) = []
errors_of (err e) = e ∷ []

abbrev pub to_result : Option Error → Result (Unit {0})
to_result none = ok tt
to_result (some e) = err e

-- Code that gathers entries, such as errors, while it calls the outside.
abbrev pub Gather : Type 0 → Type 0 → Type 0
Gather Op B = List Op → List B × List Op

module _ {Op B : Type 0} where
  abbrev pub nothing : Gather Op B
  nothing h = ([], h)

  abbrev pub found : B → Gather Op B
  found b h = (b ∷ [], h)

  infixr 5 ◌also◌
  abbrev pub ◌also◌ : Gather Op B → Gather Op B → Gather Op B
  (f also g) h = let (bs, h1) = f h in let (bs', h2) = g h1 in (bs ++ bs', h2)

  -- A loop over a list.
  unfoldable pub for_each : {A : Type 0} → (A → Gather Op B) → List A → Gather Op B
  for_each f [] h = ([], h)
  for_each f (x ∷ xs) h =
      let (bs, h1) = f x h in let (bs', h2) = for_each f xs h1 in (bs ++ bs', h2)

  -- What each round of a loop keeps, the loop keeps.
  pub for_each-rel :
      {A : Type 0} (R : List Op → List Op → Type 0)
      → ((h : List Op) → R h h)
      → ((h h1 h2 : List Op) → R h h1 → R h1 h2 → R h h2)
      → (f : A → Gather Op B) → ((x : A) (h : List Op) → R h (f x h).1)
      → (xs : List A) (h : List Op) → R h (for_each f xs h).1
  unfolding for_each
  for_each-rel R same trans f each [] h = same h
  for_each-rel R same trans f each (x ∷ xs) h =
      trans h (f x h).1 (for_each f xs (f x h).1).1 (each x h)
        (for_each-rel R same trans f each xs (f x h).1)

pub append_nil {ℓ} : {A : Type ℓ} (xs ys : List A) → xs ++ ys ≡ [] → (xs ≡ []) × (ys ≡ [])
append_nil [] ys p = (refl, p)
append_nil (x ∷ xs) ys p = cc

-- What each round without an entry establishes, and the later rounds keep, a loop without an entry
-- establishes for every element.
module _ {Op A B : Type 0} (P : A → List Op → Type 0) (f : A → Gather Op B) where
  kept :
      ((x y : A) (h : List Op) → P x h → P x (f y h).1)
      → (x : A) (ys : List A) (h : List Op) → P x h
      → P x (for_each f ys h).1
  unfolding for_each
  kept keep x [] h p = p
  kept keep x (y ∷ ys) h p = kept keep x ys (f y h).1 (keep x y h p)

  pub for_each-All :
      ((x y : A) (h : List Op) → P x h → P x (f y h).1)
      → ((x : A) (h : List Op) → (f x h).0 ≡ [] → P x (f x h).1)
      → (xs : List A) (h : List Op) → (for_each f xs h).0 ≡ []
      → All (λ x. P x (for_each f xs h).1) xs
  unfolding for_each
  for_each-All keep each [] h p = tt
  for_each-All keep each (x ∷ xs) h p =
      let (now, later) = append_nil (f x h).0 (for_each f xs (f x h).1).0 p in
      (kept keep x xs (f x h).1 (each x h now), for_each-All keep each xs (f x h).1 later)

-- One call, with its error put among the others after `f` has changed it.
abbrev pub gather : {Op A : Type 0} → (Error → Error) → Io Op A → Gather Op Error
gather f m h = let (r, h') = m h in (errors_of (relabel f r), h')
