-- ===== src/Common/Rules.antt =====
-- Rules for what code leaves true of the log, one for each form of code.
use mathlib.Core.Bool.{Bool, false, true}
use mathlib.Core.List.{List, ◌∷◌}
use mathlib.Core.Path.{refl, ◌≡◌}
use nodemanager.Common.Effects.{
  Io, attempt, continue, ignored, on_error, perform, pure, relabel, ◌>>=◌, ◌>>◌,
}
use nodemanager.Common.Errors.{Error, Result, err, ok}
use nodemanager.Common.Tests.{if◌then◌else◌}

-- What code leaves true of the log; the rules below follow the shape of the code.
pub record Preserves {Op A : Type 0} (Q : List Op → Type 0) (m : Io Op A) : Type 0 where
  pub preserves : (h : List Op) → Q h → Q (m h).1

module _ {Op : Type 0} {Q : List Op → Type 0} where
  pub of_pure : {A : Type 0} {r : Result A} → Preserves Q (λ h. (r, h))
  of_pure = record { preserves = λ h q. q }

  pub of_call :
      {A : Type 0} (op : Op) (answer : List Op → Result A)
      → ((h : List Op) → Q h → Q (op ∷ h))
      → Preserves Q (perform op answer)
  of_call op answer one = record { preserves = one }

  continued :
      {A B : Type 0} (f : A → Io Op B) (r : Result A)
      → ((a : A) → Preserves Q (f a))
      → (h : List Op) → Q h
      → Q (continue r f h).1
  continued f (ok a) next h q = (next a).preserves h q
  continued f (err e) next h q = q

  pub of_bind :
      {A B : Type 0} {m : Io Op A} {f : A → Io Op B}
      → Preserves Q m
      → ((a : A) → Preserves Q (f a))
      → Preserves Q (m >>= f)
  of_bind {m = m} {f = f} first next = record {
    preserves = λ h q. continued f (m h).0 next (m h).1 (first.preserves h q);
  }

  pub of_then :
      {A B : Type 0} {m : Io Op A} {n : Io Op B}
      → Preserves Q m
      → Preserves Q n
      → Preserves Q (m >> n)
  of_then first next = of_bind first (λ a. next)

  pub of_error :
      {A : Type 0} (f : Error → Error) {m : Io Op A} → Preserves Q m → Preserves Q (on_error f m)
  of_error f first = record { preserves = λ h q. first.preserves h q }

  pub of_attempt : {A : Type 0} {m : Io Op A} → Preserves Q m → Preserves Q (attempt m)
  of_attempt first = record { preserves = λ h q. first.preserves h q }

  pub of_ignored : {A : Type 0} {m : Io Op A} → Preserves Q m → Preserves Q (ignored m)
  of_ignored first = of_then (of_attempt first) (of_pure {r = ok tt})

  -- A call whose error is dropped.
  pub of_tried :
      {A : Type 0} (op : Op) (answer : List Op → Result A)
      → ((h : List Op) → Q h → Q (op ∷ h))
      → Preserves Q (attempt (perform op answer) >> pure (tt {0}))
  of_tried op answer one = record { preserves = one }

  pub of_if :
      {A : Type 0} (b : Bool) {m n : Io Op A}
      → Preserves Q m
      → Preserves Q n
      → Preserves Q (if b then m else n)
  of_if true on_true on_false = on_true
  of_if false on_true on_false = on_false

-- What a success of the code makes of the log.
pub record Ensures {Op A : Type 0} (Q : List Op → Type 0) (m : Io Op A) (R : List Op → Type 0)
    : Type 0 where
  pub ends : (h : List Op) → Q h → (a : A) → (m h).0 ≡ ok a → R (m h).1

module _ {Op A B : Type 0} {R S : List Op → Type 0} {n : Io Op B} where
  continued_ends :
      (r : Result A) (h : List Op)
      → ((a : A) → r ≡ ok a → R h)
      → Ensures R n S
      → (b : B) → (continue r (λ a. n) h).0 ≡ ok b
      → S (continue r (λ a. n) h).1
  continued_ends (ok a) h known next b p = next.ends h (known a refl) b p
  continued_ends (err e) h known next b p = cc

  pub then_ends :
      {Q : List Op → Type 0} {m : Io Op A} → Ensures Q m R → Ensures R n S → Ensures Q (m >> n) S
  then_ends {m = m} first next = record {
    ends = λ h q b p. continued_ends (m h).0 (m h).1 (λ a ran. first.ends h q a ran) next b p;
  }

relabel_ok : {A : Type 0} (f : Error → Error) (r : Result A) (a : A) → relabel f r ≡ ok a → r ≡ ok a
relabel_ok f (ok b) a p = p
relabel_ok f (err e) a p = cc

module _ {Op A : Type 0} {Q R : List Op → Type 0} where
  pub error_ends : (f : Error → Error) {m : Io Op A} → Ensures Q m R → Ensures Q (on_error f m) R
  error_ends f {m = m} first = record {
    ends = λ h q a p. first.ends h q a (relabel_ok f (m h).0 a p);
  }

pub kept_ends : {Op A : Type 0} {Q : List Op → Type 0} {m : Io Op A} → Preserves Q m → Ensures Q m Q
kept_ends first = record { ends = λ h q a p. first.preserves h q }

pub nothing_yet : {Op A : Type 0} (m : Io Op A) → Ensures (λ h. Unit {0}) m (λ h. Unit {0})
nothing_yet m = record { ends = λ h q a p. tt }
