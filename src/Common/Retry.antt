-- ===== src/Common/Retry.antt =====
-- `retry.RetryOnConflict` of client-go, by what its documentation says: the function runs, and runs
-- again while it ends in a conflict and tries are left.
use Prim.Native.Nat.{suc, zero, ℕ}
use mathlib.Core.List.{List}
use mathlib.Core.Logic.{inl, inr}
use mathlib.Core.Path.{◌≡◌}
use nodemanager.Common.Effects.{Io}
use nodemanager.Common.Errors.{Result, err, is_conflict, ok}
use nodemanager.Common.Rules.{Preserves}
use nodemanager.Common.Tests.{Bool-cases, if◌then◌else◌}

module _ {Op : Type 0} where
  abbrev again : Result (Unit {0}) → Io Op (Unit {0}) → Io Op (Unit {0})
  again (ok a) next h = (ok a, h)
  again (err e) next h = let rest = next h in if is_conflict e then rest else (err e, h)

  -- At most `n` tries after the first.
  unfoldable pub tries : ℕ → Io Op (Unit {0}) → Io Op (Unit {0})
  tries zero m h = m h
  tries (suc n) m h = let (r, h') = m h in again r (tries n m) h'

  abbrev pub IsRetry : (Io Op (Unit {0}) → Io Op (Unit {0})) → Type 0
  IsRetry retry = (m : Io Op (Unit {0})) (h : List Op) → (n : ℕ) × (retry m h ≡ tries n m h)

module _ {Op : Type 0} {Q : List Op → Type 0} where
  tried_again :
      (r : Result (Unit {0})) (next : Io Op (Unit {0})) (h : List Op)
      → Preserves Q next
      → Q h
      → Q (again r next h).1
  tried_again (ok a) next h more q = q
  tried_again (err e) next h more q = elim (Bool-cases (is_conflict e)) [
    | inl retried ↦ rw retried (more.preserves h q)
    | inr final ↦ rw final q
  ]

  of_tries : (n : ℕ) {m : Io Op (Unit {0})} → Preserves Q m → Preserves Q (tries n m)
  unfolding tries
  of_tries zero one = one
  of_tries (suc n) {m} one = record {
    preserves = λ h q. tried_again (m h).0 (tries n m) (m h).1 (of_tries n one) (one.preserves h q);
  }

  -- What each try keeps, the retries keep.
  pub of_retry :
      {retry : Io Op (Unit {0}) → Io Op (Unit {0})} {m : Io Op (Unit {0})}
      → IsRetry retry
      → Preserves Q m
      → Preserves Q (retry m)
  of_retry {m = m} is one = record {
    preserves = λ h q. let (n, e) = is m h in rw e ((of_tries n one).preserves h q);
  }
