-- ===== src/Locker/Writes.antt =====
-- Under which conditions `LockFor` and `Unlock` send an update of the lease.
use nodemanager.Common.{Bool, Bool-cases, Duration, Io, List, Option, Option-cases, Result}
use nodemanager.Common.{Result-cases, String, [], ap, ask, err, false, found, inl, inr}
use nodemanager.Common.{is_already_exists, is_conflict, is_not_found, none, ok, refl, some, suc}
use nodemanager.Common.{true, zero, ℕ, ◌>>◌, ◌∷◌, ◌≡◌, ◌⊎◌}
use nodemanager.Locker.{
  Finding, Lease, NamespacedName, Op, Outside, blank, claim, create_lease, created, expired,
  get_lease, held_by_me, held_by_other, inspect, is_me, lock_for, lock_rounds, nil_pointer,
  on_finding, on_owner, ongoing, read_clock, read_context, release, released, taken, unlock,
  unlock_rounds, update_lease, wait,
}

-- The call `op` was made when the log was `h`.
abbrev pub Sends : Op → List Op → List Op → Type 0
Sends op h [] = ⊥
Sends op h (made ∷ log) = ((made ≡ op) × (log ≡ h)) ⊎ Sends op h log

abbrev lease_of : Result Lease → Option Lease
lease_of (ok lease) = some lease
lease_of (err e) = none

-- The lease that the last read gave, and the last reading of the clock.
abbrev pub last_read : Outside → List Op → Option Lease
last_read o [] = none
last_read o (get_lease key ∷ h) = lease_of (o.get_answer h)
last_read o (_ ∷ h) = last_read o h

abbrev pub last_clock : Outside → List Op → ℕ
last_clock o [] = 0
last_clock o (read_clock ∷ h) = o.clock h
last_clock o (_ ∷ h) = last_clock o h

-- The call meets `P` with the log before it, and so does each one before.
abbrev pub AllCalls : (Op → List Op → Type 0) → List Op → Type 0
AllCalls P [] = Unit
AllCalls P (op ∷ h) = P op h × AllCalls P h

-- Each update by LockFor is of a lease that was read last and had run out at the clock's last
-- reading, and each one by Unlock of a lease that was read last and is this holder's; both carry
-- the resource version that was read.
abbrev pub LockGuard : Outside → Op → List Op → Type 0
LockGuard o (update_lease key written) h =
    (lease : Lease) × (last_read o h ≡ some lease)
    × (inspect o.id (last_clock o h) lease ≡ expired)
    × (written.resource_version ≡ lease.resource_version)
LockGuard o _ h = Unit

abbrev pub UnlockGuard : Outside → Op → List Op → Type 0
UnlockGuard o (update_lease key written) h =
    (lease : Lease) × (last_read o h ≡ some lease)
    × (is_me o.id lease.holder_identity ≡ true)
    × (written.resource_version ≡ lease.resource_version)
UnlockGuard o _ h = Unit

pub sent-AllCalls :
    (P : Op → List Op → Type 0) (op : Op) (h log : List Op)
    → Sends op h log
    → AllCalls P log
    → P op h
sent-AllCalls P op h [] sent all = elim sent [ ]
sent-AllCalls P op h (made ∷ log) (inl (same, below)) (first, all) = rw (same, below) at first
sent-AllCalls P op h (made ∷ log) (inr sent) (first, all) = sent-AllCalls P op h log sent all

version-claim :
    (id : String) (duration : Duration) (now : ℕ) (lease : Lease)
    → (claim id duration now lease).resource_version ≡ lease.resource_version
unfolding claim
version-claim id duration now lease = refl

version-release :
    (now : ℕ) (lease : Lease) → (release now lease).resource_version ≡ lease.resource_version
unfolding release
version-release now lease = refl

module _ (o : Outside) (key : NamespacedName) where
  abbrev AllLock : List Op → Type 0
  AllLock = AllCalls (LockGuard o)

  abbrev AllUnlock : List Op → Type 0
  AllUnlock = AllCalls (UnlockGuard o)

  read_ok :
      (h : List Op) (lease : Lease)
      → o.get_answer h ≡ ok lease
      → last_read o (read_clock ∷ get_lease key ∷ h) ≡ some lease
  read_ok h lease got = ap lease_of got

  module _ (duration : Duration) (now : ℕ) where
    taken-AllLock :
        (again : Io Op (Option (Unit {0}))) (r : Result (Unit {0})) (h : List Op)
        → AllLock h
        → ((h' : List Op) → AllLock h' → AllLock (again h').1)
        → AllLock (taken o key r again h).1
    taken-AllLock again (ok u) h q more = q
    taken-AllLock again (err e) h q more = elim (Bool-cases (is_conflict e)) [
      | inl retried ↦ rw retried (more h q)
      | inr final ↦ rw final q
    ]

    finding-AllLock :
        (f : Finding) (lease : Lease) (again : Io Op (Option (Unit {0}))) (h : List Op)
        → o.get_answer h ≡ ok lease
        → inspect o.id (o.clock (get_lease key ∷ h)) lease ≡ f
        → AllLock h
        → ((h' : List Op) → AllLock h' → AllLock (again h').1)
        → AllLock (on_finding o key f lease duration now again (read_clock ∷ get_lease key ∷ h)).1
    finding-AllLock held_by_me lease again h got found q more = (tt, (tt, q))
    finding-AllLock held_by_other lease again h got found q more = (tt, (tt, q))
    finding-AllLock nil_pointer lease again h got found q more = (tt, (tt, q))
    finding-AllLock expired lease again h got found q more =
        let h1 : List Op = read_clock ∷ get_lease key ∷ h in
        taken-AllLock again (o.update_answer h1)
          (update_lease key (claim o.id duration now lease) ∷ h1)
          (
            (lease, read_ok h lease got, found, version-claim o.id duration now lease),
            (tt, (tt, q)),
          )
          more

    rounds-AllLock :
        (fuel : ℕ) (h : List Op) → AllLock h → AllLock (lock_rounds o key fuel duration now h).1
    unfolding lock_rounds
    rounds-AllLock zero h q = q
    rounds-AllLock (suc fuel) h q = elim (Bool-cases (o.is_ongoing h)) [
      | inr over ↦ rw over (tt, q)
      | inl more ↦ elim (Result-cases (o.get_answer (ongoing ∷ h))) [
        | inr (e, failed) ↦ rw (more, failed) (tt, (tt, q))
        | inl (lease, got) ↦
            rw (more, got)
              (finding-AllLock (inspect o.id (o.clock (get_lease key ∷ ongoing ∷ h)) lease) lease
                (ask wait (λ _. tt {0}) >> lock_rounds o key fuel duration now) (ongoing ∷ h) got
                refl (tt, q) (λ h' q'. rounds-AllLock fuel (wait ∷ h') (tt, q')))
      ]
    ]

    created-AllLock :
        (fuel : ℕ) (r : Result (Unit {0})) (h : List Op)
        → AllLock h
        → AllLock (created o key fuel duration now r h).1
    created-AllLock fuel (ok u) h q = q
    created-AllLock fuel (err e) h q = elim (Bool-cases (is_already_exists e)) [
      | inl there ↦ rw there (rounds-AllLock fuel h q)
      | inr refused ↦ rw refused q
    ]

  pub lock_for-AllCalls :
      (fuel : ℕ) (duration : Duration) → AllCalls (LockGuard o) (lock_for o key fuel duration []).1
  unfolding lock_for
  lock_for-AllCalls fuel duration = elim (Option-cases (o.context_error [])) [
    | inr (e, cancelled) ↦ rw cancelled (tt, tt)
    | inl live ↦
        let h : List Op = read_clock ∷ read_context ∷ [] in
        let now : ℕ = o.clock (read_context ∷ []) in
        rw live (
          created-AllLock duration now fuel (o.create_answer h)
            (create_lease key (claim o.id duration now blank) ∷ h) (tt, (tt, (tt, tt))))
  ]

  released-AllUnlock :
      (again : Io Op (Option (Unit {0}))) (r : Result (Unit {0})) (h : List Op)
      → AllUnlock h
      → ((h' : List Op) → AllUnlock h' → AllUnlock (again h').1)
      → AllUnlock (released o key r again h).1
  released-AllUnlock again (ok u) h q more = q
  released-AllUnlock again (err e) h q more = elim (Bool-cases (is_conflict e)) [
    | inl retried ↦ rw retried (more h q)
    | inr final ↦ rw final q
  ]

  owner-AllUnlock :
      (mine : Bool) (lease : Lease) (again : Io Op (Option (Unit {0}))) (h : List Op)
      → o.get_answer h ≡ ok lease
      → is_me o.id lease.holder_identity ≡ mine
      → AllUnlock h
      → ((h' : List Op) → AllUnlock h' → AllUnlock (again h').1)
      → AllUnlock (on_owner o key mine lease again (get_lease key ∷ h)).1
  owner-AllUnlock false lease again h got me q more = (tt, q)
  owner-AllUnlock true lease again h got me q more =
      let h1 : List Op = read_clock ∷ get_lease key ∷ h in
      let now : ℕ = o.clock (get_lease key ∷ h) in
      released-AllUnlock again (o.update_answer h1) (update_lease key (release now lease) ∷ h1)
        ((lease, read_ok h lease got, me, version-release now lease), (tt, (tt, q))) more

  rounds-AllUnlock :
      (fuel : ℕ) (h : List Op) → AllUnlock h → AllUnlock (unlock_rounds o key fuel h).1
  unfolding unlock_rounds
  rounds-AllUnlock zero h q = q
  rounds-AllUnlock (suc fuel) h q = elim (Bool-cases (o.is_ongoing h)) [
    | inr over ↦ rw over (tt, q)
    | inl more ↦ elim (Result-cases (o.get_answer (ongoing ∷ h))) [
      | inr (e, failed) ↦ elim (Bool-cases (is_not_found e)) [
        | inl gone ↦ rw (more, failed, gone) (tt, (tt, q))
        | inr refused ↦ rw (more, failed, refused) (tt, (tt, q))
      ]
      | inl (lease, got) ↦
          rw (more, got)
            (owner-AllUnlock (is_me o.id lease.holder_identity) lease
              (ask wait (λ _. tt {0}) >> unlock_rounds o key fuel) (ongoing ∷ h) got refl (tt, q)
              (λ h' q'. rounds-AllUnlock fuel (wait ∷ h') (tt, q')))
    ]
  ]

  pub unlock-AllCalls : (fuel : ℕ) → AllCalls (UnlockGuard o) (unlock o key fuel []).1
  unfolding unlock
  unlock-AllCalls fuel = elim (Option-cases (o.context_error [])) [
    | inr (e, cancelled) ↦ rw cancelled (tt, tt)
    | inl live ↦ rw live (rounds-AllUnlock fuel (read_context ∷ []) (tt, tt))
  ]
