-- ===== src/Tests/Locker.antt =====
-- One lock, taken, refused and given up.
use nodemanager.Common.{Error, List, String, [], already_exists, arith, err, false}
use nodemanager.Common.{if◌then◌else◌, inl, ltb, nat_eq, none, ok, pos, refl, second, some}
use nodemanager.Common.{true, ℕ, ◌*◌, ◌+◌, ◌∷◌, ◌≡◌, ◌≢◌, ◌≤◌, ◌⊎◌}
use nodemanager.Api.{NamespacedName}
use nodemanager.Locker.{
  Lease, Op, Outside, blank, claim, conflict_error, get_lease, inspect, lock_for, lock_rounds,
  ongoing, read_clock, read_context, release, unlock, unlock_rounds,
}
use nodemanager.Locker.Acquire.{
  EndsAcquired, HasRunOut, lock_for-EndsAcquired, rounds_suffice, waits,
}
use nodemanager.Locker.Contention.{
  Cluster, IsReleaseBy, Reach, Step, creates, held_lease_stays, put_seen, reads, stamped, start,
  starts, steps, unlocks, write,
}
use nodemanager.Locker.Release.{released_lease_refused}

abbrev key : NamespacedName
key = record { namespace = "nodemanager"; name = "workers" }

abbrev now : ℕ
now = 1000000 * second

-- Held by n1, for a day.
abbrev day : Lease
day = record {
  holder_identity = some "n1";
  lease_duration_seconds = some (pos 86400);
  acquire_time = some now;
  renew_time = some now;
  resource_version = 7;
}

abbrev exists : Error
exists = record { kind = already_exists; text = "exists" }

-- n2 finds the lease of n1, which n1 has released at once.
abbrev n2 : Outside
n2 = record {
  id = "n2";
  lease_duration = pos (420 * second);
  context_error = λ h. none;
  clock = λ h. now;
  create_answer = λ h. err exists;
  get_answer = λ h. ok (release now day);
  update_answer = λ h. ok tt;
  is_ongoing = λ h. ltb (waits h) 3;
}

-- As n2, a day later.
abbrev n2_later : Outside
n2_later = record n2 { clock = λ h. now + 90000 * second }

taken_over : (lock_for n2_later key 2 n2.lease_duration []).0 ≡ ok (some tt)
unfolding lock_for lock_rounds inspect claim release
taken_over = refl

lock_for-EndsAcquired_example :
    EndsAcquired n2_later key (lock_for n2_later key 2 n2.lease_duration []).1
lock_for-EndsAcquired_example = lock_for-EndsAcquired n2_later key 2 n2.lease_duration [] taken_over

stops : (h : List Op) → 3 ≤ waits h → ltb (waits h) 3 ≡ false
stops h enough = ground arith

rounds_suffice_example :
    ((lock_for n2 key 4 (pos second) []).0 ≢ ok none) × ((unlock n2 key 4 []).0 ≢ ok none)
rounds_suffice_example = rounds_suffice n2 key 3 stops (pos second) []

released_lease_refused_example :
    (lock_for (record n2 { is_ongoing = λ h. true }) key 4 (pos second) []).0
    ≡ err (conflict_error "lock held by another instance and not expired")
released_lease_refused_example =
    released_lease_refused (record n2 { is_ongoing = λ h. true }) key 3 now 86400 day (pos second)
      [] "exists" refl (omega arith) (λ h. refl) (λ h. refl) (λ h. refl) (λ h. refl)
      (λ h. omega arith)

-- Instance 1 creates the lease, reads it and gives it up.
abbrev named : ℕ → String
named i = if nat_eq i 1 then "n1" else "n2"

abbrev created : Lease
created = claim "n1" (pos (420 * second)) 0 blank

abbrev held : Lease
held = stamped 1 created

-- What instance 1 meets: no lease at first, then its own.
abbrev n1 : Outside
n1 = record {
  id = "n1";
  lease_duration = pos (420 * second);
  context_error = λ h. none;
  clock = λ h. 0;
  create_answer = λ h. ok tt;
  get_answer = λ h. ok held;
  update_answer = λ h. ok tt;
  is_ongoing = λ h. true;
}

abbrev after_create : Cluster
after_create = write created start

abbrev after_read : Cluster
after_read = record after_create { seen = put_seen 1 held after_create.seen }

unfoldable creation : Step named key start after_create
unfolding lock_for
creation =
    creates 1 n1 2 (pos (420 * second)) (read_clock ∷ read_context ∷ []) created start refl
      (inl (refl, refl)) refl

unfoldable reading : Step named key after_create after_read
reading = reads 1 held after_create refl

reached : Reach named key after_read
reached = steps after_create after_read (steps start after_create starts creation) reading

unfoldable given_up : Step named key after_read (write (release 0 held) after_read)
unfolding claim release unlock unlock_rounds
given_up =
    unlocks 1 n1 2 (read_clock ∷ get_lease key ∷ ongoing ∷ read_context ∷ []) (release 0 held) held
      after_read refl (inl (refl, refl)) refl refl refl

still_fresh : ¬ HasRunOut 0 held.renew_time held.lease_duration_seconds
unfolding claim
still_fresh late = omega arith

held_by_n1 : held.holder_identity ≡ some "n1"
unfolding claim
held_by_n1 = refl

held_lease_stays_example :
    ((write (release 0 held) after_read).store ≡ some held) ⊎ IsReleaseBy "n1" given_up
held_lease_stays_example =
    held_lease_stays named key after_read (write (release 0 held) after_read) "n1" held reached
      given_up refl held_by_n1 still_fresh
