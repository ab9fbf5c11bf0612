-- ===== src/Locker.antt =====
-- pkg/locker/leaselocker.go: a lock that is a Lease of the cluster. The API server and the backoff
-- of dskit are the outside; every call is logged. Text of log lines is left out.
pub mod Acquire
pub mod Release
pub mod Writes
pub mod Contention
use nodemanager.Common.{Bool, Duration, Error, Io, List, Option, Result, String, add_before}
use nodemanager.Common.{ask, attempt, conflict, err, false, if◌then◌else◌, is_already_exists}
use nodemanager.Common.{is_conflict, is_not_found, nat_eq, negsuc, new_error, none, not, ok}
use nodemanager.Common.{perform, pos, pure, raise, second, some, suc, true, zero, ℕ, ◌*◌, ◌-◌}
use nodemanager.Common.{◌/◌, ◌==◌, ◌>>=◌, ◌>>◌}
use nodemanager.Api.{NamespacedName}

-- The `Spec` and the resource version of a `coordinationv1.Lease`; a nil pointer is `none`.
pub record Lease : Type 0 where
  pub holder_identity : Option String
  pub lease_duration_seconds : Option Duration
  pub acquire_time : Option ℕ
  pub renew_time : Option ℕ
  pub resource_version : ℕ

pub data Op : Type 0 where
  read_context : Op
  read_clock : Op
  create_lease : NamespacedName → Lease → Op
  get_lease : NamespacedName → Op
  update_lease : NamespacedName → Lease → Op
  ongoing : Op
  wait : Op

pub record Outside : Type 0 where
  pub id : String
  pub lease_duration : Duration
  pub context_error : List Op → Option Error
  pub clock : List Op → ℕ
  pub create_answer : List Op → Result (Unit {0})
  pub get_answer : List Op → Result Lease
  pub update_answer : List Op → Result (Unit {0})
  pub is_ongoing : List Op → Bool

-- `int32(duration.Seconds())`: whole seconds, towards zero. What the conversion gives for 2 ^ 31
-- seconds or more, such as the time until the zero time, Go leaves to the implementation; here the
-- number stays as it is.
unfoldable pub whole_seconds : Duration → Duration
whole_seconds (pos d) = pos (d / second)
whole_seconds (negsuc d) = let s = suc d / second in if nat_eq s 0 then pos 0 else negsuc (s - 1)

-- `time.Duration(seconds) * time.Second`
unfoldable pub from_seconds : Duration → Duration
from_seconds (pos n) = pos (n * second)
from_seconds (negsuc n) = negsuc (suc n * second - 1)

-- What `LockFor` makes of a lease that it has read.
pub data Finding : Type 0 where
  held_by_me held_by_other expired nil_pointer : Finding

abbrev pub is_me : String → Option String → Bool
is_me id none = false
is_me id (some holder) = holder == id

abbrev pub judge : Bool → Bool → Finding
judge mine over = if mine then held_by_me else if not over then held_by_other else expired

-- `isExpired` is computed first, and reads through both pointers.
abbrev pub inspect_times : Bool → ℕ → Option ℕ → Option Duration → Finding
inspect_times mine now (some renewed) (some seconds) =
    judge mine (add_before renewed (from_seconds seconds) now)
inspect_times mine now (some renewed) none = nil_pointer
inspect_times mine now none seconds = nil_pointer

unfoldable pub inspect : String → ℕ → Lease → Finding
unfolding from_seconds
inspect id now lease =
    inspect_times (is_me id lease.holder_identity) now lease.renew_time lease.lease_duration_seconds

-- The lease with the lock's data in it; its resource version stays.
unfoldable pub claim : String → Duration → ℕ → Lease → Lease
unfolding whole_seconds
claim id duration now lease = record lease {
  holder_identity = some id;
  lease_duration_seconds = some (whole_seconds duration);
  acquire_time = some now;
  renew_time = some now;
}

abbrev pub blank : Lease
blank = record {
  holder_identity = none;
  lease_duration_seconds = none;
  acquire_time = none;
  renew_time = none;
  resource_version = 0;
}

abbrev pub two_hours : ℕ
two_hours = 7200 * second

-- The lease that `Unlock` writes.
unfoldable pub release : ℕ → Lease → Lease
release now lease = record lease { holder_identity = none; renew_time = some (now - two_hours) }

abbrev pub conflict_error : String → Error
conflict_error text = record { kind = conflict; text = text }

-- `if ctx.Err() != nil { return ctx.Err() }`
abbrev check_context : Option Error → Io Op (Unit {0})
check_context none = pure tt
check_context (some e) = raise e

module _ (o : Outside) (key : NamespacedName) where
  -- After the update of an expired lease: success, another error, or one more round.
  abbrev taken : Result (Unit {0}) → Io Op (Option (Unit {0})) → Io Op (Option (Unit {0}))
  taken (ok u) again = pure (some tt)
  taken (err e) again = if not (is_conflict e) then raise e else again

  abbrev on_finding :
      Finding → Lease → Duration → ℕ → Io Op (Option (Unit {0})) → Io Op (Option (Unit {0}))
  on_finding held_by_me lease duration now again = pure (some tt)
  on_finding held_by_other lease duration now again =
      raise (conflict_error "lock held by another instance and not expired")
  on_finding nil_pointer lease duration now again = raise (new_error "nil pointer dereference")
  on_finding expired lease duration now again = do
    r ← attempt (perform (update_lease key (claim o.id duration now lease)) o.update_answer)
    taken r again

  -- The retry loop; `now` was read before it. `fuel` bounds the rounds, `none` says it ran out.
  unfoldable pub lock_rounds : ℕ → Duration → ℕ → Io Op (Option (Unit {0}))
  lock_rounds zero duration now = pure none
  lock_rounds (suc fuel) duration now = do
    go_on ← ask ongoing o.is_ongoing
    let again = (ask wait (λ _. tt {0}) >> lock_rounds fuel duration now)
    if not go_on
        then raise
            (conflict_error "failed to acquire lock after multiple retries due to contention")
        else do
          lease ← perform (get_lease key) o.get_answer
          at ← ask read_clock o.clock
          on_finding (inspect o.id at lease) lease duration now again

  abbrev created : ℕ → Duration → ℕ → Result (Unit {0}) → Io Op (Option (Unit {0}))
  created fuel duration now (ok u) = pure (some tt)
  created fuel duration now (err e) =
      if not (is_already_exists e) then raise e else lock_rounds fuel duration now

  unfoldable pub lock_for : ℕ → Duration → Io Op (Option (Unit {0}))
  lock_for fuel duration = do
    cancelled ← ask read_context o.context_error
    check_context cancelled
    now ← ask read_clock o.clock
    r ← attempt (perform (create_lease key (claim o.id duration now blank)) o.create_answer)
    created fuel duration now r

  unfoldable pub lock : ℕ → Io Op (Option (Unit {0}))
  lock fuel = lock_for fuel o.lease_duration

  abbrev released : Result (Unit {0}) → Io Op (Option (Unit {0})) → Io Op (Option (Unit {0}))
  released (ok u) again = pure (some tt)
  released (err e) again = if not (is_conflict e) then raise e else again

  abbrev on_owner : Bool → Lease → Io Op (Option (Unit {0})) → Io Op (Option (Unit {0}))
  on_owner false lease again = pure (some tt)
  on_owner true lease again = do
    now ← ask read_clock o.clock
    r ← attempt (perform (update_lease key (release now lease)) o.update_answer)
    released r again

  abbrev read_for_unlock : Result Lease → Io Op (Option (Unit {0})) → Io Op (Option (Unit {0}))
  read_for_unlock (err e) again = if is_not_found e then pure (some tt) else raise e
  read_for_unlock (ok lease) again = on_owner (is_me o.id lease.holder_identity) lease again

  unfoldable pub unlock_rounds : ℕ → Io Op (Option (Unit {0}))
  unlock_rounds zero = pure none
  unlock_rounds (suc fuel) = do
    go_on ← ask ongoing o.is_ongoing
    let again = (ask wait (λ _. tt {0}) >> unlock_rounds fuel)
    if not go_on
        then raise
            (conflict_error "failed to release lock after multiple retries due to contention")
        else do r ← attempt (perform (get_lease key) o.get_answer); read_for_unlock r again

  unfoldable pub unlock : ℕ → Io Op (Option (Unit {0}))
  unlock fuel = do
    cancelled ← ask read_context o.context_error
    check_context cancelled
    unlock_rounds fuel

  abbrev is_held : Result Lease → Bool
  is_held (err e) = false
  is_held (ok lease) = is_me o.id lease.holder_identity

  unfoldable pub locked : Io Op Bool
  locked = do r ← attempt (perform (get_lease key) o.get_answer); pure (is_held r)
