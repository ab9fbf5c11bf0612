-- ===== src/Locker/Contention.antt =====
-- Several instances of the locker on one Lease: each write in the cluster is one that a run of the
-- code of LockFor or Unlock sends. The API server is taken as it is documented: a lease is created
-- if there is none, and an update is accepted if the resource version that it carries is the
-- current one; a write gets a new version. Between the read of a lease and its update an instance
-- may be overtaken by any others. All instances read one clock. The deletion of a lease, which no
-- instance asks for, is left out.
use nodemanager.Common.{Bool-cases, Duration, List, Option, String, [], ap, arith}
use nodemanager.Common.{if◌then◌else◌, inl, inr, nat_eq, negsuc, none, pos, some, suc, sym}
use nodemanager.Common.{true, ℕ, ◌+◌, ◌∙◌, ◌≡◌, ◌≤◌, ◌⊎◌}
use nodemanager.Locker.{
  Lease, NamespacedName, Op, Outside, create_lease, expired, inspect, is_me, lock_for, unlock,
  update_lease,
}
use nodemanager.Locker.Acquire.{HasRunOut, inspect_expired, is_me_holder}
use nodemanager.Locker.Writes.{
  LockGuard, Sends, UnlockGuard, last_clock, last_read, lock_for-AllCalls, sent-AllCalls,
  unlock-AllCalls,
}

pub record Cluster : Type 0 where
  pub store : Option Lease
  pub version : ℕ
  pub now : ℕ
  pub seen : ℕ → Option Lease

abbrev pub stamped : ℕ → Lease → Lease
stamped v lease = record lease { resource_version = v }

abbrev pub start : Cluster
start = record { store = none; version = 0; now = 0; seen = λ i. none }

abbrev pub put_seen : ℕ → Lease → (ℕ → Option Lease) → ℕ → Option Lease
put_seen i lease seen j = if nat_eq i j then some lease else seen j

-- The server after a write.
abbrev pub write : Lease → Cluster → Cluster
write lease s = record s { store = some (stamped (suc s.version) lease); version = suc s.version }

-- An accepted call. A write is one that a run of the code by instance `i`, whose identity is `id
-- i`, sends when its log is `h`: what the run read last is what the instance has seen, and the time
-- that it read last is not ahead of the clock.
pub data Step (id : ℕ → String) (key : NamespacedName) : Cluster → Cluster → Type 0 where
  passes : (d : ℕ) (s : Cluster) → Step id key s (record s { now = s.now + d })
  reads :
      (i : ℕ) (lease : Lease) (s : Cluster)
      → s.store ≡ some lease
      → Step id key s (record s { seen = put_seen i lease s.seen })
  creates :
      (i : ℕ) (o : Outside) (fuel : ℕ) (d : Duration) (h : List Op) (written : Lease) (s : Cluster)
      → o.id ≡ id i
      → Sends (create_lease key written) h (lock_for o key fuel d []).1
      → s.store ≡ none
      → Step id key s (write written s)
  locks :
      (i : ℕ) (o : Outside) (fuel : ℕ) (d : Duration) (h : List Op) (written current : Lease)
      (s : Cluster)
      → o.id ≡ id i
      → Sends (update_lease key written) h (lock_for o key fuel d []).1
      → last_read o h ≡ s.seen i
      → last_clock o h ≤ s.now
      → s.store ≡ some current
      → current.resource_version ≡ written.resource_version
      → Step id key s (write written s)
  unlocks :
      (i : ℕ) (o : Outside) (fuel : ℕ) (h : List Op) (written current : Lease) (s : Cluster)
      → o.id ≡ id i
      → Sends (update_lease key written) h (unlock o key fuel []).1
      → last_read o h ≡ s.seen i
      → s.store ≡ some current
      → current.resource_version ≡ written.resource_version
      → Step id key s (write written s)

pub data Reach (id : ℕ → String) (key : NamespacedName) : Cluster → Type 0 where
  starts : Reach id key start
  steps : (s t : Cluster) → Reach id key s → Step id key s t → Reach id key t

-- A version names one content, and no version is ahead of the server's.
abbrev IsConsistent : Cluster → Type 0
IsConsistent s =
    ((lease : Lease) → s.store ≡ some lease → lease.resource_version ≤ s.version)
    × ((i : ℕ) (lease : Lease) → s.seen i ≡ some lease → lease.resource_version ≤ s.version)
    × ((i : ℕ) (lease current : Lease)
        → s.seen i ≡ some lease
        → s.store ≡ some current
        → current.resource_version ≡ lease.resource_version
        → current ≡ lease)

some_eq : {A : Type 0} (a b : A) → Path (Option A) (some a) (some b) → a ≡ b
some_eq a b p = cc

version_of :
    (x l : Lease) → Path (Option Lease) (some x) (some l) → l.resource_version ≡ x.resource_version
version_of x l p = ap (λ (y : Lease). y.resource_version) (sym (some_eq x l p))

at_most : {a b : ℕ} → a ≡ b → a ≤ b
at_most same = omega arith

ahead : {a b n : ℕ} → a ≡ suc n → b ≤ n → a ≡ b → ⊥
ahead new old same = omega arith

write-IsConsistent : (lease : Lease) (s : Cluster) → IsConsistent s → IsConsistent (write lease s)
write-IsConsistent lease s (stored, seen, one) =
    let new : Lease = stamped (suc s.version) lease in
    (
      (λ l p. at_most (version_of new l p)),
      (λ i l p. later (seen i l p)),
      (λ i l c p q e. absurd (ahead (version_of new c q) (seen i l p) e)),
    )
  where
    later : {a b : ℕ} → a ≤ b → a ≤ suc b
    later less = omega arith

read-IsConsistent :
    (i : ℕ) (lease : Lease) (s : Cluster)
    → s.store ≡ some lease
    → IsConsistent s
    → IsConsistent (record s { seen = put_seen i lease s.seen })
read-IsConsistent i lease s there (stored, seen, one) = (
  stored,
  (λ j l p. elim (Bool-cases (nat_eq i j)) [
    | inl here ↦ stored l (there ∙ (rw here at p))
    | inr apart ↦ seen j l (rw apart at p)
  ]),
  (λ j l c p q e. elim (Bool-cases (nat_eq i j)) [
    | inl here ↦ some_eq c l (sym q ∙ there ∙ (rw here at p))
    | inr apart ↦ one j l c (rw apart at p) q e
  ]),
)

step-IsConsistent :
    (id : ℕ → String) (key : NamespacedName) (s t : Cluster)
    → Step id key s t
    → IsConsistent s
    → IsConsistent t
step-IsConsistent id key s _ (passes d _) all = all
step-IsConsistent id key s _ (reads i lease _ p) all = read-IsConsistent i lease s p all
step-IsConsistent id key s _ (creates i o fuel d h written _ p q r) all =
    write-IsConsistent written s all
step-IsConsistent id key s _ (locks i o fuel d h written current _ p q r u v w) all =
    write-IsConsistent written s all
step-IsConsistent id key s _ (unlocks i o fuel h written current _ p q r u v) all =
    write-IsConsistent written s all

reach-IsConsistent :
    (id : ℕ → String) (key : NamespacedName) (s : Cluster) → Reach id key s → IsConsistent s
reach-IsConsistent id key s starts = ((λ l p. cc), (λ i l p. cc), (λ i l c p q e. cc))
reach-IsConsistent id key s (steps before _ earlier step) =
    step-IsConsistent id key before s step (reach-IsConsistent id key before earlier)

run_out_later :
    (at now : ℕ) (renewed : Option ℕ) (seconds : Option Duration)
    → at ≤ now
    → HasRunOut at renewed seconds
    → HasRunOut now renewed seconds
run_out_later at now (some r) (some (pos n)) less out = omega arith
run_out_later at now (some r) (some (negsuc n)) less out = omega arith
run_out_later at now (some r) none less out = out
run_out_later at now none seconds less out = out

-- An update by a run of Unlock by the instance of this identity.
abbrev pub IsReleaseBy :
    {id : ℕ → String} {key : NamespacedName} {s t : Cluster} → String → Step id key s t → Type 0
IsReleaseBy {id = id} holder (unlocks i o fuel h written current s p q r u v) = id i ≡ holder
IsReleaseBy holder _ = ⊥

-- The lease as an instance read it, at the version of the stored one.
read_is_held :
    (id : ℕ → String) (key : NamespacedName) (s : Cluster) (i : ℕ) (lease current held : Lease)
    → Reach id key s
    → s.seen i ≡ some lease
    → s.store ≡ some current
    → current.resource_version ≡ lease.resource_version
    → s.store ≡ some held
    → lease ≡ held
read_is_held id key s i lease current held reached p r e there =
    sym ((reach-IsConsistent id key s reached).2 i lease current p r e)
    ∙ some_eq current held (sym r ∙ there)

expired-HasRunOut :
    (id : String) (at now : ℕ) (lease held : Lease)
    → lease ≡ held
    → at ≤ now
    → inspect id at lease ≡ expired
    → HasRunOut now held.renew_time held.lease_duration_seconds
expired-HasRunOut id at now lease held same less out =
    run_out_later at now held.renew_time held.lease_duration_seconds less
      (inspect_expired id at held (rw same at out))

same_holder :
    (id holder : String) (lease held : Lease)
    → lease ≡ held
    → is_me id lease.holder_identity ≡ true
    → held.holder_identity ≡ some holder
    → id ≡ holder
same_holder id holder lease held same mine named =
    let mine' : is_me id held.holder_identity ≡ true = rw same at mine in
    let named' : held.holder_identity ≡ some id = is_me_holder id held.holder_identity mine' in cc

module _ (id : ℕ → String) (key : NamespacedName) where
  -- In every state that accepted calls lead to, whose writes runs of LockFor and Unlock by any
  -- instances send, in any order and with any time between a read and its update: a lease that has
  -- a holder and has not run out is still the same after the next accepted call, unless this is an
  -- update by a run of Unlock by its holder.
  pub held_lease_stays :
      (s t : Cluster) (holder : String) (held : Lease)
      → Reach id key s
      → (step : Step id key s t) → s.store ≡ some held
      → held.holder_identity ≡ some holder
      → ¬ HasRunOut s.now held.renew_time held.lease_duration_seconds
      → (t.store ≡ some held) ⊎ IsReleaseBy holder step
  held_lease_stays s _ holder held reached (passes d _) there named fresh = inl there
  held_lease_stays s _ holder held reached (reads i lease _ p) there named fresh = inl there
  held_lease_stays s _ holder held reached (creates i o fuel d h written _ p q r) there named
        fresh =
      cc
  held_lease_stays s _ holder held reached (locks i o fuel d h written current _ p q r less v w)
        there named fresh =
      let (lease, read, out, version) =
        sent-AllCalls (LockGuard o) (update_lease key written) h (lock_for o key fuel d []).1 q
          (lock_for-AllCalls o key fuel d) in
      let same : lease ≡ held =
        read_is_held id key s i lease current held reached (sym r ∙ read) v (w ∙ version) there in
      absurd (fresh (expired-HasRunOut o.id (last_clock o h) s.now lease held same less out))
  held_lease_stays s _ holder held reached (unlocks i o fuel h written current _ p q r v w) there
        named fresh =
      let (lease, read, mine, version) =
        sent-AllCalls (UnlockGuard o) (update_lease key written) h (unlock o key fuel []).1 q
          (unlock-AllCalls o key fuel) in
      let same : lease ≡ held =
        read_is_held id key s i lease current held reached (sym r ∙ read) v (w ∙ version) there in
      inr (sym p ∙ same_holder o.id holder lease held same mine named)
