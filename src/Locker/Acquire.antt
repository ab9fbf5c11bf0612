-- ===== src/Locker/Acquire.antt =====
-- When `LockFor` reports success, and that it ends.
use nodemanager.Common.{Bool, Bool-cases, Duration, List, Option, Result, Result-cases, String}
use nodemanager.Common.{[], ap, arith, ask, eq_iff, err, false, inl, inr, ltb, negsuc, none, ok}
use nodemanager.Common.{pos, refl, second, some, suc, true, zero, ℕ, ◌*◌, ◌+◌, ◌-◌, ◌<◌, ◌>>◌}
use nodemanager.Common.{◌∷◌, ◌≡◌, ◌≢◌, ◌≤◌}
use nodemanager.Api.{NamespacedName}
use nodemanager.Locker.{
  Lease, Op, Outside, blank, claim, create_lease, expired, from_seconds, get_lease, held_by_me,
  inspect, inspect_times, is_me, judge, lock_for, lock_rounds, on_finding, ongoing, read_clock,
  read_context, release, unlock, unlock_rounds, update_lease, wait,
}

-- The lease was renewed more than its duration before `now`.
abbrev pub HasRunOut : ℕ → Option ℕ → Option Duration → Type 0
HasRunOut now (some renewed) (some (pos n)) = renewed + n * second < now
HasRunOut now (some renewed) (some (negsuc n)) = renewed < now + suc n * second
HasRunOut now renewed seconds = ⊥

-- The lease that a call gave is this one's, or has run out at `now`.
abbrev IsMine : Outside → Result Lease → Type 0
IsMine o (ok lease) = lease.holder_identity ≡ some o.id
IsMine o (err e) = ⊥

abbrev IsTakenOver : Outside → ℕ → Lease → Result Lease → Type 0
IsTakenOver o now written (ok lease) =
    HasRunOut now lease.renew_time lease.lease_duration_seconds
    × (written.holder_identity ≡ some o.id)
    × (written.resource_version ≡ lease.resource_version)
IsTakenOver o now written (err e) = ⊥

pub is_me_holder :
    (id : String) (holder : Option String) → is_me id holder ≡ true → holder ≡ some id
is_me_holder id none p = cc
is_me_holder id (some holder) p = ap some ((eq_iff holder id).0 p)

judge_mine : (mine over : Bool) → judge mine over ≡ held_by_me → mine ≡ true
judge_mine true over p = refl
judge_mine false true p = cc
judge_mine false false p = cc

judge_expired : (mine over : Bool) → judge mine over ≡ expired → over ≡ true
judge_expired true over p = cc
judge_expired false true p = refl
judge_expired false false p = cc

times_mine :
    (mine : Bool) (now : ℕ) (renewed : Option ℕ) (seconds : Option Duration)
    → inspect_times mine now renewed seconds ≡ held_by_me
    → mine ≡ true
times_mine mine now none seconds p = cc
times_mine mine now (some r) none p = cc
times_mine mine now (some r) (some d) p = judge_mine mine _ p

times_expired :
    (mine : Bool) (now : ℕ) (renewed : Option ℕ) (seconds : Option Duration)
    → inspect_times mine now renewed seconds ≡ expired
    → HasRunOut now renewed seconds
unfolding from_seconds
times_expired mine now none seconds p = cc
times_expired mine now (some r) none p = cc
times_expired mine now (some r) (some (pos n)) p =
    let over : ltb (r + n * second) now ≡ true = judge_expired mine _ p in ground arith
times_expired mine now (some r) (some (negsuc n)) p =
    let over : ltb r (now + suc (suc n * second - 1)) ≡ true = judge_expired mine _ p in
    ground arith

inspect_mine :
    (id : String) (now : ℕ) (lease : Lease)
    → inspect id now lease ≡ held_by_me
    → lease.holder_identity ≡ some id
unfolding inspect
inspect_mine id now lease p = is_me_holder id lease.holder_identity (
    times_mine (is_me id lease.holder_identity) now lease.renew_time lease.lease_duration_seconds p)

pub inspect_expired :
    (id : String) (now : ℕ) (lease : Lease)
    → inspect id now lease ≡ expired
    → HasRunOut now lease.renew_time lease.lease_duration_seconds
unfolding inspect
inspect_expired id now lease p =
    times_expired (is_me id lease.holder_identity) now lease.renew_time lease.lease_duration_seconds
      p

-- How a log ends that acquires the lock of the key: its lease was created with this holder; or it
-- was read and is this holder's; or it was read, had run out, and was updated to this holder at the
-- resource version that was read.
abbrev pub EndsAcquired : Outside → NamespacedName → List Op → Type 0
EndsAcquired o key (create_lease k lease ∷ h) =
    (k ≡ key) × (lease.holder_identity ≡ some o.id) × (o.create_answer h ≡ ok tt)
EndsAcquired o key (read_clock ∷ get_lease k ∷ h) = (k ≡ key) × IsMine o (o.get_answer h)
EndsAcquired o key (update_lease k lease ∷ read_clock ∷ get_lease k' ∷ h) =
    (k ≡ key)
    × (k' ≡ key)
    × (o.update_answer (read_clock ∷ get_lease k' ∷ h) ≡ ok tt)
    × IsTakenOver o (o.clock (get_lease k' ∷ h)) lease (o.get_answer h)
EndsAcquired o key _ = ⊥

-- How often the backoff was waited for.
abbrev pub waits : List Op → ℕ
waits [] = 0
waits (wait ∷ h) = suc (waits h)
waits (_ ∷ h) = waits h

claim_lem :
    (id : String) (duration : Duration) (now : ℕ) (lease : Lease)
    → ((claim id duration now lease).holder_identity ≡ some id)
      × ((claim id duration now lease).resource_version ≡ lease.resource_version)
unfolding claim
claim_lem id duration now lease = (refl, refl)

module _ (o : Outside) (key : NamespacedName) (duration : Duration) (now : ℕ) where
  -- One round, below the check of the backoff.
  round-EndsAcquired :
      (fuel : ℕ) (h : List Op) (lease : Lease)
      → o.get_answer h ≡ ok lease
      → ((h' : List Op)
          → (lock_rounds o key fuel duration now h').0 ≡ ok (some tt)
          → EndsAcquired o key (lock_rounds o key fuel duration now h').1)
      → let at = o.clock (get_lease key ∷ h) in
        let again = (ask wait (λ _. tt {0}) >> lock_rounds o key fuel duration now) in
        let run =
          on_finding o key
            (inspect o.id at lease)
            lease
            duration
            now
            again
            (read_clock ∷ get_lease key ∷ h) in
        run.0 ≡ ok (some tt) → EndsAcquired o key run.1
  round-EndsAcquired fuel h lease got later done =
      let before : List Op = read_clock ∷ get_lease key ∷ h in
      ground (
        arith,
        claim_lem o.id duration now lease,
        inspect_mine o.id (o.clock (get_lease key ∷ h)) lease,
        inspect_expired o.id (o.clock (get_lease key ∷ h)) lease,
        later (wait ∷ update_lease key (claim o.id duration now lease) ∷ before),
      )

  lock_rounds-EndsAcquired :
      (fuel : ℕ) (h : List Op)
      → (lock_rounds o key fuel duration now h).0 ≡ ok (some tt)
      → EndsAcquired o key (lock_rounds o key fuel duration now h).1
  unfolding lock_rounds
  lock_rounds-EndsAcquired zero h done = cc
  lock_rounds-EndsAcquired (suc fuel) h done = elim (Bool-cases (o.is_ongoing h)) [
    | inr over ↦ cc (rw over at done)
    | inl more ↦ elim (Result-cases (o.get_answer (ongoing ∷ h))) [
      | inr (e, failed) ↦ cc (rw (more, failed) at done)
      | inl (lease, got) ↦
          rw (more, got)
            (round-EndsAcquired fuel (ongoing ∷ h) lease got (lock_rounds-EndsAcquired fuel)
              (rw (more, got) at done))
    ]
  ]

module _ (o : Outside) (key : NamespacedName) where
  -- If the lock of a key is reported as acquired, then the lease of this key was created with this
  -- holder, or was read and found to be this holder's, or was read, had run out and was taken over
  -- at the version that was read.
  pub lock_for-EndsAcquired :
      (fuel : ℕ) (duration : Duration) (h : List Op)
      → (lock_for o key fuel duration h).0 ≡ ok (some tt)
      → EndsAcquired o key (lock_for o key fuel duration h).1
  unfolding lock_for
  lock_for-EndsAcquired fuel duration h done =
      let h1 : List Op = read_context ∷ h in
      let now : ℕ = o.clock h1 in
      let mine : Lease = claim o.id duration now blank in
      ground (
        arith,
        claim_lem o.id duration now blank,
        lock_rounds-EndsAcquired o key duration now fuel (create_lease key mine ∷ read_clock ∷ h1),
      )

  -- With a backoff that stops after `limit` waits, as dskit's does for `MaxRetries`.
  module _ (limit : ℕ) (bounded : (h : List Op) → limit ≤ waits h → o.is_ongoing h ≡ false) where
    lock_rounds_total :
        (n : ℕ) (duration : Duration) (now : ℕ) (h : List Op)
        → limit ≤ n + waits h
        → (lock_rounds o key (suc n) duration now h).0 ≢ ok none
    unfolding lock_rounds
    lock_rounds_total zero duration now h enough = rw (bounded h (omega arith)) (λ p. cc)
    lock_rounds_total (suc n) duration now h enough =
        elim (Result-cases (o.get_answer (ongoing ∷ h))) [
          | inr (e, failed) ↦ ground arith
          | inl (lease, got) ↦
              let before : List Op = read_clock ∷ get_lease key ∷ ongoing ∷ h in
              let write : Op = update_lease key (claim o.id duration now lease) in
              ground (arith, lock_rounds_total n duration now (wait ∷ write ∷ before))
        ]

    unlock_rounds_total :
        (n : ℕ) (h : List Op) → limit ≤ n + waits h → (unlock_rounds o key (suc n) h).0 ≢ ok none
    unfolding unlock_rounds
    unlock_rounds_total zero h enough = rw (bounded h (omega arith)) (λ p. cc)
    unlock_rounds_total (suc n) h enough = elim (Result-cases (o.get_answer (ongoing ∷ h))) [
      | inr (e, failed) ↦ ground arith
      | inl (lease, got) ↦
          let before : List Op = get_lease key ∷ ongoing ∷ h in
          let write : Op = update_lease key (release (o.clock before) lease) in
          ground (arith, unlock_rounds_total n (wait ∷ write ∷ read_clock ∷ before))
    ]

    -- If the backoff stops after `limit` waits, then `limit` rounds and one more are enough:
    -- `LockFor` and `Unlock` return, with a result or with an error.
    pub rounds_suffice :
        (duration : Duration) (h : List Op)
        → ((lock_for o key (suc limit) duration h).0 ≢ ok none)
          × ((unlock o key (suc limit) h).0 ≢ ok none)
    unfolding lock_for unlock
    rounds_suffice duration h =
        let h1 : List Op = read_context ∷ h in
        let now : ℕ = o.clock h1 in
        let mine : Lease = claim o.id duration now blank in
        (
          ground (
            arith,
            lock_rounds_total limit duration now (create_lease key mine ∷ read_clock ∷ h1),
          ),
          ground (arith, unlock_rounds_total limit h1),
        )
