-- ===== src/Node/Drain/Bounds.antt =====
-- `drainNode` ends: enough rounds for its deadline, and what it has seen when it reports success.
use nodemanager.Common.{List, Result, Result-cases, String, [], arith, err, inl, inr, length}
use nodemanager.Common.{none, ok, refl, second, some, suc, zero, ℕ, ◌*◌, ◌+◌, ◌<◌, ◌∷◌, ◌≡◌}
use nodemanager.Common.{◌≢◌}
use nodemanager.Node.{IsTimely, Op, Outside, Pod, evict, list_pods, read_clock, sleep}
use nodemanager.Node.Drain.{await_drained, drain_node, drainable, evict_all}

abbrev NoneLeft : Result (List Pod) → Type 0
NoneLeft (ok pods) = drainable pods ≡ []
NoneLeft (err e) = ⊥

-- The last call listed the pods of the node, and none of those listed was left to drain.
abbrev pub SeenDrained : Outside → String → List Op → Type 0
SeenDrained o hostname (list_pods name ∷ before) = (name ≡ hostname) × NoneLeft (o.pods before)
SeenDrained o hostname _ = ⊥

pub evict_all-ok : (o : Outside) (pods : List Pod) (h : List Op) → (evict_all o pods h).0 ≡ ok tt
unfolding evict_all
evict_all-ok o [] h = refl
evict_all-ok o (pod ∷ pods) h = evict_all-ok o pods (evict pod.namespace pod.name ∷ h)

module _ (o : Outside) (timely : IsTimely o) where
  await_drained_total :
      (n deadline : ℕ) (hostname : String) (h : List Op)
      → deadline < o.clock h + n * (5 * second)
      → (await_drained o (suc n) deadline hostname h).0 ≢ ok none
  unfolding await_drained
  await_drained_total zero deadline hostname h late =
      ground (arith, timely.forward (list_pods hostname) h)
  await_drained_total (suc n) deadline hostname h late =
      let h1 : List Op = list_pods hostname ∷ h in
      let h2 : List Op = sleep (5 * second) ∷ read_clock ∷ h1 in
      ground (
        arith,
        timely.forward (list_pods hostname) h,
        timely.forward read_clock h1,
        timely.slept (5 * second) (read_clock ∷ h1),
        await_drained_total n deadline hostname h2,
      )

  -- If time does not run backwards and a sleep takes its time, then more rounds than the drain
  -- timeout has spans of five seconds, and one more, are enough: draining ends with an error or
  -- with success.
  pub drain_node_total :
      (n : ℕ) (hostname : String) (h : List Op)
      → o.drain_timeout < n * (5 * second)
      → (drain_node o (suc n) hostname h).0 ≢ ok none
  unfolding drain_node
  drain_node_total n hostname h enough = elim (Result-cases (o.pods h)) [
    | inr (e, failed) ↦ rw failed (λ p. cc)
    | inl (pods, listed) ↦
        let h1 : List Op = (evict_all o (drainable pods) (list_pods hostname ∷ h)).1 in
        let now : ℕ = o.clock h1 in
        rw (listed, evict_all-ok o (drainable pods) (list_pods hostname ∷ h))
          (await_drained_total n (now + o.drain_timeout) hostname (read_clock ∷ h1)
            (omega (arith, timely.forward read_clock h1)))
  ]

eq-nil_of_length : (pods : List Pod) → length pods ≡ 0 → pods ≡ []
eq-nil_of_length [] e = refl
eq-nil_of_length (pod ∷ pods) e = absurd (omega arith)

module _ (o : Outside) where
  await_drained-SeenDrained :
      (fuel deadline : ℕ) (hostname : String) (h : List Op)
      → (await_drained o fuel deadline hostname h).0 ≡ ok (some tt)
      → SeenDrained o hostname (await_drained o fuel deadline hostname h).1
  unfolding await_drained
  await_drained-SeenDrained zero deadline hostname h e = cc
  await_drained-SeenDrained (suc fuel) deadline hostname h e =
      let later : List Op = sleep (5 * second) ∷ read_clock ∷ list_pods hostname ∷ h in
      elim (Result-cases (o.pods h)) [
        | inr (x, failed) ↦ cc (rw failed at e)
        | inl (pods, listed) ↦ rw listed (
            ground (
              arith,
              rw listed at e,
              eq-nil_of_length (drainable pods),
              await_drained-SeenDrained fuel deadline hostname later,
            ))
      ]

  -- Draining that reports success has seen a listing of the node's pods, its last call, in which
  -- no pod was left to drain.
  pub drain_node-SeenDrained :
      (fuel : ℕ) (hostname : String) (h : List Op)
      → (drain_node o fuel hostname h).0 ≡ ok (some tt)
      → SeenDrained o hostname (drain_node o fuel hostname h).1
  unfolding drain_node
  drain_node-SeenDrained fuel hostname h e = elim (Result-cases (o.pods h)) [
    | inr (x, failed) ↦ cc (rw failed at e)
    | inl (pods, listed) ↦
        let h1 : List Op = (evict_all o (drainable pods) (list_pods hostname ∷ h)).1 in
        rw (listed, evict_all-ok o (drainable pods) (list_pods hostname ∷ h))
          (await_drained-SeenDrained fuel (o.clock h1 + o.drain_timeout) hostname (read_clock ∷ h1)
            (rw (listed, evict_all-ok o (drainable pods) (list_pods hostname ∷ h)) at e))
  ]
