-- ===== src/Notification/Delivery.antt =====
-- What `Notify` sends to the streams.
use nodemanager.Common.{Bool-cases, Dict, List, NodupKeys, Option, String, [], ap, arith}
use nodemanager.Common.{eq_iff, eq_refl, false, if◌then◌else◌, inl, inr, length, lookup}
use nodemanager.Common.{ltb, nat_eq, ne_of_test, none, refl, some, sym, true, ℕ, ◌++◌, ◌<◌}
use nodemanager.Common.{◌==◌, ◌∙◌, ◌∷◌, ◌≡◌, ◌≢◌, ◌≤◌}
use nodemanager.Node.{Event}
use nodemanager.Notification.{
  Channels, Reach, Server, event_capacity, has_room, notify, send_all, try_send,
}
use nodemanager.Notification.Streams.{AllOrderly, reach-Good}

-- The events of a channel after a send: the oldest 64 stay.
abbrev pub appended : List Event → Event → List Event
appended es e = if ltb (length es) 64 then es ++ e ∷ [] else es

sent_own :
    (c : ℕ) (e : Event) (q : Channels Event) → try_send event_capacity c e q c ≡ appended (q c) e
unfolding try_send
sent_own c e q = ground arith

sent_elsewhere :
    (c d : ℕ) (e : Event) (q : Channels Event)
    → nat_eq c d ≡ false
    → try_send event_capacity c e q d ≡ q d
unfolding try_send
sent_elsewhere c d e q differ = elim (Bool-cases (has_room event_capacity c q)) [
  | inl free ↦ rw (free, differ) refl
  | inr full ↦ rw full refl
]

deeper :
    (id place : String) (d c : ℕ) (m : Dict ℕ)
    → lookup id m ≡ none
    → lookup place m ≡ some c
    → lookup place ((id, d) ∷ m) ≡ some c
unfolding lookup
deeper id place d c m fresh there = ground (arith, eq_iff id place)

head_entry : (id : String) (d : ℕ) (m : Dict ℕ) → lookup id ((id, d) ∷ m) ≡ some d
unfolding lookup
head_entry id d m = rw (eq_refl id) refl

number_eq : (c d : ℕ) → nat_eq c d ≡ true → c ≡ d
number_eq c d p = ground arith

not_sent :
    (m : Dict ℕ) (c : ℕ) (e : Event) (q : Channels Event)
    → NodupKeys m
    → ((id : String) → lookup id m ≢ some c)
    → send_all m e q c ≡ q c
unfolding send_all
not_sent [] c e q once absent = refl
not_sent ((id, d) ∷ m) c e q (fresh, once) absent = elim (Bool-cases (nat_eq d c)) [
  | inl same ↦ absurd (absent id (head_entry id d m ∙ ap some (number_eq d c same)))
  | inr differ ↦
      not_sent m c e (try_send event_capacity d e q) once
        (λ place there. absent place (deeper id place d c m fresh there))
      ∙ sent_elsewhere d c e q differ
]

same_entry :
    (id session : String) (d c : ℕ) (m : Dict ℕ)
    → id ≡ session
    → lookup session ((id, d) ∷ m) ≡ some c
    → d ≡ c
same_entry id session d c m same there =
    cc (ap (λ s. lookup s ((id, d) ∷ m)) same, head_entry id d m, there)

later_entry :
    (id session : String) (d c : ℕ) (m : Dict ℕ)
    → (id == session) ≡ false
    → lookup session ((id, d) ∷ m) ≡ some c
    → lookup session m ≡ some c
unfolding lookup
later_entry id session d c m differ there = rw differ at there

sent_at :
    (c d : ℕ) (e : Event) (q : Channels Event)
    → d ≡ c
    → try_send event_capacity d e q c ≡ appended (q c) e
sent_at c d e q same = rw same (sent_own c e q)

no_second :
    (id place : String) (c : ℕ) (m : Dict ℕ)
    → lookup id m ≡ none
    → place ≡ id
    → lookup place m ≢ some c
no_second id place c m fresh same there = cc (fresh, there, same)

sent_once :
    (m : Dict ℕ) (session : String) (c : ℕ) (e : Event) (q : Channels Event)
    → NodupKeys m
    → lookup session m ≡ some c
    → ((id : String) → lookup id m ≡ some c → id ≡ session)
    → send_all m e q c ≡ appended (q c) e
unfolding send_all lookup
sent_once [] session c e q once there only = cc
sent_once ((id, d) ∷ m) session c e q (fresh, once) there only = elim (Bool-cases (id == session)) [
  | inl same ↦
      let name : id ≡ session = (eq_iff id session).0 same in
      not_sent m c e (try_send event_capacity d e q) once (λ place found.
        no_second id place c m fresh (only place (deeper id place d c m fresh found) ∙ sym name)
          found)
      ∙ sent_at c d e q (same_entry id session d c m name there)
  | inr differ ↦ elim (Bool-cases (nat_eq d c)) [
    | inl here ↦
        absurd (
          ne_of_test id session differ (only id (head_entry id d m ∙ ap some (number_eq d c here))))
    | inr apart ↦
        sent_once m session c e (try_send event_capacity d e q) once
          (later_entry id session d c m differ there)
          (λ place found. only place (deeper id place d c m fresh found))
        ∙ ap (λ es. appended es e) (sent_elsewhere d c e q apart)
  ]
]

-- In a state that calls lead to in which no session connects while it is connected, Notify puts
-- the event last into the channel of each stream that has fewer than 64 events waiting, and
-- leaves a stream with 64 waiting and every channel without a stream as it is.
pub notify_reaches :
    (s : Server) (reached : Reach s)
    → AllOrderly reached
    → (e : Event) (c : ℕ)
    → ((id : String)
        → s.streams c ≡ some id
        → (length (s.events c) < 64 → (notify e s).events c ≡ s.events c ++ e ∷ [])
          × (64 ≤ length (s.events c) → (notify e s).events c ≡ s.events c))
      × (s.streams c ≡ none → (notify e s).events c ≡ s.events c)
unfolding notify
notify_reaches s reached orderly e c =
    let ((same, unused), once) = reach-Good s reached orderly in
    (
      (λ id open'.
          let one : send_all s.subscribers e s.events c ≡ appended (s.events c) e =
            sent_once s.subscribers id c e s.events once ((same id c).1 open')
              (λ place found. only_session (s.streams c) place id ((same place c).0 found) open') in
          (
            (λ less. one ∙ has_place (s.events c) e less),
            (λ more. one ∙ no_place (s.events c) e more),
          )),
      (λ closed.
          not_sent s.subscribers c e s.events once
            (λ place found. no_session (s.streams c) place closed ((same place c).0 found))),
    )
  where
    only_session :
        (session : Option String) (a b : String) → session ≡ some a → session ≡ some b → a ≡ b
    only_session session a b p q = cc

    no_session : (session : Option String) (a : String) → session ≡ none → session ≢ some a
    no_session session a p q = cc

    has_place : (es : List Event) (e : Event) → length es < 64 → appended es e ≡ es ++ e ∷ []
    has_place es e less = ground arith

    no_place : (es : List Event) (e : Event) → 64 ≤ length es → appended es e ≡ es
    no_place es e more = ground arith
