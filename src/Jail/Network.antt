-- ===== src/Jail/Network.antt =====
-- `cycleJailIfNetworkChanged`, `removeIPAliases` and `stripCIDR` of pkg/jail/manager.go, and
-- `listRunningJails` of pkg/jail/jls.go
use nodemanager.Common.{All, Bool, Bool-cases, In, Io, List, Option, Preserves, String, []}
use nodemanager.Common.{arith, attempt, eq_iff, find?, if◌then◌else◌, inl, inr, ne_of_test}
use nodemanager.Common.{none, not, of_if, of_pure, of_then, of_tried, ok, on_error, perform}
use nodemanager.Common.{pure, refl, slice, some, suc, true, wrap, ℕ, ◌&&◌, ◌+◌, ◌==◌, ◌>>=◌}
use nodemanager.Common.{◌>>◌, ◌↔◌, ◌∷◌, ◌≡◌, ◌≢◌}
use nodemanager.Jail.{Jail, Op, Outside, RunningJail, list_running, remove_alias, stop_jail}

-- What stands before the first slash.
unfoldable pub strip_cidr : String → String
strip_cidr s = elim (find? s "/") [ none ↦ s | some i ↦ slice s 0 i ]

abbrev pub first_or_empty : List String → String
first_or_empty [] = ""
first_or_empty (s ∷ rest) = s

unfoldable pub has_address : Jail → RunningJail → Bool
has_address j now =
    (strip_cidr j.spec.inet == first_or_empty now.ipv4_addrs)
    && (strip_cidr j.spec.inet6 == first_or_empty now.ipv6_addrs)

abbrev pub find_running : String → List RunningJail → Option RunningJail
find_running name [] = none
find_running name (r ∷ jails) =
    let rest = find_running name jails in if r.name == name then some r else rest

module _ (o : Outside) where
  abbrev drop_alias : String → String → String → Io Op (Unit {0})
  drop_alias interface family address = do
    attempt (perform (remove_alias interface family (strip_cidr address)) o.done_answer)
    pure tt

  unfoldable pub remove_ip_aliases : Jail → Io Op (Unit {0})
  remove_ip_aliases j = if j.spec.interface == "" then pure tt else do
    (if not (j.spec.inet == "") then drop_alias j.spec.interface "inet" j.spec.inet else pure tt)
    (if not (j.spec.inet6 == "") then drop_alias j.spec.interface "inet6" j.spec.inet6 else pure tt)

  abbrev pub cycle : Jail → Option RunningJail → Io Op (Unit {0})
  cycle j none = remove_ip_aliases j
  cycle j (some now) =
      if has_address j now
      then pure tt
      else do attempt (perform (stop_jail j.name) o.done_answer); remove_ip_aliases j

  unfoldable pub cycle_jail_if_network_changed : Jail → Io Op (Unit {0})
  cycle_jail_if_network_changed j =
      if (j.spec.inet == "") && (j.spec.inet6 == "") then pure tt else do
        jails ← on_error (wrap "listing running jails") (perform list_running o.running_answer)
        cycle j (find_running j.name jails)

-- How often jail(8) was told to stop the jail.
abbrev pub stops : String → List Op → ℕ
stops name [] = 0
stops name (stop_jail jail ∷ h) = let n = stops name h in if jail == name then suc n else n
stops name (_ ∷ h) = stops name h

-- The jail runs with the addresses that it declares.
abbrev pub IsAddressed : Jail → RunningJail → Type 0
IsAddressed j now =
    (strip_cidr j.spec.inet ≡ first_or_empty now.ipv4_addrs)
    × (strip_cidr j.spec.inet6 ≡ first_or_empty now.ipv6_addrs)

-- The list has no jail of the name, or this one.
abbrev pub IsEntryOf : String → List RunningJail → Option RunningJail → Type 0
IsEntryOf name jails none = All (λ (r : RunningJail). r.name ≢ name) jails
IsEntryOf name jails (some now) = In now jails × (now.name ≡ name)

later_entry :
    (name : String) (r : RunningJail) (jails : List RunningJail) (now : Option RunningJail)
    → r.name ≢ name
    → IsEntryOf name jails now
    → IsEntryOf name (r ∷ jails) now
later_entry name r jails none differ absent = (differ, absent)
later_entry name r jails (some now) differ (there, named) = (inr there, named)

find_running-IsEntryOf :
    (name : String) (jails : List RunningJail) → IsEntryOf name jails (find_running name jails)
find_running-IsEntryOf name [] = tt
find_running-IsEntryOf name (r ∷ jails) = elim (Bool-cases (r.name == name)) [
  | inl same ↦ rw same (inl refl, (eq_iff r.name name).0 same)
  | inr differ ↦ rw differ (
      later_entry name r jails (find_running name jails) (ne_of_test r.name name differ)
        (find_running-IsEntryOf name jails))
]

has_address-IsAddressed :
    (j : Jail) (now : RunningJail) → (has_address j now ≡ true) ↔ IsAddressed j now
unfolding has_address
has_address-IsAddressed j now =
    let four = eq_iff (strip_cidr j.spec.inet) (first_or_empty now.ipv4_addrs) in
    let six = eq_iff (strip_cidr j.spec.inet6) (first_or_empty now.ipv6_addrs) in
    ((λ p. ground (arith, four, six)), (λ (a, b). ground (arith, four, six)))

-- 1 if jls lists the jail with other addresses than it declares.
abbrev pub change : Jail → Option RunningJail → ℕ
change j none = 0
change j (some now) = if has_address j now then 0 else 1

module _ (o : Outside) where
  stops-remove_ip_aliases :
      (name : String) (j : Jail) (h : List Op)
      → stops name (remove_ip_aliases o j h).1 ≡ stops name h
  unfolding remove_ip_aliases
  stops-remove_ip_aliases name j h = ground arith

  cycle_one :
      (name : String) (j : Jail) (now : Option RunningJail) (h : List Op)
      → stops name (cycle o j now h).1 ≡ (if j.name == name then change j now else 0) + stops name h
  cycle_one name j none h = ground (arith, stops-remove_ip_aliases name j h)
  cycle_one name j (some now) h =
      ground (arith, stops-remove_ip_aliases name j (stop_jail j.name ∷ h))

  stops-cycle_jail_if_network_changed :
      (name : String) (j : Jail) (jails : List RunningJail) (h : List Op)
      → o.running_answer h ≡ ok jails
      → stops name (cycle_jail_if_network_changed o j h).1 ≡ (
          if (j.spec.inet == "") && (j.spec.inet6 == "")
          then stops name h
          else (if j.name == name then change j (find_running j.name jails) else 0) + stops name h)
  unfolding cycle_jail_if_network_changed
  stops-cycle_jail_if_network_changed name j jails h listed =
      elim (Bool-cases ((j.spec.inet == "") && (j.spec.inet6 == ""))) [
        | inl none' ↦ rw none' refl
        | inr some' ↦
            rw (some', listed) (cycle_one name j (find_running j.name jails) (list_running ∷ h))
      ]

  -- With the list `jails` of jls, `cycleJailIfNetworkChanged` asks jail(8) to stop the
  -- jail, once, exactly if it declares an address and jls lists it with other addresses, and never
  -- to stop a jail of another name. Other addresses are those of which the first IPv4 or the
  -- first IPv6 one is not the declared one without its prefix length.
  pub cycle_stops :
      (name : String) (j : Jail) (jails : List RunningJail) (h : List Op)
      → o.running_answer h ≡ ok jails
      → (stops name (cycle_jail_if_network_changed o j h).1 ≡ (
          if (j.spec.inet == "") && (j.spec.inet6 == "")
          then stops name h
          else (if j.name == name then change j (find_running j.name jails) else 0) + stops name h))
        × IsEntryOf j.name jails (find_running j.name jails)
        × ((now : RunningJail) → (has_address j now ≡ true) ↔ IsAddressed j now)
  cycle_stops name j jails h listed = (
    stops-cycle_jail_if_network_changed name j jails h listed,
    find_running-IsEntryOf j.name jails,
    has_address-IsAddressed j,
  )

module _ (o : Outside) (Q : List Op → Type 0)
    (one : (interface family address : String) (h : List Op)
      → Q h
      → Q (remove_alias interface family address ∷ h)) where
  abbrev alias_kept :
      (interface family address : String) → Preserves Q (drop_alias o interface family address)
  alias_kept interface family address =
      of_tried (remove_alias interface family (strip_cidr address)) o.done_answer
        (one interface family (strip_cidr address))

  -- What the removal of single aliases keeps, `removeIPAliases` keeps.
  pub remove_ip_aliases-Preserves : (j : Jail) → Preserves Q (remove_ip_aliases o j)
  unfolding remove_ip_aliases
  remove_ip_aliases-Preserves j = of_if (j.spec.interface == "") of_pure (
      of_then
        (of_if (not (j.spec.inet == "")) (alias_kept j.spec.interface "inet" j.spec.inet) of_pure)
        (of_if (not (j.spec.inet6 == "")) (alias_kept j.spec.interface "inet6" j.spec.inet6)
          of_pure))
