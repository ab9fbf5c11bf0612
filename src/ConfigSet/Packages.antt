-- ===== src/ConfigSet/Packages.antt =====
-- `handlePackageSet` and pkg/packages/packages.go
use nodemanager.Common.{All, Bool, Bool-cases, Dict, Error, Gather, Io, List, Option}
use nodemanager.Common.{Option-cases, Result-cases, Sometime, String, [], arith, eq_iff, false}
use nodemanager.Common.{for_each, for_each-All, found, gather, if◌then◌else◌, inl, inr, join}
use nodemanager.Common.{join-none, lookup, new_error, none, not, nothing, ok, perform, quote}
use nodemanager.Common.{refl, some, sprint, to_result, true, ◌&&◌, ◌==◌, ◌>>=◌, ◌∷◌, ◌≡◌}
use nodemanager.Common.{◌⊎◌}
use nodemanager.Api.{Package}
use nodemanager.ConfigSet.{Op, Outside, install, list_packages, remove_package}

pub data PackageEnsure : Type 0 where
  unhandled installed absent : PackageEnsure

unfoldable pub package_ensure_from_string : String → PackageEnsure
package_ensure_from_string ensure =
    if ensure == "installed" then installed else if ensure == "absent" then absent else unhandled

-- `!installed || (pkg.Version != "" && installedVersion != pkg.Version)`
abbrev pub needs_install : Option String → String → Bool
needs_install none version = true
needs_install (some found) version = not (version == "") && not (found == version)

abbrev pub is_listed : Option String → Bool
is_listed none = false
is_listed (some version) = true

module _ (o : Outside) where
  abbrev pub ensure_package : PackageEnsure → Option String → Package → Gather Op Error
  ensure_package installed known pkg =
      if needs_install known pkg.version
      then gather (λ e. e) (perform (install pkg.name pkg.version) o.package_answer)
      else nothing
  ensure_package absent known pkg =
      if is_listed known
      then gather (λ e. e) (perform (remove_package pkg.name) o.package_answer)
      else nothing
  ensure_package unhandled known pkg = found (
      new_error (
        sprint
          ("unhandled Ensure value " ∷ quote pkg.ensure ∷ " for package " ∷ quote pkg.name ∷ [])))

  -- One round of the loop, with the packages that were listed before it.
  unfoldable pub package_step : Dict String → Package → Gather Op Error
  package_step pkgs pkg =
      ensure_package (package_ensure_from_string pkg.ensure) (lookup pkg.name pkgs) pkg

  unfoldable pub handle_package_set : List Package → Io Op (Unit {0})
  handle_package_set package_set = do
    pkgs ← perform list_packages o.packages_answer
    λ h.
        (let (errs, h') = for_each (package_step pkgs) package_set h in (to_result (join errs), h'))

-- The list has the package, in the version that is asked for if one is.
abbrev pub IsInstalled : Option String → String → Type 0
IsInstalled none version = ⊥
IsInstalled (some found) version = (version ≡ "") ⊎ (found ≡ version)

-- The list has what the entry asks for.
abbrev pub Settled : PackageEnsure → Option String → Package → Type 0
Settled installed known pkg = IsInstalled known pkg.version
Settled absent known pkg = known ≡ none
Settled unhandled known pkg = ⊥

abbrev pub AsWanted : Dict String → Package → Type 0
AsWanted pkgs pkg =
    ((pkg.ensure ≡ "installed") × IsInstalled (lookup pkg.name pkgs) pkg.version)
    ⊎ ((pkg.ensure ≡ "absent") × (lookup pkg.name pkgs ≡ none))

-- A call that does what the entry asks for succeeded.
abbrev pub Settles : Outside → Package → Op → List Op → Type 0
Settles o pkg (install name version) h =
    (pkg.ensure ≡ "installed")
    × (name ≡ pkg.name)
    × (version ≡ pkg.version)
    × (o.package_answer h ≡ ok tt)
Settles o pkg (remove_package name) h =
    (pkg.ensure ≡ "absent") × (name ≡ pkg.name) × (o.package_answer h ≡ ok tt)
Settles o pkg _ h = ⊥

abbrev pub IsDone : Outside → Dict String → Package → List Op → Type 0
IsDone o pkgs pkg h = AsWanted pkgs pkg ⊎ Sometime (Settles o pkg) h

is_installed :
    (ensure : String) → package_ensure_from_string ensure ≡ installed → ensure ≡ "installed"
unfolding package_ensure_from_string
is_installed ensure p = ground (arith, eq_iff ensure "installed", eq_iff ensure "absent")

is_absent : (ensure : String) → package_ensure_from_string ensure ≡ absent → ensure ≡ "absent"
unfolding package_ensure_from_string
is_absent ensure p = ground (arith, eq_iff ensure "installed", eq_iff ensure "absent")

as-Settled :
    (pkgs : Dict String) (pkg : Package)
    → AsWanted pkgs pkg
    → Settled (package_ensure_from_string pkg.ensure) (lookup pkg.name pkgs) pkg
unfolding package_ensure_from_string
as-Settled pkgs pkg (inl (asked, there)) = rw asked there
as-Settled pkgs pkg (inr (asked, gone)) = rw asked gone

needs_install-IsInstalled :
    (known : Option String) (version : String)
    → needs_install known version ≡ false
    → IsInstalled known version
needs_install-IsInstalled none version p = cc
needs_install-IsInstalled (some found) version p =
    ground (arith, eq_iff version "", eq_iff found version)

IsInstalled-needs_install :
    (known : Option String) (version : String)
    → IsInstalled known version
    → needs_install known version ≡ false
IsInstalled-needs_install none version p = elim p [ ]
IsInstalled-needs_install (some found) version p =
    ground (arith, eq_iff version "", eq_iff found version)

module _ (o : Outside) where
  ensure_keeps :
      (P : Op → List Op → Type 0) (ensure : PackageEnsure) (known : Option String) (pkg : Package)
      (h : List Op)
      → Sometime P h
      → Sometime P (ensure_package o ensure known pkg h).1
  ensure_keeps P installed known pkg h s = elim (Bool-cases (needs_install known pkg.version)) [
    | inl needed ↦ rw needed (inr s)
    | inr fits ↦ rw fits s
  ]
  ensure_keeps P absent none pkg h s = s
  ensure_keeps P absent (some v) pkg h s = inr s
  ensure_keeps P unhandled known pkg h s = s

  ensure_outcome :
      (ensure : PackageEnsure) (pkgs : Dict String) (known : Option String) (pkg : Package)
      (h : List Op)
      → package_ensure_from_string pkg.ensure ≡ ensure
      → lookup pkg.name pkgs ≡ known
      → (ensure_package o ensure known pkg h).0 ≡ []
      → IsDone o pkgs pkg (ensure_package o ensure known pkg h).1
  ensure_outcome installed pkgs known pkg h from found p =
      let asked : pkg.ensure ≡ "installed" = is_installed pkg.ensure from in
      elim (Bool-cases (needs_install known pkg.version)) [
        | inr fits ↦ inl (inl (asked, rw found (needs_install-IsInstalled known pkg.version fits)))
        | inl needed ↦ elim (Result-cases (o.package_answer h)) [
          | inl (u, done) ↦ rw needed (inr (inl (asked, refl, refl, done)))
          | inr (e, failed) ↦ cc (rw (needed, failed) at p)
        ]
      ]
  ensure_outcome absent pkgs none pkg h from found p = inl (inr (is_absent pkg.ensure from, found))
  ensure_outcome absent pkgs (some v) pkg h from found p =
      elim (Result-cases (o.package_answer h)) [
        | inl (u, done) ↦ inr (inl (is_absent pkg.ensure from, refl, done))
        | inr (e, failed) ↦ cc (rw failed at p)
      ]
  ensure_outcome unhandled pkgs known pkg h from found p = cc

  ensure_quiet :
      (ensure : PackageEnsure) (known : Option String) (pkg : Package) (h : List Op)
      → Settled ensure known pkg
      → ensure_package o ensure known pkg h ≡ ([], h)
  ensure_quiet installed known pkg h settled =
      rw (IsInstalled-needs_install known pkg.version settled) refl
  ensure_quiet absent none pkg h settled = refl
  ensure_quiet absent (some v) pkg h settled = cc
  ensure_quiet unhandled known pkg h settled = elim settled [ ]

  steps_quiet :
      (pkgs : Dict String) (package_set : List Package) (h : List Op)
      → All (AsWanted pkgs) package_set
      → for_each (package_step o pkgs) package_set h ≡ ([], h)
  unfolding for_each package_step
  steps_quiet pkgs [] h settled = refl
  steps_quiet pkgs (pkg ∷ package_set) h (now, later) =
      rw
        (ensure_quiet (package_ensure_from_string pkg.ensure) (lookup pkg.name pkgs) pkg h
          (as-Settled pkgs pkg now))
        (rw (steps_quiet pkgs package_set h later) refl)

  -- If the list has each package that is to be installed, in its version where one is asked for,
  -- and none that is to be absent, and no entry asks for anything else, then `handlePackageSet`
  -- lists the packages and does nothing else.
  pub settled_packages_stay :
      (pkgs : Dict String) (package_set : List Package) (h : List Op)
      → o.packages_answer h ≡ ok pkgs
      → All (AsWanted pkgs) package_set
      → handle_package_set o package_set h ≡ (ok tt, list_packages ∷ h)
  unfolding handle_package_set
  settled_packages_stay pkgs package_set h listed settled =
      rw listed (rw (steps_quiet pkgs package_set (list_packages ∷ h) settled) refl)

  -- If the packages were listed and `handlePackageSet` reports no error, then each entry's package
  -- was as asked for in the list, that is absent, or installed in the version where one is asked
  -- for, or the call succeeded that removes it or installs this version.
  pub packages_without_error :
      (pkgs : Dict String) (package_set : List Package) (h : List Op)
      → o.packages_answer h ≡ ok pkgs
      → (handle_package_set o package_set h).0 ≡ ok tt
      → All (λ pkg. IsDone o pkgs pkg (handle_package_set o package_set h).1) package_set
  unfolding handle_package_set package_step
  packages_without_error pkgs package_set h listed done =
      let run : List Error × List Op =
        for_each (package_step o pkgs) package_set (list_packages ∷ h) in
      let clean : run.0 ≡ [] = join-none run.0 (elim (Option-cases (join run.0)) [
        | inl clear ↦ clear
        | inr (e, joined) ↦ cc (rw (listed, joined) at done)
      ]) in
      rw listed (
        for_each-All (λ pkg h'. IsDone o pkgs pkg h') (package_step o pkgs)
          (λ x y h' d. elim d [
            | inl settled ↦ inl settled
            | inr s ↦
                inr
                  (ensure_keeps _ (package_ensure_from_string y.ensure) (lookup y.name pkgs) y h' s)
          ])
          (λ x h' p.
            ensure_outcome (package_ensure_from_string x.ensure) pkgs (lookup x.name pkgs) x h' refl
              refl p)
          package_set (list_packages ∷ h) clean)
