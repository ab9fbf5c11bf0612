-- ===== src/ConfigSet/Executions.antt =====
-- `handleExecutions`
use nodemanager.Common.{Bool-cases, Error, In, In-append, In-append-left, In-append-right, Io}
use nodemanager.Common.{List, Option, Result, String, [], eq_iff, err, if◌then◌else◌, inl, inr}
use nodemanager.Common.{ne_of_test, new_error, none, ok, refl, some, sprint, sym, to_result}
use nodemanager.Common.{◌++◌, ◌==◌, ◌↔◌, ◌∷◌, ◌≡◌, ◌≢◌, ◌⊎◌}
use nodemanager.Api.{Exec}
use nodemanager.ConfigSet.{Op, Outside, run_command}

-- One entry per subscription of `exe` to the changed file.
unfoldable pub runs_of : String → Exec → List String → List Exec
runs_of changed exe [] = []
runs_of changed exe (sub ∷ subs) =
    let rest = runs_of changed exe subs in if sub == changed then exe ∷ rest else rest

unfoldable pub runs_for : String → List Exec → List Exec
runs_for changed [] = []
runs_for changed (exe ∷ exes) = runs_of changed exe exe.subscribe_files ++ runs_for changed exes

unfoldable pub run_exec : List String → List Exec → List Exec
run_exec [] exes = []
run_exec (changed ∷ files) exes = runs_for changed exes ++ run_exec files exes

-- `fmt.Errorf("%w: %s", totalErrs, err.Error())`, with what Go prints for `%w` of nil.
abbrev pub add_error : Option Error → Error → Option Error
add_error none e = some (new_error (sprint ("%!w(<nil>): " ∷ e.text ∷ [])))
add_error (some total) e = some (record total { text = sprint (total.text ∷ ": " ∷ e.text ∷ []) })

abbrev add_result : Option Error → Result (Unit {0}) → Option Error
add_result total (ok u) = total
add_result total (err e) = add_error total e

module _ (o : Outside) where
  unfoldable pub run_all : List Exec → Option Error → List Op → Option Error × List Op
  run_all [] total h = (total, h)
  run_all (exe ∷ exes) total h =
      run_all exes (add_result total (o.command_answer h)) (run_command exe.command exe.args ∷ h)

  unfoldable pub handle_executions : List Exec → List String → Io Op (Unit {0})
  handle_executions service_set changed_files h =
      let (total, h') = run_all (run_exec changed_files service_set) none h in (to_result total, h')

-- The log of commands that ran in turn after `h`.
abbrev pub commands_after : List Exec → List Op → List Op
commands_after [] h = h
commands_after (exe ∷ exes) h = commands_after exes (run_command exe.command exe.args ∷ h)

-- The answers to them, the first one first.
abbrev pub AllSucceed : Outside → List Exec → List Op → Type 0
AllSucceed o [] h = Unit
AllSucceed o (exe ∷ exes) h =
    (o.command_answer h ≡ ok tt) × AllSucceed o exes (run_command exe.command exe.args ∷ h)

module _ (o : Outside) where
  run_all_log :
      (exes : List Exec) (total : Option Error) (h : List Op)
      → (run_all o exes total h).1 ≡ commands_after exes h
  unfolding run_all
  run_all_log [] total h = refl
  run_all_log (exe ∷ exes) total h = run_all_log exes _ _

  add_result_some :
      (total : Option Error) (r : Result (Unit {0})) → total ≢ none → add_result total r ≢ none
  add_result_some total (ok u) some' = some'
  add_result_some none (err e) some' = λ p. cc
  add_result_some (some f) (err e) some' = λ p. cc

  run_all_failed :
      (exes : List Exec) (total : Option Error) (h : List Op)
      → total ≢ none
      → (run_all o exes total h).0 ≢ none
  unfolding run_all
  run_all_failed [] total h some' = some'
  run_all_failed (exe ∷ exes) total h some' =
      run_all_failed exes (add_result total (o.command_answer h))
        (run_command exe.command exe.args ∷ h) (add_result_some total (o.command_answer h) some')

  then_rest :
      (exes : List Exec) (r : Result (Unit {0})) (h : List Op)
      → (((run_all o exes none h).0 ≡ none) ↔ AllSucceed o exes h)
      → ((run_all o exes (add_result none r) h).0 ≡ none) ↔ ((r ≡ ok tt) × AllSucceed o exes h)
  then_rest exes (ok u) h (there, back) = ((λ p. (refl, there p)), (λ (a, b). back b))
  then_rest exes (err e) h rest =
      ((λ p. elim (run_all_failed exes _ h (λ q. cc) p) [ ]), (λ (a, b). cc))

  run_all_result :
      (exes : List Exec) (h : List Op) → ((run_all o exes none h).0 ≡ none) ↔ AllSucceed o exes h
  unfolding run_all
  run_all_result [] h = ((λ p. tt), (λ p. refl))
  run_all_result (exe ∷ exes) h =
      then_rest exes (o.command_answer h) (run_command exe.command exe.args ∷ h)
        (run_all_result exes (run_command exe.command exe.args ∷ h))

  result_none : (total : Option Error) → (to_result total ≡ ok tt) ↔ (total ≡ none)
  result_none none = ((λ p. refl), (λ p. refl))
  result_none (some e) = ((λ p. cc), (λ p. cc))

-- The command is one of the set's, and subscribes to one of the changed files.
abbrev pub IsWanted : List String → List Exec → Exec → Type 0
IsWanted changed_files service_set exe =
    In exe service_set × (path : String) × In path changed_files × In path exe.subscribe_files

-- `exes` has just the commands that are wanted.
abbrev pub AreWanted : List String → List Exec → List Exec → Type 0
AreWanted changed_files service_set exes =
    (exe : Exec) → In exe exes ↔ IsWanted changed_files service_set exe

runs_of_sound :
    (changed : String) (e exe : Exec) (subs : List String)
    → In exe (runs_of changed e subs)
    → (exe ≡ e) × In changed subs
unfolding runs_of
runs_of_sound changed e exe [] p = elim p [ ]
runs_of_sound changed e exe (sub ∷ subs) p = elim (Bool-cases (sub == changed)) [
  | inr differ ↦
      let (same, below) = runs_of_sound changed e exe subs (rw differ at p) in (same, inr below)
  | inl same ↦
      let both : (exe ≡ e) ⊎ In exe (runs_of changed e subs) = rw same at p in
      elim both [
        | inl here ↦ (here, inl (sym ((eq_iff sub changed).0 same)))
        | inr later ↦ let (one, below) = runs_of_sound changed e exe subs later in (one, inr below)
      ]
]

runs_of-all :
    (changed : String) (e : Exec) (subs : List String)
    → In changed subs
    → In e (runs_of changed e subs)
unfolding runs_of
runs_of-all changed e [] p = elim p [ ]
runs_of-all changed e (sub ∷ subs) p = elim (Bool-cases (sub == changed)) [
  | inl same ↦ rw same (inl refl)
  | inr differ ↦ elim p [
    | inl here ↦ absurd (ne_of_test sub changed differ (sym here))
    | inr later ↦ rw differ (runs_of-all changed e subs later)
  ]
]

runs_for_sound :
    (changed : String) (exe : Exec) (exes : List Exec)
    → In exe (runs_for changed exes)
    → In exe exes × In changed exe.subscribe_files
unfolding runs_for
runs_for_sound changed exe [] p = elim p [ ]
runs_for_sound changed exe (e ∷ exes) p =
    elim (In-append exe (runs_of changed e e.subscribe_files) (runs_for changed exes) p) [
      | inl here ↦
          let (same, below) = runs_of_sound changed e exe e.subscribe_files here in
          (inl same, rw same below)
      | inr later ↦ let (there, below) = runs_for_sound changed exe exes later in (inr there, below)
    ]

runs_for-all :
    (changed : String) (exe : Exec) (exes : List Exec)
    → In exe exes
    → In changed exe.subscribe_files
    → In exe (runs_for changed exes)
unfolding runs_for
runs_for-all changed exe [] p q = elim p [ ]
runs_for-all changed exe (e ∷ exes) (inl same) q =
    In-append-left exe (runs_of changed e e.subscribe_files) (runs_for changed exes)
      (rw same (runs_of-all changed e e.subscribe_files (rw same at q)))
runs_for-all changed exe (e ∷ exes) (inr later) q =
    In-append-right exe (runs_of changed e e.subscribe_files) (runs_for changed exes)
      (runs_for-all changed exe exes later q)

run_exec-AreWanted :
    (changed_files : List String) (service_set : List Exec)
    → AreWanted changed_files service_set (run_exec changed_files service_set)
unfolding run_exec
run_exec-AreWanted [] exes exe = ((λ p. elim p [ ]), (λ (a, path, b, c). elim b [ ]))
run_exec-AreWanted (changed ∷ files) exes exe =
    let (sound, all) = run_exec-AreWanted files exes exe in
    (
      (λ p. elim (In-append exe (runs_for changed exes) (run_exec files exes) p) [
        | inl here ↦
            let (there, below) = runs_for_sound changed exe exes here in
            (there, changed, inl refl, below)
        | inr later ↦ let (there, path, b, c) = sound later in (there, path, inr b, c)
      ]),
      (λ (there, path, b, c). elim b [
        | inl here ↦
            In-append-left exe (runs_for changed exes) (run_exec files exes)
              (runs_for-all changed exe exes there (rw here at c))
        | inr later ↦
            In-append-right exe (runs_for changed exes) (run_exec files exes)
              (all (there, path, later, c))
      ]),
    )

-- `handleExecutions` runs just those commands of the set that subscribe to a changed file, each one
-- although others fail, and succeeds exactly if all of them do.
pub handle_executions_all :
    (o : Outside) (service_set : List Exec) (changed_files : List String) (h : List Op)
    → (exes : List Exec) × AreWanted changed_files service_set exes
      × ((handle_executions o service_set changed_files h).1 ≡ commands_after exes h)
      × (((handle_executions o service_set changed_files h).0 ≡ ok tt) ↔ AllSucceed o exes h)
unfolding handle_executions
handle_executions_all o service_set changed_files h =
    let exes : List Exec = run_exec changed_files service_set in
    let (there, back) = result_none o (run_all o exes none h).0 in
    let (all, sound) = run_all_result o exes h in
    (
      exes,
      run_exec-AreWanted changed_files service_set,
      run_all_log o exes none h,
      ((λ p. all (there p)), (λ p. back (sound p))),
    )
