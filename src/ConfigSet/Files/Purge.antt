-- ===== src/ConfigSet/Files/Purge.antt =====
-- What `purge` of a directory leaves alone.
use nodemanager.Common.{All, Bool, Bool-cases, Dict, List, Result-cases, String, [], any}
use nodemanager.Common.{eq_iff, false, for_each, if◌then◌else◌, inl, inr, insert, lookup-insert}
use nodemanager.Common.{ok, refl, starts_with, suc, true, ℕ, ◌&&◌, ◌+++◌, ◌==◌, ◌||◌, ◌∙◌, ◌∷◌}
use nodemanager.Common.{◌≡◌}
use nodemanager.Api.{ConfigSet, File, ManagedNode}
use nodemanager.ConfigSet.{Entry, Op, Outside, list_config_sets, os_remove, read_dir}
use nodemanager.ConfigSet.Files.Managed.{
  add_paths, add_sets, is_managed, managed_paths_under, prefix_of, purge_directory, purge_entry,
}
use nodemanager.Labels.{match_all_labels}

-- How often the file at `p` was removed, under any path that cleans to the same one.
abbrev pub removals : (String → String) → String → List Op → ℕ
removals clean p [] = 0
removals clean p (os_remove q ∷ h) =
    let n = removals clean p h in if clean q == clean p then suc n else n
removals clean p (_ ∷ h) = removals clean p h

-- The path of the entry, as `purge` spells it, is clean.
abbrev pub IsClean : (String → String) → String → Entry → Type 0
IsClean clean dir entry = clean (dir +++ "/" +++ entry.name) ≡ dir +++ "/" +++ entry.name

-- A ConfigSet that applies to the node declares a file at `p`.
abbrev pub is_declared : String → ManagedNode → List ConfigSet → Bool
is_declared p node = any (λ (cs : ConfigSet).
    match_all_labels node.labels cs.labels && any (λ (f : File). f.path == p) cs.spec.files)

or_right : (a b : Bool) → b ≡ true → (a || b) ≡ true
or_right true b p = refl
or_right false b p = p

add_paths_keeps :
    (dir p : String) (files : List File) (m : Dict (Unit {0}))
    → is_managed m p ≡ true
    → is_managed (add_paths dir files m) p ≡ true
unfolding add_paths
add_paths_keeps dir p [] m there = there
add_paths_keeps dir p (f ∷ files) m there =
    elim (Bool-cases ((f.path == dir) || starts_with f.path (prefix_of dir))) [
      | inr apart ↦ rw apart (add_paths_keeps dir p files m there)
      | inl below ↦ rw below (
          add_paths_keeps dir p files (insert f.path tt m) (
            rw (lookup-insert f.path p tt m) (elim (Bool-cases (f.path == p)) [
              | inl same ↦ rw same refl
              | inr differ ↦ rw differ there
            ])))
    ]

add_paths_adds :
    (dir p : String) (files : List File) (m : Dict (Unit {0}))
    → starts_with p (prefix_of dir) ≡ true
    → any (λ (f : File). f.path == p) files ≡ true
    → is_managed (add_paths dir files m) p ≡ true
unfolding add_paths
add_paths_adds dir p [] m below declared = cc
add_paths_adds dir p (f ∷ files) m below declared = elim (Bool-cases (f.path == p)) [
  | inr differ ↦ add_paths_adds dir p files _ below (rw differ at declared)
  | inl same ↦
      let below' : ((f.path == dir) || starts_with f.path (prefix_of dir)) ≡ true =
        rw ((eq_iff f.path p).0 same) (or_right (p == dir) _ below) in
      rw below' (
        add_paths_keeps dir p files (insert f.path tt m)
          (rw (lookup-insert f.path p tt m) (rw same refl)))
]

add_sets_keeps :
    (dir p : String) (node : ManagedNode) (all : List ConfigSet) (m : Dict (Unit {0}))
    → is_managed m p ≡ true
    → is_managed (add_sets dir node all m) p ≡ true
unfolding add_sets
add_sets_keeps dir p node [] m there = there
add_sets_keeps dir p node (cs ∷ all) m there =
    elim (Bool-cases (match_all_labels node.labels cs.labels)) [
      | inr apart ↦ rw apart (add_sets_keeps dir p node all m there)
      | inl fits ↦ rw fits (
          add_sets_keeps dir p node all (add_paths dir cs.spec.files m)
            (add_paths_keeps dir p cs.spec.files m there))
    ]

add_sets_adds :
    (dir p : String) (node : ManagedNode) (all : List ConfigSet) (m : Dict (Unit {0}))
    → starts_with p (prefix_of dir) ≡ true
    → is_declared p node all ≡ true
    → is_managed (add_sets dir node all m) p ≡ true
unfolding add_sets
add_sets_adds dir p node [] m below declared = cc
add_sets_adds dir p node (cs ∷ all) m below declared =
    elim (Bool-cases (match_all_labels node.labels cs.labels)) [
      | inr apart ↦ rw apart (add_sets_adds dir p node all m below (rw apart at declared))
      | inl fits ↦ elim (Bool-cases (any (λ (f : File). f.path == p) cs.spec.files)) [
        | inl here ↦ rw fits (
            add_sets_keeps dir p node all (add_paths dir cs.spec.files m)
              (add_paths_adds dir p cs.spec.files m below here))
        | inr elsewhere ↦
            rw fits (add_sets_adds dir p node all _ below (rw (fits, elsewhere) at declared))
      ]
    ]

-- `clean` is filepath.Clean.
module _ (o : Outside) (clean : String → String) where
  purge_entry_spares :
      (dir p : String) (managed : Dict (Unit {0})) (entry : Entry) (h : List Op)
      → clean p ≡ p
      → IsClean clean dir entry
      → is_managed managed p ≡ true
      → removals clean p (purge_entry o dir managed entry h).1 ≡ removals clean p h
  unfolding purge_entry
  purge_entry_spares dir p managed entry h whole plain there =
      let path : String = dir +++ "/" +++ entry.name in
      elim (Bool-cases (entry.is_dir || is_managed managed path)) [
        | inl kept ↦ rw kept refl
        | inr loose ↦ elim (Bool-cases (path == p)) [
          | inr differ ↦ rw loose (rw (plain, whole, differ) refl)
          | inl same ↦
              let both : (entry.is_dir || is_managed managed path) ≡ true =
                or_right entry.is_dir (is_managed managed path)
                  (rw ((eq_iff path p).0 same) there) in
              cc
        ]
      ]

  purge_entries_spare :
      (dir p : String) (managed : Dict (Unit {0})) (entries : List Entry) (h : List Op)
      → clean p ≡ p
      → All (IsClean clean dir) entries
      → is_managed managed p ≡ true
      → removals clean p (for_each (purge_entry o dir managed) entries h).1 ≡ removals clean p h
  unfolding for_each
  purge_entries_spare dir p managed [] h whole plain there = refl
  purge_entries_spare dir p managed (entry ∷ entries) h whole (first, rest) there =
      purge_entries_spare dir p managed entries (purge_entry o dir managed entry h).1 whole rest
        there
      ∙ purge_entry_spares dir p managed entry h whole first there

  -- With the ConfigSets `all` of the namespace: if the path of each entry that a listing gives,
  -- spelled as the directory's with a slash and the entry's name, is clean, then `purge` removes no
  -- file that a ConfigSet which applies to the node declares by a clean path, if this path is the
  -- directory's with a slash and more.
  pub purge_spares :
      (namespace dir p : String) (node : ManagedNode) (all : List ConfigSet) (h : List Op)
      → o.config_sets h ≡ ok all
      → ((entries : List Entry) (h' : List Op)
          → o.entries_answer h' ≡ ok entries
          → All (IsClean clean dir) entries)
      → clean p ≡ p
      → starts_with p (prefix_of dir) ≡ true
      → is_declared p node all ≡ true
      → removals clean p (purge_directory o namespace node dir h).1 ≡ removals clean p h
  unfolding purge_directory managed_paths_under
  purge_spares namespace dir p node all h listed plain whole below declared =
      let managed : Dict (Unit {0}) = add_sets dir node all [] in
      let there : is_managed managed p ≡ true = add_sets_adds dir p node all [] below declared in
      let h1 : List Op = list_config_sets namespace ∷ h in
      rw listed (elim (Result-cases (o.entries_answer h1)) [
        | inr (e, unread) ↦ rw unread refl
        | inl (entries, read) ↦ rw read (
            purge_entries_spare dir p managed entries (read_dir dir ∷ h1) whole
              (plain entries h1 read) there)
      ])
