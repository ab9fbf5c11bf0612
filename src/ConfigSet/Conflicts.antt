-- ===== src/ConfigSet/Conflicts.antt =====
-- `detectConflicts` and `slicesEqual`
use nodemanager.Common.{All, All-iff, Bool, Bool-cases, Dict, Io, List, Option, Option-cases}
use nodemanager.Common.{String, [], ap, append_nil, eq_iff, false, if◌then◌else◌, inl, inr}
use nodemanager.Common.{insert, lookup, lookup-insert, ne_of_test, none, ok, perform, pure}
use nodemanager.Common.{quote, refl, some, sprint, true, ◌&&◌, ◌++◌, ◌==◌, ◌>>=◌, ◌↔◌}
use nodemanager.Common.{◌∷◌, ◌≡◌, ◌≢◌}
use nodemanager.Api.{ConfigSet, File, ManagedNode, Package, Service}
use nodemanager.ConfigSet.{Op, Outside, list_config_sets}
use nodemanager.Labels.{match_all_labels}

unfoldable pub slices_equal : List String → List String → Bool
slices_equal [] [] = true
slices_equal [] (y ∷ ys) = false
slices_equal (x ∷ xs) [] = false
slices_equal (x ∷ xs) (y ∷ ys) = (x == y) && slices_equal xs ys

-- The three maps from what is claimed to the name of its ConfigSet.
pub record Claims : Type 0 where
  pub files : Dict String
  pub services : Dict String
  pub packages : Dict String

unfoldable pub claim_each : String → List String → Dict String → Dict String
claim_each owner [] m = m
claim_each owner (k ∷ keys) m = claim_each owner keys (insert k owner m)

abbrev pub describe : String → String → Option String → List String
describe kind name none = []
describe kind name (some owner) =
    sprint (kind ∷ ":" ∷ name ∷ " (also in configset " ∷ quote owner ∷ ")" ∷ []) ∷ []

unfoldable pub conflicts_with : String → List String → Dict String → List String
conflicts_with kind [] m = []
conflicts_with kind (k ∷ keys) m = describe kind k (lookup k m) ++ conflicts_with kind keys m

abbrev pub file_paths : List File → List String
file_paths [] = []
file_paths (f ∷ files) = f.path ∷ file_paths files

abbrev pub service_names : List Service → List String
service_names [] = []
service_names (s ∷ services) = s.name ∷ service_names services

abbrev pub package_names : List Package → List String
package_names [] = []
package_names (p ∷ packages) = p.name ∷ package_names packages

abbrev pub claim_set : ConfigSet → Claims → Claims
claim_set rival c = record {
  files = claim_each rival.name (file_paths rival.spec.files) c.files;
  services = claim_each rival.name (service_names rival.spec.services) c.services;
  packages = claim_each rival.name (package_names rival.spec.packages) c.packages;
}

-- Whether `rival` is another ConfigSet that applies to the node.
abbrev pub is_rival : ConfigSet → ManagedNode → ConfigSet → Bool
is_rival cs node rival =
    if rival.name == cs.name then false else match_all_labels node.labels rival.labels

unfoldable pub claims_of : ConfigSet → ManagedNode → List ConfigSet → Claims → Claims
claims_of cs node [] c = c
claims_of cs node (rival ∷ all) c =
    claims_of cs node all (if is_rival cs node rival then claim_set rival c else c)

abbrev pub no_claims : Claims
no_claims = record { files = []; services = []; packages = [] }

unfoldable pub conflicts_in : ConfigSet → Claims → List String
conflicts_in cs c =
    conflicts_with "file" (file_paths cs.spec.files) c.files
    ++ (conflicts_with "service" (service_names cs.spec.services) c.services
        ++ conflicts_with "package" (package_names cs.spec.packages) c.packages)

module _ (o : Outside) where
  unfoldable pub detect_conflicts : ConfigSet → ManagedNode → Io Op (List String)
  detect_conflicts cs node = do
    all ← perform (list_config_sets cs.namespace) o.config_sets
    pure (conflicts_in cs (claims_of cs node all no_claims))

-- The three kinds of what a ConfigSet claims.
pub data Claimed : Type 0 where
  a_file a_service a_package : Claimed

abbrev pub keys_of : Claimed → ConfigSet → List String
keys_of a_file cs = file_paths cs.spec.files
keys_of a_service cs = service_names cs.spec.services
keys_of a_package cs = package_names cs.spec.packages

abbrev claims_at : Claimed → Claims → Dict String
claims_at a_file c = c.files
claims_at a_service c = c.services
claims_at a_package c = c.packages

-- No other ConfigSet that applies to the node claims `k`.
abbrev pub Unclaimed : ConfigSet → ManagedNode → List ConfigSet → Claimed → String → Type 0
Unclaimed cs node all kind k =
    All
      (λ (rival : ConfigSet).
        rival.name ≢ cs.name
        → match_all_labels node.labels rival.labels ≡ true
        → All (λ j. j ≢ k) (keys_of kind rival))
      all

claim_each-none :
    (k owner : String) (keys : List String) (m : Dict String)
    → (lookup k (claim_each owner keys m) ≡ none) ↔ (All (λ j. j ≢ k) keys × (lookup k m ≡ none))
unfolding claim_each
claim_each-none k owner [] m = ((λ p. (tt, p)), (λ (a, b). b))
claim_each-none k owner (j ∷ keys) m =
    let (there, back) = claim_each-none k owner keys (insert j owner m) in
    elim (Bool-cases (j == k)) [
      | inl same ↦ (
        (λ p. cc (rw (lookup-insert j k owner m, same) at (there p).1)),
        (λ ((a, as'), b). elim (a ((eq_iff j k).0 same)) [ ]),
      )
      | inr differ ↦ (
        (λ p.
            let (later, now) = there p in
            ((ne_of_test j k differ, later), rw (lookup-insert j k owner m, differ) at now)),
        (λ ((a, later), b). back (later, rw (lookup-insert j k owner m, differ) b)),
      )
    ]

claims_at-claim_set :
    (kind : Claimed) (rival : ConfigSet) (c : Claims)
    → claims_at kind (claim_set rival c)
      ≡ claim_each rival.name (keys_of kind rival) (claims_at kind c)
claims_at-claim_set a_file rival c = refl
claims_at-claim_set a_service rival c = refl
claims_at-claim_set a_package rival c = refl

-- The test for a rival, by what it stands for.
is_rival_iff :
    (cs : ConfigSet) (node : ManagedNode) (rival : ConfigSet)
    → (is_rival cs node rival ≡ true)
      ↔ ((rival.name ≢ cs.name) × (match_all_labels node.labels rival.labels ≡ true))
is_rival_iff cs node rival = elim (Bool-cases (rival.name == cs.name)) [
  | inl same ↦ rw same ((λ p. cc), (λ (a, b). elim (a ((eq_iff rival.name cs.name).0 same)) [ ]))
  | inr differ ↦ rw differ ((λ p. (ne_of_test rival.name cs.name differ, p)), (λ (a, b). b))
]

claims_of-none :
    (kind : Claimed) (k : String) (cs : ConfigSet) (node : ManagedNode) (all : List ConfigSet)
    (c : Claims)
    → (lookup k (claims_at kind (claims_of cs node all c)) ≡ none)
      ↔ (Unclaimed cs node all kind k × (lookup k (claims_at kind c) ≡ none))
unfolding claims_of
claims_of-none kind k cs node [] c = ((λ p. (tt, p)), (λ (a, b). b))
claims_of-none kind k cs node (rival ∷ all) c = elim (Bool-cases (is_rival cs node rival)) [
  | inr no' ↦
      let (there, back) = claims_of-none kind k cs node all c in
      rw no' (
        (λ p.
            let (later, base) = there p in
            (((λ a b. cc ((is_rival_iff cs node rival).1 (a, b), no')), later), base)),
        (λ ((now, later), base). back (later, base)),
      )
  | inl yes' ↦
      let (there, back) = claims_of-none kind k cs node all (claim_set rival c) in
      let rival' : (rival.name ≢ cs.name) × (match_all_labels node.labels rival.labels ≡ true) =
        (is_rival_iff cs node rival).0 yes' in
      let (into, out) = claim_each-none k rival.name (keys_of kind rival) (claims_at kind c) in
      rw yes' (
        (λ p.
            let (later, set) = there p in
            let (now, base) = into (rw (claims_at-claim_set kind rival c) at set) in
            (((λ a b. now), later), base)),
        (λ ((now, later), base).
            back
              (later, rw (claims_at-claim_set kind rival c) (out (now rival'.0 rival'.1, base)))),
      )
]

conflicts_with_nil :
    (kind : String) (keys : List String) (m : Dict String)
    → (conflicts_with kind keys m ≡ []) ↔ All (λ k. lookup k m ≡ none) keys
unfolding conflicts_with
conflicts_with_nil kind [] m = ((λ p. tt), (λ p. refl))
conflicts_with_nil kind (k ∷ keys) m =
    let (there, back) = conflicts_with_nil kind keys m in
    elim (Option-cases (lookup k m)) [
      | inl free ↦ rw free ((λ p. (refl, there p)), (λ (a, b). back b))
      | inr (owner, taken') ↦ rw taken' ((λ p. cc), (λ (a, b). cc))
    ]

none_at_first : (kind : Claimed) (k : String) → lookup k (claims_at kind no_claims) ≡ none
unfolding lookup
none_at_first a_file k = refl
none_at_first a_service k = refl
none_at_first a_package k = refl

keys_free :
    (kind : Claimed) (cs : ConfigSet) (node : ManagedNode) (all : List ConfigSet)
    → All
        (λ k. lookup k (claims_at kind (claims_of cs node all no_claims)) ≡ none)
        (keys_of kind cs)
      ↔ All (Unclaimed cs node all kind) (keys_of kind cs)
keys_free kind cs node all =
    All-iff
      (λ k.
        let (there, back) = claims_of-none kind k cs node all no_claims in
        ((λ p. (there p).0), (λ p. back (p, none_at_first kind k))))
      (keys_of kind cs)

each_kind :
    (P : Claimed → Type 0) → P a_file → P a_service → P a_package → (kind : Claimed) → P kind
each_kind P f s p a_file = f
each_kind P f s p a_service = s
each_kind P f s p a_package = p

conflicts_in_nil :
    (cs : ConfigSet) (node : ManagedNode) (all : List ConfigSet)
    → (conflicts_in cs (claims_of cs node all no_claims) ≡ [])
      ↔ ((kind : Claimed) → All (Unclaimed cs node all kind) (keys_of kind cs))
unfolding conflicts_in
conflicts_in_nil cs node all =
    let c : Claims = claims_of cs node all no_claims in
    let (files, files') = conflicts_with_nil "file" (keys_of a_file cs) c.files in
    let (services, services') = conflicts_with_nil "service" (keys_of a_service cs) c.services in
    let (packages, packages') = conflicts_with_nil "package" (keys_of a_package cs) c.packages in
    (
      (λ p.
          let (f, rest) =
            append_nil (conflicts_with "file" (keys_of a_file cs) c.files)
              (conflicts_with "service" (keys_of a_service cs) c.services
                ++ conflicts_with "package" (keys_of a_package cs) c.packages)
              p in
          let (s, g) =
            append_nil (conflicts_with "service" (keys_of a_service cs) c.services)
              (conflicts_with "package" (keys_of a_package cs) c.packages) rest in
          each_kind (λ kind. All (Unclaimed cs node all kind) (keys_of kind cs))
            ((keys_free a_file cs node all).0 (files f))
            ((keys_free a_service cs node all).0 (services s))
            ((keys_free a_package cs node all).0 (packages g))),
      (λ free. rw (files' ((keys_free a_file cs node all).1 (free a_file))) (
          rw (services' ((keys_free a_service cs node all).1 (free a_service)))
            (packages' ((keys_free a_package cs node all).1 (free a_package))))),
    )

ok_iff {ℓ} : {A : Type ℓ} (a b : A) → (ok a ≡ ok b) ↔ (a ≡ b)
ok_iff a b = ((λ p. cc), (λ p. ap ok p))

-- With the ConfigSets `all` of the namespace, `detectConflicts` reports nothing exactly if no file
-- path, service name or package name of `cs` is claimed by a ConfigSet of another name that
-- applies to the node.
pub detect_conflicts_iff :
    (o : Outside) (cs : ConfigSet) (node : ManagedNode) (all : List ConfigSet) (h : List Op)
    → o.config_sets h ≡ ok all
    → ((detect_conflicts o cs node h).0 ≡ ok [])
      ↔ ((kind : Claimed) → All (Unclaimed cs node all kind) (keys_of kind cs))
unfolding detect_conflicts
detect_conflicts_iff o cs node all h listed =
    let (there, back) = conflicts_in_nil cs node all in
    let (strip, put) = ok_iff (conflicts_in cs (claims_of cs node all no_claims)) [] in
    rw listed ((λ p. there (strip p)), (λ p. put (back p)))
