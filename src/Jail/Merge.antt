-- ===== src/Jail/Merge.antt =====
-- pkg/jail/merge.go: the defaults of a template below the fields of a jail.
use nodemanager.Common.{Bool-cases, Dict, NodupKeys, Option, String, [], ap, copy, eq_iff}
use nodemanager.Common.{if◌then◌else◌, inl, inr, insert, is_empty, lookup, lookup-insert, none}
use nodemanager.Common.{or_else, refl, some, sym, ◌++◌, ◌==◌, ◌∙◌, ◌∷◌, ◌≡◌}
use nodemanager.Jail.{JailPf, JailSpec, JailTemplateSpec, JailUpdate}

abbrev or_default : String → String → String
or_default s d = if s == "" then d else s

unfoldable pub merge_update : JailUpdate → JailUpdate → JailUpdate
merge_update spec tmpl = record {
  schedule = or_default spec.schedule tmpl.schedule;
  delay = or_default spec.delay tmpl.delay;
  group = or_default spec.group tmpl.group;
}

unfoldable pub merge_parameters : Dict String → Dict String → Dict String
merge_parameters spec tmpl = if is_empty tmpl then spec else copy (copy [] tmpl) spec

unfoldable pub merge_pf : Option JailPf → Option JailPf → Option JailPf
merge_pf spec none = spec
merge_pf none (some tmpl) = some tmpl
merge_pf (some spec) (some tmpl) = some (record {
  anchor_name = or_default spec.anchor_name tmpl.anchor_name;
  rules = tmpl.rules ++ spec.rules;
})

unfoldable pub merge_template_defaults : JailSpec → JailTemplateSpec → JailSpec
merge_template_defaults spec tmpl = record spec {
  interface = or_default spec.interface tmpl.interface;
  mounts = if is_empty spec.mounts then tmpl.mounts else spec.mounts;
  update = merge_update spec.update tmpl.update;
  pf = merge_pf spec.pf tmpl.pf;
  parameters = merge_parameters spec.parameters tmpl.parameters;
}

lookup-copy :
    (j : String) (src dst : Dict String)
    → NodupKeys src
    → lookup j (copy dst src) ≡ or_else (lookup j src) (lookup j dst)
unfolding lookup copy
lookup-copy j [] dst once = refl
lookup-copy j ((k, v) ∷ src) dst (fresh, once) = elim (Bool-cases (k == j)) [
  | inl same ↦
      rw (lookup-copy j src (insert k v dst) once)
        (rw (lookup-insert k j v dst, same) (rw (sym ((eq_iff k j).0 same), fresh) refl))
  | inr differ ↦
      rw (lookup-copy j src (insert k v dst) once) (rw (lookup-insert k j v dst, differ) refl)
]

or_else-none {ℓ} : {A : Type ℓ} (m : Option A) → or_else m none ≡ m
or_else-none none = refl
or_else-none (some a) = refl

-- In the merged parameters of two maps that have each key once, a key has the jail's value, and the
-- template's where the jail has none.
pub lookup-merge_parameters :
    (j : String) (spec tmpl : Dict String)
    → NodupKeys spec
    → NodupKeys tmpl
    → lookup j (merge_parameters spec tmpl) ≡ or_else (lookup j spec) (lookup j tmpl)
unfolding merge_parameters lookup
lookup-merge_parameters j spec [] once once' = sym (or_else-none (lookup j spec))
lookup-merge_parameters j spec (kv ∷ tmpl) once once' =
    lookup-copy j spec (copy [] (kv ∷ tmpl)) once
    ∙ ap (or_else (lookup j spec)) (lookup-copy j (kv ∷ tmpl) [] once' ∙ or_else-none _)
