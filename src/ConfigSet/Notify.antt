-- ===== src/ConfigSet/Notify.antt =====
-- `notifyResources` and `touchNotifyTarget`: an annotation that names the generation of a ConfigSet
-- is set on the resources that it notifies.
use nodemanager.Common.{Bool-cases, Dict, Io, List, Option, Result, String, [], arith, attempt}
use nodemanager.Common.{eq_iff, eq_refl, err, if◌then◌else◌, inl, inr, insert, lookup}
use nodemanager.Common.{lookup-insert, none, ok, perform, pure, refl, some, sprint, ◌==◌, ◌>>=◌}
use nodemanager.Common.{◌>>◌, ◌∷◌, ◌≡◌, ◌≢◌}
use nodemanager.Api.{ConfigSet, NamespacedName, NotifyRef}
use nodemanager.ConfigSet.{Op, Outside, Target, get_target, list_targets, update_target}

abbrev value_of : Option String → String
value_of none = ""
value_of (some v) = v

-- The annotations to write, or `none` if the target was notified for this generation.
unfoldable pub touch : String → String → Dict String → Option (Dict String)
touch key value annotations =
    if value_of (lookup key annotations) == value then none else some (insert key value annotations)

abbrev pub annotation_key : ConfigSet → String
annotation_key cs = sprint ("nodemanager.io/notify-" ∷ cs.name ∷ [])

module _ (o : Outside) where
  abbrev put_annotations : String → String → Target → Option (Dict String) → Io Op (Unit {0})
  put_annotations version kind target none = pure tt
  put_annotations version kind target (some annotations) = do
    attempt (
        perform (update_target version kind (record target { annotations = annotations }))
          o.update_answer)
    pure tt

  abbrev touched : String → String → (key value : String) → Result Target → Io Op (Unit {0})
  touched version kind key value (err e) = pure tt
  touched version kind key value (ok target) =
      put_annotations version kind target (touch key value target.annotations)

  unfoldable pub touch_notify_target :
      (version kind : String) → NamespacedName → (key value : String) → Io Op (Unit {0})
  touch_notify_target version kind name key value = do
    r ← attempt (perform (get_target version kind name) o.target_answer)
    touched version kind key value r

  unfoldable pub touch_all :
      (version kind : String) → List Target → (key value : String) → Io Op (Unit {0})
  touch_all version kind [] key value = pure tt
  touch_all version kind (item ∷ items) key value = do
    touch_notify_target version kind item.key key value
    touch_all version kind items key value

  abbrev touch_listed :
      (version kind : String) → Result (List Target) → (key value : String) → Io Op (Unit {0})
  touch_listed version kind (err e) key value = pure tt
  touch_listed version kind (ok items) key value = touch_all version kind items key value

  -- One round of the loop, in the namespace that the reference means.
  unfoldable pub notify_ref : NotifyRef → String → (key value : String) → Io Op (Unit {0})
  notify_ref ref namespace key value =
      if ref.name == ""
      then (do
        r ← attempt (perform (list_targets ref.api_version ref.kind namespace) o.targets_answer)
        touch_listed ref.api_version ref.kind r key value)
      else touch_notify_target ref.api_version ref.kind
          (record { namespace = namespace; name = ref.name }) key value

  unfoldable pub notify_each : ConfigSet → List NotifyRef → Io Op (Unit {0})
  notify_each cs [] = pure tt
  notify_each cs (ref ∷ refs) = do
    notify_ref ref (if ref.namespace == "" then cs.namespace else ref.namespace) (annotation_key cs)
        (o.decimal cs.generation)
    notify_each cs refs

  unfoldable pub notify_resources : ConfigSet → Io Op (Unit {0})
  notify_resources cs = notify_each cs cs.spec.notifies

touched_is :
    (key value : String) (annotations written : Dict String)
    → touch key value annotations ≡ some written
    → written ≡ insert key value annotations
unfolding touch
touched_is key value annotations written p =
    elim (Bool-cases (value_of (lookup key annotations) == value)) [
      | inl same ↦ cc (rw same at p)
      | inr differ ↦ cc (rw differ at p)
    ]

lookup_own :
    (key value : String) (annotations : Dict String)
    → lookup key (insert key value annotations) ≡ some value
lookup_own key value annotations = rw (lookup-insert key key value annotations, eq_refl key) refl

-- A target that was touched has the annotation, keeps its other annotations, and is not touched
-- again for the same generation.
pub touch_once :
    (key value place : String) (annotations written : Dict String)
    → touch key value annotations ≡ some written
    → (lookup key written ≡ some value)
      × (touch key value written ≡ none)
      × (key ≢ place → lookup place written ≡ lookup place annotations)
unfolding touch
touch_once key value place annotations written p =
    let own : lookup key written ≡ some value =
      rw (touched_is key value annotations written p) (lookup_own key value annotations) in
    (
      own,
      rw (own, eq_refl value) refl,
      λ differ.
          rw (touched_is key value annotations written p, lookup-insert key place value annotations)
            (ground (arith, eq_iff key place)),
    )
