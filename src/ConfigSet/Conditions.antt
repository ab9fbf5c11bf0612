-- ===== src/ConfigSet/Conditions.antt =====
-- `updateConfigSetCondition`: the condition Conflicted of a ConfigSet.
use nodemanager.Common.{Bool, Io, List, Option, String, [], ask, false, if◌then◌else◌, nat_eq}
use nodemanager.Common.{none, not, perform, pure, some, sprint, true, ℕ, ◌&&◌, ◌==◌, ◌>>=◌}
use nodemanager.Common.{◌∷◌}
use nodemanager.Api.{Condition, ConfigSet, NamespacedName}
use nodemanager.ConfigSet.{Op, Outside, get_config_set, read_clock, update_config_set}

module _ (o : Outside) where
  abbrev pub conflicted : ℕ → ConfigSet → List String → Condition
  conflicted now cs [] = record {
    condition_type = "Conflicted";
    is_true = false;
    reason = "NoConflict";
    message = "";
    last_transition_time = some now;
    observed_generation = cs.generation;
  }
  conflicted now cs (c ∷ conflicts) = record {
    condition_type = "Conflicted";
    is_true = true;
    reason = "ResourceConflict";
    message =
        sprint ("resource overlap with another ConfigSet: " ∷ o.list_text (c ∷ conflicts) ∷ []);
    last_transition_time = some now;
    observed_generation = cs.generation;
  }

  abbrev same_bool : Bool → Bool → Bool
  same_bool true b = b
  same_bool false b = not b

  -- The comparison that leaves the time out.
  abbrev pub same_condition : Option Condition → Condition → Bool
  same_condition none c = false
  same_condition (some existing) c =
      same_bool existing.is_true c.is_true
      && (existing.reason == c.reason)
      && (existing.message == c.message)
      && nat_eq existing.observed_generation c.observed_generation

  abbrev pub put_condition : ConfigSet → Condition → Io Op (Unit {0})
  put_condition cs c =
      if same_condition (o.find_status_condition c.condition_type cs.conditions) c
      then pure tt
      else perform
          (update_config_set (record cs { conditions = o.set_status_condition c cs.conditions }))
          o.update_answer

  unfoldable pub update_config_set_condition : NamespacedName → List String → Io Op (Unit {0})
  update_config_set_condition key conflicts = o.retry_on_conflict (do
    cs ← perform (get_config_set key) o.config_set_answer
    now ← ask read_clock o.clock
    put_condition cs (conflicted now cs conflicts))
