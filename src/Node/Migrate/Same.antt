-- ===== src/Node/Migrate/Same.antt =====
-- The time of the last upgrade is the same before and after its migration.
use nodemanager.Common.{Dict, Option, String, eq_refl, erase, false, lookup, lookup-erase, none}
use nodemanager.Common.{ok, refl, some, sym, true, ℕ, ◌≡◌}
use nodemanager.Api.{ManagedNode}
use nodemanager.Node.{Outside}
use nodemanager.Node.Migrate.{
  annotation, drop_annotation, is_none, needed, of_last_upgrade, set_status,
}
use nodemanager.Node.Upgrade.{annotation_last_upgrade, last_upgrade_time, recorded_time}

before_migration :
    (o : Outside) (s : Option ℕ) (a : Option String) (v : String) (t : ℕ)
    → is_none s ≡ true
    → a ≡ some v
    → o.parse_time v ≡ ok t
    → recorded_time o s a ≡ ok (some t)
before_migration o none a v t need present parsed = rw (present, parsed) refl
before_migration o (some s) a v t need present parsed = cc

erased : (k : String) (m : Dict String) → lookup k (erase k m) ≡ none
erased k m = rw (lookup-erase k k m, eq_refl k) refl

-- Where the migration of the time of the last upgrade is needed and the annotation is a time, the
-- node with the time in its status and without the annotation has the same last upgrade, and
-- neither annotation nor need of a migration is left.
pub migration_keeps_time :
    (o : Outside) (node : ManagedNode) (v : String) (t : ℕ)
    → needed of_last_upgrade node ≡ true
    → lookup (annotation of_last_upgrade) node.annotations ≡ some v
    → o.parse_time v ≡ ok t
    → let migrated : ManagedNode =
        drop_annotation of_last_upgrade (set_status of_last_upgrade t node) in
      (last_upgrade_time o migrated ≡ last_upgrade_time o node)
      × (lookup (annotation of_last_upgrade) migrated.annotations ≡ none)
      × (needed of_last_upgrade migrated ≡ false)
unfolding last_upgrade_time needed drop_annotation set_status
migration_keeps_time o node v t need present parsed = (
  sym (before_migration o node.status.last_upgrade _ v t need present parsed),
  erased annotation_last_upgrade node.annotations,
  refl,
)
