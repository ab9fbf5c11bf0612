-- ===== src/Jail/Zfs.antt =====
-- pkg/zfs/zfs.go
use nodemanager.Common.{Bool, Io, if◌then◌else◌, not, perform, pure, ◌>>=◌}
use nodemanager.Jail.{Dataset, Op, Outside, zfs_create, zfs_list}

module _ (o : Outside) where
  unfoldable pub exists : Dataset → Io Op Bool
  exists dataset = perform (zfs_list dataset) o.listing

  unfoldable pub ensure_dataset : Dataset → Io Op (Unit {0})
  ensure_dataset dataset = do
    there ← exists dataset
    if not there then perform (zfs_create dataset) o.done_answer else pure tt
