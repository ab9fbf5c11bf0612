-- ===== src/Jail.antt =====
-- pkg/jail: the resources of api/freebsd/v1, and the calls that the manager of jails makes. The
-- files below hold its operations; pkg/zfs is in Jail/Zfs.
pub mod Merge
pub mod Zfs
pub mod Network
pub mod Release
pub mod Provision
pub mod Remove
use nodemanager.Common.{Bool, Dict, List, Option, Result, String}

pub record JailUpdate : Type 0 where
  pub schedule : String
  pub delay : String
  pub group : String

pub record JailPf : Type 0 where
  pub anchor_name : String
  pub rules : List String

pub record JailMount : Type 0 where
  pub host_path : String
  pub jail_path : String
  pub fs_type : String
  pub read_only : Bool

pub record JailSpec : Type 0 where
  pub release : String
  pub hostname : String
  pub interface : String
  pub inet : String
  pub inet6 : String
  pub mounts : List JailMount
  pub update : JailUpdate
  pub pf : Option JailPf
  pub parameters : Dict String

pub record Jail : Type 0 where
  pub name : String
  pub spec : JailSpec

pub record JailTemplateSpec : Type 0 where
  pub interface : String
  pub mounts : List JailMount
  pub update : JailUpdate
  pub pf : Option JailPf
  pub parameters : Dict String

-- An entry of what jls(8) prints.
pub record RunningJail : Type 0 where
  pub name : String
  pub ipv4_addrs : List String
  pub ipv6_addrs : List String

-- A dataset or a snapshot, by its place below the base dataset.
pub data Dataset : Type 0 where
  jail_dataset : (jail : String) → Dataset
  jail_root : (jail : String) → Dataset
  release_dataset : (release : String) → Dataset
  release_snapshot : (release jail : String) → Dataset
  other_dataset : String → Dataset

-- A file of a jail on the host.
pub data HostFile : Type 0 where
  conf : (jail : String) → HostFile
  fstab : (jail : String) → HostFile
  rc_script : (jail : String) → HostFile

-- One call to the outside: zfs(8), jail(8), jls(8), pfctl(8), sysrc(8), mount(8), ifconfig(8), and
-- the file system.
pub data Op : Type 0 where
  ensure_release : (release : String) → Op
  zfs_list : Dataset → Op
  zfs_create : Dataset → Op
  zfs_get_origin : Dataset → Op
  zfs_snapshot : Dataset → Op
  zfs_clone : (from to : Dataset) → Op
  zfs_destroy : Dataset → Op
  zfs_destroy_recursive : Dataset → Op
  zfs_umount : Dataset → Op
  copy_host_files : (jail : String) → Op
  make_parent : HostFile → Op
  read_host_file : HostFile → Op
  write_host_file : HostFile → String → Op
  remove_host_file : HostFile → Op
  make_mountpoint : (jail path : String) → Op
  umount : (jail path : String) → Op
  umount_rest : (jail : String) → Op
  start_jail : (jail : String) → Op
  stop_jail : (jail : String) → Op
  list_running : Op
  load_anchor : String → List String → Op
  flush_anchor : String → Op
  read_rcvar : (jail : String) → Op
  set_rcvar : (jail : String) → Bool → Op
  remove_alias : (interface family address : String) → Op

-- What the outside answers. `listing` is whether zfs-list knows the dataset, which exit status 1
-- denies; an origin comes with its release, the last component before the `@`.
pub record Outside : Type 0 where
  pub done_answer : List Op → Result (Unit {0})
  pub listing : List Op → Result Bool
  pub origin_answer : List Op → Result (Option (String × Dataset))
  pub running_answer : List Op → Result (List RunningJail)
  pub file_answer : List Op → Result String
  pub remove_answer : List Op → Result (Unit {0})
  pub is_enabled : List Op → Bool
  pub rc_text : String → String
  pub conf_text : Jail → String
  pub fstab_text : Jail → String
