-- ===== src/Tests/Jail.antt =====
-- One jail, merged with its template, changed and deleted.
mod Release
use nodemanager.Common.{List, Sometime, [], if◌then◌else◌, lookup, none, ok, or_else, refl}
use nodemanager.Common.{some, true, ◌&&◌, ◌+◌, ◌==◌, ◌↔◌, ◌∷◌, ◌≡◌}
use nodemanager.Jail.{Jail, Outside, RunningJail, release_snapshot}
use nodemanager.Jail.Merge.{lookup-merge_parameters, merge_parameters}
use nodemanager.Jail.Network.{
  IsAddressed, IsEntryOf, change, cycle_jail_if_network_changed, cycle_stops, find_running,
  has_address, remove_ip_aliases, stops, strip_cidr,
}
use nodemanager.Jail.Provision.{
  clone_root, configure_jail, drop_stale_root, ensure_jail, ensure_jail_rc_service, flush,
  write_mounts, write_rendered,
}
use nodemanager.Jail.Provision.Spares.{AllOwnRoots, ensure_jail-AllOwnRoots}
use nodemanager.Jail.Remove.{
  delete_jail, destroy_jail_dataset, destroy_snapshot, remove_file, remove_jail_rc_service, stop,
  unmount_each,
}
use nodemanager.Jail.Remove.Teardown.{
  AllSpare, IsDestroyed, delete_jail-AllSpare, delete_jail-IsDestroyed,
}
use nodemanager.Jail.Zfs.{ensure_dataset, exists}

abbrev web : Jail
web = record {
  name = "web01";
  spec = record {
    release = "14.2-RELEASE";
    hostname = "";
    interface = "em0";
    inet = "10.0.0.2/24";
    inet6 = "";
    mounts = [];
    update = record { schedule = ""; delay = ""; group = "" };
    pf = none;
    parameters = [];
  };
}

abbrev moved : List RunningJail
moved = record { name = "web01"; ipv4_addrs = "10.0.0.9" ∷ []; ipv6_addrs = [] } ∷ []

abbrev host : Outside
host = record {
  done_answer = λ h. ok tt;
  listing = λ h. ok true;
  origin_answer = λ h. ok none;
  running_answer = λ h. ok moved;
  file_answer = λ h. ok "";
  remove_answer = λ h. ok tt;
  is_enabled = λ h. true;
  rc_text = λ name. name;
  conf_text = λ j. j.name;
  fstab_text = λ j. j.name;
}

lookup-merge_parameters_example :
    lookup "children.max"
      (merge_parameters (("children.max", "5") ∷ []) (("children.max", "1") ∷ []))
    ≡ or_else
        (lookup "children.max" (("children.max", "5") ∷ []))
        (lookup "children.max" (("children.max", "1") ∷ []))
unfolding lookup
lookup-merge_parameters_example =
    lookup-merge_parameters "children.max" (("children.max", "5") ∷ []) (("children.max", "1") ∷ [])
      (refl, tt) (refl, tt)

cycle_stops_example :
    (stops web.name (cycle_jail_if_network_changed host web []).1 ≡ (
      if (web.spec.inet == "") && (web.spec.inet6 == "")
      then 0
      else (if web.name == web.name then change web (find_running web.name moved) else 0) + 0))
    × IsEntryOf web.name moved (find_running web.name moved)
    × ((now : RunningJail) → (has_address web now ≡ true) ↔ IsAddressed web now)
cycle_stops_example = cycle_stops host web.name web moved [] refl

delete_jail-AllSpare_example : AllSpare "web01" (delete_jail host web []).1
delete_jail-AllSpare_example = delete_jail-AllSpare host web [] tt

deleted : (delete_jail host web []).0 ≡ ok tt
unfolding delete_jail stop remove_file remove_jail_rc_service unmount_each destroy_jail_dataset
    destroy_snapshot remove_ip_aliases exists flush
deleted = refl

delete_jail-IsDestroyed_example : Sometime (IsDestroyed host "web01") (delete_jail host web []).1
delete_jail-IsDestroyed_example = delete_jail-IsDestroyed host web [] deleted

-- The root of web01 was cloned from an older release.
abbrev upgraded : Outside
upgraded = record host {
  origin_answer = λ h. ok (some ("14.1-RELEASE", release_snapshot "14.1-RELEASE" "web01"));
}

ensure_jail-AllOwnRoots_example : AllOwnRoots "web01" (ensure_jail upgraded web []).1
ensure_jail-AllOwnRoots_example = ensure_jail-AllOwnRoots upgraded web [] tt

reprovisioned : (ensure_jail upgraded web []).0 ≡ ok tt
unfolding ensure_jail ensure_dataset exists drop_stale_root clone_root configure_jail write_mounts
    write_rendered ensure_jail_rc_service cycle_jail_if_network_changed strip_cidr has_address
    remove_ip_aliases
reprovisioned = refl
