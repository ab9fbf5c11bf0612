-- ===== src/Tests/JailController.antt =====
-- One jail that is deleted, and one that is updated in its turn.
use nodemanager.Common.{IsRetry, [], err, false, new_error, none, ok, pos, refl, second, some}
use nodemanager.Common.{tries, true, ◌*◌, ◌∷◌, ◌≡◌}
use nodemanager.Api.{NamespacedName}
use nodemanager.Jail.{Jail}
use nodemanager.JailController.{JailResource, Outside, jail_finalizer}
use nodemanager.JailController.Reconcile.{finalize, reconcile}
use nodemanager.JailController.Restart.{
  InTurn, awaits_start, handle_update-InTurn, handle_update_restarts,
}
use nodemanager.JailController.Safety.{IsGuarded, reconcile-IsGuarded}
use nodemanager.JailController.Update.{handle_update}

abbrev key : NamespacedName
key = record { namespace = "jails"; name = "web" }

abbrev web : Jail
web = record {
  name = "web";
  spec = record {
    release = "14.2-RELEASE";
    hostname = "web";
    interface = "em0";
    inet = "10.0.0.2/24";
    inet6 = "";
    mounts = [];
    update = record { schedule = "0 3 * * *"; delay = "1h"; group = "web" };
    pf = none;
    parameters = [];
  };
}

abbrev resource : JailResource
resource = record {
  jail = web;
  namespace = "jails";
  generation = 1;
  finalizers = jail_finalizer ∷ [];
  deletion_timestamp = none;
  node_name = "host";
  template_ref = "";
  deletion_protection = false;
  reconcile_period = "";
  status = record { conditions = []; release = ""; last_update = none; post_create_done = none };
}

abbrev outside : Outside
outside = record {
  hostname = "host";
  parse_duration = λ text. ok (pos (3600 * second));
  cron = λ text. ok (λ t. some (1000 * second));
  retry_on_conflict = λ m. m;
  set_status_condition = λ c conditions. c ∷ conditions;
  clock = λ h. 1000 * second;
  jail_answer = λ h. ok (record resource { deletion_timestamp = some 5 });
  write_answer = λ h. ok tt;
  template_answer = λ h. err (new_error "no template");
  jails_answer = λ h. ok [];
  manager_answer = λ h. ok tt;
  running_answer = λ h. ok true;
  release_answer = λ h. ok "14.2-RELEASE";
  is_locked = λ h. false;
  unlock_answer = λ h. ok tt;
  lock_answer = λ h. ok tt;
}

retries : IsRetry outside.retry_on_conflict
unfolding tries
retries m h = (0, refl)

reconcile-IsGuarded_example : IsGuarded outside (reconcile outside key []).1
reconcile-IsGuarded_example = reconcile-IsGuarded outside retries key [] tt

-- A finalizer goes, and with it the jail.
goes : (reconcile outside key []).0 ≡ ok none
unfolding reconcile finalize
goes = refl

handle_update_restarts_example :
    awaits_start outside "web" (handle_update outside resource []).1 ≡ false
handle_update_restarts_example = handle_update_restarts outside retries "web" resource [] refl

handle_update-InTurn_example : InTurn outside resource (handle_update outside resource []).1
handle_update-InTurn_example = handle_update-InTurn outside retries resource [] tt
