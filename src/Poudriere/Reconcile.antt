-- ===== src/Poudriere/Reconcile.antt =====
-- internal/controller/freebsd/poudriere_controller.go, without its set-up.
pub mod Gate
use nodemanager.Common.{Io, List, Option, Result, String, [], attempt, err, if◌then◌else◌}
use nodemanager.Common.{ignored, is_not_found, none, not, ok, perform, pure, raise, some, ◌==◌}
use nodemanager.Common.{◌>>=◌, ◌>>◌, ◌∷◌}
use nodemanager.Labels.{any_key, label_gate, none_match}
use nodemanager.Poudriere.{
  BuildJail, ManagedNode, NamespacedName, Op, Outside, PortsTree, PoudriereBulk, PoudriereJail,
  PoudrierePorts, build, create_jail, create_tree, get_node, list_build_jails, list_bulks,
  list_bulks_in, list_jails, list_ports, list_trees, read_hostname, sync, update_jail, update_tree,
}

abbrev pub poudriere_build : String
poudriere_build = "freebsd.nodemanager/poudriere"

-- The first entry of the name.
unfoldable pub exists : {A : Type 0} → (A → String) → String → List A → Option A
exists name_of name [] = none
exists name_of name (p ∷ l) = if name_of p == name then some p else exists name_of name l

-- One round for a resource: an update if it is listed, else its creation; then an update for each
-- listed entry of its name.
module _ {A : Type 0} (name_of : A → String) (update : A → Io Op (Unit {0}))
    (existing : List A) where
  abbrev pub update_or_create : Option A → Io Op (Unit {0}) → Io Op (Unit {0})
  update_or_create (some v) create = update v
  update_or_create none create = create

  abbrev pub update_named : String → List A → Io Op (Unit {0})
  update_named name [] = pure tt
  update_named name (e ∷ l) = do
    (if name_of e == name then update e else pure tt)
    update_named name l

  abbrev pub ensure_one : String → Io Op (Unit {0}) → Io Op (Unit {0})
  ensure_one name create = do
    update_or_create (exists name_of name existing) create
    update_named name existing

module _ (o : Outside) where
  abbrev pub ensure_trees : List PortsTree → List PoudrierePorts → Io Op (Unit {0})
  ensure_trees existing [] = pure tt
  ensure_trees existing (t ∷ trees) = do
    ensure_one (λ (p : PortsTree). p.name) (update_tree o) existing t.name
        (create_tree o (record {
          name = t.name;
          fetch_method = t.fetch_method;
          branch = t.branch;
          creation_date = "";
          creation_time = "";
          mountpoint = "";
        }))
    ensure_trees existing trees

  unfoldable pub ensure_all_trees : Io Op (Unit {0})
  ensure_all_trees = do
    trees ← perform list_ports o.ports_answer
    existing ← list_trees o
    ensure_trees existing trees

  abbrev pub ensure_jails : List BuildJail → List PoudriereJail → Io Op (Unit {0})
  ensure_jails existing [] = pure tt
  ensure_jails existing (t ∷ jails) = do
    ensure_one (λ (j : BuildJail). j.name) (update_jail o) existing t.name
        (create_jail o (record {
          name = t.name;
          version = t.version;
          arch = "";
          fetch_method = "http";
          creation = 0;
          path = "";
        }))
    ensure_jails existing jails

  unfoldable pub ensure_all_jails : Io Op (Unit {0})
  ensure_all_jails = do
    jails ← perform list_jails o.jails_answer
    existing ← list_build_jails o
    ensure_jails existing jails

  abbrev pub build_each : List PoudriereBulk → Io Op (Unit {0})
  build_each [] = pure tt
  build_each (b ∷ bulks) = do ignored (build o b.jail b.tree b.ports); build_each bulks

  unfoldable pub build_all : Io Op (Unit {0})
  build_all = do bulks ← perform list_bulks o.bulks_answer; sync o; build_each bulks

  abbrev pub ensure_and_build : Io Op (Unit {0})
  ensure_and_build = do ensure_all_trees; ensure_all_jails; build_all

  abbrev pub on_node : ManagedNode → Io Op (Unit {0})
  on_node node =
      if label_gate none_match node.labels ((poudriere_build, "disabled") ∷ [])
      then pure tt
      else if not (label_gate any_key node.labels ((poudriere_build, "") ∷ []))
      then pure tt
      else ensure_and_build

  abbrev pub found_node : Result ManagedNode → Io Op (Unit {0})
  found_node (err e) = if is_not_found e then pure tt else raise e
  found_node (ok node) = on_node node

  -- The result is empty each time. The namespace is the request's.
  unfoldable pub reconcile : String → Io Op (Unit {0})
  reconcile namespace = do
    hostname ← perform read_hostname o.hostname_answer
    r ←
        attempt
          (perform (get_node (record { namespace = namespace; name = hostname })) o.node_answer)
    found_node r

  abbrev requests_of : List PoudriereBulk → List NamespacedName
  requests_of [] = []
  requests_of (b ∷ bulks) = record { namespace = b.namespace; name = b.name } ∷ requests_of bulks

  abbrev requests : Result (List PoudriereBulk) → Io Op (List NamespacedName)
  requests (err e) = pure []
  requests (ok bulks) = pure (requests_of bulks)

  unfoldable pub bulks_on_change : String → Io Op (List NamespacedName)
  bulks_on_change namespace = do
    r ← attempt (perform (list_bulks_in namespace) o.bulks_answer)
    requests r
