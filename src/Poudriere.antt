-- ===== src/Poudriere.antt =====
-- pkg/poudriere and the resources of api/freebsd/v1 that it serves: the commands that are run, and
-- the listings that are read. Lines are shorter than the 64 KB of a scanner.
pub mod Reconcile
use nodemanager.Common.{Io, List, Result, String, [], err, fields, lift, ok, perform, pure}
use nodemanager.Common.{split, sprint, ℕ, ◌++◌, ◌>>=◌, ◌>>◌, ◌∷◌}
use nodemanager.Api.{ManagedNode, NamespacedName}

pub record PortsTree : Type 0 where
  pub name : String
  pub fetch_method : String
  pub branch : String
  pub creation_date : String
  pub creation_time : String
  pub mountpoint : String

pub record BuildJail : Type 0 where
  pub name : String
  pub version : String
  pub arch : String
  pub fetch_method : String
  pub creation : ℕ
  pub path : String

-- The resources.
pub record PoudrierePorts : Type 0 where
  pub name : String
  pub fetch_method : String
  pub branch : String

pub record PoudriereJail : Type 0 where
  pub name : String
  pub version : String

pub record PoudriereBulk : Type 0 where
  pub namespace : String
  pub name : String
  pub ports : List String
  pub tree : String
  pub jail : String

-- One call to the outside: the machine's name, a read of the cluster, or a command, alone or for
-- its output.
pub data Op : Type 0 where
  read_hostname : Op
  get_node : NamespacedName → Op
  list_ports : Op
  list_jails : Op
  list_bulks : Op
  list_bulks_in : (namespace : String) → Op
  run : List String → Op
  query : List String → Op

-- What the outside answers; `parse_date_time` is time.Parse with the layout of a date and a time.
pub record Outside : Type 0 where
  pub hostname_answer : List Op → Result String
  pub node_answer : List Op → Result ManagedNode
  pub ports_answer : List Op → Result (List PoudrierePorts)
  pub jails_answer : List Op → Result (List PoudriereJail)
  pub bulks_answer : List Op → Result (List PoudriereBulk)
  pub run_answer : List Op → Result (Unit {0})
  pub output_answer : List Op → Result String
  pub parse_date_time : String → Result ℕ

abbrev pub poudriere : String
poudriere = "/usr/local/bin/poudriere"

abbrev pub portshaker : String
portshaker = "/usr/local/bin/portshaker"

abbrev newline : ℕ
newline = 10

-- A line of five fields, and any other.
abbrev tree_of_fields : List String → List PortsTree
tree_of_fields (name ∷ fetch_method ∷ date ∷ time ∷ mountpoint ∷ []) =
    record {
      name = name;
      fetch_method = fetch_method;
      branch = "";
      creation_date = date;
      creation_time = time;
      mountpoint = mountpoint;
    }
    ∷ []
tree_of_fields _ = []

abbrev trees_of_lines : List String → List PortsTree
trees_of_lines [] = []
trees_of_lines (line ∷ lines) = tree_of_fields (fields line) ++ trees_of_lines lines

unfoldable pub read_poudriere_ports_status : String → List PortsTree
read_poudriere_ports_status out = trees_of_lines (split newline out)

abbrev put_jail : Result BuildJail → Result (List BuildJail) → Result (List BuildJail)
put_jail (ok jail) (ok jails) = ok (jail ∷ jails)
put_jail (ok jail) (err e) = err e
put_jail (err e) jails = err e

module _ (o : Outside) where
  abbrev created_at : (name version arch fetch_method path : String) → Result ℕ → Result BuildJail
  created_at name version arch fetch_method path (ok creation) = ok (record {
    name = name;
    version = version;
    arch = arch;
    fetch_method = fetch_method;
    creation = creation;
    path = path;
  })
  created_at name version arch fetch_method path (err e) = err e

  -- A line of seven fields comes in front of the jails of the other lines; any other is skipped.
  abbrev with_fields : List String → Result (List BuildJail) → Result (List BuildJail)
  with_fields (name ∷ version ∷ arch ∷ fetch_method ∷ date ∷ time ∷ path ∷ []) rest =
      put_jail
        (created_at name version arch fetch_method path
          (o.parse_date_time (sprint (date ∷ " " ∷ time ∷ []))))
        rest
  with_fields _ rest = rest

  abbrev jails_of_lines : List String → Result (List BuildJail)
  jails_of_lines [] = ok []
  jails_of_lines (line ∷ lines) = with_fields (fields line) (jails_of_lines lines)

  unfoldable pub read_poudriere_jail_list : String → Result (List BuildJail)
  read_poudriere_jail_list out = jails_of_lines (split newline out)

  abbrev pub command : List String → Io Op (Unit {0})
  command args = perform (run args) o.run_answer

  abbrev pub create_tree : PortsTree → Io Op (Unit {0})
  create_tree tree =
      command (poudriere ∷ "ports" ∷ "-c" ∷ "-p" ∷ tree.name ∷ "-m" ∷ tree.fetch_method ∷ [])

  abbrev delete_tree : PortsTree → Io Op (Unit {0})
  delete_tree tree = command (poudriere ∷ "ports" ∷ "-d" ∷ "-p" ∷ tree.name ∷ [])

  abbrev pub list_trees : Io Op (List PortsTree)
  list_trees = do
    out ← perform (query (poudriere ∷ "ports" ∷ "-l" ∷ [])) o.output_answer
    pure (read_poudriere_ports_status out)

  -- The update of a tree does nothing.
  abbrev pub update_tree : PortsTree → Io Op (Unit {0})
  update_tree tree = pure tt

  abbrev pub create_jail : BuildJail → Io Op (Unit {0})
  create_jail jail =
      command
        (poudriere ∷ "jail" ∷ "-c" ∷ "-j" ∷ jail.name ∷ "-v" ∷ jail.version ∷ "-m" ∷ "http" ∷ [])

  abbrev delete_build_jail : BuildJail → Io Op (Unit {0})
  delete_build_jail jail = command (poudriere ∷ "jail" ∷ "-d" ∷ "-j" ∷ jail.name ∷ [])

  abbrev pub list_build_jails : Io Op (List BuildJail)
  list_build_jails = do
    out ← perform (query (poudriere ∷ "jail" ∷ "-l" ∷ [])) o.output_answer
    lift (read_poudriere_jail_list out)

  abbrev pub update_jail : BuildJail → Io Op (Unit {0})
  update_jail jail = command (poudriere ∷ "jail" ∷ "-u" ∷ "-j" ∷ jail.name ∷ [])

  -- `strings.Join` with no separator.
  abbrev pub build : (jail tree : String) → List String → Io Op (Unit {0})
  build jail tree ports =
      command (poudriere ∷ "bulk" ∷ "-p" ∷ tree ∷ "-j" ∷ jail ∷ "-j" ∷ "2" ∷ sprint ports ∷ [])

  abbrev pub sync : Io Op (Unit {0})
  sync = command (portshaker ∷ "-v" ∷ [])
