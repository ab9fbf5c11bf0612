-- ===== src/Node/Status.antt =====
-- `updateNodeStatus`: the facts of the machine in the status, with the key of its WireGuard
-- interface in a Secret.
pub mod Facts
use nodemanager.Common.{Bool, Dict, Io, List, Option, Result, String, [], ask, attempt, err}
use nodemanager.Common.{false, if◌then◌else◌, is_not_found, lookup, none, not, ok, on_error}
use nodemanager.Common.{perform, pure, raise, some, sprint, wrap, ◌==◌, ◌>>=◌, ◌>>◌, ◌∷◌}
use nodemanager.Api.{
  ManagedNode, NamespacedName, NetworkInterface, NodeFacts, SshHostKey, WireGuardInterface,
}
use nodemanager.Node.{
  NodeInfo, Op, Outside, create_secret, generate_key_pair, get_node, get_secret, net_interfaces,
  node_info, run_command, update_status,
}
use nodemanager.Node.Cordon.{key_of}
use nodemanager.Node.Status.Facts.{
  interfaces_of, is_jail_text, merge_bootstrapped_key, same_facts, ssh_keys_of, wire_guard_of,
}

abbrev pub text_of : Result String → String
text_of (ok out) = out
text_of (err e) = ""

abbrev value_of : Option String → String
value_of none = ""
value_of (some v) = v

module _ (o : Outside) where
  -- The output of a command, and nothing where it fails.
  abbrev pub output : String → List String → Io Op String
  output command args = do
    r ← attempt (perform (run_command command args) o.command_answer)
    pure (text_of r)

  unfoldable pub collect_network_interfaces : Io Op (Dict NetworkInterface)
  collect_network_interfaces = do
    r ← attempt (perform net_interfaces o.interfaces_answer)
    pure (interfaces_of r)

  unfoldable pub collect_ssh_host_keys : String → Io Op (List SshHostKey)
  collect_ssh_host_keys name = do
    out ← output "ssh-keygen" ("-r" ∷ name ∷ [])
    pure (ssh_keys_of out)

  unfoldable pub collect_wire_guard_interfaces : Io Op (List WireGuardInterface)
  collect_wire_guard_interfaces = do
    out ← output "wg" ("show" ∷ "all" ∷ "dump" ∷ [])
    pure (wire_guard_of out)

  unfoldable pub is_jailed : Io Op Bool
  is_jailed = do out ← output "sysctl" ("-n" ∷ "security.jail.jailed" ∷ []); pure (is_jail_text out)

  abbrev pub secret_key : String → String → String → NamespacedName
  secret_key namespace node_name iface = record {
    namespace = namespace;
    name = sprint ("wg-" ∷ iface ∷ "-" ∷ node_name ∷ []);
  }

  abbrev pub with_secret : NamespacedName → Result (Dict String) → Io Op String
  with_secret key (ok secret) = pure (value_of (lookup "public-key" secret))
  with_secret key (err e) =
      if not (is_not_found e)
      then raise (wrap (sprint ("failed to get WireGuard key secret " ∷ key.name ∷ [])) e)
      else do
        (private_key, public_key) ←
            on_error (wrap "failed to generate WireGuard keypair")
              (perform generate_key_pair o.key_pair)
        on_error (wrap (sprint ("failed to create WireGuard key secret " ∷ key.name ∷ [])))
            (perform (create_secret key private_key public_key) o.create_answer)
        pure public_key

  unfoldable pub ensure_wire_guard_key_secret : (namespace node_name iface : String) → Io Op String
  ensure_wire_guard_key_secret namespace node_name iface = do
    r ← attempt (perform (get_secret (secret_key namespace node_name iface)) o.secret_answer)
    with_secret (secret_key namespace node_name iface) r

  module _ (node : ManagedNode) where
    abbrev pub interface_name : String
    interface_name = if node.wire_guard.interface == "" then "wg0" else node.wire_guard.interface

    abbrev pub with_key : List WireGuardInterface → Result String → List WireGuardInterface
    with_key live (err e) = live
    with_key live (ok key) = merge_bootstrapped_key live interface_name key

    unfoldable pub wire_guard_status : Io Op (List WireGuardInterface)
    wire_guard_status = do
      live ← collect_wire_guard_interfaces
      if node.wire_guard.enabled
          then (do
            r ← attempt (ensure_wire_guard_key_secret node.namespace node.name interface_name)
            pure (with_key live r))
          else pure live

    abbrev pub facts_from :
        NodeInfo
        → Dict NetworkInterface
        → List SshHostKey
        → List WireGuardInterface
        → Bool
        → NodeFacts
    facts_from info interfaces keys live jailed = record {
      agent_version = o.agent_version;
      release = info.os_release;
      interfaces = interfaces;
      ssh_host_keys = keys;
      wire_guard = live;
      jailed = jailed;
    }

    unfoldable pub gather_facts : Io Op NodeFacts
    gather_facts = do
      info ← ask node_info o.info_answer
      interfaces ← collect_network_interfaces
      keys ← collect_ssh_host_keys node.name
      live ← wire_guard_status
      jailed ← (if info.os_id == "freebsd" then is_jailed else pure false)
      pure (facts_from info interfaces keys live jailed)

    unfoldable pub update_node_status : Io Op (Unit {0})
    update_node_status = do
      facts ← gather_facts
      if same_facts node.status.facts facts
          then pure tt
          else on_error (wrap "failed to update ManagedNode status") (
              o.retry_on_conflict (do
                fresh ← perform (get_node (key_of node)) o.node_answer
                perform
                    (update_status
                      (record fresh { status = record fresh.status { facts = facts } }))
                    o.update_answer))
