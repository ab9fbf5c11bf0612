-- ===== src/Node/Status/Facts.antt =====
-- What the facts of the machine are made of: `collectNetworkInterfaces`, `collectSSHHostKeys`,
-- `isJailed`, and wireguard.go.
pub mod Dump
use nodemanager.Common.{Bool, Dict, List, Option, Result, String, [], any, atoi, dict_eq, err}
use nodemanager.Common.{false, fields, if◌then◌else◌, insert, is_empty, is_space, leb, list_eq}
use nodemanager.Common.{nat_eq, none, not, ok, some, sort_by, split, text_le, true, ℕ, ◌&&◌}
use nodemanager.Common.{◌++◌, ◌==◌, ◌||◌, ◌∷◌}
use Prim.Native.Char.{Char}
use nodemanager.Api.{NetworkInterface, NodeFacts, SshHostKey, WireGuardInterface}
use nodemanager.Node.{HostAddress, HostInterface}
use text.Mathlib.TextBridge.{to_list}

-- The loop over the addresses of an interface.
unfoldable pub addresses : List (Option HostAddress) → NetworkInterface
addresses [] = record { ipv4 = []; ipv6 = [] }
addresses (none ∷ addrs) = addresses addrs
addresses (some ip ∷ addrs) =
    let rest = addresses addrs in
    if ip.is_ipv4
    then record rest { ipv4 = ip.text ∷ rest.ipv4 }
    else if ip.is_global_unicast
    then record rest { ipv6 = ip.text ∷ rest.ipv6 }
    else rest

abbrev pub has_addresses : NetworkInterface → Bool
has_addresses ni = not (is_empty ni.ipv4) || not (is_empty ni.ipv6)

abbrev pub sorted_addresses : NetworkInterface → NetworkInterface
sorted_addresses ni = record { ipv4 = sort_by text_le ni.ipv4; ipv6 = sort_by text_le ni.ipv6 }

abbrev put_interface :
    HostInterface
    → Result (List (Option HostAddress))
    → Dict NetworkInterface
    → Dict NetworkInterface
put_interface iface (err e) m = m
put_interface iface (ok addrs) m =
    if has_addresses (addresses addrs)
    then insert iface.name (sorted_addresses (addresses addrs)) m
    else m

-- The loop over the interfaces; names are unique, so that the order of insertion does not matter.
unfoldable pub interfaces_in : List HostInterface → Dict NetworkInterface
interfaces_in [] = []
interfaces_in (iface ∷ ifaces) =
    let rest = interfaces_in ifaces in
    if iface.is_loopback || not iface.is_up then rest else put_interface iface iface.addrs rest

abbrev pub interfaces_of : Result (List HostInterface) → Dict NetworkInterface
interfaces_of (err e) = []
interfaces_of (ok ifaces) = interfaces_in ifaces

-- A line of six fields with SSHFP as the third.
abbrev host_key : Option ℕ → Option ℕ → String → List SshHostKey
host_key (some alg) (some fp_type) fingerprint =
    record { algorithm = alg; fingerprint_type = fp_type; fingerprint = fingerprint } ∷ []
host_key _ _ fingerprint = []

abbrev key_of_fields : List String → List SshHostKey
key_of_fields (name ∷ class ∷ type ∷ alg ∷ fp_type ∷ fingerprint ∷ []) =
    if type == "SSHFP" then host_key (atoi alg) (atoi fp_type) fingerprint else []
key_of_fields _ = []

unfoldable pub keys_of_lines : List String → List SshHostKey
keys_of_lines [] = []
keys_of_lines (line ∷ lines) = key_of_fields (fields line) ++ keys_of_lines lines

abbrev pub key_le : SshHostKey → SshHostKey → Bool
key_le a b =
    if nat_eq a.algorithm b.algorithm
    then leb a.fingerprint_type b.fingerprint_type
    else leb a.algorithm b.algorithm

-- The keys in the output of ssh-keygen; blank output has none.
unfoldable pub ssh_keys_of : String → List SshHostKey
ssh_keys_of out = sort_by key_le (keys_of_lines (split b'\n' out))

-- A number that is not one is 0.
abbrev port_of : Option ℕ → ℕ
port_of none = 0
port_of (some n) = n

-- A line for an interface has five fields, and one for a peer nine.
abbrev pub interface_of_fields : List String → List WireGuardInterface
interface_of_fields (name ∷ private ∷ public ∷ port ∷ fwmark ∷ []) =
    record { name = name; public_key = public; listen_port = port_of (atoi port) } ∷ []
interface_of_fields _ = []

unfoldable pub interfaces_of_lines : List String → List WireGuardInterface
interfaces_of_lines [] = []
interfaces_of_lines (line ∷ lines) =
    interface_of_fields (split b'\t' line) ++ interfaces_of_lines lines

-- The interfaces in the output of `wg show all dump`. What strings.TrimSpace leaves of the output
-- is empty exactly if all of it is white space, and then there are none.
abbrev pub all_space : List Char → Bool
all_space [] = true
all_space (c ∷ cs) = is_space c && all_space cs

unfoldable pub wire_guard_of : String → List WireGuardInterface
wire_guard_of out = if all_space (to_list out) then [] else interfaces_of_lines (split b'\n' out)

abbrev pub has_name : String → List WireGuardInterface → Bool
has_name iface = any (λ (w : WireGuardInterface). w.name == iface)

-- `mergeBootstrappedWireGuardKey`
unfoldable pub merge_bootstrapped_key :
    List WireGuardInterface → String → String → List WireGuardInterface
merge_bootstrapped_key live iface key =
    if key == ""
    then live
    else if has_name iface live
    then live
    else live ++ record { name = iface; public_key = key; listen_port = 0 } ∷ []

abbrev first_field : List String → String
first_field (f ∷ []) = f
first_field _ = ""

-- Whether the text is `1` between white space.
unfoldable pub is_jail_text : String → Bool
is_jail_text out = first_field (fields out) == "1"

abbrev same_interface : NetworkInterface → NetworkInterface → Bool
same_interface a b = list_eq (λ s t. s == t) a.ipv4 b.ipv4 && list_eq (λ s t. s == t) a.ipv6 b.ipv6

abbrev same_key : SshHostKey → SshHostKey → Bool
same_key a b =
    nat_eq a.algorithm b.algorithm
    && nat_eq a.fingerprint_type b.fingerprint_type
    && (a.fingerprint == b.fingerprint)

abbrev same_wire_guard : WireGuardInterface → WireGuardInterface → Bool
same_wire_guard a b =
    (a.name == b.name) && (a.public_key == b.public_key) && nat_eq a.listen_port b.listen_port

abbrev same_flag : Bool → Bool → Bool
same_flag true b = b
same_flag false b = not b

unfoldable pub same_facts : NodeFacts → NodeFacts → Bool
same_facts a b =
    (a.agent_version == b.agent_version)
    && (a.release == b.release)
    && same_flag a.jailed b.jailed
    && dict_eq same_interface a.interfaces b.interfaces
    && list_eq same_key a.ssh_host_keys b.ssh_host_keys
    && list_eq same_wire_guard a.wire_guard b.wire_guard
