-- ===== src/Topology/Making.antt =====
-- `make_node_addr` of aionetiface/net/topology.py, over what it reads of an interface: the index,
-- the stack, the NAT, the routes and the local addresses of both families. An `IPRange` is its
-- text and its prefix length; the interfaces are resolved.
use aionetiface.Prelude.{ℕ, suc, Bool, true, false, ◌&&◌, ◌||◌, Option, none, some}
use aionetiface.Prelude.{List, [], ◌∷◌, ◌==◌, if◌then◌else◌}
use aionetiface.Bytes.{Bytes, Result, ok, err, ◌>>=◌, ◌>>◌, fail_if, value_error, index_error}
use aionetiface.Stun.Address.{Family, ip4, ip6}
use aionetiface.Bind.{same_family}
use aionetiface.Nat.{Nat, nat_info, open_internet, or_else}
use aionetiface.Text.{join, bracketed, decimal, is_empty}
use aionetiface.Topology.{na_delta}
use aionetiface.Topology.Hints.{GivenHint, encode_server_hints, joined_or_zero}

pub record LocalIp : Type 0 where
  pub text : Bytes
  pub subnet : Option ℕ

pub record Route : Type 0 where
  pub nic_ips : List LocalIp
  pub ext_ips : List LocalIp
  pub link_locals : List LocalIp

pub data Stack : Type 0 where
  unknown_stack duel_stack : Stack
  one_stack : Family → Stack

pub record Interface : Type 0 where
  pub netiface_index : ℕ
  pub stack : Stack
  pub nat : Option Nat
  pub routes : Family → List Route
  pub link_locals : Family → List LocalIp

-- Ports per path, of which each may be missing.
pub record Ports : Type 0 where
  pub ext : Option ℕ
  pub nic : Option ℕ

-- The arguments; a port of 0 is also `None`.
pub record Args : Type 0 where
  pub pub_key_hex : Bytes
  pub machine_id : Bytes
  pub interface_list : List Interface
  pub port : ℕ
  pub ip : Option Bytes
  pub nat : Option Nat
  pub if_index : ℕ
  pub mqtt_brokers : List GivenHint
  pub turn_servers : List GivenHint
  pub if_ports : Option (List ((Family × ℕ) × Ports))
  pub os : Bytes

-- What is printed of one interface.
pub record Entry : Type 0 where
  pub netiface_index : ℕ
  pub if_index : ℕ
  pub ext : Bytes
  pub nic : Bytes
  pub port : ℕ
  pub nat_type : ℕ
  pub delta_type : ℕ
  pub delta_value : ℕ
  pub nic_subnet : ℕ
  pub nic_port : ℕ

abbrev pub encode_entry : Entry → Bytes
encode_entry e = bracketed (
    join b',' (
      decimal e.netiface_index
      ∷ decimal e.if_index
      ∷ e.ext
      ∷ e.nic
      ∷ decimal e.port
      ∷ decimal e.nat_type
      ∷ decimal e.delta_type
      ∷ decimal e.delta_value
      ∷ decimal e.nic_subnet
      ∷ decimal e.nic_port
      ∷ []))

-- `Interface.supported`
abbrev pub supported : Stack → Result (List Family)
supported unknown_stack = err value_error
supported duel_stack = ok (ip4 ∷ ip6 ∷ [])
supported (one_stack af) = ok (af ∷ [])

abbrev pub is_family_in : Family → List Family → Bool
is_family_in af [] = false
is_family_in af (other ∷ afs) = same_family af other || is_family_in af afs

-- `ipr_norm(ips[0])`: `Route.nic` and `Route.ext`.
abbrev pub first_text : List LocalIp → Result Bytes
first_text [] = err index_error
first_text (ip ∷ ips) = ok ip.text

-- `ip or ...`
abbrev pub given_or : Option Bytes → Result Bytes → Result Bytes
given_or none default = default
given_or (some ip) default = if is_empty ip then default else ok ip

-- `int_ipr.subnet` where there is one, else 0.
abbrev pub subnet_of : List LocalIp → ℕ
subnet_of [] = 0
subnet_of (ip ∷ ips) = or_else ip.subnet 0

-- The address of the network card for IPv6: a given one, else a link-local, else the external one.
abbrev pub card6 : Option Bytes → List LocalIp → List LocalIp → Result (Bytes × ℕ)
card6 (some ip) locals exts = first_text exts >>= λ _. ok (ip, 0)
card6 none (ip ∷ locals) exts = first_text exts >>= λ _. ok (ip.text, subnet_of (ip ∷ locals))
card6 none [] exts = first_text exts >>= λ ext. ok (ext, subnet_of exts)

abbrev pub card : Family → Option Bytes → Route → Result (Bytes × ℕ)
card ip4 ip r = given_or ip (first_text r.nic_ips) >>= λ text. ok (text, subnet_of r.nic_ips)
card ip6 ip r = card6 ip r.link_locals r.ext_ips

abbrev pub chosen_nat : Args → Interface → Nat
chosen_nat args interface = or_else args.nat (or_else interface.nat (nat_info none none none))

abbrev pub eff_if_index : Args → ℕ → ℕ
eff_if_index args i = if args.if_index == 0 then i else args.if_index

abbrev pub ports_of : List ((Family × ℕ) × Ports) → Family → ℕ → Option Ports
ports_of [] af index = none
ports_of (((other, place), ports) ∷ more) af index =
    if same_family other af && place == index then some ports else ports_of more af index

-- The external port and the one of the network card.
abbrev pub eff_ports : ℕ → Option Ports → ℕ × ℕ
eff_ports port none = (port, port)
eff_ports port (some ports) = (or_else ports.ext 0, or_else ports.nic 0)

abbrev pub nat_fields : Family → Nat → ℕ × ℕ × ℕ
nat_fields ip4 nat = (nat.nat_type, nat.delta.delta_type, nat.delta.value)
nat_fields ip6 nat = (open_internet, na_delta, 0)

unfoldable pub entry_from : Args → Family → ℕ → Interface → Bytes → Bytes → ℕ → Entry
entry_from args af i interface ext_ip int_ip subnet =
    let (kind, delta_kind, value) : ℕ × ℕ × ℕ = nat_fields af (chosen_nat args interface) in
    let index = eff_if_index args i in
    let ports = eff_ports args.port (ports_of (or_else args.if_ports []) af index) in
    record {
      netiface_index = interface.netiface_index;
      if_index = index;
      ext = ext_ip;
      nic = int_ip;
      port = ports.0;
      nat_type = kind;
      delta_type = delta_kind;
      delta_value = value;
      nic_subnet = subnet;
      nic_port = ports.1;
    }

-- The path for an interface with routes.
abbrev pub routed_entry : Args → Family → ℕ → Interface → Route → Result (Option Entry)
routed_entry args af i interface r = do
  int ← card af args.ip r
  ext ← given_or args.ip (first_text r.ext_ips)
  ok (some (entry_from args af i interface ext int.0 int.1))

-- The path for an interface that has a local address and no more.
abbrev pub local_entry : Args → Family → ℕ → Interface → List LocalIp → Option Entry
local_entry args af i interface [] = none
local_entry args af i interface (ip ∷ ips) =
    some (entry_from args af i interface ip.text ip.text (or_else ip.subnet 0))

abbrev pub entry_of : Args → Family → ℕ → Interface → List Route → Result (Option Entry)
entry_of args af i interface [] = ok (local_entry args af i interface (interface.link_locals af))
entry_of args af i interface (r ∷ routes) = do
  afs ← supported interface.stack
  (if is_family_in af afs
      then routed_entry args af i interface r
      else ok (local_entry args af i interface (interface.link_locals af)))

abbrev pub add_entry : Option Entry → List Entry → List Entry
add_entry none entries = entries
add_entry (some e) entries = e ∷ entries

-- The loop over the interfaces, from the index `i`.
unfoldable pub af_entries : Args → Family → ℕ → List Interface → Result (List Entry)
af_entries args af i [] = ok []
af_entries args af i (interface ∷ interfaces) = do
  e ← entry_of args af i interface (interface.routes af)
  rest ← af_entries args af (suc i) interfaces
  ok (add_entry e rest)

abbrev pub encode_entries : List Entry → List Bytes
encode_entries [] = []
encode_entries (e ∷ entries) = encode_entry e ∷ encode_entries entries

-- `if mqtt_brokers or turn_servers or os`, and `if os`.
abbrev pub extra_parts : List GivenHint → List GivenHint → Bytes → List Bytes
extra_parts [] [] [] = []
extra_parts mqtt turn [] = encode_server_hints mqtt ∷ encode_server_hints turn ∷ []
extra_parts mqtt turn (b ∷ os) = encode_server_hints mqtt ∷ encode_server_hints turn ∷ (b ∷ os) ∷ []

abbrev pub is_none {ℓ} : {A : Type ℓ} → Option A → Bool
is_none none = true
is_none (some a) = false

abbrev pub is_nil {ℓ} : {A : Type ℓ} → List A → Bool
is_nil [] = true
is_nil (a ∷ rest) = false

-- What is joined at the end.
abbrev pub wire_of : Args → List Entry → List Entry → Bytes
wire_of args entries4 entries6 = join b'^' (
    joined_or_zero (encode_entries entries4)
    ∷ joined_or_zero (encode_entries entries6)
    ∷ args.pub_key_hex
    ∷ args.machine_id
    ∷ extra_parts args.mqtt_brokers args.turn_servers args.os)

unfoldable pub make_node_addr : Args → Result Bytes
make_node_addr args = do
  fail_if (is_nil args.interface_list) value_error
  fail_if (args.port == 0 && is_none args.if_ports) value_error
  entries4 ← af_entries args ip4 0 args.interface_list
  entries6 ← af_entries args ip6 0 args.interface_list
  ok (wire_of args entries4 entries6)
