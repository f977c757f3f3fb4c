-- ===== src/Topology.antt =====
-- Node addresses, of aionetiface/net/topology.py: what a peer announces of its interfaces, and the
-- checks on an address that was read. Texts are ASCII. The field `vk`, which starts as `None`, is
-- left out, and an address that is already a dict, which is passed through.
pub mod Hints
pub mod Bounds
pub mod Parsing
pub mod Making
pub mod RoundTrip
pub mod Ours
mod Runs
use aionetiface.Prelude.{ℕ, zero, suc, Bool, true, false, not, ◌&&◌, ◌||◌, Option, none, some}
use aionetiface.Prelude.{List, [], ◌∷◌, leb, ◌==◌, if◌then◌else◌}
use aionetiface.Bytes.{Bytes}
use aionetiface.IpRange.{IpRange}
use aionetiface.Utility.Ranges.{ℤ, in_range}
use aionetiface.Stun.Address.{Family, ip4, ip6}
use aionetiface.Nat.{Nat, open_internet, random_delta, max_port}

abbrev pub blocked_nat : ℕ
blocked_nat = 7

abbrev pub na_delta : ℕ
na_delta = 1

-- A server that the peer is connected to.
pub record Hint : Type 0 where
  pub af : ℤ
  pub host : Bytes
  pub port : ℤ

-- An `IPRange` with its field `subnet`.
pub record Block : Type 0 where
  pub range : IpRange
  pub subnet : Option ℕ

-- What the address says of one interface.
pub record Info : Type 0 where
  pub netiface_index : ℕ
  pub if_index : ℕ
  pub ext : Block
  pub nic : Block
  pub nat : Nat
  pub port : ℕ
  pub ext_port : ℕ
  pub nic_port : ℕ

-- A dict by `if_index`.
abbrev pub Infos : Type 0
Infos = List (ℕ × Info)

pub record NodeAddr : Type 0 where
  pub ip4s : Infos
  pub ip6s : Infos
  pub pub_key_hex : Bytes
  pub machine_id : Bytes
  pub bytes : Bytes
  pub mqtt_brokers : List Hint
  pub turn_servers : List Hint
  pub os : Option Bytes

abbrev pub max_bits : Family → ℕ
max_bits ip4 = 32
max_bits ip6 = 128

abbrev pub subnet_fits : Family → Option ℕ → Bool
subnet_fits af none = true
subnet_fits af (some bits) = in_range bits (0, max_bits af)

-- The checks on one interface; the value of a delta that was read is not negative.
unfoldable pub is_valid_info : Family → Info → Bool
is_valid_info af info =
    (info.port == 0 || in_range info.port (1, max_port))
    && in_range info.nat.nat_type (open_internet, blocked_nat)
    && in_range info.nat.delta.delta_type (na_delta, random_delta)
    && in_range info.nat.delta.value (0, max_port)
    && subnet_fits af info.nic.subnet
    && (info.nic_port == 0 || info.nic_port == info.port || in_range info.nic_port (1, max_port))
    && not (info.port == 0 && info.nic_port == 0)

abbrev pub all_valid : Family → Infos → Bool
all_valid af [] = true
all_valid af ((index, info) ∷ infos) = is_valid_info af info && all_valid af infos

unfoldable pub validate_node_addr : NodeAddr → Option NodeAddr
validate_node_addr addr =
    if all_valid ip4 addr.ip4s && all_valid ip6 addr.ip6s then some addr else none
