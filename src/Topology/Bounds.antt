-- ===== src/Topology/Bounds.antt =====
-- What an address that passes `validate_node_addr` keeps within; aionetiface/net/topology.py.
use aionetiface.Prelude.{ℕ, ◌+◌, ◌≤◌, ◌≡◌, ◌↔◌, refl, arith, Bool, true, not, ◌&&◌, ◌||◌}
use aionetiface.Prelude.{Option, none, some, [], ◌∷◌, leb, ◌==◌}
use aionetiface.Utility.Ranges.{in_range}
use aionetiface.Stun.Address.{Family, ip4, ip6}
use aionetiface.Topology.{
  Info, Infos, NodeAddr, max_bits, subnet_fits, is_valid_info, all_valid, validate_node_addr,
}

abbrev pub SubnetWithin : Family → Option ℕ → Type 0
SubnetWithin af none = Unit {0}
SubnetWithin af (some bits) = bits ≤ max_bits af

-- Ports of 16 bits of which one is not 0, a type of NAT and of delta that exists, a delta no
-- larger than a port, and a prefix no longer than an address.
abbrev pub WithinBounds : Family → Info → Type 0
WithinBounds af info =
    (info.port ≤ 65535)
    × (info.nic_port ≤ 65535)
    × (1 ≤ info.port + info.nic_port)
    × (1 ≤ info.nat.nat_type)
    × (info.nat.nat_type ≤ 7)
    × (1 ≤ info.nat.delta.delta_type)
    × (info.nat.delta.delta_type ≤ 6)
    × (info.nat.delta.value ≤ 65535)
    × SubnetWithin af info.nic.subnet

abbrev pub AllWithin : Family → Infos → Type 0
AllWithin af [] = Unit {0}
AllWithin af ((index, info) ∷ infos) = WithinBounds af info × AllWithin af infos

subnet_within :
    (af : Family) (subnet : Option ℕ) → (subnet_fits af subnet ≡ true) ↔ SubnetWithin af subnet
unfolding in_range
subnet_within af none = (λ _. tt, λ _. refl)
subnet_within af (some bits) = ground arith

-- Everything but the prefix, in numbers.
numbers_within :
    (port nic_port kind delta_kind value : ℕ) (fits : Bool)
    → ((port == 0 || leb 1 port && leb port 65535)
        && (leb 1 kind && leb kind 7)
        && (leb 1 delta_kind && leb delta_kind 6)
        && (leb 0 value && leb value 65535)
        && fits
        && (nic_port == 0 || nic_port == port || leb 1 nic_port && leb nic_port 65535)
        && not (port == 0 && nic_port == 0))
      ≡ true
    → (port ≤ 65535)
      × (nic_port ≤ 65535)
      × (1 ≤ port + nic_port)
      × (1 ≤ kind)
      × (kind ≤ 7)
      × (1 ≤ delta_kind)
      × (delta_kind ≤ 6)
      × (value ≤ 65535)
      × (fits ≡ true)
numbers_within port nic_port kind delta_kind value fits h = ground arith

info_within : (af : Family) (info : Info) → is_valid_info af info ≡ true → WithinBounds af info
unfolding is_valid_info in_range
info_within af info h =
    let (a, b, c, d, e, f, g, i, j) =
      numbers_within info.port info.nic_port info.nat.nat_type info.nat.delta.delta_type
        info.nat.delta.value (subnet_fits af info.nic.subnet) h in
    (a, b, c, d, e, f, g, i, (subnet_within af info.nic.subnet).0 j)

within_info : (af : Family) (info : Info) → WithinBounds af info → is_valid_info af info ≡ true
unfolding is_valid_info in_range
within_info af info (a, b, c, d, e, f, g, i, j) =
    rw ((subnet_within af info.nic.subnet).1 j) (ground arith)

all_within : (af : Family) (infos : Infos) → all_valid af infos ≡ true → AllWithin af infos
all_within af [] h = tt
all_within af ((index, info) ∷ infos) h =
    (info_within af info (ground arith), all_within af infos (ground arith))

within_all : (af : Family) (infos : Infos) → AllWithin af infos → all_valid af infos ≡ true
within_all af [] h = refl
within_all af ((index, info) ∷ infos) (h, k) =
    ground (arith, within_info af info h, within_all af infos k)

-- An address passes the checks just if every number of every interface, in both families, is
-- within its bounds.
pub validate_node_addr-AllWithin :
    (addr : NodeAddr)
    → (validate_node_addr addr ≡ some addr) ↔ (AllWithin ip4 addr.ip4s × AllWithin ip6 addr.ip6s)
unfolding validate_node_addr
validate_node_addr-AllWithin addr = (
  λ h. (all_within ip4 addr.ip4s (ground arith), all_within ip6 addr.ip6s (ground arith)),
  λ h. rw (within_all ip4 addr.ip4s h.0, within_all ip6 addr.ip6s h.1) refl,
)
