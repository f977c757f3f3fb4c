-- ===== src/Topology/Runs.antt =====
-- Node addresses at fixed values.
use Prim.Native.Char.{code}
use Prim.Native.String.{String}
use aionetiface.Prelude.{
  ℕ, ◌+◌, ◌*◌, ◌≡◌, ◌↔◌, refl, Bool, true, false, Option, none, some, List, [], ◌∷◌,
}
use aionetiface.Prelude.{ltb, if◌then◌else◌}
use aionetiface.Bytes.{Bytes, ok, err, type_error}
use aionetiface.IpRange.{ip_range}
use aionetiface.Stun.Address.{Family, ip4, ip6}
use aionetiface.Utility.Ranges.{in_range, pos, negsuc}
use aionetiface.Nat.{nat_info, delta_info}
use aionetiface.Text.{split, digits, decimal, decimal_int, is_number, to_n, has_brackets, inner}
use aionetiface.Topology.{NodeAddr, validate_node_addr, is_valid_info}
use aionetiface.Topology.Bounds.{AllWithin, validate_node_addr-AllWithin}
use aionetiface.Topology.Hints.{GivenHint, parse_hint, parse_server_hints, encode_server_hints}
use aionetiface.Topology.Parsing.{
  ◌>>=◌, read_number, read_extras, read_range, parse_info, parse_section, parse_node_addr,
}
use aionetiface.Topology.Making.{
  LocalIp, Route, one_stack, Interface, Args, Entry, entry_from, af_entries, wire_of,
  make_node_addr,
}
use aionetiface.Topology.RoundTrip.{announcement, parse-make_node_addr}
use aionetiface.Topology.Ours.{is_node_addr_us}

abbrev codes : String → Bytes
codes String.[] = []
codes (String.◌∷◌ c s) = code c ∷ codes s

-- `ipaddress` on four numbers with dots.
abbrev octet : ℕ → Bytes → Option ℕ
octet high text = read_number text >>= λ n. if ltb n 256 then some (high * 256 + n) else none

abbrev quad : List Bytes → Option (ℕ × ℕ)
quad (a ∷ b ∷ c ∷ d ∷ []) =
    octet 0 a >>= λ n. octet n b >>= λ m. octet m c >>= λ k. octet k d >>= λ ip. some (32, ip)
quad _ = none

abbrev read_quad : Bytes → Option (ℕ × ℕ)
read_quad text = quad (split b'.' text)

abbrev ip_at : String → Option ℕ → LocalIp
ip_at text bits = record { text = codes text; subnet = bits }

abbrev lan : Route
lan = record {
  nic_ips = ip_at "10.0.0.2" (some 24) ∷ [];
  ext_ips = ip_at "192.0.2.7" none ∷ [];
  link_locals = [];
}

abbrev only_ip4 : Family → List Route
only_ip4 ip4 = lan ∷ []
only_ip4 ip6 = []

abbrev wired : Interface
wired = record {
  netiface_index = 3;
  stack = one_stack ip4;
  nat = some (nat_info (some 5) (some (delta_info 6 0)) none);
  routes = only_ip4;
  link_locals = λ af. [];
}

abbrev broker : GivenHint
broker = record { af = some (pos 2); host = some (codes "mq.example"); port = some (pos 1883) }

abbrev no_port : GivenHint
no_port = record { af = some (pos 2); host = some (codes "x"); port = none }

abbrev args : Args
args = record {
  pub_key_hex = codes "04ab";
  machine_id = codes "m1";
  interface_list = wired ∷ [];
  port = 3000;
  ip = none;
  nat = none;
  if_index = 0;
  mqtt_brokers = broker ∷ no_port ∷ [];
  turn_servers = [];
  if_ports = none;
  os = codes "linux";
}

abbrev entry : Entry
entry = record {
  netiface_index = 3;
  if_index = 0;
  ext = codes "192.0.2.7";
  nic = codes "10.0.0.2";
  port = 3000;
  nat_type = 5;
  delta_type = 6;
  delta_value = 0;
  nic_subnet = 24;
  nic_port = 3000;
}

wire_text :
    make_node_addr args
    ≡ ok (codes "[3,0,192.0.2.7,10.0.0.2,3000,5,6,0,24,3000]^0^04ab^m1^[2,mq.example,1883]^0^linux")
unfolding make_node_addr af_entries decimal digits entry_from nat_info encode_server_hints
    decimal_int
wire_text = refl

card_entries : af_entries args ip4 0 (wired ∷ []) ≡ ok (entry ∷ [])
unfolding af_entries entry_from nat_info
card_entries = refl

no_entries : af_entries args ip6 0 (wired ∷ []) ≡ ok []
unfolding af_entries
no_entries = refl

parse-make_node_addr_example :
    (make_node_addr args ≡ ok (wire_of args (entry ∷ []) []))
    × (parse_node_addr read_quad (wire_of args (entry ∷ []) [])
        ≡ some (announcement read_quad args (entry ∷ []) []))
parse-make_node_addr_example =
    parse-make_node_addr read_quad args (entry ∷ []) [] refl refl card_entries no_entries (
      (refl, refl, refl),
      (refl, refl, refl),
      (refl, refl, refl),
      (refl, refl, refl),
      refl,
      refl,
      refl,
    )

abbrev card_addr : NodeAddr
card_addr = announcement read_quad args (entry ∷ []) []

validate_node_addr-AllWithin_example :
    (validate_node_addr card_addr ≡ some card_addr)
    ↔ (AllWithin ip4 card_addr.ip4s × AllWithin ip6 card_addr.ip6s)
validate_node_addr-AllWithin_example = validate_node_addr-AllWithin card_addr

abbrev was_read : Option NodeAddr → Bool
was_read none = false
was_read (some addr) = true

abbrev high_text : Bytes
high_text = codes "[1,0,192.0.2.1,192.0.2.1,70000,3,2,0]^0^k^m"

-- A port of 70000 is refused by the check, and the address is returned.
high_port :
    (was_read (parse_node_addr read_quad high_text) ≡ true)
    × ((parse_node_addr read_quad high_text >>= validate_node_addr) ≡ none)
unfolding parse_node_addr parse_section parse_info read_number is_number to_n inner read_range
    ip_range read_extras validate_node_addr is_valid_info in_range
high_port = (refl, refl)

-- Hints with a sign, spaces and an underscore in their numbers are taken; others are passed over.
odd_hints :
    parse_server_hints (codes "[-2,h, 4_0]|x|[1,h,0]|[2,,9]|[2,a,b]")
    ≡ record { af = negsuc 1; host = codes "h"; port = pos 40 } ∷ []
unfolding parse_server_hints parse_hint has_brackets inner to_n
odd_hints = refl

two_parts : is_node_addr_us read_quad (codes "0^0") [] ≡ err type_error
unfolding is_node_addr_us parse_node_addr
two_parts = refl
