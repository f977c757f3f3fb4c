-- ===== src/Topology/RoundTrip.antt =====
-- An address that was made is parsed back; aionetiface/net/topology.py.
pub mod Entries
use aionetiface.Prelude.{
  ℕ, zero, suc, ◌≡◌, refl, ap, sym, ◌∙◌, arith, Bool, true, false, not, ◌&&◌, ◌||◌,
}
use aionetiface.Prelude.{List, [], ◌∷◌, ◌++◌, Option, none, some, length, ltb, ◌==◌, if◌then◌else◌}
use aionetiface.Bytes.{Bytes, Result, ok, err, fail_if, value_error}
use aionetiface.Stun.Address.{Family, ip4, ip6}
use aionetiface.Utility.Ranges.{ℤ, pos, negsuc}
use aionetiface.Text.{split, join, bracketed, decimal, is_empty, is_number, to_n, inner}
use aionetiface.Text.Splitting.{
  lacks, all_lack, split-join, lacks-bracketed, lacks-join, inner-bracketed, is_short-bracketed,
}
use aionetiface.Text.Decimal.{
  to_n-is_number, decimal-is_number, lacks-decimal, digits_value-decimal,
}
use aionetiface.Topology.{Info, Infos, NodeAddr}
use aionetiface.Topology.Hints.{
  GivenHint, parse_server_hints, usable_hints, encode_server_hints, joined_or_zero,
}
use aionetiface.Topology.Hints.Laws.{
  is_outer, hosts_lack, parse-encode_server_hints, lacks-encode_server_hints, lacks-joined_or_zero,
}
use aionetiface.Topology.Parsing.{
  ◌>>=◌, read_number, read_extras, read_range, info_from, info_of, parse_info, save, parse_infos,
  parse_section, addr_parts, os_of, parse_node_addr,
}
use aionetiface.Topology.Making.{
  Args, Entry, encode_entry, encode_entries, extra_parts, af_entries, is_none, is_nil, wire_of,
  make_node_addr,
}
use aionetiface.Topology.RoundTrip.Entries.{
  ips_lack, all_ips_lack, lacks-encode_entries, announced, announced_all, parse_section-joined,
}

abbrev pub PlainHints : List GivenHint → Type 0
PlainHints hints =
    (hosts_lack b',' (usable_hints hints) ≡ true)
    × (hosts_lack b'|' (usable_hints hints) ≡ true)
    × (hosts_lack b'^' (usable_hints hints) ≡ true)

abbrev pub PlainEntries : List Entry → Type 0
PlainEntries entries =
    (all_ips_lack b',' entries ≡ true)
    × (all_ips_lack b'|' entries ≡ true)
    × (all_ips_lack b'^' entries ≡ true)

-- No text has one of the marks that would part it.
abbrev pub IsPlain : Args → List Entry → List Entry → Type 0
IsPlain args entries4 entries6 =
    PlainEntries entries4
    × PlainEntries entries6
    × PlainHints args.mqtt_brokers
    × PlainHints args.turn_servers
    × (lacks b'^' args.pub_key_hex ≡ true)
    × (lacks b'^' args.machine_id ≡ true)
    × (lacks b'^' args.os ≡ true)

-- The parts of an address behind the first.
abbrev later_parts : Args → List Entry → List Bytes
later_parts args entries6 =
    joined_or_zero (encode_entries entries6)
    ∷ args.pub_key_hex
    ∷ args.machine_id
    ∷ extra_parts args.mqtt_brokers args.turn_servers args.os

lacks-extra_parts :
    (mqtt turn : List GivenHint) (system : Bytes)
    → hosts_lack b'^' (usable_hints mqtt) ≡ true
    → hosts_lack b'^' (usable_hints turn) ≡ true
    → lacks b'^' system ≡ true
    → all_lack b'^' (extra_parts mqtt turn system) ≡ true
lacks-extra_parts [] [] [] h k l = refl
lacks-extra_parts [] (t ∷ turn) [] h k l =
    rw (lacks-encode_server_hints [] h, lacks-encode_server_hints (t ∷ turn) k) refl
lacks-extra_parts (m ∷ mqtt) turn [] h k l =
    rw (lacks-encode_server_hints (m ∷ mqtt) h, lacks-encode_server_hints turn k) refl
lacks-extra_parts mqtt turn (b ∷ system) h k l =
    rw (lacks-encode_server_hints mqtt h, lacks-encode_server_hints turn k, l) refl

lacks-section :
    (entries : List Entry)
    → all_ips_lack b'^' entries ≡ true
    → lacks b'^' (joined_or_zero (encode_entries entries)) ≡ true
lacks-section entries h =
    lacks-joined_or_zero b'^' (encode_entries entries) refl refl
      (lacks-encode_entries b'^' entries refl h)

lacks-parts :
    (args : Args) (entries4 entries6 : List Entry)
    → IsPlain args entries4 entries6
    → all_lack b'^' (joined_or_zero (encode_entries entries4) ∷ later_parts args entries6) ≡ true
lacks-parts args entries4 entries6 (e4, e6, mqtt, turn, key, machine, os) =
    rw
      (
        lacks-section entries4 e4.2,
        lacks-section entries6 e6.2,
        key,
        machine,
        lacks-extra_parts args.mqtt_brokers args.turn_servers args.os mqtt.2 turn.2 os,
      )
      refl

module _ (read_ip : Bytes → Option (ℕ × ℕ)) where
  -- The address that the parts stand for.
  abbrev pub announcement : Args → List Entry → List Entry → NodeAddr
  announcement args entries4 entries6 = record {
    ip4s = announced_all read_ip entries4 [];
    ip6s = announced_all read_ip entries6 [];
    pub_key_hex = args.pub_key_hex;
    machine_id = args.machine_id;
    bytes = wire_of args entries4 entries6;
    mqtt_brokers = usable_hints args.mqtt_brokers;
    turn_servers = usable_hints args.turn_servers;
    os = os_of args.os;
  }

  -- The parts with their hints, whichever of them were sent.
  addr_parts-extra_parts :
      (text part4 part6 key machine : Bytes) (mqtt turn : List GivenHint) (system : Bytes)
      → PlainHints mqtt
      → PlainHints turn
      → addr_parts read_ip text (part4 ∷ part6 ∷ key ∷ machine ∷ extra_parts mqtt turn system)
        ≡ some record {
          ip4s = parse_section read_ip part4;
          ip6s = parse_section read_ip part6;
          pub_key_hex = key;
          machine_id = machine;
          bytes = text;
          mqtt_brokers = usable_hints mqtt;
          turn_servers = usable_hints turn;
          os = os_of system;
        }
  unfolding parse_server_hints
  addr_parts-extra_parts text part4 part6 key machine [] [] [] h k = refl
  addr_parts-extra_parts text part4 part6 key machine [] (t ∷ turn) [] h k =
      rw (parse-encode_server_hints [] h.0 h.1, parse-encode_server_hints (t ∷ turn) k.0 k.1)
  addr_parts-extra_parts text part4 part6 key machine (m ∷ mqtt) turn [] h k =
      rw (parse-encode_server_hints (m ∷ mqtt) h.0 h.1, parse-encode_server_hints turn k.0 k.1)
  addr_parts-extra_parts text part4 part6 key machine mqtt turn (b ∷ system) h k =
      rw (parse-encode_server_hints mqtt h.0 h.1, parse-encode_server_hints turn k.0 k.1)

  parse-wire_of :
      (args : Args) (entries4 entries6 : List Entry)
      → IsPlain args entries4 entries6
      → parse_node_addr read_ip (wire_of args entries4 entries6)
        ≡ some (announcement args entries4 entries6)
  unfolding parse_node_addr
  parse-wire_of args entries4 entries6 h =
      let (e4, e6, mqtt, turn, key, machine, os) = h in
      rw (
        split-join b'^' (joined_or_zero (encode_entries entries4)) (later_parts args entries6)
            (lacks-parts args entries4 entries6 h),
        addr_parts-extra_parts (wire_of args entries4 entries6)
            (joined_or_zero (encode_entries entries4)) (joined_or_zero (encode_entries entries6))
            args.pub_key_hex args.machine_id args.mqtt_brokers args.turn_servers args.os mqtt turn,
        parse_section-joined read_ip entries4 e4.0 e4.1,
        parse_section-joined read_ip entries6 e6.0 e6.1,
      )

  -- With an interface and a port, `make_node_addr` gives an address, and `parse_node_addr` reads
  -- from it what was announced: each entry with readable addresses under its index, the keys, the
  -- hints that have all three parts, and the system. The NAT of an entry is what `nat_info` makes of
  -- its type and delta, so a type of 0 is read as the default. The entries are those that the two
  -- loops over the interfaces collect, and no text in them has a comma, a bar or a caret.
  pub parse-make_node_addr :
      (args : Args) (entries4 entries6 : List Entry)
      → is_nil args.interface_list ≡ false
      → (args.port == 0 && is_none args.if_ports) ≡ false
      → af_entries args ip4 0 args.interface_list ≡ ok entries4
      → af_entries args ip6 0 args.interface_list ≡ ok entries6
      → IsPlain args entries4 entries6
      → (make_node_addr args ≡ ok (wire_of args entries4 entries6))
        × (parse_node_addr read_ip (wire_of args entries4 entries6)
            ≡ some (announcement args entries4 entries6))
  unfolding make_node_addr
  parse-make_node_addr args entries4 entries6 some_nic some_port made4 made6 plain =
      (rw (some_nic, some_port, made4, made6), parse-wire_of args entries4 entries6 plain)
