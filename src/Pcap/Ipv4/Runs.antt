-- ===== src/Pcap/Ipv4/Runs.antt =====
-- IPv4 packets on concrete inputs, and the theorem at a concrete input.
use aionetiface.Prelude.{◌≡◌, refl, arith, [], ◌∷◌, ◌++◌, true}
use aionetiface.Bytes.{Bytes, ok, err, value_error}
use aionetiface.Pcap.Ipv4.{proto_tcp, defaults, pack_ipv4, parse_ipv4, validate_checksum}
use aionetiface.Pcap.Ipv4.Laws.{IsPackable, packet, found, parse-pack_ipv4}

abbrev src : Bytes
src = 10 ∷ 0 ∷ 0 ∷ 1 ∷ []

abbrev dst : Bytes
dst = 10 ∷ 0 ∷ 0 ∷ 2 ∷ []

abbrev body : Bytes
body = 1 ∷ 2 ∷ 3 ∷ []

abbrev packable : IsPackable src dst proto_tcp body defaults
packable = record {
  src_bytes = omega arith;
  dst_bytes = omega arith;
  src_length = refl;
  dst_length = refl;
  tos_fits = omega arith;
  ttl_fits = omega arith;
  proto_fits = omega arith;
  length_fits = omega arith;
}

parse-pack_ipv4_example :
    (pack_ipv4 src dst proto_tcp body defaults ≡ ok (packet packable))
    × (validate_checksum (packet packable ++ (0 ∷ 0 ∷ [])) ≡ true)
    × (parse_ipv4 (packet packable ++ (0 ∷ 0 ∷ [])) ≡ ok (found packable, body))
parse-pack_ipv4_example = parse-pack_ipv4 packable (0 ∷ 0 ∷ [])

-- A short address is refused, and so is a packet of another version.
pack_short_address : pack_ipv4 (10 ∷ []) dst proto_tcp body defaults ≡ err value_error
unfolding pack_ipv4
pack_short_address = refl
