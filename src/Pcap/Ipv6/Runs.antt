-- ===== src/Pcap/Ipv6/Runs.antt =====
-- IPv6 packets: the theorem at a concrete input.
use aionetiface.Prelude.{◌≡◌, refl, arith, [], ◌∷◌, ◌++◌, replicate}
use aionetiface.Bytes.{Bytes, ok}
use aionetiface.Pcap.Ipv6.{Options, pack_ipv6, parse_ipv6}
use aionetiface.Pcap.Ipv6.Laws.{IsPackable, packet, found, parse-pack_ipv6}

abbrev src : Bytes
src = 0xfe ∷ 0x80 ∷ replicate 13 0 ++ (1 ∷ [])

abbrev dst : Bytes
dst = 0xfe ∷ 0x80 ∷ replicate 13 0 ++ (2 ∷ [])

abbrev opts : Options
opts = record { hop_limit = 64; traffic_class = 3; flow_label = 0x12345 }

abbrev packable : IsPackable src dst 6 (1 ∷ 2 ∷ []) opts
packable = record {
  src_length = refl;
  dst_length = refl;
  next_fits = omega arith;
  hop_fits = omega arith;
  length_fits = omega arith;
}

parse-pack_ipv6_example :
    (pack_ipv6 src dst 6 (1 ∷ 2 ∷ []) opts ≡ ok (packet packable))
    × (parse_ipv6 (packet packable ++ (9 ∷ [])) ≡ ok (found packable, 1 ∷ 2 ∷ []))
parse-pack_ipv6_example = parse-pack_ipv6 packable (9 ∷ [])
