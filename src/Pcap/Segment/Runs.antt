-- ===== src/Pcap/Segment/Runs.antt =====
-- Segments and options on concrete inputs, and the theorems at concrete inputs.
use aionetiface.Prelude.{ℕ, ◌≡◌, refl, arith, inl, inr, true, false, [], ◌∷◌}
use aionetiface.Bytes.{Bytes, ok}
use aionetiface.Pcap.Segment.{TcpSegment, tcp_segment, Parsed, pad_options}
use aionetiface.Pcap.Segment.{
  parse_options, parse_options_loop, pack_tcp_segment, parse_tcp_segment,
}
use aionetiface.Pcap.Segment.{validate_checksum}
use aionetiface.Pcap.Segment.Options.{AllOptions}
use aionetiface.Pcap.Segment.Wire.{IsSegment, stamped, parse-pack_tcp_segment}

abbrev some_options : Parsed
some_options = (2, 5 ∷ 180 ∷ []) ∷ (1, []) ∷ (3, 7 ∷ []) ∷ []

some_options-AllOptions : AllOptions some_options
some_options-AllOptions =
    (inr (omega arith, omega arith), (inl (refl, refl), (inr (omega arith, omega arith), tt)))

-- A length byte that points past the end, or below two, ends the list.
parse_options_malformed : parse_options (1 ∷ 2 ∷ 9 ∷ 0 ∷ []) ≡ (1, []) ∷ []
unfolding parse_options parse_options_loop
parse_options_malformed = refl

abbrev hello : TcpSegment
hello = tcp_segment 1000 2000 7 8 24 65535 (2 ∷ 4 ∷ 5 ∷ 180 ∷ 1 ∷ []) (104 ∷ 105 ∷ []) 0

abbrev src : Bytes
src = 10 ∷ 0 ∷ 0 ∷ 1 ∷ []

abbrev dst : Bytes
dst = 10 ∷ 0 ∷ 0 ∷ 2 ∷ []

abbrev hello-IsSegment : IsSegment hello
hello-IsSegment = record {
  src_port_fits = omega arith;
  dst_port_fits = omega arith;
  seq_fits = omega arith;
  ack_fits = omega arith;
  flags_fit = omega arith;
  window_fits = omega arith;
  urgent_fits = omega arith;
  options_bytes = omega arith;
  payload_bytes = omega arith;
  options_short = omega arith;
  total_fits = omega arith;
}

parse-pack_tcp_segment_example :
    (bytes : Bytes) × (csum : ℕ) × (pack_tcp_segment hello src dst false
      ≡ ok (bytes, stamped hello csum))
    × (validate_checksum bytes src dst false ≡ ok true)
    × (parse_tcp_segment bytes
        ≡ ok (record (stamped hello csum) { options = pad_options hello.options }))
parse-pack_tcp_segment_example =
    parse-pack_tcp_segment hello false src dst hello-IsSegment (omega arith, refl)
      (omega arith, refl)
