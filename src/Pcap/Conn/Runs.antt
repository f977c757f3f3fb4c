-- ===== src/Pcap/Conn/Runs.antt =====
-- A frame between two connections, at concrete values.
use aionetiface.Prelude.{ℕ, ◌≡◌, refl, arith, ◌==◌, true, none, some, [], ◌∷◌, if◌then◌else◌}
use aionetiface.Bytes.{Bytes, byte_at, Result, ok}
use aionetiface.Pcap.Segment.{TcpSegment, tcp_segment, pad_options}
use aionetiface.Pcap.Segment.Wire.{IsSegment, stamped}
use aionetiface.Pcap.State.{init, listen}
use aionetiface.Pcap.Eth.{dlt_en10mb}
use aionetiface.Pcap.Eth.Laws.{ethernet}
use aionetiface.Pcap.Conn.{Connection, is_routed, learn_source, deliver, process_frame, encapsulate}
use aionetiface.Pcap.Conn.Delivery.{process-encapsulate}
use Prim.Native.String.{String}
use text.Mathlib.Text.{◌==◌ as str_eq}

abbrev ip_one : Bytes
ip_one = 10 ∷ 0 ∷ 0 ∷ 1 ∷ []

abbrev ip_two : Bytes
ip_two = 10 ∷ 0 ∷ 0 ∷ 2 ∷ []

-- Stand-ins for the socket library's two functions, at two addresses.
abbrev text_of : Bytes → String
text_of bs = if byte_at bs 3 == 1 then "10.0.0.1" else "10.0.0.2"

abbrev bytes_of : String → Result Bytes
bytes_of ip = if str_eq ip "10.0.0.1" then ok ip_one else ok ip_two

abbrev mac_one : Bytes
mac_one = 2 ∷ 0 ∷ 0 ∷ 0 ∷ 0 ∷ 1 ∷ []

abbrev mac_two : Bytes
mac_two = 2 ∷ 0 ∷ 0 ∷ 0 ∷ 0 ∷ 2 ∷ []

abbrev hello : TcpSegment
hello = tcp_segment 1000 2000 7 8 24 65535 (2 ∷ 4 ∷ 5 ∷ 180 ∷ 1 ∷ []) (104 ∷ 105 ∷ []) 0

abbrev hello-IsSegment : IsSegment hello
hello-IsSegment = record {
  src_port_fits = omega arith;
  dst_port_fits = omega arith;
  seq_fits = omega arith;
  ack_fits = omega arith;
  flags_fit = omega arith;
  window_fits = omega arith;
  urgent_fits = omega arith;
  options_bytes = omega arith;
  payload_bytes = omega arith;
  options_short = omega arith;
  total_fits = omega arith;
}

abbrev listener : Connection
listener = record {
  local_ip = "10.0.0.2";
  local_mac = some mac_two;
  datalink = dlt_en10mb;
  state = record (init "10.0.0.2" 2000 1460) { state = listen };
  ft = none;
  peer_mac = none;
  arp_cache = record { ttl = 300; table = [] };
  next_hop = none;
  sent = [];
}

listener_routed : is_routed listener hello "10.0.0.1" "10.0.0.2" ≡ true
unfolding is_routed
listener_routed = refl

process-encapsulate_example :
    (frame : Bytes) × (csum : ℕ) × (encapsulate bytes_of dlt_en10mb mac_two mac_one "10.0.0.1"
        "10.0.0.2" hello
      ≡ ok frame)
    × (process_frame text_of listener 0 5 frame
        ≡ deliver
            (learn_source listener 0 "10.0.0.1" (some mac_one))
            (record (stamped hello csum) { options = pad_options hello.options })
            "10.0.0.1"
            5)
process-encapsulate_example =
    process-encapsulate text_of bytes_of hello ip_one ip_two hello-IsSegment (omega arith, refl)
      (omega arith, refl) (omega arith) ethernet "10.0.0.1" "10.0.0.2" mac_two mac_one listener 0 5
      refl refl refl refl refl refl listener_routed
