-- ===== src/Pcap/State/Runs.antt =====
-- The state machine on concrete inputs, and the theorems at concrete inputs.
use aionetiface.Prelude.{ℕ, ◌%◌, ◌^◌, ◌<◌, ◌≡◌, ◌↔◌, max, refl, arith, true, false, some}
use aionetiface.Prelude.{[], ◌∷◌, ◌++◌}
use aionetiface.Bytes.{Bytes, ok}
use aionetiface.Pcap.Segment.{
  TcpSegment, tcp_segment, flag_ack, flag_fin, flag_rst, has_flag, segment_length,
}
use aionetiface.Pcap.State.{established, fin_wait_1, close_wait}
use aionetiface.Pcap.State.{TcpState, init, add32, sub32, seq_in_window, write}
use aionetiface.Pcap.State.{flush_send, emit_pure_ack}
use aionetiface.Pcap.State.Inbound.{on_segment, take_fin, read_payload}
use aionetiface.Pcap.State.Inbound.{
  from_peer, dispatch, on_segment_established, acceptable, take_ack,
}
use aionetiface.Pcap.State.Inbound.{acks_new, take_payload, handle_peer_fin, advance_close}
use aionetiface.Pcap.State.Window.{seq_in_window_iff}
use aionetiface.Pcap.State.Stream.{stream, stream-on_segment}
use aionetiface.Pcap.State.Arrows.{allowed}
use aionetiface.Pcap.State.Diagram.{on_segment-allowed}
use aionetiface.Pcap.State.Accounting.{IsAccounted, on_segment-IsAccounted}
use aionetiface.Pcap.State.Handshake.{IsJoined, three_way, three_way-IsJoined}
use aionetiface.Pcap.State.SimulOpen.{crossing, crossing-IsJoined}
use aionetiface.Pcap.State.Transfer.{transfer_all, transfer_all-flatten}
use aionetiface.Pcap.State.Closing.{run, run_ending, is_ending, fin_missed_at_wrap}
use mathlib.Core.List.{flatten}
use Prim.Native.String.{String}

abbrev alice : String
alice = "10.0.0.1"

abbrev bob : String
bob = "10.0.0.2"

-- Two ends after a handshake, the one at sequence number 5 and the other at 9.
abbrev at_alice : TcpState
at_alice = record (init alice 1000 1460) {
  remote_ip = some bob;
  remote_port = 2000;
  state = established;
  iss = 4;
  snd_nxt = 5;
  snd_una = 5;
  irs = 8;
  rcv_nxt = 9;
}

abbrev at_bob : TcpState
at_bob = record (init bob 2000 1460) {
  remote_ip = some alice;
  remote_port = 1000;
  state = established;
  iss = 8;
  snd_nxt = 9;
  snd_una = 9;
  irs = 4;
  rcv_nxt = 5;
}

abbrev joined : IsJoined at_alice at_bob
joined = record {
  here = record {
    up = refl;
    to_ip = refl;
    to_port = refl;
    in_step = refl;
    all_acked = refl;
    nxt_lt = omega arith;
    idle = refl;
    queue_empty = refl;
    none_waiting = refl;
    window = refl;
    no_fin = (refl, refl);
  };
  there = record {
    up = refl;
    to_ip = refl;
    to_port = refl;
    in_step = refl;
    all_acked = refl;
    nxt_lt = omega arith;
    idle = refl;
    queue_empty = refl;
    none_waiting = refl;
    window = refl;
    no_fin = (refl, refl);
  };
}

abbrev hello : Bytes
hello = 104 ∷ 105 ∷ []

-- Bob's data segment to Alice.
abbrev from_bob : TcpSegment
from_bob = tcp_segment 2000 1000 9 5 24 65535 [] hello 0

seq_in_window_iff_example :
    (seq_in_window 2 0xffff_fff0 5 ≡ true)
    ↔ ((k : ℕ) × (k < sub32 5 0xffff_fff0) × (add32 0xffff_fff0 k ≡ 2))
seq_in_window_iff_example =
    seq_in_window_iff 2 0xffff_fff0 5 (omega arith) (omega arith) (omega arith)

stream-on_segment_example : stream (on_segment at_alice from_bob bob 0).0 ≡ stream at_alice
stream-on_segment_example = stream-on_segment at_alice from_bob bob 0

written :
    write (record at_alice { have_unacked = true }) hello
    ≡ ok (record at_alice { have_unacked = true; send_buf = hello })
unfolding write flush_send
written = refl

on_segment-allowed_example :
    allowed at_alice from_bob bob (on_segment at_alice from_bob bob 0).0.state ≡ true
on_segment-allowed_example = on_segment-allowed at_alice from_bob bob 0

on_segment-IsAccounted_example : IsAccounted 0 (on_segment at_alice from_bob bob 0).0
on_segment-IsAccounted_example = on_segment-IsAccounted 0 at_alice from_bob bob 0 refl

three_way-IsJoined_example :
    (a : TcpState) × (b : TcpState) × (three_way alice bob 1000 2000 1460 1200 0xffff_ffff 7
      ≡ ok (a, b))
    × IsJoined a b
    × (a.peer_mss ≡ max 536 (1200 % 2 ^ 16))
    × (b.peer_mss ≡ max 536 (1460 % 2 ^ 16))
three_way-IsJoined_example = three_way-IsJoined alice bob 1000 2000 1460 1200 0xffff_ffff 7

crossing-IsJoined_example :
    (a : TcpState) × (b : TcpState) × (crossing alice bob 1000 2000 1460 1200 0xffff_ffff 7
      ≡ ok (a, b))
    × IsJoined a b
    × (a.peer_mss ≡ max 536 (1200 % 2 ^ 16))
    × (b.peer_mss ≡ max 536 (1460 % 2 ^ 16))
crossing-IsJoined_example = crossing-IsJoined alice bob 1000 2000 1460 1200 0xffff_ffff 7

transfer_all-flatten_example :
    (a : TcpState) × (b : TcpState) × (transfer_all at_alice at_bob (hello ∷ (33 ∷ []) ∷ [])
      ≡ ok (a, b))
    × IsJoined a b
    × (b.read_buf ≡ [] ++ flatten (hello ∷ (33 ∷ []) ∷ []))
    × (a.read_buf ≡ [])
transfer_all-flatten_example =
    transfer_all-flatten at_alice at_bob (hello ∷ (33 ∷ []) ∷ []) joined (omega arith)

abbrev ended : TcpState
ended = record at_alice { state = fin_wait_1; fin_sent = true; send_buf = hello }

run_ending_example :
    ((run ((from_bob, bob, 0) ∷ []) ended).send_buf ≡ hello)
    × (stream (run ((from_bob, bob, 0) ∷ []) ended) ≡ stream ended)
    × (is_ending (run ((from_bob, bob, 0) ∷ []) ended).state ≡ true)
run_ending_example = run_ending ended ((from_bob, bob, 0) ∷ []) refl

abbrev near_wrap : TcpState
near_wrap = record at_alice { rcv_nxt = 0xffff_ffff }

abbrev last_segment : TcpSegment
last_segment = tcp_segment 2000 1000 0xffff_ffff 5 25 65535 [] hello 0

fin_missed_at_wrap_example :
    (take_fin (read_payload near_wrap last_segment) last_segment
      ≡ read_payload near_wrap last_segment)
    × ((read_payload near_wrap last_segment).rcv_nxt ≡ add32 0xffff_ffff 2)
    × ((read_payload near_wrap last_segment).state ≡ established)
fin_missed_at_wrap_example =
    fin_missed_at_wrap near_wrap last_segment refl refl (omega arith) (omega arith)

-- The same segment away from the end of the sequence space closes the half connection.
fin_taken :
    (on_segment at_alice (tcp_segment 2000 1000 9 5 25 65535 [] hello 0) bob 0).0.state ≡ close_wait
unfolding on_segment from_peer dispatch on_segment_established acceptable seq_in_window take_ack
    acks_new take_payload read_payload emit_pure_ack take_fin handle_peer_fin advance_close has_flag
    segment_length
fin_taken = refl

abbrev stray : TcpSegment
stray = tcp_segment 2000 1000 7777 5 24 65535 [] hello 0

stray_flags : (has_flag stray flag_ack ≡ true) × (has_flag stray flag_fin ≡ false)
unfolding has_flag
stray_flags = (refl, refl)

abbrev reset : TcpSegment
reset = tcp_segment 4444 1000 0 0 4 0 [] [] 0

reset_flag : has_flag reset flag_rst ≡ true
unfolding has_flag
reset_flag = refl
