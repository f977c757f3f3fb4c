-- ===== src/Pcap/State/Inbound.antt =====
-- net/pcap/tcp/state.py: the handlers of an inbound segment, `on_segment` and what it calls. Each
-- returns the new state and whether the segment was accepted.
use aionetiface.Prelude.{ℕ, ◌+◌, max, bit_or, Bool, true, false, not, ◌||◌, ◌&&◌}
use aionetiface.Prelude.{none, some, [], ◌++◌, length, ◌==◌, if◌then◌else◌}
use aionetiface.Pcap.Segment.{TcpSegment, tcp_segment, has_flag, segment_length, build_mss_option}
use aionetiface.Pcap.Segment.{flag_syn, flag_fin, flag_rst, flag_ack}
use aionetiface.Pcap.State.{State, closed, listen, syn_sent, syn_received, established, fin_wait_1}
use aionetiface.Pcap.State.{
  fin_wait_2, close_wait, closing, last_ack, time_wait, TcpState, is_empty,
}
use aionetiface.Pcap.State.{add32, seq_in_window, push, emit, emit_rst, bare_ack, emit_pure_ack}
use aionetiface.Pcap.State.{flush_send, fin_acked, read_peer_mss}
use Prim.Native.String.{String}
use text.Mathlib.Text.{◌==◌ as str_eq}

-- The four-tuple test, which every state but CLOSED and LISTEN makes.
unfoldable pub from_peer : TcpState → TcpSegment → String → Bool
from_peer t seg src_ip =
    seg.src_port == t.remote_port && elim t.remote_ip [ none ↦ false | some ip ↦ str_eq src_ip ip ]

abbrev abort : TcpState → TcpState
abort t = record t { aborted = true; abort_reason = some t.state; state = closed }

unfoldable pub handle_rst : TcpState → TcpSegment → TcpState × Bool
handle_rst t seg =
    let acks_syn = has_flag seg flag_ack && seg.ack == add32 t.iss 1 in
    elim t.state [
      | syn_sent ↦ if acks_syn then (abort t, true) else (t, false)
      | _ ↦ (abort t, true)
    ]

-- `iss` is what `random_iss` draws if the segment is accepted.
unfoldable pub on_segment_listen : TcpState → TcpSegment → String → ℕ → TcpState × Bool
on_segment_listen t seg src_ip iss =
    let bound = record t {
      remote_ip = some src_ip;
      remote_port = seg.src_port;
      irs = seg.seq;
      rcv_nxt = add32 seg.seq 1;
      iss = iss;
      snd_nxt = iss;
      snd_una = iss;
    } in
    let answered = emit (read_peer_mss bound seg) (bit_or flag_syn flag_ack) [] in
    if has_flag seg flag_ack
    then (emit_rst t (some seg.ack) none, false)
    else if has_flag seg flag_syn
    then (record answered { state = syn_received }, true)
    else (t, false)

-- Our SYN again, with an ACK on it; its sequence number is the initial one.
abbrev pub syn_ack : TcpState → TcpSegment
syn_ack t =
    tcp_segment t.local_port t.remote_port t.iss t.rcv_nxt (bit_or flag_syn flag_ack) t.rcv_wnd
      (build_mss_option t.local_mss) [] 0

-- The ACK field of a segment that answers our SYN: `snd_una < ack <= snd_nxt`.
unfoldable pub acks_new : TcpState → TcpSegment → Bool
acks_new t seg = seq_in_window seg.ack (add32 t.snd_una 1) (add32 t.snd_nxt 1)

unfoldable pub on_segment_syn_sent : TcpState → TcpSegment → TcpState × Bool
on_segment_syn_sent t seg =
    let heard = read_peer_mss (record t { irs = seg.seq; rcv_nxt = add32 seg.seq 1 }) seg in
    let acked = record heard { snd_una = seg.ack; snd_wnd = seg.window } in
    let joined = record (push acked (bare_ack acked)) { state = established } in
    let crossed = record (push heard (syn_ack heard)) { state = syn_received } in
    if has_flag seg flag_ack && not (acks_new t seg)
    then (t, false)
    else if not (has_flag seg flag_syn)
    then (t, false)
    else if has_flag seg flag_ack
    then (flush_send joined, true)
    else (crossed, true)

unfoldable pub handle_peer_fin : TcpState → TcpState
handle_peer_fin t =
    let told = emit_pure_ack (record t { fin_received = true; rcv_nxt = add32 t.rcv_nxt 1 }) in
    let moved : TcpState = elim told.state [
      | established ↦ record told { state = close_wait }
      | fin_wait_1 ↦ record told { state = if fin_acked told then time_wait else closing }
      | fin_wait_2 ↦ record told { state = time_wait }
      | _ ↦ told
    ] in
    if t.fin_received then t else moved

-- In-order payload is read, and acknowledged.
unfoldable pub read_payload : TcpState → TcpSegment → TcpState
read_payload t seg = emit_pure_ack (record t {
  read_buf = t.read_buf ++ seg.payload;
  rcv_nxt = add32 t.rcv_nxt (length seg.payload);
})

unfoldable pub on_segment_syn_received : TcpState → TcpSegment → TcpState × Bool
on_segment_syn_received t seg =
    let up = record t { snd_una = seg.ack; snd_wnd = seg.window; state = established } in
    let fed = if is_empty seg.payload then up else read_payload up seg in
    let finished = if has_flag seg flag_fin then handle_peer_fin fed else fed in
    if has_flag seg flag_syn && not (has_flag seg flag_ack)
    then (push t (syn_ack t), true)
    else if not (has_flag seg flag_ack)
    then (t, false)
    else if not (seg.ack == add32 t.iss 1)
    then (t, false)
    else (flush_send finished, true)

-- The receive-window test of a segment that takes sequence numbers.
unfoldable pub acceptable : TcpState → TcpSegment → Bool
acceptable t seg =
    segment_length seg == 0 || seq_in_window seg.seq t.rcv_nxt (add32 t.rcv_nxt (max 1 t.rcv_wnd))

-- The acknowledgement covers the whole of the block in flight.
unfoldable pub covers_block : TcpState → Bool
covers_block t =
    let end_seq = add32 t.unacked_seq (length t.unacked_data) in
    seq_in_window end_seq t.snd_una (add32 t.snd_una 1) || end_seq == t.snd_una

unfoldable pub take_ack : TcpState → TcpSegment → TcpState
take_ack t seg =
    let acked = record t { snd_una = seg.ack; snd_wnd = seg.window } in
    let cleared = record acked { unacked_data = []; have_unacked = false } in
    if not (has_flag seg flag_ack)
    then t
    else if not (acks_new t seg)
    then t
    else if t.have_unacked && covers_block acked
    then cleared
    else acked

unfoldable pub take_payload : TcpState → TcpSegment → TcpState
take_payload t seg =
    if is_empty seg.payload
    then t
    else if seg.seq == t.rcv_nxt
    then read_payload t seg
    else emit_pure_ack t

-- The sum is not reduced modulo 2 ^ 32, as in the code.
unfoldable pub take_fin : TcpState → TcpSegment → TcpState
take_fin t seg =
    if has_flag seg flag_fin && seg.seq + length seg.payload == t.rcv_nxt
    then handle_peer_fin t
    else t

-- The three `if`s on the state, after the FIN.
unfoldable pub advance_close : TcpState → TcpState
advance_close t = elim t.state [
  | fin_wait_1 ↦
      if fin_acked t
      then record t { state = if t.fin_received then time_wait else fin_wait_2 }
      else t
  | closing ↦ if fin_acked t then record t { state = time_wait } else t
  | last_ack ↦ if fin_acked t then record t { state = closed } else t
  | _ ↦ t
]

abbrev pub flush_established : TcpState → TcpState
flush_established t = elim t.state [ established ↦ flush_send t | _ ↦ t ]

unfoldable pub on_segment_established : TcpState → TcpSegment → TcpState × Bool
on_segment_established t seg =
    let closing_done = advance_close (take_fin (take_payload (take_ack t seg) seg) seg) in
    if acceptable t seg then (flush_established closing_done, true) else (emit_pure_ack t, false)

-- A peer that repeats its FIN is acknowledged again.
unfoldable pub on_segment_time_wait : TcpState → TcpSegment → TcpState × Bool
on_segment_time_wait t seg =
    if has_flag seg flag_fin then (push t (bare_ack t), true) else (t, true)

-- The branches on the state, once the four-tuple and the RST flag are dealt with.
unfoldable pub dispatch : TcpState → TcpSegment → String → ℕ → TcpState × Bool
dispatch t seg src_ip iss = elim t.state [
  | closed ↦ (t, false)
  | listen ↦ on_segment_listen t seg src_ip iss
  | syn_sent ↦ on_segment_syn_sent t seg
  | syn_received ↦ on_segment_syn_received t seg
  | time_wait ↦ on_segment_time_wait t seg
  | _ ↦ on_segment_established t seg
]

abbrev pub is_bound : State → Bool
is_bound closed = false
is_bound listen = false
is_bound _ = true

unfoldable pub on_segment : TcpState → TcpSegment → String → ℕ → TcpState × Bool
on_segment t seg src_ip iss =
    if is_bound t.state && not (from_peer t seg src_ip)
    then (t, false)
    else if has_flag seg flag_rst
    then handle_rst t seg
    else dispatch t seg src_ip iss
