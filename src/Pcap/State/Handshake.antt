-- ===== src/Pcap/State/Handshake.antt =====
-- Two machines joined by a network that delivers: the three-way handshake and the simultaneous open.
use aionetiface.Prelude.{
  ℕ, ◌%◌, ◌^◌, ◌<◌, ◌≡◌, max, refl, ap, ◌∙◌, arith, Bool, true, false, bit_or,
}
use aionetiface.Prelude.{some, List, [], ◌∷◌, ◌==◌}
use aionetiface.Bytes.{Result, ok, u16_at, be16, ◌>>=◌}
use aionetiface.Pcap.Segment.{TcpSegment, tcp_segment, flag_syn, flag_ack, has_flag, segment_length}
use aionetiface.Pcap.Segment.{build_mss_option}
use aionetiface.Pcap.Segment.Options.{get-mss_option}
use aionetiface.Pcap.State.{listen, syn_sent, syn_received, established}
use aionetiface.Pcap.State.{TcpState, init, add32, seq_in_window, emit, flush_send, read_peer_mss}
use aionetiface.Pcap.State.{open_active, open_listen}
use aionetiface.Pcap.State.Inbound.{from_peer, on_segment, dispatch, on_segment_listen, acks_new}
use aionetiface.Pcap.State.Accepts.{on_segment_passes, syn_sent_joins, syn_received_joins}
use Prim.Native.String.{String}
use text.Mathlib.TextPositions.{eq_refl}

-- Every segment of a queue, in order, to the other side; `iss` is its random number, if it draws one.
unfoldable pub feed : List TcpSegment → String → ℕ → TcpState → TcpState
feed [] src_ip iss t = t
feed (seg ∷ segs) src_ip iss t = feed segs src_ip iss (on_segment t seg src_ip iss).0

-- The queue is emptied as its segments go out (`flush_outbox` of net/pcap/tcp/conn.py).
abbrev pub drained : TcpState → TcpState
drained t = record t { outbox = [] }

pub eq_self : (n : ℕ) → (n == n) ≡ true
eq_self n = ground arith

-- Two ends that agree: each is established towards the other, expects the number that the other
-- sends next, has all it sent acknowledged and nothing queued or waiting.
pub record IsHalf (t u : TcpState) : Type 0 where
  pub up : t.state ≡ established
  pub to_ip : t.remote_ip ≡ some u.local_ip
  pub to_port : t.remote_port ≡ u.local_port
  pub in_step : t.snd_nxt ≡ u.rcv_nxt
  pub all_acked : t.snd_una ≡ t.snd_nxt
  pub nxt_lt : t.snd_nxt < 2 ^ 32
  pub idle : t.have_unacked ≡ false
  pub queue_empty : t.outbox ≡ []
  pub none_waiting : t.send_buf ≡ []
  pub window : t.rcv_wnd ≡ 65535
  pub no_fin : (t.fin_received ≡ false) × (t.fin_sent ≡ false)

pub record IsJoined (t u : TcpState) : Type 0 where
  pub here : IsHalf t u
  pub there : IsHalf u t

-- What a side takes from the other's MSS option.
abbrev pub offered : ℕ → ℕ
offered mss = max 536 (u16_at (be16 (mss % 2 ^ 16)) 0)

pub offered_lem : (mss : ℕ) → offered mss ≡ max 536 (mss % 2 ^ 16)
offered_lem mss = omega arith

-- The ends of a connection: addresses, ports, the MSS that each offers, the numbers that they draw.
module _ (ip_a ip_b : String) (port_a port_b mss_a mss_b iss_a iss_b : ℕ) where
  -- The opening SYN.
  abbrev pub syn_a : TcpSegment
  syn_a = record (tcp_segment port_a port_b iss_a 0 flag_syn 65535 [] [] 0) {
    options = build_mss_option mss_a;
  }

  abbrev pub opened_a : TcpState
  opened_a = record (init ip_a port_a mss_a) {
    remote_ip = some ip_b;
    remote_port = port_b;
    state = syn_sent;
    iss = iss_a;
    snd_una = iss_a;
    snd_nxt = add32 iss_a 1;
    outbox = syn_a ∷ [];
  }

  pub open_a : open_active (init ip_a port_a mss_a) ip_b port_b iss_a ≡ ok opened_a
  unfolding open_active emit segment_length
  open_a = refl

  abbrev listening_b : TcpState
  listening_b = record (init ip_b port_b mss_b) { state = listen }

  abbrev syn_ack_b : TcpSegment
  syn_ack_b =
      record (tcp_segment port_b port_a iss_b (add32 (iss_a % 2 ^ 32) 1) (bit_or flag_syn flag_ack)
        65535 [] [] 0) { options = build_mss_option mss_b }

  abbrev answered_b : TcpState
  answered_b = record (init ip_b port_b mss_b) {
    remote_ip = some ip_a;
    remote_port = port_a;
    state = syn_received;
    irs = iss_a % 2 ^ 32;
    rcv_nxt = add32 (iss_a % 2 ^ 32) 1;
    iss = iss_b;
    snd_una = iss_b;
    snd_nxt = add32 iss_b 1;
    peer_mss = offered mss_a;
    outbox = syn_ack_b ∷ [];
  }

  step_b : feed opened_a.outbox ip_a iss_b listening_b ≡ answered_b
  unfolding feed on_segment dispatch on_segment_listen emit segment_length has_flag read_peer_mss
  step_b = rw get-mss_option

  abbrev joined_a : TcpState
  joined_a = record (drained opened_a) {
    state = established;
    irs = iss_b % 2 ^ 32;
    rcv_nxt = add32 (iss_b % 2 ^ 32) 1;
    snd_una = add32 (iss_a % 2 ^ 32) 1 % 2 ^ 32;
    snd_wnd = 65535;
    peer_mss = offered mss_b;
    outbox =
        tcp_segment port_a port_b (add32 iss_a 1) (add32 (iss_b % 2 ^ 32) 1) flag_ack 65535 [] [] 0
        ∷ [];
  }

  acks_a :
      seq_in_window (add32 (iss_a % 2 ^ 32) 1 % 2 ^ 32) (add32 iss_a 1) (add32 (add32 iss_a 1) 1)
      ≡ true
  unfolding seq_in_window
  acks_a = ground arith

  step_a : (iss : ℕ) → feed answered_b.outbox ip_b iss (drained opened_a) ≡ joined_a
  unfolding feed dispatch flush_send has_flag read_peer_mss from_peer acks_new
  step_a iss =
      let t = drained opened_a in
      ap (λ (r : TcpState × Bool). r.0)
        (on_segment_passes t syn_ack_b ip_b iss (simp (eq_self, eq_refl)) refl
          ∙ syn_sent_joins t syn_ack_b refl refl acks_a)
      ∙ rw get-mss_option

  abbrev joined_b : TcpState
  joined_b = record (drained answered_b) {
    state = established;
    snd_una = add32 (iss_b % 2 ^ 32) 1 % 2 ^ 32;
    snd_wnd = 65535;
  }

  acks_b : (add32 (iss_b % 2 ^ 32) 1 % 2 ^ 32 == add32 iss_b 1) ≡ true
  acks_b = ground arith

  step_b_ack : (iss : ℕ) → feed joined_a.outbox ip_a iss (drained answered_b) ≡ joined_b
  unfolding feed dispatch flush_send has_flag from_peer
  step_b_ack iss =
      let t = drained answered_b in
      let seg =
        tcp_segment port_a port_b (add32 iss_a 1) (add32 (iss_b % 2 ^ 32) 1) flag_ack 65535 [] []
          0 in
      ap (λ (r : TcpState × Bool). r.0)
        (on_segment_passes t seg ip_a iss (simp (eq_self, eq_refl)) refl
          ∙ syn_received_joins t seg refl acks_b refl refl)

  -- The whole exchange, run on fresh machines: SYN, SYN with ACK, ACK. The last two numbers are
  -- drawn by nobody.
  abbrev pub three_way : Result (TcpState × TcpState)
  three_way = do
    a ← open_active (init ip_a port_a mss_a) ip_b port_b iss_a
    b ← open_listen (init ip_b port_b mss_b)
    let b_answered = feed a.outbox ip_a iss_b b
    let a_joined = feed b_answered.outbox ip_b 0 (drained a)
    let b_joined = feed a_joined.outbox ip_a 0 (drained b_answered)
    ok (drained a_joined, b_joined)

  three_way-eq : three_way ≡ ok (drained joined_a, joined_b)
  unfolding open_listen
  three_way-eq = rw open_a (rw step_b (rw step_a (rw step_b_ack)))

  -- The three-way handshake between a client and a listener ends with both established and in
  -- agreement: each expects the number that the other sends next, all is acknowledged, and each has
  -- the other's address, port and MSS (modulo 2 ^ 16, and 536 at least). It holds for all
  -- addresses, ports, MSS values and initial numbers.
  pub three_way-IsJoined :
      (a : TcpState) × (b : TcpState) × (three_way ≡ ok (a, b))
      × IsJoined a b
      × (a.peer_mss ≡ max 536 (mss_b % 2 ^ 16))
      × (b.peer_mss ≡ max 536 (mss_a % 2 ^ 16))
  three_way-IsJoined = (
    drained joined_a,
    joined_b,
    three_way-eq,
    record {
      here = record {
        up = refl;
        to_ip = refl;
        to_port = refl;
        in_step = omega arith;
        all_acked = omega arith;
        nxt_lt = omega arith;
        idle = refl;
        queue_empty = refl;
        none_waiting = refl;
        window = refl;
        no_fin = (refl, refl);
      };
      there = record {
        up = refl;
        to_ip = refl;
        to_port = refl;
        in_step = omega arith;
        all_acked = omega arith;
        nxt_lt = omega arith;
        idle = refl;
        queue_empty = refl;
        none_waiting = refl;
        window = refl;
        no_fin = (refl, refl);
      };
    },
    offered_lem mss_b,
    offered_lem mss_a,
  )
