-- ===== src/Pcap/State/SimulOpen.antt =====
-- The simultaneous open: both sides send a SYN, and each answers the other's with a SYN and an ACK.
use aionetiface.Prelude.{ℕ, ◌%◌, ◌^◌, ◌≡◌, max, refl, ap, ◌∙◌, arith, Bool, true, bit_or}
use aionetiface.Prelude.{[], ◌∷◌, ◌==◌}
use aionetiface.Bytes.{Result, ok, ◌>>=◌}
use aionetiface.Pcap.Segment.{
  TcpSegment, tcp_segment, flag_syn, flag_ack, has_flag, build_mss_option,
}
use aionetiface.Pcap.Segment.Options.{get-mss_option}
use aionetiface.Pcap.State.{
  established, syn_received, TcpState, init, add32, flush_send, read_peer_mss,
}
use aionetiface.Pcap.State.{open_simul}
use aionetiface.Pcap.State.Inbound.{from_peer, dispatch}
use aionetiface.Pcap.State.Accepts.{on_segment_passes, syn_sent_crosses, syn_received_joins}
use aionetiface.Pcap.State.Handshake.{
  feed, drained, eq_self, syn_a, opened_a, open_a, offered, offered_lem,
}
use aionetiface.Pcap.State.Handshake.{IsJoined}
use Prim.Native.String.{String}
use text.Mathlib.TextPositions.{eq_refl}

-- One side, seen from itself: `a` is here and `b` is there.
module _ (ip_a ip_b : String) (port_a port_b mss_a mss_b iss_a iss_b : ℕ) where
  abbrev opened : TcpState
  opened = opened_a ip_a ip_b port_a port_b mss_a mss_b iss_a iss_b

  abbrev peer_syn : TcpSegment
  peer_syn = syn_a ip_b ip_a port_b port_a mss_b mss_a iss_b iss_a

  -- Our SYN again, with an ACK of the peer's.
  abbrev answer : TcpSegment
  answer =
      tcp_segment port_a port_b iss_a (add32 (iss_b % 2 ^ 32) 1) (bit_or flag_syn flag_ack) 65535
        (build_mss_option mss_a) [] 0

  abbrev crossed : TcpState
  crossed = record (drained opened) {
    state = syn_received;
    irs = iss_b % 2 ^ 32;
    rcv_nxt = add32 (iss_b % 2 ^ 32) 1;
    peer_mss = offered mss_b;
    outbox = answer ∷ [];
  }

  step_cross : (iss : ℕ) → feed (peer_syn ∷ []) ip_b iss (drained opened) ≡ crossed
  unfolding feed dispatch has_flag read_peer_mss from_peer
  step_cross iss =
      let t = drained opened in
      ap (λ (r : TcpState × Bool). r.0)
        (on_segment_passes t peer_syn ip_b iss (simp (eq_self, eq_refl)) refl
          ∙ syn_sent_crosses t peer_syn refl refl)
      ∙ rw get-mss_option

  -- The peer's answer, which acknowledges our SYN.
  abbrev peer_answer : TcpSegment
  peer_answer =
      tcp_segment port_b port_a iss_b (add32 (iss_a % 2 ^ 32) 1) (bit_or flag_syn flag_ack) 65535
        (build_mss_option mss_b) [] 0

  abbrev settled : TcpState
  settled = record (drained crossed) {
    state = established;
    snd_una = add32 (iss_a % 2 ^ 32) 1 % 2 ^ 32;
    snd_wnd = 65535;
  }

  acks : (add32 (iss_a % 2 ^ 32) 1 % 2 ^ 32 == add32 iss_a 1) ≡ true
  acks = ground arith

  step_settle : (iss : ℕ) → feed (peer_answer ∷ []) ip_b iss (drained crossed) ≡ settled
  unfolding feed dispatch has_flag flush_send from_peer
  step_settle iss =
      let t = drained crossed in
      ap (λ (r : TcpState × Bool). r.0)
        (on_segment_passes t peer_answer ip_b iss (simp (eq_self, eq_refl)) refl
          ∙ syn_received_joins t peer_answer refl acks refl refl)

module _ (ip_a ip_b : String) (port_a port_b mss_a mss_b iss_a iss_b : ℕ) where
  -- Both sides open towards one another, and the segments of each round cross on the way.
  abbrev pub crossing : Result (TcpState × TcpState)
  crossing = do
    a ← open_simul (init ip_a port_a mss_a) ip_b port_b iss_a
    b ← open_simul (init ip_b port_b mss_b) ip_a port_a iss_b
    let a' = feed b.outbox ip_b 0 (drained a)
    let b' = feed a.outbox ip_a 0 (drained b)
    ok (feed b'.outbox ip_b 0 (drained a'), feed a'.outbox ip_a 0 (drained b'))

  abbrev at_a : TcpState
  at_a = settled ip_a ip_b port_a port_b mss_a mss_b iss_a iss_b

  abbrev at_b : TcpState
  at_b = settled ip_b ip_a port_b port_a mss_b mss_a iss_b iss_a

  crossing-eq : crossing ≡ ok (at_a, at_b)
  unfolding open_simul
  crossing-eq = rw (open_a ip_a ip_b port_a port_b mss_a mss_b iss_a iss_b) (
      rw (open_a ip_b ip_a port_b port_a mss_b mss_a iss_b iss_a) (
        rw
          (
            step_cross ip_a ip_b port_a port_b mss_a mss_b iss_a iss_b,
            step_cross ip_b ip_a port_b port_a mss_b mss_a iss_b iss_a,
          )
          (rw (
            step_settle ip_a ip_b port_a port_b mss_a mss_b iss_a iss_b,
            step_settle ip_b ip_a port_b port_a mss_b mss_a iss_b iss_a,
          ))))

  -- The simultaneous open: when both sides send their SYN first and then receive the other's, both
  -- end established and in agreement, as after a three-way handshake. It holds for all addresses,
  -- ports, MSS values and initial numbers.
  pub crossing-IsJoined :
      (a : TcpState) × (b : TcpState) × (crossing ≡ ok (a, b))
      × IsJoined a b
      × (a.peer_mss ≡ max 536 (mss_b % 2 ^ 16))
      × (b.peer_mss ≡ max 536 (mss_a % 2 ^ 16))
  crossing-IsJoined = (
    at_a,
    at_b,
    crossing-eq,
    record {
      here = record {
        up = refl;
        to_ip = refl;
        to_port = refl;
        in_step = omega arith;
        all_acked = omega arith;
        nxt_lt = omega arith;
        idle = refl;
        queue_empty = refl;
        none_waiting = refl;
        window = refl;
        no_fin = (refl, refl);
      };
      there = record {
        up = refl;
        to_ip = refl;
        to_port = refl;
        in_step = omega arith;
        all_acked = omega arith;
        nxt_lt = omega arith;
        idle = refl;
        queue_empty = refl;
        none_waiting = refl;
        window = refl;
        no_fin = (refl, refl);
      };
    },
    offered_lem mss_b,
    offered_lem mss_a,
  )
