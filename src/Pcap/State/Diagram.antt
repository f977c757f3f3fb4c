-- ===== src/Pcap/State/Diagram.antt =====
-- The handlers of net/pcap/tcp/state.py against the state diagram.
use aionetiface.Prelude.{ℕ, ◌≡◌, refl, ap, ◌∙◌, arith, Bool, true, false, if_both, if_cases}
use aionetiface.Prelude.{not, ◌&&◌, ◌==◌, if◌then◌else◌}
use aionetiface.Pcap.Segment.{TcpSegment, flag_syn, flag_fin, flag_ack, flag_rst, has_flag}
use aionetiface.Pcap.State.{State, listen, syn_sent, syn_received, established}
use aionetiface.Pcap.State.{TcpState, is_empty, add32}
use aionetiface.Pcap.State.{emit_rst, emit_pure_ack}
use aionetiface.Pcap.State.{fin_acked}
use aionetiface.Pcap.State.Inbound.{handle_rst, on_segment_listen, acks_new, acceptable}
use aionetiface.Pcap.State.Inbound.{on_segment_syn_sent, handle_peer_fin, read_payload}
use aionetiface.Pcap.State.Inbound.{on_segment_syn_received, take_ack}
use aionetiface.Pcap.State.Inbound.{on_segment_established, on_segment_time_wait}
use aionetiface.Pcap.State.Inbound.{dispatch, on_segment, flush_established, is_bound, from_peer}
use Prim.Native.String.{String}
use aionetiface.Pcap.State.Arrows.{
  Obeys, allowed, arrow, arrow_by, arrow_by_self, arrow_self, reset_arrow, unmoved,
}
use aionetiface.Pcap.State.Stages.{stages, stages-arrow, state-emit_pure_ack, state-flush_send}

flush_established-state : (t : TcpState) → (flush_established t).state ≡ t.state
flush_established-state t = ground (arith, state-flush_send t)

established-Obeys : (t : TcpState) (seg : TcpSegment) → Obeys t seg (on_segment_established t seg)
unfolding on_segment_established
established-Obeys t seg =
    if_both (Obeys t seg) (acceptable t seg)
      (ap (arrow_by t seg) (flush_established-state (stages t seg)) ∙ stages-arrow t seg)
      (ap (arrow_by t seg) (state-emit_pure_ack t) ∙ arrow_by_self t seg)

listen-Obeys :
    (t : TcpState) (seg : TcpSegment) (src_ip : String) (iss : ℕ)
    → t.state ≡ listen
    → Obeys t seg (on_segment_listen t seg src_ip iss)
unfolding on_segment_listen emit_rst
listen-Obeys t seg src_ip iss e =
    if_cases (Obeys t seg) (has_flag seg flag_ack) (λ _. arrow_by_self t seg)
      (λ no_ack.
        if_cases (Obeys t seg) (has_flag seg flag_syn)
          (λ syn. rw (e, no_ack, syn) (unfold arrow in refl)) (λ _. arrow_by_self t seg))

syn_sent-Obeys :
    (t : TcpState) (seg : TcpSegment) → t.state ≡ syn_sent → Obeys t seg (on_segment_syn_sent t seg)
unfolding on_segment_syn_sent
syn_sent-Obeys t seg e =
    if_both (Obeys t seg) (has_flag seg flag_ack && not (acks_new t seg)) (arrow_by_self t seg) (
      if_cases (Obeys t seg) (not (has_flag seg flag_syn)) (λ _. arrow_by_self t seg)
        (λ not_syn.
          let syn : has_flag seg flag_syn ≡ true = ground arith in
          if_cases (Obeys t seg) (has_flag seg flag_ack)
            (λ ack. rw (state-flush_send, e, syn, ack) (unfold arrow in refl))
            (λ no_ack. rw (e, syn, no_ack) (unfold arrow in refl))))

abbrev up : TcpState → TcpSegment → TcpState
up t seg = record t { snd_una = seg.ack; snd_wnd = seg.window; state = established }

abbrev finished : TcpState → TcpSegment → TcpState
finished t seg =
    let fed = if is_empty seg.payload then up t seg else read_payload (up t seg) seg in
    if has_flag seg flag_fin then handle_peer_fin fed else fed

up_then_fin :
    (syn fin told acked empty : Bool) (t : TcpState) (seg : TcpSegment)
    → arrow syn true fin told acked syn_received (
        let fed = if empty then up t seg else read_payload (up t seg) seg in
        (if fin then handle_peer_fin fed else fed).state)
      ≡ true
unfolding handle_peer_fin read_payload emit_pure_ack arrow
up_then_fin syn fin told acked empty t seg = ground arith

syn_received-Obeys :
    (t : TcpState) (seg : TcpSegment)
    → t.state ≡ syn_received
    → Obeys t seg (on_segment_syn_received t seg)
unfolding on_segment_syn_received
syn_received-Obeys t seg e =
    if_both (Obeys t seg) (has_flag seg flag_syn && not (has_flag seg flag_ack))
      (arrow_by_self t seg)
      (if_cases (Obeys t seg) (not (has_flag seg flag_ack)) (λ _. arrow_by_self t seg)
        (λ not_ack.
          let ack : has_flag seg flag_ack ≡ true = ground arith in
          if_both (Obeys t seg) (not (seg.ack == add32 t.iss 1)) (arrow_by_self t seg) (
            ap (arrow_by t seg) (state-flush_send _)
            ∙ ap
                (λ (a : Bool).
                  arrow (has_flag seg flag_syn) a (has_flag seg flag_fin) t.fin_received
                    (fin_acked (take_ack t seg)) t.state (finished t seg).state)
                ack
            ∙ ap
                (λ (s : State).
                  arrow (has_flag seg flag_syn) true (has_flag seg flag_fin) t.fin_received
                    (fin_acked (take_ack t seg)) s (finished t seg).state)
                e
            ∙ up_then_fin (has_flag seg flag_syn) (has_flag seg flag_fin) t.fin_received
                (fin_acked (take_ack t seg)) (is_empty seg.payload) t seg)))

time_wait-Obeys : (t : TcpState) (seg : TcpSegment) → Obeys t seg (on_segment_time_wait t seg)
unfolding on_segment_time_wait
time_wait-Obeys t seg =
    if_both (Obeys t seg) (has_flag seg flag_fin) (arrow_by_self t seg) (arrow_by_self t seg)

pub dispatch-Obeys :
    (t : TcpState) (seg : TcpSegment) (src_ip : String) (iss : ℕ)
    → Obeys t seg (dispatch t seg src_ip iss)
unfolding dispatch
dispatch-Obeys t seg src_ip iss = ground (
  arith,
  arrow_by_self t seg,
  listen-Obeys t seg src_ip iss,
  syn_sent-Obeys t seg,
  syn_received-Obeys t seg,
  established-Obeys t seg,
  time_wait-Obeys t seg,
)

handle_rst-reset_arrow :
    (t : TcpState) (seg : TcpSegment)
    → reset_arrow
        (has_flag seg flag_ack && seg.ack == add32 t.iss 1)
        t.state
        (handle_rst t seg).0.state
      ≡ true
unfolding handle_rst reset_arrow
handle_rst-reset_arrow t seg = ground arith

-- Three tests of a result, each in its branch.
on_each :
    (out rst : Bool) (stay reset go : TcpState × Bool) (p q r : State → Bool)
    → p stay.0.state ≡ true
    → q reset.0.state ≡ true
    → r go.0.state ≡ true
    → (if out
        then p (if out then stay else if rst then reset else go).0.state
        else if rst
        then q (if out then stay else if rst then reset else go).0.state
        else r (if out then stay else if rst then reset else go).0.state)
      ≡ true
on_each true rst stay reset go p q r h k l = h
on_each false true stay reset go p q r h k l = k
on_each false false stay reset go p q r h k l = l

-- Whatever segment arrives, the state goes along an arrow of the diagram for which the segment has
-- the cause, or stays: SYN and ACK for the handshake, the peer's FIN to CLOSE_WAIT, CLOSING and
-- TIME_WAIT, and the acknowledgement of our FIN to FIN_WAIT_2 and out of CLOSING and LAST_ACK. But
-- for this last way only a reset closes, in SYN_SENT one that acknowledges our SYN, and in LISTEN
-- any, where RFC 9293 has no arrow. A segment that is not from the peer moves a connection nowhere.
pub on_segment-allowed :
    (t : TcpState) (seg : TcpSegment) (src_ip : String) (iss : ℕ)
    → allowed t seg src_ip (on_segment t seg src_ip iss).0.state ≡ true
unfolding on_segment
on_segment-allowed t seg src_ip iss =
    on_each (is_bound t.state && not (from_peer t seg src_ip)) (has_flag seg flag_rst) (t, false)
      (handle_rst t seg) (dispatch t seg src_ip iss) (unmoved t.state)
      (reset_arrow (has_flag seg flag_ack && seg.ack == add32 t.iss 1) t.state) (arrow_by t seg)
      (arrow_self false false false false false t.state) (handle_rst-reset_arrow t seg)
      (dispatch-Obeys t seg src_ip iss)
