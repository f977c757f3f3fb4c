-- ===== src/Pcap/State/Closing.antt =====
-- The end of a connection: what `close` leaves behind, and how the handlers take a FIN, a reset and
-- the data on the last segment of the handshake.
use aionetiface.Prelude.{ℕ, ◌+◌, ◌^◌, ◌≤◌, ◌<◌, ◌≡◌, refl, ap, ◌∙◌, arith, Bool, true, false}
use aionetiface.Prelude.{not, ◌&&◌, if_both}
use aionetiface.Prelude.{List, [], ◌∷◌, ◌++◌, length}
use aionetiface.Pcap.Segment.{
  TcpSegment, flag_syn, flag_fin, flag_rst, flag_ack, has_flag, segment_length,
}
use aionetiface.Pcap.State.{State, closed, listen, established, fin_wait_1}
use aionetiface.Pcap.State.{fin_wait_2, closing, last_ack, time_wait, TcpState, is_empty, add32}
use aionetiface.Pcap.State.{emit, emit_pure_ack, flush_send, close}
use aionetiface.Pcap.State.Inbound.{on_segment, dispatch, handle_rst, handle_peer_fin, read_payload}
use aionetiface.Pcap.State.Inbound.{
  take_ack, take_payload, take_fin, advance_close, flush_established,
}
use aionetiface.Pcap.State.Inbound.{
  on_segment_established, on_segment_syn_received, on_segment_time_wait,
}
use aionetiface.Pcap.State.Inbound.{is_bound, from_peer, acceptable}
use aionetiface.Prelude.{◌==◌, if◌then◌else◌}
use aionetiface.Pcap.State.{fin_acked}
use aionetiface.Pcap.State.Arrows.{arrow, arrow_by, reset_arrow, unmoved, allowed}
use aionetiface.Pcap.State.Diagram.{on_segment-allowed}
use aionetiface.Pcap.State.Stages.{stages, stages-arrow}
use aionetiface.Pcap.State.Stream.{stream, stream-on_segment}
use aionetiface.Pcap.State.Accounting.{flush_send_receive}
use Prim.Native.String.{String}

-- Our FIN is sent, or the connection is closed.
abbrev pub is_ending : State → Bool
is_ending fin_wait_1 = true
is_ending fin_wait_2 = true
is_ending closing = true
is_ending last_ack = true
is_ending time_wait = true
is_ending closed = true
is_ending _ = false

arrow_ending :
    (syn ack fin told acked : Bool) (s u : State)
    → arrow syn ack fin told acked s u ≡ true
    → is_ending s ≡ true
    → is_ending u ≡ true
unfolding arrow
arrow_ending syn ack fin told acked closed u a h = ground arith
arrow_ending syn ack fin told acked _ u a h = ground arith

arrow_by_ending :
    (t : TcpState) (seg : TcpSegment) (u : State)
    → arrow_by t seg u ≡ true
    → is_ending t.state ≡ true
    → is_ending u ≡ true
arrow_by_ending t seg u =
    arrow_ending (has_flag seg flag_syn) (has_flag seg flag_ack) (has_flag seg flag_fin)
      t.fin_received (fin_acked (take_ack t seg)) t.state u

reset_ending :
    (acks_syn : Bool) (s u : State)
    → reset_arrow acks_syn s u ≡ true
    → is_ending s ≡ true
    → is_ending u ≡ true
unfolding reset_arrow
reset_ending acks_syn closed u a h = ground arith
reset_ending acks_syn _ u a h = ground arith

one_of_three :
    (out rst stay reset go : Bool) (Goal : Type 0)
    → (stay ≡ true → Goal)
    → (reset ≡ true → Goal)
    → (go ≡ true → Goal)
    → (if out then stay else if rst then reset else go) ≡ true
    → Goal
one_of_three true rst stay reset go Goal f g k h = f h
one_of_three false true stay reset go Goal f g k h = g h
one_of_three false false stay reset go Goal f g k h = k h

allowed_ending :
    (t : TcpState) (seg : TcpSegment) (src_ip : String) (u : State)
    → allowed t seg src_ip u ≡ true
    → is_ending t.state ≡ true
    → is_ending u ≡ true
allowed_ending t seg src_ip u h e =
    one_of_three (is_bound t.state && not (from_peer t seg src_ip)) (has_flag seg flag_rst)
      (unmoved t.state u)
      (reset_arrow (has_flag seg flag_ack && seg.ack == add32 t.iss 1) t.state u) (arrow_by t seg u)
      (is_ending u ≡ true) (λ stays. arrow_ending false false false false false t.state u stays e)
      (λ resets. reset_ending _ t.state u resets e) (λ goes. arrow_by_ending t seg u goes e) h

abbrev Keeps : TcpState → TcpState × Bool → Type 0
Keeps t r = r.0.send_buf ≡ t.send_buf

take_ack-send_buf : (t : TcpState) (seg : TcpSegment) → (take_ack t seg).send_buf ≡ t.send_buf
unfolding take_ack
take_ack-send_buf t seg = ground arith

take_payload-send_buf :
    (t : TcpState) (seg : TcpSegment) → (take_payload t seg).send_buf ≡ t.send_buf
unfolding take_payload read_payload emit_pure_ack
take_payload-send_buf t seg = ground arith

take_fin-send_buf : (t : TcpState) (seg : TcpSegment) → (take_fin t seg).send_buf ≡ t.send_buf
unfolding take_fin handle_peer_fin emit_pure_ack
take_fin-send_buf t seg = ground arith

advance_close-send_buf : (t : TcpState) → (advance_close t).send_buf ≡ t.send_buf
unfolding advance_close
advance_close-send_buf t = ground arith

stages-send_buf : (t : TcpState) (seg : TcpSegment) → (stages t seg).send_buf ≡ t.send_buf
stages-send_buf t seg =
    let acked = take_ack t seg in
    let fed = take_payload acked seg in
    advance_close-send_buf (take_fin fed seg)
    ∙ take_fin-send_buf fed seg
    ∙ take_payload-send_buf acked seg
    ∙ take_ack-send_buf t seg

-- Sending starts again only in ESTABLISHED, which an ending connection never reaches.
not_flushed :
    (t : TcpState) → is_ending t.state ≡ true → (flush_established t).send_buf ≡ t.send_buf
not_flushed t e = ground arith

established-Keeps :
    (t : TcpState) (seg : TcpSegment)
    → is_ending t.state ≡ true
    → Keeps t (on_segment_established t seg)
unfolding on_segment_established emit_pure_ack
established-Keeps t seg e =
    let past = arrow_by_ending t seg (stages t seg).state (stages-arrow t seg) e in
    if_both (Keeps t) (acceptable t seg) (not_flushed (stages t seg) past ∙ stages-send_buf t seg)
      refl

time_wait-Keeps : (t : TcpState) (seg : TcpSegment) → Keeps t (on_segment_time_wait t seg)
unfolding on_segment_time_wait
time_wait-Keeps t seg = if_both (Keeps t) (has_flag seg flag_fin) refl refl

dispatch-Keeps :
    (t : TcpState) (seg : TcpSegment) (src_ip : String) (iss : ℕ)
    → is_ending t.state ≡ true
    → Keeps t (dispatch t seg src_ip iss)
unfolding dispatch
dispatch-Keeps t seg src_ip iss e = ground (arith, established-Keeps t seg e, time_wait-Keeps t seg)

on_segment-Keeps :
    (t : TcpState) (seg : TcpSegment) (src_ip : String) (iss : ℕ)
    → is_ending t.state ≡ true
    → Keeps t (on_segment t seg src_ip iss)
unfolding on_segment handle_rst
on_segment-Keeps t seg src_ip iss e =
    if_both (Keeps t) (is_bound t.state && not (from_peer t seg src_ip)) refl
      (if_both (Keeps t) (has_flag seg flag_rst) (ground arith) (dispatch-Keeps t seg src_ip iss e))

-- What arrives, one segment after the other: the segment, its source and the number drawn.
abbrev pub Arrival : Type 0
Arrival = TcpSegment × String × ℕ

pub run : List Arrival → TcpState → TcpState
run [] t = t
run ((seg, src_ip, iss) ∷ rest) t = run rest (on_segment t seg src_ip iss).0

-- Once the FIN is out, the bytes that still wait are never sent: whatever segments arrive, the send
-- buffer stays as it is, the bytes in queued segments stay the same, and the connection stays past
-- its FIN or closed. `close` in ESTABLISHED with a block in flight leaves such bytes.
pub run_ending :
    (t : TcpState) (arrivals : List Arrival)
    → is_ending t.state ≡ true
    → ((run arrivals t).send_buf ≡ t.send_buf)
      × (stream (run arrivals t) ≡ stream t)
      × (is_ending (run arrivals t).state ≡ true)
unfolding run
run_ending t [] e = (refl, refl, e)
run_ending t ((seg, src_ip, iss) ∷ rest) e =
    let u = (on_segment t seg src_ip iss).0 in
    let still = allowed_ending t seg src_ip u.state (on_segment-allowed t seg src_ip iss) e in
    let (same, flow, past) = run_ending u rest still in
    (same ∙ on_segment-Keeps t seg src_ip iss e, flow ∙ stream-on_segment t seg src_ip iss, past)

-- `close` on an established connection sends one FIN with an ACK behind all that was sent, and no
-- data: the send buffer keeps what waits, and the connection is in FIN_WAIT_1.
pub close_established :
    (t : TcpState)
    → t.state ≡ established
    → ((close t).state ≡ fin_wait_1)
      × ((close t).send_buf ≡ t.send_buf)
      × ((close t).fin_sent ≡ true)
      × ((close t).snd_nxt ≡ add32 t.snd_nxt 1)
unfolding close emit segment_length
close_established t e = ground arith

-- A FIN that stands behind in-order payload is missed when the payload crosses the end of the
-- sequence space: the payload is read and `rcv_nxt` is the FIN's number, but the connection stays
-- established and the FIN is not taken.
pub fin_missed_at_wrap :
    (t : TcpState) (seg : TcpSegment)
    → t.state ≡ established
    → seg.seq ≡ t.rcv_nxt
    → t.rcv_nxt < 2 ^ 32
    → 2 ^ 32 ≤ seg.seq + length seg.payload
    → (take_fin (read_payload t seg) seg ≡ read_payload t seg)
      × ((read_payload t seg).rcv_nxt ≡ add32 seg.seq (length seg.payload))
      × ((read_payload t seg).state ≡ established)
unfolding take_fin read_payload emit_pure_ack
fin_missed_at_wrap t seg e s lt wrap = (ground arith, ground arith, e)

-- The last segment of a handshake has its payload read whatever its sequence number is: with the
-- right ACK and no FIN, the payload goes to the reader and `rcv_nxt` counts it.
pub syn_received_reads_any :
    (t : TcpState) (seg : TcpSegment)
    → has_flag seg flag_ack ≡ true
    → has_flag seg flag_fin ≡ false
    → seg.ack ≡ add32 t.iss 1
    → is_empty seg.payload ≡ false
    → ((on_segment_syn_received t seg).0.read_buf ≡ t.read_buf ++ seg.payload)
      × ((on_segment_syn_received t seg).0.rcv_nxt ≡ add32 t.rcv_nxt (length seg.payload))
unfolding on_segment_syn_received
syn_received_reads_any t seg a f e p =
    let up = record t { snd_una = seg.ack; snd_wnd = seg.window; state = established } in
    let fed = read_payload up seg in
    let (nxt, irs, buf, fin) = flush_send_receive fed in
    let whole : on_segment_syn_received t seg ≡ (flush_send fed, true) = ground arith in
    unfold read_payload emit_pure_ack in
    (
      ap (λ (r : TcpState × Bool). r.0.read_buf) whole ∙ buf,
      ap (λ (r : TcpState × Bool). r.0.rcv_nxt) whole ∙ nxt,
    )

-- A reset ends a listening connection, from whichever address it comes.
pub listen_reset :
    (t : TcpState) (seg : TcpSegment) (src_ip : String) (iss : ℕ)
    → t.state ≡ listen
    → has_flag seg flag_rst ≡ true
    → ((on_segment t seg src_ip iss).0.state ≡ closed)
      × ((on_segment t seg src_ip iss).0.aborted ≡ true)
unfolding on_segment handle_rst
listen_reset t seg src_ip iss e r = ground arith
