-- ===== src/Pcap/State/Stages.antt =====
-- Where the stages of the handler of established connections lead; net/pcap/tcp/state.py.
use aionetiface.Prelude.{ℕ, ◌+◌, ◌≡◌, refl, ap, ◌∙◌, arith, Bool, true, if_both}
use aionetiface.Prelude.{not, ◌&&◌, ◌||◌, ◌==◌, if◌then◌else◌}
use aionetiface.Prelude.{length}
use aionetiface.Bytes.{Bytes}
use aionetiface.Pcap.Segment.{TcpSegment, flag_syn, flag_fin, flag_ack, has_flag}
use aionetiface.Pcap.State.{State, closed, established, fin_wait_1}
use aionetiface.Pcap.State.{
  fin_wait_2, close_wait, closing, last_ack, time_wait, TcpState, is_empty,
}
use aionetiface.Pcap.State.{emit, emit_pure_ack, flush_send, read_peer_mss}
use aionetiface.Pcap.State.{fin_acked}
use aionetiface.Pcap.State.Inbound.{handle_peer_fin, read_payload}
use aionetiface.Pcap.State.Inbound.{take_ack, take_payload, take_fin}
use aionetiface.Pcap.State.Inbound.{advance_close}
use aionetiface.Pcap.State.Arrows.{arrow, arrow_by}

state-emit : (t : TcpState) (flags : ℕ) (block : Bytes) → (emit t flags block).state ≡ t.state
unfolding emit
state-emit t flags block = ground arith

pub state-emit_pure_ack : (t : TcpState) → (emit_pure_ack t).state ≡ t.state
unfolding emit_pure_ack
state-emit_pure_ack t = refl

pub state-flush_send : (t : TcpState) → (flush_send t).state ≡ t.state
unfolding flush_send
state-flush_send t =
    let Same = λ (u : TcpState). u.state ≡ t.state in
    if_both Same (is_empty t.send_buf) refl (if_both Same t.have_unacked refl (state-emit _ _ _))

state-read_peer_mss : (t : TcpState) (seg : TcpSegment) → (read_peer_mss t seg).state ≡ t.state
unfolding read_peer_mss
state-read_peer_mss t seg = ground arith

state-take_ack : (t : TcpState) (seg : TcpSegment) → (take_ack t seg).state ≡ t.state
unfolding take_ack
state-take_ack t seg = ground arith

state-read_payload : (t : TcpState) (seg : TcpSegment) → (read_payload t seg).state ≡ t.state
unfolding read_payload emit_pure_ack
state-read_payload t seg = refl

state-take_payload : (t : TcpState) (seg : TcpSegment) → (take_payload t seg).state ≡ t.state
unfolding take_payload read_payload emit_pure_ack
state-take_payload t seg = ground arith

-- The state after the peer's FIN and after the acknowledgement of ours, by the tests made.
abbrev moved : State → Bool → State
moved established acked = close_wait
moved fin_wait_1 acked = if acked then time_wait else closing
moved fin_wait_2 acked = time_wait
moved s acked = s

abbrev advanced : State → Bool → Bool → State
advanced fin_wait_1 acked received =
    if acked then (if received then time_wait else fin_wait_2) else fin_wait_1
advanced closing acked received = if acked then time_wait else closing
advanced last_ack acked received = if acked then closed else last_ack
advanced s acked received = s

arrow_steps :
    (syn ack fin told acked here : Bool) (s : State)
    → arrow syn ack fin told acked s
        (advanced (if fin && here then moved s acked else s) acked (told || fin && here))
      ≡ true
unfolding arrow
arrow_steps syn ack fin told acked here closed = ground arith
arrow_steps syn ack fin told acked here _ = ground arith

-- Our FIN's acknowledgement and the peer's FIN, through the stages.
acked-take_payload :
    (t : TcpState) (seg : TcpSegment)
    → (fin_acked (take_payload t seg) ≡ fin_acked t)
      × ((take_payload t seg).fin_received ≡ t.fin_received)
unfolding take_payload read_payload emit_pure_ack fin_acked
acked-take_payload t seg = (ground arith, ground arith)

received-take_ack :
    (t : TcpState) (seg : TcpSegment) → (take_ack t seg).fin_received ≡ t.fin_received
unfolding take_ack
received-take_ack t seg = ground arith

-- The FIN that stands where it is due.
abbrev fin_here : TcpState → TcpSegment → Bool
fin_here t seg = seg.seq + length seg.payload == t.rcv_nxt && not t.fin_received

take_fin-moved :
    (t : TcpState) (seg : TcpSegment)
    → ((take_fin t seg).state ≡ (
        if has_flag seg flag_fin && fin_here t seg then moved t.state (fin_acked t) else t.state))
      × (fin_acked (take_fin t seg) ≡ fin_acked t)
      × ((take_fin t seg).fin_received ≡ t.fin_received || has_flag seg flag_fin && fin_here t seg)
unfolding take_fin handle_peer_fin emit_pure_ack fin_acked
take_fin-moved t seg = (ground arith, ground arith, ground arith)

state-advance_close :
    (t : TcpState) → (advance_close t).state ≡ advanced t.state (fin_acked t) t.fin_received
unfolding advance_close
state-advance_close t = ground arith

-- The stages of the handler of established connections, up to the sending.
abbrev pub stages : TcpState → TcpSegment → TcpState
stages t seg = advance_close (take_fin (take_payload (take_ack t seg) seg) seg)

-- The peer's FIN, where there is one, and then the acknowledgement of ours.
abbrev goes_on : Bool → State → Bool → State
goes_on here s acked = if here then moved s acked else s

abbrev goes_to : Bool → State → Bool → Bool → State
goes_to here s acked received = advanced (goes_on here s acked) acked (received || here)

pub stages-arrow : (t : TcpState) (seg : TcpSegment) → arrow_by t seg (stages t seg).state ≡ true
stages-arrow t seg =
    let acked = take_ack t seg in
    let fed = take_payload acked seg in
    let ended = take_fin fed seg in
    let here = has_flag seg flag_fin && fin_here fed seg in
    let (state, same, received) = take_fin-moved fed seg in
    let (kept, before) = acked-take_payload acked seg in
    ap (arrow_by t seg) (
      state-advance_close ended
      ∙ ap (λ (s : State). advanced s (fin_acked ended) ended.fin_received) state
      ∙ ap (λ (a : Bool). advanced (goes_on here fed.state (fin_acked fed)) a ended.fin_received)
          same
      ∙ ap (advanced (goes_on here fed.state (fin_acked fed)) (fin_acked fed)) received
      ∙ ap (λ (a : Bool). goes_to here fed.state a fed.fin_received) kept
      ∙ ap (λ (s : State). goes_to here s (fin_acked acked) fed.fin_received)
          (state-take_payload acked seg ∙ state-take_ack t seg)
      ∙ ap (goes_to here t.state (fin_acked acked)) (before ∙ received-take_ack t seg))
    ∙ arrow_steps (has_flag seg flag_syn) (has_flag seg flag_ack) (has_flag seg flag_fin)
        t.fin_received (fin_acked acked) (fin_here fed seg) t.state
