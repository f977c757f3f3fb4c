-- ===== src/Pcap/State/Stream.antt =====
-- The bytes that the application writes and the bytes that go into segments: what stands in the
-- queue of segments, followed by what waits in the send buffer, changes only by `write`.
use aionetiface.Prelude.{ℕ, ◌≡◌, refl, ap, ◌∙◌, arith, bit_or, Bool, true}
use aionetiface.Prelude.{not, ◌&&◌, Option, none, some, ◌==◌, if◌then◌else◌, if_both}
use aionetiface.Prelude.{
  List, [], ◌∷◌, ◌++◌, append-nil, append_assoc, length, take, drop, take-append-drop,
}
use aionetiface.Bytes.{Bytes, ok}
use aionetiface.Pcap.Segment.{
  TcpSegment, flag_syn, flag_fin, flag_ack, flag_psh, flag_rst, has_flag,
}
use aionetiface.Pcap.State.{established}
use aionetiface.Pcap.State.{TcpState, is_empty, add32}
use aionetiface.Pcap.State.{
  emit, emitted, emit_rst, emit_pure_ack, flush_send, write, close, read_peer_mss, push,
}
use aionetiface.Pcap.State.{bare_ack}
use aionetiface.Pcap.State.Inbound.{handle_rst, on_segment_listen, syn_ack, acks_new}
use aionetiface.Pcap.State.Inbound.{on_segment_syn_sent, handle_peer_fin, read_payload}
use aionetiface.Pcap.State.Inbound.{on_segment_syn_received, take_ack, take_payload, take_fin}
use aionetiface.Pcap.State.Inbound.{advance_close, on_segment_established, on_segment_time_wait}
use aionetiface.Pcap.State.Inbound.{
  dispatch, on_segment, flush_established, is_bound, from_peer, acceptable,
}
use Prim.Native.String.{String}

pub payloads : List TcpSegment → Bytes
payloads [] = []
payloads (seg ∷ segs) = seg.payload ++ payloads segs

abbrev pub stream : TcpState → Bytes
stream t = payloads t.outbox ++ t.send_buf

payloads-append : (xs ys : List TcpSegment) → payloads (xs ++ ys) ≡ payloads xs ++ payloads ys
unfolding payloads
payloads-append [] ys = refl
payloads-append (x ∷ xs) ys = simp (payloads-append xs ys, append_assoc)

payloads-one :
    (xs : List TcpSegment) (seg : TcpSegment)
    → payloads (xs ++ (seg ∷ [])) ≡ payloads xs ++ seg.payload
payloads-one xs seg = payloads-append xs (seg ∷ []) ∙ unfold payloads in simp append-nil

-- A segment without payload adds nothing.
stream-push : (t : TcpState) (seg : TcpSegment) → seg.payload ≡ [] → stream (push t seg) ≡ stream t
stream-push t seg e = rw (payloads-one t.outbox seg, e, append-nil)

emit-send_buf :
    (t : TcpState) (flags : ℕ) (block : Bytes) → (emit t flags block).send_buf ≡ t.send_buf
unfolding emit
emit-send_buf t flags block = ground arith

emit-outbox :
    (t : TcpState) (flags : ℕ) (block : Bytes)
    → (emit t flags block).outbox ≡ t.outbox ++ (emitted t flags block ∷ [])
unfolding emit
emit-outbox t flags block = ground arith

emitted-payload :
    (t : TcpState) (flags : ℕ) (block : Bytes) → (emitted t flags block).payload ≡ block
emitted-payload t flags block = ground arith

payloads-emit :
    (t : TcpState) (flags : ℕ) (block : Bytes)
    → payloads (emit t flags block).outbox ≡ payloads t.outbox ++ block
payloads-emit t flags block =
    rw (emit-outbox t flags block, payloads-one t.outbox, emitted-payload t flags block)

-- A segment that is formed from a block takes it from the stream's second part to its first.
stream-emit :
    (t : TcpState) (flags : ℕ) (block : Bytes)
    → stream (emit t flags block) ≡ payloads t.outbox ++ (block ++ t.send_buf)
stream-emit t flags block =
    rw (payloads-emit t flags block, emit-send_buf t flags block) (append_assoc _ block t.send_buf)

stream-flush_send : (t : TcpState) → stream (flush_send t) ≡ stream t
unfolding flush_send
stream-flush_send t =
    let P = λ (u : TcpState). stream u ≡ stream t in
    let rest = record t { send_buf = drop t.peer_mss t.send_buf } in
    let sent : stream (emit rest (bit_or flag_ack flag_psh) (take t.peer_mss t.send_buf))
        ≡ stream t =
      stream-emit rest (bit_or flag_ack flag_psh) (take t.peer_mss t.send_buf)
      ∙ ap (λ x. payloads t.outbox ++ x) (take-append-drop t.peer_mss t.send_buf) in
    if_both P (is_empty t.send_buf) refl (if_both P t.have_unacked refl sent)

stream-read_peer_mss : (t : TcpState) (seg : TcpSegment) → stream (read_peer_mss t seg) ≡ stream t
unfolding read_peer_mss
stream-read_peer_mss t seg = ground arith

stream-emit_pure_ack : (t : TcpState) → stream (emit_pure_ack t) ≡ stream t
unfolding emit_pure_ack
stream-emit_pure_ack t = stream-push t (bare_ack t) refl

stream-emit_rst : (t : TcpState) (seq ack : Option ℕ) → stream (emit_rst t seq ack) ≡ stream t
unfolding emit_rst
stream-emit_rst t seq ack = stream-push t _ refl

stream-control : (t : TcpState) (flags : ℕ) → stream (emit t flags []) ≡ stream t
stream-control t flags = stream-emit t flags []

stream-handle_rst : (t : TcpState) (seg : TcpSegment) → stream (handle_rst t seg).0 ≡ stream t
unfolding handle_rst
stream-handle_rst t seg = ground arith

-- A handler's result, whatever it says of the segment.
abbrev Keeps : TcpState → TcpState × Bool → Type 0
Keeps t r = stream r.0 ≡ stream t

stream-listen :
    (t : TcpState) (seg : TcpSegment) (src_ip : String) (iss : ℕ)
    → Keeps t (on_segment_listen t seg src_ip iss)
unfolding on_segment_listen
stream-listen t seg src_ip iss =
    let bound = record t {
      remote_ip = some src_ip;
      remote_port = seg.src_port;
      irs = seg.seq;
      rcv_nxt = add32 seg.seq 1;
      iss = iss;
      snd_nxt = iss;
      snd_una = iss;
    } in
    if_both (Keeps t) (has_flag seg flag_ack) (stream-emit_rst t (some seg.ack) none) (
      if_both (Keeps t) (has_flag seg flag_syn)
        (stream-control (read_peer_mss bound seg) (bit_or flag_syn flag_ack)
          ∙ stream-read_peer_mss bound seg)
        refl)

stream-syn_sent : (t : TcpState) (seg : TcpSegment) → Keeps t (on_segment_syn_sent t seg)
unfolding on_segment_syn_sent
stream-syn_sent t seg =
    let heard = read_peer_mss (record t { irs = seg.seq; rcv_nxt = add32 seg.seq 1 }) seg in
    let same : stream heard ≡ stream t = stream-read_peer_mss _ seg in
    let acked = record heard { snd_una = seg.ack; snd_wnd = seg.window } in
    let joined = record (push acked (bare_ack acked)) { state = established } in
    if_both (Keeps t) (has_flag seg flag_ack && not (acks_new t seg)) refl (
      if_both (Keeps t) (not (has_flag seg flag_syn)) refl (
        if_both (Keeps t) (has_flag seg flag_ack)
          (stream-flush_send joined ∙ stream-push acked (bare_ack acked) refl ∙ same)
          (stream-push heard (syn_ack heard) refl ∙ same)))

stream-handle_peer_fin : (t : TcpState) → stream (handle_peer_fin t) ≡ stream t
unfolding handle_peer_fin
stream-handle_peer_fin t =
    ground
      (arith, stream-emit_pure_ack (record t { fin_received = true; rcv_nxt = add32 t.rcv_nxt 1 }))

stream-read_payload : (t : TcpState) (seg : TcpSegment) → stream (read_payload t seg) ≡ stream t
unfolding read_payload
stream-read_payload t seg = stream-emit_pure_ack (record t {
  read_buf = t.read_buf ++ seg.payload;
  rcv_nxt = add32 t.rcv_nxt (length seg.payload);
})

stream-syn_received : (t : TcpState) (seg : TcpSegment) → Keeps t (on_segment_syn_received t seg)
unfolding on_segment_syn_received
stream-syn_received t seg =
    let Same = λ (u : TcpState). stream u ≡ stream t in
    let up = record t { snd_una = seg.ack; snd_wnd = seg.window; state = established } in
    let fed = if is_empty seg.payload then up else read_payload up seg in
    let read : stream fed ≡ stream t =
      if_both Same (is_empty seg.payload) refl (stream-read_payload up seg) in
    let finished = if has_flag seg flag_fin then handle_peer_fin fed else fed in
    let done : stream finished ≡ stream t =
      if_both Same (has_flag seg flag_fin) (stream-handle_peer_fin fed ∙ read) read in
    if_both (Keeps t) (has_flag seg flag_syn && not (has_flag seg flag_ack))
      (stream-push t (syn_ack t) refl)
      (if_both (Keeps t) (not (has_flag seg flag_ack)) refl (
        if_both (Keeps t) (not (seg.ack == add32 t.iss 1)) refl
          (stream-flush_send finished ∙ done)))

stream-take_ack : (t : TcpState) (seg : TcpSegment) → stream (take_ack t seg) ≡ stream t
unfolding take_ack
stream-take_ack t seg = ground arith

stream-take_payload : (t : TcpState) (seg : TcpSegment) → stream (take_payload t seg) ≡ stream t
unfolding take_payload
stream-take_payload t seg = ground (arith, stream-read_payload t seg, stream-emit_pure_ack t)

stream-take_fin : (t : TcpState) (seg : TcpSegment) → stream (take_fin t seg) ≡ stream t
unfolding take_fin
stream-take_fin t seg = ground (arith, stream-handle_peer_fin t)

stream-advance_close : (t : TcpState) → stream (advance_close t) ≡ stream t
unfolding advance_close
stream-advance_close t = ground arith

stream-flush_established : (t : TcpState) → stream (flush_established t) ≡ stream t
stream-flush_established t = ground (arith, stream-flush_send t)

stream-established : (t : TcpState) (seg : TcpSegment) → Keeps t (on_segment_established t seg)
unfolding on_segment_established
stream-established t seg =
    let acked = take_ack t seg in
    let fed = take_payload acked seg in
    let finished = take_fin fed seg in
    if_both (Keeps t) (acceptable t seg)
      (stream-flush_established (advance_close finished)
        ∙ stream-advance_close finished
        ∙ stream-take_fin fed seg
        ∙ stream-take_payload acked seg
        ∙ stream-take_ack t seg)
      (stream-emit_pure_ack t)

stream-time_wait : (t : TcpState) (seg : TcpSegment) → Keeps t (on_segment_time_wait t seg)
unfolding on_segment_time_wait
stream-time_wait t seg =
    if_both (Keeps t) (has_flag seg flag_fin) (stream-push t (bare_ack t) refl) refl

stream-dispatch :
    (t : TcpState) (seg : TcpSegment) (src_ip : String) (iss : ℕ)
    → Keeps t (dispatch t seg src_ip iss)
unfolding dispatch
stream-dispatch t seg src_ip iss = ground (
  arith,
  stream-listen t seg src_ip iss,
  stream-syn_sent t seg,
  stream-syn_received t seg,
  stream-time_wait t seg,
  stream-established t seg,
)

-- No inbound segment changes the stream: whatever arrives, in whatever state, the bytes in queued
-- segments followed by the bytes that wait are the same before and after, so nothing is lost,
-- repeated or reordered between the send buffer and the queue.
pub stream-on_segment :
    (t : TcpState) (seg : TcpSegment) (src_ip : String) (iss : ℕ)
    → stream (on_segment t seg src_ip iss).0 ≡ stream t
unfolding on_segment
stream-on_segment t seg src_ip iss =
    if_both (Keeps t) (is_bound t.state && not (from_peer t seg src_ip)) refl (
      if_both (Keeps t) (has_flag seg flag_rst) (stream-handle_rst t seg)
        (stream-dispatch t seg src_ip iss))

-- A `write` that raises no error puts its block at the end of the stream, in every state.
pub stream-write :
    (t u : TcpState) (block : Bytes) → write t block ≡ ok u → stream u ≡ stream t ++ block
unfolding write
stream-write t u block h = ground (
  arith,
  append_assoc (payloads t.outbox) t.send_buf block,
  stream-flush_send (record t { send_buf = t.send_buf ++ block }),
)

-- `close` sends no data and drops none.
pub stream-close : (t : TcpState) → stream (close t) ≡ stream t
unfolding close
stream-close t = ground (arith, stream-control t (bit_or flag_fin flag_ack))
