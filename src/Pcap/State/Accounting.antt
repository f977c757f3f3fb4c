-- ===== src/Pcap/State/Accounting.antt =====
-- What `rcv_nxt` counts: the peer's SYN, every byte that went to the reader, and the peer's FIN.
use aionetiface.Prelude.{ℕ, ◌+◌, ◌%◌, ◌^◌, ◌≡◌, ◌≢◌, refl, arith, bit_or, Bool, false, if_both}
use aionetiface.Prelude.{not, ◌&&◌, Bool-cases, inl, inr, Option, none, some, ◌==◌, if◌then◌else◌}
use aionetiface.Prelude.{[], ◌++◌, length, take, drop, length-append, length-take, length-drop}
use aionetiface.Prelude.{append-nil, take-append-drop, leb}
use aionetiface.Bytes.{Bytes}
use aionetiface.Pcap.Segment.{TcpSegment, flag_syn, flag_fin, flag_ack, flag_rst, has_flag}
use aionetiface.Pcap.State.{State, closed, listen, syn_sent, established}
use aionetiface.Pcap.State.{TcpState, is_empty, add32}
use aionetiface.Pcap.State.{emit, emit_rst, emit_pure_ack, flush_send, read_peer_mss, push}
use aionetiface.Pcap.State.{bare_ack, is_closed, pop_read}
use aionetiface.Pcap.State.Inbound.{handle_rst, on_segment_listen, acks_new, acceptable}
use aionetiface.Pcap.State.Inbound.{on_segment_syn_sent, handle_peer_fin, read_payload}
use aionetiface.Pcap.State.Inbound.{on_segment_syn_received, take_ack, take_payload, take_fin}
use aionetiface.Pcap.State.Inbound.{advance_close, on_segment_established, on_segment_time_wait}
use aionetiface.Pcap.State.Inbound.{dispatch, on_segment, flush_established, is_bound, from_peer}
use aionetiface.Pcap.State.Diagram.{dispatch-Obeys}
use aionetiface.Pcap.State.Arrows.{is_opening, opening_backwards_by}
use aionetiface.Pcap.State.Stages.{state-flush_send}
use Prim.Native.String.{String}

abbrev pub one_if : Bool → ℕ
one_if b = if b then 1 else 0

-- `popped` bytes have left the read buffer before.
abbrev pub Balanced : ℕ → TcpState → Type 0
Balanced popped t =
    t.rcv_nxt ≡ (t.irs + 1 + popped + length t.read_buf + one_if t.fin_received) % 2 ^ 32

-- Nothing has been received yet.
abbrev pub IsFresh : ℕ → TcpState → Type 0
IsFresh popped t = (popped ≡ 0) × (length t.read_buf ≡ 0) × (t.fin_received ≡ false)

-- Before the peer's SYN nothing is received; from then on the numbers balance. A closed connection
-- promises nothing.
abbrev AccountedIn : State → ℕ → TcpState → Type 0
AccountedIn closed popped t = Unit {0}
AccountedIn listen popped t = IsFresh popped t
AccountedIn syn_sent popped t = IsFresh popped t
AccountedIn _ popped t = Balanced popped t

abbrev pub IsAccounted : ℕ → TcpState → Type 0
IsAccounted popped t = AccountedIn t.state popped t

Balanced-emit_pure_ack : (n : ℕ) (t : TcpState) → Balanced n t → Balanced n (emit_pure_ack t)
unfolding emit_pure_ack
Balanced-emit_pure_ack n t h = h

-- `emit` and `flush_send` leave the receive side alone.
abbrev pub SameReceive : TcpState → TcpState → Type 0
SameReceive t u =
    (u.rcv_nxt ≡ t.rcv_nxt)
    × (u.irs ≡ t.irs)
    × (u.read_buf ≡ t.read_buf)
    × (u.fin_received ≡ t.fin_received)

emit_receive : (t : TcpState) (flags : ℕ) (block : Bytes) → SameReceive t (emit t flags block)
unfolding emit
emit_receive t flags block = ground arith

pub flush_send_receive : (t : TcpState) → SameReceive t (flush_send t)
unfolding flush_send
flush_send_receive t =
    if_both (SameReceive t) (is_empty t.send_buf) (refl, refl, refl, refl)
      (if_both (SameReceive t) t.have_unacked (refl, refl, refl, refl) (emit_receive _ _ _))

read_peer_mss_receive : (t : TcpState) (seg : TcpSegment) → SameReceive t (read_peer_mss t seg)
unfolding read_peer_mss
read_peer_mss_receive t seg = ground arith

take_ack_receive : (t : TcpState) (seg : TcpSegment) → SameReceive t (take_ack t seg)
unfolding take_ack
take_ack_receive t seg = ground arith

advance_close_receive : (t : TcpState) → SameReceive t (advance_close t)
unfolding advance_close
advance_close_receive t = ground arith

Balanced-same : (n : ℕ) (t u : TcpState) → SameReceive t u → Balanced n t → Balanced n u
Balanced-same n t u (a, b, c, d) h = ground arith

Balanced-read_payload :
    (n : ℕ) (t : TcpState) (seg : TcpSegment) → Balanced n t → Balanced n (read_payload t seg)
unfolding read_payload emit_pure_ack
Balanced-read_payload n t seg h = omega (arith, length-append t.read_buf seg.payload)

Balanced-handle_peer_fin : (n : ℕ) (t : TcpState) → Balanced n t → Balanced n (handle_peer_fin t)
unfolding handle_peer_fin emit_pure_ack
Balanced-handle_peer_fin n t h = ground arith

-- A handler keeps the balance of a connection that has passed its handshake.
abbrev Keeps : ℕ → TcpState × Bool → Type 0
Keeps n r = Balanced n r.0

Balanced-take_payload :
    (n : ℕ) (t : TcpState) (seg : TcpSegment) → Balanced n t → Balanced n (take_payload t seg)
unfolding take_payload
Balanced-take_payload n t seg h =
    ground (arith, Balanced-read_payload n t seg, Balanced-emit_pure_ack n t)

Balanced-take_fin :
    (n : ℕ) (t : TcpState) (seg : TcpSegment) → Balanced n t → Balanced n (take_fin t seg)
unfolding take_fin
Balanced-take_fin n t seg h = ground (arith, Balanced-handle_peer_fin n t)

Balanced-flush_send : (n : ℕ) (t : TcpState) → Balanced n t → Balanced n (flush_send t)
Balanced-flush_send n t h = Balanced-same n t (flush_send t) (flush_send_receive t) h

Balanced-flush_established :
    (n : ℕ) (t : TcpState) → Balanced n t → Balanced n (flush_established t)
Balanced-flush_established n t h = ground (arith, Balanced-flush_send n t)

Balanced-established :
    (n : ℕ) (t : TcpState) (seg : TcpSegment)
    → Balanced n t
    → Keeps n (on_segment_established t seg)
unfolding on_segment_established
Balanced-established n t seg h =
    let acked : Balanced n (take_ack t seg) =
      Balanced-same n t (take_ack t seg) (take_ack_receive t seg) h in
    let fed = Balanced-take_payload n (take_ack t seg) seg acked in
    let ended = take_fin (take_payload (take_ack t seg) seg) seg in
    let finished : Balanced n ended =
      Balanced-take_fin n (take_payload (take_ack t seg) seg) seg fed in
    if_both (Keeps n) (acceptable t seg)
      (Balanced-flush_established n (advance_close ended)
        (Balanced-same n ended (advance_close ended) (advance_close_receive ended) finished))
      (Balanced-emit_pure_ack n t h)

Balanced-syn_received :
    (n : ℕ) (t : TcpState) (seg : TcpSegment)
    → Balanced n t
    → Keeps n (on_segment_syn_received t seg)
unfolding on_segment_syn_received
Balanced-syn_received n t seg h =
    let up = record t { snd_una = seg.ack; snd_wnd = seg.window; state = established } in
    let fed : Balanced n (if is_empty seg.payload then up else read_payload up seg) =
      if_both (Balanced n) (is_empty seg.payload) h (Balanced-read_payload n up seg h) in
    let read = if is_empty seg.payload then up else read_payload up seg in
    let done = if has_flag seg flag_fin then handle_peer_fin read else read in
    let finished : Balanced n done =
      if_both (Balanced n) (has_flag seg flag_fin) (Balanced-handle_peer_fin n read fed) fed in
    if_both (Keeps n) (has_flag seg flag_syn && not (has_flag seg flag_ack)) h (
      if_both (Keeps n) (not (has_flag seg flag_ack)) h (
        if_both (Keeps n) (not (seg.ack == add32 t.iss 1)) h (Balanced-flush_send n done finished)))

Balanced-time_wait :
    (n : ℕ) (t : TcpState) (seg : TcpSegment) → Balanced n t → Keeps n (on_segment_time_wait t seg)
unfolding on_segment_time_wait
Balanced-time_wait n t seg h = if_both (Keeps n) (has_flag seg flag_fin) h h

-- A handler of an opening state starts the account.
abbrev Opens : ℕ → TcpState × Bool → Type 0
Opens n r = IsAccounted n r.0

Opens-listen :
    (n : ℕ) (t : TcpState) (seg : TcpSegment) (src_ip : String) (iss : ℕ)
    → t.state ≡ listen
    → IsFresh n t
    → Opens n (on_segment_listen t seg src_ip iss)
unfolding on_segment_listen emit_rst
Opens-listen n t seg src_ip iss e h =
    let bound = record t {
      remote_ip = some src_ip;
      remote_port = seg.src_port;
      irs = seg.seq;
      rcv_nxt = add32 seg.seq 1;
      iss = iss;
      snd_nxt = iss;
      snd_una = iss;
    } in
    if_both (Opens n) (has_flag seg flag_ack) (rw e h) (
      if_both (Opens n) (has_flag seg flag_syn)
        (ground (
          arith,
          read_peer_mss_receive bound seg,
          emit_receive (read_peer_mss bound seg) (bit_or flag_syn flag_ack) [],
        ))
        (rw e h))

Opens-syn_sent :
    (n : ℕ) (t : TcpState) (seg : TcpSegment)
    → t.state ≡ syn_sent
    → IsFresh n t
    → Opens n (on_segment_syn_sent t seg)
unfolding on_segment_syn_sent
Opens-syn_sent n t seg e h =
    let met = record t { irs = seg.seq; rcv_nxt = add32 seg.seq 1 } in
    let heard = read_peer_mss met seg in
    let acked = record heard { snd_una = seg.ack; snd_wnd = seg.window } in
    let joined = record (push acked (bare_ack acked)) { state = established } in
    let balanced : Balanced n heard = ground (arith, read_peer_mss_receive met seg) in
    let kept : IsAccounted n t = rw e h in
    if_both (Opens n) (has_flag seg flag_ack && not (acks_new t seg)) kept (
      if_both (Opens n) (not (has_flag seg flag_syn)) kept (
        if_both (Opens n) (has_flag seg flag_ack)
          (rw (state-flush_send joined) (Balanced-flush_send n joined balanced)) balanced))

-- A connection past its handshake stays past it.
Accounted-synced :
    (n : ℕ) (t : TcpState) → is_opening t.state ≡ false → Balanced n t → IsAccounted n t
Accounted-synced n t e h = ground arith

Balanced-of_synced :
    (n : ℕ) (t : TcpState)
    → is_opening t.state ≡ false
    → t.state ≢ closed
    → IsAccounted n t
    → Balanced n t
Balanced-of_synced n t e ne h = ground arith

handle_rst-accounted :
    (n : ℕ) (t : TcpState) (seg : TcpSegment) → IsAccounted n t → Opens n (handle_rst t seg)
unfolding handle_rst
handle_rst-accounted n t seg h = ground arith

Balanced-dispatch :
    (n : ℕ) (t : TcpState) (seg : TcpSegment) (src_ip : String) (iss : ℕ)
    → is_opening t.state ≡ false
    → Balanced n t
    → Keeps n (dispatch t seg src_ip iss)
unfolding dispatch
Balanced-dispatch n t seg src_ip iss e h = ground (
  arith,
  Balanced-syn_received n t seg h,
  Balanced-time_wait n t seg h,
  Balanced-established n t seg h,
)

synced-accounted :
    (n : ℕ) (t : TcpState) (seg : TcpSegment) (src_ip : String) (iss : ℕ)
    → is_opening t.state ≡ false
    → Balanced n t
    → Opens n (dispatch t seg src_ip iss)
synced-accounted n t seg src_ip iss e h =
    Accounted-synced n (dispatch t seg src_ip iss).0
      (opening_backwards_by t seg _ (dispatch-Obeys t seg src_ip iss) e)
      (Balanced-dispatch n t seg src_ip iss e h)

dispatch-accounted :
    (n : ℕ) (t : TcpState) (seg : TcpSegment) (src_ip : String) (iss : ℕ)
    → IsAccounted n t
    → Opens n (dispatch t seg src_ip iss)
dispatch-accounted n t seg src_ip iss h = elim (Bool-cases (is_opening t.state)) [
  | inl opening ↦
      unfold dispatch in ground (arith, Opens-listen n t seg src_ip iss, Opens-syn_sent n t seg)
  | inr past ↦ elim (Bool-cases (is_closed t)) [
    | inl ended ↦ unfold dispatch in ground arith
    | inr running ↦ synced-accounted n t seg src_ip iss past (ground arith)
  ]
]

-- Every inbound segment keeps the account: in a connection that has passed its handshake `rcv_nxt`
-- is the peer's initial number plus one for the SYN, plus the bytes that have gone to the reader
-- (those popped before and those in the buffer), plus one if the peer's FIN has been taken, modulo
-- 2 ^ 32; before the handshake nothing has been read.
pub on_segment-IsAccounted :
    (popped : ℕ) (t : TcpState) (seg : TcpSegment) (src_ip : String) (iss : ℕ)
    → IsAccounted popped t
    → IsAccounted popped (on_segment t seg src_ip iss).0
unfolding on_segment
on_segment-IsAccounted n t seg src_ip iss h =
    if_both (Opens n) (is_bound t.state && not (from_peer t seg src_ip)) h (
      if_both (Opens n) (has_flag seg flag_rst) (handle_rst-accounted n t seg h)
        (dispatch-accounted n t seg src_ip iss h))

moved_out :
    (popped : ℕ) (t : TcpState) (out rest : Bytes)
    → length t.read_buf ≡ length out + length rest
    → IsAccounted popped t
    → IsAccounted (popped + length out) (record t { read_buf = rest })
moved_out popped t out rest e h = ground arith

-- Taking bytes out of the read buffer keeps the account of a connection that has one: the bytes
-- that come out are then counted as popped, and with what stays they are the old buffer in order.
pub pop_read-IsAccounted :
    (popped : ℕ) (t : TcpState) (n : Option ℕ)
    → IsAccounted popped t
    → ((pop_read t n).0 ++ (pop_read t n).1.read_buf ≡ t.read_buf)
      × IsAccounted (popped + length (pop_read t n).0) (pop_read t n).1
unfolding pop_read
pop_read-IsAccounted popped t none h =
    (append-nil t.read_buf, moved_out popped t t.read_buf [] (omega arith) h)
pop_read-IsAccounted popped t (some n) h =
    let P = λ (r : Bytes × TcpState).
      (r.0 ++ r.1.read_buf ≡ t.read_buf) × IsAccounted (popped + length r.0) r.1 in
    if_both P (leb (length t.read_buf) n)
      (append-nil t.read_buf, moved_out popped t t.read_buf [] (omega arith) h)
      (
        take-append-drop n t.read_buf,
        moved_out popped t (take n t.read_buf) (drop n t.read_buf)
            (omega (arith, length-take n t.read_buf, length-drop n t.read_buf)) h,
      )
