-- ===== src/Pcap/State.antt =====
-- net/pcap/tcp/state.py: the TCP state machine, its data and its helpers. The handlers of inbound
-- segments are in Pcap/State/Inbound. A sequence number is a number below 2 ^ 32. What `random_iss`
-- draws is an argument of the operations that call it. Sizes and ports are not negative.
pub mod Accepts
pub mod Window
pub mod Inbound
pub mod Stream
pub mod Accounting
pub mod Arrows
pub mod Stages
pub mod Diagram
pub mod Handshake
pub mod SimulOpen
pub mod Transfer
pub mod Closing
mod Runs
use aionetiface.Prelude.{
  ℕ, ◌+◌, ◌-◌, ◌%◌, ◌^◌, max, bit_and, bit_or, Bool, true, false, not, ◌||◌, ◌&&◌,
}
use aionetiface.Prelude.{Option, none, some, List, [], ◌∷◌, ◌++◌, length, take, drop}
use aionetiface.Prelude.{ltb, leb, ◌==◌, if◌then◌else◌}
use aionetiface.Bytes.{Bytes, Result, ok, err, value_error, u16_at}
use aionetiface.Pcap.Segment.{TcpSegment, tcp_segment, has_flag, segment_length, build_mss_option}
use aionetiface.Pcap.Segment.{flag_syn, flag_fin, flag_rst, flag_psh, flag_ack, opt_mss}
use aionetiface.Pcap.Segment.{parse_options, get_option}
use Prim.Native.String.{String}

pub data State : Type 0 where
  closed listen syn_sent syn_received established : State
  fin_wait_1 fin_wait_2 close_wait closing last_ack time_wait : State

abbrev pub is_empty {ℓ} : {A : Type ℓ} → List A → Bool
is_empty [] = true
is_empty (x ∷ xs) = false

-- `(a - b) & 0xffffffff`
abbrev pub sub32 : ℕ → ℕ → ℕ
sub32 a b = (a + (2 ^ 32 - b % 2 ^ 32)) % 2 ^ 32

abbrev pub add32 : ℕ → ℕ → ℕ
add32 a b = (a + b) % 2 ^ 32

pub seq_in_window : ℕ → ℕ → ℕ → Bool
seq_in_window seq win_start win_end = ltb (sub32 seq win_start) (sub32 win_end win_start)

-- `abort_reason` keeps the state in which the RST came; the code puts its name into a sentence.
pub record TcpState : Type 0 where
  pub local_ip : String
  pub local_port : ℕ
  pub remote_ip : Option String
  pub remote_port : ℕ
  pub state : State
  pub snd_nxt : ℕ
  pub snd_una : ℕ
  pub iss : ℕ
  pub snd_wnd : ℕ
  pub rcv_nxt : ℕ
  pub irs : ℕ
  pub rcv_wnd : ℕ
  pub outbox : List TcpSegment
  pub read_buf : Bytes
  pub send_buf : Bytes
  pub unacked_data : Bytes
  pub unacked_seq : ℕ
  pub have_unacked : Bool
  pub local_mss : ℕ
  pub peer_mss : ℕ
  pub fin_received : Bool
  pub fin_sent : Bool
  pub aborted : Bool
  pub abort_reason : Option State

-- `__init__`
abbrev pub init : String → ℕ → ℕ → TcpState
init local_ip local_port mss = record {
  local_ip = local_ip;
  local_port = local_port;
  remote_ip = none;
  remote_port = 0;
  state = closed;
  snd_nxt = 0;
  snd_una = 0;
  iss = 0;
  snd_wnd = 65535;
  rcv_nxt = 0;
  irs = 0;
  rcv_wnd = 65535;
  outbox = [];
  read_buf = [];
  send_buf = [];
  unacked_data = [];
  unacked_seq = 0;
  have_unacked = false;
  local_mss = mss;
  peer_mss = mss;
  fin_received = false;
  fin_sent = false;
  aborted = false;
  abort_reason = none;
}

-- `self.outbox.append(seg)`
abbrev pub push : TcpState → TcpSegment → TcpState
push t seg = record t { outbox = t.outbox ++ (seg ∷ []) }

-- The segment that `emit` forms; no call gives it an `ack` of its own.
abbrev pub emitted : TcpState → ℕ → Bytes → TcpSegment
emitted t flags payload =
    let seg =
      tcp_segment t.local_port t.remote_port t.snd_nxt t.rcv_nxt flags t.rcv_wnd [] payload 0 in
    if bit_and flags flag_syn == 0
    then seg
    else record seg { options = build_mss_option t.local_mss }

-- `if payload: ...`, which remembers the block for a retransmission.
abbrev pub track : TcpState → Bytes → TcpState
track t payload = if is_empty payload then t else record t {
  unacked_data = payload;
  unacked_seq = sub32 t.snd_nxt (length payload);
  have_unacked = true;
}

abbrev pub mark_fin : TcpState → ℕ → TcpState
mark_fin t flags = if bit_and flags flag_fin == 0 then t else record t { fin_sent = true }

pub emit : TcpState → ℕ → Bytes → TcpState
emit t flags payload =
    let seg = emitted t flags payload in
    let sent = push t seg in
    let advanced = record sent { snd_nxt = add32 t.snd_nxt (segment_length seg) } in
    mark_fin (track advanced payload) flags

-- `ack` is none or the number to acknowledge, and so is `seq`.
pub emit_rst : TcpState → Option ℕ → Option ℕ → TcpState
emit_rst t seq ack =
    let flags : ℕ = elim ack [ none ↦ flag_rst | some a ↦ bit_or flag_rst flag_ack ] in
    let seg_seq : ℕ = elim seq [ none ↦ t.snd_nxt | some s ↦ s ] in
    let seg_ack : ℕ = elim ack [ none ↦ 0 | some a ↦ a ] in
    push t (tcp_segment t.local_port t.remote_port seg_seq seg_ack flags 0 [] [] 0)

-- A segment without payload that acknowledges `rcv_nxt`.
abbrev pub bare_ack : TcpState → TcpSegment
bare_ack t = tcp_segment t.local_port t.remote_port t.snd_nxt t.rcv_nxt flag_ack t.rcv_wnd [] [] 0

pub emit_pure_ack : TcpState → TcpState
emit_pure_ack t = push t (bare_ack t)

-- `iss` is what `random_iss` draws.
pub open_active : TcpState → String → ℕ → ℕ → Result TcpState
open_active t remote_ip remote_port iss = elim t.state [
  | closed ↦
      let bound = record t {
        remote_ip = some remote_ip;
        remote_port = remote_port;
        iss = iss;
        snd_nxt = iss;
        snd_una = iss;
      } in
      ok (record (emit bound flag_syn []) { state = syn_sent })
  | _ ↦ err value_error
]

pub open_listen : TcpState → Result TcpState
open_listen t = elim t.state [ closed ↦ ok (record t { state = listen }) | _ ↦ err value_error ]

pub open_simul : TcpState → String → ℕ → ℕ → Result TcpState
open_simul = open_active

pub flush_send : TcpState → TcpState
flush_send t =
    if is_empty t.send_buf
    then t
    else if t.have_unacked
    then t
    else emit (record t { send_buf = drop t.peer_mss t.send_buf }) (bit_or flag_ack flag_psh)
        (take t.peer_mss t.send_buf)

pub write : TcpState → Bytes → Result TcpState
write t block =
    let buffered = record t { send_buf = t.send_buf ++ block } in
    elim t.state [
      | closed ↦ ok buffered
      | listen ↦ ok buffered
      | syn_sent ↦ ok buffered
      | syn_received ↦ ok buffered
      | established ↦ ok (flush_send buffered)
      | _ ↦ err value_error
    ]

pub close : TcpState → TcpState
close t =
    let fin = emit t (bit_or flag_fin flag_ack) [] in
    elim t.state [
      | closed ↦ record t { state = closed }
      | listen ↦ record t { state = closed }
      | syn_sent ↦ record t { state = closed }
      | syn_received ↦ record fin { state = fin_wait_1 }
      | established ↦ record fin { state = fin_wait_1 }
      | close_wait ↦ record fin { state = last_ack }
      | _ ↦ t
    ]

unfoldable pub fin_acked : TcpState → Bool
fin_acked t = t.fin_sent && t.snd_una == t.snd_nxt

-- A `None` or empty option leaves the MSS.
abbrev pub set_peer_mss : TcpState → Option Bytes → TcpState
set_peer_mss t none = t
set_peer_mss t (some raw) =
    if length raw == 2 then record t { peer_mss = max 536 (u16_at raw 0) } else t

pub read_peer_mss : TcpState → TcpSegment → TcpState
read_peer_mss t seg =
    if has_flag seg flag_syn
    then set_peer_mss t (get_option (parse_options seg.options) opt_mss)
    else t

-- Up to `n` bytes of the read buffer, or all of it.
pub pop_read : TcpState → Option ℕ → Bytes × TcpState
pop_read t none = (t.read_buf, record t { read_buf = [] })
pop_read t (some n) =
    if leb (length t.read_buf) n
    then (t.read_buf, record t { read_buf = [] })
    else (take n t.read_buf, record t { read_buf = drop n t.read_buf })

abbrev pub is_established : TcpState → Bool
is_established t = elim t.state [ established ↦ true | _ ↦ false ]

abbrev pub is_closed : TcpState → Bool
is_closed t = elim t.state [ closed ↦ true | _ ↦ false ]
