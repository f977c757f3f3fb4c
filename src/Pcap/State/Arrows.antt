-- ===== src/Pcap/State/Arrows.antt =====
-- The arrows of the state diagram that an inbound segment can take; net/pcap/tcp/state.py.
use aionetiface.Prelude.{◌≡◌, refl, arith, Bool, true, false}
use aionetiface.Prelude.{not, ◌&&◌, ◌||◌, ◌==◌, if◌then◌else◌}
use aionetiface.Pcap.Segment.{TcpSegment, flag_syn, flag_fin, flag_ack, flag_rst, has_flag}
use aionetiface.Pcap.State.{State, closed, listen, syn_sent, syn_received, established, fin_wait_1}
use aionetiface.Pcap.State.{fin_wait_2, close_wait, closing, last_ack, time_wait, TcpState, add32}
use aionetiface.Pcap.State.{fin_acked}
use aionetiface.Pcap.State.Inbound.{take_ack}
use aionetiface.Pcap.State.Inbound.{is_bound, from_peer}
use Prim.Native.String.{String}

-- The arrows of RFC 9293's diagram that a segment without RST causes, each with what the segment
-- must have for it: SYN, ACK, FIN, and whether our FIN is acknowledged once its ACK is taken; `told`
-- says that the peer's FIN came before. Some arrows stand for two: a FIN on the segment that
-- completes the handshake, or on the one that acknowledges our own FIN.
unfoldable pub arrow : Bool → Bool → Bool → Bool → Bool → State → State → Bool
arrow syn ack fin told acked listen syn_received = syn && not ack
arrow syn ack fin told acked syn_sent syn_received = syn && not ack
arrow syn ack fin told acked syn_sent established = syn && ack
arrow syn ack fin told acked syn_received established = ack
arrow syn ack fin told acked syn_received close_wait = ack && fin
arrow syn ack fin told acked established close_wait = fin
arrow syn ack fin told acked fin_wait_1 fin_wait_2 = acked
arrow syn ack fin told acked fin_wait_1 closing = fin && not acked
arrow syn ack fin told acked fin_wait_1 time_wait = acked && (fin || told)
arrow syn ack fin told acked fin_wait_2 time_wait = fin
arrow syn ack fin told acked closing time_wait = acked
arrow syn ack fin told acked last_ack closed = acked
arrow syn ack fin told acked closed closed = true
arrow syn ack fin told acked listen listen = true
arrow syn ack fin told acked syn_sent syn_sent = true
arrow syn ack fin told acked syn_received syn_received = true
arrow syn ack fin told acked established established = true
arrow syn ack fin told acked fin_wait_1 fin_wait_1 = true
arrow syn ack fin told acked fin_wait_2 fin_wait_2 = true
arrow syn ack fin told acked close_wait close_wait = true
arrow syn ack fin told acked closing closing = true
arrow syn ack fin told acked last_ack last_ack = true
arrow syn ack fin told acked time_wait time_wait = true
arrow syn ack fin told acked _ _ = false

-- Nothing moves without a cause.
abbrev pub unmoved : State → State → Bool
unmoved = arrow false false false false false

-- A reset closes, in SYN_SENT when it acknowledges our SYN. In LISTEN it closes too, where the RFC
-- ignores it.
unfoldable pub reset_arrow : Bool → State → State → Bool
reset_arrow acks_syn syn_sent closed = acks_syn
reset_arrow acks_syn syn_sent syn_sent = not acks_syn
reset_arrow acks_syn _ closed = true
reset_arrow acks_syn _ _ = false

-- The same for a connection and a segment.
abbrev pub arrow_by : TcpState → TcpSegment → State → Bool
arrow_by t seg u =
    arrow (has_flag seg flag_syn) (has_flag seg flag_ack) (has_flag seg flag_fin) t.fin_received
      (fin_acked (take_ack t seg)) t.state u

-- Where a segment may lead: a segment that is not from the peer nowhere.
abbrev pub allowed : TcpState → TcpSegment → String → State → Bool
allowed t seg src_ip u =
    if is_bound t.state && not (from_peer t seg src_ip)
    then unmoved t.state u
    else if has_flag seg flag_rst
    then reset_arrow (has_flag seg flag_ack && seg.ack == add32 t.iss 1) t.state u
    else arrow_by t seg u

pub arrow_self :
    (syn ack fin told acked : Bool) (s : State) → arrow syn ack fin told acked s s ≡ true
unfolding arrow
arrow_self syn ack fin told acked closed = refl
arrow_self syn ack fin told acked _ = refl

-- A handler's result against the diagram.
abbrev pub Obeys : TcpState → TcpSegment → TcpState × Bool → Type 0
Obeys t seg r = arrow_by t seg r.0.state ≡ true

pub arrow_by_self : (t : TcpState) (seg : TcpSegment) → arrow_by t seg t.state ≡ true
arrow_by_self t seg =
    arrow_self (has_flag seg flag_syn) (has_flag seg flag_ack) (has_flag seg flag_fin)
      t.fin_received (fin_acked (take_ack t seg)) t.state

-- The states that a handshake has not passed.
abbrev pub is_opening : State → Bool
is_opening listen = true
is_opening syn_sent = true
is_opening _ = false

pub opening_backwards :
    (syn ack fin told acked : Bool) (s u : State)
    → arrow syn ack fin told acked s u ≡ true
    → is_opening s ≡ false
    → is_opening u ≡ false
unfolding arrow
opening_backwards syn ack fin told acked closed u a h = ground arith
opening_backwards syn ack fin told acked _ u a h = ground arith

pub opening_backwards_by :
    (t : TcpState) (seg : TcpSegment) (u : State)
    → arrow_by t seg u ≡ true
    → is_opening t.state ≡ false
    → is_opening u ≡ false
opening_backwards_by t seg u =
    opening_backwards (has_flag seg flag_syn) (has_flag seg flag_ack) (has_flag seg flag_fin)
      t.fin_received (fin_acked (take_ack t seg)) t.state u
