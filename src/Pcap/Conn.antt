-- ===== src/Pcap/Conn.antt =====
-- net/pcap/tcp/conn.py: a connection over captured frames, as a function on its state. The tasks and
-- events of the event loop are left out; `sent` collects the frames that the backend is given. The
-- socket library's `inet_ntoa` and `inet_aton`, the look-up of the next hop in the tables of the
-- operating system, the clock and the draws of `random_iss` are parameters.
pub mod Delivery
mod Runs
use aionetiface.Prelude.{ℕ, Bool, true, false, not, ◌&&◌, Option, none, some, List, [], ◌∷◌, ◌++◌}
use aionetiface.Prelude.{bit_or, ◌==◌, if◌then◌else◌}
use aionetiface.Bytes.{Bytes, Result, ok, err, fail_if, connection_error, ◌>>=◌, ◌>>◌}
use aionetiface.Pcap.Ipv4.{proto_tcp, Ipv4Header, parse_ipv4, pack_ipv4, defaults}
use aionetiface.Pcap.Segment.{TcpSegment, tcp_segment, flag_ack, flag_psh}
use aionetiface.Pcap.Segment.{parse_tcp_segment, pack_tcp_segment}
use aionetiface.Pcap.State.{State, closed, listen, TcpState, init, push, is_empty}
use aionetiface.Pcap.State.{open_active, open_simul, open_listen, write, close}
use aionetiface.Pcap.State.Inbound.{on_segment}
use aionetiface.Pcap.Eth.{eth_type_arp, eth_type_ipv4, mac_broadcast, mac_zero, dlt_en10mb}
use aionetiface.Pcap.Eth.{parse_eth_frame, strip_link_layer, wrap_link_layer}
use aionetiface.Pcap.Eth.Cache.{ArpCache, put, get, is_unicast, feed_arp}
use aionetiface.Pcap.FourTuple.{FourTuple, match_inbound}
use Prim.Native.String.{String}
use text.Mathlib.Text.{◌==◌ as str_eq}

-- A connection that was started: `state` is there, so the tests of it for `None` are left out.
-- `next_hop_mac_cache`: none if it was never asked for, and then what the look-up gave.
pub record Connection : Type 0 where
  pub local_ip : String
  pub local_mac : Option Bytes
  pub datalink : ℕ
  pub state : TcpState
  pub ft : Option FourTuple
  pub peer_mac : Option Bytes
  pub arp_cache : ArpCache
  pub next_hop : Option (Option Bytes)
  pub sent : List Bytes

-- The source address of an Ethernet frame (none on other links), the type and the payload.
pub read_link : ℕ → Bytes → Result (Option Bytes × ℕ × Bytes)
read_link datalink frame =
    if datalink == dlt_en10mb
    then (parse_eth_frame frame >>= λ f. ok (some f.src_mac, f.ethertype, f.payload))
    else (strip_link_layer datalink frame >>= λ (ethertype, payload). ok (none, ethertype, payload))

-- A frame of the peer teaches its hardware address.
pub learn_source : Connection → ℕ → String → Option Bytes → Connection
learn_source c now src_ip none = c
learn_source c now src_ip (some mac) =
    if is_unicast mac then record c { arp_cache = put c.arp_cache now src_ip mac } else c

abbrev pub is_waiting : State → Bool
is_waiting closed = true
is_waiting listen = true
is_waiting _ = false

-- The three tests that let a segment through to the state machine.
pub is_routed : Connection → TcpSegment → String → String → Bool
is_routed c seg src_ip dst_ip = elim c.ft [
  | none ↦ is_waiting c.state.state && seg.dst_port == c.state.local_port
  | some ft ↦ match_inbound seg src_ip dst_ip ft
]

-- The peer that a listener has accepted becomes the connection's.
unfoldable pub deliver : Connection → TcpSegment → String → ℕ → Connection
deliver c seg src_ip iss =
    let (next, accepted) = on_segment c.state seg src_ip iss in
    let peer : FourTuple = record {
      local_ip = c.local_ip;
      local_port = next.local_port;
      remote_ip = src_ip;
      remote_port = seg.src_port;
    } in
    let bound : Option FourTuple = elim c.ft [
      | none ↦ if accepted then some peer else none
      | some ft ↦ some ft
    ] in
    record c { state = next; ft = bound }

module _ (inet_ntoa : Bytes → String) where
  -- The end of `process_frame`, from the parsed segment on.
  pub take_segment : Connection → ℕ → ℕ → Option Bytes → Ipv4Header → Result TcpSegment → Connection
  take_segment c now iss source ip (err e) = c
  take_segment c now iss source ip (ok seg) =
      let src_ip = inet_ntoa ip.src in
      let dst_ip = inet_ntoa ip.dst in
      let learnt = learn_source c now src_ip source in
      if not (str_eq dst_ip c.local_ip)
      then c
      else if is_routed learnt seg src_ip dst_ip
      then deliver learnt seg src_ip iss
      else learnt

  pub take_packet : Connection → ℕ → ℕ → Option Bytes → Result (Ipv4Header × Bytes) → Connection
  take_packet c now iss source (err e) = c
  take_packet c now iss source (ok (ip, l4)) =
      if ip.proto == proto_tcp then take_segment c now iss source ip (parse_tcp_segment l4) else c

  pub take_frame : Connection → ℕ → ℕ → Result (Option Bytes × ℕ × Bytes) → Connection
  take_frame c now iss (err e) = c
  take_frame c now iss (ok (source, ethertype, payload)) =
      if ethertype == eth_type_arp
      then record c { arp_cache = (feed_arp inet_ntoa c.arp_cache now payload).0 }
      else if ethertype == eth_type_ipv4
      then take_packet c now iss source (parse_ipv4 payload)
      else c

  -- Every error of a parser drops the frame.
  pub process_frame : Connection → ℕ → ℕ → Bytes → Connection
  process_frame c now iss frame = take_frame c now iss (read_link c.datalink frame)

-- `self.local_mac or eth.MAC_ZERO`
abbrev pub source_mac : Option Bytes → Bytes
source_mac none = mac_zero
source_mac (some mac) = if is_empty mac then mac_zero else mac

module _ (inet_aton : String → Result Bytes) where
  -- The TCP and IP headers and the link layer around a segment.
  pub encapsulate : ℕ → Bytes → Bytes → String → String → TcpSegment → Result Bytes
  encapsulate datalink dst_mac src_mac local_ip dst_ip seg = do
    src ← inet_aton local_ip
    dst ← inet_aton dst_ip
    (tcp_bytes, packed) ← pack_tcp_segment seg src dst false
    ip_bytes ← pack_ipv4 src dst proto_tcp tcp_bytes defaults
    wrap_link_layer datalink eth_type_ipv4 dst_mac src_mac ip_bytes

module _ (inet_aton : String → Result Bytes)
    (resolve_next_hop_mac : String → ArpCache → Option Bytes) where
  -- The last two ways to find an address: the look-up, made once, and broadcast.
  unfoldable resolve_by_route : Connection → String → Bytes × Connection
  resolve_by_route c dst_ip =
      let answer : Option Bytes = elim c.next_hop [
        | none ↦ resolve_next_hop_mac dst_ip c.arp_cache
        | some known ↦ known
      ] in
      let mac : Bytes = elim answer [
        | none ↦ mac_broadcast
        | some found ↦ if is_empty found then mac_broadcast else found
      ] in
      (mac, record c { next_hop = some answer })

  unfoldable resolve_dst_mac : Connection → ℕ → String → Bytes × Connection
  resolve_dst_mac c now dst_ip =
      let (learned, cache) = get c.arp_cache now dst_ip in
      let asked = record c { arp_cache = cache } in
      elim c.peer_mac [
        | some mac ↦ (mac, c)
        | none ↦ elim learned [
          | some mac ↦ if is_unicast mac then (mac, asked) else resolve_by_route asked dst_ip
          | none ↦ resolve_by_route asked dst_ip
        ]
      ]

  -- One round of the loop of `flush_outbox`; the addresses matter on Ethernet only.
  unfoldable send_segment : Connection → ℕ → TcpSegment → Result Connection
  send_segment c now seg = elim c.state.remote_ip [
    | none ↦ ok c
    | some dst_ip ↦
        let (dst_mac, asked) = resolve_dst_mac c now dst_ip in
        let via = if c.datalink == dlt_en10mb then asked else c in
        (encapsulate inet_aton c.datalink dst_mac (source_mac c.local_mac) c.local_ip dst_ip seg
          >>= λ frame. ok (record via { sent = via.sent ++ (frame ∷ []) }))
  ]

  pub send_segments : Connection → ℕ → List TcpSegment → Result Connection
  send_segments c now [] = ok c
  send_segments c now (seg ∷ rest) = send_segment c now seg >>= λ next. send_segments next now rest

  -- The loop pops until the queue is empty; an error of packing ends it.
  unfoldable pub flush_outbox : Connection → ℕ → Result Connection
  flush_outbox c now =
      send_segments (record c { state = record c.state { outbox = [] } }) now c.state.outbox

  -- One round of `retx_loop`: the block in flight again, with its own sequence number.
  unfoldable retransmit : Connection → ℕ → Result Connection
  retransmit c now =
      let t = c.state in
      let retx =
        tcp_segment t.local_port t.remote_port t.unacked_seq t.rcv_nxt (bit_or flag_ack flag_psh)
          t.rcv_wnd [] t.unacked_data 0 in
      if t.have_unacked && not (is_empty t.unacked_data)
      then flush_outbox (record c { state = push t retx }) now
      else ok c

  -- `ft` and the state of `start_active`, and its first flush.
  unfoldable pub start_active :
      Connection → ℕ → ℕ → String → ℕ → ℕ → Option Bytes → Bool → ℕ → Result Connection
  start_active c now iss remote_ip remote_port local_port remote_mac simul mss = do
    let fresh = init c.local_ip local_port mss
    let peer : FourTuple = record {
      local_ip = c.local_ip;
      local_port = local_port;
      remote_ip = remote_ip;
      remote_port = remote_port;
    }
    let mac : Option Bytes = elim remote_mac [ none ↦ c.peer_mac | some m ↦ some m ]
    opened ←
        (if simul
          then open_simul fresh remote_ip remote_port iss
          else open_active fresh remote_ip remote_port iss)
    flush_outbox (record c { state = opened; ft = some peer; peer_mac = mac }) now

  unfoldable pub send : Connection → ℕ → Bytes → Result Connection
  send c now block = fail_if c.state.aborted connection_error >> write c.state block >>= λ next.
      flush_outbox (record c { state = next }) now

  -- `close` up to the wait for the other side.
  unfoldable close_connection : Connection → ℕ → Result Connection
  close_connection c now = flush_outbox (record c { state = close c.state }) now

-- The peer of `start_listen` is none or both its address and its port.
unfoldable pub start_listen : Connection → ℕ → Option (String × ℕ) → ℕ → Result Connection
start_listen c local_port peer mss = do
  opened ← open_listen (init c.local_ip local_port mss)
  let bound : Option FourTuple = elim peer [
    | none ↦ none
    | some (ip, port) ↦ some record {
      local_ip = c.local_ip;
      local_port = local_port;
      remote_ip = ip;
      remote_port = port;
    }
  ]
  ok (record c { state = opened; ft = bound })
