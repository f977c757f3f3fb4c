-- ===== src/Lib.antt =====
-- The protocol code of aionetiface: a TCP in user space over captured frames, the STUN client,
-- acknowledged UDP, the message queues of pipes, and what is concluded about NATs.
--
-- Pcap is a stack that speaks TCP over captured frames, for connections that the kernel will not
-- open (a simultaneous open on old systems, for one). A frame comes from the capture library, the
-- link layer is stripped, the IP header is parsed, the TCP segment is parsed, and the state machine
-- takes it; the segments that it queues go the other way. The other parts meet in the punching of
-- holes: the STUN client subscribes to a pipe for the reply to its request and learns its own
-- address from it, probes of this kind describe a NAT, and two descriptions give a range of ports.
-- The readings of the clock and what the socket library and the operating system answer are
-- arguments.
--
--   * Prelude, Bytes: names and lemmas that all modules share; byte strings, the exceptions as
--     values, and `struct.pack` and `struct.unpack` in network order.
--   * Pcap/Checksum: `checksum16` of `src/aionetiface/net/pcap/ip/ipv4.py`. Checksum/Sum compares it
--     with the sum of the words, Checksum/Verify has what a receiver relies on.
--   * Pcap/Ipv4, Pcap/Ipv6: `pack_ipv4`, `parse_ipv4`, `validate_checksum` and the rest of
--     `src/aionetiface/net/pcap/ip/ipv4.py` and `ipv6.py`. An address is its bytes: `inet_aton` and
--     `inet_pton` have been called.
--   * Pcap/Segment: `src/aionetiface/net/pcap/tcp/segment.py`, a segment as a record with the fields
--     of `TcpSegment`, `pack_tcp_segment`, `parse_tcp_segment` and the option parser.
--   * Pcap/Eth: `src/aionetiface/net/pcap/ip/eth.py`, Ethernet frames, the loopback prefixes, ARP
--     packets and, in Eth/Cache, the class `ArpCache` as a list of entries.
--   * Pcap/FourTuple: `src/aionetiface/net/pcap/tcp/simul_open.py` and `congestion.py`.
--   * Pcap/Conn: `src/aionetiface/net/pcap/tcp/conn.py`, the class `Connection` as a record and
--     `process_frame`, `flush_outbox`, `retx_loop`'s round, `start_active`, `start_listen`, `send`
--     and `close` as functions. The frames that the backend is given are a list of the record.
--   * Pcap/Shim: `src/aionetiface/net/pcap/tcp/pipe_shim.py`, the class `PipeShim` as a record.
--     Shim/Feeding follows the pump, with what the connection's `recv` gives as a list, Shim/Reading
--     has `recv_n`, whose rounds are one more than the items that wait, Shim/Closing the ways
--     through `close`.
--   * Pcap/State: `src/aionetiface/net/pcap/tcp/state.py`, the class `TcpState` as a record with the
--     same fields and its methods as functions from state to state; State/Inbound has `on_segment`
--     and the handlers. A method that may raise returns a result. What `random_iss` draws is an
--     argument. `abort_reason` keeps the state whose name the code puts into a sentence.
--   * IpRange: the arithmetic of `IPRange` in `src/aionetiface/net/ip_range.py`, with `get_bits` and
--     `range_intersects` of `src/aionetiface/utility/utils.py`. A block is numbers.
--   * Utility: of the same file, operations on byte strings (Buffers), and ranges and distances on
--     a circle (Ranges), and `sorted_search` (Search). Utility/Helpers: small
--     functions on ports and lists. Utility/Consensus: `pattern_factory.py`, the vote on the results
--     of tasks.
--   * Stun/Address: the class `STUNAddrTup` of `src/aionetiface/protocol/stun/stun_defs.py`. An
--     address is its bytes, a code the number of its two bytes, and data that are `None` are `none`.
--     Stun/Message: the class `STUNMsg`, with what is written (Writing), read (Reading) and signed
--     (Integrity). `rand_b(12)` is an argument and HMAC-SHA1 a parameter. Stun/Proto:
--     `stun_proc_attrs` and `stun_proto` of `stun_utils.py`, where the loop runs on fuel.
--   * AckUdp: `src/aionetiface/protocol/ack_udp.py`. An event is a number, so that the table and the
--     caller share one; Worker has the rounds of `ack_send`, with what each wait comes to as an
--     argument.
--   * Pipe/Client: the class `PipeClient` of `src/aionetiface/net/pipe/pipe_client.py`. Canonical
--     addresses, the search for a pattern and hashes are the record `Library`. Client/Queues has the
--     queues as what a pipe without limit would show, Client/Subscribing the table of subscriptions.
--     Pipe/Events: the class `PipeEvents` of `src/aionetiface/net/pipe/pipe_events.py`, a record with
--     the handlers of its transport's events, which compose AckUdp and Pipe/Client. What the code
--     starts is a list of effects. Events/Once is about copies of a message, Events/Silence about
--     pipes that are closed. Pipe/Accepting: the same class's table of futures for the clients of a
--     TCP server, with `connection_lost` of `pipe_tcp_events.py`. Accepting/Table has the table,
--     Accepting/Awaiting single steps, Accepting/InOrder sequences of them, Accepting/Losing what
--     follows when a client is lost.
--   * Nat: `src/aionetiface/nic/nat/nat_defs.py` and `nat_utils.py`. `nats_intersect` returns our
--     description as well, since it may write into it. Nat/Probing is `delta_test` from the results
--     of its probes on. Nat/Testing is `fast_nat_test` of `src/aionetiface/nic/nat/nat_test.py`, where
--     the replies of each phase are a list in the order in which the workers come back.
--   * Route/Pool: `src/aionetiface/nic/route/route_pool.py`, a pool as the numbers of hosts of its
--     routes, and Pool/Iterating its iterator.
--   * Bind: `src/aionetiface/net/bind/bind_rules.py` and `match_bind_rule` of `bind_utils.py`, the
--     table of rules for bind addresses. Bind/Rules evaluates it, and has `binder_sync`
--     for the addresses that have no interface.
--   * Http: `src/aionetiface/protocol/http/http_client_lib.py`. Http has `do_web_req` on the chunks that
--     `recv` gives, Http/Search and Http/Reading what its loops come to, Http/Request `http_req_buf` and
--     `get_hdr`.
--   * SysClock: `marzullo_intersection` of `src/aionetiface/utility/sys_clock.py`, the sweep over the
--     ends of the intervals. SysClock/Counting counts them, SysClock/Sweeping has what holds at each
--     edge, SysClock/Truth what is found.
--   * Text: ASCII texts as byte strings: `split`, `join`, `%d`, and `to_n` of
--     `src/aionetiface/utility/type_conv.py` with what `int` takes.
--   * Topology: `src/aionetiface/net/topology.py`. Topology has the records and
--     `validate_node_addr`, Topology/Hints the server hints, Topology/Parsing `parse_node_addr`,
--     Topology/Making `make_node_addr`, Topology/Ours the comparison with our own addresses. What
--     `ip_norm` and `ipaddress` make of a text is the parameter `read_ip`.
--
-- The long handler `on_segment_established` is the composition of its paragraphs (`take_ack`,
-- `take_payload`, `take_fin`, `advance_close`, `flush_established`) in the order of the code.
--
-- Bounds and fuel. Sequence numbers wrap modulo 2 ^ 32 where the code masks them. The loop `while
-- total >> 16` runs on fuel equal to the total, which each round makes smaller. The option loop runs
-- on fuel equal to the length of the buffer; a round takes a byte at least. The loop of
-- `stun_proto` runs on any number of rounds; a quarter of the length field is enough for the
-- lengths that are named in the results, and for two lengths no number is. The worker of `ack_send`
-- has a round for each try. A number is printed with one round for each digit, on fuel larger than
-- the number.
--
-- Not modelled: the capture library, sockets, threads and the event loop, with the tasks and
-- timers that live on them, and so the opening of pipes and the closing of their sockets; the
-- operating system's tables of routes and neighbours; and the rest of the package (interfaces,
-- single routes, the HTTP server, the other utilities). Texts of errors and `__repr__` methods are
-- left out.
pub mod Prelude
pub mod Bytes
pub mod Pcap
pub mod IpRange
pub mod Utility
pub mod Stun
pub mod Pipe
pub mod AckUdp
pub mod Nat
pub mod Route
pub mod Bind
pub mod Text
pub mod Topology
pub mod Http
pub mod SysClock
