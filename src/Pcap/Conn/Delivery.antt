-- ===== src/Pcap/Conn/Delivery.antt =====
-- A segment that one connection sends, and what the connection that captures its frame does.
use aionetiface.Prelude.{
  ℕ, ◌+◌, ◌^◌, ◌<◌, ◌≡◌, refl, ap, ◌∙◌, arith, true, false, Option, none, some, ◌++◌, length,
}
use aionetiface.Prelude.{if◌then◌else◌}
use aionetiface.Bytes.{Bytes, Result, ok}
use aionetiface.Pcap.Ipv4.{Ipv4Header, defaults}
use aionetiface.Pcap.Ipv4.Laws.{IsPackable, packet, found, parse-pack_ipv4}
use aionetiface.Pcap.Segment.{TcpSegment, pad_options}
use aionetiface.Pcap.Segment.Wire.{IsSegment, IsEndpoint, stamped, pack_tcp_segment-short}
use aionetiface.Pcap.Eth.{eth_type_ipv4, wrap_link_layer}
use aionetiface.Pcap.Eth.Laws.{
  Link, ethernet, null_link, loop_link, dlt_of, fill_of, padding, frame_of, parse-frame_of,
  build-frame_of, strip-wrap_link_layer,
}
use aionetiface.Pcap.FourTuple.{match_inbound}
use aionetiface.Pcap.Conn.{take_frame, take_packet}
use aionetiface.Pcap.Eth.Cache.{put, is_unicast}
use aionetiface.Pcap.Conn.{
  Connection, read_link, learn_source, is_routed, deliver, process_frame, encapsulate,
}
use aionetiface.Pcap.Conn.{take_frame, take_packet, take_segment}
use Prim.Native.String.{String}
use text.Mathlib.Text.{◌==◌ as str_eq}
use text.Mathlib.TextPositions.{eq_refl}

-- The source address that a link shows.
abbrev pub source_of : Link → Bytes → Option Bytes
source_of ethernet mac = some mac
source_of _ mac = none

read_link-wrap :
    (link : Link) (dst src payload : Bytes)
    → length dst ≡ 6
    → length src ≡ 6
    → (frame : Bytes) × (wrap_link_layer (dlt_of link) eth_type_ipv4 dst src payload ≡ ok frame)
      × (read_link (dlt_of link) frame
          ≡ ok (source_of link src, eth_type_ipv4, payload ++ fill_of link payload))
unfolding read_link wrap_link_layer
read_link-wrap ethernet dst src payload d s =
    let rest = payload ++ padding payload in
    (
      frame_of dst src eth_type_ipv4 rest,
      build-frame_of dst src d s eth_type_ipv4 payload (omega arith),
      rw (parse-frame_of dst src d s eth_type_ipv4 rest) refl,
    )
read_link-wrap null_link dst src payload d s =
    let (frame, wrapped, stripped) = strip-wrap_link_layer null_link false dst src payload d s in
    (frame, wrapped, rw stripped refl)
read_link-wrap loop_link dst src payload d s =
    let (frame, wrapped, stripped) = strip-wrap_link_layer loop_link false dst src payload d s in
    (frame, wrapped, rw stripped refl)

routed-learn_source :
    (c : Connection) (now : ℕ) (ip a b : String) (source : Option Bytes) (seg : TcpSegment)
    → is_routed c seg a b ≡ true
    → is_routed (learn_source c now ip source) seg a b ≡ true
unfolding learn_source is_routed
routed-learn_source c now ip a b none seg h = h
routed-learn_source c now ip a b (some mac) seg h =
    let learnt = record c { arp_cache = put c.arp_cache now ip mac } in
    elim (is_unicast mac) as (λ k. is_routed (if k then learnt else c) seg a b ≡ true) [
      | true ↦ h
      | false ↦ h
    ]

module _ (inet_ntoa : Bytes → String) (inet_aton : String → Result Bytes) (seg : TcpSegment)
    (src dst : Bytes) (h : IsSegment seg) (s : IsEndpoint false src) (d : IsEndpoint false dst)
    (room : 80 + length seg.payload < 2 ^ 16) where
  -- Packing changes no port.
  routed-stamped :
      (c : Connection) (csum : ℕ) (a b : String)
      → is_routed c seg a b ≡ true
      → is_routed c (record (stamped seg csum) { options = pad_options seg.options }) a b ≡ true
  unfolding is_routed match_inbound
  routed-stamped c csum a b routed = routed

  -- What is left of `process_frame` once the segment is parsed.
  segment_accepted :
      (c : Connection) (now iss csum : ℕ) (source : Option Bytes) (ip : Ipv4Header)
      → ip.src ≡ src
      → ip.dst ≡ dst
      → c.local_ip ≡ inet_ntoa dst
      → is_routed c seg (inet_ntoa src) (inet_ntoa dst) ≡ true
      → take_segment inet_ntoa c now iss source ip
          (ok (record (stamped seg csum) { options = pad_options seg.options }))
        ≡ deliver
            (learn_source c now (inet_ntoa src) source)
            (record (stamped seg csum) { options = pad_options seg.options })
            (inet_ntoa src)
            iss
  unfolding take_segment
  segment_accepted c now iss csum source ip from to ours routed =
      let mine : str_eq (inet_ntoa dst) c.local_ip ≡ true =
        ap (λ (t : String). str_eq (inet_ntoa dst) t) ours ∙ eq_refl (inet_ntoa dst) in
      let known = learn_source c now (inet_ntoa src) source in
      let through = routed-stamped known csum (inet_ntoa src) (inet_ntoa dst) (
        routed-learn_source c now (inet_ntoa src) (inet_ntoa src) (inet_ntoa dst) source seg
          routed) in
      rw (from, to) (rw mine (rw through refl))

  -- A segment that one connection wraps into a frame reaches the state machine of the connection
  -- that captures the frame, on every kind of link: `process_frame` strips the link layer, parses
  -- the packet and the segment, learns the source address of an Ethernet frame, and hands
  -- `on_segment` the segment with its options padded and its checksum filled in. The segment fits
  -- its fields and the packet, the texts of the addresses and their bytes agree at both ends, and
  -- the receiver's four-tuple lets the segment through.
  pub process-encapsulate :
      (link : Link) (local_ip dst_ip : String) (dst_mac src_mac : Bytes) (c : Connection)
      (now iss : ℕ)
      → inet_aton local_ip ≡ ok src
      → inet_aton dst_ip ≡ ok dst
      → length dst_mac ≡ 6
      → length src_mac ≡ 6
      → c.datalink ≡ dlt_of link
      → c.local_ip ≡ inet_ntoa dst
      → is_routed c seg (inet_ntoa src) (inet_ntoa dst) ≡ true
      → (frame : Bytes) × (csum : ℕ) × (encapsulate inet_aton
            (dlt_of link)
            dst_mac
            src_mac
            local_ip
            dst_ip
            seg
          ≡ ok frame)
        × (process_frame inet_ntoa c now iss frame
            ≡ deliver
                (learn_source c now (inet_ntoa src) (source_of link src_mac))
                (record (stamped seg csum) { options = pad_options seg.options })
                (inet_ntoa src)
                iss)
  unfolding encapsulate process_frame take_frame take_packet
  process-encapsulate link local_ip dst_ip dst_mac src_mac c now iss known_src known_dst dm sm
        on_link ours routed =
      let (tcp, csum, packed, short, parsed) = pack_tcp_segment-short seg false src dst h s d in
      let fits : IsPackable src dst 6 tcp defaults = record {
        src_bytes = s.0;
        dst_bytes = d.0;
        src_length = s.1;
        dst_length = d.1;
        tos_fits = omega arith;
        ttl_fits = omega arith;
        proto_fits = omega arith;
        length_fits = omega arith;
      } in
      let whole = packet fits in
      let (frame, wrapped, read) = read_link-wrap link dst_mac src_mac whole dm sm in
      let (built, _, unpacked) = parse-pack_ipv4 fits (fill_of link whole) in
      (
        frame,
        csum,
        rw (known_src, known_dst) (rw packed (rw built wrapped)),
        ap (λ (dl : ℕ). take_frame inet_ntoa c now iss (read_link dl frame)) on_link
            ∙ ap (take_frame inet_ntoa c now iss) read
            ∙ ap (take_packet inet_ntoa c now iss (source_of link src_mac)) unpacked
            ∙ ap (take_segment inet_ntoa c now iss (source_of link src_mac) (found fits)) parsed
            ∙ segment_accepted c now iss csum (source_of link src_mac) (found fits) refl refl ours
                routed,
      )
