-- ===== src/Pcap/Eth.antt =====
-- net/pcap/ip/eth.py: Ethernet frames, the link-layer prefixes of loopback captures, ARP packets and
-- the ARP cache. A hardware address is its bytes (`parse_mac` has read it), an IPv4 address its four
-- bytes. The clock is a parameter of the calls that read it, in ticks.
pub mod Laws
pub mod ArpLaws
pub mod Cache
pub mod CacheLaws
mod Runs
use aionetiface.Prelude.{ℕ, ◌+◌, ◌-◌, ◌*◌, ◌/◌, ◌%◌, ◌^◌, Bool, true, false, not, ◌||◌, ◌&&◌}
use aionetiface.Prelude.{Option, none, some, List, [], ◌∷◌, ◌++◌, length, take, drop, replicate}
use aionetiface.Prelude.{ltb, ◌==◌, if◌then◌else◌}
use aionetiface.Bytes.{Bytes, Result, ok, err, value_error, fail_if, Field, u8, u16, u32, chars}
use aionetiface.Bytes.{pack, byte_at, u16_at, u32_at, slice, ◌>>=◌, ◌>>◌}

abbrev pub eth_hdr_len : ℕ
eth_hdr_len = 14

abbrev pub eth_type_ipv4 : ℕ
eth_type_ipv4 = 0x0800

abbrev pub eth_type_arp : ℕ
eth_type_arp = 0x0806

abbrev pub eth_type_ipv6 : ℕ
eth_type_ipv6 = 0x86dd

abbrev pub arp_op_request : ℕ
arp_op_request = 1

abbrev pub arp_op_reply : ℕ
arp_op_reply = 2

abbrev pub mac_broadcast : Bytes
mac_broadcast = replicate 6 255

abbrev pub mac_zero : Bytes
mac_zero = replicate 6 0

-- The numbers of the capture library for the kinds of links.
abbrev pub dlt_null : ℕ
dlt_null = 0

abbrev pub dlt_en10mb : ℕ
dlt_en10mb = 1

abbrev pub dlt_loop : ℕ
dlt_loop = 108

-- `==` on byte strings.
pub same_bytes : Bytes → Bytes → Bool
same_bytes [] [] = true
same_bytes [] (y ∷ ys) = false
same_bytes (x ∷ xs) [] = false
same_bytes (x ∷ xs) (y ∷ ys) = x == y && same_bytes xs ys

pub build_eth_frame : Bytes → Bytes → ℕ → Bytes → Result Bytes
build_eth_frame dst_mac src_mac ethertype payload = do
  fail_if (not (length dst_mac == 6) || not (length src_mac == 6)) value_error
  head ← pack (chars 6 dst_mac ∷ chars 6 src_mac ∷ u16 ethertype ∷ [])
  let frame = head ++ payload
  ok (if ltb (length frame) 60 then frame ++ replicate (60 - length frame) 0 else frame)

pub record EthFrame : Type 0 where
  pub dst_mac : Bytes
  pub src_mac : Bytes
  pub ethertype : ℕ
  pub payload : Bytes

pub parse_eth_frame : Bytes → Result EthFrame
parse_eth_frame frame_bytes = do
  fail_if (ltb (length frame_bytes) eth_hdr_len) value_error
  ok record {
    dst_mac = slice 0 6 frame_bytes;
    src_mac = slice 6 12 frame_bytes;
    ethertype = u16_at frame_bytes 12;
    payload = drop eth_hdr_len frame_bytes;
  }

unfoldable is_link_layer_ethernet : ℕ → Bool
is_link_layer_ethernet dlt = dlt == dlt_en10mb

-- `struct.unpack("<I", head)`: low byte first.
abbrev pub u32_le : Bytes → ℕ
u32_le bs = byte_at bs 0 + byte_at bs 1 * 2 ^ 8 + byte_at bs 2 * 2 ^ 16 + byte_at bs 3 * 2 ^ 24

-- `af in (24, 28, 30)`
abbrev pub is_inet6 : ℕ → Bool
is_inet6 af = af == 24 || af == 28 || af == 30

-- The tests on a DLT_NULL prefix, read in both byte orders.
pub null_ethertype : ℕ → ℕ → Result ℕ
null_ethertype af_le af_be =
    if af_le == 2
    then ok eth_type_ipv4
    else if af_be == 2
    then ok eth_type_ipv4
    else if is_inet6 af_le
    then ok eth_type_ipv6
    else if is_inet6 af_be
    then ok eth_type_ipv6
    else err value_error

-- The branch for DLT_NULL, whose prefix is in the byte order of the host.
pub strip_null : Bytes → Result (ℕ × Bytes)
strip_null frame_bytes = do
  fail_if (ltb (length frame_bytes) 4) value_error
  ethertype ← null_ethertype (u32_le frame_bytes) (u32_at frame_bytes 0)
  ok (ethertype, drop 4 frame_bytes)

-- The tests on a DLT_LOOP prefix.
pub loop_ethertype : ℕ → Result ℕ
loop_ethertype af =
    if af == 2 then ok eth_type_ipv4 else if is_inet6 af then ok eth_type_ipv6 else err value_error

-- The branch for DLT_LOOP.
pub strip_loop : Bytes → Result (ℕ × Bytes)
strip_loop frame_bytes = do
  fail_if (ltb (length frame_bytes) 4) value_error
  ethertype ← loop_ethertype (u32_at frame_bytes 0)
  ok (ethertype, drop 4 frame_bytes)

-- The branch for DLT_EN10MB.
pub strip_ethernet : Bytes → Result (ℕ × Bytes)
strip_ethernet frame_bytes = do
  frame ← parse_eth_frame frame_bytes
  ok (frame.ethertype, frame.payload)

pub strip_link_layer : ℕ → Bytes → Result (ℕ × Bytes)
strip_link_layer dlt frame_bytes =
    if dlt == dlt_en10mb
    then strip_ethernet frame_bytes
    else if dlt == dlt_null
    then strip_null frame_bytes
    else if dlt == dlt_loop
    then strip_loop frame_bytes
    else err value_error

-- `struct.pack("<I", af)` of a number below 256.
pub wrap_null : ℕ → Bytes → Result Bytes
wrap_null ethertype payload =
    if ethertype == eth_type_ipv4
    then ok (2 ∷ 0 ∷ 0 ∷ 0 ∷ payload)
    else if ethertype == eth_type_ipv6
    then ok (30 ∷ 0 ∷ 0 ∷ 0 ∷ payload)
    else err value_error

pub wrap_loop : ℕ → Bytes → Result Bytes
wrap_loop ethertype payload =
    if ethertype == eth_type_ipv4
    then ok (0 ∷ 0 ∷ 0 ∷ 2 ∷ payload)
    else if ethertype == eth_type_ipv6
    then ok (0 ∷ 0 ∷ 0 ∷ 24 ∷ payload)
    else err value_error

unfoldable pub wrap_link_layer : ℕ → ℕ → Bytes → Bytes → Bytes → Result Bytes
wrap_link_layer dlt ethertype dst_mac src_mac payload =
    if dlt == dlt_en10mb
    then build_eth_frame dst_mac src_mac ethertype payload
    else if dlt == dlt_null
    then wrap_null ethertype payload
    else if dlt == dlt_loop
    then wrap_loop ethertype payload
    else err value_error

-- "!HHBBH6s4s6s4s"
abbrev pub arp_fields : ℕ → Bytes → Bytes → Bytes → Bytes → List Field
arp_fields op smac sip tmac tip =
    u16 1
    ∷ u16 0x0800
    ∷ u8 6
    ∷ u8 4
    ∷ u16 op
    ∷ chars 6 smac
    ∷ chars 4 sip
    ∷ chars 6 tmac
    ∷ chars 4 tip
    ∷ []

-- `ip_to_bytes4` of an address that is given as bytes.
abbrev ip_to_bytes4 : Bytes → Result Bytes
ip_to_bytes4 addr = if length addr == 4 then ok addr else err value_error

unfoldable build_arp_request : Bytes → Bytes → Bytes → Result Bytes
build_arp_request sender_mac sender_ip target_ip = do
  sip ← ip_to_bytes4 sender_ip
  tip ← ip_to_bytes4 target_ip
  arp ← pack (arp_fields arp_op_request sender_mac sip mac_zero tip)
  build_eth_frame mac_broadcast sender_mac eth_type_arp arp

unfoldable pub build_arp_reply : Bytes → Bytes → Bytes → Bytes → Result Bytes
build_arp_reply sender_mac sender_ip target_mac target_ip = do
  sip ← ip_to_bytes4 sender_ip
  tip ← ip_to_bytes4 target_ip
  arp ← pack (arp_fields arp_op_reply sender_mac sip target_mac tip)
  build_eth_frame target_mac sender_mac eth_type_arp arp

pub record Arp : Type 0 where
  pub op : ℕ
  pub smac : Bytes
  pub sip : Bytes
  pub tmac : Bytes
  pub tip : Bytes

pub parse_arp : Bytes → Option Arp
parse_arp payload =
    let arp : Arp = record {
      op = u16_at payload 6;
      smac = slice 8 14 payload;
      sip = slice 14 18 payload;
      tmac = slice 18 24 payload;
      tip = slice 24 28 payload;
    } in
    if ltb (length payload) 28
    then none
    else if not (u16_at payload 0 == 1) || not (u16_at payload 2 == 0x0800)
    then none
    else if not (byte_at payload 4 == 6) || not (byte_at payload 5 == 4)
    then none
    else some arp
