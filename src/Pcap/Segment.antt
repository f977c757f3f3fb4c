-- ===== src/Pcap/Segment.antt =====
-- net/pcap/tcp/segment.py: TCP segments, their options, and their wire format.
pub mod Options
pub mod Wire
mod Runs
use aionetiface.Prelude.{ℕ, zero, suc, ◌+◌, ◌-◌, ◌*◌, ◌/◌, ◌%◌, ◌^◌, bit_and, bit_or}
use aionetiface.Prelude.{Bool, true, false, not, ◌||◌, Option, none, some}
use aionetiface.Prelude.{List, [], ◌∷◌, ◌++◌, length, take, drop, replicate}
use aionetiface.Prelude.{ltb, ◌==◌, if◌then◌else◌}
use aionetiface.Bytes.{Bytes, Result, ok, err, value_error, fail_if, Field, u16, u32, pack, be16}
use aionetiface.Bytes.{u16_at, u32_at, slice, ◌>>=◌, ◌>>◌}
use aionetiface.Pcap.Checksum.{checksum16}
use aionetiface.Pcap.Ipv4.{pseudo_header_ipv4}
use aionetiface.Pcap.Ipv6.{pseudo_header_ipv6}

abbrev pub tcp_hdr_min : ℕ
tcp_hdr_min = 20

abbrev pub flag_fin : ℕ
flag_fin = 0x01

abbrev pub flag_syn : ℕ
flag_syn = 0x02

abbrev pub flag_rst : ℕ
flag_rst = 0x04

abbrev pub flag_psh : ℕ
flag_psh = 0x08

abbrev pub flag_ack : ℕ
flag_ack = 0x10

abbrev pub opt_eol : ℕ
opt_eol = 0

abbrev pub opt_nop : ℕ
opt_nop = 1

abbrev pub opt_mss : ℕ
opt_mss = 2

pub record TcpSegment : Type 0 where
  pub src_port : ℕ
  pub dst_port : ℕ
  pub seq : ℕ
  pub ack : ℕ
  pub data_offset : ℕ
  pub flags : ℕ
  pub window : ℕ
  pub checksum : ℕ
  pub urgent : ℕ
  pub options : Bytes
  pub payload : Bytes

-- `TcpSegment(src_port, dst_port, seq, ack, flags, window, options, payload, urgent)`
abbrev pub tcp_segment : ℕ → ℕ → ℕ → ℕ → ℕ → ℕ → Bytes → Bytes → ℕ → TcpSegment
tcp_segment src_port dst_port seq ack flags window options payload urgent = record {
  src_port = src_port;
  dst_port = dst_port;
  seq = seq % 2 ^ 32;
  ack = ack % 2 ^ 32;
  data_offset = (tcp_hdr_min + length options + 3) / 4;
  flags = flags % 2 ^ 8;
  window = window % 2 ^ 16;
  checksum = 0;
  urgent = urgent % 2 ^ 16;
  options = options;
  payload = payload;
}

-- `bool(self.flags & mask)`
unfoldable pub has_flag : TcpSegment → ℕ → Bool
has_flag seg mask = not (bit_and seg.flags mask == 0)

unfoldable header_len_bytes : TcpSegment → ℕ
header_len_bytes seg = seg.data_offset * 4

unfoldable pub segment_length : TcpSegment → ℕ
unfolding has_flag
segment_length seg =
    length seg.payload
    + (if has_flag seg flag_syn then 1 else 0)
    + (if has_flag seg flag_fin then 1 else 0)

-- NOPs up to a multiple of four bytes.
pub pad_options : Bytes → Bytes
pad_options options = options ++ replicate ((4 - length options % 4) % 4) 1

-- "!BBH"; the mask makes the packing succeed (`Options.pack-build_mss_option`).
pub build_mss_option : ℕ → Bytes
build_mss_option mss = opt_mss ∷ 4 ∷ be16 (mss % 2 ^ 16)

abbrev pub Parsed : Type 0
Parsed = List (ℕ × Bytes)

-- The loop of `parse_options` from the index on: `buf` is what is left. The fuel bounds its rounds.
pub parse_options_loop : ℕ → Bytes → Parsed
parse_options_loop fuel [] = []
parse_options_loop zero (kind ∷ rest) = []
parse_options_loop (suc fuel) (kind ∷ []) =
    if kind == opt_eol
    then (opt_eol, []) ∷ []
    else if kind == opt_nop
    then (opt_nop, []) ∷ []
    else []
parse_options_loop (suc fuel) (kind ∷ len ∷ rest) =
    let buf = kind ∷ len ∷ rest in
    let after_nop = parse_options_loop fuel (len ∷ rest) in
    let after_option = parse_options_loop fuel (drop len buf) in
    if kind == opt_eol
    then (opt_eol, []) ∷ []
    else if kind == opt_nop
    then (opt_nop, []) ∷ after_nop
    else if ltb len 2 || ltb (length buf) len
    then []
    else (kind, slice 2 len buf) ∷ after_option

-- Every round takes a byte at least.
pub parse_options : Bytes → Parsed
parse_options buf = parse_options_loop (length buf) buf

pub get_option : Parsed → ℕ → Option Bytes
get_option [] kind = none
get_option ((k, body) ∷ rest) kind = if k == kind then some body else get_option rest kind

-- "!HHIIHHHH"
abbrev pub header_fields : TcpSegment → ℕ → ℕ → List Field
header_fields segment off_resv_flags csum =
    u16 segment.src_port
    ∷ u16 segment.dst_port
    ∷ u32 segment.seq
    ∷ u32 segment.ack
    ∷ u16 off_resv_flags
    ∷ u16 segment.window
    ∷ u16 csum
    ∷ u16 segment.urgent
    ∷ []

-- The pseudo-header that the flag `ipv6` chooses.
pub pseudo_header : Bool → Bytes → Bytes → ℕ → Result Bytes
pseudo_header true src_ip dst_ip len = pseudo_header_ipv6 src_ip dst_ip 6 len
pseudo_header false src_ip dst_ip len = pseudo_header_ipv4 src_ip dst_ip 6 len

-- The bytes, and the segment with the two fields that packing writes into it.
pub pack_tcp_segment : TcpSegment → Bytes → Bytes → Bool → Result (Bytes × TcpSegment)
pack_tcp_segment segment src_ip dst_ip ipv6 = do
  let opts = pad_options segment.options
  let data_offset = (tcp_hdr_min + length opts) / 4
  fail_if (ltb 15 data_offset) value_error
  let off_resv_flags = bit_or (data_offset * 2 ^ 12) (segment.flags % 2 ^ 8)
  no_csum ← pack (header_fields segment off_resv_flags 0)
  let body = (no_csum ++ opts) ++ segment.payload
  ph ← pseudo_header ipv6 src_ip dst_ip (length body)
  let csum = checksum16 (ph ++ body)
  with_csum ← pack (header_fields segment off_resv_flags csum)
  ok (
    (with_csum ++ opts) ++ segment.payload,
    record segment { data_offset = data_offset; checksum = csum },
  )

pub parse_tcp_segment : Bytes → Result TcpSegment
parse_tcp_segment buf = do
  fail_if (ltb (length buf) tcp_hdr_min) value_error
  let off_resv_flags = u16_at buf 12
  let data_offset = off_resv_flags / 2 ^ 12 % 16
  let flags = off_resv_flags % 2 ^ 8
  fail_if (ltb data_offset 5) value_error
  let hdr_len = data_offset * 4
  fail_if (ltb (length buf) hdr_len) value_error
  let options = slice tcp_hdr_min hdr_len buf
  let payload = drop hdr_len buf
  let seg =
      tcp_segment (u16_at buf 0) (u16_at buf 2) (u32_at buf 4) (u32_at buf 8) flags (u16_at buf 14)
        options payload (u16_at buf 18)
  ok (record seg { data_offset = data_offset; checksum = u16_at buf 16 })

pub validate_checksum : Bytes → Bytes → Bytes → Bool → Result Bool
validate_checksum buf src_ip dst_ip ipv6 =
    if ltb (length buf) tcp_hdr_min
    then ok false
    else do ph ← pseudo_header ipv6 src_ip dst_ip (length buf); ok (checksum16 (ph ++ buf) == 0)
