-- ===== src/Pcap/Ipv4.antt =====
-- net/pcap/ip/ipv4.py: the IPv4 header. An address is its four bytes; `socket.inet_aton` has turned
-- a dotted quad into them before. Numbers are not negative.
pub mod Laws
mod Runs
use aionetiface.Prelude.{ℕ, ◌+◌, ◌-◌, ◌*◌, ◌/◌, ◌%◌, ◌^◌, bit_and, bit_or, Bool, false, ◌||◌, not}
use aionetiface.Prelude.{List, [], ◌∷◌, ◌++◌, length, take, drop, ltb, leb, ◌==◌, if◌then◌else◌}
use aionetiface.Bytes.{Bytes, Result, ok, err, value_error, fail_if, Field, u8, u16, chars, pack}
use aionetiface.Bytes.{byte_at, u16_at, slice, ◌>>=◌, ◌>>◌}
use aionetiface.Pcap.Checksum.{checksum16}

abbrev pub ipv4_hdr_len : ℕ
ipv4_hdr_len = 20

abbrev pub proto_tcp : ℕ
proto_tcp = 6

-- Don't Fragment, the default of the `flags` parameter.
abbrev pub flag_df : ℕ
flag_df = 0x4000

-- The format string "!BBHHHBBH4s4s".
abbrev pub header_fields : ℕ → ℕ → ℕ → ℕ → ℕ → ℕ → ℕ → Bytes → Bytes → List Field
header_fields tos total_len ident frag_field ttl proto csum src dst =
    u8 (bit_or (4 * 2 ^ 4) 5)
    ∷ u8 tos
    ∷ u16 total_len
    ∷ u16 ident
    ∷ u16 frag_field
    ∷ u8 ttl
    ∷ u8 proto
    ∷ u16 csum
    ∷ chars 4 src
    ∷ chars 4 dst
    ∷ []

-- The parameters of `pack_ipv4` that have a default.
pub record Options : Type 0 where
  pub ident : ℕ
  pub ttl : ℕ
  pub tos : ℕ
  pub flags : ℕ
  pub frag_offset : ℕ

abbrev pub defaults : Options
defaults = record { ident = 0; ttl = 64; tos = 0; flags = flag_df; frag_offset = 0 }

abbrev pub frag_field : Options → ℕ
frag_field o = bit_or (bit_and o.flags 0xe000) (o.frag_offset % 2 ^ 13)

pub pack_ipv4 : Bytes → Bytes → ℕ → Bytes → Options → Result Bytes
pack_ipv4 src dst proto payload o = do
  fail_if (not (length src == 4) || not (length dst == 4)) value_error
  let total_len = ipv4_hdr_len + length payload
  let header = λ (csum : ℕ).
      header_fields o.tos total_len (o.ident % 2 ^ 16) (frag_field o) o.ttl proto csum src dst
  empty ← pack (header 0)
  filled ← pack (header (checksum16 empty))
  ok (filled ++ payload)

pub record Ipv4Header : Type 0 where
  pub version : ℕ
  pub ihl : ℕ
  pub tos : ℕ
  pub total_len : ℕ
  pub ident : ℕ
  pub flags : ℕ
  pub frag_offset : ℕ
  pub ttl : ℕ
  pub proto : ℕ
  pub checksum : ℕ
  pub src : Bytes
  pub dst : Bytes
  pub header_len : ℕ
  pub payload_offset : ℕ
  pub raw_header : Bytes

pub parse_ipv4 : Bytes → Result (Ipv4Header × Bytes)
parse_ipv4 buf = do
  fail_if (ltb (length buf) ipv4_hdr_len) value_error
  let ver_ihl = byte_at buf 0
  let version = ver_ihl / 2 ^ 4 % 16
  let ihl = ver_ihl % 16
  fail_if (not (version == 4)) value_error
  fail_if (ltb ihl 5) value_error
  let header_len = ihl * 4
  fail_if (ltb (length buf) header_len) value_error
  let total_len = u16_at buf 2
  let frag_field = u16_at buf 6
  fail_if (ltb total_len header_len) value_error
  let payload =
      if leb total_len (length buf) then slice header_len total_len buf else drop header_len buf
  ok (
    record {
      version = version;
      ihl = ihl;
      tos = byte_at buf 1;
      total_len = total_len;
      ident = u16_at buf 4;
      flags = bit_and frag_field 0xe000;
      frag_offset = frag_field % 2 ^ 13;
      ttl = byte_at buf 8;
      proto = byte_at buf 9;
      checksum = u16_at buf 10;
      src = slice 12 16 buf;
      dst = slice 16 20 buf;
      header_len = header_len;
      payload_offset = header_len;
      raw_header = take header_len buf;
    },
    payload,
  )

pub validate_checksum : Bytes → Bool
validate_checksum buf =
    if ltb (length buf) ipv4_hdr_len
    then false
    else (checksum16 (take (byte_at buf 0 % 16 * 4) buf) == 0)

-- The twelve bytes that a TCP checksum covers in front of the segment: "!4s4sBBH".
unfoldable pub pseudo_header_ipv4 : Bytes → Bytes → ℕ → ℕ → Result Bytes
pseudo_header_ipv4 src dst proto l4_length =
    pack (chars 4 src ∷ chars 4 dst ∷ u8 0 ∷ u8 proto ∷ u16 l4_length ∷ [])
