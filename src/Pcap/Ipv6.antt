-- ===== src/Pcap/Ipv6.antt =====
-- net/pcap/ip/ipv6.py: the IPv6 header without extension headers. An address is its sixteen bytes;
-- `socket.inet_pton` has turned its text into them before.
pub mod Laws
mod Runs
use aionetiface.Prelude.{ℕ, ◌+◌, ◌*◌, ◌/◌, ◌%◌, ◌^◌, bit_or, not}
use aionetiface.Prelude.{List, [], ◌∷◌, ◌++◌, length, ltb, ◌==◌, if◌then◌else◌}
use aionetiface.Bytes.{Bytes, Result, ok, err, value_error, fail_if, Field, u8, u16, u32, chars}
use aionetiface.Bytes.{pack, byte_at, u16_at, u32_at, slice, ◌>>=◌, ◌>>◌}

abbrev pub ipv6_hdr_len : ℕ
ipv6_hdr_len = 40

unfoldable pub addr16 : Bytes → Result Bytes
addr16 addr = if length addr == 16 then ok addr else err value_error

-- The parameters of `pack_ipv6` that have a default.
pub record Options : Type 0 where
  pub hop_limit : ℕ
  pub traffic_class : ℕ
  pub flow_label : ℕ

abbrev pub ver_tc_fl : Options → ℕ
ver_tc_fl o =
    bit_or (bit_or (6 * 2 ^ 28) (o.traffic_class % 2 ^ 8 * 2 ^ 20)) (o.flow_label % 2 ^ 20)

-- "!IHBB16s16s"
abbrev pub header_fields : Bytes → Bytes → ℕ → ℕ → Options → List Field
header_fields src dst next_header len o =
    u32 (ver_tc_fl o) ∷ u16 len ∷ u8 next_header ∷ u8 o.hop_limit ∷ chars 16 src ∷ chars 16 dst ∷ []

pub pack_ipv6 : Bytes → Bytes → ℕ → Bytes → Options → Result Bytes
pack_ipv6 src_ip dst_ip next_header payload o = do
  src ← addr16 src_ip
  dst ← addr16 dst_ip
  header ← pack (header_fields src dst next_header (length payload) o)
  ok (header ++ payload)

pub record Ipv6Header : Type 0 where
  pub version : ℕ
  pub traffic_class : ℕ
  pub flow_label : ℕ
  pub payload_len : ℕ
  pub next_header : ℕ
  pub hop_limit : ℕ
  pub src : Bytes
  pub dst : Bytes

pub parse_ipv6 : Bytes → Result (Ipv6Header × Bytes)
parse_ipv6 buf = do
  fail_if (ltb (length buf) ipv6_hdr_len) value_error
  let word = u32_at buf 0
  let payload_len = u16_at buf 4
  let version = word / 2 ^ 28 % 16
  fail_if (not (version == 6)) value_error
  ok (
    record {
      version = version;
      traffic_class = word / 2 ^ 20 % 2 ^ 8;
      flow_label = word % 2 ^ 20;
      payload_len = payload_len;
      next_header = byte_at buf 6;
      hop_limit = byte_at buf 7;
      src = slice 8 24 buf;
      dst = slice 24 40 buf;
    },
    slice ipv6_hdr_len (ipv6_hdr_len + payload_len) buf,
  )

-- "!16s16sI3xB": the three pad bytes are zero.
unfoldable pub pseudo_header_ipv6 : Bytes → Bytes → ℕ → ℕ → Result Bytes
pseudo_header_ipv6 src_ip dst_ip next_header l4_length = do
  src ← addr16 src_ip
  dst ← addr16 dst_ip
  pack (chars 16 src ∷ chars 16 dst ∷ u32 l4_length ∷ u8 0 ∷ u8 0 ∷ u8 0 ∷ u8 next_header ∷ [])
