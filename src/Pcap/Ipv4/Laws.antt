-- ===== src/Pcap/Ipv4/Laws.antt =====
-- The packet that `pack_ipv4` builds, its checksum, and what `parse_ipv4` reads back.
use aionetiface.Prelude.{ℕ, ◌+◌, ◌-◌, ◌*◌, ◌/◌, ◌%◌, ◌^◌, ◌<◌, ◌≡◌, refl, sym, ◌∙◌}
use aionetiface.Prelude.{arith, bit_and, true, ltb-eq_false, leb-eq_true}
use aionetiface.Prelude.{
  [], ◌∷◌, ◌++◌, append-nil, append_assoc, length, take, drop, take-append, drop-append,
  length-append,
}
use aionetiface.Prelude.Bits.{bit_and_e000, bit_or-shifted}
use aionetiface.Bytes.{Bytes, IsBytes, ok, pack, be16}
use aionetiface.Bytes.Laws.{pack-written, IsBytes-append}
use aionetiface.Pcap.Checksum.{checksum16}
use aionetiface.Pcap.Checksum.Verify.{checksum16-lt, checksum16-filled, with_word}
use aionetiface.Pcap.Ipv4.{Options, ipv4_hdr_len, header_fields, frag_field, pack_ipv4}
use aionetiface.Pcap.Ipv4.{Ipv4Header, parse_ipv4, validate_checksum}

-- What the header's fields can hold.
pub record IsPackable (src dst : Bytes) (proto : ℕ) (payload : Bytes) (o : Options) : Type 0 where
  pub src_bytes : IsBytes src
  pub dst_bytes : IsBytes dst
  pub src_length : length src ≡ 4
  pub dst_length : length dst ≡ 4
  pub tos_fits : o.tos < 256
  pub ttl_fits : o.ttl < 256
  pub proto_fits : proto < 256
  pub length_fits : ipv4_hdr_len + length payload < 2 ^ 16

-- The three flag bits and the offset, one above the other.
abbrev pub flag_bits : Options → ℕ
flag_bits o = o.flags / 2 ^ 13 % 8

frag_field_lem : (o : Options) → frag_field o ≡ flag_bits o * 2 ^ 13 + o.frag_offset % 2 ^ 13
frag_field_lem o =
    rw (bit_and_e000) (bit_or-shifted 13 (flag_bits o) (o.frag_offset % 2 ^ 13) (omega arith))

-- The ten bytes before the checksum.
abbrev front : Options → ℕ → ℕ → Bytes
front o proto len =
    0x45 ∷ o.tos ∷ be16 (ipv4_hdr_len + len)
    ++ (be16 (o.ident % 2 ^ 16) ++ (be16 (frag_field o) ++ (o.ttl ∷ proto ∷ [])))

abbrev header : Bytes → Bytes → ℕ → ℕ → Options → ℕ → Bytes
header src dst proto len o csum = with_word (front o proto len) csum (src ++ (dst ++ []))

abbrev empty_sum : Bytes → Bytes → ℕ → ℕ → Options → ℕ
empty_sum src dst proto len o = checksum16 (header src dst proto len o 0)

module _ {src dst : Bytes} {proto : ℕ} {payload : Bytes} {o : Options}
    (h : IsPackable src dst proto payload o) where
  header-written :
      (csum : ℕ)
      → csum < 2 ^ 16
      → pack (
          header_fields o.tos
            (ipv4_hdr_len + length payload)
            (o.ident % 2 ^ 16)
            (frag_field o)
            o.ttl
            proto
            csum
            src
            dst)
        ≡ ok (header src dst proto (length payload) o csum)
  header-written csum fits = pack-written _ (omega (arith, frag_field_lem o))

  front-IsBytes : IsBytes (front o proto (length payload))
  front-IsBytes = omega (arith, frag_field_lem o)

  tail-IsBytes : IsBytes (src ++ (dst ++ []))
  tail-IsBytes = IsBytes-append src (dst ++ []) h.src_bytes (IsBytes-append dst [] h.dst_bytes tt)

  empty_sum-lt : empty_sum src dst proto (length payload) o < 65536
  empty_sum-lt = checksum16-lt (header src dst proto (length payload) o 0) (
      IsBytes-append (front o proto (length payload)) (0 ∷ 0 ∷ (src ++ (dst ++ []))) front-IsBytes
        (omega arith, (omega arith, tail-IsBytes)))

  -- The header with its checksum, and what follows it.
  abbrev pub wire : Bytes → Bytes
  wire rest =
      header src dst proto (length payload) o (empty_sum src dst proto (length payload) o) ++ rest

  abbrev pub packet : Bytes
  packet = wire payload

  pub pack_ipv4-packet : pack_ipv4 src dst proto payload o ≡ ok packet
  unfolding pack_ipv4
  pack_ipv4-packet =
      rw (h.src_length, h.dst_length, header-written 0 (omega arith), header-written _ empty_sum-lt)

  length-tail : length (src ++ (dst ++ [])) ≡ 8
  length-tail =
      omega (arith, length-append src (dst ++ []), length-append dst [], h.src_length, h.dst_length)

  pub length-wire : (rest : Bytes) → length (wire rest) ≡ 20 + length rest
  length-wire rest = omega (arith, length-tail, length-append (src ++ (dst ++ [])) rest)

  -- The first twenty bytes are the header.
  take-wire : (rest : Bytes) → take 20 (wire rest) ≡ wire []
  take-wire rest =
      take-append 20 (header src dst proto (length payload) o _) rest (omega (arith, length-tail))
      ∙ sym (append-nil _)

  pub validate-wire : (rest : Bytes) → validate_checksum (wire rest) ≡ true
  unfolding validate_checksum
  validate-wire rest =
      let sum =
        checksum16-filled (front o proto (length payload)) (src ++ (dst ++ [])) front-IsBytes
          tail-IsBytes refl in
      rw (length-wire, take-wire rest, append-nil) (rw sum (ground arith))

  -- What the parser finds in that packet.
  abbrev pub found : Ipv4Header
  found = record {
    version = 4;
    ihl = 5;
    tos = o.tos;
    total_len = 20 + length payload;
    ident = o.ident % 2 ^ 16;
    flags = bit_and o.flags 0xe000;
    frag_offset = o.frag_offset % 2 ^ 13;
    ttl = o.ttl;
    proto = proto;
    checksum = empty_sum src dst proto (length payload) o;
    src = src;
    dst = dst;
    header_len = 20;
    payload_offset = 20;
    raw_header = wire [];
  }

  src-wire : (rest : Bytes) → take 4 ((src ++ (dst ++ [])) ++ rest) ≡ src
  src-wire rest = rw append_assoc (take-append 4 src _ h.src_length)

  dst-wire : (rest : Bytes) → take 4 (drop 4 ((src ++ (dst ++ [])) ++ rest)) ≡ dst
  dst-wire rest =
      rw (append_assoc, drop-append 4 src _ h.src_length, append_assoc)
        (take-append 4 dst _ h.dst_length)

  drop-wire : (rest : Bytes) → drop 20 (wire rest) ≡ rest
  drop-wire rest = drop-append 8 (src ++ (dst ++ [])) rest length-tail

  payload-slice :
      (pad : Bytes) → take (20 + length payload - 20) (drop 20 (wire (payload ++ pad))) ≡ payload
  payload-slice pad = rw drop-wire (take-append _ payload pad (omega arith))

  u16-be16 : (n : ℕ) → n / 256 * 256 + n % 256 ≡ n
  u16-be16 n = omega arith

  flags-frag_field : bit_and (frag_field o) 0xe000 ≡ bit_and o.flags 0xe000
  flags-frag_field =
      omega (arith, bit_and_e000 (frag_field o), frag_field_lem o, bit_and_e000 o.flags)

  offset-frag_field : frag_field o % 2 ^ 13 ≡ o.frag_offset % 2 ^ 13
  offset-frag_field = omega (arith, frag_field_lem o)

  pub parse-wire : (pad : Bytes) → parse_ipv4 (wire (payload ++ pad)) ≡ ok (found, payload)
  unfolding parse_ipv4
  parse-wire pad =
      let len = length-wire (payload ++ pad) in
      rw (ltb-eq_false (length (wire (payload ++ pad))) 20 (omega (arith, len))) (
        simp u16-be16 (
          rw (
            ltb-eq_false (20 + length payload) 20 (omega arith),
            leb-eq_true (20 + length payload) (length (wire (payload ++ pad)))
                (omega (arith, len, length-append payload pad)),
            flags-frag_field,
            offset-frag_field,
            src-wire,
            dst-wire,
            payload-slice,
            take-wire,
          )))

  -- A packet that `pack_ipv4` builds passes `validate_checksum`, and `parse_ipv4` reads back the
  -- payload and the header fields that went in (the identification modulo 2 ^ 16, the flags by
  -- their three bits, the fragment offset by its thirteen), also with any padding behind it. The
  -- fields fit their places and the addresses have four bytes.
  pub parse-pack_ipv4 :
      (pad : Bytes)
      → (pack_ipv4 src dst proto payload o ≡ ok packet)
        × (validate_checksum (packet ++ pad) ≡ true)
        × (parse_ipv4 (packet ++ pad) ≡ ok (found, payload))
  parse-pack_ipv4 pad = (
    pack_ipv4-packet,
    rw append_assoc (validate-wire (payload ++ pad)),
    rw append_assoc (parse-wire pad),
  )
