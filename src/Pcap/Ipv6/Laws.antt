-- ===== src/Pcap/Ipv6/Laws.antt =====
-- What `parse_ipv6` reads back from a packet of `pack_ipv6`.
use aionetiface.Prelude.{ℕ, ◌+◌, ◌-◌, ◌*◌, ◌/◌, ◌%◌, ◌^◌, ◌<◌, ◌≡◌, arith, ltb-eq_false}
use aionetiface.Prelude.{[], ◌∷◌, ◌++◌, append_assoc, length, take, drop}
use aionetiface.Prelude.{take-append, drop-append, length-append}
use aionetiface.Prelude.Bits.{bit_or-shifted}
use aionetiface.Bytes.{Bytes, ok, be16, be32}
use aionetiface.Bytes.Laws.{pack-written}
use aionetiface.Pcap.Ipv6.{
  addr16, Options, header_fields, ver_tc_fl, pack_ipv6, Ipv6Header, parse_ipv6,
}

pub record IsPackable (src dst : Bytes) (next_header : ℕ) (payload : Bytes) (o : Options)
    : Type 0 where
  pub src_length : length src ≡ 16
  pub dst_length : length dst ≡ 16
  pub next_fits : next_header < 256
  pub hop_fits : o.hop_limit < 256
  pub length_fits : length payload < 2 ^ 16

-- Version, traffic class and flow label stand one above the other.
ver_tc_fl_lem :
    (o : Options)
    → ver_tc_fl o ≡ 6 * 2 ^ 28 + o.traffic_class % 2 ^ 8 * 2 ^ 20 + o.flow_label % 2 ^ 20
ver_tc_fl_lem o =
    let low : o.traffic_class % 2 ^ 8 * 2 ^ 20 < 2 ^ 28 = omega arith in
    let top = bit_or-shifted 28 6 (o.traffic_class % 2 ^ 8 * 2 ^ 20) low in
    let both : 6 * 2 ^ 28 + o.traffic_class % 2 ^ 8 * 2 ^ 20
        ≡ (1536 + o.traffic_class % 2 ^ 8) * 2 ^ 20 =
      omega arith in
    rw (top, both) (bit_or-shifted 20 (1536 + o.traffic_class % 2 ^ 8) _ (omega arith))

module _ {src dst : Bytes} {next_header : ℕ} {payload : Bytes} {o : Options}
    (h : IsPackable src dst next_header payload o) where
  addr16_ok : (addr : Bytes) → length addr ≡ 16 → addr16 addr ≡ ok addr
  unfolding addr16
  addr16_ok addr e = rw e

  -- The header, and what follows it.
  abbrev wire : Bytes → Bytes
  wire rest =
      be32 (ver_tc_fl o)
      ++ (be16 (length payload) ++ (next_header ∷ o.hop_limit ∷ ((src ++ (dst ++ [])) ++ rest)))

  abbrev pub packet : Bytes
  packet = wire payload

  pack_ipv6-packet : pack_ipv6 src dst next_header payload o ≡ ok packet
  unfolding pack_ipv6
  pack_ipv6-packet =
      rw (addr16_ok src h.src_length, addr16_ok dst h.dst_length)
        (rw (
          pack-written (header_fields src dst next_header (length payload) o)
            (omega (arith, ver_tc_fl_lem o))))

  length-tail : length (src ++ (dst ++ [])) ≡ 32
  length-tail =
      omega (arith, length-append src (dst ++ []), length-append dst [], h.src_length, h.dst_length)

  length-wire : (rest : Bytes) → length (wire rest) ≡ 40 + length rest
  length-wire rest = omega (arith, length-tail, length-append (src ++ (dst ++ [])) rest)

  src-wire : (rest : Bytes) → take 16 ((src ++ (dst ++ [])) ++ rest) ≡ src
  src-wire rest = rw append_assoc (take-append 16 src _ h.src_length)

  dst-wire : (rest : Bytes) → take 16 (drop 16 ((src ++ (dst ++ [])) ++ rest)) ≡ dst
  dst-wire rest =
      rw (append_assoc, drop-append 16 src _ h.src_length, append_assoc)
        (take-append 16 dst _ h.dst_length)

  drop-wire : (rest : Bytes) → drop 40 (wire rest) ≡ rest
  drop-wire rest = drop-append 32 (src ++ (dst ++ [])) rest length-tail

  payload-slice :
      (pad : Bytes) → take (40 + length payload - 40) (drop 40 (wire (payload ++ pad))) ≡ payload
  payload-slice pad = rw drop-wire (take-append _ payload pad (omega arith))

  abbrev pub found : Ipv6Header
  found = record {
    version = 6;
    traffic_class = o.traffic_class % 2 ^ 8;
    flow_label = o.flow_label % 2 ^ 20;
    payload_len = length payload;
    next_header = next_header;
    hop_limit = o.hop_limit;
    src = src;
    dst = dst;
  }

  u16-be16 : (n : ℕ) → n / 256 * 256 + n % 256 ≡ n
  u16-be16 n = omega arith

  word-wire :
      (n : ℕ)
      → n / 2 ^ 24 * 2 ^ 24 + n / 2 ^ 16 % 256 * 2 ^ 16 + n / 2 ^ 8 % 256 * 2 ^ 8 + n % 256 ≡ n
  word-wire n = omega arith

  parse-wire : (pad : Bytes) → parse_ipv6 (wire (payload ++ pad)) ≡ ok (found, payload)
  unfolding parse_ipv6
  parse-wire pad =
      let word = ver_tc_fl_lem o in
      let version : ver_tc_fl o / 2 ^ 28 % 16 ≡ 6 = omega (arith, word) in
      let traffic : ver_tc_fl o / 2 ^ 20 % 2 ^ 8 ≡ o.traffic_class % 2 ^ 8 = omega (arith, word) in
      let flow : ver_tc_fl o % 2 ^ 20 ≡ o.flow_label % 2 ^ 20 = omega (arith, word) in
      rw
        (ltb-eq_false (length (wire (payload ++ pad))) 40
          (omega (arith, length-wire (payload ++ pad))))
        (simp (u16-be16, word-wire)
          (rw (version, traffic, flow, src-wire, dst-wire, payload-slice)))

  -- A packet that `pack_ipv6` builds is read back by `parse_ipv6`, with any padding behind it: the
  -- payload, the addresses, the next header and the hop limit as they went in, the traffic class
  -- modulo 2 ^ 8 and the flow label modulo 2 ^ 20. The addresses have sixteen bytes, the payload is
  -- shorter than 2 ^ 16 bytes, and next header and hop limit fit a byte.
  pub parse-pack_ipv6 :
      (pad : Bytes)
      → (pack_ipv6 src dst next_header payload o ≡ ok packet)
        × (parse_ipv6 (packet ++ pad) ≡ ok (found, payload))
  parse-pack_ipv6 pad =
      (pack_ipv6-packet, rw (append_assoc (src ++ (dst ++ [])) payload pad) (parse-wire pad))
