-- ===== src/Pcap/Segment/Wire.antt =====
-- `pack_tcp_segment`, `parse_tcp_segment` and `validate_checksum` against one another.
use aionetiface.Prelude.{ℕ, ◌+◌, ◌-◌, ◌*◌, ◌/◌, ◌%◌, ◌^◌, ◌≤◌, ◌<◌, ◌≡◌, ap, sym, ◌∙◌, arith}
use aionetiface.Prelude.{Bool, true, false, bit_or, if◌then◌else◌, ltb-eq_false, ltb-eq_true}
use aionetiface.Prelude.{[], ◌∷◌, ◌++◌, append_assoc, length, take, drop, replicate}
use aionetiface.Prelude.{length-append, length-replicate, take-append, drop-append}
use aionetiface.Prelude.Bits.{bit_or-shifted}
use aionetiface.Bytes.{Bytes, IsBytes, ok, err, value_error, pack, be16, be32}
use aionetiface.Bytes.Laws.{pack-written, IsBytes-append, IsBytes-replicate}
use aionetiface.Pcap.Checksum.{checksum16}
use aionetiface.Pcap.Checksum.Verify.{checksum16-lt, checksum16-filled, with_word}
use aionetiface.Pcap.Ipv4.{pseudo_header_ipv4}
use aionetiface.Pcap.Ipv6.{addr16, pseudo_header_ipv6}
use aionetiface.Pcap.Segment.{TcpSegment, pad_options, header_fields, pseudo_header}
use aionetiface.Pcap.Segment.{pack_tcp_segment, parse_tcp_segment, validate_checksum}

-- Padding ends at a multiple of four bytes, and leaves at most 40 bytes at that.
pad_options_lem :
    (options : Bytes)
    → IsBytes options
    → length options ≤ 40
    → IsBytes (pad_options options)
      × (length (pad_options options) % 4 ≡ 0)
      × (length (pad_options options) ≤ 40)
unfolding pad_options
pad_options_lem options bytes short =
    let n = (4 - length options % 4) % 4 in
    let len : length (options ++ replicate n 1) ≡ length options + n =
      omega (arith, length-append options (replicate n 1), length-replicate {A = ℕ} n 1) in
    (
      IsBytes-append options (replicate n 1) bytes (IsBytes-replicate n 1 (omega arith)),
      omega (arith, len),
      omega (arith, len),
    )

-- An IP address of the family that the flag `ipv6` chooses.
abbrev pub IsEndpoint : Bool → Bytes → Type 0
IsEndpoint ipv6 addr = IsBytes addr × (length addr ≡ (if ipv6 then 16 else 4))

-- The pseudo-header is a byte string of even length.
pseudo_header_lem :
    (ipv6 : Bool) (src dst : Bytes) (len : ℕ)
    → IsEndpoint ipv6 src
    → IsEndpoint ipv6 dst
    → len < 2 ^ 16
    → (ph : Bytes) × (pseudo_header ipv6 src dst len ≡ ok ph) × IsBytes ph × (length ph % 2 ≡ 0)
unfolding pseudo_header pseudo_header_ipv4 pseudo_header_ipv6 addr16
pseudo_header_lem false src dst len s d fits = (
  src ++ (dst ++ (0 ∷ 6 ∷ be16 len)),
  pack-written _ (s.1, (d.1, (omega arith, (omega arith, (fits, tt))))),
  IsBytes-append src _ s.0 (IsBytes-append dst _ d.0 (omega arith)),
  omega (
    arith,
    length-append src (dst ++ (0 ∷ 6 ∷ be16 len)),
    length-append dst (0 ∷ 6 ∷ be16 len),
    s.1,
    d.1,
  ),
)
pseudo_header_lem true src dst len s d fits = (
  src ++ (dst ++ (be32 len ++ (0 ∷ 0 ∷ 0 ∷ 6 ∷ []))),
  rw (s.1, d.1) (pack-written _ (s.1, (d.1, omega arith))),
  IsBytes-append src _ s.0 (IsBytes-append dst _ d.0 (omega arith)),
  omega (
    arith,
    length-append src (dst ++ (be32 len ++ (0 ∷ 0 ∷ 0 ∷ 6 ∷ []))),
    length-append dst (be32 len ++ (0 ∷ 0 ∷ 0 ∷ 6 ∷ [])),
    s.1,
    d.1,
  ),
)

-- What the fields of a segment can hold on the wire.
pub record IsSegment (seg : TcpSegment) : Type 0 where
  pub src_port_fits : seg.src_port < 2 ^ 16
  pub dst_port_fits : seg.dst_port < 2 ^ 16
  pub seq_fits : seg.seq < 2 ^ 32
  pub ack_fits : seg.ack < 2 ^ 32
  pub flags_fit : seg.flags < 2 ^ 8
  pub window_fits : seg.window < 2 ^ 16
  pub urgent_fits : seg.urgent < 2 ^ 16
  pub options_bytes : IsBytes seg.options
  pub payload_bytes : IsBytes seg.payload
  pub options_short : length seg.options ≤ 40
  pub total_fits : 60 + length seg.payload < 2 ^ 16

abbrev offset_of : TcpSegment → ℕ
offset_of seg = (20 + length (pad_options seg.options)) / 4

abbrev offset_and_flags : TcpSegment → ℕ
offset_and_flags seg = bit_or (offset_of seg * 2 ^ 12) (seg.flags % 2 ^ 8)

-- The sixteen bytes before the checksum, and the bytes behind it.
abbrev front : TcpSegment → Bytes
front seg =
    be16 seg.src_port
    ++ (be16 seg.dst_port
        ++ (be32 seg.seq ++ (be32 seg.ack ++ (be16 (offset_and_flags seg) ++ be16 seg.window))))

abbrev back : TcpSegment → Bytes
back seg = be16 seg.urgent ++ (pad_options seg.options ++ seg.payload)

abbrev wire : TcpSegment → ℕ → Bytes
wire seg csum = with_word (front seg) csum (back seg)

-- The segment with the fields that packing fills in.
abbrev pub stamped : TcpSegment → ℕ → TcpSegment
stamped seg csum = record seg { data_offset = offset_of seg; checksum = csum }

u16-be16 : (n : ℕ) → n / 256 * 256 + n % 256 ≡ n
u16-be16 n = omega arith

small : (k n : ℕ) → n < 2 ^ k → n % 2 ^ k ≡ n
small k n h = grind arith

u32-be32 :
    (n : ℕ)
    → n / 2 ^ 24 * 2 ^ 24 + n / 2 ^ 16 % 256 * 2 ^ 16 + n / 2 ^ 8 % 256 * 2 ^ 8 + n % 256 ≡ n
u32-be32 n = omega arith

module _ {seg : TcpSegment} (h : IsSegment seg) where
  padded :
      IsBytes (pad_options seg.options)
      × (length (pad_options seg.options) % 4 ≡ 0)
      × (length (pad_options seg.options) ≤ 40)
  padded = pad_options_lem seg.options h.options_bytes h.options_short

  offset_and_flags_lem : offset_and_flags seg ≡ offset_of seg * 2 ^ 12 + seg.flags
  offset_and_flags_lem =
      bit_or-shifted 12 (offset_of seg) (seg.flags % 2 ^ 8) (omega arith) ∙ omega arith

  offset_lem : (offset_of seg * 4 ≡ 20 + length (pad_options seg.options)) × (offset_of seg ≤ 15)
  offset_lem = omega (arith, padded)

  front-IsBytes : IsBytes (front seg)
  front-IsBytes = omega (arith, offset_and_flags_lem, offset_lem)

  back-IsBytes : IsBytes (back seg)
  back-IsBytes = (
    omega arith,
    (omega arith, IsBytes-append (pad_options seg.options) seg.payload padded.0 h.payload_bytes),
  )

  length-wire :
      (csum : ℕ)
      → length (wire seg csum) ≡ 20 + length (pad_options seg.options) + length seg.payload
  length-wire csum = omega (arith, length-append (pad_options seg.options) seg.payload)

  header-written :
      (csum : ℕ)
      → csum < 2 ^ 16
      → pack (header_fields seg (offset_and_flags seg) csum)
        ≡ ok (front seg ++ (be16 csum ++ be16 seg.urgent))
  header-written csum fits =
      pack-written (header_fields seg (offset_and_flags seg) csum)
        (omega (arith, offset_and_flags_lem, offset_lem))

  options-wire :
      take (offset_of seg * 4 - 20) (pad_options seg.options ++ seg.payload)
      ≡ pad_options seg.options
  options-wire = take-append _ (pad_options seg.options) seg.payload (omega (arith, offset_lem))

  payload-wire : (csum : ℕ) → drop (offset_of seg * 4) (wire seg csum) ≡ seg.payload
  payload-wire csum =
      drop-append (offset_of seg * 4)
        (front seg ++ (be16 csum ++ (be16 seg.urgent ++ pad_options seg.options))) seg.payload
        (omega (arith, offset_lem))

  parse-wire :
      (csum : ℕ)
      → parse_tcp_segment (wire seg csum)
        ≡ ok (record (stamped seg csum) { options = pad_options seg.options })
  unfolding parse_tcp_segment
  parse-wire csum =
      let len = length-wire csum in
      let word = offset_and_flags_lem in
      let offset : offset_and_flags seg / 2 ^ 12 % 16 ≡ offset_of seg =
        omega (arith, word, offset_lem) in
      let flags : offset_and_flags seg % 2 ^ 8 ≡ seg.flags = omega (arith, word) in
      rw (ltb-eq_false (length (wire seg csum)) 20 (omega (arith, len))) (
        simp (u16-be16, u32-be32)
          (rw (
            offset,
            ltb-eq_false (offset_of seg) 5 (omega arith),
            ltb-eq_false (length (wire seg csum)) (offset_of seg * 4)
                (omega (arith, len, offset_lem)),
            options-wire,
            payload-wire csum,
            flags,
            small 32 seg.seq h.seq_fits,
            small 32 seg.ack h.ack_fits,
            small 8 seg.flags h.flags_fit,
            small 16 seg.window h.window_fits,
            small 16 seg.urgent h.urgent_fits,
          )))

module _ (seg : TcpSegment) (ipv6 : Bool) (src dst : Bytes) (h : IsSegment seg)
    (s : IsEndpoint ipv6 src) (d : IsEndpoint ipv6 dst) where
  module _ (ph : Bytes) (bytes : IsBytes ph) (even : length ph % 2 ≡ 0) where
    -- The sum over a pseudo-header and the segment with its checksum word zero.
    abbrev sum_of : ℕ
    sum_of = checksum16 (ph ++ wire seg 0)

    whole-IsBytes : IsBytes (ph ++ wire seg 0)
    whole-IsBytes = IsBytes-append ph (wire seg 0) bytes (
        IsBytes-append (front seg) (0 ∷ 0 ∷ back seg) (front-IsBytes h)
          (omega arith, (omega arith, back-IsBytes h)))

    sum_of-lt : sum_of < 2 ^ 16
    sum_of-lt = checksum16-lt (ph ++ wire seg 0) whole-IsBytes

    join : (csum : ℕ) → ph ++ wire seg csum ≡ with_word (ph ++ front seg) csum (back seg)
    join csum = sym (append_assoc ph (front seg) (be16 csum ++ back seg))

    -- With the checksum in its place, the whole sums to zero.
    stamped-sum : checksum16 (ph ++ wire seg sum_of) ≡ 0
    stamped-sum =
        ap checksum16 (join sum_of)
        ∙ ap (λ (t : ℕ). checksum16 (with_word (ph ++ front seg) t (back seg)))
            (ap checksum16 (join 0))
        ∙ checksum16-filled (ph ++ front seg) (back seg)
            (IsBytes-append ph (front seg) bytes (front-IsBytes h)) (back-IsBytes h)
            (omega (arith, length-append ph (front seg)))

    pack-wire :
        pseudo_header ipv6 src dst (length (wire seg 0)) ≡ ok ph
        → pack_tcp_segment seg src dst ipv6 ≡ ok (wire seg sum_of, stamped seg sum_of)
    unfolding pack_tcp_segment
    pack-wire e =
        rw (ltb-eq_false 15 (offset_of seg) (omega (arith, offset_lem h)))
          (rw (header-written h 0 (omega arith)) (rw e (rw (header-written h sum_of sum_of-lt))))

    validate-wire :
        pseudo_header ipv6 src dst (length (wire seg 0)) ≡ ok ph
        → validate_checksum (wire seg sum_of) src dst ipv6 ≡ ok true
    unfolding validate_checksum
    validate-wire e =
        rw (ltb-eq_false (length (wire seg sum_of)) 20 (omega (arith, length-wire h sum_of)))
          (rw e (rw stamped-sum))

  -- A segment that `pack_tcp_segment` writes, over IPv4 or IPv6, carries a checksum that
  -- `validate_checksum` accepts, and `parse_tcp_segment` reads the same segment back, with its
  -- options padded by NOPs and with the offset and checksum that packing wrote into it. The fields
  -- fit their places, the options have at most 40 bytes and the whole is below 2 ^ 16 bytes.
  pub parse-pack_tcp_segment :
      (bytes : Bytes) × (csum : ℕ) × (pack_tcp_segment seg src dst ipv6
        ≡ ok (bytes, stamped seg csum))
      × (validate_checksum bytes src dst ipv6 ≡ ok true)
      × (parse_tcp_segment bytes
          ≡ ok (record (stamped seg csum) { options = pad_options seg.options }))
  parse-pack_tcp_segment =
      let fits : length (wire seg 0) < 2 ^ 16 = omega (arith, length-wire h 0, padded h) in
      let (ph, e, bytes, even) = pseudo_header_lem ipv6 src dst (length (wire seg 0)) s d fits in
      let csum = sum_of ph bytes even in
      (
        wire seg csum,
        csum,
        pack-wire ph bytes even e,
        validate-wire ph bytes even e,
        parse-wire h csum,
      )

  -- The same bytes, and how long they are.
  pub pack_tcp_segment-short :
      (bytes : Bytes) × (csum : ℕ) × (pack_tcp_segment seg src dst ipv6
        ≡ ok (bytes, stamped seg csum))
      × (length bytes ≤ 60 + length seg.payload)
      × (parse_tcp_segment bytes
          ≡ ok (record (stamped seg csum) { options = pad_options seg.options }))
  pack_tcp_segment-short =
      let fits : length (wire seg 0) < 2 ^ 16 = omega (arith, length-wire h 0, padded h) in
      let (ph, e, bytes, even) = pseudo_header_lem ipv6 src dst (length (wire seg 0)) s d fits in
      let csum = sum_of ph bytes even in
      (
        wire seg csum,
        csum,
        pack-wire ph bytes even e,
        omega (arith, length-wire h csum, padded h),
        parse-wire h csum,
      )

-- Options of more than 40 bytes are refused, whatever the rest of the segment is.
pub pack_tcp_segment_too_long :
    (seg : TcpSegment) (src dst : Bytes) (ipv6 : Bool)
    → 40 < length seg.options
    → pack_tcp_segment seg src dst ipv6 ≡ err value_error
unfolding pack_tcp_segment pad_options
pack_tcp_segment_too_long seg src dst ipv6 h =
    let n = (4 - length seg.options % 4) % 4 in
    let len = length-append seg.options (replicate n 1) in
    rw (
      ltb-eq_true 15 ((20 + length (seg.options ++ replicate n 1)) / 4)
        (omega (arith, len, length-replicate {A = ℕ} n 1)))
