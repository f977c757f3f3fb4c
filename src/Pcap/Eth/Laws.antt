-- ===== src/Pcap/Eth/Laws.antt =====
-- Frames and ARP packets of net/pcap/ip/eth.py, built and read back.
use aionetiface.Prelude.{
  ℕ, suc, ◌+◌, ◌-◌, ◌*◌, ◌^◌, ◌<◌, ◌≤◌, ◌≡◌, refl, ap, sym, ◌∙◌, arith, ltb-eq_false, if_cases,
}
use aionetiface.Prelude.{
  Bool, true, false, [], ◌∷◌, ◌++◌, append_assoc, append-nil, length, take, drop, replicate, ltb,
  if◌then◌else◌,
}
use aionetiface.Prelude.{length-append, length-replicate, take-append, drop-append}
use aionetiface.Bytes.{Bytes, ok, chars, u16, be16, byte_at}
use aionetiface.Bytes.Laws.{pack-written, byte_at-drop}
use aionetiface.Pcap.Eth.{eth_type_ipv4, eth_type_ipv6, dlt_null, dlt_en10mb, dlt_loop}
use aionetiface.Pcap.Eth.{
  build_eth_frame, parse_eth_frame, strip_link_layer, strip_ethernet, wrap_link_layer,
}
use aionetiface.Pcap.Eth.{
  strip_null, strip_loop, null_ethertype, loop_ethertype, wrap_null, wrap_loop,
}

-- The zero bytes that bring a frame to the minimum of 60 bytes.
abbrev pub padding : Bytes → Bytes
padding payload = replicate (46 - length payload) 0

abbrev pub frame_of : Bytes → Bytes → ℕ → Bytes → Bytes
frame_of dst src ethertype rest = dst ++ (src ++ (be16 ethertype ++ rest))

to_minimum :
    (frame payload : Bytes)
    → length frame ≡ 14 + length payload
    → (if ltb (length frame) 60 then frame ++ replicate (60 - length frame) 0 else frame)
      ≡ frame ++ padding payload
to_minimum frame payload len =
    let missing : 60 - length frame ≡ 46 - length payload = omega arith in
    if_cases (λ (r : Bytes). r ≡ frame ++ padding payload) (ltb (length frame) 60)
      (λ short. ap (λ (n : ℕ). frame ++ replicate n 0) missing)
      (λ full.
        let none_missing : 46 - length payload ≡ 0 = ground arith in rw (none_missing, append-nil))

module _ (dst src : Bytes) (d : length dst ≡ 6) (s : length src ≡ 6) where
  length-frame_of :
      (ethertype : ℕ) (rest : Bytes) → length (frame_of dst src ethertype rest) ≡ 14 + length rest
  length-frame_of ethertype rest = omega (
    arith,
    length-append dst (src ++ (be16 ethertype ++ rest)),
    length-append src (be16 ethertype ++ rest),
    d,
    s,
  )

  drop_macs :
      (ethertype : ℕ) (rest : Bytes)
      → drop 12 (frame_of dst src ethertype rest) ≡ be16 ethertype ++ rest
  drop_macs ethertype rest =
      ap (λ (bs : Bytes). drop 12 bs) (sym (append_assoc dst src (be16 ethertype ++ rest)))
      ∙ drop-append 12 (dst ++ src) (be16 ethertype ++ rest)
          (omega (arith, length-append dst src, d, s))

  drop_header : (ethertype : ℕ) (rest : Bytes) → drop 14 (frame_of dst src ethertype rest) ≡ rest
  drop_header ethertype rest =
      ap (λ (bs : Bytes). drop 14 bs)
        (sym (append_assoc dst src (be16 ethertype ++ rest))
          ∙ sym (append_assoc (dst ++ src) (be16 ethertype) rest))
      ∙ drop-append 14 ((dst ++ src) ++ be16 ethertype) rest
          (omega (arith, length-append (dst ++ src) (be16 ethertype), length-append dst src, d, s))

  pub parse-frame_of :
      (ethertype : ℕ) (rest : Bytes)
      → parse_eth_frame (frame_of dst src ethertype rest)
        ≡ ok record { dst_mac = dst; src_mac = src; ethertype = ethertype; payload = rest }
  unfolding parse_eth_frame
  parse-frame_of ethertype rest =
      let frame = frame_of dst src ethertype rest in
      let high =
        sym (byte_at-drop 12 0 frame)
        ∙ ap (λ (bs : Bytes). byte_at bs 0) (drop_macs ethertype rest) in
      let low =
        sym (byte_at-drop 12 1 frame)
        ∙ ap (λ (bs : Bytes). byte_at bs 1) (drop_macs ethertype rest) in
      let number : byte_at frame 12 * 256 + byte_at frame 13 ≡ ethertype =
        omega (arith, high, low) in
      let behind : drop 14 frame ≡ rest = drop_header ethertype rest in
      let front : take 6 frame ≡ dst = take-append 6 dst (src ++ (be16 ethertype ++ rest)) d in
      let middle : take 6 (drop 6 frame) ≡ src =
        rw (drop-append 6 dst (src ++ (be16 ethertype ++ rest)) d)
          (take-append 6 src (be16 ethertype ++ rest) s) in
      rw (ltb-eq_false (length frame) 14 (omega (arith, length-frame_of ethertype rest)))
        (rw (front, middle, number, behind))

  pub build-frame_of :
      (ethertype : ℕ) (payload : Bytes)
      → ethertype < 2 ^ 16
      → build_eth_frame dst src ethertype payload
        ≡ ok (frame_of dst src ethertype (payload ++ padding payload))
  unfolding build_eth_frame
  build-frame_of ethertype payload e =
      let head = dst ++ (src ++ (be16 ethertype ++ [])) in
      let whole : head ++ payload ≡ frame_of dst src ethertype payload = simp append_assoc refl in
      let split : frame_of dst src ethertype payload ++ padding payload
          ≡ frame_of dst src ethertype (payload ++ padding payload) =
        simp append_assoc refl in
      let filled =
        to_minimum (head ++ payload) payload
          (ap length whole ∙ length-frame_of ethertype payload) in
      rw (d, s)
        (rw (pack-written (chars 6 dst ∷ chars 6 src ∷ u16 ethertype ∷ []) (d, (s, (e, tt))))
          (ap ok (filled ∙ ap (λ (bs : Bytes). bs ++ padding payload) whole ∙ split)))

  -- A frame that `build_eth_frame` builds has at least 60 bytes, and `parse_eth_frame` reads back
  -- its two addresses, its type, and its payload with the zero bytes that fill the minimum. The
  -- addresses have six bytes and the type is below 2 ^ 16.
  pub parse-build_eth_frame :
      (ethertype : ℕ) (payload : Bytes)
      → ethertype < 2 ^ 16
      → (frame : Bytes) × (build_eth_frame dst src ethertype payload ≡ ok frame)
        × (60 ≤ length frame)
        × (parse_eth_frame frame
            ≡ ok record {
              dst_mac = dst;
              src_mac = src;
              ethertype = ethertype;
              payload = payload ++ padding payload;
            })
  parse-build_eth_frame ethertype payload e = (
    frame_of dst src ethertype (payload ++ padding payload),
    build-frame_of ethertype payload e,
    omega (
      arith,
      length-frame_of ethertype (payload ++ padding payload),
      length-append payload (padding payload),
      length-replicate {A = ℕ} (46 - length payload) 0,
    ),
    parse-frame_of ethertype (payload ++ padding payload),
  )

-- The kinds of links that carry packets, and their numbers.
pub data Link : Type 0 where
  ethernet null_link loop_link : Link

abbrev pub dlt_of : Link → ℕ
dlt_of ethernet = dlt_en10mb
dlt_of null_link = dlt_null
dlt_of loop_link = dlt_loop

abbrev pub ethertype_of : Bool → ℕ
ethertype_of true = eth_type_ipv6
ethertype_of false = eth_type_ipv4

-- What follows a packet that went through a link.
abbrev pub fill_of : Link → Bytes → Bytes
fill_of ethernet payload = padding payload
fill_of _ payload = []

-- `strip_link_layer` undoes `wrap_link_layer` on all three kinds of links, for IPv4 and IPv6: the
-- type and the packet come back, on Ethernet with the bytes that fill the minimum behind it. The
-- hardware addresses have six bytes.
pub strip-wrap_link_layer :
    (link : Link) (ipv6 : Bool) (dst src payload : Bytes)
    → length dst ≡ 6
    → length src ≡ 6
    → (frame : Bytes) × (wrap_link_layer (dlt_of link) (ethertype_of ipv6) dst src payload
        ≡ ok frame)
      × (strip_link_layer (dlt_of link) frame
          ≡ ok (ethertype_of ipv6, payload ++ fill_of link payload))
unfolding wrap_link_layer strip_link_layer strip_ethernet strip_null strip_loop null_ethertype
    loop_ethertype wrap_null wrap_loop
strip-wrap_link_layer ethernet ipv6 dst src payload d s =
    let fits : ethertype_of ipv6 < 2 ^ 16 = elim ipv6 as (λ k. ethertype_of k < 2 ^ 16) [
      | true ↦ omega arith
      | false ↦ omega arith
    ] in
    let rest = payload ++ padding payload in
    (
      frame_of dst src (ethertype_of ipv6) rest,
      build-frame_of dst src d s (ethertype_of ipv6) payload fits,
      rw (parse-frame_of dst src d s (ethertype_of ipv6) rest) refl,
    )
strip-wrap_link_layer null_link true dst src payload d s = (
  30 ∷ 0 ∷ 0 ∷ 0 ∷ payload,
  refl,
  rw (append-nil, ltb-eq_false (suc (suc (suc (suc (length payload))))) 4 (omega arith)) refl,
)
strip-wrap_link_layer null_link false dst src payload d s = (
  2 ∷ 0 ∷ 0 ∷ 0 ∷ payload,
  refl,
  rw (append-nil, ltb-eq_false (suc (suc (suc (suc (length payload))))) 4 (omega arith)) refl,
)
strip-wrap_link_layer loop_link true dst src payload d s = (
  0 ∷ 0 ∷ 0 ∷ 24 ∷ payload,
  refl,
  rw (append-nil, ltb-eq_false (suc (suc (suc (suc (length payload))))) 4 (omega arith)) refl,
)
strip-wrap_link_layer loop_link false dst src payload d s = (
  0 ∷ 0 ∷ 0 ∷ 2 ∷ payload,
  refl,
  rw (append-nil, ltb-eq_false (suc (suc (suc (suc (length payload))))) 4 (omega arith)) refl,
)
