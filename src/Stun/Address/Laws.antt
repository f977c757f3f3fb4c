-- ===== src/Stun/Address/Laws.antt =====
-- Attributes with an address, as RFC 8489 lays them out, and what `decode` and `encode` make of
-- them.
use aionetiface.Prelude.{ℕ, ◌/◌, ◌%◌, ◌^◌, ◌≤◌, ◌<◌, ◌≡◌, refl, ap, ◌∙◌, arith}
use aionetiface.Prelude.{[], ◌∷◌, ◌++◌, length, take_all, bit_xor}
use aionetiface.Prelude.{ltb-eq_false, ltb-eq_true, some, Option, ==_refl}
use aionetiface.Bytes.{Bytes, Result, ok, err, be16, u16, u16_at}
use aionetiface.Bytes.Laws.{pack-written}
use aionetiface.Utility.Buffers.{xor_bufs, map2, xor_bufs-map2, map2-bit_xor_twice, length-map2}
use aionetiface.Stun.Address.{Family, ip4, ip6, Addr, StunAddrTup, stun_addr_tup, unpack, encode}
use aionetiface.Stun.Address.{stun_magic_cookie, xor_mapped_address, xor_mapped_address_x}
use aionetiface.Stun.Address.{
  tup_of, unmask_both, encoded, filled_inst, get_attr_family, get_family_buf, get_addr_bufs, ip_len,
  decode,
}

-- The attribute of RFC 8489, 14.1 and 14.2: the family, the port and the address, where the
-- masked form has the port masked with the first half of the cookie, and the address with the
-- cookie and the transaction's number.
abbrev pub clear_attribute : Family → Bytes → ℕ → Bytes
clear_attribute f host number = get_family_buf f ++ (be16 number ++ host)

abbrev pub masked_attribute : Family → Bytes → ℕ → Bytes → Bytes
masked_attribute f host number txn =
    get_family_buf f
    ++ (map2 bit_xor (be16 number) stun_magic_cookie
        ++ map2 bit_xor host (stun_magic_cookie ++ txn))

abbrev pub addr_of : Family → Bytes → ℕ → Addr
addr_of f host number = record { fam = f; ip_bytes = host; port_number = number }

-- Cutting an attribute of the right length.
cut_parts :
    (f : Family) (p q : ℕ) (host : Bytes)
    → length host ≡ ip_len f
    → get_addr_bufs f (some (get_family_buf f ++ p ∷ q ∷ host)) ≡ ok (host, p ∷ q ∷ [])
unfolding get_addr_bufs
cut_parts ip4 p q host h =
    rw (ltb-eq_false (length (0 ∷ 1 ∷ p ∷ q ∷ host)) 8 (omega arith), take_all 4 host (omega arith))
      refl
cut_parts ip6 p q host h =
    rw
      (
        ltb-eq_false (length (0 ∷ 2 ∷ p ∷ q ∷ host)) 20 (omega arith),
        take_all 16 host (omega arith),
      )
      refl

-- Taking a mask away again.
unmask :
    (part mask : Bytes)
    → 1 ≤ length part
    → length part ≤ length mask
    → xor_bufs (map2 bit_xor part mask) mask ≡ ok part
unmask part mask h k =
    xor_bufs-map2 (map2 bit_xor part mask) mask (omega (arith, length-map2 bit_xor part mask))
      (omega arith)
    ∙ ap ok (map2-bit_xor_twice part mask k)

family_read :
    (f : Family) (p q : ℕ) (host : Bytes)
    → get_attr_family (some (get_family_buf f ++ p ∷ q ∷ host)) ≡ f
unfolding get_attr_family
family_read ip4 p q host = refl
family_read ip6 p q host = refl

-- A mask of the cookie and a transaction is long enough for every address.
mask_covers :
    (f : Family) (host txn : Bytes)
    → length host ≡ ip_len f
    → length txn ≡ 12
    → (1 ≤ length host)
      × (length host ≤ length (stun_magic_cookie ++ txn))
      × (length (map2 bit_xor host (stun_magic_cookie ++ txn)) ≡ ip_len f)
mask_covers ip4 host txn h k =
    (omega arith, omega arith, omega (arith, length-map2 bit_xor host (stun_magic_cookie ++ txn)))
mask_covers ip6 host txn h k =
    (omega arith, omega arith, omega (arith, length-map2 bit_xor host (stun_magic_cookie ++ txn)))

whole_unmasked :
    (f : Family) (host : Bytes) (number : ℕ) (txn : Bytes)
    → length host ≡ ip_len f
    → length txn ≡ 12
    → xor_bufs (masked_attribute f host number txn) (0 ∷ 0 ∷ 0x21 ∷ 0x12 ∷ stun_magic_cookie ++ txn)
      ≡ ok (clear_attribute f host number)
whole_unmasked ip4 host number txn h k =
    unmask (clear_attribute ip4 host number) (0 ∷ 0 ∷ 0x21 ∷ 0x12 ∷ stun_magic_cookie ++ txn)
      (omega arith) (omega arith)
whole_unmasked ip6 host number txn h k =
    unmask (clear_attribute ip6 host number) (0 ∷ 0 ∷ 0x21 ∷ 0x12 ∷ stun_magic_cookie ++ txn)
      (omega arith) (omega arith)

-- The parts of a masked attribute, each unmasked from the start of the mask.
parts_unmasked :
    (f : Family) (host : Bytes) (number : ℕ) (txn : Bytes)
    → length host ≡ ip_len f
    → length txn ≡ 12
    → (xor_bufs (map2 bit_xor (be16 number) stun_magic_cookie) (stun_magic_cookie ++ txn)
        ≡ ok (be16 number))
      × (xor_bufs (map2 bit_xor host (stun_magic_cookie ++ txn)) (stun_magic_cookie ++ txn)
          ≡ ok host)
parts_unmasked f host number txn h k =
    let (some_host, long_mask, _) = mask_covers f host txn h k in
    (
      unmask (be16 number) (stun_magic_cookie ++ txn) (omega arith) (omega arith),
      unmask host (stun_magic_cookie ++ txn) some_host long_mask,
    )

port_read : (number : ℕ) → u16_at (be16 number) 0 ≡ number
port_read number = omega arith

-- The address that is decoded, once the attribute is cut.
unpack_cut :
    (af f : Family) (txn : Bytes) (code : ℕ) (attr_data : Option Bytes) (bufs : Bytes × Bytes)
    → get_attr_family attr_data ≡ f
    → get_addr_bufs f attr_data ≡ ok bufs
    → tup_of (unpack (stun_addr_tup [] 0 af txn stun_magic_cookie) code attr_data)
      ≡ tup_of (
          filled_inst
            (unmask_both (stun_addr_tup [] 0 af txn stun_magic_cookie) code f attr_data bufs))
unfolding unpack decode
unpack_cut af f txn code attr_data bufs h k = rw (h, k)

-- Decoding the masked attribute of an address gives the address back, with the code of RFC 8489
-- and with the older one, whatever family the caller expected. The address has the length of its
-- family and the transaction twelve bytes.
pub unpack-masked_attribute :
    (f af : Family) (host : Bytes) (number : ℕ) (txn : Bytes)
    → length host ≡ ip_len f
    → length txn ≡ 12
    → (tup_of (
          unpack
            (stun_addr_tup [] 0 af txn stun_magic_cookie)
            xor_mapped_address
            (some (masked_attribute f host number txn)))
        ≡ ok (some (addr_of f host number)))
      × (tup_of (
            unpack
              (stun_addr_tup [] 0 af txn stun_magic_cookie)
              xor_mapped_address_x
              (some (masked_attribute f host number txn)))
          ≡ ok (some (addr_of f host number)))
unfolding unmask_both
unpack-masked_attribute f af host number txn h k =
    let (p, q) : ℕ × ℕ = (bit_xor (number / 256) 0x21, bit_xor (number % 256) 0x12) in
    let hidden = map2 bit_xor host (stun_magic_cookie ++ txn) in
    let attr_data = some (masked_attribute f host number txn) in
    let (_, _, same) = mask_covers f host txn h k in
    let cut = cut_parts f p q hidden same in
    let (port_clear, host_clear) = parts_unmasked f host number txn h k in
    let clear_cut = cut_parts f (number / 256) (number % 256) host h in
    (
      unpack_cut af f txn xor_mapped_address attr_data (hidden, p ∷ q ∷ [])
            (family_read f p q hidden) cut
          ∙ rw (
            ltb-eq_true 0 (length txn) (omega arith),
            whole_unmasked f host number txn h k,
            clear_cut,
            port_read number,
          ),
      unpack_cut af f txn xor_mapped_address_x attr_data (hidden, p ∷ q ∷ [])
            (family_read f p q hidden) cut
          ∙ rw (port_clear, host_clear, port_read number),
    )

-- The bytes that `encode` returns.
abbrev pub sent : Result (Option Bytes × StunAddrTup) → Result (Option Bytes)
sent (ok (buf, self)) = ok buf
sent (err e) = err e

whole_masked :
    (f : Family) (host : Bytes) (number : ℕ) (txn : Bytes)
    → length host ≡ ip_len f
    → length txn ≡ 12
    → xor_bufs (clear_attribute f host number) (0 ∷ 0 ∷ 0x21 ∷ 0x12 ∷ stun_magic_cookie ++ txn)
      ≡ ok (masked_attribute f host number txn)
whole_masked ip4 host number txn h k =
    xor_bufs-map2 (clear_attribute ip4 host number) (0 ∷ 0 ∷ 0x21 ∷ 0x12 ∷ stun_magic_cookie ++ txn)
      (omega arith) (omega arith)
whole_masked ip6 host number txn h k =
    xor_bufs-map2 (clear_attribute ip6 host number) (0 ∷ 0 ∷ 0x21 ∷ 0x12 ∷ stun_magic_cookie ++ txn)
      (omega arith) (omega arith)

encode_cut :
    (f : Family) (host : Bytes) (number : ℕ) (cookie txn : Bytes) (code : ℕ)
    → length host ≡ ip_len f
    → number < 2 ^ 16
    → encode (stun_addr_tup host number f txn cookie) code
      ≡ encoded (
          unmask_both
            (stun_addr_tup host number f txn cookie)
            code
            f
            (some (clear_attribute f host number))
            (host, be16 number))
unfolding encode decode
encode_cut f host number cookie txn code h k = rw (
  h,
  ==_refl (ip_len f),
  pack-written (u16 number ∷ []) (k, tt),
  family_read f (number / 256) (number % 256) host,
  cut_parts f (number / 256) (number % 256) host h,
)

-- With the code of RFC 8489 the mask is laid over the whole attribute.
encode-masked_attribute :
    (f : Family) (host : Bytes) (number : ℕ) (txn : Bytes)
    → length host ≡ ip_len f
    → length txn ≡ 12
    → number < 2 ^ 16
    → sent (encode (stun_addr_tup host number f txn stun_magic_cookie) xor_mapped_address)
      ≡ ok (some (masked_attribute f host number txn))
unfolding unmask_both
encode-masked_attribute f host number txn h k l =
    let (p, q) : ℕ × ℕ = (bit_xor (number / 256) 0x21, bit_xor (number % 256) 0x12) in
    let hidden = map2 bit_xor host (stun_magic_cookie ++ txn) in
    let (_, _, same) = mask_covers f host txn h k in
    ap sent (encode_cut f host number stun_magic_cookie txn xor_mapped_address h l)
    ∙ rw (
      ltb-eq_true 0 (length txn) (omega arith),
      whole_masked f host number txn h k,
      cut_parts f p q hidden same,
    )

-- With the older code the masked buffers are dropped.
encode_unmasked :
    (f : Family) (host : Bytes) (number : ℕ) (txn : Bytes)
    → length host ≡ ip_len f
    → length txn ≡ 12
    → number < 2 ^ 16
    → sent (encode (stun_addr_tup host number f txn stun_magic_cookie) xor_mapped_address_x)
      ≡ ok (some (clear_attribute f host number))
unfolding unmask_both
encode_unmasked f host number txn h k l =
    ap sent (encode_cut f host number stun_magic_cookie txn xor_mapped_address_x h l)
    ∙ rw (
      xor_bufs-map2 (be16 number) (stun_magic_cookie ++ txn) (omega arith) (omega arith),
      xor_bufs-map2 host (stun_magic_cookie ++ txn) (mask_covers f host txn h k).0 (omega arith),
    )

-- `encode` writes the masked attribute of RFC 8489 under its code. Under the older code, which
-- `unpack` unmasks too, it writes the address unmasked. The instance has the cookie of the RFC, the
-- address has the length of its family, the transaction twelve bytes and the port fits its field.
pub encode_by_code :
    (f : Family) (host : Bytes) (number : ℕ) (txn : Bytes)
    → length host ≡ ip_len f
    → length txn ≡ 12
    → number < 2 ^ 16
    → (sent (encode (stun_addr_tup host number f txn stun_magic_cookie) xor_mapped_address)
        ≡ ok (some (masked_attribute f host number txn)))
      × (sent (encode (stun_addr_tup host number f txn stun_magic_cookie) xor_mapped_address_x)
          ≡ ok (some (clear_attribute f host number)))
encode_by_code f host number txn h k l =
    (encode-masked_attribute f host number txn h k l, encode_unmasked f host number txn h k l)
