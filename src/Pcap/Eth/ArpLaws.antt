-- ===== src/Pcap/Eth/ArpLaws.antt =====
-- ARP packets of net/pcap/ip/eth.py, built, read back and learnt from.
use aionetiface.Prelude.{ℕ, ◌+◌, ◌*◌, ◌/◌, ◌%◌, ◌≤◌, ◌≡◌, refl, ap, sym, ◌∙◌, arith, ltb-eq_false}
use aionetiface.Prelude.{
  if_both, Bool, true, false, some, [], ◌∷◌, ◌++◌, append_assoc, length, take, drop,
}
use aionetiface.Prelude.{length-append, take-append, drop-append}
use aionetiface.Bytes.{Bytes, Result, ok, pack, ◌>>=◌}
use aionetiface.Bytes.Laws.{pack-written, all_written}
use aionetiface.Pcap.Eth.{eth_type_arp, dlt_en10mb, strip_link_layer, strip_ethernet}
use aionetiface.Pcap.Eth.{
  ip_to_bytes4, build_eth_frame, arp_fields, build_arp_reply, parse_arp, arp_op_reply,
}
use aionetiface.Pcap.Eth.Laws.{frame_of, padding, build-frame_of, parse-frame_of}
use aionetiface.Pcap.Eth.Cache.{ArpCache, put, get, is_unicast, learn, learn_parsed, feed_arp}
use aionetiface.Pcap.Eth.CacheLaws.{get-put_fresh, get-put_other}
use Prim.Native.String.{String}
use text.Mathlib.Text.{◌==◌ as str_eq}

-- An ARP packet with the fields of `arp_fields`.
abbrev pub arp_of : ℕ → Bytes → Bytes → Bytes → Bytes → Bytes
arp_of op smac sip tmac tip = all_written (arp_fields op smac sip tmac tip)

four_bytes : (addr : Bytes) → length addr ≡ 4 → ip_to_bytes4 addr ≡ ok addr
four_bytes addr h = rw h

module _ (smac sip tmac tip : Bytes) (sm : length smac ≡ 6) (si : length sip ≡ 4)
    (tm : length tmac ≡ 6) (ti : length tip ≡ 4) where
  -- The four addresses, cut out of what follows the operation.
  sip_place : (rest : Bytes) → take 4 (drop 6 (smac ++ (sip ++ rest))) ≡ sip
  sip_place rest = rw (drop-append 6 smac (sip ++ rest) sm) (take-append 4 sip rest si)

  tmac_place : (rest : Bytes) → take 6 (drop 10 (smac ++ (sip ++ (tmac ++ rest)))) ≡ tmac
  tmac_place rest =
      let before : length (smac ++ sip) ≡ 10 = omega (arith, length-append smac sip, sm, si) in
      ap (λ (bs : Bytes). take 6 (drop 10 bs)) (sym (append_assoc smac sip (tmac ++ rest)))
      ∙ rw (drop-append 10 (smac ++ sip) (tmac ++ rest) before) (take-append 6 tmac rest tm)

  tip_place : (rest : Bytes) → take 4 (drop 16 (smac ++ (sip ++ (tmac ++ (tip ++ rest))))) ≡ tip
  tip_place rest =
      let before : length ((smac ++ sip) ++ tmac) ≡ 16 =
        omega (arith, length-append (smac ++ sip) tmac, length-append smac sip, sm, si, tm) in
      ap (λ (bs : Bytes). take 4 (drop 16 bs))
        (sym (append_assoc smac sip (tmac ++ (tip ++ rest)))
          ∙ sym (append_assoc (smac ++ sip) tmac (tip ++ rest)))
      ∙ rw (drop-append 16 ((smac ++ sip) ++ tmac) (tip ++ rest) before) (take-append 4 tip rest ti)

  length-addresses :
      (rest : Bytes) → length (smac ++ (sip ++ (tmac ++ (tip ++ rest)))) ≡ 20 + length rest
  length-addresses rest = omega (
    arith,
    length-append smac (sip ++ (tmac ++ (tip ++ rest))),
    length-append sip (tmac ++ (tip ++ rest)),
    length-append tmac (tip ++ rest),
    length-append tip rest,
    sm,
    si,
    tm,
    ti,
  )

  pub parse-arp_of :
      (op : ℕ) (rest : Bytes)
      → parse_arp (arp_of op smac sip tmac tip ++ rest)
        ≡ some record { op = op; smac = smac; sip = sip; tmac = tmac; tip = tip }
  unfolding parse_arp
  parse-arp_of op rest =
      let places : (smac ++ (sip ++ (tmac ++ (tip ++ [])))) ++ rest
          ≡ smac ++ (sip ++ (tmac ++ (tip ++ rest))) =
        simp append_assoc refl in
      let whole = smac ++ (sip ++ (tmac ++ (tip ++ rest))) in
      let number : op / 256 * 256 + op % 256 ≡ op = omega arith in
      rw places (
        rw
          (ltb-eq_false (length (0 ∷ 1 ∷ 8 ∷ 0 ∷ 6 ∷ 4 ∷ op / 256 ∷ op % 256 ∷ whole)) 28
            (omega (arith, length-addresses rest)))
          (rw
            (
              number,
              take-append 6 smac (sip ++ (tmac ++ (tip ++ rest))) sm,
              sip_place (tmac ++ (tip ++ rest)),
              tmac_place (tip ++ rest),
              tip_place rest,
            )
            refl))

  abbrev packed : Bytes → Bytes → Result Bytes
  packed from to = pack (arp_fields arp_op_reply smac from tmac to) >>= λ arp.
      build_eth_frame tmac smac eth_type_arp arp

  build_arp_reply-frame_of :
      build_arp_reply smac sip tmac tip
      ≡ ok (
          frame_of tmac smac eth_type_arp (
            arp_of arp_op_reply smac sip tmac tip
            ++ padding (arp_of arp_op_reply smac sip tmac tip)))
  unfolding build_arp_reply
  build_arp_reply-frame_of =
      ap (λ (read : Result Bytes). read >>= λ from. ip_to_bytes4 tip >>= λ to. packed from to)
        (four_bytes sip si)
      ∙ ap (λ (read : Result Bytes). read >>= λ to. packed sip to) (four_bytes tip ti)
      ∙ rw (pack-written (arp_fields arp_op_reply smac sip tmac tip) (omega arith)) (
          build-frame_of tmac smac tm sm eth_type_arp (arp_of arp_op_reply smac sip tmac tip)
            (omega arith))

  -- An ARP reply is understood: the frame of `build_arp_reply` is an ARP frame, and `feed_arp`
  -- accepts its payload and learns the sender, so that up to the end of its time `get` gives the
  -- sender's hardware address for its IP address. The sender's address is neither zero nor
  -- broadcast, and its IP address has another text than the target's.
  pub get-feed_arp :
      (inet_ntoa : Bytes → String) (cache : ArpCache) (now later : ℕ)
      → is_unicast smac ≡ true
      → str_eq (inet_ntoa sip) (inet_ntoa tip) ≡ false
      → later ≤ now + cache.ttl
      → (frame : Bytes) × (payload : Bytes) × (build_arp_reply smac sip tmac tip ≡ ok frame)
        × (strip_link_layer dlt_en10mb frame ≡ ok (eth_type_arp, payload))
        × ((feed_arp inet_ntoa cache now payload).1 ≡ true)
        × ((get (feed_arp inet_ntoa cache now payload).0 later (inet_ntoa sip)).0 ≡ some smac)
  unfolding strip_link_layer strip_ethernet feed_arp learn
  get-feed_arp inet_ntoa cache now later unicast other fresh =
      let arp = arp_of arp_op_reply smac sip tmac tip in
      let payload = arp ++ padding arp in
      let sender = put cache now (inet_ntoa sip) smac in
      let fed = ap (learn_parsed inet_ntoa cache now) (parse-arp_of arp_op_reply (padding arp)) in
      (
        frame_of tmac smac eth_type_arp payload,
        payload,
        build_arp_reply-frame_of,
        rw (parse-frame_of tmac smac tm sm eth_type_arp payload) refl,
        ap (λ (r : ArpCache × Bool). r.1) fed,
        ap (λ (r : ArpCache × Bool). (get r.0 later (inet_ntoa sip)).0) fed
            ∙ rw unicast (
                if_both (λ (c : ArpCache). (get c later (inet_ntoa sip)).0 ≡ some smac)
                  (is_unicast tmac)
                  (get-put_other sender now later (inet_ntoa tip) (inet_ntoa sip) tmac other
                    ∙ get-put_fresh cache now later (inet_ntoa sip) smac fresh)
                  (get-put_fresh cache now later (inet_ntoa sip) smac fresh)),
      )
