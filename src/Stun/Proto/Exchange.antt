-- ===== src/Stun/Proto/Exchange.antt =====
-- A message that one end writes and packs, and `stun_proto` on the other end.
use aionetiface.Prelude.{ℕ, ◌^◌, ◌≤◌, ◌<◌, ◌≡◌, refl, ap, ◌∙◌, arith}
use aionetiface.Prelude.{[], ◌∷◌, ◌++◌, length, bit_and, bit_or, some}
use aionetiface.Bytes.{Bytes, be16, ok, ◌>>=◌}
use aionetiface.Utility.Buffers.{b_and, b_or}
use aionetiface.Stun.Address.{Family}
use aionetiface.Stun.Message.{StunMsg, Mode, rfc3489, rfc5389, rfc8489, stun_msg, binding, request}
use aionetiface.Stun.Message.{write_attrs, pack_msg, wire_type, cookie_of, unpack}
use aionetiface.Stun.Message.Writing.{
  Attrs, attrs_wire, raw_all, AttrsFit, with_wire, write_attrs-raw, pack_msg-written, decode-wire,
}
use aionetiface.Stun.Proto.{stun_proto, with_rest}
use aionetiface.Stun.Proto.Loop.{read_all, proto_loop-read_all}

-- The message as it is sent, and as the other end has it before the loop.
abbrev pub written_msg : Bytes → Bytes → Bytes → Mode → Attrs → StunMsg
written_msg txn type code version attrs =
    with_wire (stun_msg txn type code version) (attrs_wire attrs)

abbrev pub received_msg : Bytes → Family → StunMsg → StunMsg
received_msg fresh family sent = record (stun_msg fresh binding request rfc3489) {
  msg_type = wire_type sent;
  msg_len = length sent.msg;
  txn_id = sent.txn_id;
  msg = sent.msg;
  magic_cookie = sent.magic_cookie;
  af = some family;
}

stun_proto-wire :
    (rounds : ℕ) (fresh : Bytes) (family : Family) (sent : StunMsg) (attrs : Attrs)
    (t u k l v w : ℕ)
    → wire_type sent ≡ t ∷ u ∷ []
    → sent.magic_cookie ≡ k ∷ l ∷ v ∷ w ∷ []
    → length sent.txn_id ≡ 12
    → sent.msg ≡ attrs_wire attrs
    → 1 ≤ length sent.msg
    → length attrs ≤ rounds
    → stun_proto rounds fresh
        (wire_type sent
          ++ (be16 (length sent.msg) ++ (sent.magic_cookie ++ (sent.txn_id ++ sent.msg))))
        family
      ≡ some (with_rest (read_all family attrs (received_msg fresh family sent)) (some []))
unfolding stun_proto unpack
stun_proto-wire rounds fresh family sent attrs t u k l v w kind cookie full body more enough =
    let received = record (received_msg fresh family sent) {
      msg_type = t ∷ u ∷ [];
      magic_cookie = k ∷ l ∷ v ∷ w ∷ [];
    } in
    rw (
      kind,
      cookie,
      decode-wire (stun_msg fresh binding request rfc3489) t u k l v w sent.txn_id sent.msg full
          more,
      proto_loop-read_all rounds family attrs received enough refl body,
    )

cookie_parts :
    (version : Mode)
    → (k : ℕ) × (l : ℕ) × (v : ℕ) × (w : ℕ) × (cookie_of version ≡ k ∷ l ∷ v ∷ w ∷ [])
cookie_parts rfc3489 = (0x31, 0x32, 0x33, 0x34, refl)
cookie_parts rfc5389 = (0x21, 0x12, 0xa4, 0x42, refl)
cookie_parts rfc8489 = (0x21, 0x12, 0xa4, 0x42, refl)

type_parts :
    (version : Mode) (txn : Bytes) (t u c d : ℕ) (attrs : Attrs)
    → (x : ℕ) × (y : ℕ) × (wire_type (written_msg txn (t ∷ u ∷ []) (c ∷ d ∷ []) version attrs)
        ≡ x ∷ y ∷ [])
unfolding b_and b_or
type_parts rfc3489 txn t u c d attrs = (t, u, refl)
type_parts rfc5389 txn t u c d attrs = (bit_and (bit_or t c) 0x3f, bit_and (bit_or u d) 0xff, refl)
type_parts rfc8489 txn t u c d attrs = (bit_and (bit_or t c) 0x3f, bit_and (bit_or u d) 0xff, refl)

some_wire : (attrs : Attrs) → 1 ≤ length attrs → 1 ≤ length (attrs_wire attrs)
some_wire [] h = h
some_wire (a ∷ attrs) h = omega arith

-- A message of any attributes that is written and packed is unpacked by the other end, whose
-- loop goes through the attributes in order, on as many rounds as there are attributes or more.
-- The transaction has twelve bytes, the type and the class two, every code and length fits its
-- field, and there is an attribute.
pub stun_proto-pack_msg :
    (rounds : ℕ) (fresh txn : Bytes) (family : Family) (version : Mode) (t u c d : ℕ)
    (attrs : Attrs)
    → length txn ≡ 12
    → AttrsFit attrs
    → length (attrs_wire attrs) < 2 ^ 16
    → 1 ≤ length attrs
    → length attrs ≤ rounds
    → (buf : Bytes) × ((write_attrs (stun_msg txn (t ∷ u ∷ []) (c ∷ d ∷ []) version) (raw_all attrs)
          >>= pack_msg)
        ≡ ok buf)
      × (stun_proto rounds fresh buf family
          ≡ some (
              with_rest
                (read_all family attrs (
                  received_msg fresh family
                    (written_msg txn (t ∷ u ∷ []) (c ∷ d ∷ []) version attrs)))
                (some [])))
stun_proto-pack_msg rounds fresh txn family version t u c d attrs full fit short more enough =
    let empty = stun_msg txn (t ∷ u ∷ []) (c ∷ d ∷ []) version in
    let sent = written_msg txn (t ∷ u ∷ []) (c ∷ d ∷ []) version attrs in
    let body : Bytes = attrs_wire attrs in
    let (k, l, v, w, cookie) = cookie_parts version in
    let (x, y, kind) = type_parts version txn t u c d attrs in
    (
      wire_type sent ++ (be16 (length body) ++ (sent.magic_cookie ++ (sent.txn_id ++ sent.msg))),
      ap (λ r. r >>= pack_msg) (write_attrs-raw empty attrs fit)
          ∙ pack_msg-written sent (length body) (omega arith) short,
      stun_proto-wire rounds fresh family sent attrs x y k l v w kind cookie full refl
          (some_wire attrs more) enough,
    )
