-- ===== src/Stun/Message/Writing.antt =====
-- Messages that are written attribute by attribute, packed, and decoded again.
use aionetiface.Prelude.{ℕ, ◌+◌, ◌-◌, ◌/◌, ◌%◌, ◌^◌, ◌≤◌, ◌<◌, ◌≡◌}
use aionetiface.Prelude.{arith, List, [], ◌∷◌, ◌++◌, length, some}
use aionetiface.Prelude.{
  length-append, take-append, drop-append, take_all, drop_all, drop-add, append_assoc,
}
use aionetiface.Prelude.{append-nil, leb-eq_true, ==-eq_false}
use aionetiface.Bytes.{Bytes, be16, u16, ok}
use aionetiface.Bytes.Laws.{pack-written}
use aionetiface.Stun.Message.{StunMsg, AttrData, raw, write_attr, write_attrs, pack_msg, decode}
use aionetiface.Stun.Message.{wire_type}
use aionetiface.Stun.Message.Reading.{attr_wire, slice_after, number_read}

-- Attributes as they are handed to `write_attr`: codes with their bytes.
abbrev pub Attrs : Type 0
Attrs = List (ℕ × Bytes)

abbrev pub attrs_wire : Attrs → Bytes
attrs_wire [] = []
attrs_wire ((code, bytes) ∷ attrs) = attr_wire code bytes ++ attrs_wire attrs

abbrev pub raw_all : Attrs → List (ℕ × AttrData)
raw_all [] = []
raw_all ((code, bytes) ∷ attrs) = (code, raw bytes) ∷ raw_all attrs

-- Codes and lengths that fit their fields.
abbrev pub AttrsFit : Attrs → Type 0
AttrsFit [] = Unit {0}
AttrsFit ((code, bytes) ∷ attrs) = ((code < 2 ^ 16) × (length bytes < 2 ^ 16)) × AttrsFit attrs

abbrev pub with_wire : StunMsg → Bytes → StunMsg
with_wire m buf = record m { msg_len = m.msg_len + length buf; msg = m.msg ++ buf }

pub write_attr-raw :
    (m : StunMsg) (code : ℕ) (bytes : Bytes)
    → code < 2 ^ 16
    → length bytes < 2 ^ 16
    → write_attr m code (raw bytes) ≡ ok (with_wire m (attr_wire code bytes))
unfolding write_attr
write_attr-raw m code bytes h k =
    rw (pack-written (u16 code ∷ u16 (length bytes) ∷ []) (h, (k, tt)))

with_wire-append :
    (m : StunMsg) (front back : Bytes)
    → with_wire (with_wire m front) back ≡ with_wire m (front ++ back)
with_wire-append m front back =
    let sum : m.msg_len + length front + length back ≡ m.msg_len + length (front ++ back) =
      omega (arith, length-append front back) in
    rw (sum, append_assoc m.msg front back)

pub write_attrs-raw :
    (m : StunMsg) (attrs : Attrs)
    → AttrsFit attrs
    → write_attrs m (raw_all attrs) ≡ ok (with_wire m (attrs_wire attrs))
unfolding write_attrs
write_attrs-raw m [] fit = let sum : m.msg_len + 0 ≡ m.msg_len = omega arith in rw (sum, append-nil)
write_attrs-raw m ((code, bytes) ∷ attrs) ((small, short), fit) = rw (
  write_attr-raw m code bytes small short,
  write_attrs-raw (with_wire m (attr_wire code bytes)) attrs fit,
  with_wire-append m (attr_wire code bytes) (attrs_wire attrs),
)

pub pack_msg-written :
    (m : StunMsg) (len : ℕ)
    → m.msg_len ≡ len
    → len < 2 ^ 16
    → pack_msg m ≡ ok (wire_type m ++ (be16 len ++ (m.magic_cookie ++ (m.txn_id ++ m.msg))))
unfolding pack_msg
pack_msg-written m len e h = rw (e, pack-written (u16 len ∷ []) (h, tt))

-- A message is decoded into its header and its body.
pub decode-wire :
    (m : StunMsg) (t u k l v w : ℕ) (txn body : Bytes)
    → length txn ≡ 12
    → 1 ≤ length body
    → decode m (t ∷ u ∷ be16 (length body) ++ (k ∷ l ∷ v ∷ w ∷ txn ++ body))
      ≡ ok (
        record m {
          msg_type = t ∷ u ∷ [];
          msg_len = length body;
          magic_cookie = k ∷ l ∷ v ∷ w ∷ [];
          txn_id = txn;
          attr_cursor = 0;
          msg = body;
        },
        some [],
      )
unfolding decode
decode-wire m t u k l v w txn body full some_body =
    let n = length body in
    let behind : Bytes = txn ++ body in
    let buf : Bytes = t ∷ u ∷ n / 256 ∷ n % 256 ∷ k ∷ l ∷ v ∷ w ∷ behind in
    let size = length-append txn body in
    rw (
      leb-eq_true 20 (length buf) (omega (arith, size)),
      number_read n,
      ==-eq_false n 0 (λ e. absurd (omega arith)),
      leb-eq_true (20 + (n - 1)) (length buf - 1) (omega (arith, size)),
      slice_after 20 n buf,
      drop-add 20 n buf,
      take-append 12 txn body full,
      drop-append 12 txn body full,
      take_all n body (omega arith),
      drop_all n body (omega arith),
    )
