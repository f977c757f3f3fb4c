-- ===== src/Stun/Message.antt =====
-- The class `STUNMsg` of aionetiface/protocol/stun/stun_defs.py. The random transaction number
-- and the digest HMAC-SHA1 of the standard library are arguments.
pub mod Reading
pub mod Writing
pub mod Integrity
use aionetiface.Prelude.{ℕ, ◌+◌, ◌-◌, ◌*◌, ◌%◌, Bool, true, false, Option, none, some, bit_and}
use aionetiface.Prelude.{
  List, [], ◌∷◌, ◌++◌, length, replicate, drop, ltb, leb, ◌==◌, if◌then◌else◌,
}
use aionetiface.Bytes.{Bytes, Field, u8, u16, Result, ok, err, ◌>>=◌, plain_exception, type_error}
use aionetiface.Bytes.{pack, slice, u16_at}
use aionetiface.Utility.Buffers.{b_and, b_or}
use aionetiface.Stun.Address.{
  Family, Addr, StunAddrTup, encode, xor_mapped_address, username, realm,
}
use aionetiface.Stun.Address.{nonce, message_integrity, transaction_transmit_counter}
use aionetiface.Stun.Address.{stun_magic_cookie}

pub data Mode : Type 0 where
  rfc3489 rfc5389 rfc8489 : Mode

-- Two of the message types and codes of `STUNMsgTypes` and `STUNMsgCodes`.
abbrev pub binding : Bytes
binding = 0 ∷ 1 ∷ []

abbrev pub request : Bytes
request = 0 ∷ 0 ∷ []

-- `rtup` and `ctup` are `none` as long as the object has no such attribute.
pub record StunMsg : Type 0 where
  pub msg_code : Bytes
  pub msg_type : Bytes
  pub msg_len : ℕ
  pub txn_id : Bytes
  pub msg : Bytes
  pub attr_cursor : ℕ
  pub mode : Mode
  pub magic_cookie : Bytes
  pub af : Option Family
  pub rtup : Option Addr
  pub ctup : Option Addr

abbrev pub cookie_of : Mode → Bytes
cookie_of rfc3489 = 0x31 ∷ 0x32 ∷ 0x33 ∷ 0x34 ∷ []
cookie_of rfc5389 = stun_magic_cookie
cookie_of rfc8489 = stun_magic_cookie

-- `STUNMsg(...)`, where `rand_b(12)` gave `fresh`.
abbrev pub stun_msg : Bytes → Bytes → Bytes → Mode → StunMsg
stun_msg fresh type code version = record {
  msg_code = code;
  msg_type = type;
  msg_len = 0;
  txn_id = fresh;
  msg = [];
  attr_cursor = 0;
  mode = version;
  magic_cookie = cookie_of version;
  af = none;
  rtup = none;
  ctup = none;
}

pub reset_attr : StunMsg → StunMsg
reset_attr self = record self { msg_len = 0; msg = [] }

-- The data of `write_attr`: bytes, an address, or a format with its values.
pub data AttrData : Type 0 where
  raw : Bytes → AttrData
  address : StunAddrTup → AttrData
  formatted : List Field → AttrData

abbrev first_bytes : Result (Option Bytes × StunAddrTup) → Result Bytes
first_bytes (ok (some buf, self)) = ok buf
first_bytes (ok (none, self)) = err type_error
first_bytes (err e) = err e

abbrev attr_bytes : AttrData → Result Bytes
attr_bytes (raw bytes) = ok bytes
attr_bytes (address tup) = first_bytes (encode tup xor_mapped_address)
attr_bytes (formatted fields) = pack fields

-- The filling up to a multiple of four.
abbrev pub pad_len : ℕ → ℕ
pad_len n = if n % 4 == 0 then 0 else 4 - n % 4

pub write_attr : StunMsg → ℕ → AttrData → Result StunMsg
write_attr self attr attr_data = do
  bytes ← attr_bytes attr_data
  head ← pack (u16 attr ∷ u16 (length bytes) ∷ [])
  let buf = head ++ (bytes ++ replicate (pad_len (length bytes)) 0)
  ok (record self { msg_len = self.msg_len + length buf; msg = self.msg ++ buf })

pub write_credential : StunMsg → Bytes → Bytes → Bytes → Result StunMsg
write_credential self user domain once = do
  named ← write_attr self username (raw user)
  placed ← write_attr named realm (raw domain)
  write_attr placed nonce (raw once)

abbrev pub wire_type : StunMsg → Bytes
wire_type self = elim self.mode [
  | rfc3489 ↦ self.msg_type
  | _ ↦ b_and (b_or self.msg_type self.msg_code) (0x3f ∷ 0xff ∷ [])
]

unfoldable pub pack_msg : StunMsg → Result Bytes
pack_msg self = do
  len ← pack (u16 self.msg_len ∷ [])
  ok (wire_type self ++ (len ++ (self.magic_cookie ++ (self.txn_id ++ self.msg))))

-- The attributes that `get_stun_reply` is given, and the request that it makes of them.
unfoldable pub write_attrs : StunMsg → List (ℕ × AttrData) → Result StunMsg
write_attrs self [] = ok self
write_attrs self ((attr_code, attr_data) ∷ attrs) = do
  written ← write_attr self attr_code attr_data
  write_attrs written attrs

-- `write_hmac`: the length counts the attribute before the digest is taken.
pub write_hmac : (Bytes → Bytes → Bytes) → StunMsg → Bytes → Result StunMsg
write_hmac hmac_sha1 self key = do
  msg_hmac ← pack_msg (record self { msg_len = self.msg_len + 24 })
  write_attr self message_integrity (raw (hmac_sha1 key msg_hmac))

pub write_transaction_counter : StunMsg → ℕ → Result StunMsg
write_transaction_counter self req_count = do
  counter ← pack (u8 0 ∷ u8 (bit_and req_count 0xff) ∷ u8 0 ∷ u8 0 ∷ [])
  write_attr self transaction_transmit_counter (raw counter)

unfoldable pub build_request : Bytes → Mode → List (ℕ × AttrData) → Result StunMsg
build_request fresh version attrs = do
  written ← write_attrs (stun_msg fresh binding request version) attrs
  write_transaction_counter written 1

-- `msg_len - 1` stops at 0 here, where the cursor is past the end as well.
unfoldable pub eof : StunMsg → Bool
eof self = leb (self.msg_len - 1) self.attr_cursor

-- The code, the length and the data of an attribute, each of which may be `None`.
abbrev pub Attr : Type 0
Attr = Option ℕ × Option ℕ × Option Bytes

-- The data, from the cursor behind the header.
abbrev read_data : StunMsg → ℕ → ℕ → Result (Attr × StunMsg)
read_data self attr len =
    if leb (self.attr_cursor + (len - 1)) (length self.msg - 1)
    then ok (
      (some attr, some len, some (slice self.attr_cursor (self.attr_cursor + len) self.msg)),
      record self { attr_cursor = self.attr_cursor + (len + pad_len len) },
    )
    else err plain_exception

abbrev pub read_header : StunMsg → Bytes → Result (Attr × StunMsg)
read_header self attr_hdr =
    let (attr, len) : ℕ × ℕ = (u16_at attr_hdr 0, u16_at attr_hdr 2) in
    let behind = record self { attr_cursor = self.attr_cursor + 4 } in
    if len == 0 then ok ((some attr, some 0, none), behind) else read_data behind attr len

unfoldable pub read_attr : StunMsg → Result (Attr × StunMsg)
read_attr self =
    if ltb (self.attr_cursor + 3) (length self.msg)
    then read_header self (slice self.attr_cursor (self.attr_cursor + 4) self.msg)
    else ok ((none, none, none), self)

-- The body of the message and what lies behind it, once the length is known not to be 0.
abbrev pub take_body : StunMsg → Bytes → Result (StunMsg × Option Bytes)
take_body self buf =
    if leb (20 + (self.msg_len - 1)) (length buf - 1)
    then ok (
      record self { msg = slice 20 (20 + self.msg_len) buf },
      some (drop (20 + self.msg_len) buf),
    )
    else err plain_exception

abbrev pub header_of : StunMsg → Bytes → StunMsg
header_of self buf = record self {
  msg_type = slice 0 2 buf;
  msg_len = u16_at buf 2;
  magic_cookie = slice 4 8 buf;
  txn_id = slice 8 20 buf;
  attr_cursor = 0;
}

-- A buffer that is too short leaves the object as it was.
unfoldable pub decode : StunMsg → Bytes → Result (StunMsg × Option Bytes)
decode self buf =
    let read = header_of self buf in
    if leb 20 (length buf)
    then (if u16_at buf 2 == 0 then ok (read, none) else take_body read buf)
    else ok (record self { attr_cursor = 0 }, none)

-- `unpack` with its default mode; `rand_b(12)` gave `fresh`.
unfoldable pub unpack : Bytes → Bytes → Result (StunMsg × Option Bytes)
unpack fresh buf = decode (stun_msg fresh binding request rfc3489) buf
