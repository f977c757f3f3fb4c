-- ===== src/Stun/Message/Integrity.antt =====
-- The attribute that `write_hmac` appends, as a receiver checks it.
use aionetiface.Prelude.{ℕ, ◌+◌, ◌^◌, ◌<◌, ◌≡◌, refl, ap, ◌∙◌, arith, length, ◌++◌}
use aionetiface.Prelude.{append_assoc}
use aionetiface.Bytes.{Bytes, be16, ok, ◌>>=◌}
use aionetiface.Stun.Address.{message_integrity}
use aionetiface.Stun.Message.{StunMsg, pad_len, wire_type, pack_msg, write_hmac}
use aionetiface.Stun.Message.Reading.{attr_wire, length-attr_wire}
use aionetiface.Stun.Message.Writing.{with_wire, write_attr-raw, pack_msg-written}

-- The header that a message has on the wire for a body of `len` bytes.
abbrev pub header : StunMsg → ℕ → Bytes
header m len = wire_type m ++ (be16 len ++ (m.magic_cookie ++ m.txn_id))

-- RFC 8489, 14.5: the digest is over the message up to the attribute, with the length field as
-- if the attribute were its end; here the attribute is the last, and the packed message is this
-- text with the attribute behind it. The digest has 20 bytes, `msg_len` is that of the body, and
-- the message fits with the attribute.
pub write_hmac-covers :
    (hmac_sha1 : Bytes → Bytes → Bytes) (m : StunMsg) (key : Bytes)
    → ((k text : Bytes) → length (hmac_sha1 k text) ≡ 20)
    → m.msg_len ≡ length m.msg
    → length m.msg + 24 < 2 ^ 16
    → (write_hmac hmac_sha1 m key >>= pack_msg)
      ≡ ok (
          header m (length m.msg + 24)
          ++ m.msg
          ++ attr_wire message_integrity (hmac_sha1 key (header m (length m.msg + 24) ++ m.msg)))
unfolding write_hmac
write_hmac-covers hmac_sha1 m key digest full short =
    let len = length m.msg + 24 in
    let counted = record m { msg_len = m.msg_len + 24 } in
    let text = header m len ++ m.msg in
    let code = hmac_sha1 key text in
    let size = digest key text in
    let signed = with_wire m (attr_wire message_integrity code) in
    let digested : pack_msg counted ≡ ok text =
      pack_msg-written counted len (omega arith) short ∙ ap ok (simp append_assoc refl) in
    let grown : signed.msg_len ≡ len =
      omega (arith, length-attr_wire message_integrity code, ap pad_len size) in
    rw (digested, write_attr-raw m message_integrity code (omega arith) (omega arith))
      (pack_msg-written signed len grown short ∙ ap ok (simp append_assoc refl))
