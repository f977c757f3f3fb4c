-- ===== src/Stun/Runs.antt =====
-- Runs of the STUN client on small inputs.
use aionetiface.Prelude.{ℕ, ◌≡◌, refl, arith, [], ◌∷◌, ◌++◌, replicate}
use aionetiface.Prelude.{Option, none, some}
use aionetiface.Bytes.{Bytes, Result, ok, ◌>>=◌, byte_at}
use aionetiface.Stun.Address.{ip4, ip6, stun_magic_cookie, xor_mapped_address, message_integrity}
use aionetiface.Stun.Address.Laws.{masked_attribute, addr_of}
use aionetiface.Stun.Message.{
  StunMsg, rfc3489, rfc5389, stun_msg, binding, request, write_attrs, pack_msg, write_hmac,
}
use aionetiface.Stun.Message.Reading.{attr_wire}
use aionetiface.Stun.Message.Writing.{Attrs, AttrsFit, raw_all}
use aionetiface.Stun.Message.Integrity.{header, write_hmac-covers}
use aionetiface.Stun.Proto.{stun_proto, with_rest}
use aionetiface.Stun.Proto.Loop.{read_all}
use aionetiface.Stun.Proto.Exchange.{received_msg, written_msg, stun_proto-pack_msg}
use aionetiface.Stun.Proto.Reply.{IsPlain, success_resp, stun_proto-mapped}
use aionetiface.Stun.Proto.Ending.{stun_proto_ends}
use aionetiface.Stun.Proto.Stall.{stun_proto_stalls}

abbrev txn : Bytes
txn = 7 ∷ 1 ∷ 2 ∷ 3 ∷ 4 ∷ 5 ∷ 6 ∷ 7 ∷ 8 ∷ 9 ∷ 10 ∷ 11 ∷ []

abbrev host : Bytes
host = 192 ∷ 0 ∷ 2 ∷ 33 ∷ []

-- The bytes of RFC 5769, 2.2, of a reply with this address.
abbrev rfc_txn : Bytes
rfc_txn = 0xb7 ∷ 0xe7 ∷ 0xa7 ∷ 0x01 ∷ 0xbc ∷ 0x34 ∷ 0xd6 ∷ 0x86 ∷ 0xfa ∷ 0x87 ∷ 0xdf ∷ 0xae ∷ []

masked_bytes :
    masked_attribute ip4 (192 ∷ 0 ∷ 2 ∷ 1 ∷ []) 32853 rfc_txn
    ≡ 0 ∷ 1 ∷ 0xa1 ∷ 0x47 ∷ 0xe1 ∷ 0x12 ∷ 0xa6 ∷ 0x43 ∷ []
masked_bytes = refl

-- Two attributes without an address: a software name, and one of no bytes.
abbrev named : Attrs
named = (0x8022, 97 ∷ 105 ∷ 111 ∷ []) ∷ []

abbrev ended : Attrs
ended = (0x001a, []) ∷ []

abbrev answer : Attrs
answer = named ++ (xor_mapped_address, masked_attribute ip4 host 3478 txn) ∷ ended

named-IsPlain : IsPlain named
named-IsPlain = (
  (
    λ e. absurd (omega arith),
    λ e. absurd (omega arith),
    λ e. absurd (omega arith),
    λ e. absurd (omega arith),
  ),
  tt,
)

ended-IsPlain : IsPlain ended
ended-IsPlain = (
  (
    λ e. absurd (omega arith),
    λ e. absurd (omega arith),
    λ e. absurd (omega arith),
    λ e. absurd (omega arith),
  ),
  tt,
)

named-AttrsFit : AttrsFit named
named-AttrsFit = ((omega arith, omega arith), tt)

answer-AttrsFit : AttrsFit answer
answer-AttrsFit =
    ((omega arith, omega arith), ((omega arith, omega arith), ((omega arith, omega arith), tt)))

stun_proto-mapped_example :
    (buf : Bytes) × ((write_attrs (stun_msg txn binding success_resp rfc5389) (raw_all answer)
        >>= pack_msg)
      ≡ ok buf)
    × (m : StunMsg) × (stun_proto 3 [] buf ip6 ≡ some (ok (m, some [])))
    × (m.rtup ≡ some (addr_of ip4 host 3478))
    × (m.txn_id ≡ txn)
stun_proto-mapped_example =
    stun_proto-mapped 3 [] txn ip6 ip4 host 3478 named ended named-IsPlain ended-IsPlain refl refl
      answer-AttrsFit (omega arith) (omega arith)

stun_proto-pack_msg_example :
    (buf : Bytes) × ((write_attrs (stun_msg txn binding request rfc3489) (raw_all named)
        >>= pack_msg)
      ≡ ok buf)
    × (stun_proto 1 [] buf ip4
        ≡ some (
            with_rest
              (read_all ip4 named
                (received_msg [] ip4 (written_msg txn binding request rfc3489 named)))
              (some [])))
stun_proto-pack_msg_example =
    stun_proto-pack_msg 1 [] txn ip4 rfc3489 0 1 0 0 named refl named-AttrsFit (omega arith)
      (omega arith) (omega arith)

-- A header with a length field and as many zero bytes.
abbrev zeros : ℕ → Bytes
zeros n = 1 ∷ 1 ∷ 0 ∷ n ∷ stun_magic_cookie ++ txn ++ replicate n 0

stun_proto_ends_example :
    (r : Result (StunMsg × Option Bytes)) × (stun_proto 1 [] (zeros 5) ip4 ≡ some r)
stun_proto_ends_example = stun_proto_ends 1 [] (zeros 5) ip4 (omega arith) (omega arith)

stun_proto_stalls_example : stun_proto 100 [] (zeros 2) ip4 ≡ none
stun_proto_stalls_example =
    stun_proto_stalls 100 [] (zeros 2) ip4 (omega arith) (omega arith) (omega arith)

-- A digest that is no digest, but has its length.
abbrev digest : Bytes → Bytes → Bytes
digest key text = replicate 20 (byte_at key 0)

abbrev plain : StunMsg
plain = stun_msg txn binding request rfc5389

write_hmac-covers_example :
    (write_hmac digest plain (5 ∷ []) >>= pack_msg)
    ≡ ok (
        header plain 24
        ++ []
        ++ attr_wire message_integrity (digest (5 ∷ []) (header plain 24 ++ [])))
write_hmac-covers_example =
    write_hmac-covers digest plain (5 ∷ []) (λ key text. refl) refl (omega arith)
