-- ===== src/Stun/Proto/Reply.antt =====
-- The reply of a server to a binding request: what the client learns from it.
use aionetiface.Prelude.{ℕ, ◌^◌, ◌≤◌, ◌<◌, ◌≡◌, ◌≢◌, refl, sym, ap, ◌∙◌, arith}
use aionetiface.Prelude.{
  [], ◌∷◌, ◌++◌, length, length-append, append-nil, Option, none, some, ==-eq_false,
}
use aionetiface.Bytes.{Bytes, ok, ◌>>=◌}
use aionetiface.Stun.Address.{Family, Addr, ip4, ip6, stun_magic_cookie, ip_len}
use aionetiface.Stun.Address.{mapped_address, changed_address}
use aionetiface.Stun.Address.{xor_mapped_address, xor_mapped_address_x}
use aionetiface.Stun.Address.Laws.{masked_attribute, addr_of, unpack-masked_attribute}
use aionetiface.Stun.Message.{StunMsg, rfc5389, stun_msg, binding, write_attrs, pack_msg}
use aionetiface.Stun.Message.Reading.{content}
use aionetiface.Stun.Message.Writing.{Attrs, attrs_wire, raw_all, AttrsFit}
use aionetiface.Stun.Proto.{stun_proto, stun_proc_attrs, with_rest, find_rtup, find_ctup}
use aionetiface.Stun.Proto.Loop.{read_all, moved}
use aionetiface.Stun.Proto.Exchange.{received_msg, written_msg, stun_proto-pack_msg}

-- Attributes that carry no address for the client.
abbrev pub IsPlain : Attrs → Type 0
IsPlain [] = Unit {0}
IsPlain ((code, bytes) ∷ attrs) =
    ((code ≢ mapped_address)
      × (code ≢ changed_address)
      × (code ≢ xor_mapped_address)
      × (code ≢ xor_mapped_address_x))
    × IsPlain attrs

rtup_kept :
    (family : Family) (code : ℕ) (bytes : Option Bytes) (m : StunMsg) (known : Option Addr)
    → code ≢ mapped_address
    → code ≢ xor_mapped_address
    → code ≢ xor_mapped_address_x
    → find_rtup family (some code) bytes m known ≡ ok known
rtup_kept family code bytes m (some found) a b c = refl
rtup_kept family code bytes m none a b c = rw (
  ==-eq_false code mapped_address a,
  ==-eq_false code xor_mapped_address b,
  ==-eq_false code xor_mapped_address_x c,
)

ctup_kept :
    (family : Family) (code : ℕ) (bytes : Option Bytes) (known : Option Addr)
    → code ≢ changed_address
    → find_ctup family (some code) bytes known ≡ ok known
ctup_kept family code bytes (some found) a = refl
ctup_kept family code bytes none a = rw (==-eq_false code changed_address a)

proc_plain :
    (family : Family) (code : ℕ) (bytes : Option Bytes) (m : StunMsg)
    → code ≢ mapped_address
    → code ≢ changed_address
    → code ≢ xor_mapped_address
    → code ≢ xor_mapped_address_x
    → stun_proc_attrs family (some code) bytes m ≡ ok m
unfolding stun_proc_attrs
proc_plain family code bytes m a b c d =
    rw (rtup_kept family code bytes m m.rtup a c d, ctup_kept family code bytes m.ctup b)

-- Plain attributes move the cursor and nothing else.
skip_plain :
    (family : Family) (plain back : Attrs) (m : StunMsg)
    → IsPlain plain
    → (cursor : ℕ) × (read_all family (plain ++ back) m
        ≡ read_all family back (record m { attr_cursor = cursor }))
unfolding read_all
skip_plain family [] back m h = (m.attr_cursor, refl)
skip_plain family ((code, bytes) ∷ plain) back m ((a, b, c, d), h) =
    let (cursor, rest) = skip_plain family plain back (moved m bytes) h in
    (cursor, rw (proc_plain family code (content bytes) (moved m bytes) a b c d) rest)

content-masked_attribute :
    (f : Family) (host : Bytes) (number : ℕ) (txn : Bytes)
    → content (masked_attribute f host number txn) ≡ some (masked_attribute f host number txn)
content-masked_attribute ip4 host number txn = refl
content-masked_attribute ip6 host number txn = refl

-- The masked attribute of a message that has no address yet.
proc_masked :
    (family f : Family) (host : Bytes) (number : ℕ) (m : StunMsg)
    → length host ≡ ip_len f
    → length m.txn_id ≡ 12
    → m.magic_cookie ≡ stun_magic_cookie
    → m.rtup ≡ none
    → m.ctup ≡ none
    → stun_proc_attrs family
        (some xor_mapped_address)
        (some (masked_attribute f host number m.txn_id))
        m
      ≡ ok (record m { rtup = some (addr_of f host number) })
unfolding stun_proc_attrs
proc_masked family f host number m h k cookie no_rtup no_ctup =
    rw (no_rtup, no_ctup, cookie, (unpack-masked_attribute f family host number m.txn_id h k).0)

-- Among plain attributes the masked one is found.
read_all-masked :
    (family f : Family) (host : Bytes) (number : ℕ) (before after : Attrs) (m : StunMsg)
    → IsPlain before
    → IsPlain after
    → length host ≡ ip_len f
    → length m.txn_id ≡ 12
    → m.magic_cookie ≡ stun_magic_cookie
    → m.rtup ≡ none
    → m.ctup ≡ none
    → (cursor : ℕ) × (read_all family
          (before ++ (xor_mapped_address, masked_attribute f host number m.txn_id) ∷ after)
          m
        ≡ ok (record m { attr_cursor = cursor; rtup = some (addr_of f host number) }))
unfolding read_all
read_all-masked family f host number before after m h k fits full cookie no_rtup no_ctup =
    let masked = masked_attribute f host number m.txn_id in
    let (start, skipped) = skip_plain family before ((xor_mapped_address, masked) ∷ after) m h in
    let at = moved (record m { attr_cursor = start }) masked in
    let known = record at { rtup = some (addr_of f host number) } in
    let (end, rest) = skip_plain family after [] known k in
    (
      end,
      skipped
          ∙ rw
              (
                content-masked_attribute f host number m.txn_id,
                proc_masked family f host number at fits full cookie no_rtup no_ctup,
              )
              (ap (λ t. read_all family t known) (sym (append-nil after)) ∙ rest),
    )

abbrev pub success_resp : Bytes
success_resp = 1 ∷ 0 ∷ []

-- A server answers with the masked attribute of an address among others that carry none. The
-- client that unpacks the answer has this address as its own, whatever the address family of its
-- socket is, and whatever number its new object drew. The address has the length of its family,
-- the transaction twelve bytes, the attributes fit their fields and the message its length field,
-- and there is a round for each attribute.
pub stun_proto-mapped :
    (rounds : ℕ) (fresh txn : Bytes) (family f : Family) (host : Bytes) (number : ℕ)
    (before after : Attrs)
    → IsPlain before
    → IsPlain after
    → length host ≡ ip_len f
    → length txn ≡ 12
    → AttrsFit (before ++ (xor_mapped_address, masked_attribute f host number txn) ∷ after)
    → length
        (attrs_wire (before ++ (xor_mapped_address, masked_attribute f host number txn) ∷ after))
      < 2 ^ 16
    → length (before ++ (xor_mapped_address, masked_attribute f host number txn) ∷ after) ≤ rounds
    → (buf : Bytes) × ((write_attrs
            (stun_msg txn binding success_resp rfc5389)
            (raw_all (before ++ (xor_mapped_address, masked_attribute f host number txn) ∷ after))
          >>= pack_msg)
        ≡ ok buf)
      × (m : StunMsg) × (stun_proto rounds fresh buf family ≡ some (ok (m, some [])))
      × (m.rtup ≡ some (addr_of f host number))
      × (m.txn_id ≡ txn)
stun_proto-mapped rounds fresh txn family f host number before after h k fits full fit short
      enough =
    let attrs = before ++ (xor_mapped_address, masked_attribute f host number txn) ∷ after in
    let some_attr : 1 ≤ length attrs = omega (
      arith,
      length-append before ((xor_mapped_address, masked_attribute f host number txn) ∷ after),
    ) in
    let (buf, packed, looped) =
      stun_proto-pack_msg rounds fresh txn family rfc5389 0 1 1 0 attrs full fit short some_attr
        enough in
    let start = received_msg fresh family (written_msg txn binding success_resp rfc5389 attrs) in
    let (cursor, learnt) =
      read_all-masked family f host number before after start h k fits full refl refl refl in
    (
      buf,
      packed,
      record start { attr_cursor = cursor; rtup = some (addr_of f host number) },
      looped ∙ ap (λ r. some (with_rest r (some []))) learnt,
      refl,
      refl,
    )
