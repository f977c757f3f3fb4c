-- ===== src/Stun/Proto.antt =====
-- `stun_proc_attrs` and `stun_proto` of aionetiface/protocol/stun/stun_utils.py.
pub mod Loop
pub mod Exchange
pub mod Ending
pub mod Stall
pub mod Reply
use mathlib.Core.Option
use aionetiface.Prelude.{ℕ, zero, suc, Bool, true, false, ◌||◌, Option, none, some, ◌==◌}
use aionetiface.Prelude.{if◌then◌else◌, [], ◌∷◌}
use aionetiface.Bytes.{Bytes, Result, ok, err, ◌>>=◌}
use aionetiface.Stun.Address.{
  Family, Addr, StunAddrTup, stun_addr_tup, unpack, tup_of, stun_magic_xor,
}
use aionetiface.Stun.Address.{mapped_address, changed_address}
use aionetiface.Stun.Address.{xor_mapped_address, xor_mapped_address_x}
use aionetiface.Stun.Message
use aionetiface.Stun.Message.{StunMsg, Attr, eof, read_attr}

-- The instance that unmasks with the message's cookie and number, and the plain one.
abbrev pub masked_tup : Family → StunMsg → StunAddrTup
masked_tup family m = stun_addr_tup [] 0 family m.txn_id m.magic_cookie

abbrev pub plain_tup : Family → StunAddrTup
plain_tup family = stun_addr_tup [] 0 family [] stun_magic_xor

abbrev mapped_tup : Family → ℕ → Option Bytes → StunMsg → Result (Option Addr)
mapped_tup family attr attr_data m =
    if attr == xor_mapped_address_x || attr == xor_mapped_address
    then tup_of (unpack (masked_tup family m) attr attr_data)
    else (if attr == mapped_address
        then tup_of (unpack (plain_tup family) attr attr_data)
        else ok none)

-- The first test, and what becomes of `rtup`: an address that is there stays.
abbrev find_rtup : Family → Option ℕ → Option Bytes → StunMsg → Option Addr → Result (Option Addr)
find_rtup family attr_code attr_data m (some found) = ok (some found)
find_rtup family none attr_data m none = ok none
find_rtup family (some attr) attr_data m none = mapped_tup family attr attr_data m

-- The second test, and what becomes of `ctup`.
abbrev find_ctup : Family → Option ℕ → Option Bytes → Option Addr → Result (Option Addr)
find_ctup family attr_code attr_data (some found) = ok (some found)
find_ctup family none attr_data none = ok none
find_ctup family (some attr) attr_data none =
    if attr == changed_address then tup_of (unpack (plain_tup family) attr attr_data) else ok none

-- The two attributes of the object, or the first exception.
abbrev pub settle : StunMsg → Result (Option Addr) → Result (Option Addr) → Result StunMsg
settle m (err e) changed = err e
settle m (ok mapped) (err e) = err e
settle m (ok mapped) (ok changed) = ok (record m { rtup = mapped; ctup = changed })

unfoldable pub stun_proc_attrs : Family → Option ℕ → Option Bytes → StunMsg → Result StunMsg
stun_proc_attrs family attr_code attr_data m =
    settle m (find_rtup family attr_code attr_data m m.rtup)
      (find_ctup family attr_code attr_data m.ctup)

abbrev pub process : Family → Attr × StunMsg → Result StunMsg
process family ((attr_code, attr_len, attr_data), behind) =
    stun_proc_attrs family attr_code attr_data behind

-- One round of the loop.
unfoldable pub take_attr : Family → StunMsg → Result StunMsg
take_attr family m = read_attr m >>= process family

-- An exception ends the loop.
abbrev pub go_on : (StunMsg → Option (Result StunMsg)) → Result StunMsg → Option (Result StunMsg)
go_on next (ok m) = next m
go_on next (err e) = some (err e)

-- The loop, which need not end: `none` when the rounds are spent.
unfoldable pub proto_loop : ℕ → Family → StunMsg → Option (Result StunMsg)
proto_loop zero family m = if eof m then some (ok m) else none
proto_loop (suc rounds) family m =
    if eof m then some (ok m) else go_on (proto_loop rounds family) (take_attr family m)

abbrev pub with_rest : Result StunMsg → Option Bytes → Result (StunMsg × Option Bytes)
with_rest (ok m) rest = ok (m, rest)
with_rest (err e) rest = err e

abbrev pub run_loop :
    ℕ → Family → Result (StunMsg × Option Bytes) → Option (Result (StunMsg × Option Bytes))
run_loop rounds family (err e) = some (err e)
run_loop rounds family (ok (m, rest)) =
    Option.map (λ read. with_rest read rest)
      (proto_loop rounds family (record m { af = some family }))

-- `stun_proto` on `rounds` rounds of its loop: the message and what lies behind it.
unfoldable pub stun_proto : ℕ → Bytes → Bytes → Family → Option (Result (StunMsg × Option Bytes))
stun_proto rounds fresh buf family = run_loop rounds family (Message.unpack fresh buf)
