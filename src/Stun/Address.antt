-- ===== src/Stun/Address.antt =====
-- The class `STUNAddrTup` of aionetiface/protocol/stun/stun_defs.py. An IP address is its bytes
-- in network order, as `inet_pton` gives them; an attribute code is the number of its two bytes.
pub mod Laws
use aionetiface.Prelude.{ℕ, ◌+◌, ◌*◌, Bool, true, false, not, ◌||◌, Option, none, some}
use aionetiface.Prelude.{List, [], ◌∷◌, ◌++◌, length, ltb, ◌==◌, if◌then◌else◌}
use aionetiface.Bytes.{Bytes, Result, ok, err, ◌>>=◌, ◌>>◌, fail_if, value_error, type_error}
use aionetiface.Bytes.{os_error, slice, u16_at, u16}
use aionetiface.Bytes.{pack}
use aionetiface.Utility.Buffers.{xor_bufs}

pub data Family : Type 0 where
  ip4 ip6 : Family

-- The attribute codes that the modelled code compares or writes.
abbrev pub mapped_address : ℕ
mapped_address = 0x0001

abbrev pub changed_address : ℕ
changed_address = 0x0005

abbrev pub username : ℕ
username = 0x0006

abbrev pub message_integrity : ℕ
message_integrity = 0x0008

abbrev pub xor_peer_address : ℕ
xor_peer_address = 0x0012

abbrev pub realm : ℕ
realm = 0x0014

abbrev pub nonce : ℕ
nonce = 0x0015

abbrev pub xor_relayed_address : ℕ
xor_relayed_address = 0x0016

abbrev pub xor_mapped_address : ℕ
xor_mapped_address = 0x0020

abbrev pub transaction_transmit_counter : ℕ
transaction_transmit_counter = 0x8025

abbrev pub xor_mapped_address_x : ℕ
xor_mapped_address_x = 0x8020

abbrev pub stun_magic_cookie : Bytes
stun_magic_cookie = 0x21 ∷ 0x12 ∷ 0xa4 ∷ 0x42 ∷ []

abbrev pub stun_magic_xor : Bytes
stun_magic_xor = 0 ∷ 0 ∷ 0x21 ∷ 0x12 ∷ stun_magic_cookie

-- What `addr_bufs_to_tup` makes of the two buffers, with the family that it is printed in.
pub record Addr : Type 0 where
  pub fam : Family
  pub ip_bytes : Bytes
  pub port_number : ℕ

-- `tup` is `None` where the code has the empty tuple.
pub record StunAddrTup : Type 0 where
  pub ip : Bytes
  pub port : ℕ
  pub af : Family
  pub txid : Bytes
  pub magic_cookie : Bytes
  pub tup : Option Addr

abbrev pub stun_addr_tup : Bytes → ℕ → Family → Bytes → Bytes → StunAddrTup
stun_addr_tup host number family txn cookie = record {
  ip = host;
  port = number;
  af = family;
  txid = txn;
  magic_cookie = cookie;
  tup = none;
}

abbrev pub get_family_buf : Family → Bytes
get_family_buf ip4 = 0 ∷ 1 ∷ []
get_family_buf ip6 = 0 ∷ 2 ∷ []

-- The length of an address, and of an attribute with one.
abbrev pub ip_len : Family → ℕ
ip_len ip4 = 4
ip_len ip6 = 16

abbrev pub min_len : Family → ℕ
min_len ip4 = 8
min_len ip6 = 20

-- An attribute of no bytes has the data `None`, on which `len` raises.
unfoldable pub get_addr_bufs : Family → Option Bytes → Result (Bytes × Bytes)
get_addr_bufs family none = err type_error
get_addr_bufs family (some attr_data) =
    if ltb (length attr_data) (min_len family)
    then err value_error
    else ok (slice 4 (min_len family) attr_data, slice 2 4 attr_data)

abbrev is_one_byte : ℕ → Bytes → Bool
is_one_byte n [] = false
is_one_byte n (x ∷ []) = x == n
is_one_byte n (x ∷ y ∷ rest) = false

-- The exception that slicing `None` raises is caught.
unfoldable pub get_attr_family : Option Bytes → Family
get_attr_family none = ip4
get_attr_family (some attr_data) = if is_one_byte 2 (slice 1 2 attr_data) then ip6 else ip4

abbrev pub addr_bufs_to_tup : Family → Bytes → Bytes → Addr
addr_bufs_to_tup family ip_buf port_buf = record {
  fam = family;
  ip_bytes = ip_buf;
  port_number = u16_at port_buf 0;
}

-- The first test of `decode`: both buffers are unmasked, each from the start of the mask.
abbrev unmask_bufs : StunAddrTup → ℕ → Bytes × Bytes → Result (Bytes × Bytes)
unmask_bufs self code (ip_buf, port_buf) =
    let mask = self.magic_cookie ++ self.txid in
    if code == xor_mapped_address_x
    then (do
      new_port ← xor_bufs port_buf mask
      new_ip ← xor_bufs ip_buf mask
      ok (new_ip, new_port))
    else ok (ip_buf, port_buf)

abbrev is_xor_code : ℕ → Bool
is_xor_code code =
    code == xor_mapped_address || code == xor_peer_address || code == xor_relayed_address

-- `if len(self.txid): data = xor_bufs(data, mask)`
abbrev unmask_data : StunAddrTup → Option Bytes → Result (Option Bytes)
unmask_data self none = err type_error
unmask_data self (some attr_data) =
    let mask = 0 ∷ 0 ∷ 0x21 ∷ 0x12 ∷ self.magic_cookie ++ self.txid in
    if ltb 0 (length self.txid)
    then (xor_bufs attr_data mask >>= λ clear. ok (some clear))
    else ok (some attr_data)

-- The second test of `decode`: the attribute is unmasked as a whole and cut again.
abbrev unmask_whole :
    StunAddrTup
    → ℕ
    → Family
    → Option Bytes
    → Bytes × Bytes
    → Result ((Bytes × Bytes) × Option Bytes)
unmask_whole self code family attr_data bufs =
    if is_xor_code code
    then (do clear ← unmask_data self attr_data; cut ← get_addr_bufs family clear; ok (cut, clear))
    else ok (bufs, attr_data)

-- What `decode` does with the buffers that it has cut.
unfoldable pub unmask_both :
    StunAddrTup
    → ℕ
    → Family
    → Option Bytes
    → Bytes × Bytes
    → Result (((Bytes × Bytes) × Option Bytes) × StunAddrTup)
unmask_both self code family attr_data bufs = do
  unmasked ← unmask_bufs self code bufs
  ((ip_buf, port_buf), clear) ← unmask_whole self code family attr_data unmasked
  let whole = record self { tup = some (addr_bufs_to_tup family ip_buf port_buf) }
  ok (((ip_buf, port_buf), clear), whole)

pub decode :
    StunAddrTup → ℕ → Option Bytes → Result (((Bytes × Bytes) × Option Bytes) × StunAddrTup)
decode self code attr_data =
    let attr_af = get_attr_family attr_data in
    get_addr_bufs attr_af attr_data >>= unmask_both self code attr_af attr_data

-- `inet_pton` refuses an address of the other family.
abbrev pub inet_pton : Family → Bytes → Result Bytes
inet_pton family host = if length host == ip_len family then ok host else err os_error

-- Both of the last returns of `encode` give the bytes that `decode` left, which is why the bytes
-- that it was given need no comparison.
abbrev pub encoded :
    Result (((Bytes × Bytes) × Option Bytes) × StunAddrTup) → Result (Option Bytes × StunAddrTup)
encoded (ok ((bufs, dec_buf), self)) = ok (dec_buf, self)
encoded (err e) = err e

pub encode : StunAddrTup → ℕ → Result (Option Bytes × StunAddrTup)
encode self code = do
  ip_b ← inet_pton self.af self.ip
  port_b ← pack (u16 self.port ∷ [])
  let buf = get_family_buf self.af ++ (port_b ++ ip_b)
  encoded (decode self code (some buf))

abbrev pub filled_inst :
    Result (((Bytes × Bytes) × Option Bytes) × StunAddrTup) → Result StunAddrTup
filled_inst (ok (parts, inst)) = ok inst
filled_inst (err e) = err e

-- `unpack`: a new instance is filled, which has no address but the one in `tup`.
pub unpack : StunAddrTup → ℕ → Option Bytes → Result StunAddrTup
unpack self code attr_data =
    filled_inst (decode (stun_addr_tup [] 0 self.af self.txid self.magic_cookie) code attr_data)

-- What `unpack` leaves in `tup`.
abbrev pub tup_of : Result StunAddrTup → Result (Option Addr)
tup_of (ok field) = ok field.tup
tup_of (err e) = err e
