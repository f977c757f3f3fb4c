-- ===== src/IpRange.antt =====
-- net/ip_range.py: the arithmetic of the class `IPRange`, a block of addresses, on numbers; and
-- `get_bits` and `range_intersects` of utility/utils.py. The texts of addresses, the netmask in
-- place of a bit length, and the tests for private addresses are left out.
pub mod Values
mod Runs
use aionetiface.Prelude.{ℕ, zero, suc, ◌+◌, ◌-◌, ◌*◌, ◌/◌, ◌%◌, ◌^◌, Bool, true, false, ◌&&◌, ◌||◌}
use aionetiface.Prelude.{List, [], ◌∷◌, length, ltb, leb, ◌==◌, if◌then◌else◌}
use aionetiface.Bytes.{Result, ok, err, value_error}

-- `mask & (n >> position)` with a mask of `length` ones.
unfoldable pub get_bits : ℕ → ℕ → ℕ → ℕ
get_bits n length position = n / 2 ^ position % 2 ^ length

-- A pair of numbers is a range. Python's `sorted` compares the starts first, then the ends.
pub range_intersects : ℕ × ℕ → ℕ × ℕ → Bool
range_intersects a b =
    if a.0 == b.0 && a.1 == b.1
    then true
    else if ltb b.0 a.0 || (a.0 == b.0 && ltb b.1 a.1)
    then leb a.0 b.1
    else leb b.0 a.1

pub record IpRange : Type 0 where
  pub bitlen : ℕ
  pub i_host : ℕ
  pub i_nw : ℕ
  pub host_no : ℕ
  pub r : ℕ × ℕ

-- `__init__` from the address as a number: `max_bits` is 32 or 128.
unfoldable pub ip_range : ℕ → ℕ → ℕ → Result IpRange
ip_range max_bits ip bitlen =
    let i_host = if bitlen == 0 then 0 else get_bits ip bitlen 0 in
    let i_nw = ip - i_host in
    let host_no = if bitlen == 0 || bitlen == max_bits then 1 else 2 ^ bitlen - 1 in
    let last = if bitlen == 0 then i_nw else i_nw + host_no in
    if ltb max_bits bitlen
    then err value_error
    else ok record {
      bitlen = bitlen;
      i_host = i_host;
      i_nw = i_nw;
      host_no = host_no;
      r = (i_nw, last);
    }

-- `__int__`
unfoldable to_int : IpRange → ℕ
to_int b = b.i_nw + b.i_host

-- An index of Python: `negsuc n` is `-(n + 1)`.
pub data Index : Type 0 where
  pos negsuc : ℕ → Index

-- `offset % m` of Python, which is not negative: `-(n + 1) % m` is `m - 1 - n % m`.
pub wrapped_offset : Index → ℕ → ℕ
wrapped_offset (pos n) m = (n + 1) % m
wrapped_offset (negsuc n) m = m - 1 - n % m

-- The `or 1` behind the modulus.
pub host_at : IpRange → Index → ℕ
host_at b i = let host = wrapped_offset i (b.host_no + 1) in if host == 0 then 1 else host

-- `get_value`, as a number.
pub get_value : IpRange → Index → ℕ
get_value b i = if b.bitlen == 0 then b.i_nw else b.i_nw + host_at b i

-- `__eq__`, `__contains__` and `__lt__`.
unfoldable meets : IpRange → IpRange → Bool
meets a b = range_intersects a.r b.r

unfoldable precedes : IpRange → IpRange → Bool
precedes a b = ltb a.r.1 b.r.1

-- What `IPRangeIter` yields from `host_p` on, for the rounds that are left.
unfoldable hosts_from : IpRange → ℕ → ℕ → List ℕ
hosts_from b host_p zero = []
hosts_from b host_p (suc left) = get_value b (pos host_p) ∷ hosts_from b (suc host_p) left

unfoldable hosts : IpRange → List ℕ
hosts b = hosts_from b 0 b.host_no
