-- ===== src/IpRange/Values.antt =====
-- The values of an `IpRange` against the block of numbers that it stands for.
use aionetiface.Prelude.{ℕ, ◌+◌, ◌-◌, ◌%◌, ◌≤◌, ◌<◌, ◌≡◌, ◌↔◌, arith, max, true}
use aionetiface.IpRange.{
  range_intersects, IpRange, Index, pos, negsuc, wrapped_offset, host_at, get_value,
}

-- Two ranges meet exactly when they have a number in common. Each ends no earlier than it starts.
pub range_intersects_iff :
    (a b : ℕ × ℕ)
    → a.0 ≤ a.1
    → b.0 ≤ b.1
    → (range_intersects a b ≡ true) ↔ ((n : ℕ) × (a.0 ≤ n) × (n ≤ a.1) × (b.0 ≤ n) × (n ≤ b.1))
unfolding range_intersects
range_intersects_iff (a, a') (b, b') ha hb = (
  λ h. (max a b, omega arith, ground arith, omega arith, ground arith),
  λ (n, p, q, r, s). ground arith,
)

wrapped_offset_le : (i : Index) (n : ℕ) → wrapped_offset i (n + 1) ≤ n
unfolding wrapped_offset
wrapped_offset_le (pos k) n = grind arith
wrapped_offset_le (negsuc k) n = grind arith

-- Every index of a block, of either sign and of any size, gives an address inside the block.
pub get_value_within :
    (b : IpRange) (i : Index)
    → 1 ≤ b.host_no
    → (b.i_nw ≤ get_value b i) × (get_value b i ≤ b.i_nw + b.host_no)
unfolding get_value host_at
get_value_within b i h = ground (arith, wrapped_offset_le i b.host_no)

small : (n m : ℕ) → n < m → n % m ≡ n
small n m h = grind arith

-- Below the number of hosts an index counts from the first host upwards, and a negative one from
-- the last host downwards. The block has host bits.
pub get_value_counts :
    (b : IpRange) (n : ℕ)
    → 1 ≤ b.bitlen
    → n < b.host_no
    → (get_value b (pos n) ≡ b.i_nw + (n + 1)) × (get_value b (negsuc n) ≡ b.i_nw + (b.host_no - n))
unfolding get_value host_at wrapped_offset
get_value_counts b n some_bits h = (
  ground (arith, small (n + 1) (b.host_no + 1) (omega arith)),
  ground (arith, small n (b.host_no + 1) (omega arith)),
)
