-- ===== src/Pcap/Checksum.antt =====
-- `checksum16` of net/pcap/ip/ipv4.py: the Internet checksum of RFC 1071.
pub mod Sum
pub mod Verify
use aionetiface.Prelude.{ℕ, zero, suc, ◌+◌, ◌-◌, ◌*◌, ◌/◌, ◌%◌, ◌^◌, bit_or}
use aionetiface.Prelude.{List, [], ◌∷◌, ◌++◌, length, ◌==◌, if◌then◌else◌}
use aionetiface.Bytes.{Bytes}

-- One carry fold: the low 16 bits plus what stands above them.
abbrev pub fold_carry : ℕ → ℕ
fold_carry total = total % 2 ^ 16 + total / 2 ^ 16

-- The body of the `for` loop over pairs of bytes; the padding leaves no single byte at the end.
pub add_words : Bytes → ℕ → ℕ
add_words (b ∷ c ∷ rest) total = add_words rest (fold_carry (total + bit_or (b * 2 ^ 8) c))
add_words _ total = total

-- `while total >> 16`: the fuel is the total itself, which every fold makes smaller.
pub fold_all : ℕ → ℕ → ℕ
fold_all zero total = total
fold_all (suc fuel) total =
    let again = fold_all fuel (fold_carry total) in if total / 2 ^ 16 == 0 then total else again

-- `len(buf) & 1`, and the zero byte behind a string of odd length.
pub pad_even : Bytes → Bytes
pad_even buf = if length buf % 2 == 0 then buf else buf ++ (0 ∷ [])

-- `(~total) & 0xffff` is 0xffff less the low 16 bits.
pub checksum16 : Bytes → ℕ
checksum16 data_bytes =
    let total = add_words (pad_even data_bytes) 0 in 2 ^ 16 - 1 - fold_all total total % 2 ^ 16
